-- ===== src/ThreadPool/Workers/Threads.antt =====
-- MyNet/base/ThreadPool.cc: no worker is lost between the places of `runInThread`.
use my_net.Common.{
  ℕ, ◌+◌, ◌<◌, ◌≡◌, refl, ap, ◌∙◌, ◌⊎◌, inl, inr, Bool, true, false, Bool-cases, List, [], ◌∷◌,
  ◌++◌, length, length-append, arith,
}
use my_net.Common.Outcome.{done}
use my_net.Condition.{wait, notify, notify_all, resume}
use my_net.ThreadPool.{
  Pool, before_start, set_max_queue_size, set_thread_init_func, start, stop, destroy, queue_task,
  run, take_task, get_task, run_again, get_task_again, wake_run, wake_worker, after_get,
}
use my_net.ThreadPool.Workers

module _ {T : Type 0} where
  -- The workers of which the pool's condition knows.
  abbrev pub at_condition : Pool T → ℕ
  at_condition p = p.not_empty.waiting + p.not_empty.woken

  abbrev pub all_workers : Workers.Workers T → ℕ
  all_workers w =
      w.starting + w.testing + w.entering + at_condition w.pool + length w.in_hand + w.ended

  -- A stretch of `getTask`, by a worker that has been taken away from where it was.
  record Taken (before : Pool T) (testing : ℕ) (hand : List T) (after : Pool T) (testing' : ℕ)
      (hand' : List T) : Type 0 where
    same_threads : after.threads ≡ before.threads
    same_running : after.running ≡ before.running
    one_more_worker :
        testing' + at_condition after + length hand'
        ≡ testing + at_condition before + length hand + 1

  take_task-Taken :
      (ts : List T) (p : Pool T) (n : ℕ) (hand : List T)
      → Taken p n hand
          (take_task ts p).1
          (Workers.go_on (take_task ts p).0 n)
          (after_get (take_task ts p).0 hand)
  unfolding take_task wait
  take_task-Taken [] p n hand = elim (Bool-cases p.running) [
    | inl e ↦
        rw e (record { same_threads = refl; same_running = refl; one_more_worker = omega arith })
    | inr e ↦
        rw e (record { same_threads = refl; same_running = refl; one_more_worker = omega arith })
  ]
  take_task-Taken (t ∷ ts) p n hand =
      let l = length-append hand (t ∷ []) in
      record { same_threads = refl; same_running = refl; one_more_worker = omega (arith, l) }

  pub record Inv (w : Workers.Workers T) : Type 0 where
    pub all_there : all_workers w ≡ w.pool.threads
    pub none_ended : (w.ended ≡ 0) ⊎ (w.pool.running ≡ false)

  start-Inv :
      (m n : ℕ) (i : Bool) (p : Pool T)
      → start n (before_start m i) ≡ done p
      → Inv (Workers.started_workers p)
  unfolding start before_start set_max_queue_size set_thread_init_func
  start-Inv m n false p e = ground arith
  start-Inv m n true p e = ground arith

  enter-Inv : (w : Workers.Workers T) → 0 < w.entering → Inv w → Inv (Workers.enter w)
  unfolding Workers.enter get_task
  enter-Inv w h v =
      let t = take_task-Taken w.pool.tasks w.pool w.testing w.in_hand in
      record {
        all_there = omega (arith, v.all_there, t.same_threads, t.one_more_worker);
        none_ended = ground (arith, v.none_ended, t.same_running);
      }

  enter_again-Inv :
      (w : Workers.Workers T) → 0 < w.pool.not_empty.woken → Inv w → Inv (Workers.enter_again w)
  unfolding Workers.enter_again get_task get_task_again resume
  enter_again-Inv w h v =
      let p = record w.pool { not_empty = resume w.pool.not_empty } in
      let t = take_task-Taken w.pool.tasks p w.testing w.in_hand in
      record {
        all_there = omega (arith, v.all_there, t.same_threads, t.one_more_worker);
        none_ended = ground (arith, v.none_ended, t.same_running);
      }

  pub length-between :
      (xs : List T) (t : T) (ys : List T) → length (xs ++ (t ∷ ys)) ≡ length (xs ++ ys) + 1
  length-between xs t ys = omega (arith, length-append xs (t ∷ ys), length-append xs ys)

  after_test-Inv :
      (b : Bool) (w : Workers.Workers T)
      → w.pool.running ≡ b
      → 0 < w.testing
      → Inv w
      → Inv (Workers.after_test b w)
  after_test-Inv true w e h v = record {
    all_there = omega (arith, v.all_there);
    none_ended = v.none_ended;
  }
  after_test-Inv false w e h v = record {
    all_there = omega (arith, v.all_there);
    none_ended = inr e;
  }

  pub WorkerStep-Inv : {w w' : Workers.Workers T} → Workers.WorkerStep w w' → Inv w → Inv w'
  unfolding Workers.begin_worker Workers.test_running Workers.finish
  WorkerStep-Inv (Workers.begins {w} h) v = record {
    all_there = omega (arith, v.all_there);
    none_ended = v.none_ended;
  }
  WorkerStep-Inv (Workers.tests {w} h) v = after_test-Inv w.pool.running w refl h v
  WorkerStep-Inv (Workers.enters {w} h) v = enter-Inv w h v
  WorkerStep-Inv (Workers.enters_again {w} h) v = enter_again-Inv w h v
  WorkerStep-Inv (Workers.finishes {w} before t after e) v =
      let l : length w.in_hand ≡ length (before ++ after) + 1 =
        ap length e ∙ length-between before t after in
      record { all_there = omega (arith, v.all_there); none_ended = v.none_ended }

  -- A caller moves workers at most from waiting to woken, and starts none again.
  record Same (p p' : Pool T) : Type 0 where
    threads_kept : p'.threads ≡ p.threads
    condition_kept : at_condition p' ≡ at_condition p
    stays_stopped : p.running ≡ false → p'.running ≡ false

  CallerStep-Same : {p p' : Pool T} {s s' : List T} → Workers.CallerStep p s p' s' → Same p p'
  unfolding run run_again queue_task stop destroy wake_run wake_worker notify notify_all resume
  CallerStep-Same (Workers.runs {p} t) = record {
    threads_kept = ground arith;
    condition_kept = ground arith;
    stays_stopped = λ h. ground arith;
  }
  CallerStep-Same (Workers.runs_again {p} t h) = record {
    threads_kept = ground arith;
    condition_kept = ground arith;
    stays_stopped = λ h. ground arith;
  }
  CallerStep-Same Workers.stops = record {
    threads_kept = refl;
    condition_kept = omega arith;
    stays_stopped = λ h. refl;
  }
  CallerStep-Same (Workers.destroys {p}) = record {
    threads_kept = ground arith;
    condition_kept = ground arith;
    stays_stopped = λ h. ground arith;
  }
  CallerStep-Same (Workers.wakes_run h) = record {
    threads_kept = refl;
    condition_kept = refl;
    stays_stopped = λ h. h;
  }
  CallerStep-Same (Workers.wakes_worker {p} h) = record {
    threads_kept = refl;
    condition_kept = ground arith;
    stays_stopped = λ h. h;
  }

  pub Reach-Inv : {m : ℕ} {w : Workers.Workers T} {s : List T} → Workers.Reach m w s → Inv w
  Reach-Inv {m} (Workers.started p n i e) = start-Inv m n i p e
  Reach-Inv (Workers.works r t) = WorkerStep-Inv t (Reach-Inv r)
  Reach-Inv (Workers.calls {w} p s' r t) =
      let v = Reach-Inv r in
      let k = CallerStep-Same t in
      record {
        all_there = omega (arith, v.all_there, k.threads_kept, k.condition_kept);
        none_ended = elim v.none_ended [ inl e ↦ inl e | inr e ↦ inr (k.stays_stopped e) ];
      }
