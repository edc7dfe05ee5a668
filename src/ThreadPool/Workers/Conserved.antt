-- ===== src/ThreadPool/Workers/Conserved.antt =====
-- MyNet/base/ThreadPool.cc: no task is lost between the places of `runInThread`.
use my_net.Common.{
  ℕ, ◌≡◌, sym, subst, ap, ◌∙◌, ◌⊎◌, inl, inr, Bool, true, false, List, [], ◌∷◌, ◌++◌, append_assoc,
  arith,
}
use mathlib.Core.Quot
use mathlib.Core.List.Perm
use mathlib.Core.List.{Perm, perm_middle, perm_append_comm, perm_append_singleton}
use my_net.Common.Bags.{bag}
use my_net.ThreadPool.{
  Pool, stop, destroy, get_task, get_task_again, after_get, Trace, started, runs, runs_again, gets,
  gets_again, stops, wakes_run, wakes_worker,
}
use my_net.ThreadPool.Tasks.{Trace-task_order}
use my_net.ThreadPool.Workers
use my_net.ThreadPool.Workers.Threads.{all_workers, Reach-Inv}

module _ {T : Type 0} where
  after_get-Perm :
      (got : Workers.Got T) (xs ys zs : List T)
      → Perm xs (ys ++ zs)
      → Perm (after_get got xs) (after_get got ys ++ zs)
  after_get-Perm Workers.waits xs ys zs h = h
  after_get-Perm Workers.nothing xs ys zs h = h
  after_get-Perm (Workers.task t) xs ys zs h =
      subst (Perm (xs ++ (t ∷ []))) (sym (append_assoc ys (t ∷ []) zs)) (
        Perm.trans (perm_append_singleton t xs)
          (Perm.trans (Perm.cons t h) (Perm.symm (perm_middle ys zs))))

  -- A task moves from among those called now to the end of those called before.
  finished-Perm :
      (before : List T) (t : T) (after done_ : List T)
      → Perm ((before ++ (t ∷ after)) ++ done_) ((before ++ after) ++ (done_ ++ (t ∷ [])))
  finished-Perm before t after done_ =
      subst (Perm ((before ++ (t ∷ after)) ++ done_))
        (append_assoc (before ++ after) done_ (t ∷ []))
        (Perm.trans (Perm.append_right done_ (perm_middle before after))
          (Perm.symm (perm_append_singleton t ((before ++ after) ++ done_))))

  -- The tasks taken are those called now and those called before.
  record Called (m : ℕ) (w : Workers.Workers T) (s : List T) : Type 0 where
    taken : List T
    trace : Trace m w.pool s taken
    called : Perm taken (w.in_hand ++ w.executed)

  after_test-Called :
      {m : ℕ} {s : List T} (b : Bool) (w : Workers.Workers T)
      → Called m w s
      → Called m (Workers.after_test b w) s
  after_test-Called true w v = record { taken = v.taken; trace = v.trace; called = v.called }
  after_test-Called false w v = record { taken = v.taken; trace = v.trace; called = v.called }

  WorkerStep-Called :
      {m : ℕ} {w w' : Workers.Workers T} {s : List T}
      → Workers.WorkerStep w w'
      → Called m w s
      → Called m w' s
  unfolding Workers.begin_worker Workers.test_running Workers.enter Workers.enter_again
      Workers.finish
  WorkerStep-Called (Workers.begins {w} h) v = record {
    taken = v.taken;
    trace = v.trace;
    called = v.called;
  }
  WorkerStep-Called (Workers.tests {w} h) v = after_test-Called w.pool.running w v
  WorkerStep-Called (Workers.enters {w} h) v = record {
    taken = after_get (get_task w.pool).0 v.taken;
    trace = gets v.trace;
    called = after_get-Perm (get_task w.pool).0 v.taken w.in_hand w.executed v.called;
  }
  WorkerStep-Called (Workers.enters_again {w} h) v = record {
    taken = after_get (get_task_again w.pool).0 v.taken;
    trace = gets_again v.trace h;
    called = after_get-Perm (get_task_again w.pool).0 v.taken w.in_hand w.executed v.called;
  }
  WorkerStep-Called (Workers.finishes {w} before t after e) v = record {
    taken = v.taken;
    trace = v.trace;
    called =
        Perm.trans (subst (λ (hand : List T). Perm v.taken (hand ++ w.executed)) e v.called)
          (finished-Perm before t after w.executed);
  }

  destroy-cases : (p : Pool T) → (destroy p ≡ stop p) ⊎ (destroy p ≡ p)
  unfolding destroy
  destroy-cases p = ground arith

  CallerStep-Trace :
      {m : ℕ} {p p' : Pool T} {s s' g : List T}
      → Workers.CallerStep p s p' s'
      → Trace m p s g
      → Trace m p' s' g
  CallerStep-Trace (Workers.runs t) r = runs t r
  CallerStep-Trace (Workers.runs_again t h) r = runs_again t r h
  CallerStep-Trace Workers.stops r = stops r
  CallerStep-Trace {m} {s} {g} (Workers.destroys {p}) r = elim (destroy-cases p) [
    | inl e ↦ subst (λ (q : Pool T). Trace m q s g) (sym e) (stops r)
    | inr e ↦ subst (λ (q : Pool T). Trace m q s g) (sym e) r
  ]
  CallerStep-Trace (Workers.wakes_run h) r = wakes_run r h
  CallerStep-Trace (Workers.wakes_worker h) r = wakes_worker r h

  Reach-Called : {m : ℕ} {w : Workers.Workers T} {s : List T} → Workers.Reach m w s → Called m w s
  Reach-Called (Workers.started p n i e) = record {
    taken = [];
    trace = started p n i e;
    called = Perm.refl [];
  }
  Reach-Called (Workers.works r t) = WorkerStep-Called t (Reach-Called r)
  Reach-Called (Workers.calls p s' r t) =
      let v = Reach-Called r in
      record { taken = v.taken; trace = CallerStep-Trace t v.trace; called = v.called }

  -- A run of the workers is a run of the pool's own calls, in which some tasks were taken.
  pub Reach-Trace :
      {m : ℕ} {w : Workers.Workers T} {s : List T}
      → Workers.Reach m w s
      → (g : List T) × Trace m w.pool s g
  Reach-Trace r = let v = Reach-Called r in (v.taken, v.trace)

  -- In every run of a pool the workers at all places together are as many as its threads, and
  -- the tasks that were queued are, but for their order, those executed, those called now and
  -- those in the queue.
  pub Reach-conserved :
      {m : ℕ} {w : Workers.Workers T} {s : List T}
      → Workers.Reach m w s
      → (all_workers w ≡ w.pool.threads) × (bag s ≡ bag (w.executed ++ (w.in_hand ++ w.pool.tasks)))
  Reach-conserved {w} {s} r =
      let v = Reach-Called r in
      (
        (Reach-Inv r).all_there,
        ap bag (Trace-task_order v.trace)
            ∙ Quot.sound (
                Perm.append_right w.pool.tasks
                  (Perm.trans v.called (perm_append_comm w.in_hand w.executed)))
            ∙ ap bag (append_assoc w.executed w.in_hand w.pool.tasks),
      )
