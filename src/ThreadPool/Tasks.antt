-- ===== src/ThreadPool/Tasks.antt =====
-- MyNet/base/ThreadPool.cc: tasks are taken in order, and no wakeup is lost.
use my_net.Common.{
  ℕ, ◌+◌, ◌≤◌, ◌<◌, ◌==◌, ◌≡◌, refl, sym, ap, ◌∙◌, ◌⊎◌, inl, inr, true, false, Bool, Bool-cases,
  List, [], ◌∷◌, ◌++◌, length, length-append, append_assoc, arith,
}
use my_net.Common.Outcome.{done}
use my_net.Condition.{wait, notify, notify_all, resume}
use my_net.ThreadPool.{
  Pool, dropped, blocked, before_start, set_max_queue_size, set_thread_init_func, start, stop,
  queue_task, run, take_task, get_task, run_again, get_task_again, wake_run, wake_worker, after_run,
  after_get, Trace, started, runs, runs_again, gets, gets_again, stops, wakes_run, wakes_worker,
}

module _ {T : Type 0} where
  record Inv (m : ℕ) (p : Pool T) (calling getting : ℕ) : Type 0 where
    room : p.max_queue_size ≡ m
    within : length p.tasks ≤ m
    caller_side : (p.not_full.waiting ≡ 0) ⊎ (m ≤ length p.tasks + p.not_full.woken + calling)
    worker_side :
        (p.not_empty.waiting ≡ 0)
        ⊎ ((p.running ≡ true) × (length p.tasks ≤ p.not_empty.woken + getting))

  queue_task-Inv : (m : ℕ) (t : T) (p : Pool T) → Inv m p 1 0 → Inv m (queue_task t p).1 0 0
  unfolding queue_task wait notify
  queue_task-Inv m t p v = ground (arith, length-append p.tasks (t ∷ []))

  run-Inv : (m : ℕ) (t : T) (p : Pool T) → Inv m p 0 0 → Inv m (run t p).1 0 0
  unfolding run
  run-Inv m t p v = elim (Bool-cases (p.threads == 0)) [
    | inl e ↦ rw e v
    | inr e ↦ rw e (queue_task-Inv m t p (ground arith))
  ]

  take_task-Inv :
      (m : ℕ) (ts : List T) (p : Pool T) → p.tasks ≡ ts → Inv m p 0 1 → Inv m (take_task ts p).1 0 0
  unfolding take_task wait notify
  take_task-Inv m [] p e v = let none_left : length p.tasks ≡ 0 = ap length e in ground arith
  take_task-Inv m (t ∷ ts) p e v =
      let before : length p.tasks ≡ length ts + 1 = ap length e ∙ omega arith in ground arith

  queue_task-order :
      (t : T) (p : Pool T) (s g : List T)
      → s ≡ g ++ p.tasks
      → after_run t (queue_task t p).0 s ≡ g ++ (queue_task t p).1.tasks
  unfolding queue_task
  queue_task-order t p s g h = ground (arith, append_assoc g p.tasks (t ∷ []))

  run-order :
      (t : T) (p : Pool T) (s g : List T)
      → s ≡ g ++ p.tasks
      → after_run t (run t p).0 s ≡ g ++ (run t p).1.tasks
  unfolding run
  run-order t p s g h = ground (arith, append_assoc g p.tasks (t ∷ []))

  take_task-order :
      (ts : List T) (p : Pool T) (s g : List T)
      → p.tasks ≡ ts
      → s ≡ g ++ p.tasks
      → s ≡ after_get (take_task ts p).0 g ++ (take_task ts p).1.tasks
  unfolding take_task
  take_task-order [] p s g e h = ground arith
  take_task-order (t ∷ ts) p s g e h =
      h ∙ ap (λ (u : List T). g ++ u) e ∙ sym (append_assoc g (t ∷ []) ts)

  start-order :
      (m n : ℕ) (i : Bool) (p : Pool T) → start n (before_start m i) ≡ done p → [] ≡ p.tasks
  unfolding start before_start set_max_queue_size set_thread_init_func
  start-order m n false p e = ground arith
  start-order m n true p e = ground arith

  start-Inv : (m n : ℕ) (i : Bool) (p : Pool T) → start n (before_start m i) ≡ done p → Inv m p 0 0
  unfolding start before_start set_max_queue_size set_thread_init_func
  start-Inv m n false p e = ground arith
  start-Inv m n true p e = ground arith

  -- In every run of a started pool the tasks that were queued, in order, are those that
  -- workers took followed by those in the queue.
  pub Trace-task_order : {m : ℕ} {p : Pool T} {s g : List T} → Trace m p s g → s ≡ g ++ p.tasks
  unfolding run_again get_task get_task_again stop wake_run wake_worker
  Trace-task_order {m} (started p n i e) = start-order m n i p e
  Trace-task_order (runs {p} {s} {g} t r) = run-order t p s g (Trace-task_order r)
  Trace-task_order (runs_again {p} {s} {g} t r h) =
      queue_task-order t (record p { not_full = resume p.not_full }) s g (Trace-task_order r)
  Trace-task_order (gets {p} {s} {g} r) = take_task-order p.tasks p s g refl (Trace-task_order r)
  Trace-task_order (gets_again {p} {s} {g} r h) =
      take_task-order p.tasks (record p { not_empty = resume p.not_empty }) s g refl
        (Trace-task_order r)
  Trace-task_order (stops r) = Trace-task_order r
  Trace-task_order (wakes_run r h) = Trace-task_order r
  Trace-task_order (wakes_worker r h) = Trace-task_order r

  Trace-Inv : {m : ℕ} {p : Pool T} {s g : List T} → Trace m p s g → Inv m p 0 0
  unfolding run_again get_task get_task_again stop wake_run wake_worker notify notify_all resume
  Trace-Inv {m} (started p n i e) = start-Inv m n i p e
  Trace-Inv {m} (runs {p} t r) = let v = Trace-Inv r in run-Inv m t p v
  Trace-Inv {m} (runs_again {p} t r h) =
      let v = Trace-Inv r in
      queue_task-Inv m t (record p { not_full = resume p.not_full }) (ground arith)
  Trace-Inv {m} (gets {p} r) = let v = Trace-Inv r in take_task-Inv m p.tasks p refl (ground arith)
  Trace-Inv {m} (gets_again {p} r h) =
      let v = Trace-Inv r in
      take_task-Inv m p.tasks (record p { not_empty = resume p.not_empty }) refl (ground arith)
  Trace-Inv (stops r) = let v = Trace-Inv r in ground arith
  Trace-Inv (wakes_run r h) = let v = Trace-Inv r in ground arith
  Trace-Inv (wakes_worker r h) = let v = Trace-Inv r in ground arith

  -- In every run of a pool that was started with room for m tasks, the queue holds at most m
  -- tasks; while a caller of `run` is blocked, a woken one is on its way for each free place;
  -- while a worker is blocked, a woken one is on its way for each task; and once the pool is
  -- stopped, no worker is blocked.
  pub Trace-task_bounds :
      {m : ℕ} {p : Pool T} {s g : List T}
      → Trace m p s g
      → (length p.tasks ≤ m)
        × ((p.not_full.waiting ≡ 0) ⊎ (m ≤ length p.tasks + p.not_full.woken))
        × ((p.not_empty.waiting ≡ 0) ⊎ (length p.tasks ≤ p.not_empty.woken))
        × (p.running ≡ false → p.not_empty.waiting ≡ 0)
  Trace-task_bounds {p} t =
      let v = Trace-Inv t in (v.within, ground arith, ground arith, λ h. ground arith)

  -- Of a pool without threads: nothing is queued and nobody waits for room.
  record Idle (p : Pool T) (s : List T) : Type 0 where
    none_queued : s ≡ []
    none_left : p.tasks ≡ []
    none_waits : p.not_full.waiting ≡ 0
    none_woken : p.not_full.woken ≡ 0

  no_items : (xs ys : List T) → xs ++ ys ≡ [] → xs ≡ []
  no_items [] ys e = refl
  no_items (x ∷ xs) ys e = cc

  take_task-Idle :
      (ts : List T) (p : Pool T) (s : List T)
      → p.tasks ≡ ts
      → (p.threads ≡ 0 → Idle p s)
      → (take_task ts p).1.threads ≡ 0
      → Idle (take_task ts p).1 s
  unfolding take_task
  take_task-Idle [] p s e v h = ground arith
  take_task-Idle (t ∷ ts) p s e v h = let w = v h in cc

  run-dropped : (t : T) (p : Pool T) → p.threads ≡ 0 → run t p ≡ (dropped, p)
  unfolding run
  run-dropped t p h = ground arith

  run-threads : (t : T) (p : Pool T) → (run t p).1.threads ≡ p.threads
  unfolding run queue_task
  run-threads t p = ground arith

  run_again-threads : (t : T) (p : Pool T) → (run_again t p).1.threads ≡ p.threads
  unfolding run_again queue_task
  run_again-threads t p = ground arith

  start-Idle : (m n : ℕ) (i : Bool) (p : Pool T) → start n (before_start m i) ≡ done p → Idle p []
  unfolding start before_start set_max_queue_size set_thread_init_func
  start-Idle m n false p e = ground arith
  start-Idle m n true p e = ground arith

  Trace-Idle : {m : ℕ} {p : Pool T} {s g : List T} → Trace m p s g → p.threads ≡ 0 → Idle p s
  unfolding get_task get_task_again stop wake_run wake_worker notify notify_all resume
  Trace-Idle {m} (started p n i e) h = start-Idle m n i p e
  Trace-Idle (runs {p} t r) h =
      let e = sym (run-threads t p) ∙ h in rw (run-dropped t p e) (Trace-Idle r e)
  Trace-Idle (runs_again {p} t r k) h =
      let w = Trace-Idle r (sym (run_again-threads t p) ∙ h) in absurd (omega (arith, w.none_woken))
  Trace-Idle (gets {p} {s} r) h = take_task-Idle p.tasks p s refl (Trace-Idle r) h
  Trace-Idle (gets_again {p} {s} r k) h =
      take_task-Idle p.tasks (record p { not_empty = resume p.not_empty }) s refl
        (λ z. let w = Trace-Idle r z in ground arith) h
  Trace-Idle (stops r) h = let w = Trace-Idle r h in ground arith
  Trace-Idle (wakes_run r k) h = let w = Trace-Idle r h in ground arith
  Trace-Idle (wakes_worker r k) h = let w = Trace-Idle r h in ground arith

  -- In every run of a pool that was started without threads, no task is ever queued or taken,
  -- and `run` of any task lets it go.
  pub Trace-no_threads :
      {m : ℕ} {p : Pool T} {s g : List T}
      → Trace m p s g
      → p.threads ≡ 0
      → (s ≡ []) × (g ≡ []) × ((t : T) → run t p ≡ (dropped, p))
  Trace-no_threads {p} {s} {g} r h =
      let w = Trace-Idle r h in
      let none_taken : g ++ p.tasks ≡ [] = sym (Trace-task_order r) ∙ w.none_queued in
      (w.none_queued, no_items g p.tasks none_taken, λ t. run-dropped t p h)

  -- If a pool with threads holds as many tasks as it has room for, `stop` changes nothing for
  -- the callers of `run` that wait for room, and one that then comes back blocks again.
  pub run_again-stop :
      (t : T) (p : Pool T)
      → 0 < p.threads
      → p.max_queue_size ≤ length p.tasks
      → ((stop p).not_full ≡ p.not_full) × ((run_again t (stop p)).0 ≡ blocked)
  unfolding run run_again stop
  run_again-stop t p h k = (refl, ground arith)
