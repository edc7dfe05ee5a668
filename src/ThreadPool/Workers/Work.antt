-- ===== src/ThreadPool/Workers/Work.antt =====
-- MyNet/base/ThreadPool.cc: each step of a worker leaves less for the workers to do.
use my_net.Common.{
  ℕ, ◌+◌, ◌*◌, ◌≤◌, ◌<◌, ◌≡◌, refl, ap, ◌∙◌, Bool, true, false, List, [], ◌∷◌, ◌++◌, length,
  length-append, arith,
}
use my_net.Condition.{wait, resume}
use my_net.ThreadPool.{Pool, take_task, get_task, get_task_again, after_get}
use my_net.ThreadPool.Workers.{
  Workers, go_on, begin_worker, test_running, enter, enter_again, finish, WorkerStep, begins, tests,
  enters, enters_again, finishes, Works, no_more, one_more,
}
use my_net.ThreadPool.Workers.Threads.{length-between}

module _ {T : Type 0} where
  -- A bound on the steps that the workers can do by themselves: in a running pool until no task is
  -- left, in a stopped one until they have all ended.
  abbrev pub work_left : Bool → Workers T → ℕ
  work_left true w =
      3 * length w.pool.tasks
      + 3 * length w.in_hand
      + 3 * w.starting
      + 2 * w.testing
      + w.entering
      + w.pool.not_empty.woken
  work_left false w =
      3 * w.entering
      + 3 * w.pool.not_empty.woken
      + 2 * length w.in_hand
      + 2 * w.starting
      + w.testing

  take_task-running :
      (ts : List T) (p : Pool T) (n : ℕ) (hand : List T)
      → p.tasks ≡ ts
      → p.running ≡ true
      → let (got, q) = take_task ts p in
        3 * length q.tasks + 3 * length (after_get got hand) + 2 * go_on got n + q.not_empty.woken
        ≡ 3 * length p.tasks + 3 * length hand + 2 * n + p.not_empty.woken
  unfolding take_task wait
  take_task-running [] p n hand e h = rw h refl
  take_task-running (t ∷ ts) p n hand e h = omega (arith, length-append hand (t ∷ []), ap length e)

  take_task-stopped :
      (ts : List T) (p : Pool T) (n : ℕ) (hand : List T)
      → p.tasks ≡ ts
      → p.running ≡ false
      → let (got, q) = take_task ts p in
        3 * q.not_empty.woken + 2 * length (after_get got hand) + go_on got n
        ≤ 3 * p.not_empty.woken + 2 * length hand + n + 2
  unfolding take_task wait
  take_task-stopped [] p n hand e h = rw h (omega arith)
  take_task-stopped (t ∷ ts) p n hand e h = omega (arith, length-append hand (t ∷ []))

  take_task-same_running : (ts : List T) (p : Pool T) → (take_task ts p).1.running ≡ p.running
  unfolding take_task
  take_task-same_running [] p = ground arith
  take_task-same_running (t ∷ ts) p = refl

  -- A step keeps the pool running or stopped, and leaves less to do.
  abbrev pub LessLeft : Bool → Workers T → Workers T → Type 0
  LessLeft b w w' = (w'.pool.running ≡ b) × (work_left b w' < work_left b w)

  enter-LessLeft :
      (b : Bool) (w : Workers T) → w.pool.running ≡ b → 0 < w.entering → LessLeft b w (enter w)
  unfolding enter get_task
  enter-LessLeft true w e h = (
    take_task-same_running w.pool.tasks w.pool ∙ e,
    omega (arith, take_task-running w.pool.tasks w.pool w.testing w.in_hand refl e),
  )
  enter-LessLeft false w e h = (
    take_task-same_running w.pool.tasks w.pool ∙ e,
    omega (arith, take_task-stopped w.pool.tasks w.pool w.testing w.in_hand refl e),
  )

  enter_again-LessLeft :
      (b : Bool) (w : Workers T)
      → w.pool.running ≡ b
      → 0 < w.pool.not_empty.woken
      → LessLeft b w (enter_again w)
  unfolding enter_again get_task get_task_again resume
  enter_again-LessLeft true w e h =
      let p = record w.pool { not_empty = resume w.pool.not_empty } in
      (
        take_task-same_running w.pool.tasks p ∙ e,
        omega (arith, take_task-running w.pool.tasks p w.testing w.in_hand refl e),
      )
  enter_again-LessLeft false w e h =
      let p = record w.pool { not_empty = resume w.pool.not_empty } in
      (
        take_task-same_running w.pool.tasks p ∙ e,
        omega (arith, take_task-stopped w.pool.tasks p w.testing w.in_hand refl e),
      )

  test-LessLeft :
      (b : Bool) (w : Workers T)
      → w.pool.running ≡ b
      → 0 < w.testing
      → LessLeft b w (test_running w)
  unfolding test_running
  test-LessLeft true w e h = rw e (refl, omega arith)
  test-LessLeft false w e h = rw e (refl, omega arith)

  finish-LessLeft :
      (b : Bool) (w : Workers T) (before : List T) (t : T) (after : List T)
      → w.pool.running ≡ b
      → w.in_hand ≡ before ++ (t ∷ after)
      → LessLeft b w (finish t (before ++ after) w)
  unfolding finish
  finish-LessLeft true w before t after e h =
      (e, omega (arith, ap length h, length-between before t after))
  finish-LessLeft false w before t after e h =
      (e, omega (arith, ap length h, length-between before t after))

  begin-LessLeft :
      (b : Bool) (w : Workers T)
      → w.pool.running ≡ b
      → 0 < w.starting
      → LessLeft b w (begin_worker w)
  unfolding begin_worker
  begin-LessLeft true w e h = (e, omega arith)
  begin-LessLeft false w e h = (e, omega arith)

  pub WorkerStep-LessLeft :
      (b : Bool) {w w' : Workers T} → WorkerStep w w' → w.pool.running ≡ b → LessLeft b w w'
  WorkerStep-LessLeft b (begins {w} h) e = begin-LessLeft b w e h
  WorkerStep-LessLeft b (tests {w} h) e = test-LessLeft b w e h
  WorkerStep-LessLeft b (enters {w} h) e = enter-LessLeft b w e h
  WorkerStep-LessLeft b (enters_again {w} h) e = enter_again-LessLeft b w e h
  WorkerStep-LessLeft b (finishes {w} before t after h) e = finish-LessLeft b w before t after e h

  pub Works-LessLeft :
      {b : Bool} {k : ℕ} {w w' : Workers T}
      → Works k w w'
      → w.pool.running ≡ b
      → (w'.pool.running ≡ b) × (k + work_left b w' ≤ work_left b w)
  Works-LessLeft no_more e = (e, omega arith)
  Works-LessLeft {b} (one_more s t) e =
      let (r, l) = Works-LessLeft s e in
      let (r', l') = WorkerStep-LessLeft b t r in (r', omega arith)
