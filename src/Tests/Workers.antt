-- ===== src/Tests/Workers.antt =====
-- A pool of one thread that is given a task, calls it, and is stopped.
use my_net.Common.{ℕ, ◌+◌, ◌≤◌, ◌≡◌, refl, ◌⊎◌, true, false, [], ◌∷◌, ◌++◌, arith}
use my_net.Common.Bags.{bag}
use my_net.Condition.{fresh, notify}
use my_net.ThreadPool.{
  Pool, before_start, set_max_queue_size, start, stop, queue_task, run, take_task, get_task,
}
use my_net.ThreadPool.Workers.{
  Workers, started_workers, begin_worker, test_running, enter, finish, WorkerStep, begins, tests,
  enters, finishes, runs, stops, Reach, started, works, calls, Works, no_more, one_more, Steps,
  none_yet, by_worker, by_caller,
}
use my_net.ThreadPool.Workers.Threads.{all_workers}
use my_net.ThreadPool.Workers.Conserved.{Reach-conserved}
use my_net.ThreadPool.Workers.Refines.{SpecRun, view, puts, takes, ends, Steps-refines}
use my_net.ThreadPool.Workers.Work.{work_left}
use my_net.ThreadPool.Workers.Settled.{AtRest, Reach-rest}

abbrev one_thread : Pool ℕ
one_thread = record {
  threads = 1;
  running = true;
  has_init = false;
  init_calls = 0;
  tasks = [];
  max_queue_size = 2;
  not_full = fresh;
  not_empty = fresh;
}

-- The task is queued before the thread has come to its loop.
abbrev with_task : Workers ℕ
with_task = record (started_workers one_thread) { pool = record one_thread { tasks = 7 ∷ [] } }

abbrev with_task_run : Reach 2 with_task (7 ∷ [])
unfolding start before_start set_max_queue_size run queue_task notify
with_task_run =
    calls (record one_thread { tasks = 7 ∷ [] }) (7 ∷ []) (started one_thread 1 false refl) (runs 7)

abbrev calling : Workers ℕ
calling = record with_task { pool = one_thread; starting = 0; in_hand = 7 ∷ [] }

abbrev up_to_call : Works 3 with_task calling
unfolding begin_worker test_running enter get_task take_task notify
up_to_call =
    one_more (one_more (one_more no_more (begins (omega arith))) (tests (omega arith)))
      (enters (omega arith))

Reach-conserved_example :
    (all_workers with_task ≡ 1) × (bag {A = ℕ} (7 ∷ []) ≡ bag ([] ++ ([] ++ (7 ∷ []))))
Reach-conserved_example = Reach-conserved with_task_run

Reach-rest_example :
    (3 + work_left true calling ≤ work_left true with_task)
    × (((w : Workers ℕ) × WorkerStep calling w) ⊎ AtRest true calling (7 ∷ []))
Reach-rest_example = Reach-rest true with_task_run refl up_to_call

abbrev stopped : Workers ℕ
stopped = record calling { pool = stop one_thread }

abbrev stopped_run : Reach 2 stopped (7 ∷ [])
unfolding begin_worker test_running enter get_task take_task notify
stopped_run =
    calls (stop one_thread) (7 ∷ [])
      (works (works (works with_task_run (begins (omega arith))) (tests (omega arith)))
        (enters (omega arith)))
      stops

abbrev at_end : Workers ℕ
at_end = record stopped { in_hand = []; executed = 7 ∷ []; ended = 1 }

abbrev up_to_end : Steps 2 stopped (7 ∷ []) at_end (7 ∷ [])
unfolding finish test_running stop
up_to_end = by_worker (by_worker none_yet (finishes [] 7 [] refl)) (tests (omega arith))

abbrev at_end_running : Workers ℕ
at_end_running = record calling { in_hand = []; executed = 7 ∷ []; testing = 1 }

-- The whole run of the task.
abbrev whole : Steps 4 (started_workers one_thread) [] at_end_running (7 ∷ [])
unfolding begin_worker test_running enter get_task take_task notify run queue_task finish
whole =
    by_worker
      (by_worker
        (by_worker
          (by_worker (by_caller (record one_thread { tasks = 7 ∷ [] }) (7 ∷ []) none_yet (runs 7))
            (begins (omega arith)))
          (tests (omega arith)))
        (enters (omega arith)))
      (finishes [] 7 [] refl)

Steps-refines_example :
    SpecRun
      (view (started_workers one_thread))
      (puts 7 ∷ takes 7 ∷ ends 7 ∷ [])
      (view at_end_running)
unfolding run queue_task get_task take_task whole
Steps-refines_example = Steps-refines whole
