-- ===== src/ThreadPool/Workers.antt =====
-- MyNet/base/ThreadPool.cc: the threads of a pool, each at its place in `runInThread`, with the
-- callers of the pool. A worker that waits for a task, or was woken and has not got the mutex yet, is
-- counted by the pool's condition `not_empty`.
pub mod Conserved
pub mod Refines
pub mod Settled
pub mod Threads
pub mod Work
use my_net.Common.{
  ℕ, suc, Bool, true, false, ◌+◌, ◌-◌, ◌<◌, ◌≡◌, ◌==◌, if◌then◌else◌, List, [], ◌∷◌, ◌++◌,
}
use my_net.Common.Outcome.{done, Attempt, returns}
use my_net.ThreadPool.{
  Pool, Got, waits, nothing, task, before_start, start, stop, destroy, run, run_again, get_task,
  get_task_again, wake_run, wake_worker, after_run, after_get,
}

-- How many threads are before the loop, before its test, before `getTask`, and after the loop; the
-- tasks that are called now, those that have been, and the calls of `m_ThreadInitFunc`.
pub record Workers (T : Type 0) : Type 0 where
  pub pool : Pool T
  pub starting : ℕ
  pub testing : ℕ
  pub entering : ℕ
  pub in_hand : List T
  pub ended : ℕ
  pub executed : List T
  pub init_calls : ℕ

module _ {T : Type 0} where
  abbrev pub started_workers : Pool T → Workers T
  started_workers p = record {
    pool = p;
    starting = p.threads;
    testing = 0;
    entering = 0;
    in_hand = [];
    ended = 0;
    executed = [];
    init_calls = 0;
  }

  unfoldable pub begin_worker : Workers T → Workers T
  begin_worker w = record w {
    starting = w.starting - 1;
    testing = w.testing + 1;
    init_calls = if w.pool.has_init then w.init_calls + 1 else w.init_calls;
  }

  -- `while(m_brunning)`
  abbrev pub after_test : Bool → Workers T → Workers T
  after_test true w = record w { testing = w.testing - 1; entering = w.entering + 1 }
  after_test false w = record w { testing = w.testing - 1; ended = w.ended + 1 }

  unfoldable pub test_running : Workers T → Workers T
  test_running w = after_test w.pool.running w

  -- An empty task is not called.
  abbrev pub go_on : Got T → ℕ → ℕ
  go_on waits n = n
  go_on nothing n = n + 1
  go_on (task t) n = n

  unfoldable pub enter : Workers T → Workers T
  unfolding get_task
  enter w =
      let (got, p) = get_task w.pool in
      record w {
        pool = p;
        entering = w.entering - 1;
        testing = go_on got w.testing;
        in_hand = after_get got w.in_hand;
      }

  unfoldable pub enter_again : Workers T → Workers T
  unfolding get_task_again
  enter_again w =
      let (got, p) = get_task_again w.pool in
      record w { pool = p; testing = go_on got w.testing; in_hand = after_get got w.in_hand }

  -- The call of a task ends; `others` are the tasks that other workers call.
  unfoldable pub finish : T → List T → Workers T → Workers T
  finish t others w = record w {
    in_hand = others;
    executed = w.executed ++ t ∷ [];
    testing = w.testing + 1;
  }

  -- The joins of `stop`: every thread that was started has come to its end, or the caller waits.
  unfoldable pub join : Workers T → Attempt (Workers T)
  join w = if w.ended == w.pool.threads then returns w else my_net.Common.Outcome.waits

  pub data WorkerStep : Workers T → Workers T → Type 0 where
    begins : {w : Workers T} → 0 < w.starting → WorkerStep w (begin_worker w)
    tests : {w : Workers T} → 0 < w.testing → WorkerStep w (test_running w)
    enters : {w : Workers T} → 0 < w.entering → WorkerStep w (enter w)
    enters_again : {w : Workers T} → 0 < w.pool.not_empty.woken → WorkerStep w (enter_again w)
    finishes :
        {w : Workers T} (before : List T) (t : T) (after : List T)
        → w.in_hand ≡ before ++ (t ∷ after)
        → WorkerStep w (finish t (before ++ after) w)

  -- What callers of `run` and `stop`, and the destructor, do to the pool, and to the tasks queued so far.
  pub data CallerStep : Pool T → List T → Pool T → List T → Type 0 where
    runs :
        {p : Pool T} {s : List T} (t : T) → CallerStep p s (run t p).1 (after_run t (run t p).0 s)
    runs_again :
        {p : Pool T} {s : List T} (t : T)
        → 0 < p.not_full.woken
        → CallerStep p s (run_again t p).1 (after_run t (run_again t p).0 s)
    stops : {p : Pool T} {s : List T} → CallerStep p s (stop p) s
    destroys : {p : Pool T} {s : List T} → CallerStep p s (destroy p) s
    wakes_run : {p : Pool T} {s : List T} → 0 < p.not_full.waiting → CallerStep p s (wake_run p) s
    wakes_worker :
        {p : Pool T} {s : List T} → 0 < p.not_empty.waiting → CallerStep p s (wake_worker p) s

  -- A pool of room for `m` tasks from its start on, with the tasks queued so far.
  pub data Reach (m : ℕ) : Workers T → List T → Type 0 where
    started :
        (p : Pool T) (n : ℕ) (with_init : Bool)
        → start n (before_start m with_init) ≡ done p
        → Reach m (started_workers p) []
    works : {w w' : Workers T} {s : List T} → Reach m w s → WorkerStep w w' → Reach m w' s
    calls :
        {w : Workers T} {s : List T} (p : Pool T) (s' : List T)
        → Reach m w s
        → CallerStep w.pool s p s'
        → Reach m (record w { pool = p }) s'

  -- So many steps of workers, one after the other.
  pub data Works : ℕ → Workers T → Workers T → Type 0 where
    no_more : {w : Workers T} → Works 0 w w
    one_more :
        {k : ℕ} {w w' w'' : Workers T} → Works k w w' → WorkerStep w' w'' → Works (suc k) w w''

  -- So many steps of workers, with any steps of callers between them.
  pub data Steps : ℕ → Workers T → List T → Workers T → List T → Type 0 where
    none_yet : {w : Workers T} {s : List T} → Steps 0 w s w s
    by_worker :
        {k : ℕ} {w w' w'' : Workers T} {s s' : List T}
        → Steps k w s w' s'
        → WorkerStep w' w''
        → Steps (suc k) w s w'' s'
    by_caller :
        {k : ℕ} {w w' : Workers T} {s s' : List T} (p : Pool T) (s'' : List T)
        → Steps k w s w' s'
        → CallerStep w'.pool s' p s''
        → Steps k w s (record w' { pool = p }) s''
