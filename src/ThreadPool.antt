-- ===== src/ThreadPool.antt =====
-- MyNet/base/ThreadPool.cc and .h: the pool's state and what its methods do between taking and
-- giving back the mutex. A task is a value of a type `T` that stands for a callable function.
pub mod Tasks
pub mod Workers
use my_net.Common.{
  ℕ, ◌+◌, ◌<◌, ◌≡◌, ◌==◌, leb, ◌&&◌, if◌then◌else◌, Bool, true, false, List, [], ◌∷◌, ◌++◌, length,
}
use my_net.Common.Outcome.{Outcome, done, check, ◌>>=◌, ◌>>◌}
use my_net.Condition.{Condition, fresh, wait, notify, notify_all, resume}

pub record Pool (T : Type 0) : Type 0 where
  pub threads : ℕ
  pub running : Bool
  pub has_init : Bool
  pub init_calls : ℕ
  pub tasks : List T
  pub max_queue_size : ℕ
  pub not_full : Condition
  pub not_empty : Condition

-- What a call of `run` came to: the task was let go, queued, or its caller waits for room.
pub data Ran : Type 0 where
  dropped queued blocked : Ran

-- What a worker has in hand after a stretch of `getTask`: it waits, or it got an empty or a real task.
pub data Got (T : Type 0) : Type 0 where
  waits : Got T
  nothing : Got T
  task : T → Got T

module _ {T : Type 0} where
  -- The constructor leaves `m_maxQueueSize` as it finds the memory: `garbage`.
  abbrev pub init : ℕ → Pool T
  init garbage = record {
    threads = 0;
    running = false;
    has_init = false;
    init_calls = 0;
    tasks = [];
    max_queue_size = garbage;
    not_full = fresh;
    not_empty = fresh;
  }

  unfoldable pub set_max_queue_size : ℕ → Pool T → Pool T
  set_max_queue_size n p = record p { max_queue_size = n }

  unfoldable pub set_thread_init_func : Pool T → Pool T
  set_thread_init_func p = record p { has_init = true }

  unfoldable pub start : ℕ → Pool T → Outcome (Pool T)
  start n p = do
    check (p.threads == 0)
    done (record p {
      running = true;
      threads = n;
      init_calls = if n == 0 && p.has_init then p.init_calls + 1 else p.init_calls;
    })

  -- The part of `stop` under the mutex; the joins that follow are `join` of ThreadPool/Workers.
  unfoldable pub stop : Pool T → Pool T
  stop p = record p { running = false; not_empty = notify_all p.not_empty }

  unfoldable pub destroy : Pool T → Pool T
  unfolding stop
  destroy p = if p.running then stop p else p

  unfoldable pub is_full : Pool T → Bool
  is_full p = leb p.max_queue_size (length p.tasks)

  -- `run` from the test of its loop on.
  unfoldable pub queue_task : T → Pool T → Ran × Pool T
  unfolding is_full
  queue_task t p =
      if is_full p
      then (blocked, record p { not_full = wait p.not_full })
      else (queued, record p { tasks = p.tasks ++ t ∷ []; not_empty = notify p.not_empty })

  -- Without threads the only statement of `run` is `Task();`.
  unfoldable pub run : T → Pool T → Ran × Pool T
  unfolding queue_task
  run t p = if p.threads == 0 then (dropped, p) else queue_task t p

  -- `getTask` from the test of its loop on, for the tasks in the queue.
  unfoldable pub take_task : List T → Pool T → Got T × Pool T
  take_task [] p =
      if p.running then (waits, record p { not_empty = wait p.not_empty }) else (nothing, p)
  take_task (t ∷ ts) p = (task t, record p { tasks = ts; not_full = notify p.not_full })

  unfoldable pub get_task : Pool T → Got T × Pool T
  unfolding take_task
  get_task p = take_task p.tasks p

  unfoldable pub run_again : T → Pool T → Ran × Pool T
  run_again t p = queue_task t (record p { not_full = resume p.not_full })

  unfoldable pub get_task_again : Pool T → Got T × Pool T
  get_task_again p = get_task (record p { not_empty = resume p.not_empty })

  unfoldable pub wake_run : Pool T → Pool T
  wake_run p = record p { not_full = notify p.not_full }

  unfoldable pub wake_worker : Pool T → Pool T
  wake_worker p = record p { not_empty = notify p.not_empty }

  -- The calls before `start`: room for `m` tasks, with a function for the threads or without.
  unfoldable pub before_start : ℕ → Bool → Pool T
  unfolding set_max_queue_size set_thread_init_func
  before_start m false = set_max_queue_size m (init 0)
  before_start m true = set_thread_init_func (set_max_queue_size m (init 0))

  abbrev pub after_run : T → Ran → List T → List T
  after_run t queued s = s ++ t ∷ []
  after_run t dropped s = s
  after_run t blocked s = s

  abbrev pub after_get : Got T → List T → List T
  after_get waits g = g
  after_get nothing g = g
  after_get (task t) g = g ++ t ∷ []

  -- What callers and workers do with a started pool of room for `m` tasks, with the tasks queued and
  -- taken so far. A worker tests `m_brunning` without the
  -- mutex before `getTask`, so that it can come there in any state.
  pub data Trace (m : ℕ) : Pool T → List T → List T → Type 0 where
    started :
        (p : Pool T) (n : ℕ) (with_init : Bool)
        → start n (before_start m with_init) ≡ done p
        → Trace m p [] []
    runs :
        {p : Pool T} {s g : List T} (t : T)
        → Trace m p s g
        → Trace m (run t p).1 (after_run t (run t p).0 s) g
    runs_again :
        {p : Pool T} {s g : List T} (t : T)
        → Trace m p s g
        → 0 < p.not_full.woken
        → Trace m (run_again t p).1 (after_run t (run_again t p).0 s) g
    gets :
        {p : Pool T} {s g : List T}
        → Trace m p s g
        → Trace m (get_task p).1 s (after_get (get_task p).0 g)
    gets_again :
        {p : Pool T} {s g : List T}
        → Trace m p s g
        → 0 < p.not_empty.woken
        → Trace m (get_task_again p).1 s (after_get (get_task_again p).0 g)
    stops : {p : Pool T} {s g : List T} → Trace m p s g → Trace m (stop p) s g
    wakes_run :
        {p : Pool T} {s g : List T}
        → Trace m p s g
        → 0 < p.not_full.waiting
        → Trace m (wake_run p) s g
    wakes_worker :
        {p : Pool T} {s g : List T}
        → Trace m p s g
        → 0 < p.not_empty.waiting
        → Trace m (wake_worker p) s g
