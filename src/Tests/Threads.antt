-- ===== src/Tests/Threads.antt =====
-- Examples for the queues between threads and the thread pool of MyNet/base/.
use my_net.Common.{
  ℕ, ◌≡◌, ◌++◌, ◌≤◌, ◌<◌, ◌+◌, ◌==◌, ◌⊎◌, refl, arith, true, false, Option, none, some, List, [],
  ◌∷◌, length,
}
use my_net.Common.Int.{pos, ◌-ℤ◌}
use my_net.CountDownLatch as Latches
use my_net.CountDownLatch.Gate.{Trace-gate}
use my_net.Condition.{notify_all, fresh, wait, notify, resume}
use my_net.BlockingQueue as Blocking
use my_net.BlockingQueue.Wakeup.{NoLostWakeup, Trace-NoLostWakeup}
use my_net.BoundedBlockingQueue as Bounded
use my_net.BoundedBlockingQueue.Wakeup.{held, Trace-order, Trace-bounds, Trace-no_deadlock}
use my_net.ThreadPool as Pools
use my_net.ThreadPool.Tasks.{Trace-task_bounds}

-- A `get` waits, a `put` wakes it, and another value is put before it has the mutex.
abbrev two_left : Blocking.Queue ℕ
two_left = record { items = 7 ∷ 8 ∷ []; cond = record { waiting = 0; woken = 1 } }

abbrev woken_run : Blocking.Trace two_left (7 ∷ 8 ∷ []) []
unfolding Blocking.put Blocking.get wait notify
woken_run = Blocking.puts 8 (Blocking.puts 7 (Blocking.gets Blocking.start))

Trace-NoLostWakeup_example : NoLostWakeup two_left
Trace-NoLostWakeup_example = Trace-NoLostWakeup woken_run

-- A ring as a list and its capacity.
record Slots : Type 0 where
  values : List ℕ
  room : ℕ

abbrev first : List ℕ → Option ℕ
first [] = none
first (x ∷ xs) = some x

abbrev others : List ℕ → List ℕ
others [] = []
others (x ∷ xs) = xs

pop_first :
    (x : ℕ) (xs : List ℕ) (r : Slots)
    → r.values ≡ x ∷ xs
    → (first r.values ≡ some x) × (others r.values ≡ xs) × (r.room ≡ r.room)
pop_first x xs r e = (rw e, rw e, refl)

abbrev ring : Bounded.CircularBuffer ℕ
ring = record {
  Ring = Slots;
  make = λ n. record { values = []; room = n };
  full = λ r. length r.values == r.room;
  empty = λ r. length r.values == 0;
  size = λ r. length r.values;
  capacity = λ r. r.room;
  front = λ r. first r.values;
  push_back = λ x r. record r { values = r.values ++ x ∷ [] };
  pop_front = λ r. record r { values = others r.values };
  to_list = λ r. r.values;
  make_empty = λ n. refl;
  make_capacity = λ n. refl;
  full_is = λ r. refl;
  empty_is = λ r. refl;
  size_is = λ r. refl;
  push_back_is = λ x r e. (refl, refl);
  pop_front_is = pop_first;
}

-- Room for one: a second `put` waits, a `get` wakes it, and it puts.
abbrev one_held : Bounded.Queue ring
one_held = record {
  ring = record { values = 6 ∷ []; room = 1 };
  not_full = fresh;
  not_empty = fresh;
}

abbrev full_run : Bounded.Trace ring 1 one_held (5 ∷ 6 ∷ []) (5 ∷ [])
unfolding Bounded.put Bounded.get Bounded.put_again wait notify resume
full_run =
    Bounded.puts_again 6 (Bounded.gets (Bounded.puts 6 (Bounded.puts 5 Bounded.start)))
      (omega arith)

Trace-order_example : 5 ∷ 6 ∷ [] ≡ (5 ∷ []) ++ held ring one_held
Trace-order_example = Trace-order ring full_run

Trace-bounds_example :
    (length (held ring one_held) ≤ 1)
    × ((one_held.not_full.waiting ≡ 0)
        ⊎ (1 ≤ length (held ring one_held) + one_held.not_full.woken))
    × ((one_held.not_empty.waiting ≡ 0) ⊎ (length (held ring one_held) ≤ one_held.not_empty.woken))
Trace-bounds_example = Trace-bounds ring full_run

-- Two readers wait, a writer wakes one of them, and then a second writer waits for room.
abbrev both_blocked : Bounded.Queue ring
both_blocked = record {
  ring = record { values = 5 ∷ []; room = 1 };
  not_full = record { waiting = 1; woken = 0 };
  not_empty = record { waiting = 1; woken = 1 };
}

abbrev blocked_run : Bounded.Trace ring 1 both_blocked (5 ∷ []) []
unfolding Bounded.put Bounded.get wait notify
blocked_run = Bounded.puts 6 (Bounded.puts 5 (Bounded.gets (Bounded.gets Bounded.start)))

Trace-no_deadlock_example : 0 < both_blocked.not_full.woken + both_blocked.not_empty.woken
Trace-no_deadlock_example =
    Trace-no_deadlock ring blocked_run (omega arith) (omega arith) (omega arith)

-- A latch for one: a thread waits, the count goes down, the thread passes.
abbrev used_up : Latches.Latch
used_up = record { count = pos 0; cond = fresh }

abbrev passed_once : Latches.Trace (pos 1) used_up 1 1
unfolding Latches.wait_zero Latches.count_down Latches.wait_again ◌-ℤ◌ wait notify_all resume
passed_once = Latches.waits_again (Latches.counts_down (Latches.waits Latches.start)) (omega arith)

Trace-gate_example : (0 < 1 → 1 ≤ 1) × (1 ≤ 1 → used_up.cond.waiting ≡ 0)
Trace-gate_example = Trace-gate passed_once

-- A pool with one thread and room for one task, and a pool without threads.
abbrev working : Pools.Pool ℕ
working = record {
  threads = 1;
  running = true;
  has_init = false;
  init_calls = 0;
  tasks = 3 ∷ [];
  max_queue_size = 1;
  not_full = record { waiting = 1; woken = 0 };
  not_empty = fresh;
}

abbrev working_run : Pools.Trace 1 working (3 ∷ []) []
unfolding Pools.start Pools.before_start Pools.set_max_queue_size Pools.run wait notify
working_run =
    Pools.runs 4
      (Pools.runs 3 (Pools.started (record working { tasks = []; not_full = fresh }) 1 false refl))

Trace-task_bounds_example :
    (length working.tasks ≤ 1)
    × ((working.not_full.waiting ≡ 0) ⊎ (1 ≤ length working.tasks + working.not_full.woken))
    × ((working.not_empty.waiting ≡ 0) ⊎ (length working.tasks ≤ working.not_empty.woken))
    × (working.running ≡ false → working.not_empty.waiting ≡ 0)
Trace-task_bounds_example = Trace-task_bounds working_run

abbrev idle : Pools.Pool ℕ
idle = record working { threads = 0; tasks = []; not_full = fresh }

abbrev idle_run : Pools.Trace 1 idle [] []
unfolding Pools.start Pools.before_start Pools.set_max_queue_size Pools.run
idle_run = Pools.runs 9 (Pools.started idle 0 false refl)

abbrev no_tasks : List ℕ
no_tasks = []
