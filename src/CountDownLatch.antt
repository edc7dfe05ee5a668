-- ===== src/CountDownLatch.antt =====
-- MyNet/base/CountDownLatch.cc and .h: a count that threads wait for. A step is a method's stretch
-- under the mutex, as in the condition variable's module.
pub mod Gate
use my_net.Common.{ℕ, suc, ◌<◌, Bool, true, false, if◌then◌else◌}
use my_net.Common.Int.{ℤ, pos, ◌-ℤ◌, ltb_ℤ, eqb_ℤ}
use my_net.Condition.{Condition, fresh, wait, notify, notify_all, resume}

pub record Latch : Type 0 where
  pub count : ℤ
  pub cond : Condition

abbrev pub make : ℤ → Latch
make count = record { count = count; cond = fresh }

-- `wait` from the test of its loop on: true if it returns, false if it blocks.
unfoldable pub wait_zero : Latch → Bool × Latch
wait_zero l = if ltb_ℤ (pos 0) l.count then (false, record l { cond = wait l.cond }) else (true, l)

unfoldable pub count_down : Latch → Latch
count_down l =
    let count = l.count -ℤ pos 1 in
    record l { count = count; cond = if eqb_ℤ count (pos 0) then notify_all l.cond else l.cond }

-- A woken `wait` goes back to the test of its loop; a blocked one wakes by itself.
unfoldable pub wait_again : Latch → Bool × Latch
wait_again l = wait_zero (record l { cond = resume l.cond })

unfoldable pub wake : Latch → Latch
wake l = record l { cond = notify l.cond }

unfoldable pub get_count : Latch → ℤ
get_count l = l.count

-- What threads do with a latch made for `n`, of which `done` counted down and `passed` came through.
pub data Trace (n : ℤ) : Latch → ℕ → ℕ → Type 0 where
  start : Trace n (make n) 0 0
  waits :
      {l : Latch} {done passed : ℕ}
      → Trace n l done passed
      → Trace n (wait_zero l).1 done (if (wait_zero l).0 then suc passed else passed)
  waits_again :
      {l : Latch} {done passed : ℕ}
      → Trace n l done passed
      → 0 < l.cond.woken
      → Trace n (wait_again l).1 done (if (wait_again l).0 then suc passed else passed)
  wakes :
      {l : Latch} {done passed : ℕ}
      → Trace n l done passed
      → 0 < l.cond.waiting
      → Trace n (wake l) done passed
  counts_down :
      {l : Latch} {done passed : ℕ}
      → Trace n l done passed
      → Trace n (count_down l) (suc done) passed
