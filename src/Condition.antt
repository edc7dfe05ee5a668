-- ===== src/Condition.antt =====
-- MyNet/base/Condition.h and Mutex.h: a condition variable, as the methods of one object see it that
-- hold its mutex from their first statement to their last, but for the time that they spend in
-- `wait`. A step of such an object is one stretch of a method under the mutex, and the condition
-- variable counts the threads that are blocked in `pthread_cond_wait` and those that have been woken
-- there and have not got the mutex back. POSIX lets a blocked thread wake at any time.
use my_net.Common.{ℕ, ◌+◌, ◌-◌, ltb, if◌then◌else◌}

pub record Condition : Type 0 where
  pub waiting : ℕ
  pub woken : ℕ

abbrev pub fresh : Condition
fresh = record { waiting = 0; woken = 0 }

-- The thread that holds the mutex blocks.
unfoldable pub wait : Condition → Condition
wait c = record c { waiting = c.waiting + 1 }

-- `pthread_cond_signal`
unfoldable pub notify : Condition → Condition
notify c = if ltb 0 c.waiting then record c { waiting = c.waiting - 1; woken = c.woken + 1 } else c

-- `pthread_cond_broadcast`
unfoldable pub notify_all : Condition → Condition
notify_all c = record c { waiting = 0; woken = c.woken + c.waiting }

-- A woken thread gets the mutex back: its `wait` returns.
unfoldable pub resume : Condition → Condition
resume c = record c { woken = c.woken - 1 }
