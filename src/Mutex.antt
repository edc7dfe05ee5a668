-- ===== src/Mutex.antt =====
-- MyNet/base/Mutex.h: a lock and the thread that it says holds it. `owner` is the state of the
-- `pthread_mutex_t`: the thread that has it, if any. Threads are numbered from 1.
pub mod Holder
pub mod Waiting
use my_net.Common.{ℕ, ◌==◌, if◌then◌else◌, Option, none, some}
use my_net.Common.Outcome.{Outcome, check, deadlock, Attempt, returns, stops, waits, and_then}

pub record MutexLock : Type 0 where
  pub owner : Option ℕ
  pub holder : ℕ

abbrev pub init : MutexLock
init = record { owner = none; holder = 0 }

-- `tid` is the thread that calls.
unfoldable pub assign : ℕ → MutexLock → MutexLock
assign tid m = record m { holder = tid }

unfoldable pub unassgin : MutexLock → MutexLock
unassgin m = record m { holder = 0 }

-- `pthread_mutex_lock` of a normal mutex: it waits for another thread, and for ever for its own.
unfoldable pub pthread_lock : ℕ → MutexLock → Attempt MutexLock
pthread_lock tid m = elim m.owner [
  | none ↦ returns (record m { owner = some tid })
  | some t ↦ if t == tid then stops deadlock else waits
]

unfoldable pub pthread_unlock : MutexLock → MutexLock
pthread_unlock m = record m { owner = none }

unfoldable pub lock : ℕ → MutexLock → Attempt MutexLock
unfolding pthread_lock assign
lock tid m = and_then (pthread_lock tid m) (λ m'. returns (assign tid m'))

unfoldable pub unlock : MutexLock → MutexLock
unfolding pthread_unlock unassgin
unlock m = pthread_unlock (unassgin m)

-- The assertion of the destructor.
unfoldable pub destroy : MutexLock → Outcome (Unit {0})
destroy m = check (m.holder == 0)
