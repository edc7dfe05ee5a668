-- ===== src/Mutex/Waiting.antt =====
-- MyNet/base/Condition.h and .cc, and Mutex.h: a wait for a condition, as its lock sees it. The guard of a
-- wait unsays the holder before the system gives the lock back, and says it again when the system has
-- given it out again.
use my_net.Common.{ℕ, ◌-◌, ◌<◌, ◌≡◌, refl, Bool, true, false, none, some}
use my_net.Common.Outcome.{Attempt, returns, and_then}
use my_net.Condition.{Condition, wait, resume}
use my_net.Mutex.{MutexLock, assign, unassgin, pthread_lock, pthread_unlock, lock}
use my_net.Mutex.Holder.{Trace, step, acquires, assigns, unassigns, releases}

-- Up to the block in `pthread_cond_wait`
unfoldable pub begin_wait : MutexLock × Condition → MutexLock × Condition
unfolding unassgin pthread_unlock wait
begin_wait (m, c) = (pthread_unlock (unassgin m), wait c)

-- From there on, when the thread was woken
unfoldable pub end_wait : ℕ → MutexLock × Condition → Attempt (MutexLock × Condition)
unfolding pthread_lock assign resume
end_wait tid (m, c) = and_then (pthread_lock tid m) (λ m'. returns (assign tid m', resume c))

abbrev pub leave_wait : Bool → Condition → Condition
leave_wait true c = record c { waiting = c.waiting - 1 }
leave_wait false c = resume c

-- The same for `waitForSeconds`, which says whether the time was over before the thread was woken.
unfoldable pub end_wait_for_seconds :
    ℕ → Bool → MutexLock × Condition → Attempt (Bool × MutexLock × Condition)
unfolding pthread_lock assign resume
end_wait_for_seconds tid timed_out (m, c) =
    and_then (pthread_lock tid m) (λ m'. returns (timed_out, assign tid m', leave_wait timed_out c))

-- A holder that begins a wait gives the lock up as its trace allows, and any other thread can then
-- take it.
pub begin_wait-end_wait :
    {m : MutexLock} (tid : ℕ) (c : Condition)
    → Trace m
    → 0 < tid
    → m.owner ≡ some tid
    → let m₁ = (begin_wait (m, c)).0 in
      Trace m₁
      × ((other : ℕ) → lock other m₁ ≡ returns (record { owner = some other; holder = other }))
unfolding begin_wait unassgin pthread_unlock lock pthread_lock assign
begin_wait-end_wait {m} tid c t p e =
    (step (step t (unassigns tid e)) (releases tid e refl), λ other. refl)

-- Either wait that ends on a free lock makes the waiting thread its holder again, as the trace
-- allows, and the timed one says whether the time was up.
pub end_wait-end_wait_for_seconds :
    {m : MutexLock} (tid : ℕ) (c : Condition) (timed_out : Bool)
    → Trace m
    → 0 < tid
    → m.owner ≡ none
    → let held : MutexLock = record { owner = some tid; holder = tid } in
      Trace held
      × (end_wait tid (m, c) ≡ returns (held, resume c))
      × (end_wait_for_seconds tid timed_out (m, c)
          ≡ returns (timed_out, held, leave_wait timed_out c))
unfolding end_wait end_wait_for_seconds pthread_lock assign
end_wait-end_wait_for_seconds {m} tid c timed_out t p e =
    let got : Trace (record m { owner = some tid }) =
      step t (acquires tid (record m { owner = some tid }) p (rw e refl)) in
    (step got (assigns tid p refl), rw e refl, rw e refl)
