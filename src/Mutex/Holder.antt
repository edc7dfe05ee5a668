-- ===== src/Mutex/Holder.antt =====
-- MyNet/base/Mutex.h: in every order of the steps of the threads, what the lock says of its holder.
use my_net.Common.{
  ℕ, subst, Bool-cases, if◌then◌else◌, ◌≡◌, ◌≢◌, ◌⊎◌, inl, inr, refl, ap, ◌∙◌, ◌==◌, ◌<◌, arith,
  Option, none, some,
}
use my_net.Common.Outcome.{done, returns, stops, waits, deadlock}
use my_net.Mutex.{MutexLock, init, assign, unassgin, pthread_lock, pthread_unlock, lock, destroy}

-- One step of the thread `tid`, which is not 0. A thread gets the lock when it is free; only its owner
-- says or unsays that it holds it; and it unsays it before it gives the lock back, in `unlock` and,
-- by `UnassginMutexLockGuard`, in a wait for a condition.
pub data Step (m : MutexLock) : MutexLock → Type 0 where
  acquires : (tid : ℕ) (m' : MutexLock) → 0 < tid → pthread_lock tid m ≡ returns m' → Step m m'
  assigns : (tid : ℕ) → 0 < tid → m.owner ≡ some tid → Step m (assign tid m)
  unassigns : (tid : ℕ) → m.owner ≡ some tid → Step m (unassgin m)
  releases : (tid : ℕ) → m.owner ≡ some tid → m.holder ≡ 0 → Step m (pthread_unlock m)

pub data Trace : MutexLock → Type 0 where
  start : Trace init
  step : {m m' : MutexLock} → Trace m → Step m m' → Trace m'

-- The holder is nobody or the owner.
abbrev pub IsValid : MutexLock → Type 0
IsValid m = (m.holder ≡ 0) ⊎ (m.owner ≡ some m.holder)

-- The lock is given out when nobody has it.
acquired-IsValid :
    (tid : ℕ) (o : Option ℕ) (h : ℕ) (m' : MutexLock)
    → pthread_lock tid (record { owner = o; holder = h }) ≡ returns m'
    → IsValid (record { owner = o; holder = h })
    → IsValid m'
unfolding pthread_lock
acquired-IsValid tid none h m' e v =
    subst IsValid (let f : record { owner = some tid; holder = h } ≡ m' = cc in f)
      (elim v [ inl z ↦ inl z | inr q ↦ absurd cc ])
acquired-IsValid tid (some t) h m' e v = elim (Bool-cases (t == tid)) [
  | inl q ↦ absurd (
      let f : stops deadlock ≡ returns m' =
        subst (λ b. (if b then stops deadlock else waits) ≡ returns m') q e in
      cc)
  | inr q ↦ absurd (
      let f : waits ≡ returns m' =
        subst (λ b. (if b then stops deadlock else waits) ≡ returns m') q e in
      cc)
]

owned-lock :
    (tid : ℕ) (o : Option ℕ) (h : ℕ)
    → o ≡ some tid
    → (lock tid (record { owner = o; holder = h }) ≡ stops deadlock)
      × ((other : ℕ) → other ≢ tid → lock other (record { owner = o; holder = h }) ≡ waits)
unfolding lock pthread_lock
owned-lock tid o h e = (rw e (ground arith), λ other d. rw e (ground arith))

Step-IsValid : {m m' : MutexLock} → Step m m' → IsValid m → IsValid m'
unfolding pthread_lock pthread_unlock assign unassgin
Step-IsValid {m} (acquires tid m' p e) v = acquired-IsValid tid m.owner m.holder m' e v
Step-IsValid (assigns tid p e) v = inr e
Step-IsValid (unassigns tid e) v = inl refl
Step-IsValid (releases tid e z) v = inl z

pub Trace-IsValid : {m : MutexLock} → Trace m → IsValid m
Trace-IsValid start = inl refl
Trace-IsValid (step t s) = Step-IsValid s (Trace-IsValid t)

-- In every order of the steps of any threads on a new lock, if the lock says that it is held by
-- a thread, `lock` by that thread blocks it for ever and `lock` by any other waits.
pub Trace-lock :
    {m : MutexLock} (tid : ℕ)
    → Trace m
    → 0 < tid
    → m.holder ≡ tid
    → (lock tid m ≡ stops deadlock) × ((other : ℕ) → other ≢ tid → lock other m ≡ waits)
Trace-lock {m} tid t p h = elim (Trace-IsValid t) [
  | inl z ↦ absurd (omega arith)
  | inr o ↦ owned-lock tid m.owner m.holder (o ∙ ap some h)
]

pub Trace-destroy : {m : MutexLock} → Trace m → m.owner ≡ none → destroy m ≡ done tt
unfolding destroy
Trace-destroy t e = elim (Trace-IsValid t) [ inl z ↦ rw z | inr o ↦ absurd (cc) ]
