-- ===== src/Thread/Lifetime.antt =====
-- MyNet/base/Thread.cc: what becomes of the thread of the system.
use my_net.Common.{ℕ, ◌≡◌, ◌≢◌, ◌⊎◌, Bool, true, false, List}
use my_net.Common.Outcome.{done, fault, assertion}
use my_net.Thread.{
  Thread, Pthread, not_created, joinable, was_joined, detached, start, join, destroy,
}

-- Calls of an object that was made with some name. `pthread_join` of a joinable thread succeeds.
pub data Trace : Thread → Type 0 where
  made :
      (name : List ℕ)
      → Trace (record { name = name; started = false; joined = false; pthread = not_created })
  starts : {t t' : Thread} (created : Bool) → Trace t → start created t ≡ done t' → Trace t'
  joins : {t t' : Thread} → Trace t → join 0 t ≡ done (0, t') → Trace t'

-- What the object says is what the system knows.
abbrev of_flags : Bool → Bool → Pthread
of_flags false joined = not_created
of_flags true false = joinable
of_flags true true = was_joined

record IsValid (t : Thread) : Type 0 where
  knows : t.pthread ≡ of_flags t.started t.joined
  in_order : (t.started ≡ true) ⊎ (t.joined ≡ false)

-- What the calls of `pthread_join` and `pthread_detach` are given, and what is left.
abbrev pub JoinsRightly : Thread → Type 0
JoinsRightly t = (result : ℕ) → (join result t ≡ fault assertion) ⊎ (t.pthread ≡ joinable)

abbrev pub LeavesNothing : Thread → Type 0
LeavesNothing t =
    ((destroy t).pthread ≢ joinable)
    × (((destroy t).pthread ≡ t.pthread)
        ⊎ ((t.pthread ≡ joinable) × ((destroy t).pthread ≡ detached)))
