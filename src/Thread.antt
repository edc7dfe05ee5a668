-- ===== src/Thread.antt =====
-- MyNet/base/Thread.h and .cc: a thread of the system and the object that starts, joins or detaches it.
-- `Pthread` is what the system knows of the thread behind `m_threadId`.
pub mod Lifetime
pub mod Names
use my_net.Common.{
  ℕ, zero, suc, ◌^◌, if◌then◌else◌, Bool, true, false, not, ◌&&◌, Option, none, some, List, [], ◌∷◌,
  ◌++◌,
}
use mathlib.Core.Option
use my_net.Common.Outcome.{Outcome, done, check, ◌>>◌}
use my_net.Atomic.{inc_and_get}
use my_net.ThreadOp.{ThreadLocals, tid}

pub data Pthread : Type 0 where
  not_created joinable was_joined detached : Pthread

pub record Thread : Type 0 where
  pub name : List ℕ
  pub started : Bool
  pub joined : Bool
  pub pthread : Pthread

abbrev pub or_default : List ℕ → List ℕ → List ℕ
or_default [] other = other
or_default (c ∷ cs) other = c ∷ cs

-- `show` is what `snprintf` makes of a number with "%d"; the counter is `m_ThreadNum`.
unfoldable pub set_default_name : (ℕ → List ℕ) → ℕ → Thread → Thread × ℕ
unfolding inc_and_get
set_default_name show counter t =
    let (num, counter') = inc_and_get (2 ^ 32) counter in
    let text = b'T' ∷ b'h' ∷ b'r' ∷ b'e' ∷ b'a' ∷ b'd' ∷ show num in
    (record t { name = or_default t.name text }, counter')

unfoldable pub new_thread : (ℕ → List ℕ) → ℕ → List ℕ → Thread × ℕ
unfolding set_default_name
new_thread show counter name =
    set_default_name show counter
      (record { name = name; started = false; joined = false; pthread = not_created })

-- `created`: `pthread_create` gives 0.
unfoldable pub start : Bool → Thread → Outcome Thread
start created t =
    check (not t.started)
    >> done (if created then record t { started = true; pthread = joinable } else t)

abbrev pub pthread_join : ℕ → Pthread → Pthread
pthread_join zero p = was_joined
pthread_join (suc n) p = p

-- `result` is that of `pthread_join`, which has joined the thread if it is 0.
unfoldable pub join : ℕ → Thread → Outcome (ℕ × Thread)
join result t =
    check t.started
    >> (check (not t.joined)
        >> done (result, record t { joined = true; pthread = pthread_join result t.pthread }))

-- The destructor.
unfoldable pub destroy : Thread → Thread
destroy t = if t.started && not t.joined then record t { pthread = detached } else t

-- What runs in the new thread around `func`: the number that is stored in the object of the thread, if it
-- is alive still, and the thread's variables when `func` begins and after it.
unfoldable pub run_in_thread :
    (ℕ → List ℕ) → ℕ → List ℕ → Option ℕ → ThreadLocals → Option ℕ × ThreadLocals × ThreadLocals
unfolding tid
run_in_thread five gettid name shared_tid l =
    let (n, l') = tid five gettid (record l { thread_name = name }) in
    let own =
      or_default name
        (b'M' ∷ b'y' ∷ b'N' ∷ b'e' ∷ b't' ∷ b'T' ∷ b'h' ∷ b'r' ∷ b'e' ∷ b'a' ∷ b'd' ∷ []) in
    (
      Option.map (λ old. n) shared_tid,
      record l' { thread_name = own },
      record l' { thread_name = b'f' ∷ b'i' ∷ b'n' ∷ b'i' ∷ b's' ∷ b'h' ∷ b'e' ∷ b'd' ∷ [] },
    )
