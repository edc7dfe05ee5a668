-- ===== src/Common/Outcome.antt =====
-- The result of a function that can stop the program: by a failed `assert`, by an exception of the
-- standard library, or by a step that C++ leaves undefined.
use mathlib.Core.Path.{◌≡◌, refl}
use mathlib.Core.Logic.{◌⊎◌, inl, inr}
use mathlib.Core.Bool.{Bool, true, false}

pub data Fault : Type 0 where
  assertion length_error null_pointer deadlock out_of_bounds : Fault

pub data Outcome {ℓ} (A : Type ℓ) : Type ℓ where
  done : A → Outcome A
  fault : Fault → Outcome A

infixl 5 ◌>>=◌ ◌>>◌
abbrev pub ◌>>=◌ {ℓ κ} : {A : Type ℓ} {B : Type κ} → Outcome A → (A → Outcome B) → Outcome B
done a >>= f = f a
fault e >>= f = fault e

abbrev pub ◌>>◌ {ℓ} : {B : Type ℓ} → Outcome (Unit {0}) → Outcome B → Outcome B
m >> k = m >>= λ _. k

-- `assert(b)`
abbrev pub check : Bool → Outcome (Unit {0})
check true = done tt
check false = fault assertion

pub >>=-done {ℓ κ} :
    {A : Type ℓ} {B : Type κ} (m : Outcome A) (f : A → Outcome B) {a : A}
    → m ≡ done a
    → (m >>= f) ≡ f a
>>=-done m f e = rw e

pub done_inj {ℓ} : {A : Type ℓ} {m : Outcome A} {a b : A} → m ≡ done a → m ≡ done b → a ≡ b
done_inj e f = cc

pub Outcome-cases {ℓ} :
    {A : Type ℓ} (m : Outcome A) → ((a : A) × (m ≡ done a)) ⊎ ((e : Fault) × (m ≡ fault e))
Outcome-cases (done a) = inl (a, refl)
Outcome-cases (fault e) = inr (e, refl)

-- The result of a call that may also wait for another thread; `unfinished` is that of a loop without
-- enough fuel.
pub data Attempt {ℓ} (A : Type ℓ) : Type ℓ where
  returns : A → Attempt A
  stops : Fault → Attempt A
  waits unfinished : Attempt A

abbrev pub and_then {ℓ κ} : {A : Type ℓ} {B : Type κ} → Attempt A → (A → Attempt B) → Attempt B
and_then (returns a) f = f a
and_then (stops e) f = stops e
and_then waits f = waits
and_then unfinished f = unfinished
