-- ===== src/Thread/Names.antt =====
-- MyNet/base/Thread.cc: the names of threads that are made without one.
use my_net.Common.{
  ℕ, zero, suc, ◌+◌, ◌%◌, ◌^◌, ◌<◌, ◌≡◌, ◌≢◌, refl, sym, ap, ◌∙◌, arith, List, [], ◌∷◌, drop,
}
use my_net.Atomic.{inc_and_get}
use my_net.Thread.{new_thread, set_default_name}

-- The counter after `n` threads, in whatever order they are made.
abbrev pub made : (ℕ → List ℕ) → ℕ → ℕ → ℕ
made show counter zero = counter
made show counter (suc n) = (new_thread show (made show counter n) []).1

-- The name of the thread that is made after `n` others.
abbrev pub name_after : (ℕ → List ℕ) → ℕ → List ℕ
name_after show n = (new_thread show (made show 0 n) []).0.name

module _ (show : ℕ → List ℕ) where
  made_lem : (n : ℕ) → made show 0 n ≡ n % 2 ^ 32
  unfolding new_thread set_default_name inc_and_get
  made_lem zero = refl
  made_lem (suc n) = rw (made_lem n) (omega arith)

  name_after_lem :
      (n : ℕ)
      → name_after show n ≡ b'T' ∷ b'h' ∷ b'r' ∷ b'e' ∷ b'a' ∷ b'd' ∷ show ((n + 1) % 2 ^ 32)
  unfolding new_thread set_default_name inc_and_get
  name_after_lem n =
      ap (λ m. b'T' ∷ b'h' ∷ b'r' ∷ b'e' ∷ b'a' ∷ b'd' ∷ show m) (let e = made_lem n in omega arith)

  -- For a format that shows different numbers below 2 ^ 32 differently, two threads among the
  -- first 2 ^ 32 that are made without a name have different names.
  pub name_after-Distinct :
      (i j : ℕ)
      → ((a b : ℕ) → a < 2 ^ 32 → b < 2 ^ 32 → show a ≡ show b → a ≡ b)
      → i < 2 ^ 32
      → j < 2 ^ 32
      → i ≢ j
      → name_after show i ≢ name_after show j
  name_after-Distinct i j injective h k d e =
      let same : show ((i + 1) % 2 ^ 32) ≡ show ((j + 1) % 2 ^ 32) =
        ap (drop 6) (sym (name_after_lem i) ∙ e ∙ name_after_lem j) in
      let f = injective ((i + 1) % 2 ^ 32) ((j + 1) % 2 ^ 32) (omega arith) (omega arith) same in
      d (omega arith)
