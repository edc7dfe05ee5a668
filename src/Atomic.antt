-- ===== src/Atomic.antt =====
-- MyNet/base/Atomic.h: an integer that threads change in one step each. The value is a bit pattern of
-- `modulus` values, 2 ^ 32 or 2 ^ 64; the `__sync` functions wrap around.
pub mod Counting
use my_net.Common.{ℕ, ◌+◌, ◌-◌, ◌%◌, ◌==◌, if◌then◌else◌}

-- `__sync_val_compare_and_swap`: the old value, and the new one.
abbrev compare_and_swap : ℕ → ℕ → ℕ → ℕ × ℕ
compare_and_swap value old new = (value, if value == old then new else value)

-- Each operation gives its result and the new value.
module _ (modulus : ℕ) where
  abbrev plus : ℕ → ℕ → ℕ
  plus a b = (a + b) % modulus

  abbrev minus : ℕ → ℕ → ℕ
  minus a b = (a + modulus - b) % modulus

  unfoldable pub get : ℕ → ℕ × ℕ
  get m = compare_and_swap m 0 0

  unfoldable pub get_and_set : ℕ → ℕ → ℕ × ℕ
  get_and_set value m = (m, value)

  unfoldable pub add_and_get : ℕ → ℕ → ℕ × ℕ
  add_and_get value m = (plus m value, plus m value)

  unfoldable pub get_and_add : ℕ → ℕ → ℕ × ℕ
  unfolding add_and_get
  get_and_add value m = let (sum, m') = add_and_get value m in (minus sum value, m')

  unfoldable pub inc_and_get : ℕ → ℕ × ℕ
  unfolding add_and_get
  inc_and_get m = add_and_get 1 m

  unfoldable pub inc : ℕ → ℕ
  unfolding add_and_get
  inc m = (add_and_get 1 m).1

  unfoldable pub sub_and_get : ℕ → ℕ → ℕ × ℕ
  sub_and_get value m = (minus m value, minus m value)

  unfoldable pub dec_and_get : ℕ → ℕ × ℕ
  unfolding sub_and_get
  dec_and_get m = sub_and_get 1 m

  unfoldable pub dec : ℕ → ℕ
  unfolding sub_and_get
  dec m = (sub_and_get 1 m).1
