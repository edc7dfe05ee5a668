-- ===== src/Common/Word.antt =====
-- `size_t` on a 64-bit host: arithmetic wraps at 2 ^ 64.
use Prim.Native.Nat.{ℕ, ◌+◌, ◌-◌, ◌%◌, ◌^◌, ◌≤◌, ◌<◌}
use mathlib.Core.Path.{◌≡◌}
use native.Mathlib.Omega.{arith}
use my_net.Common.Int.{ℤ, pos, negsuc}
use my_net.Common.Test.{ltb, if◌then◌else◌}

abbrev pub size_mod : ℕ
size_mod = 2 ^ 64

abbrev pub add_size : ℕ → ℕ → ℕ
add_size a b = (a + b) % size_mod

abbrev pub sub_size : ℕ → ℕ → ℕ
sub_size a b = (a + size_mod - b) % size_mod

-- The largest `std::vector<char>`: `max_size()` is the largest `ptrdiff_t`.
abbrev pub max_size : ℕ
max_size = 2 ^ 63 - 1

pub sub_size-eq : (a b : ℕ) → b ≤ a → a < size_mod → sub_size a b ≡ a - b
sub_size-eq a b h k = omega arith

pub add_size-eq : (a b : ℕ) → a + b < size_mod → add_size a b ≡ a + b
add_size-eq a b h = omega arith

-- A 32-bit pattern as an `int32_t`, and back.
abbrev pub to_int32 : ℕ → ℤ
to_int32 x = if ltb x (2 ^ 31) then pos x else negsuc (2 ^ 32 - 1 - x)

abbrev pub of_int32 : ℤ → ℕ
of_int32 (pos n) = n
of_int32 (negsuc n) = 2 ^ 32 - 1 - n

-- The values of an `int32_t`.
abbrev pub IsInt32 : ℤ → Type 0
IsInt32 (pos n) = n < 2 ^ 31
IsInt32 (negsuc n) = n < 2 ^ 31

pub to_int32-of_int32 : (v : ℤ) → IsInt32 v → (to_int32 (of_int32 v) ≡ v) × (of_int32 v < 2 ^ 32)
to_int32-of_int32 (pos n) h = (ground arith, omega arith)
to_int32-of_int32 (negsuc n) h = (ground arith, omega arith)
