-- ===== src/LogStream/Hexadecimal.antt =====
-- MyNet/base/LogStream.cc: the text of a pointer, read as a hexadecimal number.
use mathlib.Core.List.{reverse-append}
use my_net.Common.{
  ℕ, Bool, zero, suc, ◌+◌, ◌-◌, ◌*◌, ◌/◌, ◌%◌, ◌^◌, ◌≤◌, ◌<◌, ◌==◌, ◌≡◌, refl, if◌then◌else◌, true,
  false, List, [], ◌∷◌, ◌++◌, reverse, length, length-reverse, arith, ltb, ℕ_discrete,
}
use my_net.LogStream.Numbers.{digits_hex, char_at, convert_hex_loop, convert_hex}

-- Reading a text: 0 to 9 and A to F, from the left.
abbrev hex_value : ℕ → ℕ
hex_value c = if ltb c 65 then c - 48 else c - 55

abbrev pub hexadecimal : ℕ → List ℕ → ℕ
hexadecimal acc [] = acc
hexadecimal acc (c ∷ cs) = hexadecimal (16 * acc + hex_value c) cs

hexadecimal-snoc :
    (acc : ℕ) (cs : List ℕ) (c : ℕ)
    → hexadecimal acc (cs ++ c ∷ []) ≡ 16 * hexadecimal acc cs + hex_value c
hexadecimal-snoc acc [] c = refl
hexadecimal-snoc acc (d ∷ cs) c = hexadecimal-snoc (16 * acc + hex_value d) cs c

hex_value-char_at : (r : ℕ) → r < 16 → hex_value (char_at digits_hex r) ≡ r
hex_value-char_at zero h = refl
hex_value-char_at (suc zero) h = refl
hex_value-char_at (suc (suc zero)) h = refl
hex_value-char_at (suc (suc (suc zero))) h = refl
hex_value-char_at (suc (suc (suc (suc zero)))) h = refl
hex_value-char_at (suc (suc (suc (suc (suc zero))))) h = refl
hex_value-char_at (suc (suc (suc (suc (suc (suc zero)))))) h = refl
hex_value-char_at (suc (suc (suc (suc (suc (suc (suc zero))))))) h = refl
hex_value-char_at (suc (suc (suc (suc (suc (suc (suc (suc zero)))))))) h = refl
hex_value-char_at (suc (suc (suc (suc (suc (suc (suc (suc (suc zero))))))))) h = refl
hex_value-char_at (suc (suc (suc (suc (suc (suc (suc (suc (suc (suc zero)))))))))) h = refl
hex_value-char_at (suc (suc (suc (suc (suc (suc (suc (suc (suc (suc (suc zero))))))))))) h = refl
hex_value-char_at (suc (suc (suc (suc (suc (suc (suc (suc (suc (suc (suc (suc zero)))))))))))) h =
    refl
hex_value-char_at (suc (suc (suc (suc (suc (suc (suc (suc (suc (suc (suc (suc (suc zero)))))))))))))
      h =
    refl
hex_value-char_at
      (suc (suc (suc (suc (suc (suc (suc (suc (suc (suc (suc (suc (suc (suc zero)))))))))))))) h =
    refl
hex_value-char_at
      (suc (suc (suc (suc (suc (suc (suc (suc (suc (suc (suc (suc (suc (suc (suc zero)))))))))))))))
      h =
    refl
hex_value-char_at
      (suc
        (suc (suc (suc (suc (suc (suc (suc (suc (suc (suc (suc (suc (suc (suc (suc r))))))))))))))))
      h =
    absurd (omega arith)

hexadecimal-convert_hex_loop :
    (fuel n : ℕ) → n < fuel → hexadecimal 0 (reverse (convert_hex_loop fuel n)) ≡ n
unfolding convert_hex_loop
hexadecimal-convert_hex_loop zero n h = absurd (omega arith)
hexadecimal-convert_hex_loop (suc fuel) n h =
    let value = hex_value-char_at (n % 16) (omega arith) in
    elim (ℕ_discrete (n / 16) 0)
      as (λ _. hexadecimal 0 (reverse (convert_hex_loop (suc fuel) n)) ≡ n) [
        | yes p ↦ ground arith
        | no p ↦
            let more = convert_hex_loop fuel (n / 16) in
            let rest = hexadecimal-convert_hex_loop fuel (n / 16) (omega arith) in
            let last = reverse-append (char_at digits_hex (n % 16) ∷ []) more in
            let snoc = hexadecimal-snoc 0 (reverse more) (char_at digits_hex (n % 16)) in
            ground (arith, last, snoc, rest)
      ]

-- The text that `convertHex` makes of a number, read as a hexadecimal number, is the number.
pub hexadecimal-convert_hex : (n : ℕ) → hexadecimal 0 (convert_hex n) ≡ n
unfolding convert_hex
hexadecimal-convert_hex n = hexadecimal-convert_hex_loop (n + 1) n (omega arith)

length_if : (b : Bool) (cs : List ℕ) (k : ℕ) → length cs ≤ k → length (if b then [] else cs) ≤ k
length_if true cs k h = omega arith
length_if false cs k h = h

convert_hex_loop-short : (k fuel n : ℕ) → n < 16 ^ suc k → length (convert_hex_loop fuel n) ≤ suc k
unfolding convert_hex_loop
convert_hex_loop-short k zero n h = omega arith
convert_hex_loop-short zero (suc fuel) n h = ground arith
convert_hex_loop-short (suc k) (suc fuel) n h =
    let rest =
      length_if (n / 16 == 0) (convert_hex_loop fuel (n / 16)) (suc k)
        (convert_hex_loop-short k fuel (n / 16) (omega arith)) in
    omega arith

-- A pointer below 16^k has a text of at most k characters.
pub length-convert_hex : (k n : ℕ) → n < 16 ^ suc k → length (convert_hex n) ≤ suc k
unfolding convert_hex
length-convert_hex k n h =
    let short = convert_hex_loop-short k (n + 1) n h in
    omega (arith, length-reverse (convert_hex_loop (n + 1) n))
