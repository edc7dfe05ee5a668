-- ===== src/LogStream/Numbers.antt =====
-- MyNet/base/LogStream.cc: numbers as text. The loops run on fuel; `convert` gives as much as the
-- number's own size, and the round trips show that it is enough.
use my_net.Common.{ℕ, zero, suc, ◌+◌, ◌/◌, ◌%◌, ◌==◌, if◌then◌else◌, List, [], ◌∷◌, ◌++◌, reverse}
use my_net.Common.Int.{ℤ, pos, pos_part, neg_part, ◌+ℤ◌, quot, rem, ltb_ℤ, eqb_ℤ}

-- `array[i]`; the code of the last clause is never used.
abbrev pub char_at : List ℕ → ℕ → ℕ
char_at [] i = 0
char_at (c ∷ cs) zero = c
char_at (c ∷ cs) (suc i) = char_at cs i

-- `digits`, in which `zero` points at index 9, and `digitsHex`
abbrev pub digits : List ℕ
digits =
    57 ∷ 56 ∷ 55 ∷ 54 ∷ 53 ∷ 52 ∷ 51 ∷ 50 ∷ 49 ∷ 48 ∷ 49 ∷ 50 ∷ 51 ∷ 52 ∷ 53 ∷ 54 ∷ 55 ∷ 56 ∷ 57
    ∷ []

abbrev pub digits_hex : List ℕ
digits_hex = 48 ∷ 49 ∷ 50 ∷ 51 ∷ 52 ∷ 53 ∷ 54 ∷ 55 ∷ 56 ∷ 57 ∷ 65 ∷ 66 ∷ 67 ∷ 68 ∷ 69 ∷ 70 ∷ []

-- `zero[lsd]`, for a `lsd` between -9 and 9
unfoldable pub digit : ℤ → ℕ
unfolding ◌+ℤ◌
digit lsd = char_at digits (pos_part (pos 9 +ℤ lsd))

-- The characters that the loop writes, the last digit first.
unfoldable pub convert_loop : ℕ → ℤ → List ℕ
unfolding digit rem quot
convert_loop zero i = []
convert_loop (suc fuel) i =
    let more = convert_loop fuel (quot i 10) in
    digit (rem i 10) ∷ (if eqb_ℤ (quot i 10) (pos 0) then [] else more)

unfoldable pub convert : ℤ → List ℕ
unfolding convert_loop
convert value =
    let written = convert_loop (pos_part value + neg_part value + 1) value in
    reverse (if ltb_ℤ value (pos 0) then written ++ b'-' ∷ [] else written)

unfoldable pub convert_hex_loop : ℕ → ℕ → List ℕ
convert_hex_loop zero i = []
convert_hex_loop (suc fuel) i =
    let more = convert_hex_loop fuel (i / 16) in
    char_at digits_hex (i % 16) ∷ (if i / 16 == 0 then [] else more)

unfoldable pub convert_hex : ℕ → List ℕ
unfolding convert_hex_loop
convert_hex value = reverse (convert_hex_loop (value + 1) value)
