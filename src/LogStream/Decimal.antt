-- ===== src/LogStream/Decimal.antt =====
-- MyNet/base/LogStream.cc: the text of an integer, read as a decimal number, is the integer.
use mathlib.Core.List.{reverse-append}
use my_net.Common.{
  ℕ, Bool, zero, suc, ◌+◌, ◌-◌, ◌*◌, ◌/◌, ◌%◌, ◌^◌, ◌≤◌, ◌<◌, ◌==◌, ◌≡◌, refl, sym, subst, ap, ◌∙◌,
  if◌then◌else◌, true, false, List, [], ◌∷◌, ◌++◌, reverse, length, length-reverse, arith,
  ℕ_discrete,
}
use my_net.Common.Int.{ℤ, pos, negsuc, pos_part, neg_part, sub_ℕ, ◌+ℤ◌, quot, rem, eqb_ℤ}
use my_net.LogStream.Numbers.{digits, digit, char_at, convert_loop, convert}

-- Reading a text: digits from the left, and a minus sign in front.
abbrev pub decimal : ℕ → List ℕ → ℕ
decimal acc [] = acc
decimal acc (c ∷ cs) = decimal (10 * acc + (c - 48)) cs

abbrev pub parse : List ℕ → ℤ
parse [] = pos 0
parse (c ∷ cs) = if c == 45 then sub_ℕ 0 (decimal 0 cs) else pos (decimal 0 (c ∷ cs))

decimal-snoc :
    (acc : ℕ) (cs : List ℕ) (c : ℕ) → decimal acc (cs ++ c ∷ []) ≡ 10 * decimal acc cs + (c - 48)
decimal-snoc acc [] c = refl
decimal-snoc acc (d ∷ cs) c = decimal-snoc (10 * acc + (d - 48)) cs c

-- The digits of a natural number, the last one first.
abbrev nat_digits : ℕ → ℕ → List ℕ
nat_digits zero n = []
nat_digits (suc fuel) n =
    let more = nat_digits fuel (n / 10) in (48 + n % 10) ∷ (if n / 10 == 0 then [] else more)

digit_up : (r : ℕ) → r < 10 → char_at digits (9 + r) ≡ 48 + r
digit_up zero h = refl
digit_up (suc zero) h = refl
digit_up (suc (suc zero)) h = refl
digit_up (suc (suc (suc zero))) h = refl
digit_up (suc (suc (suc (suc zero)))) h = refl
digit_up (suc (suc (suc (suc (suc zero))))) h = refl
digit_up (suc (suc (suc (suc (suc (suc zero)))))) h = refl
digit_up (suc (suc (suc (suc (suc (suc (suc zero))))))) h = refl
digit_up (suc (suc (suc (suc (suc (suc (suc (suc zero)))))))) h = refl
digit_up (suc (suc (suc (suc (suc (suc (suc (suc (suc zero))))))))) h = refl
digit_up (suc (suc (suc (suc (suc (suc (suc (suc (suc (suc r)))))))))) h = absurd (omega arith)

digit_down : (r : ℕ) → r < 10 → char_at digits (9 - r) ≡ 48 + r
digit_down zero h = refl
digit_down (suc zero) h = refl
digit_down (suc (suc zero)) h = refl
digit_down (suc (suc (suc zero))) h = refl
digit_down (suc (suc (suc (suc zero)))) h = refl
digit_down (suc (suc (suc (suc (suc zero))))) h = refl
digit_down (suc (suc (suc (suc (suc (suc zero)))))) h = refl
digit_down (suc (suc (suc (suc (suc (suc (suc zero))))))) h = refl
digit_down (suc (suc (suc (suc (suc (suc (suc (suc zero)))))))) h = refl
digit_down (suc (suc (suc (suc (suc (suc (suc (suc (suc zero))))))))) h = refl
digit_down (suc (suc (suc (suc (suc (suc (suc (suc (suc (suc r)))))))))) h = absurd (omega arith)

index_up : (r : ℕ) → pos_part (pos 9 +ℤ pos r) ≡ 9 + r
unfolding ◌+ℤ◌
index_up r = ground arith

index_down : (r : ℕ) → pos_part (pos 9 +ℤ sub_ℕ 0 r) ≡ 9 - r
unfolding ◌+ℤ◌
index_down r = ground arith

quot_size : (i : ℤ) → pos_part (quot i 10) + neg_part (quot i 10) ≡ (pos_part i + neg_part i) / 10
unfolding quot
quot_size (pos n) = ground arith
quot_size (negsuc n) = ground arith

-- `zero[lsd]` is the last digit of the absolute value.
digit-rem : (i : ℤ) → digit (rem i 10) ≡ 48 + (pos_part i + neg_part i) % 10
unfolding digit rem
digit-rem (pos n) =
    ap (char_at digits) (index_up (n % 10))
    ∙ digit_up (n % 10) (omega arith)
    ∙ ap (λ m. 48 + m % 10) (let e : n ≡ n + 0 = omega arith in e)
digit-rem (negsuc n) =
    ap (char_at digits) (index_down (suc n % 10))
    ∙ digit_down (suc n % 10) (omega arith)
    ∙ ap (λ m. 48 + m % 10) (let e : suc n ≡ 0 + suc n = omega arith in e)

is_zero_size : (i : ℤ) → eqb_ℤ i (pos 0) ≡ (pos_part i + neg_part i == 0)
is_zero_size (pos n) = ground arith
is_zero_size (negsuc n) = ground arith

-- The loop writes the digits of the absolute value, whatever the sign.
convert_loop-eq :
    (fuel : ℕ) (i : ℤ) → convert_loop fuel i ≡ nat_digits fuel (pos_part i + neg_part i)
unfolding convert_loop
convert_loop-eq zero i = refl
convert_loop-eq (suc fuel) i =
    rw (digit-rem i, is_zero_size (quot i 10), convert_loop-eq fuel (quot i 10), quot_size i)

decimal-nat_digits : (fuel n : ℕ) → n < fuel → decimal 0 (reverse (nat_digits fuel n)) ≡ n
decimal-nat_digits zero n h = absurd (omega arith)
decimal-nat_digits (suc fuel) n h =
    elim (ℕ_discrete (n / 10) 0) as (λ _. decimal 0 (reverse (nat_digits (suc fuel) n)) ≡ n) [
      | yes p ↦ ground arith
      | no p ↦
          let more = nat_digits fuel (n / 10) in
          let rest = decimal-nat_digits fuel (n / 10) (omega arith) in
          let last = reverse-append ((48 + n % 10) ∷ []) more in
          let snoc = decimal-snoc 0 (reverse more) (48 + n % 10) in ground (arith, last, snoc, rest)
    ]

abbrev AreDigits : List ℕ → Type 0
AreDigits [] = Unit {0}
AreDigits (c ∷ cs) = (48 ≤ c) × AreDigits cs

AreDigits-append : (xs ys : List ℕ) → AreDigits xs → AreDigits ys → AreDigits (xs ++ ys)
AreDigits-append [] ys d e = e
AreDigits-append (x ∷ xs) ys d e = (d.0, AreDigits-append xs ys d.1 e)

reverse-AreDigits : (xs : List ℕ) → AreDigits xs → AreDigits (reverse xs)
reverse-AreDigits [] d = d
reverse-AreDigits (x ∷ xs) d =
    subst AreDigits (sym (reverse-append (x ∷ []) xs))
      (AreDigits-append (reverse xs) (x ∷ []) (reverse-AreDigits xs d.1) (d.0, tt))

if_digits : (b : Bool) (cs : List ℕ) → AreDigits cs → AreDigits (if b then [] else cs)
if_digits true cs d = tt
if_digits false cs d = d

nat_digits-AreDigits : (fuel n : ℕ) → AreDigits (nat_digits fuel n)
nat_digits-AreDigits zero n = tt
nat_digits-AreDigits (suc fuel) n = (
  omega arith,
  if_digits (n / 10 == 0) (nat_digits fuel (n / 10)) (nat_digits-AreDigits fuel (n / 10)),
)

parse_digits : (ds : List ℕ) → AreDigits ds → parse ds ≡ pos (decimal 0 ds)
parse_digits [] d = refl
parse_digits (c ∷ cs) d = ground (arith, d.0)

convert_pos : (n : ℕ) → convert (pos n) ≡ reverse (nat_digits (n + 1) n)
unfolding convert
convert_pos n = rw (convert_loop-eq (n + 0 + 1) (pos n)) (ground arith)

convert_negsuc : (n : ℕ) → convert (negsuc n) ≡ b'-' ∷ reverse (nat_digits (suc n + 1) (suc n))
unfolding convert
convert_negsuc n =
    rw (convert_loop-eq (0 + suc n + 1) (negsuc n))
      (ground (arith, reverse-append (nat_digits (suc n + 1) (suc n)) (b'-' ∷ [])))

-- The text that `convert` makes of an integer, read as a decimal number with its sign, is the
-- integer.
pub parse-convert : (v : ℤ) → parse (convert v) ≡ v
parse-convert (pos n) =
    ap parse (convert_pos n)
    ∙ parse_digits (reverse (nat_digits (n + 1) n))
        (reverse-AreDigits (nat_digits (n + 1) n) (nat_digits-AreDigits (n + 1) n))
    ∙ ap pos (decimal-nat_digits (n + 1) n (omega arith))
parse-convert (negsuc n) =
    ap parse (convert_negsuc n)
    ∙ ap (sub_ℕ 0) (decimal-nat_digits (suc n + 1) (suc n) (omega arith))
    ∙ ground arith

length_if : (b : Bool) (cs : List ℕ) (k : ℕ) → length cs ≤ k → length (if b then [] else cs) ≤ k
length_if true cs k h = omega arith
length_if false cs k h = h

nat_digits-short : (k fuel n : ℕ) → n < 10 ^ suc k → length (nat_digits fuel n) ≤ suc k
nat_digits-short k zero n h = omega arith
nat_digits-short zero (suc fuel) n h = ground arith
nat_digits-short (suc k) (suc fuel) n h =
    let rest =
      length_if (n / 10 == 0) (nat_digits fuel (n / 10)) (suc k)
        (nat_digits-short k fuel (n / 10) (omega arith)) in
    omega arith

-- An integer of at most k + 1 decimal digits has a text of at most k + 2 characters, its sign
-- included.
pub length-convert :
    (k : ℕ) (v : ℤ) → pos_part v + neg_part v < 10 ^ suc k → length (convert v) ≤ suc (suc k)
length-convert k (pos n) h =
    let short = nat_digits-short k (n + 1) n (omega arith) in
    omega (arith, ap length (convert_pos n), length-reverse (nat_digits (n + 1) n))
length-convert k (negsuc n) h =
    let short = nat_digits-short k (suc n + 1) (suc n) (omega arith) in
    omega (arith, ap length (convert_negsuc n), length-reverse (nat_digits (suc n + 1) (suc n)))
