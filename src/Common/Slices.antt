-- ===== src/Common/Slices.antt =====
-- What a slice of a block of memory becomes when the block is written, cut or moved.
use my_net.Common.Lists.{length, take, drop, copy, slice}
use Prim.Native.Nat.{ℕ, zero, suc, ◌+◌, ◌≤◌}
use mathlib.Core.Path.{◌≡◌, refl, ap, ◌∙◌}
use mathlib.Core.List.{List, [], ◌∷◌, ◌++◌}
use native.Mathlib.Omega.{arith}

module _ {ℓ} {A : Type ℓ} where
  cons_eq : (x : A) {xs ys : List A} → xs ≡ ys → x ∷ xs ≡ x ∷ ys
  cons_eq x e = ap (λ (t : List A). x ∷ t) e

  -- Reading at the place of a write gives what was written, then what follows it.
  take-copy :
      (xs src : List A) (w n : ℕ)
      → w ≡ 0
      → n ≡ length src
      → n ≤ length xs
      → take n (copy xs w src) ≡ src
  take-copy xs src (suc w) n e f h = absurd (omega arith)
  take-copy xs [] zero (suc n) e f h = absurd (omega arith)
  take-copy xs [] zero zero e f h = refl
  take-copy xs (y ∷ ys) zero zero e f h = absurd (omega arith)
  take-copy [] (y ∷ ys) zero (suc n) e f h = absurd (omega arith)
  take-copy (x ∷ xs) (y ∷ ys) zero (suc n) e f h =
      cons_eq y (take-copy xs ys zero n refl (omega arith) (omega arith))

  take-copy_end :
      (xs src : List A) (k w n : ℕ)
      → w ≡ k
      → n ≡ k + length src
      → n ≤ length xs
      → take n (copy xs w src) ≡ take k xs ++ src
  take-copy_end xs src zero w n e f h = take-copy xs src w n e (omega arith) h
  take-copy_end xs src (suc k) zero n e f h = absurd (omega arith)
  take-copy_end xs src (suc k) (suc w) zero e f h = absurd (omega arith)
  take-copy_end [] src (suc k) (suc w) (suc n) e f h = absurd (omega arith)
  take-copy_end (x ∷ xs) src (suc k) (suc w) (suc n) e f h =
      cons_eq x (take-copy_end xs src k w n (omega arith) (omega arith) (omega arith))

  -- A write just behind a slice extends the slice by what was written.
  pub slice-copy_end :
      (xs src : List A) (i k w n : ℕ)
      → w ≡ i + k
      → n ≡ k + length src
      → i + n ≤ length xs
      → slice i n (copy xs w src) ≡ slice i k xs ++ src
  slice-copy_end xs src zero k w n e f h = take-copy_end xs src k w n (omega arith) f (omega arith)
  slice-copy_end [] src (suc i) k w n e f h = absurd (omega arith)
  slice-copy_end (x ∷ xs) src (suc i) k zero n e f h = absurd (omega arith)
  slice-copy_end (x ∷ xs) src (suc i) k (suc w) n e f h =
      slice-copy_end xs src i k w n (omega arith) f (omega arith)

  -- A write just in front of a slice extends it in front.
  take-copy_front :
      (xs src : List A) (w k n : ℕ)
      → w ≡ 0
      → n ≡ length src + k
      → n ≤ length xs
      → take n (copy xs w src) ≡ src ++ slice (length src) k xs
  take-copy_front xs src (suc w) k n e f h = absurd (omega arith)
  take-copy_front [] [] zero k n e f h = ap (λ m. take m []) (let p : n ≡ k = omega arith in p)
  take-copy_front (x ∷ xs) [] zero k n e f h =
      ap (λ m. take m (x ∷ xs)) (let p : n ≡ k = omega arith in p)
  take-copy_front xs (y ∷ ys) zero k zero e f h = absurd (omega arith)
  take-copy_front [] (y ∷ ys) zero k (suc n) e f h = absurd (omega arith)
  take-copy_front (x ∷ xs) (y ∷ ys) zero k (suc n) e f h =
      cons_eq y (take-copy_front xs ys zero k n refl (omega arith) (omega arith))

  pub slice-copy_front :
      (xs src : List A) (i k n j : ℕ)
      → n ≡ length src + k
      → j ≡ i + length src
      → i + n ≤ length xs
      → slice i n (copy xs i src) ≡ src ++ slice j k xs
  slice-copy_front xs src zero k n j f g h =
      take-copy_front xs src zero k n refl f (omega arith)
      ∙ ap (λ m. src ++ slice m k xs) (let p : length src ≡ j = omega arith in p)
  slice-copy_front [] src (suc i) k n j f g h = absurd (omega arith)
  slice-copy_front (x ∷ xs) src (suc i) k n zero f g h = absurd (omega arith)
  slice-copy_front (x ∷ xs) src (suc i) k n (suc j) f g h =
      slice-copy_front xs src i k n j f (omega arith) (omega arith)

  -- A slice of a slice.
  drop-take : (n m k : ℕ) (xs : List A) → k ≡ n + m → drop n (take k xs) ≡ take m (drop n xs)
  drop-take zero m k xs e = ap (λ j. take j xs) (let p : k ≡ m = omega arith in p)
  drop-take (suc n) m zero xs e = absurd (omega arith)
  drop-take (suc n) zero (suc k) [] e = refl
  drop-take (suc n) (suc m) (suc k) [] e = refl
  drop-take (suc n) m (suc k) (x ∷ xs) e = drop-take n m k xs (omega arith)

  drop-drop : (n i j : ℕ) (xs : List A) → j ≡ i + n → drop n (drop i xs) ≡ drop j xs
  drop-drop n zero j xs e = ap (λ m. drop m xs) (let p : n ≡ j = omega arith in p)
  drop-drop zero (suc i) zero [] e = absurd (omega arith)
  drop-drop zero (suc i) (suc j) [] e = refl
  drop-drop (suc n) (suc i) zero [] e = absurd (omega arith)
  drop-drop (suc n) (suc i) (suc j) [] e = refl
  drop-drop n (suc i) zero (x ∷ xs) e = absurd (omega arith)
  drop-drop n (suc i) (suc j) (x ∷ xs) e = drop-drop n i j xs (omega arith)

  pub drop-slice :
      (n i j m k : ℕ) (xs : List A) → j ≡ i + n → k ≡ n + m → drop n (slice i k xs) ≡ slice j m xs
  drop-slice n i j m k xs e f = drop-take n m k (drop i xs) f ∙ ap (take m) (drop-drop n i j xs e)

  pub take-slice : (n i k : ℕ) (xs : List A) → n ≤ k → take n (slice i k xs) ≡ slice i n xs
  take-slice n i k xs h = shorten n k (drop i xs) h
    where
      shorten : (n k : ℕ) (xs : List A) → n ≤ k → take n (take k xs) ≡ take n xs
      shorten zero k xs h = refl
      shorten (suc n) zero xs h = absurd (omega arith)
      shorten (suc n) (suc k) [] h = refl
      shorten (suc n) (suc k) (x ∷ xs) h = cons_eq x (shorten n k xs (omega arith))
