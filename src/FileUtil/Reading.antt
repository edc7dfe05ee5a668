-- ===== src/FileUtil/Reading.antt =====
-- MyNet/base/FileUtil.cc: what `readToString` reads.
use my_net.Common.{
  ℕ, zero, suc, ◌+◌, ◌-◌, ◌≤◌, ◌<◌, ◌≡◌, refl, sym, ap, ◌∙◌, ◌⊎◌, inl, inr, true, false, ltb, min,
  Option, some, List, [], ◌∷◌, ◌++◌, length, length-append, drop, append_assoc, arith, dec_lt,
  subst, drop-append,
}
use my_net.FileUtil.{
  Got, Read, bytes, interrupted, error, buff_size, read_some, read_loop, read_to_string,
  size_to_read, regular,
}

-- What `read` promises of a file, whose characters from its place on are `here`: some of them from
-- the beginning, no more than asked for, and none only at the end or if none is asked for.
abbrev pub GoodAnswer : List ℕ → ℕ → Got → Type 0
GoodAnswer here n (bytes xs) =
    (rest : List ℕ) × (here ≡ xs ++ rest)
    × (length xs ≤ n)
    × ((0 < length xs) ⊎ ((rest ≡ []) ⊎ (n ≡ 0)))
GoodAnswer here n interrupted = Unit {0}
GoodAnswer here n (error e) = 0 < e

-- From call `j` on, no call is interrupted.
abbrev pub IsCalm : Got → Type 0
IsCalm interrupted = ⊥
IsCalm (bytes xs) = Unit {0}
IsCalm (error e) = Unit {0}

pub record Reads (read : Read) (file : List ℕ) (j : ℕ) : Type 0 where
  pub answers : (i k n : ℕ) → GoodAnswer (drop k file) n (read i k n)
  pub calm : (i k n : ℕ) → j ≤ i → IsCalm (read i k n)

-- The data are the beginning of the file, no more than the largest size: with an error, or at least
-- as much as was to be read, or the whole file.
abbrev pub IsRead : List ℕ → ℕ → ℕ → Option (List ℕ × ℕ) → Type 0
IsRead file max_size read_size r =
    (content left : List ℕ) × (e : ℕ) × (r ≡ some (content, e))
    × (file ≡ content ++ left)
    × (length content ≤ max_size)
    × ((0 < e) ⊎ ((read_size ≤ length content) ⊎ (left ≡ [])))

read_some-IsRead :
    (file : List ℕ) (j i n max_size read_size : ℕ) (more : List ℕ → Option (List ℕ × ℕ))
    (content left : List ℕ) (got : Got)
    → 0 < n
    → length content + n ≤ max_size
    → file ≡ content ++ left
    → GoodAnswer left n got
    → (j ≤ i → IsCalm got)
    → ((c rest : List ℕ)
        → (length content < length c) ⊎ ((length content ≡ length c) × (i < j))
        → length c ≤ max_size
        → file ≡ c ++ rest
        → IsRead file max_size read_size (more c))
    → IsRead file max_size read_size (read_some more content got)
read_some-IsRead file j i n max_size read_size more content left (bytes []) p m f (rest, g, l, o)
      calm go =
    (
      content,
      left,
      0,
      refl,
      f,
      omega arith,
      inr (
          inr (elim o [
            | inl z ↦ absurd (omega arith)
            | inr (inl z) ↦ g ∙ z
            | inr (inr z) ↦ absurd (omega arith)
          ])),
    )
read_some-IsRead file j i n max_size read_size more content left (bytes (x ∷ xs)) p m f
      (rest, g, l, o) calm go =
    let size = length-append content (x ∷ xs) in
    go (content ++ x ∷ xs) rest (inl (omega arith)) (omega arith)
      (f ∙ ap (λ (t : List ℕ). content ++ t) g ∙ sym (append_assoc content (x ∷ xs) rest))
read_some-IsRead file j i n max_size read_size more content left interrupted p m f a calm go =
    elim (dec_lt i j) [
      | yes q ↦ go content left (inr (refl, q)) (omega arith) f
      | no q ↦ absurd (calm (omega arith))
    ]
read_some-IsRead file j i n max_size read_size more content left (error e) p m f a calm go =
    (content, left, e, refl, f, omega arith, inl a)

read_loop-IsRead :
    (read : Read) (file : List ℕ) (j fuel i max_size read_size : ℕ) (content left : List ℕ)
    → Reads read file j
    → (j - i) + (read_size - length content) < fuel
    → read_size ≤ max_size
    → length content ≤ max_size
    → file ≡ content ++ left
    → IsRead file max_size read_size (read_loop read fuel i max_size read_size content)
unfolding read_loop
read_loop-IsRead read file j zero i max_size read_size content left r h k l f = absurd (omega arith)
read_loop-IsRead read file j (suc fuel) i max_size read_size content left r h k l f =
    elim (dec_lt (length content) read_size) [
      | yes p ↦
          let n = min buff_size (max_size - length content) in
          let test : ltb (length content) read_size ≡ true = ground arith in
          let here : drop (length content) file ≡ left =
            ap (drop (length content)) f ∙ drop-append content left in
          rw test (
            read_some-IsRead file j i n max_size read_size
              (λ c. read_loop read fuel (suc i) max_size read_size c) content left
              (read i (length content) n) (omega arith) (omega arith) f
              (subst (λ t. GoodAnswer t n (read i (length content) n)) here
                (r.answers i (length content) n))
              (r.calm i (length content) n)
              (λ c rest o m g.
                read_loop-IsRead read file j fuel (suc i) max_size read_size c rest r
                  (elim o [ inl q ↦ omega arith | inr (q, z) ↦ omega arith ]) k m g))
      | no p ↦
          let test : ltb (length content) read_size ≡ false = ground arith in
          rw test (content, left, 0, refl, f, l, inr (inl (omega arith)))
    ]

-- For a file that keeps its length, a `read` that gives the characters at its place, and no
-- interruption from call j on, with more fuel than j and the largest size together,
-- `readToString` of an open regular file that has a place for the file's size comes to an end:
-- the data are a beginning of the file, no longer than the largest size, and there is an error
-- or they are as long as the file or the largest size.
pub read_to_string_lem :
    (read : Read) (file : List ℕ) (j fuel max_size : ℕ)
    → Reads read file j
    → j + max_size < fuel
    → (content left : List ℕ) × (e : ℕ) × (read_to_string read fuel true max_size
          (regular (length file))
        ≡ some (content, e))
      × (file ≡ content ++ left)
      × (length content ≤ max_size)
      × ((0 < e) ⊎ (min max_size (length file) ≤ length content))
unfolding read_to_string size_to_read
read_to_string_lem read file j fuel max_size r h =
    let n = min max_size (length file) in
    elim (dec_lt 0 n) [
      | yes p ↦
          let (content, left, e, q, f, m, o) =
            read_loop-IsRead read file j fuel 0 max_size n [] file r (omega arith) (omega arith)
              (omega arith) refl in
          let test : ltb 0 n ≡ true = ground arith in
          let size = ap length f in
          let parts = length-append content left in
          (
            content,
            left,
            e,
            rw test q,
            f,
            m,
            elim o [
              | inl z ↦ inl z
              | inr (inl z) ↦ inr z
              | inr (inr z) ↦ inr (let none_left : length left ≡ 0 = ap length z in omega arith)
            ],
          )
      | no p ↦
          let test : ltb 0 n ≡ false = ground arith in
          ([], file, 0, rw test, refl, omega arith, inr (omega arith))
    ]
