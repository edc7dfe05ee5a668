-- ===== src/FileUtil/Writing.antt =====
-- MyNet/base/FileUtil.cc: what `writeLine` writes, and what it says that it wrote.
use my_net.Common.{
  ℕ, zero, suc, ◌+◌, ◌-◌, ◌≤◌, ◌<◌, ◌≡◌, refl, sym, ap, ◌∙◌, ◌⊎◌, inl, inr, true, false, Bool-cases,
  ◌&&◌, ◌==◌, ltb, Option, some, List, [], ◌∷◌, ◌++◌, length, length-drop, take, drop, append_assoc,
  append-nil, arith, dec_lt,
}
use my_net.FileUtil.{WriteFile, Fwrite, write_loop, write_line}

-- The stream takes no more than it is given, and if it takes nothing of a line, it says why.
pub record Answers (fwrite : Fwrite) : Type 0 where
  pub at_most : (i : ℕ) (line : List ℕ) → (fwrite i line).0 ≤ length line
  pub some_or_error :
      (i : ℕ) (line : List ℕ)
      → 0 < length line
      → (0 < (fwrite i line).0) ⊎ ((fwrite i line).1 ≡ true)

take_add : (n m k : ℕ) (xs : List ℕ) → k ≡ n + m → take n xs ++ take m (drop n xs) ≡ take k xs
take_add zero m k xs e = ap (λ j. take j xs) (omega arith)
take_add (suc n) m zero xs e = absurd (omega arith)
take_add (suc n) zero (suc k) [] e = refl
take_add (suc n) (suc m) (suc k) [] e = refl
take_add (suc n) m (suc k) (x ∷ xs) e = ap (λ (t : List ℕ). x ∷ t) (take_add n m k xs (omega arith))

-- Some call of the stream reported an error.
abbrev pub Failed : Fwrite → Type 0
Failed fwrite = (i : ℕ) × (line : List ℕ) × ((fwrite i line).1 ≡ true)

-- A part of the line is written, from its beginning: all of it unless a call failed.
abbrev pub WritesPart : Fwrite → List ℕ → List ℕ → Option (List ℕ) → Type 0
WritesPart fwrite line file r =
    (n : ℕ) × (n ≤ length line)
    × (r ≡ some (file ++ take n line))
    × ((n ≡ length line) ⊎ Failed fwrite)

write_rest :
    (fwrite : Fwrite) (ret : ℕ) (line file : List ℕ) (r : Option (List ℕ))
    → ret ≤ length line
    → WritesPart fwrite (drop ret line) (file ++ take ret line) r
    → WritesPart fwrite line file r
write_rest fwrite ret line file r h (n, l, e, c) =
    let size = length-drop ret line in
    (
      ret + n,
      omega arith,
      e
          ∙ ap some (
              append_assoc file (take ret line) (take n (drop ret line))
              ∙ ap (λ (t : List ℕ). file ++ t) (take_add ret n (ret + n) line refl)),
      elim c [ inl p ↦ inl (omega arith) | inr f ↦ inr f ],
    )

-- With as much fuel as the line is long and one more, the loop ends.
write_loop-part :
    (fwrite : Fwrite) (fuel i : ℕ) (line file : List ℕ)
    → Answers fwrite
    → length line < fuel
    → WritesPart fwrite line file (write_loop fwrite fuel i line file)
unfolding write_loop
write_loop-part fwrite zero i line file a h = absurd (omega arith)
write_loop-part fwrite (suc fuel) i line file a h =
    let ret = (fwrite i line).0 in
    let bound = a.at_most i line in
    elim (Bool-cases (ret == 0 && (fwrite i line).1)) [
      | inl e ↦ rw e (
        0,
        omega arith,
        ap some (sym (append-nil file)),
        inr (i, line, let f : (fwrite i line).1 ≡ true = ground arith in f),
      )
      | inr e ↦ rw e (elim (dec_lt 0 (length line - ret)) [
        | yes p ↦
            let taken : 0 < ret = elim (a.some_or_error i line (omega arith)) [
              | inl q ↦ q
              | inr q ↦ ground arith
            ] in
            let size = length-drop ret line in
            let more : ltb 0 (length line - ret) ≡ true = ground arith in
            rw more (
              write_rest fwrite ret line file
                (write_loop fwrite fuel (suc i) (drop ret line) (file ++ take ret line)) bound
                (write_loop-part fwrite fuel (suc i) (drop ret line) (file ++ take ret line) a
                  (omega arith)))
        | no p ↦
            let over : ltb 0 (length line - ret) ≡ false = ground arith in
            rw over (ret, bound, refl, inl (omega arith))
      ])
    ]

-- For a stream that takes no more than it is given, and that reports an error when it takes
-- nothing of a line, with more fuel than the line is long, and on a file that is open,
-- `writeLine` comes to an end: a beginning of the line is written, which is the whole line
-- unless some call reports an error; and in both cases it returns the whole length and adds it
-- to the bytes written.
pub write_line_lem :
    (fwrite : Fwrite) (fuel : ℕ) (line : List ℕ) (f : WriteFile)
    → Answers fwrite
    → length line < fuel
    → f.valid ≡ true
    → (n : ℕ) × (n ≤ length line)
      × (write_line fwrite fuel line f
          ≡ some (
            length line,
            record f {
              bytes_written = f.bytes_written + length line;
              file = f.file ++ take n line;
            },
          ))
      × ((n ≡ length line) ⊎ Failed fwrite)
unfolding write_line
write_line_lem fwrite fuel line f a h v =
    let (n, l, e, c) = write_loop-part fwrite fuel 0 line f.file a h in (n, l, rw (v, e), c)
