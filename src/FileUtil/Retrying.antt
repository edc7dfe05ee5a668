-- ===== src/FileUtil/Retrying.antt =====
-- MyNet/base/FileUtil.cc: `readToBuffer`, which reads again after every error.
use my_net.Common.{
  ℕ, zero, suc, ◌+◌, ◌<◌, ◌≡◌, refl, ap, ◌∙◌, ◌-◌, subst, arith, true, Option, none, some, List,
  take,
}
use my_net.FileUtil.{
  ReadSmallFile, Got, bytes, interrupted, error, buff_size, again, pread_loop, read_to_buffer,
}

-- The answer is -1.
abbrev pub IsFailure : Got → Type 0
IsFailure (bytes xs) = ⊥
IsFailure interrupted = Unit {0}
IsFailure (error e) = Unit {0}

again-failure : (more : Option (List ℕ)) (g : Got) → IsFailure g → again more g ≡ more
again-failure more (bytes xs) f = absurd f
again-failure more interrupted f = refl
again-failure more (error e) f = refl

pread_loop-reads :
    (pread : ℕ → Got) (k fuel i : ℕ) (xs : List ℕ)
    → ((j : ℕ) → j < k → IsFailure (pread (i + j)))
    → pread (i + k) ≡ bytes xs
    → k < fuel
    → pread_loop pread fuel i ≡ some xs
unfolding pread_loop
pread_loop-reads pread k zero i xs f e h = absurd (omega arith)
pread_loop-reads pread zero (suc fuel) i xs f e h =
    let start : i ≡ i + 0 = omega arith in let here = ap pread start ∙ e in rw here refl
pread_loop-reads pread (suc k) (suc fuel) i xs f e h =
    let start : i + 0 ≡ i = omega arith in
    let first = subst (λ n. IsFailure (pread n)) start (f 0 (omega arith)) in
    again-failure (pread_loop pread fuel (suc i)) (pread i) first
    ∙ pread_loop-reads pread k fuel (suc i) xs
        (λ j l.
          let next : i + suc j ≡ suc i + j = omega arith in
          subst (λ n. IsFailure (pread n)) next (f (suc j) (omega arith)))
        (let last : suc i + k ≡ i + suc k = omega arith in ap pread last ∙ e) (omega arith)

pread_loop-failure :
    (pread : ℕ → Got) (fuel i : ℕ)
    → ((j : ℕ) → IsFailure (pread j))
    → pread_loop pread fuel i ≡ none
unfolding pread_loop
pread_loop-failure pread zero i f = refl
pread_loop-failure pread (suc fuel) i f =
    again-failure (pread_loop pread fuel (suc i)) (pread i) (f i)
    ∙ pread_loop-failure pread fuel (suc i) f

-- For a file that is open, as many calls that give -1 as come before the first answer, and more fuel,
-- `readToBuffer` ends with the characters of that answer, as many as there is room for.
pub read_to_buffer_lem :
    (pread : ℕ → Got) (k fuel : ℕ) (xs : List ℕ) (f : ReadSmallFile)
    → f.is_open ≡ true
    → k < fuel
    → ((j : ℕ) → j < k → IsFailure (pread j))
    → pread k ≡ bytes xs
    → read_to_buffer pread fuel f ≡ some (f.err, record f { buff = take (buff_size - 1) xs })
unfolding read_to_buffer
read_to_buffer_lem pread k fuel xs f o h g e =
    let start : 0 + k ≡ k = omega arith in
    let first : (j : ℕ) → j < k → IsFailure (pread (0 + j)) =
      λ j l. let same : j ≡ 0 + j = omega arith in subst (λ n. IsFailure (pread n)) same (g j l) in
    rw (o, pread_loop-reads pread k fuel 0 xs first (ap pread start ∙ e) h) refl

-- Where every call gives -1, it never ends, whatever the error is.
pub read_to_buffer-failure :
    (pread : ℕ → Got) (fuel : ℕ) (f : ReadSmallFile)
    → f.is_open ≡ true
    → ((j : ℕ) → IsFailure (pread j))
    → read_to_buffer pread fuel f ≡ none
unfolding read_to_buffer
read_to_buffer-failure pread fuel f o never = rw (o, pread_loop-failure pread fuel 0 never) refl
