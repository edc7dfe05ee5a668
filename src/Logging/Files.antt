-- ===== src/Logging/Files.antt =====
-- MyNet/base/Logging.h: the name of a source file without its directories.
use my_net.Common.{
  ℕ, ◌≡◌, ◌⊎◌, inl, inr, refl, ap, arith, ◌==◌, false, Bool-cases, none, some, List, [], ◌∷◌, ◌++◌,
}
use my_net.Logging.{after_last, of_literal}

abbrev pub NoSlash : List ℕ → Type 0
NoSlash [] = Unit {0}
NoSlash (c ∷ cs) = ((c == b'/') ≡ false) × NoSlash cs

-- The name has no '/', and is the whole path, or all that follows some '/' of it.
abbrev pub IsName : List ℕ → List ℕ → Type 0
IsName path name = NoSlash name × ((path ≡ name) ⊎ ((dir : List ℕ) × (path ≡ dir ++ (b'/' ∷ name))))

after_last-IsName :
    (path : List ℕ)
    → ((after_last path ≡ none) × NoSlash path)
      ⊎ ((dir name : List ℕ) × (after_last path ≡ some name)
          × NoSlash name
          × (path ≡ dir ++ (b'/' ∷ name)))
after_last-IsName [] = inl (refl, tt)
after_last-IsName (c ∷ cs) = elim (after_last-IsName cs) [
  | inr (dir, name, e, n, p) ↦ inr (c ∷ dir, name, rw e refl, n, ap (λ (t : List ℕ). c ∷ t) p)
  | inl (e, n) ↦ rw e (elim (Bool-cases (c == b'/')) [
    | inl q ↦
        let slash : c ≡ b'/' = ground arith in inr ([], cs, rw q refl, n, ap (λ d. d ∷ cs) slash)
    | inr q ↦ inl (rw q refl, (q, n))
  ])
]

-- The name that `SourceFile` makes of a literal has no '/', and is the whole path or all that
-- follows some '/' of it.
pub of_literal-IsName : (path : List ℕ) → IsName path (of_literal path)
unfolding of_literal
of_literal-IsName path = elim (after_last-IsName path) [
  | inl (e, n) ↦ rw e (n, inl refl)
  | inr (dir, name, e, n, p) ↦ rw e (n, inr (dir, p))
]
