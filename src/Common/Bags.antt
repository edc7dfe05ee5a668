-- ===== src/Common/Bags.antt =====
-- Bags: lists of which the order is forgotten.
use mathlib.Core.Path.{◌≡◌}
use mathlib.Core.List.{List, [], ◌∷◌, ◌++◌}
use mathlib.Core.Quot
use mathlib.Core.Quot.{Quot, Quot-set}
use mathlib.Core.List.Perm
use mathlib.Core.List.{Perm, perm_middle, perm_append_singleton}

abbrev pub Bag {ℓ} : Type ℓ → Type ℓ
Bag A = Quot (Perm {A = A})

abbrev pub bag {ℓ} : {A : Type ℓ} → List A → Bag A
bag xs = Quot.mk xs

unfoldable pub put {ℓ} : {A : Type ℓ} → A → Bag A → Bag A
put x = Quot.lift Quot-set (λ xs. bag (x ∷ xs)) (λ xs ys h. Quot.sound (Perm.cons x h))

module _ {ℓ} {A : Type ℓ} where
  pub put_comm : (x y : A) (b : Bag A) → put x (put y b) ≡ put y (put x b)
  unfolding put
  put_comm x y = Quot.ind (λ b. Quot-set _ _) (λ xs. Quot.sound (Perm.swap y x xs))

  -- An item at the end, or between two others, is put into what is left without it.
  pub bag-append_singleton : (x : A) (xs : List A) → bag (xs ++ (x ∷ [])) ≡ put x (bag xs)
  unfolding put
  bag-append_singleton x xs = Quot.sound (perm_append_singleton x xs)

  pub bag-middle : (x : A) (xs ys : List A) → bag (xs ++ (x ∷ ys)) ≡ put x (bag (xs ++ ys))
  unfolding put
  bag-middle x xs ys = Quot.sound (perm_middle xs ys)
