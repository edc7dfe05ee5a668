-- ===== src/ProcessInfo/Names.antt =====
-- MyNet/base/ProcessInfo.cc: the name of the process in the text of /proc/self/stat.
use my_net.Common.{
  ℕ, suc, ◌+◌, ◌==◌, ◌≡◌, refl, sym, ap, ◌∙◌, arith, ltb, true, false, some, List, [], ◌∷◌, ◌++◌,
  length, take, drop, drop_front, take-append, append_assoc, length-append,
}
use my_net.ProcessInfo.{find, between, procname}

abbrev pub Lacks : ℕ → List ℕ → Type 0
Lacks c [] = Unit {0}
Lacks c (x ∷ xs) = ((x == c) ≡ false) × Lacks c xs

find_first : (c : ℕ) (xs ys : List ℕ) → Lacks c xs → find c (xs ++ (c ∷ ys)) ≡ some (length xs)
find_first c [] ys h = let same : (c == c) ≡ true = ground arith in rw same refl
find_first c (x ∷ xs) ys h = rw (h.0, find_first c xs ys h.1) refl

Lacks-append : (c : ℕ) (xs ys : List ℕ) → Lacks c xs → Lacks c ys → Lacks c (xs ++ ys)
Lacks-append c [] ys h k = k
Lacks-append c (x ∷ xs) ys h k = (h.0, Lacks-append c xs ys h.1 k)

between_lem :
    (stat : List ℕ) (lp rp n : ℕ)
    → rp ≡ lp + suc n
    → between stat (some lp) (some rp) ≡ take n (drop (lp + 1) stat)
between_lem stat lp rp n e =
    let less : ltb lp rp ≡ true = ground arith in
    rw less (ap (λ k. take k (drop (lp + 1) stat)) (omega arith))

-- The name between the first '(' and the first ')' is found, where neither stands before it and it has no ')'.
pub procname_lem :
    (before name after : List ℕ)
    → Lacks b'(' before
    → Lacks b')' before
    → Lacks b')' name
    → procname (before ++ (b'(' ∷ (name ++ (b')' ∷ after)))) ≡ name
unfolding procname
procname_lem before name after open_free close_free name_free =
    let rest = name ++ (b')' ∷ after) in
    let front = before ++ (b'(' ∷ name) in
    let whole : front ++ (b')' ∷ after) ≡ before ++ (b'(' ∷ rest) =
      append_assoc before (b'(' ∷ name) (b')' ∷ after) in
    let opened = find_first b'(' before rest open_free in
    let closed =
      ap (find b')') (sym whole)
      ∙ find_first b')' front after
          (Lacks-append b')' before (b'(' ∷ name) close_free (refl, name_free)) in
    let inside : drop (length before + 1) (before ++ (b'(' ∷ rest)) ≡ rest =
      ap (drop (length before + 1)) (sym (append_assoc before (b'(' ∷ []) rest))
      ∙ drop_front (length before + 1) (before ++ (b'(' ∷ [])) rest
          (length-append before (b'(' ∷ [])) in
    rw (opened, closed)
      (between_lem (before ++ (b'(' ∷ rest)) (length before) (length front) (length name)
          (length-append before (b'(' ∷ name))
        ∙ ap (take (length name)) inside
        ∙ take-append name (b')' ∷ after))
