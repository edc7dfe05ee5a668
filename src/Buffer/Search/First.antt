-- ===== src/Buffer/Search/First.antt =====
-- MyNet/net/Buffer.h: `findCRLF` and `findEOL` return the first line end, or NULL if there is none.
use my_net.Common.{
  ℕ, zero, suc, ◌+◌, ◌-◌, ◌≤◌, ◌<◌, ◌≡◌, ◌≢◌, ◌==◌, if◌then◌else◌, ap, ◌⊎◌, inl, inr, true, false,
  Bool-cases, Option, none, some, List, [], ◌∷◌, length, length-slice, get_elem?, arith, ℕ_discrete,
}
use my_net.Common.Outcome.{done}
use my_net.Buffer.{Buffer}
use my_net.Buffer.Valid.{IsValid}
use my_net.Buffer.Search.{
  cr, lf, starts_crlf, search_crlf, memchr, range, crlf_in, find_crlf, find_crlf_from, find_eol,
}

-- At index `k` the bytes hold "\r\n", or a "\n".
abbrev pub CrlfAt : List ℕ → ℕ → Type 0
CrlfAt xs k = (get_elem? xs k ≡ some cr) × (get_elem? xs (suc k) ≡ some lf)

abbrev pub EolAt : List ℕ → ℕ → Type 0
EolAt xs k = get_elem? xs k ≡ some lf

-- `r` is the first index from `start` on at which `P` holds of the bytes there.
abbrev pub IsFirst : (List ℕ → ℕ → Type 0) → ℕ → List ℕ → Option ℕ → Type 0
IsFirst P start xs none = (k : ℕ) → ¬ P xs k
IsFirst P start xs (some p) = (j : ℕ) × (p ≡ start + j) × P xs j × ((k : ℕ) → k < j → ¬ P xs k)

starts_crlf_iff :
    (xs : List ℕ) → (starts_crlf xs ≡ true → CrlfAt xs 0) × (CrlfAt xs 0 → starts_crlf xs ≡ true)
unfolding starts_crlf
starts_crlf_iff [] = (λ h. cc, λ h. cc)
starts_crlf_iff (x ∷ []) = (λ h. cc, λ h. cc)
starts_crlf_iff (x ∷ y ∷ xs) = (λ h. ground arith, λ h. ground arith)

-- What `std::search` returns: the first match, or the end of the range.
Searched : ℕ → List ℕ → ℕ → Type 0
Searched first xs r =
    ((j : ℕ) × (r ≡ first + j) × (j < length xs) × CrlfAt xs j × ((k : ℕ) → k < j → ¬ CrlfAt xs k))
    ⊎ ((r ≡ first + length xs) × ((k : ℕ) → ¬ CrlfAt xs k))

not_later :
    (x : ℕ) (xs : List ℕ)
    → ¬ CrlfAt (x ∷ xs) 0
    → ((k : ℕ) → ¬ CrlfAt xs k)
    → (k : ℕ) → ¬ CrlfAt (x ∷ xs) k
not_later x xs h all zero = h
not_later x xs h all (suc k) = all k

not_before :
    (x j : ℕ) (xs : List ℕ)
    → ¬ CrlfAt (x ∷ xs) 0
    → ((k : ℕ) → k < j → ¬ CrlfAt xs k)
    → (k : ℕ) → k < suc j
    → ¬ CrlfAt (x ∷ xs) k
not_before x j xs h all zero p = h
not_before x j xs h all (suc k) p = all k (omega arith)

search_crlf-Searched : (first : ℕ) (xs : List ℕ) → Searched first xs (search_crlf first xs)
unfolding search_crlf Searched
search_crlf-Searched first [] = inr (omega arith, λ k h. cc)
search_crlf-Searched first (x ∷ xs) = elim (Bool-cases (starts_crlf (x ∷ xs))) [
  | inl e ↦ rw e (
      inl
        (0, omega arith, omega arith, (starts_crlf_iff (x ∷ xs)).0 e, λ k p. absurd (omega arith)))
  | inr e ↦
      let here : ¬ CrlfAt (x ∷ xs) 0 = λ c. cc ((starts_crlf_iff (x ∷ xs)).1 c) in
      rw e (elim (search_crlf-Searched (first + 1) xs) [
        | inl (j, q, l, c, n) ↦ inl (suc j, omega arith, omega arith, c, not_before x j xs here n)
        | inr (q, n) ↦ inr (omega arith, not_later x xs here n)
      ])
]

-- The end of the range stands for "not found".
pick-IsFirst :
    (start last r : ℕ) (xs : List ℕ)
    → last ≡ start + length xs
    → Searched start xs r
    → IsFirst CrlfAt start xs (if r == last then none else some r)
unfolding Searched
pick-IsFirst start last r xs e (inl (j, q, l, c, n)) =
    let found : (r == last) ≡ false = ground arith in rw found (j, q, c, n)
pick-IsFirst start last r xs e (inr (q, n)) =
    let missing : (r == last) ≡ true = ground arith in rw missing n

crlf_in-IsFirst :
    (start : ℕ) (b : Buffer)
    → IsValid b
    → start ≤ b.writer
    → IsFirst CrlfAt start (range start b) (crlf_in start b)
unfolding crlf_in
crlf_in-IsFirst start b v h =
    let size = length-slice start (b.writer - start) b.bytes (omega arith) in
    pick-IsFirst start b.writer (search_crlf start (range start b)) (range start b) (omega arith)
      (search_crlf-Searched start (range start b))

no_eol : (x : ℕ) (xs : List ℕ) → x ≢ lf → ((k : ℕ) → ¬ EolAt xs k) → (k : ℕ) → ¬ EolAt (x ∷ xs) k
no_eol x xs e n zero h = e (cc)
no_eol x xs e n (suc k) h = n k h

no_eol_before :
    (x j : ℕ) (xs : List ℕ)
    → x ≢ lf
    → ((k : ℕ) → k < j → ¬ EolAt xs k)
    → (k : ℕ) → k < suc j
    → ¬ EolAt (x ∷ xs) k
no_eol_before x j xs e n zero p h = e (cc)
no_eol_before x j xs e n (suc k) p h = n k (omega arith) h

IsFirst-cons :
    (x start : ℕ) (xs : List ℕ) (r : Option ℕ)
    → x ≢ lf
    → IsFirst EolAt (start + 1) xs r
    → IsFirst EolAt start (x ∷ xs) r
IsFirst-cons x start xs none e n = no_eol x xs e n
IsFirst-cons x start xs (some p) e (j, q, c, n) = (suc j, omega arith, c, no_eol_before x j xs e n)

memchr-IsFirst : (start : ℕ) (xs : List ℕ) → IsFirst EolAt start xs (memchr lf start xs)
unfolding memchr
memchr-IsFirst start [] = λ k h. cc
memchr-IsFirst start (x ∷ xs) = elim (ℕ_discrete x lf) [
  | yes e ↦
      let found : (x == lf) ≡ true = ground arith in
      rw found (0, omega arith, ap some e, λ k p. absurd (omega arith))
  | no e ↦
      let missing : (x == lf) ≡ false = ground arith in
      rw missing
        (IsFirst-cons x start xs (memchr lf (start + 1) xs) e (memchr-IsFirst (start + 1) xs))
]

-- `findCRLF()` on a valid buffer returns the position of the first "\r\n" among the readable
-- bytes, and NULL exactly when they hold none.
pub find_crlf-IsFirst :
    (b : Buffer) → IsValid b → IsFirst CrlfAt b.reader (range b.reader b) (find_crlf b)
unfolding find_crlf
find_crlf-IsFirst b v = crlf_in-IsFirst b.reader b v v.ordered

-- `findCRLF` from a position within the readable bytes of a valid buffer succeeds, and returns
-- the first "\r\n" from there on, or NULL if there is none.
pub find_crlf_from-IsFirst :
    (start : ℕ) (b : Buffer)
    → IsValid b
    → b.reader ≤ start
    → start ≤ b.writer
    → (r : Option ℕ) × (find_crlf_from start b ≡ done r) × IsFirst CrlfAt start (range start b) r
unfolding find_crlf_from
find_crlf_from-IsFirst start b v h k = (crlf_in start b, ground arith, crlf_in-IsFirst start b v k)

-- `findEOL` from a position within the readable bytes succeeds, and returns the first "\n" from
-- there on, or NULL if there is none.
pub find_eol-IsFirst :
    (start : ℕ) (b : Buffer)
    → b.reader ≤ start
    → start ≤ b.writer
    → (r : Option ℕ) × (find_eol start b ≡ done r) × IsFirst EolAt start (range start b) r
unfolding find_eol
find_eol-IsFirst start b h k =
    (memchr lf start (range start b), ground arith, memchr-IsFirst start (range start b))
