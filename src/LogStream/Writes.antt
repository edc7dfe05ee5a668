-- ===== src/LogStream/Writes.antt =====
-- MyNet/base/LogStream.h and .cc: what a write does to the text of a line.
use my_net.Common.{
  ℕ, ◌+◌, ◌^◌, ◌≤◌, ◌<◌, ◌≡◌, refl, sym, ap, ◌∙◌, ◌⊎◌, inl, inr, if◌then◌else◌, min, List, [], ◌∷◌,
  ◌++◌, length, length-append, length-copy, length-take, take, copy, take_all, take_append_left,
  take-slice, slice-copy_end, append_assoc, append-nil, subst, arith, dec_le,
}
use my_net.Common.Int.{ℤ, pos_part, neg_part}
use my_net.LogStream.{
  FixedBuffer, Item, text, truth, char, integer, pointer, max_numeric_size, avail, as_string, write,
  add, append, append_partial, format_integer, format_pointer, put,
}
use my_net.LogStream.Numbers.{convert, convert_hex}
use my_net.LogStream.Decimal.{length-convert}
use my_net.LogStream.Hexadecimal.{length-convert_hex}

-- The end of the text is inside the storage.
pub record IsValid (b : FixedBuffer) : Type 0 where
  pub inside : b.cur ≤ length b.chars

-- `b'` is a valid buffer of the same storage, with `line` behind the text of `b`.
pub record Extends (line : List ℕ) (b b' : FixedBuffer) : Type 0 where
  pub valid : IsValid b'
  pub line_added : as_string b' ≡ as_string b ++ line
  pub taken : avail b' + length line ≡ avail b
  pub storage : length b'.chars ≡ length b.chars

-- A write of `line ++ rest` behind the text, of which `add` keeps `line`.
write-Extends :
    (line rest : List ℕ) (b : FixedBuffer)
    → IsValid b
    → length line + length rest ≤ avail b
    → Extends line b (add (length line) (write (line ++ rest) b))
write-Extends line rest b v h =
    let size = length-copy b.chars b.cur (line ++ rest) in
    let both = length-append line rest in
    let whole =
      slice-copy_end b.chars (line ++ rest) 0 b.cur b.cur (b.cur + length (line ++ rest))
        (omega arith) refl (omega arith) in
    let text_size : length (as_string b) ≡ b.cur = omega (arith, length-take b.cur b.chars) in
    let joined = length-append (as_string b) line in
    record {
      valid = record { inside = omega arith };
      line_added =
          sym (
            take-slice (b.cur + length line) 0 (b.cur + length (line ++ rest))
              (copy b.chars b.cur (line ++ rest)) (omega arith))
          ∙ ap (take (b.cur + length line)) (whole ∙ sym (append_assoc (as_string b) line rest))
          ∙ take_append_left (b.cur + length line) (as_string b ++ line) rest (omega arith)
          ∙ take_all (b.cur + length line) (as_string b ++ line) (omega arith);
      taken = omega arith;
      storage = size;
    }

line-Extends :
    (line : List ℕ) (b : FixedBuffer)
    → IsValid b
    → length line ≤ avail b
    → Extends line b (add (length line) (write line b))
line-Extends line b v h =
    subst (λ t. Extends line b (add (length line) (write t b))) (append-nil line)
      (write-Extends line [] b v (omega arith))

-- On a valid buffer `append` either takes the whole line, which then stands behind the text and
-- is counted from the room, and returns its length; or the line is longer than the room, nothing
-- changes and the result is 0.
pub append-Extends :
    (line : List ℕ) (b : FixedBuffer)
    → IsValid b
    → ((b' : FixedBuffer) × (append line b ≡ (length line, b')) × Extends line b b')
      ⊎ (avail b < length line) × (append line b ≡ (0, b))
unfolding append
append-Extends line b v = elim (dec_le (length line) (avail b)) [
  | yes p ↦ inl (add (length line) (write line b), ground arith, line-Extends line b v p)
  | no p ↦ inr (omega arith, ground arith)
]

-- On a valid buffer `appendPartial` adds as much of the line as there is room for behind the
-- text, and returns how much that is.
pub append_partial-Extends :
    (line : List ℕ) (b : FixedBuffer)
    → IsValid b
    → (b' : FixedBuffer) × (append_partial line b ≡ (min (length line) (avail b), b'))
      × Extends (take (avail b) line) b b'
unfolding append_partial
append_partial-Extends line b v = elim (dec_le (length line) (avail b)) [
  | yes p ↦ (
    add (length line) (write line b),
    ground arith,
    subst (λ t. Extends t b (add (length line) (write line b))) (sym (take_all (avail b) line p))
        (line-Extends line b v p),
  )
  | no p ↦
      let size : length (take (avail b) line) ≡ avail b =
        omega (arith, length-take (avail b) line) in
      (
        add (avail b) (write (take (avail b) line) b),
        ground arith,
        subst (λ m. Extends (take (avail b) line) b (add m (write (take (avail b) line) b))) size
            (line-Extends (take (avail b) line) b v (omega arith)),
      )
]

-- The text of what `<<` takes, and the numbers that its types hold.
abbrev pub text_of : Item → List ℕ
text_of (text line) = line
text_of (truth v) = (if v then b'1' else b'0') ∷ []
text_of (char c) = c ∷ []
text_of (integer v) = convert v
text_of (pointer p) = b'0' ∷ b'x' ∷ convert_hex p

abbrev pub Is64Bit : Item → Type 0
Is64Bit (integer v) = pos_part v + neg_part v < 2 ^ 64
Is64Bit (pointer p) = p < 2 ^ 64
Is64Bit _ = Unit {0}

-- The room that `<<` asks for.
abbrev pub needed : Item → ℕ
needed (text line) = length line
needed (truth v) = 1
needed (char c) = 1
needed (integer v) = max_numeric_size
needed (pointer p) = max_numeric_size

-- All of `line` is added to `b` if there is room for `n` characters, and nothing otherwise.
abbrev pub AllOrNothing : ℕ → List ℕ → FixedBuffer → FixedBuffer → Type 0
AllOrNothing n line b b' = (n ≤ avail b) × Extends line b b' ⊎ (avail b < n) × (b' ≡ b)

append-AllOrNothing :
    (line : List ℕ) (b : FixedBuffer)
    → IsValid b
    → AllOrNothing (length line) line b (append line b).1
append-AllOrNothing line b v = elim (append-Extends line b v) [
  | inl (b', e, x) ↦ inl (let t = x.taken in omega arith, subst (λ r. Extends line b r.1) (sym e) x)
  | inr (h, e) ↦ inr (h, ap (λ r. r.1) e)
]

-- Two writes one after the other extend the text by both.
two-Extends :
    {xs ys : List ℕ} {a b c : FixedBuffer}
    → Extends xs a b
    → Extends ys b c
    → Extends (xs ++ ys) a c
two-Extends {xs} {ys} {a} x y =
    let size = length-append xs ys in
    record {
      valid = y.valid;
      line_added =
          y.line_added
          ∙ ap (λ (t : List ℕ). t ++ ys) x.line_added
          ∙ append_assoc (as_string a) xs ys;
      taken = omega (arith, x.taken, y.taken);
      storage = y.storage ∙ x.storage;
    }

format_integer-AllOrNothing :
    (v : ℤ) (b : FixedBuffer)
    → pos_part v + neg_part v < 2 ^ 64
    → IsValid b
    → AllOrNothing max_numeric_size (convert v) b (format_integer v b)
unfolding format_integer
format_integer-AllOrNothing v b h k = elim (dec_le max_numeric_size (avail b)) [
  | yes p ↦
      let size = length-convert 19 v (omega arith) in
      inl (
        p,
        subst (Extends (convert v) b) (ground arith)
            (write-Extends (convert v) (0 ∷ []) b k (omega arith)),
      )
  | no p ↦ inr (omega arith, ground arith)
]

prefix-Extends :
    (b : FixedBuffer)
    → IsValid b
    → 2 ≤ avail b
    → Extends (b'0' ∷ b'x' ∷ []) b (append (b'0' ∷ b'x' ∷ []) b).1
prefix-Extends b v h = elim (append-AllOrNothing (b'0' ∷ b'x' ∷ []) b v) [
  | inl (_, x) ↦ x
  | inr (k, _) ↦ absurd (omega arith)
]

format_pointer-AllOrNothing :
    (p : ℕ) (b : FixedBuffer)
    → p < 2 ^ 64
    → IsValid b
    → AllOrNothing max_numeric_size (text_of (pointer p)) b (format_pointer p b)
unfolding format_pointer
format_pointer-AllOrNothing p b h v = elim (dec_le max_numeric_size (avail b)) [
  | yes q ↦
      let size = length-convert_hex 15 p (omega arith) in
      let x = prefix-Extends b v (omega arith) in
      let taken = x.taken in
      inl (
        q,
        subst (Extends (text_of (pointer p)) b) (ground arith) (
            two-Extends x (
              write-Extends (convert_hex p) (0 ∷ []) (append (b'0' ∷ b'x' ∷ []) b).1 x.valid
                (omega arith))),
      )
  | no q ↦ inr (omega arith, ground arith)
]

-- `<<` of a string, a truth value, a character, an integer or a pointer of 64 bits adds its
-- whole text to the line of a valid buffer if there is the room that it asks for, and leaves the
-- buffer as it was otherwise. The room is the length of a string, one for a truth value or a
-- character and 32 for a number. The end of the text stays inside the storage.
pub put-AllOrNothing :
    (item : Item) (b : FixedBuffer)
    → Is64Bit item
    → IsValid b
    → AllOrNothing (needed item) (text_of item) b (put item b)
unfolding put
put-AllOrNothing (text line) b h v = append-AllOrNothing line b v
put-AllOrNothing (truth t) b h v = append-AllOrNothing (text_of (truth t)) b v
put-AllOrNothing (char c) b h v = append-AllOrNothing (c ∷ []) b v
put-AllOrNothing (integer i) b h v = format_integer-AllOrNothing i b h v
put-AllOrNothing (pointer p) b h v = format_pointer-AllOrNothing p b h v
