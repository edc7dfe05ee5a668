-- ===== src/Buffer/Messages.antt =====
-- MyNet/net/Buffer.h: a sequence of integers written by one side and read by the other.
use my_net.Common.{
  ℕ, zero, suc, ◌+◌, ◌*◌, ◌^◌, ◌≤◌, ◌<◌, ◌≡◌, refl, sym, ap, ◌∙◌, List, [], ◌∷◌, ◌++◌, length,
  append_assoc, append-nil, arith,
}
use my_net.Common.Word.{max_size}
use my_net.Common.Outcome.{Outcome, done, ◌>>=◌}
use my_net.Endian.{Host}
use my_net.Endian.Wire.{wire}
use my_net.Buffer.{Buffer}
use my_net.Buffer.Valid.{IsValid, contents}
use my_net.Buffer.Integers.{append_int, read_int}
use my_net.Buffer.Framing.{append_int_lem, read_int_lem}

pub append_ints : Host → ℕ → List ℕ → Buffer → Outcome Buffer
append_ints h n [] b = done b
append_ints h n (x ∷ xs) b = append_int h n x b >>= append_ints h n xs

pub read_ints : Host → ℕ → ℕ → Buffer → Outcome (List ℕ × Buffer)
read_ints h n zero b = done ([], b)
read_ints h n (suc k) b =
    read_int h n b >>= λ (x, b'). read_ints h n k b' >>= λ (xs, b''). done (x ∷ xs, b'')

abbrev wires : ℕ → List ℕ → List ℕ
wires n [] = []
wires n (x ∷ xs) = wire n x ++ wires n xs

abbrev pub AreBelow : ℕ → List ℕ → Type 0
AreBelow m [] = Unit {0}
AreBelow m (x ∷ xs) = (x < m) × AreBelow m xs

append_ints_lem :
    (h : Host) (n : ℕ) (xs : List ℕ) (b : Buffer)
    → IsValid b
    → length b.bytes + length xs * n ≤ max_size
    → (b' : Buffer) × (append_ints h n xs b ≡ done b')
      × IsValid b'
      × (contents b' ≡ contents b ++ wires n xs)
unfolding append_ints
append_ints_lem h n [] b v k = (b, refl, v, sym (append-nil (contents b)))
append_ints_lem h n (x ∷ xs) b v k =
    let (b₁, e, v₁, c, l) = append_int_lem h n x b v (grind arith) in
    let (b₂, f, v₂, d) = append_ints_lem h n xs b₁ v₁ (grind arith) in
    (
      b₂,
      rw e f,
      v₂,
      d
          ∙ ap (λ (t : List ℕ). t ++ wires n xs) c
          ∙ append_assoc (contents b) (wire n x) (wires n xs),
    )

read_ints_lem :
    (h : Host) (n : ℕ) (xs : List ℕ) (b : Buffer)
    → IsValid b
    → AreBelow (256 ^ n) xs
    → contents b ≡ wires n xs
    → (b' : Buffer) × (read_ints h n (length xs) b ≡ done (xs, b'))
      × IsValid b'
      × (contents b' ≡ [])
unfolding read_ints
read_ints_lem h n [] b v small c = (b, refl, v, c)
read_ints_lem h n (x ∷ xs) b v small c =
    let (b₁, e, v₁, d, l) = read_int_lem h n x (wires n xs) b v small.0 c in
    let (b₂, f, v₂, g) = read_ints_lem h n xs b₁ v₁ small.1 d in (b₂, rw (e, f), v₂, g)

-- Integers of n bytes, each below 256 ^ n, that one host appends to a valid buffer without
-- readable bytes and with an address space large enough for them are read back in order by any
-- host, and nothing is left.
pub read_ints-append_ints :
    (sender receiver : Host) (n : ℕ) (xs : List ℕ) (b : Buffer)
    → IsValid b
    → contents b ≡ []
    → length b.bytes + length xs * n ≤ max_size
    → AreBelow (256 ^ n) xs
    → (b₁ b₂ : Buffer) × (append_ints sender n xs b ≡ done b₁)
      × (read_ints receiver n (length xs) b₁ ≡ done (xs, b₂))
      × (contents b₂ ≡ [])
read_ints-append_ints sender receiver n xs b v c k small =
    let (b₁, e, v₁, d) = append_ints_lem sender n xs b v k in
    let (b₂, f, v₂, g) =
      read_ints_lem receiver n xs b₁ v₁ small (d ∙ ap (λ (t : List ℕ). t ++ wires n xs) c) in
    (b₁, b₂, e, f, g)
