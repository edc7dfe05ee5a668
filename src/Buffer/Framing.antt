-- ===== src/Buffer/Framing.antt =====
-- MyNet/net/Buffer.h: integers written to a buffer are read back, on every host.
use my_net.Common.{
  ℕ, ◌+◌, ◌-◌, ◌^◌, ◌≤◌, ◌<◌, ◌≡◌, sym, ap, subst, ◌∙◌, List, ◌++◌, length, length-append, take,
  drop, take-append, drop-append, take-slice, arith,
}
use my_net.Common.Word.{max_size}
use my_net.Common.Outcome.{done}
use my_net.Endian.{Host}
use my_net.Endian.Wire.{wire, length-wire, memory-host_to_network, network_to_host-from_memory}
use my_net.Buffer.{Buffer, peek, prependable_bytes}
use my_net.Buffer.Valid.{IsValid, contents, length-contents}
use my_net.Buffer.Stream.{append_lem, prepend_lem, retrieve_lem}
use my_net.Buffer.Integers.{append_int, prepend_int, peek_int, retrieve_int, read_int}

module _ (h : Host) (n : ℕ) where
  pub append_int_lem :
      (x : ℕ) (b : Buffer)
      → IsValid b
      → b.writer + n ≤ max_size
      → (b' : Buffer) × (append_int h n x b ≡ done b')
        × IsValid b'
        × (contents b' ≡ contents b ++ wire n x)
        × (length b'.bytes ≤ length b.bytes + n)
  unfolding append_int
  append_int_lem x b v k =
      let size = length-wire n x in
      let (b', e, v', c, l) = append_lem (wire n x) b v (omega arith) in
      (b', rw (memory-host_to_network h n x) e, v', c, omega arith)

  pub prepend_int_lem :
      (x : ℕ) (b : Buffer)
      → IsValid b
      → n ≤ prependable_bytes b
      → (b' : Buffer) × (prepend_int h n x b ≡ done b')
        × IsValid b'
        × (contents b' ≡ wire n x ++ contents b)
  unfolding prepend_int
  prepend_int_lem x b v k =
      let size = length-wire n x in
      let (b', e, v', c, l) = prepend_lem (wire n x) b v (omega arith) in
      (b', rw (memory-host_to_network h n x) e, v', c)

  -- An integer in front of the readable bytes is the one that is read, and no byte more.
  pub read_int_lem :
      (x : ℕ) (rest : List ℕ) (b : Buffer)
      → IsValid b
      → x < 256 ^ n
      → contents b ≡ wire n x ++ rest
      → (b' : Buffer) × (read_int h n b ≡ done (x, b'))
        × IsValid b'
        × (contents b' ≡ rest)
        × (length b'.bytes ≡ length b.bytes)
  unfolding read_int peek_int retrieve_int
  read_int_lem x rest b v small c =
      let size = length-contents b v in
      let parts = length-append (wire n x) rest in
      let total = ap length c in
      let w = length-wire n x in
      let (b', e, v', d, l) = retrieve_lem n b v (omega arith) in
      let head : peek n b ≡ wire n x =
        sym (take-slice n b.reader (b.writer - b.reader) b.bytes (omega arith))
        ∙ ap (take n) c
        ∙ subst (λ k. take k (wire n x ++ rest) ≡ wire n x) w (take-append (wire n x) rest) in
      let tail : drop n (wire n x ++ rest) ≡ rest =
        subst (λ k. drop k (wire n x ++ rest) ≡ rest) w (drop-append (wire n x) rest) in
      (
        b',
        rw (head, network_to_host-from_memory h n x small) (ground arith),
        v',
        d ∙ ap (drop n) c ∙ tail,
        l,
      )

  -- An integer of n bytes, below 256 ^ n, that is put in front of the readable bytes of a
  -- valid buffer with n bytes of room there is read again by the same host, and leaves the
  -- readable bytes as they were.
  pub read_int-prepend_int :
      (x : ℕ) (b : Buffer)
      → IsValid b
      → n ≤ prependable_bytes b
      → x < 256 ^ n
      → (b₁ b₂ : Buffer) × (prepend_int h n x b ≡ done b₁)
        × (read_int h n b₁ ≡ done (x, b₂))
        × IsValid b₂
        × (contents b₂ ≡ contents b)
  read_int-prepend_int x b v k small =
      let (b₁, e, v₁, c) = prepend_int_lem x b v k in
      let (b₂, f, v₂, d, l) = read_int_lem x (contents b) b₁ v₁ small c in (b₁, b₂, e, f, v₂, d)
