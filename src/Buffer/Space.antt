-- ===== src/Buffer/Space.antt =====
-- MyNet/net/Buffer.h: `makeSpace` and `ensureWritableBytes` find room and keep the readable bytes.
use my_net.Common.{
  ℕ, ◌+◌, ◌-◌, ◌≤◌, ◌<◌, ◌≡◌, ◌++◌, refl, List, length, length-append, length-replicate,
  length-copy, length-slice, take_all, slice_append_left, slice-copy_end, replicate, copy, arith,
  dec_lt,
}
use my_net.Common.Word.{max_size}
use my_net.Common.Outcome.{done}
use my_net.Buffer.{
  Buffer, cheap_prepend, writable_bytes, resize, grow, move_to_front, make_space,
  ensure_writable_bytes,
}
use my_net.Buffer.Valid.{IsValid, contents}

-- `b'` is a valid buffer with the readable bytes of `b` and room for `len` more.
pub record HasSpace (len : ℕ) (b b' : Buffer) : Type 0 where
  pub valid : IsValid b'
  pub same : contents b' ≡ contents b
  pub space : len ≤ writable_bytes b'
  pub needed : b'.writer + len ≤ max_size
  pub grows : length b'.bytes ≤ length b.bytes + len
  pub kept : len + cheap_prepend ≤ writable_bytes b + b.reader → length b'.bytes ≡ length b.bytes

resize_up :
    (n : ℕ) (bytes : List ℕ)
    → length bytes ≤ n
    → n ≤ max_size
    → resize n bytes ≡ done (bytes ++ replicate (n - length bytes) 0)
unfolding resize
resize_up n bytes h k = rw (take_all n bytes h) (ground arith)

grow-HasSpace :
    (len : ℕ) (b : Buffer)
    → IsValid b
    → writable_bytes b < len
    → b.writer + len ≤ max_size
    → writable_bytes b + b.reader < len + cheap_prepend
    → (b' : Buffer) × (grow len b ≡ done b') × HasSpace len b b'
unfolding grow
grow-HasSpace len b v h k full =
    let pad : List ℕ = replicate (b.writer + len - length b.bytes) 0 in
    let size : length (b.bytes ++ pad) ≡ b.writer + len = omega (
      arith,
      length-append b.bytes pad,
      length-replicate {A = ℕ} (b.writer + len - length b.bytes) 0,
    ) in
    (
      record b { bytes = b.bytes ++ pad },
      ground (arith, resize_up (b.writer + len) b.bytes),
      record {
        valid = omega arith;
        same = slice_append_left b.reader (b.writer - b.reader) b.bytes pad (omega arith);
        space = omega arith;
        needed = k;
        grows = omega arith;
        kept = λ fits. absurd (omega arith);
      },
    )

move_to_front-HasSpace :
    (len : ℕ) (b : Buffer)
    → IsValid b
    → cheap_prepend < b.reader
    → len + cheap_prepend ≤ writable_bytes b + b.reader
    → (b' : Buffer) × (move_to_front b ≡ done b') × HasSpace len b b'
unfolding move_to_front
move_to_front-HasSpace len b v h k =
    let n = b.writer - b.reader in
    let same_length : length (copy b.bytes cheap_prepend (contents b)) ≡ length b.bytes =
      length-copy b.bytes cheap_prepend (contents b) in
    let size : length (contents b) ≡ n = length-slice b.reader n b.bytes (omega arith) in
    (
      record b {
        bytes = copy b.bytes cheap_prepend (contents b);
        reader = cheap_prepend;
        writer = cheap_prepend + n;
      },
      ground arith,
      record {
        valid = omega arith;
        same =
            slice-copy_end b.bytes (contents b) cheap_prepend 0 cheap_prepend
              (cheap_prepend + n - cheap_prepend) (omega arith) (omega arith) (omega arith);
        space = omega arith;
        needed = omega arith;
        grows = omega arith;
        kept = λ _. same_length;
      },
    )

-- With enough room in the address space, `makeSpace` succeeds: its assertions hold.
make_space-HasSpace :
    (len : ℕ) (b : Buffer)
    → IsValid b
    → writable_bytes b < len
    → b.writer + len ≤ max_size
    → (b' : Buffer) × (make_space len b ≡ done b') × HasSpace len b b'
unfolding make_space
make_space-HasSpace len b v h k =
    elim (dec_lt (writable_bytes b + b.reader) (len + cheap_prepend)) [
      | yes p ↦ let (b', e, s) = grow-HasSpace len b v h k p in (b', ground arith, s)
      | no p ↦
          let (b', e, s) = move_to_front-HasSpace len b v (omega arith) (omega arith) in
          (b', ground arith, s)
    ]

-- On a valid buffer, and if the address space allows it, `ensureWritableBytes` succeeds, so that
-- no assertion on its way fails: the buffer stays valid, keeps its readable bytes and has the
-- room that was asked for; the storage grows by no more than that, and not at all if moving the
-- readable bytes to the front is enough.
pub ensure_writable_bytes-HasSpace :
    (len : ℕ) (b : Buffer)
    → IsValid b
    → b.writer + len ≤ max_size
    → (b' : Buffer) × (ensure_writable_bytes len b ≡ done b') × HasSpace len b b'
unfolding ensure_writable_bytes
ensure_writable_bytes-HasSpace len b v k = elim (dec_lt (writable_bytes b) len) [
  | yes p ↦ let (b', e, s) = make_space-HasSpace len b v p k in (b', ground arith, s)
  | no p ↦ (
    b,
    ground arith,
    record {
      valid = v;
      same = refl;
      space = omega arith;
      needed = k;
      grows = omega arith;
      kept = λ _. refl;
    },
  )
]
