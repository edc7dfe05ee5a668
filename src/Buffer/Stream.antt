-- ===== src/Buffer/Stream.antt =====
-- MyNet/net/Buffer.h: what each operation does to the readable bytes.
use my_net.Common.{
  ℕ, ◌+◌, ◌-◌, ◌≤◌, ◌<◌, ◌≡◌, ◌++◌, refl, sym, ◌∙◌, ap, List, [], length, length-copy,
  length-replicate, take, drop, drop_all, slice, copy, slice-copy_end, slice-copy_front, drop-slice,
  take-slice, arith, replicate, dec_lt,
}
use my_net.Common.Word.{max_size, add_size}
use my_net.Common.Outcome.{done, fault, assertion}
use my_net.Buffer.{
  Buffer, cheap_prepend, prependable_bytes, writable_bytes, make, retrieve_all,
  ensure_writable_bytes, retrieve, has_written, unwrite, append, prepend,
}
use my_net.Buffer.Valid.{IsValid, contents, length-contents}
use my_net.Buffer.Space.{ensure_writable_bytes-HasSpace}

-- The constructor gives a valid empty buffer with the asked room; its assertions hold.
pub make_lem :
    (n : ℕ)
    → n + cheap_prepend ≤ max_size
    → (b : Buffer) × (make n ≡ done b)
      × IsValid b
      × (contents b ≡ [])
      × (writable_bytes b ≡ n)
      × (b.reader ≡ cheap_prepend)
unfolding make
make_lem n h =
    let size : length (replicate (add_size cheap_prepend n) (let z : ℕ = 0 in z))
        ≡ cheap_prepend + n =
      omega (arith, length-replicate {A = ℕ} (add_size cheap_prepend n) 0) in
    (
      record {
        bytes = replicate (add_size cheap_prepend n) 0;
        reader = cheap_prepend;
        writer = cheap_prepend;
      },
      ground arith,
      omega arith,
      refl,
      omega arith,
      refl,
    )

-- `append` succeeds if the address space allows it, and puts the bytes behind the readable ones.
pub append_lem :
    (src : List ℕ) (b : Buffer)
    → IsValid b
    → b.writer + length src ≤ max_size
    → (b' : Buffer) × (append src b ≡ done b')
      × IsValid b'
      × (contents b' ≡ contents b ++ src)
      × (length b'.bytes ≤ length b.bytes + length src)
unfolding append has_written
append_lem src b v k =
    let (m, e, s) = ensure_writable_bytes-HasSpace (length src) b v k in
    let size = length-copy m.bytes m.writer src in
    let valid = s.valid in
    (
      record m { bytes = copy m.bytes m.writer src; writer = m.writer + length src },
      ground arith,
      omega arith,
      slice-copy_end m.bytes src m.reader (m.writer - m.reader) m.writer
            (m.writer + length src - m.reader) (omega arith) (omega arith) (omega arith)
          ∙ ap (λ (t : List ℕ). t ++ src) s.same,
      omega (arith, s.grows),
    )

pub retrieve_lem :
    (len : ℕ) (b : Buffer)
    → IsValid b
    → len ≤ length (contents b)
    → (b' : Buffer) × (retrieve len b ≡ done b')
      × IsValid b'
      × (contents b' ≡ drop len (contents b))
      × (length b'.bytes ≡ length b.bytes)
unfolding retrieve retrieve_all
retrieve_lem len b v h =
    let size = length-contents b v in
    elim (dec_lt len (length (contents b))) [
      | yes p ↦ (
        record b { reader = b.reader + len },
        ground arith,
        omega arith,
        sym (
            drop-slice len b.reader (b.reader + len) (b.writer - (b.reader + len))
              (b.writer - b.reader) b.bytes refl (omega arith)),
        refl,
      )
      | no p ↦ (
        record b { reader = cheap_prepend; writer = cheap_prepend },
        ground arith,
        omega arith,
        sym (drop_all len (contents b) (omega arith)),
        refl,
      )
    ]

pub retrieve-fault :
    (len : ℕ) (b : Buffer)
    → IsValid b
    → length (contents b) < len
    → retrieve len b ≡ fault assertion
unfolding retrieve
retrieve-fault len b v h = ground (arith, length-contents b v)

pub unwrite_lem :
    (len : ℕ) (b : Buffer)
    → IsValid b
    → len ≤ length (contents b)
    → (b' : Buffer) × (unwrite len b ≡ done b')
      × IsValid b'
      × (contents b' ≡ take (length (contents b) - len) (contents b))
      × (length b'.bytes ≡ length b.bytes)
unfolding unwrite
unwrite_lem len b v h =
    let size = length-contents b v in
    (
      record b { writer = b.writer - len },
      ground arith,
      omega arith,
      ap (λ m. slice b.reader m b.bytes)
            (let p : b.writer - len - b.reader ≡ length (contents b) - len = omega arith in p)
          ∙ sym (
              take-slice (length (contents b) - len) b.reader (b.writer - b.reader) b.bytes
                (omega arith)),
      refl,
    )

-- `prepend` of no more bytes than there is room for in front of a valid buffer's readable bytes
-- succeeds, keeps the buffer valid, puts the bytes in front of the readable ones and takes them
-- from the room.
pub prepend_lem :
    (src : List ℕ) (b : Buffer)
    → IsValid b
    → length src ≤ prependable_bytes b
    → (b' : Buffer) × (prepend src b ≡ done b')
      × IsValid b'
      × (contents b' ≡ src ++ contents b)
      × (prependable_bytes b' ≡ prependable_bytes b - length src)
unfolding prepend
prepend_lem src b v h =
    let size = length-copy b.bytes (b.reader - length src) src in
    (
      record b { bytes = copy b.bytes (b.reader - length src) src; reader = b.reader - length src },
      ground arith,
      omega arith,
      slice-copy_front b.bytes src (b.reader - length src) (b.writer - b.reader)
          (b.writer - (b.reader - length src)) b.reader (omega arith) (omega arith) (omega arith),
      refl,
    )

-- Where the bytes fit behind the readable ones, `append` only moves the end.
pub append_in_place :
    (src : List ℕ) (b : Buffer)
    → IsValid b
    → length src ≤ writable_bytes b
    → (b' : Buffer) × (append src b ≡ done b')
      × IsValid b'
      × (contents b' ≡ contents b ++ src)
      × (writable_bytes b' ≡ writable_bytes b - length src)
unfolding append ensure_writable_bytes has_written
append_in_place src b v h =
    let size = length-copy b.bytes b.writer src in
    (
      record b { bytes = copy b.bytes b.writer src; writer = b.writer + length src },
      ground arith,
      omega arith,
      slice-copy_end b.bytes src b.reader (b.writer - b.reader) b.writer
          (b.writer + length src - b.reader) (omega arith) (omega arith) (omega arith),
      omega arith,
    )
