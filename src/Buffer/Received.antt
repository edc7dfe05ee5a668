-- ===== src/Buffer/Received.antt =====
-- MyNet/net/Buffer.cc: what `readFd` leaves in the buffer.
use my_net.Common.{
  ℕ, ◌+◌, ◌-◌, ◌≤◌, ◌<◌, ◌≡◌, ◌++◌, refl, sym, ap, ◌∙◌, List, [], ◌∷◌, false, leb, length,
  length-copy, length-take, length-drop, take, drop, take_all, take-append-drop, copy,
  slice-copy_end, append-nil, append_assoc, arith, dec_lt,
}
use my_net.Common.Word.{max_size}
use my_net.Common.Outcome.{done}
use my_net.Buffer.{Buffer, writable_bytes}
use my_net.Buffer.Valid.{IsValid, contents}
use my_net.Buffer.Stream.{append_lem}
use my_net.Buffer.Input.{Read, error, got, extra_size, areas_for, take_in, read_fd}

abbrev pub total : List ℕ → ℕ
total [] = 0
total (n ∷ ns) = n + total ns

-- The system fills no more than the areas that it is offered.
abbrev pub Fits : List ℕ → Read → Type 0
Fits areas (error e) = Unit {0}
Fits areas (got xs) = length xs ≤ total areas

abbrev pub received : Read → List ℕ
received (error e) = []
received (got xs) = xs

total-areas_for :
    (n : ℕ) → (total (areas_for n) ≤ n + extra_size) × (extra_size ≤ n → total (areas_for n) ≡ n)
unfolding areas_for
total-areas_for n = (ground arith, λ h. ground arith)

take_in-all :
    (xs : List ℕ) (b : Buffer)
    → IsValid b
    → length xs ≤ writable_bytes b
    → (b' : Buffer) × (take_in (got xs) b ≡ done (got xs, b'))
      × IsValid b'
      × (contents b' ≡ contents b ++ xs)
unfolding take_in
take_in-all xs b v h =
    let whole = take_all (writable_bytes b) xs h in
    let size = length-copy b.bytes b.writer xs in
    (
      record b { bytes = copy b.bytes b.writer xs; writer = b.writer + length xs },
      rw whole (ground arith),
      omega arith,
      slice-copy_end b.bytes xs b.reader (b.writer - b.reader) b.writer
          (b.writer + length xs - b.reader) (omega arith) (omega arith) (omega arith),
    )

take_in-more :
    (xs : List ℕ) (b : Buffer)
    → IsValid b
    → writable_bytes b < length xs
    → b.writer + length xs ≤ max_size
    → (b' : Buffer) × (take_in (got xs) b ≡ done (got xs, b'))
      × IsValid b'
      × (contents b' ≡ contents b ++ xs)
unfolding take_in
take_in-more xs b v h k =
    let n = writable_bytes b in
    let here = take n xs in
    let size = length-copy b.bytes b.writer here in
    let taken = length-take n xs in
    let left = length-drop n xs in
    let full : Buffer = record b { bytes = copy b.bytes b.writer here; writer = length b.bytes } in
    let valid : IsValid full = omega arith in
    let so_far : contents full ≡ contents b ++ here =
      slice-copy_end b.bytes here b.reader (b.writer - b.reader) b.writer
        (length b.bytes - b.reader) (omega arith) (omega arith) (omega arith) in
    let (b', e, v', c, l) = append_lem (drop n xs) full valid (omega arith) in
    (
      b',
      let test : leb (length xs) (writable_bytes b) ≡ false = ground arith in rw (test, e),
      v',
      c
          ∙ ap (λ (t : List ℕ). t ++ drop n xs) so_far
          ∙ append_assoc (contents b) here (drop n xs)
          ∙ ap (λ (t : List ℕ). contents b ++ t) (take-append-drop n xs),
    )

take_in-Fits :
    (r : Read) (b : Buffer)
    → IsValid b
    → length b.bytes + extra_size ≤ max_size
    → Fits (areas_for (writable_bytes b)) r
    → (b' : Buffer) × (take_in r b ≡ done (r, b'))
      × IsValid b'
      × (contents b' ≡ contents b ++ received r)
take_in-Fits (error e) b v k fits = (b, unfold take_in in refl, v, sym (append-nil (contents b)))
take_in-Fits (got xs) b v k fits = elim (dec_lt (writable_bytes b) (length xs)) [
  | yes p ↦ let bound = total-areas_for (writable_bytes b) in take_in-more xs b v p (omega arith)
  | no p ↦ take_in-all xs b v (omega arith)
]

-- For a system call that fills no more than the areas it is offered, and a valid buffer with 64
-- KiB of address space left, `readFd` succeeds, keeps the buffer valid, puts all the bytes
-- received behind the readable ones, however they are split between the storage and the extra
-- area, and returns what the call returned; on an error the readable bytes stay as they are.
pub read_fd_lem :
    (readv : List ℕ → Read) (b : Buffer)
    → ((areas : List ℕ) → Fits areas (readv areas))
    → IsValid b
    → length b.bytes + extra_size ≤ max_size
    → let r = readv (areas_for (writable_bytes b)) in
      (b' : Buffer) × (read_fd readv b ≡ done (r, b'))
      × IsValid b'
      × (contents b' ≡ contents b ++ received r)
unfolding read_fd
read_fd_lem readv b fits v k =
    let areas = areas_for (writable_bytes b) in take_in-Fits (readv areas) b v k (fits areas)
