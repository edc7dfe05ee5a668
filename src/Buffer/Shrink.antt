-- ===== src/Buffer/Shrink.antt =====
-- MyNet/net/Buffer.h: `retrieveUntil`, `retrieveAllAsString`, `swap` and `shrink`.
use my_net.Common.{ℕ, ◌+◌, ◌-◌, ◌≤◌, ◌≡◌, ap, ◌∙◌, List, ◌++◌, length, drop, arith}
use my_net.Common.Word.{add_size, max_size}
use my_net.Common.Outcome.{done}
use my_net.Buffer.{
  Buffer, initial_size, cheap_prepend, readable_bytes, writable_bytes, retrieve_until, make,
  ensure_writable_bytes, append, shrink,
}
use my_net.Buffer.Valid.{IsValid, contents, length-contents}
use my_net.Buffer.Stream.{make_lem, append_in_place, retrieve_lem}
use my_net.Buffer.Space.{ensure_writable_bytes-HasSpace}

-- `retrieveUntil` of a position within the readable bytes of a valid buffer succeeds, keeps the
-- buffer valid and drops the readable bytes in front of the position.
pub retrieve_until_lem :
    (end_at : ℕ) (b : Buffer)
    → IsValid b
    → b.reader ≤ end_at
    → end_at ≤ b.writer
    → (b' : Buffer) × (retrieve_until end_at b ≡ done b')
      × IsValid b'
      × (contents b' ≡ drop (end_at - b.reader) (contents b))
unfolding retrieve_until
retrieve_until_lem end_at b v h k =
    let size = length-contents b v in
    let (b', e, v', c, l) = retrieve_lem (end_at - b.reader) b v (omega arith) in
    (b', ground arith, v', c)

shrink_steps :
    (to_string_piece : Buffer → List ℕ) (reserve : ℕ) (b b₁ b₂ b₃ : Buffer)
    → make initial_size ≡ done b₁
    → ensure_writable_bytes (add_size (readable_bytes b) reserve) b₁ ≡ done b₂
    → append (to_string_piece b) b₂ ≡ done b₃
    → shrink to_string_piece reserve b ≡ done b₃
unfolding shrink
shrink_steps to_string_piece reserve b b₁ b₂ b₃ e₁ e₂ e₃ = rw (e₁, e₂, e₃)

-- If `toStringPiece` returns the readable bytes of a valid buffer, `shrink` of a valid buffer
-- succeeds as long as the address space allows it: the result is valid, has the same readable
-- bytes, and has room for the reserve behind them.
pub shrink_lem :
    (to_string_piece : Buffer → List ℕ) (reserve : ℕ) (b : Buffer)
    → ((c : Buffer) → IsValid c → to_string_piece c ≡ contents c)
    → IsValid b
    → cheap_prepend + length b.bytes + reserve ≤ max_size
    → (b' : Buffer) × (shrink to_string_piece reserve b ≡ done b')
      × IsValid b'
      × (contents b' ≡ contents b)
      × (reserve ≤ writable_bytes b')
shrink_lem to_string_piece reserve b piece v k =
    let size = length-contents b v in
    let amount : add_size (readable_bytes b) reserve ≡ length (contents b) + reserve =
      omega arith in
    let (b₁, e₁, v₁, c₁, w₁, r₁) = make_lem initial_size (omega arith) in
    let (b₂, e₂, s) =
      ensure_writable_bytes-HasSpace (length (contents b) + reserve) b₁ v₁
        (omega (arith, ap length c₁, length-contents b₁ v₁)) in
    let (b₃, e₃, v₃, c₃, w₃) = append_in_place (contents b) b₂ s.valid (omega (arith, s.space)) in
    (
      b₃,
      shrink_steps to_string_piece reserve b b₁ b₂ b₃ e₁
          (ap (λ m. ensure_writable_bytes m b₁) amount ∙ e₂)
          (ap (λ (t : List ℕ). append t b₂) (piece b v) ∙ e₃),
      v₃,
      c₃ ∙ ap (λ (t : List ℕ). t ++ contents b) (s.same ∙ c₁),
      omega (arith, s.space),
    )
