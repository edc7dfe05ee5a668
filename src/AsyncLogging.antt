-- ===== src/AsyncLogging.antt =====
-- MyNet/base/AsyncLogging.cc: the buffers between the threads that log and the thread that writes. A
-- step is a stretch under the mutex, or the writing thread's work between two of them. A buffer
-- that a pointer owns is `some`, a pointer without one `none`; the size of a buffer is an argument.
-- The file that the text goes to is not part of the model: the text is.
pub mod Shapes
pub mod Lines
pub mod Lifetime
use my_net.Common.{
  ℕ, ltb, leb, if◌then◌else◌, Option, none, some, List, [], ◌∷◌, ◌++◌, length, take, ◌≡◌, ◌<◌,
}
use my_net.Common.Outcome.{Outcome, done, fault, null_pointer, assertion, check, ◌>>=◌, ◌>>◌}
use my_net.Condition.{Condition, fresh, notify}
use my_net.LogStream.{
  FixedBuffer, avail, as_string, bzero, reset, append as append_line, make as make_buffer,
}

-- `m_curbuff`, `m_nextbuff`, `m_buffs` and `m_cond`; and the writing thread's own buffers.
pub record Front : Type 0 where
  pub cur : Option FixedBuffer
  pub next : Option FixedBuffer
  pub buffs : List FixedBuffer
  pub cond : Condition

pub record Back : Type 0 where
  pub first : Option FixedBuffer
  pub second : Option FixedBuffer
  pub to_write : List FixedBuffer

unfoldable pub init : ℕ → Front
unfolding bzero
init size = record {
  cur = some (bzero (make_buffer size));
  next = some (bzero (make_buffer size));
  buffs = [];
  cond = fresh;
}

abbrev pub init_back : ℕ → Back
init_back size = record {
  first = some (make_buffer size);
  second = some (make_buffer size);
  to_write = [];
}

-- A full buffer goes to the list, and the next one takes its place. If there is none, `reset` is
-- called through the pointer that has just released its buffer.
unfoldable pub append_full : List ℕ → FixedBuffer → Option FixedBuffer → Front → Outcome Front
append_full line b none s = fault null_pointer
append_full line b (some c) s = done (record s {
  buffs = s.buffs ++ b ∷ [];
  cur = some (append_line line c).1;
  next = none;
  cond = notify s.cond;
})

unfoldable pub append_to : Option FixedBuffer → List ℕ → Front → Outcome Front
unfolding append_full
append_to none line s = fault null_pointer
append_to (some b) line s =
    if ltb (length line) (avail b)
    then done (record s { cur = some (append_line line b).1 })
    else append_full line b s.next s

unfoldable pub append : List ℕ → Front → Outcome Front
unfolding append_to
append line s = append_to s.cur line s

-- `if (!m_nextbuff) m_nextbuff = move(secondBuffer)`: the two pointers after it
abbrev pub refill :
    Option FixedBuffer → Option FixedBuffer → Option FixedBuffer × Option FixedBuffer
refill none second = (second, none)
refill (some c) second = (some c, second)

-- The writing thread's stretch under the mutex, after the wait if there is one; `push_back` of a
-- pointer without a buffer throws.
unfoldable pub exchange_cur : Option FixedBuffer → Front → Back → Outcome (Front × Back)
exchange_cur none s k = fault null_pointer
exchange_cur (some b) s k =
    let (next, second) = refill s.next k.second in
    done (
      record s { buffs = k.to_write; cur = k.first; next = next },
      record { first = none; second = second; to_write = s.buffs ++ b ∷ [] },
    )

unfoldable pub exchange : Front → Back → Outcome (Front × Back)
unfolding exchange_cur
exchange s k = exchange_cur s.cur s k

abbrev pub texts : List FixedBuffer → List ℕ
texts [] = []
texts (b ∷ bs) = as_string b ++ texts bs

unfoldable pub pop_back : List FixedBuffer → Outcome (FixedBuffer × List FixedBuffer)
pop_back [] = fault assertion
pop_back (b ∷ []) = done (b, [])
pop_back (b ∷ c ∷ bs) = pop_back (c ∷ bs) >>= λ (x, rest). done (x, b ∷ rest)

-- `if (!firstBuffer)`, and the same for the second one
unfoldable pub take_spare :
    Option FixedBuffer → List FixedBuffer → Outcome (Option FixedBuffer × List FixedBuffer)
unfolding pop_back reset
take_spare (some b) bs = done (some b, bs)
take_spare none bs = do
  check (ltb 0 (length bs))
  (x, rest) ← pop_back bs
  done (some (reset x), rest)

-- The work outside the mutex, and the text that it writes. `message` is what it writes of `temp`
-- when it drops buffers.
unfoldable pub write_out : List ℕ → Back → Outcome (List ℕ × Back)
unfolding take_spare
write_out message k = do
  check (ltb 0 (length k.to_write))
  let drops = ltb 25 (length k.to_write)
  let kept = if drops then take 2 k.to_write else k.to_write
  let out = (if drops then message else []) ++ texts kept
  (first, rest) ← take_spare k.first (if ltb 2 (length kept) then take 2 kept else kept)
  (second, rest') ← take_spare k.second rest
  done (out, record { first = first; second = second; to_write = [] })

-- A line that no buffer can hold is lost.
abbrev pub kept : ℕ → List ℕ → List ℕ
kept size line = if leb (length line) size then line else []

-- What threads that log and the writing thread do, with the text logged and the text written so far.
pub data Trace (size : ℕ) (message : List ℕ) : Front → Back → List ℕ → List ℕ → Type 0 where
  start : Trace size message (init size) (init_back size) [] []
  appends :
      {s : Front} {k : Back} {a w : List ℕ} (line : List ℕ) (s' : Front)
      → Trace size message s k a w
      → append line s ≡ done s'
      → Trace size message s' k (a ++ kept size line) w
  exchanges :
      {s : Front} {k : Back} {a w : List ℕ} (s' : Front) (k' : Back)
      → Trace size message s k a w
      → length k.to_write ≡ 0
      → exchange s k ≡ done (s', k')
      → Trace size message s' k' a w
  writes :
      {s : Front} {k : Back} {a w : List ℕ} (out : List ℕ) (k' : Back)
      → Trace size message s k a w
      → 0 < length k.to_write
      → write_out message k ≡ done (out, k')
      → Trace size message s k' a (w ++ out)
