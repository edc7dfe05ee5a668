-- ===== src/LogStream.antt =====
-- MyNet/base/LogStream.h and .cc: the fixed buffer of a log line, and the stream that writes into it.
-- Characters are their codes. `<<` of a `double`, which calls `snprintf`, and of a `float`, which
-- calls itself without end, have no model.
pub mod Numbers
pub mod Decimal
pub mod Hexadecimal
pub mod Writes
use my_net.Common.{
  ℕ, ◌+◌, ◌-◌, ◌*◌, leb, ltb, if◌then◌else◌, Bool, List, [], ◌∷◌, ◌++◌, length, take, copy,
  replicate,
}
use my_net.Common.Int.{ℤ}
use my_net.Common.Outcome.{Outcome, done, check, ◌>>◌}
use Numbers.{convert, convert_hex}

-- `m_buff` and `m_cur - m_buff`
pub record FixedBuffer : Type 0 where
  pub chars : List ℕ
  pub cur : ℕ

abbrev pub small_buffer : ℕ
small_buffer = 4000

abbrev pub large_buffer : ℕ
large_buffer = 4000 * 1000

-- A new buffer of `size` characters; what they are is not initialised, here they are zeros.
abbrev pub make : ℕ → FixedBuffer
make size = record { chars = replicate size 0; cur = 0 }

abbrev pub avail : FixedBuffer → ℕ
avail b = length b.chars - b.cur

-- `asString()`, and what `data()` and `length()` give a reader
abbrev pub as_string : FixedBuffer → List ℕ
as_string b = take b.cur b.chars

-- `memcpy` to `m_cur`, and `add`
abbrev pub write : List ℕ → FixedBuffer → FixedBuffer
write xs b = record b { chars = copy b.chars b.cur xs }

abbrev pub add : ℕ → FixedBuffer → FixedBuffer
add n b = record b { cur = b.cur + n }

unfoldable pub reset : FixedBuffer → FixedBuffer
reset b = record b { cur = 0 }

unfoldable pub bzero : FixedBuffer → FixedBuffer
bzero b = record b { chars = replicate (length b.chars) 0 }

-- Both return the number of characters that they took.
unfoldable pub append : List ℕ → FixedBuffer → ℕ × FixedBuffer
append line b =
    if leb (length line) (avail b) then (length line, add (length line) (write line b)) else (0, b)

unfoldable pub append_partial : List ℕ → FixedBuffer → ℕ × FixedBuffer
append_partial line b =
    if leb (length line) (avail b)
    then (length line, add (length line) (write line b))
    else (avail b, add (avail b) (write (take (avail b) line) b))

abbrev pub max_numeric_size : ℕ
max_numeric_size = 32

-- `convert` writes the text and a final zero at `m_cur`; `add` leaves the zero out.
unfoldable pub format_integer : ℤ → FixedBuffer → FixedBuffer
format_integer value b =
    let text = convert value in
    if leb max_numeric_size (avail b) then add (length text) (write (text ++ 0 ∷ []) b) else b

unfoldable pub format_pointer : ℕ → FixedBuffer → FixedBuffer
unfolding append
format_pointer p b =
    let text = convert_hex p in
    if leb max_numeric_size (avail b)
    then (let b' = (append (b'0' ∷ b'x' ∷ []) b).1 in add (length text) (write (text ++ 0 ∷ []) b'))
    else b

-- What `<<` takes: a string, a truth value, a character, an integer of any type, a pointer.
pub data Item : Type 0 where
  text : List ℕ → Item
  truth : Bool → Item
  char : ℕ → Item
  integer : ℤ → Item
  pointer : ℕ → Item

unfoldable pub put : Item → FixedBuffer → FixedBuffer
unfolding append format_integer format_pointer
put (text line) b = (append line b).1
put (truth v) b = (append ((if v then b'1' else b'0') ∷ []) b).1
put (char c) b = (append (c ∷ []) b).1
put (integer v) b = format_integer v b
put (pointer p) b = format_pointer p b

-- The stream is its buffer.
unfoldable pub append_to_stream : List ℕ → FixedBuffer → ℕ × FixedBuffer
append_to_stream line m_buff = append line m_buff

unfoldable pub reset_buffer : FixedBuffer → FixedBuffer
unfolding reset
reset_buffer m_buff = reset m_buff

-- `Fmt`: what `snprintf` makes of a number, which has to leave room for the final zero in `m_buf`.
pub record Fmt : Type 0 where
  pub formatted : List ℕ

unfoldable pub make_fmt : List ℕ → Outcome Fmt
make_fmt formatted = check (ltb (length formatted) 32) >> done (record { formatted = formatted })

unfoldable pub put_fmt : Fmt → FixedBuffer → FixedBuffer
unfolding append_to_stream
put_fmt fmt s = (append_to_stream fmt.formatted s).1
