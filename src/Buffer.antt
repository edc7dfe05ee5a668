-- ===== src/Buffer.antt =====
-- MyNet/net/Buffer.h: the state and the operations of the byte buffer. A pointer into the storage
-- is its index. The storage holds initialised bytes, each a number; `resize` fills with zeros.
pub mod Integers
pub mod Search
pub mod Input
pub mod Received
pub mod Shrink
pub mod Valid
pub mod Space
pub mod Stream
pub mod Queue
pub mod Refine
pub mod Framing
pub mod Messages
use my_net.Common.{
  ◌&&◌, ℕ, ◌+◌, ◌-◌, ltb, leb, if◌then◌else◌, List, ◌++◌, length, take, replicate, copy, slice,
}
use my_net.Common.Word.{add_size, sub_size, max_size}
use my_net.Common.Outcome.{Outcome, done, fault, length_error, check, ◌>>=◌, ◌>>◌}

-- `buffer_`, `readerIndex_` and `writerIndex_`
pub record Buffer : Type 0 where
  pub bytes : List ℕ
  pub reader : ℕ
  pub writer : ℕ

abbrev pub cheap_prepend : ℕ
cheap_prepend = 8

abbrev pub initial_size : ℕ
initial_size = 1024

abbrev pub readable_bytes : Buffer → ℕ
readable_bytes b = sub_size b.writer b.reader

abbrev pub writable_bytes : Buffer → ℕ
writable_bytes b = sub_size (length b.bytes) b.writer

abbrev pub prependable_bytes : Buffer → ℕ
prependable_bytes b = b.reader

-- The constructor, with its assertions.
unfoldable pub make : ℕ → Outcome Buffer
make initial = do
  let b : Buffer = record {
    bytes = replicate (add_size cheap_prepend initial) 0;
    reader = cheap_prepend;
    writer = cheap_prepend;
  }
  check (leb (readable_bytes b) 0)
  check (leb (writable_bytes b) initial && leb initial (writable_bytes b))
  check (leb (prependable_bytes b) cheap_prepend && leb cheap_prepend (prependable_bytes b))
  done b

-- `a.swap(b)`, the two buffers side by side
unfoldable pub swap : Buffer × Buffer → Buffer × Buffer
swap (a, b) = (
  record a { bytes = b.bytes; reader = b.reader; writer = b.writer },
  record b { bytes = a.bytes; reader = a.reader; writer = a.writer },
)

-- `std::vector::resize`
unfoldable pub resize : ℕ → List ℕ → Outcome (List ℕ)
resize n bytes =
    if ltb max_size n
    then fault length_error
    else done (take n bytes ++ replicate (n - length bytes) 0)

-- The bytes of `[peek(), peek() + len)`
abbrev pub peek : ℕ → Buffer → List ℕ
peek len b = slice b.reader len b.bytes

unfoldable pub retrieve_all : Buffer → Buffer
retrieve_all b = record b { reader = cheap_prepend; writer = cheap_prepend }

unfoldable pub retrieve : ℕ → Buffer → Outcome Buffer
unfolding retrieve_all
retrieve len b = do
  check (leb len (readable_bytes b))
  done (
      if ltb len (readable_bytes b)
      then record b { reader = add_size b.reader len }
      else retrieve_all b)

unfoldable pub retrieve_until : ℕ → Buffer → Outcome Buffer
retrieve_until end_at b = do
  check (leb b.reader end_at)
  check (leb end_at b.writer)
  retrieve (end_at - b.reader) b

unfoldable pub retrieve_as_string : ℕ → Buffer → Outcome (List ℕ × Buffer)
retrieve_as_string len b = do
  check (leb len (readable_bytes b))
  let result = peek len b
  b' ← retrieve len b
  done (result, b')

unfoldable pub retrieve_all_as_string : Buffer → Outcome (List ℕ × Buffer)
retrieve_all_as_string b = retrieve_as_string (readable_bytes b) b

-- The two branches of `makeSpace`: a larger storage, or the readable bytes moved to the front.
unfoldable pub grow : ℕ → Buffer → Outcome Buffer
unfolding resize
grow len b = do bytes ← resize (add_size b.writer len) b.bytes; done (record b { bytes = bytes })

unfoldable pub move_to_front : Buffer → Outcome Buffer
move_to_front b = do
  check (ltb cheap_prepend b.reader)
  let readable = readable_bytes b
  let b' : Buffer = record b {
    bytes = copy b.bytes cheap_prepend (slice b.reader readable b.bytes);
    reader = cheap_prepend;
    writer = add_size cheap_prepend readable;
  }
  check (leb readable (readable_bytes b') && leb (readable_bytes b') readable)
  done b'

unfoldable pub make_space : ℕ → Buffer → Outcome Buffer
make_space len b =
    if ltb (add_size (writable_bytes b) (prependable_bytes b)) (add_size len cheap_prepend)
    then grow len b
    else move_to_front b

unfoldable pub ensure_writable_bytes : ℕ → Buffer → Outcome Buffer
ensure_writable_bytes len b = do
  b' ← if ltb (writable_bytes b) len then make_space len b else done b
  check (leb len (writable_bytes b'))
  done b'

unfoldable pub has_written : ℕ → Buffer → Outcome Buffer
has_written len b = do
  check (leb len (writable_bytes b))
  done (record b { writer = add_size b.writer len })

unfoldable pub unwrite : ℕ → Buffer → Outcome Buffer
unwrite len b = do
  check (leb len (readable_bytes b))
  done (record b { writer = sub_size b.writer len })

-- `append(data, len)`, the list standing for the bytes of `[data, data + len)`
unfoldable pub append : List ℕ → Buffer → Outcome Buffer
append src b = do
  b' ← ensure_writable_bytes (length src) b
  has_written (length src) (record b' { bytes = copy b'.bytes b'.writer src })

unfoldable pub prepend : List ℕ → Buffer → Outcome Buffer
prepend src b = do
  check (leb (length src) (prependable_bytes b))
  let start = sub_size b.reader (length src)
  done (record b { bytes = copy b.bytes start src; reader = start })

-- `toStringPiece` is declared nowhere in the repository: it is a parameter.
unfoldable pub shrink : (Buffer → List ℕ) → ℕ → Buffer → Outcome Buffer
unfolding swap
shrink to_string_piece reserve b = do
  fresh ← make initial_size
  other ← ensure_writable_bytes (add_size (readable_bytes b) reserve) fresh
  filled ← append (to_string_piece b) other
  done (swap (b, filled)).0
