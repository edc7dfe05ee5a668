-- ===== src/Buffer/Valid.antt =====
-- MyNet/net/Buffer.h: the representation invariant, and the readable bytes that a buffer holds.
use my_net.Common.{ℕ, ◌+◌, ◌-◌, ◌≤◌, ◌≡◌, List, length, slice, length-slice, arith}
use my_net.Common.Word.{max_size}
use my_net.Buffer.{Buffer, cheap_prepend, readable_bytes, writable_bytes}

-- 0 <= readerIndex <= writerIndex <= size, and room for the cheap prepend.
pub record IsValid (b : Buffer) : Type 0 where
  pub room : cheap_prepend ≤ length b.bytes
  pub ordered : b.reader ≤ b.writer
  pub inside : b.writer ≤ length b.bytes
  pub small : length b.bytes ≤ max_size

-- The bytes of `[peek(), beginWrite())`
abbrev pub contents : Buffer → List ℕ
contents b = slice b.reader (b.writer - b.reader) b.bytes

pub readable_bytes-eq : {b : Buffer} → IsValid b → readable_bytes b ≡ b.writer - b.reader
readable_bytes-eq v = omega arith

pub writable_bytes-eq : {b : Buffer} → IsValid b → writable_bytes b ≡ length b.bytes - b.writer
writable_bytes-eq v = omega arith

-- `readableBytes` counts the readable bytes, and with the other two areas they make up the storage.
pub length-contents : (b : Buffer) → IsValid b → length (contents b) ≡ readable_bytes b
length-contents b v =
    omega (arith, length-slice b.reader (b.writer - b.reader) b.bytes (omega arith))

pub areas :
    (b : Buffer) → IsValid b → b.reader + (length (contents b) + writable_bytes b) ≡ length b.bytes
areas b v = omega (arith, length-contents b v)
