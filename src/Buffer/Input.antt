-- ===== src/Buffer/Input.antt =====
-- MyNet/net/Buffer.cc: reading from a descriptor. `readv` is the system's: it is given the lengths
-- of the areas to fill, and returns an error or the bytes that it has put into them, one area after
-- the other.
use my_net.Common.{ℕ, ltb, leb, if◌then◌else◌, List, [], ◌∷◌, length, take, drop, copy}
use my_net.Common.Word.{add_size}
use my_net.Common.Outcome.{Outcome, done, ◌>>=◌}
use my_net.Buffer.{Buffer, writable_bytes, append}

pub data Read : Type 0 where
  error : ℕ → Read
  got : List ℕ → Read

-- `sizeof extrabuf`
abbrev pub extra_size : ℕ
extra_size = 65536

-- The areas that are offered: `iovcnt` of `vec`.
unfoldable pub areas_for : ℕ → List ℕ
areas_for writable = if ltb writable extra_size then writable ∷ extra_size ∷ [] else writable ∷ []

-- What the source does after `readv`: the first bytes are in place behind `writerIndex_`, the others
-- in `extrabuf`. The result beside the buffer is `n`, or `errno`.
unfoldable pub take_in : Read → Buffer → Outcome (Read × Buffer)
take_in (error e) b = done (error e, b)
take_in (got xs) b =
    let writable = writable_bytes b in
    let filled = copy b.bytes b.writer (take writable xs) in
    if leb (length xs) writable
    then done (got xs, record b { bytes = filled; writer = add_size b.writer (length xs) })
    else (append (drop writable xs) (record b { bytes = filled; writer = length b.bytes }) >>= λ b'.
        done (got xs, b'))

unfoldable pub read_fd : (List ℕ → Read) → Buffer → Outcome (Read × Buffer)
unfolding areas_for take_in
read_fd readv b = take_in (readv (areas_for (writable_bytes b))) b
