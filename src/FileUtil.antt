-- ===== src/FileUtil.antt =====
-- MyNet/base/FileUtil.cc: reading a small file and writing lines. The calls of the system are
-- parameters: each is given the number of the call, so that it may answer differently every time.
-- The loops run on fuel, and return nothing when it runs out.
pub mod Writing
pub mod Reading
pub mod Retrying
use my_net.Common.{
  ℕ, zero, suc, ◌+◌, ◌-◌, ◌==◌, ◌&&◌, ltb, leb, min, if◌then◌else◌, Bool, true, false, Option, none,
  some, List, [], ◌∷◌, ◌++◌, length, take, drop,
}

-- `m_valid`, `m_nBytesWritten`, and what the stream has taken so far.
pub record WriteFile : Type 0 where
  pub valid : Bool
  pub bytes_written : ℕ
  pub file : List ℕ

-- `fopen` succeeds or not.
abbrev pub open_file : Bool → List ℕ → WriteFile
open_file opened old = record { valid = opened; bytes_written = 0; file = old }

-- `fwrite_unlocked`: how many characters it takes, and what `ferror` says after it.
abbrev pub Fwrite : Type 0
Fwrite = ℕ → List ℕ → ℕ × Bool

unfoldable pub write_loop : Fwrite → ℕ → ℕ → List ℕ → List ℕ → Option (List ℕ)
write_loop fwrite zero i line file = none
write_loop fwrite (suc fuel) i line file =
    let (ret, failed) = fwrite i line in
    let file' = file ++ take ret line in
    let rest = write_loop fwrite fuel (suc i) (drop ret line) file' in
    if ret == 0 && failed
    then some file
    else (if ltb 0 (length line - ret) then rest else some file')

abbrev pub written_lines : ℕ → WriteFile → Option (List ℕ) → Option (ℕ × WriteFile)
written_lines n f none = none
written_lines n f (some file) =
    some (n, record f { bytes_written = f.bytes_written + n; file = file })

unfoldable pub write_line : Fwrite → ℕ → List ℕ → WriteFile → Option (ℕ × WriteFile)
unfolding write_loop
write_line fwrite fuel line f =
    if f.valid
    then written_lines (length line) f (write_loop fwrite fuel 0 line f.file)
    else some (0, f)

-- The whole of a `std::string`, whose length is known.
unfoldable pub write_string : Fwrite → ℕ → List ℕ → WriteFile → Option (ℕ × WriteFile)
write_string fwrite fuel line f = write_line fwrite fuel line f

-- What `flush` and the destructor call, if anything.
pub data FileCall : Type 0 where
  fflush fclose : FileCall

unfoldable pub flush_file : WriteFile → List FileCall
flush_file f = if f.valid then fflush ∷ [] else []

unfoldable pub close_file : WriteFile → List FileCall
close_file f = if f.valid then fclose ∷ [] else []

-- `read`: some characters (none at the end of the file), an interruption, or another error. It is
-- given the number of the call, the place in the file and how much to read.
pub data Got : Type 0 where
  bytes : List ℕ → Got
  interrupted : Got
  error : ℕ → Got

abbrev pub Read : Type 0
Read = ℕ → ℕ → ℕ → Got

abbrev pub buff_size : ℕ
buff_size = 65536

-- What the loop of `readToString` does with an answer: `more` goes on. The result is the data and
-- the error, 0 for none.
abbrev pub read_some : (List ℕ → Option (List ℕ × ℕ)) → List ℕ → Got → Option (List ℕ × ℕ)
read_some more content (bytes []) = some (content, 0)
read_some more content (bytes (x ∷ xs)) = more (content ++ x ∷ xs)
read_some more content interrupted = more content
read_some more content (error e) = some (content, e)

-- The loop's own count `readed` is the length of the data.
unfoldable pub read_loop : Read → ℕ → ℕ → ℕ → ℕ → List ℕ → Option (List ℕ × ℕ)
read_loop read zero i max_size read_size content = none
read_loop read (suc fuel) i max_size read_size content =
    let next =
      read_some (λ c. read_loop read fuel (suc i) max_size read_size c) content
        (read i (length content) (min buff_size (max_size - length content))) in
    if ltb (length content) read_size then next else some (content, 0)

-- What `fstat` tells of a file: an error, or its kind and size.
pub data Stat : Type 0 where
  stat_error : ℕ → Stat
  regular : ℕ → Stat
  directory : Stat
  special : Stat

-- `EISDIR`
abbrev pub eisdir : ℕ
eisdir = 21

-- How much `readToString` is going to read, and the error so far. Nothing is read of a regular file
-- if no place is given for its size.
unfoldable pub size_to_read : Bool → ℕ → Stat → ℕ × ℕ
size_to_read has_file_size max_size (stat_error e) = (0, e)
size_to_read has_file_size max_size (regular n) =
    if has_file_size then (min max_size n, 0) else (0, 0)
size_to_read has_file_size max_size directory = (0, eisdir)
size_to_read has_file_size max_size special = (0, 0)

-- `readToString` of a file that is open.
unfoldable pub read_to_string : Read → ℕ → Bool → ℕ → Stat → Option (List ℕ × ℕ)
unfolding read_loop size_to_read
read_to_string read fuel has_file_size max_size stat =
    let (read_size, err) = size_to_read has_file_size max_size stat in
    if ltb 0 read_size then read_loop read fuel 0 max_size read_size [] else some ([], err)

-- `m_fd`, whether it is open, `m_err`, and the characters of `m_buff` up to the end of its text.
pub record ReadSmallFile : Type 0 where
  pub is_open : Bool
  pub err : ℕ
  pub buff : List ℕ

-- `open` gives a descriptor, or an error.
abbrev pub open_small_file : Option ℕ → ReadSmallFile
open_small_file none = record { is_open = true; err = 0; buff = [] }
open_small_file (some errno) = record { is_open = false; err = errno; buff = [] }

-- The loop of `readToBuffer` around `pread`: `errno = EINTR` is not 0, so that every -1 is read again.
abbrev pub again : Option (List ℕ) → Got → Option (List ℕ)
again more (bytes xs) = some xs
again more interrupted = more
again more (error e) = more

unfoldable pub pread_loop : (ℕ → Got) → ℕ → ℕ → Option (List ℕ)
pread_loop pread zero i = none
pread_loop pread (suc fuel) i = let more = pread_loop pread fuel (suc i) in again more (pread i)

abbrev pub buffered : ReadSmallFile → Option (List ℕ) → Option (ℕ × ReadSmallFile)
buffered f none = none
buffered f (some xs) = some (f.err, record f { buff = take (buff_size - 1) xs })

-- The error, and the file.
unfoldable pub read_to_buffer : (ℕ → Got) → ℕ → ReadSmallFile → Option (ℕ × ReadSmallFile)
unfolding pread_loop
read_to_buffer pread fuel f =
    if f.is_open then buffered f (pread_loop pread fuel 0) else some (f.err, f)

-- The destructor: how often it calls `close`, which is 0, interrupted, or another error.
unfoldable pub close_loop : (ℕ → Got) → ℕ → ℕ → Option ℕ
close_loop close zero i = none
close_loop close (suc fuel) i =
    let more = close_loop close fuel (suc i) in
    elim (close i) [ bytes xs ↦ some (suc i) | interrupted ↦ more | error e ↦ some (suc i) ]

-- `readFile`, with the content that it is given. What `open` answers is as above.
unfoldable pub read_file : Read → ℕ → Bool → ℕ → Option ℕ → Stat → List ℕ → Option (List ℕ × ℕ)
read_file read fuel has_file_size max_size none stat content =
    read_to_string read fuel has_file_size max_size stat
read_file read fuel has_file_size max_size (some errno) stat content = some (content, errno)
