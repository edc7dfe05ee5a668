-- ===== src/Buffer/Search.antt =====
-- MyNet/net/Buffer.h: the searches for a line end. `std::search` for "\r\n" and `memchr` are those
-- of the standard library; a pointer is its index in the storage, NULL is `none`.
pub mod First
use my_net.Common.{
  ℕ, ◌+◌, ◌-◌, ◌==◌, ◌&&◌, leb, if◌then◌else◌, Bool, false, Option, none, some, List, [], ◌∷◌,
  slice,
}
use my_net.Common.Outcome.{Outcome, done, check, ◌>>=◌, ◌>>◌}
use my_net.Buffer.{Buffer}

-- '\r' and '\n'
abbrev pub cr : ℕ
cr = 13

abbrev pub lf : ℕ
lf = 10

unfoldable pub starts_crlf : List ℕ → Bool
starts_crlf [] = false
starts_crlf (x ∷ []) = false
starts_crlf (x ∷ y ∷ xs) = x == cr && y == lf

-- `std::search(first, last, kCRLF, kCRLF + 2)`: `last` if there is none.
unfoldable pub search_crlf : ℕ → List ℕ → ℕ
unfolding starts_crlf
search_crlf first [] = first
search_crlf first (x ∷ xs) =
    let rest = search_crlf (first + 1) xs in if starts_crlf (x ∷ xs) then first else rest

unfoldable pub memchr : ℕ → ℕ → List ℕ → Option ℕ
memchr c first [] = none
memchr c first (x ∷ xs) = let rest = memchr c (first + 1) xs in if x == c then some first else rest

-- The bytes of `[start, beginWrite())`
abbrev pub range : ℕ → Buffer → List ℕ
range start b = slice start (b.writer - start) b.bytes

-- `crlf == beginWrite() ? NULL : crlf`
unfoldable pub crlf_in : ℕ → Buffer → Option ℕ
crlf_in start b =
    let crlf = search_crlf start (range start b) in if crlf == b.writer then none else some crlf

unfoldable pub find_crlf : Buffer → Option ℕ
unfolding crlf_in
find_crlf b = crlf_in b.reader b

unfoldable pub find_crlf_from : ℕ → Buffer → Outcome (Option ℕ)
unfolding crlf_in
find_crlf_from start b = do
  check (leb b.reader start)
  check (leb start b.writer)
  done (crlf_in start b)

unfoldable pub find_eol : ℕ → Buffer → Outcome (Option ℕ)
find_eol start b = do
  check (leb b.reader start)
  check (leb start b.writer)
  done (memchr lf start (range start b))
