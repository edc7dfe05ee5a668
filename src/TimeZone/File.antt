-- ===== src/TimeZone/File.antt =====
-- MyNet/base/TimeZone.cc: reading a zone file. A stream is the bytes that are left of it; a short read
-- gives what is there. `int32_t` values are bit patterns made signed; `host` is the order of the bytes of an integer
-- in memory.
use my_net.Common.{
  ℕ, zero, suc, ◌-◌, ◌==◌, not, if◌then◌else◌, Bool, true, false, Option, none, some, List, [], ◌∷◌,
  ◌++◌, length, take, drop, replicate,
}
use my_net.Common.Int.{ℤ, pos, negsuc, pos_part}
use my_net.Common.Word.{to_int32}
use my_net.Common.Outcome.{Outcome, Fault, done, fault, out_of_bounds, length_error}
use my_net.Endian.{Host, from_memory, network_to_host}
use my_net.TimeZone.{LocalTime, Data, Zone, no_data, transitions_of}

-- What reads from a stream, and can stop the program.
abbrev pub Reader : Type 0 → Type 0
Reader A = List ℕ → Outcome (A × List ℕ)

abbrev pub pure : {A : Type 0} → A → Reader A
pure a s = done (a, s)

abbrev pub stop : {A : Type 0} → Fault → Reader A
stop e s = fault e

abbrev continue : {A B : Type 0} → (A → Reader B) → Outcome (A × List ℕ) → Outcome (B × List ℕ)
continue f (done (a, s)) = f a s
continue f (fault e) = fault e

infixl 5 ◌>>=◌ ◌>>◌
abbrev pub ◌>>=◌ : {A B : Type 0} → Reader A → (A → Reader B) → Reader B
◌>>=◌ m f s = continue f (m s)

abbrev pub ◌>>◌ : {A B : Type 0} → Reader A → Reader B → Reader B
m >> n = m >>= λ _. n

unfoldable pub read_bytes : ℕ → Reader (List ℕ)
read_bytes n s = done (take n s, drop n s)

-- Bytes that are not there leave those of `x = 0` as they are.
unfoldable pub read_int32 : Host → Reader ℤ
read_int32 host s =
    let bytes = take 4 s in
    let x = from_memory host (bytes ++ replicate (4 - length bytes) 0) in
    done (to_int32 (network_to_host host 4 x), drop 4 s)

unfoldable pub read_uint8 : Reader ℕ
read_uint8 [] = done (0, [])
read_uint8 (b ∷ bs) = done (b, bs)

-- `for(int i = 0; i < n; ++i)` of reads
unfoldable pub read_times : Host → ℕ → Reader (List ℤ)
read_times host zero = pure []
read_times host (suc n) = do x ← read_int32 host; xs ← read_times host n; pure (x ∷ xs)

unfoldable pub read_indices : ℕ → Reader (List ℕ)
read_indices zero = pure []
read_indices (suc n) = do x ← read_uint8; xs ← read_indices n; pure (x ∷ xs)

unfoldable pub read_local_time : Host → Reader LocalTime
read_local_time host = do
  gmtoff ← read_int32 host
  isdst ← read_uint8
  abbrind ← read_uint8
  pure (record { gmt_offset = gmtoff; is_dest = not (isdst == 0); arrb_inx = abbrind })

unfoldable pub read_local_times : Host → ℕ → Reader (List LocalTime)
read_local_times host zero = pure []
read_local_times host (suc n) = do
  x ← read_local_time host
  xs ← read_local_times host n
  pure (x ∷ xs)

-- A size from a signed count: below 0 it is larger than any object can be.
unfoldable pub size_of_count : Fault → ℤ → Reader ℕ
size_of_count e (pos n) = pure n
size_of_count e (negsuc n) = stop e

abbrev pub lift : {A : Type 0} → Outcome A → Reader A
lift (done a) s = done (a, s)
lift (fault e) s = fault e

-- "TZif"
abbrev pub magic : List ℕ
magic = b'T' ∷ b'Z' ∷ b'i' ∷ b'f' ∷ []

abbrev same_bytes : List ℕ → List ℕ → Bool
same_bytes [] [] = true
same_bytes [] (y ∷ ys) = false
same_bytes (x ∷ xs) [] = false
same_bytes (x ∷ xs) (y ∷ ys) = if x == y then same_bytes xs ys else false

-- What follows the magic number.
unfoldable pub read_rest : Host → Reader Data
read_rest host = do
  version ← read_bytes 1
  reserved ← read_bytes 15
  isgmtcnt ← read_int32 host
  isstdcnt ← read_int32 host
  leapcnt ← read_int32 host
  timecnt ← read_int32 host
  typecnt ← read_int32 host
  charcnt ← read_int32 host
  times ← size_of_count length_error timecnt
  trans ← read_times host times
  indices ← read_indices times
  localtimes ← read_local_times host (pos_part typecnt)
  transitions ← lift (transitions_of localtimes trans indices)
  chars ← size_of_count out_of_bounds charcnt
  abbreviation ← read_bytes chars
  pure (record { transitions = transitions; localtimes = localtimes; abbreviation = abbreviation })

-- The file is `none` if it cannot be opened: the function returns true then.
abbrev whole : Outcome (Data × List ℕ) → Outcome (Bool × Data)
whole (done (d, left)) = done (true, d)
whole (fault e) = fault e

unfoldable pub read_time_zone_file : Host → Option (List ℕ) → Outcome (Bool × Data)
read_time_zone_file host none = done (true, no_data)
read_time_zone_file host (some s) =
    if same_bytes (take 4 s) magic then whole (read_rest host (drop 4 s)) else done (false, no_data)

-- `m_spDate` is dropped when the file is not a zone file.
abbrev kept : Outcome (Bool × Data) → Outcome Zone
kept (done (good, d)) = done (if good then some d else none)
kept (fault e) = fault e

unfoldable pub of_file : Host → Option (List ℕ) → Outcome Zone
unfolding read_time_zone_file
of_file host file = kept (read_time_zone_file host file)
