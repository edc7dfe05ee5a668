-- ===== src/TimeZone/Format.antt =====
-- MyNet/base/TimeZone.cc: the bytes of a zone file, in the format of tzfile(5).
use my_net.Common.{ℕ, ◌<◌, ◌^◌, ◌≡◌, if◌then◌else◌, List, [], ◌∷◌, ◌++◌, length}
use my_net.Common.Int.{ℤ, pos}
use my_net.Common.Word.{IsInt32, of_int32}
use my_net.Endian.Wire.{wire}
use my_net.TimeZone.{LocalTime}
use my_net.TimeZone.File.{magic}

-- What a file says, and its bytes, in front of any others.
pub record Contents : Type 0 where
  pub version : ℕ
  pub reserved : List ℕ
  pub isgmtcnt : ℤ
  pub isstdcnt : ℤ
  pub leapcnt : ℤ
  pub times : List ℤ
  pub indices : List ℕ
  pub localtimes : List LocalTime
  pub abbreviation : List ℕ

abbrev pub int_bytes : ℤ → List ℕ
int_bytes v = wire 4 (of_int32 v)

abbrev pub time_bytes : List ℤ → List ℕ → List ℕ
time_bytes [] rest = rest
time_bytes (t ∷ ts) rest = int_bytes t ++ time_bytes ts rest

abbrev pub local_time_bytes : List LocalTime → List ℕ → List ℕ
local_time_bytes [] rest = rest
local_time_bytes (l ∷ ls) rest =
    int_bytes l.gmt_offset ++ ((if l.is_dest then 1 else 0) ∷ l.arrb_inx ∷ local_time_bytes ls rest)

abbrev pub encode : Contents → List ℕ → List ℕ
encode c rest =
    magic
    ++ (c.version
        ∷ (c.reserved
            ++ (int_bytes c.isgmtcnt
                ++ (int_bytes c.isstdcnt
                    ++ (int_bytes c.leapcnt
                        ++ (int_bytes (pos (length c.times))
                            ++ (int_bytes (pos (length c.localtimes))
                                ++ (int_bytes (pos (length c.abbreviation))
                                    ++ time_bytes c.times (
                                        c.indices
                                        ++ local_time_bytes c.localtimes
                                            (c.abbreviation ++ rest))))))))))

-- The numbers fit into 32 bits, there is an index for each time, and the indices are those of local
-- times.
abbrev pub AreInt32 : List ℤ → Type 0
AreInt32 [] = Unit {0}
AreInt32 (t ∷ ts) = IsInt32 t × AreInt32 ts

abbrev pub OffsetsFit : List LocalTime → Type 0
OffsetsFit [] = Unit {0}
OffsetsFit (l ∷ ls) = IsInt32 l.gmt_offset × OffsetsFit ls

abbrev pub AllBelow : ℕ → List ℕ → Type 0
AllBelow n [] = Unit {0}
AllBelow n (i ∷ is) = (i < n) × AllBelow n is

pub record IsContents (c : Contents) : Type 0 where
  pub fifteen : length c.reserved ≡ 15
  pub gmt_fits : IsInt32 c.isgmtcnt
  pub std_fits : IsInt32 c.isstdcnt
  pub leap_fits : IsInt32 c.leapcnt
  pub times_fit : AreInt32 c.times
  pub offsets_fit : OffsetsFit c.localtimes
  pub times_count : length c.times < 2 ^ 31
  pub types_count : length c.localtimes < 2 ^ 31
  pub chars_count : length c.abbreviation < 2 ^ 31
  pub paired : length c.indices ≡ length c.times
  pub in_range : AllBelow (length c.localtimes) c.indices
