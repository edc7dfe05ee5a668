-- ===== src/Tests/Zones.antt =====
-- Examples for MyNet/base/TimeZone.cc.
use my_net.Common.{ℕ, ◌≡◌, refl, arith, true, false, some, [], ◌∷◌}
use my_net.Common.Int.{ℤ, pos, negsuc}
use my_net.Common.Outcome.{done}
use my_net.Endian.{little}
use my_net.TimeZone.{Transition, LocalTime, Data, find_local_time}
use my_net.TimeZone.Lookup.{in_force, find_local_time-in_force}
use my_net.TimeZone.File.{of_file}
use my_net.TimeZone.Format.{Contents, IsContents, encode}
use my_net.TimeZone.Roundtrip.{IsDecoded, of_file-encode, find_local_time-of_file}

abbrev winter : LocalTime
winter = record { gmt_offset = pos 3600; is_dest = false; arrb_inx = 0 }

abbrev summer : LocalTime
summer = record { gmt_offset = pos 7200; is_dest = true; arrb_inx = 4 }

abbrev at : ℤ → ℤ → ℕ → Transition
at gmt local i = record { gmtime = gmt; localtime = local; localtime_idx = i }

-- Two changes: to summer time at 1000, back at 9000.
abbrev two_changes : Data
two_changes = record {
  transitions = at (pos 1000) (pos 8200) 1 ∷ at (pos 9000) (pos 12600) 0 ∷ [];
  localtimes = winter ∷ summer ∷ [];
  abbreviation = [];
}

summer_time : find_local_time two_changes (at (pos 8999) (pos 0) 0) true ≡ done summer
unfolding find_local_time
summer_time = refl

before_all : find_local_time two_changes (at (negsuc 5) (pos 0) 0) true ≡ done winter
unfolding find_local_time
before_all = refl

find_local_time-in_force_example :
    find_local_time two_changes (at (pos 1000) (pos 0) 0) true
    ≡ in_force true (at (pos 1000) (pos 0) 0) two_changes
find_local_time-in_force_example =
    find_local_time-in_force true (at (pos 1000) (pos 0) 0) two_changes (refl, tt)

abbrev zone_file : Contents
zone_file = record {
  version = b'2';
  reserved = 0 ∷ 0 ∷ 0 ∷ 0 ∷ 0 ∷ 0 ∷ 0 ∷ 0 ∷ 0 ∷ 0 ∷ 0 ∷ 0 ∷ 0 ∷ 0 ∷ 0 ∷ [];
  isgmtcnt = pos 2;
  isstdcnt = pos 2;
  leapcnt = pos 0;
  times = negsuc 999 ∷ pos 9000 ∷ [];
  indices = 1 ∷ 0 ∷ [];
  localtimes = winter ∷ summer ∷ [];
  abbreviation = b'C' ∷ b'E' ∷ b'T' ∷ 0 ∷ [];
}

zone_file-IsContents : IsContents zone_file
zone_file-IsContents = record {
  fifteen = refl;
  gmt_fits = omega arith;
  std_fits = omega arith;
  leap_fits = omega arith;
  times_fit = (omega arith, (omega arith, tt));
  offsets_fit = (omega arith, (omega arith, tt));
  times_count = omega arith;
  types_count = omega arith;
  chars_count = omega arith;
  paired = refl;
  in_range = (omega arith, (omega arith, tt));
}

of_file-encode_example :
    (d : Data) × (of_file little (some (encode zone_file [])) ≡ done (some d))
    × IsDecoded zone_file d
of_file-encode_example = of_file-encode little zone_file [] zone_file-IsContents

find_local_time-of_file_example :
    (d : Data) × (of_file little (some (encode zone_file [])) ≡ done (some d))
    × ((l : LocalTime) × (find_local_time d (at (pos 0) (pos 0) 0) true ≡ done l)
        × (in_force true (at (pos 0) (pos 0) 0) d ≡ done l))
find_local_time-of_file_example =
    find_local_time-of_file little zone_file [] (at (pos 0) (pos 0) 0) zone_file-IsContents
      (omega arith) (refl, tt)
