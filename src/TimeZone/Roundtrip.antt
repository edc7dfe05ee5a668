-- ===== src/TimeZone/Roundtrip.antt =====
-- MyNet/base/TimeZone.cc: a zone file is read back, on every host, and serves the lookups.
use my_net.Common.{
  ◌∙◌, subst, sym, ℕ, ◌<◌, ◌≡◌, refl, ap, true, some, List, [], ◌∷◌, ◌++◌, map, length, drop, arith,
}
use my_net.Common.Int.{ltb_ℤ, ℤ, pos, ◌+ℤ◌}
use my_net.Common.Outcome.{done}
use my_net.Endian.{Host}
use my_net.TimeZone.{Transition, LocalTime, Data, item, transitions_of, find_local_time}
use my_net.TimeZone.Lookup.{
  IsSorted, in_force, find_local_time-done, find_local_time-in_force, IndicesBelow, IsComplete,
  item-done,
}
use my_net.TimeZone.File.{size_of_count, read_rest, read_time_zone_file, of_file}
use my_net.TimeZone.Format.{
  Contents, int_bytes, time_bytes, local_time_bytes, encode, AllBelow, IsContents,
}
use my_net.TimeZone.Reads.{
  read_bytes_lem, read_int32_lem, read_times_lem, read_indices_lem, read_local_times_lem,
}

-- The transitions of times and indices: each local time is the time moved by the offset of its kind.
abbrev pub AreShifted : List LocalTime → List Transition → Type 0
AreShifted ls [] = Unit {0}
AreShifted ls (t ∷ ts) =
    ((l : LocalTime) × (item ls t.localtime_idx ≡ done l)
      × (t.localtime ≡ t.gmtime +ℤ l.gmt_offset))
    × AreShifted ls ts

pub record AreTransitions (ls : List LocalTime) (times : List ℤ) (indices : List ℕ)
    (ts : List Transition) : Type 0 where
  pub same_times : map (λ (t : Transition). t.gmtime) ts ≡ times
  pub same_indices : map (λ (t : Transition). t.localtime_idx) ts ≡ indices
  pub shifted : AreShifted ls ts
  pub below : IndicesBelow (length ls) ts

transitions_of-AreTransitions :
    (ls : List LocalTime) (times : List ℤ) (indices : List ℕ)
    → length indices ≡ length times
    → AllBelow (length ls) indices
    → (ts : List Transition) × (transitions_of ls times indices ≡ done ts)
      × AreTransitions ls times indices ts
unfolding transitions_of
transitions_of-AreTransitions ls [] [] e b =
    ([], refl, record { same_times = refl; same_indices = refl; shifted = tt; below = tt })
transitions_of-AreTransitions ls [] (i ∷ is) e b = absurd (omega arith)
transitions_of-AreTransitions ls (t ∷ times) [] e b = absurd (omega arith)
transitions_of-AreTransitions ls (t ∷ times) (i ∷ is) e b =
    let (l, f) = item-done ls i b.0 in
    let (ts, g, r) = transitions_of-AreTransitions ls times is (omega arith) b.1 in
    (
      record { gmtime = t; localtime = t +ℤ l.gmt_offset; localtime_idx = i } ∷ ts,
      rw (f, g),
      record {
        same_times = ap (λ (xs : List ℤ). t ∷ xs) r.same_times;
        same_indices = ap (λ (xs : List ℕ). i ∷ xs) r.same_indices;
        shifted = ((l, f, refl), r.shifted);
        below = (b.0, r.below);
      },
    )

-- What was read, of the contents of a file.
pub record IsDecoded (c : Contents) (d : Data) : Type 0 where
  pub same_localtimes : d.localtimes ≡ c.localtimes
  pub same_abbreviation : d.abbreviation ≡ c.abbreviation
  pub transitions_read : AreTransitions c.localtimes c.times c.indices d.transitions

read_rest_lem :
    (h : Host) (c : Contents) (rest : List ℕ)
    → IsContents c
    → (d : Data) × (read_rest h (drop 4 (encode c rest)) ≡ done (d, rest)) × IsDecoded c d
unfolding read_rest size_of_count
read_rest_lem h c rest w =
    let n = length c.times in
    let s4 = c.abbreviation ++ rest in
    let s3 = local_time_bytes c.localtimes s4 in
    let s2 = c.indices ++ s3 in
    let s1 = time_bytes c.times s2 in
    let r6 = int_bytes (pos (length c.abbreviation)) ++ s1 in
    let r5 = int_bytes (pos (length c.localtimes)) ++ r6 in
    let r4 = int_bytes (pos n) ++ r5 in
    let r3 = int_bytes c.leapcnt ++ r4 in
    let r2 = int_bytes c.isstdcnt ++ r3 in
    let r1 = int_bytes c.isgmtcnt ++ r2 in
    let (ts, f, r) =
      transitions_of-AreTransitions c.localtimes c.times c.indices w.paired w.in_range in
    (
      record { transitions = ts; localtimes = c.localtimes; abbreviation = c.abbreviation },
      rw (
        read_bytes_lem 1 (c.version ∷ []) (c.reserved ++ r1) refl,
        read_bytes_lem 15 c.reserved r1 w.fifteen,
        read_int32_lem h c.isgmtcnt r2 w.gmt_fits,
        read_int32_lem h c.isstdcnt r3 w.std_fits,
        read_int32_lem h c.leapcnt r4 w.leap_fits,
        read_int32_lem h (pos n) r5 w.times_count,
        read_int32_lem h (pos (length c.localtimes)) r6 w.types_count,
        read_int32_lem h (pos (length c.abbreviation)) s1 w.chars_count,
        read_times_lem h c.times s2 w.times_fit,
        read_indices_lem h n c.indices s3 w.paired,
        read_local_times_lem h c.localtimes s4 w.offsets_fit,
        f,
        read_bytes_lem (length c.abbreviation) c.abbreviation rest refl,
      ),
      record { same_localtimes = refl; same_abbreviation = refl; transitions_read = r },
    )

-- On every host, the bytes that encode the contents of a zone file, whose numbers fit into 32
-- bits, whose counts are below 2 ^ 31, and whose indices are as many as its times and are those
-- of its local times, are read back as a valid zone: its local times and abbreviation are those
-- of the contents, its transitions have their times and indices, and each one's local time is
-- its time moved by the offset of its local time.
pub of_file-encode :
    (h : Host) (c : Contents) (rest : List ℕ)
    → IsContents c
    → (d : Data) × (of_file h (some (encode c rest)) ≡ done (some d)) × IsDecoded c d
unfolding of_file read_time_zone_file
of_file-encode h c rest w = let (d, e, r) = read_rest_lem h c rest w in (d, rw e, r)

-- A zone read from a file that says it has a local time is complete.
IsDecoded-IsComplete :
    (c : Contents) (d : Data) → IsDecoded c d → 0 < length c.localtimes → IsComplete d
IsDecoded-IsComplete c d r h =
    (rw r.same_localtimes h, rw r.same_localtimes r.transitions_read.below)

-- Times one after the other.
abbrev pub AreAscending : List ℤ → Type 0
AreAscending [] = Unit {0}
AreAscending (t ∷ []) = Unit {0}
AreAscending (t ∷ u ∷ ts) = (ltb_ℤ t u ≡ true) × AreAscending (u ∷ ts)

AreAscending-IsSorted :
    (ts : List Transition) → AreAscending (map (λ (t : Transition). t.gmtime) ts) → IsSorted true ts
AreAscending-IsSorted [] h = tt
AreAscending-IsSorted (t ∷ []) h = tt
AreAscending-IsSorted (t ∷ u ∷ ts) h = (h.0, AreAscending-IsSorted (u ∷ ts) h.1)

-- On every host, for the contents of a zone file as `of_file-encode` has them, with at least one
-- local time and times in ascending order, the zone read from their bytes answers every lookup
-- of a time in Greenwich with the local time in force, without a step that C++ leaves undefined.
pub find_local_time-of_file :
    (h : Host) (c : Contents) (rest : List ℕ) (sentry : Transition)
    → IsContents c
    → 0 < length c.localtimes
    → AreAscending c.times
    → (d : Data) × (of_file h (some (encode c rest)) ≡ done (some d))
      × ((l : LocalTime) × (find_local_time d sentry true ≡ done l)
          × (in_force true sentry d ≡ done l))
find_local_time-of_file h c rest sentry w n a =
    let (d, e, r) = of_file-encode h c rest w in
    let sorted =
      AreAscending-IsSorted d.transitions
        (subst AreAscending (sym r.transitions_read.same_times) a) in
    let (l, f) = find_local_time-done true sentry d sorted (IsDecoded-IsComplete c d r n) in
    (d, e, (l, f, sym (find_local_time-in_force true sentry d sorted) ∙ f))
