-- ===== src/TimeZone/Reads.antt =====
-- MyNet/base/TimeZone.cc: each piece of a zone file is read back, on every host.
use my_net.Common.{
  ℕ, zero, suc, ◌==◌, ◌≡◌, refl, if◌then◌else◌, Bool, true, false, not, List, [], ◌∷◌, ◌++◌, length,
  take_front, drop_front, append-nil, arith,
}
use my_net.Common.Int.{ℤ}
use my_net.Common.Word.{IsInt32, of_int32, to_int32-of_int32}
use my_net.Common.Outcome.{done}
use my_net.Endian.{Host}
use my_net.Endian.Wire.{length-wire, network_to_host-from_memory}
use my_net.TimeZone.{LocalTime}
use my_net.TimeZone.File.{
  read_bytes, read_int32, read_uint8, read_times, read_indices, read_local_time, read_local_times,
}
use my_net.TimeZone.Format.{int_bytes, time_bytes, local_time_bytes, AreInt32, OffsetsFit}

pub read_bytes_lem : (n : ℕ) (xs s : List ℕ) → length xs ≡ n → read_bytes n (xs ++ s) ≡ done (xs, s)
unfolding read_bytes
read_bytes_lem n xs s e = rw (take_front n xs s e, drop_front n xs s e)

flag_back : (b : Bool) → not ((if b then 1 else 0) == 0) ≡ b
flag_back true = refl
flag_back false = refl

module _ (h : Host) where
  pub read_int32_lem :
      (v : ℤ) (s : List ℕ) → IsInt32 v → read_int32 h (int_bytes v ++ s) ≡ done (v, s)
  unfolding read_int32
  read_int32_lem v s f =
      let size = length-wire 4 (of_int32 v) in
      let (back, small) = to_int32-of_int32 v f in
      rw (
        take_front 4 (int_bytes v) s size,
        drop_front 4 (int_bytes v) s size,
        size,
        append-nil (int_bytes v),
        network_to_host-from_memory h 4 (of_int32 v) small,
        back,
      )

  pub read_times_lem :
      (xs : List ℤ) (s : List ℕ)
      → AreInt32 xs
      → read_times h (length xs) (time_bytes xs s) ≡ done (xs, s)
  unfolding read_times
  read_times_lem [] s f = refl
  read_times_lem (x ∷ xs) s f = rw (read_int32_lem x (time_bytes xs s) f.0, read_times_lem xs s f.1)

  pub read_indices_lem :
      (n : ℕ) (xs s : List ℕ) → length xs ≡ n → read_indices n (xs ++ s) ≡ done (xs, s)
  unfolding read_indices read_uint8
  read_indices_lem zero [] s e = refl
  read_indices_lem zero (x ∷ xs) s e = absurd (omega arith)
  read_indices_lem (suc n) [] s e = absurd (omega arith)
  read_indices_lem (suc n) (x ∷ xs) s e = rw (read_indices_lem n xs s (omega arith))

  pub read_local_time_lem :
      (l : LocalTime) (s : List ℕ)
      → IsInt32 l.gmt_offset
      → read_local_time h
          (int_bytes l.gmt_offset ++ ((if l.is_dest then 1 else 0) ∷ l.arrb_inx ∷ s))
        ≡ done (l, s)
  unfolding read_local_time read_uint8
  read_local_time_lem l s f = rw (
    read_int32_lem l.gmt_offset ((if l.is_dest then 1 else 0) ∷ l.arrb_inx ∷ s) f,
    flag_back l.is_dest,
  )

  pub read_local_times_lem :
      (ls : List LocalTime) (s : List ℕ)
      → OffsetsFit ls
      → read_local_times h (length ls) (local_time_bytes ls s) ≡ done (ls, s)
  unfolding read_local_times
  read_local_times_lem [] s f = refl
  read_local_times_lem (l ∷ ls) s f =
      rw (read_local_time_lem l (local_time_bytes ls s) f.0, read_local_times_lem ls s f.1)
