-- ===== src/Timestamp.antt =====
-- MyNet/base/Timestamp.h and .cc: a time as microseconds since 1970. What `snprintf` makes of
-- a number and of a second's date is an argument; the difference as a `double` has no model.
pub mod Order
use my_net.Common.{ℕ, ◌*◌, Bool, List, [], ◌∷◌, ◌++◌, take}
use my_net.Common.Int.{ℤ, pos, ◌+ℤ◌, scale, quot, rem, ltb_ℤ, eqb_ℤ}

pub record Timestamp : Type 0 where
  pub micro_secs_since_epoch : ℤ

abbrev pub micro_secs_per_second : ℕ
micro_secs_per_second = 1000 * 1000

abbrev pub invalid : Timestamp
invalid = record { micro_secs_since_epoch = pos 0 }

-- `gettimeofday` gives the seconds and the microseconds.
unfoldable pub now : ℤ → ℤ → Timestamp
now tv_sec tv_usec = record {
  micro_secs_since_epoch = scale micro_secs_per_second tv_sec +ℤ tv_usec;
}

abbrev pub swap : Timestamp × Timestamp → Timestamp × Timestamp
swap (a, b) = (b, a)

unfoldable pub valid : Timestamp → Bool
valid t = ltb_ℤ (pos 0) t.micro_secs_since_epoch

unfoldable pub secs_since_epoch : Timestamp → ℤ
secs_since_epoch t = quot t.micro_secs_since_epoch micro_secs_per_second

-- What `formatTime` of the logger takes besides the seconds.
unfoldable pub microseconds : Timestamp → ℤ
microseconds t = rem t.micro_secs_since_epoch micro_secs_per_second

unfoldable pub less : Timestamp → Timestamp → Bool
less a b = ltb_ℤ a.micro_secs_since_epoch b.micro_secs_since_epoch

unfoldable pub equal : Timestamp → Timestamp → Bool
equal a b = eqb_ℤ a.micro_secs_since_epoch b.micro_secs_since_epoch

-- The constructor from a value
abbrev pub of_value : ℤ → Timestamp
of_value value = record { micro_secs_since_epoch = value }

-- `show` is "%d" and `six` "%06d"; the first buffer is given one character less.
unfoldable pub to_string : (ℤ → List ℕ) → (ℤ → List ℕ) → Timestamp → List ℕ
unfolding secs_since_epoch microseconds
to_string show six t = take 30 (show (secs_since_epoch t) ++ (b'.' ∷ six (microseconds t)))

-- `date` is "%4d%02d%02d %02d:%02d:%02d" of a second in Greenwich.
unfoldable pub to_formated_string : (ℤ → List ℕ) → (ℤ → List ℕ) → Timestamp → List ℕ
unfolding secs_since_epoch microseconds
to_formated_string date six t = take 31 (date (secs_since_epoch t) ++ (b'.' ∷ six (microseconds t)))
