-- ===== src/TimeZone/Clock.antt =====
-- MyNet/base/TimeZone.cc: the time of day of a number of seconds.
use my_net.Common.{ℕ, ◌+◌, ◌*◌, ◌<◌, ◌≡◌, arith}
use my_net.TimeZone.{Hms, fill_hms}

-- The seconds that a time of day stands for.
abbrev pub seconds_of : Hms → ℕ
seconds_of t = t.hour * 3600 + t.min * 60 + t.sec

-- The fields are in range and stand for the seconds.
pub fill_hms_lem :
    (seconds : ℕ)
    → (seconds_of (fill_hms seconds) ≡ seconds)
      × ((fill_hms seconds).sec < 60)
      × ((fill_hms seconds).min < 60)
unfolding fill_hms
fill_hms_lem seconds = (omega arith, omega arith, omega arith)
