-- ===== src/Date/Months.antt =====
-- The calendar that MyNet/base/Date.cc computes with, stated by itself: the lengths of the months.
-- A year is counted from -4800, which keeps the leap years where they are.
use my_net.Common.{
  ℕ, ◌+◌, ◌-◌, ◌*◌, ◌/◌, ◌%◌, ◌≤◌, ◌≡◌, ◌==◌, ◌&&◌, ◌||◌, not, Bool, if◌then◌else◌, arith,
}
use my_net.Date.Civil.{Fits}

abbrev pub is_leap : ℕ → Bool
is_leap n = n % 4 == 0 && (not (n % 100 == 0) || n % 400 == 0)

abbrev pub days_in_month : ℕ → ℕ → ℕ
days_in_month n month =
    if month == 2
    then (if is_leap n then 29 else 28)
    else (if month == 4 || month == 6 || month == 9 || month == 11 then 30 else 31)

-- A date of the proleptic Gregorian calendar.
pub record IsDate (n month day : ℕ) : Type 0 where
  pub year_in : 1 ≤ n
  pub month_in : (1 ≤ month) × (month ≤ 12)
  pub day_in : (1 ≤ day) × (day ≤ days_in_month n month)

-- January and February belong to the year before, which begins in March.
abbrev pub carry : ℕ → ℕ
carry month = (14 - month) / 12

abbrev pub shifted_month : ℕ → ℕ
shifted_month month = month + 12 * carry month - 3

abbrev pub days_before_month : ℕ → ℕ
days_before_month m = (153 * m + 2) / 5

abbrev pub day_of_year : ℕ → ℕ → ℕ
day_of_year month day = days_before_month (shifted_month month) + day - 1

pub month_back :
    (n month day : ℕ)
    → IsDate n month day
    → (5 * day_of_year month day + 2) / 153 ≡ shifted_month month
month_back n month day v = ground arith

pub day_of_year-Fits :
    (n month day : ℕ) → IsDate n month day → Fits (n - carry month) (day_of_year month day)
day_of_year-Fits n month day v = ground arith
