-- ===== src/Date.antt =====
-- MyNet/base/Date.cc and Date.h: dates as Julian day numbers. An `int` is its value: an overflow,
-- which C++ leaves undefined, is not modelled.
pub mod Civil
pub mod Computed
pub mod Months
pub mod Numbers
pub mod Order
pub mod Roundtrip
pub mod Equivalence
use my_net.Common.{ℕ, Bool, ◌≡◌}
use my_net.Common.Int.{ℤ, pos, ◌+ℤ◌, ◌-ℤ◌, scale, quot, rem, ltb_ℤ, eqb_ℤ}

pub record YearMonthDay : Type 0 where
  pub year : ℤ
  pub month : ℤ
  pub day : ℤ

unfoldable pub get_julian_day_num : ℤ → ℤ → ℤ → ℤ
get_julian_day_num year month day =
    let a = quot (pos 14 -ℤ month) 12 in
    let y = year +ℤ pos 4800 -ℤ a in
    let m = month +ℤ scale 12 a -ℤ pos 3 in
    day
    +ℤ quot (scale 153 m +ℤ pos 2) 5
    +ℤ scale 365 y
    +ℤ quot y 4
    -ℤ quot y 100
    +ℤ quot y 400
    -ℤ pos 32045

unfoldable pub get_year_month_day : ℤ → YearMonthDay
get_year_month_day julian_day_number =
    let a = julian_day_number +ℤ pos 32044 in
    let b = quot (scale 4 a +ℤ pos 3) 146097 in
    let c = a -ℤ quot (scale 146097 b) 4 in
    let d = quot (scale 4 c +ℤ pos 3) 1461 in
    let e = c -ℤ quot (scale 1461 d) 4 in
    let m = quot (scale 5 e +ℤ pos 2) 153 in
    record {
      year = scale 100 b +ℤ d -ℤ pos 4800 +ℤ quot m 10;
      month = m +ℤ pos 3 -ℤ scale 12 (quot m 10);
      day = e -ℤ quot (scale 153 m +ℤ pos 2) 5 +ℤ pos 1;
    }

-- `class Date`: its only state is `m_nJulianDayNum`.
pub record Date : Type 0 where
  pub julian_day_num : ℤ

-- The default constructor, and that from a day number.
abbrev pub no_date : Date
no_date = record { julian_day_num = pos 0 }

abbrev pub of_julian : ℤ → Date
of_julian n = record { julian_day_num = n }

unfoldable pub of_year_month_day : ℤ → ℤ → ℤ → Date
of_year_month_day year month day = record { julian_day_num = get_julian_day_num year month day }

-- The constructor from a `struct tm`, whose year counts from 1900 and whose month from 0.
unfoldable pub of_tm : ℤ → ℤ → ℤ → Date
of_tm tm_year tm_mon tm_mday = record {
  julian_day_num = get_julian_day_num (tm_year +ℤ pos 1900) (tm_mon +ℤ pos 1) tm_mday;
}

unfoldable pub to_year_month_day : Date → YearMonthDay
to_year_month_day t = get_year_month_day t.julian_day_num

unfoldable pub year_of : Date → ℤ
unfolding to_year_month_day
year_of t = (to_year_month_day t).year

unfoldable pub month_of : Date → ℤ
unfolding to_year_month_day
month_of t = (to_year_month_day t).month

unfoldable pub day_of : Date → ℤ
unfolding to_year_month_day
day_of t = (to_year_month_day t).day

unfoldable pub julian_day_of_1970_01_01 : ℤ
julian_day_of_1970_01_01 = get_julian_day_num (pos 1970) (pos 1) (pos 1)

unfoldable pub week_day : Date → ℤ
week_day t = rem (t.julian_day_num +ℤ pos 1) 7

unfoldable pub valid : Date → Bool
valid t = ltb_ℤ (pos 0) t.julian_day_num

-- `operator <` and `operator ==`
unfoldable pub before : Date → Date → Bool
before a b = ltb_ℤ a.julian_day_num b.julian_day_num

unfoldable pub same : Date → Date → Bool
same a b = eqb_ℤ a.julian_day_num b.julian_day_num
