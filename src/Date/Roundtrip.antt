-- ===== src/Date/Roundtrip.antt =====
-- MyNet/base/Date.cc: `getYearMonthDay` and `getJulianDayNum` are inverse to each other.
use my_net.Common.{ℕ, ◌+◌, ◌-◌, ◌*◌, ◌/◌, ◌%◌, ◌≡◌, ◌∙◌, ap, arith}
use my_net.Common.Int.{pos, sub_ℕ}
use my_net.Date.{YearMonthDay, get_julian_day_num, get_year_month_day}
use my_net.Date.Civil.{
  days_before_year, century, in_century, year_of, in_year, century-eq, in_century-eq, year_of-eq,
  in_year-eq,
}
use my_net.Date.Months.{
  IsDate, carry, shifted_month, days_before_month, day_of_year, month_back, day_of_year-Fits,
}
use my_net.Date.Computed.{month_of, get_julian_day_num-eq, get_year_month_day-eq}

fields-eq :
    (n month day b d e m num : ℕ)
    → IsDate n month day
    → b ≡ (n - carry month) / 100
    → d ≡ (n - carry month) % 100
    → e ≡ day_of_year month day
    → m ≡ shifted_month month
    → ◌≡◌ {A = YearMonthDay}
        (record {
          year = sub_ℕ (100 * b + d + m / 10) 4800;
          month = pos (m + 3 - 12 * (m / 10));
          day = pos (e - days_before_month m + 1);
        })
        (record { year = sub_ℕ n 4800; month = pos month; day = pos day })
fields-eq n month day b d e m num v p q r s =
    let year_back : 100 * b + d + m / 10 ≡ n = omega arith in
    let month_back : m + 3 - 12 * (m / 10) ≡ month = omega arith in
    let day_back : e - days_before_month m + 1 ≡ day = omega arith in
    rw (year_back, month_back, day_back)

-- Every date of the proleptic Gregorian calendar from the year -4799 on comes back from its
-- Julian day number. The year is written as n - 4800.
pub get_year_month_day-get_julian_day_num :
    (n month day : ℕ)
    → IsDate n month day
    → get_year_month_day (get_julian_day_num (sub_ℕ n 4800) (pos month) (pos day))
      ≡ record { year = sub_ℕ n 4800; month = pos month; day = pos day }
get_year_month_day-get_julian_day_num n month day v =
    let y = n - carry month in
    let e = day_of_year month day in
    let num = days_before_year y + e in
    let f = day_of_year-Fits n month day v in
    let rest_is = in_century-eq y e f in
    let day_is : in_year (in_century num) ≡ e = ap in_year rest_is ∙ in_year-eq y e f in
    ap get_year_month_day (get_julian_day_num-eq n month day v.year_in v.month_in v.day_in.0)
    ∙ get_year_month_day-eq num
    ∙ fields-eq n month day (century num) (year_of (in_century num)) (in_year (in_century num))
        (month_of (in_year (in_century num))) num v (century-eq y e f)
        (ap year_of rest_is ∙ year_of-eq y e f) day_is
        (ap month_of day_is ∙ month_back n month day v)
