-- ===== src/Date/Numbers.antt =====
-- MyNet/base/Date.cc: every day number is that of a date.
use my_net.Common.{
  ℕ, ◌+◌, ◌-◌, ◌*◌, ◌/◌, ◌%◌, ◌≤◌, ◌<◌, ◌≡◌, refl, ◌∙◌, ap, inl, inr, arith, ℕ_discrete,
}
use my_net.Common.Int.{pos, sub_ℕ}
use my_net.Date.{get_julian_day_num, get_year_month_day}
use my_net.Date.Civil.{Fits, days_before_year, century, in_century, year_of, in_year}
use my_net.Date.Months.{IsDate, carry, days_before_month, day_of_year}
use my_net.Date.Computed.{month_of, in_year-le, get_julian_day_num-eq, get_year_month_day-eq}

abbrev march_year : ℕ → ℕ
march_year num = 100 * century num + year_of (in_century num)

abbrev march_day : ℕ → ℕ
march_day num = in_year (in_century num)

in_century-lt : (n : ℕ) → 4 * in_century n + 3 < 146097 + century n % 4
in_century-lt n = omega arith

year_of-lt : (n : ℕ) → year_of (in_century n) < 100
year_of-lt n = omega (arith, in_century-lt n)

split_century : (n : ℕ) → n ≡ 146097 * century n / 4 + in_century n
split_century n = omega arith

split_year : (n : ℕ) → in_century n ≡ 1461 * year_of (in_century n) / 4 + march_day n
split_year n = omega arith

whole : (n : ℕ) → days_before_year (march_year n) + march_day n ≡ n
whole n = omega (arith, split_century n, split_year n, year_of-lt n)

march_day-Fits : (n : ℕ) → Fits (march_year n) (march_day n)
march_day-Fits n =
    let small = in_year-le n in
    let z = year_of-lt n in
    let c = in_century-lt n in
    (
      small,
      λ last. (
        omega (arith, split_year n),
        elim (ℕ_discrete (year_of (in_century n)) 99) [
          | yes e ↦ inr (omega (arith, split_year n))
          | no e ↦ inl (omega arith)
        ],
      ),
    )

-- The fields of a day number are a date, ...
fields-IsDate :
    (y e : ℕ)
    → Fits y e
    → 1 ≤ y + month_of e / 10
    → IsDate
        (y + month_of e / 10)
        (month_of e + 3 - 12 * (month_of e / 10))
        (e - days_before_month (month_of e) + 1)
fields-IsDate y e f h = ground arith

-- ... whose place in the year is the one that they were computed from.
fields_back :
    (e m month day : ℕ)
    → e ≤ 365
    → m ≡ month_of e
    → month ≡ m + 3 - 12 * (m / 10)
    → day ≡ e - days_before_month m + 1
    → (carry month ≡ m / 10) × (day_of_year month day ≡ e)
fields_back e m month day h p q r = ground arith

same_days :
    (y k c e e' n : ℕ)
    → c ≡ k
    → e' ≡ e
    → days_before_year y + e ≡ n
    → days_before_year (y + k - c) + e' ≡ n
same_days y k c e e' n p q r = let year : y + k - c ≡ y = omega arith in rw (year, q) r

-- From the number of 1 January -4799 on, each day number is that of a date of the calendar,
-- which `getYearMonthDay` returns and from which `getJulianDayNum` makes the number again. The
-- number is written as n + 1 - 32045.
pub get_julian_day_num-get_year_month_day :
    (n : ℕ)
    → 306 ≤ n
    → (y month day : ℕ) × IsDate y month day
      × (get_year_month_day (sub_ℕ (n + 1) 32045)
          ≡ record { year = sub_ℕ y 4800; month = pos month; day = pos day })
      × (get_julian_day_num (sub_ℕ y 4800) (pos month) (pos day) ≡ sub_ℕ (n + 1) 32045)
get_julian_day_num-get_year_month_day n h =
    let e = march_day n in
    let m = month_of e in
    let y = march_year n + m / 10 in
    let month = m + 3 - 12 * (m / 10) in
    let day = e - days_before_month m + 1 in
    let small = in_year-le n in
    let all = whole n in
    let v = fields-IsDate (march_year n) e (march_day-Fits n) (omega arith) in
    let back = fields_back e m month day small refl refl refl in
    let same : days_before_year (y - carry month) + day_of_year month day ≡ n =
      same_days (march_year n) (m / 10) (carry month) e (day_of_year month day) n back.0 back.1
        all in
    (
      y,
      month,
      day,
      v,
      get_year_month_day-eq n,
      get_julian_day_num-eq y month day v.year_in v.month_in v.day_in.0
          ∙ ap (λ k. sub_ℕ (k + 1) 32045) same,
    )
