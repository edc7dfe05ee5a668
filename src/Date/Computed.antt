-- ===== src/Date/Computed.antt =====
-- MyNet/base/Date.cc: the two conversions, step by step, as computations on natural numbers.
use my_net.Common.{ℕ, ◌+◌, ◌-◌, ◌*◌, ◌/◌, ◌≤◌, ◌≡◌, arith}
use my_net.Common.Int.{pos, ◌+ℤ◌, ◌-ℤ◌, scale, quot, sub_ℕ, +ℤ_pos, -ℤ_pos, scale_pos, quot_pos}
use my_net.Date.{YearMonthDay, get_julian_day_num, get_year_month_day}
use my_net.Date.Civil.{days_before_year, century, in_century, year_of, in_year}
use my_net.Date.Months.{carry, shifted_month, days_before_month, day_of_year}

year_shift : (n a : ℕ) → a ≤ n → sub_ℕ n 4800 +ℤ pos 4800 -ℤ pos a ≡ pos (n - a)
unfolding ◌+ℤ◌ ◌-ℤ◌
year_shift n a h = ground arith

-- The parts of the sum, and the sum.
days_sum :
    (day k y : ℕ)
    → 1 ≤ day
    → pos day
        +ℤ pos k
        +ℤ pos (365 * y)
        +ℤ pos (y / 4)
        -ℤ pos (y / 100)
        +ℤ pos (y / 400)
        -ℤ pos 32045
      ≡ sub_ℕ (days_before_year y + (k + day - 1) + 1) 32045
unfolding ◌+ℤ◌ ◌-ℤ◌
days_sum day k y h = ground arith

pub get_julian_day_num-eq :
    (n month day : ℕ)
    → 1 ≤ n
    → (1 ≤ month) × (month ≤ 12)
    → 1 ≤ day
    → get_julian_day_num (sub_ℕ n 4800) (pos month) (pos day)
      ≡ sub_ℕ (days_before_year (n - carry month) + day_of_year month day + 1) 32045
unfolding get_julian_day_num
get_julian_day_num-eq n month day hn hm hd =
    rw
      (
        -ℤ_pos 14 month (omega arith),
        quot_pos (14 - month) 12 (omega arith),
        year_shift n (carry month) (omega arith),
        scale_pos 12 (carry month),
        +ℤ_pos month (12 * carry month),
        -ℤ_pos (month + 12 * carry month) 3 (omega arith),
        scale_pos 153 (shifted_month month),
        +ℤ_pos (153 * shifted_month month) 2,
        quot_pos (153 * shifted_month month + 2) 5 (omega arith),
        scale_pos 365 (n - carry month),
        quot_pos (n - carry month) 4 (omega arith),
        quot_pos (n - carry month) 100 (omega arith),
        quot_pos (n - carry month) 400 (omega arith),
      )
      (days_sum day (days_before_month (shifted_month month)) (n - carry month) hd)

day_number : (n : ℕ) → sub_ℕ (n + 1) 32045 +ℤ pos 32044 ≡ pos n
unfolding ◌+ℤ◌
day_number n = ground arith

year_back : (y c : ℕ) → pos y -ℤ pos 4800 +ℤ pos c ≡ sub_ℕ (y + c) 4800
unfolding ◌+ℤ◌ ◌-ℤ◌
year_back y c = ground arith

abbrev pub month_of : ℕ → ℕ
month_of e = (5 * e + 2) / 153

-- The day of the year is never more than 365.
pub in_year-le : (n : ℕ) → in_year (in_century n) ≤ 365
in_year-le n = omega arith

month_steps :
    (y e : ℕ)
    → e ≤ 365
    → let m = quot (scale 5 (pos e) +ℤ pos 2) 153 in
      ◌≡◌ {A = YearMonthDay}
        (record {
          year = pos y -ℤ pos 4800 +ℤ quot m 10;
          month = m +ℤ pos 3 -ℤ scale 12 (quot m 10);
          day = pos e -ℤ quot (scale 153 m +ℤ pos 2) 5 +ℤ pos 1;
        })
        (record {
          year = sub_ℕ (y + month_of e / 10) 4800;
          month = pos (month_of e + 3 - 12 * (month_of e / 10));
          day = pos (e - days_before_month (month_of e) + 1);
        })
month_steps y e h = rw (
  scale_pos 5 e,
  +ℤ_pos (5 * e) 2,
  quot_pos (5 * e + 2) 153 (omega arith),
  scale_pos 153 (month_of e),
  +ℤ_pos (153 * month_of e) 2,
  quot_pos (153 * month_of e + 2) 5 (omega arith),
  -ℤ_pos e (days_before_month (month_of e)) (omega arith),
  +ℤ_pos (e - days_before_month (month_of e)) 1,
  quot_pos (month_of e) 10 (omega arith),
  scale_pos 12 (month_of e / 10),
  +ℤ_pos (month_of e) 3,
  -ℤ_pos (month_of e + 3) (12 * (month_of e / 10)) (omega arith),
  year_back y (month_of e / 10),
)

pub get_year_month_day-eq :
    (n : ℕ)
    → let b = century n in
      let d = year_of (in_century n) in
      let e = in_year (in_century n) in
      get_year_month_day (sub_ℕ (n + 1) 32045) ≡ record {
        year = sub_ℕ (100 * b + d + month_of e / 10) 4800;
        month = pos (month_of e + 3 - 12 * (month_of e / 10));
        day = pos (e - days_before_month (month_of e) + 1);
      }
unfolding get_year_month_day
get_year_month_day-eq n =
    rw
      (
        day_number n,
        scale_pos 4 n,
        +ℤ_pos (4 * n) 3,
        quot_pos (4 * n + 3) 146097 (omega arith),
        scale_pos 146097 (century n),
        quot_pos (146097 * century n) 4 (omega arith),
        -ℤ_pos n (146097 * century n / 4) (omega arith),
        scale_pos 4 (in_century n),
        +ℤ_pos (4 * in_century n) 3,
        quot_pos (4 * in_century n + 3) 1461 (omega arith),
        scale_pos 1461 (year_of (in_century n)),
        quot_pos (1461 * year_of (in_century n)) 4 (omega arith),
        -ℤ_pos (in_century n) (1461 * year_of (in_century n) / 4) (omega arith),
        scale_pos 100 (century n),
        +ℤ_pos (100 * century n) (year_of (in_century n)),
      )
      (month_steps (100 * century n + year_of (in_century n)) (in_year (in_century n))
        (in_year-le n))
