-- ===== src/Date/Equivalence.antt =====
-- MyNet/base/Date.cc: the dates of the calendar and the numbers of days are the same.
use mathlib.Core.Equiv.{IsEquiv, iso_to_equiv}
use mathlib.Core.HLevel.{Σ_prop_path, hedberg}
use mathlib.Core.Logic.{∥∥₁_elim, ∥∥₁_map, ∥∥₁_prop}
use my_net.Common.{ℕ, ◌+◌, ◌-◌, ◌≤◌, ◌≡◌, sym, ap, ◌∙◌, arith, ℕ_discrete}
use my_net.Common.Int.{ℤ, pos, sub_ℕ}
use my_net.Date.{YearMonthDay, get_julian_day_num, get_year_month_day}
use my_net.Date.Civil.{days_before_year}
use my_net.Date.Months.{IsDate, carry, day_of_year}
use my_net.Date.Computed.{get_julian_day_num-eq}
use my_net.Date.Roundtrip.{get_year_month_day-get_julian_day_num}
use my_net.Date.Numbers.{get_julian_day_num-get_year_month_day}

-- A date of the proleptic Gregorian calendar from the year -4799 on, and the number of a day from
-- 1 January of that year on.
abbrev pub InCalendar : YearMonthDay → Type 0
InCalendar d = ∥ (
    (n : ℕ) × (month : ℕ) × (day : ℕ) × IsDate n month day
    × (d ≡ record { year = sub_ℕ n 4800; month = pos month; day = pos day })) ∥₁

abbrev pub IsDayNumber : ℤ → Type 0
IsDayNumber j = ∥ ((n : ℕ) × (306 ≤ n) × (j ≡ sub_ℕ (n + 1) 32045)) ∥₁

abbrev pub CivilDate : Type 0
CivilDate = (d : YearMonthDay) × InCalendar d

abbrev pub DayNumber : Type 0
DayNumber = (j : ℤ) × IsDayNumber j

ℤ-Discrete : Discrete ℤ
ℤ-Discrete = hlevel ℕ_discrete

YearMonthDay-Discrete : Discrete YearMonthDay
YearMonthDay-Discrete = hlevel ℤ-Discrete

-- `getJulianDayNum` of the fields
abbrev pub number_of : YearMonthDay → ℤ
number_of d = get_julian_day_num d.year d.month d.day

-- No date of the calendar is before 1 January of its first year.
days-from_first :
    (n month day : ℕ)
    → IsDate n month day
    → 306 ≤ days_before_year (n - carry month) + day_of_year month day
days-from_first n month day v =
    let y = v.year_in in let m = v.month_in in let d = v.day_in.0 in ground arith

pub number_of-IsDayNumber : (d : YearMonthDay) → InCalendar d → IsDayNumber (number_of d)
number_of-IsDayNumber d h = ∥∥₁_map h (λ (n, month, day, v, e). (
  days_before_year (n - carry month) + day_of_year month day,
  days-from_first n month day v,
  ap number_of e ∙ get_julian_day_num-eq n month day v.year_in v.month_in v.day_in.0,
))

get_year_month_day-InCalendar : (j : ℤ) → IsDayNumber j → InCalendar (get_year_month_day j)
get_year_month_day-InCalendar j h = ∥∥₁_map h (λ (n, k, e).
    (let (y, month, day, v, date, number) = get_julian_day_num-get_year_month_day n k in
      (y, month, day, v, ap get_year_month_day e ∙ date)))

number_of-back : (j : ℤ) → IsDayNumber j → number_of (get_year_month_day j) ≡ j
number_of-back j h = ∥∥₁_elim h (hedberg ℤ-Discrete _ _) (λ (n, k, e).
    (let (y, month, day, v, date, number) = get_julian_day_num-get_year_month_day n k in
      ap (λ i. number_of (get_year_month_day i)) e ∙ ap number_of date ∙ number ∙ sym e))

date-back : (d : YearMonthDay) → InCalendar d → get_year_month_day (number_of d) ≡ d
date-back d h = ∥∥₁_elim h (hedberg YearMonthDay-Discrete _ _) (λ (n, month, day, v, e).
    ap (λ c. get_year_month_day (number_of c)) e
    ∙ get_year_month_day-get_julian_day_num n month day v
    ∙ sym e)

abbrev pub to_day_number : CivilDate → DayNumber
to_day_number (d, h) = (number_of d, number_of-IsDayNumber d h)

-- `getJulianDayNum` of the fields is an equivalence of types between the dates of the proleptic
-- Gregorian calendar from the year -4799 on and the day numbers from that of 1 January -4799 on.
pub to_day_number-IsEquiv : IsEquiv to_day_number
to_day_number-IsEquiv =
    (iso_to_equiv (record {
      fun = to_day_number;
      inv = λ (j, h). (get_year_month_day j, get_year_month_day-InCalendar j h);
      rinv = λ (j, h). Σ_prop_path (λ i. ∥∥₁_prop) (number_of-back j h);
      linv = λ (d, h). Σ_prop_path (λ c. ∥∥₁_prop) (date-back d h);
    })).1
