-- ===== src/Date/Civil.antt =====
-- MyNet/base/Date.cc: the computations of the two conversions once all values are natural: years
-- counted from March, in centuries and cycles of four.
use my_net.Common.{ℕ, ◌+◌, ◌-◌, ◌*◌, ◌/◌, ◌%◌, ◌≤◌, ◌<◌, ◌≡◌, ◌≢◌, ◌⊎◌, arith}

-- The days before the year `y` that begins in March.
abbrev pub days_before_year : ℕ → ℕ
days_before_year y = 365 * y + y / 4 - y / 100 + y / 400

abbrev pub century : ℕ → ℕ
century n = (4 * n + 3) / 146097

abbrev pub in_century : ℕ → ℕ
in_century n = n - 146097 * century n / 4

abbrev pub year_of : ℕ → ℕ
year_of n = (4 * n + 3) / 1461

abbrev pub in_year : ℕ → ℕ
in_year n = n - 1461 * year_of n / 4

-- Only a year that ends in a leap day has a day 365.
abbrev pub Fits : ℕ → ℕ → Type 0
Fits y day = (day ≤ 365) × ((day ≡ 365) → (y % 4 ≡ 3) × ((y % 100 ≢ 99) ⊎ (y % 400 ≡ 399)))

abbrev pub rest : ℕ → ℕ → ℕ
rest y day = 365 * (y % 100) + y % 100 / 4 + day

rest-lt : (y day : ℕ) → Fits y day → 4 * rest y day + 3 < 146097 + y / 100 % 4
rest-lt y day f = ground arith

pub century-eq : (y day : ℕ) → Fits y day → century (days_before_year y + day) ≡ y / 100
century-eq y day f = omega (arith, rest-lt y day f)

pub in_century-eq : (y day : ℕ) → Fits y day → in_century (days_before_year y + day) ≡ rest y day
in_century-eq y day f = omega (arith, century-eq y day f)

pub year_of-eq : (y day : ℕ) → Fits y day → year_of (rest y day) ≡ y % 100
year_of-eq y day f = ground arith

pub in_year-eq : (y day : ℕ) → Fits y day → in_year (rest y day) ≡ day
in_year-eq y day f = omega (arith, year_of-eq y day f)
