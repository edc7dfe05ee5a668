-- ===== src/Date/Order.antt =====
-- MyNet/base/Date.h: the order and the equality of dates are those of the calendar.
use my_net.Common.{
  ℕ, ◌+◌, ◌-◌, ◌≤◌, ◌<◌, ◌≡◌, ◌↔◌, ◌⊎◌, inl, inr, subst, sym, ltb, ◌==◌, true, arith,
}
use my_net.Common.Int.{pos, sub_ℕ, ltb_ℤ, eqb_ℤ}
use my_net.Date.{of_year_month_day, before, same}
use my_net.Date.Civil.{days_before_year}
use my_net.Date.Months.{IsDate, carry, day_of_year}
use my_net.Date.Computed.{get_julian_day_num-eq}

-- The day number of a date, counted from 1 March -4800.
abbrev days : ℕ → ℕ → ℕ → ℕ
days n month day = days_before_year (n - carry month) + day_of_year month day

abbrev pub Earlier : ℕ → ℕ → ℕ → ℕ → ℕ → ℕ → Type 0
Earlier n month day n' month' day' =
    (n < n') ⊎ ((n ≡ n') × ((month < month') ⊎ ((month ≡ month') × (day < day'))))

new_year :
    (n month day : ℕ)
    → IsDate n month day
    → (days n 1 1 ≤ days n month day) × (days n month day < days (n + 1) 1 1)
new_year n month day v = ground arith

year_mono : (n n' : ℕ) → 1 ≤ n → n ≤ n' → days n 1 1 ≤ days n' 1 1
year_mono n n' h k = omega arith

next_month :
    (n month day : ℕ) → IsDate n month day → month < 12 → days n month day < days n (month + 1) 1
next_month n month day v h = ground arith

first_mono :
    (n month month' : ℕ)
    → 1 ≤ n
    → 1 ≤ month
    → month ≤ month'
    → month' ≤ 12
    → days n month 1 ≤ days n month' 1
first_mono n month month' h a b c = omega arith

month_mono :
    (n month day month' day' : ℕ)
    → IsDate n month day
    → IsDate n month' day'
    → month < month'
    → days n month day < days n month' day'
month_mono n month day month' day' v w h =
    let next = next_month n month day v (omega arith) in
    let first =
      first_mono n (month + 1) month' v.year_in (omega arith) (omega arith) w.month_in.1 in
    let from_first : days n month' 1 ≤ days n month' day' =
      from_first_of day' n month' w.day_in.0 in
    later next first from_first
  where
    from_first_of : (d n m : ℕ) → 1 ≤ d → days n m 1 ≤ days n m d
    from_first_of d n m h = omega arith

    later : {a b c d : ℕ} → a < b → b ≤ c → c ≤ d → a < d
    later p q r = omega arith

day_mono : (n month day day' : ℕ) → 1 ≤ day → day < day' → days n month day < days n month day'
day_mono n month day day' h k = omega arith

days_mono :
    (n month day n' month' day' : ℕ)
    → IsDate n month day
    → IsDate n' month' day'
    → Earlier n month day n' month' day'
    → days n month day < days n' month' day'
days_mono n month day n' month' day' v w (inl h) = omega (
  arith,
  (new_year n month day v).1,
  year_mono (n + 1) n' (omega arith) (omega arith),
  (new_year n' month' day' w).0,
)
days_mono n month day n' month' day' v w (inr (e, inl h)) =
    subst (λ k. days n month day < days k month' day') e
      (month_mono n month day month' day' v (subst (λ k. IsDate k month' day') (sym e) w) h)
days_mono n month day n' month' day' v w (inr (e, inr (f, h))) =
    subst (λ k. days n month day < days k month' day') e
      (subst (λ k. days n month day < days n k day') f (day_mono n month day day' v.day_in.0 h))

trichotomy :
    (n month day n' month' day' : ℕ)
    → Earlier n month day n' month' day'
      ⊎ (((n ≡ n') × (month ≡ month') × (day ≡ day')) ⊎ Earlier n' month' day' n month day)
trichotomy n month day n' month' day' = ground arith

compare_days :
    (a b : ℕ)
    → (ltb_ℤ (sub_ℕ (a + 1) 32045) (sub_ℕ (b + 1) 32045) ≡ ltb a b)
      × (eqb_ℤ (sub_ℕ (a + 1) 32045) (sub_ℕ (b + 1) 32045) ≡ (a == b))
compare_days a b = (ground arith, ground arith)

same_days :
    {n month day n' month' day' : ℕ}
    → n ≡ n'
    → month ≡ month'
    → day ≡ day'
    → days n month day ≡ days n' month' day'
same_days p q r = rw (p, q, r)

-- A number for each value, in the order of the values, decides their order.
decide :
    {E E' Q : Type 0} (x y : ℕ)
    → E ⊎ (Q ⊎ E')
    → (E → x < y)
    → (Q → x ≡ y)
    → (E' → y < x)
    → ((ltb x y ≡ true) ↔ E) × (((x == y) ≡ true) ↔ Q)
decide x y (inl e) lt eq gt =
    let h = lt e in
    ((λ _. e, λ _. ground arith), (λ t. absurd (ground arith), λ q. absurd (omega (arith, eq q))))
decide x y (inr (inl q)) lt eq gt =
    let h = eq q in
    ((λ t. absurd (ground arith), λ e. absurd (omega (arith, lt e))), (λ _. q, λ _. ground arith))
decide x y (inr (inr g)) lt eq gt =
    let h = gt g in
    (
      (λ t. absurd (ground arith), λ e. absurd (omega (arith, lt e))),
      (λ t. absurd (ground arith), λ q. absurd (omega (arith, eq q))),
    )

-- For two dates of the calendar, `operator <` is the order by year, then month, then day, and
-- `operator ==` holds of the same date only. Years are written as n - 4800.
pub before-iff-Earlier :
    (n month day n' month' day' : ℕ)
    → IsDate n month day
    → IsDate n' month' day'
    → let a = of_year_month_day (sub_ℕ n 4800) (pos month) (pos day) in
      let b = of_year_month_day (sub_ℕ n' 4800) (pos month') (pos day') in
      ((before a b ≡ true) ↔ Earlier n month day n' month' day')
      × ((same a b ≡ true) ↔ ((n ≡ n') × (month ≡ month') × (day ≡ day')))
unfolding of_year_month_day before same
before-iff-Earlier n month day n' month' day' v w =
    let a = get_julian_day_num-eq n month day v.year_in v.month_in v.day_in.0 in
    let b = get_julian_day_num-eq n' month' day' w.year_in w.month_in w.day_in.0 in
    let x = days n month day in
    let y = days n' month' day' in
    rw (a, b, (compare_days x y).0, (compare_days x y).1)
      (decide x y (trichotomy n month day n' month' day') (days_mono n month day n' month' day' v w)
        (λ q. same_days q.0 q.1 q.2) (days_mono n' month' day' n month day w v))
