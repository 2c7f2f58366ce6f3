-- ===== src/Calendar/Fields.antt =====
-- Reading the fields of a date gives back what `Date.UTC` was called with.
use pg_master_backend.Prelude.{
  ℕ, ◌+◌, ◌-◌, ◌*◌, ◌/◌, ◌%◌, ◌≤◌, ◌<◌, ◌≡◌, refl, arith, ap, ◌∙◌, inl, inr, ltb, Bool-cases,
}
use pg_master_backend.Calendar.{
  ms_per_day, days_in_month, days_before_year, days_before_month, day_number, date_utc, year_of_day,
  month_of_day, date_of_day, utc_full_year, utc_month, utc_date,
}
use pg_master_backend.Calendar.Years.{days_before_year-suc, year_of_day_unique, year_of_day_bounds}
use pg_master_backend.Calendar.Months.{
  month_from_unique, days_before_month_range, days_before_month-suc, twelve_months,
  month_from_range,
}

module _ (y m d : ℕ) (month_in : m ≤ 11) (day_in : d < days_in_month y m) where
  abbrev day : ℕ
  day = days_before_year y + (days_before_month y m + d)

  pub year_of_day-day : year_of_day day ≡ y
  year_of_day-day =
      year_of_day_unique y day (omega arith)
        (omega (arith, days_before_year-suc y, days_before_month_range y m d month_in day_in))

  day_in_year : day - days_before_year y ≡ days_before_month y m + d
  day_in_year = omega arith

  pub month_of_day-day : month_of_day day ≡ m
  unfolding month_of_day
  month_of_day-day = rw (year_of_day-day, day_in_year) (month_from_unique y m d month_in day_in)

  pub date_of_day-day : date_of_day day ≡ d + 1
  unfolding date_of_day
  date_of_day-day = rw (month_of_day-day, year_of_day-day) (omega arith)

-- The day that `Date.UTC` names, when the month is one of the twelve.
pub day_number-day :
    (y m d : ℕ) → m ≤ 11 → day_number y m (d + 1) ≡ days_before_year y + (days_before_month y m + d)
unfolding day_number
day_number-day y m d h =
    let q : y + m / 12 ≡ y = omega arith in
    let r : m % 12 ≡ m = omega arith in rw (q, r) (omega arith)

-- Reading the three fields of `Date.UTC(y, m, d)` gives `y`, `m` and `d` back, for a month of 0
-- to 11 and a day of that month.
pub date_utc_fields :
    (y m d : ℕ)
    → m ≤ 11
    → 1 ≤ d
    → d ≤ days_in_month y m
    → (utc_full_year (date_utc y m d) ≡ y)
      × (utc_month (date_utc y m d) ≡ m)
      × (utc_date (date_utc y m d) ≡ d)
unfolding utc_full_year utc_month utc_date date_utc
date_utc_fields y m d month_in low high =
    let e : d ≡ d - 1 + 1 = omega arith in
    let n : day_number y m d ≡ days_before_year y + (days_before_month y m + (d - 1)) =
      ap (day_number y m) e ∙ day_number-day y m (d - 1) month_in in
    let q : day_number y m d * ms_per_day / ms_per_day ≡ day_number y m d = omega arith in
    rw (q, n)
      (
        year_of_day-day y m (d - 1) month_in (omega arith),
        month_of_day-day y m (d - 1) month_in (omega arith),
        rw (date_of_day-day y m (d - 1) month_in (omega arith)) (omega arith),
      )

-- The first day of the month after the one that a day lies in.
abbrev pub next_month_day : ℕ → ℕ
next_month_day n =
    days_before_year (year_of_day n)
    + (days_before_month (year_of_day n) (month_of_day n)
        + days_in_month (year_of_day n) (month_of_day n))

-- Every day lies in the month that is found for it.
pub month_of_day_range :
    (n : ℕ)
    → (month_of_day n ≤ 11)
      × (days_before_year (year_of_day n) + days_before_month (year_of_day n) (month_of_day n) ≤ n)
      × (n < next_month_day n)
unfolding month_of_day
month_of_day_range n = omega (
  arith,
  year_of_day_bounds n,
  days_before_year-suc (year_of_day n),
  month_from_range (year_of_day n) (n - days_before_year (year_of_day n))
      (omega (arith, year_of_day_bounds n, days_before_year-suc (year_of_day n))),
)

-- `Date.UTC(y, m + 1, d)` counts from the end of month `m`, also in December.
pub day_number-next :
    (y m d : ℕ)
    → m ≤ 11
    → day_number y (m + 1) d
      ≡ days_before_year y + (days_before_month y m + days_in_month y m) + d - 1
unfolding day_number
day_number-next y m d h = elim (Bool-cases (ltb m 11)) [
  | inl before ↦
      let q : y + (m + 1) / 12 ≡ y = ground arith in
      let r : (m + 1) % 12 ≡ m + 1 = ground arith in
      rw (q, r) (omega (arith, days_before_month-suc y m))
  | inr december ↦
      let q : y + (m + 1) / 12 ≡ y + 1 = ground arith in
      let r : (m + 1) % 12 ≡ 0 = ground arith in
      let e : m + 1 ≡ 12 = ground arith in
      let z : days_before_month (y + 1) 0 ≡ 0 = unfold days_before_month in refl in
      rw (q, r, z)
        (omega (
          arith,
          ap (days_before_month y) e,
          twelve_months y,
          days_before_month-suc y m,
          days_before_year-suc y,
        ))
]
