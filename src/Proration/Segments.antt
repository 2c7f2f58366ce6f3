-- ===== src/Proration/Segments.antt =====
-- The cursor's month: what the loop of `calculateProratedRent` computes of it by `Date.UTC`.
use pg_master_backend.Prelude.{ℕ, zero, suc, ◌+◌, ◌-◌, ◌*◌, ◌/◌, ◌≤◌, ◌≡◌, arith, ◌∙◌}
use pg_master_backend.Calendar.{
  ms_per_day, days_in_month, days_before_year, days_before_month, day_number, date_utc, year_of_day,
  month_of_day, date_of_day, utc_full_year, utc_month, utc_date,
}
use pg_master_backend.Calendar.Months.{days_in_month_bounds}
use pg_master_backend.Calendar.Fields.{
  year_of_day-day, month_of_day-day, date_of_day-day, next_month_day, month_of_day_range,
  day_number-next,
}
use pg_master_backend.Proration.{daily_rate, month_length_at, first_of_next_month}

-- The length of the month that a day lies in.
abbrev pub length_of_month : ℕ → ℕ
length_of_month n = days_in_month (year_of_day n) (month_of_day n)

-- Day 0 of the next month is the last day of this one.
pub last_day : (y m : ℕ) → m ≤ 11 → date_of_day (day_number y (m + 1) 0) ≡ days_in_month y m
last_day y m h =
    let e : day_number y (m + 1) 0
        ≡ days_before_year y + (days_before_month y m + (days_in_month y m - 1)) =
      omega (arith, day_number-next y m 0 h, days_in_month_bounds y m) in
    rw e (
      date_of_day-day y m (days_in_month y m - 1) h (omega (arith, days_in_month_bounds y m))
      ∙ omega (arith, days_in_month_bounds y m))

module _ (c : ℕ) where
  midnight : c * ms_per_day / ms_per_day ≡ c
  midnight = omega arith

  pub month_length_at_midnight : month_length_at (c * ms_per_day) ≡ length_of_month c
  unfolding month_length_at utc_full_year utc_month utc_date date_utc
  month_length_at_midnight =
      let q : day_number (year_of_day c) (month_of_day c + 1) 0 * ms_per_day / ms_per_day
          ≡ day_number (year_of_day c) (month_of_day c + 1) 0 =
        omega arith in
      rw (midnight, q) (last_day (year_of_day c) (month_of_day c) (month_of_day_range c).0)

  pub first_of_next_month_midnight :
      first_of_next_month (c * ms_per_day) ≡ next_month_day c * ms_per_day
  unfolding first_of_next_month utc_full_year utc_month date_utc
  first_of_next_month_midnight =
      rw (midnight, day_number-next (year_of_day c) (month_of_day c) 1 (month_of_day_range c).0)
        (omega arith)

-- What each day costs, summed day by day: `count` days from day `from`.
unfoldable pub daily_sum : ℕ → ℕ → ℕ → ℕ
daily_sum rent from zero = 0
daily_sum rent from (suc count) =
    daily_rate rent (length_of_month from) + daily_sum rent (from + 1) count

pub daily_sum_add :
    (rent from a b : ℕ)
    → daily_sum rent from (a + b) ≡ daily_sum rent from a + daily_sum rent (from + a) b
unfolding daily_sum
daily_sum_add rent from zero b =
    let e : 0 + b ≡ b = omega arith in
    let f : from + 0 ≡ from = omega arith in rw (e, f) (omega arith)
daily_sum_add rent from (suc a) b =
    let e : suc a + b ≡ suc (a + b) = omega arith in
    let f : from + suc a ≡ from + 1 + a = omega arith in
    rw (e, f) (omega (arith, daily_sum_add rent (from + 1) a b))

-- Within one month every day costs the same.
daily_sum_month :
    (rent y m d count : ℕ)
    → m ≤ 11
    → d + count ≤ days_in_month y m
    → daily_sum rent (days_before_year y + (days_before_month y m + d)) count
      ≡ daily_rate rent (days_in_month y m) * count
unfolding daily_sum
daily_sum_month rent y m d zero h fits = omega arith
daily_sum_month rent y m d (suc count) h fits =
    let next : days_before_year y + (days_before_month y m + d) + 1
        ≡ days_before_year y + (days_before_month y m + (d + 1)) =
      omega arith in
    rw
      (
        year_of_day-day y m d h (omega arith),
        month_of_day-day y m d h (omega arith),
        next,
        daily_sum_month rent y m (d + 1) count h (omega arith),
      )
      (omega arith)

-- Up to the first of the next month the days cost one rate times their number.
pub daily_sum_segment :
    (rent c count : ℕ)
    → c + count ≤ next_month_day c
    → daily_sum rent c count ≡ daily_rate rent (length_of_month c) * count
daily_sum_segment rent c count fits =
    let y = year_of_day c in
    let m = month_of_day c in
    let r = month_of_day_range c in
    let d = c - (days_before_year y + days_before_month y m) in
    let e : days_before_year y + (days_before_month y m + d) ≡ c = omega arith in
    rw e at (daily_sum_month rent y m d count r.0 (omega arith))
