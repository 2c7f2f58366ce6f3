-- ===== src/Proration/Cycle.antt =====
-- The billing date advances by one month at a time.
use pg_master_backend.Prelude.{ℕ, ◌+◌, ◌*◌, ◌/◌, ◌≤◌, ◌≡◌, refl, inl, inr, arith, ltb, Bool-cases}
use pg_master_backend.Calendar.{ms_per_day, utc_full_year, utc_month, utc_date}
use pg_master_backend.Calendar.Months.{days_in_month_bounds}
use pg_master_backend.Calendar.Fields.{date_utc_fields, month_of_day_range}
use pg_master_backend.Proration.{first_cycle_end, advance_billing_date}

-- The months from year 0.
abbrev pub month_index : ℕ → ℕ
month_index t = 12 * utc_full_year t + utc_month t

pub utc_month-le : (t : ℕ) → utc_month t ≤ 11
unfolding utc_month
utc_month-le t = omega (arith, (month_of_day_range (t / ms_per_day)).0)

-- For a cycle day of 1 to 28, as the onboarding form demands, the billing date moves to the next
-- calendar month, whatever day it stood on, and to the cycle's day of it.
pub advance_billing_date_next :
    (current cycle_day : ℕ)
    → 1 ≤ cycle_day
    → cycle_day ≤ 28
    → (month_index (advance_billing_date current cycle_day) ≡ month_index current + 1)
      × (utc_date (advance_billing_date current cycle_day) ≡ cycle_day)
unfolding advance_billing_date
advance_billing_date_next t d low high = elim (Bool-cases (ltb 11 (utc_month t + 1))) [
  | inl december ↦
      let f =
        date_utc_fields (utc_full_year t + 1) 0 d (omega arith) low
          (omega (arith, days_in_month_bounds (utc_full_year t + 1) 0)) in
      rw december (ground (arith, f, utc_month-le t))
  | inr other ↦
      let f =
        date_utc_fields (utc_full_year t) (utc_month t + 1) d (ground arith) low
          (omega (arith, days_in_month_bounds (utc_full_year t) (utc_month t + 1))) in
      rw other (ground (arith, f))
]

-- The first cycle of a tenancy ends where a billing date on the join date would advance to.
pub first_cycle_end-advance :
    (join_date cycle_day : ℕ)
    → first_cycle_end join_date cycle_day ≡ advance_billing_date join_date cycle_day
unfolding first_cycle_end advance_billing_date
first_cycle_end-advance j d = refl
