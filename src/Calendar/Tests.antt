-- ===== src/Calendar/Tests.antt =====
-- The calendar at known dates.
use pg_master_backend.Prelude.{◌≡◌, refl, ◌-◌, arith}
use pg_master_backend.Calendar.{
  is_leap, days_in_month, days_before_year, days_before_month, day_number, date_utc, year_from,
  year_of_day, month_from, month_of_day, date_of_day, utc_full_year, utc_month, utc_date,
}
use pg_master_backend.Calendar.Fields.{date_utc_fields}

-- 1 January 1970 is day 719528, and 29 February 2024 is 19782 days later.
leap_day_2024 : day_number 2024 1 29 - day_number 1970 0 1 ≡ 19782
unfolding day_number days_before_year days_before_month days_in_month is_leap
leap_day_2024 = refl

-- Month 12 is January of the next year, and day 0 the last of the month before.
month_carry : date_utc 2026 12 0 ≡ date_utc 2026 11 31
unfolding date_utc day_number days_before_year days_before_month days_in_month is_leap
month_carry = refl

march_19 : utc_date (date_utc 2026 2 19) ≡ 19
unfolding date_utc day_number days_before_year days_before_month days_in_month is_leap utc_date
    date_of_day month_of_day month_from year_of_day year_from
march_19 = refl

fields_of_march_19 :
    (utc_full_year (date_utc 2026 2 19) ≡ 2026)
    × (utc_month (date_utc 2026 2 19) ≡ 2)
    × (utc_date (date_utc 2026 2 19) ≡ 19)
unfolding days_in_month is_leap
fields_of_march_19 = date_utc_fields 2026 2 19 (omega arith) (omega arith) (omega arith)
