-- ===== src/Proration/Tests.antt =====
-- Proration at the dates that the source's comments work out.
use pg_master_backend.Prelude.{ℕ, ◌+◌, ◌-◌, ◌≡◌, refl, Option, none, some, arith}
use pg_master_backend.Calendar.{
  is_leap, days_in_month, days_before_year, days_before_month, day_number, date_utc, year_from,
  year_of_day, month_from, month_of_day, date_of_day, utc_full_year, utc_month, utc_date,
}
use pg_master_backend.Proration.{
  Prorated, parts_per_paisa, round_div, daily_rate, month_length_at, first_of_next_month,
  segment_end, prorated_loop, calculate_prorated_rent, to_date_only, first_cycle_end,
  advance_billing_date,
}
use pg_master_backend.Proration.Segments.{daily_sum}
use pg_master_backend.Proration.Rent.{calculate_prorated_rent_days, start_day, end_day}
use pg_master_backend.Proration.Cycle.{month_index, advance_billing_date_next}

abbrev amount : Option Prorated → ℕ
amount none = 0
amount (some p) = p.prorated_amount

-- Example A: 19 March 2026, cycle day 5, rent 8000.50.
example_a : amount (calculate_prorated_rent (date_utc 2026 2 19) 5 800050) ≡ 442178
unfolding calculate_prorated_rent prorated_loop segment_end first_of_next_month month_length_at
    daily_rate round_div first_cycle_end to_date_only date_utc day_number days_before_year
    days_before_month days_in_month is_leap utc_full_year utc_month utc_date year_of_day year_from
    month_of_day month_from date_of_day
example_a = refl

-- Example B: 5 April 2026, cycle day 5, rent 8000.
example_b : amount (calculate_prorated_rent (date_utc 2026 3 5) 5 800000) ≡ 796559
unfolding calculate_prorated_rent prorated_loop segment_end first_of_next_month month_length_at
    daily_rate round_div first_cycle_end to_date_only date_utc day_number days_before_year
    days_before_month days_in_month is_leap utc_full_year utc_month utc_date year_of_day year_from
    month_of_day month_from date_of_day
example_b = refl

calculate_prorated_rent_days_example :
    calculate_prorated_rent (date_utc 2026 2 19) 5 800050
    ≡ some (record {
      period_start = to_date_only (date_utc 2026 2 19);
      period_end = first_cycle_end (date_utc 2026 2 19) 5;
      prorated_amount =
          round_div
            (daily_sum 800050
              (start_day (date_utc 2026 2 19))
              (end_day (date_utc 2026 2 19) 5 - start_day (date_utc 2026 2 19)))
            parts_per_paisa;
    })
calculate_prorated_rent_days_example = calculate_prorated_rent_days (date_utc 2026 2 19) 5 800050

advance_billing_date_next_example :
    (month_index (advance_billing_date (date_utc 2026 11 5) 5)
      ≡ month_index (date_utc 2026 11 5) + 1)
    × (utc_date (advance_billing_date (date_utc 2026 11 5) 5) ≡ 5)
advance_billing_date_next_example =
    advance_billing_date_next (date_utc 2026 11 5) 5 (omega arith) (omega arith)
