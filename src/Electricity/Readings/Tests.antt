-- ===== src/Electricity/Readings/Tests.antt =====
-- The readings of March 2026 for the sample property, submitted again in July.
use pg_master_backend.Prelude.{◌+◌, ◌≡◌, refl, some, false, [], ◌∷◌, sum_by}
use pg_master_backend.Calendar.{
  is_leap, days_in_month, days_before_year, days_before_month, day_number, date_utc, year_from,
  year_of_day, month_from, month_of_day, date_of_day, utc_full_year, utc_month, utc_date,
}
use pg_master_backend.Electricity.Run.{is_run}
use pg_master_backend.Electricity.Readings.{
  SubmitAll, is_future, is_main, main_previous, room_previous, check_rooms, entry_units,
  submit_all_readings,
}
use pg_master_backend.Electricity.Readings.Submitted.{submit_all_readings_ready}
use pg_master_backend.Payment.Checks.{distinct}
use pg_master_backend.Proration.{now_ist}
use pg_master_backend.Store.Rows.{find_first}
use pg_master_backend.Store.Schema.{PropertyReading, BillingRun}
use pg_master_backend.Store.World.{ok}
use pg_master_backend.Store.Samples.{sample_world}

abbrev march : SubmitAll
march = record {
  month = 3;
  year = 2026;
  previous_reading = 0;
  current_reading = 9000;
  unit_price = 80000;
  rooms = record { room_id = 7; previous_reading = 0; current_reading = 5000 } ∷ [];
}

submitted : (submit_all_readings (date_utc 2026 6 1) 5 1 march sample_world).0 ≡ ok tt
unfolding submit_all_readings is_future main_previous room_previous check_rooms distinct now_ist
    date_utc day_number days_before_year days_before_month days_in_month is_leap utc_full_year
    utc_month utc_date year_of_day year_from month_of_day month_from date_of_day
submitted = refl

submit_all_readings_ready_example :
    let w' = (submit_all_readings (date_utc 2026 6 1) 5 1 march sample_world).1 in
    (r : PropertyReading) × ((b : BillingRun) × (find_first (is_main 5 3 2026) w'.property_readings
        ≡ some r)
      × (find_first (is_run 5 3 2026) w'.billing_runs ≡ some b)
      × (0 + r.unit_consumed ≡ 9000)
      × (b.completed ≡ false)
      × (b.main_meter_units ≡ r.unit_consumed)
      × (sum_by entry_units march.rooms + b.shared_pool_units ≡ b.main_meter_units))
submit_all_readings_ready_example =
    submit_all_readings_ready (date_utc 2026 6 1) 5 1 march sample_world submitted
