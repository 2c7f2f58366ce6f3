-- ===== src/Electricity/Tests.antt =====
-- The electricity of the sample database: 100 units at 8 rupees, 60 of them read in the one room.
use pg_master_backend.Prelude.{
  ℕ, ◌+◌, ◌*◌, ◌≤◌, ◌≡◌, refl, inr, Option, none, some, [], ◌∷◌, arith, All, length, sum_by,
}
use pg_master_backend.Calendar.{
  is_leap, days_in_month, days_before_year, days_before_month, day_number, date_utc, year_from,
  year_of_day, month_from, month_of_day, date_of_day, utc_full_year, utc_month, utc_date,
}
use pg_master_backend.Proration.{to_date_only, round_div}
use pg_master_backend.Store.References.{any_referenced, remove_dues}
use pg_master_backend.Store.Samples.{sample_world}
use pg_master_backend.Store.World.{World, ok, err, main_meter_missing}
use pg_master_backend.Due.{emit_all}
use pg_master_backend.Electricity.Shares.{
  get_tenant_days_in_month, split_from, split_amount_equally, split_amount_equally_shares,
}
use pg_master_backend.Electricity.Allocation.{
  group_by_room, units_of, vacant_units, bill_rooms, day_entries, pool_tenancies,
  calculate_allocations, per_rupee,
}
use pg_master_backend.Electricity.Recovery.{billed, calculate_allocations_recover}
use pg_master_backend.Electricity.Run.{
  all_read, active_tenancies, readings_of, create_electricity_dues, make_dues, store_run,
  bill_month, run_billing,
}
use pg_master_backend.Electricity.Run.Again.{run_billing_atomic, run_billing_again}

split_amount_equally_shares_example :
    (length (split_amount_equally 1000 3) ≡ 3)
    × (sum_by (λ n. n) (split_amount_equally 1000 3) ≡ 1000)
    × All (λ n. (333 ≤ n) × (n ≤ 334)) (split_amount_equally 1000 3)
split_amount_equally_shares_example = split_amount_equally_shares 1000 3 (omega arith)

shares_of_1000 : split_amount_equally 1000 3 ≡ 334 ∷ 333 ∷ 333 ∷ []
unfolding split_amount_equally split_from
shares_of_1000 = refl

-- Both tenants stay all of March.
march_days : get_tenant_days_in_month 0 none 3 2026 ≡ 31
unfolding get_tenant_days_in_month to_date_only round_div date_utc day_number days_before_year
    days_before_month days_in_month is_leap utc_full_year utc_month utc_date year_of_day year_from
    month_of_day month_from date_of_day
march_days = refl

abbrev room_units : ℕ → Option ℕ
room_units = units_of (readings_of 5 3 2026 sample_world)

calculate_allocations_recover_example :
    (4000 + 6000) * 80000
    ≤ per_rupee
      * billed
          (calculate_allocations
            (active_tenancies 5 3 2026 sample_world)
            (7 ∷ [])
            room_units
            4000
            80000
            3
            2026).allocations
unfolding get_tenant_days_in_month to_date_only round_div date_utc day_number days_before_year
    days_before_month days_in_month is_leap utc_full_year utc_month utc_date year_of_day year_from
    month_of_day month_from date_of_day day_entries pool_tenancies
calculate_allocations_recover_example =
    calculate_allocations_recover (active_tenancies 5 3 2026 sample_world) (7 ∷ []) room_units 4000
      80000 3 2026 (ground arith) (inr (omega arith))

-- No reading of the main meter for April.
april_refused : (run_billing 5 4 2026 sample_world).0 ≡ err main_meter_missing
unfolding run_billing bill_month
april_refused = refl

run_billing_atomic_example : (run_billing 5 4 2026 sample_world).1 ≡ sample_world
run_billing_atomic_example =
    run_billing_atomic 5 4 2026 sample_world main_meter_missing april_refused

-- Without rooms and tenants, the month is billed to nobody.
abbrev empty_world : World
empty_world = record sample_world {
  rooms = record { rows = []; next_id = 1 };
  tenancies = record { rows = []; next_id = 1 };
  room_readings = [];
}

march_ran : (run_billing 5 3 2026 empty_world).0 ≡ ok (some [])
unfolding run_billing bill_month all_read store_run make_dues any_referenced remove_dues
    calculate_allocations group_by_room vacant_units bill_rooms pool_tenancies day_entries
    create_electricity_dues emit_all
march_ran = refl

run_billing_again_example :
    run_billing 5 3 2026 (run_billing 5 3 2026 empty_world).1
    ≡ (ok none, (run_billing 5 3 2026 empty_world).1)
run_billing_again_example = run_billing_again 5 3 2026 empty_world march_ran
