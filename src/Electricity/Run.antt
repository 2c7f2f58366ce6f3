-- ===== src/Electricity/Run.antt =====
-- `runBilling` of src/modules/electricity/electricity-billing.service.ts. The result is `none` for
-- a run that is skipped, and the dues made otherwise.
pub mod Again
use pg_master_backend.Prelude.{
  ℕ, suc, ◌+◌, ◌-◌, ◌*◌, Bool, true, false, not, ◌&&◌, ◌||◌, Option, none, some, List, [], ◌∷◌, ltb,
  ◌==◌, if◌then◌else◌, map, sum_by,
}
use pg_master_backend.Store.Rows.{Table, find_first, find_many, create}
use pg_master_backend.Store.References.{delete_dues}
use pg_master_backend.Store.Schema.{
  DueType, electricity, DueStatus, unpaid, partial, paid, overdue, TenancyStatus, active, Due,
  Tenancy, Room, Property, PropertyReading, RoomReading, BillingRun, is_none,
}
use pg_master_backend.Store.World.{
  World, Action, pure, throw, gets, or_throw, throw_if, modify, ◌>>=◌, ◌>>◌, property_not_found,
  already_collected, main_meter_missing, missing_reading, readings_exceed_main,
}
use pg_master_backend.Due.{emit_all}
use pg_master_backend.Electricity.Shares.{period_start_of, period_end_of}
use pg_master_backend.Electricity.Allocation.{
  Allocation, AllocationResult, units_of, calculate_allocations,
}

abbrev is_electricity : DueType → Bool
is_electricity electricity = true
is_electricity _ = false

abbrev pub is_part_paid : DueStatus → Bool
is_part_paid paid = true
is_part_paid partial = true
is_part_paid _ = false

abbrev is_unpaid : DueStatus → Bool
is_unpaid unpaid = true
is_unpaid overdue = true
is_unpaid _ = false

abbrev is_active : TenancyStatus → Bool
is_active active = true
is_active _ = false

module _ (property_id month year : ℕ) where
  abbrev pub is_run : BillingRun → Bool
  is_run r = r.property_id == property_id && (r.month == month && r.year == year)

  abbrev pub is_electricity_due : Due → Bool
  is_electricity_due d =
      d.property_id == property_id
      && (d.month == month && (d.year == year && is_electricity d.due_type))

  abbrev pub readings_of : World → List RoomReading
  readings_of w =
      find_many
        (λ (r : RoomReading). r.property_id == property_id && (r.month == month && r.year == year))
        w.room_readings

  abbrev pub metered_rooms : World → List ℕ
  metered_rooms w =
      map (λ (r : Room). r.id)
        (find_many (λ (r : Room). r.property_id == property_id && r.has_meter) w.rooms.rows)

  abbrev pub active_tenancies : World → List Tenancy
  active_tenancies w =
      find_many
        (λ (t : Tenancy).
          t.property_id == property_id && (is_active t.tenancy_status && is_none t.deleted_at))
        w.tenancies.rows

  unfoldable pub all_read : List RoomReading → List ℕ → Bool
  all_read readings [] = true
  all_read readings (k ∷ ks) = not (is_none (units_of readings k)) && all_read readings ks

  abbrev pub electricity_due : Allocation → ℕ → Due
  electricity_due a id = record {
    id = id;
    tenancy_id = a.tenancy_id;
    property_id = a.property_id;
    due_type = electricity;
    custom_due_type = none;
    month = month;
    year = year;
    total_amount = a.amount * 100;
    paid_amount = 0;
    balance_amount = a.amount * 100;
    status = unpaid;
    period_start = some (period_start_of month year);
    period_end = some (period_end_of month year);
    due_date = period_end_of month year;
  }

  -- The dues that `Promise.all` creates, in the order of the allocations.
  unfoldable pub create_electricity_dues : List Allocation → Table Due → List Due × Table Due
  create_electricity_dues [] dues = ([], dues)
  create_electricity_dues (a ∷ rest) dues =
      let (made, dues') = create_electricity_dues rest (create (electricity_due a) dues) in
      (electricity_due a dues.next_id ∷ made, dues')

  abbrev pub new_run : PropertyReading → ℕ → AllocationResult → BillingRun
  new_run main private_units result = record {
    property_id = property_id;
    month = month;
    year = year;
    completed = true;
    main_meter_units = main.unit_consumed;
    private_rooms_units = private_units;
    shared_pool_units = result.effective_shared_pool_units;
    unit_price = main.unit_price;
    total_days_pool =
        if ltb 0 result.pool_tenancy_days then some result.pool_tenancy_days else none;
  }

  unfoldable pub upsert_run : BillingRun → List BillingRun → List BillingRun
  upsert_run run [] = run ∷ []
  upsert_run run (r ∷ rest) = if is_run r then run ∷ rest else r ∷ upsert_run run rest

  abbrev pub is_completed : Option BillingRun → Bool
  is_completed none = false
  is_completed (some r) = r.completed

  abbrev pub is_replaced : Due → Bool
  is_replaced d = is_electricity_due d && is_unpaid d.status

  abbrev pub allocated : PropertyReading → ℕ → World → AllocationResult
  allocated main private_units w =
      calculate_allocations (active_tenancies w) (metered_rooms w) (units_of (readings_of w))
        (main.unit_consumed - private_units) main.unit_price month year

  -- The second half of the transaction: the dues are made, and the run is recorded as COMPLETED.
  unfoldable pub make_dues : PropertyReading → ℕ → AllocationResult → Action (List Due)
  make_dues main private_units result w =
      let (made, dues') = create_electricity_dues result.allocations w.dues in
      (emit_all made >> pure made) (record w {
        dues = dues';
        billing_runs = upsert_run (new_run main private_units result) w.billing_runs;
      })

  -- The transaction: unpaid dues of an earlier run are deleted first, which a row that names one of
  -- them refuses.
  unfoldable pub store_run : PropertyReading → ℕ → Action (List Due)
  store_run main private_units = do
    result ← gets (allocated main private_units)
    delete_dues is_replaced
    make_dues main private_units result

  -- What follows the guard against a second run.
  unfoldable pub bill_month : Action (List Due)
  bill_month = do
    paid_due ←
        gets
          (λ w. find_first (λ (d : Due). is_electricity_due d && is_part_paid d.status) w.dues.rows)
    throw_if (not (is_none paid_due)) already_collected
    found ← gets (λ w.
        find_first
          (λ (r : PropertyReading).
            r.property_id == property_id && (r.month == month && r.year == year))
          w.property_readings)
    main ← or_throw found main_meter_missing
    throw_if (not main.submitted) main_meter_missing
    complete ← gets (λ w. all_read (readings_of w) (metered_rooms w))
    throw_if (not complete) missing_reading
    private_units ← gets (λ w. sum_by (λ (r : RoomReading). r.unit_consumed) (readings_of w))
    throw_if (ltb main.unit_consumed private_units) readings_exceed_main
    store_run main private_units

  unfoldable pub run_billing : Action (Option (List Due))
  run_billing = do
    property ← gets (λ w. find_first (λ (p : Property). p.id == property_id) w.properties)
    or_throw property property_not_found
    existing ← gets (λ w. find_first is_run w.billing_runs)
    if is_completed existing then pure none else bill_month >>= λ made. pure (some made)
