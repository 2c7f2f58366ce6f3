-- ===== src/Electricity/Readings.antt =====
-- `submitAllReadings` and `submitMeterReading` of src/modules/electricity/electricity.service.ts, in
-- hundredths of a unit. A billing run that is not completed stands for PENDING.
pub mod Submitted
mod Tests
use pg_master_backend.Prelude.{
  ℕ, ◌+◌, ◌-◌, Bool, true, false, not, ◌&&◌, ◌||◌, Option, none, some, List, [], ◌∷◌, ltb, ◌==◌,
  if◌then◌else◌, includes, length, map, sum_by,
}
use pg_master_backend.Due.{ist_month, ist_year}
use pg_master_backend.Electricity.Run.{
  is_run, is_part_paid, is_electricity_due, readings_of, metered_rooms, upsert_run,
}
use pg_master_backend.Payment.Checks.{distinct}
use pg_master_backend.Store.Rows.{find_first}
use pg_master_backend.Store.Metrics.{upsert}
use pg_master_backend.Store.Schema.{Due, Room, PropertyReading, RoomReading, BillingRun, is_none}
use pg_master_backend.Store.World.{
  World, Fault, Result, ok, err, Action, pure, gets, throw_if, or_throw, modify, emit, ◌>>=◌, ◌>>◌,
  electricity_reading_created, property_not_found, future_month, wrong_previous, reading_below,
  bad_price, rooms_missing, no_meter, readings_exceed_main, already_collected,
}
use pg_master_backend.Tenancy.Notice.{is_owned}

pub record RoomEntry : Type 0 where
  pub room_id : ℕ
  pub previous_reading : ℕ
  pub current_reading : ℕ

pub record SubmitAll : Type 0 where
  pub month : ℕ
  pub year : ℕ
  pub previous_reading : ℕ
  pub current_reading : ℕ
  pub unit_price : ℕ
  pub rooms : List RoomEntry

unfoldable pub is_future : ℕ → ℕ → ℕ → Bool
is_future now month year =
    ltb (ist_year now) year || (year == ist_year now && ltb (ist_month now) month)

abbrev prev_month : ℕ → ℕ
prev_month month = if month == 1 then 12 else month - 1

abbrev prev_year : ℕ → ℕ → ℕ
prev_year month year = if month == 1 then year - 1 else year

abbrev pub is_main : ℕ → ℕ → ℕ → PropertyReading → Bool
is_main property_id month year r =
    r.property_id == property_id && (r.month == month && r.year == year)

abbrev current_of : Option PropertyReading → ℕ
current_of none = 0
current_of (some r) = r.current_reading

-- The reading that the main meter starts the month from.
unfoldable pub main_previous : ℕ → ℕ → ℕ → World → ℕ
main_previous property_id month year w =
    by_current (find_first (is_main property_id month year) w.property_readings)
  where
    by_current : Option PropertyReading → ℕ
    by_current (some r) = r.previous_reading
    by_current none = current_of (
        find_first (is_main property_id (prev_month month) (prev_year month year))
          w.property_readings)

abbrev or_zero : Option ℕ → ℕ
or_zero none = 0
or_zero (some n) = n

abbrev initial_of : Option Room → ℕ
initial_of none = 0
initial_of (some r) = or_zero r.initial_meter_reading

-- And a room: its own previous reading of the month, the month before's, its first one, or 0.
unfoldable pub room_previous : ℕ → ℕ → ℕ → ℕ → World → ℕ
room_previous property_id month year room_id w =
    by_current (reading_in (readings_of property_id month year w))
  where
    reading_in : List RoomReading → Option RoomReading
    reading_in rs = find_first (λ (r : RoomReading). r.room_id == room_id) rs

    by_before : Option RoomReading → ℕ
    by_before (some r) = r.current_reading
    by_before none = initial_of (find_first (λ (r : Room). r.id == room_id) w.rooms.rows)

    by_current : Option RoomReading → ℕ
    by_current (some r) = r.previous_reading
    by_current none =
        by_before (reading_in (readings_of property_id (prev_month month) (prev_year month year) w))

abbrev pub missing_room : List ℕ → List ℕ → Bool
missing_room submitted [] = false
missing_room submitted (r ∷ rs) = if includes r submitted then missing_room submitted rs else true

-- The checks of the loop over the rooms of the request.
unfoldable pub check_rooms : ℕ → ℕ → ℕ → List ℕ → World → List RoomEntry → Result (Unit {0})
check_rooms property_id month year expected w [] = ok tt
check_rooms property_id month year expected w (e ∷ es) =
    let rest = check_rooms property_id month year expected w es in
    if not (includes e.room_id expected)
    then err no_meter
    else if not (e.previous_reading == room_previous property_id month year e.room_id w)
    then err wrong_previous
    else if ltb e.current_reading e.previous_reading
    then err reading_below
    else rest

abbrev pub entry_units : RoomEntry → ℕ
entry_units e = e.current_reading - e.previous_reading

abbrev pub main_reading : ℕ → SubmitAll → PropertyReading
main_reading property_id dto = record {
  property_id = property_id;
  month = dto.month;
  year = dto.year;
  previous_reading = dto.previous_reading;
  current_reading = dto.current_reading;
  unit_consumed = dto.current_reading - dto.previous_reading;
  unit_price = dto.unit_price;
  submitted = true;
}

abbrev room_reading : ℕ → ℕ → ℕ → RoomEntry → RoomReading
room_reading property_id month year e = record {
  room_id = e.room_id;
  property_id = property_id;
  month = month;
  year = year;
  previous_reading = e.previous_reading;
  current_reading = e.current_reading;
  unit_consumed = entry_units e;
}

-- At the key of room, month and year; an update leaves the row's property.
unfoldable pub upsert_room_reading : ℕ → ℕ → ℕ → RoomEntry → List RoomReading → List RoomReading
upsert_room_reading property_id month year e =
    upsert (λ (r : RoomReading). r.room_id == e.room_id && (r.month == month && r.year == year))
      (room_reading property_id month year e)
      (λ r. record (room_reading property_id month year e) { property_id = r.property_id })

unfoldable pub upsert_room_readings :
    ℕ → ℕ → ℕ → List RoomEntry → List RoomReading → List RoomReading
upsert_room_readings property_id month year [] rs = rs
upsert_room_readings property_id month year (e ∷ es) rs =
    upsert_room_readings property_id month year es (upsert_room_reading property_id month year e rs)

abbrev pub pending_run : ℕ → SubmitAll → Option ℕ → BillingRun
pending_run property_id dto days = record {
  property_id = property_id;
  month = dto.month;
  year = dto.year;
  completed = false;
  main_meter_units = dto.current_reading - dto.previous_reading;
  private_rooms_units = sum_by entry_units dto.rooms;
  shared_pool_units = dto.current_reading - dto.previous_reading - sum_by entry_units dto.rooms;
  unit_price = dto.unit_price;
  total_days_pool = days;
}

-- An update of a run leaves its days.
abbrev pub days_of : Option BillingRun → Option ℕ
days_of none = none
days_of (some r) = r.total_days_pool

unfoldable pub store_readings : ℕ → SubmitAll → World → World
store_readings property_id dto w = record w {
  property_readings =
      upsert (is_main property_id dto.month dto.year) (main_reading property_id dto)
        (λ r. main_reading property_id dto) w.property_readings;
  room_readings = upsert_room_readings property_id dto.month dto.year dto.rooms w.room_readings;
  billing_runs =
      upsert_run property_id dto.month dto.year
        (pending_run property_id dto
          (days_of (find_first (is_run property_id dto.month dto.year) w.billing_runs)))
        w.billing_runs;
}

abbrev pub or_fault : Result (Unit {0}) → Action (Unit {0})
or_fault r w = (r, w)

unfoldable pub submit_all_readings : ℕ → ℕ → ℕ → SubmitAll → Action (Unit {0})
submit_all_readings now property_id owner_id dto = do
  owned ← gets (is_owned owner_id property_id)
  throw_if (not owned) property_not_found
  throw_if (is_future now dto.month dto.year) future_month
  expected ← gets (main_previous property_id dto.month dto.year)
  throw_if (not (dto.previous_reading == expected)) wrong_previous
  throw_if (ltb dto.current_reading dto.previous_reading) reading_below
  throw_if (dto.unit_price == 0) bad_price
  metered ← gets (metered_rooms property_id dto.month dto.year)
  let submitted = map (λ (e : RoomEntry). e.room_id) dto.rooms
  throw_if
      (not (length (distinct submitted) == length (distinct metered))
        || missing_room submitted metered)
      rooms_missing
  checked ← gets (λ w. check_rooms property_id dto.month dto.year metered w dto.rooms)
  or_fault checked
  throw_if (ltb (dto.current_reading - dto.previous_reading) (sum_by entry_units dto.rooms))
      readings_exceed_main
  paid_due ← gets (λ w.
      find_first
        (λ (d : Due). is_electricity_due property_id dto.month dto.year d && is_part_paid d.status)
        w.dues.rows)
  throw_if (not (is_none paid_due)) already_collected
  modify (store_readings property_id dto)
  emit (electricity_reading_created property_id dto.month dto.year)

unfoldable pub submit_meter_reading : ℕ → ℕ → ℕ → ℕ → ℕ → RoomEntry → Action (Unit {0})
submit_meter_reading now property_id owner_id month year entry = do
  owned ← gets (is_owned owner_id property_id)
  throw_if (not owned) property_not_found
  throw_if (is_future now month year) future_month
  room ← gets (λ w.
      find_first
        (λ (r : Room). r.id == entry.room_id && (r.property_id == property_id && r.has_meter))
        w.rooms.rows)
  throw_if (is_none room) no_meter
  throw_if (ltb entry.current_reading entry.previous_reading) reading_below
  modify (λ w. record w {
    room_readings = upsert_room_reading property_id month year entry w.room_readings;
  })
