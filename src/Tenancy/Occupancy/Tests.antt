-- ===== src/Tenancy/Occupancy/Tests.antt =====
-- Tenants of the sample database come, move and go.
use pg_master_backend.Prelude.{
  ◌==◌, ℕ, ◌+◌, ◌≡◌, ◌<◌, refl, true, false, none, some, List, [], ◌∷◌, arith, length,
}
use pg_master_backend.Calendar.{
  is_leap, days_in_month, days_before_year, days_before_month, day_number, date_utc, year_from,
  year_of_day, month_from, month_of_day, date_of_day, utc_full_year, utc_month, utc_date,
}
use pg_master_backend.Due.{ceil_rupee}
use pg_master_backend.Due.Invariant.{IsConsistent, outstanding}
use pg_master_backend.Phone.{normalize_phone_number, phone_search_variants}
use pg_master_backend.Proration.{
  now_ist, to_date_only, today_ist, first_cycle_end, round_div, daily_rate, month_length_at,
  first_of_next_month, segment_end, prorated_loop, calculate_prorated_rent,
}
use pg_master_backend.Store.Rows.{find_first}
use pg_master_backend.Store.Schema.{Tenancy, Room, exited, UserRole, User}
use pg_master_backend.Store.Metrics.{empty_metrics}
use pg_master_backend.Store.World.{World, ok, err, request_pending}
use pg_master_backend.Store.Samples.{sample_tenancy, sample_world}
use pg_master_backend.Tenancy.Exit.{leaving_tenancy, delete_tenant, revoke_tenancy_exit}
use pg_master_backend.Tenancy.Exit.Back.{IsBack, delete_then_revoke}
use pg_master_backend.Tenancy.Onboarding.{
  AddTenant, Onboarded, validate_dates, resolve_user, diagnose_property_room_failure,
  run_pre_flight_checks,
}
use pg_master_backend.Tenancy.Onboarding.Create.{create_tenant}
use pg_master_backend.Tenancy.Onboarding.Dues.{create_tenant_owes}
use pg_master_backend.Tenancy.Requests.{request_move_out}
use pg_master_backend.Tenancy.Requests.Again.{request_move_out_again}
use pg_master_backend.Tenancy.Shift.{
  ShiftRoom, Shifted, shifted, shift_tenant_room, pending_dues, room_by_id,
}
use pg_master_backend.Tenancy.Shift.Dues.{IsMoved, shift_tenant_room_dues}
use pg_master_backend.Tenancy.Occupancy.{HasHousing, HasCapacity}
use pg_master_backend.Tenancy.Occupancy.Exits.{revoke_tenancy_exit_overfills}
use pg_master_backend.Tenancy.Occupancy.Calls.{
  Call, deletes_tenant, shifts_room, perform_all, perform_all-HasHousing, perform_all-HasCapacity,
}

abbrev room : ℕ → ℕ → ℕ → ℕ → Room
room id property_id total occupied = record {
  id = id;
  property_id = property_id;
  total_beds = total;
  occupied_beds = occupied;
  has_meter = true;
  initial_meter_reading = none;
}

abbrev user : ℕ → User
user id = record {
  id = id;
  role = UserRole.tenant;
  is_active = true;
  is_blocked_by_admin = false;
  phone_number = id ∷ [];
  email = none;
  deleted_at = none;
}

-- A second property with an empty room.
abbrev two_rooms : World
two_rooms = record sample_world {
  rooms = record { rows = room 7 5 2 2 ∷ room 8 6 2 0 ∷ []; next_id = 9 };
  users = record { rows = user 20 ∷ user 21 ∷ []; next_id = 22 };
  properties = record { id = 5; owner_id = 1 } ∷ record { id = 6; owner_id = 1 } ∷ [];
}

two_rooms-HasHousing : HasHousing two_rooms
two_rooms-HasHousing = record { keyed = ground arith; counted = ground arith }

two_rooms-HasCapacity : HasCapacity two_rooms
two_rooms-HasCapacity = record { rooms_apart = ground arith; fits = ground arith }

two_rooms-IsConsistent : IsConsistent two_rooms
two_rooms-IsConsistent = record {
  balanced = ground arith;
  dues_keyed = ground arith;
  payments_keyed = ground arith;
}

abbrev to_room_8 : ShiftRoom
to_room_8 = record { tenancy_id = 10; new_room_id = 8; new_property_id = some 6 }

abbrev moves : List Call
moves = shifts_room 0 to_room_8 1 ∷ deletes_tenant 0 21 5 1 ∷ []

perform_all-HasHousing_example : HasHousing (perform_all moves two_rooms)
perform_all-HasHousing_example = perform_all-HasHousing moves two_rooms two_rooms-HasHousing

perform_all-HasCapacity_example : HasCapacity (perform_all moves two_rooms)
perform_all-HasCapacity_example =
    perform_all-HasCapacity moves two_rooms (refl, (refl, tt)) two_rooms-HasCapacity

-- The metrics of the property and the month of the dues are there.
abbrev counted_rooms : World
counted_rooms = record two_rooms {
  property_metrics = empty_metrics 5 3 2026 ∷ empty_metrics 5 4 2026 ∷ [];
}

counted_rooms-IsConsistent : IsConsistent counted_rooms
counted_rooms-IsConsistent = record {
  balanced = two_rooms-IsConsistent.balanced;
  dues_keyed = two_rooms-IsConsistent.dues_keyed;
  payments_keyed = two_rooms-IsConsistent.payments_keyed;
}

abbrev moved_to_6 : Shifted
moved_to_6 = record {
  tenancy_id = 10;
  from_property_id = 5;
  to_property_id = 6;
  is_cross_property = true;
  pending_dues_transferred = 2;
  total_pending_balance_transferred = 530050;
}

shift_accepted : (shift_tenant_room 0 to_room_8 1 counted_rooms).0 ≡ ok moved_to_6
unfolding shift_tenant_room shifted
shift_accepted = refl

shift_tenant_room_dues_example :
    IsMoved moved_to_6 counted_rooms (shift_tenant_room 0 to_room_8 1 counted_rooms).1
shift_tenant_room_dues_example =
    shift_tenant_room_dues 0 to_room_8 1 counted_rooms counted_rooms-IsConsistent shift_accepted

-- The second tenant owes nothing.
exit_accepted : (delete_tenant 0 21 5 1 two_rooms).0 ≡ ok 11
unfolding delete_tenant
exit_accepted = refl

delete_then_revoke_example :
    let w' = (delete_tenant 0 21 5 1 two_rooms).1 in
    ((revoke_tenancy_exit 9 11 1 w').0 ≡ ok 11)
    × ((t : Tenancy) × (leaving_tenancy 21 5 two_rooms ≡ some t)
        × (length (pending_dues t.id two_rooms) ≡ 0)
        × IsBack t two_rooms (revoke_tenancy_exit 9 11 1 w').1)
delete_then_revoke_example =
    delete_then_revoke 0 21 5 1 9 two_rooms two_rooms-HasHousing exit_accepted

abbrev gone : Tenancy
gone = record (sample_tenancy 9 21) {
  tenancy_status = exited;
  left_at = some 5;
  deleted_at = some 5;
}

-- The room is full, and an earlier tenancy of it has ended.
abbrev with_gone : World
with_gone = record sample_world { tenancies = record { rows = gone ∷ []; next_id = 12 } }

revoke_tenancy_exit_overfills_example :
    let (result, w') = revoke_tenancy_exit 0 9 1 with_gone in
    (result ≡ ok 9)
    × (find_first (λ (x : Tenancy). x.id == 9) w'.tenancies.rows ≡ some (sample_tenancy 9 21))
    × ((r' : Room) × (room_by_id 7 w' ≡ some r')
        × (r'.total_beds ≡ 2)
        × (r'.occupied_beds ≡ 3)
        × (r'.total_beds < r'.occupied_beds))
revoke_tenancy_exit_overfills_example =
    revoke_tenancy_exit_overfills 0 9 1 with_gone {t = gone} {r = room 7 5 2 2} (ground arith) refl
      refl (omega arith)

abbrev no_requests : World
no_requests = record sample_world { move_out_requests = record { rows = []; next_id = 4 } }

asked : (request_move_out 20 5 100 no_requests).0 ≡ ok 4
unfolding request_move_out
asked = refl

request_move_out_again_example :
    let w' = (request_move_out 20 5 100 no_requests).1 in
    request_move_out 20 5 200 w' ≡ (err request_pending, w')
request_move_out_again_example = request_move_out_again 20 5 100 200 no_requests asked

-- The midnight in UTC that begins 20 January 2024.
abbrev january : ℕ
january = 63872928000000

-- From 20 January 2024 at 3000 rupees a month.
abbrev newcomer : AddTenant
newcomer = record {
  phone_number = 57 ∷ 57 ∷ [];
  email = none;
  property_id = 6;
  room_id = 8;
  joining_date = some january;
  move_out_date = none;
  lock_in_period_in_months = none;
  agreement_period_in_months = none;
  rent_amount = 300000;
  security_deposit = 150050;
  rent_cycle_day = 5;
}

abbrev welcome : Onboarded
welcome = record {
  tenant_user_id = 22;
  tenancy_id = 12;
  rent_due_id = 3;
  security_deposit_due_id = some 4;
  prorated_rent_amount = 157600;
}

onboarding_accepted : (create_tenant january newcomer 1 two_rooms).0 ≡ ok welcome
unfolding create_tenant validate_dates run_pre_flight_checks resolve_user
    diagnose_property_room_failure normalize_phone_number phone_search_variants
    calculate_prorated_rent prorated_loop daily_rate month_length_at first_of_next_month segment_end
    round_div first_cycle_end today_ist now_ist to_date_only date_utc day_number days_before_year
    days_before_month days_in_month is_leap utc_full_year utc_month utc_date year_of_day year_from
    month_of_day month_from date_of_day
onboarding_accepted = refl

create_tenant_owes_example :
    let w' = (create_tenant january newcomer 1 two_rooms).1 in
    IsConsistent w' × (outstanding w' ≡ outstanding two_rooms + 157600 + ceil_rupee 150050)
create_tenant_owes_example =
    create_tenant_owes january newcomer 1 two_rooms two_rooms-IsConsistent onboarding_accepted
