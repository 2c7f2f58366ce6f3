-- ===== src/Tenancy/Onboarding/Create.antt =====
-- What `createTenant` of src/modules/tenancy/tenancy.service.ts writes, and the whole of it. The month
-- of a move-in is read off in UTC.
use pg_master_backend.Prelude.{
  ℕ, ◌+◌, String, Bool, true, false, not, ◌&&◌, Option, none, some, List, ltb, leb, ◌==◌,
  if◌then◌else◌,
}
use pg_master_backend.Calendar.{utc_month, utc_full_year}
use pg_master_backend.Due.{ceil_rupee, ist_month, ist_year}
use pg_master_backend.Phone.{normalize_phone_number}
use pg_master_backend.Proration.{Prorated, calculate_prorated_rent, today_ist}
use pg_master_backend.Store.Rows.{Table, find_first, create, update_rows}
use pg_master_backend.Store.Requests.{MoveInStatus}
use pg_master_backend.Store.Metrics.{upsert}
use pg_master_backend.Store.Schema.{
  rent, security_deposit, unpaid, UserRole, TenancyStatus, active, Due, Tenancy, Room, Property,
  User, TenentProfile, is_none,
}
use pg_master_backend.Store.World.{
  World, Action, pure, gets, or_throw, throw_if, modify, emit, ◌>>=◌, ◌>>◌, due_created,
  tenancy_created, out_of_fuel, property_not_found, room_not_found, room_full, duplicate_key,
}
use pg_master_backend.Tenancy.Notice.{parse_date_utc}
use pg_master_backend.Tenancy.Onboarding.{
  AddTenant, Onboarded, has_email, validate_dates, run_pre_flight_checks,
}

abbrev pub is_email_of_other : Option String → Option ℕ → User → Bool
is_email_of_other none user_id u = false
is_email_of_other (some email) none u = has_email email u
is_email_of_other (some email) (some id) u = not (u.id == id) && has_email email u

-- The user is created, or is brought up to date.
unfoldable pub save_user : AddTenant → Option ℕ → World → World
save_user dto none w = record w {
  users =
      create
        (λ id. record {
          id = id;
          role = UserRole.tenant;
          is_active = true;
          is_blocked_by_admin = false;
          phone_number = dto.phone_number;
          email = dto.email;
          deleted_at = none;
        })
        w.users;
}
save_user dto (some user_id) w = record w {
  users =
      update_rows (λ (u : User). u.id == user_id)
        (λ u. record u { is_active = true; email = dto.email }) w.users;
}

-- `resolvedUserId`
abbrev pub resolved_user_id : Option ℕ → World → ℕ
resolved_user_id none w = w.users.next_id
resolved_user_id (some user_id) w = user_id

abbrev pub parse_optional : Option (List (Option ℕ)) → Option ℕ
parse_optional none = none
parse_optional (some parts) = parse_date_utc parts

unfoldable pub save_profile : AddTenant → ℕ → World → World
save_profile dto user_id w = record w {
  profiles =
      upsert (λ (p : TenentProfile). p.user_id == user_id)
        (record { user_id = user_id; move_out_date = none })
        (λ p. record p { move_out_date = parse_optional dto.move_out_date }) w.profiles;
}

unfoldable pub new_tenancy : ℕ → AddTenant → ℕ → ℕ → ℕ → ℕ → Tenancy
new_tenancy now dto join_date period_end user_id id = record {
  id = id;
  room_id = dto.room_id;
  tenent_id = user_id;
  property_id = dto.property_id;
  tenancy_status = if ltb (today_ist now) join_date then TenancyStatus.pending else active;
  rent_amount = ceil_rupee dto.rent_amount;
  security_deposit = ceil_rupee dto.security_deposit;
  billing_cycle_day = dto.rent_cycle_day;
  joined_at = join_date;
  left_at = none;
  deleted_at = none;
  next_billing_date = some period_end;
}

unfoldable pub first_rent_due : ℕ → AddTenant → Prorated → ℕ → ℕ → Due
first_rent_due now dto period tenancy_id id = record {
  id = id;
  tenancy_id = tenancy_id;
  property_id = dto.property_id;
  due_type = rent;
  custom_due_type = none;
  month = ist_month now;
  year = ist_year now;
  total_amount = ceil_rupee period.prorated_amount;
  paid_amount = 0;
  balance_amount = ceil_rupee period.prorated_amount;
  status = unpaid;
  period_start = some period.period_start;
  period_end = some period.period_end;
  due_date = period.period_end;
}

unfoldable pub deposit_due : ℕ → AddTenant → ℕ → ℕ → ℕ → Due
deposit_due now dto join_date tenancy_id id = record {
  id = id;
  tenancy_id = tenancy_id;
  property_id = dto.property_id;
  due_type = security_deposit;
  custom_due_type = none;
  month = ist_month now;
  year = ist_year now;
  total_amount = ceil_rupee dto.security_deposit;
  paid_amount = 0;
  balance_amount = ceil_rupee dto.security_deposit;
  status = unpaid;
  period_start = none;
  period_end = none;
  due_date = join_date;
}

-- `tx.tenantDue.create` for the rent, and for the deposit where there is one
unfoldable pub create_first_dues : ℕ → AddTenant → ℕ → Prorated → ℕ → Table Due → Table Due
create_first_dues now dto join_date period tenancy_id dues =
    let with_rent = create (first_rent_due now dto period tenancy_id) dues in
    if ceil_rupee dto.security_deposit == 0
    then with_rent
    else create (deposit_due now dto join_date tenancy_id) with_rent

unfoldable pub track_move_in : ℕ → AddTenant → ℕ → ℕ → World → World
track_move_in now dto join_date tenancy_id w = if ltb (today_ist now) join_date then tracked else w
  where
    tracked : World
    tracked = record w {
      move_in_trackers =
          create
            (λ id. record {
              id = id;
              property_id = dto.property_id;
              tenancy_id = tenancy_id;
              month = utc_month join_date + 1;
              year = utc_full_year join_date;
              move_in_date = join_date;
              moved_in_date = none;
              status = MoveInStatus.waiting;
            })
            w.move_in_trackers;
    }

abbrev pub add_bed : ℕ → World → World
add_bed room_id w = record w {
  rooms =
      update_rows (λ (r : Room). r.id == room_id)
        (λ r. record r { occupied_beds = r.occupied_beds + 1 }) w.rooms;
}

-- What the transaction of `runTransaction` writes.
unfoldable pub onboard : ℕ → AddTenant → ℕ → Prorated → Option ℕ → World → World
onboard now dto join_date period existing w =
    let user_id = resolved_user_id existing w in
    let tenancy_id = w.tenancies.next_id in
    track_move_in now dto join_date tenancy_id (
      add_bed dto.room_id (
        with_dues_and_tenancy user_id tenancy_id
          (save_profile dto user_id (save_user dto existing w))))
  where
    with_dues_and_tenancy : ℕ → ℕ → World → World
    with_dues_and_tenancy user_id tenancy_id w = record w {
      tenancies = create (new_tenancy now dto join_date period.period_end user_id) w.tenancies;
      dues = create_first_dues now dto join_date period tenancy_id w.dues;
    }

-- The ids that the transaction gives out.
abbrev pub onboarded : AddTenant → Prorated → Option ℕ → World → Onboarded
onboarded dto period existing w = record {
  tenant_user_id = resolved_user_id existing w;
  tenancy_id = w.tenancies.next_id;
  rent_due_id = w.dues.next_id;
  security_deposit_due_id =
      if ceil_rupee dto.security_deposit == 0 then none else some (w.dues.next_id + 1);
  prorated_rent_amount = ceil_rupee period.prorated_amount;
}

unfoldable pub create_tenant : ℕ → AddTenant → ℕ → Action Onboarded
create_tenant now request owner_id = do
  let dto : AddTenant = record request {
    phone_number = normalize_phone_number request.phone_number;
  }
  join_date ← validate_dates now dto
  existing ← run_pre_flight_checks dto owner_id
  property ← gets (λ w. find_first (λ (p : Property). p.id == dto.property_id) w.properties)
  throw_if (is_none property) property_not_found
  period ←
      or_throw (calculate_prorated_rent join_date dto.rent_cycle_day dto.rent_amount) out_of_fuel
  locked ← gets (λ w. find_first (λ (r : Room). r.id == dto.room_id) w.rooms.rows)
  room ← or_throw locked room_not_found
  throw_if (leb room.total_beds room.occupied_beds) room_full
  duplicate ← gets (λ w. find_first (is_email_of_other dto.email existing) w.users.rows)
  throw_if (not (is_none duplicate)) duplicate_key
  made ← gets (onboarded dto period existing)
  modify (onboard now dto join_date period existing)
  emit (
      tenancy_created made.tenancy_id made.tenant_user_id dto.property_id owner_id dto.room_id
        (ceil_rupee dto.rent_amount) (ceil_rupee dto.security_deposit))
  emit (
      due_created made.rent_due_id made.tenancy_id dto.property_id rent made.prorated_rent_amount
        (ist_month now) (ist_year now))
  pure made
