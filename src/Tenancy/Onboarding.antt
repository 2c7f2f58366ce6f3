-- ===== src/Tenancy/Onboarding.antt =====
-- The checks of `createTenant` of src/modules/tenancy/tenancy.service.ts; Create has the rest.
-- Dates are numbers of milliseconds, months and days counts; the texts of people and addresses are
-- left out. A joining date that is not a date is `none`.
pub mod Create
pub mod Dues
use text.Mathlib.Text.{◌==◌ as str_eq}
use pg_master_backend.Prelude.{
  ℕ, ◌+◌, ◌*◌, String, Bool, true, false, not, ◌&&◌, Option, none, some, List, [], ◌∷◌, ltb, leb,
  ◌==◌, if◌then◌else◌, includes,
}
use pg_master_backend.Calendar.{ms_per_day, utc_month, utc_full_year}
use pg_master_backend.Due.{ceil_rupee, ist_month, ist_year}
use pg_master_backend.Phone.{normalize_phone_number, phone_search_variants, is_one_of}
use pg_master_backend.Proration.{Prorated, calculate_prorated_rent, to_date_only, today_ist}
use pg_master_backend.Store.Rows.{Table, find_first, create, update_rows}
use pg_master_backend.Store.Requests.{MoveInStatus, MoveInTracker}
use pg_master_backend.Store.Metrics.{upsert}
use pg_master_backend.Store.Schema.{
  DueType, rent, security_deposit, unpaid, UserRole, TenancyStatus, active, notice_period, Due,
  Tenancy, Room, Property, User, TenentProfile, is_none,
}
use pg_master_backend.Store.World.{
  World, Fault, Result, err, Action, pure, throw, gets, or_throw, throw_if, modify, emit, ◌>>=◌,
  ◌>>◌, due_created, bad_date, too_far, bad_move_out, lock_in_too_long, email_taken, blocked_user,
  not_a_tenant, has_tenancy, property_not_found, access_denied, room_not_found, wrong_room,
  record_missing, room_full, duplicate_key,
}
use pg_master_backend.Tenancy.Notice.{parse_date_utc, is_owned}

pub record AddTenant : Type 0 where
  pub phone_number : List ℕ
  pub email : Option String
  pub property_id : ℕ
  pub room_id : ℕ
  pub joining_date : Option ℕ
  pub move_out_date : Option (List (Option ℕ))
  pub lock_in_period_in_months : Option ℕ
  pub agreement_period_in_months : Option ℕ
  pub rent_amount : ℕ
  pub security_deposit : ℕ
  pub rent_cycle_day : ℕ

-- What `createTenant` returns, but for texts.
pub record Onboarded : Type 0 where
  pub tenant_user_id : ℕ
  pub tenancy_id : ℕ
  pub rent_due_id : ℕ
  pub security_deposit_due_id : Option ℕ
  pub prorated_rent_amount : ℕ

-- `MAX_FUTURE_JOINING_DAYS`
abbrev pub max_future_joining_days : ℕ
max_future_joining_days = 90

abbrev check_move_out : Option (List (Option ℕ)) → ℕ → Action (Unit {0})
check_move_out none join_date = pure tt
check_move_out (some parts) join_date = do
  move_out ← or_throw (parse_date_utc parts) bad_move_out
  throw_if (leb move_out join_date) bad_move_out

-- `a && b && a > b`, of which a 0 counts as missing
abbrev exceeds : Option ℕ → Option ℕ → Bool
exceeds (some a) (some b) = not (b == 0) && ltb b a
exceeds _ _ = false

unfoldable pub validate_dates : ℕ → AddTenant → Action ℕ
validate_dates now dto = do
  joining ← or_throw dto.joining_date bad_date
  let join_date = to_date_only joining
  throw_if (ltb (today_ist now + max_future_joining_days * ms_per_day) join_date) too_far
  check_move_out dto.move_out_date join_date
  throw_if (exceeds dto.lock_in_period_in_months dto.agreement_period_in_months) lock_in_too_long
  pure join_date

abbrev pub has_email : String → User → Bool
has_email email u = elim u.email [ none ↦ false | some e ↦ str_eq e email ]

abbrev pub user_by_phone : List ℕ → World → Option User
user_by_phone phone w =
    find_first
      (λ (u : User). is_one_of (phone_search_variants phone) u.phone_number && is_none u.deleted_at)
      w.users.rows

abbrev pub user_by_email : Option String → World → Option User
user_by_email none w = none
user_by_email (some email) w =
    find_first (λ (u : User). has_email email u && is_none u.deleted_at) w.users.rows

abbrev is_tenant_role : UserRole → Bool
is_tenant_role UserRole.tenant = true
is_tenant_role _ = false

-- The tenancies that the query takes along with the user.
abbrev pub is_current_in : ℕ → ℕ → Tenancy → Bool
is_current_in user_id property_id t =
    t.tenent_id == user_id && (t.property_id == property_id && is_current t.tenancy_status)
  where
    is_current : TenancyStatus → Bool
    is_current active = true
    is_current notice_period = true
    is_current _ = false

-- `resolveUserfromPerFlight`: the id of the user that is there, or none for a new one. Every status
-- that the query lets through is one of `BLOCKING_TENANCY_STATUSES`.
unfoldable pub resolve_user : AddTenant → Option User → Option User → Action (Option ℕ)
resolve_user dto none conflict = do throw_if (not (is_none conflict)) email_taken; pure none
resolve_user dto (some user) conflict = do
  throw_if user.is_blocked_by_admin blocked_user
  throw_if (not (is_tenant_role user.role)) not_a_tenant
  blocking ← gets (λ w. find_first (is_current_in user.id dto.property_id) w.tenancies.rows)
  throw_if (not (is_none blocking)) has_tenancy
  pure (some user.id)

-- `diagnosePropertyRoomFailuer` throws whatever it finds.
unfoldable pub diagnose_property_room_failure : ℕ → ℕ → ℕ → World → Fault
diagnose_property_room_failure property_id room_id owner_id w =
    by_property (find_first (λ (p : Property). p.id == property_id) w.properties)
  where
    by_room : Option Room → Fault
    by_room none = room_not_found
    by_room (some r) = if r.property_id == property_id then record_missing else wrong_room

    by_property : Option Property → Fault
    by_property none = property_not_found
    by_property (some p) =
        if p.owner_id == owner_id
        then by_room (find_first (λ (r : Room). r.id == room_id) w.rooms.rows)
        else access_denied

abbrev pub owned_room : ℕ → ℕ → ℕ → World → Option Room
owned_room room_id property_id owner_id w =
    find_first
      (λ (r : Room).
        r.id == room_id && (r.property_id == property_id && is_owned owner_id r.property_id w))
      w.rooms.rows

unfoldable pub run_pre_flight_checks : AddTenant → ℕ → Action (Option ℕ)
run_pre_flight_checks dto owner_id = do
  existing ← gets (user_by_phone dto.phone_number)
  conflict ← gets (user_by_email dto.email)
  property_room ← gets (owned_room dto.room_id dto.property_id owner_id)
  reason ← gets (diagnose_property_room_failure dto.property_id dto.room_id owner_id)
  room ← or_throw property_room reason
  throw_if (leb room.total_beds room.occupied_beds) room_full
  resolve_user dto existing conflict
