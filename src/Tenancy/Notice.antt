-- ===== src/Tenancy/Notice.antt =====
-- `putOnNoticePeriod`, `cancelNoticePeriod`, `approveMoveOutRequest` and `rejectMoveOutRequest` of
-- src/modules/tenancy/tenancy.service.ts. Reasons of rejections are left out. An update of a profile
-- that is not there makes the whole database transaction fail.
pub mod Cancel
use pg_master_backend.Prelude.{
  ℕ, ◌-◌, Bool, true, false, not, ◌&&◌, Option, none, some, List, [], ◌∷◌, ltb, leb, ◌==◌,
  if◌then◌else◌,
}
use pg_master_backend.Calendar.{date_utc}
use pg_master_backend.Proration.{to_date_only, today_ist}
use pg_master_backend.Store.Rows.{Table, find_first, update_many, update_rows}
use pg_master_backend.Store.Schema.{
  TenancyStatus, active, notice_period, RequestStatus, approved, rejected, Tenancy, Property,
  MoveOutRequest, TenentProfile, is_none,
}
use pg_master_backend.Store.World.{
  World, Fault, Result, ok, err, Action, pure, throw, gets, or_throw, throw_if, modify, ◌>>=◌, ◌>>◌,
  tenancy_not_found, profile_incomplete, bad_date, date_in_past, not_after_joining,
  request_not_found, tenancy_not_active, record_missing,
}

-- `parseDateUTC`, from the parts of the text as `Number` reads them, `none` for NaN; month 0 is the
-- December before.
unfoldable pub parse_date_utc : List (Option ℕ) → Option ℕ
parse_date_utc (some year ∷ some month ∷ some day ∷ []) =
    some (if month == 0 then date_utc (year - 1) 11 day else date_utc year (month - 1) day)
parse_date_utc _ = none

unfoldable pub validate_move_out : ℕ → ℕ → ℕ → Action ℕ
validate_move_out now move_out join_date = do
  throw_if (ltb move_out (today_ist now)) date_in_past
  throw_if (leb move_out (to_date_only join_date)) not_after_joining
  pure move_out

unfoldable pub parse_and_validate_move_out_date : ℕ → List (Option ℕ) → ℕ → Action ℕ
parse_and_validate_move_out_date now parts join_date = do
  move_out ← or_throw (parse_date_utc parts) bad_date
  validate_move_out now move_out join_date

abbrev pub is_on_notice : TenancyStatus → Bool
is_on_notice notice_period = true
is_on_notice _ = false

abbrev pub is_staying : TenancyStatus → Bool
is_staying active = true
is_staying notice_period = true
is_staying _ = false

abbrev pub is_active : TenancyStatus → Bool
is_active active = true
is_active _ = false

abbrev pub is_pending : RequestStatus → Bool
is_pending RequestStatus.pending = true
is_pending _ = false

-- `property: { ownerId: ownerUserId }`
abbrev pub is_owned : ℕ → ℕ → World → Bool
is_owned owner_id property_id w = not (
    is_none
      (find_first (λ (p : Property). p.id == property_id && p.owner_id == owner_id) w.properties))

abbrev pub tenancy_where : ℕ → ℕ → (TenancyStatus → Bool) → World → Option Tenancy
tenancy_where tenancy_id owner_id fits w =
    find_first
      (λ (t : Tenancy).
        t.id == tenancy_id
        && (fits t.tenancy_status && (is_none t.deleted_at && is_owned owner_id t.property_id w)))
      w.tenancies.rows

abbrev pub profile_of : ℕ → World → Option TenentProfile
profile_of user_id w = find_first (λ (p : TenentProfile). p.user_id == user_id) w.profiles

abbrev pub set_tenancy_status : ℕ → TenancyStatus → World → World
set_tenancy_status tenancy_id status w = record w {
  tenancies =
      update_rows (λ (t : Tenancy). t.id == tenancy_id) (λ t. record t { tenancy_status = status })
        w.tenancies;
}

abbrev pub set_move_out_date : ℕ → Option ℕ → World → World
set_move_out_date user_id date w = record w {
  profiles =
      update_many (λ (p : TenentProfile). p.user_id == user_id)
        (λ p. record p { move_out_date = date }) w.profiles;
}

abbrev pub reject_pending : ℕ → World → World
reject_pending tenancy_id w = record w {
  move_out_requests =
      update_rows (λ (r : MoveOutRequest). r.tenancy_id == tenancy_id && is_pending r.status)
        (λ r. record r { status = rejected }) w.move_out_requests;
}

abbrev pub set_request_status : ℕ → RequestStatus → World → World
set_request_status request_id status w = record w {
  move_out_requests =
      update_rows (λ (r : MoveOutRequest). r.id == request_id) (λ r. record r { status = status })
        w.move_out_requests;
}

unfoldable pub put_on_notice_period : ℕ → ℕ → ℕ → List (Option ℕ) → Action ℕ
put_on_notice_period now tenancy_id owner_id move_out_date = do
  found ← gets (tenancy_where tenancy_id owner_id is_staying)
  tenancy ← or_throw found tenancy_not_found
  profile ← gets (profile_of tenancy.tenent_id)
  throw_if (is_none profile) profile_incomplete
  move_out ← parse_and_validate_move_out_date now move_out_date tenancy.joined_at
  modify (λ w.
      if is_active tenancy.tenancy_status then set_tenancy_status tenancy_id notice_period w else w)
  modify (set_move_out_date tenancy.tenent_id (some move_out))
  modify (reject_pending tenancy_id)
  pure move_out

unfoldable pub cancel_notice_period : ℕ → ℕ → Action ℕ
cancel_notice_period tenancy_id owner_id = do
  found ← gets (tenancy_where tenancy_id owner_id is_on_notice)
  tenancy ← or_throw found tenancy_not_found
  profile ← gets (profile_of tenancy.tenent_id)
  throw_if (is_none profile) record_missing
  modify (set_tenancy_status tenancy_id active)
  modify (set_move_out_date tenancy.tenent_id none)
  modify (reject_pending tenancy_id)
  pure tenancy_id

abbrev pub pending_request : ℕ → ℕ → World → Option MoveOutRequest
pending_request request_id owner_id w =
    find_first
      (λ (r : MoveOutRequest).
        r.id == request_id && (is_pending r.status && is_owned owner_id r.property_id w))
      w.move_out_requests.rows

-- The request's date goes through its text, which stands for its UTC midnight.
unfoldable pub approve_move_out_request : ℕ → ℕ → ℕ → Action ℕ
approve_move_out_request now request_id owner_id = do
  found ← gets (pending_request request_id owner_id)
  request ← or_throw found request_not_found
  its_tenancy ←
      gets (λ w. find_first (λ (t : Tenancy). t.id == request.tenancy_id) w.tenancies.rows)
  tenancy ← or_throw its_tenancy record_missing
  throw_if (not (is_none tenancy.deleted_at)) tenancy_not_active
  throw_if (not (is_active tenancy.tenancy_status)) tenancy_not_active
  profile ← gets (profile_of tenancy.tenent_id)
  throw_if (is_none profile) profile_incomplete
  move_out ← validate_move_out now (to_date_only request.requested_move_out_date) tenancy.joined_at
  own_profile ← gets (profile_of request.tenant_id)
  throw_if (is_none own_profile) record_missing
  modify (set_request_status request_id approved)
  modify (set_tenancy_status request.tenancy_id notice_period)
  modify (set_move_out_date request.tenant_id (some move_out))
  pure request_id

unfoldable pub reject_move_out_request : ℕ → ℕ → Action ℕ
reject_move_out_request request_id owner_id = do
  found ← gets (pending_request request_id owner_id)
  or_throw found request_not_found
  modify (set_request_status request_id rejected)
  pure request_id
