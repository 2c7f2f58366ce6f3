-- ===== src/Tenancy/Details.antt =====
-- `updateTenancyDetails` of src/modules/tenancy/tenancy.service.ts. Periods in months or days and the
-- type of rental, which only go from the request to their columns, are left out, but that they make
-- the profile be written.
use pg_master_backend.Prelude.{ℕ, Bool, not, ◌&&◌, ◌||◌, Option, none, some, List, ◌==◌}
use pg_master_backend.Store.Rows.{update_rows}
use pg_master_backend.Store.Schema.{TenancyStatus, active, notice_period, Tenancy, is_none}
use pg_master_backend.Store.World.{
  World, Action, pure, gets, or_throw, throw_if, modify, ◌>>=◌, ◌>>◌, tenancy_not_found,
  record_missing,
}
use pg_master_backend.Tenancy.Notice.{
  parse_and_validate_move_out_date, is_staying, tenancy_where, profile_of, set_move_out_date,
}

-- A move-out date is left alone, or taken away by an empty text, or set.
pub data MoveOutEdit : Type 0 where
  keep clear : MoveOutEdit
  set : List (Option ℕ) → MoveOutEdit

pub record EditTenancy : Type 0 where
  pub move_out : MoveOutEdit
  pub rent_amount : Option ℕ
  -- whether another column of the profile is asked for
  pub edits_profile : Bool

-- The status to write and the date to write, `none` for neither.
abbrev pub read_move_out : ℕ → MoveOutEdit → ℕ → Action (Option (TenancyStatus × Option ℕ))
read_move_out now keep joined_at = pure none
read_move_out now clear joined_at = pure (some (active, none))
read_move_out now (set parts) joined_at = do
  date ← parse_and_validate_move_out_date now parts joined_at
  pure (some (notice_period, some date))

abbrev pub new_status : Option (TenancyStatus × Option ℕ) → TenancyStatus → TenancyStatus
new_status none status = status
new_status (some change) status = change.0

abbrev new_rent : Option ℕ → ℕ → ℕ
new_rent none rent = rent
new_rent (some amount) rent = amount

abbrev pub edit_tenancy : ℕ → EditTenancy → Option (TenancyStatus × Option ℕ) → World → World
edit_tenancy tenancy_id dto change w = record w {
  tenancies =
      update_rows (λ (t : Tenancy). t.id == tenancy_id)
        (λ t. record t {
          tenancy_status = new_status change t.tenancy_status;
          rent_amount = new_rent dto.rent_amount t.rent_amount;
        })
        w.tenancies;
}

abbrev pub edit_profile : ℕ → Option (TenancyStatus × Option ℕ) → World → World
edit_profile user_id none w = w
edit_profile user_id (some change) w = set_move_out_date user_id change.1 w

unfoldable pub update_tenancy_details : ℕ → ℕ → ℕ → EditTenancy → Action (Unit {0})
update_tenancy_details now tenancy_id owner_id dto = do
  found ← gets (tenancy_where tenancy_id owner_id is_staying)
  tenancy ← or_throw found tenancy_not_found
  change ← read_move_out now dto.move_out tenancy.joined_at
  profile ← gets (profile_of tenancy.tenent_id)
  throw_if (is_none profile && (dto.edits_profile || not (is_none change))) record_missing
  modify (edit_tenancy tenancy_id dto change)
  modify (edit_profile tenancy.tenent_id change)
