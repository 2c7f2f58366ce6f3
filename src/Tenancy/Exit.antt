-- ===== src/Tenancy/Exit.antt =====
-- Tenants leave and come back: `deleteTenant` and `revokeTenancyExit` of
-- src/modules/tenent/tenent.service.ts, `reActiveTenancy` of src/modules/tenancy/tenancy.service.ts.
-- A bed count is a number that stops at 0 where the column would go below.
pub mod Back
use pg_master_backend.Prelude.{
  ℕ, Bool, true, false, not, ◌&&◌, Option, none, some, leb, ◌==◌, ltb, length,
}
use pg_master_backend.Due.{is_billable, ist_month, ist_year}
use pg_master_backend.Proration.{now_ist}
use pg_master_backend.Store.Rows.{find_first, update_many, update_rows}
use pg_master_backend.Store.Metrics.{PropertyMetrics, at_month}
use pg_master_backend.Store.Schema.{TenancyStatus, active, exited, UserRole, Tenancy, User, is_none}
use pg_master_backend.Store.World.{
  World, Action, pure, gets, or_throw, throw_if, modify, emit, ◌>>=◌, ◌>>◌, tenant_deleted,
  tenant_not_found, tenancy_not_found, access_denied, open_dues, record_missing, not_exited,
  room_not_found, room_full,
}
use pg_master_backend.Tenancy.Notice.{is_owned, profile_of, set_move_out_date}
use pg_master_backend.Tenancy.Onboarding.Create.{add_bed}
use pg_master_backend.Tenancy.Shift.{pending_dues, remove_bed, room_by_id, tenant_left, tenant_came}

abbrev pub is_tenant_user : ℕ → User → Bool
is_tenant_user tenant_id u = u.id == tenant_id && is_tenant u.role
  where
    is_tenant : UserRole → Bool
    is_tenant UserRole.tenant = true
    is_tenant _ = false

-- `tenant.tenancy[0]`; the three statuses are those of `is_billable`
abbrev pub leaving_tenancy : ℕ → ℕ → World → Option Tenancy
leaving_tenancy tenant_id property_id w =
    find_first
      (λ (t : Tenancy).
        t.tenent_id == tenant_id
        && (t.property_id == property_id && (is_billable t.tenancy_status && is_none t.deleted_at)))
      w.tenancies.rows

abbrev pub set_exited : ℕ → ℕ → World → World
set_exited now tenancy_id w = record w {
  tenancies =
      update_rows (λ (t : Tenancy). t.id == tenancy_id)
        (λ t. record t {
          tenancy_status = exited;
          deleted_at = some (now_ist now);
          left_at = some (now_ist now);
        })
        w.tenancies;
}

abbrev count_in_month : ℕ → ℕ → (PropertyMetrics → PropertyMetrics) → World → World
count_in_month now property_id f w = record w {
  property_metrics =
      update_many (at_month property_id (ist_month now) (ist_year now)) f w.property_metrics;
}

-- The transaction of `deleteTenant`.
unfoldable pub exit_tenancy : ℕ → Tenancy → World → World
exit_tenancy now t w =
    count_in_month now t.property_id tenant_left (remove_bed t.room_id (set_exited now t.id w))

unfoldable pub delete_tenant : ℕ → ℕ → ℕ → ℕ → Action ℕ
delete_tenant now tenant_id property_id owner_id = do
  user ← gets (λ w. find_first (is_tenant_user tenant_id) w.users.rows)
  throw_if (is_none user) tenant_not_found
  found ← gets (leaving_tenancy tenant_id property_id)
  tenancy ← or_throw found tenancy_not_found
  owned ← gets (is_owned owner_id tenancy.property_id)
  throw_if (not owned) access_denied
  pending ← gets (pending_dues tenancy.id)
  throw_if (ltb 0 (length pending)) open_dues
  modify (exit_tenancy now tenancy)
  emit (tenant_deleted tenancy.property_id tenant_id (now_ist now))
  pure tenancy.id

abbrev pub is_exited : TenancyStatus → Bool
is_exited exited = true
is_exited _ = false

abbrev pub exited_tenancy : ℕ → ℕ → World → Option Tenancy
exited_tenancy tenancy_id owner_id w =
    find_first
      (λ (t : Tenancy).
        t.id == tenancy_id && (is_exited t.tenancy_status && is_owned owner_id t.property_id w))
      w.tenancies.rows

-- The transaction of `revokeTenancyExit`.
unfoldable pub revoke_exit : ℕ → Tenancy → World → World
revoke_exit now t w =
    count_in_month now t.property_id tenant_came
      (activate_user (add_bed t.room_id (set_returned (λ x. record x { left_at = none }))))
  where
    set_returned : (Tenancy → Tenancy) → World
    set_returned f = record w {
      tenancies =
          update_rows (λ (x : Tenancy). x.id == t.id)
            (λ x. f (record x { tenancy_status = active; deleted_at = none })) w.tenancies;
    }

    activate_user : World → World
    activate_user w = record w {
      users =
          update_rows (λ (u : User). u.id == t.tenent_id)
            (λ u. record u { is_active = true; deleted_at = none }) w.users;
    }

unfoldable pub revoke_tenancy_exit : ℕ → ℕ → ℕ → Action ℕ
revoke_tenancy_exit now tenancy_id owner_id = do
  found ← gets (exited_tenancy tenancy_id owner_id)
  tenancy ← or_throw found tenancy_not_found
  modify (revoke_exit now tenancy)
  pure tenancy_id

-- The transaction of `reActiveTenancy`, which leaves `leftAt`.
unfoldable pub re_activate : Tenancy → World → World
re_activate t w = set_active (set_move_out_date t.tenent_id none (add_bed t.room_id w))
  where
    set_active : World → World
    set_active w = record w {
      tenancies =
          update_rows (λ (x : Tenancy). x.id == t.id)
            (λ x. record x { tenancy_status = active; deleted_at = none }) w.tenancies;
    }

unfoldable pub re_active_tenancy : ℕ → ℕ → ℕ → Action (Unit {0})
re_active_tenancy property_id owner_id tenancy_id = do
  owned ← gets (is_owned owner_id property_id)
  throw_if (not owned) access_denied
  found ← gets (λ w.
      find_first (λ (t : Tenancy). t.id == tenancy_id && t.property_id == property_id)
        w.tenancies.rows)
  tenancy ← or_throw found tenancy_not_found
  throw_if (not (is_exited tenancy.tenancy_status)) not_exited
  its_room ← gets (room_by_id tenancy.room_id)
  room ← or_throw its_room room_not_found
  throw_if (leb room.total_beds room.occupied_beds) room_full
  profile ← gets (profile_of tenancy.tenent_id)
  throw_if (is_none profile) record_missing
  modify (re_activate tenancy)
