-- ===== src/Tenancy/Requests.antt =====
-- `requestMoveOut` of src/modules/tenent/tenent.service.ts.
pub mod Again
use pg_master_backend.Prelude.{ℕ, Bool, not, ◌&&◌, ◌==◌}
use pg_master_backend.Store.Rows.{find_first, create}
use pg_master_backend.Store.Schema.{RequestStatus, MoveOutRequest, is_none}
use pg_master_backend.Store.World.{
  Action, pure, gets, or_throw, throw_if, modify, ◌>>=◌, ◌>>◌, tenancy_not_found, request_pending,
}
use pg_master_backend.Tenancy.Notice.{is_pending}
use pg_master_backend.Tenancy.Shift.Requests.{own_tenancy}

abbrev pub is_pending_move_out : ℕ → MoveOutRequest → Bool
is_pending_move_out tenancy_id r = r.tenancy_id == tenancy_id && is_pending r.status

abbrev pub new_move_out : ℕ → ℕ → ℕ → ℕ → ℕ → MoveOutRequest
new_move_out tenant_id tenancy_id property_id date id = record {
  id = id;
  tenant_id = tenant_id;
  tenancy_id = tenancy_id;
  property_id = property_id;
  status = RequestStatus.pending;
  requested_move_out_date = date;
}

unfoldable pub request_move_out : ℕ → ℕ → ℕ → Action ℕ
request_move_out tenant_id property_id requested_date = do
  found ← gets (own_tenancy tenant_id property_id)
  tenancy ← or_throw found tenancy_not_found
  existing ← gets (λ w. find_first (is_pending_move_out tenancy.id) w.move_out_requests.rows)
  throw_if (not (is_none existing)) request_pending
  id ← gets (λ w. w.move_out_requests.next_id)
  modify (λ w. record w {
    move_out_requests =
        create (new_move_out tenant_id tenancy.id property_id requested_date) w.move_out_requests;
  })
  pure id
