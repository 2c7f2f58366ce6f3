-- ===== src/Tenancy/Requests/Again.antt =====
-- Asking to move out twice.
use pg_master_backend.Prelude.{ℕ, ◌≡◌, refl, ap, ◌⊎◌, inl, inr, Option, none, arith, Option-cases}
use pg_master_backend.Store.Rows.{find_first, find_first-snoc, create}
use pg_master_backend.Store.Schema.{Tenancy}
use pg_master_backend.Store.World.{World, Fault, ok, err, tenancy_not_found, request_pending}
use pg_master_backend.Tenancy.Requests.{is_pending_move_out, new_move_out, request_move_out}
use pg_master_backend.Tenancy.Shift.Requests.{own_tenancy}

abbrev with_request : ℕ → ℕ → ℕ → ℕ → World → World
with_request tenant_id tenancy_id property_id date w = record w {
  move_out_requests =
      create (new_move_out tenant_id tenancy_id property_id date) w.move_out_requests;
}

request_move_out-outcome :
    (tenant_id property_id date : ℕ) (w : World)
    → ((e : Fault) × (request_move_out tenant_id property_id date w ≡ (err e, w)))
      ⊎ ((t : Tenancy) × (own_tenancy tenant_id property_id w ≡ Option.some t)
          × (find_first (is_pending_move_out t.id) w.move_out_requests.rows ≡ none)
          × (request_move_out tenant_id property_id date w
              ≡ (ok w.move_out_requests.next_id, with_request tenant_id t.id property_id date w)))
unfolding request_move_out
request_move_out-outcome tenant_id property_id date w =
    elim (Option-cases (own_tenancy tenant_id property_id w)) [
      | inl missing ↦ inl (tenancy_not_found, rw missing refl)
      | inr (t, found) ↦
          elim (Option-cases (find_first (is_pending_move_out t.id) w.move_out_requests.rows)) [
            | inl fresh ↦ inr (t, found, fresh, rw (found, fresh) refl)
            | inr (r, waits) ↦ inl (request_pending, rw (found, waits) refl)
          ]
    ]

-- A tenant whose request to move out was accepted cannot make another one for the same property, for
-- whatever date: while nothing else happens, the second is refused as pending and changes nothing.
pub request_move_out_again :
    (tenant_id property_id date date' : ℕ) (w : World) {id : ℕ}
    → (request_move_out tenant_id property_id date w).0 ≡ ok id
    → let w' = (request_move_out tenant_id property_id date w).1 in
      request_move_out tenant_id property_id date' w' ≡ (err request_pending, w')
unfolding request_move_out
request_move_out_again tenant_id property_id date date' w accepted =
    elim (request_move_out-outcome tenant_id property_id date w) [
      | inl (e, threw) ↦ cc (accepted, ap (λ r. r.0) threw)
      | inr (t, found, fresh, done) ↦
          let waits =
            find_first-snoc (is_pending_move_out t.id) w.move_out_requests.rows
              (new_move_out tenant_id t.id property_id date w.move_out_requests.next_id) fresh
              (ground arith) in
          rw (ap (λ r. r.1) done) (rw (found, waits) refl)
    ]
