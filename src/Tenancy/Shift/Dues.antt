-- ===== src/Tenancy/Shift/Dues.antt =====
-- The dues of a tenant who changes rooms.
use pg_master_backend.Prelude.{
  ℕ, ◌+◌, ◌≡◌, refl, sym, ap, ◌∙◌, inl, inr, Bool, true, false, not, ◌||◌, ◌&&◌, if◌then◌else◌,
  List, [], ◌==◌, arith, All, sum_by, Bool-cases, All-weaken,
}
use pg_master_backend.Due.{ist_month, ist_year}
use pg_master_backend.Due.Invariant.{IsBalanced, IsConsistent, outstanding}
use pg_master_backend.Store.Metrics.{PropertyMetrics}
use pg_master_backend.Store.Rows.{All-update_many, All-updated, sum_by-update_same}
use pg_master_backend.Store.Ids.{IsKeyed-update_rows}
use pg_master_backend.Store.Schema.{Due, Tenancy}
use pg_master_backend.Store.World.{World, Result, ok, err}
use pg_master_backend.Tenancy.Shift.{
  ShiftRoom, Shifted, is_open_due_of, pending_dues, group_by_month, move_buckets, move_tenant,
  move_records, shift_tenancy, shifted, shift_tenant_room,
}
use pg_master_backend.Tenancy.Shift.Unpaid.{
  balance, added_unpaid, taken_unpaid, counted_balance, move_buckets_added, move_buckets_taken,
  move_tenant_unpaid, group_by_month_total, group_by_month_counted,
}
use pg_master_backend.Tenancy.Occupancy.Shifts.{destination_of, shift_tenant_room-outcome}

abbrev is_moved : Shifted → Due → Bool
is_moved r d =
    not r.is_cross_property
    || (not (is_open_due_of r.tenancy_id d) || d.property_id == r.to_property_id)

-- What a shift leaves of the dues.
pub record IsMoved (r : Shifted) (before after : World) : Type 0 where
  pub consistent : IsConsistent after
  pub same_owed : outstanding after ≡ outstanding before
  pub transferred :
      r.total_pending_balance_transferred
      ≡ (if r.is_cross_property then sum_by balance (pending_dues r.tenancy_id before) else 0)
  pub added :
      (property_id : ℕ)
      → added_unpaid property_id after.property_metrics
        ≡ added_unpaid property_id before.property_metrics
          + (if property_id == r.to_property_id then r.total_pending_balance_transferred else 0)
  pub taken :
      (property_id : ℕ)
      → taken_unpaid property_id after.property_metrics
        ≡ taken_unpaid property_id before.property_metrics
          + (if r.is_cross_property && property_id == r.from_property_id
              then counted_balance r.from_property_id before.property_metrics
                  (pending_dues r.tenancy_id before)
              else 0)
  pub none_left : All (λ d. is_moved r d ≡ true) after.dues.rows

module _ (now : ℕ) (t : Tenancy) (new_property : ℕ) (w : World) (property_id : ℕ) where
  abbrev moved_metrics : List PropertyMetrics
  moved_metrics = move_tenant (ist_month now) (ist_year now) t.property_id new_property (
      move_buckets t.property_id new_property (group_by_month (pending_dues t.id w) [])
        w.property_metrics)

  shift_added :
      added_unpaid property_id moved_metrics
      ≡ added_unpaid property_id w.property_metrics
        + (if property_id == new_property then sum_by balance (pending_dues t.id w) else 0)
  shift_added =
      let buckets = group_by_month (pending_dues t.id w) [] in
      (move_tenant_unpaid t.property_id new_property property_id (ist_month now) (ist_year now)
        (move_buckets t.property_id new_property buckets w.property_metrics)).0
      ∙ move_buckets_added t.property_id new_property property_id buckets w.property_metrics
      ∙ ap
          (λ n.
            added_unpaid property_id w.property_metrics
            + (if property_id == new_property then n else 0))
          (group_by_month_total (pending_dues t.id w))

  shift_taken :
      (new_property == t.property_id) ≡ false
      → taken_unpaid property_id moved_metrics
        ≡ taken_unpaid property_id w.property_metrics
          + (if property_id == t.property_id
              then counted_balance t.property_id w.property_metrics (pending_dues t.id w)
              else 0)
  shift_taken apart =
      let buckets = group_by_month (pending_dues t.id w) [] in
      (move_tenant_unpaid t.property_id new_property property_id (ist_month now) (ist_year now)
        (move_buckets t.property_id new_property buckets w.property_metrics)).1
      ∙ move_buckets_taken t.property_id new_property property_id apart buckets w.property_metrics
      ∙ ap
          (λ n.
            taken_unpaid property_id w.property_metrics
            + (if property_id == t.property_id then n else 0))
          (group_by_month_counted t.property_id w.property_metrics (pending_dues t.id w))

shift_tenancy-IsMoved :
    (now : ℕ) (t : Tenancy) (new_room new_property : ℕ) (w : World)
    → IsConsistent w
    → IsMoved (shifted t new_property w) w (shift_tenancy now t new_room new_property w)
unfolding shift_tenancy move_records shifted
shift_tenancy-IsMoved now t new_room new_property w ok_w =
    let to_new = λ (d : Due). record d { property_id = new_property } in
    elim (Bool-cases (new_property == t.property_id)) [
      | inl stays ↦ rw stays (record {
        consistent = record {
          balanced = ok_w.balanced;
          dues_keyed = ok_w.dues_keyed;
          payments_keyed = ok_w.payments_keyed;
        };
        same_owed = refl;
        transferred = refl;
        added = λ property_id. ground arith;
        taken = λ property_id. omega arith;
        none_left =
            All-weaken IsBalanced (λ d. true ≡ true) w.dues.rows (λ d b. refl) ok_w.balanced;
      })
      | inr crosses ↦ rw crosses (record {
        consistent = record {
          balanced =
              All-update_many IsBalanced (is_open_due_of t.id) to_new w.dues.rows
                (λ d hit b. record {
                  adds_up = b.adds_up;
                  unpaid_untouched = b.unpaid_untouched;
                  partial_open = b.partial_open;
                  paid_closed = b.paid_closed;
                })
                ok_w.balanced;
          dues_keyed =
              IsKeyed-update_rows (λ (d : Due). d.id) (is_open_due_of t.id) to_new (λ d. refl)
                w.dues ok_w.dues_keyed;
          payments_keyed = ok_w.payments_keyed;
        };
        same_owed = sum_by-update_same balance (is_open_due_of t.id) to_new w.dues.rows (λ d. refl);
        transferred = refl;
        added = λ property_id. shift_added now t new_property w property_id;
        taken = λ property_id. shift_taken now t new_property w property_id crosses;
        none_left =
            All-updated
              (λ d.
                (false || (not (is_open_due_of t.id d) || d.property_id == new_property)) ≡ true)
              (is_open_due_of t.id) to_new w.dues.rows (λ d. ground arith);
      })
    ]

shifted_is : {a b : Shifted} → Result.ok a ≡ ok b → a ≡ b
shifted_is {a} e = ap (λ r. elim r [ ok x ↦ x | err x ↦ a ]) e

-- From a consistent state: a shift that is accepted keeps the state consistent and what is owed the
-- same. If it goes to another property, no open due of the tenancy is left at any other property than
-- the new one, and the answer shows their balance as transferred; else it shows 0. In the metrics, over
-- all months, what is added to the unpaid dues of the new property is exactly the transferred balance,
-- what is taken from those of the old one is the balance of the open dues, each as often as the old
-- property has a row for the due's month, and nothing else is added or taken for any property.
pub shift_tenant_room_dues :
    (now : ℕ) (dto : ShiftRoom) (owner_id : ℕ) (w : World) {r : Shifted}
    → IsConsistent w
    → (shift_tenant_room now dto owner_id w).0 ≡ ok r
    → IsMoved r w (shift_tenant_room now dto owner_id w).1
shift_tenant_room_dues now dto owner_id w {r} ok_w accepted =
    elim (shift_tenant_room-outcome now dto owner_id w) [
      | inl (e, threw) ↦ cc (accepted, ap (λ r. r.0) threw)
      | inr (t, (room, fits, done)) ↦
          let r_is = shifted_is (sym accepted ∙ ap (λ r. r.0) done) in
          rw (ap (λ r. r.1) done, r_is)
            (shift_tenancy-IsMoved now t dto.new_room_id (destination_of dto t) w ok_w)
    ]
