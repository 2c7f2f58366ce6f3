-- ===== src/Due/Ledger.antt =====
-- Collections keep the books: what is owed and what was collected add up to the same.
use pg_master_backend.Prelude.{
  ℕ, ◌+◌, ◌≤◌, ◌<◌, ◌≡◌, refl, inl, inr, some, [], ◌∷◌, sum_by-append, arith, ◌==◌,
}
use pg_master_backend.Store.Rows.{find_first, find_first-All}
use pg_master_backend.Store.Ids.{
  IsKeyed-update_rows, IsKeyed-create, sum_by-update_id, All-update_id, find_first_own_id,
}
use pg_master_backend.Store.Schema.{Due, DuePayment}
use pg_master_backend.Store.World.{World}
use pg_master_backend.Due.{
  CollectDue, ceil_rupee, set_collected, collected_payment, record_collection, collect_due,
}
use pg_master_backend.Due.Invariant.{
  IsBalanced, IsConsistent, collected_due-IsBalanced, outstanding, collected,
}
use pg_master_backend.Due.Collect.{collect_due-outcome}

module _ (amount by : ℕ) (dto : CollectDue) (due : Due) (w : World) (ok_w : IsConsistent w) where
  module _ (low : 0 < amount) (high : amount ≤ due.balance_amount)
      (found : find_first (λ (d : Due). d.id == dto.due_id) w.dues.rows ≡ some due) where
    found_self : find_first (λ (d : Due). d.id == due.id) w.dues.rows ≡ some due
    found_self = find_first_own_id (λ (d : Due). d.id) dto.due_id w.dues.rows found

    pub record_collection-IsConsistent : IsConsistent (record_collection dto amount by due w)
    unfolding record_collection
    record_collection-IsConsistent = record {
      balanced =
          All-update_id (λ (d : Due). d.id) IsBalanced due.id (set_collected amount due) w.dues.rows
            ok_w.dues_keyed.0 found_self
            (collected_due-IsBalanced amount due low high (
              find_first-All IsBalanced (λ (d : Due). d.id == dto.due_id) w.dues.rows ok_w.balanced
                found))
            ok_w.balanced;
      dues_keyed =
          IsKeyed-update_rows (λ (d : Due). d.id) (λ d. d.id == due.id) (set_collected amount due)
            (λ d. refl) w.dues ok_w.dues_keyed;
      payments_keyed =
          IsKeyed-create (λ (p : DuePayment). p.id) (collected_payment dto amount by due)
            (λ i. refl) w.due_payments ok_w.payments_keyed;
    }

    pub record_collection_conserves :
        outstanding (record_collection dto amount by due w)
          + collected (record_collection dto amount by due w)
        ≡ outstanding w + collected w
    unfolding record_collection
    record_collection_conserves = omega (
      arith,
      sum_by-append (λ (p : DuePayment). p.amount) w.due_payments.rows
          (collected_payment dto amount by due w.due_payments.next_id ∷ []),
      sum_by-update_id (λ (d : Due). d.id) (λ (d : Due). d.balance_amount) due.id
          (set_collected amount due) w.dues.rows ok_w.dues_keyed.0 found_self,
    )

-- Whatever a collection does, the state stays consistent, and what is owed and what was collected
-- add up to the same.
pub collect_due_conserves :
    (dto : CollectDue) (by : ℕ) (w : World)
    → IsConsistent w
    → IsConsistent (collect_due dto by w).1
      × (outstanding (collect_due dto by w).1 + collected (collect_due dto by w).1
          ≡ outstanding w + collected w)
collect_due_conserves dto by w ok_w = elim (collect_due-outcome dto by w) [
  | inl (e, same) ↦ rw same (ok_w, refl)
  | inr (due, found, fits, done) ↦
      let amount = ceil_rupee dto.amount in
      let c =
        record_collection-IsConsistent amount by dto due w ok_w fits.positive fits.covered found in
      let m =
        record_collection_conserves amount by dto due w ok_w fits.positive fits.covered found in
      rw done (
        record {
          balanced = c.balanced;
          dues_keyed = c.dues_keyed;
          payments_keyed = c.payments_keyed;
        },
        m,
      )
]
