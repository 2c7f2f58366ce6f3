-- ===== src/Billing/Tests.antt =====
-- Dues of the sample database, edited and deleted.
use pg_master_backend.Prelude.{
  ◌+◌, ◌-◌, ◌≡◌, refl, ◌⊎◌, true, false, none, some, [], ◌∷◌, arith, ◌==◌,
}
use pg_master_backend.Billing.{EditDue, owned_due, delete_due, new_total, edit_due}
use pg_master_backend.Billing.Deletion.{delete_due_owes, delete_due_half, metrics_of}
use pg_master_backend.Billing.Balance.{edit_due_owes}
use pg_master_backend.Due.Invariant.{IsConsistent, outstanding}
use pg_master_backend.Store.Metrics.{empty_metrics}
use pg_master_backend.Store.Rows.{find_first}
use pg_master_backend.Store.References.{any_referenced, remove_dues, names_one_of, is_referenced}
use pg_master_backend.Store.Schema.{Due, is_none}
use pg_master_backend.Store.World.{World, ok, err, record_missing, still_referenced, due_not_found}
use pg_master_backend.Store.Samples.{water_due, sample_world}

-- No payment of the dues was started yet.
abbrev unnamed_world : World
unnamed_world = record sample_world {
  transactions = record { rows = []; next_id = 3 };
  transaction_dues = record { rows = []; next_id = 3 };
}

abbrev counted_world : World
counted_world = record unnamed_world { property_metrics = empty_metrics 5 3 2026 ∷ [] }

unnamed_world-IsConsistent : IsConsistent unnamed_world
unnamed_world-IsConsistent = record {
  balanced = ground arith;
  dues_keyed = ground arith;
  payments_keyed = ground arith;
}

counted_world-IsConsistent : IsConsistent counted_world
counted_world-IsConsistent = record {
  balanced = ground arith;
  dues_keyed = ground arith;
  payments_keyed = ground arith;
}

deleted : (delete_due 1 1 counted_world).0 ≡ ok 1
unfolding delete_due any_referenced remove_dues names_one_of
deleted = refl

half_deleted : (delete_due 1 1 unnamed_world).0 ≡ err record_missing
unfolding delete_due any_referenced remove_dues names_one_of
half_deleted = refl

-- Due 1 of the sample database is in a payment attempt.
refused : delete_due 1 1 sample_world ≡ (err still_referenced, sample_world)
unfolding delete_due any_referenced
refused = refl

delete_due_owes_example :
    let w' = (delete_due 1 1 counted_world).1 in
    IsConsistent w'
    × (find_first (λ (x : Due). x.id == 1) w'.dues.rows ≡ none)
    × (is_referenced counted_world 1 ≡ false)
    × ((d : Due) × (owned_due 1 1 counted_world ≡ some d)
        × (d.paid_amount ≡ 0)
        × (outstanding w' + d.balance_amount ≡ outstanding counted_world))
delete_due_owes_example = delete_due_owes 1 1 counted_world counted_world-IsConsistent deleted

delete_due_half_example :
    let w' = (delete_due 1 1 unnamed_world).1 in
    (w' ≡ unnamed_world)
    ⊎ ((record_missing ≡ record_missing)
        × (find_first (λ (x : Due). x.id == 1) w'.dues.rows ≡ none)
        × ((d : Due) × (owned_due 1 1 unnamed_world ≡ some d)
            × (is_none (metrics_of d unnamed_world) ≡ true)
            × (outstanding w' + d.balance_amount ≡ outstanding unnamed_world))
        × (delete_due 1 1 w' ≡ (err due_not_found, w')))
delete_due_half_example = delete_due_half 1 1 unnamed_world unnamed_world-IsConsistent half_deleted

-- 400 rupees
abbrev new_amount : EditDue
new_amount = record {
  from_date = none;
  to_date = none;
  due_amount = some 40000;
  due_type = none;
  custom_due_type = none;
}

edited : (edit_due 2 new_amount 1 counted_world).0 ≡ ok 2
unfolding edit_due
edited = refl

edit_due_owes_example :
    let w' = (edit_due 2 new_amount 1 counted_world).1 in
    IsConsistent w'
    × (outstanding w' + water_due.balance_amount
        ≡ outstanding counted_world + (new_total new_amount water_due - water_due.paid_amount))
edit_due_owes_example =
    edit_due_owes 2 new_amount 1 counted_world {d = water_due} counted_world-IsConsistent refl
      (omega arith) edited
