-- ===== src/Payment/Checks/Valid.antt =====
-- `validateDueAndAmount` as a whole.
use pg_master_backend.Prelude.{
  ℕ, ◌≡◌, refl, ap, ◌∙◌, ◌⊎◌, inl, inr, false, none, List, ◌∷◌, ltb, ◌==◌, arith, All, All-weaken,
  All-map, length, map, Option-cases, List-cases, Bool-cases,
}
use pg_master_backend.Store.Ids.{HasUniqueIds}
use pg_master_backend.Store.Schema.{Due}
use pg_master_backend.Store.World.{
  World, Fault, ok, err, dues_not_found, mixed_properties, dangling_reference,
}
use pg_master_backend.Payment.Checks.{
  PaymentDue, check_total, distinct, check_items, fetched_dues, validate_due_and_amount,
}
use pg_master_backend.Payment.Checks.Accepted.{
  IsAccepted, IsItemOf, check_total_lem, check_items_lem, distinct_one, item-IsPayable,
}

abbrev property_ids : List Due → List ℕ
property_ids ds = map (λ (d : Due). d.property_id) ds

-- The checks in turn: one of them throws, or all of them pass and a first due is there.
pub validate_due_and_amount-outcome :
    (total : ℕ) (dues : List PaymentDue) (tenancy_ids : List ℕ) (w : World)
    → ((e : Fault) × (validate_due_and_amount total dues tenancy_ids w ≡ (err e, w)))
      ⊎ ((d : Due) × ((ds : List Due) × (fetched_dues dues tenancy_ids w ≡ d ∷ ds)
            × (check_total total dues ≡ none)
            × (check_items (fetched_dues dues tenancy_ids w) dues ≡ none)
            × (ltb 1 (length (distinct (property_ids (d ∷ ds)))) ≡ false)
            × (validate_due_and_amount total dues tenancy_ids w
                ≡ (ok (d.tenancy_id, d.property_id), w))))
unfolding validate_due_and_amount
validate_due_and_amount-outcome total dues ids w =
    let fetched = fetched_dues dues ids w in
    elim (Option-cases (check_total total dues)) [
      | inr (e, bad) ↦ inl (e, rw bad refl)
      | inl total_fits ↦ elim (Bool-cases (length fetched == length dues)) [
        | inr lost ↦ inl (dues_not_found, rw (total_fits, lost) refl)
        | inl all_there ↦ elim (Bool-cases (ltb 1 (length (distinct (property_ids fetched))))) [
          | inl mixed ↦ inl (mixed_properties, rw (total_fits, all_there, mixed) refl)
          | inr one ↦ elim (Option-cases (check_items fetched dues)) [
            | inr (e, bad) ↦ inl (e, rw (total_fits, all_there, one, bad) refl)
            | inl items ↦ elim (List-cases fetched) [
              | inl empty ↦
                  inl (dangling_reference, rw (total_fits, all_there, one, items, empty) refl)
              | inr (d, (ds, are)) ↦ inr (
                d,
                (
                  ds,
                  are,
                  total_fits,
                  items,
                  (rw are at one),
                  rw (total_fits, all_there, one, items, are) refl,
                ),
              )
            ]
          ]
        ]
      ]
    ]

-- Where dues have ids of their own, a request that `validateDueAndAmount` accepts has items, its
-- amounts are positive and add up to the total, and every item names a due of one of the tenancies
-- given, of the property returned, neither PAID nor WAIVED, whose balance covers it. Nothing is
-- changed.
pub validate_due_and_amount-IsAccepted :
    (total : ℕ) (dues : List PaymentDue) (tenancy_ids : List ℕ) (w : World)
    {tenancy_id property_id : ℕ}
    → HasUniqueIds (λ (d : Due). d.id) w.dues.rows
    → (validate_due_and_amount total dues tenancy_ids w).0 ≡ ok (tenancy_id, property_id)
    → IsAccepted total dues tenancy_ids property_id w
      × ((validate_due_and_amount total dues tenancy_ids w).1 ≡ w)
validate_due_and_amount-IsAccepted total dues ids w {tenancy_id} {property_id} unique accepted =
    elim (validate_due_and_amount-outcome total dues ids w) [
      | inl (e, threw) ↦ cc (accepted, ap (λ r. r.0) threw)
      | inr (d, (ds, are, total_fits, items, one, done)) ↦
          let sums = check_total_lem total dues total_fits in
          let at : d.property_id ≡ property_id = ground (arith, accepted, ap (λ r. r.0) done) in
          let there : All (λ (x : Due). x.property_id ≡ property_id) (fetched_dues dues ids w) =
            rw are (
              All-map (λ p. p ≡ property_id) (λ (x : Due). x.property_id) (d ∷ ds)
                (All-weaken (λ p. p ≡ d.property_id) (λ p. p ≡ property_id) (property_ids (d ∷ ds))
                  (λ p h. h ∙ at) (distinct_one d.property_id (property_ids ds) one))) in
          (
            record {
              some_dues = sums.0;
              adds_up = sums.1;
              positive = sums.2;
              payable =
                  All-weaken (IsItemOf (fetched_dues dues ids w)) _ dues
                    (λ i h. item-IsPayable dues ids w unique property_id i there h)
                    (check_items_lem (fetched_dues dues ids w) dues items);
            },
            ap (λ r. r.1) done,
          )
    ]
