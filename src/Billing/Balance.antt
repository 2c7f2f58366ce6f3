-- ===== src/Billing/Balance.antt =====
-- What is owed when an owner edits a due.
use pg_master_backend.Prelude.{
  ℕ, ◌+◌, ◌-◌, ◌≤◌, ◌≡◌, refl, sym, ap, ◌∙◌, ◌⊎◌, inl, inr, false, not, ◌||◌, some, ◌==◌, arith,
  Option-cases, Bool-cases, ltb,
}
use pg_master_backend.Billing.{
  EditDue, owned_due, is_part_paid, new_total, edited_due, adjust_metrics, edit_due, gain_generated,
  lose_generated, next_month, next_year,
}
use pg_master_backend.Due.Invariant.{IsBalanced, IsConsistent, outstanding}
use pg_master_backend.Store.Rows.{find_first-All, update_rows}
use pg_master_backend.Store.Ids.{IsKeyed-update_rows, sum_by-update_id, All-update_id}
use pg_master_backend.Store.Schema.{Due}
use pg_master_backend.Store.World.{World, Fault, ok, err, due_not_found, not_editable, bad_amount}
use pg_master_backend.Billing.Deletion.{due_id_of, balance, its_row}

edited_due_id : (dto : EditDue) (due row : Due) → (edited_due dto due row).id ≡ row.id
unfolding edited_due
edited_due_id dto due row = ground arith

edited_due-IsBalanced :
    (dto : EditDue) (d : Due)
    → is_part_paid d.status ≡ false
    → d.paid_amount ≤ new_total dto d
    → IsBalanced d
    → IsBalanced (edited_due dto d d)
      × ((edited_due dto d d).balance_amount ≡ new_total dto d - d.paid_amount)
unfolding edited_due
edited_due-IsBalanced dto d free covered b = ground arith

-- The counting leaves dues and payments.
gain_generated_lem :
    (property_id month year amount : ℕ) (w : World)
    → ((gain_generated property_id month year amount w).dues ≡ w.dues)
      × ((gain_generated property_id month year amount w).due_payments ≡ w.due_payments)
unfolding gain_generated
gain_generated_lem property_id month year amount w = elim (Bool-cases (amount == 0)) [
  | inl nothing ↦ rw nothing (refl, refl)
  | inr some_of_it ↦ rw some_of_it (refl, refl)
]

lose_generated_lem :
    (property_id month year amount : ℕ) (w : World)
    → ((lose_generated property_id month year amount w).dues ≡ w.dues)
      × ((lose_generated property_id month year amount w).due_payments ≡ w.due_payments)
unfolding lose_generated
lose_generated_lem property_id month year amount w = elim (Bool-cases (amount == 0)) [
  | inl nothing ↦ rw nothing (refl, refl)
  | inr some_of_it ↦ rw some_of_it (refl, refl)
]

adjust_metrics_lem :
    (dto : EditDue) (d : Due) (w : World)
    → ((adjust_metrics dto d w).dues ≡ w.dues)
      × ((adjust_metrics dto d w).due_payments ≡ w.due_payments)
unfolding adjust_metrics
adjust_metrics_lem dto d w =
    elim (Bool-cases (not (next_month dto d == d.month) || not (next_year dto d == d.year))) [
      | inl moves ↦
          let lost = lose_generated_lem d.property_id d.month d.year d.total_amount w in
          let gained =
            gain_generated_lem d.property_id (next_month dto d) (next_year dto d) (new_total dto d)
              (lose_generated d.property_id d.month d.year d.total_amount w) in
          rw moves (gained.0 ∙ lost.0, gained.1 ∙ lost.1)
      | inr stays ↦ elim (Bool-cases (ltb d.total_amount (new_total dto d))) [
        | inl up ↦
            rw (stays, up)
              (gain_generated_lem d.property_id d.month d.year (new_total dto d - d.total_amount) w)
        | inr down ↦
            rw (stays, down)
              (lose_generated_lem d.property_id d.month d.year (d.total_amount - new_total dto d) w)
      ]
    ]

edit_due-outcome :
    (due_id : ℕ) (dto : EditDue) (owner_id : ℕ) (w : World)
    → ((e : Fault) × (edit_due due_id dto owner_id w ≡ (err e, w)))
      ⊎ ((d : Due) × (owned_due due_id owner_id w ≡ some d)
          × (is_part_paid d.status ≡ false)
          × ((edit_due due_id dto owner_id w).1.dues
              ≡ update_rows (λ (x : Due). x.id == due_id) (edited_due dto d) w.dues)
          × ((edit_due due_id dto owner_id w).1.due_payments ≡ w.due_payments))
unfolding edit_due
edit_due-outcome due_id dto owner_id w = elim (Option-cases (owned_due due_id owner_id w)) [
  | inl missing ↦ inl (due_not_found, rw missing refl)
  | inr (d, found) ↦ elim (Bool-cases (is_part_paid d.status)) [
    | inl taken ↦ inl (not_editable, rw (found, taken) refl)
    | inr free ↦ elim (Bool-cases (new_total dto d == 0)) [
      | inl nothing ↦ inl (bad_amount, rw (found, free, nothing) refl)
      | inr amount ↦
          let kept = adjust_metrics_lem dto d (record w {
            dues = update_rows (λ (x : Due). x.id == due_id) (edited_due dto d) w.dues;
          }) in
          inr (d, found, free, rw (found, free, amount) kept.0, rw (found, free, amount) kept.1)
    ]
  ]
]

-- From a consistent state: an edit of a due by its owner that is accepted, and whose new total is not
-- below what was paid on the due, keeps the state consistent. In what all tenants owe, the due's balance
-- is replaced by the new total less what was paid.
pub edit_due_owes :
    (due_id : ℕ) (dto : EditDue) (owner_id : ℕ) (w : World) {d : Due} {id : ℕ}
    → IsConsistent w
    → owned_due due_id owner_id w ≡ some d
    → d.paid_amount ≤ new_total dto d
    → (edit_due due_id dto owner_id w).0 ≡ ok id
    → let w' = (edit_due due_id dto owner_id w).1 in
      IsConsistent w'
      × (outstanding w' + d.balance_amount ≡ outstanding w + (new_total dto d - d.paid_amount))
edit_due_owes due_id dto owner_id w {d} ok_w named covered accepted =
    elim (edit_due-outcome due_id dto owner_id w) [
      | inl (e, threw) ↦ cc (accepted, ap (λ r. r.0) threw)
      | inr (d', found, free, dues, payments) ↦
          let same : d' ≡ d = ground (arith, sym found ∙ named) in
          let row = its_row due_id owner_id w ok_w named in
          let free_d : is_part_paid d.status ≡ false =
            ap (λ (x : Due). is_part_paid x.status) (sym same) ∙ free in
          let dues_d =
            dues
            ∙ ap (λ x. update_rows (λ (y : Due). y.id == due_id) (edited_due dto x) w.dues) same in
          let d_ok =
            find_first-All IsBalanced (λ (x : Due). x.id == due_id) w.dues.rows ok_w.balanced row in
          let edited = edited_due-IsBalanced dto d free_d covered d_ok in
          let sum =
            sum_by-update_id due_id_of balance due_id (edited_due dto d) w.dues.rows
              ok_w.dues_keyed.0 row in
          (
            record {
              balanced = rw dues_d (
                  All-update_id due_id_of IsBalanced due_id (edited_due dto d) w.dues.rows
                    ok_w.dues_keyed.0 row edited.0 ok_w.balanced);
              dues_keyed = rw dues_d (
                  IsKeyed-update_rows due_id_of (λ (x : Due). x.id == due_id) (edited_due dto d)
                    (edited_due_id dto d) w.dues ok_w.dues_keyed);
              payments_keyed = rw payments ok_w.payments_keyed;
            },
            rw dues_d (omega (arith, sum, edited.1)),
          )
    ]
