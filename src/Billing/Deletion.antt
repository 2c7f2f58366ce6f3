-- ===== src/Billing/Deletion.antt =====
-- What is owed when an owner deletes a due.
use pg_master_backend.Prelude.{
  ℕ, ◌+◌, ◌≡◌, refl, sym, ap, ◌∙◌, ◌⊎◌, inl, inr, true, false, not, ◌||◌, Bool, Option, none, some,
  List, [], ◌∷◌, ◌==◌, arith, Option-cases, Bool-cases,
}
use pg_master_backend.Billing.{owned_due, has_id, is_unpaid, delete_due}
use pg_master_backend.Due.Invariant.{IsBalanced, IsConsistent, outstanding}
use pg_master_backend.Store.Rows.{
  find_first, find_many, find_first-All, find_first-and_none, All-delete_many,
}
use pg_master_backend.Store.Ids.{
  IsKeyed-delete, sum_by-delete_id, find_first-delete_id, find_first_of_and,
}
use pg_master_backend.Store.References.{is_referenced, any_referenced, remove_dues}
use pg_master_backend.Store.Metrics.{PropertyMetrics, at_month}
use pg_master_backend.Store.Schema.{Due, is_none}
use pg_master_backend.Store.World.{
  World, Fault, ok, err, due_not_found, not_deletable, record_missing, still_referenced, Result,
}
use pg_master_backend.Tenancy.Notice.{is_owned}

abbrev pub due_id_of : Due → ℕ
due_id_of d = d.id

abbrev pub balance : Due → ℕ
balance d = d.balance_amount

abbrev pub metrics_of : Due → World → Option PropertyMetrics
metrics_of d w = find_first (at_month d.property_id d.month d.year) w.property_metrics

abbrev its_dues : ℕ → World → List Due
its_dues due_id w = find_many (has_id due_id) w.dues.rows

-- A call of deleteDue throws and changes nothing; or the due is deleted and the call throws, as there
-- are no metrics of its month; or it is deleted and the call returns.
delete_due-outcome :
    (due_id owner_id : ℕ) (w : World)
    → ((e : Fault) × (delete_due due_id owner_id w ≡ (err e, w)))
      ⊎ ((d : Due) × (owned_due due_id owner_id w ≡ some d)
          × (is_unpaid d.status ≡ true)
          × (any_referenced w (its_dues due_id w) ≡ false)
          × (((delete_due due_id owner_id w ≡ (err record_missing, remove_dues (has_id due_id) w))
                × (is_none (metrics_of d w) ≡ true))
              ⊎ ((delete_due due_id owner_id w).0 ≡ ok due_id))
          × ((delete_due due_id owner_id w).1.dues ≡ (remove_dues (has_id due_id) w).dues)
          × ((delete_due due_id owner_id w).1.due_payments ≡ w.due_payments))
unfolding delete_due remove_dues
delete_due-outcome due_id owner_id w = elim (Option-cases (owned_due due_id owner_id w)) [
  | inl missing ↦ inl (due_not_found, rw missing refl)
  | inr (d, found) ↦ elim (Bool-cases (not (is_unpaid d.status))) [
    | inl other ↦ inl (not_deletable, rw (found, other) refl)
    | inr open_due ↦ elim (Bool-cases (any_referenced w (its_dues due_id w))) [
      | inl named ↦ inl (still_referenced, rw (found, open_due, named) refl)
      | inr free ↦ elim (Bool-cases (is_none (metrics_of d w))) [
        | inl gone ↦ inr (
          d,
          found,
          ground (arith, open_due),
          free,
          inl (rw (found, open_due, free, gone) refl, gone),
          rw (found, open_due, free, gone) refl,
          rw (found, open_due, free, gone) refl,
        )
        | inr there ↦ inr (
          d,
          found,
          ground (arith, open_due),
          free,
          inr (rw (found, open_due, free, there) refl),
          rw (found, open_due, free, there) refl,
          rw (found, open_due, free, there) refl,
        )
      ]
    ]
  ]
]

-- The row, found by its id.
pub its_row :
    (due_id owner_id : ℕ) (w : World) {d : Due}
    → IsConsistent w
    → owned_due due_id owner_id w ≡ some d
    → find_first (λ (x : Due). x.id == due_id) w.dues.rows ≡ some d
its_row due_id owner_id w ok_w found =
    (find_first_of_and due_id_of due_id (λ x. is_owned owner_id x.property_id w) w.dues.rows
      ok_w.dues_keyed.0 found).0

remove_dues-IsConsistent :
    (due_id : ℕ) (w w' : World)
    → IsConsistent w
    → w'.dues ≡ (remove_dues (has_id due_id) w).dues
    → w'.due_payments ≡ w.due_payments
    → IsConsistent w'
unfolding remove_dues
remove_dues-IsConsistent due_id w w' ok_w dues payments = record {
  balanced = rw dues (All-delete_many IsBalanced (has_id due_id) w.dues.rows ok_w.balanced);
  dues_keyed = rw dues (IsKeyed-delete due_id_of (has_id due_id) w.dues ok_w.dues_keyed);
  payments_keyed = rw payments ok_w.payments_keyed;
}

neither_left : (a b : Bool) → (a || b) ≡ false → a ≡ false
neither_left a b h = ground arith

-- If no due of a table with an id is named elsewhere, the one that has it is not.
any_referenced-found :
    (due_id : ℕ) (w : World) (ds : List Due) {d : Due}
    → find_first (has_id due_id) ds ≡ some d
    → any_referenced w (find_many (has_id due_id) ds) ≡ false
    → is_referenced w due_id ≡ false
unfolding any_referenced
any_referenced-found due_id w [] found free = ground arith
any_referenced-found due_id w (x ∷ ds) {d} found free = elim (Bool-cases (has_id due_id x)) [
  | inl hit ↦
      let same : x.id ≡ due_id = ground (arith, hit) in
      let later = find_many (has_id due_id) ds in
      let kept : find_many (has_id due_id) (x ∷ ds) ≡ x ∷ later = rw hit refl in
      let free_x =
        neither_left (is_referenced w x.id) (any_referenced w later)
          (ap (any_referenced w) (sym kept) ∙ free) in
      ap (is_referenced w) (sym same) ∙ free_x
  | inr miss ↦
      let kept : find_many (has_id due_id) (x ∷ ds) ≡ find_many (has_id due_id) ds = rw miss refl in
      any_referenced-found due_id w ds {d = d} (ground (arith, miss, found))
        (ap (any_referenced w) (sym kept) ∙ free)
]

fault_is : {a b : Fault} (r : Result ℕ) → r ≡ err a → r ≡ err b → a ≡ b
fault_is (ok x) threw threw' = ground arith
fault_is (err e) threw threw' = ground arith

-- What is left where the due was deleted.
module _ (due_id owner_id : ℕ) (w : World) (ok_w : IsConsistent w) {d : Due} (w' : World)
    (found : owned_due due_id owner_id w ≡ some d)
    (dues : w'.dues ≡ (remove_dues (has_id due_id) w).dues) where
  removed_owes : outstanding w' + d.balance_amount ≡ outstanding w
  unfolding remove_dues
  removed_owes = rw dues (
      sum_by-delete_id due_id_of balance due_id w.dues.rows ok_w.dues_keyed.0
        (its_row due_id owner_id w ok_w found))

  removed_not_found : find_first (has_id due_id) w'.dues.rows ≡ none
  unfolding remove_dues
  removed_not_found = rw dues (find_first-delete_id due_id_of due_id w.dues.rows)

no_longer_owned :
    (due_id owner_id : ℕ) (w : World)
    → find_first (has_id due_id) w.dues.rows ≡ none
    → owned_due due_id owner_id w ≡ none
no_longer_owned due_id owner_id w gone =
    find_first-and_none (has_id due_id) (λ (x : Due). is_owned owner_id x.property_id w) w.dues.rows
      gone

-- From a consistent state: a call of deleteDue that is accepted deletes an UNPAID due, on which nothing
-- was paid and which no due payment, no payment attempt and no reminder names. It keeps the state
-- consistent, and takes from what is owed exactly the balance of that due.
pub delete_due_owes :
    (due_id owner_id : ℕ) (w : World) {id : ℕ}
    → IsConsistent w
    → (delete_due due_id owner_id w).0 ≡ ok id
    → let w' = (delete_due due_id owner_id w).1 in
      IsConsistent w'
      × (find_first (λ (x : Due). x.id == due_id) w'.dues.rows ≡ none)
      × (is_referenced w due_id ≡ false)
      × ((d : Due) × (owned_due due_id owner_id w ≡ some d)
          × (d.paid_amount ≡ 0)
          × (outstanding w' + d.balance_amount ≡ outstanding w))
delete_due_owes due_id owner_id w ok_w accepted = elim (delete_due-outcome due_id owner_id w) [
  | inl (e, threw) ↦ cc (accepted, ap (λ r. r.0) threw)
  | inr (d, found, open_due, free, how, dues, payments) ↦
      let w' = (delete_due due_id owner_id w).1 in
      let row = its_row due_id owner_id w ok_w found in
      let d_ok = find_first-All IsBalanced (has_id due_id) w.dues.rows ok_w.balanced row in
      (
        remove_dues-IsConsistent due_id w w' ok_w dues payments,
        removed_not_found due_id owner_id w ok_w w' found dues,
        any_referenced-found due_id w w.dues.rows row free,
        (
          d,
          found,
          d_ok.unpaid_untouched (ground (arith, open_due)),
          removed_owes due_id owner_id w ok_w w' found dues,
        ),
      )
]

-- From a consistent state: a call of deleteDue that throws either changes nothing; or it reports
-- missing metrics, although the due, which had no metrics of its month, is deleted: what is owed has
-- lost its balance, and a second call reports that the due is not found and changes nothing, so the
-- metrics and the dashboard are never corrected.
pub delete_due_half :
    (due_id owner_id : ℕ) (w : World) {e : Fault}
    → IsConsistent w
    → (delete_due due_id owner_id w).0 ≡ err e
    → let w' = (delete_due due_id owner_id w).1 in
      (w' ≡ w)
      ⊎ ((e ≡ record_missing)
          × (find_first (λ (x : Due). x.id == due_id) w'.dues.rows ≡ none)
          × ((d : Due) × (owned_due due_id owner_id w ≡ some d)
              × (is_none (metrics_of d w) ≡ true)
              × (outstanding w' + d.balance_amount ≡ outstanding w))
          × (delete_due due_id owner_id w' ≡ (err due_not_found, w')))
unfolding delete_due
delete_due_half due_id owner_id w {e} ok_w threw = elim (delete_due-outcome due_id owner_id w) [
  | inl (_, same) ↦ inl (ap (λ r. r.1) same)
  | inr (d, found, open_due, free, inr done, dues, payments) ↦ cc (threw, done)
  | inr (d, found, open_due, free, inl (half, missing), dues, payments) ↦
      let w' = (delete_due due_id owner_id w).1 in
      let gone = removed_not_found due_id owner_id w ok_w w' found dues in
      inr (
        fault_is (delete_due due_id owner_id w).0 threw (ap (λ r. r.0) half),
        gone,
        (d, found, missing, removed_owes due_id owner_id w ok_w w' found dues),
        rw (no_longer_owned due_id owner_id (delete_due due_id owner_id w).1 gone) refl,
      )
]
