-- ===== src/Due/Collect.antt =====
-- Collecting a due by hand: `collectDue`.
use pg_master_backend.Prelude.{
  ℕ, ◌≤◌, ◌<◌, ◌≡◌, ap, ◌⊎◌, inl, inr, false, ◌||◌, Option, some, [], ◌∷◌, ◌++◌, arith, ltb, ◌==◌,
  Option-cases, Bool-cases,
}
use pg_master_backend.Store.Rows.{find_first}
use pg_master_backend.Store.Schema.{Due, is_cleared}
use pg_master_backend.Store.World.{
  World, Fault, ok, err, due_not_found, already_cleared, bad_amount, due_payment_collected,
}
use pg_master_backend.Due.{CollectDue, ceil_rupee, collected_due, record_collection, collect_due}

abbrev pub due_of : CollectDue → World → Option Due
due_of dto w = find_first (λ (d : Due). d.id == dto.due_id) w.dues.rows

-- Which requests are accepted.
pub record IsAcceptable (dto : CollectDue) (due : Due) : Type 0 where
  pub is_due : is_cleared due.status ≡ false
  pub positive : 0 < ceil_rupee dto.amount
  pub covered : ceil_rupee dto.amount ≤ due.balance_amount

-- Inversion: a request that returns found its due, and the checks passed.
pub collect_due-ok :
    (dto : CollectDue) (by : ℕ) (w : World) {result : Due}
    → (collect_due dto by w).0 ≡ ok result
    → (due : Due) × (due_of dto w ≡ some due)
      × IsAcceptable dto due
      × (result ≡ collected_due (ceil_rupee dto.amount) due)
unfolding collect_due
collect_due-ok dto by w h = elim (Option-cases (due_of dto w)) [
  | inl missing ↦ ground arith
  | inr (due, found) ↦ (due, found, ground arith, ground arith)
]

-- What a request does, by the due that it names: it throws and changes nothing, or it returns
-- the collected due and the new state.
pub collect_due-outcome :
    (dto : CollectDue) (by : ℕ) (w : World)
    → ((e : Fault) × (collect_due dto by w ≡ (err e, w)))
      ⊎ ((due : Due) × (due_of dto w ≡ some due)
          × IsAcceptable dto due
          × (collect_due dto by w ≡ (
            ok (collected_due (ceil_rupee dto.amount) due),
            record (record_collection dto (ceil_rupee dto.amount) by due w) {
              events =
                  w.events
                  ++ due_payment_collected due.id due.property_id due.due_type
                      (ceil_rupee dto.amount)
                      due.month
                      due.year
                    ∷ [];
            },
          )))
unfolding collect_due record_collection
collect_due-outcome dto by w = elim (Option-cases (due_of dto w)) [
  | inl missing ↦ inl (due_not_found, rw missing)
  | inr (due, found) ↦ elim (Bool-cases (is_cleared due.status)) [
    | inl cleared ↦ inl (already_cleared, rw (found, cleared))
    | inr open_due ↦
        elim (Bool-cases
          (ceil_rupee dto.amount == 0 || ltb due.balance_amount (ceil_rupee dto.amount))) [
            | inl bad ↦ inl (bad_amount, rw (found, open_due, bad))
            | inr good ↦ inr (due, found, ground arith, rw (found, open_due, good))
          ]
  ]
]

-- A collection that throws leaves the database as it was.
pub collect_due_atomic :
    (dto : CollectDue) (by : ℕ) (w : World) (e : Fault)
    → (collect_due dto by w).0 ≡ err e
    → (collect_due dto by w).1 ≡ w
collect_due_atomic dto by w e h = elim (collect_due-outcome dto by w) [
  | inl (_, same) ↦ ap (λ r. r.1) same
  | inr (due, found, fits, done) ↦ cc (h, ap (λ r. r.0) done)
]
