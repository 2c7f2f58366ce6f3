-- ===== src/Electricity/Run/Again.antt =====
-- A second run for the same month.
use pg_master_backend.Prelude.{
  ℕ, ◌≡◌, refl, ap, ◌⊎◌, inl, inr, true, not, ◌&&◌, Option, none, some, List, [], ◌∷◌, ltb, ◌==◌,
  sum_by, arith, Option-cases, Bool-cases,
}
use pg_master_backend.Store.Rows.{find_first, find_many}
use pg_master_backend.Store.References.{any_referenced, remove_dues}
use pg_master_backend.Store.Schema.{
  Due, Property, PropertyReading, RoomReading, BillingRun, is_none,
}
use pg_master_backend.Store.World.{
  World, Fault, ok, err, property_not_found, already_collected, main_meter_missing, missing_reading,
  readings_exceed_main, still_referenced,
}
use pg_master_backend.Due.Create.{emit_all_lem}
use pg_master_backend.Electricity.Run.{
  is_run, is_electricity_due, is_part_paid, readings_of, metered_rooms, all_read,
  create_electricity_dues, is_replaced, make_dues, allocated, new_run, upsert_run, is_completed,
  store_run, bill_month, run_billing,
}

module _ (property_id month year : ℕ) where
  pub upsert_run_found :
      (run : BillingRun) (runs : List BillingRun)
      → is_run property_id month year run ≡ true
      → find_first (is_run property_id month year) (upsert_run property_id month year run runs)
        ≡ some run
  unfolding upsert_run
  upsert_run_found run [] its = rw its refl
  upsert_run_found run (r ∷ rest) its = elim (Bool-cases (is_run property_id month year r)) [
    | inl here ↦ rw (here, its) refl
    | inr later ↦ rw (later, later) (upsert_run_found run rest its)
  ]

  -- What is stored: the properties stay, and the run is COMPLETED.
  record IsStored (w w' : World) : Type 0 where
    properties : w'.properties ≡ w.properties
    run : BillingRun
    found : find_first (is_run property_id month year) w'.billing_runs ≡ some run
    completed : run.completed ≡ true

  store_run-outcome :
      (main : PropertyReading) (private_units : ℕ) (w : World)
      → (store_run property_id month year main private_units w ≡ (err still_referenced, w))
        ⊎ ((made : List Due) × ((w' : World) × (store_run property_id month year main private_units
                  w
                ≡ (ok made, w'))
              × IsStored w w'))
  unfolding store_run make_dues remove_dues
  store_run-outcome main private_units w =
      let result = allocated property_id month year main private_units w in
      let run = new_run property_id month year main private_units result in
      let replaced = is_replaced property_id month year in
      let freed = remove_dues replaced w in
      let (made, dues') =
        create_electricity_dues property_id month year result.allocations freed.dues in
      let stored : World = record freed {
        dues = dues';
        billing_runs = upsert_run property_id month year run w.billing_runs;
      } in
      let (events, emitted) = emit_all_lem made stored in
      elim (Bool-cases (any_referenced w (find_many replaced w.dues.rows))) [
        | inl named ↦ inl (rw named refl)
        | inr free ↦ inr (
          made,
          (
            record stored { events = events },
            rw (free, emitted) refl,
            record {
              properties = refl;
              run = run;
              found = upsert_run_found run w.billing_runs (ground arith);
              completed = refl;
            },
          ),
        )
      ]

  bill_month-outcome :
      (w : World)
      → ((e : Fault) × (bill_month property_id month year w ≡ (err e, w)))
        ⊎ ((made : List Due) × ((w' : World) × (bill_month property_id month year w ≡ (ok made, w'))
              × IsStored w w'))
  unfolding bill_month
  bill_month-outcome w =
      let readings = readings_of property_id month year w in
      elim (Bool-cases (
        not (
          is_none (
            find_first
              (λ (d : Due). is_electricity_due property_id month year d && is_part_paid d.status)
              w.dues.rows)))) [
                | inl collected ↦ inl (already_collected, rw collected refl)
                | inr free ↦
                    elim (Option-cases (
                      find_first
                        (λ (r : PropertyReading).
                          r.property_id == property_id && (r.month == month && r.year == year))
                        w.property_readings)) [
                          | inl missing ↦ inl (main_meter_missing, rw (free, missing) refl)
                          | inr (main, found) ↦ elim (Bool-cases (not main.submitted)) [
                            | inl open_reading ↦
                                inl (main_meter_missing, rw (free, found, open_reading) refl)
                            | inr submitted ↦
                                elim (Bool-cases (
                                  not (
                                    all_read property_id month year readings
                                      (metered_rooms property_id month year w)))) [
                                        | inl unread ↦ inl (
                                          missing_reading,
                                          rw (free, found, submitted, unread) refl,
                                        )
                                        | inr complete ↦
                                            let private_units =
                                              sum_by (λ (r : RoomReading). r.unit_consumed)
                                                readings in
                                            elim (Bool-cases
                                              (ltb main.unit_consumed private_units)) [
                                                | inl exceeded ↦ inl (
                                                  readings_exceed_main,
                                                  rw (free, found, submitted, complete, exceeded)
                                                      refl,
                                                )
                                                | inr fits ↦
                                                    elim (store_run-outcome main private_units w) [
                                                      | inl threw ↦ inl (
                                                        still_referenced,
                                                        rw
                                                            (
                                                            free, found, submitted, complete, fits,
                                                            threw,
                                                            )
                                                            refl,
                                                      )
                                                      | inr (made, (w', done, stored)) ↦ inr (
                                                        made,
                                                        (
                                                          w',
                                                          (rw
                                                            (
                                                            free, found, submitted, complete, fits,
                                                            done,
                                                            )
                                                            refl),
                                                          stored,
                                                        ),
                                                      )
                                                    ]
                                              ]
                                      ]
                          ]
                        ]
              ]

  -- A run throws and changes nothing, is skipped and changes nothing, or leaves the month COMPLETED.
  run_billing-outcome :
      (w : World)
      → ((e : Fault) × (run_billing property_id month year w ≡ (err e, w)))
        ⊎ (run_billing property_id month year w ≡ (ok none, w))
        ⊎ ((p : Property) × (find_first (λ (p : Property). p.id == property_id) w.properties
              ≡ some p)
            × ((made : List Due) × ((w' : World) × (run_billing property_id month year w
                    ≡ (ok (some made), w'))
                  × IsStored w w')))
  unfolding run_billing
  run_billing-outcome w =
      elim (Option-cases (find_first (λ (p : Property). p.id == property_id) w.properties)) [
        | inl missing ↦ inl (property_not_found, rw missing refl)
        | inr (p, found) ↦
            elim (Bool-cases (
              is_completed property_id month year
                (find_first (is_run property_id month year) w.billing_runs))) [
                  | inl completed ↦ inr (inl (rw (found, completed) refl))
                  | inr open_run ↦ elim (bill_month-outcome w) [
                    | inl (e, threw) ↦ inl (e, rw (found, open_run, threw) refl)
                    | inr (made, (w', done, stored)) ↦
                        inr
                          (inr (p, found, (made, (w', (rw (found, open_run, done) refl), stored))))
                  ]
                ]
      ]

  again_skipped :
      (w w' : World) (p : Property)
      → find_first (λ (p : Property). p.id == property_id) w.properties ≡ some p
      → IsStored w w'
      → run_billing property_id month year w' ≡ (ok none, w')
  unfolding run_billing
  again_skipped w w' p found stored =
      rw (stored.properties, found, stored.found, stored.completed) refl

  -- A run that throws changes nothing.
  pub run_billing_atomic :
      (w : World) (e : Fault)
      → (run_billing property_id month year w).0 ≡ err e
      → (run_billing property_id month year w).1 ≡ w
  run_billing_atomic w e threw = elim (run_billing-outcome w) [
    | inl (_, same) ↦ ap (λ r. r.1) same
    | inr (inl same) ↦ ap (λ r. r.1) same
    | inr (inr (p, found, (made, (w', done, stored)))) ↦ cc (threw, ap (λ r. r.0) done)
  ]

  -- After a run that returns, whether it made dues or was skipped, a second run for the same property
  -- and month is skipped: it makes no dues and changes nothing.
  pub run_billing_again :
      (w : World) {r : Option (List Due)}
      → (run_billing property_id month year w).0 ≡ ok r
      → run_billing property_id month year (run_billing property_id month year w).1
        ≡ (ok none, (run_billing property_id month year w).1)
  run_billing_again w accepted = elim (run_billing-outcome w) [
    | inl (_, threw) ↦ cc (accepted, ap (λ r. r.0) threw)
    | inr (inl same) ↦ rw (ap (λ r. r.1) same) same
    | inr (inr (p, found, (made, (w', done, stored)))) ↦
        rw (ap (λ r. r.1) done) (again_skipped w w' p found stored)
  ]
