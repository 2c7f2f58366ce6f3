-- ===== src/Electricity/Readings/Submitted.antt =====
-- What an accepted submission of a month's readings leaves for the billing run.
use pg_master_backend.Prelude.{
  ℕ, ◌+◌, ◌-◌, ◌≤◌, ◌≡◌, refl, ◌⊎◌, inl, inr, Bool, true, false, not, ◌&&◌, ◌||◌, some, List, [],
  ◌∷◌, ltb, ◌==◌, arith, sum_by, length, map, Bool-cases,
}
use pg_master_backend.Electricity.Run.{is_run, is_part_paid, is_electricity_due, metered_rooms}
use pg_master_backend.Electricity.Readings.{
  RoomEntry, SubmitAll, is_future, is_main, main_previous, check_rooms, entry_units, main_reading,
  missing_room, pending_run, days_of, store_readings, submit_all_readings,
}
use pg_master_backend.Electricity.Run.Again.{upsert_run_found}
use pg_master_backend.Payment.Checks.{distinct}
use pg_master_backend.Store.Rows.{find_first}
use pg_master_backend.Store.Metrics.{upsert}
use pg_master_backend.Store.Schema.{Due, PropertyReading, BillingRun, is_none}
use pg_master_backend.Store.World.{
  World, Fault, ok, err, Result-cases, property_not_found, future_month, wrong_previous,
  reading_below, bad_price, rooms_missing, readings_exceed_main, already_collected,
}
use pg_master_backend.Tenancy.Notice.{is_owned}

find_first-upsert :
    (p : PropertyReading → Bool) (v : PropertyReading) (xs : List PropertyReading)
    → p v ≡ true
    → find_first p (upsert p v (λ x. v) xs) ≡ some v
find_first-upsert p v [] fits = rw fits refl
find_first-upsert p v (x ∷ xs) fits = elim (Bool-cases (p x)) [
  | inl hit ↦ rw hit (rw fits refl)
  | inr miss ↦ rw miss (rw miss (find_first-upsert p v xs fits))
]

-- A submission throws, or its units are in order and are stored.
submit_all_readings-outcome :
    (now property_id owner_id : ℕ) (dto : SubmitAll) (w : World)
    → ((e : Fault) × ((submit_all_readings now property_id owner_id dto w).0 ≡ err e))
      ⊎ ((dto.previous_reading ≤ dto.current_reading)
          × (sum_by entry_units dto.rooms ≤ dto.current_reading - dto.previous_reading)
          × ((submit_all_readings now property_id owner_id dto w).1.property_readings
              ≡ (store_readings property_id dto w).property_readings)
          × ((submit_all_readings now property_id owner_id dto w).1.billing_runs
              ≡ (store_readings property_id dto w).billing_runs))
unfolding submit_all_readings
submit_all_readings-outcome now property_id owner_id dto w =
    elim (Bool-cases (not (is_owned owner_id property_id w))) [
      | inl foreign ↦ inl (property_not_found, rw foreign refl)
      | inr own ↦ elim (Bool-cases (is_future now dto.month dto.year)) [
        | inl future ↦ inl (future_month, rw (own, future) refl)
        | inr past ↦
            elim (Bool-cases
              (not (dto.previous_reading == main_previous property_id dto.month dto.year w))) [
                | inl wrong ↦ inl (wrong_previous, rw (own, past, wrong) refl)
                | inr same ↦ elim (Bool-cases (ltb dto.current_reading dto.previous_reading)) [
                  | inl below ↦ inl (reading_below, rw (own, past, same, below) refl)
                  | inr above ↦ elim (Bool-cases (dto.unit_price == 0)) [
                    | inl free ↦ inl (bad_price, rw (own, past, same, above, free) refl)
                    | inr priced ↦ rooms_checked own past same above priced
                  ]
                ]
              ]
      ]
    ]
  where
    submitted : List ℕ
    submitted = map (λ (e : RoomEntry). e.room_id) dto.rooms

    metered : List ℕ
    metered = metered_rooms property_id dto.month dto.year w

    rooms_checked :
        not (is_owned owner_id property_id w) ≡ false
        → is_future now dto.month dto.year ≡ false
        → not (dto.previous_reading == main_previous property_id dto.month dto.year w) ≡ false
        → ltb dto.current_reading dto.previous_reading ≡ false
        → (dto.unit_price == 0) ≡ false
        → ((e : Fault) × ((submit_all_readings now property_id owner_id dto w).0 ≡ err e))
          ⊎ ((dto.previous_reading ≤ dto.current_reading)
              × (sum_by entry_units dto.rooms ≤ dto.current_reading - dto.previous_reading)
              × ((submit_all_readings now property_id owner_id dto w).1.property_readings
                  ≡ (store_readings property_id dto w).property_readings)
              × ((submit_all_readings now property_id owner_id dto w).1.billing_runs
                  ≡ (store_readings property_id dto w).billing_runs))
    rooms_checked own past same above priced =
        elim (Bool-cases (
          not (length (distinct submitted) == length (distinct metered))
          || missing_room submitted metered)) [
            | inl lacking ↦ inl (rooms_missing, rw (own, past, same, above, priced, lacking) refl)
            | inr complete ↦
                elim (Result-cases
                  (check_rooms property_id dto.month dto.year metered w dto.rooms)) [
                    | inl (e, threw) ↦
                        inl (e, rw (own, past, same, above, priced, complete, threw) refl)
                    | inr (u, checked) ↦
                        elim (Bool-cases (
                          ltb (dto.current_reading - dto.previous_reading)
                            (sum_by entry_units dto.rooms))) [
                              | inl over ↦ inl (
                                readings_exceed_main,
                                rw (own, past, same, above, priced, complete, checked, over) refl,
                              )
                              | inr within ↦
                                  elim (Bool-cases (
                                    not (
                                      is_none (
                                        find_first
                                          (λ (d : Due).
                                            is_electricity_due property_id dto.month dto.year d
                                            && is_part_paid d.status)
                                          w.dues.rows)))) [
                                            | inl paid ↦ inl (
                                              already_collected,
                                              rw
                                                  (
                                                    own, past, same, above, priced, complete,
                                                    checked, within, paid,
                                                  )
                                                  refl,
                                            )
                                            | inr unpaid ↦ inr (
                                              ground (arith, above),
                                              ground (arith, within),
                                              rw
                                                  (
                                                    own, past, same, above, priced, complete,
                                                    checked, within, unpaid,
                                                  )
                                                  refl,
                                              rw
                                                  (
                                                    own, past, same, above, priced, complete,
                                                    checked, within, unpaid,
                                                  )
                                                  refl,
                                            )
                                          ]
                            ]
                  ]
          ]

-- A submission of all readings of a month that is accepted: the main meter's reading of the month is
-- stored with units that lead from the previous reading to the current one, and the month's run waits
-- to be billed with those units, of which the rooms' own units and the shared pool are the two parts.
pub submit_all_readings_ready :
    (now property_id owner_id : ℕ) (dto : SubmitAll) (w : World)
    → (submit_all_readings now property_id owner_id dto w).0 ≡ ok tt
    → let w' = (submit_all_readings now property_id owner_id dto w).1 in
      (r : PropertyReading) × ((b : BillingRun) × (find_first
            (is_main property_id dto.month dto.year)
            w'.property_readings
          ≡ some r)
        × (find_first (is_run property_id dto.month dto.year) w'.billing_runs ≡ some b)
        × (dto.previous_reading + r.unit_consumed ≡ dto.current_reading)
        × (b.completed ≡ false)
        × (b.main_meter_units ≡ r.unit_consumed)
        × (sum_by entry_units dto.rooms + b.shared_pool_units ≡ b.main_meter_units))
unfolding store_readings
submit_all_readings_ready now property_id owner_id dto w accepted =
    elim (submit_all_readings-outcome now property_id owner_id dto w) [
      | inl (e, threw) ↦ cc (accepted, threw)
      | inr (above, within, readings, runs) ↦
          let run =
            pending_run property_id dto
              (days_of (find_first (is_run property_id dto.month dto.year) w.billing_runs)) in
          (
            main_reading property_id dto,
            (
              run,
              rw readings (
                  find_first-upsert (is_main property_id dto.month dto.year)
                    (main_reading property_id dto) w.property_readings (ground arith)),
              rw runs (
                  upsert_run_found property_id dto.month dto.year run w.billing_runs
                    (ground arith)),
              omega (arith, above),
              refl,
              refl,
              omega (arith, within),
            ),
          )
    ]
