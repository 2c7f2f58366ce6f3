-- ===== src/Tenancy/Occupancy/Onboards.antt =====
-- Beds when tenants come.
use pg_master_backend.Prelude.{
  ℕ, ◌<◌, ◌≡◌, refl, ap, ◌⊎◌, inl, inr, true, not, Option, none, some, [], ◌∷◌, ◌++◌, ◌==◌, arith,
  leb, ltb, Option-cases, Bool-cases,
}
use pg_master_backend.Due.{is_billable, ceil_rupee, ist_month, ist_year}
use pg_master_backend.Proration.{Prorated, calculate_prorated_rent, today_ist}
use pg_master_backend.Proration.Rent.{calculate_prorated_rent_days}
use pg_master_backend.Store.Rows.{find_first, create}
use pg_master_backend.Store.Schema.{Room, Property, is_none, rent}
use pg_master_backend.Store.World.{
  World, Fault, ok, err, property_not_found, room_not_found, room_full, duplicate_key, read-outcome,
  tenancy_created, due_created,
}
use pg_master_backend.Phone.{normalize_phone_number}
use pg_master_backend.Tenancy.Shift.{room_by_id}
use pg_master_backend.Tenancy.Onboarding.{
  AddTenant, validate_dates, run_pre_flight_checks, resolve_user,
}
use pg_master_backend.Tenancy.Onboarding.Create.{
  resolved_user_id, add_bed, is_email_of_other, onboard, onboarded, create_tenant, new_tenancy,
  track_move_in, save_profile, save_user,
}
use pg_master_backend.Tenancy.Occupancy.{
  HasHousing, HasCapacity, IsHoused-create, IsWithinCapacity-more,
}

validate_dates_reads : (now : ℕ) (dto : AddTenant) (w : World) → (validate_dates now dto w).1 ≡ w
unfolding validate_dates
validate_dates_reads now dto w = ground arith

run_pre_flight_checks_reads :
    (dto : AddTenant) (owner_id : ℕ) (w : World) → (run_pre_flight_checks dto owner_id w).1 ≡ w
unfolding run_pre_flight_checks resolve_user
run_pre_flight_checks_reads dto owner_id w = ground arith

-- The request with its phone number as it is stored.
abbrev pub normalized : AddTenant → AddTenant
normalized dto = record dto { phone_number = normalize_phone_number dto.phone_number }

prorated_some :
    (join_date cycle_day rent_amount : ℕ)
    → (period : Prorated) × (calculate_prorated_rent join_date cycle_day rent_amount ≡ some period)
prorated_some join_date cycle_day rent_amount =
    (_, calculate_prorated_rent_days join_date cycle_day rent_amount)

-- What a request that is accepted has found.
pub record IsWelcome (now : ℕ) (dto : AddTenant) (owner_id : ℕ) (join_date : ℕ) (period : Prorated)
    (existing : Option ℕ) (room : Room) (w : World) : Type 0 where
  pub dates : validate_dates now (normalized dto) w ≡ (ok join_date, w)
  pub checks : run_pre_flight_checks (normalized dto) owner_id w ≡ (ok existing, w)
  pub prorated : calculate_prorated_rent join_date dto.rent_cycle_day dto.rent_amount ≡ some period
  pub row : room_by_id dto.room_id w ≡ some room
  pub free : room.occupied_beds < room.total_beds
  pub email_free : is_none (find_first (is_email_of_other dto.email existing) w.users.rows) ≡ true

-- The state that onboarding leaves.
abbrev pub welcomed : ℕ → AddTenant → ℕ → ℕ → Prorated → Option ℕ → World → World
welcomed now dto owner_id join_date period existing w =
    record (onboard now (normalized dto) join_date period existing w) {
      events =
          ((onboard now (normalized dto) join_date period existing w).events
            ++ tenancy_created w.tenancies.next_id
                (onboarded (normalized dto) period existing w).tenant_user_id dto.property_id
                owner_id dto.room_id (ceil_rupee dto.rent_amount) (ceil_rupee dto.security_deposit)
              ∷ [])
          ++ due_created w.dues.next_id w.tenancies.next_id dto.property_id rent
              (ceil_rupee period.prorated_amount) (ist_month now) (ist_year now)
            ∷ [];
    }

pub create_tenant-outcome :
    (now : ℕ) (dto : AddTenant) (owner_id : ℕ) (w : World)
    → ((e : Fault) × (create_tenant now dto owner_id w ≡ (err e, w)))
      ⊎ ((join_date : ℕ) × ((period : Prorated) × ((existing : Option ℕ) × ((room : Room)
                × IsWelcome now dto owner_id join_date period existing room w
                × (create_tenant now dto owner_id w ≡ (
                  ok (onboarded (normalized dto) period existing w),
                  welcomed now dto owner_id join_date period existing w,
                ))))))
unfolding create_tenant onboard track_move_in save_profile save_user
create_tenant-outcome now dto owner_id w =
    elim (read-outcome (validate_dates now (normalized dto)) w
      (validate_dates_reads now (normalized dto) w)) [
        | inl (e, threw) ↦ inl (e, rw threw refl)
        | inr (join_date, dates) ↦
            elim (read-outcome (run_pre_flight_checks (normalized dto) owner_id) w
              (run_pre_flight_checks_reads (normalized dto) owner_id w)) [
                | inl (e, threw) ↦ inl (e, rw (dates, threw) refl)
                | inr (existing, checks) ↦
                    elim (Bool-cases (
                      is_none
                        (find_first (λ (p : Property). p.id == dto.property_id) w.properties))) [
                          | inl nowhere ↦ inl (property_not_found, rw (dates, checks, nowhere) refl)
                          | inr somewhere ↦
                              let (period, prorated) =
                                prorated_some join_date dto.rent_cycle_day dto.rent_amount in
                              elim (Option-cases (room_by_id dto.room_id w)) [
                                | inl no_room ↦ inl (
                                  room_not_found,
                                  rw (dates, checks, somewhere, prorated, no_room) refl,
                                )
                                | inr (room, row) ↦
                                    elim (Bool-cases (leb room.total_beds room.occupied_beds)) [
                                      | inl full ↦ inl (
                                        room_full,
                                        rw (dates, checks, somewhere, prorated, row, full) refl,
                                      )
                                      | inr open_bed ↦
                                          elim (Bool-cases (
                                            not (
                                              is_none (
                                                find_first (is_email_of_other dto.email existing)
                                                  w.users.rows)))) [
                                                    | inl taken ↦ inl (
                                                      duplicate_key,
                                                      rw
                                                          (
                                                            dates, checks, somewhere, prorated, row,
                                                            open_bed, taken,
                                                          )
                                                          refl,
                                                    )
                                                    | inr unused ↦ inr (
                                                      join_date,
                                                      (
                                                        period,
                                                        (
                                                          existing,
                                                          (
                                                            room,
                                                            record {
                                                            dates = dates;
                                                            checks = checks;
                                                            prorated = prorated;
                                                            row = row;
                                                            free = ground (arith, open_bed);
                                                            email_free = ground (arith, unused);
                                                            },
                                                            rw
                                                            (
                                                            dates, checks, somewhere, prorated, row,
                                                            open_bed, unused,
                                                            )
                                                            refl,
                                                          ),
                                                        ),
                                                      ),
                                                    )
                                                  ]
                                    ]
                              ]
                        ]
              ]
      ]

-- The tenancy and the bed, whatever else is written.
onboard_rooms :
    (now : ℕ) (dto : AddTenant) (join_date : ℕ) (period : Prorated) (existing : Option ℕ)
    (w : World)
    → let w' = onboard now dto join_date period existing w in
      (w'.tenancies
        ≡ create
            (new_tenancy now dto join_date period.period_end (resolved_user_id existing w))
            w.tenancies)
      × (w'.rooms ≡ (add_bed dto.room_id w).rooms)
unfolding onboard track_move_in save_profile save_user
onboard_rooms now dto join_date period none w = elim (Bool-cases (ltb (today_ist now) join_date)) [
  | inl later ↦ rw later (refl, refl)
  | inr today ↦ rw today (refl, refl)
]
onboard_rooms now dto join_date period (some u) w =
    elim (Bool-cases (ltb (today_ist now) join_date)) [
      | inl later ↦ rw later (refl, refl)
      | inr today ↦ rw today (refl, refl)
    ]

new_tenancy_bills :
    (now : ℕ) (dto : AddTenant) (join_date period_end user_id i : ℕ)
    → is_billable (new_tenancy now dto join_date period_end user_id i).tenancy_status ≡ true
unfolding new_tenancy
new_tenancy_bills now dto join_date period_end user_id i = ground arith

module _ (now : ℕ) (dto : AddTenant) (owner_id : ℕ) (w : World) where
  pub create_tenant-HasHousing : HasHousing w → HasHousing (create_tenant now dto owner_id w).1
  unfolding new_tenancy
  create_tenant-HasHousing housing = elim (create_tenant-outcome now dto owner_id w) [
    | inl (e, threw) ↦ rw (ap (λ r. r.1) threw) housing
    | inr (join_date, (period, (existing, (room, fits, done)))) ↦
        let user_id = resolved_user_id existing w in
        let kept = onboard_rooms now (normalized dto) join_date period existing w in
        rw (ap (λ r. r.1) done, kept.0, kept.1)
          (IsHoused-create w.tenancies w.rooms.rows housing
            (new_tenancy now (normalized dto) join_date period.period_end user_id) (λ i. refl)
            (new_tenancy_bills now (normalized dto) join_date period.period_end user_id) dto.room_id
            (λ i. refl))
  ]

  pub create_tenant-HasCapacity : HasCapacity w → HasCapacity (create_tenant now dto owner_id w).1
  create_tenant-HasCapacity roomy = elim (create_tenant-outcome now dto owner_id w) [
    | inl (e, threw) ↦ rw (ap (λ r. r.1) threw) roomy
    | inr (join_date, (period, (existing, (room, fits, done)))) ↦
        let kept = onboard_rooms now (normalized dto) join_date period existing w in
        rw (ap (λ r. r.1) done, kept.1)
          (IsWithinCapacity-more dto.room_id w.rooms.rows fits.row fits.free roomy)
  ]
