-- ===== src/Tenancy/Occupancy/Shifts.antt =====
-- Beds when tenants change rooms.
use pg_master_backend.Prelude.{
  ℕ, ◌<◌, ◌≡◌, refl, ap, ◌⊎◌, inl, inr, true, false, not, ◌&&◌, some, ◌==◌, arith, leb,
  Option-cases, Bool-cases,
}
use pg_master_backend.Due.{is_billable}
use pg_master_backend.Store.Rows.{find_first-true, find_first-update, update_many}
use pg_master_backend.Store.Ids.{find_first_by_id}
use pg_master_backend.Store.Schema.{Tenancy, Room, Property, is_none}
use pg_master_backend.Store.World.{
  World, Fault, ok, err, tenancy_not_found, record_missing, access_denied, same_room,
  room_not_found, room_full, property_not_found,
}
use pg_master_backend.Tenancy.Notice.{is_staying}
use pg_master_backend.Tenancy.Onboarding.{owned_room}
use pg_master_backend.Tenancy.Shift.{
  ShiftRoom, or_else, staying_tenancy, property_by_id, room_by_id, missing_destination,
  move_records, shift_tenancy, shifted, shift_tenant_room,
}
use pg_master_backend.Tenancy.Occupancy.{
  HasHousing, HasCapacity, IsHoused-moved, IsWithinCapacity-more, IsWithinCapacity-fewer,
  tenancy_id_of, is_room, one_fewer,
}

-- What a shift that is accepted has checked.
pub record IsShiftable (dto : ShiftRoom) (owner_id : ℕ) (t : Tenancy) (room : Room) (w : World)
    : Type 0 where
  pub tenancy : staying_tenancy dto.tenancy_id w ≡ some t
  pub elsewhere :
      dto.new_room_id == t.room_id && or_else dto.new_property_id t.property_id == t.property_id
      ≡ false
  pub destination :
      (d : Room) × (owned_room dto.new_room_id
          (or_else dto.new_property_id t.property_id)
          owner_id
          w
        ≡ some d)
  pub row : room_by_id dto.new_room_id w ≡ some room
  pub free : room.occupied_beds < room.total_beds

abbrev pub destination_of : ShiftRoom → Tenancy → ℕ
destination_of dto t = or_else dto.new_property_id t.property_id

pub shift_tenant_room-outcome :
    (now : ℕ) (dto : ShiftRoom) (owner_id : ℕ) (w : World)
    → ((e : Fault) × (shift_tenant_room now dto owner_id w ≡ (err e, w)))
      ⊎ ((t : Tenancy) × ((room : Room) × IsShiftable dto owner_id t room w
            × (shift_tenant_room now dto owner_id w ≡ (
              ok (shifted t (destination_of dto t) w),
              shift_tenancy now t dto.new_room_id (destination_of dto t) w,
            ))))
unfolding shift_tenant_room
shift_tenant_room-outcome now dto owner_id w =
    elim (Option-cases (staying_tenancy dto.tenancy_id w)) [
      | inl missing ↦ inl (tenancy_not_found, rw missing refl)
      | inr (t, found) ↦ elim (Option-cases (property_by_id t.property_id w)) [
        | inl no_property ↦ inl (record_missing, rw (found, no_property) refl)
        | inr (p, property) ↦ elim (Bool-cases (not (p.owner_id == owner_id))) [
          | inl foreign ↦ inl (access_denied, rw (found, property, foreign) refl)
          | inr own ↦
              elim (Bool-cases
                (dto.new_room_id == t.room_id && destination_of dto t == t.property_id)) [
                  | inl same ↦ inl (same_room, rw (found, property, own, same) refl)
                  | inr apart ↦ to_destination t found p property own apart
                ]
        ]
      ]
    ]
  where
    to_destination :
        (t : Tenancy)
        → staying_tenancy dto.tenancy_id w ≡ some t
        → (p : Property) → property_by_id t.property_id w ≡ some p
        → not (p.owner_id == owner_id) ≡ false
        → dto.new_room_id == t.room_id && destination_of dto t == t.property_id ≡ false
        → ((e : Fault) × (shift_tenant_room now dto owner_id w ≡ (err e, w)))
          ⊎ ((t : Tenancy) × ((room : Room) × IsShiftable dto owner_id t room w
                × (shift_tenant_room now dto owner_id w ≡ (
                  ok (shifted t (destination_of dto t) w),
                  shift_tenancy now t dto.new_room_id (destination_of dto t) w,
                ))))
    to_destination t found p property own apart =
        elim (Option-cases (owned_room dto.new_room_id (destination_of dto t) owner_id w)) [
          | inl nowhere ↦ inl (
            missing_destination (destination_of dto t) (room_by_id dto.new_room_id w),
            rw (found, property, own, apart, nowhere) refl,
          )
          | inr (d, there) ↦ elim (Bool-cases (leb d.total_beds d.occupied_beds)) [
            | inl full ↦ inl (room_full, rw (found, property, own, apart, there, full) refl)
            | inr free ↦ elim (Bool-cases (is_none (property_by_id (destination_of dto t) w))) [
              | inl lost ↦
                  inl (property_not_found, rw (found, property, own, apart, there, free, lost) refl)
              | inr kept ↦ elim (Bool-cases (is_none (room_by_id t.room_id w))) [
                | inl no_old ↦ inl (
                  room_not_found,
                  rw (found, property, own, apart, there, free, kept, no_old) refl,
                )
                | inr old ↦ elim (Option-cases (room_by_id dto.new_room_id w)) [
                  | inl no_new ↦ inl (
                    room_not_found,
                    rw (found, property, own, apart, there, free, kept, old, no_new) refl,
                  )
                  | inr (room, new) ↦ elim (Bool-cases (leb room.total_beds room.occupied_beds)) [
                    | inl filled ↦ inl (
                      room_full,
                      rw (found, property, own, apart, there, free, kept, old, new, filled) refl,
                    )
                    | inr open_bed ↦ inr (
                      t,
                      (
                        room,
                        record {
                          tenancy = found;
                          elsewhere = apart;
                          destination = (d, there);
                          row = new;
                          free = ground (arith, open_bed);
                        },
                        rw (found, property, own, apart, there, free, kept, old, new, open_bed)
                            refl,
                      ),
                    )
                  ]
                ]
              ]
            ]
          ]
        ]

-- A staying tenancy holds a bed.
staying_bills :
    (t : Tenancy) → is_staying t.tenancy_status ≡ true → is_billable t.tenancy_status ≡ true
staying_bills t stays = ground (arith, stays)

module _ (now : ℕ) (dto : ShiftRoom) (owner_id : ℕ) (w : World) where
  pub shift_tenant_room-HasHousing :
      HasHousing w → HasHousing (shift_tenant_room now dto owner_id w).1
  unfolding shift_tenancy move_records
  shift_tenant_room-HasHousing housing = elim (shift_tenant_room-outcome now dto owner_id w) [
    | inl (e, threw) ↦ rw (ap (λ r. r.1) threw) housing
    | inr (t, (room, fits, done)) ↦
        let wants = λ (x : Tenancy).
          x.id == dto.tenancy_id && (is_staying x.tenancy_status && is_none x.deleted_at) in
        let at = find_first-true wants w.tenancies.rows fits.tenancy in
        let bills = staying_bills t (ground (arith, at)) in
        let row =
          find_first_by_id tenancy_id_of wants w.tenancies.rows housing.keyed.0 fits.tenancy in
        let new_property = destination_of dto t in
        let moved =
          IsHoused-moved w.tenancies w.rooms.rows housing
            (λ (x : Tenancy). record x { room_id = dto.new_room_id; property_id = new_property })
            (λ x. refl) t.id row dto.new_room_id bills bills refl in
        elim (Bool-cases (new_property == t.property_id)) [
          | inl stays ↦ rw (ap (λ r. r.1) done, stays) moved
          | inr crosses ↦ rw (ap (λ r. r.1) done, crosses) moved
        ]
  ]

  pub shift_tenant_room-HasCapacity :
      HasCapacity w → HasCapacity (shift_tenant_room now dto owner_id w).1
  unfolding shift_tenancy move_records
  shift_tenant_room-HasCapacity roomy = elim (shift_tenant_room-outcome now dto owner_id w) [
    | inl (e, threw) ↦ rw (ap (λ r. r.1) threw) roomy
    | inr (t, (room, fits, done)) ↦
        let free = fits.free in
        let row =
          find_first-update (is_room dto.new_room_id) (is_room t.room_id) one_fewer w.rooms.rows
            (λ r. refl) fits.row in
        let moved =
          IsWithinCapacity-more dto.new_room_id
            (update_many (is_room t.room_id) one_fewer w.rooms.rows) row (ground arith)
            (IsWithinCapacity-fewer t.room_id w.rooms.rows roomy) in
        elim (Bool-cases (destination_of dto t == t.property_id)) [
          | inl stays ↦ rw (ap (λ r. r.1) done, stays) moved
          | inr crosses ↦ rw (ap (λ r. r.1) done, crosses) moved
        ]
  ]
