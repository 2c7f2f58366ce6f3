-- ===== src/Tenancy/Occupancy/Calls.antt =====
-- Any sequence of the calls that change tenancies or rooms.
use pg_master_backend.Prelude.{
  ℕ, ◌≤◌, ◌≡◌, refl, ap, ◌⊎◌, inl, inr, Bool, true, false, not, ◌||◌, Option, List, [], ◌∷◌, ◌==◌,
  arith, All, ltb, length, Option-cases, Bool-cases,
}
use pg_master_backend.Room.{own_room, tenants_of, remove_room, delete_room}
use pg_master_backend.Store.Rows.{find_first, find_many, All-delete_many}
use pg_master_backend.Store.Ids.{HasUniqueIds-delete}
use pg_master_backend.Store.Schema.{Tenancy, Room, is_none}
use pg_master_backend.Store.World.{
  World, Fault, ok, err, room_not_found, room_occupied, room_has_history,
}
use pg_master_backend.Tenancy.Notice.{
  is_staying, put_on_notice_period, cancel_notice_period, approve_move_out_request,
  reject_move_out_request,
}
use pg_master_backend.Tenancy.Onboarding.{AddTenant}
use pg_master_backend.Tenancy.Onboarding.Create.{create_tenant}
use pg_master_backend.Tenancy.Shift.{ShiftRoom, shift_tenant_room}
use pg_master_backend.Tenancy.Shift.Requests.{pending_shift, approve_room_shift_request}
use pg_master_backend.Tenancy.MoveIn.{confirm_move_in}
use pg_master_backend.Tenancy.Exit.{delete_tenant, revoke_tenancy_exit, re_active_tenancy}
use pg_master_backend.Tenancy.Details.{EditTenancy, update_tenancy_details}
use pg_master_backend.Tenancy.Occupancy.{HasHousing, HasCapacity, beds_held}
use pg_master_backend.Tenancy.Occupancy.Exits.{
  delete_tenant-HasHousing, delete_tenant-HasCapacity, revoke_tenancy_exit-HasHousing,
  re_active_tenancy-HasHousing, re_active_tenancy-HasCapacity,
}
use pg_master_backend.Tenancy.Occupancy.Shifts.{
  shift_tenant_room-outcome, shift_tenant_room-HasHousing, shift_tenant_room-HasCapacity,
}
use pg_master_backend.Tenancy.Occupancy.Onboards.{
  create_tenant-HasHousing, create_tenant-HasCapacity,
}
use pg_master_backend.Tenancy.Occupancy.Stays.{
  IsKept, put_on_notice_period-IsKept, cancel_notice_period-IsKept, confirm_move_in-IsKept,
}
use pg_master_backend.Tenancy.Occupancy.Edits.{
  update_tenancy_details-IsKept, approve_move_out_request-IsKept, reject_move_out_request-IsKept,
}

-- A call at a time, with its arguments.
pub data Call : Type 0 where
  creates_tenant : ℕ → AddTenant → ℕ → Call
  confirms_move_in : ℕ → ℕ → ℕ → Call
  updates_details : ℕ → ℕ → ℕ → EditTenancy → Call
  puts_on_notice : ℕ → ℕ → ℕ → List (Option ℕ) → Call
  cancels_notice : ℕ → ℕ → Call
  approves_move_out : ℕ → ℕ → ℕ → Call
  rejects_move_out : ℕ → ℕ → Call
  shifts_room : ℕ → ShiftRoom → ℕ → Call
  approves_shift : ℕ → ℕ → ℕ → Call
  deletes_tenant : ℕ → ℕ → ℕ → ℕ → Call
  revokes_exit : ℕ → ℕ → ℕ → Call
  re_activates : ℕ → ℕ → ℕ → Call
  deletes_room : ℕ → ℕ → Call

unfoldable pub perform : Call → World → World
perform (creates_tenant now dto owner) w = (create_tenant now dto owner w).1
perform (confirms_move_in now tenancy owner) w = (confirm_move_in now tenancy owner w).1
perform (updates_details now tenancy owner dto) w =
    (update_tenancy_details now tenancy owner dto w).1
perform (puts_on_notice now tenancy owner date) w =
    (put_on_notice_period now tenancy owner date w).1
perform (cancels_notice tenancy owner) w = (cancel_notice_period tenancy owner w).1
perform (approves_move_out now request owner) w = (approve_move_out_request now request owner w).1
perform (rejects_move_out request owner) w = (reject_move_out_request request owner w).1
perform (shifts_room now dto owner) w = (shift_tenant_room now dto owner w).1
perform (approves_shift now request owner) w = (approve_room_shift_request now request owner w).1
perform (deletes_tenant now tenant property owner) w = (delete_tenant now tenant property owner w).1
perform (revokes_exit now tenancy owner) w = (revoke_tenancy_exit now tenancy owner w).1
perform (re_activates property owner tenancy) w = (re_active_tenancy property owner tenancy w).1
perform (deletes_room room owner) w = (delete_room room owner w).1

unfoldable pub perform_all : List Call → World → World
perform_all [] w = w
perform_all (c ∷ cs) w = perform_all cs (perform c w)

-- The approval of a shift does what the shift does.
approve_room_shift_request-outcome :
    (now request_id owner_id : ℕ) (w : World)
    → (((approve_room_shift_request now request_id owner_id w).1.tenancies ≡ w.tenancies)
        × ((approve_room_shift_request now request_id owner_id w).1.rooms ≡ w.rooms))
      ⊎ ((dto : ShiftRoom) × (((approve_room_shift_request now request_id owner_id w).1.tenancies
              ≡ (shift_tenant_room now dto owner_id w).1.tenancies)
            × ((approve_room_shift_request now request_id owner_id w).1.rooms
                ≡ (shift_tenant_room now dto owner_id w).1.rooms)))
unfolding approve_room_shift_request
approve_room_shift_request-outcome now request_id owner_id w =
    elim (Option-cases (pending_shift request_id owner_id w)) [
      | inl missing ↦ inl (rw missing (refl, refl))
      | inr (r, found) ↦
          elim (Option-cases
            (find_first (λ (t : Tenancy). t.id == r.tenancy_id) w.tenancies.rows)) [
              | inl lost ↦ inl (rw (found, lost) (refl, refl))
              | inr (t, its) ↦ elim (Bool-cases (not (is_none t.deleted_at))) [
                | inl gone ↦ inl (rw (found, its, gone) (refl, refl))
                | inr here ↦ elim (Bool-cases (not (is_staying t.tenancy_status))) [
                  | inl idle ↦ inl (rw (found, its, here, idle) (refl, refl))
                  | inr stays ↦
                      let dto : ShiftRoom = record {
                        tenancy_id = r.tenancy_id;
                        new_room_id = r.requested_room_id;
                        new_property_id = r.requested_property_id;
                      } in
                      inr (
                        dto,
                        elim (shift_tenant_room-outcome now dto owner_id w) [
                          | inl (e, threw) ↦ rw (found, its, here, stays, threw) (refl, refl)
                          | inr (x, (room, fits, done)) ↦
                              rw (found, its, here, stays, done) (refl, refl)
                        ],
                      )
                ]
              ]
            ]
    ]

delete_room-outcome :
    (room_id owner_id : ℕ) (w : World)
    → ((e : Fault) × (delete_room room_id owner_id w ≡ (err e, w)))
      ⊎ ((length (tenants_of room_id w) ≡ 0)
          × (delete_room room_id owner_id w ≡ (ok room_id, remove_room room_id w)))
unfolding delete_room
delete_room-outcome room_id owner_id w = elim (Option-cases (own_room room_id owner_id w)) [
  | inl missing ↦ inl (room_not_found, rw missing refl)
  | inr (r, found) ↦
      elim (Bool-cases (
        ltb 0
          (length (find_many (λ (t : Tenancy). is_staying t.tenancy_status) (tenants_of room_id w)))
        || ltb 0 r.occupied_beds)) [
          | inl taken ↦ inl (room_occupied, rw (found, taken) refl)
          | inr empty ↦ elim (Bool-cases (ltb 0 (length (tenants_of room_id w)))) [
            | inl history ↦ inl (room_has_history, rw (found, empty, history) refl)
            | inr unused ↦ inr (ground (arith, unused), rw (found, empty, unused) refl)
          ]
        ]
]

delete_room-HasHousing :
    (room_id owner_id : ℕ) (w : World)
    → HasHousing w
    → HasHousing (delete_room room_id owner_id w).1
unfolding remove_room
delete_room-HasHousing room_id owner_id w housing = elim (delete_room-outcome room_id owner_id w) [
  | inl (e, threw) ↦ rw (ap (λ r. r.1) threw) housing
  | inr (unused, done) ↦ rw (ap (λ r. r.1) done) (record {
    keyed = housing.keyed;
    counted =
        All-delete_many (λ (r : Room). r.occupied_beds ≡ beds_held r.id w.tenancies.rows)
          (λ (r : Room). r.id == room_id) w.rooms.rows housing.counted;
  })
]

delete_room-HasCapacity :
    (room_id owner_id : ℕ) (w : World)
    → HasCapacity w
    → HasCapacity (delete_room room_id owner_id w).1
unfolding remove_room
delete_room-HasCapacity room_id owner_id w roomy = elim (delete_room-outcome room_id owner_id w) [
  | inl (e, threw) ↦ rw (ap (λ r. r.1) threw) roomy
  | inr (unused, done) ↦ rw (ap (λ r. r.1) done) (record {
    rooms_apart =
        HasUniqueIds-delete (λ (r : Room). r.id) (λ (r : Room). r.id == room_id) w.rooms.rows
          roomy.rooms_apart;
    fits =
        All-delete_many (λ (r : Room). r.occupied_beds ≤ r.total_beds)
          (λ (r : Room). r.id == room_id) w.rooms.rows roomy.fits;
  })
]

perform-HasHousing : (c : Call) (w : World) → HasHousing w → HasHousing (perform c w)
unfolding perform
perform-HasHousing (creates_tenant now dto owner) w h = create_tenant-HasHousing now dto owner w h
perform-HasHousing (confirms_move_in now tenancy owner) w h =
    (confirm_move_in-IsKept now tenancy owner w).housing h
perform-HasHousing (updates_details now tenancy owner dto) w h =
    (update_tenancy_details-IsKept now tenancy owner dto w).housing h
perform-HasHousing (puts_on_notice now tenancy owner date) w h =
    (put_on_notice_period-IsKept now tenancy owner date w).housing h
perform-HasHousing (cancels_notice tenancy owner) w h =
    (cancel_notice_period-IsKept tenancy owner w).housing h
perform-HasHousing (approves_move_out now request owner) w h =
    (approve_move_out_request-IsKept now request owner w).housing h
perform-HasHousing (rejects_move_out request owner) w h =
    (reject_move_out_request-IsKept request owner w).housing h
perform-HasHousing (shifts_room now dto owner) w h = shift_tenant_room-HasHousing now dto owner w h
perform-HasHousing (approves_shift now request owner) w h =
    elim (approve_room_shift_request-outcome now request owner w) [
      | inl same ↦ rw (same.0, same.1) h
      | inr (dto, same) ↦ rw (same.0, same.1) (shift_tenant_room-HasHousing now dto owner w h)
    ]
perform-HasHousing (deletes_tenant now tenant property owner) w h =
    delete_tenant-HasHousing now tenant property owner w h
perform-HasHousing (revokes_exit now tenancy owner) w h =
    revoke_tenancy_exit-HasHousing now tenancy owner w h
perform-HasHousing (re_activates property owner tenancy) w h =
    re_active_tenancy-HasHousing property owner tenancy w h
perform-HasHousing (deletes_room room owner) w h = delete_room-HasHousing room owner w h

-- Where tenancies have ids of their own and every room counts as occupied exactly the beds that its
-- ACTIVE, NOTICE_PERIOD and PENDING tenancies hold, it still does after any sequence of calls, whether
-- they throw or not: tenants added, moved in, edited, put on notice and back, moved to another room,
-- removed and taken back, requests approved and rejected, and rooms deleted.
pub perform_all-HasHousing :
    (cs : List Call) (w : World) → HasHousing w → HasHousing (perform_all cs w)
unfolding perform_all
perform_all-HasHousing [] w h = h
perform_all-HasHousing (c ∷ cs) w h =
    perform_all-HasHousing cs (perform c w) (perform-HasHousing c w h)

abbrev pub is_revocation : Call → Bool
is_revocation (revokes_exit now tenancy owner) = true
is_revocation _ = false

kept_capacity : {w w' : World} → IsKept w w' → HasCapacity w → HasCapacity w'
kept_capacity kept h = rw kept.rooms h

perform-HasCapacity :
    (c : Call) (w : World) → is_revocation c ≡ false → HasCapacity w → HasCapacity (perform c w)
unfolding perform
perform-HasCapacity (creates_tenant now dto owner) w n h =
    create_tenant-HasCapacity now dto owner w h
perform-HasCapacity (confirms_move_in now tenancy owner) w n h =
    kept_capacity (confirm_move_in-IsKept now tenancy owner w) h
perform-HasCapacity (updates_details now tenancy owner dto) w n h =
    kept_capacity (update_tenancy_details-IsKept now tenancy owner dto w) h
perform-HasCapacity (puts_on_notice now tenancy owner date) w n h =
    kept_capacity (put_on_notice_period-IsKept now tenancy owner date w) h
perform-HasCapacity (cancels_notice tenancy owner) w n h =
    kept_capacity (cancel_notice_period-IsKept tenancy owner w) h
perform-HasCapacity (approves_move_out now request owner) w n h =
    kept_capacity (approve_move_out_request-IsKept now request owner w) h
perform-HasCapacity (rejects_move_out request owner) w n h =
    kept_capacity (reject_move_out_request-IsKept request owner w) h
perform-HasCapacity (shifts_room now dto owner) w n h =
    shift_tenant_room-HasCapacity now dto owner w h
perform-HasCapacity (approves_shift now request owner) w n h =
    elim (approve_room_shift_request-outcome now request owner w) [
      | inl same ↦ rw same.1 h
      | inr (dto, same) ↦ rw same.1 (shift_tenant_room-HasCapacity now dto owner w h)
    ]
perform-HasCapacity (deletes_tenant now tenant property owner) w n h =
    delete_tenant-HasCapacity now tenant property owner w h
perform-HasCapacity (revokes_exit now tenancy owner) w n h = ground (arith, n)
perform-HasCapacity (re_activates property owner tenancy) w n h =
    re_active_tenancy-HasCapacity property owner tenancy w h
perform-HasCapacity (deletes_room room owner) w n h = delete_room-HasCapacity room owner w h

-- Where rooms have ids of their own and no room counts more beds as occupied than it has, none does
-- after any sequence of these calls that has no call of revokeTenancyExit.
pub perform_all-HasCapacity :
    (cs : List Call) (w : World)
    → All (λ c. is_revocation c ≡ false) cs
    → HasCapacity w
    → HasCapacity (perform_all cs w)
unfolding perform_all
perform_all-HasCapacity [] w n h = h
perform_all-HasCapacity (c ∷ cs) w n h =
    perform_all-HasCapacity cs (perform c w) n.1 (perform-HasCapacity c w n.0 h)
