-- ===== src/Tenancy/Occupancy/Exits.antt =====
-- Beds when tenants leave and come back.
use pg_master_backend.Prelude.{
  ℕ, ◌+◌, subst, none, ◌<◌, ◌≤◌, ◌≡◌, refl, ap, ◌⊎◌, inl, inr, Bool, true, not, ◌&&◌, some, List,
  [], ◌∷◌, ◌++◌, ◌==◌, arith, ltb, leb, length, Option-cases, Bool-cases,
}
use pg_master_backend.Due.{is_billable}
use pg_master_backend.Proration.{now_ist}
use pg_master_backend.Store.Rows.{update_many, find_first, find_first-true, find_first-updated}
use pg_master_backend.Store.Ids.{HasUniqueIds, find_first_by_id}
use pg_master_backend.Store.Schema.{active, Tenancy, Room, is_none}
use pg_master_backend.Store.World.{
  World, Fault, Event, ok, err, tenant_not_found, tenancy_not_found, access_denied, open_dues,
  not_exited, room_not_found, room_full, record_missing, tenant_deleted,
}
use pg_master_backend.Tenancy.Notice.{is_owned, profile_of}
use pg_master_backend.Tenancy.Shift.{pending_dues, room_by_id}
use pg_master_backend.Tenancy.Exit.{
  is_tenant_user, leaving_tenancy, exit_tenancy, delete_tenant, exited_tenancy, is_exited,
  revoke_exit, revoke_tenancy_exit, re_activate, re_active_tenancy,
}
use pg_master_backend.Tenancy.Occupancy.{
  HasHousing, HasCapacity, IsHoused-left, IsHoused-returned, IsWithinCapacity-more,
  IsWithinCapacity-fewer, tenancy_id_of, is_room, one_more,
}

-- A tenant who is let go: a tenancy of theirs is there, and nothing is owed on it.
pub delete_tenant-outcome :
    (now tenant_id property_id owner_id : ℕ) (w : World)
    → ((e : Fault) × (delete_tenant now tenant_id property_id owner_id w ≡ (err e, w)))
      ⊎ ((t : Tenancy) × (leaving_tenancy tenant_id property_id w ≡ some t)
          × (is_owned owner_id t.property_id w ≡ true)
          × (length (pending_dues t.id w) ≡ 0)
          × ((events : List Event) × (delete_tenant now tenant_id property_id owner_id w
                ≡ (ok t.id, record (exit_tenancy now t w) { events = events }))))
unfolding delete_tenant exit_tenancy
delete_tenant-outcome now tenant_id property_id owner_id w =
    elim (Bool-cases (is_none (find_first (is_tenant_user tenant_id) w.users.rows))) [
      | inl nobody ↦ inl (tenant_not_found, rw nobody refl)
      | inr user ↦ elim (Option-cases (leaving_tenancy tenant_id property_id w)) [
        | inl missing ↦ inl (tenancy_not_found, rw (user, missing) refl)
        | inr (t, found) ↦ elim (Bool-cases (not (is_owned owner_id t.property_id w))) [
          | inl foreign ↦ inl (access_denied, rw (user, found, foreign) refl)
          | inr own ↦ elim (Bool-cases (ltb 0 (length (pending_dues t.id w)))) [
            | inl owing ↦ inl (open_dues, rw (user, found, own, owing) refl)
            | inr clear ↦ inr (
              t,
              found,
              ground (arith, own),
              ground (arith, clear),
              (
                w.events ++ tenant_deleted t.property_id tenant_id (now_ist now) ∷ [],
                rw (user, found, own, clear) refl,
              ),
            )
          ]
        ]
      ]
    ]

-- The row that a search finds, found by its id.
by_its_id :
    (p : Tenancy → Bool) (w : World) {t : Tenancy}
    → HasHousing w
    → find_first p w.tenancies.rows ≡ some t
    → find_first (λ (x : Tenancy). x.id == t.id) w.tenancies.rows ≡ some t
by_its_id p w housing found =
    find_first_by_id tenancy_id_of p w.tenancies.rows housing.keyed.0 found

module _ (now tenant_id property_id owner_id : ℕ) (w : World) where
  pub delete_tenant-HasHousing :
      HasHousing w → HasHousing (delete_tenant now tenant_id property_id owner_id w).1
  unfolding exit_tenancy
  delete_tenant-HasHousing housing =
      elim (delete_tenant-outcome now tenant_id property_id owner_id w) [
        | inl (e, threw) ↦ rw (ap (λ r. r.1) threw) housing
        | inr (t, found, own, clear, (events, done)) ↦
            let wants = λ (x : Tenancy).
              x.tenent_id == tenant_id
              && (x.property_id == property_id
                  && (is_billable x.tenancy_status && is_none x.deleted_at)) in
            let at = find_first-true wants w.tenancies.rows found in
            rw (ap (λ r. r.1) done) (
              IsHoused-left w.tenancies w.rooms.rows housing _ (λ x. refl) t.id
                (by_its_id wants w housing found) (ground (arith, at)) refl)
      ]

  pub delete_tenant-HasCapacity :
      HasCapacity w → HasCapacity (delete_tenant now tenant_id property_id owner_id w).1
  unfolding exit_tenancy
  delete_tenant-HasCapacity roomy =
      elim (delete_tenant-outcome now tenant_id property_id owner_id w) [
        | inl (e, threw) ↦ rw (ap (λ r. r.1) threw) roomy
        | inr (t, found, own, clear, (events, done)) ↦
            rw (ap (λ r. r.1) done) (IsWithinCapacity-fewer t.room_id w.rooms.rows roomy)
      ]

revoke_tenancy_exit-outcome :
    (now tenancy_id owner_id : ℕ) (w : World)
    → ((e : Fault) × (revoke_tenancy_exit now tenancy_id owner_id w ≡ (err e, w)))
      ⊎ ((t : Tenancy) × (exited_tenancy tenancy_id owner_id w ≡ some t)
          × (revoke_tenancy_exit now tenancy_id owner_id w ≡ (ok tenancy_id, revoke_exit now t w)))
unfolding revoke_tenancy_exit
revoke_tenancy_exit-outcome now tenancy_id owner_id w =
    elim (Option-cases (exited_tenancy tenancy_id owner_id w)) [
      | inl missing ↦ inl (tenancy_not_found, rw missing refl)
      | inr (t, found) ↦ inr (t, found, rw found refl)
    ]

pub revoke_tenancy_exit-HasHousing :
    (now tenancy_id owner_id : ℕ) (w : World)
    → HasHousing w
    → HasHousing (revoke_tenancy_exit now tenancy_id owner_id w).1
unfolding revoke_exit
revoke_tenancy_exit-HasHousing now tenancy_id owner_id w housing =
    elim (revoke_tenancy_exit-outcome now tenancy_id owner_id w) [
      | inl (e, threw) ↦ rw (ap (λ r. r.1) threw) housing
      | inr (t, found, done) ↦
          let wants = λ (x : Tenancy).
            x.id == tenancy_id
            && (is_exited x.tenancy_status && is_owned owner_id x.property_id w) in
          let at = find_first-true wants w.tenancies.rows found in
          rw (ap (λ r. r.1) done) (
            IsHoused-returned w.tenancies w.rooms.rows housing _ (λ x. refl) t.id
              (by_its_id wants w housing found) (ground (arith, at)) refl refl)
    ]

-- A tenancy that is taken up again has a room with a free bed.
re_active_tenancy-outcome :
    (property_id owner_id tenancy_id : ℕ) (w : World)
    → ((e : Fault) × (re_active_tenancy property_id owner_id tenancy_id w ≡ (err e, w)))
      ⊎ ((t : Tenancy) × ((r : Room) × (find_first
                (λ (x : Tenancy). x.id == tenancy_id && x.property_id == property_id)
                w.tenancies.rows
              ≡ some t)
            × (is_exited t.tenancy_status ≡ true)
            × (room_by_id t.room_id w ≡ some r)
            × (r.occupied_beds < r.total_beds)
            × (re_active_tenancy property_id owner_id tenancy_id w ≡ (ok tt, re_activate t w))))
unfolding re_active_tenancy
re_active_tenancy-outcome property_id owner_id tenancy_id w =
    elim (Bool-cases (not (is_owned owner_id property_id w))) [
      | inl foreign ↦ inl (access_denied, rw foreign refl)
      | inr own ↦
          elim (Option-cases (
            find_first (λ (x : Tenancy). x.id == tenancy_id && x.property_id == property_id)
              w.tenancies.rows)) [
                | inl missing ↦ inl (tenancy_not_found, rw (own, missing) refl)
                | inr (t, found) ↦ elim (Bool-cases (not (is_exited t.tenancy_status))) [
                  | inl stays ↦ inl (not_exited, rw (own, found, stays) refl)
                  | inr left ↦ elim (Option-cases (room_by_id t.room_id w)) [
                    | inl no_room ↦ inl (room_not_found, rw (own, found, left, no_room) refl)
                    | inr (r, room) ↦ elim (Bool-cases (leb r.total_beds r.occupied_beds)) [
                      | inl full ↦ inl (room_full, rw (own, found, left, room, full) refl)
                      | inr free ↦ elim (Bool-cases (is_none (profile_of t.tenent_id w))) [
                        | inl no_profile ↦
                            inl (record_missing, rw (own, found, left, room, free, no_profile) refl)
                        | inr profile ↦ inr (
                          t,
                          (
                            r,
                            found,
                            ground (arith, left),
                            room,
                            ground (arith, free),
                            rw (own, found, left, room, free, profile) refl,
                          ),
                        )
                      ]
                    ]
                  ]
                ]
              ]
    ]

module _ (property_id owner_id tenancy_id : ℕ) (w : World) where
  pub re_active_tenancy-HasHousing :
      HasHousing w → HasHousing (re_active_tenancy property_id owner_id tenancy_id w).1
  unfolding re_activate
  re_active_tenancy-HasHousing housing =
      elim (re_active_tenancy-outcome property_id owner_id tenancy_id w) [
        | inl (e, threw) ↦ rw (ap (λ r. r.1) threw) housing
        | inr (t, (r, found, left, room, free, done)) ↦ rw (ap (λ r. r.1) done) (
            IsHoused-returned w.tenancies w.rooms.rows housing _ (λ x. refl) t.id
              (by_its_id (λ x. x.id == tenancy_id && x.property_id == property_id) w housing found)
              (ground (arith, left)) refl refl)
      ]

  pub re_active_tenancy-HasCapacity :
      HasCapacity w → HasCapacity (re_active_tenancy property_id owner_id tenancy_id w).1
  unfolding re_activate
  re_active_tenancy-HasCapacity roomy =
      elim (re_active_tenancy-outcome property_id owner_id tenancy_id w) [
        | inl (e, threw) ↦ rw (ap (λ r. r.1) threw) roomy
        | inr (t, (r, found, left, room, free, done)) ↦
            rw (ap (λ r. r.1) done) (IsWithinCapacity-more t.room_id w.rooms.rows room free roomy)
      ]

abbrev taken_up : Tenancy → Tenancy
taken_up t = record t { tenancy_status = active; deleted_at = none; left_at = none }

-- revokeTenancyExit does not look at the beds: where tenancies have ids of their own, every EXITED
-- tenancy of the owner is taken up, whose room has no free bed. The call returns its id, the tenancy is
-- ACTIVE, without a date of leaving or of deletion and otherwise the same, and its room counts one bed
-- more as occupied, which is more than it has.
pub revoke_tenancy_exit_overfills :
    (now tenancy_id owner_id : ℕ) (w : World) {t : Tenancy} {r : Room}
    → HasUniqueIds (λ (x : Tenancy). x.id) w.tenancies.rows
    → exited_tenancy tenancy_id owner_id w ≡ some t
    → room_by_id t.room_id w ≡ some r
    → r.total_beds ≤ r.occupied_beds
    → let (result, w') = revoke_tenancy_exit now tenancy_id owner_id w in
      (result ≡ ok tenancy_id)
      × (find_first (λ (x : Tenancy). x.id == tenancy_id) w'.tenancies.rows
          ≡ some (record t { tenancy_status = active; deleted_at = none; left_at = none }))
      × ((r' : Room) × (room_by_id t.room_id w' ≡ some r')
          × (r'.total_beds ≡ r.total_beds)
          × (r'.occupied_beds ≡ r.occupied_beds + 1)
          × (r'.total_beds < r'.occupied_beds))
unfolding revoke_tenancy_exit revoke_exit
revoke_tenancy_exit_overfills now tenancy_id owner_id w {t} {r} unique found row full =
    let wants = λ (x : Tenancy).
      x.id == tenancy_id && (is_exited x.tenancy_status && is_owned owner_id x.property_id w) in
    let at = find_first-true wants w.tenancies.rows found in
    let its : t.id ≡ tenancy_id = ground (arith, at) in
    let by_id = find_first_by_id tenancy_id_of wants w.tenancies.rows unique found in
    rw found (
      refl,
      subst
          (λ k.
            find_first (λ (x : Tenancy). x.id == k)
              (update_many (λ (x : Tenancy). x.id == t.id) taken_up w.tenancies.rows)
            ≡ some (taken_up t))
          its
          (find_first-updated (λ (x : Tenancy). x.id == t.id) taken_up w.tenancies.rows (λ x. refl)
            by_id),
      (
        one_more r,
        find_first-updated (is_room t.room_id) one_more w.rooms.rows (λ x. refl) row,
        refl,
        refl,
        omega arith,
      ),
    )
