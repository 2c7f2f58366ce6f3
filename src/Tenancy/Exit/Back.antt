-- ===== src/Tenancy/Exit/Back.antt =====
-- An exit and its revocation.
use pg_master_backend.Prelude.{
  ℕ, ◌+◌, ◌-◌, ◌<◌, ◌≡◌, refl, sym, ap, ◌∙◌, inl, inr, Bool, true, ◌&&◌, none, some, List, [], ◌∷◌,
  ◌==◌, arith, All, All-weaken, Bool-cases, length,
}
use pg_master_backend.Due.{is_billable}
use pg_master_backend.Proration.{now_ist}
use pg_master_backend.Store.Rows.{
  find_first, find_first-true, find_first-updated, update_many, sum_by-find,
}
use pg_master_backend.Store.Ids.{find_first_by_id, find_first_and}
use pg_master_backend.Store.Schema.{Tenancy, Room, active, exited, is_none}
use pg_master_backend.Store.World.{World, Result, ok}
use pg_master_backend.Tenancy.Notice.{is_owned}
use pg_master_backend.Tenancy.Shift.{pending_dues}
use pg_master_backend.Tenancy.Exit.{
  leaving_tenancy, delete_tenant, exit_tenancy, revoke_tenancy_exit, revoke_exit, is_exited,
}
use pg_master_backend.Tenancy.Occupancy.{
  HasHousing, tenancy_id_of, bed, beds_held, is_room, one_more, one_fewer,
}
use pg_master_backend.Tenancy.Occupancy.Exits.{delete_tenant-outcome}

-- A bed that is given up and taken again.
more_after_fewer :
    (k : ℕ) (rooms : List Room)
    → All (λ (r : Room). r.id ≡ k → 0 < r.occupied_beds) rooms
    → update_many (is_room k) one_more (update_many (is_room k) one_fewer rooms) ≡ rooms
more_after_fewer k [] held = refl
more_after_fewer k (r ∷ rs) held = elim (Bool-cases (r.id == k)) [
  | inl hit ↦
      let e : r.occupied_beds - 1 + 1 ≡ r.occupied_beds =
        omega (arith, held.0 (ground (arith, hit))) in
      let head : record r { occupied_beds = r.occupied_beds - 1 + 1 } ≡ r =
        ap (λ n. record r { occupied_beds = n }) e in
      rw hit (rw hit (λ i. head i ∷ more_after_fewer k rs held.1 i))
  | inr miss ↦ rw miss (rw miss (ap (λ rest. r ∷ rest) (more_after_fewer k rs held.1)))
]

-- The beds of a room that a tenancy holds are not none.
held_beds :
    (w : World) (t : Tenancy) (p : Tenancy → Bool)
    → HasHousing w
    → find_first p w.tenancies.rows ≡ some t
    → is_billable t.tenancy_status ≡ true
    → All (λ (r : Room). r.id ≡ t.room_id → 0 < r.occupied_beds) w.rooms.rows
held_beds w t p housing found bills =
    All-weaken (λ (r : Room). r.occupied_beds ≡ beds_held r.id w.tenancies.rows)
      (λ (r : Room). r.id ≡ t.room_id → 0 < r.occupied_beds) w.rooms.rows
      (λ r h at.
        let least = sum_by-find (bed r.id) p w.tenancies.rows found in ground (arith, bills))
      housing.counted

-- The tenancy and the rooms after an exit that was revoked.
pub record IsBack (t : Tenancy) (before after : World) : Type 0 where
  pub tenancy :
      find_first (λ (x : Tenancy). x.id == t.id) after.tenancies.rows
      ≡ some (record t { tenancy_status = active; deleted_at = none; left_at = none })
  pub rooms : after.rooms ≡ before.rooms
  pub dues : after.dues ≡ before.dues

ok_is : {a b : ℕ} → Result.ok a ≡ ok b → a ≡ b
ok_is e = ground (arith, e)

-- Marked as ended, and found again by its owner.
abbrev ended : ℕ → Tenancy → Tenancy
ended now t = record t {
  tenancy_status = exited;
  deleted_at = some (now_ist now);
  left_at = some (now_ist now);
}

module _ (now tenant_id property_id owner_id later : ℕ) (w : World) (housing : HasHousing w) where
  -- Where the beds of rooms are in order: whatever tenancy deleteTenant has ended, on which no due is
  -- open, its owner can take it up again at any later time by revokeTenancyExit. The tenancy is then the
  -- one before, ACTIVE and without the dates of its end, and rooms and dues are those before.
  pub delete_then_revoke :
      {id : ℕ}
      → (delete_tenant now tenant_id property_id owner_id w).0 ≡ ok id
      → let w' = (delete_tenant now tenant_id property_id owner_id w).1 in
        ((revoke_tenancy_exit later id owner_id w').0 ≡ ok id)
        × ((t : Tenancy) × (leaving_tenancy tenant_id property_id w ≡ some t)
            × (length (pending_dues t.id w) ≡ 0)
            × IsBack t w (revoke_tenancy_exit later id owner_id w').1)
  unfolding exit_tenancy revoke_tenancy_exit revoke_exit
  delete_then_revoke {id} accepted =
      elim (delete_tenant-outcome now tenant_id property_id owner_id w) [
        | inl (e, threw) ↦ cc (accepted, ap (λ r. r.0) threw)
        | inr (t, found, own, clear, (events, done)) ↦
            let wants = λ (x : Tenancy).
              x.tenent_id == tenant_id
              && (x.property_id == property_id
                  && (is_billable x.tenancy_status && is_none x.deleted_at)) in
            let at = find_first-true wants w.tenancies.rows found in
            let row = find_first_by_id tenancy_id_of wants w.tenancies.rows housing.keyed.0 found in
            let gone =
              find_first-updated (λ (x : Tenancy). x.id == t.id) (ended now) w.tenancies.rows
                (λ x. refl) row in
            let again =
              find_first_and tenancy_id_of t.id
                (λ x. is_exited x.tenancy_status && is_owned owner_id x.property_id w)
                (update_many (λ (x : Tenancy). x.id == t.id) (ended now) w.tenancies.rows) gone
                (ground (arith, own)) in
            let same : id ≡ t.id = ok_is (sym accepted ∙ ap (λ r. r.0) done) in
            let back =
              find_first-updated (λ (x : Tenancy). x.id == t.id)
                (λ x. record x { left_at = none; tenancy_status = active; deleted_at = none })
                (update_many (λ (x : Tenancy). x.id == t.id) (ended now) w.tenancies.rows)
                (λ x. refl) gone in
            let beds =
              more_after_fewer t.room_id w.rooms.rows
                (held_beds w t wants housing found (ground (arith, at))) in
            rw (ap (λ r. r.1) done, same, again)
              (
                refl,
                (
                  t,
                  found,
                  clear,
                  record {
                    tenancy = back;
                    rooms = ap (λ rows. record w.rooms { rows = rows }) beds;
                    dues = refl;
                  },
                ),
              )
      ]
