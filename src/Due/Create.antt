-- ===== src/Due/Create.antt =====
-- Adding dues: to one tenant, and split over the tenants of a room.
use pg_master_backend.Prelude.{
  ℕ, map, sym, ◌∙◌, append_nil, append_assoc, ◌+◌, ◌*◌, ◌≤◌, ◌<◌, ◌≡◌, refl, ap, ◌⊎◌, inl, inr,
  List, [], ◌∷◌, ◌++◌, All, All-append, sum_by, sum_by-append, length, arith, String, Option,
  ceil_div_bounds, ◌==◌, ◌&&◌, Bool-cases, Option-cases,
}
use pg_master_backend.Store.Rows.{Table, find_first, find_many, create}
use pg_master_backend.Store.Ids.{IsKeyed, IsKeyed-create}
use pg_master_backend.Store.Schema.{Due, Tenancy, DueType, Room, is_none}
use pg_master_backend.Store.World.{
  Event, invalid_room, no_billable_tenancy, World, Fault, Result, ok, err,
}
use pg_master_backend.Due.{
  CreateDueForTenant, CreateDueForRoom, ceil_rupee, new_due, is_billable, billable_for_tenant,
  individual_amount, create_room_dues, emit_all, due_event, add_due_to_tenant, add_due_to_room,
}
use pg_master_backend.Due.Invariant.{IsBalanced, IsConsistent, outstanding}

-- The division of a room's due: n shares cover the total, and each tenant is charged less than a
-- rupee more than an exact division would charge.
individual_amount_bounds :
    (total n : ℕ)
    → 0 < n
    → (total ≤ n * individual_amount total n) × (n * individual_amount total n < total + 100 * n)
unfolding individual_amount
individual_amount_bounds total n h = omega (arith, ceil_div_bounds total (100 * n) (omega arith))

new_due-IsBalanced :
    (now : ℕ) (t : Tenancy) (type : DueType) (custom : Option String) (amount due_date id : ℕ)
    → IsBalanced (new_due now t type custom amount due_date id)
new_due-IsBalanced now t type custom amount due_date id = ground arith

abbrev due_id : Due → ℕ
due_id d = d.id

module _ (row : Tenancy → ℕ → Due) (share : ℕ) (ids : (t : Tenancy) (i : ℕ) → (row t i).id ≡ i)
    (costs : (t : Tenancy) (i : ℕ) → (row t i).balance_amount ≡ share)
    (fresh : (t : Tenancy) (i : ℕ) → IsBalanced (row t i))
    (bills : (t : Tenancy) (i : ℕ) → (row t i).tenancy_id ≡ t.id) where
  -- The dues of a room keep the table in order. They are stored behind the old ones, one for each
  -- tenancy, each of the same amount.
  create_room_dues_lem :
      (ts : List Tenancy) (dues : Table Due)
      → IsKeyed due_id dues
      → All IsBalanced dues.rows
      → let (made, dues') = create_room_dues row ts dues in
        IsKeyed due_id dues'
        × All IsBalanced dues'.rows
        × (dues'.rows ≡ dues.rows ++ made)
        × (map (λ (d : Due). d.tenancy_id) made ≡ map (λ (t : Tenancy). t.id) ts)
        × All (λ (d : Due). d.balance_amount ≡ share) made
        × (sum_by (λ (d : Due). d.balance_amount) dues'.rows
            ≡ sum_by (λ (d : Due). d.balance_amount) dues.rows + length ts * share)
  unfolding create_room_dues
  create_room_dues_lem [] dues keyed all = (keyed, all, append_nil dues.rows, refl, tt, omega arith)
  create_room_dues_lem (t ∷ ts) dues keyed all =
      let rest =
        create_room_dues_lem ts (create (row t) dues)
          (IsKeyed-create due_id (row t) (ids t) dues keyed)
          (All-append IsBalanced dues.rows (row t dues.next_id ∷ []) all
            (fresh t dues.next_id, tt)) in
      (
        rest.0,
        rest.1,
        rest.2 ∙ append_assoc dues.rows (row t dues.next_id ∷ []) _,
        (λ i. bills t dues.next_id i ∷ rest.3 i),
        (costs t dues.next_id, rest.4),
        omega (
          arith,
          rest.5,
          costs t dues.next_id,
          sum_by-append (λ (d : Due). d.balance_amount) dues.rows (row t dues.next_id ∷ []),
        ),
      )

-- Emitting events changes nothing but the events.
pub emit_all_lem :
    (made : List Due) (w : World)
    → (events : List Event) × (emit_all made w ≡ (ok tt, record w { events = events }))
unfolding emit_all
emit_all_lem [] w = (w.events, refl)
emit_all_lem (d ∷ made) w = emit_all_lem made (record w { events = w.events ++ due_event d ∷ [] })

-- The tenancies that a room's due is split over.
abbrev pub room_tenancies : CreateDueForRoom → ℕ → World → List Tenancy
room_tenancies dto property_id w =
    find_many
      (λ (t : Tenancy).
        t.room_id == dto.room_id
        && (is_billable t.tenancy_status && (is_none t.deleted_at && t.property_id == property_id)))
      w.tenancies.rows

abbrev pub room_share : CreateDueForRoom → ℕ → World → ℕ
room_share dto property_id w =
    individual_amount dto.total_amount (length (room_tenancies dto property_id w))

abbrev room_row : ℕ → CreateDueForRoom → ℕ → World → Tenancy → ℕ → Due
room_row now dto property_id w t =
    new_due now t dto.due_type dto.custom_due_type (room_share dto property_id w) dto.dues_to_date

-- A request for a room throws and changes nothing, or there is a tenancy to charge.
add_due_to_room-outcome :
    (now : ℕ) (dto : CreateDueForRoom) (property_id : ℕ) (w : World)
    → ((e : Fault) × (add_due_to_room now dto property_id w ≡ (err e, w)))
      ⊎ ((0 < length (room_tenancies dto property_id w))
          × ((events : List Event) × (add_due_to_room now dto property_id w ≡ (
            ok
                (create_room_dues
                  (room_row now dto property_id w)
                  (room_tenancies dto property_id w)
                  w.dues).0,
            record w {
              dues =
                  (create_room_dues
                    (room_row now dto property_id w)
                    (room_tenancies dto property_id w)
                    w.dues).1;
              events = events;
            },
          ))))
unfolding add_due_to_room
add_due_to_room-outcome now dto property_id w =
    elim (Option-cases (
      find_first (λ (r : Room). r.property_id == property_id && r.id == dto.room_id)
        w.rooms.rows)) [
          | inl missing ↦ inl (invalid_room, rw missing)
          | inr (room, found) ↦ elim (Bool-cases (length (room_tenancies dto property_id w) == 0)) [
            | inl empty ↦ inl (no_billable_tenancy, rw (found, empty))
            | inr some_there ↦
                let made =
                  create_room_dues (room_row now dto property_id w)
                    (room_tenancies dto property_id w) w.dues in
                let (events, emitted) = emit_all_lem made.0 (record w { dues = made.1 }) in
                inr (ground arith, (events, rw (found, some_there, emitted)))
          ]
        ]

returned_is : {a b : List Due} → Result.ok a ≡ ok b → a ≡ b
returned_is {a} e = ap (λ r. elim r [ ok x ↦ x | err x ↦ a ]) e

module _ (now : ℕ) (dto : CreateDueForRoom) (property_id : ℕ) (w : World)
    (ok_w : IsConsistent w) where
  room_dues_kept :
      let ts = room_tenancies dto property_id w in
      let (made, dues') = create_room_dues (room_row now dto property_id w) ts w.dues in
      IsKeyed due_id dues'
      × All IsBalanced dues'.rows
      × (dues'.rows ≡ w.dues.rows ++ made)
      × (map (λ (d : Due). d.tenancy_id) made ≡ map (λ (t : Tenancy). t.id) ts)
      × All (λ (d : Due). d.balance_amount ≡ room_share dto property_id w) made
      × (sum_by (λ (d : Due). d.balance_amount) dues'.rows
          ≡ outstanding w + length ts * room_share dto property_id w)
  room_dues_kept =
      create_room_dues_lem (room_row now dto property_id w) (room_share dto property_id w)
        (λ t i. refl) (λ t i. refl)
        (λ t i.
          new_due-IsBalanced now t dto.due_type dto.custom_due_type (room_share dto property_id w)
            dto.dues_to_date i)
        (λ t i. refl) (room_tenancies dto property_id w) w.dues ok_w.dues_keyed ok_w.balanced

  -- Adding a due to a room keeps a consistent state consistent, whether it throws or not.
  pub add_due_to_room-IsConsistent : IsConsistent (add_due_to_room now dto property_id w).1
  add_due_to_room-IsConsistent = elim (add_due_to_room-outcome now dto property_id w) [
    | inl (e, threw) ↦ rw threw ok_w
    | inr (some_there, (events, done)) ↦ rw done (record {
      balanced = room_dues_kept.1;
      dues_keyed = room_dues_kept.0;
      payments_keyed = ok_w.payments_keyed;
    })
  ]

  -- In a consistent state, a room's due that is accepted stores, behind the old dues, the dues that it
  -- returns: one for each billable tenancy of the room, in order, each with a share as its balance.
  -- What is owed grows by as many shares, which cover the total asked for and exceed it by less than
  -- a rupee for each tenant.
  pub add_due_to_room_shares :
      {made : List Due}
      → (add_due_to_room now dto property_id w).0 ≡ ok made
      → let n = length (room_tenancies dto property_id w) in
        ((add_due_to_room now dto property_id w).1.dues.rows ≡ w.dues.rows ++ made)
        × (map (λ (d : Due). d.tenancy_id) made
            ≡ map (λ (t : Tenancy). t.id) (room_tenancies dto property_id w))
        × All (λ (d : Due). d.balance_amount ≡ room_share dto property_id w) made
        × (outstanding (add_due_to_room now dto property_id w).1
            ≡ outstanding w + n * room_share dto property_id w)
        × (dto.total_amount ≤ n * room_share dto property_id w)
        × (n * room_share dto property_id w < dto.total_amount + 100 * n)
  add_due_to_room_shares {made} accepted = elim (add_due_to_room-outcome now dto property_id w) [
    | inl (e, threw) ↦ cc (accepted, ap (λ r. r.0) threw)
    | inr (some_there, (events, done)) ↦
        let n = length (room_tenancies dto property_id w) in
        let bounds = individual_amount_bounds dto.total_amount n some_there in
        let made_is = returned_is (sym accepted ∙ ap (λ r. r.0) done) in
        let kept = room_dues_kept in
        rw (done, made_is) (kept.2, kept.3, kept.4, kept.5, bounds.0, bounds.1)
  ]

module _ (now property_id : ℕ) (w : World) (ok_w : IsConsistent w) where
  -- Adding a due to a tenant that is accepted keeps the state consistent, and what is owed grows by
  -- the amount, rounded up to rupees, which is the new due's balance.
  pub add_due_to_tenant_owes :
      (form : CreateDueForTenant) {due : Due}
      → (add_due_to_tenant now form property_id w).0 ≡ ok due
      → IsConsistent (add_due_to_tenant now form property_id w).1
        × (outstanding (add_due_to_tenant now form property_id w).1
            ≡ outstanding w + ceil_rupee form.amount)
        × (due.balance_amount ≡ ceil_rupee form.amount)
  unfolding add_due_to_tenant
  add_due_to_tenant_owes form {due} accepted =
      elim (Option-cases (
        find_first
          (λ (t : Tenancy). t.property_id == property_id && billable_for_tenant form.tenant_id t)
          w.tenancies.rows)) [
            | inl missing ↦ ground arith
            | inr (t, found) ↦
                let row =
                  new_due now t form.due_type form.custom_due_type (ceil_rupee form.amount)
                    form.dues_to_date in
                let at : due ≡ row w.dues.next_id = ground arith in
                rw (found, at)
                  (
                    record {
                      balanced =
                          All-append IsBalanced w.dues.rows (row w.dues.next_id ∷ []) ok_w.balanced
                            (
                              new_due-IsBalanced now t form.due_type form.custom_due_type
                                  (ceil_rupee form.amount) form.dues_to_date w.dues.next_id,
                              tt,
                            );
                      dues_keyed = IsKeyed-create due_id row (λ i. refl) w.dues ok_w.dues_keyed;
                      payments_keyed = ok_w.payments_keyed;
                    },
                    omega (
                      arith,
                      sum_by-append (λ (d : Due). d.balance_amount) w.dues.rows
                          (row w.dues.next_id ∷ []),
                    ),
                    refl,
                  )
          ]
