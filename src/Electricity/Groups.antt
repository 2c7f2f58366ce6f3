-- ===== src/Electricity/Groups.antt =====
-- Every metered room is either in a group, with its tenants, or vacant.
use pg_master_backend.Prelude.{
  ℕ, ◌+◌, ◌<◌, ◌≡◌, ◌≢◌, refl, ap, inl, inr, true, false, Option, List, [], ◌∷◌, ◌==◌,
  if◌then◌else◌, length, length-append, sum_by, includes, All, arith, Bool-cases,
}
use pg_master_backend.Store.Ids.{HasUniqueIds}
use pg_master_backend.Store.Schema.{Tenancy}
use pg_master_backend.Electricity.Allocation.{
  add_to_room, group_by_room, has_room, or_zero, vacant_units,
}

-- The units read for the rooms that have tenants.
abbrev pub occupied_units : (ℕ → Option ℕ) → List (ℕ × List Tenancy) → ℕ
occupied_units units groups = sum_by (λ (g : ℕ × List Tenancy). or_zero (units g.0)) groups

abbrev pub HasTenants : ℕ × List Tenancy → Type 0
HasTenants g = 0 < length g.1

has_room-add :
    (k : ℕ) (t : Tenancy) (groups : List (ℕ × List Tenancy))
    → has_room k (add_to_room t groups) ≡ (if t.room_id == k then true else has_room k groups)
unfolding add_to_room
has_room-add k t [] = refl
has_room-add k t ((j, ts) ∷ rest) = elim (Bool-cases (j == t.room_id)) [
  | inl here ↦ rw here (ground arith)
  | inr later ↦ rw later (ground (arith, has_room-add k t rest))
]

occupied_units-add :
    (units : ℕ → Option ℕ) (t : Tenancy) (groups : List (ℕ × List Tenancy))
    → occupied_units units (add_to_room t groups)
      ≡ occupied_units units groups
        + (if has_room t.room_id groups then 0 else or_zero (units t.room_id))
unfolding add_to_room
occupied_units-add units t [] = omega arith
occupied_units-add units t ((j, ts) ∷ rest) = elim (Bool-cases (j == t.room_id)) [
  | inl here ↦ rw here (omega arith)
  | inr later ↦ rw later (omega (arith, occupied_units-add units t rest))
]

HasTenants-add :
    (t : Tenancy) (groups : List (ℕ × List Tenancy))
    → All HasTenants groups
    → All HasTenants (add_to_room t groups)
unfolding add_to_room
HasTenants-add t [] all = (omega arith, tt)
HasTenants-add t ((j, ts) ∷ rest) all = elim (Bool-cases (j == t.room_id)) [
  | inl here ↦ rw here (omega (arith, length-append ts (t ∷ [])), all.1)
  | inr later ↦ rw later (all.0, HasTenants-add t rest all.1)
]

vacant_units-away :
    (units : ℕ → Option ℕ) (t : Tenancy) (groups : List (ℕ × List Tenancy)) (ks : List ℕ)
    → All (λ j. j ≢ t.room_id) ks
    → vacant_units units (add_to_room t groups) ks ≡ vacant_units units groups ks
unfolding vacant_units
vacant_units-away units t groups [] away = refl
vacant_units-away units t groups (k ∷ ks) away =
    let miss : (t.room_id == k) ≡ false = ground (arith, away.0) in
    rw (has_room-add k t groups, miss) (omega (arith, vacant_units-away units t groups ks away.1))

-- A room that gets its first tenant is no longer vacant.
vacant_units-add :
    (units : ℕ → Option ℕ) (t : Tenancy) (groups : List (ℕ × List Tenancy)) (ks : List ℕ)
    → HasUniqueIds (λ k. k) ks
    → includes t.room_id ks ≡ true
    → vacant_units units (add_to_room t groups) ks
        + (if has_room t.room_id groups then 0 else or_zero (units t.room_id))
      ≡ vacant_units units groups ks
unfolding vacant_units
vacant_units-add units t groups [] unique there = ground arith
vacant_units-add units t groups (k ∷ ks) unique there = elim (Bool-cases (t.room_id == k)) [
  | inl here ↦
      let e : k ≡ t.room_id = ground arith in
      let away : All (λ j. j ≢ t.room_id) ks = rw e at unique.0 in
      let kept = vacant_units-away units t groups ks away in
      let same = ap (λ j. has_room j groups) e in
      let costs = ap (λ j. or_zero (units j)) e in
      rw (has_room-add k t groups, here) (ground (arith, kept, same, costs))
  | inr later ↦
      let rest = vacant_units-add units t groups ks unique.1 (ground arith) in
      rw (has_room-add k t groups, later) (omega (arith, rest))
]

module _ (units : ℕ → Option ℕ) (metered : List ℕ) (unique : HasUniqueIds (λ k. k) metered) where
  -- Grouping moves units from the vacant rooms to the occupied ones, and loses none.
  pub group_by_room_lem :
      (ts : List Tenancy) (groups : List (ℕ × List Tenancy))
      → All HasTenants groups
      → All HasTenants (group_by_room metered ts groups)
        × (occupied_units units (group_by_room metered ts groups)
              + vacant_units units (group_by_room metered ts groups) metered
            ≡ occupied_units units groups + vacant_units units groups metered)
  unfolding group_by_room
  group_by_room_lem [] groups all = (all, refl)
  group_by_room_lem (t ∷ ts) groups all = elim (Bool-cases (includes t.room_id metered)) [
    | inl its ↦
        let rest = group_by_room_lem ts (add_to_room t groups) (HasTenants-add t groups all) in
        let moved = vacant_units-add units t groups metered unique its in
        let grown = occupied_units-add units t groups in
        rw its (rest.0, omega (arith, rest.1, moved, grown))
    | inr other ↦ rw other (group_by_room_lem ts groups all)
  ]

  no_groups : (ks : List ℕ) → vacant_units units [] ks ≡ sum_by (λ k. or_zero (units k)) ks
  unfolding vacant_units
  no_groups [] = refl
  no_groups (k ∷ ks) = ap (λ n. or_zero (units k) + n) (no_groups ks)

  pub group_by_room_units :
      (ts : List Tenancy)
      → All HasTenants (group_by_room metered ts [])
        × (occupied_units units (group_by_room metered ts [])
              + vacant_units units (group_by_room metered ts []) metered
            ≡ sum_by (λ k. or_zero (units k)) metered)
  group_by_room_units ts =
      let g = group_by_room_lem ts [] tt in (g.0, omega (arith, g.1, no_groups metered))
