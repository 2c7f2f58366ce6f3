-- ===== src/Tenancy/Occupancy.antt =====
-- The beds of rooms against the tenancies that hold them.
pub mod Exits
pub mod Shifts
pub mod Onboards
pub mod Stays
pub mod Edits
pub mod Calls
mod Tests
use pg_master_backend.Prelude.{
  ℕ, ◌+◌, ◌-◌, ◌≤◌, ◌<◌, ◌≡◌, refl, Bool, true, false, ◌&&◌, inl, inr, some, List, [], ◌∷◌, ◌==◌,
  arith, if◌then◌else◌, All, All-weaken, sum_by, sum_by-append, Bool-cases, ap,
}
use pg_master_backend.Due.{is_billable}
use pg_master_backend.Store.Rows.{
  Table, find_first, update_many, update_rows, create, All-update_many, sum_by-find,
}
use pg_master_backend.Store.Ids.{
  HasUniqueIds, IsKeyed, IsKeyed-update_rows, IsKeyed-create, sum_by-update_id, All-update_id,
  HasUniqueIds-update,
}
use pg_master_backend.Store.Schema.{Tenancy, Room}
use pg_master_backend.Store.World.{World}

abbrev one_if : Bool → ℕ
one_if true = 1
one_if false = 0

abbrev pub tenancy_id_of : Tenancy → ℕ
tenancy_id_of t = t.id

-- ACTIVE, NOTICE_PERIOD and PENDING tenancies hold a bed of their room.
abbrev pub bed : ℕ → Tenancy → ℕ
bed room_id t = one_if (is_billable t.tenancy_status && t.room_id == room_id)

abbrev pub beds_held : ℕ → List Tenancy → ℕ
beds_held room_id ts = sum_by (bed room_id) ts

abbrev HaveBeds : (ℕ → ℕ) → List Room → Type 0
HaveBeds n rooms = All (λ (r : Room). r.occupied_beds ≡ n r.id) rooms

-- The beds that each room counts as occupied are those that its tenancies hold.
pub record IsHoused (tenancies : Table Tenancy) (rooms : List Room) : Type 0 where
  pub keyed : IsKeyed tenancy_id_of tenancies
  pub counted : HaveBeds (λ k. beds_held k tenancies.rows) rooms

-- No room counts more beds as occupied than it has.
pub record IsWithinCapacity (rooms : List Room) : Type 0 where
  pub rooms_apart : HasUniqueIds (λ (r : Room). r.id) rooms
  pub fits : All (λ (r : Room). r.occupied_beds ≤ r.total_beds) rooms

-- Both, of a state.
abbrev pub HasHousing : World → Type 0
HasHousing w = IsHoused w.tenancies w.rooms.rows

abbrev pub HasCapacity : World → Type 0
HasCapacity w = IsWithinCapacity w.rooms.rows

abbrev pub is_room : ℕ → Room → Bool
is_room k r = r.id == k

abbrev pub one_more : Room → Room
one_more r = record r { occupied_beds = r.occupied_beds + 1 }

abbrev pub one_fewer : Room → Room
one_fewer r = record r { occupied_beds = r.occupied_beds - 1 }

HaveBeds-more :
    (n : ℕ → ℕ) (k : ℕ) (rooms : List Room)
    → HaveBeds n rooms
    → HaveBeds (λ j. n j + one_if (k == j)) (update_many (is_room k) one_more rooms)
HaveBeds-more n k [] all = tt
HaveBeds-more n k (r ∷ rs) all = (ground arith, HaveBeds-more n k rs all.1)

HaveBeds-fewer :
    (n : ℕ → ℕ) (k : ℕ) (rooms : List Room)
    → HaveBeds n rooms
    → HaveBeds (λ j. n j - one_if (k == j)) (update_many (is_room k) one_fewer rooms)
HaveBeds-fewer n k [] all = tt
HaveBeds-fewer n k (r ∷ rs) all = (ground arith, HaveBeds-fewer n k rs all.1)

module _ (ts : Table Tenancy) (rooms : List Room) (housed : IsHoused ts rooms) where
  -- A tenancy that is made holds a bed of its room.
  pub IsHoused-create :
      (row : ℕ → Tenancy)
      → ((i : ℕ) → (row i).id ≡ i)
      → ((i : ℕ) → is_billable (row i).tenancy_status ≡ true)
      → (k : ℕ) → ((i : ℕ) → (row i).room_id ≡ k)
      → IsHoused (create row ts) (update_many (is_room k) one_more rooms)
  IsHoused-create row ids bills k at = record {
    keyed = IsKeyed-create tenancy_id_of row ids ts housed.keyed;
    counted =
        All-weaken (λ (r : Room). r.occupied_beds ≡ beds_held r.id ts.rows + one_if (k == r.id))
          (λ (r : Room). r.occupied_beds ≡ beds_held r.id (create row ts).rows)
          (update_many (is_room k) one_more rooms)
          (λ r h.
            let added = sum_by-append (bed r.id) ts.rows (row ts.next_id ∷ []) in
            ground (arith, bills ts.next_id, at ts.next_id))
          (HaveBeds-more (λ j. beds_held j ts.rows) k rooms housed.counted);
  }

  module _ (f : Tenancy → Tenancy) (ids : (t : Tenancy) → (f t).id ≡ t.id) (k : ℕ) {t : Tenancy}
      (found : find_first (λ (x : Tenancy). x.id == k) ts.rows ≡ some t) where
    abbrev changed : Table Tenancy
    changed = update_rows (λ (x : Tenancy). x.id == k) f ts

    changed-IsKeyed : IsKeyed tenancy_id_of changed
    changed-IsKeyed =
        IsKeyed-update_rows tenancy_id_of (λ (x : Tenancy). x.id == k) f ids ts housed.keyed

    beds_changed : (j : ℕ) → beds_held j changed.rows + bed j t ≡ beds_held j ts.rows + bed j (f t)
    beds_changed j = sum_by-update_id tenancy_id_of (bed j) k f ts.rows housed.keyed.0 found

    -- A tenancy whose bed stays the same leaves the rooms in order.
    pub IsHoused-same : ((j : ℕ) → bed j (f t) ≡ bed j t) → IsHoused changed rooms
    IsHoused-same same = record {
      keyed = changed-IsKeyed;
      counted =
          All-weaken (λ (r : Room). r.occupied_beds ≡ beds_held r.id ts.rows)
            (λ (r : Room). r.occupied_beds ≡ beds_held r.id changed.rows) rooms
            (λ r h. omega (arith, h, beds_changed r.id, same r.id)) housed.counted;
    }

    -- A tenancy that gives its bed up.
    pub IsHoused-left :
        is_billable t.tenancy_status ≡ true
        → is_billable (f t).tenancy_status ≡ false
        → IsHoused changed (update_many (is_room t.room_id) one_fewer rooms)
    IsHoused-left was is = record {
      keyed = changed-IsKeyed;
      counted =
          All-weaken
            (λ (r : Room). r.occupied_beds ≡ beds_held r.id ts.rows - one_if (t.room_id == r.id))
            (λ (r : Room). r.occupied_beds ≡ beds_held r.id changed.rows)
            (update_many (is_room t.room_id) one_fewer rooms)
            (λ r h. let e = beds_changed r.id in ground (arith, was, is))
            (HaveBeds-fewer (λ j. beds_held j ts.rows) t.room_id rooms housed.counted);
    }

    -- A tenancy that takes a bed of its room again.
    pub IsHoused-returned :
        is_billable t.tenancy_status ≡ false
        → is_billable (f t).tenancy_status ≡ true
        → (f t).room_id ≡ t.room_id
        → IsHoused changed (update_many (is_room t.room_id) one_more rooms)
    IsHoused-returned was is room = record {
      keyed = changed-IsKeyed;
      counted =
          All-weaken
            (λ (r : Room). r.occupied_beds ≡ beds_held r.id ts.rows + one_if (t.room_id == r.id))
            (λ (r : Room). r.occupied_beds ≡ beds_held r.id changed.rows)
            (update_many (is_room t.room_id) one_more rooms)
            (λ r h. let e = beds_changed r.id in ground (arith, was, is, room))
            (HaveBeds-more (λ j. beds_held j ts.rows) t.room_id rooms housed.counted);
    }

    -- A tenancy that keeps a bed, of another room.
    pub IsHoused-moved :
        (k' : ℕ)
        → is_billable t.tenancy_status ≡ true
        → is_billable (f t).tenancy_status ≡ true
        → (f t).room_id ≡ k'
        → IsHoused changed
            (update_many (is_room k') one_more (update_many (is_room t.room_id) one_fewer rooms))
    IsHoused-moved k' was is room = record {
      keyed = changed-IsKeyed;
      counted =
          All-weaken
            (λ (r : Room).
              r.occupied_beds
              ≡ beds_held r.id ts.rows - one_if (t.room_id == r.id) + one_if (k' == r.id))
            (λ (r : Room). r.occupied_beds ≡ beds_held r.id changed.rows)
            (update_many (is_room k') one_more (update_many (is_room t.room_id) one_fewer rooms))
            (λ r h.
              let e = beds_changed r.id in
              let one = sum_by-find (bed r.id) (λ (x : Tenancy). x.id == k) ts.rows found in
              ground (arith, was, is, room))
            (HaveBeds-more (λ j. beds_held j ts.rows - one_if (t.room_id == j)) k'
              (update_many (is_room t.room_id) one_fewer rooms)
              (HaveBeds-fewer (λ j. beds_held j ts.rows) t.room_id rooms housed.counted));
    }

-- A room that is not full can take one more.
pub IsWithinCapacity-more :
    (k : ℕ) (rooms : List Room) {r : Room}
    → find_first (is_room k) rooms ≡ some r
    → r.occupied_beds < r.total_beds
    → IsWithinCapacity rooms
    → IsWithinCapacity (update_many (is_room k) one_more rooms)
IsWithinCapacity-more k rooms found free within = record {
  rooms_apart =
      HasUniqueIds-update (λ (r : Room). r.id) (is_room k) one_more (λ r. refl) rooms
        within.rooms_apart;
  fits =
      All-update_id (λ (r : Room). r.id) (λ (r : Room). r.occupied_beds ≤ r.total_beds) k one_more
        rooms within.rooms_apart found (omega arith) within.fits;
}

pub IsWithinCapacity-fewer :
    (k : ℕ) (rooms : List Room)
    → IsWithinCapacity rooms
    → IsWithinCapacity (update_many (is_room k) one_fewer rooms)
IsWithinCapacity-fewer k rooms within = record {
  rooms_apart =
      HasUniqueIds-update (λ (r : Room). r.id) (is_room k) one_fewer (λ r. refl) rooms
        within.rooms_apart;
  fits =
      All-update_many (λ (r : Room). r.occupied_beds ≤ r.total_beds) (is_room k) one_fewer rooms
        (λ r hit h. omega arith) within.fits;
}
