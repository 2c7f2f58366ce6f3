-- ===== src/Electricity/Allocation.antt =====
-- `calculateAllocations` of src/modules/electricity/electricity-billing.service.ts. Units are in
-- hundredths and the unit price in ten-thousandths of a rupee, so that units times price is in
-- millionths of a rupee. Where the source computes with floating point numbers, this is exact. The
-- units of an allocation and the room's number go to texts only, and are left out.
use pg_master_backend.Prelude.{
  ℕ, ◌+◌, ◌*◌, Bool, true, false, not, Option, none, some, List, [], ◌∷◌, ◌++◌, ltb, leb, ◌==◌,
  if◌then◌else◌, ceil_div, length, sum_by, includes,
}
use pg_master_backend.Store.Rows.{find_first, find_many}
use pg_master_backend.Store.Schema.{Tenancy, RoomReading}
use pg_master_backend.Electricity.Shares.{get_tenant_days_in_month, split_amount_equally}

pub data AllocationSource : Type 0 where
  metered_room shared_pool : AllocationSource

-- `amount` is in rupees.
pub record Allocation : Type 0 where
  pub tenancy_id : ℕ
  pub property_id : ℕ
  pub tenant_id : ℕ
  pub room_id : ℕ
  pub amount : ℕ
  pub source : AllocationSource

pub record AllocationResult : Type 0 where
  pub allocations : List Allocation
  pub effective_shared_pool_units : ℕ
  pub pool_tenancy_days : ℕ

abbrev pub per_rupee : ℕ
per_rupee = 1000000

abbrev pub allocate : AllocationSource → Tenancy → ℕ → Allocation
allocate source t amount = record {
  tenancy_id = t.id;
  property_id = t.property_id;
  tenant_id = t.tenent_id;
  room_id = t.room_id;
  amount = amount;
  source = source;
}

-- `tenanciesByMeteredRoom`, in insertion order: the tenancy goes to its room's entry, or to a new
-- one at the end.
unfoldable pub add_to_room : Tenancy → List (ℕ × List Tenancy) → List (ℕ × List Tenancy)
add_to_room t [] = (t.room_id, t ∷ []) ∷ []
add_to_room t ((room_id, ts) ∷ rest) =
    if room_id == t.room_id
    then (room_id, ts ++ t ∷ []) ∷ rest
    else (room_id, ts) ∷ add_to_room t rest

unfoldable pub group_by_room :
    List ℕ → List Tenancy → List (ℕ × List Tenancy) → List (ℕ × List Tenancy)
group_by_room metered [] groups = groups
group_by_room metered (t ∷ ts) groups =
    group_by_room metered ts (if includes t.room_id metered then add_to_room t groups else groups)

abbrev pub has_room : ℕ → List (ℕ × List Tenancy) → Bool
has_room k [] = false
has_room k (g ∷ gs) = if g.0 == k then true else has_room k gs

-- `Number(reading.unitConsumed)` of a room's reading, if there is one
abbrev pub units_of : List RoomReading → ℕ → Option ℕ
units_of readings room_id = elim (find_first (λ (r : RoomReading). r.room_id == room_id) readings) [
  | none ↦ none
  | some r ↦ some r.unit_consumed
]

abbrev pub or_zero : Option ℕ → ℕ
or_zero none = 0
or_zero (some n) = n

unfoldable pub vacant_units : (ℕ → Option ℕ) → List (ℕ × List Tenancy) → List ℕ → ℕ
vacant_units units groups [] = 0
vacant_units units groups (k ∷ ks) =
    (if has_room k groups then 0 else or_zero (units k)) + vacant_units units groups ks

-- One allocation for each tenancy with its share.
unfoldable pub allocate_shares : List Tenancy → List ℕ → List Allocation
allocate_shares (t ∷ ts) (n ∷ ns) = allocate metered_room t n ∷ allocate_shares ts ns
allocate_shares [] ns = []
allocate_shares (t ∷ ts) [] = []

-- The room's total split over its tenancies; without a reading, nothing.
unfoldable pub bill_room : Option ℕ → ℕ → List Tenancy → List Allocation
bill_room none price ts = []
bill_room (some n) price ts =
    allocate_shares ts (split_amount_equally (ceil_div (n * price) per_rupee) (length ts))

unfoldable pub bill_rooms : (ℕ → Option ℕ) → ℕ → List (ℕ × List Tenancy) → List Allocation
bill_rooms units price [] = []
bill_rooms units price ((room_id, ts) ∷ rest) =
    bill_room (units room_id) price ts ++ bill_rooms units price rest

-- `dayEntries`: the tenancies of the pool that have days in the month.
unfoldable pub day_entries : ℕ → ℕ → List Tenancy → List (Tenancy × ℕ)
day_entries month year [] = []
day_entries month year (t ∷ ts) =
    let days = get_tenant_days_in_month t.joined_at t.left_at month year in
    let rest = day_entries month year ts in if ltb 0 days then (t, days) ∷ rest else rest

-- `Math.ceil(perDayRate * days * unitPrice)` for each entry, unless it is 0.
unfoldable pub bill_pool : ℕ → ℕ → ℕ → List (Tenancy × ℕ) → List Allocation
bill_pool pool price total_days [] = []
bill_pool pool price total_days ((t, days) ∷ rest) =
    let amount = ceil_div (pool * days * price) (per_rupee * total_days) in
    let others = bill_pool pool price total_days rest in
    if ltb 0 amount then allocate shared_pool t amount ∷ others else others

-- Tenants without a meter share the pool, or, where there are none, all.
unfoldable pub pool_tenancies : List ℕ → List Tenancy → List Tenancy
pool_tenancies metered tenancies =
    let without = find_many (λ (t : Tenancy). not (includes t.room_id metered)) tenancies in
    if ltb 0 (length without) then without else tenancies

abbrev pub total_days : List (Tenancy × ℕ) → ℕ
total_days entries = sum_by (λ e. e.1) entries

module _ (tenancies : List Tenancy) (metered : List ℕ) (units : ℕ → Option ℕ)
    (raw_pool price month year : ℕ) where
  abbrev pub groups : List (ℕ × List Tenancy)
  groups = group_by_room metered tenancies []

  abbrev pub effective_pool : ℕ
  effective_pool = raw_pool + vacant_units units groups metered

  abbrev pub pool_entries : List (Tenancy × ℕ)
  pool_entries = day_entries month year (pool_tenancies metered tenancies)

  -- Without units in the pool, tenants or days, only the rooms are billed.
  unfoldable pub calculate_allocations : AllocationResult
  calculate_allocations =
      let in_rooms = bill_rooms units price groups in
      if leb effective_pool 0
      then record {
        allocations = in_rooms;
        effective_shared_pool_units = effective_pool;
        pool_tenancy_days = 0;
      }
      else if total_days pool_entries == 0
      then record {
        allocations = in_rooms;
        effective_shared_pool_units = effective_pool;
        pool_tenancy_days = 0;
      }
      else record {
        allocations =
            in_rooms ++ bill_pool effective_pool price (total_days pool_entries) pool_entries;
        effective_shared_pool_units = effective_pool;
        pool_tenancy_days = total_days pool_entries;
      }
