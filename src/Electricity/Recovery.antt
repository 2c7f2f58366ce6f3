-- ===== src/Electricity/Recovery.antt =====
-- The allocations cover what the units cost.
use pg_master_backend.Prelude.{
  ℕ, ◌+◌, ◌*◌, ◌≤◌, ◌<◌, ◌≡◌, refl, ap, ◌∙◌, ◌⊎◌, inl, inr, Option, some, List, [], ◌∷◌, ltb, leb,
  ◌==◌, ceil_div, ceil_div_bounds, length, sum_by, sum_by-append, All, arith, Bool-cases,
  Option-cases,
}
use pg_master_backend.Store.Schema.{Tenancy}
use pg_master_backend.Electricity.Shares.{split_amount_equally, split_amount_equally_shares}
use native.Mathlib.Nat.{le_of_mul-le-mul_left, mul-pos}
use pg_master_backend.Store.Ids.{HasUniqueIds}
use pg_master_backend.Electricity.Groups.{occupied_units, HasTenants, group_by_room_units}
use pg_master_backend.Electricity.Allocation.{
  calculate_allocations, groups, effective_pool, pool_entries, Allocation, per_rupee, or_zero,
  allocate_shares, bill_room, bill_rooms, bill_pool, total_days,
}

abbrev pub billed : List Allocation → ℕ
billed made = sum_by (λ (a : Allocation). a.amount) made

allocate_shares_sum :
    (ts : List Tenancy) (ns : List ℕ)
    → length ns ≡ length ts
    → billed (allocate_shares ts ns) ≡ sum_by (λ n. n) ns
unfolding allocate_shares
allocate_shares_sum [] [] h = refl
allocate_shares_sum (t ∷ ts) (n ∷ ns) h = ap (λ s. n + s) (allocate_shares_sum ts ns (ground arith))
allocate_shares_sum [] (n ∷ ns) h = ground arith
allocate_shares_sum (t ∷ ts) [] h = ground arith

-- A room with tenants is charged its total, to the rupee.
pub bill_room_sum :
    (n price : ℕ) (ts : List Tenancy)
    → 0 < length ts
    → billed (bill_room (some n) price ts) ≡ ceil_div (n * price) per_rupee
unfolding bill_room
bill_room_sum n price ts some_there =
    let s = split_amount_equally_shares (ceil_div (n * price) per_rupee) (length ts) some_there in
    allocate_shares_sum ts (split_amount_equally (ceil_div (n * price) per_rupee) (length ts)) s.0
    ∙ s.1

bill_rooms_cover :
    (units : ℕ → Option ℕ) (price : ℕ) (groups : List (ℕ × List Tenancy))
    → All HasTenants groups
    → occupied_units units groups * price ≤ per_rupee * billed (bill_rooms units price groups)
unfolding bill_rooms
bill_rooms_cover units price [] all = omega arith
bill_rooms_cover units price ((k, ts) ∷ rest) all =
    let later = bill_rooms_cover units price rest all.1 in
    let split =
      sum_by-append (λ (a : Allocation). a.amount) (bill_room (units k) price ts)
        (bill_rooms units price rest) in
    elim (Option-cases (units k)) [
      | inl unread ↦ grind (arith, later, split, unread)
      | inr (n, read) ↦
          let one = bill_room_sum n price ts all.0 in
          let up = ceil_div_bounds (n * price) per_rupee (omega arith) in
          grind (arith, later, split, read, one, up)
    ]

bill_pool_cover :
    (pool price total : ℕ) (entries : List (Tenancy × ℕ))
    → 0 < total
    → pool * price * total_days entries
      ≤ per_rupee * total * billed (bill_pool pool price total entries)
unfolding bill_pool
bill_pool_cover pool price total [] some_days = omega arith
bill_pool_cover pool price total ((t, days) ∷ rest) some_days =
    let later = bill_pool_cover pool price total rest some_days in
    let amount = ceil_div (pool * days * price) (per_rupee * total) in
    let up : pool * days * price ≤ per_rupee * total * amount =
      (ceil_div_bounds (pool * days * price) (per_rupee * total)
        (mul-pos (omega arith) some_days)).0 in
    elim (Bool-cases (ltb 0 amount)) [
      | inl charged ↦ rw charged (grind (arith, later, up))
      | inr free ↦
          let zero_amount : amount ≡ 0 = ground arith in
          rw free (grind (arith, later, up, zero_amount))
    ]

-- The pool is charged in full to the tenants who have days in it.
pool_cover :
    (pool price : ℕ) (entries : List (Tenancy × ℕ))
    → 0 < total_days entries
    → pool * price ≤ per_rupee * billed (bill_pool pool price (total_days entries) entries)
pool_cover pool price entries some_days =
    le_of_mul-le-mul_left {k = total_days entries}
      (grind (arith, bill_pool_cover pool price (total_days entries) entries some_days)) some_days

module _ (tenancies : List Tenancy) (metered : List ℕ) (units : ℕ → Option ℕ)
    (raw_pool price month year : ℕ) (unique : HasUniqueIds (λ k. k) metered) where
  rooms_cover :
      occupied_units units (groups tenancies metered units raw_pool price month year) * price
      ≤ per_rupee
        * billed (bill_rooms units price (groups tenancies metered units raw_pool price month year))
  rooms_cover =
      bill_rooms_cover units price (groups tenancies metered units raw_pool price month year)
        (group_by_room_units units metered unique tenancies).0

  -- For metered rooms that are listed once each: where the shared pool, with the units of the vacant
  -- metered rooms, is empty, or a tenant who is charged for it has days in the month, the amounts
  -- allocated are worth at least what all the units cost, those of the pool and those of every
  -- metered room.
  pub calculate_allocations_recover :
      (effective_pool tenancies metered units raw_pool price month year ≡ 0)
        ⊎ (0 < total_days (pool_entries tenancies metered units raw_pool price month year))
      → (raw_pool + sum_by (λ k. or_zero (units k)) metered) * price
        ≤ per_rupee
          * billed
              (calculate_allocations tenancies metered units raw_pool price month year).allocations
  unfolding calculate_allocations
  calculate_allocations_recover shared =
      let entries = pool_entries tenancies metered units raw_pool price month year in
      let pool = effective_pool tenancies metered units raw_pool price month year in
      let in_rooms =
        bill_rooms units price (groups tenancies metered units raw_pool price month year) in
      let all_units = (group_by_room_units units metered unique tenancies).1 in
      elim (Bool-cases (leb pool 0)) [
        | inl empty ↦
            let nothing : pool ≡ 0 = ground arith in
            rw empty (grind (arith, rooms_cover, all_units, nothing))
        | inr some_units ↦ elim (Bool-cases (total_days entries == 0)) [
          | inl no_days ↦ ground arith
          | inr days ↦
              let covered = pool_cover pool price entries (ground arith) in
              let split =
                sum_by-append (λ (a : Allocation). a.amount) in_rooms
                  (bill_pool pool price (total_days entries) entries) in
              rw (some_units, days) (grind (arith, rooms_cover, all_units, covered, split))
        ]
      ]
