-- ===== src/Due/Fraction.antt =====
-- `collectDue` rounds the amount up to whole rupees before it compares it with the balance.
use pg_master_backend.Prelude.{
  ℕ, ◌*◌, ◌%◌, ◌≤◌, ◌≡◌, ◌≢◌, inl, inr, some, List, [], ◌∷◌, All, arith, ceil_div, ◌==◌,
}
use pg_master_backend.Store.Rows.{find_first, find_first-All, find_first-true, All-update_many}
use pg_master_backend.Store.Schema.{Due, paid}
use pg_master_backend.Store.World.{World}
use pg_master_backend.Due.{CollectDue, ceil_rupee, set_collected, record_collection, collect_due}
use pg_master_backend.Due.Collect.{collect_due-outcome}

-- Requests one after the other; one that throws ends alone.
abbrev pub collect_all : ℕ → List CollectDue → World → World
collect_all by [] w = w
collect_all by (dto ∷ rest) w = collect_all by rest (collect_due dto by w).1

-- The due numbered `k` has a balance that is not in whole rupees, and is not PAID.
abbrev IsFractional : ℕ → Due → Type 0
IsFractional k d = d.id ≡ k → (d.balance_amount % 100 ≢ 0) × (d.status ≢ paid)

module _ (k : ℕ) where
  set_collected-IsFractional :
      (rupees : ℕ) (due row : Due)
      → row.id ≡ due.id
      → rupees * 100 ≤ due.balance_amount
      → IsFractional k due
      → IsFractional k (set_collected (rupees * 100) due row)
  set_collected-IsFractional rupees due row same fits frac = λ at. ground (arith, frac)

  collect_due-IsFractional :
      (by : ℕ) (dto : CollectDue) (w : World)
      → All (IsFractional k) w.dues.rows
      → All (IsFractional k) (collect_due dto by w).1.dues.rows
  unfolding record_collection
  collect_due-IsFractional by dto w all = elim (collect_due-outcome dto by w) [
    | inl (e, same) ↦ rw same all
    | inr (due, found, fits, done) ↦ rw done (
        All-update_many (IsFractional k) (λ (d : Due). d.id == due.id)
          (set_collected (ceil_rupee dto.amount) due) w.dues.rows
          (λ d hit b.
            set_collected-IsFractional (ceil_div dto.amount 100) due d (ground arith) fits.covered (
              find_first-All (IsFractional k) (λ (d : Due). d.id == dto.due_id) w.dues.rows all
                found))
          all)
  ]

  collect_all-IsFractional :
      (by : ℕ) (dtos : List CollectDue) (w : World)
      → All (IsFractional k) w.dues.rows
      → All (IsFractional k) (collect_all by dtos w).dues.rows
  collect_all-IsFractional by [] w all = all
  collect_all-IsFractional by (dto ∷ rest) w all =
      collect_all-IsFractional by rest (collect_due dto by w).1
        (collect_due-IsFractional by dto w all)

-- A due whose balance is not a whole number of rupees is never PAID by collections alone: after
-- any requests it is not PAID and its balance is still not whole.
pub collect_all-not_paid :
    (by k : ℕ) (dtos : List CollectDue) (w : World) (due : Due)
    → All (λ (d : Due). d.id ≡ k → (d.balance_amount % 100 ≢ 0) × (d.status ≢ paid)) w.dues.rows
    → find_first (λ (d : Due). d.id == k) (collect_all by dtos w).dues.rows ≡ some due
    → (due.balance_amount % 100 ≢ 0) × (due.status ≢ paid)
collect_all-not_paid by k dtos w due all found =
    find_first-All (IsFractional k) (λ (d : Due). d.id == k) (collect_all by dtos w).dues.rows
      (collect_all-IsFractional k by dtos w all) found
      (let t = find_first-true (λ (d : Due). d.id == k) (collect_all by dtos w).dues.rows found in
        ground arith)
