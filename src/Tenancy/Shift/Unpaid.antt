-- ===== src/Tenancy/Shift/Unpaid.antt =====
-- The unpaid dues that the metrics of each property count, when a shift moves the open dues.
use pg_master_backend.Prelude.{
  ℕ, ◌+◌, ◌*◌, ◌≡◌, refl, ap, ◌∙◌, inl, inr, Bool, true, false, ◌&&◌, List, [], ◌∷◌, ◌==◌, arith,
  sum_by, length, if◌then◌else◌, Bool-cases,
}
use pg_master_backend.Store.Metrics.{PropertyMetrics, at_month, empty_metrics, upsert}
use pg_master_backend.Store.Rows.{update_many, find_many, sum_by-update_same}
use pg_master_backend.Store.Schema.{Due}
use pg_master_backend.Tenancy.Shift.{
  Bucket, add_to_buckets, group_by_month, add_bucket, take_bucket, move_buckets, move_tenant,
  tenant_came, tenant_left,
}

abbrev pub balance : Due → ℕ
balance d = d.balance_amount

-- What was ever added to, and taken from, the unpaid dues in the metrics of a property, over all months.
abbrev added_in : ℕ → PropertyMetrics → ℕ
added_in property_id m = if m.property_id == property_id then m.total_dues_unpaid.added else 0

abbrev taken_in : ℕ → PropertyMetrics → ℕ
taken_in property_id m = if m.property_id == property_id then m.total_dues_unpaid.taken else 0

abbrev pub added_unpaid : ℕ → List PropertyMetrics → ℕ
added_unpaid property_id ms = sum_by (added_in property_id) ms

abbrev pub taken_unpaid : ℕ → List PropertyMetrics → ℕ
taken_unpaid property_id ms = sum_by (taken_in property_id) ms

-- How many rows the metrics of a property have for a month: one or none, as the key is unique.
abbrev pub rows_at : ℕ → List PropertyMetrics → ℕ → ℕ → ℕ
rows_at property_id ms month year = length (find_many (at_month property_id month year) ms)

-- The balances of dues, each as often as the property has a row for its month.
abbrev pub counted_balance : ℕ → List PropertyMetrics → List Due → ℕ
counted_balance property_id ms ds =
    sum_by (λ (d : Due). d.balance_amount * rows_at property_id ms d.month d.year) ds

sum_by-upsert :
    (g : PropertyMetrics → ℕ) (n : ℕ) (p : PropertyMetrics → Bool) (empty : PropertyMetrics)
    (f : PropertyMetrics → PropertyMetrics) (ms : List PropertyMetrics)
    → p empty ≡ true
    → g empty ≡ 0
    → ((m : PropertyMetrics) → p m ≡ true → g (f m) ≡ g m + n)
    → sum_by g (upsert p empty f ms) ≡ sum_by g ms + n
sum_by-upsert g n p empty f [] fits none more = omega (arith, more empty fits, none)
sum_by-upsert g n p empty f (m ∷ ms) fits none more = elim (Bool-cases (p m)) [
  | inl hit ↦ rw hit (omega (arith, more m hit))
  | inr miss ↦ rw miss (omega (arith, sum_by-upsert g n p empty f ms fits none more))
]

sum_by-update_more :
    (g : PropertyMetrics → ℕ) (n : ℕ) (p : PropertyMetrics → Bool)
    (f : PropertyMetrics → PropertyMetrics) (ms : List PropertyMetrics)
    → ((m : PropertyMetrics) → p m ≡ true → g (f m) ≡ g m + n)
    → sum_by g (update_many p f ms) ≡ sum_by g ms + n * length (find_many p ms)
sum_by-update_more g n p f [] more = omega arith
sum_by-update_more g n p f (m ∷ ms) more = elim (Bool-cases (p m)) [
  | inl hit ↦ rw hit (ground (arith, more m hit, sum_by-update_more g n p f ms more))
  | inr miss ↦ rw miss (omega (arith, sum_by-update_more g n p f ms more))
]

-- An update that leaves the key of each row leaves the number of rows of a month.
rows_at-update :
    (property_id month year : ℕ) (p : PropertyMetrics → Bool)
    (f : PropertyMetrics → PropertyMetrics) (ms : List PropertyMetrics)
    → ((m : PropertyMetrics)
        → at_month property_id month year (f m) ≡ at_month property_id month year m)
    → rows_at property_id (update_many p f ms) month year ≡ rows_at property_id ms month year
rows_at-update property_id month year p f [] same = refl
rows_at-update property_id month year p f (m ∷ ms) same =
    ground (arith, same m, rows_at-update property_id month year p f ms same)

rows_at-upsert :
    (property_id month year : ℕ) (p : PropertyMetrics → Bool) (empty : PropertyMetrics)
    (f : PropertyMetrics → PropertyMetrics) (ms : List PropertyMetrics)
    → at_month property_id month year (f empty) ≡ false
    → ((m : PropertyMetrics)
        → at_month property_id month year (f m) ≡ at_month property_id month year m)
    → rows_at property_id (upsert p empty f ms) month year ≡ rows_at property_id ms month year
rows_at-upsert property_id month year p empty f [] apart same = rw apart refl
rows_at-upsert property_id month year p empty f (m ∷ ms) apart same =
    ground (arith, same m, rows_at-upsert property_id month year p empty f ms apart same)

-- What the dues of the months hold, each month counted with a weight.
abbrev weighted : (ℕ → ℕ → ℕ) → Bucket → ℕ
weighted k b = b.balance_amount * k b.month b.year

abbrev weighted_due : (ℕ → ℕ → ℕ) → Due → ℕ
weighted_due k d = d.balance_amount * k d.month d.year

add_to_buckets_sum :
    (k : ℕ → ℕ → ℕ) (d : Due) (bs : List Bucket)
    → sum_by (weighted k) (add_to_buckets d bs) ≡ sum_by (weighted k) bs + weighted_due k d
unfolding add_to_buckets
add_to_buckets_sum k d [] = omega arith
add_to_buckets_sum k d (b ∷ bs) = elim (Bool-cases (b.month == d.month && b.year == d.year)) [
  | inl same ↦
      let month : b.month ≡ d.month = ground (arith, same) in
      let year : b.year ≡ d.year = ground (arith, same) in
      rw same (ground (arith, ap (λ m. k m b.year) month, ap (k d.month) year))
  | inr differs ↦ rw differs (omega (arith, add_to_buckets_sum k d bs))
]

group_by_month_sum :
    (k : ℕ → ℕ → ℕ) (ds : List Due) (bs : List Bucket)
    → sum_by (weighted k) (group_by_month ds bs)
      ≡ sum_by (weighted k) bs + sum_by (weighted_due k) ds
unfolding group_by_month
group_by_month_sum k [] bs = omega arith
group_by_month_sum k (d ∷ ds) bs =
    omega (arith, group_by_month_sum k ds (add_to_buckets d bs), add_to_buckets_sum k d bs)

pub group_by_month_total :
    (ds : List Due) → sum_by (weighted (λ month year. 1)) (group_by_month ds []) ≡ sum_by balance ds
group_by_month_total ds =
    let each : sum_by (weighted_due (λ month year. 1)) ds ≡ sum_by balance ds =
      ap (λ f. sum_by f ds) (λ i d. one d i) in
    omega (arith, group_by_month_sum (λ month year. 1) ds [], each)
  where
    one : (d : Due) → weighted_due (λ month year. 1) d ≡ balance d
    one d = omega arith

pub group_by_month_counted :
    (property_id : ℕ) (ms : List PropertyMetrics) (ds : List Due)
    → sum_by (weighted (rows_at property_id ms)) (group_by_month ds [])
      ≡ counted_balance property_id ms ds
group_by_month_counted property_id ms ds =
    omega (arith, group_by_month_sum (rows_at property_id ms) ds [])

-- What one month and the later ones add up to, where they count at all.
months_add :
    (counts : Bool) (n k before : ℕ) {now after rest rest' : ℕ}
    → now ≡ before + (if counts then n else 0) * k
    → after ≡ now + (if counts then rest' else 0)
    → rest' ≡ rest
    → after ≡ before + (if counts then n * k + rest else 0)
months_add true n k before first later same = omega (arith, first, later, same)
months_add false n k before first later same = omega (arith, first, later)

module _ (old_property new_property property_id : ℕ) where
  -- One month moved.
  abbrev month_moved : Bucket → List PropertyMetrics → List PropertyMetrics
  month_moved b ms =
      upsert (at_month new_property b.month b.year) (empty_metrics new_property b.month b.year)
        (add_bucket b) (update_many (at_month old_property b.month b.year) (take_bucket b) ms)

  month_moved_added :
      (b : Bucket) (ms : List PropertyMetrics)
      → added_unpaid property_id (month_moved b ms)
        ≡ added_unpaid property_id ms
          + (if property_id == new_property then b.balance_amount else 0)
  month_moved_added b ms = omega (
    arith,
    sum_by-upsert (added_in property_id)
        (if property_id == new_property then b.balance_amount else 0)
        (at_month new_property b.month b.year) (empty_metrics new_property b.month b.year)
        (add_bucket b) (update_many (at_month old_property b.month b.year) (take_bucket b) ms)
        (ground arith) (ground arith) (λ m hit. ground (arith, hit)),
    sum_by-update_same (added_in property_id) (at_month old_property b.month b.year) (take_bucket b)
        ms (λ m. refl),
  )

  month_moved_taken :
      (b : Bucket) (ms : List PropertyMetrics)
      → taken_unpaid property_id (month_moved b ms)
        ≡ taken_unpaid property_id ms
          + (if property_id == old_property then b.balance_amount else 0)
            * rows_at old_property ms b.month b.year
  month_moved_taken b ms = omega (
    arith,
    sum_by-upsert (taken_in property_id) 0 (at_month new_property b.month b.year)
        (empty_metrics new_property b.month b.year) (add_bucket b)
        (update_many (at_month old_property b.month b.year) (take_bucket b) ms) (ground arith)
        (ground arith) (λ m hit. omega arith),
    sum_by-update_more (taken_in property_id)
        (if property_id == old_property then b.balance_amount else 0)
        (at_month old_property b.month b.year) (take_bucket b) ms (λ m hit. ground (arith, hit)),
  )

  pub move_buckets_added :
      (bs : List Bucket) (ms : List PropertyMetrics)
      → added_unpaid property_id (move_buckets old_property new_property bs ms)
        ≡ added_unpaid property_id ms
          + (if property_id == new_property then sum_by (weighted (λ month year. 1)) bs else 0)
  unfolding move_buckets
  move_buckets_added [] ms = ground arith
  move_buckets_added (b ∷ bs) ms =
      ground (arith, move_buckets_added bs (month_moved b ms), month_moved_added b ms)

  module _ (apart : (new_property == old_property) ≡ false) where
    rows_kept :
        (b : Bucket) (ms : List PropertyMetrics) (month year : ℕ)
        → rows_at old_property (month_moved b ms) month year ≡ rows_at old_property ms month year
    rows_kept b ms month year =
        rows_at-upsert old_property month year (at_month new_property b.month b.year)
          (empty_metrics new_property b.month b.year) (add_bucket b)
          (update_many (at_month old_property b.month b.year) (take_bucket b) ms)
          (ground (arith, apart)) (λ m. refl)
        ∙ rows_at-update old_property month year (at_month old_property b.month b.year)
            (take_bucket b) ms (λ m. refl)

    pub move_buckets_taken :
        (bs : List Bucket) (ms : List PropertyMetrics)
        → taken_unpaid property_id (move_buckets old_property new_property bs ms)
          ≡ taken_unpaid property_id ms
            + (if property_id == old_property
                then sum_by (weighted (rows_at old_property ms)) bs
                else 0)
    unfolding move_buckets
    move_buckets_taken [] ms = ground arith
    move_buckets_taken (b ∷ bs) ms =
        let same : sum_by (weighted (rows_at old_property (month_moved b ms))) bs
            ≡ sum_by (weighted (rows_at old_property ms)) bs =
          ap (λ k. sum_by (weighted k) bs) (λ i month year. rows_kept b ms month year i) in
        months_add (property_id == old_property) b.balance_amount
          (rows_at old_property ms b.month b.year) (taken_unpaid property_id ms)
          (month_moved_taken b ms) (move_buckets_taken bs (month_moved b ms)) same

  pub move_tenant_unpaid :
      (month year : ℕ) (ms : List PropertyMetrics)
      → let ms' = move_tenant month year old_property new_property ms in
        (added_unpaid property_id ms' ≡ added_unpaid property_id ms)
        × (taken_unpaid property_id ms' ≡ taken_unpaid property_id ms)
  unfolding move_tenant
  move_tenant_unpaid month year ms =
      let left = update_many (at_month old_property month year) tenant_left ms in
      let new_row = empty_metrics new_property month year in
      (
        omega (
          arith,
          sum_by-upsert (added_in property_id) 0 (at_month new_property month year) new_row
              tenant_came left (ground arith) (ground arith) (λ m hit. omega arith),
          sum_by-update_same (added_in property_id) (at_month old_property month year) tenant_left
              ms (λ m. refl),
        ),
        omega (
          arith,
          sum_by-upsert (taken_in property_id) 0 (at_month new_property month year) new_row
              tenant_came left (ground arith) (ground arith) (λ m hit. omega arith),
          sum_by-update_same (taken_in property_id) (at_month old_property month year) tenant_left
              ms (λ m. refl),
        ),
      )
