-- ===== src/Store/Metrics.antt =====
-- The aggregates of a property: PropertyMetrics, one row for each month, and PropertyOtherMetrics.
-- A column that `increment` and `decrement` may take below zero is a counter: what was added to it
-- and what was taken from it, whose difference the column shows.
use pg_master_backend.Prelude.{ℕ, ◌+◌, Bool, ◌&&◌, List, [], ◌∷◌, ◌==◌, if◌then◌else◌}

pub record Counter : Type 0 where
  pub added : ℕ
  pub taken : ℕ

abbrev pub zeroed : Counter
zeroed = record { added = 0; taken = 0 }

abbrev pub increment : ℕ → Counter → Counter
increment n c = record c { added = c.added + n }

abbrev pub decrement : ℕ → Counter → Counter
decrement n c = record c { taken = c.taken + n }

pub record PropertyMetrics : Type 0 where
  pub property_id : ℕ
  pub month : ℕ
  pub year : ℕ
  pub occupied_beds : Counter
  pub active_tenants : Counter
  pub total_dues_generated : Counter
  pub total_dues_paid : Counter
  pub total_dues_unpaid : Counter

pub record PropertyOtherMetrics : Type 0 where
  pub property_id : ℕ
  pub total_active_tenants : Counter
  pub total_tenants_ready_to_move_in : Counter

abbrev pub at_month : ℕ → ℕ → ℕ → PropertyMetrics → Bool
at_month property_id month year m =
    m.property_id == property_id && (m.month == month && m.year == year)

-- A new row, with the defaults of its columns.
abbrev pub empty_metrics : ℕ → ℕ → ℕ → PropertyMetrics
empty_metrics property_id month year = record {
  property_id = property_id;
  month = month;
  year = year;
  occupied_beds = zeroed;
  active_tenants = zeroed;
  total_dues_generated = zeroed;
  total_dues_paid = zeroed;
  total_dues_unpaid = zeroed;
}

abbrev pub empty_other_metrics : ℕ → PropertyOtherMetrics
empty_other_metrics property_id = record {
  property_id = property_id;
  total_active_tenants = zeroed;
  total_tenants_ready_to_move_in = zeroed;
}

-- upsert at a unique key: the row that is there is updated, and a new one is added where there is
-- none. A new row is the empty one with the same increments.
abbrev pub upsert {ℓ} : {A : Type ℓ} → (A → Bool) → A → (A → A) → List A → List A
upsert here empty f [] = f empty ∷ []
upsert here empty f (x ∷ xs) = if here x then f x ∷ xs else x ∷ upsert here empty f xs

-- The hash `dash:property:<id>:<year>:<month>` in redis, of which the services count up this field.
pub record DashEntry : Type 0 where
  pub property_id : ℕ
  pub month : ℕ
  pub year : ℕ
  pub dues_generated : Counter

abbrev pub dash_at : ℕ → ℕ → ℕ → DashEntry → Bool
dash_at property_id month year d =
    d.property_id == property_id && (d.month == month && d.year == year)

abbrev pub empty_dash : ℕ → ℕ → ℕ → DashEntry
empty_dash property_id month year = record {
  property_id = property_id;
  month = month;
  year = year;
  dues_generated = zeroed;
}
