-- ===== src/Calendar/Months.antt =====
-- The months cover the days of a year.
use native.Mathlib.Nat.{le_refl}
use native.Mathlib.Numerals.{add-one}
use pg_master_backend.Prelude.{
  ℕ, zero, suc, ◌+◌, ◌-◌, ◌≤◌, ◌<◌, ◌≡◌, inl, inr, refl, ltb, arith, ap, Bool-cases,
}
use pg_master_backend.Calendar.{days_in_month, days_in_year, days_before_month, month_from}

pub days_in_month_bounds : (y m : ℕ) → (28 ≤ days_in_month y m) × (days_in_month y m ≤ 31)
unfolding days_in_month
days_in_month_bounds y m = ground arith

-- The twelve months make up the year.
pub twelve_months : (y : ℕ) → days_before_month y 12 ≡ days_in_year y
unfolding days_before_month days_in_month days_in_year
twelve_months y = ground arith

pub days_before_month_mono : (y a b : ℕ) → a ≤ b → days_before_month y a ≤ days_before_month y b
unfolding days_before_month
days_before_month_mono y a zero h = let e : a ≡ 0 = omega arith in rw e (le_refl _)
days_before_month_mono y a (suc b) h = elim (Bool-cases (ltb a (suc b))) [
  | inl below ↦ omega (arith, days_before_month_mono y a b (ground arith))
  | inr at ↦ let e : a ≡ suc b = ground arith in rw e (le_refl _)
]

pub days_before_month-suc :
    (y m : ℕ) → days_before_month y (m + 1) ≡ days_before_month y m + days_in_month y m
unfolding days_before_month
days_before_month-suc y m = rw add-one

-- From month `m`, with `r` days left since its first, the search finds the month that they reach.
month_from_lem :
    (k y m t d r : ℕ)
    → m ≤ t
    → t ≤ m + k
    → days_before_month y m + r ≡ days_before_month y t + d
    → d < days_in_month y t
    → month_from k y m r ≡ t
unfolding month_from
month_from_lem zero y m t d r low high at inside = omega arith
month_from_lem (suc k) y m t d r low high at inside = elim (Bool-cases (ltb m t)) [
  | inl before ↦ ground (
    arith,
    days_before_month-suc y m,
    days_before_month_mono y (m + 1) t,
    month_from_lem k y (m + 1) t d (r - days_in_month y m),
  )
  | inr here ↦
      let e : t ≡ m = ground arith in
      ground (arith, ap (days_before_month y) e, ap (days_in_month y) e)
]

-- A day of month `t`, counted from 0 within the year, is found to be in month `t`.
pub month_from_unique :
    (y t d : ℕ) → t ≤ 11 → d < days_in_month y t → month_from 11 y 0 (days_before_month y t + d) ≡ t
month_from_unique y t d high inside =
    month_from_lem 11 y 0 t d (days_before_month y t + d) (omega arith) (omega arith)
      (unfold days_before_month in omega arith) inside

-- A day of month `t` is a day of the year.
pub days_before_month_range :
    (y t d : ℕ) → t ≤ 11 → d < days_in_month y t → days_before_month y t + d < days_in_year y
days_before_month_range y t d high inside = omega (
  arith,
  twelve_months y,
  days_before_month-suc y t,
  days_before_month_mono y (t + 1) 12 (omega arith),
)

month_from_bounds :
    (k y m r : ℕ)
    → days_before_month y m + r < days_before_month y (m + k + 1)
    → (m ≤ month_from k y m r)
      × (month_from k y m r ≤ m + k)
      × (days_before_month y (month_from k y m r) ≤ days_before_month y m + r)
      × (days_before_month y m + r < days_before_month y (month_from k y m r + 1))
unfolding month_from
month_from_bounds zero y m r h =
    let e : m + 0 + 1 ≡ m + 1 = omega arith in omega (arith, ap (days_before_month y) e)
month_from_bounds (suc k) y m r h =
    let e : m + suc k + 1 ≡ m + 1 + k + 1 = omega arith in
    ground (
      arith,
      ap (days_before_month y) e,
      days_before_month-suc y m,
      month_from_bounds k y (m + 1) (r - days_in_month y m),
    )

-- The month that is found for a day of the year holds that day.
pub month_from_range :
    (y r : ℕ)
    → r < days_in_year y
    → (month_from 11 y 0 r ≤ 11)
      × (days_before_month y (month_from 11 y 0 r) ≤ r)
      × (r < days_before_month y (month_from 11 y 0 r) + days_in_month y (month_from 11 y 0 r))
month_from_range y r h =
    let e : 0 + 11 + 1 ≡ 12 = omega arith in
    let z : days_before_month y 0 ≡ 0 = unfold days_before_month in refl in
    let b = month_from_bounds 11 y 0 r (rw (e, twelve_months y, z) (omega arith)) in
    omega (arith, b, days_before_month-suc y (month_from 11 y 0 r), z)
