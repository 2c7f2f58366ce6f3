-- ===== src/Calendar/Years.antt =====
-- The years cover the days: each day lies in the year that the search finds, and in no other.
use native.Mathlib.Nat.{le_refl, add-zero}
use pg_master_backend.Prelude.{
  ap, ℕ, zero, suc, ◌+◌, ◌-◌, ◌/◌, ◌*◌, ◌≤◌, ◌<◌, ◌≡◌, inl, inr, ltb, arith, Bool-cases,
}
use pg_master_backend.Calendar.{is_leap, days_in_year, days_before_year, year_from, year_of_day}

-- The closed formula follows the leap rule.
pub days_before_year-suc : (y : ℕ) → days_before_year (y + 1) ≡ days_before_year y + days_in_year y
unfolding days_before_year days_in_year is_leap
days_before_year-suc y = ground arith

pub days_in_year_bounds : (y : ℕ) → (365 ≤ days_in_year y) × (days_in_year y ≤ 366)
unfolding days_in_year
days_in_year_bounds y = ground arith

pub days_before_year_bounds :
    (y : ℕ) → (365 * y ≤ days_before_year y) × (days_before_year y ≤ 366 * y)
unfolding days_before_year
days_before_year_bounds y = omega arith

days_before_year_mono_add : (y k : ℕ) → days_before_year y ≤ days_before_year (y + k)
days_before_year_mono_add y zero = rw add-zero (le_refl _)
days_before_year_mono_add y (suc k) =
    let e : y + suc k ≡ y + k + 1 = omega arith in
    rw e (omega (arith, days_before_year_mono_add y k, days_before_year-suc (y + k)))

pub days_before_year_mono : (a b : ℕ) → a < b → days_before_year (a + 1) ≤ days_before_year b
days_before_year_mono a b h =
    let e : b ≡ a + 1 + (b - (a + 1)) = omega arith in
    rw e (days_before_year_mono_add (a + 1) (b - (a + 1)))

year_from_bounds :
    (fuel y n : ℕ)
    → days_before_year y ≤ n
    → n < days_before_year (y + fuel)
    → (days_before_year (year_from fuel y n) ≤ n) × (n < days_before_year (year_from fuel y n + 1))
unfolding year_from
year_from_bounds zero y n low high =
    let e : y + 0 ≡ y = omega arith in absurd (omega (arith, ap days_before_year e))
year_from_bounds (suc fuel) y n low high = elim (Bool-cases (ltb n (days_before_year (y + 1)))) [
  | inl here ↦ rw here (low, ground arith)
  | inr later ↦ rw later (
      let e : y + 1 + fuel ≡ y + suc fuel = omega arith in
      year_from_bounds fuel (y + 1) n (ground arith) (rw e high))
]

-- The day lies in the year that is found for it.
pub year_of_day_bounds :
    (n : ℕ) → (days_before_year (year_of_day n) ≤ n) × (n < days_before_year (year_of_day n + 1))
unfolding year_of_day
year_of_day_bounds n =
    year_from_bounds (n / 365 - n / 366 + 1) (n / 366) n
      (omega (arith, days_before_year_bounds (n / 366)))
      (omega (arith, days_before_year_bounds (n / 366 + (n / 365 - n / 366 + 1))))

-- A day of year `y` is found to be in year `y`.
pub year_of_day_unique :
    (y n : ℕ) → days_before_year y ≤ n → n < days_before_year (y + 1) → year_of_day n ≡ y
year_of_day_unique y n low high = ground (
  arith,
  year_of_day_bounds n,
  days_before_year_mono y (year_of_day n),
  days_before_year_mono (year_of_day n) y,
)
