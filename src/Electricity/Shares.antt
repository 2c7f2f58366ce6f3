-- ===== src/Electricity/Shares.antt =====
-- src/modules/electricity/utils/electricity-billing.utils.ts: amounts here are in whole rupees.
use pg_master_backend.Prelude.{
  ℕ, zero, suc, ◌+◌, ◌-◌, ◌*◌, ◌/◌, ◌%◌, ◌≤◌, ◌<◌, ◌≡◌, refl, ap, Option, none, some, List, [], ◌∷◌,
  ltb, if◌then◌else◌, length, sum_by, All, arith,
}
use native.Mathlib.Nat.{div-add-mod, mod-lt}
use pg_master_backend.Calendar.{ms_per_day, date_utc}
use pg_master_backend.Proration.{to_date_only, round_div}

abbrev later_of : ℕ → ℕ → ℕ
later_of a b = if ltb b a then a else b

abbrev earlier_of : ℕ → ℕ → ℕ
earlier_of a b = if ltb a b then a else b

-- Months count from 1.
unfoldable pub get_tenant_days_in_month : ℕ → Option ℕ → ℕ → ℕ → ℕ
get_tenant_days_in_month joined_at left_at month year =
    let month_start = date_utc year (month - 1) 1 in
    let month_end = date_utc year month 0 in
    let start = later_of (to_date_only joined_at) month_start in
    let end = earlier_of (elim left_at [ none ↦ month_end | some t ↦ to_date_only t ]) month_end in
    if ltb end start then 0 else round_div (end - start) ms_per_day + 1

-- The period's start and end; dues fall due on its last day.
abbrev pub period_start_of : ℕ → ℕ → ℕ
period_start_of month year = date_utc year (month - 1) 1

abbrev pub period_end_of : ℕ → ℕ → ℕ
period_end_of month year = date_utc year month 0

-- The entries from `index` on, `left` of them.
unfoldable pub split_from : ℕ → ℕ → ℕ → ℕ → List ℕ
split_from base remainder index zero = []
split_from base remainder index (suc left) =
    (if ltb index remainder then base + 1 else base) ∷ split_from base remainder (index + 1) left

unfoldable pub split_amount_equally : ℕ → ℕ → List ℕ
split_amount_equally total zero = []
split_amount_equally total (suc n) =
    split_from (total / suc n) (total - total / suc n * suc n) 0 (suc n)

split_from_lem :
    (base remainder index left : ℕ)
    → (length (split_from base remainder index left) ≡ left)
      × (sum_by (λ n. n) (split_from base remainder index left)
          ≡ left * base + (if ltb left (remainder - index) then left else remainder - index))
      × All (λ n. (base ≤ n) × (n ≤ base + 1)) (split_from base remainder index left)
unfolding split_from
split_from_lem base remainder index zero = (refl, ground arith, tt)
split_from_lem base remainder index (suc left) =
    let rest = split_from_lem base remainder (index + 1) left in
    (ap suc rest.0, ground (arith, rest.1), (ground arith, rest.2))

-- For one or more, `splitAmountEqually` gives so many shares, which add up to the total, and each
-- of which is the rounded down quotient or one more.
pub split_amount_equally_shares :
    (total count : ℕ)
    → 0 < count
    → (length (split_amount_equally total count) ≡ count)
      × (sum_by (λ n. n) (split_amount_equally total count) ≡ total)
      × All (λ n. (total / count ≤ n) × (n ≤ total / count + 1)) (split_amount_equally total count)
unfolding split_amount_equally
split_amount_equally_shares total zero h = elim h [ ]
split_amount_equally_shares total (suc n) h =
    let s = split_from_lem (total / suc n) (total - total / suc n * suc n) 0 (suc n) in
    let d = div-add-mod total (suc n) in
    let m : total % suc n < suc n = mod-lt total (omega arith) in
    (s.0, ground (arith, s.1, d, m), s.2)
