-- ===== src/Proration.antt =====
-- src/utils/Proration.utils.ts: IST time, first cycle end, billing date and prorated rent.
-- `dailyRate * days` is a fraction of a paisa over 28, 29, 30 or 31; the sum is kept exact, as a
-- number of parts of which `parts_per_paisa` make a paisa, a multiple of each of the four. The
-- source adds floating point numbers instead, and rounds to the paisa at the same place.
pub mod Segments
pub mod Rent
pub mod Cycle
mod Tests
use pg_master_backend.Prelude.{
  ℕ, zero, suc, ◌+◌, ◌-◌, ◌*◌, ◌/◌, ◌%◌, Option, none, some, ltb, if◌then◌else◌,
}
use pg_master_backend.Calendar.{ms_per_day, date_utc, utc_full_year, utc_month, utc_date}

abbrev pub ist_offset_ms : ℕ
ist_offset_ms = 19800000

-- `nowIST`, from the clock's reading
unfoldable pub now_ist : ℕ → ℕ
now_ist now = now + ist_offset_ms

unfoldable pub to_date_only : ℕ → ℕ
to_date_only t = date_utc (utc_full_year t) (utc_month t) (utc_date t)

unfoldable pub today_ist : ℕ → ℕ
today_ist now =
    date_utc (utc_full_year (now_ist now)) (utc_month (now_ist now)) (utc_date (now_ist now))

-- The month after, of the same or the next year, on the cycle's day: the body of both
-- `getFirstCycleEnd` and `advanceBillingDate`.
unfoldable pub first_cycle_end : ℕ → ℕ → ℕ
first_cycle_end join_date cycle_day =
    let target_month = utc_month join_date + 1 in
    if ltb 11 target_month
    then date_utc (utc_full_year join_date + 1) 0 cycle_day
    else date_utc (utc_full_year join_date) target_month cycle_day

unfoldable pub advance_billing_date : ℕ → ℕ → ℕ
advance_billing_date current cycle_day =
    let next_month = utc_month current + 1 in
    if ltb 11 next_month
    then date_utc (utc_full_year current + 1) 0 cycle_day
    else date_utc (utc_full_year current) next_month cycle_day

abbrev pub parts_per_paisa : ℕ
parts_per_paisa = 377580

-- `Math.round` of a quotient
unfoldable pub round_div : ℕ → ℕ → ℕ
round_div a b = (2 * a + b) / (2 * b)

-- The parts that one day of a month with so many days costs.
unfoldable pub daily_rate : ℕ → ℕ → ℕ
daily_rate monthly_rent days_in_month = monthly_rent * (parts_per_paisa / days_in_month)

-- `new Date(Date.UTC(year, month + 1, 0)).getUTCDate()` at the cursor's month
unfoldable pub month_length_at : ℕ → ℕ
month_length_at cursor = utc_date (date_utc (utc_full_year cursor) (utc_month cursor + 1) 0)

unfoldable pub first_of_next_month : ℕ → ℕ
first_of_next_month cursor = date_utc (utc_full_year cursor) (utc_month cursor + 1) 1

unfoldable pub segment_end : ℕ → ℕ → ℕ
segment_end cursor period_end =
    if ltb period_end (first_of_next_month cursor) then period_end else first_of_next_month cursor

-- The `while` loop; `none` means that the fuel ran out.
unfoldable pub prorated_loop : ℕ → ℕ → ℕ → ℕ → ℕ → Option ℕ
prorated_loop zero cursor period_end rent total = none
prorated_loop (suc fuel) cursor period_end rent total =
    let days = round_div (segment_end cursor period_end - cursor) ms_per_day in
    let total' = total + daily_rate rent (month_length_at cursor) * days in
    let rest = prorated_loop fuel (first_of_next_month cursor) period_end rent total' in
    if ltb cursor period_end then rest else some total

pub record Prorated : Type 0 where
  pub period_start : ℕ
  pub period_end : ℕ
  pub prorated_amount : ℕ

-- Each round of the loop passes a day at least, so that the days of the period are fuel enough.
unfoldable pub calculate_prorated_rent : ℕ → ℕ → ℕ → Option Prorated
calculate_prorated_rent join_date cycle_day monthly_rent =
    let start = to_date_only join_date in
    let end = first_cycle_end join_date cycle_day in
    elim (prorated_loop ((end - start) / ms_per_day + 1) start end monthly_rent 0) [
      | none ↦ none
      | some parts ↦ some (record {
        period_start = start;
        period_end = end;
        prorated_amount = round_div parts parts_per_paisa;
      })
    ]
