-- ===== src/Calendar.antt =====
-- JavaScript's UTC dates, as src/utils/Proration.utils.ts and the services use them: `Date.UTC`,
-- `getUTCFullYear`, `getUTCMonth` and `getUTCDate` over the Gregorian calendar. A `Date` is its
-- number of milliseconds, here from 1 January of year 0, so that none is negative. JavaScript
-- counts from 1970; the code only compares and subtracts, so that the origin does not show. Years
-- are taken as they are given: `Date.UTC` maps the years 0 to 99 to 1900 to 1999, which is left out.
pub mod Years
pub mod Months
pub mod Fields
mod Tests
use pg_master_backend.Prelude.{
  ℕ, zero, suc, ◌+◌, ◌-◌, ◌*◌, ◌/◌, ◌%◌, Bool, true, false, not, ◌||◌, ltb, ◌==◌, if◌then◌else◌,
}

abbrev pub ms_per_day : ℕ
ms_per_day = 86400000

unfoldable pub is_leap : ℕ → Bool
is_leap y = if not (y % 4 == 0) then false else if not (y % 100 == 0) then true else y % 400 == 0

-- Months count from 0, as in JavaScript.
unfoldable pub days_in_month : ℕ → ℕ → ℕ
days_in_month y m =
    if m == 1
    then (if is_leap y then 29 else 28)
    else if m == 3 || (m == 5 || (m == 8 || m == 10))
    then 30
    else 31

unfoldable pub days_in_year : ℕ → ℕ
days_in_year y = if is_leap y then 366 else 365

unfoldable pub days_before_year : ℕ → ℕ
days_before_year y = 365 * y + (y + 3) / 4 - (y + 99) / 100 + (y + 399) / 400

unfoldable pub days_before_month : ℕ → ℕ → ℕ
days_before_month y zero = 0
days_before_month y (suc m) = days_before_month y m + days_in_month y m

-- The day that `Date.UTC(y, m, d)` falls on: a month past the eleventh carries into the year, and
-- the day is only added, so that day 0 is the last of the month before.
unfoldable pub day_number : ℕ → ℕ → ℕ → ℕ
day_number y m d = days_before_year (y + m / 12) + days_before_month (y + m / 12) (m % 12) + d - 1

unfoldable pub date_utc : ℕ → ℕ → ℕ → ℕ
date_utc y m d = day_number y m d * ms_per_day

-- The year of a day, searched upwards.
unfoldable pub year_from : ℕ → ℕ → ℕ → ℕ
year_from zero y n = y
year_from (suc fuel) y n =
    let later = year_from fuel (y + 1) n in if ltb n (days_before_year (y + 1)) then y else later

-- The search starts at or below the year, as no year has more than 366 days.
unfoldable pub year_of_day : ℕ → ℕ
year_of_day n = year_from (n / 365 - n / 366 + 1) (n / 366) n

unfoldable pub month_from : ℕ → ℕ → ℕ → ℕ → ℕ
month_from zero y m r = m
month_from (suc k) y m r =
    let later = month_from k y (m + 1) (r - days_in_month y m) in
    if ltb r (days_in_month y m) then m else later

unfoldable pub month_of_day : ℕ → ℕ
month_of_day n = month_from 11 (year_of_day n) 0 (n - days_before_year (year_of_day n))

unfoldable pub date_of_day : ℕ → ℕ
date_of_day n =
    n - days_before_year (year_of_day n) - days_before_month (year_of_day n) (month_of_day n) + 1

-- `getUTCFullYear`, `getUTCMonth` and `getUTCDate`
unfoldable pub utc_full_year : ℕ → ℕ
utc_full_year t = year_of_day (t / ms_per_day)

unfoldable pub utc_month : ℕ → ℕ
utc_month t = month_of_day (t / ms_per_day)

unfoldable pub utc_date : ℕ → ℕ
utc_date t = date_of_day (t / ms_per_day)
