-- ===== src/Tenancy/Tests.antt =====
-- The notice period of a tenancy of the sample database.
use pg_master_backend.Prelude.{ℕ, ◌≡◌, refl, some, List, [], ◌∷◌, Option, arith}
use pg_master_backend.Calendar.{
  is_leap, days_in_month, days_before_year, days_before_month, day_number, date_utc, year_from,
  year_of_day, month_from, month_of_day, date_of_day, utc_full_year, utc_month, utc_date,
}
use pg_master_backend.Proration.{now_ist, to_date_only, today_ist}
use pg_master_backend.Store.Schema.{Tenancy, TenentProfile}
use pg_master_backend.Store.World.{ok}
use pg_master_backend.Store.Samples.{sample_world}
use pg_master_backend.Tenancy.Notice.{
  parse_date_utc, validate_move_out, parse_and_validate_move_out_date, is_staying, tenancy_where,
  profile_of, put_on_notice_period, cancel_notice_period,
}
use pg_master_backend.Tenancy.Notice.Cancel.{IsStayingOn, notice_then_cancel}

-- 1 July 2026
abbrev july : List (Option ℕ)
july = some 2026 ∷ some 7 ∷ some 1 ∷ []

accepted : (put_on_notice_period 0 10 1 july sample_world).0 ≡ ok (date_utc 2026 6 1)
unfolding put_on_notice_period parse_and_validate_move_out_date validate_move_out parse_date_utc
    today_ist now_ist to_date_only date_utc day_number days_before_year days_before_month
    days_in_month is_leap utc_full_year utc_month utc_date year_of_day year_from month_of_day
    month_from date_of_day
accepted = refl

notice_then_cancel_example :
    ((cancel_notice_period 10 1 (put_on_notice_period 0 10 1 july sample_world).1).0 ≡ ok 10)
    × ((t : Tenancy) × ((p : TenentProfile) × (tenancy_where 10 1 is_staying sample_world ≡ some t)
          × (profile_of t.tenent_id sample_world ≡ some p)
          × IsStayingOn 10 t p
              (cancel_notice_period 10 1 (put_on_notice_period 0 10 1 july sample_world).1).1))
notice_then_cancel_example = notice_then_cancel 0 10 1 july sample_world (ground arith) accepted
