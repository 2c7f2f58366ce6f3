-- ===== src/Proration/Rent.antt =====
-- `calculateProratedRent` charges every day of the period at its own month's rate.
use pg_master_backend.Prelude.{
  ℕ, zero, suc, ◌+◌, ◌-◌, ◌*◌, ◌/◌, ◌<◌, ◌≡◌, true, false, some, arith, ap, ◌∙◌, inl, inr, ltb,
  if◌then◌else◌, Bool-cases,
}
use pg_master_backend.Calendar.{ms_per_day, date_utc}
use pg_master_backend.Calendar.Fields.{next_month_day, month_of_day_range}
use pg_master_backend.Proration.{
  parts_per_paisa, round_div, daily_rate, segment_end, prorated_loop, calculate_prorated_rent,
  to_date_only, first_cycle_end,
}
use pg_master_backend.Proration.Segments.{
  length_of_month, month_length_at_midnight, first_of_next_month_midnight, daily_sum, daily_sum_add,
  daily_sum_segment,
}

-- The days that one round charges.
abbrev segment_days : ℕ → ℕ → ℕ
segment_days c e = if ltb e (next_month_day c) then e - c else next_month_day c - c

round_div_days : (k : ℕ) → round_div (k * ms_per_day) ms_per_day ≡ k
unfolding round_div
round_div_days k = omega arith

segment_days_lem :
    (c e : ℕ)
    → c < e
    → round_div (segment_end (c * ms_per_day) (e * ms_per_day) - c * ms_per_day) ms_per_day
      ≡ segment_days c e
unfolding segment_end
segment_days_lem c e h = elim (Bool-cases (ltb e (next_month_day c))) [
  | inl inside ↦
      let t : ltb (e * ms_per_day) (next_month_day c * ms_per_day) ≡ true = ground arith in
      let d : e * ms_per_day - c * ms_per_day ≡ (e - c) * ms_per_day = omega arith in
      rw (first_of_next_month_midnight c, t, inside, d) (round_div_days (e - c))
  | inr past ↦
      let t : ltb (e * ms_per_day) (next_month_day c * ms_per_day) ≡ false = ground arith in
      let d : next_month_day c * ms_per_day - c * ms_per_day ≡ (next_month_day c - c) * ms_per_day =
        omega arith in
      rw (first_of_next_month_midnight c, t, past, d) (round_div_days (next_month_day c - c))
]

-- One round charges the days up to the next month, and leaves those from there on.
daily_sum_round :
    (rent c e : ℕ)
    → c < e
    → daily_sum rent c (e - c)
      ≡ daily_rate rent (length_of_month c) * segment_days c e
        + daily_sum rent (next_month_day c) (e - next_month_day c)
unfolding daily_sum
daily_sum_round rent c e h = elim (Bool-cases (ltb e (next_month_day c))) [
  | inl inside ↦
      let z : e - next_month_day c ≡ 0 = ground arith in
      rw (inside, z) (daily_sum_segment rent c (e - c) (ground arith) ∙ omega arith)
  | inr past ↦
      let b = (month_of_day_range c).2 in
      let split : e - c ≡ (next_month_day c - c) + (e - next_month_day c) = ground arith in
      let at : c + (next_month_day c - c) ≡ next_month_day c = omega arith in
      rw (
        past,
        split,
        daily_sum_add rent c (next_month_day c - c) (e - next_month_day c),
        at,
        daily_sum_segment rent c (next_month_day c - c) (omega arith),
      )
]

-- With fuel for the days, the loop ends, and adds what each day of the period costs.
pub prorated_loop_days :
    (fuel c e rent total : ℕ)
    → e - c < fuel
    → prorated_loop fuel (c * ms_per_day) (e * ms_per_day) rent total
      ≡ some (total + daily_sum rent c (e - c))
unfolding prorated_loop
prorated_loop_days zero c e rent total h = elim h [ ]
prorated_loop_days (suc fuel) c e rent total h = elim (Bool-cases (ltb c e)) [
  | inl more ↦
      let b = (month_of_day_range c).2 in
      let t : ltb (c * ms_per_day) (e * ms_per_day) ≡ true = ground arith in
      let lt : c < e = ground arith in
      rw (t, segment_days_lem c e lt, month_length_at_midnight c, first_of_next_month_midnight c)
        (prorated_loop_days fuel (next_month_day c) e rent
            (total + daily_rate rent (length_of_month c) * segment_days c e) (omega arith)
          ∙ ap some (omega (arith, daily_sum_round rent c e lt)))
  | inr done ↦
      let t : ltb (c * ms_per_day) (e * ms_per_day) ≡ false = ground arith in
      let z : e - c ≡ 0 = ground arith in rw (t, z) (unfold daily_sum in ap some (omega arith))
]

-- The day that the first cycle ends, which is exclusive.
abbrev pub end_day : ℕ → ℕ → ℕ
end_day join_date cycle_day = first_cycle_end join_date cycle_day / ms_per_day

abbrev pub start_day : ℕ → ℕ
start_day join_date = to_date_only join_date / ms_per_day

first_cycle_end_midnight : (j d : ℕ) → first_cycle_end j d ≡ end_day j d * ms_per_day
unfolding first_cycle_end date_utc
first_cycle_end_midnight j d = ground arith

to_date_only_midnight : (j : ℕ) → to_date_only j ≡ start_day j * ms_per_day
unfolding to_date_only date_utc
to_date_only_midnight j = omega arith

prorated_loop_midnights :
    (fuel a b rent c e : ℕ)
    → a ≡ c * ms_per_day
    → b ≡ e * ms_per_day
    → e - c < fuel
    → prorated_loop fuel a b rent 0 ≡ some (daily_sum rent c (e - c))
prorated_loop_midnights fuel a b rent c e pa pb h =
    rw (pa, pb) (prorated_loop_days fuel c e rent 0 h ∙ ap some (omega arith))

-- For every join date, cycle day and rent, `calculateProratedRent` ends; the period is from the
-- join date to the first cycle end, and the amount is the sum over the days of the period, the last
-- excluded, of the rent divided by the length of that day's month, rounded to the paisa.
pub calculate_prorated_rent_days :
    (join_date cycle_day rent : ℕ)
    → calculate_prorated_rent join_date cycle_day rent
      ≡ some (record {
        period_start = to_date_only join_date;
        period_end = first_cycle_end join_date cycle_day;
        prorated_amount =
            round_div
              (daily_sum rent
                (start_day join_date)
                (end_day join_date cycle_day - start_day join_date))
              parts_per_paisa;
      })
unfolding calculate_prorated_rent
calculate_prorated_rent_days j d rent =
    let loop =
      prorated_loop_midnights ((first_cycle_end j d - to_date_only j) / ms_per_day + 1)
        (to_date_only j) (first_cycle_end j d) rent (start_day j) (end_day j d)
        (to_date_only_midnight j) (first_cycle_end_midnight j d)
        (omega (arith, to_date_only_midnight j, first_cycle_end_midnight j d)) in
    rw (loop, calculate_prorated_rent)
