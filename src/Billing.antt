-- ===== src/Billing.antt =====
-- src/modules/billing/billing.service.ts: an owner adds, deletes and edits a due. The notification of
-- a new due is left out. Months of dates are read off in UTC. A change of an amount is a gain or a
-- loss.
pub mod Deletion
pub mod Balance
mod Tests
use pg_master_backend.Prelude.{
  ℕ, ◌+◌, ◌-◌, ◌*◌, String, Bool, true, false, not, ◌&&◌, ◌||◌, Option, none, some, List, [], ◌∷◌,
  ◌++◌, leb, ltb, ◌==◌, if◌then◌else◌,
}
use pg_master_backend.Calendar.{ms_per_day, utc_full_year, utc_month}
use pg_master_backend.Due.{is_billable}
use pg_master_backend.Proration.{now_ist}
use pg_master_backend.Store.Rows.{find_first, create, update_many, update_rows}
use pg_master_backend.Store.Metrics.{
  increment, decrement, Counter, PropertyMetrics, at_month, empty_metrics, upsert, DashEntry,
  dash_at, empty_dash,
}
use pg_master_backend.Store.References.{delete_dues}
use pg_master_backend.Store.Schema.{
  DueType, other, DueStatus, unpaid, partial, paid, Due, Tenancy, User, is_none,
}
use pg_master_backend.Store.World.{
  World, Action, pure, gets, or_throw, throw_if, modify, ◌>>=◌, ◌>>◌, no_billable_tenancy,
  bad_amount, tenant_not_found, due_not_found, not_deletable, record_missing, not_editable,
}
use pg_master_backend.Tenancy.Notice.{is_owned}

pub record AddDue : Type 0 where
  pub tenant_id : ℕ
  pub property_id : ℕ
  pub due_type : DueType
  pub amount : ℕ
  pub due_start_date : ℕ
  pub due_end_date : ℕ

pub record EditDue : Type 0 where
  pub from_date : Option ℕ
  pub to_date : Option ℕ
  pub due_amount : Option ℕ
  pub due_type : Option DueType
  pub custom_due_type : Option String

unfoldable pub pre_flight_check : AddDue → ℕ → Action Tenancy
pre_flight_check dto owner_id = do
  found ← gets (λ w.
      find_first
        (λ (t : Tenancy).
          t.tenent_id == dto.tenant_id
          && (t.property_id == dto.property_id
              && (is_billable t.tenancy_status
                  && (is_none t.deleted_at && is_owned owner_id t.property_id w))))
        w.tenancies.rows)
  tenancy ← or_throw found no_billable_tenancy
  throw_if (dto.amount == 0) bad_amount
  pure tenancy

-- A due date in the past becomes a week from now.
abbrev last_due_date : ℕ → ℕ → ℕ
last_due_date now due_end_date =
    if leb due_end_date (now_ist now) then now_ist now + 7 * ms_per_day else due_end_date

unfoldable pub billed_due : ℕ → AddDue → ℕ → ℕ → Due
billed_due now dto tenancy_id id = record {
  id = id;
  tenancy_id = tenancy_id;
  property_id = dto.property_id;
  due_type = dto.due_type;
  custom_due_type = none;
  month = utc_month dto.due_start_date + 1;
  year = utc_full_year dto.due_start_date;
  total_amount = dto.amount;
  paid_amount = 0;
  balance_amount = dto.amount;
  status = unpaid;
  period_start = some dto.due_start_date;
  period_end = some dto.due_end_date;
  due_date = last_due_date now dto.due_end_date;
}

unfoldable pub create_due_for_tenant : ℕ → AddDue → ℕ → Action (Unit {0})
create_due_for_tenant now dto owner_id = do
  tenancy ← pre_flight_check dto owner_id
  user ← gets (λ w. find_first (λ (u : User). u.id == dto.tenant_id) w.users.rows)
  throw_if (is_none user) tenant_not_found
  modify (λ w. record w { dues = create (billed_due now dto tenancy.id) w.dues })

abbrev pub owned_due : ℕ → ℕ → World → Option Due
owned_due due_id owner_id w =
    find_first (λ (d : Due). d.id == due_id && is_owned owner_id d.property_id w) w.dues.rows

abbrev pub is_unpaid : DueStatus → Bool
is_unpaid unpaid = true
is_unpaid _ = false

abbrev pub has_id : ℕ → Due → Bool
has_id due_id d = d.id == due_id

abbrev pub lose_dash : ℕ → ℕ → ℕ → ℕ → World → World
lose_dash property_id month year amount w = record w {
  dashboard =
      upsert (dash_at property_id month year) (empty_dash property_id month year)
        (λ (e : DashEntry). record e { dues_generated = decrement amount e.dues_generated })
        w.dashboard;
}

abbrev gain_dash : ℕ → ℕ → ℕ → ℕ → World → World
gain_dash property_id month year amount w = record w {
  dashboard =
      upsert (dash_at property_id month year) (empty_dash property_id month year)
        (λ (e : DashEntry). record e { dues_generated = increment amount e.dues_generated })
        w.dashboard;
}

-- The due is deleted, if no row refuses it, before the metrics of its month are looked for.
unfoldable pub delete_due : ℕ → ℕ → Action ℕ
delete_due due_id owner_id = do
  found ← gets (owned_due due_id owner_id)
  due ← or_throw found due_not_found
  throw_if (not (is_unpaid due.status)) not_deletable
  delete_dues (has_id due_id)
  metrics ← gets (λ w. find_first (at_month due.property_id due.month due.year) w.property_metrics)
  throw_if (is_none metrics) record_missing
  modify (λ w. record w {
    property_metrics =
        update_many (at_month due.property_id due.month due.year)
          (λ m. record m {
            total_dues_generated = decrement due.balance_amount m.total_dues_generated;
          })
          w.property_metrics;
  })
  modify (lose_dash due.property_id due.month due.year due.balance_amount)
  pure due_id

-- `adjustDuesGeneratedMetric`, for a gain and for a loss; a new row starts from a loss at 0.
unfoldable pub gain_generated : ℕ → ℕ → ℕ → ℕ → World → World
gain_generated property_id month year amount w =
    if amount == 0 then w else gain_dash property_id month year amount (counted w)
  where
    counted : World → World
    counted w = record w {
      property_metrics =
          upsert (at_month property_id month year) (empty_metrics property_id month year)
            (λ (m : PropertyMetrics). record m {
              total_dues_generated = increment amount m.total_dues_generated;
            })
            w.property_metrics;
    }

unfoldable pub lose_generated : ℕ → ℕ → ℕ → ℕ → World → World
lose_generated property_id month year amount w =
    if amount == 0 then w else lose_dash property_id month year amount (counted w)
  where
    here : Option PropertyMetrics → List PropertyMetrics → List PropertyMetrics
    here none ms = ms ++ empty_metrics property_id month year ∷ []
    here (some _) ms =
        update_many (at_month property_id month year)
          (λ (m : PropertyMetrics). record m {
            total_dues_generated = decrement amount m.total_dues_generated;
          })
          ms

    counted : World → World
    counted w = record w {
      property_metrics =
          here (find_first (at_month property_id month year) w.property_metrics) w.property_metrics;
    }

-- The delta of two amounts.
abbrev pub adjust_generated : ℕ → ℕ → ℕ → ℕ → ℕ → World → World
adjust_generated property_id month year old new w =
    if ltb old new
    then gain_generated property_id month year (new - old) w
    else lose_generated property_id month year (old - new) w

abbrev pub is_part_paid : DueStatus → Bool
is_part_paid paid = true
is_part_paid partial = true
is_part_paid _ = false

abbrev or_old {ℓ} : {A : Type ℓ} → Option A → A → A
or_old none old = old
or_old (some new) old = new

abbrev pub new_total : EditDue → Due → ℕ
new_total dto due = or_old dto.due_amount due.total_amount

-- `dto.dueType === 'OTHER' ? dto.customDueType ?? null : dto.dueType ? null : unchanged`
abbrev edited_custom : Option DueType → Option String → Option String → Option String
edited_custom none custom old = old
edited_custom (some other) custom old = custom
edited_custom (some _) custom old = none

-- What is written to the row, by the due that was read.
unfoldable pub edited_due : EditDue → Due → Due → Due
edited_due dto due row = with_date dto.to_date (with_amount dto.due_amount typed)
  where
    typed : Due
    typed = record row {
      period_start = elim dto.from_date [ none ↦ row.period_start | some d ↦ some d ];
      due_type = or_old dto.due_type row.due_type;
      custom_due_type = edited_custom dto.due_type dto.custom_due_type row.custom_due_type;
    }

    with_amount : Option ℕ → Due → Due
    with_amount none d = d
    with_amount (some amount) d = record d {
      total_amount = amount;
      balance_amount = amount - due.paid_amount;
    }

    with_date : Option ℕ → Due → Due
    with_date none d = d
    with_date (some date) d = record d {
      period_end = some date;
      due_date = date;
      month = utc_month date + 1;
      year = utc_full_year date;
    }

abbrev pub next_month : EditDue → Due → ℕ
next_month dto due = utc_month (or_old dto.to_date due.due_date) + 1

abbrev pub next_year : EditDue → Due → ℕ
next_year dto due = utc_full_year (or_old dto.to_date due.due_date)

unfoldable pub adjust_metrics : EditDue → Due → World → World
adjust_metrics dto due w =
    let moves = not (next_month dto due == due.month) || not (next_year dto due == due.year) in
    if moves
    then gain_generated due.property_id (next_month dto due) (next_year dto due) (new_total dto due)
        (lose_generated due.property_id due.month due.year due.total_amount w)
    else adjust_generated due.property_id due.month due.year due.total_amount (new_total dto due) w

unfoldable pub edit_due : ℕ → EditDue → ℕ → Action ℕ
edit_due due_id dto owner_id = do
  found ← gets (owned_due due_id owner_id)
  due ← or_throw found due_not_found
  throw_if (is_part_paid due.status) not_editable
  throw_if (new_total dto due == 0) bad_amount
  modify (λ w. record w {
    dues = update_rows (λ (d : Due). d.id == due_id) (edited_due dto due) w.dues;
  })
  modify (adjust_metrics dto due)
  pure due_id
