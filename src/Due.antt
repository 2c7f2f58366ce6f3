-- ===== src/Due.antt =====
-- src/modules/due/due.service.ts: dues are added to a tenant or split over a room, listed, and
-- collected. Amounts are in paise. Texts built for people (titles, phone numbers) are left out.
pub mod Invariant
pub mod Collect
pub mod Ledger
pub mod Fraction
pub mod Create
pub mod Sample
mod Tests
use pg_master_backend.Prelude.{
  ℕ, ◌+◌, ◌-◌, ◌*◌, ◌/◌, String, Bool, true, false, ◌&&◌, ◌||◌, Option, none, some, List, [], ◌∷◌,
  ltb, leb, ◌==◌, if◌then◌else◌, ceil_div, length, includes, map,
}
use pg_master_backend.Calendar.{utc_full_year, utc_month}
use pg_master_backend.Proration.{now_ist}
use pg_master_backend.Store.Rows.{Table, find_first, find_many, create, update_rows}
use pg_master_backend.Store.Schema.{
  DueType, other, DueStatus, unpaid, partial, paid, PaymentMode, TenancyStatus, active,
  notice_period, Due, DuePayment, Tenancy, Room, is_open, is_cleared, is_none,
}
use pg_master_backend.Store.World.{
  World, Event, due_created, due_payment_collected, Action, pure, throw, gets, or_throw, throw_if,
  modify, emit, ◌>>=◌, ◌>>◌, invalid_tenant, invalid_room, no_billable_tenancy, due_not_found,
  already_cleared, bad_amount,
}

-- `Math.ceil` of an amount in rupees, in paise
abbrev pub ceil_rupee : ℕ → ℕ
ceil_rupee amount = ceil_div amount 100 * 100

-- `BILLABLE_TENANCY_STATUSES`
abbrev pub is_billable : TenancyStatus → Bool
is_billable active = true
is_billable notice_period = true
is_billable TenancyStatus.pending = true
is_billable _ = false

abbrev pub ist_month : ℕ → ℕ
ist_month now = utc_month (now_ist now) + 1

abbrev pub ist_year : ℕ → ℕ
ist_year now = utc_full_year (now_ist now)

-- `customDueType: dto.dueType === 'OTHER' ? (dto.customDueType ?? null) : null`
abbrev custom_type : DueType → Option String → Option String
custom_type other custom = custom
custom_type _ custom = none

abbrev pub new_due : ℕ → Tenancy → DueType → Option String → ℕ → ℕ → ℕ → Due
new_due now tenancy type custom amount due_date id = record {
  id = id;
  tenancy_id = tenancy.id;
  property_id = tenancy.property_id;
  due_type = type;
  custom_due_type = custom_type type custom;
  month = ist_month now;
  year = ist_year now;
  total_amount = amount;
  paid_amount = 0;
  balance_amount = amount;
  status = unpaid;
  period_start = none;
  period_end = none;
  due_date = due_date;
}

pub record CreateDueForTenant : Type 0 where
  pub due_type : DueType
  pub custom_due_type : Option String
  pub tenant_id : ℕ
  pub amount : ℕ
  pub dues_to_date : ℕ

pub record CreateDueForRoom : Type 0 where
  pub due_type : DueType
  pub custom_due_type : Option String
  pub room_id : ℕ
  pub total_amount : ℕ
  pub dues_to_date : ℕ

pub record CollectDue : Type 0 where
  pub due_id : ℕ
  pub amount : ℕ
  pub paid_at : ℕ
  pub payment_mode : PaymentMode
  pub transaction_id : Option String

abbrev pub due_event : Due → Event
due_event due =
    due_created due.id due.tenancy_id due.property_id due.due_type due.total_amount due.month
      due.year

-- a billable tenancy of the tenant
abbrev pub billable_for_tenant : ℕ → Tenancy → Bool
billable_for_tenant tenant_id t =
    t.tenent_id == tenant_id && (is_billable t.tenancy_status && is_none t.deleted_at)

unfoldable pub add_due_to_tenant : ℕ → CreateDueForTenant → ℕ → Action Due
add_due_to_tenant now dto property_id = do
  found ← gets (λ w.
      find_first (λ t. t.property_id == property_id && billable_for_tenant dto.tenant_id t)
        w.tenancies.rows)
  tenancy ← or_throw found invalid_tenant
  id ← gets (λ w. w.dues.next_id)
  let row =
      new_due now tenancy dto.due_type dto.custom_due_type (ceil_rupee dto.amount) dto.dues_to_date
  modify (λ w. record w { dues = create row w.dues })
  emit (due_event (row id))
  pure (row id)

-- The dues that `Promise.all` creates, one for each tenancy, in the order of the list.
unfoldable pub create_room_dues :
    (Tenancy → ℕ → Due) → List Tenancy → Table Due → List Due × Table Due
create_room_dues row [] dues = ([], dues)
create_room_dues row (t ∷ ts) dues =
    let (made, dues') = create_room_dues row ts (create (row t) dues) in
    (row t dues.next_id ∷ made, dues')

unfoldable pub emit_all : List Due → Action (Unit {0})
emit_all [] = pure tt
emit_all (due ∷ rest) = emit (due_event due) >> emit_all rest

-- `Math.ceil(dto.totalAmount / totaltenents)`
unfoldable pub individual_amount : ℕ → ℕ → ℕ
individual_amount total tenants = ceil_div total (100 * tenants) * 100

unfoldable pub add_due_to_room : ℕ → CreateDueForRoom → ℕ → Action (List Due)
add_due_to_room now dto property_id = do
  room ←
      gets (λ w. find_first (λ r. r.property_id == property_id && r.id == dto.room_id) w.rooms.rows)
  or_throw room invalid_room
  tenancies ← gets (λ w.
      find_many
        (λ t.
          t.room_id == dto.room_id
          && (is_billable t.tenancy_status
              && (is_none t.deleted_at && t.property_id == property_id)))
        w.tenancies.rows)
  throw_if (length tenancies == 0) no_billable_tenancy
  let amount = individual_amount dto.total_amount (length tenancies)
  let row = λ (t : Tenancy). new_due now t dto.due_type dto.custom_due_type amount dto.dues_to_date
  made ← gets (λ w. create_room_dues row tenancies w.dues)
  modify (λ w. record w { dues = made.1 })
  emit_all made.0
  pure made.0

-- What `collectDue` writes to a row, by the due that it has read.
abbrev pub set_collected : ℕ → Due → Due → Due
set_collected amount due row = record row {
  paid_amount = due.paid_amount + amount;
  balance_amount = due.balance_amount - amount;
  status = if due.balance_amount - amount == 0 then paid else partial;
}

abbrev pub collected_due : ℕ → Due → Due
collected_due amount due = set_collected amount due due

abbrev pub collected_payment : CollectDue → ℕ → ℕ → Due → ℕ → DuePayment
collected_payment dto amount recorded_by due id = record {
  id = id;
  due_id = due.id;
  tenancy_id = due.tenancy_id;
  property_id = due.property_id;
  month = due.month;
  year = due.year;
  amount = amount;
  payment_mode = dto.payment_mode;
  transaction_id = dto.transaction_id;
  paid_at = dto.paid_at;
  recorded_by_id = recorded_by;
}

-- The due and the amount have been found to be in order.
unfoldable pub record_collection : CollectDue → ℕ → ℕ → Due → World → World
record_collection dto amount recorded_by due w = record w {
  due_payments = create (collected_payment dto amount recorded_by due) w.due_payments;
  dues = update_rows (λ d. d.id == due.id) (set_collected amount due) w.dues;
}

unfoldable pub collect_due : CollectDue → ℕ → Action Due
collect_due dto recorded_by = do
  found ← gets (λ w. find_first (λ d. d.id == dto.due_id) w.dues.rows)
  due ← or_throw found due_not_found
  throw_if (is_cleared due.status) already_cleared
  let amount = ceil_rupee dto.amount
  throw_if (amount == 0 || ltb due.balance_amount amount) bad_amount
  modify (record_collection dto amount recorded_by due)
  emit (due_payment_collected due.id due.property_id due.due_type amount due.month due.year)
  pure (collected_due amount due)

-- The open dues of a property, `getUnpaidDuesByProperty`, but for their order.
unfoldable pub get_unpaid_dues_by_property : ℕ → World → List Due
get_unpaid_dues_by_property property_id w =
    find_many (λ d. d.property_id == property_id && is_open d.status) w.dues.rows

unfoldable pub get_unpaid_dues_by_tenant_id : ℕ → Action (List Due)
get_unpaid_dues_by_tenant_id tenant_id = do
  found ← gets (λ w. find_first (billable_for_tenant tenant_id) w.tenancies.rows)
  tenancy ← or_throw found no_billable_tenancy
  gets (λ w. find_many (λ d. d.tenancy_id == tenancy.id && is_open d.status) w.dues.rows)

unfoldable pub fetch_all_dues_by_tenant_id : ℕ → Action (List Due)
fetch_all_dues_by_tenant_id requesting_tenant_id = do
  found ← gets (λ w. find_first (billable_for_tenant requesting_tenant_id) w.tenancies.rows)
  tenancy ← or_throw found no_billable_tenancy
  gets (λ w. find_many (λ d. d.tenancy_id == tenancy.id && is_open d.status) w.dues.rows)

-- Also those that are paid or waived.
unfoldable pub get_tenant_dues_by_tenancy_id : ℕ → Action (List Due)
get_tenant_dues_by_tenancy_id tenant_id = do
  found ← gets (λ w. find_first (billable_for_tenant tenant_id) w.tenancies.rows)
  tenancy ← or_throw found no_billable_tenancy
  gets (λ w. find_many (λ d. d.tenancy_id == tenancy.id) w.dues.rows)

unfoldable pub get_dues_by_tenant_and_property : ℕ → ℕ → Action (List Due)
get_dues_by_tenant_and_property tenant_id property_id = do
  tenancies ← gets (λ w.
      find_many (λ t. t.tenent_id == tenant_id && t.property_id == property_id) w.tenancies.rows)
  throw_if (length tenancies == 0) no_billable_tenancy
  gets (λ w. find_many (λ d. includes d.tenancy_id (map (λ t. t.id) tenancies)) w.dues.rows)

unfoldable pub get_due_by_id : ℕ → Action Due
get_due_by_id due_id = do
  found ← gets (λ w. find_first (λ d. d.id == due_id) w.dues.rows)
  or_throw found due_not_found
