-- ===== src/Tenancy/Shift.antt =====
-- `shiftTenantRoom` of src/modules/tenancy/tenancy.service.ts. The names of rooms are left
-- out. A bed count is a number that stops at 0 where the column would go below.
pub mod Requests
pub mod Unpaid
pub mod Dues
use pg_master_backend.Prelude.{
  ℕ, ◌+◌, ◌-◌, Bool, true, false, not, ◌&&◌, Option, none, some, List, [], ◌∷◌, leb, ◌==◌,
  if◌then◌else◌, length, sum_by,
}
use pg_master_backend.Due.{ist_month, ist_year}
use pg_master_backend.Store.Rows.{Table, find_first, find_many, update_many, update_rows}
use pg_master_backend.Store.Requests.{
  RoomShiftRequest, ComplaintStatus, completed, cancelled, Complaint,
}
use pg_master_backend.Store.Metrics.{
  increment, decrement, PropertyMetrics, PropertyOtherMetrics, at_month, empty_metrics,
  empty_other_metrics, upsert,
}
use pg_master_backend.Store.Schema.{
  RequestStatus, approved, rejected, Due, Tenancy, Room, Property, is_open, is_none,
}
use pg_master_backend.Store.World.{
  World, Fault, Action, pure, gets, or_throw, throw_if, modify, ◌>>=◌, ◌>>◌, tenancy_not_found,
  record_missing, access_denied, same_room, room_not_found, wrong_room, room_full,
  property_not_found, request_not_found, tenancy_not_active,
}
use pg_master_backend.Tenancy.Notice.{is_staying, is_owned}
use pg_master_backend.Tenancy.Onboarding.{owned_room}
use pg_master_backend.Tenancy.Onboarding.Create.{add_bed}

pub record ShiftRoom : Type 0 where
  pub tenancy_id : ℕ
  pub new_room_id : ℕ
  pub new_property_id : Option ℕ

-- What `shiftTenantRoom` returns, but for texts.
pub record Shifted : Type 0 where
  pub tenancy_id : ℕ
  pub from_property_id : ℕ
  pub to_property_id : ℕ
  pub is_cross_property : Bool
  pub pending_dues_transferred : ℕ
  pub total_pending_balance_transferred : ℕ

-- `??`
abbrev pub or_else : Option ℕ → ℕ → ℕ
or_else none d = d
or_else (some n) d = n

abbrev pub staying_tenancy : ℕ → World → Option Tenancy
staying_tenancy tenancy_id w =
    find_first
      (λ (t : Tenancy). t.id == tenancy_id && (is_staying t.tenancy_status && is_none t.deleted_at))
      w.tenancies.rows

abbrev pub property_by_id : ℕ → World → Option Property
property_by_id property_id w = find_first (λ (p : Property). p.id == property_id) w.properties

abbrev pub room_by_id : ℕ → World → Option Room
room_by_id room_id w = find_first (λ (r : Room). r.id == room_id) w.rooms.rows

abbrev pub missing_destination : ℕ → Option Room → Fault
missing_destination property_id none = room_not_found
missing_destination property_id (some r) =
    if r.property_id == property_id then access_denied else wrong_room

abbrev pub is_open_due_of : ℕ → Due → Bool
is_open_due_of tenancy_id d = d.tenancy_id == tenancy_id && is_open d.status

abbrev pub pending_dues : ℕ → World → List Due
pending_dues tenancy_id w = find_many (is_open_due_of tenancy_id) w.dues.rows

-- The open dues of one month.
pub record Bucket : Type 0 where
  pub month : ℕ
  pub year : ℕ
  pub total_amount : ℕ
  pub paid_amount : ℕ
  pub balance_amount : ℕ

unfoldable pub add_to_buckets : Due → List Bucket → List Bucket
add_to_buckets due [] =
    record {
      month = due.month;
      year = due.year;
      total_amount = due.total_amount;
      paid_amount = due.paid_amount;
      balance_amount = due.balance_amount;
    }
    ∷ []
add_to_buckets due (b ∷ rest) =
    let later = add_to_buckets due rest in
    if b.month == due.month && b.year == due.year
    then record b {
      total_amount = b.total_amount + due.total_amount;
      paid_amount = b.paid_amount + due.paid_amount;
      balance_amount = b.balance_amount + due.balance_amount;
    }
      ∷ rest
    else b ∷ later

unfoldable pub group_by_month : List Due → List Bucket → List Bucket
group_by_month [] buckets = buckets
group_by_month (d ∷ ds) buckets = group_by_month ds (add_to_buckets d buckets)

abbrev take_bucket : Bucket → PropertyMetrics → PropertyMetrics
take_bucket b m = record m {
  total_dues_generated = decrement b.total_amount m.total_dues_generated;
  total_dues_paid = decrement b.paid_amount m.total_dues_paid;
  total_dues_unpaid = decrement b.balance_amount m.total_dues_unpaid;
}

abbrev add_bucket : Bucket → PropertyMetrics → PropertyMetrics
add_bucket b m = record m {
  total_dues_generated = increment b.total_amount m.total_dues_generated;
  total_dues_paid = increment b.paid_amount m.total_dues_paid;
  total_dues_unpaid = increment b.balance_amount m.total_dues_unpaid;
}

unfoldable pub move_buckets : ℕ → ℕ → List Bucket → List PropertyMetrics → List PropertyMetrics
move_buckets old_property new_property [] ms = ms
move_buckets old_property new_property (b ∷ bs) ms = move_buckets old_property new_property bs (
    upsert (at_month new_property b.month b.year) (empty_metrics new_property b.month b.year)
      (add_bucket b) (update_many (at_month old_property b.month b.year) (take_bucket b) ms))

-- One tenant and one bed fewer, and one more, in the metrics of the current month.
abbrev pub tenant_left : PropertyMetrics → PropertyMetrics
tenant_left m = record m {
  active_tenants = decrement 1 m.active_tenants;
  occupied_beds = decrement 1 m.occupied_beds;
}

abbrev pub tenant_came : PropertyMetrics → PropertyMetrics
tenant_came m = record m {
  active_tenants = increment 1 m.active_tenants;
  occupied_beds = increment 1 m.occupied_beds;
}

unfoldable pub move_tenant : ℕ → ℕ → ℕ → ℕ → List PropertyMetrics → List PropertyMetrics
move_tenant month year old_property new_property ms =
    upsert (at_month new_property month year) (empty_metrics new_property month year) tenant_came
      (update_many (at_month old_property month year) tenant_left ms)

unfoldable pub move_active_tenant : ℕ → ℕ → List PropertyOtherMetrics → List PropertyOtherMetrics
move_active_tenant old_property new_property ms =
    upsert (λ (m : PropertyOtherMetrics). m.property_id == new_property)
      (empty_other_metrics new_property)
      (λ m. record m { total_active_tenants = increment 1 m.total_active_tenants })
      (update_many (λ (m : PropertyOtherMetrics). m.property_id == old_property)
        (λ m. record m { total_active_tenants = decrement 1 m.total_active_tenants }) ms)

abbrev is_unresolved : ComplaintStatus → Bool
is_unresolved completed = false
is_unresolved cancelled = false
is_unresolved _ = true

abbrev pub remove_bed : ℕ → World → World
remove_bed room_id w = record w {
  rooms =
      update_rows (λ (r : Room). r.id == room_id)
        (λ r. record r { occupied_beds = r.occupied_beds - 1 }) w.rooms;
}

abbrev pub set_room : ℕ → ℕ → ℕ → World → World
set_room tenancy_id room_id property_id w = record w {
  tenancies =
      update_rows (λ (t : Tenancy). t.id == tenancy_id)
        (λ t. record t { room_id = room_id; property_id = property_id }) w.tenancies;
}

-- What a shift to another property takes along.
unfoldable pub move_records : ℕ → Tenancy → ℕ → List Due → World → World
move_records now tenancy new_property pending w = record w {
  dues =
      update_rows (is_open_due_of tenancy.id) (λ d. record d { property_id = new_property }) w.dues;
  property_metrics = move_tenant (ist_month now) (ist_year now) tenancy.property_id new_property (
      move_buckets tenancy.property_id new_property (group_by_month pending []) w.property_metrics);
  other_metrics = move_active_tenant tenancy.property_id new_property w.other_metrics;
  complaints =
      update_rows
        (λ (c : Complaint).
          c.property_id == tenancy.property_id
          && (c.raised_by_id == tenancy.tenent_id && is_unresolved c.status))
        (λ c. record c { property_id = new_property }) w.complaints;
}

-- The transaction, for a tenancy that may be moved.
unfoldable pub shift_tenancy : ℕ → Tenancy → ℕ → ℕ → World → World
shift_tenancy now tenancy new_room new_property w =
    let moved =
      add_bed new_room (remove_bed tenancy.room_id (set_room tenancy.id new_room new_property w)) in
    if new_property == tenancy.property_id
    then moved
    else move_records now tenancy new_property (pending_dues tenancy.id w) moved

unfoldable pub shifted : Tenancy → ℕ → World → Shifted
shifted tenancy new_property w =
    let stays = new_property == tenancy.property_id in
    let pending = pending_dues tenancy.id w in
    record {
      tenancy_id = tenancy.id;
      from_property_id = tenancy.property_id;
      to_property_id = new_property;
      is_cross_property = not stays;
      pending_dues_transferred = if stays then 0 else length pending;
      total_pending_balance_transferred =
          if stays then 0 else sum_by (λ (d : Due). d.balance_amount) pending;
    }

unfoldable pub shift_tenant_room : ℕ → ShiftRoom → ℕ → Action Shifted
shift_tenant_room now dto owner_id = do
  found ← gets (staying_tenancy dto.tenancy_id)
  tenancy ← or_throw found tenancy_not_found
  current ← gets (property_by_id tenancy.property_id)
  property ← or_throw current record_missing
  throw_if (not (property.owner_id == owner_id)) access_denied
  let new_property = or_else dto.new_property_id tenancy.property_id
  throw_if (dto.new_room_id == tenancy.room_id && new_property == tenancy.property_id) same_room
  destination ← gets (owned_room dto.new_room_id new_property owner_id)
  reason ← gets (λ w. missing_destination new_property (room_by_id dto.new_room_id w))
  room ← or_throw destination reason
  throw_if (leb room.total_beds room.occupied_beds) room_full
  its_property ← gets (property_by_id new_property)
  throw_if (is_none its_property) property_not_found
  old_row ← gets (room_by_id tenancy.room_id)
  throw_if (is_none old_row) room_not_found
  new_row ← gets (room_by_id dto.new_room_id)
  new_room ← or_throw new_row room_not_found
  throw_if (leb new_room.total_beds new_room.occupied_beds) room_full
  result ← gets (shifted tenancy new_property)
  modify (shift_tenancy now tenancy dto.new_room_id new_property)
  pure result
