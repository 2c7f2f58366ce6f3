-- ===== src/Tenancy/Shift/Requests.antt =====
-- `approveRoomShiftRequest` and `rejectRoomShiftRequest` of src/modules/tenancy/tenancy.service.ts,
-- and `requestRoomShift` of src/modules/tenent/tenent.service.ts. Reasons are left out.
use pg_master_backend.Prelude.{ℕ, Bool, not, ◌&&◌, Option, none, some, leb, ◌==◌, if◌then◌else◌}
use pg_master_backend.Store.Rows.{create, find_first, update_rows}
use pg_master_backend.Store.Requests.{RoomShiftRequest}
use pg_master_backend.Store.Schema.{RequestStatus, approved, rejected, Tenancy, is_none}
use pg_master_backend.Store.World.{
  World, Action, pure, gets, or_throw, throw_if, modify, ◌>>=◌, ◌>>◌, tenancy_not_found,
  record_missing, same_room, room_not_found, room_full, property_not_found, request_not_found,
  tenancy_not_active, request_pending,
}
use pg_master_backend.Tenancy.Notice.{is_staying, is_owned, is_pending}
use pg_master_backend.Tenancy.Onboarding.{owned_room}
use pg_master_backend.Tenancy.Shift.{Shifted, shift_tenant_room, or_else, property_by_id}

abbrev pub pending_shift : ℕ → ℕ → World → Option RoomShiftRequest
pending_shift request_id owner_id w =
    find_first
      (λ (r : RoomShiftRequest).
        r.id == request_id && (is_pending r.status && is_owned owner_id r.property_id w))
      w.room_shift_requests.rows

abbrev pub set_shift_status : ℕ → RequestStatus → World → World
set_shift_status request_id status w = record w {
  room_shift_requests =
      update_rows (λ (r : RoomShiftRequest). r.id == request_id) (λ r. record r { status = status })
        w.room_shift_requests;
}

abbrev pub supersede : ℕ → ℕ → World → World
supersede tenancy_id request_id w = record w {
  room_shift_requests =
      update_rows
        (λ (r : RoomShiftRequest).
          r.tenancy_id == tenancy_id && (is_pending r.status && not (r.id == request_id)))
        (λ r. record r { status = rejected }) w.room_shift_requests;
}

unfoldable pub approve_room_shift_request : ℕ → ℕ → ℕ → Action Shifted
approve_room_shift_request now request_id owner_id = do
  found ← gets (pending_shift request_id owner_id)
  request ← or_throw found request_not_found
  its_tenancy ←
      gets (λ w. find_first (λ (t : Tenancy). t.id == request.tenancy_id) w.tenancies.rows)
  tenancy ← or_throw its_tenancy record_missing
  throw_if (not (is_none tenancy.deleted_at)) tenancy_not_active
  throw_if (not (is_staying tenancy.tenancy_status)) tenancy_not_active
  result ←
      shift_tenant_room now
        (record {
          tenancy_id = request.tenancy_id;
          new_room_id = request.requested_room_id;
          new_property_id = request.requested_property_id;
        })
        owner_id
  modify (set_shift_status request_id approved)
  modify (supersede request.tenancy_id request_id)
  pure result

unfoldable pub reject_room_shift_request : ℕ → ℕ → Action ℕ
reject_room_shift_request request_id owner_id = do
  found ← gets (pending_shift request_id owner_id)
  or_throw found request_not_found
  modify (set_shift_status request_id rejected)
  pure request_id

-- What a tenant asks for.
pub record RequestRoomShift : Type 0 where
  pub property_id : ℕ
  pub requested_room_id : ℕ
  pub requested_property_id : Option ℕ

-- A tenancy of the tenant in the property that a request may be about.
abbrev pub own_tenancy : ℕ → ℕ → World → Option Tenancy
own_tenancy tenant_id property_id w =
    find_first
      (λ (t : Tenancy).
        t.tenent_id == tenant_id
        && (t.property_id == property_id && (is_staying t.tenancy_status && is_none t.deleted_at)))
      w.tenancies.rows

abbrev pub is_pending_for : ℕ → RoomShiftRequest → Bool
is_pending_for tenancy_id r = r.tenancy_id == tenancy_id && is_pending r.status

unfoldable pub request_room_shift : ℕ → RequestRoomShift → Action ℕ
request_room_shift tenant_id dto = do
  found ← gets (own_tenancy tenant_id dto.property_id)
  tenancy ← or_throw found tenancy_not_found
  let destination = or_else dto.requested_property_id tenancy.property_id
  throw_if (dto.requested_room_id == tenancy.room_id && destination == tenancy.property_id)
      same_room
  current ← gets (property_by_id tenancy.property_id)
  property ← or_throw current property_not_found
  its_room ← gets (owned_room dto.requested_room_id destination property.owner_id)
  room ← or_throw its_room room_not_found
  throw_if (leb room.total_beds room.occupied_beds) room_full
  existing ← gets (λ w. find_first (is_pending_for tenancy.id) w.room_shift_requests.rows)
  throw_if (not (is_none existing)) request_pending
  id ← gets (λ w. w.room_shift_requests.next_id)
  modify (λ w. record w {
    room_shift_requests =
        create
          (λ id. record {
            id = id;
            tenant_id = tenant_id;
            tenancy_id = tenancy.id;
            property_id = dto.property_id;
            requested_room_id = dto.requested_room_id;
            requested_property_id =
                if destination == tenancy.property_id then none else some destination;
            status = RequestStatus.pending;
          })
          w.room_shift_requests;
  })
  pure id
