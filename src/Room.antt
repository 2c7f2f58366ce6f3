-- ===== src/Room.antt =====
-- `deleteRoom` of src/modules/room/room.service.ts. Images of rooms are left out.
use pg_master_backend.Prelude.{ℕ, ◌&&◌, ◌||◌, Option, ltb, ◌==◌, List, length}
use pg_master_backend.Store.Rows.{find_first, find_many, delete_many}
use pg_master_backend.Store.Schema.{Tenancy, Room, RoomReading, is_none}
use pg_master_backend.Store.World.{
  World, Action, pure, gets, or_throw, throw_if, modify, ◌>>=◌, ◌>>◌, room_not_found, room_occupied,
  room_has_history,
}
use pg_master_backend.Tenancy.Notice.{is_staying, is_owned, is_active}

abbrev pub own_room : ℕ → ℕ → World → Option Room
own_room room_id owner_id w =
    find_first (λ (r : Room). r.id == room_id && is_owned owner_id r.property_id w) w.rooms.rows

-- Of any status.
abbrev pub tenants_of : ℕ → World → List Tenancy
tenants_of room_id w = find_many (λ (t : Tenancy). t.room_id == room_id) w.tenancies.rows

-- The transaction.
unfoldable pub remove_room : ℕ → World → World
remove_room room_id w = record w {
  room_readings = delete_many (λ (m : RoomReading). m.room_id == room_id) w.room_readings;
  rooms = record w.rooms { rows = delete_many (λ (r : Room). r.id == room_id) w.rooms.rows };
}

unfoldable pub delete_room : ℕ → ℕ → Action ℕ
delete_room room_id owner_id = do
  found ← gets (own_room room_id owner_id)
  room ← or_throw found room_not_found
  tenants ← gets (tenants_of room_id)
  let active_tenants = find_many (λ (t : Tenancy). is_staying t.tenancy_status) tenants
  throw_if (ltb 0 (length active_tenants) || ltb 0 room.occupied_beds) room_occupied
  throw_if (ltb 0 (length tenants)) room_has_history
  modify (remove_room room_id)
  pure room_id

-- `fetchAllTenantsOfRoom`
unfoldable pub fetch_all_tenants_of_room : ℕ → World → List Tenancy
fetch_all_tenants_of_room room_id w =
    find_many
      (λ (t : Tenancy).
        t.room_id == room_id && (is_active t.tenancy_status && is_none t.deleted_at))
      w.tenancies.rows
