-- ===== src/Store/Requests.antt =====
-- The models of prisma/schema.prisma for room shifts, for move-ins, and for complaints.
use pg_master_backend.Prelude.{ℕ, Option, String}
use pg_master_backend.Store.Schema.{RequestStatus}

pub record RoomShiftRequest : Type 0 where
  pub id : ℕ
  pub tenant_id : ℕ
  pub tenancy_id : ℕ
  pub property_id : ℕ
  pub requested_room_id : ℕ
  pub requested_property_id : Option ℕ
  pub status : RequestStatus

pub data MoveInStatus : Type 0 where
  waiting moved_in : MoveInStatus

pub record MoveInTracker : Type 0 where
  pub id : ℕ
  pub property_id : ℕ
  pub tenancy_id : ℕ
  pub month : ℕ
  pub year : ℕ
  pub move_in_date : ℕ
  pub moved_in_date : Option ℕ
  pub status : MoveInStatus

pub data ComplaintStatus : Type 0 where
  opened pending assigned in_progress completed cancelled : ComplaintStatus

pub record Complaint : Type 0 where
  pub id : ℕ
  pub raised_by_id : ℕ
  pub assigned_staff_id : Option ℕ
  pub assigned_owner_id : Option ℕ
  pub status : ComplaintStatus
  pub property_id : ℕ

pub record ComplaintLog : Type 0 where
  pub id : ℕ
  pub complaint_id : ℕ

pub record ComplaintPhoto : Type 0 where
  pub id : ℕ
  pub complaint_id : ℕ
  pub image_url : String

-- a member of an owner's staff
pub record EmployeeBook : Type 0 where
  pub owner_id : ℕ
  pub employee_profile_id : ℕ

-- DailyReminderQueue: only the due that a row is for
pub record DailyReminder : Type 0 where
  pub due_id : ℕ
