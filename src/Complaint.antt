-- ===== src/Complaint.antt =====
-- src/modules/complaint/complaint.service.ts. Titles, descriptions, visits and priorities are left out,
-- with the texts of the log. An image stands for what `uploadFile` of S3 gets; what it answers, or that
-- it throws, is the parameter `upload`.
pub mod Assignees
pub mod Photos
pub mod Summary
mod Tests
use pg_master_backend.Prelude.{
  ℕ, ◌+◌, String, Bool, true, false, not, ◌&&◌, Option, none, some, List, [], ◌∷◌, ltb, ◌==◌,
  if◌then◌else◌, length,
}
use pg_master_backend.Store.Rows.{Table, find_first, find_many, create, update_rows}
use pg_master_backend.Store.Requests.{
  ComplaintStatus, opened, pending, assigned, in_progress, completed, cancelled, Complaint,
  ComplaintLog, ComplaintPhoto, EmployeeBook,
}
use pg_master_backend.Store.Schema.{UserRole, Tenancy, User, is_none}
use pg_master_backend.Store.World.{
  World, Action, pure, gets, or_throw, throw_if, modify, ◌>>=◌, ◌>>◌, access_denied, invalid_tenant,
  two_assignees, staff_not_found, upload_failed, tenant_not_found, tenancy_not_found,
  complaint_not_found, no_assignee, not_editable, no_photos, too_many_photos,
}
use pg_master_backend.Tenancy.Notice.{is_staying, is_owned}

-- `MAX_COMPLAINT_PHOTOS`
abbrev pub max_complaint_photos : ℕ
max_complaint_photos = 10

pub record CreateByOwner : Type 0 where
  pub tenant_id : Option ℕ
  pub property_id : ℕ
  pub assign_to_self : Bool
  pub staff_id : Option ℕ
  pub status : ComplaintStatus

abbrev pub is_owner_role : UserRole → Bool
is_owner_role UserRole.property_owner = true
is_owner_role _ = false

-- The images are uploaded one after the other.
unfoldable pub upload_all : (ℕ → Option String) → List ℕ → Option (List String)
upload_all upload [] = some []
upload_all upload (image ∷ images) = elim (upload image) [
  | none ↦ none
  | some url ↦ elim (upload_all upload images) [ none ↦ none | some urls ↦ some (url ∷ urls) ]
]

unfoldable pub create_photos : ℕ → List String → Table ComplaintPhoto → Table ComplaintPhoto
create_photos complaint_id [] photos = photos
create_photos complaint_id (url ∷ urls) photos =
    create_photos complaint_id urls
      (create (λ id. record { id = id; complaint_id = complaint_id; image_url = url }) photos)

abbrev pub add_photos : ℕ → List String → World → World
add_photos complaint_id urls w = record w {
  complaint_photos = create_photos complaint_id urls w.complaint_photos;
}

abbrev pub add_log : ℕ → World → World
add_log complaint_id w = record w {
  complaint_logs = create (λ id. record { id = id; complaint_id = complaint_id }) w.complaint_logs;
}

abbrev is_staff_of : ℕ → ℕ → EmployeeBook → Bool
is_staff_of owner_id profile_id b = b.owner_id == owner_id && b.employee_profile_id == profile_id

-- whether a staff member is named who is not the owner's
abbrev pub is_foreign_staff : ℕ → Option ℕ → World → Bool
is_foreign_staff owner_id none w = false
is_foreign_staff owner_id (some profile_id) w =
    is_none (find_first (is_staff_of owner_id profile_id) w.employee_books)

-- whether a tenant is named who has never been one of the owner's
abbrev pub is_foreign_tenant : ℕ → Option ℕ → World → Bool
is_foreign_tenant owner_id none w = false
is_foreign_tenant owner_id (some tenant_id) w = is_none (
    find_first (λ (t : Tenancy). t.tenent_id == tenant_id && is_owned owner_id t.property_id w)
      w.tenancies.rows)

unfoldable pub owners_complaint : ℕ → CreateByOwner → ℕ → Complaint
owners_complaint owner_id dto id = record {
  id = id;
  raised_by_id = elim dto.tenant_id [ none ↦ owner_id | some tenant_id ↦ tenant_id ];
  assigned_staff_id = if dto.assign_to_self then none else dto.staff_id;
  assigned_owner_id = if dto.assign_to_self then some owner_id else none;
  status = dto.status;
  property_id = dto.property_id;
}

-- A complaint with its first log and its photos.
unfoldable pub store_complaint : (ℕ → Complaint) → List String → World → World
store_complaint row urls w =
    add_photos w.complaints.next_id urls
      (add_log w.complaints.next_id (record w { complaints = create row w.complaints }))

unfoldable pub create_complaint_by_owner :
    (ℕ → Option String) → ℕ → CreateByOwner → List ℕ → Action ℕ
create_complaint_by_owner upload owner_id dto images = do
  owner ←
      gets (λ w. find_first (λ (u : User). u.id == owner_id && is_owner_role u.role) w.users.rows)
  throw_if (is_none owner) access_denied
  foreign_tenant ← gets (is_foreign_tenant owner_id dto.tenant_id)
  throw_if foreign_tenant invalid_tenant
  owned ← gets (is_owned owner_id dto.property_id)
  throw_if (not owned) access_denied
  throw_if (dto.assign_to_self && not (is_none dto.staff_id)) two_assignees
  foreign_staff ← gets (is_foreign_staff owner_id dto.staff_id)
  throw_if foreign_staff staff_not_found
  urls ← or_throw (upload_all upload images) upload_failed
  id ← gets (λ w. w.complaints.next_id)
  modify (store_complaint (owners_complaint owner_id dto) urls)
  pure id

-- whether a tenancy is in the property that is asked for, if one is
abbrev pub is_in : Option ℕ → Tenancy → Bool
is_in none t = true
is_in (some property_id) t = t.property_id == property_id

unfoldable pub tenants_complaint : ℕ → ℕ → ℕ → Complaint
tenants_complaint tenant_id property_id id = record {
  id = id;
  raised_by_id = tenant_id;
  assigned_staff_id = none;
  assigned_owner_id = none;
  status = opened;
  property_id = property_id;
}

unfoldable pub create_complaint_by_tenant : (ℕ → Option String) → ℕ → Option ℕ → List ℕ → Action ℕ
create_complaint_by_tenant upload tenant_id property_id images = do
  tenant ← gets (λ w. find_first (λ (u : User). u.id == tenant_id) w.users.rows)
  throw_if (is_none tenant) tenant_not_found
  found ← gets (λ w.
      find_first
        (λ (t : Tenancy).
          t.tenent_id == tenant_id
          && (is_none t.deleted_at && (is_staying t.tenancy_status && is_in property_id t)))
        w.tenancies.rows)
  tenancy ← or_throw found tenancy_not_found
  urls ← or_throw (upload_all upload images) upload_failed
  id ← gets (λ w. w.complaints.next_id)
  modify (store_complaint (tenants_complaint tenant_id tenancy.property_id) urls)
  pure id

abbrev pub complaint_by_id : ℕ → World → Option Complaint
complaint_by_id complaint_id w =
    find_first (λ (c : Complaint). c.id == complaint_id) w.complaints.rows

abbrev pub update_complaint : ℕ → (Complaint → Complaint) → World → World
update_complaint complaint_id f w = record w {
  complaints = update_rows (λ (c : Complaint). c.id == complaint_id) f w.complaints;
}

-- `buildAssignToOwnerUpdate`
unfoldable pub assign_to_owner : ℕ → Complaint → Complaint
assign_to_owner owner_id c = record c {
  assigned_owner_id = some owner_id;
  assigned_staff_id = none;
  status = assigned;
}

-- `buildAssignToStaffUpdate`
unfoldable pub assign_to_staff : ℕ → Complaint → Complaint
assign_to_staff staff_id c = record c {
  assigned_staff_id = some staff_id;
  assigned_owner_id = none;
  status = assigned;
}

-- To the owner, or to a member of the staff.
pub data Assignee : Type 0 where
  owner_self : Assignee
  staff_profile : Option ℕ → Assignee

abbrev pub assign : Assignee → ℕ → ℕ → Action (Unit {0})
assign owner_self owner_id complaint_id =
    modify (λ w. add_log complaint_id (update_complaint complaint_id (assign_to_owner owner_id) w))
assign (staff_profile profile) owner_id complaint_id = do
  staff_id ← or_throw profile no_assignee
  foreign ← gets (is_foreign_staff owner_id (some staff_id))
  throw_if foreign staff_not_found
  modify (λ w. add_log complaint_id (update_complaint complaint_id (assign_to_staff staff_id) w))

unfoldable pub assign_maintenance_staff : ℕ → ℕ → Assignee → Action (Unit {0})
assign_maintenance_staff owner_id complaint_id options = do
  found ← gets (complaint_by_id complaint_id)
  complaint ← or_throw found complaint_not_found
  owned ← gets (is_owned owner_id complaint.property_id)
  throw_if (not owned) access_denied
  assign options owner_id complaint_id

unfoldable pub change_status : ComplaintStatus → ℕ → Action (Unit {0})
change_status status complaint_id = do
  found ← gets (complaint_by_id complaint_id)
  throw_if (is_none found) complaint_not_found
  modify (update_complaint complaint_id (λ c. record c { status = status }))

-- OPEN and PENDING
abbrev pub is_editable : ComplaintStatus → Bool
is_editable opened = true
is_editable pending = true
is_editable _ = false

abbrev pub photos_of : ℕ → World → List ComplaintPhoto
photos_of complaint_id w =
    find_many (λ (p : ComplaintPhoto). p.complaint_id == complaint_id) w.complaint_photos.rows

-- The photos of an edit, counted before.
abbrev pub add_more_photos : (ℕ → Option String) → ℕ → ℕ → List ℕ → Action (Unit {0})
add_more_photos upload complaint_id count [] = pure tt
add_more_photos upload complaint_id count images = do
  throw_if (ltb max_complaint_photos (count + length images)) too_many_photos
  urls ← or_throw (upload_all upload images) upload_failed
  modify (λ w. add_log complaint_id (add_photos complaint_id urls w))

-- The texts that an edit writes are left out.
unfoldable pub edit_complaint_by_tenant : (ℕ → Option String) → ℕ → ℕ → List ℕ → Action (Unit {0})
edit_complaint_by_tenant upload tenant_id complaint_id images = do
  found ← gets (complaint_by_id complaint_id)
  complaint ← or_throw found complaint_not_found
  throw_if (not (complaint.raised_by_id == tenant_id)) access_denied
  throw_if (not (is_editable complaint.status)) not_editable
  photos ← gets (photos_of complaint_id)
  add_more_photos upload complaint_id (length photos) images

unfoldable pub add_logs : ℕ → Action (Unit {0})
add_logs complaint_id = do
  found ← gets (complaint_by_id complaint_id)
  throw_if (is_none found) complaint_not_found
  modify (add_log complaint_id)

unfoldable pub add_complaint_photos : (ℕ → Option String) → ℕ → ℕ → List ℕ → Action (Unit {0})
add_complaint_photos upload owner_id complaint_id images = do
  throw_if (length images == 0) no_photos
  found ← gets (complaint_by_id complaint_id)
  complaint ← or_throw found complaint_not_found
  owned ← gets (is_owned owner_id complaint.property_id)
  throw_if (not owned) access_denied
  photos ← gets (photos_of complaint_id)
  throw_if (ltb max_complaint_photos (length photos + length images)) too_many_photos
  urls ← or_throw (upload_all upload images) upload_failed
  modify (λ w. add_log complaint_id (add_photos complaint_id urls w))

unfoldable pub get_all_complaints : ℕ → World → List Complaint
get_all_complaints property_id w =
    find_many (λ (c : Complaint). c.property_id == property_id) w.complaints.rows

unfoldable pub get_complaint_by_id : ℕ → Action Complaint
get_complaint_by_id complaint_id = do
  found ← gets (complaint_by_id complaint_id)
  or_throw found complaint_not_found

unfoldable pub fetch_all_complaints_created_by_tenant : ℕ → Option ℕ → Action (List Complaint)
fetch_all_complaints_created_by_tenant tenant_id property_id = do
  tenant ← gets (λ w. find_first (λ (u : User). u.id == tenant_id) w.users.rows)
  throw_if (is_none tenant) tenant_not_found
  gets (λ w.
      find_many
        (λ (c : Complaint).
          c.raised_by_id == tenant_id
          && elim property_id [ none ↦ true | some id ↦ c.property_id == id ])
        w.complaints.rows)
