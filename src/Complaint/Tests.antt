-- ===== src/Complaint/Tests.antt =====
-- Complaints about the sample property.
use pg_master_backend.Prelude.{
  ℕ, ◌+◌, ◌≤◌, ◌≡◌, refl, ◌⊎◌, String, true, false, none, some, List, [], ◌∷◌, Option, length,
}
use pg_master_backend.Complaint.{
  owner_self, upload_all, photos_of, max_complaint_photos, add_complaint_photos, get_all_complaints,
}
use pg_master_backend.Complaint.Assignees.{
  Call, creates_by_tenant, assigns, AreAssignedOnce, perform_all, perform_all-AreAssignedOnce,
}
use pg_master_backend.Complaint.Photos.{add_complaint_photos_counts}
use pg_master_backend.Complaint.Summary.{
  add_to_groups, group_by_status, count_row, count_rows, get_complaint_summary_by_property,
}
use pg_master_backend.Complaint.Summary.Counts.{count_status, get_complaint_summary_counts}
use pg_master_backend.Store.Requests.{ComplaintStatus, Complaint}
use pg_master_backend.Store.World.{World, ok, err, property_not_found}
use pg_master_backend.Store.Samples.{sample_world}
use pg_master_backend.Tenancy.Notice.{is_owned}

abbrev upload : ℕ → Option String
upload image = some "u"

abbrev calls : List Call
calls = creates_by_tenant 20 none (1 ∷ []) ∷ assigns 1 1 owner_self ∷ []

perform_all-AreAssignedOnce_example : AreAssignedOnce (perform_all upload calls sample_world)
perform_all-AreAssignedOnce_example = perform_all-AreAssignedOnce upload calls sample_world tt

abbrev complaint : ℕ → ComplaintStatus → Complaint
complaint id status = record {
  id = id;
  raised_by_id = 20;
  assigned_staff_id = none;
  assigned_owner_id = none;
  status = status;
  property_id = 5;
}

abbrev with_complaints : World
with_complaints = record sample_world {
  complaints = record {
    rows =
        complaint 1 ComplaintStatus.opened
        ∷ complaint 2 ComplaintStatus.completed
        ∷ complaint 3 ComplaintStatus.opened
        ∷ [];
    next_id = 4;
  };
}

added : (add_complaint_photos upload 1 2 (7 ∷ 8 ∷ []) with_complaints).0 ≡ ok tt
unfolding add_complaint_photos upload_all
added = refl

add_complaint_photos_counts_example :
    let w' = (add_complaint_photos upload 1 2 (7 ∷ 8 ∷ []) with_complaints).1 in
    (length (photos_of 2 w') ≡ length (photos_of 2 with_complaints) + 2)
    × (length (photos_of 2 w') ≤ max_complaint_photos)
add_complaint_photos_counts_example =
    add_complaint_photos_counts upload 1 2 (7 ∷ 8 ∷ []) with_complaints added

two_open :
    get_complaint_summary_by_property 5 1 with_complaints
    ≡ (ok (record { opened = 2; assigned = 0; resolved = 1; total = 3 }), with_complaints)
unfolding get_complaint_summary_by_property get_all_complaints group_by_status add_to_groups
    count_rows count_row
two_open = refl

get_complaint_summary_counts_example :
    let cs = get_all_complaints 5 with_complaints in
    ((is_owned 1 5 with_complaints ≡ false)
      × (get_complaint_summary_by_property 5 1 with_complaints
          ≡ (err property_not_found, with_complaints)))
    ⊎ ((is_owned 1 5 with_complaints ≡ true)
        × (get_complaint_summary_by_property 5 1 with_complaints ≡ (
          ok (record {
            opened = count_status ComplaintStatus.opened cs;
            assigned = count_status ComplaintStatus.assigned cs;
            resolved = count_status ComplaintStatus.completed cs;
            total = length cs;
          }),
          with_complaints,
        )))
get_complaint_summary_counts_example = get_complaint_summary_counts 5 1 with_complaints
