-- ===== src/Complaint/Assignees.antt =====
-- Who a complaint is assigned to, and how many photos it gets.
use pg_master_backend.Prelude.{
  ℕ, ◌≡◌, refl, ◌⊎◌, inl, inr, String, true, not, ◌&&◌, ◌||◌, Option, none, some, List, [], ◌∷◌,
  ◌==◌, arith, All, All-append, length, Option-cases, Bool-cases,
}
use pg_master_backend.Complaint.{
  CreateByOwner, is_owner_role, upload_all, is_foreign_staff, is_foreign_tenant, owners_complaint,
  store_complaint, create_complaint_by_owner, tenants_complaint, create_complaint_by_tenant, is_in,
  complaint_by_id, update_complaint, assign_to_owner, assign_to_staff, Assignee, owner_self,
  staff_profile, assign, assign_maintenance_staff, change_status, is_editable, photos_of,
  add_more_photos, edit_complaint_by_tenant, add_logs, add_complaint_photos,
}
use pg_master_backend.Store.Rows.{find_first, All-update_many}
use pg_master_backend.Store.Requests.{ComplaintStatus, Complaint}
use pg_master_backend.Store.Schema.{User, Tenancy, is_none}
use pg_master_backend.Store.World.{World}
use pg_master_backend.Tenancy.Notice.{is_owned, is_staying}

-- Not assigned to the owner and to a member of the staff at once.
abbrev pub IsAssignedOnce : Complaint → Type 0
IsAssignedOnce c = (is_none c.assigned_staff_id || is_none c.assigned_owner_id) ≡ true

abbrev pub AreAssignedOnce : World → Type 0
AreAssignedOnce w = All IsAssignedOnce w.complaints.rows

updated :
    (complaint_id : ℕ) (f : Complaint → Complaint) (w : World)
    → ((c : Complaint) → IsAssignedOnce c → IsAssignedOnce (f c))
    → AreAssignedOnce w
    → AreAssignedOnce (update_complaint complaint_id f w)
updated complaint_id f w keep all =
    All-update_many IsAssignedOnce (λ (c : Complaint). c.id == complaint_id) f w.complaints.rows
      (λ c hit h. keep c h) all

stored :
    (row : ℕ → Complaint) (urls : List String) (w : World)
    → IsAssignedOnce (row w.complaints.next_id)
    → AreAssignedOnce w
    → AreAssignedOnce (store_complaint row urls w)
unfolding store_complaint
stored row urls w fresh all =
    All-append IsAssignedOnce w.complaints.rows (row w.complaints.next_id ∷ []) all (fresh, tt)

create_by_owner-outcome :
    (upload : ℕ → Option String) (owner_id : ℕ) (dto : CreateByOwner) (images : List ℕ) (w : World)
    → ((create_complaint_by_owner upload owner_id dto images w).1 ≡ w)
      ⊎ ((urls : List String) × ((create_complaint_by_owner upload owner_id dto images w).1
            ≡ store_complaint (owners_complaint owner_id dto) urls w))
unfolding create_complaint_by_owner
create_by_owner-outcome upload owner_id dto images w =
    elim (Bool-cases (
      is_none (find_first (λ (u : User). u.id == owner_id && is_owner_role u.role) w.users.rows))) [
        | inl stranger ↦ inl (rw stranger refl)
        | inr owner ↦ elim (Bool-cases (is_foreign_tenant owner_id dto.tenant_id w)) [
          | inl foreign ↦ inl (rw (owner, foreign) refl)
          | inr tenant ↦ elim (Bool-cases (not (is_owned owner_id dto.property_id w))) [
            | inl other ↦ inl (rw (owner, tenant, other) refl)
            | inr own ↦ elim (Bool-cases (dto.assign_to_self && not (is_none dto.staff_id))) [
              | inl both ↦ inl (rw (owner, tenant, own, both) refl)
              | inr one ↦ elim (Bool-cases (is_foreign_staff owner_id dto.staff_id w)) [
                | inl stranger ↦ inl (rw (owner, tenant, own, one, stranger) refl)
                | inr staff ↦ elim (Option-cases (upload_all upload images)) [
                  | inl failed ↦ inl (rw (owner, tenant, own, one, staff, failed) refl)
                  | inr (urls, stored_urls) ↦
                      inr (urls, rw (owner, tenant, own, one, staff, stored_urls) refl)
                ]
              ]
            ]
          ]
        ]
      ]

owners_complaint-IsAssignedOnce :
    (owner_id : ℕ) (dto : CreateByOwner) (id : ℕ)
    → IsAssignedOnce (owners_complaint owner_id dto id)
unfolding owners_complaint
owners_complaint-IsAssignedOnce owner_id dto id = ground arith

assign-AreAssignedOnce :
    (options : Assignee) (owner_id complaint_id : ℕ) (w : World)
    → AreAssignedOnce w
    → AreAssignedOnce (assign options owner_id complaint_id w).1
unfolding assign_to_owner assign_to_staff
assign-AreAssignedOnce owner_self owner_id complaint_id w all =
    updated complaint_id (assign_to_owner owner_id) w (λ c h. refl) all
assign-AreAssignedOnce (staff_profile none) owner_id complaint_id w all = all
assign-AreAssignedOnce (staff_profile (some staff_id)) owner_id complaint_id w all =
    elim (Bool-cases (is_foreign_staff owner_id (some staff_id) w)) [
      | inl foreign ↦ rw foreign all
      | inr own ↦ rw own (updated complaint_id (assign_to_staff staff_id) w (λ c h. refl) all)
    ]

assign_maintenance_staff-outcome :
    (owner_id complaint_id : ℕ) (options : Assignee) (w : World)
    → ((assign_maintenance_staff owner_id complaint_id options w).1 ≡ w)
      ⊎ ((assign_maintenance_staff owner_id complaint_id options w).1
          ≡ (assign options owner_id complaint_id w).1)
unfolding assign_maintenance_staff
assign_maintenance_staff-outcome owner_id complaint_id options w =
    elim (Option-cases (complaint_by_id complaint_id w)) [
      | inl missing ↦ inl (rw missing refl)
      | inr (c, found) ↦ elim (Bool-cases (not (is_owned owner_id c.property_id w))) [
        | inl foreign ↦ inl (rw (found, foreign) refl)
        | inr own ↦ inr (rw (found, own) refl)
      ]
    ]

-- A call with its arguments.
pub data Call : Type 0 where
  creates_by_owner : ℕ → CreateByOwner → List ℕ → Call
  creates_by_tenant : ℕ → Option ℕ → List ℕ → Call
  assigns : ℕ → ℕ → Assignee → Call
  changes_status : ComplaintStatus → ℕ → Call
  edits : ℕ → ℕ → List ℕ → Call
  logs : ℕ → Call
  adds_photos : ℕ → ℕ → List ℕ → Call

module _ (upload : ℕ → Option String) where
  unfoldable pub perform : Call → World → World
  perform (creates_by_owner owner dto images) w =
      (create_complaint_by_owner upload owner dto images w).1
  perform (creates_by_tenant tenant property images) w =
      (create_complaint_by_tenant upload tenant property images w).1
  perform (assigns owner complaint options) w =
      (assign_maintenance_staff owner complaint options w).1
  perform (changes_status status complaint) w = (change_status status complaint w).1
  perform (edits tenant complaint images) w =
      (edit_complaint_by_tenant upload tenant complaint images w).1
  perform (logs complaint) w = (add_logs complaint w).1
  perform (adds_photos owner complaint images) w =
      (add_complaint_photos upload owner complaint images w).1

  unfoldable pub perform_all : List Call → World → World
  perform_all [] w = w
  perform_all (c ∷ cs) w = perform_all cs (perform c w)

  by_tenant-AreAssignedOnce :
      (tenant_id : ℕ) (property_id : Option ℕ) (images : List ℕ) (w : World)
      → AreAssignedOnce w
      → AreAssignedOnce (create_complaint_by_tenant upload tenant_id property_id images w).1
  unfolding create_complaint_by_tenant tenants_complaint
  by_tenant-AreAssignedOnce tenant_id property_id images w all =
      elim (Bool-cases (is_none (find_first (λ (u : User). u.id == tenant_id) w.users.rows))) [
        | inl stranger ↦ rw stranger all
        | inr tenant ↦
            elim (Option-cases (
              find_first
                (λ (t : Tenancy).
                  t.tenent_id == tenant_id
                  && (is_none t.deleted_at && (is_staying t.tenancy_status && is_in property_id t)))
                w.tenancies.rows)) [
                  | inl nowhere ↦ rw (tenant, nowhere) all
                  | inr (t, found) ↦ elim (Option-cases (upload_all upload images)) [
                    | inl failed ↦ rw (tenant, found, failed) all
                    | inr (urls, uploaded) ↦
                        rw (tenant, found, uploaded)
                          (stored (tenants_complaint tenant_id t.property_id) urls w refl all)
                  ]
                ]
      ]

  change_status-AreAssignedOnce :
      (status : ComplaintStatus) (complaint_id : ℕ) (w : World)
      → AreAssignedOnce w
      → AreAssignedOnce (change_status status complaint_id w).1
  unfolding change_status
  change_status-AreAssignedOnce status complaint_id w all =
      elim (Bool-cases (is_none (complaint_by_id complaint_id w))) [
        | inl missing ↦ rw missing all
        | inr found ↦
            rw found (updated complaint_id (λ c. record c { status = status }) w (λ c h. h) all)
      ]

  add_more_photos_lem :
      (complaint_id count : ℕ) (images : List ℕ) (w : World)
      → (add_more_photos upload complaint_id count images w).1.complaints ≡ w.complaints
  add_more_photos_lem complaint_id count [] w = refl
  add_more_photos_lem complaint_id count (i ∷ is) w = ground arith

  edit_lem :
      (tenant_id complaint_id : ℕ) (images : List ℕ) (w : World)
      → (edit_complaint_by_tenant upload tenant_id complaint_id images w).1.complaints
        ≡ w.complaints
  unfolding edit_complaint_by_tenant
  edit_lem tenant_id complaint_id images w = elim (Option-cases (complaint_by_id complaint_id w)) [
    | inl missing ↦ rw missing refl
    | inr (c, found) ↦ elim (Bool-cases (not (c.raised_by_id == tenant_id))) [
      | inl foreign ↦ rw (found, foreign) refl
      | inr own ↦ elim (Bool-cases (not (is_editable c.status))) [
        | inl closed ↦ rw (found, own, closed) refl
        | inr editable ↦
            rw (found, own, editable)
              (add_more_photos_lem complaint_id (length (photos_of complaint_id w)) images w)
      ]
    ]
  ]

  add_logs_lem :
      (complaint_id : ℕ) (w : World) → (add_logs complaint_id w).1.complaints ≡ w.complaints
  unfolding add_logs
  add_logs_lem complaint_id w = ground arith

  add_complaint_photos_lem :
      (owner_id complaint_id : ℕ) (images : List ℕ) (w : World)
      → (add_complaint_photos upload owner_id complaint_id images w).1.complaints ≡ w.complaints
  unfolding add_complaint_photos
  add_complaint_photos_lem owner_id complaint_id images w = ground arith

  perform-AreAssignedOnce :
      (c : Call) (w : World) → AreAssignedOnce w → AreAssignedOnce (perform c w)
  unfolding perform
  perform-AreAssignedOnce (creates_by_owner owner dto images) w all =
      elim (create_by_owner-outcome upload owner dto images w) [
        | inl same ↦ rw same all
        | inr (urls, made) ↦ rw made (
            stored (owners_complaint owner dto) urls w
              (owners_complaint-IsAssignedOnce owner dto w.complaints.next_id) all)
      ]
  perform-AreAssignedOnce (creates_by_tenant tenant property images) w all =
      by_tenant-AreAssignedOnce tenant property images w all
  perform-AreAssignedOnce (assigns owner complaint options) w all =
      elim (assign_maintenance_staff-outcome owner complaint options w) [
        | inl same ↦ rw same all
        | inr done ↦ rw done (assign-AreAssignedOnce options owner complaint w all)
      ]
  perform-AreAssignedOnce (changes_status status complaint) w all =
      change_status-AreAssignedOnce status complaint w all
  perform-AreAssignedOnce (edits tenant complaint images) w all =
      rw (edit_lem tenant complaint images w) all
  perform-AreAssignedOnce (logs complaint) w all = rw (add_logs_lem complaint w) all
  perform-AreAssignedOnce (adds_photos owner complaint images) w all =
      rw (add_complaint_photos_lem owner complaint images w) all

  -- If no complaint is assigned to an owner and to a member of the staff at once, none is after any
  -- sequence of calls on complaints, whatever they ask for and whatever the uploads answer.
  pub perform_all-AreAssignedOnce :
      (cs : List Call) (w : World) → AreAssignedOnce w → AreAssignedOnce (perform_all cs w)
  unfolding perform_all
  perform_all-AreAssignedOnce [] w all = all
  perform_all-AreAssignedOnce (c ∷ cs) w all =
      perform_all-AreAssignedOnce cs (perform c w) (perform-AreAssignedOnce c w all)
