-- ===== src/Tenancy/Occupancy/Edits.antt =====
-- Beds when tenancies and requests are edited: none of it moves a tenant, but for the approval of a
-- shift.
use pg_master_backend.Prelude.{
  ℕ, ◌≡◌, refl, ◌⊎◌, inl, inr, true, not, ◌&&◌, ◌||◌, Option, none, some, ◌==◌, arith, Option-cases,
  Bool-cases,
}
use pg_master_backend.Due.{is_billable}
use pg_master_backend.Proration.{to_date_only}
use pg_master_backend.Store.Rows.{find_first}
use pg_master_backend.Store.Schema.{TenancyStatus, active, notice_period, Tenancy, is_none}
use pg_master_backend.Store.World.{World, Fault, ok, err, read-outcome}
use pg_master_backend.Tenancy.Notice.{
  validate_move_out, is_staying, is_active, tenancy_where, profile_of, pending_request,
  approve_move_out_request, reject_move_out_request,
}
use pg_master_backend.Tenancy.Details.{
  EditTenancy, MoveOutEdit, keep, clear, set, read_move_out, new_status, edit_tenancy, edit_profile,
  update_tenancy_details,
}
use pg_master_backend.Tenancy.Occupancy.{IsHoused-same}
use pg_master_backend.Tenancy.Occupancy.Stays.{IsKept, IsKept-status, row_where, status_where}
use pg_master_backend.Tenancy.Notice.Cancel.{parse_and_validate-outcome}

-- What is read of a move-out edit leaves a status that holds a bed.
read_move_out-outcome :
    (now : ℕ) (edit : MoveOutEdit) (joined_at : ℕ) (w : World)
    → ((e : Fault) × (read_move_out now edit joined_at w ≡ (err e, w)))
      ⊎ ((change : Option (TenancyStatus × Option ℕ)) × (read_move_out now edit joined_at w
            ≡ (ok change, w))
          × ((status : TenancyStatus)
              → is_billable status ≡ true
              → is_billable (new_status change status) ≡ true))
read_move_out-outcome now keep joined_at w = inr (none, refl, λ status h. h)
read_move_out-outcome now clear joined_at w = inr (some (active, none), refl, λ status h. refl)
read_move_out-outcome now (set parts) joined_at w =
    elim (parse_and_validate-outcome now parts joined_at w) [
      | inl (e, threw) ↦ inl (e, rw threw refl)
      | inr (d, fits) ↦ inr (some (notice_period, some d), rw fits refl, λ status h. refl)
    ]

edit_profile_lem :
    (user_id : ℕ) (change : Option (TenancyStatus × Option ℕ)) (w : World)
    → ((edit_profile user_id change w).tenancies ≡ w.tenancies)
      × ((edit_profile user_id change w).rooms ≡ w.rooms)
edit_profile_lem user_id none w = (refl, refl)
edit_profile_lem user_id (some change) w = (refl, refl)

pub update_tenancy_details-IsKept :
    (now tenancy_id owner_id : ℕ) (dto : EditTenancy) (w : World)
    → IsKept w (update_tenancy_details now tenancy_id owner_id dto w).1
unfolding update_tenancy_details
update_tenancy_details-IsKept now tenancy_id owner_id dto w =
    elim (Option-cases (tenancy_where tenancy_id owner_id is_staying w)) [
      | inl missing ↦ rw missing (record { housing = λ h. h; rooms = refl })
      | inr (t, found) ↦ elim (read_move_out-outcome now dto.move_out t.joined_at w) [
        | inl (e, threw) ↦ rw (found, threw) (record { housing = λ h. h; rooms = refl })
        | inr (change, read, bills) ↦
            elim (Bool-cases
              (is_none (profile_of t.tenent_id w) && (dto.edits_profile || not (is_none change)))) [
                | inl no_profile ↦
                    rw (found, read, no_profile) (record { housing = λ h. h; rooms = refl })
                | inr profile ↦
                    rw (found, read, profile) (edited t change found (bills t.tenancy_status))
              ]
      ]
    ]
  where
    edited :
        (t : Tenancy) (change : Option (TenancyStatus × Option ℕ))
        → tenancy_where tenancy_id owner_id is_staying w ≡ some t
        → (is_billable t.tenancy_status ≡ true
            → is_billable (new_status change t.tenancy_status) ≡ true)
        → IsKept w (edit_profile t.tenent_id change (edit_tenancy tenancy_id dto change w))
    edited t change found bills =
        let stays = status_where tenancy_id owner_id is_staying w found in
        let was : is_billable t.tenancy_status ≡ true = ground (arith, stays) in
        let is = bills was in
        let left = edit_profile_lem t.tenent_id change (edit_tenancy tenancy_id dto change w) in
        record {
          housing = λ housing.
              rw (left.0, left.1)
                (IsHoused-same w.tenancies w.rooms.rows housing _ (λ x. refl) tenancy_id
                  (row_where tenancy_id owner_id is_staying w found housing)
                  (λ j. ground (arith, was, is)));
          rooms = left.1;
        }

-- What leaves tenancies and rooms as they are.
untouched : (w w' : World) → w'.tenancies ≡ w.tenancies → w'.rooms ≡ w.rooms → IsKept w w'
untouched w w' ts rs = record { housing = λ h. rw (ts, rs) h; rooms = rs }

validate_move_out_reads :
    (now move_out join_date : ℕ) (w : World) → (validate_move_out now move_out join_date w).1 ≡ w
unfolding validate_move_out
validate_move_out_reads now move_out join_date w = ground arith

pub reject_move_out_request-IsKept :
    (request_id owner_id : ℕ) (w : World)
    → IsKept w (reject_move_out_request request_id owner_id w).1
unfolding reject_move_out_request
reject_move_out_request-IsKept request_id owner_id w =
    elim (Option-cases (pending_request request_id owner_id w)) [
      | inl missing ↦ rw missing (record { housing = λ h. h; rooms = refl })
      | inr (r, found) ↦ rw found (record { housing = λ h. h; rooms = refl })
    ]

pub approve_move_out_request-IsKept :
    (now request_id owner_id : ℕ) (w : World)
    → IsKept w (approve_move_out_request now request_id owner_id w).1
unfolding approve_move_out_request
approve_move_out_request-IsKept now request_id owner_id w =
    elim (Option-cases (pending_request request_id owner_id w)) [
      | inl missing ↦ rw missing (record { housing = λ h. h; rooms = refl })
      | inr (r, found) ↦
          elim (Option-cases
            (find_first (λ (t : Tenancy). t.id == r.tenancy_id) w.tenancies.rows)) [
              | inl lost ↦ rw (found, lost) (record { housing = λ h. h; rooms = refl })
              | inr (t, its) ↦ elim (Bool-cases (not (is_none t.deleted_at))) [
                | inl gone ↦ rw (found, its, gone) (record { housing = λ h. h; rooms = refl })
                | inr here ↦ elim (Bool-cases (not (is_active t.tenancy_status))) [
                  | inl idle ↦
                      rw (found, its, here, idle) (record { housing = λ h. h; rooms = refl })
                  | inr stays ↦ elim (Bool-cases (is_none (profile_of t.tenent_id w))) [
                    | inl no_profile ↦
                        rw (found, its, here, stays, no_profile)
                          (record { housing = λ h. h; rooms = refl })
                    | inr profile ↦
                        elim (read-outcome
                          (validate_move_out now (to_date_only r.requested_move_out_date)
                            t.joined_at)
                          w
                          (validate_move_out_reads now (to_date_only r.requested_move_out_date)
                            t.joined_at w)) [
                              | inl (e, threw) ↦
                                  rw (found, its, here, stays, profile, threw)
                                    (record { housing = λ h. h; rooms = refl })
                              | inr (d, fits) ↦
                                  elim (Bool-cases (is_none (profile_of r.tenant_id w))) [
                                    | inl no_own ↦
                                        rw (found, its, here, stays, profile, fits, no_own)
                                          (record { housing = λ h. h; rooms = refl })
                                    | inr own ↦
                                        let kept =
                                          IsKept-status r.tenancy_id notice_period w (λ h. its)
                                            (ground (arith, stays)) refl in
                                        rw (found, its, here, stays, profile, fits, own)
                                          (record { housing = kept.housing; rooms = refl })
                                  ]
                            ]
                  ]
                ]
              ]
            ]
    ]
