-- ===== src/Tenancy/Occupancy/Stays.antt =====
-- Beds while tenants stay: what changes a tenancy and leaves it its bed.
use pg_master_backend.Prelude.{
  ℕ, ◌≡◌, refl, ap, ◌⊎◌, inl, inr, Bool, true, false, not, ◌&&◌, ◌||◌, Option, some, List, ◌==◌,
  arith, ltb, Option-cases, Bool-cases,
}
use pg_master_backend.Due.{is_billable}
use pg_master_backend.Proration.{to_date_only, today_ist}
use pg_master_backend.Store.Rows.{find_first, find_first-true}
use pg_master_backend.Store.Ids.{find_first_of_and, find_first_own_id}
use pg_master_backend.Store.Schema.{TenancyStatus, active, notice_period, Tenancy, is_none}
use pg_master_backend.Store.World.{
  World, Fault, ok, err, tenancy_not_found, not_waiting, already_moved_in,
}
use pg_master_backend.Tenancy.Notice.{
  is_on_notice, is_staying, is_active, is_owned, tenancy_where, profile_of, set_tenancy_status,
  put_on_notice_period, cancel_notice_period,
}
use pg_master_backend.Tenancy.Notice.Cancel.{put_on_notice_period-outcome}
use pg_master_backend.Tenancy.MoveIn.{
  is_pending, may_move_in, tracker_of, track_moved_in, count_moved_in, move_in, confirm_move_in,
}
use pg_master_backend.Tenancy.Occupancy.{HasHousing, IsHoused-same, tenancy_id_of}

-- The state after has its beds in order if the one before has, and the same rooms.
pub record IsKept (w w' : World) : Type 0 where
  pub housing : HasHousing w → HasHousing w'
  pub rooms : w'.rooms ≡ w.rooms

pub same_world : (w w' : World) → w' ≡ w → IsKept w w'
same_world w w' e = record { housing = λ h. rw e h; rooms = ap (λ x. x.rooms) e }

-- A status that holds a bed is replaced by one that does.
pub IsKept-status :
    (k : ℕ) (status : TenancyStatus) (w : World) {t : Tenancy}
    → (HasHousing w → find_first (λ (x : Tenancy). x.id == k) w.tenancies.rows ≡ some t)
    → is_billable t.tenancy_status ≡ true
    → is_billable status ≡ true
    → IsKept w (set_tenancy_status k status w)
IsKept-status k status w row was is = record {
  housing = λ housing.
      IsHoused-same w.tenancies w.rooms.rows housing (λ x. record x { tenancy_status = status })
        (λ x. refl) k (row housing) (λ j. ground (arith, was, is));
  rooms = refl;
}

-- The row that `tenancy_where` finds, found by its id, and what is asked of it.
pub row_where :
    (tenancy_id owner_id : ℕ) (fits : TenancyStatus → Bool) (w : World) {t : Tenancy}
    → tenancy_where tenancy_id owner_id fits w ≡ some t
    → HasHousing w
    → find_first (λ (x : Tenancy). x.id == tenancy_id) w.tenancies.rows ≡ some t
row_where tenancy_id owner_id fits w found housing =
    (find_first_of_and tenancy_id_of tenancy_id
      (λ x. fits x.tenancy_status && (is_none x.deleted_at && is_owned owner_id x.property_id w))
      w.tenancies.rows housing.keyed.0 found).0

pub status_where :
    (tenancy_id owner_id : ℕ) (fits : TenancyStatus → Bool) (w : World) {t : Tenancy}
    → tenancy_where tenancy_id owner_id fits w ≡ some t
    → fits t.tenancy_status ≡ true
status_where tenancy_id owner_id fits w found =
    let at =
      find_first-true
        (λ (x : Tenancy).
          x.id == tenancy_id
          && (fits x.tenancy_status && (is_none x.deleted_at && is_owned owner_id x.property_id w)))
        w.tenancies.rows found in
    ground (arith, at)

pub put_on_notice_period-IsKept :
    (now tenancy_id owner_id : ℕ) (parts : List (Option ℕ)) (w : World)
    → IsKept w (put_on_notice_period now tenancy_id owner_id parts w).1
put_on_notice_period-IsKept now tenancy_id owner_id parts w =
    elim (put_on_notice_period-outcome now tenancy_id owner_id parts w) [
      | inl (e, threw) ↦ same_world w _ (ap (λ r. r.1) threw)
      | inr (t, (p, (d, found, profile, done))) ↦
          let stays = status_where tenancy_id owner_id is_staying w found in
          let kept =
            IsKept-status tenancy_id notice_period w
              (row_where tenancy_id owner_id is_staying w found) (ground (arith, stays)) refl in
          elim (Bool-cases (is_active t.tenancy_status)) [
            | inl was ↦
                rw (ap (λ r. r.1) done, was) (record { housing = kept.housing; rooms = refl })
            | inr was ↦ rw (ap (λ r. r.1) done, was) (record { housing = λ h. h; rooms = refl })
          ]
    ]

pub cancel_notice_period-IsKept :
    (tenancy_id owner_id : ℕ) (w : World) → IsKept w (cancel_notice_period tenancy_id owner_id w).1
unfolding cancel_notice_period
cancel_notice_period-IsKept tenancy_id owner_id w =
    elim (Option-cases (tenancy_where tenancy_id owner_id is_on_notice w)) [
      | inl missing ↦ rw missing (record { housing = λ h. h; rooms = refl })
      | inr (t, found) ↦
          let stays = status_where tenancy_id owner_id is_on_notice w found in
          let kept =
            IsKept-status tenancy_id active w (row_where tenancy_id owner_id is_on_notice w found)
              (ground (arith, stays)) refl in
          elim (Bool-cases (is_none (profile_of t.tenent_id w))) [
            | inl no_profile ↦ rw (found, no_profile) (record { housing = λ h. h; rooms = refl })
            | inr profile ↦ rw (found, profile) (record { housing = kept.housing; rooms = refl })
          ]
    ]

confirm_move_in-outcome :
    (now tenancy_id owner_id : ℕ) (w : World)
    → ((e : Fault) × (confirm_move_in now tenancy_id owner_id w ≡ (err e, w)))
      ⊎ ((t : Tenancy) × (tenancy_where tenancy_id owner_id may_move_in w ≡ some t)
          × (confirm_move_in now tenancy_id owner_id w ≡ (ok tenancy_id, move_in now t w)))
unfolding confirm_move_in
confirm_move_in-outcome now tenancy_id owner_id w =
    elim (Option-cases (tenancy_where tenancy_id owner_id may_move_in w)) [
      | inl missing ↦ inl (tenancy_not_found, rw missing refl)
      | inr (t, found) ↦
          elim (Bool-cases
            (not (is_pending t.tenancy_status || ltb (today_ist now) (to_date_only t.joined_at)))) [
              | inl stays ↦ inl (not_waiting, rw (found, stays) refl)
              | inr waits ↦ elim (Bool-cases (not (is_none (tracker_of tenancy_id false w)))) [
                | inl moved ↦ inl (already_moved_in, rw (found, waits, moved) refl)
                | inr fresh ↦ inr (t, found, rw (found, waits, fresh) refl)
              ]
            ]
    ]

-- The transaction of a move-in sets the status, and leaves tenancies and rooms otherwise.
move_in_lem :
    (now : ℕ) (t : Tenancy) (w : World)
    → ((move_in now t w).tenancies ≡ (set_tenancy_status t.id active w).tenancies)
      × ((move_in now t w).rooms ≡ w.rooms)
unfolding move_in track_moved_in count_moved_in
move_in_lem now t w =
    elim (Option-cases (tracker_of t.id true (set_tenancy_status t.id active w))) [
      | inl none_waits ↦ elim (Bool-cases (is_pending t.tenancy_status)) [
        | inl p ↦ rw (none_waits, p) (refl, refl)
        | inr a ↦ rw (none_waits, a) (refl, refl)
      ]
      | inr (m, waits) ↦ elim (Bool-cases (is_pending t.tenancy_status)) [
        | inl p ↦ rw (waits, p) (refl, refl)
        | inr a ↦ rw (waits, a) (refl, refl)
      ]
    ]

pub confirm_move_in-IsKept :
    (now tenancy_id owner_id : ℕ) (w : World)
    → IsKept w (confirm_move_in now tenancy_id owner_id w).1
confirm_move_in-IsKept now tenancy_id owner_id w =
    elim (confirm_move_in-outcome now tenancy_id owner_id w) [
      | inl (e, threw) ↦ same_world w _ (ap (λ r. r.1) threw)
      | inr (t, found, done) ↦
          let may = status_where tenancy_id owner_id may_move_in w found in
          let kept =
            IsKept-status t.id active w
              (λ housing.
                find_first_own_id tenancy_id_of tenancy_id w.tenancies.rows
                  (row_where tenancy_id owner_id may_move_in w found housing))
              (ground (arith, may)) refl in
          let left = move_in_lem now t w in
          rw (ap (λ r. r.1) done)
            (record { housing = λ h. rw (left.0, left.1) (kept.housing h); rooms = left.1 })
    ]
