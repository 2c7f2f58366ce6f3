-- ===== src/Tenancy/Notice/Cancel.antt =====
-- Going on notice, and cancelling it.
use pg_master_backend.Prelude.{
  ℕ, ◌≡◌, refl, ap, ◌∙◌, ◌⊎◌, inl, inr, ◌&&◌, Option, none, some, List, ◌==◌, if◌then◌else◌, arith,
  Option-cases, Bool-cases, ltb, leb,
}
use pg_master_backend.Proration.{to_date_only, today_ist}
use pg_master_backend.Store.Rows.{find_first, find_first-updated, update_many}
use pg_master_backend.Store.Ids.{
  HasUniqueIds, HasUniqueIds-update, find_first_and, find_first_of_and,
}
use pg_master_backend.Store.Schema.{Tenancy, TenentProfile, active, notice_period, is_none}
use pg_master_backend.Store.World.{
  World, Fault, ok, err, tenancy_not_found, profile_incomplete, bad_date, date_in_past,
  not_after_joining,
}
use pg_master_backend.Tenancy.Notice.{
  parse_date_utc, validate_move_out, parse_and_validate_move_out_date, is_on_notice, is_staying,
  is_active, is_owned, tenancy_where, profile_of, set_tenancy_status, set_move_out_date,
  reject_pending, put_on_notice_period, cancel_notice_period,
}

abbrev tenancy_id_of : Tenancy → ℕ
tenancy_id_of t = t.id

pub parse_and_validate-outcome :
    (now : ℕ) (parts : List (Option ℕ)) (join_date : ℕ) (w : World)
    → ((e : Fault) × (parse_and_validate_move_out_date now parts join_date w ≡ (err e, w)))
      ⊎ ((d : ℕ) × (parse_and_validate_move_out_date now parts join_date w ≡ (ok d, w)))
unfolding parse_and_validate_move_out_date validate_move_out
parse_and_validate-outcome now parts join_date w = elim (Option-cases (parse_date_utc parts)) [
  | inl missing ↦ inl (bad_date, rw missing refl)
  | inr (d, parsed) ↦ elim (Bool-cases (ltb d (today_ist now))) [
    | inl past ↦ inl (date_in_past, rw (parsed, past) refl)
    | inr future ↦ elim (Bool-cases (leb d (to_date_only join_date))) [
      | inl early ↦ inl (not_after_joining, rw (parsed, future, early) refl)
      | inr late ↦ inr (d, rw (parsed, future, late) refl)
    ]
  ]
]

-- What a request to go on notice leaves.
abbrev pub noticed : ℕ → Tenancy → ℕ → World → World
noticed tenancy_id t date w = reject_pending tenancy_id (
    set_move_out_date t.tenent_id (some date)
      (if is_active t.tenancy_status then set_tenancy_status tenancy_id notice_period w else w))

pub put_on_notice_period-outcome :
    (now tenancy_id owner_id : ℕ) (parts : List (Option ℕ)) (w : World)
    → ((e : Fault) × (put_on_notice_period now tenancy_id owner_id parts w ≡ (err e, w)))
      ⊎ ((t : Tenancy) × ((p : TenentProfile) × ((d : ℕ) × (tenancy_where tenancy_id owner_id
                  is_staying w
                ≡ some t)
              × (profile_of t.tenent_id w ≡ some p)
              × (put_on_notice_period now tenancy_id owner_id parts w
                  ≡ (ok d, noticed tenancy_id t d w)))))
unfolding put_on_notice_period
put_on_notice_period-outcome now tenancy_id owner_id parts w =
    elim (Option-cases (tenancy_where tenancy_id owner_id is_staying w)) [
      | inl missing ↦ inl (tenancy_not_found, rw missing refl)
      | inr (t, found) ↦ elim (Option-cases (profile_of t.tenent_id w)) [
        | inl no_profile ↦ inl (profile_incomplete, rw (found, no_profile) refl)
        | inr (p, profile) ↦ elim (parse_and_validate-outcome now parts t.joined_at w) [
          | inl (e, threw) ↦ inl (e, rw (found, profile, threw) refl)
          | inr (d, fits) ↦ inr (t, (p, (d, found, profile, rw (found, profile, fits) refl)))
        ]
      ]
    ]

-- A tenancy that is cancelled: the row and the profile that follow.
pub record IsStayingOn (tenancy_id : ℕ) (t : Tenancy) (p : TenentProfile) (w : World) : Type 0 where
  pub tenancy :
      find_first (λ (x : Tenancy). x.id == tenancy_id) w.tenancies.rows
      ≡ some (record t { tenancy_status = active })
  pub profile : profile_of t.tenent_id w ≡ some (record p { move_out_date = none })

cancel_notice_period_lem :
    (tenancy_id owner_id : ℕ) (t : Tenancy) (p : TenentProfile) (w : World)
    → HasUniqueIds tenancy_id_of w.tenancies.rows
    → tenancy_where tenancy_id owner_id is_on_notice w ≡ some t
    → profile_of t.tenent_id w ≡ some p
    → ((cancel_notice_period tenancy_id owner_id w).0 ≡ ok tenancy_id)
      × IsStayingOn tenancy_id t p (cancel_notice_period tenancy_id owner_id w).1
unfolding cancel_notice_period
cancel_notice_period_lem tenancy_id owner_id t p w unique found profile =
    let row =
      (find_first_of_and tenancy_id_of tenancy_id
        (λ x.
          is_on_notice x.tenancy_status
          && (is_none x.deleted_at && is_owned owner_id x.property_id w))
        w.tenancies.rows unique found).0 in
    rw (found, profile)
      (
        refl,
        record {
          tenancy =
              find_first-updated (λ (x : Tenancy). x.id == tenancy_id)
                (λ x. record x { tenancy_status = active }) w.tenancies.rows (λ x. refl) row;
          profile =
              find_first-updated (λ (x : TenentProfile). x.user_id == t.tenent_id)
                (λ x. record x { move_out_date = none }) w.profiles (λ x. refl) profile;
        },
      )

module _ (now tenancy_id owner_id : ℕ) (parts : List (Option ℕ)) (w : World)
    (unique : HasUniqueIds tenancy_id_of w.tenancies.rows) where
  still_noticed :
      (t : Tenancy) (d : ℕ)
      → tenancy_where tenancy_id owner_id is_staying w ≡ some t
      → HasUniqueIds tenancy_id_of (noticed tenancy_id t d w).tenancies.rows
        × (tenancy_where tenancy_id owner_id is_on_notice (noticed tenancy_id t d w)
            ≡ some (record t { tenancy_status = notice_period }))
  still_noticed t d found =
      let rest = λ (x : Tenancy). is_none x.deleted_at && is_owned owner_id x.property_id w in
      let at =
        find_first_of_and tenancy_id_of tenancy_id (λ x. is_staying x.tenancy_status && rest x)
          w.tenancies.rows unique found in
      elim (Bool-cases (is_active t.tenancy_status)) [
        | inl was_active ↦
            let to_notice = λ (x : Tenancy). record x { tenancy_status = notice_period } in
            let moved =
              find_first-updated (λ (x : Tenancy). x.id == tenancy_id) to_notice w.tenancies.rows
                (λ x. refl) at.0 in
            rw was_active (
              HasUniqueIds-update tenancy_id_of (λ x. x.id == tenancy_id) to_notice (λ x. refl)
                  w.tenancies.rows unique,
              find_first_and tenancy_id_of tenancy_id (λ x. is_on_notice x.tenancy_status && rest x)
                  (update_many (λ (x : Tenancy). x.id == tenancy_id) to_notice w.tenancies.rows)
                  moved (ground (arith, at.1)),
            )
        | inr on_notice ↦
            let status : t.tenancy_status ≡ notice_period = ground (arith, at.1) in
            rw on_notice (
              unique,
              find_first_and tenancy_id_of tenancy_id (λ x. is_on_notice x.tenancy_status && rest x)
                    w.tenancies.rows at.0 (ground (arith, at.1))
                  ∙ ap (λ s. some (record t { tenancy_status = s })) status,
            )
      ]

  -- Where tenancies have ids of their own: after an owner has put a tenancy on its notice period, the
  -- same owner can cancel that. The tenancy is then the one before, ACTIVE, and its tenant's profile the
  -- one before, without a move-out date.
  pub notice_then_cancel :
      {d : ℕ}
      → (put_on_notice_period now tenancy_id owner_id parts w).0 ≡ ok d
      → let w' = (put_on_notice_period now tenancy_id owner_id parts w).1 in
        ((cancel_notice_period tenancy_id owner_id w').0 ≡ ok tenancy_id)
        × ((t : Tenancy) × ((p : TenentProfile) × (tenancy_where tenancy_id owner_id is_staying w
                ≡ some t)
              × (profile_of t.tenent_id w ≡ some p)
              × IsStayingOn tenancy_id t p (cancel_notice_period tenancy_id owner_id w').1))
  notice_then_cancel accepted =
      elim (put_on_notice_period-outcome now tenancy_id owner_id parts w) [
        | inl (e, threw) ↦ cc (accepted, ap (λ r. r.0) threw)
        | inr (t, (p, (d, found, profile, done))) ↦
            let w' = noticed tenancy_id t d w in
            let on_notice = still_noticed t d found in
            let t' : Tenancy = record t { tenancy_status = notice_period } in
            let p' : TenentProfile = record p { move_out_date = some d } in
            let dated : profile_of t.tenent_id w' ≡ some p' = dated_profile t p d profile in
            let back =
              cancel_notice_period_lem tenancy_id owner_id t' p' w' on_notice.0 on_notice.1 dated in
            rw (ap (λ r. r.1) done) (
              back.0,
              (
                t,
                (p, found, profile, record { tenancy = back.1.tenancy; profile = back.1.profile }),
              ),
            )
      ]
    where
      dated_profile :
          (t : Tenancy) (p : TenentProfile) (d : ℕ)
          → profile_of t.tenent_id w ≡ some p
          → profile_of t.tenent_id (noticed tenancy_id t d w)
            ≡ some (record p { move_out_date = some d })
      dated_profile t p d profile = elim (Bool-cases (is_active t.tenancy_status)) [
        | inl was_active ↦ rw was_active (
            find_first-updated (λ (x : TenentProfile). x.user_id == t.tenent_id)
              (λ x. record x { move_out_date = some d }) w.profiles (λ x. refl) profile)
        | inr on_notice ↦ rw on_notice (
            find_first-updated (λ (x : TenentProfile). x.user_id == t.tenent_id)
              (λ x. record x { move_out_date = some d }) w.profiles (λ x. refl) profile)
      ]
