-- ===== src/Tenancy/Onboarding/Dues.antt =====
-- The dues that a new tenant starts with.
use pg_master_backend.Prelude.{
  ℕ, ◌+◌, ◌≡◌, refl, sym, ap, ◌∙◌, inl, inr, Option, none, some, [], ◌∷◌, ◌==◌, arith, All,
  All-append, sum_by, sum_by-append, Bool-cases, ltb,
}
use pg_master_backend.Due.{ceil_rupee}
use pg_master_backend.Due.Invariant.{IsBalanced, IsConsistent, outstanding}
use pg_master_backend.Proration.{Prorated, today_ist}
use pg_master_backend.Store.Rows.{Table, create}
use pg_master_backend.Store.Ids.{IsKeyed, IsKeyed-create}
use pg_master_backend.Store.Schema.{Due}
use pg_master_backend.Store.World.{World, Result, ok, err}
use pg_master_backend.Tenancy.Onboarding.{AddTenant, Onboarded}
use pg_master_backend.Tenancy.Onboarding.Create.{
  save_user, save_profile, track_move_in, first_rent_due, deposit_due, create_first_dues, onboard,
  create_tenant,
}
use pg_master_backend.Tenancy.Occupancy.Onboards.{normalized, create_tenant-outcome}

onboard_dues :
    (now : ℕ) (dto : AddTenant) (join_date : ℕ) (period : Prorated) (existing : Option ℕ)
    (w : World)
    → let w' = onboard now dto join_date period existing w in
      (w'.dues ≡ create_first_dues now dto join_date period w.tenancies.next_id w.dues)
      × (w'.due_payments ≡ w.due_payments)
unfolding onboard track_move_in save_profile save_user
onboard_dues now dto join_date period none w = elim (Bool-cases (ltb (today_ist now) join_date)) [
  | inl later ↦ rw later (refl, refl)
  | inr today ↦ rw today (refl, refl)
]
onboard_dues now dto join_date period (some u) w =
    elim (Bool-cases (ltb (today_ist now) join_date)) [
      | inl later ↦ rw later (refl, refl)
      | inr today ↦ rw today (refl, refl)
    ]

abbrev due_id : Due → ℕ
due_id d = d.id

abbrev balance : Due → ℕ
balance d = d.balance_amount

-- A due that is made keeps the table in order.
create-IsBalanced :
    (row : ℕ → Due) (dues : Table Due)
    → ((i : ℕ) → (row i).id ≡ i)
    → IsBalanced (row dues.next_id)
    → All IsBalanced dues.rows × IsKeyed due_id dues
    → All IsBalanced (create row dues).rows × IsKeyed due_id (create row dues)
create-IsBalanced row dues ids fresh before = (
  All-append IsBalanced dues.rows (row dues.next_id ∷ []) before.0 (fresh, tt),
  IsKeyed-create due_id row ids dues before.1,
)

module _ (now : ℕ) (dto : AddTenant) (join_date : ℕ) (period : Prorated) (tenancy_id : ℕ)
    (dues : Table Due) where
  first_dues-IsBalanced :
      All IsBalanced dues.rows × IsKeyed due_id dues
      → All IsBalanced (create_first_dues now dto join_date period tenancy_id dues).rows
        × IsKeyed due_id (create_first_dues now dto join_date period tenancy_id dues)
  unfolding create_first_dues first_rent_due deposit_due
  first_dues-IsBalanced before =
      let with_rent =
        create-IsBalanced (first_rent_due now dto period tenancy_id) dues (λ i. refl) (ground arith)
          before in
      elim (Bool-cases (ceil_rupee dto.security_deposit == 0)) [
        | inl free ↦ rw free with_rent
        | inr deposit ↦ rw deposit (
            create-IsBalanced (deposit_due now dto join_date tenancy_id)
              (create (first_rent_due now dto period tenancy_id) dues) (λ i. refl) (ground arith)
              with_rent)
      ]

  first_dues_sum :
      sum_by balance (create_first_dues now dto join_date period tenancy_id dues).rows
      ≡ sum_by balance dues.rows
        + ceil_rupee period.prorated_amount
        + ceil_rupee dto.security_deposit
  unfolding create_first_dues first_rent_due deposit_due
  first_dues_sum =
      let rent_row = first_rent_due now dto period tenancy_id dues.next_id in
      let one = sum_by-append balance dues.rows (rent_row ∷ []) in
      elim (Bool-cases (ceil_rupee dto.security_deposit == 0)) [
        | inl free ↦
            let nothing : ceil_rupee dto.security_deposit ≡ 0 = ground (arith, free) in
            rw free (omega (arith, one, nothing))
        | inr deposit ↦
            let rest = create (first_rent_due now dto period tenancy_id) dues in
            let two =
              sum_by-append balance rest.rows
                (deposit_due now dto join_date tenancy_id rest.next_id ∷ []) in
            rw deposit (omega (arith, one, two))
      ]

ok_is : {a b : Onboarded} → Result.ok a ≡ ok b → a ≡ b
ok_is {a} e = ap (λ r. elim r [ ok x ↦ x | err x ↦ a ]) e

-- From a consistent state: a request to createTenant that is accepted keeps the state consistent, and
-- adds to what is owed the prorated rent that it returns, and the deposit rounded up to whole rupees.
pub create_tenant_owes :
    (now : ℕ) (dto : AddTenant) (owner_id : ℕ) (w : World) {made : Onboarded}
    → IsConsistent w
    → (create_tenant now dto owner_id w).0 ≡ ok made
    → let w' = (create_tenant now dto owner_id w).1 in
      IsConsistent w'
      × (outstanding w'
          ≡ outstanding w + made.prorated_rent_amount + ceil_rupee dto.security_deposit)
create_tenant_owes now dto owner_id w {made} ok_w accepted =
    elim (create_tenant-outcome now dto owner_id w) [
      | inl (e, threw) ↦ cc (accepted, ap (λ r. r.0) threw)
      | inr (join_date, (period, (existing, (room, fits, done)))) ↦
          let kept = onboard_dues now (normalized dto) join_date period existing w in
          let dues =
            first_dues-IsBalanced now (normalized dto) join_date period w.tenancies.next_id w.dues
              (ok_w.balanced, ok_w.dues_keyed) in
          let sum =
            first_dues_sum now (normalized dto) join_date period w.tenancies.next_id w.dues in
          let made_is = ok_is (sym accepted ∙ ap (λ r. r.0) done) in
          let amount : made.prorated_rent_amount ≡ ceil_rupee period.prorated_amount =
            ap (λ m. m.prorated_rent_amount) made_is in
          rw (ap (λ r. r.1) done) (
            record {
              balanced = rw kept.0 dues.0;
              dues_keyed = rw kept.0 dues.1;
              payments_keyed = rw kept.1 ok_w.payments_keyed;
            },
            rw kept.0 (omega (arith, sum, amount)),
          )
    ]
