-- ===== src/Payment/Start/Begun.antt =====
-- What `makePayment` has checked when it returns, and a second request for the same dues.
use pg_master_backend.Prelude.{
  ℕ, String, ◌+◌, ◌<◌, ◌≡◌, refl, ap, ◌∙◌, ◌⊎◌, inl, inr, true, false, Option, none, some, List,
  ◌∷◌, All, subst, includes, ◌&&◌, arith, ◌==◌, map, length, not, Option-cases, Bool-cases,
}
use mathlib.Core.List.{Perm}
use pg_master_backend.Store.Rows.{find_first, create, find_many-true}
use pg_master_backend.Store.World.{
  World, Fault, Result, ok, err, payment_in_progress, invalid_user, no_billable_tenancy,
  gateway_not_configured, gateway_disabled, tenant_not_found, gateway_failed,
}
use pg_master_backend.Store.Schema.{Due, Tenancy, Transaction, User, GatewayConfig}
use pg_master_backend.PaymentConfig.{get_config_for_payment, config_of}
use pg_master_backend.Payment.Checks.{
  PaymentDue, validate_tenant, validate_due_and_amount, is_active_tenant, tenancies_of,
  fetched_dues,
}
use pg_master_backend.Payment.Checks.Valid.{validate_due_and_amount-outcome}
use pg_master_backend.Payment.Lock.{lock_ttl_ms, lock_payment, is_payment_locked}
use pg_master_backend.Payment.Lock.Keys.{lock_payment-locks}
use pg_master_backend.Payment.Start.{
  MakePayment, make_payment, due_ids_of, new_transaction, set_access_key, create_transaction_dues,
}

-- The checks only look at the state.
validate_tenant-outcome :
    (user_id : ℕ) (w : World)
    → ((e : Fault) × (validate_tenant user_id w ≡ (err e, w)))
      ⊎ ((u : User) × (find_first (is_active_tenant user_id) w.users.rows ≡ some u)
          × (validate_tenant user_id w ≡ (ok (tenancies_of user_id w), w)))
unfolding validate_tenant
validate_tenant-outcome user_id w =
    elim (Option-cases (find_first (is_active_tenant user_id) w.users.rows)) [
      | inl missing ↦ inl (invalid_user, rw missing refl)
      | inr (u, found) ↦ elim (Bool-cases (length (tenancies_of user_id w) == 0)) [
        | inl empty ↦ inl (no_billable_tenancy, rw (found, empty) refl)
        | inr some_there ↦ inr (u, found, rw (found, some_there) refl)
      ]
    ]

get_config_for_payment-outcome :
    (property_id : ℕ) (w : World)
    → ((e : Fault) × (get_config_for_payment property_id w ≡ (err e, w)))
      ⊎ ((c : GatewayConfig) × (config_of property_id w ≡ some c)
          × (c.is_active ≡ true)
          × (get_config_for_payment property_id w ≡ (ok c, w)))
unfolding get_config_for_payment
get_config_for_payment-outcome property_id w = elim (Option-cases (config_of property_id w)) [
  | inl missing ↦ inl (gateway_not_configured, rw missing refl)
  | inr (c, found) ↦ elim (Bool-cases (not c.is_active)) [
    | inl off ↦ inl (gateway_disabled, rw (found, off) refl)
    | inr on ↦ inr (c, found, ground (arith, on), rw (found, on) refl)
  ]
]

first_is_own :
    (dues : List PaymentDue) (ids : List ℕ) (w : World) {d : Due} {ds : List Due}
    → fetched_dues dues ids w ≡ d ∷ ds
    → includes d.tenancy_id ids ≡ true
first_is_own dues ids w {d} {ds} are =
    let wants = λ (x : Due).
      includes x.id (map (λ (i : PaymentDue). i.due_id) dues) && includes x.tenancy_id ids in
    let all = find_many-true wants w.dues.rows in
    let kept : All (λ x. wants x ≡ true) (d ∷ ds) = subst (All (λ x. wants x ≡ true)) are all in
    ground (arith, kept.0)

abbrev pub tenancy_ids : ℕ → World → List ℕ
tenancy_ids user_id w = map (λ (t : Tenancy). t.id) (tenancies_of user_id w)

module _ (initiate : Transaction → Option String) (now : ℕ) (txn_id : String) (dto : MakePayment)
    (user_id : ℕ) (w : World) where
  -- The state with the transaction, its dues and its access key, before the lock is set.
  abbrev pub begun : ℕ → ℕ → String → World
  begun tenancy_id property_id key = set_access_key w.transactions.next_id key (record w {
    transactions =
        create (new_transaction none tenancy_id property_id txn_id dto.total_amount) w.transactions;
    transaction_dues = create_transaction_dues w.transactions.next_id dto.dues w.transaction_dues;
  })

  pub record IsBegun (result : Result String × World) : Type 0 where
    pub user : User
    pub user_found : find_first (is_active_tenant user_id) w.users.rows ≡ some user
    pub tenancy_id : ℕ
    pub property_id : ℕ
    pub access_key : String
    pub config : GatewayConfig
    pub config_found : config_of property_id w ≡ some config
    pub config_active : config.is_active ≡ true
    pub unlocked : is_payment_locked now (due_ids_of dto) w ≡ false
    pub own : includes tenancy_id (tenancy_ids user_id w) ≡ true
    pub valid :
        (validate_due_and_amount dto.total_amount dto.dues (tenancy_ids user_id w) w).0
        ≡ ok (tenancy_id, property_id)
    pub initiated_by :
        initiate (
          new_transaction none tenancy_id property_id txn_id dto.total_amount
            w.transactions.next_id)
        ≡ some access_key
    pub outcome :
        result
        ≡ (ok txn_id, lock_payment now (due_ids_of dto) (begun tenancy_id property_id access_key))

  -- A request either throws, or it has passed every check and the state is the begun one, locked.
  pub make_payment-outcome :
      ((e : Fault) × ((make_payment initiate now txn_id dto user_id w).0 ≡ err e))
      ⊎ IsBegun (make_payment initiate now txn_id dto user_id w)
  unfolding make_payment
  make_payment-outcome = elim (Bool-cases (is_payment_locked now (due_ids_of dto) w)) [
    | inl locked ↦ inl (payment_in_progress, rw locked refl)
    | inr unlocked ↦ elim (validate_tenant-outcome user_id w) [
      | inl (e, threw) ↦ inl (e, rw (unlocked, threw) refl)
      | inr (u, active, tenant) ↦
          let ids = tenancy_ids user_id w in
          elim (validate_due_and_amount-outcome dto.total_amount dto.dues ids w) [
            | inl (e, threw) ↦ inl (e, rw (unlocked, tenant, threw) refl)
            | inr (d, (ds, are, total_fits, items, one, valid)) ↦
                elim (Option-cases (find_first (λ (u : User). u.id == user_id) w.users.rows)) [
                  | inl missing ↦ inl (tenant_not_found, rw (unlocked, tenant, valid, missing) refl)
                  | inr (user, found) ↦ elim (get_config_for_payment-outcome d.property_id w) [
                    | inl (e, threw) ↦ inl (e, rw (unlocked, tenant, valid, found, threw) refl)
                    | inr (c, configured, on, config) ↦
                        elim (Option-cases (
                          initiate (
                            new_transaction none d.tenancy_id d.property_id txn_id dto.total_amount
                              w.transactions.next_id))) [
                                | inl refused ↦ inl (
                                  gateway_failed,
                                  rw (unlocked, tenant, valid, found, config, refused) refl,
                                )
                                | inr (key, given) ↦ inr (record {
                                  user = u;
                                  user_found = active;
                                  tenancy_id = d.tenancy_id;
                                  property_id = d.property_id;
                                  access_key = key;
                                  unlocked = unlocked;
                                  config = c;
                                  config_found = configured;
                                  config_active = on;
                                  own = first_is_own dto.dues ids w are;
                                  valid = ap (λ r. r.0) valid;
                                  initiated_by = given;
                                  outcome = rw (unlocked, tenant, valid, found, config, given) refl;
                                })
                              ]
                  ]
                ]
          ]
    ]
  ]

  pub returns-IsBegun :
      {r : String}
      → (make_payment initiate now txn_id dto user_id w).0 ≡ ok r
      → IsBegun (make_payment initiate now txn_id dto user_id w)
  returns-IsBegun accepted = elim make_payment-outcome [
    | inl (e, threw) ↦ cc (accepted, threw)
    | inr begun_now ↦ begun_now
  ]

module _ (first second : Transaction → Option String) (now later : ℕ) (txn_id txn_id' : String)
    (dto dto' : MakePayment) (user_id user_id' : ℕ) (w : World) where
  -- After a request that `makePayment` accepts, every request for the same dues, in any order, of
  -- anybody, throws and changes nothing until the lock's time is over.
  pub make_payment_twice :
      {r : String}
      → (make_payment first now txn_id dto user_id w).0 ≡ ok r
      → later < now + lock_ttl_ms
      → Perm (due_ids_of dto) (due_ids_of dto')
      → make_payment second later txn_id' dto' user_id'
          (make_payment first now txn_id dto user_id w).1
        ≡ (err payment_in_progress, (make_payment first now txn_id dto user_id w).1)
  unfolding make_payment
  make_payment_twice accepted early same =
      let s = returns-IsBegun first now txn_id dto user_id w accepted in
      let v = begun first now txn_id dto user_id w s.tenancy_id s.property_id s.access_key in
      let locked : is_payment_locked later (due_ids_of dto')
            (make_payment first now txn_id dto user_id w).1
          ≡ true =
        ap (λ r. is_payment_locked later (due_ids_of dto') r.1) s.outcome
        ∙ lock_payment-locks now later (due_ids_of dto) (due_ids_of dto') v same early in
      rw locked refl
