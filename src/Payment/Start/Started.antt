-- ===== src/Payment/Start/Started.antt =====
-- The rows that `makePayment` stores.
use pg_master_backend.Prelude.{
  ℕ, suc, String, ◌+◌, ◌<◌, ◌≡◌, refl, ap, ◌∙◌, true, false, Option, none, some, List, [], ◌∷◌,
  ◌++◌, append_nil, append_assoc, All, map, includes,
}
use mathlib.Core.List.Perm
use pg_master_backend.Store.Rows.{Table, find_first}
use pg_master_backend.Store.Ids.{HasUniqueIds, IsKeyed, update_last}
use pg_master_backend.Store.World.{World, Result, ok}
use pg_master_backend.Store.Schema.{
  Due, Transaction, TransactionDue, User, GatewayConfig, initiated,
}
use pg_master_backend.PaymentConfig.{config_of}
use pg_master_backend.Payment.Checks.{PaymentDue, is_active_tenant}
use pg_master_backend.Payment.Checks.Accepted.{IsAccepted}
use pg_master_backend.Payment.Checks.Valid.{validate_due_and_amount-IsAccepted}
use pg_master_backend.Payment.Lock.{lock_ttl_ms, lock_payment, is_payment_locked}
use pg_master_backend.Payment.Lock.Keys.{lock_payment-locks}
use pg_master_backend.Payment.Start.{
  MakePayment, make_payment, due_ids_of, new_transaction, create_transaction_dues,
}
use pg_master_backend.Payment.Start.Begun.{returns-IsBegun, begun, tenancy_ids}

-- The rows that a payment over several dues adds: one for each item, with its due and amount.
pub record AreItems (transaction_id : ℕ) (dues : List PaymentDue) (rows : List TransactionDue)
    : Type 0 where
  pub transaction : All (λ (r : TransactionDue). r.transaction_id ≡ transaction_id) rows
  pub due_ids :
      map (λ (r : TransactionDue). r.due_id) rows ≡ map (λ (i : PaymentDue). i.due_id) dues
  pub amounts :
      map (λ (r : TransactionDue). r.amount) rows ≡ map (λ (i : PaymentDue). i.amount) dues

create_transaction_dues_lem :
    (transaction_id : ℕ) (dues : List PaymentDue) (t : Table TransactionDue)
    → (rows : List TransactionDue) × ((create_transaction_dues transaction_id dues t).rows
        ≡ t.rows ++ rows)
      × AreItems transaction_id dues rows
unfolding create_transaction_dues
create_transaction_dues_lem id [] t =
    ([], append_nil t.rows, record { transaction = tt; due_ids = refl; amounts = refl })
create_transaction_dues_lem id (i ∷ rest) t =
    let row : TransactionDue = record {
      id = t.next_id;
      transaction_id = id;
      due_id = i.due_id;
      amount = i.amount;
    } in
    let (rows, stored, items) =
      create_transaction_dues_lem id rest
        (record { rows = t.rows ++ row ∷ []; next_id = suc t.next_id }) in
    (
      row ∷ rows,
      stored ∙ append_assoc t.rows (row ∷ []) rows,
      record {
        transaction = (refl, items.transaction);
        due_ids = ap (λ l. i.due_id ∷ l) items.due_ids;
        amounts = ap (λ l. i.amount ∷ l) items.amounts;
      },
    )

module _ (now later : ℕ) (txn_id : String) (dto : MakePayment) (user_id : ℕ) (w : World) where
  -- What an accepted request has found and what it stores.
  pub record IsStarted (result : Result String × World) : Type 0 where
    pub user : User
    pub user_found : find_first (is_active_tenant user_id) w.users.rows ≡ some user
    pub property_id : ℕ
    pub accepted : IsAccepted dto.total_amount dto.dues (tenancy_ids user_id w) property_id w
    pub config : GatewayConfig
    pub config_found : config_of property_id w ≡ some config
    pub config_active : config.is_active ≡ true
    pub was_free : is_payment_locked now (due_ids_of dto) w ≡ false
    pub returned : result.0 ≡ ok txn_id
    pub transaction : Transaction
    pub stored : result.1.transactions.rows ≡ w.transactions.rows ++ transaction ∷ []
    pub new_id : transaction.id ≡ w.transactions.next_id
    pub no_single_due : transaction.due_id ≡ none
    pub own_tenancy : includes transaction.tenancy_id (tenancy_ids user_id w) ≡ true
    pub of_property : transaction.property_id ≡ property_id
    pub text_id : transaction.txn_id ≡ txn_id
    pub for_total : transaction.amount ≡ dto.total_amount
    pub is_initiated : transaction.status ≡ initiated
    pub access_key : String
    pub keyed : transaction.access_key ≡ some access_key
    pub items : List TransactionDue
    pub items_stored : result.1.transaction_dues.rows ≡ w.transaction_dues.rows ++ items
    pub items_are : AreItems w.transactions.next_id dto.dues items
    pub same_dues : result.1.dues ≡ w.dues
    pub same_payments : result.1.due_payments ≡ w.due_payments
    pub locked : is_payment_locked later (due_ids_of dto) result.1 ≡ true

module _ (initiate : Transaction → Option String) (now : ℕ) (txn_id : String) (dto : MakePayment)
    (user_id : ℕ) (w : World) where
  -- The access key is written to the row that was just created.
  key_stored :
      (tenancy_id property_id : ℕ) (key : String)
      → IsKeyed (λ (t : Transaction). t.id) w.transactions
      → (begun initiate now txn_id dto user_id w tenancy_id property_id key).transactions.rows
        ≡ w.transactions.rows
          ++ record (new_transaction none tenancy_id property_id txn_id dto.total_amount
              w.transactions.next_id) { access_key = some key }
            ∷ []
  key_stored tenancy_id property_id key keyed =
      update_last (λ (t : Transaction). t.id) (λ t. record t { access_key = some key })
        w.transactions
        (new_transaction none tenancy_id property_id txn_id dto.total_amount w.transactions.next_id)
        keyed refl

  -- Where dues and transactions have ids of their own, a request that `makePayment` accepts has passed
  -- the checks: the user is an active tenant, the amounts are positive and add up to the total, every
  -- item names a due of one of the tenant's billable tenancies and of one property, neither PAID nor
  -- WAIVED, whose balance covers it, an active gateway is configured for the property, and no lock was
  -- set for the dues. It adds one transaction with the request's text id, INITIATED, for the total
  -- amount, of that property and one of those tenancies, for no single due, with an access key; and
  -- for each item, in order, a row of that transaction with the item's due and amount. Other
  -- transactions and their dues, the dues and the payments stay, and the dues of the request are
  -- locked at every time before the lock's time is over.
  pub make_payment_begins :
      {r : String} (later : ℕ)
      → HasUniqueIds (λ (d : Due). d.id) w.dues.rows
      → IsKeyed (λ (t : Transaction). t.id) w.transactions
      → (make_payment initiate now txn_id dto user_id w).0 ≡ ok r
      → later < now + lock_ttl_ms
      → IsStarted now later txn_id dto user_id w (make_payment initiate now txn_id dto user_id w)
  unfolding lock_payment
  make_payment_begins later unique keyed accepted early =
      let s = returns-IsBegun initiate now txn_id dto user_id w accepted in
      let v = begun initiate now txn_id dto user_id w s.tenancy_id s.property_id s.access_key in
      let (items, stored, are) =
        create_transaction_dues_lem w.transactions.next_id dto.dues w.transaction_dues in
      rw s.outcome (record {
        user = s.user;
        user_found = s.user_found;
        property_id = s.property_id;
        accepted =
            (validate_due_and_amount-IsAccepted dto.total_amount dto.dues (tenancy_ids user_id w) w
              unique s.valid).0;
        config = s.config;
        config_found = s.config_found;
        config_active = s.config_active;
        was_free = s.unlocked;
        returned = refl;
        transaction =
            record (new_transaction none s.tenancy_id s.property_id txn_id dto.total_amount
              w.transactions.next_id) { access_key = some s.access_key };
        stored = key_stored s.tenancy_id s.property_id s.access_key keyed;
        new_id = refl;
        no_single_due = refl;
        own_tenancy = s.own;
        of_property = refl;
        text_id = refl;
        for_total = refl;
        is_initiated = refl;
        access_key = s.access_key;
        keyed = refl;
        items = items;
        items_stored = stored;
        items_are = are;
        same_dues = refl;
        same_payments = refl;
        locked =
            lock_payment-locks now later (due_ids_of dto) (due_ids_of dto) v
              (Perm.refl (due_ids_of dto)) early;
      })
