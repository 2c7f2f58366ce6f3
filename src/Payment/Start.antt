-- ===== src/Payment/Start.antt =====
-- `makePayment` and `initiatePayment` of src/modules/payment/payment.service.ts. The text id of the
-- transaction, a uuid taken to be new, and the gateway's answer are arguments: `initiate` gives the
-- access key, or `none` where the call of the gateway throws. Redirect urls and the texts sent to the
-- gateway are left out.
pub mod Begun
pub mod Started
mod Tests
use pg_master_backend.Prelude.{
  ℕ, String, Bool, true, false, not, Option, none, some, List, [], ◌∷◌, ◌==◌, if◌then◌else◌, map,
}
use pg_master_backend.Store.Rows.{Table, find_first, create, update_rows}
use pg_master_backend.Store.Schema.{
  Due, Tenancy, User, Transaction, TransactionDue, initiated, is_cleared,
}
use pg_master_backend.Store.World.{
  World, Action, pure, throw, gets, or_throw, throw_if, modify, ◌>>=◌, ◌>>◌, payment_in_progress,
  tenant_not_found, gateway_failed, due_not_found, not_your_due, already_cleared,
  no_outstanding_balance, dangling_reference,
}
use pg_master_backend.PaymentConfig.{get_config_for_payment}
use pg_master_backend.Payment.Checks.{PaymentDue, validate_tenant, validate_due_and_amount}
use pg_master_backend.Payment.Lock.{is_payment_locked, lock_payment}

pub record MakePayment : Type 0 where
  pub dues : List PaymentDue
  pub total_amount : ℕ

abbrev pub new_transaction : Option ℕ → ℕ → ℕ → String → ℕ → ℕ → Transaction
new_transaction due_id tenancy_id property_id txn_id amount id = record {
  id = id;
  due_id = due_id;
  tenancy_id = tenancy_id;
  property_id = property_id;
  txn_id = txn_id;
  amount = amount;
  status = initiated;
  access_key = none;
  easepay_id = none;
  payment_source = none;
}

-- `createMany` of the transaction's dues
unfoldable pub create_transaction_dues :
    ℕ → List PaymentDue → Table TransactionDue → Table TransactionDue
create_transaction_dues transaction_id [] t = t
create_transaction_dues transaction_id (item ∷ rest) t =
    create_transaction_dues transaction_id rest (
      create
        (λ i. record {
          id = i;
          transaction_id = transaction_id;
          due_id = item.due_id;
          amount = item.amount;
        })
        t)

abbrev pub set_access_key : ℕ → String → World → World
set_access_key id key w = record w {
  transactions =
      update_rows (λ (t : Transaction). t.id == id) (λ t. record t { access_key = some key })
        w.transactions;
}

abbrev pub due_ids_of : MakePayment → List ℕ
due_ids_of dto = map (λ (d : PaymentDue). d.due_id) dto.dues

module _ (initiate : Transaction → Option String) (now : ℕ) (txn_id : String) where
  unfoldable pub make_payment : MakePayment → ℕ → Action String
  make_payment dto tenant_user_id = do
    locked ← gets (is_payment_locked now (due_ids_of dto))
    throw_if locked payment_in_progress
    tenancies ← validate_tenant tenant_user_id
    (tenancy_id, property_id) ←
        validate_due_and_amount dto.total_amount dto.dues (map (λ t. t.id) tenancies)
    user ← gets (λ w. find_first (λ (u : User). u.id == tenant_user_id) w.users.rows)
    or_throw user tenant_not_found
    get_config_for_payment property_id
    id ← gets (λ w. w.transactions.next_id)
    let row = new_transaction none tenancy_id property_id txn_id dto.total_amount
    modify (λ w. record w { transactions = create row w.transactions })
    modify (λ w. record w {
      transaction_dues = create_transaction_dues id dto.dues w.transaction_dues;
    })
    access_key ← or_throw (initiate (row id)) gateway_failed
    modify (set_access_key id access_key)
    modify (lock_payment now (due_ids_of dto))
    pure txn_id

  unfoldable pub initiate_payment : ℕ → ℕ → Action String
  initiate_payment due_id tenant_user_id = do
    found ← gets (λ w. find_first (λ (d : Due). d.id == due_id) w.dues.rows)
    due ← or_throw found due_not_found
    its_tenancy ← gets (λ w. find_first (λ (t : Tenancy). t.id == due.tenancy_id) w.tenancies.rows)
    tenancy ← or_throw its_tenancy dangling_reference
    throw_if (not (tenancy.tenent_id == tenant_user_id)) not_your_due
    throw_if (is_cleared due.status) already_cleared
    throw_if (due.balance_amount == 0) no_outstanding_balance
    get_config_for_payment due.property_id
    id ← gets (λ w. w.transactions.next_id)
    let row = new_transaction (some due.id) due.tenancy_id due.property_id txn_id due.balance_amount
    modify (λ w. record w { transactions = create row w.transactions })
    access_key ← or_throw (initiate (row id)) gateway_failed
    modify (set_access_key id access_key)
    pure txn_id
