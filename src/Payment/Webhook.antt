-- ===== src/Payment/Webhook.antt =====
-- `handleWebhook` of src/modules/payment/payment.service.ts: the gateway reports how a payment
-- ended. Raw responses and redirect urls are left out.
pub mod Untouched
pub mod Steps
pub mod Once
pub mod Ledgers
pub mod Forged
pub mod Dues
pub mod Success
use text.Mathlib.Text.{◌==◌ as str_eq}
use pg_master_backend.Prelude.{
  ℕ, ◌+◌, ◌-◌, String, Bool, true, false, ◌&&◌, ◌||◌, Option, none, some, List, [], ◌∷◌, ◌++◌, ◌==◌,
  if◌then◌else◌,
}
use pg_master_backend.Proration.{now_ist}
use pg_master_backend.Store.Rows.{Table, find_first, find_many, create, update_rows}
use pg_master_backend.Store.Schema.{
  online_gateway, GatewayTransactionStatus, initiated, success, failed, cancelled, pending,
  SettlementStatus, Due, DuePayment, Tenancy, GatewayConfig, Transaction, TransactionDue,
  Settlement, Ledger, is_paid, is_initiated,
}
use pg_master_backend.Store.World.{
  World, Result, ok, err, Action, pure, throw, gets, throw_if, modify, emit, ◌>>=◌, ◌>>◌,
  due_payment_collected, payment_success, payment_failed, duplicate_key,
}
use pg_master_backend.Due.{set_collected}
use pg_master_backend.Easebuzz.{WebhookPayload, verify_response_hash, same_lowercase}
use pg_master_backend.PaymentConfig.{config_of}

-- `transactionStatus` is `none` for UNKNOWN.
pub record CallbackResult : Type 0 where
  pub transaction_status : Option GatewayTransactionStatus
  pub verified : Bool

abbrev pub answer : Option GatewayTransactionStatus → Bool → CallbackResult
answer status verified = record { transaction_status = status; verified = verified }

abbrev pub set_status :
    GatewayTransactionStatus → Option String → Option String → Transaction → Transaction
set_status status easepay_id source t = record t {
  status = status;
  easepay_id = easepay_id;
  payment_source = source;
}

abbrev pub update_transaction : ℕ → (Transaction → Transaction) → World → World
update_transaction id f w = record w {
  transactions = update_rows (λ (t : Transaction). t.id == id) f w.transactions;
}

-- The tenant of the due's tenancy, which a foreign key guarantees to be there.
abbrev pub tenent_of : ℕ → World → ℕ
tenent_of tenancy_id w = elim (find_first (λ (t : Tenancy). t.id == tenancy_id) w.tenancies.rows) [
  | none ↦ 0
  | some t ↦ t.tenent_id
]

abbrev pub gateway_payment : ℕ → WebhookPayload → ℕ → ℕ → Due → ℕ → DuePayment
gateway_payment paid_at webhook amount recorded_by due id = record {
  id = id;
  due_id = due.id;
  tenancy_id = due.tenancy_id;
  property_id = due.property_id;
  month = due.month;
  year = due.year;
  amount = amount;
  payment_mode = online_gateway;
  transaction_id = some webhook.easepayid;
  paid_at = paid_at;
  recorded_by_id = recorded_by;
}

-- Recording `amount` as paid on a due as it was read: `Math.max(0, balance - amount)` is the
-- subtraction of natural numbers.
abbrev pub pay_due : ℕ → WebhookPayload → ℕ → Due → World → World
pay_due paid_at webhook amount due w = record w {
  due_payments =
      create (gateway_payment paid_at webhook amount (tenent_of due.tenancy_id w) due)
        w.due_payments;
  dues = update_rows (λ (d : Due). d.id == due.id) (set_collected amount due) w.dues;
}

unfoldable pub process_single_due_payment : ℕ → Transaction → ℕ → WebhookPayload → World → World
process_single_due_payment now transaction due_id webhook w =
    elim (find_first (λ (d : Due). d.id == due_id) w.dues.rows) [
      | none ↦ w
      | some due ↦
          if is_paid due.status
          then update_transaction transaction.id
              (λ t. set_status success (some webhook.easepayid) t.payment_source t) w
          else (let w' =
                update_transaction transaction.id
                  (set_status success (some webhook.easepayid) webhook.payment_source)
                  (pay_due now webhook transaction.amount due w) in
              record w' {
                events =
                    w'.events
                    ++ due_payment_collected due.id due.property_id due.due_type transaction.amount
                        due.month due.year
                      ∷ [];
              })
    ]

-- The transaction's dues with their due, as they were read before the loop.
unfoldable pub with_dues : List Due → List TransactionDue → List (TransactionDue × Due)
with_dues dues [] = []
with_dues dues (td ∷ rest) = elim (find_first (λ (d : Due). d.id == td.due_id) dues) [
  | none ↦ with_dues dues rest
  | some due ↦ (td, due) ∷ with_dues dues rest
]

-- The loop over the transaction's dues.
unfoldable pub pay_dues : ℕ → WebhookPayload → List (TransactionDue × Due) → World → World
pay_dues paid_at webhook [] w = w
pay_dues paid_at webhook ((td, due) ∷ rest) w =
    pay_dues paid_at webhook rest
      (if is_paid due.status then w else pay_due paid_at webhook td.amount due w)

-- `eventsToEmit`
unfoldable pub emit_collected : List (TransactionDue × Due) → World → World
emit_collected [] w = w
emit_collected ((td, due) ∷ rest) w = emit_collected rest (
    if is_paid due.status then w else record w {
      events =
          w.events
          ++ due_payment_collected due.id due.property_id due.due_type td.amount due.month due.year
            ∷ [];
    })

-- What is done with the dues found: without any, the method returns.
unfoldable pub pay_transaction_dues :
    ℕ → Transaction → WebhookPayload → List (TransactionDue × Due) → World → World
pay_transaction_dues now transaction webhook [] w = w
pay_transaction_dues now transaction webhook (p ∷ ps) w = emit_collected (p ∷ ps) (
    update_transaction transaction.id
      (set_status success (some webhook.easepayid) webhook.payment_source)
      (pay_dues (now_ist now) webhook (p ∷ ps) w))

abbrev pub dues_of : Transaction → World → List (TransactionDue × Due)
dues_of transaction w = with_dues w.dues.rows (
    find_many (λ (td : TransactionDue). td.transaction_id == transaction.id)
      w.transaction_dues.rows)

unfoldable pub process_multi_due_payment : ℕ → Transaction → WebhookPayload → World → World
process_multi_due_payment now transaction webhook w =
    pay_transaction_dues now transaction webhook (dues_of transaction w) w

-- `isMultiDue` is that the transaction has no due of its own.
unfoldable pub pay_by_kind : ℕ → Transaction → Option ℕ → WebhookPayload → World → World
pay_by_kind now transaction none webhook w = process_multi_due_payment now transaction webhook w
pay_by_kind now transaction (some due_id) webhook w =
    process_single_due_payment now transaction due_id webhook w

unfoldable pub process_successful_payment : ℕ → Transaction → WebhookPayload → World → World
process_successful_payment now transaction webhook w =
    pay_by_kind now transaction transaction.due_id webhook w

abbrev pub new_settlement : ℕ → Transaction → ℕ → Settlement
new_settlement now transaction id = record {
  id = id;
  property_id = transaction.property_id;
  payment_transaction_id = transaction.id;
  transaction_id = transaction.txn_id;
  gross_amount = transaction.amount;
  settled_amount = 0;
  expected_settlement_date = now_ist now;
  status = SettlementStatus.pending;
}

-- `@unique` on the payment transaction and on its text id
abbrev pub is_settlement_of : Transaction → Settlement → Bool
is_settlement_of t s = s.payment_transaction_id == t.id || str_eq s.transaction_id t.txn_id

abbrev pub add_pending : ℕ → Ledger → Ledger
add_pending amount l = record l { pending_settlement_amount = l.pending_settlement_amount + amount }

-- `upsert` of the property's ledger
unfoldable pub upsert_ledger : ℕ → ℕ → List Ledger → List Ledger
upsert_ledger property_id amount [] =
    record {
      property_id = property_id;
      pending_settlement_amount = amount;
      total_settled_amount = 0;
    }
    ∷ []
upsert_ledger property_id amount (l ∷ ls) =
    if l.property_id == property_id
    then add_pending amount l ∷ ls
    else l ∷ upsert_ledger property_id amount ls

unfoldable pub add_settlement : ℕ → Transaction → Action (Unit {0})
add_settlement now transaction w =
    elim (find_first (is_settlement_of transaction) w.settlements.rows) [
      | some _ ↦ (err duplicate_key, w)
      | none ↦ (
        ok tt,
        record w {
          settlements = create (new_settlement now transaction) w.settlements;
          ledgers = upsert_ledger transaction.property_id transaction.amount w.ledgers;
        },
      )
    ]

abbrev pub is_success : WebhookPayload → Bool
is_success webhook = same_lowercase webhook.status "success"

-- `normalizedStatus === 'usercancelled' ? 'CANCELLED' : 'FAILED'`
abbrev pub failure_status : WebhookPayload → GatewayTransactionStatus
failure_status webhook = if same_lowercase webhook.status "usercancelled" then cancelled else failed

unfoldable pub settle_success : ℕ → Transaction → WebhookPayload → Action CallbackResult
settle_success now transaction webhook = do
  modify (process_successful_payment now transaction webhook)
  add_settlement now transaction
  emit (
      payment_success transaction.property_id transaction.tenancy_id webhook.txnid
        transaction.amount)
  pure (answer (some success) true)

unfoldable pub record_failure : Transaction → WebhookPayload → Action CallbackResult
record_failure transaction webhook = do
  modify (
      update_transaction transaction.id
        (λ t. set_status (failure_status webhook) (some webhook.easepayid) t.payment_source t))
  emit (
      payment_failed transaction.property_id transaction.tenancy_id webhook.txnid
        transaction.amount)
  pure (answer (some (failure_status webhook)) true)

abbrev pub transaction_of : WebhookPayload → World → Option Transaction
transaction_of webhook w =
    find_first (λ (t : Transaction). str_eq t.txn_id webhook.txnid) w.transactions.rows

module _ (sha512 : String → String) where
  abbrev pub is_genuine : GatewayConfig → WebhookPayload → Bool
  is_genuine config webhook =
      verify_response_hash sha512 config.merchant_key config.merchant_salt webhook

  unfoldable pub handle_webhook : ℕ → WebhookPayload → Action CallbackResult
  handle_webhook now webhook w =
      if str_eq webhook.txnid ""
      then (ok (answer none false), w)
      else elim (transaction_of webhook w) [
        | none ↦ (ok (answer none false), w)
        | some transaction ↦
            if is_initiated transaction.status
            then elim (config_of transaction.property_id w) [
              | none ↦ (ok (answer (some failed) false), w)
              | some config ↦
                  if is_genuine config webhook
                  then (if is_success webhook
                      then settle_success now transaction webhook w
                      else record_failure transaction webhook w)
                  else (
                    ok (answer (some failed) false),
                    update_transaction transaction.id (λ t. record t { status = failed }) w,
                  )
            ]
            else (ok (answer (some transaction.status) true), w)
      ]
