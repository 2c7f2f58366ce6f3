-- ===== src/Payment/Webhook/Untouched.antt =====
-- What the parts of `handleWebhook` leave alone.
use pg_master_backend.Prelude.{
  ℕ, ◌≡◌, refl, ap, ◌⊎◌, inl, inr, Option, none, some, List, [], ◌∷◌, ◌++◌, ◌==◌, arith,
  Option-cases, Bool-cases,
}
use pg_master_backend.Proration.{now_ist}
use pg_master_backend.Store.Rows.{find_first, update_rows}
use pg_master_backend.Store.Schema.{Due, Transaction, TransactionDue, success, is_paid}
use pg_master_backend.Store.World.{World, Event, due_payment_collected}
use pg_master_backend.Easebuzz.{WebhookPayload}
use pg_master_backend.Payment.Webhook.{
  pay_due, pay_dues, emit_collected, set_status, update_transaction, process_single_due_payment,
  process_multi_due_payment, process_successful_payment, pay_transaction_dues, dues_of, pay_by_kind,
}

-- The tables that paying dues does not touch.
pub record KeepsRest (w w' : World) : Type 0 where
  pub transactions : w'.transactions ≡ w.transactions
  pub transaction_dues : w'.transaction_dues ≡ w.transaction_dues
  pub settlements : w'.settlements ≡ w.settlements
  pub ledgers : w'.ledgers ≡ w.ledgers
  pub gateway_configs : w'.gateway_configs ≡ w.gateway_configs

pub pay_dues-KeepsRest :
    (paid_at : ℕ) (webhook : WebhookPayload) (pairs : List (TransactionDue × Due)) (w : World)
    → KeepsRest w (pay_dues paid_at webhook pairs w)
unfolding pay_dues
pay_dues-KeepsRest paid_at webhook [] w = ground arith
pay_dues-KeepsRest paid_at webhook ((td, due) ∷ rest) w = elim (Bool-cases (is_paid due.status)) [
  | inl done ↦ rw done (pay_dues-KeepsRest paid_at webhook rest w)
  | inr open_due ↦
      let k = pay_dues-KeepsRest paid_at webhook rest (pay_due paid_at webhook td.amount due w) in
      rw open_due (record {
        transactions = k.transactions;
        transaction_dues = k.transaction_dues;
        settlements = k.settlements;
        ledgers = k.ledgers;
        gateway_configs = k.gateway_configs;
      })
]

-- What a payment does to the tables that it is not about: the transactions keep their rows, or
-- only the transaction paid is changed.
pub record PaysFor (id : ℕ) (w w' : World) : Type 0 where
  pub transactions :
      (w'.transactions ≡ w.transactions)
      ⊎ ((f : Transaction → Transaction) × ((s : Transaction) → (f s).id ≡ s.id)
          × (w'.transactions ≡ update_rows (λ (s : Transaction). s.id == id) f w.transactions))
  pub settlements : w'.settlements ≡ w.settlements
  pub ledgers : w'.ledgers ≡ w.ledgers

emit_collected_lem :
    (pairs : List (TransactionDue × Due)) (w : World)
    → (events : List Event) × (emit_collected pairs w ≡ record w { events = events })
unfolding emit_collected
emit_collected_lem [] w = (w.events, refl)
emit_collected_lem ((td, due) ∷ rest) w = elim (Bool-cases (is_paid due.status)) [
  | inl done ↦ rw done (emit_collected_lem rest w)
  | inr open_due ↦ rw open_due (
      emit_collected_lem rest (record w {
        events =
            w.events
            ++ due_payment_collected due.id due.property_id due.due_type td.amount due.month
                due.year
              ∷ [];
      }))
]

-- The payment of several dues: the dues are paid one by one and the transaction is closed.
pub pay_transaction_dues_lem :
    (now : ℕ) (t : Transaction) (webhook : WebhookPayload) (p : TransactionDue × Due)
    (ps : List (TransactionDue × Due)) (w : World)
    → (events : List Event) × (pay_transaction_dues now t webhook (p ∷ ps) w
        ≡ record (update_transaction t.id
            (set_status success (some webhook.easepayid) webhook.payment_source)
            (pay_dues (now_ist now) webhook (p ∷ ps) w)) { events = events })
unfolding pay_transaction_dues
pay_transaction_dues_lem now t webhook p ps w = emit_collected_lem (p ∷ ps) (
    update_transaction t.id (set_status success (some webhook.easepayid) webhook.payment_source)
      (pay_dues (now_ist now) webhook (p ∷ ps) w))

pay_transaction_dues-PaysFor :
    (now : ℕ) (t : Transaction) (webhook : WebhookPayload) (pairs : List (TransactionDue × Due))
    (w : World)
    → PaysFor t.id w (pay_transaction_dues now t webhook pairs w)
unfolding pay_transaction_dues
pay_transaction_dues-PaysFor now t webhook [] w = record {
  transactions = inl refl;
  settlements = refl;
  ledgers = refl;
}
pay_transaction_dues-PaysFor now t webhook (p ∷ ps) w =
    let k = pay_dues-KeepsRest (now_ist now) webhook (p ∷ ps) w in
    let close = set_status success (some webhook.easepayid) webhook.payment_source in
    rw (pay_transaction_dues_lem now t webhook p ps w).1 (record {
      transactions = inr (
        close,
        (λ s. refl),
        ap (update_rows (λ (s : Transaction). s.id == t.id) close) k.transactions,
      );
      settlements = k.settlements;
      ledgers = k.ledgers;
    })

process_single_due_payment-PaysFor :
    (now : ℕ) (t : Transaction) (due_id : ℕ) (webhook : WebhookPayload) (w : World)
    → PaysFor t.id w (process_single_due_payment now t due_id webhook w)
unfolding process_single_due_payment
process_single_due_payment-PaysFor now t due_id webhook w =
    elim (Option-cases (find_first (λ (d : Due). d.id == due_id) w.dues.rows)) [
      | inl missing ↦
          rw (process_single_due_payment, missing)
            (record { transactions = inl refl; settlements = refl; ledgers = refl })
      | inr (due, found) ↦ elim (Bool-cases (is_paid due.status)) [
        | inl done ↦
            rw (process_single_due_payment, found, done)
              (record {
                transactions = inr (
                  (λ s. set_status success (some webhook.easepayid) s.payment_source s),
                  (λ s. refl),
                  refl,
                );
                settlements = refl;
                ledgers = refl;
              })
        | inr open_due ↦
            rw (process_single_due_payment, found, open_due)
              (record {
                transactions = inr (
                  set_status success (some webhook.easepayid) webhook.payment_source,
                  (λ s. refl),
                  refl,
                );
                settlements = refl;
                ledgers = refl;
              })
      ]
    ]

pub pay_by_kind-PaysFor :
    (now : ℕ) (t : Transaction) (due_id : Option ℕ) (webhook : WebhookPayload) (w : World)
    → PaysFor t.id w (pay_by_kind now t due_id webhook w)
unfolding pay_by_kind process_multi_due_payment
pay_by_kind-PaysFor now t none webhook w =
    pay_transaction_dues-PaysFor now t webhook (dues_of t w) w
pay_by_kind-PaysFor now t (some due_id) webhook w =
    process_single_due_payment-PaysFor now t due_id webhook w

pub process_successful_payment-PaysFor :
    (now : ℕ) (t : Transaction) (webhook : WebhookPayload) (w : World)
    → PaysFor t.id w (process_successful_payment now t webhook w)
unfolding process_successful_payment
process_successful_payment-PaysFor now t webhook w = pay_by_kind-PaysFor now t t.due_id webhook w
