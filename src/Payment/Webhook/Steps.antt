-- ===== src/Payment/Webhook/Steps.antt =====
-- What one webhook can do to the state.
use pg_master_backend.Prelude.{
  ℕ, String, ◌≡◌, refl, ◌⊎◌, inl, inr, true, false, none, some, [], ◌∷◌, ◌++◌, Option-cases,
  Bool-cases,
}
use text.Mathlib.Text.{◌==◌ as str_eq}
use pg_master_backend.Store.Rows.{find_first, create}
use pg_master_backend.Store.Schema.{Transaction, GatewayConfig, failed, is_initiated}
use pg_master_backend.Store.World.{World, ok, err, duplicate_key, payment_success}
use pg_master_backend.Easebuzz.{WebhookPayload}
use pg_master_backend.PaymentConfig.{config_of}
use pg_master_backend.Payment.Webhook.{
  transaction_of, is_genuine, is_success, update_transaction, process_successful_payment,
  settle_success, add_settlement, new_settlement, upsert_ledger, is_settlement_of, record_failure,
  handle_webhook,
}

module _ (sha512 : String → String) (now : ℕ) (webhook : WebhookPayload) where
  -- A webhook that is looked at: the transaction it names, still INITIATED, and its key.
  pub record Claims (w : World) (t : Transaction) : Type 0 where
    pub named : transaction_of webhook w ≡ some t
    pub fresh : is_initiated t.status ≡ true
    pub config : GatewayConfig
    pub configured : config_of t.property_id w ≡ some config

  -- The kinds of change, by the state that follows.
  pub data WebhookStep (w w' : World) : Type 0 where
    ignored : w' ≡ w → WebhookStep w w'
    forged :
        (t : Transaction) (c : Claims w t)
        → is_genuine sha512 c.config webhook ≡ false
        → w' ≡ update_transaction t.id (λ s. record s { status = failed }) w
        → WebhookStep w w'
    unsuccessful :
        (t : Transaction) (c : Claims w t)
        → is_genuine sha512 c.config webhook ≡ true
        → is_success webhook ≡ false
        → w' ≡ (record_failure t webhook w).1
        → WebhookStep w w'
    successful :
        (t : Transaction) (c : Claims w t)
        → is_genuine sha512 c.config webhook ≡ true
        → is_success webhook ≡ true
        → w' ≡ (settle_success now t webhook w).1
        → WebhookStep w w'

  pub handle_webhook-step : (w : World) → WebhookStep w (handle_webhook sha512 now webhook w).1
  unfolding handle_webhook
  handle_webhook-step w = elim (Bool-cases (str_eq webhook.txnid "")) [
    | inl empty ↦ ignored (rw empty refl)
    | inr named ↦ elim (Option-cases (transaction_of webhook w)) [
      | inl unknown ↦ ignored (rw (named, unknown) refl)
      | inr (t, found) ↦ elim (Bool-cases (is_initiated t.status)) [
        | inr done ↦ ignored (rw (named, found, done) refl)
        | inl fresh ↦ elim (Option-cases (config_of t.property_id w)) [
          | inl missing ↦ ignored (rw (named, found, fresh, missing) refl)
          | inr (config, configured) ↦
              let c : Claims w t = record {
                named = found;
                fresh = fresh;
                config = config;
                configured = configured;
              } in
              elim (Bool-cases (is_genuine sha512 config webhook)) [
                | inr bad ↦ forged t c bad (rw (named, found, fresh, configured, bad) refl)
                | inl good ↦ elim (Bool-cases (is_success webhook)) [
                  | inr other ↦
                      unsuccessful t c good other
                        (rw (named, found, fresh, configured, good, other) refl)
                  | inl paid ↦
                      successful t c good paid
                        (rw (named, found, fresh, configured, good, paid) refl)
                ]
              ]
        ]
      ]
    ]
  ]

abbrev with_settlement : ℕ → Transaction → World → World
with_settlement now t w = record w {
  settlements = create (new_settlement now t) w.settlements;
  ledgers = upsert_ledger t.property_id t.amount w.ledgers;
}

add_settlement-outcome :
    (now : ℕ) (t : Transaction) (w : World)
    → (add_settlement now t w ≡ (err duplicate_key, w))
      ⊎ ((find_first (is_settlement_of t) w.settlements.rows ≡ none)
          × (add_settlement now t w ≡ (ok tt, with_settlement now t w)))
unfolding add_settlement
add_settlement-outcome now t w =
    elim (Option-cases (find_first (is_settlement_of t) w.settlements.rows)) [
      | inl new ↦ inr (new, rw (add_settlement, new) refl)
      | inr (s, old) ↦ inl (rw (add_settlement, old) refl)
    ]

-- A success pays first; then the settlement is added and the event emitted, or the unique keys of
-- the settlements make it throw.
pub settle_success-outcome :
    (now : ℕ) (t : Transaction) (webhook : WebhookPayload) (w : World)
    → let w' = process_successful_payment now t webhook w in
      ((settle_success now t webhook w).1 ≡ w')
      ⊎ ((find_first (is_settlement_of t) w'.settlements.rows ≡ none)
          × ((settle_success now t webhook w).1 ≡ record (with_settlement now t w') {
            events =
                w'.events ++ payment_success t.property_id t.tenancy_id webhook.txnid t.amount ∷ [];
          }))
unfolding settle_success
settle_success-outcome now t webhook w =
    elim (add_settlement-outcome now t (process_successful_payment now t webhook w)) [
      | inl old ↦ inl (rw old refl)
      | inr (new, done) ↦ inr (new, rw done refl)
    ]
