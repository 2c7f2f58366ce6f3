-- ===== src/Payment/Webhook/Forged.antt =====
-- Webhooks whose signature does not fit.
use pg_master_backend.Prelude.{
  ℕ, String, ◌≡◌, refl, ap, ◌∙◌, ◌⊎◌, inl, inr, true, false, some, List, ◌∷◌, ◌==◌, arith,
}
use text.Mathlib.Text.{◌==◌ as str_eq}
use pg_master_backend.Store.Rows.{find_first-update}
use pg_master_backend.Store.Ids.{HasUniqueIds, HasUniqueIds-update, find_first_by_id}
use pg_master_backend.Store.Schema.{Transaction, GatewayConfig, failed, is_initiated}
use pg_master_backend.Store.World.{World}
use pg_master_backend.Easebuzz.{WebhookPayload, verify_response_hash}
use pg_master_backend.PaymentConfig.{config_of}
use pg_master_backend.Payment.Webhook.{
  transaction_of, is_genuine, is_success, update_transaction, record_failure, handle_webhook,
}
use pg_master_backend.Payment.Webhook.Steps.{
  Claims, WebhookStep, ignored, forged, unsuccessful, successful, handle_webhook-step,
}
use pg_master_backend.Payment.Webhook.Once.{by_id, deliver_all, deliver_all_final}

-- The books: dues, payments, settlements and ledgers.
pub record SameBooks (w w' : World) : Type 0 where
  pub dues : w'.dues ≡ w.dues
  pub due_payments : w'.due_payments ≡ w.due_payments
  pub settlements : w'.settlements ≡ w.settlements
  pub ledgers : w'.ledgers ≡ w.ledgers

pub record IsPayingWebhook (sha512 : String → String) (now : ℕ) (webhook : WebhookPayload)
    (w : World) : Type 0 where
  pub paid_for : Transaction
  pub claims : Claims sha512 now webhook w paid_for
  pub genuine :
      verify_response_hash sha512 claims.config.merchant_key claims.config.merchant_salt webhook
      ≡ true
  pub succeeded : is_success webhook ≡ true

step_books :
    (sha512 : String → String) (now : ℕ) (webhook : WebhookPayload) (w w' : World)
    → WebhookStep sha512 now webhook w w'
    → SameBooks w w' ⊎ IsPayingWebhook sha512 now webhook w
unfolding record_failure
step_books sha512 now webhook w w' (ignored same) =
    inl (rw same (record { dues = refl; due_payments = refl; settlements = refl; ledgers = refl }))
step_books sha512 now webhook w w' (forged t c bad done) =
    inl (rw done (record { dues = refl; due_payments = refl; settlements = refl; ledgers = refl }))
step_books sha512 now webhook w w' (unsuccessful t c good other done) =
    inl (rw done (record { dues = refl; due_payments = refl; settlements = refl; ledgers = refl }))
step_books sha512 now webhook w w' (successful t c good paid done) =
    inr (record { paid_for = t; claims = c; genuine = good; succeeded = paid })

-- A webhook leaves dues, payments, settlements and ledgers as they were, or it names an INITIATED
-- transaction whose property has a key at the gateway, its signature is the one made with that key,
-- and it says success.
pub handle_webhook_pays :
    (sha512 : String → String) (now : ℕ) (webhook : WebhookPayload) (w : World)
    → SameBooks w (handle_webhook sha512 now webhook w).1 ⊎ IsPayingWebhook sha512 now webhook w
handle_webhook_pays sha512 now webhook w =
    step_books sha512 now webhook w (handle_webhook sha512 now webhook w).1
      (handle_webhook-step sha512 now webhook w)

abbrev transaction_id : Transaction → ℕ
transaction_id t = t.id

module _ (sha512 : String → String) (now : ℕ) (webhook : WebhookPayload) (w : World)
    (t : Transaction) (config : GatewayConfig)
    (unique : HasUniqueIds (λ (x : Transaction). x.id) w.transactions.rows)
    (named : (str_eq webhook.txnid "" ≡ false) × (transaction_of webhook w ≡ some t))
    (fresh : is_initiated t.status ≡ true) (configured : config_of t.property_id w ≡ some config)
    (bad : is_genuine sha512 config webhook ≡ false) where
  forged_state :
      (handle_webhook sha512 now webhook w).1
      ≡ update_transaction t.id (λ s. record s { status = failed }) w
  unfolding handle_webhook
  forged_state = rw (named.0, named.1, fresh, configured, bad) refl

  failed_now :
      by_id t.id (update_transaction t.id (λ s. record s { status = failed }) w)
      ≡ some (record t { status = failed })
  failed_now =
      let found =
        find_first_by_id transaction_id (λ (x : Transaction). str_eq x.txn_id webhook.txnid)
          w.transactions.rows unique named.1 in
      ground (
        arith,
        find_first-update (λ (x : Transaction). x.id == t.id) (λ x. x.id == t.id)
            (λ s. record s { status = failed }) w.transactions.rows {a = t} (λ x. refl) found,
      )

  -- In a state where transactions have ids of their own, a webhook that names an INITIATED
  -- transaction but does not carry its property's signature ends that transaction: whatever webhooks
  -- follow, genuine successes among them, it stays FAILED.
  pub forged_webhook_blocks :
      (rest : List (ℕ × WebhookPayload))
      → by_id t.id (deliver_all sha512 ((now, webhook) ∷ rest) w)
        ≡ some (record t { status = failed })
  forged_webhook_blocks rest =
      let w' = update_transaction t.id (λ s. record s { status = failed }) w in
      let keep =
        HasUniqueIds-update transaction_id (λ (x : Transaction). x.id == t.id)
          (λ s. record s { status = failed }) (λ x. refl) w.transactions.rows unique in
      ap (λ v. by_id t.id (deliver_all sha512 rest v)) forged_state
      ∙ deliver_all_final sha512 rest t.id (record t { status = failed }) w' keep failed_now refl
