-- ===== src/Payment/Webhook/Once.antt =====
-- A transaction takes part in one webhook at most.
use pg_master_backend.Prelude.{
  ℕ, String, ◌≡◌, ◌≢◌, refl, ap, sym, subst, ◌∙◌, inl, inr, false, Option, some, List, [], ◌∷◌,
  ◌==◌, arith,
}
use text.Mathlib.Text.{◌==◌ as str_eq}
use pg_master_backend.Store.Rows.{find_first, update_many}
use pg_master_backend.Store.Ids.{
  HasUniqueIds, HasUniqueIds-update, find_first_by_id, find_first-update_other,
}
use pg_master_backend.Store.Schema.{Transaction, failed, is_initiated}
use pg_master_backend.Store.World.{World}
use pg_master_backend.Easebuzz.{WebhookPayload}
use pg_master_backend.Payment.Webhook.{
  set_status, failure_status, process_successful_payment, record_failure, handle_webhook,
}
use pg_master_backend.Payment.Webhook.Untouched.{PaysFor, process_successful_payment-PaysFor}
use pg_master_backend.Payment.Webhook.Steps.{
  Claims, WebhookStep, ignored, forged, unsuccessful, successful, handle_webhook-step,
  settle_success-outcome,
}

abbrev transaction_id : Transaction → ℕ
transaction_id t = t.id

abbrev pub by_id : ℕ → World → Option Transaction
by_id k w = find_first (λ (t : Transaction). t.id == k) w.transactions.rows

-- Ids stay unique, and what is known of a transaction that is closed stays true.
record Keeps (k : ℕ) (s : Transaction) (w' : World) : Type 0 where
  unique : HasUniqueIds transaction_id w'.transactions.rows
  still : by_id k w' ≡ some s

module _ (k : ℕ) (s : Transaction) (w : World)
    (unique : HasUniqueIds transaction_id w.transactions.rows) (at : by_id k w ≡ some s)
    (closed : is_initiated s.status ≡ false) where
  -- The transaction that a webhook claims is another one.
  claimed_is_other :
      {sha512 : String → String} {now : ℕ} {webhook : WebhookPayload} {t : Transaction}
      → Claims sha512 now webhook w t
      → k ≢ t.id
  claimed_is_other {webhook = webhook} {t = t} c = λ same.
      let found =
        find_first_by_id transaction_id (λ (x : Transaction). str_eq x.txn_id webhook.txnid)
          w.transactions.rows unique c.named in
      let e : some s ≡ some t = sym at ∙ subst (λ j. by_id j w ≡ some t) (sym same) found in
      ground (arith, e, c.fresh)

  update_other-Keeps :
      (w' : World) (j : ℕ) (f : Transaction → Transaction)
      → ((x : Transaction) → (f x).id ≡ x.id)
      → k ≢ j
      → w'.transactions.rows ≡ update_many (λ (x : Transaction). x.id == j) f w.transactions.rows
      → Keeps k s w'
  update_other-Keeps w' j f keeps ne rows = record {
    unique = rw rows (
        HasUniqueIds-update transaction_id (λ (x : Transaction). x.id == j) f keeps
          w.transactions.rows unique);
    still =
        rw rows (find_first-update_other transaction_id k j f w.transactions.rows keeps ne ∙ at);
  }

  PaysFor-Keeps : (w' : World) (j : ℕ) → k ≢ j → PaysFor j w w' → Keeps k s w'
  PaysFor-Keeps w' j ne pays = elim pays.transactions [
    | inl same ↦ record { unique = rw same unique; still = rw same at }
    | inr (f, keeps, rows) ↦ update_other-Keeps w' j f keeps ne (ap (λ t. t.rows) rows)
  ]

  webhook_Keeps :
      (sha512 : String → String) (now : ℕ) (webhook : WebhookPayload) (w' : World)
      → WebhookStep sha512 now webhook w w'
      → Keeps k s w'
  unfolding record_failure
  webhook_Keeps sha512 now webhook w' (ignored same) =
      rw same (record { unique = unique; still = at })
  webhook_Keeps sha512 now webhook w' (forged t c bad done) =
      update_other-Keeps w' t.id (λ x. record x { status = failed }) (λ x. refl)
        (claimed_is_other c) (ap (λ v. v.transactions.rows) done)
  webhook_Keeps sha512 now webhook w' (unsuccessful t c good no_success done) =
      update_other-Keeps w' t.id
        (λ x. set_status (failure_status webhook) (some webhook.easepayid) x.payment_source x)
        (λ x. refl) (claimed_is_other c) (ap (λ v. v.transactions.rows) done)
  webhook_Keeps sha512 now webhook w' (successful t c good is_success done) =
      let ne = claimed_is_other c in
      let paid =
        PaysFor-Keeps (process_successful_payment now t webhook w) t.id ne
          (process_successful_payment-PaysFor now t webhook w) in
      elim (settle_success-outcome now t webhook w) [
        | inl old ↦ rw (done ∙ old) paid
        | inr (new, added) ↦ rw (done ∙ added) (record { unique = paid.unique; still = paid.still })
      ]

-- Webhooks one after the other, with the time at which each comes.
abbrev pub deliver_all : (String → String) → List (ℕ × WebhookPayload) → World → World
deliver_all sha512 [] w = w
deliver_all sha512 ((now, webhook) ∷ rest) w =
    deliver_all sha512 rest (handle_webhook sha512 now webhook w).1

-- Where transactions have ids of their own, a transaction that is not INITIATED is the same after
-- any webhooks, genuine or not: no second success, failure or cancellation of it is recorded.
pub deliver_all_final :
    (sha512 : String → String) (webhooks : List (ℕ × WebhookPayload)) (k : ℕ) (s : Transaction)
    (w : World)
    → HasUniqueIds (λ (t : Transaction). t.id) w.transactions.rows
    → by_id k w ≡ some s
    → is_initiated s.status ≡ false
    → by_id k (deliver_all sha512 webhooks w) ≡ some s
deliver_all_final sha512 [] k s w unique at closed = at
deliver_all_final sha512 ((now, webhook) ∷ rest) k s w unique at closed =
    let next = (handle_webhook sha512 now webhook w).1 in
    let kept =
      webhook_Keeps k s w unique at closed sha512 now webhook next
        (handle_webhook-step sha512 now webhook w) in
    deliver_all_final sha512 rest k s next kept.unique kept.still closed
