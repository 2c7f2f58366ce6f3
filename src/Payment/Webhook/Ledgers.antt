-- ===== src/Payment/Webhook/Ledgers.antt =====
-- The ledgers of the properties against the settlements.
use pg_master_backend.Prelude.{
  ℕ, String, ◌+◌, ◌≡◌, inl, inr, Bool, true, false, ◌&&◌, List, [], ◌∷◌, ◌==◌, if◌then◌else◌, arith,
  Bool-cases, sum_by, sum_by-append,
}
use pg_master_backend.Store.Schema.{SettlementStatus, settled, Settlement, Ledger, Transaction}
use pg_master_backend.Store.World.{World}
use pg_master_backend.Easebuzz.{WebhookPayload}
use pg_master_backend.Payment.Webhook.{
  new_settlement, upsert_ledger, process_successful_payment, settle_success, record_failure,
  handle_webhook,
}
use pg_master_backend.Payment.Webhook.Untouched.{PaysFor, process_successful_payment-PaysFor}
use pg_master_backend.Payment.Webhook.Steps.{
  WebhookStep, ignored, forged, unsuccessful, successful, handle_webhook-step,
  settle_success-outcome,
}
use pg_master_backend.Payment.Webhook.Once.{deliver_all}

abbrev is_pending : SettlementStatus → Bool
is_pending settled = false
is_pending _ = true

-- What a property's ledger says is still to be settled.
abbrev pub pending_in_ledger : ℕ → World → ℕ
pending_in_ledger p w =
    sum_by (λ (l : Ledger). if l.property_id == p then l.pending_settlement_amount else 0) w.ledgers

-- The gross amounts of its settlements that are PENDING.
abbrev pub pending_settlements : ℕ → World → ℕ
pending_settlements p w =
    sum_by
      (λ (s : Settlement). if s.property_id == p && is_pending s.status then s.gross_amount else 0)
      w.settlements.rows

upsert_ledger_lem :
    (p property_id amount : ℕ) (ls : List Ledger)
    → sum_by
        (λ (l : Ledger). if l.property_id == p then l.pending_settlement_amount else 0)
        (upsert_ledger property_id amount ls)
      ≡ sum_by (λ (l : Ledger). if l.property_id == p then l.pending_settlement_amount else 0) ls
        + (if property_id == p then amount else 0)
unfolding upsert_ledger
upsert_ledger_lem p property_id amount [] = ground arith
upsert_ledger_lem p property_id amount (l ∷ ls) = elim (Bool-cases (l.property_id == property_id)) [
  | inl its ↦ rw its (ground arith)
  | inr other ↦ rw other (ground (arith, upsert_ledger_lem p property_id amount ls))
]

-- The ledgers agree with the settlements, property by property.
abbrev pub LedgersAgree : World → Type 0
LedgersAgree w = (p : ℕ) → pending_in_ledger p w ≡ pending_settlements p w

PaysFor-LedgersAgree : (id : ℕ) (w w' : World) → PaysFor id w w' → LedgersAgree w → LedgersAgree w'
PaysFor-LedgersAgree id w w' pays agree = λ p. rw (pays.ledgers, pays.settlements) (agree p)

settle_success-LedgersAgree :
    (now : ℕ) (t : Transaction) (webhook : WebhookPayload) (w : World)
    → LedgersAgree w
    → LedgersAgree (settle_success now t webhook w).1
settle_success-LedgersAgree now t webhook w agree =
    let w' = process_successful_payment now t webhook w in
    let paid =
      PaysFor-LedgersAgree t.id w w' (process_successful_payment-PaysFor now t webhook w) agree in
    elim (settle_success-outcome now t webhook w) [
      | inl old ↦ rw old paid
      | inr (new, added) ↦ λ p. rw added (
          ground (
            arith,
            paid p,
            upsert_ledger_lem p t.property_id t.amount w'.ledgers,
            sum_by-append
                (λ (s : Settlement).
                  if s.property_id == p && is_pending s.status then s.gross_amount else 0)
                w'.settlements.rows (new_settlement now t w'.settlements.next_id ∷ []),
          ))
    ]

handle_webhook-LedgersAgree :
    (sha512 : String → String) (now : ℕ) (webhook : WebhookPayload) (w w' : World)
    → WebhookStep sha512 now webhook w w'
    → LedgersAgree w
    → LedgersAgree w'
unfolding record_failure
handle_webhook-LedgersAgree sha512 now webhook w w' (ignored same) agree = rw same agree
handle_webhook-LedgersAgree sha512 now webhook w w' (forged t c bad done) agree = rw done agree
handle_webhook-LedgersAgree sha512 now webhook w w' (unsuccessful t c good other done) agree =
    rw done agree
handle_webhook-LedgersAgree sha512 now webhook w w' (successful t c good paid done) agree =
    rw done (settle_success-LedgersAgree now t webhook w agree)

-- If every property's ledger shows as pending the gross amounts of its PENDING settlements, it
-- still does after any webhooks.
pub deliver_all-LedgersAgree :
    (sha512 : String → String) (webhooks : List (ℕ × WebhookPayload)) (w : World)
    → ((p : ℕ) → pending_in_ledger p w ≡ pending_settlements p w)
    → (p : ℕ)
    → pending_in_ledger p (deliver_all sha512 webhooks w)
      ≡ pending_settlements p (deliver_all sha512 webhooks w)
deliver_all-LedgersAgree sha512 [] w agree p = agree p
deliver_all-LedgersAgree sha512 ((now, webhook) ∷ rest) w agree p =
    deliver_all-LedgersAgree sha512 rest (handle_webhook sha512 now webhook w).1
      (handle_webhook-LedgersAgree sha512 now webhook w (handle_webhook sha512 now webhook w).1
        (handle_webhook-step sha512 now webhook w) agree)
      p
