-- ===== src/Payment/Webhook/Success.antt =====
-- A successful webhook, from its signature to the books.
use pg_master_backend.Prelude.{
  ℕ, String, ◌+◌, ◌-◌, ◌≡◌, refl, ap, inl, inr, true, false, none, some, List, [], ◌∷◌, ◌==◌, All,
  Option-cases,
}
use text.Mathlib.Text.{◌==◌ as str_eq}
use pg_master_backend.Store.Rows.{find_first, find_many}
use pg_master_backend.Store.Ids.{HasUniqueIds, find_first_own_id}
use pg_master_backend.Store.Schema.{Due, Transaction, TransactionDue, is_paid}
use pg_master_backend.Store.World.{World}
use pg_master_backend.Proration.{now_ist}
use pg_master_backend.Due.Invariant.{IsConsistent, outstanding, collected}
use pg_master_backend.Easebuzz.{WebhookPayload}
use pg_master_backend.Payment.Webhook.{
  is_genuine, is_success, with_dues, dues_of, pay_dues, pay_transaction_dues,
  process_single_due_payment, process_multi_due_payment, pay_by_kind, process_successful_payment,
  settle_success, handle_webhook,
}
use pg_master_backend.Payment.Webhook.Untouched.{pay_transaction_dues_lem}
use pg_master_backend.Payment.Webhook.Steps.{Claims, settle_success-outcome}
use pg_master_backend.Payment.Webhook.Dues.{
  IsPaidInto, IsCovered, paid_in_all, pay_dues_conserves, pay_due_excess,
}

-- The dues that belong to a transaction are read with the rows that stand in the table.
with_dues_stored :
    (dues : List Due) (tds : List TransactionDue)
    → All
        (λ (p : TransactionDue × Due). find_first (λ (d : Due). d.id == p.1.id) dues ≡ some p.1)
        (with_dues dues tds)
unfolding with_dues
with_dues_stored dues [] = tt
with_dues_stored dues (td ∷ rest) =
    elim (Option-cases (find_first (λ (d : Due). d.id == td.due_id) dues)) [
      | inl missing ↦ rw (with_dues, missing) (with_dues_stored dues rest)
      | inr (due, found) ↦
          rw (with_dues, found)
            (find_first_own_id (λ (d : Due). d.id) td.due_id dues found, with_dues_stored dues rest)
    ]

-- Only the dues and their payments matter to the books.
same_books :
    (amount : ℕ) (w v v' : World)
    → v'.dues ≡ v.dues
    → v'.due_payments ≡ v.due_payments
    → IsPaidInto amount w v
    → IsPaidInto amount w v'
same_books amount w v v' dues payments paid = record {
  consistent = record {
    balanced = rw dues paid.consistent.balanced;
    dues_keyed = rw dues paid.consistent.dues_keyed;
    payments_keyed = rw payments paid.consistent.payments_keyed;
  };
  conserved = rw (dues, payments) paid.conserved;
  grown = rw payments paid.grown;
}

pay_transaction_dues_paid :
    (now : ℕ) (t : Transaction) (webhook : WebhookPayload) (pairs : List (TransactionDue × Due))
    (w : World)
    → IsPaidInto (paid_in_all pairs) w (pay_dues (now_ist now) webhook pairs w)
    → IsPaidInto (paid_in_all pairs) w (pay_transaction_dues now t webhook pairs w)
unfolding pay_transaction_dues pay_dues
pay_transaction_dues_paid now t webhook [] w paid = paid
pay_transaction_dues_paid now t webhook (p ∷ ps) w paid =
    let done = (pay_transaction_dues_lem now t webhook p ps w).1 in
    same_books (paid_in_all (p ∷ ps)) w (pay_dues (now_ist now) webhook (p ∷ ps) w)
      (pay_transaction_dues now t webhook (p ∷ ps) w) (ap (λ v. v.dues) done)
      (ap (λ v. v.due_payments) done) paid

settle_success_paid :
    (amount now : ℕ) (t : Transaction) (webhook : WebhookPayload) (w : World)
    → IsPaidInto amount w (process_successful_payment now t webhook w)
    → IsPaidInto amount w (settle_success now t webhook w).1
settle_success_paid amount now t webhook w paid =
    let w' = process_successful_payment now t webhook w in
    elim (settle_success-outcome now t webhook w) [
      | inl old ↦ rw old paid
      | inr (new, added) ↦
          same_books amount w w' (settle_success now t webhook w).1 (ap (λ v. v.dues) added)
            (ap (λ v. v.due_payments) added) paid
    ]

-- A webhook that names an INITIATED transaction, is signed with its property's key, and says success.
pub record IsSuccessFor (sha512 : String → String) (now : ℕ) (webhook : WebhookPayload) (w : World)
    (t : Transaction) : Type 0 where
  pub named : str_eq webhook.txnid "" ≡ false
  pub claims : Claims sha512 now webhook w t
  pub genuine : is_genuine sha512 claims.config webhook ≡ true
  pub succeeded : is_success webhook ≡ true

module _ (sha512 : String → String) (now : ℕ) (webhook : WebhookPayload) (w : World)
    (t : Transaction) (s : IsSuccessFor sha512 now webhook w t) (ok_w : IsConsistent w) where
  success_state : (handle_webhook sha512 now webhook w).1 ≡ (settle_success now t webhook w).1
  unfolding handle_webhook
  success_state =
      rw (s.named, s.claims.named, s.claims.fresh, s.claims.configured, s.genuine, s.succeeded) refl

  several_state :
      t.due_id ≡ none
      → process_successful_payment now t webhook w
        ≡ pay_transaction_dues now t webhook (dues_of t w) w
  unfolding process_successful_payment pay_by_kind process_multi_due_payment
  several_state several = ap (λ o. pay_by_kind now t o webhook w) several

  -- From a consistent state, the success of a transaction for several dues whose rows name different
  -- dues, each with a positive amount within the due's balance: the state stays consistent, what is
  -- owed and what was collected add up to the same, and what was collected grows by the amounts of
  -- the rows whose due was not PAID.
  pub webhook_success_conserves :
      t.due_id ≡ none
      → HasUniqueIds (λ (p : TransactionDue × Due). p.1.id) (dues_of t w)
      → All IsCovered (dues_of t w)
      → IsPaidInto (paid_in_all (dues_of t w)) w (handle_webhook sha512 now webhook w).1
  webhook_success_conserves several unique covered =
      let paid = pay_transaction_dues_paid now t webhook (dues_of t w) w (
        pay_dues_conserves (now_ist now) webhook (dues_of t w) w ok_w unique
          (with_dues_stored w.dues.rows (
            find_many (λ (td : TransactionDue). td.transaction_id == t.id) w.transaction_dues.rows))
          covered) in
      rw success_state (
        settle_success_paid (paid_in_all (dues_of t w)) now t webhook w
          (rw (several_state several) paid))

  module _ (due_id : ℕ) (due : Due) (one : t.due_id ≡ some due_id)
      (found : find_first (λ (d : Due). d.id == due_id) w.dues.rows ≡ some due)
      (open_due : is_paid due.status ≡ false) where
    single_books :
        outstanding (process_single_due_payment now t due_id webhook w)
          + collected (process_single_due_payment now t due_id webhook w)
        ≡ outstanding w + collected w + (t.amount - due.balance_amount)
    unfolding process_single_due_payment
    single_books =
        rw (process_single_due_payment, found, open_due)
          (pay_due_excess now webhook t.amount due w ok_w
            (find_first_own_id (λ (d : Due). d.id) due_id w.dues.rows found))

    single_state :
        process_successful_payment now t webhook w
        ≡ process_single_due_payment now t due_id webhook w
    unfolding process_successful_payment pay_by_kind
    single_state = ap (λ o. pay_by_kind now t o webhook w) one

    -- From a consistent state, the success of a transaction for one due that is not PAID: what is owed
    -- and what was collected, added up, grow by what the transaction's amount exceeds the balance by,
    -- and not at all where the balance covers it.
    pub webhook_success_excess :
        outstanding (handle_webhook sha512 now webhook w).1
          + collected (handle_webhook sha512 now webhook w).1
        ≡ outstanding w + collected w + (t.amount - due.balance_amount)
    webhook_success_excess =
        let w' = process_successful_payment now t webhook w in
        let books : outstanding w' + collected w'
            ≡ outstanding w + collected w + (t.amount - due.balance_amount) =
          rw single_state single_books in
        elim (settle_success-outcome now t webhook w) [
          | inl old ↦ rw (success_state, old) books
          | inr (new, added) ↦ rw (success_state, added) books
        ]
