-- ===== src/Payment/Webhook/Dues.antt =====
-- What a payment does to the dues and to the payments recorded for them.
use pg_master_backend.Prelude.{
  ℕ, ◌+◌, ◌-◌, ◌≤◌, ◌<◌, ◌≡◌, ◌≢◌, refl, ◌∙◌, inl, inr, some, List, [], ◌∷◌, ◌==◌, arith, All,
  sum_by, sum_by-append, if◌then◌else◌, Bool-cases,
}
use pg_master_backend.Store.Rows.{find_first, find_first-All}
use pg_master_backend.Store.Ids.{
  HasUniqueIds, IsKeyed-update_rows, IsKeyed-create, sum_by-update_id, All-update_id,
  find_first-update_other,
}
use pg_master_backend.Store.Schema.{Due, DuePayment, TransactionDue, is_paid}
use pg_master_backend.Store.World.{World}
use pg_master_backend.Due.{set_collected}
use pg_master_backend.Due.Invariant.{
  IsBalanced, IsConsistent, collected_due-IsBalanced, outstanding, collected,
}
use pg_master_backend.Easebuzz.{WebhookPayload}
use pg_master_backend.Payment.Webhook.{tenent_of, gateway_payment, pay_due, pay_dues}

abbrev due_id : Due → ℕ
due_id d = d.id

-- The due with its id in the table.
abbrev IsStored : Due → World → Type 0
IsStored due w = find_first (λ (d : Due). d.id == due.id) w.dues.rows ≡ some due

-- The books after payments of `amount`: still consistent, what is owed and what was collected add
-- up to the same, and what was collected grows by the amount.
pub record IsPaidInto (amount : ℕ) (w w' : World) : Type 0 where
  pub consistent : IsConsistent w'
  pub conserved : outstanding w' + collected w' ≡ outstanding w + collected w
  pub grown : collected w' ≡ collected w + amount

-- Payments that fit: each of something, and of no more than its due's balance.
abbrev pub IsCovered : TransactionDue × Due → Type 0
IsCovered p = (0 < p.0.amount) × (p.0.amount ≤ p.1.balance_amount)

abbrev pub paid_in_all : List (TransactionDue × Due) → ℕ
paid_in_all pairs = sum_by (λ p. if is_paid p.1.status then 0 else p.0.amount) pairs

module _ (paid_at : ℕ) (webhook : WebhookPayload) where
  -- One due: what is owed and what was collected, together, grow by what exceeds the balance.
  pub pay_due_excess :
      (amount : ℕ) (due : Due) (w : World)
      → IsConsistent w
      → IsStored due w
      → outstanding (pay_due paid_at webhook amount due w)
          + collected (pay_due paid_at webhook amount due w)
        ≡ outstanding w + collected w + (amount - due.balance_amount)
  pay_due_excess amount due w ok_w stored = omega (
    arith,
    sum_by-update_id due_id (λ (d : Due). d.balance_amount) due.id (set_collected amount due)
        w.dues.rows ok_w.dues_keyed.0 stored,
    sum_by-append (λ (p : DuePayment). p.amount) w.due_payments.rows
        (gateway_payment paid_at webhook amount (tenent_of due.tenancy_id w) due
            w.due_payments.next_id
          ∷ []),
  )

  collected-pay_due :
      (amount : ℕ) (due : Due) (w : World)
      → collected (pay_due paid_at webhook amount due w) ≡ collected w + amount
  collected-pay_due amount due w = omega (
    arith,
    sum_by-append (λ (p : DuePayment). p.amount) w.due_payments.rows
        (gateway_payment paid_at webhook amount (tenent_of due.tenancy_id w) due
            w.due_payments.next_id
          ∷ []),
  )

  pub pay_due-IsConsistent :
      (amount : ℕ) (due : Due) (w : World)
      → IsConsistent w
      → IsStored due w
      → 0 < amount
      → amount ≤ due.balance_amount
      → IsConsistent (pay_due paid_at webhook amount due w)
  pay_due-IsConsistent amount due w ok_w stored low high = record {
    balanced =
        All-update_id due_id IsBalanced due.id (set_collected amount due) w.dues.rows
          ok_w.dues_keyed.0 stored
          (collected_due-IsBalanced amount due low high (
            find_first-All IsBalanced (λ (d : Due). d.id == due.id) w.dues.rows ok_w.balanced
              stored))
          ok_w.balanced;
    dues_keyed =
        IsKeyed-update_rows due_id (λ d. d.id == due.id) (set_collected amount due) (λ d. refl)
          w.dues ok_w.dues_keyed;
    payments_keyed =
        IsKeyed-create (λ (p : DuePayment). p.id)
          (gateway_payment paid_at webhook amount (tenent_of due.tenancy_id w) due) (λ i. refl)
          w.due_payments ok_w.payments_keyed;
  }

  pub pay_due_other :
      (amount : ℕ) (due other : Due) (w : World)
      → other.id ≢ due.id
      → IsStored other w
      → IsStored other (pay_due paid_at webhook amount due w)
  pay_due_other amount due other w ne stored =
      find_first-update_other due_id other.id due.id (set_collected amount due) w.dues.rows
        (λ d. refl) ne
      ∙ stored

  others-IsStored :
      (amount : ℕ) (due : Due) (pairs : List (TransactionDue × Due)) (w : World)
      → All (λ (p : TransactionDue × Due). p.1.id ≢ due.id) pairs
      → All (λ (p : TransactionDue × Due). IsStored p.1 w) pairs
      → All
          (λ (p : TransactionDue × Due). IsStored p.1 (pay_due paid_at webhook amount due w))
          pairs
  others-IsStored amount due [] w apart stored = tt
  others-IsStored amount due (p ∷ ps) w apart stored = (
    pay_due_other amount due p.1 w apart.0 stored.0,
    others-IsStored amount due ps w apart.1 stored.1,
  )

  -- The loop over several dues, read before it starts from a consistent state, all different, each
  -- payment positive and within its due's balance: the state stays consistent, what is owed and what
  -- was collected add up to the same, and what was collected grows by the amounts of the dues that
  -- were not PAID.
  pub pay_dues_conserves :
      (pairs : List (TransactionDue × Due)) (w : World)
      → IsConsistent w
      → HasUniqueIds (λ (p : TransactionDue × Due). p.1.id) pairs
      → All
          (λ (p : TransactionDue × Due).
            find_first (λ (d : Due). d.id == p.1.id) w.dues.rows ≡ some p.1)
          pairs
      → All IsCovered pairs
      → IsPaidInto (paid_in_all pairs) w (pay_dues paid_at webhook pairs w)
  unfolding pay_dues
  pay_dues_conserves [] w ok_w unique stored covered = record {
    consistent = ok_w;
    conserved = refl;
    grown = omega arith;
  }
  pay_dues_conserves ((td, due) ∷ ps) w ok_w unique stored covered =
      elim (Bool-cases (is_paid due.status)) [
        | inl done ↦
            let rest = pay_dues_conserves ps w ok_w unique.1 stored.1 covered.1 in
            rw done (record {
              consistent = rest.consistent;
              conserved = rest.conserved;
              grown = omega (arith, rest.grown);
            })
        | inr open_due ↦
            let w' = pay_due paid_at webhook td.amount due w in
            let rest =
              pay_dues_conserves ps w'
                (pay_due-IsConsistent td.amount due w ok_w stored.0 covered.0.0 covered.0.1)
                unique.1 (others-IsStored td.amount due ps w unique.0 stored.1) covered.1 in
            let here = pay_due_excess td.amount due w ok_w stored.0 in
            let grows = collected-pay_due td.amount due w in
            rw open_due (record {
              consistent = rest.consistent;
              conserved = omega (arith, rest.conserved, here, covered.0.1);
              grown = omega (arith, rest.grown, grows);
            })
      ]
