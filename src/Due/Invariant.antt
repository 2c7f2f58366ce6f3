-- ===== src/Due/Invariant.antt =====
-- What holds of every due between two requests, and of the tables as a whole.
use pg_master_backend.Prelude.{ℕ, ◌+◌, ◌≤◌, ◌<◌, ◌≡◌, All, sum_by, arith}
use pg_master_backend.Store.Ids.{IsKeyed}
use pg_master_backend.Store.Schema.{Due, DuePayment, unpaid, partial, paid}
use pg_master_backend.Store.World.{World}
use pg_master_backend.Due.{collected_due}

-- What was paid and what is left make up the total; nothing is paid on an UNPAID due, some of a
-- PARTIAL due is left, and nothing of a PAID one.
pub record IsBalanced (due : Due) : Type 0 where
  pub adds_up : due.paid_amount + due.balance_amount ≡ due.total_amount
  pub unpaid_untouched : due.status ≡ unpaid → due.paid_amount ≡ 0
  pub partial_open : due.status ≡ partial → 0 < due.balance_amount
  pub paid_closed : due.status ≡ paid → due.balance_amount ≡ 0

-- Every due is balanced, and dues and payments have ids of their own.
pub record IsConsistent (w : World) : Type 0 where
  pub balanced : All IsBalanced w.dues.rows
  pub dues_keyed : IsKeyed (λ (d : Due). d.id) w.dues
  pub payments_keyed : IsKeyed (λ (p : DuePayment). p.id) w.due_payments

pub collected_due-IsBalanced :
    (amount : ℕ) (due : Due)
    → 0 < amount
    → amount ≤ due.balance_amount
    → IsBalanced due
    → IsBalanced (collected_due amount due)
collected_due-IsBalanced amount due low high b = ground arith

-- All that tenants still owe, and all that was ever collected.
abbrev pub outstanding : World → ℕ
outstanding w = sum_by (λ (d : Due). d.balance_amount) w.dues.rows

abbrev pub collected : World → ℕ
collected w = sum_by (λ (p : DuePayment). p.amount) w.due_payments.rows
