-- ===== src/Store/References.antt =====
-- The rows that name a due by a foreign key, and the deletion of dues. By prisma/migrations a key of
-- DuePayment (20260316014641), DailyReminderQueue (20260329174005) or PaymentGatewayTransactionDue
-- (20260525094231) is ON DELETE RESTRICT and refuses the deletion, and that of
-- PaymentGatewayTransaction (20260525094231) is ON DELETE SET NULL.
use pg_master_backend.Prelude.{ℕ, Bool, false, not, ◌||◌, Option, none, some, List, [], ◌∷◌, ◌==◌}
use pg_master_backend.Store.Rows.{find_first, find_many, delete_many, update_rows}
use pg_master_backend.Store.Requests.{DailyReminder}
use pg_master_backend.Store.Schema.{Due, DuePayment, Transaction, TransactionDue, is_none}
use pg_master_backend.Store.World.{
  World, Action, gets, throw_if, modify, ◌>>=◌, ◌>>◌, still_referenced,
}

abbrev pub is_referenced : World → ℕ → Bool
is_referenced w due_id =
    not (is_none (find_first (λ (p : DuePayment). p.due_id == due_id) w.due_payments.rows))
    || (not (
          is_none (find_first (λ (t : TransactionDue). t.due_id == due_id) w.transaction_dues.rows))
        || not (is_none (find_first (λ (r : DailyReminder). r.due_id == due_id) w.daily_reminders)))

unfoldable pub any_referenced : World → List Due → Bool
any_referenced w [] = false
any_referenced w (d ∷ ds) = is_referenced w d.id || any_referenced w ds

unfoldable pub names_one_of : List Due → Option ℕ → Bool
names_one_of ds none = false
names_one_of [] (some due_id) = false
names_one_of (d ∷ ds) (some due_id) = d.id == due_id || names_one_of ds (some due_id)

unfoldable pub remove_dues : (Due → Bool) → World → World
remove_dues p w = record w {
  dues = record w.dues { rows = delete_many p w.dues.rows };
  transactions =
      update_rows (λ (t : Transaction). names_one_of (find_many p w.dues.rows) t.due_id)
        (λ t. record t { due_id = none }) w.transactions;
}

-- delete and deleteMany of dues
abbrev pub delete_dues : (Due → Bool) → Action (Unit {0})
delete_dues p = do
  referenced ← gets (λ w. any_referenced w (find_many p w.dues.rows))
  throw_if referenced still_referenced
  modify (remove_dues p)
