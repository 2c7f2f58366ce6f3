-- ===== src/Payment/Start/Tests.antt =====
-- Requests to pay on the sample database; the gateway gives the access key "a".
use pg_master_backend.Prelude.{String, ◌≡◌, refl, true, Option, some, [], ◌∷◌, arith}
use mathlib.Core.List.Perm
use pg_master_backend.Store.Schema.{Transaction}
use pg_master_backend.Store.World.{ok, err, payment_in_progress}
use pg_master_backend.Store.Samples.{sample_world}
use pg_master_backend.PaymentConfig.{get_config_for_payment}
use pg_master_backend.Payment.Checks.{
  validate_tenant, validate_due_and_amount, sum_of_amounts, check_total, check_items, distinct,
}
use pg_master_backend.Payment.Checks.Accepted.{IsAccepted}
use pg_master_backend.Payment.Checks.Valid.{validate_due_and_amount-IsAccepted}
use pg_master_backend.Payment.Lock.{lock_payment, is_payment_locked, sort_ids, insert_id, has_lock}
use pg_master_backend.Payment.Lock.Keys.{lock_payment-locks}
use pg_master_backend.Payment.Start.{MakePayment, make_payment}
use pg_master_backend.Payment.Start.Begun.{make_payment_twice}
use pg_master_backend.Payment.Start.Started.{IsStarted, make_payment_begins}

abbrev gateway : Transaction → Option String
gateway t = some "a"

abbrev rent_and_water : MakePayment
rent_and_water = record {
  dues = record { due_id = 1; amount = 500000 } ∷ record { due_id = 2; amount = 30050 } ∷ [];
  total_amount = 530050;
}

abbrev water_and_rent : MakePayment
water_and_rent = record {
  dues = record { due_id = 2; amount = 30050 } ∷ record { due_id = 1; amount = 500000 } ∷ [];
  total_amount = 530050;
}

accepted : (make_payment gateway 0 "T3" rent_and_water 20 sample_world).0 ≡ ok "T3"
unfolding make_payment validate_tenant validate_due_and_amount sum_of_amounts check_total
    check_items distinct get_config_for_payment is_payment_locked has_lock sort_ids insert_id
accepted = refl

validate_due_and_amount-IsAccepted_example :
    IsAccepted 530050 rent_and_water.dues (10 ∷ []) 5 sample_world
    × ((validate_due_and_amount 530050 rent_and_water.dues (10 ∷ []) sample_world).1 ≡ sample_world)
unfolding validate_due_and_amount sum_of_amounts check_total check_items distinct
validate_due_and_amount-IsAccepted_example =
    validate_due_and_amount-IsAccepted 530050 rent_and_water.dues (10 ∷ []) sample_world
      {tenancy_id = 10} (ground arith) refl

make_payment_begins_example :
    IsStarted 0 1000 "T3" rent_and_water 20 sample_world
      (make_payment gateway 0 "T3" rent_and_water 20 sample_world)
make_payment_begins_example =
    make_payment_begins gateway 0 "T3" rent_and_water 20 sample_world 1000 (ground arith)
      (ground arith) accepted (omega arith)

make_payment_twice_example :
    make_payment gateway 1000 "T4" water_and_rent 20
      (make_payment gateway 0 "T3" rent_and_water 20 sample_world).1
    ≡ (err payment_in_progress, (make_payment gateway 0 "T3" rent_and_water 20 sample_world).1)
make_payment_twice_example =
    make_payment_twice gateway gateway 0 1000 "T3" "T4" rent_and_water water_and_rent 20 20
      sample_world accepted (omega arith) (Perm.swap 2 1 [])

lock_payment-locks_example :
    is_payment_locked 1000 (2 ∷ 1 ∷ []) (lock_payment 0 (1 ∷ 2 ∷ []) sample_world) ≡ true
lock_payment-locks_example =
    lock_payment-locks 0 1000 (1 ∷ 2 ∷ []) (2 ∷ 1 ∷ []) sample_world (Perm.swap 2 1 [])
      (omega arith)
