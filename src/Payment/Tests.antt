-- ===== src/Payment/Tests.antt =====
-- Payments on the sample database. The hash leaves the text as it is, so that a webhook's signature
-- can be read.
use pg_master_backend.Prelude.{String, ◌+◌, ◌≡◌, ◌⊎◌, refl, true, none, some, [], ◌∷◌, arith}
use pg_master_backend.Store.Schema.{failed}
use pg_master_backend.Store.World.{World}
use pg_master_backend.Store.Samples.{rent_due, both_dues, too_much, sample_config, sample_world}
use pg_master_backend.Due.Sample.{sample_world-IsConsistent}
use pg_master_backend.Due.Invariant.{outstanding, collected}
use pg_master_backend.Easebuzz.{
  WebhookPayload, join_bars, response_hash_string, verify_response_hash, same_lowercase,
}
use pg_master_backend.Payment.Webhook.{with_dues, handle_webhook, is_genuine}
use pg_master_backend.Payment.Webhook.Once.{by_id, deliver_all, deliver_all_final}
use pg_master_backend.Payment.Webhook.Ledgers.{
  deliver_all-LedgersAgree, pending_in_ledger, pending_settlements,
}
use pg_master_backend.Payment.Webhook.Forged.{
  SameBooks, IsPayingWebhook, handle_webhook_pays, forged_webhook_blocks,
}
use pg_master_backend.Payment.Webhook.Dues.{IsPaidInto}
use pg_master_backend.Payment.Webhook.Success.{
  IsSuccessFor, webhook_success_conserves, webhook_success_excess,
}

abbrev plain : String → String
plain s = s

abbrev webhook : String → String → WebhookPayload
webhook txnid hash = record {
  txnid = txnid;
  amount = "1.00";
  productinfo = "p";
  firstname = "f";
  email = "e";
  status = "success";
  hash = hash;
  easepayid = "E1";
  payment_source = none;
  udf1 = none;
  udf2 = none;
  udf3 = none;
  udf4 = none;
  udf5 = none;
  udf6 = none;
  udf7 = none;
  udf8 = none;
  udf9 = none;
  udf10 = none;
}

abbrev genuine_both : WebhookPayload
genuine_both = webhook "T1" "s|success|||||||||||e|f|p|1.00|T1|k"

abbrev genuine_too_much : WebhookPayload
genuine_too_much = webhook "T2" "s|success|||||||||||e|f|p|1.00|T2|k"

abbrev false_both : WebhookPayload
false_both = webhook "T1" "?"

signed : is_genuine plain sample_config genuine_both ≡ true
unfolding verify_response_hash response_hash_string join_bars
signed = refl

success_both : IsSuccessFor plain 0 genuine_both sample_world both_dues
unfolding verify_response_hash response_hash_string join_bars same_lowercase
success_both = record {
  named = refl;
  claims = record { named = refl; fresh = refl; config = sample_config; configured = refl };
  genuine = refl;
  succeeded = refl;
}

success_too_much : IsSuccessFor plain 0 genuine_too_much sample_world too_much
unfolding verify_response_hash response_hash_string join_bars same_lowercase
success_too_much = record {
  named = refl;
  claims = record { named = refl; fresh = refl; config = sample_config; configured = refl };
  genuine = refl;
  succeeded = refl;
}

webhook_success_conserves_example :
    IsPaidInto 530050 sample_world (handle_webhook plain 0 genuine_both sample_world).1
unfolding with_dues
webhook_success_conserves_example =
    webhook_success_conserves plain 0 genuine_both sample_world both_dues success_both
      sample_world-IsConsistent refl (ground arith) (ground arith)

-- 6000 rupees on a due of 5000
webhook_success_excess_example :
    outstanding (handle_webhook plain 0 genuine_too_much sample_world).1
      + collected (handle_webhook plain 0 genuine_too_much sample_world).1
    ≡ outstanding sample_world + collected sample_world + 100000
webhook_success_excess_example =
    webhook_success_excess plain 0 genuine_too_much sample_world too_much success_too_much
      sample_world-IsConsistent 1 rent_due refl refl refl

forged_webhook_blocks_example :
    by_id 1 (deliver_all plain ((0, false_both) ∷ (1, genuine_both) ∷ []) sample_world)
    ≡ some (record both_dues { status = failed })
unfolding verify_response_hash response_hash_string join_bars
forged_webhook_blocks_example =
    forged_webhook_blocks plain 0 false_both sample_world both_dues sample_config (ground arith)
      (refl, refl) refl refl refl ((1, genuine_both) ∷ [])

handle_webhook_pays_example :
    SameBooks sample_world (handle_webhook plain 0 genuine_both sample_world).1
    ⊎ IsPayingWebhook plain 0 genuine_both sample_world
handle_webhook_pays_example = handle_webhook_pays plain 0 genuine_both sample_world

abbrev closed_world : World
closed_world = record sample_world {
  transactions = record {
    rows = record both_dues { status = failed } ∷ too_much ∷ [];
    next_id = 3;
  };
}

deliver_all_final_example :
    by_id 1 (deliver_all plain ((0, genuine_both) ∷ (1, genuine_too_much) ∷ []) closed_world)
    ≡ some (record both_dues { status = failed })
deliver_all_final_example =
    deliver_all_final plain ((0, genuine_both) ∷ (1, genuine_too_much) ∷ []) 1
      (record both_dues { status = failed }) closed_world (ground arith) refl refl

deliver_all-LedgersAgree_example :
    pending_in_ledger 5
      (deliver_all plain ((0, genuine_both) ∷ (1, genuine_too_much) ∷ []) sample_world)
    ≡ pending_settlements 5
        (deliver_all plain ((0, genuine_both) ∷ (1, genuine_too_much) ∷ []) sample_world)
deliver_all-LedgersAgree_example =
    deliver_all-LedgersAgree plain ((0, genuine_both) ∷ (1, genuine_too_much) ∷ []) sample_world
      (λ p. refl) 5
