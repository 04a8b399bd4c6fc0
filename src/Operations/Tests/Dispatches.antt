-- ===== src/Operations/Tests/Dispatches.antt =====
-- The capture is dispatched and confirmed; and it is recovered when its dispatcher has died.
use relaypay.Base.{◌≡◌, refl, some, ◌>>=◌, Result, ok, err}
use relaypay.Base.Int.{◌+ℤ◌, ◌-ℤ◌}
use relaypay.Ledger.Books.{require, platform_account}
use relaypay.Ledger.Posting.{moves_nothing, post_journal}
use relaypay.Ledger.Capture.{post_capture_journal}
use relaypay.Payments.Status.{captured}
use relaypay.Payments.Transitions.{record_creation, transition}
use relaypay.Rows.{World, recovery_worker, capture_key, put_operation, put_attempt}
use relaypay.Operations.Resources.{resource_of, terminal_result, finalize_resource}
use relaypay.Operations.Finalizer.{judge, finalize_open, finalize_verified_attempt}
use relaypay.Operations.Validation.{
  classify_answer, signature_valid, validate_result, classify_provider_observation,
}
use relaypay.Operations.Service.Sends.{
  expected_result_for, insert_attempt, first_send, prepare_first_send,
}
use relaypay.Operations.Service.Records.{
  next_lookup, max_sequence, decide_lookup, record_open_lookup, record_lookup_observation,
  complete_mutation,
}
use relaypay.Operations.Service.Apply.{apply_recorded_outcome}
use relaypay.Operations.Recovery.{RecoveryClaim}
use relaypay.Operations.Dispatch.{
  ProviderTransport, Instants, expected_result, record_answer, dispatch_prepared,
  dispatch_operation, classify_and_record_lookup, recover_claim,
}
use relaypay.Operations.Tests.{unsent_world}
use relaypay.Operations.Tests.Lookups.{codec, answer_of, sent_world}

abbrev confirming : ProviderTransport
confirming = record {
  mutate = λ sent. some (answer_of 200);
  look_up = λ account key. some (answer_of 200);
}

abbrev instants : Instants
instants = record {
  prepared_at = 50;
  recorded_at = 51;
  applied_at = 52;
  attempt_id = 70;
  journal_id = 90;
}

abbrev world_of_run : Result World → World
world_of_run (ok w) = w
world_of_run (err e) = unsent_world

abbrev dispatched_world : World
dispatched_world = world_of_run (dispatch_operation codec confirming 107 8 instants unsent_world)

dispatched_status : dispatched_world.payment.status ≡ captured
unfolding moves_nothing dispatch_operation dispatch_prepared record_answer expected_result
    prepare_first_send first_send expected_result_for resource_of insert_attempt put_operation
    record_creation complete_mutation classify_provider_observation classify_answer signature_valid
    validate_result next_lookup apply_recorded_outcome finalize_verified_attempt finalize_open judge
    finalize_resource transition terminal_result post_capture_journal require platform_account
    post_journal ◌+ℤ◌ ◌-ℤ◌ put_attempt
dispatched_status = refl

recovered_status :
    (world_of_run (
      dispatch_operation codec confirming 107 8
        (record instants { attempt_id = 71 })
        sent_world)).payment.status
    ≡ captured
unfolding moves_nothing dispatch_operation dispatch_prepared record_answer expected_result
    prepare_first_send first_send expected_result_for resource_of insert_attempt put_operation
    record_creation record_lookup_observation record_open_lookup decide_lookup max_sequence
    classify_provider_observation classify_answer signature_valid validate_result next_lookup
    apply_recorded_outcome finalize_verified_attempt finalize_open judge finalize_resource
    transition terminal_result post_capture_journal require platform_account post_journal ◌+ℤ◌ ◌-ℤ◌
    put_attempt
recovered_status = refl

-- The claim of a lease that the row does not hold: nothing is recorded.
abbrev lapsed : RecoveryClaim
lapsed = record {
  operation_id = 7;
  operation_public_id = 107;
  stable_key = capture_key 1;
  lease_token = 4;
}

lapsed_claim :
    recover_claim codec confirming lapsed 8 600 recovery_worker
      (record instants { attempt_id = 71 })
      sent_world
    ≡ ok sent_world
unfolding recover_claim classify_and_record_lookup expected_result prepare_first_send first_send
    expected_result_for resource_of insert_attempt put_operation record_creation
    record_lookup_observation apply_recorded_outcome
lapsed_claim = refl
