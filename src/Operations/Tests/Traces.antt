-- ===== src/Operations/Tests/Traces.antt =====
-- The capture is sent, the provider does not know it after the grace period, and it fails.
use relaypay.Base.{◌⊎◌, ◌≤◌, true, ◌≡◌, refl, some, [], ◌∷◌, Result, ok, err}
use relaypay.Ledger.Balanced.{journal_balance}
use relaypay.Ledger.Reconciled.{delta_sum}
use relaypay.Ledger.Books.{credit_balance}
use relaypay.Payments.Status.{authorised, failed}
use relaypay.Payments.Transitions.{record_creation, transition}
use relaypay.Payments.Transitions.Chain.{birth, move}
use relaypay.Rows.{World, recovery_worker, put_operation}
use relaypay.Operations.Recovery.{lease_rows}
use relaypay.Operations.Resources.{resource_of, FinalizedResult, terminal_result, finalize_resource}
use relaypay.Operations.Finalizer.{judge, finalize_open, finalize_verified_attempt}
use relaypay.Operations.Finalizer.Effects.{IsCoherent}
use relaypay.Operations.Validation.{
  finalize_failure, classify_not_found, classify_answer, signature_valid, validate_result,
  classify_provider_observation,
}
use relaypay.Operations.Service.Sends.{
  expected_result_for, insert_attempt, first_send, prepare_first_send,
}
use relaypay.Operations.Service.Records.{
  next_lookup, max_sequence, decide_lookup, record_open_lookup, record_lookup_observation,
}
use relaypay.Operations.Trace.{
  prepare, claim_batch, look_up, finalize, Run, start, next, Run-IsCoherent,
}
use relaypay.Operations.Trace.Later.{closed, prepare_later}
use relaypay.Operations.Trace.Claims.{sends, sends_at_most_once}
use relaypay.Operations.Tests.{unsent_world, world_of, finalized_result}
use relaypay.Operations.Tests.Lookups.{
  codec, request, answer_of, first, looked_up, outcome_of, sent_world,
}

abbrev looked_up_world : World
looked_up_world = world_of (looked_up 404 700)

abbrev failing : Result (FinalizedResult × World)
failing = finalize_verified_attempt 7 71 recovery_worker 701 91 looked_up_world

abbrev failed_world : World
failed_world = world_of failing

abbrev result_after : Result (FinalizedResult × World) → FinalizedResult
result_after (ok (r, w)) = r
result_after (err e) = finalized_result

payment_failed : failed_world.payment.status ≡ failed
unfolding prepare_first_send first_send expected_result_for resource_of insert_attempt put_operation
    record_creation lease_rows record_lookup_observation record_open_lookup decide_lookup
    classify_provider_observation classify_not_found classify_answer signature_valid validate_result
    next_lookup max_sequence finalize_verified_attempt finalize_open judge finalize_resource
    transition terminal_result
payment_failed = refl

unsent-IsCoherent : IsCoherent unsent_world
unfolding record_creation journal_balance credit_balance delta_sum
unsent-IsCoherent = (
  move (birth _ refl refl refl) _ authorised refl refl refl refl,
  (record { zero = λ k. refl; positive = tt; distinct = tt }, record { agrees = λ c m. refl }),
)

failing-Run : Run unsent_world failed_world
unfolding prepare_first_send first_send expected_result_for resource_of insert_attempt put_operation
    record_creation lease_rows record_lookup_observation record_open_lookup decide_lookup
    classify_provider_observation classify_not_found classify_answer signature_valid validate_result
    next_lookup max_sequence finalize_verified_attempt finalize_open judge finalize_resource
    transition terminal_result
failing-Run =
    next
      (next
        (next (next start (prepare 107 8 50 70 first refl)) (claim_batch (λ id. 4) 730 (7 ∷ [])))
        (look_up codec 7 (some 4) (some (answer_of 404))
          (classify_provider_observation codec request true (answer_of 404)) 5 600 700 71
          (some (outcome_of finalize_failure)) refl))
      (finalize 7 71 recovery_worker 701 91 (result_after failing) refl)

-- What follows the first preparation.
later-Run : Run sent_world failed_world
unfolding prepare_first_send first_send expected_result_for resource_of insert_attempt put_operation
    record_creation lease_rows record_lookup_observation record_open_lookup decide_lookup
    classify_provider_observation classify_not_found classify_answer signature_valid validate_result
    next_lookup max_sequence finalize_verified_attempt finalize_open judge finalize_resource
    transition terminal_result
later-Run =
    next
      (next (next start (claim_batch (λ id. 4) 730 (7 ∷ []))) (
        look_up codec 7 (some 4) (some (answer_of 404))
          (classify_provider_observation codec request true (answer_of 404)) 5 600 700 71
          (some (outcome_of finalize_failure)) refl))
      (finalize 7 71 recovery_worker 701 91 (result_after failing) refl)

Run-IsCoherent_example : IsCoherent failed_world
Run-IsCoherent_example = Run-IsCoherent failing-Run unsent-IsCoherent

-- Two dispatchers prepare one operation.
contended-Run : Run unsent_world sent_world
unfolding prepare_first_send first_send expected_result_for resource_of insert_attempt put_operation
    record_creation
contended-Run =
    next (next start (prepare 107 8 50 70 first refl))
      (prepare 107 8 51 71 (record first { already_sent = true }) refl)

sends_at_most_once_example : sends 107 contended-Run ≤ 1
sends_at_most_once_example = sends_at_most_once 107 contended-Run (tt, tt)

-- Another dispatcher finds the operation sent, and later, when it has failed, terminal.
prepare_later_example :
    (prepare_first_send 107 9 800 72 failed_world
      ≡ ok (record first { already_sent = true }, failed_world))
    ⊎ (prepare_first_send 107 9 800 72 failed_world ≡ ok (closed first, failed_world))
unfolding prepare_first_send first_send expected_result_for resource_of insert_attempt put_operation
    record_creation lease_rows record_lookup_observation record_open_lookup decide_lookup
    classify_provider_observation classify_not_found classify_answer signature_valid validate_result
    next_lookup max_sequence finalize_verified_attempt finalize_open judge finalize_resource
    transition terminal_result
prepare_later_example =
    prepare_later 107 8 9 50 800 70 72 unsent_world sent_world failed_world first (tt, tt) refl refl
      later-Run
