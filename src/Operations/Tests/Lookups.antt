-- ===== src/Operations/Tests/Lookups.antt =====
-- The capture is sent by one of two dispatchers, and looked up.
use relaypay.Base.{
  ℕ, ◌+◌, ◌≤◌, ◌<◌, ◌≡◌, refl, ◌⊎◌, Option, none, some, [], ◌∷◌, Result, ok, arith, true, false,
}
use relaypay.Base.Int.{pos}
use relaypay.Rows.{
  recovery_worker, capture_key, CommandKind, Operation, Attempt, ProviderRequest, World,
  find_operation, find_attempt, put_operation,
}
use relaypay.Payments.Transitions.{record_creation}
use relaypay.Operations.Resources.{Outcome, resource_of}
use relaypay.Operations.Finalizer.{judge}
use relaypay.Operations.Validation.{
  ProviderAction, finalize_failure, processing, ProviderOutcome, ProviderObservation, Codec,
  signature_valid, validate_result, classify_not_found, classify_answer,
  classify_provider_observation,
}
use relaypay.Operations.Validation.Sound.{IsProof, classify_provider_observation-IsProof}
use relaypay.Operations.Service.Sends.{
  PreparedOperation, expected_result_for, insert_attempt, first_send, prepare_first_send,
}
use relaypay.Operations.Service.Records.{
  RecordedOutcome, next_lookup, max_sequence, decide_lookup, record_open_lookup,
  record_lookup_observation,
}
use relaypay.Operations.Service.Lookups.{next_lookup_bounds}
use relaypay.Operations.Service.Evidence.{
  record_lookup_observation-accepted, record_lookup_observation-grace,
}
use relaypay.Operations.Tests.{unsent_world, world_of}

abbrev pub request : ProviderRequest
request = record {
  account_id = 8;
  amount = pos 1000;
  operation_kind = CommandKind.capture;
  reference = 130;
  stable_key = capture_key 1;
}

abbrev pub first : PreparedOperation
first = record {
  operation_id = 7;
  stable_key = capture_key 1;
  request = some request;
  already_sent = false;
  terminal = false;
}

abbrev pub prepared : Result (PreparedOperation × World)
prepared = prepare_first_send 107 8 50 70 unsent_world

abbrev pub sent_world : World
sent_world = world_of prepared

-- A codec that signs every body with one text, and reads a body by its first byte.
abbrev pub codec : Codec
codec = record {
  hexdigest = λ body. "c0de";
  sha256 = λ body. 9;
  parse_result = λ body. elim body [
    | [] ↦ none
    | b ∷ bs ↦ some (record {
      identity = request;
      outcome = ProviderOutcome.succeeded;
      decline_code = none;
      effect_id = "eff";
    })
  ];
  parse_not_found = λ body. some (record { account_id = 8; stable_key = capture_key 1 });
}

abbrev pub answer_of : ℕ → ProviderObservation
answer_of status = record {
  status_code = status;
  body = 1 ∷ [];
  headers = ("X-Provider-Signature", "c0de") ∷ [];
}

classify_provider_observation-IsProof_example :
    IsProof codec request
      (answer_of 200)
      (classify_provider_observation codec request true (answer_of 200))
unfolding classify_provider_observation classify_answer signature_valid validate_result
classify_provider_observation-IsProof_example =
    classify_provider_observation-IsProof codec request true (answer_of 200) refl

next_lookup_bounds_example :
    (50 < next_lookup 50 2) × (next_lookup 50 2 ≤ next_lookup 50 9) × (next_lookup 50 9 ≤ 50 + 60)
next_lookup_bounds_example = next_lookup_bounds 50 2 9 (omega arith)

abbrev pub looked_up : ℕ → ℕ → Result (Option RecordedOutcome × World)
looked_up status now =
    record_lookup_observation codec 7 none (some (answer_of status))
      (classify_provider_observation codec request true (answer_of status)) 5 600 now 71 sent_world

abbrev pub outcome_of : ProviderAction → RecordedOutcome
outcome_of action = record { attempt_id = 71; action = action; review_reason = none }

record_lookup_observation-accepted_example :
    (operation : Operation) × (attempt : Attempt) × (outcome : Outcome) × (find_operation 7
        sent_world
      ≡ some operation)
    × (judge operation (find_attempt 71 (world_of (looked_up 404 700))) recovery_worker 701 91
        ≡ ok (attempt, outcome))
unfolding prepare_first_send first_send expected_result_for resource_of insert_attempt put_operation
    record_creation record_lookup_observation record_open_lookup decide_lookup
    classify_provider_observation classify_not_found classify_answer signature_valid validate_result
    next_lookup max_sequence
record_lookup_observation-accepted_example =
    record_lookup_observation-accepted codec request (answer_of 404) 7 none 5 600 700 701 91 71
      recovery_worker sent_world (world_of (looked_up 404 700)) (outcome_of finalize_failure) refl
      refl refl

record_lookup_observation-grace_example :
    (operation : Operation) × (sent_at next : ℕ) × (operation' : Operation) × (find_operation 7
        sent_world
      ≡ some operation)
    × (operation.last_sent_at ≡ some sent_at)
    × (find_operation operation.id (world_of (looked_up 404 100)) ≡ some operation')
    × (operation'.next_lookup_at ≡ some next)
    × ((sent_at + 600 ≤ 100) × (processing ≡ finalize_failure)
        ⊎ (100 < sent_at + 600) × (processing ≡ processing) × (next ≤ sent_at + 600))
unfolding prepare_first_send first_send expected_result_for resource_of insert_attempt put_operation
    record_creation record_lookup_observation record_open_lookup decide_lookup
    classify_provider_observation classify_not_found classify_answer signature_valid validate_result
    next_lookup max_sequence
record_lookup_observation-grace_example =
    record_lookup_observation-grace codec 7 none (some (answer_of 404))
      (classify_provider_observation codec request true (answer_of 404)) 5 600 100 71 sent_world
      (world_of (looked_up 404 100)) (outcome_of processing) refl refl refl
