-- ===== src/Operations/Tests.antt =====
-- A capture that is sent, looked up and finalized.
pub mod Lookups
mod Traces
mod Dispatches
mod Leases
use relaypay.Base.{
  ℕ, ◌+◌, ◌≤◌, ◌<◌, ◌≡◌, refl, ◌⊎◌, Option, none, some, List, [], ◌∷◌, ◌++◌, Result, ok, err, arith,
  true, false,
}
use relaypay.Base.Int.{ℤ, pos, ◌+ℤ◌, ◌-ℤ◌}
use relaypay.Ledger.Books.{Books, account, require, platform_account, credit_balance}
use relaypay.Ledger.Posting.{moves_nothing, total, post_journal}
use relaypay.Ledger.Capture.{post_capture_journal}
use relaypay.Ledger.Balanced.{IsBalanced, journal_balance}
use relaypay.Ledger.Reconciled.{IsReconciled, delta_sum}
use relaypay.Payments.Transitions.{record_creation, transition}
use relaypay.Payments.Transitions.Chain.{IsChained, birth, move}
use relaypay.Payments.Status.{authorised}
use relaypay.Payments.Tests.{authorised_world}
use relaypay.Rows.{
  OperationStatus, Actor, finalizer, recovery_worker, StableKey, capture_key, ResourceType,
  CommandKind, AttemptKind, AttemptState, response_received, verified_success, Capture, Operation,
  Attempt, IdempotencyRecord, ProviderRequest, World, find_operation, put_operation, find_attempt,
}
use relaypay.Operations.Resources.{
  resource_of, terminal_result, FinalizedResult, Outcome, finalize_resource,
}
use relaypay.Operations.Finalizer.{
  append_event, close_keys, judge, finalize_open, finalize_verified_attempt,
}
use relaypay.Operations.Finalizer.Once.{IsFinalized, finalize_verified_attempt-IsFinalized}
use relaypay.Operations.Finalizer.Twice.{finalize_twice}
use relaypay.Operations.Finalizer.Effects.{IsCoherent, finalize_verified_attempt-IsCoherent}

abbrev in_flight_capture : Capture
in_flight_capture = record {
  id = 30;
  public_id = 130;
  authorization_id = 29;
  provider_operation_id = 7;
  amount = pos 1000;
  fee_amount = pos 20;
  gst_amount = pos 4;
  fee_schedule_version_id = some 2;
  status = OperationStatus.processing;
  failure_code = none;
  captured_at = none;
  journal_id = none;
}

abbrev pub unsent : Operation
unsent = record {
  id = 7;
  public_id = 107;
  resource_type = ResourceType.capture;
  resource_id = 30;
  kind = CommandKind.capture;
  stable_provider_key = capture_key 1;
  status = OperationStatus.processing;
  review_reason = none;
  provider_request = none;
  attempt_count = 0;
  last_sent_at = none;
  next_lookup_at = none;
  lookup_lease_token = none;
  lookup_lease_expires_at = none;
  apply_failure_count = 0;
  terminal_response = none;
  finalized_at = none;
  created_at = 40;
}

abbrev evidence : Attempt
evidence = record {
  id = 70;
  provider_operation_id = 7;
  sequence = 1;
  attempt_kind = AttemptKind.mutation;
  state = response_received;
  started_at = 50;
  completed_at = some 51;
  response_http_status = some 200;
  response_sha256 = some 9;
  provider_signature_valid = some true;
  classification = some verified_success;
  safe_error_code = none;
}

abbrev replay_key : ℕ → IdempotencyRecord
replay_key digest = record {
  key_digest = digest;
  fingerprint_sha256 = 5;
  provider_operation_id = 7;
  is_terminal = false;
  response = none;
  finalized_at = none;
}

-- A capture that the database holds and that was not sent.
abbrev pub unsent_world : World
unsent_world = record authorised_world {
  capture = some in_flight_capture;
  operations = unsent ∷ [];
  keys = replay_key 1 ∷ replay_key 2 ∷ [];
}

-- The provider has confirmed it.
abbrev pub confirmed_world : World
confirmed_world = record unsent_world { attempts = evidence ∷ [] }

abbrev finalized : Result (FinalizedResult × World)
finalized = finalize_verified_attempt 7 70 finalizer 60 90 confirmed_world

abbrev pub world_of {ℓ} : {A : Type ℓ} → Result (A × World) → World
world_of (ok (r, w)) = w
world_of (err e) = confirmed_world

abbrev pub finalized_result : FinalizedResult
finalized_result = record {
  response = record {
    amount = pos 1000;
    failure_code = none;
    operation_id = 107;
    payment_intent_id = 101;
    resource_id = 130;
    status = OperationStatus.succeeded;
  };
  already_finalized = false;
}

finalize_verified_attempt-IsFinalized_example :
    IsFinalized 7 70 finalized_result confirmed_world (world_of finalized)
unfolding moves_nothing finalize_verified_attempt finalize_open judge resource_of finalize_resource
    transition terminal_result post_capture_journal require platform_account post_journal
    record_creation ◌+ℤ◌ ◌-ℤ◌
finalize_verified_attempt-IsFinalized_example =
    finalize_verified_attempt-IsFinalized 7 70 finalizer 60 90 confirmed_world (world_of finalized)
      finalized_result unsent refl refl refl

finalize_twice_example :
    finalize_verified_attempt 7 71 recovery_worker 99 91 (world_of finalized)
    ≡ ok (
      record { response = finalized_result.response; already_finalized = true },
      world_of finalized,
    )
unfolding moves_nothing finalize_verified_attempt finalize_open judge resource_of finalize_resource
    transition terminal_result post_capture_journal require platform_account post_journal
    record_creation ◌+ℤ◌ ◌-ℤ◌
finalize_twice_example =
    finalize_twice 7 70 71 finalizer recovery_worker 60 99 90 91 confirmed_world
      (world_of finalized) finalized_result unsent refl refl refl

confirmed-IsCoherent : IsCoherent confirmed_world
unfolding record_creation journal_balance credit_balance delta_sum
confirmed-IsCoherent = (
  move (birth _ refl refl refl) _ authorised refl refl refl refl,
  (record { zero = λ k. refl; positive = tt; distinct = tt }, record { agrees = λ c m. refl }),
)

finalize_verified_attempt-IsCoherent_example : IsCoherent (world_of finalized)
unfolding moves_nothing finalize_verified_attempt finalize_open judge resource_of finalize_resource
    transition terminal_result post_capture_journal require platform_account post_journal
    record_creation ◌+ℤ◌ ◌-ℤ◌
finalize_verified_attempt-IsCoherent_example =
    finalize_verified_attempt-IsCoherent 7 70 finalizer 60 90 confirmed_world (world_of finalized)
      finalized_result unsent refl refl refl confirmed-IsCoherent
