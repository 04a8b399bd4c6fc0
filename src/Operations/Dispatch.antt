-- ===== src/Operations/Dispatch.antt =====
-- `dispatch_operation` and `classify_and_record_lookup` of provider_operations/service.py, and
-- `recover_claim` of recovery.py. The transport is a parameter, and `none` where it raises. Each call
-- is a series of transactions; where one raises, those before it have been committed, and the
-- result here is the exception alone. No transaction of another process runs between them: those
-- interleavings are in Trace.
pub mod Sent
use relaypay.Base.{
  ℕ, Option, none, some, Bool, true, false, Result, ok, err, ◌>>=◌, or_raise, runtime_error,
  if◌then◌else◌,
}
use relaypay.Rows.{
  Actor, request, recovery_worker, StableKey, ProviderRequest, World, find_operation,
}
use relaypay.Operations.Validation.{
  ProviderObservation, Codec, ClassifiedProviderResult, transport_error_result,
  classify_provider_observation,
}
use relaypay.Operations.Service.Sends.{PreparedOperation, expected_result_for, prepare_first_send}
use relaypay.Operations.Service.Records.{
  RecordedOutcome, complete_mutation, record_lookup_observation,
}
use relaypay.Operations.Service.Apply.{apply_recorded_outcome}
use relaypay.Operations.Recovery.{RecoveryClaim}

pub record ProviderTransport : Type 0 where
  pub mutate : Option ProviderRequest → Option ProviderObservation
  pub look_up : ℕ → StableKey → Option ProviderObservation

-- The clocks of the transactions, and the new ids that they take.
pub record Instants : Type 0 where
  pub prepared_at : ℕ
  pub recorded_at : ℕ
  pub applied_at : ℕ
  pub attempt_id : ℕ
  pub journal_id : ℕ

abbrev pub classify :
    Codec → ProviderRequest → Bool → Option ProviderObservation → ClassifiedProviderResult
classify codec expected is_lookup none = transport_error_result
classify codec expected is_lookup (some o) =
    classify_provider_observation codec expected is_lookup o

-- `_expected_result`
unfoldable pub expected_result : ℕ → ℕ → World → Result ProviderRequest
expected_result operation_id account w = do
  operation ← or_raise (find_operation operation_id w) runtime_error
  expected_result_for operation account w

-- `indeterminate_after` and DEFAULT_NOT_FOUND_GRACE_SECONDS
abbrev pub default_indeterminate_after : ℕ
default_indeterminate_after = 5

abbrev pub default_not_found_grace : ℕ
default_not_found_grace = 600

unfoldable pub classify_and_record_lookup :
    Codec
    → ℕ
    → Option ℕ
    → ℕ
    → Option ProviderObservation
    → ℕ
    → ℕ
    → ℕ
    → World
    → Result (Option RecordedOutcome × World)
classify_and_record_lookup codec operation_id lease account observation grace now attempt_id w = do
  expected ← expected_result operation_id account w
  record_lookup_observation codec operation_id lease observation
      (classify codec expected true observation) default_indeterminate_after grace now attempt_id w

-- The operation is not terminal: a lookup if it was sent, and else the send.
unfoldable pub record_answer :
    Codec
    → ProviderTransport
    → PreparedOperation
    → ℕ
    → ProviderRequest
    → Instants
    → World
    → Result (Option RecordedOutcome × World)
record_answer codec transport prepared account expected i w =
    if prepared.already_sent
    then record_lookup_observation codec prepared.operation_id none
        (transport.look_up account prepared.stable_key)
        (classify codec expected true (transport.look_up account prepared.stable_key))
        default_indeterminate_after default_not_found_grace i.recorded_at i.attempt_id w
    else complete_mutation codec prepared.operation_id (transport.mutate prepared.request)
        (classify codec expected false (transport.mutate prepared.request)) i.recorded_at w

unfoldable pub dispatch_prepared :
    Codec → ProviderTransport → PreparedOperation → ℕ → Instants → World → Result World
dispatch_prepared codec transport prepared account i w = do
  expected ← expected_result prepared.operation_id account w
  (outcome, w') ← record_answer codec transport prepared account expected i w
  apply_recorded_outcome prepared.operation_id outcome request i.applied_at i.journal_id w' w'

unfoldable pub dispatch_operation :
    Codec → ProviderTransport → ℕ → ℕ → Instants → World → Result World
dispatch_operation codec transport operation_public_id account i w = do
  (prepared, w') ← prepare_first_send operation_public_id account i.prepared_at i.attempt_id w
  if prepared.terminal then ok w' else dispatch_prepared codec transport prepared account i w'

unfoldable pub recover_claim :
    Codec → ProviderTransport → RecoveryClaim → ℕ → ℕ → Actor → Instants → World → Result World
recover_claim codec transport claim account grace actor i w = do
  (outcome, w') ←
      classify_and_record_lookup codec claim.operation_id (some claim.lease_token) account
        (transport.look_up account claim.stable_key) grace i.recorded_at i.attempt_id w
  apply_recorded_outcome claim.operation_id outcome actor i.applied_at i.journal_id w' w'
