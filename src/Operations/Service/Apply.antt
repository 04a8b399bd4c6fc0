-- ===== src/Operations/Service/Apply.antt =====
-- `apply_recorded_outcome` of packages/relaypay/provider_operations/service.py.
use relaypay.Base.{
  ℕ, Option, none, some, Bool, true, false, Result, ok, err, ◌>>=◌, Failure, value_error,
  runtime_error, attribute_error, attribute_error, stale_balance_version, if◌then◌else◌,
}
use relaypay.Rows.{Actor, invalid_evidence, World}
use relaypay.Operations.Finalizer.{
  finalize_verified_attempt, mark_operation_for_review, record_apply_failure, default_review_after,
}
use relaypay.Operations.Validation.{finalize_success, finalize_failure, review}
use relaypay.Operations.Service.Records.{RecordedOutcome}

-- `except (RelayPayError, SQLAlchemyError)`
abbrev pub is_caught : Failure → Bool
is_caught value_error = false
is_caught runtime_error = false
is_caught attribute_error = false
is_caught stale_balance_version = false
is_caught _ = true

-- The finalizing branch. A failed finalization has been rolled back, and the transaction that counts
-- it finds the state `later`, where the operation may have been finalized.
unfoldable pub finalize_or_record :
    ℕ → RecordedOutcome → Actor → ℕ → ℕ → World → World → Result World
finalize_or_record operation_id outcome actor now journal_id w later =
    elim (finalize_verified_attempt operation_id outcome.attempt_id actor now journal_id w) [
      | ok (result, w') ↦ ok w'
      | err e ↦
          if is_caught e
          then (do
            (count, later') ←
                record_apply_failure operation_id outcome.attempt_id default_review_after later
            ok later')
          else err e
    ]

unfoldable pub apply_recorded_outcome :
    ℕ → Option RecordedOutcome → Actor → ℕ → ℕ → World → World → Result World
unfolding finalize_or_record
apply_recorded_outcome operation_id none actor now journal_id w later = ok w
apply_recorded_outcome operation_id (some outcome) actor now journal_id w later =
    elim outcome.action [
      | finalize_success ↦ finalize_or_record operation_id outcome actor now journal_id w later
      | finalize_failure ↦ finalize_or_record operation_id outcome actor now journal_id w later
      | review ↦
          mark_operation_for_review operation_id
            (elim outcome.review_reason [ none ↦ invalid_evidence | some r ↦ r ])
            (some outcome.attempt_id) actor w
      | _ ↦ ok w
    ]
