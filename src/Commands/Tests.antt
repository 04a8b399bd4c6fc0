-- ===== src/Commands/Tests.antt =====
-- A payment that is authorized, captured and refunded; and one whose hold lapses.
use mathlib.Core.Option.{none-ne-some}
use relaypay.Base.{
  ℕ, ◌+◌, ◌≡◌, refl, none, some, [], ◌∷◌, Result, ok, err, true, false, arith, value_error,
}
use relaypay.Base.Int.{pos, ◌+ℤ◌, ◌-ℤ◌}
use relaypay.Fees.Calculator.{compute_capture_fee}
use relaypay.Fees.Schedule.{capture_fee, active_fee_schedule, newest}
use relaypay.Ledger.Books.{require, platform_account}
use relaypay.Ledger.Posting.{moves_nothing, post_journal}
use relaypay.Ledger.Capture.{post_capture_journal}
use relaypay.Payments.Status.{expired}
use relaypay.Payments.Transitions.{transition, record_creation}
use relaypay.Payments.Tests.{fresh}
use relaypay.Rows.{
  OperationStatus, ResourceType, AttemptKind, response_received, verified_success, finalizer,
  Attempt, Operation, World, IdempotencyRecord, put_operation, find_operation,
}
use relaypay.Operations.Resources.{
  FinalizedResult, Resource, find_resource, resource_of, finalize_resource, terminal_result,
}
use relaypay.Operations.Finalizer.{finalize_verified_attempt, finalize_open, judge, close_keys}
use relaypay.Operations.Trace.{finalize}
use relaypay.Commands.{
  HttpResult, finalized, envelope, Request, Fresh, Setting, Command, initiate,
  initiate_authorization, initiate_capture, initiate_refund, authorize_payment, new_authorization,
  capture_payment, new_capture, refund_payment, reserved_sum, attach_key, attach_existing,
  insert_key, insert_operation, operation_envelope, existing_operation_result,
}
use relaypay.Commands.Splits.{capture_operation}
use relaypay.Commands.Expiry.{expire_payment}
use relaypay.Commands.Expired.{expire_then_initiate}
use relaypay.Commands.Links.{operation_of, status_of}
use relaypay.Commands.Replay.{SameAnswer}
use relaypay.Commands.Again.{initiate_again}
use relaypay.Commands.Finalized.{finalize_then_initiate}
use relaypay.Commands.Orderly.Inserts.{Kept}
use relaypay.Commands.Orderly.Runs.{History, start, next, command, sweep, transaction, History-Kept}

abbrev evidence_of : ℕ → ℕ → Attempt
evidence_of id operation_id = record {
  id = id;
  provider_operation_id = operation_id;
  sequence = 1;
  attempt_kind = AttemptKind.mutation;
  state = response_received;
  started_at = 50;
  completed_at = some 51;
  response_http_status = some 200;
  response_sha256 = some 9;
  provider_signature_valid = some true;
  classification = some verified_success;
  safe_error_code = none;
}

-- The answers that the provider is going to give are there from the start.
abbrev created_world : World
created_world = record fresh { attempts = evidence_of 70 900 ∷ evidence_of 71 901 ∷ [] }

abbrev setting : Setting
setting = record { now = 100; versions = []; calculator = compute_capture_fee }

abbrev request : ℕ → Request
request digest = record { payment_public_id = 101; key_digest = digest; fingerprint_sha256 = 5 }

abbrev new_ids : ℕ → Fresh
new_ids n = record {
  operation_id = n;
  operation_public_id = n + 1000;
  resource_id = n + 2000;
  resource_public_id = n + 3000;
  created_at = 40;
}

abbrev after {ℓ} : {A : Type ℓ} → Result (A × World) → World
after (ok (a, w)) = w
after (err e) = created_world

abbrev answer_in : Result (HttpResult × World) → HttpResult
answer_in (ok (a, w)) = a
answer_in (err e) = record {
  http_status = 500;
  body = envelope 0 0 OperationStatus.processing none;
  replayed = false;
}

abbrev result_in : Result (FinalizedResult × World) → FinalizedResult
result_in (ok (r, w)) = r
result_in (err e) = record {
  response = record {
    amount = pos 0;
    failure_code = none;
    operation_id = 0;
    payment_intent_id = 0;
    resource_id = 0;
    status = OperationStatus.processing;
  };
  already_finalized = false;
}

abbrev authorizing : Result (HttpResult × World)
authorizing =
    initiate setting (Command.authorize (pos 600)) (request 1) (new_ids 900) created_world
      created_world

abbrev authorized : Result (FinalizedResult × World)
authorized = finalize_verified_attempt 900 70 finalizer 60 90 (after authorizing)

abbrev capturing : Result (HttpResult × World)
capturing =
    initiate setting (Command.capture none) (request 2) (new_ids 901) (after authorized)
      (after authorized)

abbrev captured : Result (FinalizedResult × World)
captured = finalize_verified_attempt 901 71 finalizer 61 91 (after capturing)

absent :
    (t : ResourceType) (id : ℕ) (r : Resource)
    → find_resource t id created_world ≡ some r
    → (o : Operation) × (find_operation (operation_of r) created_world ≡ some o)
      × (o.resource_type ≡ t)
      × (o.resource_id ≡ id)
      × (o.status ≡ status_of r)
unfolding record_creation
absent ResourceType.authorization id r f = elim (none-ne-some r f) [ ]
absent ResourceType.capture id r f = elim (none-ne-some r f) [ ]
absent ResourceType.void id r f = elim (none-ne-some r f) [ ]
absent ResourceType.refund id r f = elim (none-ne-some r f) [ ]

created-Kept : Kept created_world
unfolding record_creation reserved_sum
created-Kept = (
  tt,
  record {
    linked = record {
      forward = λ t id r f. absent t id r f;
      backward = λ o r f g. ground (arith, f);
      kinds = λ o f. ground (arith, f);
    };
    refund_ids = tt;
    exclusive = λ c v e f. ground (arith, e);
    within = λ c e. ground (arith, e);
    refundable = (tt, omega arith);
  },
)

abbrev refunding : Result (HttpResult × World)
refunding =
    initiate setting (Command.refund (record { amount = pos 400; reference_is_taken = false }))
      (request 3) (new_ids 902) (after captured) (after captured)

refunding-History : History created_world (after refunding)
unfolding moves_nothing initiate initiate_authorization initiate_capture initiate_refund
    authorize_payment new_authorization capture_payment new_capture refund_payment reserved_sum
    capture_fee active_fee_schedule newest attach_key attach_existing insert_key insert_operation
    operation_envelope existing_operation_result finalize_verified_attempt finalize_open judge
    resource_of finalize_resource transition terminal_result post_capture_journal require
    platform_account post_journal record_creation expire_payment put_operation close_keys ◌+ℤ◌ ◌-ℤ◌
refunding-History =
    next
      (next
        (next
          (next
            (next
              (next start (
                command setting (Command.authorize (pos 600)) (request 1) (new_ids 900)
                  (answer_in authorizing) refl))
              (transaction (finalize 900 70 finalizer 60 90 (result_in authorized) refl)))
            (command setting (Command.capture none) (request 2) (new_ids 901) (answer_in capturing)
              refl))
          (transaction (finalize 901 71 finalizer 61 91 (result_in captured) refl)))
        (sweep 9999 0 (after captured) refl))
      (command setting (Command.refund (record { amount = pos 400; reference_is_taken = false }))
        (request 3) (new_ids 902) (answer_in refunding) refl)

History-Kept_example : Kept (after refunding)
History-Kept_example = History-Kept refunding-History created-Kept

-- The authorization is sent again, with other ids, another clock and no fee calculator.
initiate_again_example :
    (b : HttpResult) × (initiate
        (record setting { now = 500; calculator = λ _ _. err value_error })
        (Command.authorize (pos 600))
        (request 1)
        (new_ids 950)
        (after authorizing)
        created_world
      ≡ ok (b, after authorizing))
    × SameAnswer (answer_in authorizing) b
unfolding moves_nothing initiate initiate_authorization initiate_capture initiate_refund
    authorize_payment new_authorization capture_payment new_capture refund_payment reserved_sum
    capture_fee active_fee_schedule newest attach_key attach_existing insert_key insert_operation
    operation_envelope existing_operation_result finalize_verified_attempt finalize_open judge
    resource_of finalize_resource transition terminal_result post_capture_journal require
    platform_account post_journal record_creation expire_payment put_operation close_keys ◌+ℤ◌ ◌-ℤ◌
initiate_again_example =
    initiate_again setting (record setting { now = 500; calculator = λ _ _. err value_error })
      (Command.authorize (pos 600)) (request 1) (new_ids 900) (new_ids 950) created_world
      (after authorizing) created_world created_world (answer_in authorizing) created-Kept.1.linked
      refl refl

abbrev captured_key : IdempotencyRecord
captured_key = record {
  key_digest = 2;
  fingerprint_sha256 = 5;
  provider_operation_id = 901;
  is_terminal = false;
  response = none;
  finalized_at = none;
}

-- The capture is sent again after the provider has confirmed it.
finalize_then_initiate_example :
    initiate setting (Command.capture none) (request 2) (new_ids 960) (after captured) created_world
    ≡ ok (
      record { http_status = 200; body = finalized (result_in captured).response; replayed = true },
      after captured,
    )
unfolding moves_nothing initiate initiate_authorization initiate_capture initiate_refund
    authorize_payment new_authorization capture_payment new_capture refund_payment reserved_sum
    capture_fee active_fee_schedule newest attach_key attach_existing insert_key insert_operation
    operation_envelope existing_operation_result finalize_verified_attempt finalize_open judge
    resource_of finalize_resource transition terminal_result post_capture_journal require
    platform_account post_journal record_creation expire_payment put_operation close_keys ◌+ℤ◌ ◌-ℤ◌
finalize_then_initiate_example =
    finalize_then_initiate setting (Command.capture none) (request 2) (new_ids 960) created_world
      901 71 finalizer 61 91 (after capturing) (after captured) (result_in captured)
      (capture_operation (new_ids 901) (after authorized)) captured_key tt refl refl refl refl refl
      refl refl

abbrev expiring : Result (ℕ × World)
expiring = expire_payment 9999 (after authorized) (after authorized)

abbrev reauthorizing : Result (HttpResult × World)
reauthorizing =
    initiate setting (Command.authorize (pos 600)) (request 8) (new_ids 970) (after expiring)
      (after expiring)

-- The hold has lapsed, and the first authorization is asked for again under another key.
expire_then_initiate_example :
    ((after reauthorizing).payment.status ≡ expired)
    × ((after reauthorizing).capture ≡ none)
    × ((after reauthorizing).void ≡ (after expiring).void)
unfolding moves_nothing initiate initiate_authorization initiate_capture initiate_refund
    authorize_payment new_authorization capture_payment new_capture refund_payment reserved_sum
    capture_fee active_fee_schedule newest attach_key attach_existing insert_key insert_operation
    operation_envelope existing_operation_result finalize_verified_attempt finalize_open judge
    resource_of finalize_resource transition terminal_result post_capture_journal require
    platform_account post_journal record_creation expire_payment put_operation close_keys ◌+ℤ◌ ◌-ℤ◌
expire_then_initiate_example =
    expire_then_initiate 9999 (after authorized) (after authorized) (after expiring)
      (after reauthorizing) setting (Command.authorize (pos 600)) (request 8) (new_ids 970)
      (answer_in reauthorizing) refl refl
