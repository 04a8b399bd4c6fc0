-- ===== src/Commands/Reverse.antt =====
-- The commands that void and refund: payments/service.py.
use relaypay.Base.{
  Option, none, some, List, [], ◌∷◌, ◌++◌, Bool, not, ◌||◌, Result, ◌>>=◌, ◌>>◌, raise_if, or_raise,
  integrity_error, void_requires_succeeded_authorization, payment_not_voidable,
  refund_requires_succeeded_capture, refund_amount_exceeds_available, ◌==◌, if◌then◌else◌, is_some,
  any,
}
use relaypay.Base.Int.{ℤ, pos, ◌+ℤ◌, ◌-ℤ◌, ltb_ℤ}
use relaypay.Payments.Status.{authorised, same_status}
use relaypay.Rows.{
  OperationStatus, is_succeeded, is_failed, ResourceType, CommandKind, void_key, refund_key,
  Authorization, Capture, Void, Refund, World,
}
use relaypay.Commands.Requests.{
  HttpResult, Request, Fresh, attach_key, attach_existing, insert_operation, check_amount,
  new_operation, with_key, recovering,
}
use relaypay.Commands.Initiate.{succeeded_authorization}

abbrev pub void_row : Fresh → Authorization → Void
void_row fresh authorization = record {
  id = fresh.resource_id;
  public_id = fresh.resource_public_id;
  authorization_id = authorization.id;
  provider_operation_id = fresh.operation_id;
  amount = authorization.amount;
  status = OperationStatus.processing;
  failure_code = none;
  voided_at = none;
}

unfoldable pub new_void : Request → Fresh → World → Result (HttpResult × World)
new_void request fresh w = do
  authorization ← or_raise (succeeded_authorization w) void_requires_succeeded_authorization
  raise_if (is_some w.capture || not (same_status w.payment.status authorised)) payment_not_voidable
  let operation =
      new_operation fresh ResourceType.void CommandKind.void (void_key w.payment.public_id)
  check_amount authorization.amount
  w' ← insert_operation operation w
  attach_key request operation fresh.resource_public_id
      (record w' { void = some (void_row fresh authorization) })

unfoldable pub void_payment : Request → Fresh → World → Result (HttpResult × World)
void_payment request fresh w = elim w.void [
  | none ↦ new_void request fresh w
  | some v ↦ attach_existing request v.provider_operation_id v.public_id w
]

unfoldable pub initiate_void : Request → Fresh → World → World → Result (HttpResult × World)
initiate_void request fresh w later =
    recovering request later (with_key request w (void_payment request fresh w))

-- The capture of a query with `status == "SUCCEEDED"`.
abbrev pub succeeded_capture : World → Option Capture
succeeded_capture w = elim w.capture [
  | none ↦ none
  | some c ↦ if is_succeeded c.status then some c else none
]

-- `coalesce(sum(Refund.amount), 0)` over the PROCESSING, REQUIRES_REVIEW and SUCCEEDED refunds.
unfoldable pub reserved_sum : List Refund → ℤ
reserved_sum [] = pos 0
reserved_sum (r ∷ rs) = (if is_failed r.status then pos 0 else r.amount) +ℤ reserved_sum rs

-- `payload.amount`, and whether another refund of the environment has the merchant's reference.
pub record RefundCreate : Type 0 where
  pub amount : ℤ
  pub reference_is_taken : Bool

-- The public id `ref_{hex}` and the provider's key are made of the row's id.
abbrev pub refund_row : Fresh → Capture → ℤ → Refund
refund_row fresh capture amount = record {
  id = fresh.resource_id;
  public_id = fresh.resource_id;
  capture_id = capture.id;
  provider_operation_id = fresh.operation_id;
  amount = amount;
  status = OperationStatus.processing;
  failure_code = none;
  refunded_at = none;
  journal_id = none;
}

unfoldable pub refund_payment : RefundCreate → Request → Fresh → World → Result (HttpResult × World)
refund_payment payload request fresh w = do
  capture ← or_raise (succeeded_capture w) refund_requires_succeeded_capture
  raise_if (ltb_ℤ (capture.amount -ℤ reserved_sum w.refunds) payload.amount)
      refund_amount_exceeds_available
  let operation =
      new_operation fresh ResourceType.refund CommandKind.refund (refund_key fresh.resource_id)
  check_amount payload.amount
  raise_if payload.reference_is_taken integrity_error
  raise_if (any (λ r. r.id == fresh.resource_id) w.refunds) integrity_error
  w' ← insert_operation operation w
  attach_key request operation fresh.resource_id
      (record w' { refunds = w.refunds ++ refund_row fresh capture payload.amount ∷ [] })

unfoldable pub initiate_refund :
    RefundCreate → Request → Fresh → World → World → Result (HttpResult × World)
initiate_refund payload request fresh w later =
    recovering request later (with_key request w (refund_payment payload request fresh w))
