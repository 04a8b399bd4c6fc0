-- ===== src/Commands/Initiate.antt =====
-- The commands that authorize and capture: payments/service.py. `w` is the state that the command's transaction locks,
-- `later` the one in which a recovery from a lost race looks for the winner.
use relaypay.Base.{
  ℕ, Option, none, some, List, Bool, false, not, ◌&&◌, ◌||◌, Result, ◌>>=◌, ◌>>◌, raise_if,
  or_raise, value_error, integrity_error, capture_requires_succeeded_authorization,
  capture_amount_exceeds_authorized, capture_already_exists, void_in_progress,
  payment_not_capturable, authorization_expired, if◌then◌else◌, is_at_most,
}
use relaypay.Base.Int.{ℤ, pos, pos_part, ◌+ℤ◌, ltb_ℤ, leb_ℤ}
use relaypay.Fees.Calculator.{FeeScheduleTerms, FeeBreakdown}
use relaypay.Fees.Schedule.{FeeScheduleVersion, CaptureFee, capture_fee}
use relaypay.Ledger.Posting.{equal_ℤ}
use relaypay.Payments.Status.{PaymentStatus, cancelled, expired, failed, same_status}
use relaypay.Rows.{
  OperationStatus, is_succeeded, is_failed, ResourceType, CommandKind, authorize_key, capture_key,
  Authorization, Capture, World,
}
use relaypay.Commands.Requests.{
  HttpResult, Request, Fresh, attach_key, attach_existing, insert_operation, check_amount,
  new_operation, with_key, recovering,
}

-- The clock of the database, the fee schedules, and the calculator that is passed in.
pub record Setting : Type 0 where
  pub now : ℕ
  pub versions : List FeeScheduleVersion
  pub calculator : ℤ → FeeScheduleTerms → Result FeeBreakdown

-- The new rows.
abbrev pub authorization_row : ℤ → Fresh → World → Authorization
authorization_row hold_seconds fresh w = record {
  id = fresh.resource_id;
  public_id = fresh.resource_public_id;
  provider_operation_id = fresh.operation_id;
  amount = w.payment.amount;
  status = OperationStatus.processing;
  failure_code = none;
  authorized_at = none;
  hold_seconds = pos_part hold_seconds;
  expires_at = none;
}

-- A payment without an authorization gets one.
unfoldable pub new_authorization : ℤ → Request → Fresh → World → Result (HttpResult × World)
new_authorization hold_seconds request fresh w = do
  let operation =
      new_operation fresh ResourceType.authorization CommandKind.authorize
        (authorize_key w.payment.public_id)
  check_amount w.payment.amount
  w' ← insert_operation operation w
  attach_key request operation fresh.resource_public_id
      (record w' { authorization = some (authorization_row hold_seconds fresh w) })

unfoldable pub authorize_payment : ℤ → Request → Fresh → World → Result (HttpResult × World)
authorize_payment hold_seconds request fresh w = elim w.authorization [
  | none ↦ new_authorization hold_seconds request fresh w
  | some a ↦ attach_existing request a.provider_operation_id a.public_id w
]

unfoldable pub initiate_authorization :
    ℤ → Request → Fresh → World → World → Result (HttpResult × World)
initiate_authorization hold_seconds request fresh w later = do
  raise_if (leb_ℤ hold_seconds (pos 0)) value_error
  recovering request later (with_key request w (authorize_payment hold_seconds request fresh w))

-- `authorization is None or authorization.status != "SUCCEEDED"`
abbrev pub succeeded_authorization : World → Option Authorization
succeeded_authorization w = elim w.authorization [
  | none ↦ none
  | some a ↦ if is_succeeded a.status then some a else none
]

-- `authorization.amount if amount is None else amount`
abbrev pub capture_amount : Option ℤ → Authorization → ℤ
capture_amount none a = a.amount
capture_amount (some amount) a = amount

abbrev pub has_open_void : World → Bool
has_open_void w = elim w.void [ none ↦ false | some v ↦ not (is_failed v.status) ]

-- `payment.status in {"cancelled", "expired", "failed"}`
abbrev pub is_dead : PaymentStatus → Bool
is_dead status =
    same_status status cancelled || same_status status expired || same_status status failed

-- `captures_fee_split_check`
abbrev pub check_fee_split : CaptureFee → ℤ → Result (Unit {0})
check_fee_split fee amount =
    raise_if
      (ltb_ℤ fee.fee_amount (pos 0)
        || ltb_ℤ fee.gst_amount (pos 0)
        || ltb_ℤ amount (fee.fee_amount +ℤ fee.gst_amount))
      integrity_error

abbrev pub capture_row : Fresh → Authorization → ℤ → CaptureFee → Capture
capture_row fresh authorization amount fee = record {
  id = fresh.resource_id;
  public_id = fresh.resource_public_id;
  authorization_id = authorization.id;
  provider_operation_id = fresh.operation_id;
  amount = amount;
  fee_amount = fee.fee_amount;
  gst_amount = fee.gst_amount;
  fee_schedule_version_id = fee.fee_schedule_version_id;
  status = OperationStatus.processing;
  failure_code = none;
  captured_at = none;
  journal_id = none;
}

unfoldable pub new_capture :
    Setting → Authorization → ℤ → Request → Fresh → World → Result (HttpResult × World)
new_capture setting authorization amount request fresh w = do
  raise_if (has_open_void w) void_in_progress
  raise_if (is_dead w.payment.status) payment_not_capturable
  raise_if (is_at_most authorization.expires_at setting.now) authorization_expired
  let operation =
      new_operation fresh ResourceType.capture CommandKind.capture (capture_key w.payment.public_id)
  fee ←
      capture_fee setting.now setting.versions w.payment.merchant_account_id amount
        setting.calculator
  check_amount amount
  check_fee_split fee amount
  w' ← insert_operation operation w
  attach_key request operation fresh.resource_public_id
      (record w' { capture = some (capture_row fresh authorization amount fee) })

unfoldable pub capture_payment :
    Setting → Option ℤ → Request → Fresh → World → Result (HttpResult × World)
capture_payment setting requested request fresh w = do
  authorization ← or_raise (succeeded_authorization w) capture_requires_succeeded_authorization
  let amount = capture_amount requested authorization
  raise_if (not (ltb_ℤ (pos 0) amount && leb_ℤ amount authorization.amount))
      capture_amount_exceeds_authorized
  elim w.capture [
    | none ↦ new_capture setting authorization amount request fresh w
    | some c ↦ (do
      raise_if (not (equal_ℤ c.amount amount)) capture_already_exists
      attach_existing request c.provider_operation_id c.public_id w)
  ]

unfoldable pub initiate_capture :
    Setting → Option ℤ → Request → Fresh → World → World → Result (HttpResult × World)
initiate_capture setting requested request fresh w later =
    recovering request later
      (with_key request w (capture_payment setting requested request fresh w))
