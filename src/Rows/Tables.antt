-- ===== src/Rows/Tables.antt =====
-- The tables' rows. Ids, public ids, digests and times are numbers; amounts are signed, as in the
-- source. The organisation and environment columns are those of the payment in every row, and
-- the currency is INR. A digest column beside a bytes column is left out.
use relaypay.Base.{ℕ, String, Option, Bool}
use relaypay.Base.Int.{ℤ}
use relaypay.Payments.Status.{PaymentStatus}
use relaypay.Rows.Kinds.{
  OperationStatus, ResourceType, CommandKind, StableKey, Actor, AttemptKind, AttemptState,
  Classification, ReviewReason, ReasonCode, StatusReason, EventType,
}

pub record Payment : Type 0 where
  pub id : ℕ
  pub public_id : ℕ
  pub merchant_account_id : ℕ
  pub amount : ℤ
  pub status : PaymentStatus
  pub status_version : ℕ

pub record PaymentStatusHistory : Type 0 where
  pub from_status : Option PaymentStatus
  pub to_status : PaymentStatus
  pub reason : StatusReason
  pub actor : Actor
  pub status_version : ℕ

pub record Authorization : Type 0 where
  pub id : ℕ
  pub public_id : ℕ
  pub provider_operation_id : ℕ
  pub amount : ℤ
  pub status : OperationStatus
  pub failure_code : Option String
  pub authorized_at : Option ℕ
  pub hold_seconds : ℕ
  pub expires_at : Option ℕ

pub record Capture : Type 0 where
  pub id : ℕ
  pub public_id : ℕ
  pub authorization_id : ℕ
  pub provider_operation_id : ℕ
  pub amount : ℤ
  pub fee_amount : ℤ
  pub gst_amount : ℤ
  pub fee_schedule_version_id : Option ℕ
  pub status : OperationStatus
  pub failure_code : Option String
  pub captured_at : Option ℕ
  pub journal_id : Option ℕ

pub record Void : Type 0 where
  pub id : ℕ
  pub public_id : ℕ
  pub authorization_id : ℕ
  pub provider_operation_id : ℕ
  pub amount : ℤ
  pub status : OperationStatus
  pub failure_code : Option String
  pub voided_at : Option ℕ

pub record Refund : Type 0 where
  pub id : ℕ
  pub public_id : ℕ
  pub capture_id : ℕ
  pub provider_operation_id : ℕ
  pub amount : ℤ
  pub status : OperationStatus
  pub failure_code : Option String
  pub refunded_at : Option ℕ
  pub journal_id : Option ℕ

-- `canonical_json_bytes` of a finalized command: amount, failure code, operation, payment,
-- resource, status; the currency is INR.
pub record Response : Type 0 where
  pub amount : ℤ
  pub failure_code : Option String
  pub operation_id : ℕ
  pub payment_intent_id : ℕ
  pub resource_id : ℕ
  pub status : OperationStatus

-- The canonical request: account, amount, kind, reference, stable key.
pub record ProviderRequest : Type 0 where
  pub account_id : ℕ
  pub amount : ℤ
  pub operation_kind : CommandKind
  pub reference : ℕ
  pub stable_key : StableKey

-- `terminal_response` holds `terminal_http_status` and the bytes beside it, which a check
-- constraint makes NULL together; the status is 200 wherever it is written.
pub record Operation : Type 0 where
  pub id : ℕ
  pub public_id : ℕ
  pub resource_type : ResourceType
  pub resource_id : ℕ
  pub kind : CommandKind
  pub stable_provider_key : StableKey
  pub status : OperationStatus
  pub review_reason : Option ReviewReason
  pub provider_request : Option ProviderRequest
  pub attempt_count : ℕ
  pub last_sent_at : Option ℕ
  pub next_lookup_at : Option ℕ
  pub lookup_lease_token : Option ℕ
  pub lookup_lease_expires_at : Option ℕ
  pub apply_failure_count : ℕ
  pub terminal_response : Option Response
  pub finalized_at : Option ℕ
  pub created_at : ℕ

pub record Attempt : Type 0 where
  pub id : ℕ
  pub provider_operation_id : ℕ
  pub sequence : ℕ
  pub attempt_kind : AttemptKind
  pub state : AttemptState
  pub started_at : ℕ
  pub completed_at : Option ℕ
  pub response_http_status : Option ℕ
  pub response_sha256 : Option ℕ
  pub provider_signature_valid : Option Bool
  pub classification : Option Classification
  pub safe_error_code : Option String

-- A key that is bound to an operation. `response` is set exactly on a terminal record.
pub record IdempotencyRecord : Type 0 where
  pub key_digest : ℕ
  pub fingerprint_sha256 : ℕ
  pub provider_operation_id : ℕ
  pub is_terminal : Bool
  pub response : Option Response
  pub finalized_at : Option ℕ

pub record OperationHistory : Type 0 where
  pub provider_operation_id : ℕ
  pub from_status : OperationStatus
  pub to_status : OperationStatus
  pub reason_code : ReasonCode
  pub evidence_attempt_id : Option ℕ
  pub actor_type : Actor

pub record MerchantEvent : Type 0 where
  pub provider_operation_id : ℕ
  pub event_type : EventType
  pub resource_public_id : ℕ
  pub amount : ℤ
  pub occurred_at : ℕ
