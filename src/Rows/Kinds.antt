-- ===== src/Rows/Kinds.antt =====
-- The enumerations of the tables' check constraints.
use relaypay.Base.{ℕ, Bool, true, false}

-- Of a provider operation, and of its resource.
pub data OperationStatus : Type 0 where
  processing requires_review succeeded failed : OperationStatus

abbrev pub is_terminal : OperationStatus → Bool
is_terminal succeeded = true
is_terminal failed = true
is_terminal _ = false

abbrev pub is_succeeded : OperationStatus → Bool
is_succeeded succeeded = true
is_succeeded _ = false

abbrev pub is_failed : OperationStatus → Bool
is_failed failed = true
is_failed _ = false

abbrev pub is_processing : OperationStatus → Bool
is_processing processing = true
is_processing _ = false

abbrev pub is_in_review : OperationStatus → Bool
is_in_review requires_review = true
is_in_review _ = false

pub data ResourceType : Type 0 where
  authorization capture refund void : ResourceType

-- `kind`
pub data CommandKind : Type 0 where
  authorize capture refund void : CommandKind

-- `authorize:{payment}`, `capture:{payment}`, `void:{payment}`, `refund:{refund}`
pub data StableKey : Type 0 where
  authorize_key capture_key void_key refund_key : ℕ → StableKey

pub data Actor : Type 0 where
  request recovery_worker admin_lookup finalizer webhook expiry_worker : Actor

pub data AttemptKind : Type 0 where
  mutation lookup webhook_evidence : AttemptKind

abbrev pub is_mutation : AttemptKind → Bool
is_mutation mutation = true
is_mutation _ = false

abbrev pub is_lookup_kind : AttemptKind → Bool
is_lookup_kind lookup = true
is_lookup_kind _ = false

pub data AttemptState : Type 0 where
  sent response_received transport_error validation_rejected : AttemptState

pub data Classification : Type 0 where
  ambiguous_transport ambiguous_http_5xx non_business_http_4xx : Classification
  invalid_signature invalid_schema mismatched_evidence : Classification
  verified_success verified_business_decline verified_pending : Classification
  verified_not_found verified_not_found_final verified_not_found_within_grace : Classification

-- The classifications that `finalize_verified_attempt` accepts.
abbrev pub is_final : Classification → Bool
is_final verified_success = true
is_final verified_business_decline = true
is_final verified_not_found_final = true
is_final _ = false

abbrev pub is_success : Classification → Bool
is_success verified_success = true
is_success _ = false

pub data ReviewReason : Type 0 where
  invalid_evidence evidence_mismatch provider_indeterminate apply_failure : ReviewReason
  contradicts_terminal_state : ReviewReason

-- `reason_code` of a row of `operation_history`.
pub data ReasonCode : Type 0 where
  classified : Classification → ReasonCode
  reviewed : ReviewReason → ReasonCode

-- `reason` of a row of `payment_status_history`.
pub data StatusReason : Type 0 where
  payment_created authorization_succeeded authorization_declined : StatusReason
  capture_succeeded capture_declined void_succeeded refund_succeeded : StatusReason
  authorization_expired : StatusReason

pub data EventType : Type 0 where
  payment_authorized_v1 payment_captured_v1 refund_succeeded_v1 : EventType
