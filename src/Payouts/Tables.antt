-- ===== src/Payouts/Tables.antt =====
-- The rows of payouts/models.py, beside the books of the environment. A payout is found by its id, an attempt by its own.
use relaypay.Base.{ℕ, String, Option, List, [], ◌∷◌, Bool, true, false, ◌==◌, if◌then◌else◌, find}
use relaypay.Base.Int.{ℤ}
use relaypay.Ledger.Books.{Books}
use relaypay.Rows.{OperationStatus}

-- `is_active` is `status == "ACTIVE"`.
pub record Beneficiary : Type 0 where
  pub id : ℕ
  pub public_id : ℕ
  pub bank_account_reference : ℕ
  pub is_active : Bool

-- `balance_version` is what the guard VERSION compares.
pub record MerchantAccount : Type 0 where
  pub id : ℕ
  pub public_id : ℕ
  pub balance_version : ℕ
  pub is_active : Bool

-- `payout:{payout}:attempt:{number}`
pub record StablePayoutKey : Type 0 where
  pub payout : ℕ
  pub number : ℕ

-- The codes of `_classify`; the last is the bank's own decline code.
pub data BankCode : Type 0 where
  transport_ambiguous signature_invalid response_invalid response_mismatched : BankCode
  effect_not_found outcome_pending : BankCode
  decline_code : String → BankCode

-- `_payout_body`
pub record PayoutBody : Type 0 where
  pub amount : ℤ
  pub attempt_number : ℕ
  pub beneficiary_id : ℕ
  pub failure_code : Option BankCode
  pub id : ℕ
  pub review_reason : Option BankCode
  pub stable_provider_key : StablePayoutKey
  pub status : OperationStatus

-- `response` is the HTTP status with the bytes.
pub record Payout : Type 0 where
  pub id : ℕ
  pub public_id : ℕ
  pub merchant_account_id : ℕ
  pub beneficiary_id : ℕ
  pub amount : ℤ
  pub status : OperationStatus
  pub failure_code : Option BankCode
  pub review_reason : Option BankCode
  pub journal_id : Option ℕ
  pub idempotency_key_digest : ℕ
  pub fingerprint_sha256 : ℕ
  pub response : Option (ℕ × PayoutBody)
  pub completed_at : Option ℕ

pub data AttemptStatus : Type 0 where
  prepared sent ambiguous succeeded failed : AttemptStatus

-- `attempt.status in {"SUCCEEDED", "FAILED"}`
abbrev pub is_over : AttemptStatus → Bool
is_over succeeded = true
is_over failed = true
is_over _ = false

-- The canonical request to the bank; the currency is INR.
pub record BankRequest : Type 0 where
  pub account_id : ℕ
  pub amount : ℤ
  pub beneficiary_reference : ℕ
  pub payout_reference : ℕ
  pub stable_key : StablePayoutKey

-- `command` is the digest and the fingerprint of a retry, which are NULL together.
pub record PayoutAttempt : Type 0 where
  pub id : ℕ
  pub payout_id : ℕ
  pub attempt_number : ℕ
  pub stable_provider_key : StablePayoutKey
  pub status : AttemptStatus
  pub request : Option BankRequest
  pub last_sent_at : Option ℕ
  pub failure_code : Option BankCode
  pub review_reason : Option BankCode
  pub command : Option (ℕ × ℕ)
  pub response : Option PayoutBody

pub record BankClassification : Type 0 where
  pub terminal : Bool
  pub succeeded : Bool
  pub ambiguous : Bool
  pub signature_valid : Option Bool
  pub code : Option BankCode

pub data EvidenceKind : Type 0 where
  mutation_send mutation_result lookup : EvidenceKind

-- `classification` has the columns that the classification of an answer fills; the bytes and the
-- digests are left out.
pub record PayoutAttemptEvidence : Type 0 where
  pub payout_attempt_id : ℕ
  pub sequence : ℕ
  pub evidence_kind : EvidenceKind
  pub classification : Option BankClassification

pub data PayoutReason : Type 0 where
  payout_created admin_retry verified_bank_success : PayoutReason
  bank_reason : Option BankCode → PayoutReason

pub record PayoutHistory : Type 0 where
  pub payout_id : ℕ
  pub payout_attempt_id : ℕ
  pub from_status : Option OperationStatus
  pub to_status : OperationStatus
  pub reason_code : PayoutReason

-- `payout.succeeded.v1`
pub record PayoutEvent : Type 0 where
  pub payout_id : ℕ
  pub amount : ℤ

pub record Treasury : Type 0 where
  pub beneficiaries : List Beneficiary
  pub merchants : List MerchantAccount
  pub payouts : List Payout
  pub attempts : List PayoutAttempt
  pub evidence : List PayoutAttemptEvidence
  pub history : List PayoutHistory
  pub events : List PayoutEvent
  pub books : Books

abbrev pub find_payout : ℕ → Treasury → Option Payout
find_payout id t = find (λ p. p.id == id) t.payouts

abbrev pub find_payout_attempt : ℕ → Treasury → Option PayoutAttempt
find_payout_attempt id t = find (λ a. a.id == id) t.attempts

unfoldable pub put_payout : Payout → List Payout → List Payout
put_payout p [] = []
put_payout p (q ∷ qs) = (if q.id == p.id then p else q) ∷ put_payout p qs

unfoldable pub put_payout_attempt : PayoutAttempt → List PayoutAttempt → List PayoutAttempt
put_payout_attempt a [] = []
put_payout_attempt a (b ∷ bs) = (if b.id == a.id then a else b) ∷ put_payout_attempt a bs
