-- ===== src/Base/Results.antt =====
-- Exceptions as values. A database transaction that raises is rolled back, so a step on a
-- state returns its new state only beside a result.
use mathlib.Core.Path.{◌≡◌, refl}
use mathlib.Core.Logic.{◌⊎◌, inl, inr}
use mathlib.Core.Bool.{Bool, true, false}
use mathlib.Core.Option.{Option, none, some}

-- `RelayPayError` by its code; `ValueError`; `RuntimeError`; `AttributeError`; and the database's own refusals.
pub data Failure : Type 0 where
  illegal_payment_transition payment_state_stale : Failure
  ledger_account_missing : Failure
  idempotency_key_reused command_conflict payment_not_found : Failure
  beneficiary_not_found payout_not_found : Failure
  capture_requires_succeeded_authorization capture_amount_exceeds_authorized : Failure
  capture_already_exists void_in_progress payment_not_capturable authorization_expired : Failure
  void_requires_succeeded_authorization payment_not_voidable : Failure
  refund_requires_succeeded_capture refund_amount_exceeds_available : Failure
  insufficient_payout_balance payout_retry_not_allowed payout_in_progress : Failure
  settlement_in_progress merchant_account_not_found operation_not_found : Failure
  lookup_not_available operation_not_in_review operation_terminal lookup_in_progress : Failure
  value_error runtime_error attribute_error : Failure
  stale_balance_version integrity_error check_violation : Failure

pub data Result {ℓ} (Value : Type ℓ) : Type ℓ where
  err : Failure → Result Value
  ok : Value → Result Value

-- `if x is None: raise failure`
abbrev pub or_raise {ℓ} : {Value : Type ℓ} → Option Value → Failure → Result Value
or_raise (some value) failure = ok value
or_raise none failure = err failure

-- `if test: raise failure`
abbrev pub raise_if : Bool → Failure → Result (Unit {0})
raise_if false failure = ok tt
raise_if true failure = err failure

-- The rest of a body runs only after a step that did not raise.
infixl 5 ◌>>=◌
abbrev pub ◌>>=◌ {ℓ κ} :
    {Step : Type ℓ} {Rest : Type κ} → Result Step → (Step → Result Rest) → Result Rest
err failure >>= rest = err failure
ok value >>= rest = rest value

infixl 5 ◌>>◌
abbrev pub ◌>>◌ {ℓ} : {Rest : Type ℓ} → Result (Unit {0}) → Result Rest → Result Rest
check >> rest = check >>= λ _. rest

pub Result-cases {ℓ} :
    {Value : Type ℓ} (r : Result Value)
    → ((value : Value) × (r ≡ ok value)) ⊎ ((failure : Failure) × (r ≡ err failure))
Result-cases (ok value) = inl (value, refl)
Result-cases (err failure) = inr (failure, refl)

pub ok-inj {ℓ} : {Value : Type ℓ} {x y : Value} → ok x ≡ ok y → x ≡ y
ok-inj e = cc
