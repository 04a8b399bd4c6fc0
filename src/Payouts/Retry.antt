-- ===== src/Payouts/Retry.antt =====
-- `create_retry` of payouts/service.py, which reserves the balance again. The caller is an
-- administrator of the environment.
use relaypay.Base.{
  ℕ, ◌+◌, max, none, some, List, [], ◌∷◌, ◌++◌, Bool, true, false, not, Result, ok, ◌>>=◌, ◌>>◌,
  raise_if, or_raise, runtime_error, integrity_error, idempotency_key_reused,
  insufficient_payout_balance, payout_retry_not_allowed, payout_not_found, ◌==◌, if◌then◌else◌,
  find, any,
}
use relaypay.Base.Int.{ltb_ℤ}
use relaypay.Ledger.Books.{reserved}
use relaypay.Rows.{OperationStatus, is_failed}
use relaypay.Payouts.Tables.{Beneficiary, Payout, PayoutAttempt, admin_retry, Treasury, put_payout}
use relaypay.Payouts.Reserve.{
  derive_balances, reservation, check_coverage, history_row, payout_body, CommandResult,
  attempt_row, attempt_collides_with,
}

-- `max(attempt_number)` of the payout's attempts, or 0.
unfoldable pub last_number : ℕ → List PayoutAttempt → ℕ
last_number payout_id [] = 0
last_number payout_id (a ∷ as') =
    if a.payout_id == payout_id
    then max a.attempt_number (last_number payout_id as')
    else last_number payout_id as'

abbrev pub is_command : ℕ → PayoutAttempt → Bool
is_command digest a = elim a.command [ none ↦ false | some c ↦ c.0 == digest ]

abbrev pub fingerprint_of : PayoutAttempt → ℕ
fingerprint_of a = elim a.command [ none ↦ 0 | some c ↦ c.1 ]

-- The payout as a retry sets it going again.
abbrev pub restarted : Payout → Payout
restarted p = record p {
  status = OperationStatus.processing;
  failure_code = none;
  review_reason = none;
  completed_at = none;
}

-- The writes of a retry, and the check at commit.
unfoldable pub insert_attempt :
    Payout → Beneficiary → ℕ → ℕ → ℕ → Treasury → Result (CommandResult × Treasury)
insert_attempt p b key_digest fingerprint attempt_id t = do
  let p' = restarted p
  let a =
      attempt_row attempt_id p' (last_number p.id t.attempts + 1) (some (key_digest, fingerprint))
  raise_if (any (attempt_collides_with a) t.attempts) integrity_error
  let books = reservation p' reserved p.amount t.books
  let body = payout_body p' b a
  check_coverage p.merchant_account_id books
  ok (
    record { status_code = 201; body = body; replayed = false },
    record t {
      payouts = put_payout p' t.payouts;
      attempts = t.attempts ++ record a { response = some body } ∷ [];
      history =
          t.history ++ history_row p' a (some p.status) OperationStatus.processing admin_retry ∷ [];
      books = books;
    },
  )

-- `create_retry` under a new key.
unfoldable pub retry_payout : ℕ → ℕ → ℕ → ℕ → Treasury → Result (CommandResult × Treasury)
unfolding insert_attempt
retry_payout payout_public_id key_digest fingerprint attempt_id t = do
  p ← or_raise (find (λ q. q.public_id == payout_public_id) t.payouts) payout_not_found
  raise_if (not (is_failed p.status)) payout_retry_not_allowed
  m ← or_raise (find (λ x. x.id == p.merchant_account_id) t.merchants) runtime_error
  balances ← derive_balances t.books m.id
  raise_if (ltb_ℤ balances.payout_eligible p.amount) insufficient_payout_balance
  b ← or_raise (find (λ x. x.id == p.beneficiary_id) t.beneficiaries) runtime_error
  insert_attempt p b key_digest fingerprint attempt_id t

unfoldable pub create_retry : ℕ → ℕ → ℕ → ℕ → Treasury → Result (CommandResult × Treasury)
create_retry payout_public_id key_digest fingerprint attempt_id t =
    elim (find (is_command key_digest) t.attempts) [
      | some a ↦ (do
        raise_if (not (fingerprint_of a == fingerprint)) idempotency_key_reused
        body ← or_raise a.response runtime_error
        ok (record { status_code = 201; body = body; replayed = true }, t))
      | none ↦ retry_payout payout_public_id key_digest fingerprint attempt_id t
    ]
