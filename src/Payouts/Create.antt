-- ===== src/Payouts/Create.antt =====
-- `create_payout` of payouts/service.py, which reserves a merchant's available balance. The caller is
-- an administrator of the environment.
use relaypay.Base.{
  ℕ, ◌+◌, Option, none, some, List, [], ◌∷◌, ◌++◌, Bool, true, false, not, ◌&&◌, ◌||◌, Result, ok,
  err, ◌>>=◌, ◌>>◌, raise_if, or_raise, integrity_error, check_violation, stale_balance_version,
  idempotency_key_reused, payout_in_progress, insufficient_payout_balance,
  merchant_account_not_found, beneficiary_not_found, ◌==◌, if◌then◌else◌, find, any,
}
use relaypay.Base.Int.{ℤ, pos, ltb_ℤ, leb_ℤ}
use relaypay.Ledger.Books.{reserved}
use relaypay.Rows.{OperationStatus}
use relaypay.Payouts.Tables.{Beneficiary, MerchantAccount, Payout, payout_created, Treasury}
use relaypay.Payouts.Reserve.{
  derive_balances, ReservationGuard, is_constraint, reservation, check_coverage, history_row,
  payout_body, CommandResult, attempt_row, attempt_collides_with, row_lock, version,
}

pub record PayoutRequest : Type 0 where
  pub merchant_public_id : ℕ
  pub beneficiary_public_id : ℕ
  pub amount : ℤ
  pub key_digest : ℕ
  pub fingerprint_sha256 : ℕ

-- New ids.
pub record NewPayout : Type 0 where
  pub payout_id : ℕ
  pub payout_public_id : ℕ
  pub attempt_id : ℕ

abbrev pub find_merchant : ℕ → Treasury → Option MerchantAccount
find_merchant public_id t = find (λ m. m.public_id == public_id && m.is_active) t.merchants

abbrev pub find_beneficiary : ℕ → Treasury → Option Beneficiary
find_beneficiary public_id t = find (λ b. b.public_id == public_id && b.is_active) t.beneficiaries

abbrev pub payout_row : PayoutRequest → NewPayout → MerchantAccount → Beneficiary → Payout
payout_row request new m b = record {
  id = new.payout_id;
  public_id = new.payout_public_id;
  merchant_account_id = m.id;
  beneficiary_id = b.id;
  amount = request.amount;
  status = OperationStatus.processing;
  failure_code = none;
  review_reason = none;
  journal_id = none;
  idempotency_key_digest = request.key_digest;
  fingerprint_sha256 = request.fingerprint_sha256;
  response = none;
  completed_at = none;
}

-- The primary key and the unique constraint on the digest.
abbrev pub payout_collides : Payout → Payout → Bool
payout_collides p q = q.id == p.id || q.idempotency_key_digest == p.idempotency_key_digest

-- The compare-and-swap of the guard VERSION.
unfoldable pub advance_version : ℕ → ℕ → List MerchantAccount → Result (List MerchantAccount)
advance_version id read [] = err stale_balance_version
advance_version id read (m ∷ ms) =
    let rest = advance_version id read ms in
    if m.id == id
    then (do
      raise_if (not (m.balance_version == read)) stale_balance_version
      ok (record m { balance_version = read + 1 } ∷ ms))
    else (do ms' ← rest; ok (m ∷ ms'))

unfoldable pub advance :
    ReservationGuard → MerchantAccount → List MerchantAccount → Result (List MerchantAccount)
unfolding advance_version
advance version m ms = advance_version m.id m.balance_version ms
advance _ m ms = ok ms

-- The writes of a new payout, and the check at commit. `read` is the merchant's row as it was read.
unfoldable pub insert_payout :
    ReservationGuard
    → PayoutRequest
    → NewPayout
    → MerchantAccount
    → Beneficiary
    → Treasury
    → Result (CommandResult × Treasury)
unfolding advance
insert_payout guard request new read b t = do
  let p = payout_row request new read b
  let a = attempt_row new.attempt_id p 1 none
  raise_if (any (payout_collides p) t.payouts) integrity_error
  raise_if (any (attempt_collides_with a) t.attempts) integrity_error
  merchants ← advance guard read t.merchants
  let books = reservation p reserved p.amount t.books
  let body = payout_body p b a
  check_coverage p.merchant_account_id books
  ok (
    record { status_code = 202; body = body; replayed = false },
    record t {
      merchants = merchants;
      payouts = t.payouts ++ record p { response = some (202, body) } ∷ [];
      attempts = t.attempts ++ a ∷ [];
      history = t.history ++ history_row p a none OperationStatus.processing payout_created ∷ [];
      books = books;
    },
  )

-- `_create_payout_transaction`. The balances are those of `seen`, which under the row lock is the
-- state itself and under the other guards an earlier one.
unfoldable pub create_payout_in :
    ReservationGuard
    → PayoutRequest
    → NewPayout
    → Treasury
    → Treasury
    → Result (CommandResult × Treasury)
unfolding insert_payout
create_payout_in guard request new seen t =
    elim (find (λ p. p.idempotency_key_digest == request.key_digest) t.payouts) [
      | some p ↦ (do
        raise_if (not (p.fingerprint_sha256 == request.fingerprint_sha256)) idempotency_key_reused
        (code, body) ← or_raise p.response payout_in_progress
        ok (record { status_code = code; body = body; replayed = true }, t))
      | none ↦ (do
        b ← or_raise (find_beneficiary request.beneficiary_public_id t) beneficiary_not_found
        read ← or_raise (find_merchant request.merchant_public_id seen) merchant_account_not_found
        balances ← derive_balances seen.books read.id
        raise_if
            (leb_ℤ request.amount (pos 0)
              || ltb_ℤ balances.payout_eligible request.amount && not (is_constraint guard))
            insufficient_payout_balance
        insert_payout guard request new read b t)
    ]

-- Under the row lock no other reservation commits between the read and the write.
abbrev pub seen_under : ReservationGuard → Treasury → Treasury → Treasury
seen_under row_lock seen t = t
seen_under _ seen t = seen

-- `except IntegrityError`, which a violated constraint or trigger raises.
abbrev pub once_more :
    Result (CommandResult × Treasury)
    → Result (CommandResult × Treasury)
    → Result (CommandResult × Treasury)
once_more (err integrity_error) again = again
once_more (err check_violation) again = again
once_more outcome again = outcome

-- The second transaction, with new ids, finds the state `later`.
unfoldable pub create_payout :
    ReservationGuard
    → PayoutRequest
    → NewPayout
    → NewPayout
    → Treasury
    → Treasury
    → Treasury
    → Treasury
    → Result (CommandResult × Treasury)
create_payout guard request new new' seen t seen' later =
    once_more (create_payout_in guard request new (seen_under guard seen t) t)
      (create_payout_in guard request new' (seen_under guard seen' later) later)
