-- ===== src/Payouts/Reserve.antt =====
-- What the commands on payouts share: `derive_balances` of merchant_balances/service.py, and the
-- reservations, the history and the bodies of payouts/service.py.
use relaypay.Base.{
  ℕ, ◌+◌, max, Option, none, List, [], ◌∷◌, ◌++◌, Bool, true, false, not, ◌&&◌, ◌||◌, Result, ok,
  ◌>>=◌, ◌>>◌, raise_if, check_violation, ◌==◌, if◌then◌else◌,
}
use relaypay.Base.Int.{ℤ, pos, neg, ◌-ℤ◌, ltb_ℤ}
use relaypay.Ledger.Books.{
  Books, ReservationAction, Reservation, merchant, pending_payable_liability,
  available_payable_liability, merchant_receivable_asset, require, credit_balance,
}
use relaypay.Ledger.Refund.{max_ℤ, reservation_sum, reserved_payout_amount}
use relaypay.Rows.{OperationStatus}
use relaypay.Payouts.Tables.{
  Beneficiary, PayoutBody, Payout, AttemptStatus, is_over, PayoutAttempt, PayoutReason,
  PayoutHistory,
}

pub record MerchantBalances : Type 0 where
  pub pending : ℤ
  pub available : ℤ
  pub receivable : ℤ
  pub reserved_amount : ℤ
  pub payout_eligible : ℤ

-- A liability is credit-normal, an asset debit-normal.
unfoldable pub derive_balances : Books → ℕ → Result MerchantBalances
derive_balances books m = do
  require (merchant pending_payable_liability m) books
  require (merchant available_payable_liability m) books
  require (merchant merchant_receivable_asset m) books
  reserved_amount ← reserved_payout_amount books m
  let available = credit_balance (merchant available_payable_liability m) books.postings
  ok (record {
    pending = credit_balance (merchant pending_payable_liability m) books.postings;
    available = available;
    receivable = neg (credit_balance (merchant merchant_receivable_asset m) books.postings);
    reserved_amount = reserved_amount;
    payout_eligible = max_ℤ (available -ℤ reserved_amount) (pos 0);
  })

-- `ReservationGuard`
pub data ReservationGuard : Type 0 where
  row_lock version constraint : ReservationGuard

abbrev pub is_constraint : ReservationGuard → Bool
is_constraint constraint = true
is_constraint _ = false

abbrev pub is_version : ReservationGuard → Bool
is_version version = true
is_version _ = false

-- A payout's highest sequence, or 0.
unfoldable pub last_sequence : ℕ → List Reservation → ℕ
last_sequence payout_id [] = 0
last_sequence payout_id (r ∷ rs) =
    if r.payout_id == payout_id
    then max r.sequence (last_sequence payout_id rs)
    else last_sequence payout_id rs

-- `_reservation`
unfoldable pub reservation : Payout → ReservationAction → ℤ → Books → Books
reservation p action amount_delta books = record books {
  reservations =
      books.reservations
      ++ (record {
        merchant_account_id = p.merchant_account_id;
        payout_id = p.id;
        sequence = last_sequence p.id books.reservations + 1;
        action = action;
        amount_delta = amount_delta;
      })
        ∷ [];
}

-- The trigger that runs at commit after a reservation or a debit of the available account:
-- migrations/relaypay/versions/0020_payout_overdraft_guard.py, with the lock of
-- 0030_coverage_check_lock.py beside it.
abbrev pub check_coverage : ℕ → Books → Result (Unit {0})
check_coverage m books =
    raise_if
      (ltb_ℤ (credit_balance (merchant available_payable_liability m) books.postings)
        (reservation_sum m books.reservations))
      check_violation

-- `_history`
abbrev pub history_row :
    Payout → PayoutAttempt → Option OperationStatus → OperationStatus → PayoutReason → PayoutHistory
history_row p a from_status to_status reason = record {
  payout_id = p.id;
  payout_attempt_id = a.id;
  from_status = from_status;
  to_status = to_status;
  reason_code = reason;
}

abbrev pub payout_body : Payout → Beneficiary → PayoutAttempt → PayoutBody
payout_body p b a = record {
  amount = p.amount;
  attempt_number = a.attempt_number;
  beneficiary_id = b.public_id;
  failure_code = p.failure_code;
  id = p.public_id;
  review_reason = p.review_reason;
  stable_provider_key = a.stable_provider_key;
  status = p.status;
}

pub record CommandResult : Type 0 where
  pub status_code : ℕ
  pub body : PayoutBody
  pub replayed : Bool

abbrev pub attempt_row : ℕ → Payout → ℕ → Option (ℕ × ℕ) → PayoutAttempt
attempt_row id p number command = record {
  id = id;
  payout_id = p.id;
  attempt_number = number;
  stable_provider_key = record { payout = p.public_id; number = number };
  status = AttemptStatus.prepared;
  request = none;
  last_sent_at = none;
  failure_code = none;
  review_reason = none;
  command = command;
  response = none;
}

-- The primary key, the number within the payout, and one attempt at a time that is not over.
abbrev pub attempt_collides_with : PayoutAttempt → PayoutAttempt → Bool
attempt_collides_with a b =
    b.id == a.id
    || b.payout_id == a.payout_id
      && (b.attempt_number == a.attempt_number || not (is_over b.status))
