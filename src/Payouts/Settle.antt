-- ===== src/Payouts/Settle.antt =====
-- What the bank's answer does: `record_bank_observation` of payouts/service.py. What `_classify` makes
-- of the answer is an argument.
use relaypay.Base.{
  check_violation, ℕ, ◌+◌, max, Option, none, some, List, [], ◌∷◌, ◌++◌, Bool, true, false, not,
  ◌&&◌, Result, ok, ◌>>=◌, ◌>>◌, raise_if, or_raise, runtime_error, ◌==◌, if◌then◌else◌, find, leb,
  is_some,
}
use relaypay.Base.Int.{pos, neg}
use relaypay.Ledger.Books.{
  Books, debit, credit, JournalType, BalanceTransaction, released, consumed, merchant,
  available_payable_liability, payout_clearing_asset, require,
}
use relaypay.Ledger.Posting.{Entry, post_journal, moves_nothing, add_balance_transaction}
use relaypay.Rows.{OperationStatus}
use relaypay.Payouts.Tables.{
  Beneficiary, BankCode, effect_not_found, Payout, AttemptStatus, is_over, PayoutAttempt,
  BankClassification, mutation_result, lookup, PayoutAttemptEvidence, bank_reason,
  verified_bank_success, Treasury, find_payout, find_payout_attempt, put_payout, put_payout_attempt,
}
use relaypay.Payouts.Reserve.{reservation, check_coverage, history_row, payout_body}
use relaypay.Payouts.Send.{PreparedAttempt}

abbrev pub is_not_found : Option BankCode → Bool
is_not_found (some effect_not_found) = true
is_not_found _ = false

-- `now - last_sent_at >= grace`, of a time that may be NULL
abbrev pub is_past_grace : Option ℕ → ℕ → ℕ → Bool
is_past_grace none grace now = false
is_past_grace (some sent) grace now = leb (sent + grace) now

-- A signed not-found past the grace period fails the attempt.
abbrev pub settled_classification : BankClassification → PayoutAttempt → ℕ → ℕ → BankClassification
settled_classification c a grace now =
    if is_not_found c.code && is_past_grace a.last_sent_at grace now
    then record {
      terminal = true;
      succeeded = false;
      ambiguous = false;
      signature_valid = some true;
      code = some effect_not_found;
    }
    else c

unfoldable pub last_evidence : ℕ → List PayoutAttemptEvidence → ℕ
last_evidence attempt_id [] = 0
last_evidence attempt_id (e ∷ es) =
    if e.payout_attempt_id == attempt_id
    then max e.sequence (last_evidence attempt_id es)
    else last_evidence attempt_id es

-- `_append_evidence`
unfoldable pub append_evidence :
    PayoutAttempt → Bool → BankClassification → Treasury → Result Treasury
unfolding last_evidence
append_evidence a lookup_only c t = do
  raise_if (not (is_some a.request)) runtime_error
  ok (record t {
    evidence =
        t.evidence
        ++ (record {
          payout_attempt_id = a.id;
          sequence = last_evidence a.id t.evidence + 1;
          evidence_kind = if lookup_only then lookup else mutation_result;
          classification = some c;
        })
          ∷ [];
  })

abbrev pub payout_entries : Payout → List Entry
payout_entries p =
    (merchant available_payable_liability p.merchant_account_id, debit, p.amount)
    ∷ (merchant payout_clearing_asset p.merchant_account_id, credit, p.amount)
    ∷ []

abbrev pub payout_transaction : Payout → ℕ → BalanceTransaction
payout_transaction p journal_id = record {
  merchant_account_id = p.merchant_account_id;
  journal_id = journal_id;
  transaction_type = JournalType.payout;
  pending_delta = pos 0;
  available_delta = neg p.amount;
  receivable_delta = pos 0;
  payout_clearing_delta = p.amount;
}

-- The ledger's part of a verified success.
unfoldable pub payout_books : Payout → ℕ → Books → Result (ℕ × Books)
payout_books p journal_id books = do
  require (merchant available_payable_liability p.merchant_account_id) books
  require (merchant payout_clearing_asset p.merchant_account_id) books
  (journal, posted) ←
      post_journal journal_id p.merchant_account_id none JournalType.payout p.id (payout_entries p)
        books
  raise_if (moves_nothing (payout_transaction p journal.journal_id)) check_violation
  let books' =
      reservation p consumed (neg p.amount)
        (add_balance_transaction (payout_transaction p journal.journal_id) posted)
  check_coverage p.merchant_account_id books'
  ok (journal.journal_id, books')

-- The rows of the payout and of its attempt are written, with the new response.
abbrev pub write_outcome : Payout → PayoutAttempt → Beneficiary → Treasury → Treasury
write_outcome p a b t = record t {
  payouts = put_payout (record p { response = some (200, payout_body p b a) }) t.payouts;
  attempts = put_payout_attempt a t.attempts;
}

-- The three branches.
unfoldable pub review_payout :
    Payout → PayoutAttempt → Beneficiary → BankClassification → Treasury → Result Treasury
review_payout p a b c t =
    let a' : PayoutAttempt = record a {
      status = AttemptStatus.ambiguous;
      review_reason = c.code;
    } in
    let p' : Payout = record p {
      status = OperationStatus.requires_review;
      review_reason = c.code;
    } in
    ok (
      write_outcome p' a' b (record t {
        history =
            t.history
            ++ history_row p a (some p.status) OperationStatus.requires_review (bank_reason c.code)
              ∷ [];
      }))

unfoldable pub fail_payout :
    Payout → PayoutAttempt → Beneficiary → BankClassification → ℕ → Treasury → Result Treasury
fail_payout p a b c now t = do
  let a' : PayoutAttempt = record a { status = AttemptStatus.failed; failure_code = c.code }
  let p' : Payout = record p {
    status = OperationStatus.failed;
    failure_code = c.code;
    review_reason = none;
    completed_at = some now;
  }
  let books = reservation p released (neg p.amount) t.books
  check_coverage p.merchant_account_id books
  ok (
      write_outcome p' a' b (record t {
        history =
            t.history
            ++ history_row p a (some p.status) OperationStatus.failed (bank_reason c.code) ∷ [];
        books = books;
      }))

unfoldable pub pay_payout :
    Payout → PayoutAttempt → Beneficiary → ℕ → ℕ → Treasury → Result Treasury
unfolding payout_books
pay_payout p a b now journal_id t = do
  (journal, books) ← payout_books p journal_id t.books
  let a' : PayoutAttempt = record a { status = AttemptStatus.succeeded }
  let p' : Payout = record p {
    status = OperationStatus.succeeded;
    review_reason = none;
    journal_id = some journal;
    completed_at = some now;
  }
  ok (
      write_outcome p' a' b (record t {
        history =
            t.history
            ++ history_row p a (some p.status) OperationStatus.succeeded verified_bank_success ∷ [];
        events = t.events ++ (record { payout_id = p.id; amount = p.amount }) ∷ [];
        books = books;
      }))

unfoldable pub settle_payout :
    Payout → PayoutAttempt → Beneficiary → BankClassification → ℕ → ℕ → Treasury → Result Treasury
unfolding review_payout fail_payout pay_payout
settle_payout p a b c now journal_id t =
    if c.ambiguous
    then review_payout p a b c t
    else if c.succeeded
    then pay_payout p a b now journal_id t
    else fail_payout p a b c now t

unfoldable pub record_bank_observation :
    PreparedAttempt → BankClassification → ℕ → ℕ → ℕ → Treasury → Result Treasury
unfolding append_evidence settle_payout
record_bank_observation prepared classification grace now journal_id t = do
  p ← or_raise (find_payout prepared.payout_id t) runtime_error
  a ← or_raise (find_payout_attempt prepared.attempt_id t) runtime_error
  if is_over a.status then ok t else (do
    let c = settled_classification classification a grace now
    t' ← append_evidence a prepared.lookup_only c t
    b ← or_raise (find (λ x. x.id == p.beneficiary_id) t.beneficiaries) runtime_error
    settle_payout p a b c now journal_id t')
