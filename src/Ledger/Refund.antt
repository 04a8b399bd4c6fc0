-- ===== src/Ledger/Refund.antt =====
-- `_refund_sources` and `post_refund_journal` of packages/relaypay/ledger/service.py, with
-- `reserved_payout_amount` of packages/relaypay/merchant_balances/service.py.
use relaypay.Base.{
  check_violation, ℕ, Option, none, some, List, [], ◌∷◌, ◌++◌, Bool, false, ◌&&◌, not, Result, ok,
  ◌>>=◌, ◌>>◌, raise_if, or_raise, runtime_error, ◌==◌, if◌then◌else◌, elem,
}
use relaypay.Base.Int.{ℤ, pos, neg, ◌+ℤ◌, ◌-ℤ◌, ltb_ℤ}
use relaypay.Ledger.Books.{
  platform, merchant, pending_payable_liability, available_payable_liability,
  merchant_receivable_asset, provider_clearing_asset, debit, credit, JournalType, same_type,
  Journal, BalanceTransaction, SettlementItem, Reservation, Books, require, credit_balance,
}
use relaypay.Ledger.Posting.{
  Entry, JournalResult, equal_ℤ, post_journal, moves_nothing, add_balance_transaction,
}
use relaypay.Ledger.Capture.{entry_if, require_if}

abbrev pub max_ℤ : ℤ → ℤ → ℤ
max_ℤ a b = if ltb_ℤ a b then b else a

abbrev pub min_ℤ : ℤ → ℤ → ℤ
min_ℤ a b = if ltb_ℤ b a then b else a

-- Sum of live payout reservations held against a merchant's AVAILABLE balance.
unfoldable pub reservation_sum : ℕ → List Reservation → ℤ
reservation_sum m [] = pos 0
reservation_sum m (r ∷ rs) =
    (if r.merchant_account_id == m then r.amount_delta else pos 0) +ℤ reservation_sum m rs

unfoldable pub reserved_payout_amount : Books → ℕ → Result ℤ
reserved_payout_amount books m = do
  raise_if (ltb_ℤ (reservation_sum m books.reservations) (pos 0)) runtime_error
  ok (reservation_sum m books.reservations)

-- What a capture has had settled.
unfoldable pub settled_sum : ℕ → List SettlementItem → ℤ
settled_sum capture_id [] = pos 0
settled_sum capture_id (i ∷ is) =
    (if i.capture_id == capture_id then i.amount else pos 0) +ℤ settled_sum capture_id is

-- The reference of a journal, as a join on `Journal.id`.
abbrev pub reference_of : ℕ → List Journal → Option ℕ
reference_of j [] = none
reference_of j (r ∷ rs) = if r.id == j then some r.reference_id else reference_of j rs

-- The refund that a balance transaction books is one of `refunds`.
abbrev pub is_refund_among : List ℕ → Option ℕ → Bool
is_refund_among refunds none = false
is_refund_among refunds (some r) = elem r refunds

-- `sum(-pending_delta)` over the merchant's REFUND transactions of the refunds given.
unfoldable pub refunded_from_pending : ℕ → List ℕ → List Journal → List BalanceTransaction → ℤ
refunded_from_pending m refunds journals [] = pos 0
refunded_from_pending m refunds journals (t ∷ ts) =
    (if t.merchant_account_id == m
        && same_type t.transaction_type JournalType.refund
        && is_refund_among refunds (reference_of t.journal_id journals)
      then neg t.pending_delta
      else pos 0)
    +ℤ refunded_from_pending m refunds journals ts

-- Where a refund is taken from: (pending_use, available_use, receivable_use).
pub record Sources : Type 0 where
  pub pending_use : ℤ
  pub available_use : ℤ
  pub receivable_use : ℤ

-- The arithmetic at the end of `_refund_sources`.
unfoldable pub draw : ℤ → ℤ → ℤ → Sources
draw amount pending unreserved =
    let pending_use = min_ℤ amount pending in
    let available_use = min_ℤ (amount -ℤ pending_use) unreserved in
    record {
      pending_use = pending_use;
      available_use = available_use;
      receivable_use = amount -ℤ pending_use -ℤ available_use;
    }

-- `captured_net` is the `net_amount` of the refund's capture, `none` if there is no such row;
-- `refunds` are the ids of the payment's refunds.
unfoldable pub refund_sources : ℤ → ℕ → Option ℤ → List ℕ → ℕ → Books → Result Sources
unfolding draw reserved_payout_amount
refund_sources amount capture_id captured_net refunds m books = do
  net ← or_raise captured_net runtime_error
  let pending =
      max_ℤ
        (net
          -ℤ settled_sum capture_id books.settlement_items
          -ℤ refunded_from_pending m refunds books.journals books.balance_transactions)
        (pos 0)
  require (merchant available_payable_liability m) books
  reserved ← reserved_payout_amount books m
  let available = credit_balance (merchant available_payable_liability m) books.postings
  ok (draw amount pending (max_ℤ (available -ℤ reserved) (pos 0)))

-- Dr what the sources give; Cr provider clearing.
unfoldable pub refund_entries : ℕ → ℤ → Sources → List Entry
refund_entries m amount s =
    entry_if s.pending_use (merchant pending_payable_liability m, debit, s.pending_use)
    ++ (entry_if s.available_use (merchant available_payable_liability m, debit, s.available_use)
        ++ (entry_if s.receivable_use
              (merchant merchant_receivable_asset m, debit, s.receivable_use)
            ++ ((platform provider_clearing_asset, credit, amount) ∷ [])))

-- The row of `refunds` that the journal is for, with what its capture and its payment hold.
pub record RefundRow : Type 0 where
  pub amount : ℤ
  pub capture_id : ℕ
  pub captured_net : Option ℤ
  pub payment_refunds : List ℕ

-- The payables shrink by what is drawn from them, and the receivable grows by the rest.
abbrev pub refund_transaction : ℕ → ℕ → Sources → BalanceTransaction
refund_transaction m journal_id sources = record {
  merchant_account_id = m;
  journal_id = journal_id;
  transaction_type = JournalType.refund;
  pending_delta = neg sources.pending_use;
  available_delta = neg sources.available_use;
  receivable_delta = sources.receivable_use;
  payout_clearing_delta = pos 0;
}

-- `merchant_account_id` is that of the refund's payment.
unfoldable pub post_refund_journal :
    ℕ → Option RefundRow → Option ℕ → ℕ → ℕ → ℤ → Books → Result (JournalResult × Books)
unfolding refund_entries
post_refund_journal journal_id row merchant_account_id operation_id refund_id amount books = do
  refund ← or_raise row runtime_error
  raise_if (not (equal_ℤ refund.amount amount)) runtime_error
  m ← or_raise merchant_account_id runtime_error
  sources ←
      refund_sources refund.amount refund.capture_id refund.captured_net refund.payment_refunds m
        books
  require_if sources.pending_use (merchant pending_payable_liability m) books
  require_if sources.available_use (merchant available_payable_liability m) books
  require_if sources.receivable_use (merchant merchant_receivable_asset m) books
  require (platform provider_clearing_asset) books
  (result, posted) ←
      post_journal journal_id m (some operation_id) JournalType.refund refund_id
        (refund_entries m amount sources) books
  raise_if (moves_nothing (refund_transaction m result.journal_id sources)) check_violation
  ok (result, add_balance_transaction (refund_transaction m result.journal_id sources) posted)
