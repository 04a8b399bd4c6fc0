-- ===== src/Ledger/Tests.antt =====
-- The ledger at concrete books: a capture of 1000 with a fee and GST, and a refund of 400 of it.
use relaypay.Base.{◌≡◌, refl, some, List, [], ◌∷◌, Result, ok, err, arith, integrity_error}
use relaypay.Base.Int.{pos, ◌+ℤ◌, ◌-ℤ◌, ◌≤ℤ◌}
use relaypay.Ledger.Books.{
  Books, require, platform_account, credit_balance, platform, merchant, provider_clearing_asset,
  platform_fee_revenue, gst_payable_liability, pending_payable_liability,
  available_payable_liability, merchant_receivable_asset, debit, credit, JournalType, reserved,
}
use relaypay.Ledger.Posting.{moves_nothing, Entry, JournalResult, post_journal}
use relaypay.Ledger.Capture.{post_capture_journal}
use relaypay.Ledger.Refund.{
  reservation_sum, settled_sum, refunded_from_pending, Sources, refund_sources, RefundRow,
  post_refund_journal, max_ℤ,
}
use relaypay.Ledger.Balanced.{IsBalanced, journal_balance, post_journal-IsBalanced}
use relaypay.Ledger.Reconciled.{IsReconciled, delta_sum}
use relaypay.Ledger.Keeps.{post_capture_journal-keeps, post_refund_journal-keeps}
use relaypay.Ledger.Sources.{
  IsCovered, available_of, refund_sources_split, post_refund_journal-IsCovered,
}

abbrev pub opening : Books
opening = record {
  accounts =
      platform provider_clearing_asset
      ∷ merchant pending_payable_liability 1
      ∷ merchant available_payable_liability 1
      ∷ merchant merchant_receivable_asset 1
      ∷ [];
  journals = [];
  postings = [];
  balance_transactions = [];
  settlement_items = [];
  reservations = [];
}

abbrev books_of : Result (JournalResult × Books) → Books
books_of (ok (r, b)) = b
books_of (err e) = opening

abbrev result_of : Result (JournalResult × Books) → JournalResult
result_of (ok (r, b)) = r
result_of (err e) = record { journal_id = 0; debit_total = pos 0; credit_total = pos 0 }

abbrev fee_entries : List Entry
fee_entries =
    (platform provider_clearing_asset, debit, pos 1000)
    ∷ (merchant pending_payable_liability 1, credit, pos 976)
    ∷ (platform platform_fee_revenue, credit, pos 20)
    ∷ (platform gst_payable_liability, credit, pos 4)
    ∷ []

abbrev posted : Result (JournalResult × Books)
posted = post_journal 10 1 (some 20) JournalType.capture 30 fee_entries opening

abbrev captured : Result (JournalResult × Books)
captured = post_capture_journal 10 (some 1) 20 30 (pos 1000) (pos 20) (pos 4) opening

abbrev refund_row : RefundRow
refund_row = record {
  amount = pos 400;
  capture_id = 30;
  captured_net = some (pos 976);
  payment_refunds = 40 ∷ [];
}

abbrev refunded : Result (JournalResult × Books)
refunded = post_refund_journal 11 (some refund_row) (some 1) 21 40 (pos 400) (books_of captured)

opening-IsBalanced : IsBalanced opening
unfolding journal_balance
opening-IsBalanced = record { zero = λ k. refl; positive = tt; distinct = tt }

opening-IsReconciled : IsReconciled opening
unfolding credit_balance delta_sum
opening-IsReconciled = record { agrees = λ c m. refl }

post_journal-IsBalanced_example : IsBalanced (books_of posted)
unfolding post_journal ◌+ℤ◌
post_journal-IsBalanced_example =
    post_journal-IsBalanced 10 1 (some 20) JournalType.capture 30 fee_entries opening
      (result_of posted) (books_of posted) refl opening-IsBalanced

post_capture_journal-keeps_example :
    IsBalanced (books_of captured) × IsReconciled (books_of captured)
unfolding post_capture_journal moves_nothing require platform_account post_journal ◌+ℤ◌ ◌-ℤ◌
post_capture_journal-keeps_example =
    post_capture_journal-keeps 10 (some 1) 20 30 (pos 1000) (pos 20) (pos 4) opening
      (result_of captured) (books_of captured) refl opening-IsBalanced opening-IsReconciled

captured-keeps : IsBalanced (books_of captured) × IsReconciled (books_of captured)
unfolding post_capture_journal moves_nothing require platform_account post_journal ◌+ℤ◌ ◌-ℤ◌
captured-keeps =
    post_capture_journal-keeps 10 (some 1) 20 30 (pos 1000) (pos 20) (pos 4) opening
      (result_of captured) (books_of captured) refl opening-IsBalanced opening-IsReconciled

post_refund_journal-keeps_example :
    IsBalanced (books_of refunded) × IsReconciled (books_of refunded)
unfolding post_refund_journal moves_nothing refund_sources settled_sum refunded_from_pending
    reservation_sum credit_balance post_capture_journal require platform_account post_journal ◌+ℤ◌
    ◌-ℤ◌
post_refund_journal-keeps_example =
    post_refund_journal-keeps 11 refund_row (some 1) 21 40 (pos 400) (books_of captured)
      (result_of refunded) (books_of refunded) refl captured-keeps.0 captured-keeps.1

-- Payouts have reserved 50 of an available balance of 300: a refund of 400 with nothing pending
-- takes 250 of it and makes the merchant owe 150.
abbrev reserved_books : Books
reserved_books = record opening {
  postings =
      record {
        journal_id = 9;
        account = merchant available_payable_liability 1;
        side = credit;
        amount = pos 300;
      }
      ∷ [];
  reservations =
      record {
        merchant_account_id = 1;
        payout_id = 5;
        sequence = 1;
        action = reserved;
        amount_delta = pos 50;
      }
      ∷ [];
}

abbrev drawn : Sources
drawn = record { pending_use = pos 0; available_use = pos 250; receivable_use = pos 150 }

not_negative : pos 0 ≤ℤ pos 400
not_negative = omega arith

refund_sources_split_example :
    (pos 0 +ℤ pos 250 +ℤ pos 150 ≡ pos 400)
    × (pos 0 ≤ℤ pos 0)
    × (pos 0 ≤ℤ pos 250)
    × (pos 0 ≤ℤ pos 150)
    × (pos 250
        ≤ℤ max_ℤ
            (available_of 1 reserved_books -ℤ reservation_sum 1 reserved_books.reservations)
            (pos 0))
unfolding refund_sources settled_sum refunded_from_pending reservation_sum credit_balance require
    ◌+ℤ◌ ◌-ℤ◌
refund_sources_split_example =
    refund_sources_split (pos 400) 30 (some (pos 0)) [] 1 reserved_books drawn refl not_negative

abbrev overdrawn : Result (JournalResult × Books)
overdrawn =
    post_refund_journal 11 (some (record refund_row { captured_net = some (pos 0) })) (some 1) 21 40
      (pos 400) reserved_books

reserved-IsCovered : IsCovered 1 reserved_books
unfolding reservation_sum credit_balance ◌+ℤ◌
reserved-IsCovered = omega arith

post_refund_journal-IsCovered_example : IsCovered 1 (books_of overdrawn)
unfolding post_refund_journal moves_nothing refund_sources settled_sum refunded_from_pending
    reservation_sum credit_balance require post_journal ◌+ℤ◌ ◌-ℤ◌
post_refund_journal-IsCovered_example =
    post_refund_journal-IsCovered 11 (record refund_row { captured_net = some (pos 0) }) (some 1) 21
      40 (pos 400) reserved_books (result_of overdrawn) (books_of overdrawn) 1 refl not_negative
      reserved-IsCovered

-- A capture is refused where its journal would be booked a second time.
captured_twice :
    post_capture_journal 12 (some 1) 20 31 (pos 500) (pos 0) (pos 0) (books_of captured)
    ≡ err integrity_error
unfolding post_capture_journal moves_nothing require platform_account post_journal ◌+ℤ◌ ◌-ℤ◌
captured_twice = refl
