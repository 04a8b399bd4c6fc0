-- ===== src/Ledger/Capture.antt =====
-- `post_capture_journal` of packages/relaypay/ledger/service.py.
use relaypay.Base.{
  check_violation, ℕ, Option, some, List, [], ◌∷◌, ◌++◌, ◌||◌, Result, ok, ◌>>=◌, ◌>>◌, raise_if,
  or_raise, value_error, runtime_error, if◌then◌else◌,
}
use relaypay.Base.Int.{ℤ, pos, ◌-ℤ◌, ltb_ℤ, is_zero_ℤ}
use relaypay.Ledger.Books.{
  LedgerAccount, PlatformCode, platform, merchant, pending_payable_liability,
  provider_clearing_asset, platform_fee_revenue, gst_payable_liability, debit, credit, JournalType,
  BalanceTransaction, Books, require, platform_account,
}
use relaypay.Ledger.Posting.{
  Entry, JournalResult, post_journal, moves_nothing, add_balance_transaction,
}

abbrev pub entry_if : ℤ → Entry → List Entry
entry_if amount e = if is_zero_ℤ amount then [] else e ∷ []

-- Dr provider clearing (gross); Cr pending payable (net), fee, GST.
unfoldable pub capture_entries : ℕ → ℤ → ℤ → ℤ → List Entry
capture_entries m amount fee gst =
    let net = amount -ℤ fee -ℤ gst in
    (platform provider_clearing_asset, debit, amount)
    ∷ (entry_if net (merchant pending_payable_liability m, credit, net)
        ++ (entry_if fee (platform platform_fee_revenue, credit, fee)
            ++ entry_if gst (platform gst_payable_liability, credit, gst)))

-- The account of an entry must exist, if the entry is made.
abbrev pub require_if : ℤ → LedgerAccount → Books → Result (Unit {0})
require_if amount a books = if is_zero_ℤ amount then ok tt else require a books

abbrev pub platform_account_if : ℤ → PlatformCode → Books → Books
platform_account_if amount c books = if is_zero_ℤ amount then books else platform_account books c

-- The pending payable grows by the net.
abbrev pub capture_transaction : ℕ → ℕ → ℤ → BalanceTransaction
capture_transaction m journal_id net = record {
  merchant_account_id = m;
  journal_id = journal_id;
  transaction_type = JournalType.capture;
  pending_delta = net;
  available_delta = pos 0;
  receivable_delta = pos 0;
  payout_clearing_delta = pos 0;
}

-- `merchant_account_id` is that of the capture's payment, `none` if there is no such row.
unfoldable pub post_capture_journal :
    ℕ → Option ℕ → ℕ → ℕ → ℤ → ℤ → ℤ → Books → Result (JournalResult × Books)
unfolding capture_entries
post_capture_journal journal_id merchant_account_id operation_id capture_id amount fee gst books =
    do
      let net = amount -ℤ fee -ℤ gst
      raise_if (ltb_ℤ fee (pos 0) || ltb_ℤ gst (pos 0) || ltb_ℤ net (pos 0)) value_error
      m ← or_raise merchant_account_id runtime_error
      require (platform provider_clearing_asset) books
      require_if net (merchant pending_payable_liability m) books
      let books' =
          platform_account_if gst gst_payable_liability
            (platform_account_if fee platform_fee_revenue books)
      (result, posted) ←
          post_journal journal_id m (some operation_id) JournalType.capture capture_id
            (capture_entries m amount fee gst) books'
      raise_if (moves_nothing (capture_transaction m result.journal_id net)) check_violation
      ok (result, add_balance_transaction (capture_transaction m result.journal_id net) posted)
