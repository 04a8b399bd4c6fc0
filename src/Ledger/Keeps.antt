-- ===== src/Ledger/Keeps.antt =====
-- The journals of captures and refunds keep the ledger's invariants: ledger/service.py.
use mathlib.Core.Path.{subst}
use relaypay.Base.{sym, ℕ, ◌≡◌, refl, Option, some, none, ok, arith, inl, inr, Result-cases}
use relaypay.Base.Int.{ℤ, ◌-ℤ◌}
use relaypay.Ledger.Books.{
  BalanceTransaction, JournalType, Books, platform_account, platform_fee_revenue,
  gst_payable_liability,
}
use relaypay.Ledger.Posting.{JournalResult, post_journal, add_balance_transaction}
use relaypay.Ledger.Refund.{
  Sources, RefundRow, refund_sources, refund_entries, refund_transaction, post_refund_journal,
}
use relaypay.Ledger.Balances.{post_journal-IsPosted}
use relaypay.Ledger.Balanced.{IsBalanced, posted-IsBalanced}
use relaypay.Ledger.Reconciled.{
  IsReconciled, step-IsReconciled, capture_entries-delta, refund_entries-delta,
}
use relaypay.Ledger.Capture.{
  capture_entries, capture_transaction, post_capture_journal, platform_account_if,
}

pub add_balance_transaction-IsBalanced :
    (t : BalanceTransaction) (books : Books)
    → IsBalanced books
    → IsBalanced (add_balance_transaction t books)
add_balance_transaction-IsBalanced t books b = record {
  zero = b.zero;
  positive = b.positive;
  distinct = b.distinct;
}

module _ (j operation capture_id : ℕ) (amount fee gst : ℤ) (books : Books) (result : JournalResult)
    (books' : Books) where
  fee_accounts : Books
  fee_accounts =
      platform_account_if gst gst_payable_liability
        (platform_account_if fee platform_fee_revenue books)

  fee_accounts-keep :
      (fee_accounts.postings ≡ books.postings)
      × (fee_accounts.journals ≡ books.journals)
      × (fee_accounts.balance_transactions ≡ books.balance_transactions)
  unfolding fee_accounts platform_account
  fee_accounts-keep = ground arith

  post_capture_journal-IsPosted :
      (owner : Option ℕ)
      → post_capture_journal j owner operation capture_id amount fee gst books ≡ ok (result, books')
      → (m : ℕ) × (posted : Books) × (owner ≡ some m)
        × (post_journal j m
              (some operation)
              JournalType.capture
              capture_id
              (capture_entries m amount fee gst)
              fee_accounts
            ≡ ok (result, posted))
        × (books'
            ≡ add_balance_transaction
                (capture_transaction m result.journal_id (amount -ℤ fee -ℤ gst))
                posted)
  unfolding post_capture_journal fee_accounts
  post_capture_journal-IsPosted none h = ground arith
  post_capture_journal-IsPosted (some m) h =
      elim (Result-cases (
        post_journal j m (some operation) JournalType.capture capture_id
          (capture_entries m amount fee gst) fee_accounts)) [
            | inl (p, e) ↦ (m, p.1, refl, ground arith, ground arith)
            | inr (x, e) ↦ ground arith
          ]

  fee_accounts-IsBalanced : IsBalanced books → IsBalanced fee_accounts
  fee_accounts-IsBalanced b = record {
    zero = λ k. rw (fee_accounts-keep.0) (b.zero k);
    positive = rw (fee_accounts-keep.0) b.positive;
    distinct = rw (fee_accounts-keep.1) b.distinct;
  }

  fee_accounts-IsReconciled : IsReconciled books → IsReconciled fee_accounts
  fee_accounts-IsReconciled r = record {
    agrees = λ c n. rw (fee_accounts-keep.0, fee_accounts-keep.2) (r.agrees c n);
  }

-- A capture keeps the ledger balanced and its balance transactions reconciled with its postings.
pub post_capture_journal-keeps :
    (j : ℕ) (owner : Option ℕ) (operation capture_id : ℕ) (amount fee gst : ℤ) (books : Books)
    (result : JournalResult) (books' : Books)
    → post_capture_journal j owner operation capture_id amount fee gst books ≡ ok (result, books')
    → IsBalanced books
    → IsReconciled books
    → IsBalanced books' × IsReconciled books'
post_capture_journal-keeps j owner operation capture_id amount fee gst books result books' h b r =
    let (m, posted, known, e, same) =
      post_capture_journal-IsPosted j operation capture_id amount fee gst books result books' owner
        h in
    let before = fee_accounts j operation capture_id amount fee gst books result books' in
    let p =
      post_journal-IsPosted j m (some operation) JournalType.capture capture_id
        (capture_entries m amount fee gst) before result posted e in
    subst (λ x. IsBalanced x × IsReconciled x) (sym same)
      (
        add_balance_transaction-IsBalanced
            (capture_transaction m result.journal_id (amount -ℤ fee -ℤ gst)) posted
            (posted-IsBalanced p (
              fee_accounts-IsBalanced j operation capture_id amount fee gst books result books' b)),
        step-IsReconciled (capture_transaction m result.journal_id (amount -ℤ fee -ℤ gst)) p
            (capture_entries-delta j result.journal_id m amount fee gst)
            (fee_accounts-IsReconciled j operation capture_id amount fee gst books result books' r),
      )

module _ (j operation refund_id : ℕ) (refund : RefundRow) (amount : ℤ) (books : Books)
    (result : JournalResult) (books' : Books) where
  post_refund_journal-sources :
      (m : ℕ) (s : Sources)
      → refund_sources refund.amount refund.capture_id refund.captured_net refund.payment_refunds m
          books
        ≡ ok s
      → post_refund_journal j (some refund) (some m) operation refund_id amount books
        ≡ ok (result, books')
      → (posted : Books) × (post_journal j m
            (some operation)
            JournalType.refund
            refund_id
            (refund_entries m amount s)
            books
          ≡ ok (result, posted))
        × (books' ≡ add_balance_transaction (refund_transaction m result.journal_id s) posted)
  unfolding post_refund_journal
  post_refund_journal-sources m s src h =
      elim (Result-cases (
        post_journal j m (some operation) JournalType.refund refund_id (refund_entries m amount s)
          books)) [ inl (p, e) ↦ (p.1, ground arith, ground arith) | inr (x, e) ↦ ground arith ]

  pub post_refund_journal-IsPosted :
      (owner : Option ℕ)
      → post_refund_journal j (some refund) owner operation refund_id amount books
        ≡ ok (result, books')
      → (m : ℕ) × (s : Sources) × (posted : Books) × (owner ≡ some m)
        × (refund_sources refund.amount refund.capture_id refund.captured_net refund.payment_refunds
              m books
            ≡ ok s)
        × (post_journal j m
              (some operation)
              JournalType.refund
              refund_id
              (refund_entries m amount s)
              books
            ≡ ok (result, posted))
        × (books' ≡ add_balance_transaction (refund_transaction m result.journal_id s) posted)
  unfolding post_refund_journal
  post_refund_journal-IsPosted none h = ground arith
  post_refund_journal-IsPosted (some m) h =
      elim (Result-cases (
        refund_sources refund.amount refund.capture_id refund.captured_net refund.payment_refunds m
          books)) [
            | inl (s, e) ↦
                let (posted, e', same) = post_refund_journal-sources m s e h in
                (m, s, posted, refl, e, e', same)
            | inr (x, e) ↦ ground arith
          ]

-- A refund keeps the ledger balanced and its balance transactions reconciled with its postings.
pub post_refund_journal-keeps :
    (j : ℕ) (refund : RefundRow) (owner : Option ℕ) (operation refund_id : ℕ) (amount : ℤ)
    (books : Books) (result : JournalResult) (books' : Books)
    → post_refund_journal j (some refund) owner operation refund_id amount books
      ≡ ok (result, books')
    → IsBalanced books
    → IsReconciled books
    → IsBalanced books' × IsReconciled books'
post_refund_journal-keeps j refund owner operation refund_id amount books result books' h b r =
    let (m, s, posted, known, src, e, same) =
      post_refund_journal-IsPosted j operation refund_id refund amount books result books' owner
        h in
    let p =
      post_journal-IsPosted j m (some operation) JournalType.refund refund_id
        (refund_entries m amount s) books result posted e in
    subst (λ x. IsBalanced x × IsReconciled x) (sym same)
      (
        add_balance_transaction-IsBalanced (refund_transaction m result.journal_id s) posted
            (posted-IsBalanced p b),
        step-IsReconciled (refund_transaction m result.journal_id s) p
            (refund_entries-delta j result.journal_id m amount s) r,
      )
