-- ===== src/Ledger/Reconciled.antt =====
-- The balance transactions against the postings: for every merchant and each of its four accounts
-- the deltas add up to the credit balance of the postings. ledger/service.py.
use relaypay.Base.{
  ℕ, ◌≡◌, refl, Option, List, [], ◌∷◌, ◌++◌, map, Bool, true, false, ◌&&◌, arith, ◌==◌,
  if◌then◌else◌,
}
use relaypay.Base.Int.{ℤ, pos, neg, ◌+ℤ◌, ◌-ℤ◌, int_laws, +ℤ_assoc}
use relaypay.Ledger.Books.{
  MerchantCode, pending_payable_liability, available_payable_liability, payout_clearing_asset,
  merchant_receivable_asset, provider_clearing_asset, platform_fee_revenue, gst_payable_liability,
  platform, merchant, debit, credit, JournalType, BalanceTransaction, Books, same_merchant_code,
  credit_balance,
}
use relaypay.Ledger.Posting.{Entry, JournalResult, to_posting, add_balance_transaction}
use relaypay.Ledger.Capture.{entry_if, capture_transaction, capture_entries}
use relaypay.Ledger.Refund.{Sources, refund_transaction, refund_entries}
use relaypay.Ledger.Balances.{
  zero_add_ℤ, add_zero_ℤ, entry_if-credit, entry_if-credit_last, credit_balance-append, IsPosted,
}

-- The delta that a balance transaction holds for an account, as a credit. A receivable is an
-- asset, and its delta counts debits.
abbrev pub delta : MerchantCode → BalanceTransaction → ℤ
delta pending_payable_liability t = t.pending_delta
delta available_payable_liability t = t.available_delta
delta payout_clearing_asset t = t.payout_clearing_delta
delta merchant_receivable_asset t = neg t.receivable_delta

abbrev pub delta_of : MerchantCode → ℕ → BalanceTransaction → ℤ
delta_of c m t = if m == t.merchant_account_id then delta c t else pos 0

unfoldable pub delta_sum : MerchantCode → ℕ → List BalanceTransaction → ℤ
delta_sum c m [] = pos 0
delta_sum c m (t ∷ ts) = delta_of c m t +ℤ delta_sum c m ts

pub record IsReconciled (books : Books) : Type 0 where
  pub agrees :
      (c : MerchantCode) (m : ℕ)
      → credit_balance (merchant c m) books.postings ≡ delta_sum c m books.balance_transactions

delta_sum-append :
    (c : MerchantCode) (m : ℕ) (ts us : List BalanceTransaction)
    → delta_sum c m (ts ++ us) ≡ delta_sum c m ts +ℤ delta_sum c m us
unfolding delta_sum
delta_sum-append c m [] us = omega int_laws
delta_sum-append c m (t ∷ ts) us =
    rw (delta_sum-append c m ts us)
      (+ℤ_assoc (delta_of c m t) (delta_sum c m ts) (delta_sum c m us))

-- A journal and the transaction beside it keep the books reconciled, if the entries add to each
-- account what the transaction says.
pub step-IsReconciled :
    {j m : ℕ} {operation : Option ℕ} {jt : JournalType} {reference : ℕ} {entries : List Entry}
    {result : JournalResult} {books posted : Books} (t : BalanceTransaction)
    → IsPosted j m operation jt reference entries result books posted
    → ((c : MerchantCode) (n : ℕ)
        → credit_balance (merchant c n) (map (to_posting j) entries) ≡ delta_of c n t)
    → IsReconciled books
    → IsReconciled (add_balance_transaction t posted)
unfolding delta_sum
step-IsReconciled {j} {entries = entries} {books = books} t p same r = record {
  agrees = λ c n.
      rw
        (
          p.postings,
          p.balance_transactions,
          credit_balance-append (merchant c n) books.postings (map (to_posting j) entries),
          delta_sum-append c n books.balance_transactions (t ∷ []),
          r.agrees c n,
          same c n,
        )
        (grind int_laws);
}

pub capture_entries-delta :
    (j k m : ℕ) (amount fee gst : ℤ) (c : MerchantCode) (n : ℕ)
    → credit_balance (merchant c n) (map (to_posting j) (capture_entries m amount fee gst))
      ≡ delta_of c n (capture_transaction m k (amount -ℤ fee -ℤ gst))
unfolding capture_entries credit_balance
capture_entries-delta j k m amount fee gst c n =
    rw
      (
        entry_if-credit (merchant c n) (merchant pending_payable_liability m) credit
            (amount -ℤ fee -ℤ gst) j
            (entry_if fee (platform platform_fee_revenue, credit, fee)
              ++ entry_if gst (platform gst_payable_liability, credit, gst)),
        entry_if-credit (merchant c n) (platform platform_fee_revenue) credit fee j
            (entry_if gst (platform gst_payable_liability, credit, gst)),
        entry_if-credit_last (merchant c n) (platform gst_payable_liability) credit gst j,
      )
      (simp (zero_add_ℤ, add_zero_ℤ) (settle c (n == m)))
  where
    settle :
        (c : MerchantCode) (b : Bool)
        → (if same_merchant_code c pending_payable_liability && b
            then amount -ℤ fee -ℤ gst
            else pos 0)
          ≡ (if b then delta c (capture_transaction m k (amount -ℤ fee -ℤ gst)) else pos 0)
    settle pending_payable_liability b = refl
    settle _ b = ground arith

pub refund_entries-delta :
    (j k m : ℕ) (amount : ℤ) (s : Sources) (c : MerchantCode) (n : ℕ)
    → credit_balance (merchant c n) (map (to_posting j) (refund_entries m amount s))
      ≡ delta_of c n (refund_transaction m k s)
unfolding refund_entries credit_balance
refund_entries-delta j k m amount s c n =
    rw
      (
        entry_if-credit (merchant c n) (merchant pending_payable_liability m) debit s.pending_use j
            (available ++ (receivable ++ clearing)),
        entry_if-credit (merchant c n) (merchant available_payable_liability m) debit
            s.available_use j (receivable ++ clearing),
        entry_if-credit (merchant c n) (merchant merchant_receivable_asset m) debit s.receivable_use
            j clearing,
      )
      (simp (zero_add_ℤ, add_zero_ℤ) (settle c (n == m)))
  where
    clearing : List Entry
    clearing = (platform provider_clearing_asset, credit, amount) ∷ []

    receivable : List Entry
    receivable =
        entry_if s.receivable_use (merchant merchant_receivable_asset m, debit, s.receivable_use)

    available : List Entry
    available =
        entry_if s.available_use (merchant available_payable_liability m, debit, s.available_use)

    settle :
        (c : MerchantCode) (b : Bool)
        → (if same_merchant_code c pending_payable_liability && b then neg s.pending_use else pos 0)
            +ℤ ((if same_merchant_code c available_payable_liability && b
                  then neg s.available_use
                  else pos 0)
                +ℤ (if same_merchant_code c merchant_receivable_asset && b
                    then neg s.receivable_use
                    else pos 0))
          ≡ (if b then delta c (refund_transaction m k s) else pos 0)
    settle pending_payable_liability true = simp (zero_add_ℤ, add_zero_ℤ)
    settle available_payable_liability true = simp (zero_add_ℤ, add_zero_ℤ)
    settle _ true = simp zero_add_ℤ
    settle pending_payable_liability false = simp zero_add_ℤ
    settle _ false = simp zero_add_ℤ
