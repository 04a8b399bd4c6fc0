-- ===== src/Ledger/Books.antt =====
-- The rows of the ledger of one environment: packages/relaypay/ledger/models.py, with the balance
-- transactions, settlement items and reservations of merchant_balances/models.py and
-- payouts/models.py that the ledger's queries read. Ids are numbers.
use relaypay.Base.{
  ℕ, Option, List, [], ◌∷◌, ◌++◌, Bool, true, false, ◌&&◌, Result, ok, ◌>>=◌, or_raise,
  ledger_account_missing, ◌==◌, if◌then◌else◌, find, any,
}
use relaypay.Base.Int.{ℤ, pos, neg, ◌+ℤ◌}

-- The codes of the merchant's own accounts (`ACCOUNT_TEMPLATES`).
pub data MerchantCode : Type 0 where
  pending_payable_liability available_payable_liability : MerchantCode
  payout_clearing_asset merchant_receivable_asset : MerchantCode

-- The codes of the accounts without a merchant.
pub data PlatformCode : Type 0 where
  provider_clearing_asset platform_fee_revenue gst_payable_liability : PlatformCode

-- A row of `ledger_accounts`, by its code and its `merchant_account_id`.
pub data LedgerAccount : Type 0 where
  platform : PlatformCode → LedgerAccount
  merchant : MerchantCode → ℕ → LedgerAccount

abbrev pub same_merchant_code : MerchantCode → MerchantCode → Bool
same_merchant_code pending_payable_liability pending_payable_liability = true
same_merchant_code available_payable_liability available_payable_liability = true
same_merchant_code payout_clearing_asset payout_clearing_asset = true
same_merchant_code merchant_receivable_asset merchant_receivable_asset = true
same_merchant_code _ _ = false

abbrev pub same_platform_code : PlatformCode → PlatformCode → Bool
same_platform_code provider_clearing_asset provider_clearing_asset = true
same_platform_code platform_fee_revenue platform_fee_revenue = true
same_platform_code gst_payable_liability gst_payable_liability = true
same_platform_code _ _ = false

abbrev pub same_account : LedgerAccount → LedgerAccount → Bool
same_account (platform c) (platform d) = same_platform_code c d
same_account (merchant c m) (merchant d n) = same_merchant_code c d && m == n
same_account _ _ = false

pub data Side : Type 0 where
  debit credit : Side

pub data JournalType : Type 0 where
  capture refund settlement payout : JournalType

abbrev pub same_type : JournalType → JournalType → Bool
same_type capture capture = true
same_type refund refund = true
same_type settlement settlement = true
same_type payout payout = true
same_type _ _ = false

-- `reference_type` is CAPTURE for a capture and a settlement, REFUND and PAYOUT for the others: it
-- is told from the journal's type.
pub record Journal : Type 0 where
  pub id : ℕ
  pub merchant_account_id : ℕ
  pub provider_operation_id : Option ℕ
  pub journal_type : JournalType
  pub reference_id : ℕ

pub record Posting : Type 0 where
  pub journal_id : ℕ
  pub account : LedgerAccount
  pub side : Side
  pub amount : ℤ

pub record BalanceTransaction : Type 0 where
  pub merchant_account_id : ℕ
  pub journal_id : ℕ
  pub transaction_type : JournalType
  pub pending_delta : ℤ
  pub available_delta : ℤ
  pub receivable_delta : ℤ
  pub payout_clearing_delta : ℤ

pub record SettlementItem : Type 0 where
  pub settlement_run_id : ℕ
  pub capture_id : ℕ
  pub journal_id : ℕ
  pub amount : ℤ

pub data ReservationAction : Type 0 where
  reserved released consumed : ReservationAction

-- A row of `payout_reservation_history`.
pub record Reservation : Type 0 where
  pub merchant_account_id : ℕ
  pub payout_id : ℕ
  pub sequence : ℕ
  pub action : ReservationAction
  pub amount_delta : ℤ

pub record Books : Type 0 where
  pub accounts : List LedgerAccount
  pub journals : List Journal
  pub postings : List Posting
  pub balance_transactions : List BalanceTransaction
  pub settlement_items : List SettlementItem
  pub reservations : List Reservation

unfoldable pub account : Books → LedgerAccount → Result LedgerAccount
account books a = or_raise (find (same_account a) books.accounts) ledger_account_missing

-- A look-up whose row is used only as the account of an entry.
unfoldable pub require : LedgerAccount → Books → Result (Unit {0})
unfolding account
require a books = account books a >>= λ _. ok tt

-- `platform_account` creates the account on first use.
unfoldable pub platform_account : Books → PlatformCode → Books
platform_account books c =
    if any (same_account (platform c)) books.accounts
    then books
    else record books { accounts = books.accounts ++ platform c ∷ [] }

-- What a posting adds to the credit-normal balance of its account.
abbrev pub signed : Side → ℤ → ℤ
signed credit amount = amount
signed debit amount = neg amount

-- `sum(case when side = 'CREDIT' then amount else -amount end)` over the postings of an account.
abbrev pub credit_of : LedgerAccount → Posting → ℤ
credit_of a p = if same_account a p.account then signed p.side p.amount else pos 0

unfoldable pub credit_balance : LedgerAccount → List Posting → ℤ
credit_balance a [] = pos 0
credit_balance a (p ∷ ps) = credit_of a p +ℤ credit_balance a ps
