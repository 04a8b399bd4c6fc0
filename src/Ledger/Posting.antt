-- ===== src/Ledger/Posting.antt =====
-- `post_journal` and `add_balance_transaction` of packages/relaypay/ledger/service.py.
use relaypay.Base.{
  ℕ, Option, none, some, List, [], ◌∷◌, ◌++◌, Bool, false, not, ◌&&◌, ◌||◌, map, Result, ok, ◌>>◌,
  raise_if, value_error, integrity_error, ◌==◌, any,
}
use relaypay.Base.Int.{ℤ, pos, ◌+ℤ◌, leb_ℤ}
use relaypay.Ledger.Books.{
  LedgerAccount, Side, debit, credit, JournalType, same_type, Journal, Posting, BalanceTransaction,
  Books,
}

-- (account, side, amount)
abbrev pub Entry : Type 0
Entry = LedgerAccount × Side × ℤ

pub record JournalResult : Type 0 where
  pub journal_id : ℕ
  pub debit_total : ℤ
  pub credit_total : ℤ

abbrev pub amount_on : Side → Side → ℤ → ℤ
amount_on debit debit amount = amount
amount_on credit credit amount = amount
amount_on _ _ amount = pos 0

-- `sum(amount for _, s, amount in entries if s == side)`
unfoldable pub total : Side → List Entry → ℤ
total side [] = pos 0
total side ((a, s, amount) ∷ es) = amount_on side s amount +ℤ total side es

abbrev pub equal_ℤ : ℤ → ℤ → Bool
equal_ℤ a b = leb_ℤ a b && leb_ℤ b a

abbrev pub is_not_positive : Entry → Bool
is_not_positive (a, s, amount) = leb_ℤ amount (pos 0)

-- The unique constraints of `journals`, on the operation and on the type with the reference.
abbrev pub same_operation : Option ℕ → Option ℕ → Bool
same_operation none o = false
same_operation (some m) none = false
same_operation (some m) (some n) = m == n

abbrev pub collides : Option ℕ → JournalType → ℕ → Journal → Bool
collides operation journal_type reference j =
    same_operation operation j.provider_operation_id
    || (same_type journal_type j.journal_type && reference == j.reference_id)

abbrev pub to_posting : ℕ → Entry → Posting
to_posting journal_id (a, s, amount) = record {
  journal_id = journal_id;
  account = a;
  side = s;
  amount = amount;
}

-- `journal_id` is the new id of the journal.
unfoldable pub post_journal :
    ℕ → ℕ → Option ℕ → JournalType → ℕ → List Entry → Books → Result (JournalResult × Books)
unfolding total
post_journal journal_id merchant_account_id operation journal_type reference entries books = do
  let debit_total = total debit entries
  let credit_total = total credit entries
  raise_if (leb_ℤ debit_total (pos 0) || not (equal_ℤ debit_total credit_total)) value_error
  raise_if (any is_not_positive entries) value_error
  raise_if (any (collides operation journal_type reference) books.journals) integrity_error
  let journal : Journal = record {
    id = journal_id;
    merchant_account_id = merchant_account_id;
    provider_operation_id = operation;
    journal_type = journal_type;
    reference_id = reference;
  }
  ok (
    record { journal_id = journal_id; debit_total = debit_total; credit_total = credit_total },
    record books {
      journals = books.journals ++ journal ∷ [];
      postings = books.postings ++ map (to_posting journal_id) entries;
    },
  )

-- The database's check: some delta is not zero.
unfoldable pub moves_nothing : BalanceTransaction → Bool
moves_nothing t =
    equal_ℤ t.pending_delta (pos 0)
    && equal_ℤ t.available_delta (pos 0)
    && equal_ℤ t.receivable_delta (pos 0)
    && equal_ℤ t.payout_clearing_delta (pos 0)

-- A transaction for which `moves_nothing` is refused before.
abbrev pub add_balance_transaction : BalanceTransaction → Books → Books
add_balance_transaction t books = record books {
  balance_transactions = books.balance_transactions ++ t ∷ [];
}
