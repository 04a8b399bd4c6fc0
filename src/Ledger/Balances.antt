-- ===== src/Ledger/Balances.antt =====
-- What a journal that was posted has done to the books: ledger/service.py, `post_journal`.
use relaypay.Ledger.Capture.{entry_if}
use mathlib.Core.List.{append-nil}
use relaypay.Base.{
  ◌∙◌, sym, Bool-cases, inl, inr, ℕ, ◌≡◌, refl, Option, List, [], ◌∷◌, ◌++◌, map, Bool, true, false,
  ok, arith, any, if◌then◌else◌,
}
use relaypay.Base.Int.{is_zero_ℤ, ℤ, pos, ◌+ℤ◌, int_laws, +ℤ_assoc}
use relaypay.Ledger.Books.{
  LedgerAccount, Side, debit, credit, JournalType, Posting, Books, same_account, signed, credit_of,
  credit_balance,
}
use relaypay.Ledger.Posting.{
  Entry, JournalResult, total, is_not_positive, collides, to_posting, post_journal,
}

pub zero_add_ℤ : (a : ℤ) → pos 0 +ℤ a ≡ a
zero_add_ℤ a = omega int_laws

pub credit_balance-append :
    (a : LedgerAccount) (ps qs : List Posting)
    → credit_balance a (ps ++ qs) ≡ credit_balance a ps +ℤ credit_balance a qs
unfolding credit_balance
credit_balance-append a [] qs = omega int_laws
credit_balance-append a (p ∷ ps) qs =
    rw (credit_balance-append a ps qs)
      (+ℤ_assoc (credit_of a p) (credit_balance a ps) (credit_balance a qs))

-- The facts of a successful `post_journal`.
pub record IsPosted (j m : ℕ) (operation : Option ℕ) (t : JournalType) (reference : ℕ)
    (entries : List Entry) (result : JournalResult) (books books' : Books) : Type 0 where
  pub id : result.journal_id ≡ j
  pub postings : books'.postings ≡ books.postings ++ map (to_posting j) entries
  pub journals :
      books'.journals
      ≡ books.journals
        ++ (record {
          id = j;
          merchant_account_id = m;
          provider_operation_id = operation;
          journal_type = t;
          reference_id = reference;
        })
          ∷ []
  pub accounts : books'.accounts ≡ books.accounts
  pub balance_transactions : books'.balance_transactions ≡ books.balance_transactions
  pub settlement_items : books'.settlement_items ≡ books.settlement_items
  pub reservations : books'.reservations ≡ books.reservations
  pub totals : result.debit_total ≡ result.credit_total
  pub debit_total : result.debit_total ≡ total debit entries
  pub credit_total : result.credit_total ≡ total credit entries
  pub positive : any is_not_positive entries ≡ false
  pub fresh : any (collides operation t reference) books.journals ≡ false

pub post_journal-IsPosted :
    (j m : ℕ) (operation : Option ℕ) (t : JournalType) (reference : ℕ) (entries : List Entry)
    (books : Books) (result : JournalResult) (books' : Books)
    → post_journal j m operation t reference entries books ≡ ok (result, books')
    → IsPosted j m operation t reference entries result books books'
unfolding post_journal
post_journal-IsPosted j m operation t reference entries books result books' h = ground arith

pub add_zero_ℤ : (a : ℤ) → a +ℤ pos 0 ≡ a
add_zero_ℤ a = omega int_laws

zero_if :
    (s : Side) (x : ℤ) (b : Bool)
    → is_zero_ℤ x ≡ true
    → (y : ℤ) → (if b then signed s x else pos 0) +ℤ y ≡ y
unfolding ◌+ℤ◌
zero_if s x b h y = ground arith

-- An entry that is made only if its amount is not 0 counts as its amount in either case.
pub entry_if-credit :
    (a b : LedgerAccount) (s : Side) (x : ℤ) (j : ℕ) (es : List Entry)
    → credit_balance a (map (to_posting j) (entry_if x (b, s, x) ++ es))
      ≡ (if same_account a b then signed s x else pos 0) +ℤ credit_balance a (map (to_posting j) es)
unfolding credit_balance
entry_if-credit a b s x j es = elim (Bool-cases (is_zero_ℤ x)) [
  | inl none_made ↦
      rw none_made
        (sym (zero_if s x (same_account a b) none_made (credit_balance a (map (to_posting j) es))))
  | inr made ↦ rw made refl
]

pub entry_if-credit_last :
    (a b : LedgerAccount) (s : Side) (x : ℤ) (j : ℕ)
    → credit_balance a (map (to_posting j) (entry_if x (b, s, x)))
      ≡ (if same_account a b then signed s x else pos 0)
entry_if-credit_last a b s x j =
    rw (← append-nil (entry_if x (b, s, x)))
      (entry_if-credit a b s x j [] ∙ unfold credit_balance in add_zero_ℤ _)
