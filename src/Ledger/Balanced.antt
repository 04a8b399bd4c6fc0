-- ===== src/Ledger/Balanced.antt =====
-- Double entry: every journal's debits equal its credits, every posting is positive, and no two
-- journals are for one operation or for one reference. ledger/service.py and ledger/models.py.
use mathlib.Core.Path.{subst}
use relaypay.Base.{
  Bool-cases, inl, inr, ◌∙◌, ℕ, ◌≡◌, refl, sym, Option, List, [], ◌∷◌, ◌++◌, map, true, false, ok,
  arith, any, ◌==◌, if◌then◌else◌, All, All-append,
}
use relaypay.Base.Int.{zero_of_add, ℤ, pos, ◌+ℤ◌, ◌≤ℤ◌, int_laws, +ℤ_assoc}
use relaypay.Ledger.Books.{debit, credit, JournalType, Journal, Posting, Books, signed}
use relaypay.Ledger.Posting.{
  Entry, JournalResult, total, is_not_positive, collides, to_posting, post_journal,
}
use relaypay.Ledger.Balances.{IsPosted, post_journal-IsPosted}

-- Credits less debits of one journal.
unfoldable pub journal_balance : ℕ → List Posting → ℤ
journal_balance j [] = pos 0
journal_balance j (p ∷ ps) =
    (if p.journal_id == j then signed p.side p.amount else pos 0) +ℤ journal_balance j ps

-- No journal of the list collides with one further on.
abbrev pub Distinct : List Journal → Type 0
Distinct [] = Unit
Distinct (j ∷ js) =
    All (λ k. collides k.provider_operation_id k.journal_type k.reference_id j ≡ false) js
    × Distinct js

pub record IsBalanced (books : Books) : Type 0 where
  pub zero : (j : ℕ) → journal_balance j books.postings ≡ pos 0
  pub positive : All (λ p. pos 1 ≤ℤ p.amount) books.postings
  pub distinct : Distinct books.journals

journal_balance-append :
    (j : ℕ) (ps qs : List Posting)
    → journal_balance j (ps ++ qs) ≡ journal_balance j ps +ℤ journal_balance j qs
unfolding journal_balance
journal_balance-append j [] qs = omega int_laws
journal_balance-append j (p ∷ ps) qs = rw (journal_balance-append j ps qs) (
    +ℤ_assoc (if p.journal_id == j then signed p.side p.amount else pos 0) (journal_balance j ps)
      (journal_balance j qs))

-- The entries of one journal: all of them count for it, and none for another.
journal_balance-entries_self :
    (j k : ℕ) (entries : List Entry)
    → (j == k) ≡ true
    → journal_balance k (map (to_posting j) entries) +ℤ total debit entries ≡ total credit entries
unfolding journal_balance total
journal_balance-entries_self j k [] e = omega int_laws
journal_balance-entries_self j k ((a, debit, amount) ∷ es) e =
    rw e (grind (int_laws, journal_balance-entries_self j k es e))
journal_balance-entries_self j k ((a, credit, amount) ∷ es) e =
    rw e (grind (int_laws, journal_balance-entries_self j k es e))

journal_balance-entries_ne :
    (j k : ℕ) (entries : List Entry)
    → (j == k) ≡ false
    → journal_balance k (map (to_posting j) entries) ≡ pos 0
unfolding journal_balance
journal_balance-entries_ne j k [] e = refl
journal_balance-entries_ne j k ((a, s, amount) ∷ es) e =
    rw e (grind (int_laws, journal_balance-entries_ne j k es e))

entries-positive :
    (j : ℕ) (entries : List Entry)
    → any is_not_positive entries ≡ false
    → All (λ p. pos 1 ≤ℤ p.amount) (map (to_posting j) entries)
entries-positive j [] h = tt
entries-positive j ((a, s, amount) ∷ es) h = ground (arith, entries-positive j es)

Distinct-append :
    (js : List Journal) (k : Journal)
    → Distinct js
    → any (collides k.provider_operation_id k.journal_type k.reference_id) js ≡ false
    → Distinct (js ++ k ∷ [])
Distinct-append [] k d h = (tt, tt)
Distinct-append (j ∷ js) k d h = (
  All-append (λ i. collides i.provider_operation_id i.journal_type i.reference_id j ≡ false) js
      (k ∷ []) d.0 (ground arith, tt),
  Distinct-append js k d.1 (ground arith),
)

module _ {j m : ℕ} {operation : Option ℕ} {t : JournalType} {reference : ℕ} {entries : List Entry}
    {result : JournalResult} {books books' : Books}
    (p : IsPosted j m operation t reference entries result books books') where
  entries_balance : (k : ℕ) → journal_balance k (map (to_posting j) entries) ≡ pos 0
  entries_balance k = elim (Bool-cases (j == k)) [
    | inl same ↦
        zero_of_add (journal_balance k (map (to_posting j) entries)) (total debit entries)
          (total credit entries) (journal_balance-entries_self j k entries same)
          (sym p.debit_total ∙ p.totals ∙ p.credit_total)
    | inr other ↦ journal_balance-entries_ne j k entries other
  ]

  pub posted-IsBalanced : IsBalanced books → IsBalanced books'
  posted-IsBalanced b = record {
    zero = λ k.
        rw
          (
            p.postings,
            journal_balance-append k books.postings (map (to_posting j) entries),
            b.zero k,
          )
          (rw (entries_balance k) (omega int_laws));
    positive = subst (All (λ q. pos 1 ≤ℤ q.amount)) (sym p.postings) (
        All-append (λ q. pos 1 ≤ℤ q.amount) books.postings (map (to_posting j) entries) b.positive
          (entries-positive j entries p.positive));
    distinct = subst Distinct (sym p.journals) (
        Distinct-append books.journals
          (record {
            id = j;
            merchant_account_id = m;
            provider_operation_id = operation;
            journal_type = t;
            reference_id = reference;
          })
          b.distinct p.fresh);
  }

-- A journal that is posted keeps the books balanced: each journal's debits equal its credits, each
-- posting is positive, and no two journals share an operation or a type and a reference.
pub post_journal-IsBalanced :
    (j m : ℕ) (operation : Option ℕ) (t : JournalType) (reference : ℕ) (entries : List Entry)
    (books : Books) (result : JournalResult) (books' : Books)
    → post_journal j m operation t reference entries books ≡ ok (result, books')
    → IsBalanced books
    → IsBalanced books'
post_journal-IsBalanced j m operation t reference entries books result books' h =
    posted-IsBalanced
      (post_journal-IsPosted j m operation t reference entries books result books' h)
