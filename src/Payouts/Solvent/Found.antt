-- ===== src/Payouts/Solvent/Found.antt =====
-- Rows that are found after a write, and sums after a reservation: payouts/service.py.
use relaypay.Base.{
  ℕ, ◌≡◌, refl, ◌⊎◌, inl, inr, none, some, List, [], ◌∷◌, ◌++◌, false, arith, find, ◌==◌,
  Bool-cases, if◌then◌else◌,
}
use relaypay.Base.Int.{pos, ◌+ℤ◌, int_laws, +ℤ_assoc}
use relaypay.Ledger.Books.{Reservation}
use relaypay.Ledger.Refund.{reservation_sum}
use relaypay.Payouts.{Payout, PayoutAttempt, put_payout, put_payout_attempt}
use relaypay.Payouts.Solvent.{held}

pub find-put_payout-cases :
    (p q : Payout) (id : ℕ) (ps : List Payout)
    → find (λ x. x.id == id) (put_payout p ps) ≡ some q
    → (id ≡ p.id) × (q ≡ p) ⊎ ((id == p.id) ≡ false) × (find (λ x. x.id == id) ps ≡ some q)
unfolding put_payout
find-put_payout-cases p q id [] h = cc
find-put_payout-cases p q id (s ∷ ss) h = elim (Bool-cases (s.id == id)) [
  | inl e ↦ elim (Bool-cases (s.id == p.id)) [
    | inl f ↦ inl (ground (arith, h, e, f), ground (arith, h, e, f))
    | inr f ↦ inr (ground (arith, h, e, f), ground (arith, h, e, f))
  ]
  | inr e ↦ elim (find-put_payout-cases p q id ss (ground (arith, h, e))) [
    | inl k ↦ inl k
    | inr (apart, k) ↦ inr (apart, ground (arith, e, k))
  ]
]

pub find-put_payout_self :
    (p q : Payout) (ps : List Payout)
    → p.id ≡ q.id
    → find (λ x. x.id == q.id) ps ≡ some q
    → find (λ x. x.id == q.id) (put_payout p ps) ≡ some p
unfolding put_payout
find-put_payout_self p q [] e h = cc
find-put_payout_self p q (s ∷ ss) e h = ground (arith, find-put_payout_self p q ss)

pub found-put_payout :
    (p q : Payout) (id : ℕ) (ps : List Payout)
    → find (λ x. x.id == id) ps ≡ some q
    → (r : Payout) × (find (λ x. x.id == id) (put_payout p ps) ≡ some r)
unfolding put_payout
found-put_payout p q id [] h = cc
found-put_payout p q id (s ∷ ss) h = elim (Bool-cases (s.id == id)) [
  | inl e ↦ ((if s.id == p.id then p else s), ground (arith, h, e))
  | inr e ↦
      let (r, k) = found-put_payout p q id ss (ground (arith, h, e)) in (r, ground (arith, e, k))
]

pub none-put_payout :
    (p : Payout) (id : ℕ) (ps : List Payout)
    → find (λ x. x.id == id) (put_payout p ps) ≡ none
    → find (λ x. x.id == id) ps ≡ none
unfolding put_payout
none-put_payout p id [] h = refl
none-put_payout p id (s ∷ ss) h = ground (arith, h, none-put_payout p id ss)

pub find-put_payout_attempt-cases :
    (p q : PayoutAttempt) (id : ℕ) (ps : List PayoutAttempt)
    → find (λ x. x.id == id) (put_payout_attempt p ps) ≡ some q
    → (id ≡ p.id) × (q ≡ p) ⊎ ((id == p.id) ≡ false) × (find (λ x. x.id == id) ps ≡ some q)
unfolding put_payout_attempt
find-put_payout_attempt-cases p q id [] h = cc
find-put_payout_attempt-cases p q id (s ∷ ss) h = elim (Bool-cases (s.id == id)) [
  | inl e ↦ elim (Bool-cases (s.id == p.id)) [
    | inl f ↦ inl (ground (arith, h, e, f), ground (arith, h, e, f))
    | inr f ↦ inr (ground (arith, h, e, f), ground (arith, h, e, f))
  ]
  | inr e ↦ elim (find-put_payout_attempt-cases p q id ss (ground (arith, h, e))) [
    | inl k ↦ inl k
    | inr (apart, k) ↦ inr (apart, ground (arith, e, k))
  ]
]

pub held-append :
    (id : ℕ) (rs : List Reservation) (r : Reservation)
    → held id (rs ++ r ∷ []) ≡ held id rs +ℤ (if r.payout_id == id then r.amount_delta else pos 0)
unfolding held
held-append id [] r = omega int_laws
held-append id (s ∷ ss) r = rw (held-append id ss r) (
    +ℤ_assoc (if s.payout_id == id then s.amount_delta else pos 0) (held id ss)
      (if r.payout_id == id then r.amount_delta else pos 0))

pub reservation_sum-append :
    (m : ℕ) (rs : List Reservation) (r : Reservation)
    → reservation_sum m (rs ++ r ∷ [])
      ≡ reservation_sum m rs +ℤ (if r.merchant_account_id == m then r.amount_delta else pos 0)
unfolding reservation_sum
reservation_sum-append m [] r = omega int_laws
reservation_sum-append m (s ∷ ss) r = rw (reservation_sum-append m ss r) (
    +ℤ_assoc (if s.merchant_account_id == m then s.amount_delta else pos 0) (reservation_sum m ss)
      (if r.merchant_account_id == m then r.amount_delta else pos 0))
