-- ===== src/Payouts/Solvent/Reserved.antt =====
-- What a row of payout_reservations changes of what is reserved: `_reservation` of payouts/service.py.
use mathlib.Core.Path.{subst}
use relaypay.Base.{
  ℕ, ◌≡◌, refl, inl, inr, true, false, ok, arith, ◌==◌, ==_refl, Bool-cases, if◌then◌else◌,
}
use relaypay.Base.Int.{ℤ, pos, ◌+ℤ◌, int_laws}
use relaypay.Ledger.Books.{Books, ReservationAction}
use relaypay.Ledger.Sources.{IsCovered}
use relaypay.Payouts.{Payout, Treasury, reservation, check_coverage}
use relaypay.Payouts.Solvent.{held, IsSolvent, IsKept}
use relaypay.Payouts.Solvent.Found.{held-append, reservation_sum-append}

-- The rows that a reservation adds to.
pub held-reservation :
    (p : Payout) (action : ReservationAction) (d : ℤ) (books : Books) (id : ℕ)
    → held id (reservation p action d books).reservations
      ≡ held id books.reservations +ℤ (if p.id == id then d else pos 0)
unfolding reservation
held-reservation p action d books id = held-append id books.reservations _

-- A reservation that passes the check at commit leaves every merchant covered, if the check is of
-- balances that were only changed at that merchant.
pub reservation-IsCovered :
    (p : Payout) (action : ReservationAction) (d : ℤ) (books : Books)
    → check_coverage p.merchant_account_id (reservation p action d books) ≡ ok tt
    → ((n : ℕ) → (p.merchant_account_id == n) ≡ false → IsCovered n books)
    → (n : ℕ) → IsCovered n (reservation p action d books)
unfolding reservation
reservation-IsCovered p action d books h c n = elim (Bool-cases (p.merchant_account_id == n)) [
  | inl e ↦
      let here : p.merchant_account_id ≡ n = ground (arith, e) in
      subst (λ k. IsCovered k (reservation p action d books)) here (ground (arith, h))
  | inr e ↦ rw (reservation_sum-append n books.reservations _, e) (omega (int_laws, c n e))
]

pub held_there-reservation :
    (p : Payout) (action : ReservationAction) (d : ℤ) (books : Books) (id : ℕ)
    → (id == p.id) ≡ false
    → held id (reservation p action d books).reservations ≡ held id books.reservations
held_there-reservation p action d books id h =
    let other : (p.id == id) ≡ false = ground (arith, h) in
    rw (held-reservation p action d books id, other) (omega int_laws)

pub held_here-reservation :
    (p : Payout) (action : ReservationAction) (d x y : ℤ) (books : Books)
    → held p.id books.reservations ≡ x
    → x +ℤ d ≡ y
    → held p.id (reservation p action d books).reservations ≡ y
held_here-reservation p action d x y books h e =
    let same : (p.id == p.id) ≡ true = ==_refl p.id in
    rw (held-reservation p action d books p.id, same, h) e

-- A transaction that writes nothing.
pub same-IsKept : (t : Treasury) → IsSolvent t → IsKept t t
same-IsKept t s = record { solvent = s; attempts = λ id a f. (a, f, refl) }
