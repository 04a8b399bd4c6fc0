-- ===== src/Payouts/Solvent/Outcomes.antt =====
-- An attempt and its payout are given an outcome: `record_bank_observation` of payouts/service.py.
use mathlib.Core.Path.{subst}
use mathlib.Core.Option.{none-ne-some}
use relaypay.Base.{
  ℕ, ◌≡◌, sym, ap, ◌∙◌, ◌⊎◌, inl, inr, none, some, false, arith, find, All, ◌==◌, Bool-cases,
}
use relaypay.Ledger.Sources.{IsCovered}
use relaypay.Rows.{is_terminal}
use relaypay.Payouts.{
  Payout, PayoutAttempt, is_over, Treasury, find_payout, put_payout, put_payout_attempt,
}
use relaypay.Payouts.Solvent.{held, due, IsLive, IsSolvent, IsKept}
use relaypay.Payouts.Solvent.Named.{
  All-put_payout_named, All-put_payout_attempt_named, found-put_payout_attempt,
}
use relaypay.Payouts.Solvent.Found.{
  find-put_payout-cases, found-put_payout, none-put_payout, find-put_payout_attempt-cases,
}

-- What an outcome writes.
pub record OutcomeWrites (t t' : Treasury) : Type 0 where
  pub p : Payout
  pub p' : Payout
  pub a : PayoutAttempt
  pub a' : PayoutAttempt
  pub found : find_payout p.id t ≡ some p
  pub live : IsLive a t
  pub of : a.payout_id ≡ p.id
  pub same_payout : p'.id ≡ p.id
  pub same_attempt : a'.id ≡ a.id
  pub of' : a'.payout_id ≡ a.payout_id
  pub over : is_over a'.status ≡ is_terminal p'.status
  pub payouts : t'.payouts ≡ put_payout p' t.payouts
  pub attempts : t'.attempts ≡ put_payout_attempt a' t.attempts
  pub covered : (m : ℕ) → IsCovered m t'.books
  pub held_here : held p.id t'.books.reservations ≡ due p'
  pub held_there :
      (id : ℕ) → (id == p.id) ≡ false → held id t'.books.reservations ≡ held id t.books.reservations

module _ (t t' : Treasury) (o : OutcomeWrites t t') (s : IsSolvent t) where
  apart_of : (id : ℕ) → (id == o.p'.id) ≡ false → (id == o.p.id) ≡ false
  apart_of id h = subst (λ k. (id == k) ≡ false) o.same_payout h

  -- A live attempt found after the write is the one written, or was live and is another.
  IsLive-cases :
      (x : PayoutAttempt) → IsLive x t' → (x ≡ o.a') ⊎ ((x.id == o.a.id) ≡ false) × IsLive x t
  IsLive-cases x (f, l) =
      elim (find-put_payout_attempt-cases o.a' x x.id t.attempts
        (subst (λ z. find (λ y. y.id == x.id) z ≡ some x) o.attempts f)) [
          | inl (_, e) ↦ inl e
          | inr (apart, g) ↦ inr (subst (λ k. (x.id == k) ≡ false) o.same_attempt apart, (g, l))
        ]

  -- No other attempt of the payout is live.
  other_attempt :
      (x : PayoutAttempt) → (x.id == o.a.id) ≡ false → IsLive x t → x.payout_id ≡ o.p.id → ⊥
  other_attempt x apart l e =
      let same = s.single x o.a l o.live (e ∙ sym o.of) in ground (arith, apart, same)

  find_payouts :
      (id : ℕ) (q : Payout)
      → find_payout id t' ≡ some q
      → (id ≡ o.p'.id) × (q ≡ o.p') ⊎ ((id == o.p'.id) ≡ false) × (find_payout id t ≡ some q)
  find_payouts id q f =
      find-put_payout-cases o.p' q id t.payouts
        (subst (λ z. find (λ y. y.id == id) z ≡ some q) o.payouts f)

  OutcomeWrites-IsSolvent : IsSolvent t'
  OutcomeWrites-IsSolvent = record {
    payouts_named =
        subst (λ z. All (λ x. find (λ y. y.id == x.id) z ≡ some x) z) (sym o.payouts)
          (All-put_payout_named o.p o.p' t.payouts o.same_payout o.found s.payouts_named);
    attempts_named =
        subst (λ z. All (λ x. find (λ y. y.id == x.id) z ≡ some x) z) (sym o.attempts)
          (All-put_payout_attempt_named o.a o.a' t.attempts o.same_attempt o.live.0
            s.attempts_named);
    covered = o.covered;
    holds = λ q f. elim (find_payouts q.id q f) [
      | inl (e, e') ↦
          ap (λ k. held k t'.books.reservations) (e ∙ o.same_payout) ∙ o.held_here ∙ ap due (sym e')
      | inr (apart, g) ↦ o.held_there q.id (apart_of q.id apart) ∙ s.holds q g
    ];
    absent = λ id f.
        let g =
          none-put_payout o.p' id t.payouts
            (subst (λ z. find (λ y. y.id == id) z ≡ none) o.payouts f) in
        elim (Bool-cases (id == o.p.id)) [
          | inl e ↦
              let here : id ≡ o.p.id = ground (arith, e) in
              elim (none-ne-some o.p
                (sym g ∙ subst (λ k. find_payout k t ≡ some o.p) (sym here) o.found)) [ ]
          | inr e ↦ o.held_there id e ∙ s.absent id g
        ];
    owned = λ x f.
        elim (find-put_payout_attempt-cases o.a' x x.id t.attempts
          (subst (λ z. find (λ y. y.id == x.id) z ≡ some x) o.attempts f)) [
            | inl (_, e) ↦
                let (r, k) = found-put_payout o.p' o.p x.payout_id t.payouts (
                  subst (λ z. find_payout z t ≡ some o.p)
                    (sym (ap (λ y. y.payout_id) e ∙ o.of' ∙ o.of)) o.found) in
                (r, subst (λ z. find (λ y. y.id == x.payout_id) z ≡ some r) (sym o.payouts) k)
            | inr (_, g) ↦
                let (q, h) = s.owned x g in
                let (r, k) = found-put_payout o.p' q x.payout_id t.payouts h in
                (r, subst (λ z. find (λ y. y.id == x.payout_id) z ≡ some r) (sym o.payouts) k)
          ];
    under_way = λ x q l f. elim (IsLive-cases x l) [
      | inl e ↦ elim (find_payouts x.payout_id q f) [
        | inl (_, e') ↦
            ap (λ z. is_terminal z.status) e'
            ∙ sym o.over
            ∙ ap (λ z. is_over z.status) (sym e)
            ∙ l.1
        | inr (apart, _) ↦
            let here : x.payout_id ≡ o.p'.id =
              ap (λ z. z.payout_id) e ∙ o.of' ∙ o.of ∙ sym o.same_payout in
            ground (arith, apart, here)
      ]
      | inr (other, old) ↦ elim (find_payouts x.payout_id q f) [
        | inl (e, _) ↦ elim (other_attempt x other old (e ∙ o.same_payout)) [ ]
        | inr (_, g) ↦ s.under_way x q old g
      ]
    ];
    single = λ x y l k e. elim (IsLive-cases x l) [
      | inl f ↦ elim (IsLive-cases y k) [
        | inl g ↦ ap (λ z. z.id) (f ∙ sym g)
        | inr (other, old) ↦
            elim (other_attempt y other old (sym e ∙ ap (λ z. z.payout_id) f ∙ o.of' ∙ o.of)) [ ]
      ]
      | inr (other, old) ↦ elim (IsLive-cases y k) [
        | inl g ↦ elim (other_attempt x other old (e ∙ ap (λ z. z.payout_id) g ∙ o.of' ∙ o.of)) [ ]
        | inr (_, old') ↦ s.single x y old old' e
      ]
    ];
  }

  pub OutcomeWrites-IsKept : IsKept t t'
  OutcomeWrites-IsKept = record {
    solvent = OutcomeWrites-IsSolvent;
    attempts = λ id x f.
        let (b, g, e) =
          found-put_payout_attempt o.a o.a' x id t.attempts o.same_attempt o.of' o.live.0 f in
        (b, subst (λ z. find (λ y. y.id == id) z ≡ some b) (sym o.attempts) g, e);
  }
