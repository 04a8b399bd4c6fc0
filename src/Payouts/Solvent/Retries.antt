-- ===== src/Payouts/Solvent/Retries.antt =====
-- A new attempt of a failed payout: `create_retry` of payouts/service.py.
use mathlib.Core.Path.{subst}
use mathlib.Core.Option.{none-ne-some}
use relaypay.Base.{
  ℕ, ◌≡◌, refl, sym, ap, ◌∙◌, ◌⊎◌, inl, inr, none, some, [], ◌∷◌, ◌++◌, false, arith, find, any,
  All, ◌==◌, Bool-cases,
}
use relaypay.Ledger.Sources.{IsCovered}
use relaypay.Rows.{is_terminal}
use relaypay.Payouts.{
  Payout, PayoutAttempt, Treasury, find_payout, find_payout_attempt, put_payout,
  attempt_collides_with,
}
use relaypay.Payouts.Solvent.{held, due, IsLive, IsSolvent, IsKept}
use relaypay.Payouts.Solvent.Named.{find-append, All-append_named, All-put_payout_named}
use relaypay.Payouts.Solvent.Found.{find-put_payout-cases, found-put_payout, none-put_payout}
use relaypay.Payouts.Solvent.Inserts.{
  find-append-attempt, not-attempt_collides, new-attempt_collides,
}

-- What a retry writes.
pub record Retry (t t' : Treasury) : Type 0 where
  pub p : Payout
  pub p' : Payout
  pub a : PayoutAttempt
  pub found : find_payout p.id t ≡ some p
  pub same : p'.id ≡ p.id
  pub going : is_terminal p'.status ≡ false
  pub of : a.payout_id ≡ p.id
  pub free : any (attempt_collides_with a) t.attempts ≡ false
  pub payouts : t'.payouts ≡ put_payout p' t.payouts
  pub attempts : t'.attempts ≡ t.attempts ++ a ∷ []
  pub covered : (m : ℕ) → IsCovered m t'.books
  pub held_here : held p.id t'.books.reservations ≡ due p'
  pub held_there :
      (id : ℕ) → (id == p.id) ≡ false → held id t'.books.reservations ≡ held id t.books.reservations

module _ (t t' : Treasury) (c : Retry t t') (s : IsSolvent t) where
  find_payouts :
      (id : ℕ) (q : Payout)
      → find_payout id t' ≡ some q
      → (id ≡ c.p'.id) × (q ≡ c.p') ⊎ ((id == c.p'.id) ≡ false) × (find_payout id t ≡ some q)
  find_payouts id q f =
      find-put_payout-cases c.p' q id t.payouts
        (subst (λ z. find (λ y. y.id == id) z ≡ some q) c.payouts f)

  attempt-cases :
      (x : PayoutAttempt)
      → find_payout_attempt x.id t' ≡ some x
      → (find_payout_attempt x.id t ≡ some x) ⊎ (x ≡ c.a)
  attempt-cases x f =
      find-append-attempt c.a x x.id t.attempts
        (subst (λ z. find (λ y. y.id == x.id) z ≡ some x) c.attempts f)

  -- The attempts of the payout are over.
  none_live : (x : PayoutAttempt) → IsLive x t → x.payout_id ≡ c.p.id → ⊥
  none_live x (f, l) e =
      let free = not-attempt_collides c.a x t.attempts c.free f in
      let same : x.payout_id ≡ c.a.payout_id = e ∙ sym c.of in ground (arith, free, same, l)

  Retry-IsSolvent : IsSolvent t'
  Retry-IsSolvent = record {
    payouts_named =
        subst (λ z. All (λ x. find (λ y. y.id == x.id) z ≡ some x) z) (sym c.payouts)
          (All-put_payout_named c.p c.p' t.payouts c.same c.found s.payouts_named);
    attempts_named =
        subst (λ z. All (λ x. find (λ y. y.id == x.id) z ≡ some x) z) (sym c.attempts)
          (All-append_named (λ y. y.id) c.a t.attempts (new-attempt_collides c.a t.attempts c.free)
            s.attempts_named);
    covered = c.covered;
    holds = λ q f. elim (find_payouts q.id q f) [
      | inl (e, e') ↦
          ap (λ k. held k t'.books.reservations) (e ∙ c.same) ∙ c.held_here ∙ ap due (sym e')
      | inr (apart, g) ↦
          c.held_there q.id (subst (λ k. (q.id == k) ≡ false) c.same apart) ∙ s.holds q g
    ];
    absent = λ id f.
        let g =
          none-put_payout c.p' id t.payouts
            (subst (λ z. find (λ y. y.id == id) z ≡ none) c.payouts f) in
        elim (Bool-cases (id == c.p.id)) [
          | inl e ↦
              let here : id ≡ c.p.id = ground (arith, e) in
              elim (none-ne-some c.p
                (sym g ∙ subst (λ k. find_payout k t ≡ some c.p) (sym here) c.found)) [ ]
          | inr e ↦ c.held_there id e ∙ s.absent id g
        ];
    owned = λ x f.
        let (q, h) = owner x (attempt-cases x f) in
        let (r, k) = found-put_payout c.p' q x.payout_id t.payouts h in
        (r, subst (λ z. find (λ y. y.id == x.payout_id) z ≡ some r) (sym c.payouts) k);
    under_way = λ x q l f. elim (find_payouts x.payout_id q f) [
      | inl (_, e) ↦ ap (λ z. is_terminal z.status) e ∙ c.going
      | inr (apart, g) ↦ elim (attempt-cases x l.0) [
        | inl h ↦ s.under_way x q (h, l.1) g
        | inr e ↦
            let here : x.payout_id ≡ c.p'.id = ap (λ z. z.payout_id) e ∙ c.of ∙ sym c.same in
            ground (arith, apart, here)
      ]
    ];
    single = λ x y l k e. elim (attempt-cases x l.0) [
      | inl f ↦ elim (attempt-cases y k.0) [
        | inl g ↦ s.single x y (f, l.1) (g, k.1) e
        | inr g ↦ elim (none_live x (f, l.1) (e ∙ ap (λ z. z.payout_id) g ∙ c.of)) [ ]
      ]
      | inr f ↦ elim (attempt-cases y k.0) [
        | inl g ↦ elim (none_live y (g, k.1) (sym e ∙ ap (λ z. z.payout_id) f ∙ c.of)) [ ]
        | inr g ↦ ap (λ z. z.id) (f ∙ sym g)
      ]
    ];
  }
    where
      owner :
          (x : PayoutAttempt)
          → (find_payout_attempt x.id t ≡ some x) ⊎ (x ≡ c.a)
          → (q : Payout) × (find_payout x.payout_id t ≡ some q)
      owner x (inl g) = s.owned x g
      owner x (inr e) = (
        c.p,
        subst (λ k. find_payout k t ≡ some c.p) (sym (ap (λ y. y.payout_id) e ∙ c.of)) c.found,
      )

  pub Retry-IsKept : IsKept t t'
  Retry-IsKept = record {
    solvent = Retry-IsSolvent;
    attempts = λ id x f. (
      x,
      subst (λ z. find (λ y. y.id == id) z ≡ some x) (sym c.attempts)
          (find-append (λ y. y.id == id) x t.attempts (c.a ∷ []) f),
      refl,
    );
  }
