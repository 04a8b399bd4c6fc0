-- ===== src/Payouts/Solvent/Inserts.antt =====
-- A new payout, and a new attempt of a failed one: `create_payout` and `create_retry` of
-- payouts/service.py.
use mathlib.Core.Path.{subst}
use mathlib.Core.Option.{none-ne-some}
use relaypay.Base.{
  ℕ, ◌≡◌, refl, sym, ap, ◌∙◌, ◌⊎◌, inl, inr, none, some, List, [], ◌∷◌, ◌++◌, false, arith, find,
  any, All, ◌==◌, ==_refl, Bool-cases,
}
use relaypay.Ledger.Sources.{IsCovered}
use relaypay.Rows.{is_terminal}
use relaypay.Payouts.{
  Payout, PayoutAttempt, Treasury, find_payout, find_payout_attempt, attempt_collides_with,
}
use relaypay.Payouts.Solvent.{held, due, IsSolvent, IsKept}
use relaypay.Payouts.Solvent.Named.{find-append, find-append_last, All-append_named}

find-append-payout :
    (p q : Payout) (id : ℕ) (ps : List Payout)
    → find (λ x. x.id == id) (ps ++ p ∷ []) ≡ some q
    → (find (λ x. x.id == id) ps ≡ some q)
      ⊎ (find (λ x. x.id == id) ps ≡ none) × (id ≡ p.id) × (q ≡ p)
find-append-payout p q id [] h = inr (refl, ground (arith, h), ground (arith, h))
find-append-payout p q id (s ∷ ss) h = elim (Bool-cases (s.id == id)) [
  | inl e ↦ inl (ground (arith, h, e))
  | inr e ↦ elim (find-append-payout p q id ss (ground (arith, h, e))) [
    | inl k ↦ inl (ground (arith, e, k))
    | inr (n, i, k) ↦ inr (ground (arith, e, n), i, k)
  ]
]

none-append-payout :
    (p : Payout) (id : ℕ) (ps : List Payout)
    → find (λ x. x.id == id) (ps ++ p ∷ []) ≡ none
    → (find (λ x. x.id == id) ps ≡ none) × ((id == p.id) ≡ false)
none-append-payout p id [] h = (refl, ground (arith, h))
none-append-payout p id (s ∷ ss) h = ground (arith, h, none-append-payout p id ss)

pub find-append-attempt :
    (a x : PayoutAttempt) (id : ℕ) (xs : List PayoutAttempt)
    → find (λ y. y.id == id) (xs ++ a ∷ []) ≡ some x
    → (find (λ y. y.id == id) xs ≡ some x) ⊎ (x ≡ a)
find-append-attempt a x id [] h = inr (ground (arith, h))
find-append-attempt a x id (s ∷ ss) h = elim (Bool-cases (s.id == id)) [
  | inl e ↦ inl (ground (arith, h, e))
  | inr e ↦ elim (find-append-attempt a x id ss (ground (arith, h, e))) [
    | inl k ↦ inl (ground (arith, e, k))
    | inr k ↦ inr k
  ]
]

pub not-attempt_collides :
    (a x : PayoutAttempt) (xs : List PayoutAttempt)
    → any (attempt_collides_with a) xs ≡ false
    → find (λ y. y.id == x.id) xs ≡ some x
    → attempt_collides_with a x ≡ false
not-attempt_collides a x [] h f = cc
not-attempt_collides a x (s ∷ ss) h f = ground (arith, h, f, not-attempt_collides a x ss)

pub new-attempt_collides :
    (a : PayoutAttempt) (xs : List PayoutAttempt)
    → any (attempt_collides_with a) xs ≡ false
    → find (λ y. y.id == a.id) xs ≡ none
new-attempt_collides a [] h = refl
new-attempt_collides a (s ∷ ss) h = ground (arith, h, new-attempt_collides a ss)

-- What a creation writes.
pub record Creation (t t' : Treasury) : Type 0 where
  pub p : Payout
  pub a : PayoutAttempt
  pub new : find_payout p.id t ≡ none
  pub free : any (attempt_collides_with a) t.attempts ≡ false
  pub of : a.payout_id ≡ p.id
  pub going : is_terminal p.status ≡ false
  pub payouts : t'.payouts ≡ t.payouts ++ p ∷ []
  pub attempts : t'.attempts ≡ t.attempts ++ a ∷ []
  pub covered : (m : ℕ) → IsCovered m t'.books
  pub held_here : held p.id t'.books.reservations ≡ due p
  pub held_there :
      (id : ℕ) → (id == p.id) ≡ false → held id t'.books.reservations ≡ held id t.books.reservations

module _ (t t' : Treasury) (c : Creation t t') (s : IsSolvent t) where
  is_other : (id : ℕ) (q : Payout) → find_payout id t ≡ some q → (id == c.p.id) ≡ false
  is_other id q f = elim (Bool-cases (id == c.p.id)) [
    | inl e ↦
        let here : id ≡ c.p.id = ground (arith, e) in
        elim (none-ne-some q (sym c.new ∙ subst (λ k. find_payout k t ≡ some q) here f)) [ ]
    | inr e ↦ e
  ]

  payout-cases :
      (id : ℕ) (q : Payout)
      → find_payout id t' ≡ some q
      → (find_payout id t ≡ some q) ⊎ (find_payout id t ≡ none) × (id ≡ c.p.id) × (q ≡ c.p)
  payout-cases id q f =
      find-append-payout c.p q id t.payouts
        (subst (λ z. find (λ y. y.id == id) z ≡ some q) c.payouts f)

  attempt-cases :
      (x : PayoutAttempt)
      → find_payout_attempt x.id t' ≡ some x
      → (find_payout_attempt x.id t ≡ some x) ⊎ (x ≡ c.a)
  attempt-cases x f =
      find-append-attempt c.a x x.id t.attempts
        (subst (λ z. find (λ y. y.id == x.id) z ≡ some x) c.attempts f)

  -- No attempt that was there is of the new payout.
  not_new : (x : PayoutAttempt) → find_payout_attempt x.id t ≡ some x → x.payout_id ≡ c.p.id → ⊥
  not_new x f e =
      let (q, g) = s.owned x f in
      elim (none-ne-some q (sym c.new ∙ subst (λ k. find_payout k t ≡ some q) e g)) [ ]

  Creation-IsSolvent : IsSolvent t'
  Creation-IsSolvent = record {
    payouts_named =
        subst (λ z. All (λ x. find (λ y. y.id == x.id) z ≡ some x) z) (sym c.payouts)
          (All-append_named (λ y. y.id) c.p t.payouts c.new s.payouts_named);
    attempts_named =
        subst (λ z. All (λ x. find (λ y. y.id == x.id) z ≡ some x) z) (sym c.attempts)
          (All-append_named (λ y. y.id) c.a t.attempts (new-attempt_collides c.a t.attempts c.free)
            s.attempts_named);
    covered = c.covered;
    holds = λ q f. elim (payout-cases q.id q f) [
      | inl g ↦ c.held_there q.id (is_other q.id q g) ∙ s.holds q g
      | inr (_, e, e') ↦ ap (λ k. held k t'.books.reservations) e ∙ c.held_here ∙ ap due (sym e')
    ];
    absent = λ id f.
        let (g, e) =
          none-append-payout c.p id t.payouts
            (subst (λ z. find (λ y. y.id == id) z ≡ none) c.payouts f) in
        c.held_there id e ∙ s.absent id g;
    owned = λ x f. elim (attempt-cases x f) [
      | inl g ↦
          let (q, h) = s.owned x g in
          (
            q,
            subst (λ z. find (λ y. y.id == x.payout_id) z ≡ some q) (sym c.payouts)
                (find-append (λ y. y.id == x.payout_id) q t.payouts (c.p ∷ []) h),
          )
      | inr e ↦ (
        c.p,
        subst (λ k. find_payout k t' ≡ some c.p) (sym (ap (λ y. y.payout_id) e ∙ c.of))
            (subst (λ z. find (λ y. y.id == c.p.id) z ≡ some c.p) (sym c.payouts)
              (find-append_last (λ y. y.id == c.p.id) c.p t.payouts c.new (==_refl c.p.id))),
      )
    ];
    under_way = λ x q l f. elim (attempt-cases x l.0) [
      | inl g ↦ elim (payout-cases x.payout_id q f) [
        | inl h ↦ s.under_way x q (g, l.1) h
        | inr (_, e, _) ↦ elim (not_new x g e) [ ]
      ]
      | inr e ↦ elim (payout-cases x.payout_id q f) [
        | inl h ↦
            elim (none-ne-some q (
              sym c.new
              ∙ subst (λ k. find_payout k t ≡ some q) (ap (λ y. y.payout_id) e ∙ c.of) h)) [ ]
        | inr (_, _, e') ↦ ap (λ z. is_terminal z.status) e' ∙ c.going
      ]
    ];
    single = λ x y l k e. elim (attempt-cases x l.0) [
      | inl f ↦ elim (attempt-cases y k.0) [
        | inl g ↦ s.single x y (f, l.1) (g, k.1) e
        | inr g ↦ elim (not_new x f (e ∙ ap (λ z. z.payout_id) g ∙ c.of)) [ ]
      ]
      | inr f ↦ elim (attempt-cases y k.0) [
        | inl g ↦ elim (not_new y g (sym e ∙ ap (λ z. z.payout_id) f ∙ c.of)) [ ]
        | inr g ↦ ap (λ z. z.id) (f ∙ sym g)
      ]
    ];
  }

  pub Creation-IsKept : IsKept t t'
  Creation-IsKept = record {
    solvent = Creation-IsSolvent;
    attempts = λ id x f. (
      x,
      subst (λ z. find (λ y. y.id == id) z ≡ some x) (sym c.attempts)
          (find-append (λ y. y.id == id) x t.attempts (c.a ∷ []) f),
      refl,
    );
  }
