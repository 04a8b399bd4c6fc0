-- ===== src/Payouts/Solvent/Sent.antt =====
-- What `prepare_attempt_send` of payouts/service.py keeps, and what it prepares.
use mathlib.Core.Path.{subst}
use relaypay.Base.{
  ℕ, ltb, ◌≡◌, refl, sym, ap, ◌∙◌, ◌⊎◌, inl, inr, some, List, [], ◌∷◌, false, ok, arith, find, All,
  All-find, ◌==◌, Bool-cases, Option-cases, ok-inj, if◌then◌else◌,
}
use relaypay.Rows.{is_terminal}
use relaypay.Payouts.{
  Payout, PayoutAttempt, is_over, BankRequest, Treasury, PreparedAttempt, find_payout,
  find_payout_attempt, sent_attempt, send_attempt, latest_attempt, prepare_attempt_send,
}
use relaypay.Payouts.Solvent.{IsLive, IsSolvent, IsKept}
use relaypay.Payouts.Solvent.Reserved.{same-IsKept}
use relaypay.Payouts.Solvent.Outcomes.{OutcomeWrites-IsKept}
use relaypay.Payouts.Solvent.Named.{put_payout_same, find-put_payout_attempt_self}

-- The attempt that was prepared is one of the payout that was prepared.
abbrev pub IsPrepared : PreparedAttempt → Treasury → Type 0
IsPrepared prepared t =
    (a : PayoutAttempt) × (find_payout_attempt prepared.attempt_id t ≡ some a)
    × (a.payout_id ≡ prepared.payout_id)

-- The latest attempt of a payout is among the attempts.
latest_attempt-cases :
    (P : PayoutAttempt → Type 0) (payout_id : ℕ) (xs : List PayoutAttempt) (a : PayoutAttempt)
    → latest_attempt payout_id xs ≡ some a
    → All P xs
    → P a × (a.payout_id ≡ payout_id)
unfolding latest_attempt
latest_attempt-cases P payout_id [] a h all = cc
latest_attempt-cases P payout_id (x ∷ xs) a h all = elim (Bool-cases (x.payout_id == payout_id)) [
  | inr e ↦ latest_attempt-cases P payout_id xs a (ground (arith, h, e)) all.1
  | inl e ↦
      let of : x.payout_id ≡ payout_id = ground (arith, e) in
      elim (Option-cases (latest_attempt payout_id xs)) [
        | inl f ↦
            let same : x ≡ a = ground (arith, h, e, f) in
            subst (λ z. P z × (z.payout_id ≡ payout_id)) same (all.0, of)
        | inr (b, f) ↦ elim (either b (ground (arith, h, e, f))) [
          | inl same ↦ subst (λ z. P z × (z.payout_id ≡ payout_id)) same (all.0, of)
          | inr g ↦ latest_attempt-cases P payout_id xs a (f ∙ ap some g) all.1
        ]
      ]
]
  where
    either :
        (b : PayoutAttempt)
        → (if ltb x.attempt_number b.attempt_number then some b else some x) ≡ some a
        → (x ≡ a) ⊎ (b ≡ a)
    either b h = elim (Bool-cases (ltb x.attempt_number b.attempt_number)) [
      | inl e ↦ inr (ground (arith, h, e))
      | inr e ↦ inl (ground (arith, h, e))
    ]

module _ (p : Payout) (a : PayoutAttempt) (bank_account_id now : ℕ) (t : Treasury)
    (found : find_payout p.id t ≡ some p) (live : IsLive a t) (of : a.payout_id ≡ p.id)
    (s : IsSolvent t) where
  send_attempt-IsKept :
      (prepared : PreparedAttempt) (t' : Treasury)
      → send_attempt p a bank_account_id now t ≡ ok (prepared, t')
      → IsKept t t' × IsPrepared prepared t'
  unfolding send_attempt
  send_attempt-IsKept prepared t' h =
      let going : is_terminal p.status ≡ false =
        s.under_way a p live (subst (λ k. find_payout k t ≡ some p) (sym of) found) in
      elim (Option-cases (find (λ x. x.id == p.beneficiary_id) t.beneficiaries)) [
        | inl e ↦ ground (arith, h, e)
        | inr (b, e) ↦
            let request : BankRequest = record {
              account_id = bank_account_id;
              amount = p.amount;
              beneficiary_reference = b.bank_account_reference;
              payout_reference = p.public_id;
              stable_key = a.stable_provider_key;
            } in
            let same = ok-inj (rw e at h) in
            subst (λ z. IsKept t z.1 × IsPrepared z.0 z.1) same
              (
                OutcomeWrites-IsKept t _
                    (record {
                      p = p;
                      p' = p;
                      a = a;
                      a' = sent_attempt request now a;
                      found = found;
                      live = live;
                      of = of;
                      same_payout = refl;
                      same_attempt = refl;
                      of' = refl;
                      over = sym going;
                      payouts = sym (put_payout_same p t.payouts found s.payouts_named);
                      attempts = refl;
                      covered = s.covered;
                      held_here = s.holds p found;
                      held_there = λ _ _. refl;
                    })
                    s,
                (
                  sent_attempt request now a,
                  find-put_payout_attempt_self (sent_attempt request now a) a t.attempts refl
                      live.0,
                  of,
                ),
              )
      ]

-- Preparing a send keeps the state solvent, and prepares an attempt of the payout.
pub prepare_attempt_send-IsKept :
    (payout_public_id bank_account_id now : ℕ) (t : Treasury) (prepared : PreparedAttempt)
    (t' : Treasury)
    → IsSolvent t
    → prepare_attempt_send payout_public_id bank_account_id now t ≡ ok (prepared, t')
    → IsKept t t' × IsPrepared prepared t'
unfolding prepare_attempt_send
prepare_attempt_send-IsKept payout_public_id bank_account_id now t prepared t' s h =
    elim (Option-cases (find (λ q. q.public_id == payout_public_id) t.payouts)) [
      | inl e ↦ ground (arith, h, e)
      | inr (p, e) ↦ elim (Option-cases (latest_attempt p.id t.attempts)) [
        | inl f ↦ ground (arith, h, e, f)
        | inr (a, f) ↦
            let found =
              All-find (λ q. find_payout q.id t ≡ some q) (λ q. q.public_id == payout_public_id)
                t.payouts p e s.payouts_named in
            let (there, of) =
              latest_attempt-cases (λ x. find_payout_attempt x.id t ≡ some x) p.id t.attempts a f
                s.attempts_named in
            elim (Bool-cases (is_over a.status)) [
              | inl g ↦
                  subst (λ z. IsKept t z.1 × IsPrepared z.0 z.1) (ok-inj (rw (e, f, g) at h))
                    (same-IsKept t s, (a, there, of))
              | inr g ↦ elim (Option-cases a.last_sent_at) [
                | inl k ↦
                    send_attempt-IsKept p a bank_account_id now t found (there, g) of s prepared t'
                      (ground (arith, h, e, f, g, k))
                | inr (_, k) ↦ elim (Option-cases a.request) [
                  | inl u ↦ ground (arith, h, e, f, g, k, u)
                  | inr (r, u) ↦
                      subst (λ z. IsKept t z.1 × IsPrepared z.0 z.1)
                        (ok-inj (rw (e, f, g, k, u) at h)) (same-IsKept t s, (a, there, of))
                ]
              ]
            ]
      ]
    ]
