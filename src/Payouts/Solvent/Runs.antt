-- ===== src/Payouts/Solvent/Runs.antt =====
-- Payouts that are created, sent, answered and tried again, in any order: the transactions of
-- payouts/service.py, each of which locks what it writes.
use relaypay.Base.{ℕ, ◌≡◌, ◌∙◌, some, List, [], ◌∷◌, Bool, ok, find, All, All-find}
use relaypay.Payouts.{
  Treasury, ReservationGuard, PayoutRequest, NewPayout, CommandResult, PreparedAttempt,
  BankClassification, create_payout_in, create_retry, prepare_attempt_send, record_bank_observation,
}
use relaypay.Payouts.Solvent.{IsSolvent, IsKept}
use relaypay.Payouts.Solvent.Created.{create_payout_in-IsKept}
use relaypay.Payouts.Solvent.Retried.{create_retry-IsKept}
use relaypay.Payouts.Solvent.Sent.{IsPrepared, prepare_attempt_send-IsKept}
use relaypay.Payouts.Solvent.Observed.{record_bank_observation-IsKept}

-- The database, and the sends whose answer is not recorded yet; a send may be answered twice.
pub record PayoutWorld : Type 0 where
  pub treasury : Treasury
  pub prepared : List PreparedAttempt

-- Under a guard that is not the row lock, the balances of a creation are those of any state `seen`.
pub data PayoutStep : PayoutWorld → PayoutWorld → Type 0 where
  create :
      (guard : ReservationGuard) (request : PayoutRequest) (new : NewPayout) (seen t t' : Treasury)
      (result : CommandResult) (sends : List PreparedAttempt)
      → create_payout_in guard request new seen t ≡ ok (result, t')
      → PayoutStep
          (record { treasury = t; prepared = sends })
          (record { treasury = t'; prepared = sends })
  try_again :
      (payout_public_id key_digest fingerprint attempt_id : ℕ) (t t' : Treasury)
      (result : CommandResult) (sends : List PreparedAttempt)
      → create_retry payout_public_id key_digest fingerprint attempt_id t ≡ ok (result, t')
      → PayoutStep
          (record { treasury = t; prepared = sends })
          (record { treasury = t'; prepared = sends })
  send :
      (payout_public_id bank_account_id now : ℕ) (t t' : Treasury) (p : PreparedAttempt)
      (sends : List PreparedAttempt)
      → prepare_attempt_send payout_public_id bank_account_id now t ≡ ok (p, t')
      → PayoutStep
          (record { treasury = t; prepared = sends })
          (record { treasury = t'; prepared = p ∷ sends })
  observe :
      (choice : PreparedAttempt → Bool) (p : PreparedAttempt) (c : BankClassification)
      (grace now journal_id : ℕ) (t t' : Treasury) (sends : List PreparedAttempt)
      → find choice sends ≡ some p
      → record_bank_observation p c grace now journal_id t ≡ ok t'
      → PayoutStep
          (record { treasury = t; prepared = sends })
          (record { treasury = t'; prepared = sends })

pub data PayoutRun : PayoutWorld → PayoutWorld → Type 0 where
  stop : (w : PayoutWorld) → PayoutRun w w
  step : (u v w : PayoutWorld) → PayoutStep u v → PayoutRun v w → PayoutRun u w

-- A solvent database, and sends of attempts that are there.
pub record IsSound (w : PayoutWorld) : Type 0 where
  pub solvent : IsSolvent w.treasury
  pub sends : All (λ p. IsPrepared p w.treasury) w.prepared

still_prepared :
    (t t' : Treasury) (ps : List PreparedAttempt)
    → IsKept t t'
    → All (λ p. IsPrepared p t) ps
    → All (λ p. IsPrepared p t') ps
still_prepared t t' [] k h = tt
still_prepared t t' (p ∷ ps) k ((a, f, of), rest) =
    let (b, g, e) = k.attempts p.attempt_id a f in ((b, g, e ∙ of), still_prepared t t' ps k rest)

kept-IsSound :
    (t t' : Treasury) (ps : List PreparedAttempt)
    → All (λ p. IsPrepared p t) ps
    → IsKept t t'
    → IsSound (record { treasury = t'; prepared = ps })
kept-IsSound t t' ps h k = record { solvent = k.solvent; sends = still_prepared t t' ps k h }

PayoutStep-IsSound : (u v : PayoutWorld) → PayoutStep u v → IsSound u → IsSound v
PayoutStep-IsSound u v (create guard request new seen t t' result ps h) s =
    kept-IsSound t t' ps s.sends
      (create_payout_in-IsKept guard request new seen t result t' s.solvent h)
PayoutStep-IsSound u v (try_again id digest fingerprint attempt t t' result ps h) s =
    kept-IsSound t t' ps s.sends
      (create_retry-IsKept id digest fingerprint attempt t result t' s.solvent h)
PayoutStep-IsSound u v (send id account now t t' p ps h) s =
    let (k, new) = prepare_attempt_send-IsKept id account now t p t' s.solvent h in
    record { solvent = k.solvent; sends = (new, still_prepared t t' ps k s.sends) }
PayoutStep-IsSound u v (observe choice p c grace now journal t t' ps f h) s =
    let (a, g, of) = All-find (λ q. IsPrepared q t) choice ps p f s.sends in
    kept-IsSound t t' ps s.sends
      (record_bank_observation-IsKept p c grace now journal t t' a g of s.solvent h)

-- However payouts are created under whichever guard, sent, answered, answered again and retried,
-- from a state that is sound: the available balance of every merchant covers what is reserved of it;
-- what is reserved for a payout is its amount while the payout is under way, and nothing once it has
-- succeeded or failed; a payout has at most one attempt that is not over, and then it is under way;
-- ids are unique, and every attempt has its payout.
pub PayoutRun-IsSound : (u v : PayoutWorld) → PayoutRun u v → IsSound u → IsSound v
PayoutRun-IsSound u v (stop w) s = s
PayoutRun-IsSound u v (step x y z one rest) s =
    PayoutRun-IsSound y v rest (PayoutStep-IsSound x y one s)
