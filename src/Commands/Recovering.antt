-- ===== src/Commands/Recovering.antt =====
-- How a command starts and how it ends after a lost race: payments/service.py.
use mathlib.Core.Path.{subst}
use relaypay.Base.{
  ◌≡◌, sym, ap, ◌∙◌, ◌⊎◌, inl, inr, some, ok, err, Result, integrity_error, arith, Option-cases,
  Result-cases,
}
use relaypay.Rows.{World, IdempotencyRecord}
use relaypay.Commands.{
  HttpResult, Request, existing_key, existing_operation_result, with_key, recovering,
  recover_operation_race,
}
use relaypay.Commands.Replay.{Replays}

pub recovering-split :
    (request : Request) (later w' : World) (r : Result (HttpResult × World)) (a : HttpResult)
    → recovering request later r ≡ ok (a, w')
    → (r ≡ ok (a, w'))
      ⊎ (r ≡ err integrity_error) × (recover_operation_race request later ≡ ok (a, w'))
recovering-split request later w' (ok x) a h = inl h
recovering-split request later w' (err x) a h = ground arith

recover_operation_race-Replays :
    (request : Request) (later w' : World) (a : HttpResult)
    → recover_operation_race request later ≡ ok (a, w')
    → Replays request a w' × (w' ≡ later)
unfolding recover_operation_race
recover_operation_race-Replays request later w' a h =
    elim (Option-cases (existing_key request.key_digest later)) [
      | inl n ↦ ground arith
      | inr (k, e) ↦
          elim (Result-cases (existing_operation_result k request.fingerprint_sha256 later)) [
            | inl (b, f) ↦
                let same : later ≡ w' = ground (arith, h, e, f) in
                let like : a ≡ b = ground (arith, h, e, f) in
                (
                  subst (Replays request a) same (
                    k,
                    b,
                    e,
                    f,
                    record {
                      http_status = ap (λ x. x.http_status) (sym like);
                      body = ap (λ x. x.body) (sym like);
                    },
                  ),
                  sym same,
                )
            | inr (x, f) ↦ ground arith
          ]
    ]

-- What the part for a new key keeps, the command keeps, when a recovery finds the same state.
pub command-keeps :
    (P : World → Type 0) (request : Request) (w w' : World) (rest : Result (HttpResult × World))
    (a : HttpResult)
    → ((b : HttpResult) (v : World) → rest ≡ ok (b, v) → P w → P v)
    → recovering request w (with_key request w rest) ≡ ok (a, w')
    → P w
    → P w'
command-keeps P request w w' rest a keeps h p =
    elim (recovering-split request w w' (with_key request w rest) a h) [
      | inl e ↦ elim (Option-cases (existing_key request.key_digest w)) [
        | inl n ↦ keeps a w' (ground (arith, e, n)) p
        | inr (x, f) ↦ let same : w ≡ w' = ground (arith, e, f) in subst P same p
      ]
      | inr (_, e) ↦ subst P (sym (recover_operation_race-Replays request w w' a e).1) p
    ]

-- A command for a new key, and the payment it leaves alone.
abbrev pub Answers : Request → World → Result (HttpResult × World) → Type 0
Answers request w rest =
    (a : HttpResult) (w' : World)
    → rest ≡ ok (a, w')
    → Replays request a w' × (w'.payment ≡ w.payment)

with_key-Replays :
    (request : Request) (w w' : World) (rest : Result (HttpResult × World)) (a : HttpResult)
    → Answers request w rest
    → with_key request w rest ≡ ok (a, w')
    → Replays request a w' × (w'.payment.public_id ≡ request.payment_public_id)
with_key-Replays request w w' rest a answers h =
    elim (Option-cases (existing_key request.key_digest w)) [
      | inl n ↦
          let (replays, same) = answers a w' (ground (arith, h, n)) in
          (replays, ap (λ p. p.public_id) same ∙ ground (arith, h))
      | inr (k, e) ↦
          elim (Result-cases (existing_operation_result k request.fingerprint_sha256 w)) [
            | inl (b, f) ↦
                let same : w ≡ w' = ground (arith, h, e, f) in
                let like : b ≡ a = ground (arith, h, e, f) in
                subst (λ v. Replays request a v × (v.payment.public_id ≡ request.payment_public_id))
                  same
                  (
                    (
                      k,
                      b,
                      e,
                      f,
                      record {
                        http_status = ap (λ x. x.http_status) like;
                        body = ap (λ x. x.body) like;
                      },
                    ),
                    ground (arith, h),
                  )
            | inr (x, f) ↦ ground arith
          ]
    ]

with_key-failed :
    (request : Request) (w : World) (rest : Result (HttpResult × World))
    → with_key request w rest ≡ err integrity_error
    → w.payment.public_id ≡ request.payment_public_id
with_key-failed request w rest h = ground (arith, h)

pub command-Replays :
    (request : Request) (w w' later : World) (rest : Result (HttpResult × World)) (a : HttpResult)
    → Answers request w rest
    → later.payment.public_id ≡ w.payment.public_id
    → recovering request later (with_key request w rest) ≡ ok (a, w')
    → Replays request a w' × (w'.payment.public_id ≡ request.payment_public_id)
command-Replays request w w' later rest a answers one h =
    elim (recovering-split request later w' (with_key request w rest) a h) [
      | inl e ↦ with_key-Replays request w w' rest a answers e
      | inr (e, f) ↦
          let (replays, same) = recover_operation_race-Replays request later w' a f in
          (replays, ap (λ x. x.payment.public_id) same ∙ one ∙ with_key-failed request w rest e)
    ]

-- A key that is there answers every command.
pub with_key-answered :
    (request : Request) (w later : World) (rest : Result (HttpResult × World))
    (k : IdempotencyRecord) (a : HttpResult)
    → w.payment.public_id ≡ request.payment_public_id
    → existing_key request.key_digest w ≡ some k
    → existing_operation_result k request.fingerprint_sha256 w ≡ ok a
    → recovering request later (with_key request w rest) ≡ ok (a, w)
with_key-answered request w later rest k a p e f = ground (arith, p, e, f)
