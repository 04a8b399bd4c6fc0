-- ===== src/Commands/Replay.antt =====
-- What the key that a command attaches answers: payments/service.py.
use mathlib.Core.Path.{subst}
use relaypay.Base.{
  ℕ, ◌≡◌, refl, sym, ap, ◌∙◌, inl, inr, some, List, [], ◌∷◌, ◌++◌, true, false, ok, arith,
  Option-cases, Result-cases, Bool-cases, any, find, or_raise, runtime_error, ◌==◌, ==_refl,
}
use relaypay.Rows.{ResourceType, IdempotencyRecord, World, Operation, find_operation, is_terminal}
use relaypay.Operations.Resources.{Resource, find_resource, resource_of, resource_public_id}
use relaypay.Commands.{
  HttpResult, finalized, Request, existing_key, existing_operation_result, operation_envelope,
  key_of, insert_key, attach_key,
}

-- What a merchant sees of an answer, less the header of a replay.
pub record SameAnswer (a b : HttpResult) : Type 0 where
  pub http_status : b.http_status ≡ a.http_status
  pub body : b.body ≡ a.body

find-key_append :
    (digest : ℕ) (k : IdempotencyRecord) (ks : List IdempotencyRecord)
    → any (λ x. x.key_digest == digest) ks ≡ false
    → k.key_digest ≡ digest
    → find (λ x. x.key_digest == digest) (ks ++ k ∷ []) ≡ some k
find-key_append digest k [] h e = ground arith
find-key_append digest k (x ∷ xs) h e = ground (arith, find-key_append digest k xs)

pub attach_key-split :
    (request : Request) (operation : Operation) (public_id : ℕ) (w w' : World) (a : HttpResult)
    → attach_key request operation public_id w ≡ ok (a, w')
    → (operation_envelope operation public_id ≡ ok a)
      × (any (λ x. x.key_digest == request.key_digest) w.keys ≡ false)
      × (w' ≡ record w { keys = w.keys ++ key_of request operation ∷ [] })
unfolding attach_key insert_key
attach_key-split request operation public_id w w' a h =
    elim (Result-cases (operation_envelope operation public_id)) [
      | inl (b, e) ↦ (ground (arith, e), ground (arith, e), ground (arith, e))
      | inr (x, e) ↦ ground arith
    ]

-- The key of an operation answers as the operation does.
pub key-answers :
    (request : Request) (operation : Operation) (r : Resource) (w : World) (a : HttpResult)
    → operation_envelope operation (resource_public_id r) ≡ ok a
    → find_operation operation.id w ≡ some operation
    → resource_of operation w ≡ ok r
    → (b : HttpResult) × (existing_operation_result
          (key_of request operation)
          request.fingerprint_sha256
          w
        ≡ ok b)
      × SameAnswer a b
unfolding existing_operation_result operation_envelope
key-answers request operation r w a e f g = elim (Bool-cases (is_terminal operation.status)) [
  | inl t ↦ elim (Option-cases operation.terminal_response) [
    | inl n ↦ ground arith
    | inr (response, s) ↦ (
      record { http_status = 200; body = finalized response; replayed = true },
      rw (==_refl request.fingerprint_sha256, t, s) refl,
      record { http_status = ground (arith, e, t, s); body = ground (arith, e, t, s) },
    )
  ]
  | inr t ↦ (
    a,
    rw (==_refl request.fingerprint_sha256, t, f, g) e,
    record { http_status = refl; body = refl },
  )
]

-- The request has a key, which answers as `a` does.
abbrev pub Replays : Request → HttpResult → World → Type 0
Replays request a w =
    (k : IdempotencyRecord) × (b : HttpResult) × (existing_key request.key_digest w ≡ some k)
    × (existing_operation_result k request.fingerprint_sha256 w ≡ ok b)
    × SameAnswer a b

find_resource-keys :
    (t : ResourceType) (id : ℕ) (ks : List IdempotencyRecord) (w : World)
    → find_resource t id (record w { keys = ks }) ≡ find_resource t id w
find_resource-keys ResourceType.authorization id ks w = refl
find_resource-keys ResourceType.capture id ks w = refl
find_resource-keys ResourceType.void id ks w = refl
find_resource-keys ResourceType.refund id ks w = refl

resource_of-keys :
    (o : Operation) (ks : List IdempotencyRecord) (w : World)
    → resource_of o (record w { keys = ks }) ≡ resource_of o w
unfolding resource_of
resource_of-keys o ks w =
    ap (λ r. or_raise r runtime_error) (find_resource-keys o.resource_type o.resource_id ks w)

pub attach_key-Replays :
    (request : Request) (operation : Operation) (r : Resource) (public_id : ℕ) (w w' : World)
    (a : HttpResult)
    → resource_public_id r ≡ public_id
    → find_operation operation.id w ≡ some operation
    → resource_of operation w ≡ ok r
    → attach_key request operation public_id w ≡ ok (a, w')
    → Replays request a w'
attach_key-Replays request operation r public_id w w' a p f g h =
    let (e, unused, same) = attach_key-split request operation public_id w w' a h in
    let after : World = record w { keys = w.keys ++ key_of request operation ∷ [] } in
    let (b, answered, like) =
      key-answers request operation r after a (rw (sym p) at e) f
        (resource_of-keys operation (w.keys ++ key_of request operation ∷ []) w ∙ g) in
    subst (Replays request a) (sym same) (
      key_of request operation,
      b,
      find-key_append request.key_digest (key_of request operation) w.keys unused refl,
      answered,
      like,
    )
