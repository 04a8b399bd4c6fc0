-- ===== src/Commands/Requests.antt =====
-- What the commands share: the key of a request, the answer from an operation, the inserts with
-- the constraints of the tables, and the recovery from a lost race: payments/service.py. A key of
-- another payment has another fingerprint, since the path is part of it, and is not in the state.
use relaypay.Base.{
  ℕ, Option, none, some, [], ◌∷◌, ◌++◌, Bool, true, false, not, ◌&&◌, ◌||◌, Result, ok, err, ◌>>=◌,
  ◌>>◌, raise_if, or_raise, runtime_error, integrity_error, payment_not_found,
  idempotency_key_reused, command_conflict, ◌==◌, if◌then◌else◌, find, any,
}
use relaypay.Base.Int.{ℤ, pos, leb_ℤ}
use relaypay.Rows.{
  OperationStatus, is_terminal, ResourceType, CommandKind, StableKey, authorize_key, capture_key,
  void_key, refund_key, ReviewReason, Response, Operation, IdempotencyRecord, World, find_operation,
}
use relaypay.Operations.Resources.{resource_of, resource_public_id}
use relaypay.Operations.Validation.{same_kind}

-- `canonical_json_bytes` of a finished or of a pending operation.
pub data Body : Type 0 where
  finalized : Response → Body
  envelope :
      (operation_id resource_id : ℕ) (status : OperationStatus) (reason : Option ReviewReason)
      → Body

-- `replayed` sets the header `Idempotency-Replayed`; the content type is JSON.
pub record HttpResult : Type 0 where
  pub http_status : ℕ
  pub body : Body
  pub replayed : Bool

-- The payment of the path, the digest of the key, and the fingerprint of the canonical request.
pub record Request : Type 0 where
  pub payment_public_id : ℕ
  pub key_digest : ℕ
  pub fingerprint_sha256 : ℕ

-- New ids, and the time of the insert.
pub record Fresh : Type 0 where
  pub operation_id : ℕ
  pub operation_public_id : ℕ
  pub resource_id : ℕ
  pub resource_public_id : ℕ
  pub created_at : ℕ

abbrev pub existing_key : ℕ → World → Option IdempotencyRecord
existing_key digest w = find (λ k. k.key_digest == digest) w.keys

-- `_validate_fingerprint`
abbrev pub validate_fingerprint : IdempotencyRecord → ℕ → Result (Unit {0})
validate_fingerprint k fingerprint =
    raise_if (not (k.fingerprint_sha256 == fingerprint)) idempotency_key_reused

-- `_terminal_result(record, replayed=True)`; the stored HTTP status is 200.
abbrev pub replay_of : IdempotencyRecord → Result HttpResult
replay_of k = do
  response ← or_raise k.response runtime_error
  ok (record { http_status = 200; body = finalized response; replayed = true })

unfoldable pub operation_envelope : Operation → ℕ → Result HttpResult
operation_envelope operation public_id =
    if is_terminal operation.status
    then (do
      response ← or_raise operation.terminal_response runtime_error
      ok (record { http_status = 200; body = finalized response; replayed = false }))
    else ok (record {
      http_status = 202;
      body = envelope operation.public_id public_id operation.status operation.review_reason;
      replayed = false;
    })

-- `_existing_operation_result`, with `_resource_public_id`
unfoldable pub existing_operation_result : IdempotencyRecord → ℕ → World → Result HttpResult
existing_operation_result k fingerprint w = do
  validate_fingerprint k fingerprint
  if k.is_terminal then replay_of k else (do
    operation ← or_raise (find_operation k.provider_operation_id w) runtime_error
    resource ← resource_of operation w
    operation_envelope operation (resource_public_id resource))

-- `x if terminal else None`
abbrev pub if_terminal {ℓ} : {A : Type ℓ} → Bool → Option A → Option A
if_terminal true x = x
if_terminal false x = none

-- The row that `_attach_key` adds.
abbrev pub key_of : Request → Operation → IdempotencyRecord
key_of request operation = record {
  key_digest = request.key_digest;
  fingerprint_sha256 = request.fingerprint_sha256;
  provider_operation_id = operation.id;
  is_terminal = is_terminal operation.status;
  response = if_terminal (is_terminal operation.status) operation.terminal_response;
  finalized_at = if_terminal (is_terminal operation.status) operation.finalized_at;
}

-- One row for a digest.
unfoldable pub insert_key : IdempotencyRecord → World → Result World
insert_key k w = do
  raise_if (any (λ x. x.key_digest == k.key_digest) w.keys) integrity_error
  ok (record w { keys = w.keys ++ k ∷ [] })

-- `_attach_key`
unfoldable pub attach_key : Request → Operation → ℕ → World → Result (HttpResult × World)
attach_key request operation public_id w = do
  answer ← operation_envelope operation public_id
  w' ← insert_key (key_of request operation) w
  ok (answer, w')

-- `_lock_operation_then_resource`, and the key for the operation that is there.
unfoldable pub attach_existing : Request → ℕ → ℕ → World → Result (HttpResult × World)
attach_existing request operation_id public_id w = do
  operation ← or_raise (find_operation operation_id w) runtime_error
  attach_key request operation public_id w

abbrev pub same_stable_key : StableKey → StableKey → Bool
same_stable_key (authorize_key a) (authorize_key b) = a == b
same_stable_key (capture_key a) (capture_key b) = a == b
same_stable_key (void_key a) (void_key b) = a == b
same_stable_key (refund_key a) (refund_key b) = a == b
same_stable_key _ _ = false

-- The unique constraints of `provider_operations`.
abbrev pub operation_collides : Operation → Operation → Bool
operation_collides o p =
    p.id == o.id
    || same_stable_key p.stable_provider_key o.stable_provider_key
    || same_kind p.kind o.kind && p.resource_id == o.resource_id

unfoldable pub insert_operation : Operation → World → Result World
insert_operation o w = do
  raise_if (any (operation_collides o) w.operations) integrity_error
  ok (record w { operations = w.operations ++ o ∷ [] })

-- `CheckConstraint("amount > 0")`
abbrev pub check_amount : ℤ → Result (Unit {0})
check_amount amount = raise_if (leb_ℤ amount (pos 0)) integrity_error

-- `_new_operation`
abbrev pub new_operation : Fresh → ResourceType → CommandKind → StableKey → Operation
new_operation fresh resource_type kind stable_key = record {
  id = fresh.operation_id;
  public_id = fresh.operation_public_id;
  resource_type = resource_type;
  resource_id = fresh.resource_id;
  kind = kind;
  stable_provider_key = stable_key;
  status = OperationStatus.processing;
  review_reason = none;
  provider_request = none;
  attempt_count = 0;
  last_sent_at = none;
  next_lookup_at = none;
  lookup_lease_token = none;
  lookup_lease_expires_at = none;
  apply_failure_count = 0;
  terminal_response = none;
  finalized_at = none;
  created_at = fresh.created_at;
}

-- How every command starts: `_locked_payment`, and the answer for a key that is there. `rest` is
-- the command for a new key.
abbrev pub with_key : Request → World → Result (HttpResult × World) → Result (HttpResult × World)
with_key request w rest = do
  raise_if (not (w.payment.public_id == request.payment_public_id)) payment_not_found
  elim (existing_key request.key_digest w) [
    | none ↦ rest
    | some k ↦ (do
      answer ← existing_operation_result k request.fingerprint_sha256 w
      ok (answer, w))
  ]

-- `_recover_operation_race`, in the state that its own transaction finds.
unfoldable pub recover_operation_race : Request → World → Result (HttpResult × World)
recover_operation_race request w = elim (existing_key request.key_digest w) [
  | none ↦ err command_conflict
  | some k ↦ (do answer ← existing_operation_result k request.fingerprint_sha256 w; ok (answer, w))
]

-- `except IntegrityError`, after the roll-back of the command.
abbrev pub recovering : Request → World → Result (HttpResult × World) → Result (HttpResult × World)
recovering request later (err integrity_error) = recover_operation_race request later
recovering request later outcome = outcome
