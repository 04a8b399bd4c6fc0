-- ===== src/Operations/Service/Sends.antt =====
-- The first send: `prepare_first_send` of packages/relaypay/provider_operations/service.py. Each
-- operation is one transaction; `now` is its clock, and `attempt_id` a new id. A look-up by
-- organisation finds the rows of the payment's own.
use relaypay.Base.{
  ℕ, Option, none, some, [], ◌∷◌, ◌++◌, Bool, true, false, ◌&&◌, ◌||◌, Result, ok, ◌>>=◌, ◌>>◌,
  raise_if, or_raise, runtime_error, integrity_error, ◌==◌, if◌then◌else◌, find, any, is_some,
}
use relaypay.Rows.{
  is_terminal, AttemptKind, is_mutation, AttemptState, sent, ProviderRequest, StableKey, Operation,
  Attempt, World, put_operation,
}
use relaypay.Operations.Resources.{resource_of, resource_public_id, resource_amount}

-- The request bytes are those of the canonical request; there are none for a terminal operation.
pub record PreparedOperation : Type 0 where
  pub operation_id : ℕ
  pub stable_key : StableKey
  pub request : Option ProviderRequest
  pub already_sent : Bool
  pub terminal : Bool

abbrev pub find_public : ℕ → World → Option Operation
find_public public_id w = find (λ o. o.public_id == public_id) w.operations

-- `expected_result_for`, and the canonical request of a first send.
unfoldable pub expected_result_for : Operation → ℕ → World → Result ProviderRequest
expected_result_for operation provider_account_id w = do
  resource ← resource_of operation w
  ok (record {
    account_id = provider_account_id;
    amount = resource_amount resource;
    operation_kind = operation.kind;
    reference = resource_public_id resource;
    stable_key = operation.stable_provider_key;
  })

abbrev pub is_webhook : AttemptKind → Bool
is_webhook AttemptKind.webhook_evidence = true
is_webhook _ = false

abbrev pub same_digest : Option ℕ → Option ℕ → Bool
same_digest (some a) (some b) = a == b
same_digest _ _ = false

-- The unique constraints of `provider_attempts`.
abbrev pub attempt_collides : Attempt → Attempt → Bool
attempt_collides a b =
    a.provider_operation_id == b.provider_operation_id
    && (a.sequence == b.sequence
        || is_mutation a.attempt_kind && is_mutation b.attempt_kind
        || is_webhook a.attempt_kind
          && is_webhook b.attempt_kind
          && same_digest a.response_sha256 b.response_sha256)

unfoldable pub insert_attempt : Attempt → World → Result World
insert_attempt a w = do
  raise_if (any (attempt_collides a) w.attempts) integrity_error
  ok (record w { attempts = w.attempts ++ a ∷ [] })

abbrev pub new_attempt : ℕ → ℕ → ℕ → AttemptKind → AttemptState → ℕ → Attempt
new_attempt attempt_id operation_id sequence kind state now = record {
  id = attempt_id;
  provider_operation_id = operation_id;
  sequence = sequence;
  attempt_kind = kind;
  state = state;
  started_at = now;
  completed_at = none;
  response_http_status = none;
  response_sha256 = none;
  provider_signature_valid = none;
  classification = none;
  safe_error_code = none;
}

-- The branch of `prepare_first_send` that claims the send.
unfoldable pub first_send : Operation → ℕ → ℕ → ℕ → World → Result (PreparedOperation × World)
first_send operation provider_account_id now attempt_id w = do
  request ← expected_result_for operation provider_account_id w
  w' ←
      insert_attempt (new_attempt attempt_id operation.id 1 AttemptKind.mutation sent now)
        (record w {
          operations =
              put_operation
                (record operation {
                  provider_request = some request;
                  attempt_count = 1;
                  last_sent_at = some now;
                  next_lookup_at = some now;
                })
                w.operations;
        })
  ok (
    record {
      operation_id = operation.id;
      stable_key = operation.stable_provider_key;
      request = some request;
      already_sent = false;
      terminal = false;
    },
    w',
  )

unfoldable pub prepare_first_send : ℕ → ℕ → ℕ → ℕ → World → Result (PreparedOperation × World)
unfolding first_send
prepare_first_send operation_public_id provider_account_id now attempt_id w = do
  operation ← or_raise (find_public operation_public_id w) runtime_error
  if is_terminal operation.status
      then ok (
        record {
          operation_id = operation.id;
          stable_key = operation.stable_provider_key;
          request = none;
          already_sent = true;
          terminal = true;
        },
        w,
      )
      else if is_some operation.last_sent_at
      then (do
        request ← or_raise operation.provider_request runtime_error
        ok (
          record {
            operation_id = operation.id;
            stable_key = operation.stable_provider_key;
            request = some request;
            already_sent = true;
            terminal = false;
          },
          w,
        ))
      else first_send operation provider_account_id now attempt_id w
