-- ===== src/Operations/Service/Sending.antt =====
-- The first send of an operation happens once: provider_operations/service.py.
use relaypay.Base.{
  ℕ, ◌≡◌, some, List, [], ◌∷◌, true, false, ok, arith, Result-cases, Option-cases, Bool-cases, inl,
  inr, ◌==◌, find, is_some, ◌⊎◌,
}
use relaypay.Rows.{is_terminal, ProviderRequest, Operation, World, put_operation}
use relaypay.Operations.Service.Sends.{
  PreparedOperation, find_public, expected_result_for, insert_attempt, first_send,
  prepare_first_send,
}

pub find-put_public :
    (o : Operation) (ps : List Operation) (p : Operation)
    → find (λ x. x.public_id == o.public_id) ps ≡ some p
    → p.id ≡ o.id
    → find (λ x. x.public_id == o.public_id) (put_operation o ps) ≡ some o
unfolding put_operation
find-put_public o [] p h e = cc
find-put_public o (q ∷ qs) p h e = ground (arith, find-put_public o qs p)

pub find-public_id :
    (id : ℕ) (ps : List Operation) (p : Operation)
    → find (λ x. x.public_id == id) ps ≡ some p
    → p.public_id ≡ id
find-public_id id [] p h = cc
find-public_id id (q ∷ qs) p h = ground (arith, find-public_id id qs p)

-- The row of an operation whose send is claimed.
abbrev pub sent_row : Operation → ProviderRequest → ℕ → Operation
sent_row operation request now = record operation {
  provider_request = some request;
  attempt_count = 1;
  last_sent_at = some now;
  next_lookup_at = some now;
}

pub first_send-split :
    (operation : Operation) (account now attempt : ℕ) (w w' : World) (p : PreparedOperation)
    → first_send operation account now attempt w ≡ ok (p, w')
    → (request : ProviderRequest) × (p ≡ record {
      operation_id = operation.id;
      stable_key = operation.stable_provider_key;
      request = some request;
      already_sent = false;
      terminal = false;
    })
      × (w'.operations ≡ put_operation (sent_row operation request now) w.operations)
unfolding first_send insert_attempt
first_send-split operation account now attempt w w' p h =
    elim (Result-cases (expected_result_for operation account w)) [
      | inl (request, e) ↦ (request, ground arith, ground arith)
      | inr (x, e) ↦ ground arith
    ]

-- A row that is not terminal and was sent answers with its stored request.
pub prepare_first_send-sent :
    (public_id account now attempt : ℕ) (w : World) (operation : Operation)
    (request : ProviderRequest)
    → find_public public_id w ≡ some operation
    → is_terminal operation.status ≡ false
    → is_some operation.last_sent_at ≡ true
    → operation.provider_request ≡ some request
    → prepare_first_send public_id account now attempt w
      ≡ ok (
        record {
          operation_id = operation.id;
          stable_key = operation.stable_provider_key;
          request = some request;
          already_sent = true;
          terminal = false;
        },
        w,
      )
unfolding prepare_first_send
prepare_first_send-sent public_id account now attempt w operation request f t s r = rw (f, t, s, r)

pub prepare-cases :
    (public_id account now attempt : ℕ) (w w' : World) (p : PreparedOperation)
    → prepare_first_send public_id account now attempt w ≡ ok (p, w')
    → p.terminal ≡ false
    → ((operation : Operation) × (request : ProviderRequest) × (find_public public_id w
          ≡ some operation)
        × (is_terminal operation.status ≡ false)
        × (is_some operation.last_sent_at ≡ true)
        × (operation.provider_request ≡ some request)
        × (p ≡ record {
          operation_id = operation.id;
          stable_key = operation.stable_provider_key;
          request = some request;
          already_sent = true;
          terminal = false;
        })
        × (w' ≡ w))
      ⊎ ((operation : Operation) × (find_public public_id w ≡ some operation)
          × (is_terminal operation.status ≡ false)
          × (first_send operation account now attempt w ≡ ok (p, w')))
unfolding prepare_first_send
prepare-cases public_id account now attempt w w' p h t =
    elim (Option-cases (find_public public_id w)) [
      | inl n ↦ ground arith
      | inr (operation, f) ↦ elim (Bool-cases (is_some operation.last_sent_at)) [
        | inl s ↦ elim (Option-cases operation.provider_request) [
          | inl n ↦ ground arith
          | inr (request, r) ↦
              inl (operation, request, f, ground arith, s, r, ground arith, ground arith)
        ]
        | inr s ↦ inr (operation, f, ground arith, ground arith)
      ]
    ]
