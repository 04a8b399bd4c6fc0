-- ===== src/Commands/Finalized.antt =====
-- A command that is sent again after its operation was finalized: payments/service.py and
-- provider_operations/finalizer.py.
use relaypay.Base.{
  ℕ, ◌≡◌, refl, sym, ◌∙◌, some, List, [], ◌∷◌, true, false, ok, arith, find, ◌==◌, ==_refl,
}
use relaypay.Rows.{
  World, Operation, IdempotencyRecord, Response, Actor, find_operation, find-operation_id,
  is_terminal,
}
use relaypay.Operations.Resources.{FinalizedResult}
use relaypay.Operations.Frame.{finalize_resource-SameTables}
use relaypay.Operations.Finalizer.{close_keys, response_of, finalize_verified_attempt}
use relaypay.Operations.Finalizer.Once.{finalize-split, finalize_open-split}
use relaypay.Commands.{
  finalized, Request, Fresh, Setting, Command, existing_key, existing_operation_result, initiate,
}
use relaypay.Commands.Again.{IsAccepted, initiate-answered}

abbrev closed_key : ℕ → Response → IdempotencyRecord → IdempotencyRecord
closed_key now response k = record k {
  is_terminal = true;
  response = some response;
  finalized_at = some now;
}

find-close_keys :
    (digest id now : ℕ) (response : Response) (ks : List IdempotencyRecord) (k : IdempotencyRecord)
    → find (λ x. x.key_digest == digest) ks ≡ some k
    → k.provider_operation_id ≡ id
    → find (λ x. x.key_digest == digest) (close_keys id now response ks)
      ≡ some (closed_key now response k)
unfolding close_keys
find-close_keys digest id now response [] k h e = cc
find-close_keys digest id now response (x ∷ xs) k h e =
    ground (arith, find-close_keys digest id now response xs k)

-- What the finalization leaves for a key of the operation.
finalized-key :
    (digest id evidence : ℕ) (actor : Actor) (now journal : ℕ) (w w' : World)
    (result : FinalizedResult) (operation : Operation) (k : IdempotencyRecord)
    → find_operation id w ≡ some operation
    → is_terminal operation.status ≡ false
    → existing_key digest w ≡ some k
    → k.provider_operation_id ≡ id
    → finalize_verified_attempt id evidence actor now journal w ≡ ok (result, w')
    → (at : ℕ) × (existing_key digest w' ≡ some (closed_key at result.response k))
      × (w'.payment.public_id ≡ w.payment.public_id)
finalized-key digest id evidence actor now journal w w' result operation k found live key owner h =
    let (resource, _, opened) =
      finalize-split id evidence actor now journal w w' result operation found live h in
    let (attempt, o, v, _, done, r, e) =
      finalize_open-split operation resource evidence actor now journal w w' result opened in
    let same = finalize_resource-SameTables o operation resource w v done in
    let named = find-operation_id id w.operations operation found in
    (
      o.now,
      rw (e, r, same.keys)
          (find-close_keys digest operation.id o.now (response_of o operation resource v) w.keys k
            key (owner ∙ sym named)),
      rw e same.payment_public_id,
    )

-- Once the operation of a key is finalized, a command under that key, with the fingerprint the key
-- was bound to, is answered with HTTP status 200, the header of a replay and the very response that the
-- finalization stored, and writes nothing. The command is not an authorization with a hold that is
-- not positive.
pub finalize_then_initiate :
    (setting : Setting) (c : Command) (request : Request) (fresh : Fresh) (later : World)
    (id evidence : ℕ) (actor : Actor) (now journal : ℕ) (w w' : World) (result : FinalizedResult)
    (operation : Operation) (k : IdempotencyRecord)
    → IsAccepted c
    → w.payment.public_id ≡ request.payment_public_id
    → existing_key request.key_digest w ≡ some k
    → k.provider_operation_id ≡ id
    → k.fingerprint_sha256 ≡ request.fingerprint_sha256
    → find_operation id w ≡ some operation
    → is_terminal operation.status ≡ false
    → finalize_verified_attempt id evidence actor now journal w ≡ ok (result, w')
    → initiate setting c request fresh w' later
      ≡ ok (record { http_status = 200; body = finalized result.response; replayed = true }, w')
unfolding existing_operation_result
finalize_then_initiate setting c request fresh later id evidence actor now journal w w' result
      operation k accepted p key owner print found live h =
    let (at, stored, same) =
      finalized-key request.key_digest id evidence actor now journal w w' result operation k found
        live key owner h in
    initiate-answered setting c request fresh w' later (closed_key at result.response k) _ accepted
      (same ∙ p) stored (rw (print, ==_refl request.fingerprint_sha256) refl)
