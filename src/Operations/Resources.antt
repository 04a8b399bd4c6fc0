-- ===== src/Operations/Resources.antt =====
-- What a finalizing call does to the resource, by its kind: the branches of
-- `finalize_verified_attempt` in packages/relaypay/provider_operations/finalizer.py.
use Prim.Native.String.{String}
use relaypay.Base.{
  ℕ, ◌+◌, Option, none, some, List, [], ◌∷◌, map, Bool, true, false, ◌&&◌, Result, ok, ◌>>=◌,
  or_raise, runtime_error, ◌==◌, if◌then◌else◌,
}
use relaypay.Base.Int.{ℤ, pos, ◌+ℤ◌, ◌-ℤ◌}
use relaypay.Ledger.Books.{Books}
use relaypay.Ledger.Posting.{equal_ℤ}
use relaypay.Ledger.Capture.{post_capture_journal}
use relaypay.Ledger.Refund.{post_refund_journal}
use relaypay.Payments.Status.{
  PaymentStatus, authorised, captured, partially_refunded, refunded, failed, cancelled,
}
use relaypay.Payments.Transitions.{transition}
use relaypay.Rows.{
  OperationStatus, is_succeeded, ResourceType, Actor, authorization_succeeded,
  authorization_declined, capture_succeeded, capture_declined, void_succeeded, refund_succeeded,
  Authorization, Capture, Void, Refund, Response, Operation, World, find_refund, put_refund,
}

-- The locked row of the operation's resource.
pub data Resource : Type 0 where
  authorization : Authorization → Resource
  capture : Capture → Resource
  void : Void → Resource
  refund : Refund → Resource

-- A singleton row is found by its id.
abbrev pub if_id {ℓ} : {A : Type ℓ} → ℕ → ℕ → A → Option A
if_id wanted id a = if id == wanted then some a else none

abbrev pub find_authorization : ℕ → World → Option Resource
find_authorization id w = elim w.authorization [
  | none ↦ none
  | some a ↦ if_id id a.id (authorization a)
]

abbrev pub find_capture : ℕ → World → Option Resource
find_capture id w = elim w.capture [ none ↦ none | some c ↦ if_id id c.id (capture c) ]

abbrev pub find_void : ℕ → World → Option Resource
find_void id w = elim w.void [ none ↦ none | some v ↦ if_id id v.id (void v) ]

abbrev pub find_refund_resource : ℕ → World → Option Resource
find_refund_resource id w = elim (find_refund id w) [ none ↦ none | some r ↦ some (refund r) ]

-- `_resource`
abbrev pub find_resource : ResourceType → ℕ → World → Option Resource
find_resource ResourceType.authorization id w = find_authorization id w
find_resource ResourceType.capture id w = find_capture id w
find_resource ResourceType.void id w = find_void id w
find_resource ResourceType.refund id w = find_refund_resource id w

unfoldable pub resource_of : Operation → World → Result Resource
resource_of operation w =
    or_raise (find_resource operation.resource_type operation.resource_id w) runtime_error

abbrev pub resource_public_id : Resource → ℕ
resource_public_id (authorization a) = a.public_id
resource_public_id (capture c) = c.public_id
resource_public_id (void v) = v.public_id
resource_public_id (refund r) = r.public_id

abbrev pub resource_amount : Resource → ℤ
resource_amount (authorization a) = a.amount
resource_amount (capture c) = c.amount
resource_amount (void v) = v.amount
resource_amount (refund r) = r.amount

-- `already_finalized` and the stored response; its HTTP status is 200 wherever one is stored.
pub record FinalizedResult : Type 0 where
  pub response : Response
  pub already_finalized : Bool

unfoldable pub terminal_result : Operation → Bool → Result FinalizedResult
terminal_result operation already = do
  response ← or_raise operation.terminal_response runtime_error
  ok (record { response = response; already_finalized = already })

-- What a finalizing call knows when it writes.
pub record Outcome : Type 0 where
  pub succeeded : Bool
  pub failure_code : Option String
  pub now : ℕ
  pub journal_id : ℕ
  pub actor : Actor

abbrev pub terminal_status : Bool → OperationStatus
terminal_status true = OperationStatus.succeeded
terminal_status false = OperationStatus.failed

abbrev pub at_if : Bool → ℕ → Option ℕ
at_if true now = some now
at_if false now = none

-- `expires_at` is set by the trigger of migration 0023.
unfoldable pub finalize_authorization : Outcome → Authorization → World → Result World
finalize_authorization o a w =
    transition w.payment (if o.succeeded then authorised else failed)
      (if o.succeeded then authorization_succeeded else authorization_declined) o.actor
      (record w {
        authorization = some (record a {
          status = terminal_status o.succeeded;
          authorized_at = at_if o.succeeded o.now;
          failure_code = o.failure_code;
          expires_at = at_if o.succeeded (o.now + a.hold_seconds);
        });
      })

-- `if succeeded: journal = post_capture_journal(...)`, with the id of the journal.
unfoldable pub capture_books : Outcome → Operation → Capture → World → Result (Option ℕ × Books)
capture_books o operation c w =
    if o.succeeded
    then (do
      (journal, books) ←
          post_capture_journal o.journal_id (some w.payment.merchant_account_id) operation.id c.id
            c.amount c.fee_amount c.gst_amount w.books
      ok (some journal.journal_id, books))
    else ok (c.journal_id, w.books)

unfoldable pub finalize_capture : Outcome → Operation → Capture → World → Result World
unfolding capture_books
finalize_capture o operation c w = do
  (journal, books) ← capture_books o operation c w
  transition w.payment (if o.succeeded then captured else failed)
      (if o.succeeded then capture_succeeded else capture_declined) o.actor
      (record w {
        capture = some (record c {
          status = terminal_status o.succeeded;
          captured_at = at_if o.succeeded o.now;
          failure_code = o.failure_code;
          journal_id = journal;
        });
        books = books;
      })

-- A void posts nothing; a declined one leaves the payment authorised.
unfoldable pub finalize_void : Outcome → Void → World → Result World
finalize_void o v w =
    let w' = record w {
      void = some (record v {
        status = terminal_status o.succeeded;
        voided_at = at_if o.succeeded o.now;
        failure_code = o.failure_code;
      });
    } in
    if o.succeeded then transition w.payment cancelled void_succeeded o.actor w' else ok w'

-- `sum(Refund.amount)` over the payment's SUCCEEDED refunds.
unfoldable pub refunded_sum : List Refund → ℤ
refunded_sum [] = pos 0
refunded_sum (r ∷ rs) = (if is_succeeded r.status then r.amount else pos 0) +ℤ refunded_sum rs

-- `_refund_target_status`
unfoldable pub refund_target_status : World → PaymentStatus
refund_target_status w = elim w.capture [
  | none ↦ partially_refunded
  | some c ↦
      if is_succeeded c.status && equal_ℤ (refunded_sum w.refunds) c.amount
      then refunded
      else partially_refunded
]

abbrev pub net_of : ℕ → Option Capture → Option ℤ
net_of id none = none
net_of id (some c) = if c.id == id then some (c.amount -ℤ c.fee_amount -ℤ c.gst_amount) else none

unfoldable pub refund_books : Outcome → Operation → Refund → World → Result (Option ℕ × Books)
refund_books o operation r w =
    if o.succeeded
    then (do
      (journal, books) ←
          post_refund_journal o.journal_id
            (some (record {
              amount = r.amount;
              capture_id = r.capture_id;
              captured_net = net_of r.capture_id w.capture;
              payment_refunds = map (λ s. s.id) w.refunds;
            }))
            (some w.payment.merchant_account_id) operation.id r.id r.amount w.books
      ok (some journal.journal_id, books))
    else ok (r.journal_id, w.books)

unfoldable pub finalize_refund : Outcome → Operation → Refund → World → Result World
unfolding refund_books refund_target_status
finalize_refund o operation r w = do
  (journal, books) ← refund_books o operation r w
  let w' : World = record w {
    refunds =
        put_refund
          (record r {
            status = terminal_status o.succeeded;
            refunded_at = at_if o.succeeded o.now;
            failure_code = o.failure_code;
            journal_id = journal;
          })
          w.refunds;
    books = books;
  }
  if o.succeeded
      then transition w.payment (refund_target_status w') refund_succeeded o.actor w'
      else ok w'

unfoldable pub finalize_resource : Outcome → Operation → Resource → World → Result World
unfolding finalize_authorization finalize_capture finalize_void finalize_refund
finalize_resource o operation (authorization a) w = finalize_authorization o a w
finalize_resource o operation (capture c) w = finalize_capture o operation c w
finalize_resource o operation (void v) w = finalize_void o v w
finalize_resource o operation (refund r) w = finalize_refund o operation r w
