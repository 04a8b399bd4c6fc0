-- ===== src/Commands/Again.antt =====
-- A command that is sent again: payments/service.py.
use relaypay.Base.{◌≡◌, Option, some, false, ok, arith}
use relaypay.Base.Int.{ℤ, pos, leb_ℤ}
use relaypay.Rows.{World, IdempotencyRecord}
use relaypay.Commands.{
  HttpResult, Request, Fresh, Setting, Command, RefundCreate, existing_key,
  existing_operation_result, attach_key, insert_key, attach_existing, insert_operation,
  authorize_payment, new_authorization, capture_payment, new_capture, void_payment, new_void,
  refund_payment, initiate, initiate_authorization, initiate_capture, initiate_void,
  initiate_refund,
}
use relaypay.Commands.Links.{IsLinked}
use relaypay.Commands.Replay.{Replays, SameAnswer}
use relaypay.Commands.Repeat.{
  authorize_payment-Replays, capture_payment-Replays, void_payment-Replays, refund_payment-Replays,
}
use relaypay.Commands.Recovering.{Answers, command-Replays, with_key-answered}

authorize_payment-Answers :
    (hold : ℤ) (request : Request) (fresh : Fresh) (w : World)
    → IsLinked w
    → Answers request w (authorize_payment hold request fresh w)
unfolding authorize_payment new_authorization attach_existing insert_operation attach_key insert_key
authorize_payment-Answers hold request fresh w linked a w' h =
    (authorize_payment-Replays hold request fresh w w' a linked h, ground (arith, h))

capture_payment-Answers :
    (setting : Setting) (requested : Option ℤ) (request : Request) (fresh : Fresh) (w : World)
    → IsLinked w
    → Answers request w (capture_payment setting requested request fresh w)
unfolding capture_payment new_capture attach_existing insert_operation attach_key insert_key
capture_payment-Answers setting requested request fresh w linked a w' h =
    (capture_payment-Replays setting requested request fresh w w' a linked h, ground (arith, h))

void_payment-Answers :
    (request : Request) (fresh : Fresh) (w : World)
    → IsLinked w
    → Answers request w (void_payment request fresh w)
unfolding void_payment new_void attach_existing insert_operation attach_key insert_key
void_payment-Answers request fresh w linked a w' h =
    (void_payment-Replays request fresh w w' a linked h, ground (arith, h))

refund_payment-Answers :
    (payload : RefundCreate) (request : Request) (fresh : Fresh) (w : World)
    → Answers request w (refund_payment payload request fresh w)
unfolding refund_payment attach_existing insert_operation attach_key insert_key
refund_payment-Answers payload request fresh w a w' h =
    (refund_payment-Replays payload request fresh w w' a h, ground (arith, h))

pub initiate-Replays :
    (setting : Setting) (c : Command) (request : Request) (fresh : Fresh) (w w' later : World)
    (a : HttpResult)
    → IsLinked w
    → later.payment.public_id ≡ w.payment.public_id
    → initiate setting c request fresh w later ≡ ok (a, w')
    → Replays request a w' × (w'.payment.public_id ≡ request.payment_public_id)
unfolding initiate initiate_authorization initiate_capture initiate_void initiate_refund
initiate-Replays setting (Command.authorize hold) request fresh w w' later a linked one h =
    command-Replays request w w' later (authorize_payment hold request fresh w) a
      (authorize_payment-Answers hold request fresh w linked) one (ground (arith, h))
initiate-Replays setting (Command.capture amount) request fresh w w' later a linked one h =
    command-Replays request w w' later (capture_payment setting amount request fresh w) a
      (capture_payment-Answers setting amount request fresh w linked) one h
initiate-Replays setting Command.void request fresh w w' later a linked one h =
    command-Replays request w w' later (void_payment request fresh w) a
      (void_payment-Answers request fresh w linked) one h
initiate-Replays setting (Command.refund payload) request fresh w w' later a linked one h =
    command-Replays request w w' later (refund_payment payload request fresh w) a
      (refund_payment-Answers payload request fresh w) one h

-- A command whose key is there: `hold_seconds` is the one thing that is read before the key.
abbrev pub IsAccepted : Command → Type 0
IsAccepted (Command.authorize hold) = leb_ℤ hold (pos 0) ≡ false
IsAccepted _ = Unit

pub initiate-answered :
    (setting : Setting) (c : Command) (request : Request) (fresh : Fresh) (w later : World)
    (k : IdempotencyRecord) (a : HttpResult)
    → IsAccepted c
    → w.payment.public_id ≡ request.payment_public_id
    → existing_key request.key_digest w ≡ some k
    → existing_operation_result k request.fingerprint_sha256 w ≡ ok a
    → initiate setting c request fresh w later ≡ ok (a, w)
unfolding initiate initiate_authorization initiate_capture initiate_void initiate_refund
initiate-answered setting (Command.authorize hold) request fresh w later k a accepted p e f =
    rw accepted
      (with_key-answered request w later (authorize_payment hold request fresh w) k a p e f)
initiate-answered setting (Command.capture amount) request fresh w later k a accepted p e f =
    with_key-answered request w later (capture_payment setting amount request fresh w) k a p e f
initiate-answered setting Command.void request fresh w later k a accepted p e f =
    with_key-answered request w later (void_payment request fresh w) k a p e f
initiate-answered setting (Command.refund payload) request fresh w later k a accepted p e f =
    with_key-answered request w later (refund_payment payload request fresh w) k a p e f

initiate-IsAccepted :
    (setting : Setting) (c : Command) (request : Request) (fresh : Fresh) (w w' later : World)
    (a : HttpResult)
    → initiate setting c request fresh w later ≡ ok (a, w')
    → IsAccepted c
unfolding initiate initiate_authorization
initiate-IsAccepted setting (Command.authorize hold) request fresh w w' later a h =
    ground (arith, h)
initiate-IsAccepted setting (Command.capture amount) request fresh w w' later a h = tt
initiate-IsAccepted setting Command.void request fresh w w' later a h = tt
initiate-IsAccepted setting (Command.refund payload) request fresh w w' later a h = tt

-- A command that was answered, also after a lost race, is answered the same when it is sent again
-- under its key: with the same HTTP status and body, and nothing is written, whatever the new ids, the
-- clock, the fee schedules and the calculator are then. The foreign keys have to hold before, and
-- the recovery of a lost race has to look at the same payment.
pub initiate_again :
    (setting setting' : Setting) (c : Command) (request : Request) (fresh fresh' : Fresh)
    (w w' later later' : World) (a : HttpResult)
    → IsLinked w
    → later.payment.public_id ≡ w.payment.public_id
    → initiate setting c request fresh w later ≡ ok (a, w')
    → (b : HttpResult) × (initiate setting' c request fresh' w' later' ≡ ok (b, w'))
      × SameAnswer a b
initiate_again setting setting' c request fresh fresh' w w' later later' a linked one h =
    let ((k, b, e, f, like), p) =
      initiate-Replays setting c request fresh w w' later a linked one h in
    (
      b,
      initiate-answered setting' c request fresh' w' later' k b
          (initiate-IsAccepted setting c request fresh w w' later a h) p e f,
      like,
    )
