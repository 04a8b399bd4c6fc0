-- ===== src/Commands/Splits.antt =====
-- What a command that inserts has passed and written: payments/service.py.
use relaypay.Base.{
  ℕ, ◌≡◌, inl, inr, none, some, List, [], ◌∷◌, ◌++◌, true, false, ok, arith, Option-cases,
  Result-cases, any, find, ◌==◌, is_at_most,
}
use relaypay.Base.Int.{ℤ, pos, ltb_ℤ, leb_ℤ, ◌-ℤ◌}
use relaypay.Fees.Schedule.{capture_fee, CaptureFee}
use relaypay.Rows.{
  is_succeeded, authorize_key, capture_key, void_key, refund_key, ResourceType, CommandKind,
  Authorization, Capture, World, Operation,
}
use relaypay.Commands.{
  HttpResult, Request, Fresh, Setting, RefundCreate, attach_key, operation_collides,
  insert_operation, new_operation, new_authorization, authorization_row, capture_row, void_row,
  refund_row, has_open_void, is_dead, reserved_sum, new_capture, new_void, refund_payment,
}

pub find-operation_append :
    (o : Operation) (os : List Operation)
    → any (operation_collides o) os ≡ false
    → find (λ x. x.id == o.id) (os ++ o ∷ []) ≡ some o
find-operation_append o [] h = ground arith
find-operation_append o (p ∷ ps) h = ground (arith, find-operation_append o ps)

pub insert_operation-split :
    (o : Operation) (w w' : World)
    → insert_operation o w ≡ ok w'
    → (any (operation_collides o) w.operations ≡ false)
      × (w' ≡ record w { operations = w.operations ++ o ∷ [] })
unfolding insert_operation
insert_operation-split o w w' h = (ground arith, ground arith)

abbrev pub operation_added : Operation → World → World
operation_added o w = record w { operations = w.operations ++ o ∷ [] }

-- An insert of an operation, and the key that is attached to it in a state `v`.
abbrev pub Inserts : Request → Operation → ℕ → World → World → World → HttpResult → Type 0
Inserts request o public_id w v w' a =
    (any (operation_collides o) w.operations ≡ false)
    × (attach_key request o public_id v ≡ ok (a, w'))

abbrev pub authorize_operation : Fresh → World → Operation
authorize_operation fresh w =
    new_operation fresh ResourceType.authorization CommandKind.authorize
      (authorize_key w.payment.public_id)

abbrev pub capture_operation : Fresh → World → Operation
capture_operation fresh w =
    new_operation fresh ResourceType.capture CommandKind.capture (capture_key w.payment.public_id)

abbrev pub void_operation : Fresh → World → Operation
void_operation fresh w =
    new_operation fresh ResourceType.void CommandKind.void (void_key w.payment.public_id)

abbrev pub refund_operation : Fresh → Operation
refund_operation fresh =
    new_operation fresh ResourceType.refund CommandKind.refund (refund_key fresh.resource_id)

pub new_authorization-split :
    (hold : ℤ) (request : Request) (fresh : Fresh) (w w' : World) (a : HttpResult)
    → new_authorization hold request fresh w ≡ ok (a, w')
    → Inserts request
        (authorize_operation fresh w)
        fresh.resource_public_id
        w
        (record (operation_added (authorize_operation fresh w) w) {
          authorization = some (authorization_row hold fresh w);
        })
        w'
        a
unfolding new_authorization insert_operation
new_authorization-split hold request fresh w w' a h = (ground arith, ground arith)

pub new_capture-split :
    (setting : Setting) (auth : Authorization) (amount : ℤ) (request : Request) (fresh : Fresh)
    (w w' : World) (a : HttpResult)
    → new_capture setting auth amount request fresh w ≡ ok (a, w')
    → (fee : CaptureFee) × (has_open_void w ≡ false)
      × (is_dead w.payment.status ≡ false)
      × (is_at_most auth.expires_at setting.now ≡ false)
      × Inserts request
          (capture_operation fresh w)
          fresh.resource_public_id
          w
          (record (operation_added (capture_operation fresh w) w) {
            capture = some (capture_row fresh auth amount fee);
          })
          w'
          a
unfolding new_capture insert_operation
new_capture-split setting auth amount request fresh w w' a h =
    elim (Result-cases (
      capture_fee setting.now setting.versions w.payment.merchant_account_id amount
        setting.calculator)) [
          | inl (fee, e) ↦ (
            fee,
            ground (arith, h),
            ground (arith, h),
            ground (arith, h),
            (ground (arith, h, e), ground (arith, h, e)),
          )
          | inr (x, e) ↦ ground arith
        ]

pub new_void-split :
    (request : Request) (fresh : Fresh) (w w' : World) (a : HttpResult)
    → new_void request fresh w ≡ ok (a, w')
    → (auth : Authorization) × (w.authorization ≡ some auth)
      × (w.capture ≡ none)
      × Inserts request
          (void_operation fresh w)
          fresh.resource_public_id
          w
          (record (operation_added (void_operation fresh w) w) {
            void = some (void_row fresh auth);
          })
          w'
          a
unfolding new_void insert_operation
new_void-split request fresh w w' a h = elim (Option-cases w.authorization) [
  | inl n ↦ ground arith
  | inr (auth, e) ↦ (auth, e, ground arith, (ground arith, ground arith))
]

pub refund_payment-split :
    (payload : RefundCreate) (request : Request) (fresh : Fresh) (w w' : World) (a : HttpResult)
    → refund_payment payload request fresh w ≡ ok (a, w')
    → (c : Capture) × (w.capture ≡ some c)
      × (is_succeeded c.status ≡ true)
      × (ltb_ℤ (c.amount -ℤ reserved_sum w.refunds) payload.amount ≡ false)
      × (leb_ℤ payload.amount (pos 0) ≡ false)
      × (any (λ r. r.id == fresh.resource_id) w.refunds ≡ false)
      × Inserts request
          (refund_operation fresh)
          fresh.resource_id
          w
          (record (operation_added (refund_operation fresh) w) {
            refunds = w.refunds ++ refund_row fresh c payload.amount ∷ [];
          })
          w'
          a
unfolding refund_payment insert_operation
refund_payment-split payload request fresh w w' a h = elim (Option-cases w.capture) [
  | inl n ↦ ground arith
  | inr (c, e) ↦
      (c, e, ground arith, ground arith, ground arith, ground arith, (ground arith, ground arith))
]
