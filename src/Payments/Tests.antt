-- ===== src/Payments/Tests.antt =====
-- A payment that is created, authorised and captured.
use relaypay.Base.{
  ◌≡◌, refl, ◌≢◌, ◌⊎◌, none, [], ok, err, payment_state_stale, illegal_payment_transition, true,
  false,
}
use relaypay.Base.Int.{pos}
use relaypay.Ledger.Tests.{opening}
use relaypay.Payments.Status.{created, authorised, captured, failed, is_allowed}
use relaypay.Payments.Transitions.{record_creation, moved, transition}
use relaypay.Payments.Transitions.Chain.{
  birth, move, IsChained, transition_cases, transition-IsChained, is_captured, Chain-captured,
}
use relaypay.Rows.{
  request, finalizer, authorization_succeeded, authorization_declined, capture_succeeded, World,
}

abbrev empty : World
empty = record {
  payment = record {
    id = 1;
    public_id = 101;
    merchant_account_id = 1;
    amount = pos 1000;
    status = created;
    status_version = 0;
  };
  authorization = none;
  capture = none;
  void = none;
  refunds = [];
  operations = [];
  attempts = [];
  keys = [];
  status_history = [];
  operation_history = [];
  events = [];
  books = opening;
}

abbrev pub fresh : World
fresh = record_creation request empty

abbrev pub authorised_world : World
authorised_world = moved authorised authorization_succeeded finalizer fresh

abbrev captured_world : World
captured_world = moved captured capture_succeeded finalizer authorised_world

fresh-IsChained : IsChained fresh
unfolding record_creation
fresh-IsChained = birth _ refl refl refl

transition-IsChained_example : IsChained authorised_world
unfolding transition record_creation
transition-IsChained_example =
    transition-IsChained fresh.payment authorised authorization_succeeded finalizer fresh
      authorised_world refl fresh-IsChained

-- A second session that still sees the payment as created is refused.
transition_cases_example :
    (transition fresh.payment failed authorization_declined finalizer authorised_world
        ≡ err payment_state_stale)
      × ((authorised_world.payment.status ≢ fresh.payment.status)
          ⊎ (authorised_world.payment.status_version ≢ fresh.payment.status_version))
    ⊎ (transition fresh.payment failed authorization_declined finalizer authorised_world
        ≡ err illegal_payment_transition)
      × (authorised_world.payment.status ≡ fresh.payment.status)
      × (authorised_world.payment.status_version ≡ fresh.payment.status_version)
      × (is_allowed authorised_world.payment.status failed ≡ false)
    ⊎ (transition fresh.payment failed authorization_declined finalizer authorised_world
        ≡ ok (moved failed authorization_declined finalizer authorised_world))
      × (authorised_world.payment.status ≡ fresh.payment.status)
      × (authorised_world.payment.status_version ≡ fresh.payment.status_version)
      × (is_allowed authorised_world.payment.status failed ≡ true)
transition_cases_example =
    transition_cases fresh.payment failed authorization_declined finalizer authorised_world

stale :
    transition fresh.payment failed authorization_declined finalizer authorised_world
    ≡ err payment_state_stale
unfolding transition record_creation
stale = refl

captured-IsChained : IsChained captured_world
unfolding record_creation
captured-IsChained =
    move (move (birth _ refl refl refl) _ authorised refl refl refl refl) _ captured refl refl refl
      refl

Chain-captured_example : is_captured captured_world.payment.status ≡ true
unfolding record_creation
Chain-captured_example = Chain-captured captured-IsChained refl
