-- ===== src/Commands/Any.antt =====
-- Any command of a merchant: the four functions of payments/service.py as one.
use relaypay.Base.{Option, Result}
use relaypay.Base.Int.{ℤ}
use relaypay.Rows.{World}
use relaypay.Commands.Requests.{HttpResult, Request, Fresh}
use relaypay.Commands.Initiate.{Setting, initiate_authorization, initiate_capture}
use relaypay.Commands.Reverse.{RefundCreate, initiate_void, initiate_refund}

pub data Command : Type 0 where
  authorize : (hold_seconds : ℤ) → Command
  capture : (amount : Option ℤ) → Command
  void : Command
  refund : (payload : RefundCreate) → Command

unfoldable pub initiate :
    Setting → Command → Request → Fresh → World → World → Result (HttpResult × World)
initiate setting (Command.authorize hold_seconds) request fresh w later =
    initiate_authorization hold_seconds request fresh w later
initiate setting (Command.capture amount) request fresh w later =
    initiate_capture setting amount request fresh w later
initiate setting Command.void request fresh w later = initiate_void request fresh w later
initiate setting (Command.refund payload) request fresh w later =
    initiate_refund payload request fresh w later
