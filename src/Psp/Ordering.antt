-- ===== src/Psp/Ordering.antt =====
-- `decide` of packages/relaypay/psp/ordering.py, over psp/types.py. Event ids are numbers; the
-- provider, the kind and the amount, which the decision does not read, are left out.
pub mod Replay
use relaypay.Base.{ℕ, Bool, true, false, List, [], ◌∷◌, ◌++◌, elem, if◌then◌else◌}
use relaypay.Rows.{OperationStatus, succeeded, failed, is_terminal}

pub data EventOutcome : Type 0 where
  pending confirmed declined : EventOutcome

pub record OperationView : Type 0 where
  pub status : OperationStatus
  pub applied_event_ids : List ℕ

pub record NormalizedPspEvent : Type 0 where
  pub event_id : ℕ
  pub outcome : EventOutcome

pub data IgnoreReason : Type 0 where
  duplicate stale : IgnoreReason

pub data Decision : Type 0 where
  apply : EventOutcome → Decision
  ignore : IgnoreReason → Decision
  contradicts_terminal_state : Decision

-- `AGREEING_STATUS[outcome] == status`
abbrev pub is_agreeing : EventOutcome → OperationStatus → Bool
is_agreeing EventOutcome.confirmed succeeded = true
is_agreeing EventOutcome.declined failed = true
is_agreeing _ _ = false

abbrev pub is_pending : EventOutcome → Bool
is_pending EventOutcome.pending = true
is_pending _ = false

unfoldable pub decide : OperationView → NormalizedPspEvent → Decision
decide view event =
    if elem event.event_id view.applied_event_ids
    then ignore duplicate
    else if is_pending event.outcome
    then ignore stale
    else if is_terminal view.status
    then (if is_agreeing event.outcome view.status
        then ignore duplicate
        else contradicts_terminal_state)
    else apply event.outcome
