-- ===== src/Psp/Tests.antt =====
-- The ordering decision at a late report, a confirmation and its redelivery.
use relaypay.Base.{ℕ, ◌≡◌, refl, List, [], ◌∷◌}
use relaypay.Rows.{processing, failed, succeeded}
use relaypay.Psp.Ordering.{EventOutcome, NormalizedPspEvent, decide, contradicts_terminal_state}
use relaypay.Psp.Ordering.Replay.{deliver_all, fresh_view, deliver_all-decide}

abbrev event_of : ℕ → EventOutcome → NormalizedPspEvent
event_of id outcome = record { event_id = id; outcome = outcome }

abbrev redelivered : List NormalizedPspEvent
redelivered =
    event_of 2 EventOutcome.confirmed
    ∷ event_of 2 EventOutcome.confirmed
    ∷ event_of 1 EventOutcome.pending
    ∷ []

contradicted :
    decide (fresh_view failed) (event_of 2 EventOutcome.confirmed) ≡ contradicts_terminal_state
unfolding decide
contradicted = refl

redelivered_status : (deliver_all redelivered (fresh_view processing)).status ≡ succeeded
unfolding decide
redelivered_status = refl

-- After a confirmation that came twice, a decline under another id contradicts.
deliver_all-decide_example :
    (deliver_all redelivered (fresh_view processing)
      ≡ record { status = succeeded; applied_event_ids = 2 ∷ [] })
    × (decide (deliver_all redelivered (fresh_view processing)) (event_of 3 EventOutcome.declined)
        ≡ contradicts_terminal_state)
deliver_all-decide_example =
    deliver_all-decide processing redelivered (event_of 3 EventOutcome.declined) refl
