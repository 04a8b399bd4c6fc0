-- ===== src/Psp/Ordering/Replay.antt =====
-- Deliveries in any order and any number to one operation: psp/ordering.py, and what psp/applier.py
-- does with a decision.
use relaypay.Base.{
  ◌≡◌, refl, sym, ap, ◌∙◌, inl, inr, Option, none, some, Bool, true, false, not, List, [], ◌∷◌,
  arith, find, Bool-cases, Option-cases, ◌==◌, if◌then◌else◌,
}
use relaypay.Rows.{OperationStatus, succeeded, failed, is_terminal}
use relaypay.Psp.Ordering.{
  EventOutcome, OperationView, NormalizedPspEvent, Decision, apply, ignore,
  contradicts_terminal_state, duplicate, stale, is_pending, decide,
}

-- The status that an outcome finalizes an operation with.
abbrev pub status_of : EventOutcome → OperationStatus → OperationStatus
status_of EventOutcome.confirmed s = succeeded
status_of EventOutcome.declined s = failed
status_of EventOutcome.pending s = s

-- One delivery, once the applier is through with it and its finalization has not failed: an event that
-- is applied finalizes the operation and is remembered, and any other leaves both as they were.
abbrev pub deliver : OperationView → NormalizedPspEvent → OperationView
deliver view event = elim (decide view event) [
  | apply outcome ↦ record {
    status = status_of outcome view.status;
    applied_event_ids = event.event_id ∷ view.applied_event_ids;
  }
  | _ ↦ view
]

abbrev pub deliver_all : List NormalizedPspEvent → OperationView → OperationView
deliver_all [] view = view
deliver_all (e ∷ es) view = deliver_all es (deliver view e)

-- An operation of this status to which no event was applied.
abbrev pub fresh_view : OperationStatus → OperationView
fresh_view s = record { status = s; applied_event_ids = [] }

-- The first event that reports an outcome.
abbrev pub first_decisive : List NormalizedPspEvent → Option NormalizedPspEvent
first_decisive = find (λ e. not (is_pending e.outcome))

abbrev pub same_outcome : EventOutcome → EventOutcome → Bool
same_outcome EventOutcome.pending EventOutcome.pending = true
same_outcome EventOutcome.confirmed EventOutcome.confirmed = true
same_outcome EventOutcome.declined EventOutcome.declined = true
same_outcome _ _ = false

-- The state that the deliveries lead to, read off the first event that reports an outcome.
abbrev pub reached : OperationStatus → Option NormalizedPspEvent → OperationView
reached s none = fresh_view s
reached s (some f) = record { status = status_of f.outcome s; applied_event_ids = f.event_id ∷ [] }

-- What the next event is answered with, read off the same event.
abbrev pub answer : Option NormalizedPspEvent → NormalizedPspEvent → Decision
answer none e = if is_pending e.outcome then ignore stale else apply e.outcome
answer (some f) e =
    if e.event_id == f.event_id
    then ignore duplicate
    else if is_pending e.outcome
    then ignore stale
    else if same_outcome e.outcome f.outcome
    then ignore duplicate
    else contradicts_terminal_state

-- Nothing moves an operation that is terminal.
deliver_all-terminal :
    (es : List NormalizedPspEvent) (view : OperationView)
    → is_terminal view.status ≡ true
    → deliver_all es view ≡ view
unfolding decide
deliver_all-terminal [] view t = refl
deliver_all-terminal (e ∷ es) view t =
    let same : deliver view e ≡ view = ground arith in
    ap (deliver_all es) same ∙ deliver_all-terminal es view t

deliver-pending :
    (e : NormalizedPspEvent) (s : OperationStatus)
    → not (is_pending e.outcome) ≡ false
    → deliver (fresh_view s) e ≡ fresh_view s
unfolding decide
deliver-pending e s p = ground arith

deliver-decisive :
    (e : NormalizedPspEvent) (s : OperationStatus)
    → is_terminal s ≡ false
    → not (is_pending e.outcome) ≡ true
    → deliver (fresh_view s) e ≡ reached s (some e)
unfolding decide
deliver-decisive e s live d = ground (arith, live, d)

decisive-terminal :
    (x : EventOutcome) (s : OperationStatus)
    → not (is_pending x) ≡ true
    → is_terminal (status_of x s) ≡ true
decisive-terminal x s d = ground (arith, d)

deliver_all-reached :
    (s : OperationStatus) (es : List NormalizedPspEvent)
    → is_terminal s ≡ false
    → deliver_all es (fresh_view s) ≡ reached s (first_decisive es)
deliver_all-reached s [] live = refl
deliver_all-reached s (e ∷ es) live = elim (Bool-cases (not (is_pending e.outcome))) [
  | inl d ↦
      ap (deliver_all es) (deliver-decisive e s live d)
      ∙ deliver_all-terminal es (reached s (some e)) (decisive-terminal e.outcome s d)
      ∙ sym (ap (reached s) (decided_now d))
  | inr p ↦
      ap (deliver_all es) (deliver-pending e s p)
      ∙ deliver_all-reached s es live
      ∙ sym (ap (reached s) (decided_later p))
]
  where
    decided_now : not (is_pending e.outcome) ≡ true → first_decisive (e ∷ es) ≡ some e
    decided_now d = rw d refl

    decided_later : not (is_pending e.outcome) ≡ false → first_decisive (e ∷ es) ≡ first_decisive es
    decided_later p = rw p refl

decide-fresh :
    (s : OperationStatus) (e : NormalizedPspEvent)
    → is_terminal s ≡ false
    → decide (fresh_view s) e ≡ answer none e
unfolding decide
decide-fresh s e live = ground (arith, live)

decide-decided :
    (s : OperationStatus) (x : EventOutcome) (f e : NormalizedPspEvent)
    → f.outcome ≡ x
    → not (is_pending x) ≡ true
    → decide (reached s (some f)) e ≡ answer (some f) e
unfolding decide
decide-decided s EventOutcome.pending f e h d = ground (arith, d)
decide-decided s EventOutcome.confirmed f e h d = ground (arith, h)
decide-decided s EventOutcome.declined f e h d = ground (arith, h)

find-decisive :
    (es : List NormalizedPspEvent) (f : NormalizedPspEvent)
    → first_decisive es ≡ some f
    → not (is_pending f.outcome) ≡ true
find-decisive [] f h = cc
find-decisive (e ∷ es) f h = elim (Bool-cases (not (is_pending e.outcome))) [
  | inl d ↦
      let same : e ≡ f = ground (arith, h, d) in ap (λ x. not (is_pending x.outcome)) (sym same) ∙ d
  | inr p ↦ find-decisive es f (rw p at h)
]

-- Whatever events are delivered to an operation that is open, in any order, any number of times and
-- even if they contradict each other: the first that reports an outcome decides the status, and is
-- the only one that is applied. The next event is applied exactly if none has decided and it reports an
-- outcome; the event that decided is ignored as a duplicate; another is ignored as stale if it is
-- pending, as a duplicate if its outcome is the same, and else contradicts the terminal state.
pub deliver_all-decide :
    (s : OperationStatus) (es : List NormalizedPspEvent) (e : NormalizedPspEvent)
    → is_terminal s ≡ false
    → (deliver_all es (fresh_view s) ≡ reached s (first_decisive es))
      × (decide (deliver_all es (fresh_view s)) e ≡ answer (first_decisive es) e)
deliver_all-decide s es e live =
    let state = deliver_all-reached s es live in
    (
      state,
      elim (Option-cases (first_decisive es)) [
        | inl n ↦ rw (state, n) (decide-fresh s e live)
        | inr (f, h) ↦ rw (state, h) (decide-decided s f.outcome f e refl (find-decisive es f h))
      ],
    )
