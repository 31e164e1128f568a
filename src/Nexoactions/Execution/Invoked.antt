-- ===== src/Nexoactions/Execution/Invoked.antt =====
-- The batch after the write: which handlers are called, and what is reported of them.
use nexolith.Base.{
  String, List, [], ◌∷◌, ◌++◌, Option, none, some, ◌≡◌, refl, ap, subst, length, ok, err,
}
use mathlib.Core.List.{append-nil, append_assoc}
use nexolith.Nexoactions.Contracts.{
  NexoActionExecutionStatus, NexoActionContext, NexoActionDefinition, NexoActionExecutionResult,
}
use nexolith.Nexoactions.Execution.{
  PreparedAction, Invocation, HandlerEnd, ActionEvent, action_invocation_started, action_failed,
  Progress, outcome, handler_failed, execute_prepared_actions, settle, note, start_invocation, Rows,
}
use nexolith.Types.{Rows}
use nexolith.Nexoactions.Execution.Reported.{
  call_of_item, FailedAs, Reported, finished, not_matched, completed, failed, interrupted, extended,
  Reports, extended_quiet, extended_called, extended_nothing, then_Reports,
}

module _ (execute : List Invocation → Invocation → HandlerEnd) where
  settled :
      (item : PreparedAction) (p : Progress) (d : NexoActionDefinition) (c : NexoActionContext)
      (o : NexoActionExecutionResult) (e : ActionEvent)
      → note o (e ∷ []) (start_invocation execute item c (call_of_item item d c) p)
        ≡ extended p (o ∷ []) (call_of_item item d c ∷ []) (
            action_invocation_started item.identifier (length item.matched_rows) c.idempotency_key
            ∷ e
            ∷ [])
  settled item p d c o e =
      ap
        (λ es. record {
          invocations = p.invocations ++ (call_of_item item d c ∷ []);
          outcomes = p.outcomes ++ (o ∷ []);
          events = es;
        })
        (append_assoc p.events
          (action_invocation_started item.identifier (length item.matched_rows) c.idempotency_key
            ∷ [])
          (e ∷ []))

  failed_Reports :
      (item : PreparedAction) (items : List PreparedAction) (p : Progress)
      (d : NexoActionDefinition) (c : NexoActionContext) (kind : String)
      → item.invocation ≡ some (d, c)
      → FailedAs (execute p.invocations (call_of_item item d c)) kind
      → Reports execute (item ∷ items) p (
        err (handler_failed item.identifier kind),
        note
            (outcome item NexoActionExecutionStatus.failed (some c.idempotency_key))
            (action_failed item.identifier (length item.matched_rows) c.idempotency_key ∷ [])
            (start_invocation execute item c (call_of_item item d c) p),
      )
  failed_Reports item items p d c kind has ended = record {
    outcomes = _;
    calls = _;
    events = _;
    progress =
        settled item p d c (outcome item NexoActionExecutionStatus.failed (some c.idempotency_key))
          _;
    reported = failed p.invocations item items d c kind has ended;
  }

  invoked_Reports :
      (item : PreparedAction) (items : List PreparedAction) (p : Progress)
      (d : NexoActionDefinition) (c : NexoActionContext) (end : HandlerEnd)
      → item.invocation ≡ some (d, c)
      → execute p.invocations (call_of_item item d c) ≡ end
      → ((q : Progress) → Reports execute items q (execute_prepared_actions execute items q))
      → Reports execute (item ∷ items) p (
          let done =
            settle item c.idempotency_key end
              (start_invocation execute item c (call_of_item item d c) p) in
          elim done.0 [
            | err e ↦ (err e, done.1)
            | ok u ↦ execute_prepared_actions execute items done.1
          ])
  invoked_Reports item items p d c HandlerEnd.returned_result has ended rest =
      then_Reports item _ (call_of_item item d c ∷ []) _
        (settled item p d c
          (outcome item NexoActionExecutionStatus.completed (some c.idempotency_key)) _)
        (λ os cs es r h. completed p.invocations item items os cs es r d c has ended h) (rest _)
  invoked_Reports item items p d c HandlerEnd.returned_other has ended rest =
      failed_Reports item items p d c "TypeError" has (rw ended refl)
  invoked_Reports item items p d c HandlerEnd.interruption has ended rest = record {
    outcomes = [];
    calls = _;
    events = _;
    progress = extended_called p (call_of_item item d c ∷ []) _;
    reported = interrupted p.invocations item items d c has ended;
  }
  invoked_Reports item items p d c (HandlerEnd.raised kind) has ended rest =
      failed_Reports item items p d c kind has (rw ended refl)

  item_Reports :
      (identifier : String) (matched : Rows)
      (invocation : Option (NexoActionDefinition × NexoActionContext)) (items : List PreparedAction)
      (p : Progress)
      → ((q : Progress) → Reports execute items q (execute_prepared_actions execute items q))
      → (let item : PreparedAction = record {
        identifier = identifier;
        matched_rows = matched;
        invocation = invocation;
      } in
          Reports execute (item ∷ items) p (execute_prepared_actions execute (item ∷ items) p))
  unfolding execute_prepared_actions
  item_Reports identifier matched none items p rest =
      then_Reports _ _ [] _ (extended_quiet p _ _)
        (λ os cs es r h.
          not_matched p.invocations _ items os cs es r refl (
            subst (λ before. Reported execute before items os cs es r) (append-nil p.invocations)
              h))
        (rest _)
  item_Reports identifier matched (some (d, c)) items p rest =
      invoked_Reports _ items p d c (execute p.invocations _) refl refl rest

  -- A batch of actions is reported item by item, in order, up to the first handler that does not
  -- return its result: an action without a match as not matched and without a call, the others with
  -- one call and their start event, and then as completed if the handler returned its result, and as
  -- failed if it raised an exception or returned another value. A failure ends the batch with an
  -- error that names the exception, or a TypeError for another value; an interruption ends it without
  -- an outcome.
  pub execute_prepared_actions-Reports :
      (items : List PreparedAction) (p : Progress)
      → Reports execute items p (execute_prepared_actions execute items p)
  unfolding execute_prepared_actions
  execute_prepared_actions-Reports [] p = record {
    outcomes = [];
    calls = [];
    events = [];
    progress = extended_nothing p;
    reported = finished p.invocations;
  }
  execute_prepared_actions-Reports (item ∷ items) p =
      item_Reports item.identifier item.matched_rows item.invocation items p
        (execute_prepared_actions-Reports items)
