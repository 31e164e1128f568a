-- ===== src/Nexoactions/Execution/Reported.antt =====
-- What a batch of actions reports: its outcomes, calls and events.
use nexolith.Base.{
  String, List, [], ◌∷◌, ◌++◌, none, some, ◌≡◌, refl, ap, subst, ◌∙◌, length, Result, ok, err,
  Error,
}
use mathlib.Core.List.{append-nil, append_assoc}
use nexolith.Nexoactions.Contracts.{
  NexoActionExecutionStatus, NexoActionContext, NexoActionDefinition, NexoActionExecutionResult,
}
use nexolith.Nexoactions.Execution.{
  PreparedAction, Invocation, HandlerEnd, ActionEvent, action_not_matched,
  action_invocation_started, action_completed, action_failed, Progress, outcome, handler_failed,
}

abbrev pub call_of_item : PreparedAction → NexoActionDefinition → NexoActionContext → Invocation
call_of_item item definition context = record {
  definition = definition;
  rows = item.matched_rows;
  context = context;
}

-- An end of a handler that is a failure, with the kind that the error names.
abbrev pub FailedAs : HandlerEnd → String → Type 0
FailedAs (HandlerEnd.raised kind) named = kind ≡ named
FailedAs HandlerEnd.returned_other named = "TypeError" ≡ named
FailedAs HandlerEnd.returned_result named = ⊥
FailedAs HandlerEnd.interruption named = ⊥

-- The calls before a batch, the batch, its outcomes, its calls, its events and its result.
pub data Reported (execute : List Invocation → Invocation → HandlerEnd)
    : List Invocation
      → List PreparedAction
      → List NexoActionExecutionResult
      → List Invocation
      → List ActionEvent
      → Result (Unit {0})
      → Type 0 where
  finished : (before : List Invocation) → Reported execute before [] [] [] [] (ok tt)
  not_matched :
      (before : List Invocation) (item : PreparedAction) (items : List PreparedAction)
      (os : List NexoActionExecutionResult) (cs : List Invocation) (es : List ActionEvent)
      (r : Result (Unit {0}))
      → item.invocation ≡ none
      → Reported execute before items os cs es r
      → Reported execute before
          (item ∷ items)
          (outcome item NexoActionExecutionStatus.not_matched none ∷ os)
          cs
          (action_not_matched item.identifier (length item.matched_rows) ∷ es)
          r
  completed :
      (before : List Invocation) (item : PreparedAction) (items : List PreparedAction)
      (os : List NexoActionExecutionResult) (cs : List Invocation) (es : List ActionEvent)
      (r : Result (Unit {0})) (d : NexoActionDefinition) (c : NexoActionContext)
      → item.invocation ≡ some (d, c)
      → execute before (call_of_item item d c) ≡ HandlerEnd.returned_result
      → Reported execute (before ++ (call_of_item item d c ∷ [])) items os cs es r
      → Reported execute before
          (item ∷ items)
          (outcome item NexoActionExecutionStatus.completed (some c.idempotency_key) ∷ os)
          (call_of_item item d c ∷ cs)
          (action_invocation_started item.identifier (length item.matched_rows) c.idempotency_key
            ∷ action_completed item.identifier (length item.matched_rows) c.idempotency_key
            ∷ es)
          r
  failed :
      (before : List Invocation) (item : PreparedAction) (items : List PreparedAction)
      (d : NexoActionDefinition) (c : NexoActionContext) (kind : String)
      → item.invocation ≡ some (d, c)
      → FailedAs (execute before (call_of_item item d c)) kind
      → Reported execute before
          (item ∷ items)
          (outcome item NexoActionExecutionStatus.failed (some c.idempotency_key) ∷ [])
          (call_of_item item d c ∷ [])
          (action_invocation_started item.identifier (length item.matched_rows) c.idempotency_key
            ∷ action_failed item.identifier (length item.matched_rows) c.idempotency_key
            ∷ [])
          (err (handler_failed item.identifier kind))
  interrupted :
      (before : List Invocation) (item : PreparedAction) (items : List PreparedAction)
      (d : NexoActionDefinition) (c : NexoActionContext)
      → item.invocation ≡ some (d, c)
      → execute before (call_of_item item d c) ≡ HandlerEnd.interruption
      → Reported execute before
          (item ∷ items)
          []
          (call_of_item item d c ∷ [])
          (action_invocation_started item.identifier (length item.matched_rows) c.idempotency_key
            ∷ [])
          (err Error.interrupted)

abbrev pub extended :
    Progress → List NexoActionExecutionResult → List Invocation → List ActionEvent → Progress
extended p os cs es = record {
  invocations = p.invocations ++ cs;
  outcomes = p.outcomes ++ os;
  events = p.events ++ es;
}

-- What a batch adds to the progress.
pub record Reports (execute : List Invocation → Invocation → HandlerEnd)
    (items : List PreparedAction) (p : Progress) (out : Result (Unit {0}) × Progress) : Type 0 where
  pub outcomes : List NexoActionExecutionResult
  pub calls : List Invocation
  pub events : List ActionEvent
  pub progress : out.1 ≡ extended p outcomes calls events
  pub reported : Reported execute p.invocations items outcomes calls events out.0

extended-extended :
    (p : Progress) (os os' : List NexoActionExecutionResult) (cs cs' : List Invocation)
    (es es' : List ActionEvent)
    → extended (extended p os cs es) os' cs' es' ≡ extended p (os ++ os') (cs ++ cs') (es ++ es')
extended-extended p os os' cs cs' es es' =
    rw
      (
        append_assoc p.invocations cs cs',
        append_assoc p.outcomes os os',
        append_assoc p.events es es',
      )
      refl

-- Adding nothing to one of the lists.
pub extended_quiet :
    (p : Progress) (os : List NexoActionExecutionResult) (es : List ActionEvent)
    → (record { invocations = p.invocations; outcomes = p.outcomes ++ os; events = p.events ++ es })
      ≡ extended p os [] es
extended_quiet p os es = rw (append-nil p.invocations) refl

pub extended_called :
    (p : Progress) (cs : List Invocation) (es : List ActionEvent)
    → (record { invocations = p.invocations ++ cs; outcomes = p.outcomes; events = p.events ++ es })
      ≡ extended p [] cs es
extended_called p cs es = rw (append-nil p.outcomes) refl

pub extended_nothing : (p : Progress) → p ≡ extended p [] [] []
extended_nothing p = rw (append-nil p.invocations, append-nil p.outcomes, append-nil p.events) refl

-- A finished item, and then the rest of the batch.
pub then_Reports :
    {execute : List Invocation → Invocation → HandlerEnd} {items : List PreparedAction}
    {p q : Progress} {out : Result (Unit {0}) × Progress} (item : PreparedAction)
    (os : List NexoActionExecutionResult) (cs : List Invocation) (es : List ActionEvent)
    → q ≡ extended p os cs es
    → ((os' : List NexoActionExecutionResult) (cs' : List Invocation) (es' : List ActionEvent)
          (r : Result (Unit {0}))
        → Reported execute (p.invocations ++ cs) items os' cs' es' r
        → Reported execute p.invocations (item ∷ items) (os ++ os') (cs ++ cs') (es ++ es') r)
    → Reports execute items q out
    → Reports execute (item ∷ items) p out
then_Reports {execute = execute} {items = items} {p = p} {q = q} {out = out} item os cs es made step
      rest =
    record {
      outcomes = os ++ rest.outcomes;
      calls = cs ++ rest.calls;
      events = es ++ rest.events;
      progress =
          rest.progress
          ∙ ap (λ q. extended q rest.outcomes rest.calls rest.events) made
          ∙ extended-extended p os rest.outcomes cs rest.calls es rest.events;
      reported = step rest.outcomes rest.calls rest.events out.0 (
          subst (λ before. Reported execute before items rest.outcomes rest.calls rest.events out.0)
            (ap (λ (q : Progress). q.invocations) made) rest.reported);
    }
