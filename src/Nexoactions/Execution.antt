-- ===== src/Nexoactions/Execution.antt =====
-- src/nexolith/nexoactions/execution.py: actions are prepared before a write, and invoked after it.
pub mod Batch
pub mod Reported
pub mod Invoked
use nexolith.Base.{
  ℕ, String, List, [], ◌∷◌, ◌++◌, Bool, true, false, not, ◌&&◌, ◌||◌, Option, none, some, ◌==◌,
  nat_eq, if◌then◌else◌, concat, length, Result, ok, err, ◌>>=◌, Error,
}
use nexolith.Types.{Rows}
use nexolith.Nexoactions.Contracts.{
  NexoActionMatchMode, NexoActionExecutionStatus, NexoActionCondition, NexoActionParameterValue,
  NexoActionContext, NexoActionDefinition, NexoActionExecutionResult, bind_parameters,
}
use nexolith.Nexoactions.Conditions.{Hashing, matched_rows, derive_idempotency_key}

-- `NexoActionConfig` of src/nexolith/config/models.py.
pub record NexoActionConfig : Type 0 where
  pub type : String
  pub condition : NexoActionCondition
  pub match : NexoActionMatchMode
  pub idempotency_fields : List String
  pub parameters : List (String × NexoActionParameterValue)
  pub resolved_action : Option NexoActionDefinition

-- Both optional fields of `_PreparedAction` are set, or neither.
pub record PreparedAction : Type 0 where
  pub identifier : String
  pub matched_rows : Rows
  pub invocation : Option (NexoActionDefinition × NexoActionContext)

abbrev pub is_any : NexoActionMatchMode → Bool
is_any NexoActionMatchMode.any = true
is_any NexoActionMatchMode.all = false

abbrev pub should_invoke : NexoActionMatchMode → (matched rows : ℕ) → Bool
should_invoke mode matched rows = not (matched == 0) && (is_any mode || matched == rows)

abbrev pub unresolved : String → Error
unresolved type =
    Error.execution_error (concat ("Nexo Action '" ∷ type ∷ "' was not resolved." ∷ []))

-- Only a ValueError is replaced.
abbrev pub bound_or {ℓ} : {A : Type ℓ} → String → Result A → Result A
bound_or type (ok a) = ok a
bound_or type (err Error.value_error) =
    err (Error.execution_error (concat ("Nexo Action '" ∷ type ∷ "' has invalid parameters." ∷ [])))
bound_or type (err e) = err e

abbrev pub resolve_action : NexoActionConfig → Result NexoActionDefinition
resolve_action a = elim a.resolved_action [
  | none ↦ err (unresolved a.type)
  | some definition ↦ ok definition
]

abbrev pub quiet : NexoActionConfig → Rows → PreparedAction
quiet a matched = record { identifier = a.type; matched_rows = matched; invocation = none }

module _ (h : Hashing) (pipeline_name : String) where
  unfoldable pub prepare_invocation :
      NexoActionConfig
      → Rows
      → NexoActionDefinition
      → List (String × NexoActionParameterValue)
      → Result PreparedAction
  unfolding derive_idempotency_key
  prepare_invocation a matched definition parameters = do
    key ← derive_idempotency_key h pipeline_name a.type matched a.idempotency_fields
    ok (record {
      identifier = a.type;
      matched_rows = matched;
      invocation = some (
        definition,
        record {
          pipeline_name = pipeline_name;
          action_identifier = a.type;
          idempotency_key = key;
          parameters = parameters;
        },
      );
    })

  unfoldable pub prepare_action : NexoActionConfig → Rows → Result PreparedAction
  unfolding matched_rows bind_parameters prepare_invocation
  prepare_action a rows = do
    matched ← matched_rows rows a.condition
    definition ← resolve_action a
    parameters ← bound_or a.type (bind_parameters definition a.parameters)
    (if should_invoke a.match (length matched) (length rows)
        then prepare_invocation a matched definition parameters
        else ok (quiet a matched))

  unfoldable pub prepare_actions : List NexoActionConfig → Rows → Result (List PreparedAction)
  unfolding prepare_action
  prepare_actions [] rows = ok []
  prepare_actions (a ∷ actions) rows = do
    item ← prepare_action a rows
    items ← prepare_actions actions rows
    ok (item ∷ items)

pub record Invocation : Type 0 where
  pub definition : NexoActionDefinition
  pub rows : Rows
  pub context : NexoActionContext

-- How a handler ends: with its result, another value, an exception of the named type, or a
-- `BaseException`.
pub data HandlerEnd : Type 0 where
  returned_result returned_other interruption : HandlerEnd
  raised : String → HandlerEnd

pub data ActionEvent : Type 0 where
  action_not_matched : String → ℕ → ActionEvent
  action_invocation_started action_completed action_failed : String → ℕ → String → ActionEvent

-- What the batch has done: the handlers called, the outcomes and the events, each in order.
pub record Progress : Type 0 where
  pub invocations : List Invocation
  pub outcomes : List NexoActionExecutionResult
  pub events : List ActionEvent

abbrev pub outcome :
    PreparedAction → NexoActionExecutionStatus → Option String → NexoActionExecutionResult
outcome item status key = record {
  identifier = item.identifier;
  status = status;
  matched_rows = length item.matched_rows;
  idempotency_key = key;
}

abbrev pub note : NexoActionExecutionResult → List ActionEvent → Progress → Progress
note result events p = record p {
  outcomes = p.outcomes ++ (result ∷ []);
  events = p.events ++ events;
}

abbrev pub handler_failed : String → String → Error
handler_failed identifier kind =
    Error.execution_error
      (concat ("Nexo Action '" ∷ identifier ∷ "' failed with " ∷ kind ∷ "." ∷ []))

-- `finished` and `broken` are the end of an invocation after its start event.
abbrev pub settle : PreparedAction → String → HandlerEnd → Progress → Result (Unit {0}) × Progress
settle item key returned_result p = (
  ok tt,
  note (outcome item NexoActionExecutionStatus.completed (some key))
      (action_completed item.identifier (length item.matched_rows) key ∷ []) p,
)
settle item key returned_other p = (
  err (handler_failed item.identifier "TypeError"),
  note (outcome item NexoActionExecutionStatus.failed (some key))
      (action_failed item.identifier (length item.matched_rows) key ∷ []) p,
)
settle item key (raised kind) p = (
  err (handler_failed item.identifier kind),
  note (outcome item NexoActionExecutionStatus.failed (some key))
      (action_failed item.identifier (length item.matched_rows) key ∷ []) p,
)
settle item key interruption p = (err Error.interrupted, p)

-- `execute` is what the handlers do, given the calls that were made before.
module _ (execute : List Invocation → Invocation → HandlerEnd) where
  abbrev pub start_invocation :
      PreparedAction → NexoActionContext → Invocation → Progress → Progress
  start_invocation item context call p = record p {
    invocations = p.invocations ++ (call ∷ []);
    events =
        p.events
        ++ (action_invocation_started item.identifier (length item.matched_rows)
              context.idempotency_key
            ∷ []);
  }

  unfoldable pub execute_item : PreparedAction → Progress → Result (Unit {0}) × Progress
  execute_item item p = elim item.invocation [
    | none ↦ (
      ok tt,
      note (outcome item NexoActionExecutionStatus.not_matched none)
          (action_not_matched item.identifier (length item.matched_rows) ∷ []) p,
    )
    | some (definition, context) ↦
        let call : Invocation = record {
          definition = definition;
          rows = item.matched_rows;
          context = context;
        } in
        settle item context.idempotency_key (execute p.invocations call)
          (start_invocation item context call p)
  ]

  unfoldable pub execute_prepared_actions :
      List PreparedAction → Progress → Result (Unit {0}) × Progress
  unfolding execute_item
  execute_prepared_actions [] p = (ok tt, p)
  execute_prepared_actions (item ∷ items) p =
      let done = execute_item item p in
      elim done.0 [ err e ↦ (err e, done.1) | ok u ↦ execute_prepared_actions items done.1 ]

  unfoldable pub execute_actions :
      Hashing → String → List NexoActionConfig → Rows → Progress → Result (Unit {0}) × Progress
  unfolding prepare_actions execute_prepared_actions
  execute_actions h pipeline_name actions rows p =
      elim (prepare_actions h pipeline_name actions rows) [
        | err e ↦ (err e, p)
        | ok items ↦ execute_prepared_actions items p
      ]
