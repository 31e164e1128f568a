-- ===== src/Runner.antt =====
-- src/nexolith/execution/runner.py, with the events of src/nexolith/events.py and the result of
-- src/nexolith/models/execution.py. Its times are not modelled, nor is a sink that raises.
pub mod Told
pub mod Written
use nexolith.Base.{
  ℕ, String, List, [], ◌∷◌, ◌++◌, Bool, true, false, Option, none, some, if◌then◌else◌, map, concat,
  length, Result, ok, err, ◌>>=◌, Error,
}
use nexolith.Types.{Rows}
use nexolith.Nexoactions.Contracts.{NexoActionExecutionResult}
use nexolith.Nexoactions.Conditions.{Hashing}
use nexolith.Nexoactions.Execution.{
  NexoActionConfig, PreparedAction, prepare_actions, Invocation, HandlerEnd, ActionEvent,
  execute_prepared_actions,
}

pub data PipelinePhase : Type 0 where
  loading extraction transformation writing actions : PipelinePhase

pub data FailureCategory : Type 0 where
  configuration connector transformation execution unexpected : FailureCategory

pub data ApplicationEvent : Type 0 where
  pipeline_execution_started : String → ApplicationEvent
  extraction_started : String → String → ApplicationEvent
  extraction_completed transformations_started transformations_completed write_completed :
      String → ℕ → ApplicationEvent
  write_started : String → String → ℕ → ApplicationEvent
  of_action : ActionEvent → ApplicationEvent
  pipeline_execution_completed : String → ℕ → ℕ → ApplicationEvent
  pipeline_failed : String → PipelinePhase → FailureCategory → ApplicationEvent

pub data ExecutionStatus : Type 0 where
  pending running succeeded failed : ExecutionStatus

pub record ExecutionResult : Type 0 where
  pub pipeline_name : String
  pub status : ExecutionStatus
  pub rows_read : ℕ
  pub rows_written : ℕ
  pub error : Option String
  pub actions : List NexoActionExecutionResult

-- What the runner reads of a pipeline's configuration.
pub record PipelineConfig : Type 0 where
  pub name : String
  pub source_type : String
  pub destination_type : String
  pub actions : List NexoActionConfig

-- A run under way: its result and phase, the events sent, the rows handed to the destination and
-- the handlers called.
pub record Running : Type 0 where
  pub result : ExecutionResult
  pub phase : PipelinePhase
  pub events : List ApplicationEvent
  pub writes : List Rows
  pub invocations : List Invocation

abbrev pub emit : ApplicationEvent → Running → Running
emit e r = record r { events = r.events ++ (e ∷ []) }

abbrev pub enter : PipelinePhase → Running → Running
enter phase r = record r { phase = phase }

-- A stage that raised ends the run.
abbrev pub proceed {ℓ} :
    {A : Type ℓ}
    → Result A × Running
    → (A → Running → Result (Unit {0}) × Running)
    → Result (Unit {0}) × Running
proceed (err e, r) next = (err e, r)
proceed (ok a, r) next = next a r

abbrev pub with_rows_read : ℕ → Running → Running
with_rows_read n r = record r { result = record r.result { rows_read = n } }

abbrev pub with_rows_written : ℕ → Running → Running
with_rows_written n r = record r { result = record r.result { rows_written = n } }

-- `_failure_category`.
abbrev pub failure_category : Error → FailureCategory
failure_category (Error.connector_error m) = FailureCategory.connector
failure_category (Error.transformation_error m) = FailureCategory.transformation
failure_category e = FailureCategory.execution

-- The text of a `NexolithError`; other exceptions have none here.
abbrev pub nexolith_message : Error → Option String
nexolith_message (Error.configuration_error m) = some m
nexolith_message (Error.connector_error m) = some m
nexolith_message (Error.transformation_error m) = some m
nexolith_message (Error.execution_error m) = some m
nexolith_message e = none

abbrev pub is_interruption : Error → Bool
is_interruption Error.interrupted = true
is_interruption e = false

abbrev pub pipeline_error : String → String → String
pipeline_error name m = concat ("Pipeline '" ∷ name ∷ "' failed: " ∷ m ∷ [])

abbrev pub failed_with : String → Running → ExecutionResult
failed_with m r = record r.result { status = ExecutionStatus.failed; error = some m }

-- The transformations in their order: each one is created, and applied to the rows.
unfoldable pub apply_all : List (Rows → Result Rows) → Rows → Result Rows
apply_all [] rows = ok rows
apply_all (t ∷ ts) rows = t rows >>= λ out. apply_all ts out

-- The source, the transformations, the destination and the handlers of the actions.
pub record Components : Type 0 where
  pub read : Result Rows
  pub transformations : List (Rows → Result Rows)
  pub write : Rows → Result ℕ
  pub execute : List Invocation → Invocation → HandlerEnd
  pub hashing : Hashing

module _ (config : PipelineConfig) (c : Components) where
  unfoldable pub extract : Running → Result Rows × Running
  extract r = elim c.read [
    | err e ↦ (err e, emit (extraction_started config.name config.source_type) r)
    | ok rows ↦ (
      ok rows,
      emit (extraction_completed config.name (length rows)) (
          with_rows_read (length rows)
            (emit (extraction_started config.name config.source_type) r)),
    )
  ]

  unfoldable pub transform : Rows → Running → Result Rows × Running
  unfolding apply_all
  transform rows r =
      let begun =
        emit (transformations_started config.name (length c.transformations))
          (enter PipelinePhase.transformation r) in
      elim (apply_all c.transformations rows) [
        | err e ↦ (err e, begun)
        | ok out ↦ (ok out, emit (transformations_completed config.name (length out)) begun)
      ]

  unfoldable pub prepare : Rows → Running → Result (List PreparedAction) × Running
  unfolding prepare_actions
  prepare rows r =
      (prepare_actions c.hashing config.name config.actions rows, enter PipelinePhase.actions r)

  unfoldable pub write_rows : Rows → Running → Result (Unit {0}) × Running
  write_rows rows r =
      let begun =
        emit (write_started config.name config.destination_type (length rows))
          (enter PipelinePhase.writing r) in
      let handed = record begun { writes = begun.writes ++ (rows ∷ []) } in
      elim (c.write rows) [
        | err e ↦ (err e, handed)
        | ok n ↦ (ok tt, with_rows_written n (emit (write_completed config.name n) handed))
      ]

  -- The outcomes go to the result as they are made, the events to the sink.
  unfoldable pub act : List PreparedAction → Running → Result (Unit {0}) × Running
  unfolding execute_prepared_actions
  act items r =
      let done =
        execute_prepared_actions c.execute items
          (record { invocations = r.invocations; outcomes = r.result.actions; events = [] }) in
      (
        done.0,
        record r {
          phase = PipelinePhase.actions;
          result = record r.result { actions = done.1.outcomes };
          events = r.events ++ map of_action done.1.events;
          invocations = done.1.invocations;
        },
      )

  -- The body of the `try`, up to the success of the result.
  unfoldable pub body : Running → Result (Unit {0}) × Running
  unfolding extract transform prepare write_rows act
  body r = proceed (extract r) (λ rows r₁. proceed (transform rows r₁) (λ out r₂.
      proceed (prepare out r₂) (λ items r₃. proceed (write_rows out r₃) (λ u r₄. act items r₄))))

  abbrev pub failing : FailureCategory → Running → Running
  failing category r = emit (pipeline_failed config.name r.phase category) r

  unfoldable pub conclude :
      (raise_on_error : Bool) → Result (Unit {0}) × Running → Result ExecutionResult × Running
  conclude raise_on_error (ok u, r) =
      let result = record r.result { status = ExecutionStatus.succeeded } in
      (
        ok result,
        emit (pipeline_execution_completed config.name result.rows_read result.rows_written)
            (record r { result = result }),
      )
  conclude raise_on_error (err e, r) = elim (nexolith_message e) [
    | some m ↦
        let message = pipeline_error config.name m in
        let result = failed_with message r in
        (
          if raise_on_error then err (Error.execution_error message) else ok result,
          failing (failure_category e) (record r { result = result }),
        )
    | none ↦ if is_interruption e then (err e, r) else (err e, failing FailureCategory.unexpected r)
  ]

  abbrev pub begun_run : Running
  begun_run = record {
    result = record {
      pipeline_name = config.name;
      status = ExecutionStatus.running;
      rows_read = 0;
      rows_written = 0;
      error = none;
      actions = [];
    };
    phase = PipelinePhase.extraction;
    events = pipeline_execution_started config.name ∷ [];
    writes = [];
    invocations = [];
  }

  unfoldable pub run_pipeline_config : (raise_on_error : Bool) → Result ExecutionResult × Running
  unfolding body conclude
  run_pipeline_config raise_on_error = conclude raise_on_error (body begun_run)
