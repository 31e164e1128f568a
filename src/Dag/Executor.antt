-- ===== src/Dag/Executor.antt =====
-- src/nexolith/dag/executor.py: `DagExecutor` and `execute_dag`.
pub mod Retries
pub mod Statuses
pub mod Effects
pub mod History
pub mod Loop
pub mod Rounds
pub mod Finished
use nexolith.Base.{
  ℕ, zero, suc, ◌-◌, String, List, [], ◌∷◌, Bool, true, false, not, ◌&&◌, Option, none, some, map,
  contains, is_some, ltb, ◌==◌, nat_eq, string_eq, if◌then◌else◌, concat, Result, ok, err, Error,
  configuration_error, execution_error, connector_error, transformation_error,
  process_identity_unavailable, value_error, overflow_error, integrity_error, key_error, unexpected,
  interrupted, out_of_fuel,
}
use nexolith.Types.{Decimal, times, power, is_positive, Parameters}
use nexolith.Dag.Models.{DagTaskConfig, DagConfig, OnFailure}
use nexolith.Dag.Order.{topological_order}
use nexolith.Dag.Dependents.{transitive_dependents}
use nexolith.Dag.Validator.{Files, resolve, load_dag}
use nexolith.State.Models.{DagRunStatus, DagRunRecord}
use nexolith.State.Store.{
  StateStore, register_dag, get_dag, start_dag_run, start_task_run, skip_task_run, block_task_run,
  complete_task_run, complete_dag_run, latest_dag_run,
}
use nexolith.State.Attempts.{start_task_attempt, complete_task_attempt, record_trigger_reaction}

-- What an attempt calls.
pub data Call : Type 0 where
  run_script : (path entrypoint : String) → Parameters → (interpreter : Option String) → Call
  run_pipeline : (path : String) → Parameters → Call

-- The store, the calls that were made and the delays that were slept, the newest first.
pub record World : Type 0 where
  pub store : StateStore
  pub calls : List Call
  pub sleeps : List Decimal

abbrev pub with_store : StateStore → World → World
with_store s w = record w { store = s }

-- How an attempt ends for the loop: `raised` is what no `except` clause catches.
pub data Ending : Type 0 where
  returned : Ending
  failed : String → Ending
  raised : Error → Ending

unfoldable pub unexpected_task_error : String → String
unexpected_task_error name = concat ("Unexpected task failure (" ∷ name ∷ ")." ∷ [])

unfoldable pub ending_of : Result (Unit {0}) → Ending
unfolding unexpected_task_error
ending_of (ok u) = returned
ending_of (err (configuration_error m)) = failed m
ending_of (err (execution_error m)) = failed m
ending_of (err (process_identity_unavailable m)) =
    failed (unexpected_task_error "ProcessIdentityUnavailable")
ending_of (err (connector_error m)) = failed (unexpected_task_error "ConnectorError")
ending_of (err (transformation_error m)) = failed (unexpected_task_error "TransformationError")
ending_of (err value_error) = failed (unexpected_task_error "ValueError")
ending_of (err overflow_error) = failed (unexpected_task_error "OverflowError")
ending_of (err integrity_error) = failed (unexpected_task_error "IntegrityError")
ending_of (err (key_error key)) = failed (unexpected_task_error "KeyError")
ending_of (err (unexpected name)) = failed (unexpected_task_error name)
ending_of (err interrupted) = raised interrupted
ending_of (err out_of_fuel) = raised out_of_fuel

-- The delay before the attempt of the given number; the first has none.
unfoldable pub retry_delay : DagTaskConfig → ℕ → Decimal
unfolding times power
retry_delay task number =
    times task.retry_delay_seconds (power task.retry_backoff_multiplier (number - 2))

unfoldable pub wait_before : DagTaskConfig → ℕ → World → World
unfolding retry_delay is_positive
wait_before task number w =
    if ltb 1 number && is_positive (retry_delay task number)
    then record w { sleeps = retry_delay task number ∷ w.sleeps }
    else w

-- How far the tasks of a run have come.
pub record Progress : Type 0 where
  pub failed_tasks : List String
  pub dag_failed : Bool
  pub first_error : Option String
  pub blocked : Bool

abbrev pub no_progress : Progress
no_progress = record { failed_tasks = []; dag_failed = false; first_error = none; blocked = false }

abbrev pub blocks : OnFailure → Bool
blocks OnFailure.skip = false
blocks OnFailure.block = true

-- An f-string's text of an optional text.
abbrev text_of : Option String → String
text_of none = "None"
text_of (some m) = m

abbrev pub task_failure : DagTaskConfig → Option String → String
task_failure task error = concat ("Task '" ∷ task.name ∷ "' failed: " ∷ text_of error ∷ [])

-- The bookkeeping after a task.
unfoldable pub note_result : OnFailure → DagTaskConfig → Bool → Option String → Progress → Progress
note_result policy task success error p = if success then p else record {
  failed_tasks = task.name ∷ p.failed_tasks;
  dag_failed = true;
  first_error = if is_some p.first_error then p.first_error else some (task_failure task error);
  blocked = if blocks policy then true else p.blocked;
}

-- `_record_cross_dag_reactions`.
abbrev pub succeeded_run : Option DagRunRecord → Option ℕ
succeeded_run none = none
succeeded_run (some r) = elim r.status [ DagRunStatus.succeeded ↦ some r.id | _ ↦ none ]

unfoldable pub record_reactions : String → List String → StateStore → StateStore
unfolding latest_dag_run record_trigger_reaction
record_reactions name [] s = s
record_reactions name (upstream ∷ upstreams) s = elim (succeeded_run (latest_dag_run upstream s)) [
  | none ↦ record_reactions name upstreams s
  | some id ↦ record_reactions name upstreams (record_trigger_reaction name upstream id s)
]

unfoldable pub record_cross_dag_reactions : DagConfig → StateStore → StateStore
unfolding record_reactions
record_cross_dag_reactions dag s = elim dag.trigger [
  | none ↦ s
  | some upstreams ↦ record_reactions dag.name upstreams s
]

-- A call's result depends on the calls that were made before it.
module _ (files : Files) (perform : List Call → Call → Result (Unit {0})) where
  unfoldable pub attempts :
      ℕ
      → DagTaskConfig
      → Call
      → (left number : ℕ) → Option String
      → World
      → Result (Bool × Option String) × World
  unfolding wait_before start_task_attempt complete_task_attempt ending_of
  attempts run_id task call zero number last_error w = (ok (false, last_error), w)
  attempts run_id task call (suc left) number last_error w =
      let waited = wait_before task number w in
      let started = start_task_attempt run_id task.name number waited.store in
      elim started.0 [
        | err e ↦ (err e, with_store started.1 waited)
        | ok attempt_id ↦
            let called = record waited { store = started.1; calls = call ∷ waited.calls } in
            elim (ending_of (perform waited.calls call)) [
              | returned ↦ (
                ok (true, none),
                with_store (complete_task_attempt attempt_id true none started.1) called,
              )
              | raised e ↦ (err e, called)
              | failed m ↦
                  attempts run_id task call left (suc number) (some m)
                    (with_store (complete_task_attempt attempt_id false (some m) started.1) called)
            ]
      ]

  unfoldable pub run_with_retries :
      ℕ → DagTaskConfig → Call → World → Result (Bool × Option String) × World
  unfolding attempts
  run_with_retries run_id task call w = attempts run_id task call (suc task.retries) 1 none w

  -- The `assert` of `_resolve_pipeline_path` fails for a task that names neither.
  unfoldable pub call_of : String → DagTaskConfig → Result Call
  unfolding resolve
  call_of base_dir task = elim task.script [
    | some script ↦ ok (
        run_script (resolve files base_dir script) task.entrypoint task.parameters task.interpreter)
    | none ↦ elim task.pipeline [
      | some pipeline ↦ ok (run_pipeline (resolve files base_dir pipeline) task.parameters)
      | none ↦ err (unexpected "AssertionError")
    ]
  ]

  -- A task that is neither blocked nor skipped.
  unfoldable pub attempt_task :
      DagConfig → String → ℕ → DagTaskConfig → Progress → World → Result Progress × World
  unfolding run_with_retries call_of start_task_run complete_task_run note_result
  attempt_task dag base_dir run_id task p w =
      let started = with_store (start_task_run run_id task.name w.store) w in
      elim (call_of base_dir task) [
        | err e ↦ (err e, started)
        | ok call ↦
            let done = run_with_retries run_id task call started in
            elim done.0 [
              | err e ↦ (err e, done.1)
              | ok result ↦ (
                ok (note_result dag.on_failure task result.0 result.1 p),
                with_store (complete_task_run run_id task.name result.0 result.1 done.1.store)
                    done.1,
              )
            ]
      ]

  -- One round of the `for` loop.
  unfoldable pub run_task :
      DagConfig → String → ℕ → DagTaskConfig → Progress → World → Result Progress × World
  unfolding attempt_task transitive_dependents skip_task_run block_task_run
  run_task dag base_dir run_id task p w =
      if p.blocked
      then (ok p, with_store (block_task_run run_id task.name w.store) w)
      else elim (transitive_dependents dag.tasks p.failed_tasks) [
        | err e ↦ (err e, w)
        | ok skip ↦
            if contains skip task.name
            then (ok p, with_store (skip_task_run run_id task.name w.store) w)
            else attempt_task dag base_dir run_id task p w
      ]

  unfoldable pub run_tasks :
      DagConfig → String → ℕ → List DagTaskConfig → Progress → World → Result Progress × World
  unfolding run_task
  run_tasks dag base_dir run_id [] p w = (ok p, w)
  run_tasks dag base_dir run_id (task ∷ tasks) p w =
      let done = run_task dag base_dir run_id task p w in
      elim done.0 [ err e ↦ (err e, done.1) | ok q ↦ run_tasks dag base_dir run_id tasks q done.1 ]

  -- A name that has no row yet is registered, with the schedule of its file.
  unfoldable pub registered : DagConfig → String → StateStore → StateStore
  unfolding get_dag register_dag
  registered dag path s =
      if is_some (get_dag dag.name s) then s else register_dag dag.name path dag.schedule true s

  -- What follows the loop.
  unfoldable pub close_run : DagConfig → ℕ → Progress → StateStore → StateStore
  unfolding complete_dag_run record_cross_dag_reactions
  close_run dag run_id p s =
      record_cross_dag_reactions dag (complete_dag_run run_id (not p.dag_failed) p.first_error s)

  unfoldable pub run_ordered :
      DagConfig → String → String → List DagTaskConfig → World → Result ℕ × World
  unfolding run_tasks close_run start_dag_run
  run_ordered dag path trigger_reason ordered w =
      let begun =
        start_dag_run dag.name (map (λ t. t.name) ordered) trigger_reason dag.on_failure
          dag.severity w.store in
      elim begun.0 [
        | err e ↦ (err e, with_store begun.1 w)
        | ok run_id ↦
            let done =
              run_tasks dag (files.parent path) run_id ordered no_progress (with_store begun.1 w) in
            elim done.0 [
              | err e ↦ (err e, done.1)
              | ok p ↦ (ok run_id, with_store (close_run dag run_id p done.1.store) done.1)
            ]
      ]

  unfoldable pub run : DagConfig → String → String → World → Result ℕ × World
  unfolding registered run_ordered topological_order
  run dag path trigger_reason w =
      let known = with_store (registered dag path w.store) w in
      elim (topological_order dag.tasks) [
        | err e ↦ (err e, known)
        | ok ordered ↦ run_ordered dag path trigger_reason ordered known
      ]

  abbrev is_other_name : DagConfig → Option String → Bool
  is_other_name dag none = false
  is_other_name dag (some name) = not (dag.name == name)

  unfoldable pub execute_dag : String → String → Option String → World → Result ℕ × World
  unfolding run load_dag
  execute_dag path trigger_reason expected_name w = elim (load_dag files path) [
    | err e ↦ (err e, w)
    | ok dag ↦
        if is_other_name dag expected_name
        then (
          err (configuration_error "The registered DAG source declares a different DAG name."),
          w,
        )
        else run dag path trigger_reason w
  ]
