-- ===== src/Samples/Stores.antt =====
-- A history of the store, and databases of old schema versions.
use nexolith.Base.{
  ℕ, ◌≡◌, refl, true, none, some, List, [], ◌∷◌, Result, ok, string_eq, nat_eq, ◌>>=◌,
}
use nexolith.ProcessIdentity.{ProcessIdentity}
use nexolith.State.Schema.Contents.{
  Contents, RunRow, TaskRow, database, version1, version7, upgraded,
}
use nexolith.State.Schema.Migrations.{ensure_schema, allow_skipped}
use nexolith.State.WellFormed.{IsWellFormed}
use nexolith.State.Calls.{StoreCall, after_calls, empty_store, after_call}
use nexolith.State.Schema.Crashes.{crash_behind, crash_behind-ensure_schema}
use nexolith.State.WellFormed.Runs.{Started, start_dag_run-Started}
use nexolith.State.Store.{
  StateStore, start_dag_run, register_dag, start_task_run, complete_task_run, get_dag_run,
}
use nexolith.State.Keys.{keys_of}
use nexolith.State.WellFormed.Histories.{after_calls-IsWellFormed, empty_store-IsWellFormed}
use nexolith.State.Schema.Upgraded.{ensure_schema-database}
use nexolith.State.Attempts.{record_trigger_reaction, start_task_attempt, complete_task_attempt}
use nexolith.Dag.Models.{OnFailure, Severity}
use nexolith.State.Schema.{Cell}
use nexolith.State.Models.{DagRunRecord, DagRunStatus}
use nexolith.State.Reconcile.{interrupt_abandoned_dag_runs}
use nexolith.Samples.{gone}
use nexolith.State.WellFormed.Recovery.{interrupt_abandoned_dag_runs-after_calls}

abbrev owner : Result ProcessIdentity
owner = ok (record { pid = 8; create_time_ns = 80 })

abbrev new_store : StateStore
new_store = empty_store (λ reading. reading) owner

abbrev register_etl : StoreCall
register_etl = StoreCall.register "etl" "dags/etl.yaml" none true

abbrev start_etl : StoreCall
start_etl = StoreCall.start_run "etl" ("extract" ∷ "load" ∷ []) "manual" OnFailure.skip Severity.low

-- The second registration updates, and the second run gets the next id.
abbrev history : List StoreCall
history =
    register_etl
    ∷ start_etl
    ∷ StoreCall.start_task 1 "extract"
    ∷ StoreCall.start_attempt 1 "extract" 1
    ∷ StoreCall.complete_attempt 1 true none
    ∷ StoreCall.complete_task 1 "extract" true none
    ∷ StoreCall.react "report" "etl" 1
    ∷ register_etl
    ∷ start_etl
    ∷ []

ids_given : (keys_of (after_calls history new_store)).runs ≡ 2 ∷ 1 ∷ []
unfolding after_calls empty_store after_call register_dag start_dag_run start_task_run
    start_task_attempt complete_task_attempt complete_task_run record_trigger_reaction
ids_given = refl

after_calls-IsWellFormed_example : IsWellFormed (keys_of (after_calls history new_store))
after_calls-IsWellFormed_example =
    after_calls-IsWellFormed history new_store (empty_store-IsWellFormed (λ reading. reading) owner)

abbrev registered_store : StateStore
registered_store = after_calls (register_etl ∷ []) new_store

abbrev started : Result ℕ × StateStore
started = start_dag_run "etl" ("load" ∷ []) "manual" OnFailure.skip Severity.low registered_store

id_given : started.0 ≡ ok 1
unfolding after_calls empty_store after_call register_dag start_dag_run
id_given = refl

start_dag_run-Started_example : Started "etl" 1 registered_store started.1
start_dag_run-Started_example =
    start_dag_run-Started "etl" ("load" ∷ []) "manual" OnFailure.skip Severity.low registered_store
      1
      (after_calls-IsWellFormed (register_etl ∷ []) new_store
        (empty_store-IsWellFormed (λ reading. reading) owner))
      id_given

-- The process that started the run is gone.
abbrev etl_run : DagRunRecord
etl_run = record {
  id = 1;
  dag_name = "etl";
  status = DagRunStatus.running;
  trigger_reason = "manual";
  started_at = 1;
  ended_at = none;
  error = none;
  on_failure = OnFailure.skip;
  severity = Severity.low;
  owner_pid = some 8;
  owner_create_time_ns = some 80;
}

etl_running : get_dag_run 1 (after_calls (register_etl ∷ start_etl ∷ []) new_store) ≡ some etl_run
unfolding get_dag_run after_calls empty_store after_call register_dag start_dag_run
etl_running = refl

interrupt_abandoned_dag_runs-after_calls_example :
    get_dag_run 1
      (interrupt_abandoned_dag_runs gone (after_calls (register_etl ∷ start_etl ∷ []) new_store)).1
    ≡ some (record etl_run { status = DagRunStatus.interrupted; ended_at = some 2 })
unfolding nexolith.State.Reconcile.judge_owner after_calls empty_store after_call register_dag
    start_dag_run
interrupt_abandoned_dag_runs-after_calls_example =
    interrupt_abandoned_dag_runs-after_calls gone (register_etl ∷ start_etl ∷ []) new_store 1
      etl_run (empty_store-IsWellFormed (λ reading. reading) owner) etl_running

abbrev old_run : RunRow
old_run = record {
  id = Cell.number 1;
  dag_name = Cell.text "etl";
  status = "succeeded";
  trigger_reason = Cell.text "manual";
  started_at = Cell.text "monday";
  ended_at = Cell.text "tuesday";
  error = Cell.null;
  on_failure = Cell.null;
  severity = Cell.null;
  owner_pid = Cell.null;
  owner_create_time_ns = Cell.null;
}

abbrev old_task : TaskRow
old_task = record {
  dag_run_id = Cell.number 1;
  task_name = Cell.text "load";
  status = "failed";
  started_at = Cell.null;
  ended_at = Cell.null;
  error = Cell.text "disk full";
}

abbrev old_contents : Contents
old_contents = record {
  dags = (("name", Cell.text "etl") ∷ []) ∷ [];
  runs = old_run ∷ [];
  tasks = old_task ∷ [];
  attempts = [];
  reactions = [];
}

ensure_schema-database_example :
    ensure_schema (database version1 old_contents)
    ≡ ok (database version7 (upgraded version1 old_contents))
ensure_schema-database_example =
    ensure_schema-database version1 old_contents ((refl, tt), (refl, tt))

-- A crash behind the copy, which is harmless.
crash_behind-ensure_schema_example :
    (crash_behind 3 allow_skipped (database version1 old_contents) >>= ensure_schema)
    ≡ ok (database version7 (upgraded version1 old_contents))
crash_behind-ensure_schema_example =
    crash_behind-ensure_schema 3 old_contents ((refl, tt), (refl, tt))
