-- ===== src/Samples.antt =====
-- A small DAG, its files and a store, on which the modelled code is run.
mod Scheduling
mod Pipelines
mod Stores
mod Projects
use nexolith.Base.{
  ℕ, ◌-◌, String, List, [], ◌∷◌, true, false, ◌&&◌, Option, none, some, leb, ◌==◌, nat_eq, ◌≡◌, ◌↔◌,
  refl, if◌then◌else◌, concat, length, contains, Nodup, In, Result, ok, err, configuration_error,
  overflow_error, string_eq,
}
use nexolith.Types.{decimal}
use nexolith.Dag.Models.{
  DagTaskConfig, DagConfig, OnFailure, Priority, Severity, validate_document, names,
}
use nexolith.Dag.Models.Valid.{IsValidDag, validate_document_iff}
use nexolith.Dag.Order.{topological_order}
use nexolith.Dag.Order.Reference.{greedy, topological_order-eq-greedy}
use nexolith.Dag.Order.Sound.{IsOrdered, topological_order_sound}
use nexolith.Dag.Order.Complete.{IsKnown}
use nexolith.Dag.Cycles.{detect_cycle}
use nexolith.Dag.Cycles.Verdict.{Verdict, detect_cycle-Verdict}
use nexolith.Dag.Validator.{Files, mapping, load_dag}
use nexolith.Dag.Validator.Loaded.{IsLoadable}
use nexolith.Dag.Validator.Accepted.{load_dag_iff, load_dag-topological_order}
use nexolith.Dag.Dependents.{transitive_dependents}
use nexolith.Dag.Dependents.Affected.{Affected}
use nexolith.Dag.Dependents.Found.{transitive_dependents_iff}
use nexolith.Dag.Executor.{Call, World, run_with_retries, run}
use nexolith.Dag.Executor.Finished.{Settled, run-Settled}
use nexolith.Scheduler.Interval.{Unicode, parse_interval}
use nexolith.Scheduler.Interval.Laws.{IsInterval, stripped, parse_interval_iff}
use nexolith.ProcessIdentity.{
  ProcessIdentityProvider, ProcessTerminationStatus, created_at, done,
  terminate_process_identity_linux, not_found,
}
use nexolith.State.Models.{DagRunStatus, DagRunRecord}
use nexolith.State.Store.{StateStore, get_dag_run, pending_task}
use nexolith.State.Attempts.{get_last_reacted_upstream_run_id, record_trigger_reaction}
use nexolith.Dag.Registration.{register_dag_file}
use nexolith.Dag.Registration.Enabled.{Registers, register_dag_file-Registers}
use nexolith.State.Reconcile.{owner_of, abandoned}
use nexolith.State.Reconcile.FailClosed.{IsGone, owner_of-abandoned_iff}

abbrev task : String → Option String → Option String → List String → ℕ → DagTaskConfig
task name pipeline script depends_on retries = record {
  name = name;
  pipeline = pipeline;
  script = script;
  entrypoint = "run";
  interpreter = none;
  depends_on = depends_on;
  parameters = [];
  retries = retries;
  retry_delay_seconds = decimal 5 1;
  retry_backoff_multiplier = decimal 2 0;
}

abbrev extract : DagTaskConfig
extract = task "extract" none (some "extract.py") [] 0

abbrev load : DagTaskConfig
load = task "load" (some "load.yaml") none ("extract" ∷ []) 1

-- The file names a task before its dependency.
abbrev tasks : List DagTaskConfig
tasks = load ∷ extract ∷ []

abbrev pub etl : DagConfig
etl = record {
  name = "etl";
  tasks = tasks;
  on_failure = OnFailure.skip;
  schedule = some "5m";
  trigger = none;
  priority = Priority.normal;
  severity = Severity.low;
}

abbrev ascii : Unicode
ascii = record {
  decimal = λ c. if leb 48 c && leb c 57 then some (c - 48) else none;
  is_space = λ c. c == 32;
}

abbrev pub files : Files
files = record {
  is_file = λ path. true;
  document = λ path. mapping etl;
  is_absolute = λ path. false;
  child = λ base_dir path. concat (base_dir ∷ "/" ∷ path ∷ []);
  parent = λ path. "dags";
  message = λ kind. "invalid";
  unicode = ascii;
  load_pipeline = λ path parameters. ok tt;
}

distinct : Nodup (names tasks)
distinct = (refl, (refl, tt))

known : IsKnown tasks
known = (refl, (refl, tt))

ordered : topological_order tasks ≡ ok (extract ∷ load ∷ [])
unfolding topological_order nexolith.Dag.Order.rounds nexolith.Dag.Order.index_tasks
    nexolith.Dag.Order.put nexolith.Dag.Order.earliest
ordered = refl

loaded : load_dag files "dags/etl.yaml" ≡ ok etl
unfolding nexolith.Dag.Models.require_pipeline_or_script nexolith.Dag.Models.task_field_faults
    nexolith.Dag.Models.task_faults nexolith.Dag.Models.duplicates
    nexolith.Dag.Models.unknown_dependencies nexolith.Dag.Models.dependency_fault
    nexolith.Dag.Models.first_dependency_fault nexolith.Dag.Models.trigger_fault
    nexolith.Dag.Models.validate_task_graph_shape nexolith.Dag.Models.tasks_faults
    nexolith.Dag.Models.dag_field_faults nexolith.Dag.Models.validate_document
    nexolith.Dag.Cycles.mark_of nexolith.Dag.Cycles.by_name nexolith.Dag.Cycles.path_from
    nexolith.Dag.Cycles.visit_deps nexolith.Dag.Cycles.visit nexolith.Dag.Cycles.scan
    nexolith.Dag.Cycles.detect_cycle nexolith.Dag.Validator.validate_structure
    nexolith.Dag.Validator.relabel nexolith.Dag.Validator.validate_schedule
    nexolith.Dag.Validator.yaml_error nexolith.Dag.Validator.parse_document
    nexolith.Dag.Validator.read_dag_config nexolith.Dag.Validator.report_cycle
    nexolith.Dag.Validator.check_for_cycles nexolith.Dag.Validator.resolve
    nexolith.Dag.Validator.validate_referenced_script nexolith.Dag.Validator.validate_pipeline
    nexolith.Dag.Validator.validate_reference nexolith.Dag.Validator.validate_referenced_pipelines
    nexolith.Dag.Validator.load_dag nexolith.Scheduler.Interval.lstrip
    nexolith.Scheduler.Interval.rstrip nexolith.Scheduler.Interval.match_unit
    nexolith.Scheduler.Interval.match_interval nexolith.Scheduler.Interval.to_timedelta
    nexolith.Scheduler.Interval.parse_interval nexolith.Base.Sort.insert_by
    nexolith.Base.Sort.sort_by nexolith.Types.times nexolith.Types.power nexolith.Types.is_positive
    nexolith.Types.at_least_zero nexolith.Types.at_least_one
loaded = refl

-- The first call fails, the next ones return.
abbrev pub flaky : List Call → Call → Result (Unit {0})
flaky [] call = err (configuration_error "no such file")
flaky (c ∷ calls) call = ok tt

abbrev lost_run : DagRunRecord
lost_run = record {
  id = 1;
  dag_name = "etl";
  status = DagRunStatus.running;
  trigger_reason = "manual";
  started_at = 10;
  ended_at = none;
  error = none;
  on_failure = OnFailure.skip;
  severity = Severity.low;
  owner_pid = some 7;
  owner_create_time_ns = some 70;
}

abbrev pub store : StateStore
store = record {
  dags = [];
  dag_runs = lost_run ∷ [];
  task_runs = pending_task 1 "load" ∷ [];
  task_attempts = [];
  reactions = [];
  last_run_id = 1;
  last_attempt_id = 0;
  clock = λ reading. reading;
  readings = 20;
  process_identity = ok (record { pid = 8; create_time_ns = 80 });
}

abbrev pub world : World
world = record { store = store; calls = []; sleeps = [] }

abbrev pub gone : ProcessIdentityProvider
gone pid = some not_found

kill_sent :
    terminate_process_identity_linux true done
      (λ pid. created_at 70)
      done
      (record { pid = 7; create_time_ns = 70 })
    ≡ ProcessTerminationStatus.sent
unfolding terminate_process_identity_linux
kill_sent = refl

-- Both tasks run, the second one twice.
finished_run : (run files flaky etl "dags/etl.yaml" "manual" world).0 ≡ ok 2
unfolding nexolith.Dag.Executor.unexpected_task_error nexolith.Dag.Executor.ending_of
    nexolith.Dag.Executor.retry_delay nexolith.Dag.Executor.wait_before
    nexolith.Dag.Executor.note_result nexolith.Dag.Executor.record_reactions
    nexolith.Dag.Executor.record_cross_dag_reactions nexolith.Dag.Executor.attempts
    nexolith.Dag.Executor.run_with_retries nexolith.Dag.Executor.call_of
    nexolith.Dag.Executor.attempt_task nexolith.Dag.Executor.run_task
    nexolith.Dag.Executor.run_tasks nexolith.Dag.Executor.registered nexolith.Dag.Executor.close_run
    nexolith.Dag.Executor.run_ordered nexolith.Dag.Executor.run nexolith.Dag.Executor.execute_dag
    nexolith.Dag.Order.put nexolith.Dag.Order.index_tasks nexolith.Dag.Order.earliest
    nexolith.Dag.Order.cycle_among nexolith.Dag.Order.rounds nexolith.Dag.Order.topological_order
    nexolith.Dag.Dependents.dependents nexolith.Dag.Dependents.spread nexolith.Dag.Dependents.search
    nexolith.Dag.Dependents.transitive_dependents nexolith.State.Store.register_dag
    nexolith.State.Store.set_dag_enabled nexolith.State.Store.get_dag nexolith.State.Store.list_dags
    nexolith.State.Store.start_dag_run_as nexolith.State.Store.start_dag_run
    nexolith.State.Store.start_task_run nexolith.State.Store.skip_task_run
    nexolith.State.Store.block_task_run nexolith.State.Store.complete_task_run
    nexolith.State.Store.complete_dag_run nexolith.State.Store.list_incomplete_dag_runs
    nexolith.State.Store.get_dag_run nexolith.State.Store.list_dag_runs
    nexolith.State.Store.list_recent_dag_runs nexolith.State.Store.latest_dag_run
    nexolith.State.Store.list_task_runs nexolith.State.Attempts.start_task_attempt
    nexolith.State.Attempts.complete_task_attempt nexolith.State.Attempts.list_task_attempts
    nexolith.State.Attempts.list_run_attempts
    nexolith.State.Attempts.get_last_reacted_upstream_run_id
    nexolith.State.Attempts.record_trigger_reaction nexolith.Types.times nexolith.Types.power
    nexolith.Types.is_positive nexolith.Types.at_least_zero nexolith.Types.at_least_one
    nexolith.Base.Sort.insert_by nexolith.Base.Sort.sort_by nexolith.Dag.Validator.resolve
finished_run = refl

-- The witnesses.

run-Settled_example : Settled etl 2 (run files flaky etl "dags/etl.yaml" "manual" world).1.store
run-Settled_example =
    run-Settled files flaky etl distinct known "dags/etl.yaml" "manual" world 2 finished_run

load_dag_iff_example :
    (load_dag files "dags/etl.yaml" ≡ ok etl) ↔ IsLoadable files "dags/etl.yaml" etl
load_dag_iff_example = load_dag_iff files "dags/etl.yaml" etl

load_dag-topological_order_example :
    (plan : List DagTaskConfig) × (topological_order etl.tasks ≡ ok plan)
load_dag-topological_order_example = load_dag-topological_order files "dags/etl.yaml" etl loaded

topological_order_sound_example :
    IsOrdered [] (extract ∷ load ∷ [])
    × Nodup (names (extract ∷ load ∷ []))
    × ((t : DagTaskConfig) → In t (extract ∷ load ∷ []) ↔ In t tasks)
topological_order_sound_example =
    topological_order_sound tasks (extract ∷ load ∷ []) distinct ordered

topological_order-eq-greedy_example : topological_order tasks ≡ greedy (length tasks) tasks [] []
topological_order-eq-greedy_example = topological_order-eq-greedy tasks distinct

detect_cycle-Verdict_example : Verdict tasks (detect_cycle tasks)
detect_cycle-Verdict_example = detect_cycle-Verdict tasks distinct known

validate_document_iff_example : (validate_document etl ≡ []) ↔ IsValidDag etl
validate_document_iff_example = validate_document_iff etl

transitive_dependents_iff_example :
    (skip : List String) × (transitive_dependents tasks ("extract" ∷ []) ≡ ok skip)
    × ((n : String)
        → (contains skip n ≡ true)
          ↔ (Affected tasks ("extract" ∷ []) n × (contains ("extract" ∷ []) n ≡ false)))
transitive_dependents_iff_example = transitive_dependents_iff tasks ("extract" ∷ []) known

parse_interval_iff_example :
    (parse_interval ascii " 5m" ≡ ok 300) ↔ IsInterval ascii (stripped ascii " 5m") 300
parse_interval_iff_example = parse_interval_iff ascii " 5m" 300

-- The last second of the largest `timedelta`, and the next one.
longest_interval : parse_interval ascii "86399999999999s" ≡ ok 86399999999999
unfolding parse_interval nexolith.Scheduler.Interval.match_unit
longest_interval = refl

too_long_interval : parse_interval ascii "1000000000d" ≡ err overflow_error
unfolding parse_interval nexolith.Scheduler.Interval.match_unit
too_long_interval = refl

owner_of-abandoned_iff_example : (owner_of gone lost_run ≡ abandoned) ↔ IsGone gone lost_run
owner_of-abandoned_iff_example = owner_of-abandoned_iff gone lost_run

register_dag_file-Registers_example :
    Registers etl true (register_dag_file files "dags/etl.yaml" true store)
unfolding nexolith.State.Store.get_dag
register_dag_file-Registers_example =
    register_dag_file-Registers files "dags/etl.yaml" true store etl loaded
