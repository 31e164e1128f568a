-- ===== src/State/Store.antt =====
-- src/nexolith/state/store.py: each table is a list of rows, each method a function of the store.
-- An SQL statement is the list operation that it denotes, its constraints included.
use nexolith.Base.{
  ℕ, suc, String, List, ◌∷◌, ◌++◌, Bool, true, false, ◌&&◌, Option, none, some, map, filter, any,
  find, head?, update_where, take, leb, ◌==◌, nat_eq, string_eq, if◌then◌else◌, text_le, Result, ok,
  err, integrity_error,
}
use nexolith.Base.Sort.{sort_by}
use nexolith.ProcessIdentity.{ProcessIdentity}
use nexolith.Dag.Models.{OnFailure, Severity, repeated, is_empty}
use nexolith.State.Models.{
  Time, DagRunStatus, TaskRunStatus, DagRecord, DagRunRecord, TaskRunRecord, TaskAttemptRecord,
}

pub record Reaction : Type 0 where
  pub downstream : String
  pub upstream : String
  pub last_reacted_run_id : ℕ

-- The database, the clock that `_now` reads, and the identity of this process.
pub record StateStore : Type 0 where
  pub dags : List DagRecord
  pub dag_runs : List DagRunRecord
  pub task_runs : List TaskRunRecord
  pub task_attempts : List TaskAttemptRecord
  pub reactions : List Reaction
  -- AUTOINCREMENT's counters.
  pub last_run_id : ℕ
  pub last_attempt_id : ℕ
  pub clock : ℕ → Time
  pub readings : ℕ
  pub process_identity : Result ProcessIdentity

abbrev pub now : StateStore → Time
now s = s.clock s.readings

-- The store once `_now` was read.
abbrev pub later : StateStore → StateStore
later s = record s { readings = suc s.readings }

-- DAG registration.

abbrev pub new_dag : String → String → Option String → Bool → Time → DagRecord
new_dag name path schedule enabled t = record {
  name = name;
  source_path = path;
  schedule = schedule;
  enabled = enabled;
  created_at = t;
  updated_at = t;
}

-- `INSERT … ON CONFLICT(name) DO UPDATE`.
unfoldable pub register_dag : String → String → Option String → Bool → StateStore → StateStore
register_dag name path schedule enabled s = record (later s) {
  dags =
      if any (λ d. d.name == name) s.dags
      then update_where (λ d. d.name == name)
          (λ d. record d {
            source_path = path;
            schedule = schedule;
            enabled = enabled;
            updated_at = now s;
          })
          s.dags
      else new_dag name path schedule enabled (now s) ∷ s.dags;
}

-- The flag says whether a row was changed.
unfoldable pub set_dag_enabled : String → Bool → StateStore → Bool × StateStore
set_dag_enabled name enabled s = (
  any (λ d. d.name == name) s.dags,
  record (later s) {
    dags =
        update_where (λ d. d.name == name) (λ d. record d { enabled = enabled; updated_at = now s })
          s.dags;
  },
)

unfoldable pub get_dag : String → StateStore → Option DagRecord
get_dag name s = find (λ d. d.name == name) s.dags

unfoldable pub list_dags : StateStore → List DagRecord
unfolding sort_by
list_dags s = sort_by (λ a b. text_le a.name b.name) s.dags

-- The run lifecycle.

abbrev pub new_run :
    ℕ → String → String → OnFailure → Severity → Time → ProcessIdentity → DagRunRecord
new_run id name reason on_failure severity t identity = record {
  id = id;
  dag_name = name;
  status = DagRunStatus.running;
  trigger_reason = reason;
  started_at = t;
  ended_at = none;
  error = none;
  on_failure = on_failure;
  severity = severity;
  owner_pid = some identity.pid;
  owner_create_time_ns = some identity.create_time_ns;
}

abbrev pub pending_task : ℕ → String → TaskRunRecord
pending_task id name = record {
  dag_run_id = id;
  task_name = name;
  status = TaskRunStatus.pending;
  started_at = none;
  ended_at = none;
  error = none;
}

-- One transaction: a DAG that is not registered, or a name that is there twice, violates a
-- constraint and undoes all of it.
unfoldable pub start_dag_run_as :
    ProcessIdentity
    → String
    → List String
    → String
    → OnFailure
    → Severity
    → StateStore
    → Result ℕ × StateStore
start_dag_run_as identity name tasks reason on_failure severity s =
    if any (λ d. d.name == name) s.dags && is_empty (repeated tasks)
    then (
      ok (suc s.last_run_id),
      record (later s) {
        dag_runs =
            new_run (suc s.last_run_id) name reason on_failure severity (now s) identity
            ∷ s.dag_runs;
        task_runs = map (pending_task (suc s.last_run_id)) tasks ++ s.task_runs;
        last_run_id = suc s.last_run_id;
      },
    )
    else (err integrity_error, later s)

abbrev pub with_identity {ℓ} :
    {A : Type ℓ}
    → Result ProcessIdentity
    → StateStore
    → (ProcessIdentity → Result A × StateStore)
    → Result A × StateStore
with_identity (ok identity) s run = run identity
with_identity (err e) s run = (err e, later s)

unfoldable pub start_dag_run :
    String → List String → String → OnFailure → Severity → StateStore → Result ℕ × StateStore
unfolding start_dag_run_as
start_dag_run name tasks reason on_failure severity s =
    with_identity s.process_identity s
      (λ identity. start_dag_run_as identity name tasks reason on_failure severity s)

-- The key of a row of `task_runs`.
abbrev pub is_task : ℕ → String → TaskRunRecord → Bool
is_task id name t = t.dag_run_id == id && t.task_name == name

unfoldable pub start_task_run : ℕ → String → StateStore → StateStore
start_task_run id name s = record (later s) {
  task_runs =
      update_where (is_task id name)
        (λ t. record t { status = TaskRunStatus.running; started_at = some (now s) }) s.task_runs;
}

unfoldable pub skip_task_run : ℕ → String → StateStore → StateStore
skip_task_run id name s = record (later s) {
  task_runs =
      update_where (is_task id name)
        (λ t. record t { status = TaskRunStatus.skipped; ended_at = some (now s) }) s.task_runs;
}

unfoldable pub block_task_run : ℕ → String → StateStore → StateStore
block_task_run id name s = record (later s) {
  task_runs =
      update_where (is_task id name)
        (λ t. record t { status = TaskRunStatus.blocked; ended_at = some (now s) }) s.task_runs;
}

unfoldable pub complete_task_run : ℕ → String → Bool → Option String → StateStore → StateStore
complete_task_run id name success error s = record (later s) {
  task_runs =
      update_where (is_task id name)
        (λ t. record t {
          status = if success then TaskRunStatus.succeeded else TaskRunStatus.failed;
          ended_at = some (now s);
          error = error;
        })
        s.task_runs;
}

unfoldable pub complete_dag_run : ℕ → Bool → Option String → StateStore → StateStore
complete_dag_run id success error s = record (later s) {
  dag_runs =
      update_where (λ r. r.id == id)
        (λ r. record r {
          status = if success then DagRunStatus.succeeded else DagRunStatus.failed;
          ended_at = some (now s);
          error = error;
        })
        s.dag_runs;
}

-- Queries.

abbrev pub is_running : DagRunStatus → Bool
is_running DagRunStatus.running = true
is_running _ = false

unfoldable pub list_incomplete_dag_runs : StateStore → List DagRunRecord
unfolding sort_by
list_incomplete_dag_runs s =
    sort_by (λ a b. leb a.id b.id) (filter (λ r. is_running r.status) s.dag_runs)

unfoldable pub get_dag_run : ℕ → StateStore → Option DagRunRecord
get_dag_run id s = find (λ r. r.id == id) s.dag_runs

-- `ORDER BY id DESC`.
abbrev pub newer : DagRunRecord → DagRunRecord → Bool
newer a b = leb b.id a.id

unfoldable pub list_dag_runs : String → StateStore → List DagRunRecord
unfolding sort_by
list_dag_runs name s = sort_by newer (filter (λ r. r.dag_name == name) s.dag_runs)

unfoldable pub list_recent_dag_runs : ℕ → StateStore → List DagRunRecord
unfolding sort_by
list_recent_dag_runs limit s = take limit (sort_by newer s.dag_runs)

unfoldable pub latest_dag_run : String → StateStore → Option DagRunRecord
unfolding sort_by
latest_dag_run name s = head? (sort_by newer (filter (λ r. r.dag_name == name) s.dag_runs))

unfoldable pub list_task_runs : ℕ → StateStore → List TaskRunRecord
unfolding sort_by
list_task_runs id s =
    sort_by (λ a b. text_le a.task_name b.task_name) (filter (λ t. t.dag_run_id == id) s.task_runs)
