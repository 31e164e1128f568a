-- ===== src/State/Schema/Contents.antt =====
-- src/nexolith/state/store.py: a database of each schema version, by what it records.
use nexolith.Base.{
  ℕ, String, ◌≡◌, true, none, some, List, [], ◌∷◌, ◌++◌, map, string_eq, nat_eq, All, contains,
}
use nexolith.State.Schema.Migrations.{
  run_statuses, first_task_statuses, task_columns, attempt_columns, reaction_columns, dag_columns,
  run_columns, skipping_task_statuses, interruptible_run_statuses, task_statuses, owned_run_columns,
}
use nexolith.State.Schema.{SqlRow, Table, Database, Cell}

-- The columns of `dag_runs`, the later ones included.
pub record RunRow : Type 0 where
  pub id : Cell
  pub dag_name : Cell
  pub status : String
  pub trigger_reason : Cell
  pub started_at : Cell
  pub ended_at : Cell
  pub error : Cell
  pub on_failure : Cell
  pub severity : Cell
  pub owner_pid : Cell
  pub owner_create_time_ns : Cell

pub record TaskRow : Type 0 where
  pub dag_run_id : Cell
  pub task_name : Cell
  pub status : String
  pub started_at : Cell
  pub ended_at : Cell
  pub error : Cell

pub record Contents : Type 0 where
  pub dags : List SqlRow
  pub runs : List RunRow
  pub tasks : List TaskRow
  pub attempts : List SqlRow
  pub reactions : List SqlRow

abbrev pub task_row : TaskRow → SqlRow
task_row t =
    ("dag_run_id", t.dag_run_id)
    ∷ ("task_name", t.task_name)
    ∷ ("status", Cell.text t.status)
    ∷ ("started_at", t.started_at)
    ∷ ("ended_at", t.ended_at)
    ∷ ("error", t.error)
    ∷ []

-- A run in the first schema, with the columns that were added since.
abbrev pub run_row : (RunRow → SqlRow) → RunRow → SqlRow
run_row added r =
    ("id", r.id)
    ∷ ("dag_name", r.dag_name)
    ∷ ("status", Cell.text r.status)
    ∷ ("trigger_reason", r.trigger_reason)
    ∷ ("started_at", r.started_at)
    ∷ ("ended_at", r.ended_at)
    ∷ ("error", r.error)
    ∷ added r

abbrev pub with_policy : RunRow → SqlRow
with_policy r = ("on_failure", r.on_failure) ∷ []

abbrev pub with_severity : RunRow → SqlRow
with_severity r = ("on_failure", r.on_failure) ∷ ("severity", r.severity) ∷ []

abbrev pub with_owner : RunRow → SqlRow
with_owner r =
    ("on_failure", r.on_failure) ∷ ("severity", r.severity) ∷ ("owner_pid", r.owner_pid) ∷ []

abbrev pub with_creation_time : RunRow → SqlRow
with_creation_time r =
    ("on_failure", r.on_failure)
    ∷ ("severity", r.severity)
    ∷ ("owner_pid", r.owner_pid)
    ∷ ("owner_create_time_ns", r.owner_create_time_ns)
    ∷ []

abbrev pub dags_table : Contents → String × Table
dags_table c = ("dags", record { columns = dag_columns; statuses = []; rows = c.dags })

abbrev pub runs_table : List String → List String → (RunRow → SqlRow) → Contents → String × Table
runs_table columns statuses added c = (
  "dag_runs",
  record { columns = columns; statuses = statuses; rows = map (run_row added) c.runs },
)

abbrev pub tasks_table : List String → Contents → String × Table
tasks_table statuses c = (
  "task_runs",
  record { columns = task_columns; statuses = statuses; rows = map task_row c.tasks },
)

abbrev attempts_table : Contents → String × Table
attempts_table c = (
  "task_attempts",
  record { columns = attempt_columns; statuses = run_statuses; rows = c.attempts },
)

abbrev reactions_table : Contents → String × Table
reactions_table c = (
  "dag_trigger_reactions",
  record { columns = reaction_columns; statuses = []; rows = c.reactions },
)

pub data SchemaVersion : Type 0 where
  new version1 version2 version3 version4 version5 version6 version7 : SchemaVersion

abbrev pub versioned : ℕ → List (String × Table) → Database
versioned n tables = record { tables = tables; version = some n }

unfoldable pub database : SchemaVersion → Contents → Database
database new c = record { tables = []; version = none }
database version1 c = versioned 1 (
    dags_table c
    ∷ runs_table run_columns run_statuses (λ r. []) c
    ∷ tasks_table first_task_statuses c
    ∷ [])
database version2 c = versioned 2 (
    dags_table c
    ∷ runs_table run_columns run_statuses (λ r. []) c
    ∷ tasks_table skipping_task_statuses c
    ∷ [])
database version3 c = versioned 3 (
    dags_table c
    ∷ runs_table (run_columns ++ "on_failure" ∷ []) run_statuses with_policy c
    ∷ tasks_table task_statuses c
    ∷ attempts_table c
    ∷ [])
database version4 c = versioned 4 (
    dags_table c
    ∷ runs_table (run_columns ++ "on_failure" ∷ []) run_statuses with_policy c
    ∷ tasks_table task_statuses c
    ∷ attempts_table c
    ∷ reactions_table c
    ∷ [])
database version5 c = versioned 5 (
    dags_table c
    ∷ runs_table (run_columns ++ "on_failure" ∷ "severity" ∷ []) run_statuses with_severity c
    ∷ tasks_table task_statuses c
    ∷ attempts_table c
    ∷ reactions_table c
    ∷ [])
database version6 c = versioned 6 (
    dags_table c
    ∷ tasks_table task_statuses c
    ∷ attempts_table c
    ∷ reactions_table c
    ∷ runs_table owned_run_columns interruptible_run_statuses with_owner c
    ∷ [])
database version7 c = versioned 7 (
    dags_table c
    ∷ tasks_table task_statuses c
    ∷ attempts_table c
    ∷ reactions_table c
    ∷ runs_table (owned_run_columns ++ "owner_create_time_ns" ∷ []) interruptible_run_statuses
        with_creation_time c
    ∷ [])

-- What a column or a table holds that a migration has added.
abbrev pub default_policy : RunRow → RunRow
default_policy r = record r { on_failure = Cell.text "skip" }

abbrev pub default_severity : RunRow → RunRow
default_severity r = record r { severity = Cell.text "medium" }

abbrev pub no_owner : RunRow → RunRow
no_owner r = record r { owner_pid = Cell.null }

abbrev pub no_identity : RunRow → RunRow
no_identity r = record r { owner_create_time_ns = Cell.null }

abbrev pub upgraded_to : SchemaVersion → Contents → Contents
upgraded_to version1 c = record { dags = []; runs = []; tasks = []; attempts = []; reactions = [] }
upgraded_to version3 c = record c { runs = map default_policy c.runs; attempts = [] }
upgraded_to version4 c = record c { reactions = [] }
upgraded_to version5 c = record c { runs = map default_severity c.runs }
upgraded_to version6 c = record c { runs = map no_owner c.runs }
upgraded_to version7 c = record c { runs = map no_identity c.runs }
upgraded_to _ c = c

-- What the migrations make of a database of a version.
abbrev pub upgraded : SchemaVersion → Contents → Contents
upgraded version7 c = c
upgraded version6 c = upgraded_to version7 c
upgraded version5 c = upgraded_to version7 (upgraded_to version6 c)
upgraded version4 c = upgraded_to version7 (upgraded_to version6 (upgraded_to version5 c))
upgraded version3 c =
    upgraded_to version7 (upgraded_to version6 (upgraded_to version5 (upgraded_to version4 c)))
upgraded version2 c =
    upgraded_to version7
      (upgraded_to version6 (upgraded_to version5 (upgraded_to version4 (upgraded_to version3 c))))
upgraded version1 c =
    upgraded_to version7
      (upgraded_to version6 (upgraded_to version5 (upgraded_to version4 (upgraded_to version3 c))))
upgraded new c = upgraded_to version7 (
    upgraded_to version6
      (upgraded_to version5 (upgraded_to version4 (upgraded_to version3 (upgraded_to version1 c)))))

-- The statuses that the CHECKs of a version allow.
abbrev pub AreAllowed : List String → List String → Contents → Type 0
AreAllowed runs tasks c =
    All (λ (r : RunRow). contains runs r.status ≡ true) c.runs
    × All (λ (t : TaskRow). contains tasks t.status ≡ true) c.tasks

abbrev pub IsAllowed : SchemaVersion → Contents → Type 0
IsAllowed new c = Unit
IsAllowed version1 c = AreAllowed run_statuses first_task_statuses c
IsAllowed version2 c = AreAllowed run_statuses skipping_task_statuses c
IsAllowed version6 c = AreAllowed interruptible_run_statuses task_statuses c
IsAllowed version7 c = AreAllowed interruptible_run_statuses task_statuses c
IsAllowed _ c = AreAllowed run_statuses task_statuses c
