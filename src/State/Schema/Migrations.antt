-- ===== src/State/Schema/Migrations.antt =====
-- src/nexolith/state/store.py: the scripts of `_MIGRATIONS`, and `_ensure_schema`.
use nexolith.Base.{
  ℕ, String, true, false, none, some, List, [], ◌∷◌, ◌++◌, map, ◌==◌, if◌then◌else◌, Result, ok,
  string_eq, nat_eq, ◌>>=◌, leb,
}
use nexolith.State.Schema.{
  Expression, Database, add_column_if_missing, execute_script, Statement, foreign_keys, drop_table,
  create_table, create_index, copy_rows, rename_table, Cell,
}

abbrev pub dag_columns : List String
dag_columns = "name" ∷ "source_path" ∷ "schedule" ∷ "enabled" ∷ "created_at" ∷ "updated_at" ∷ []

abbrev pub run_columns : List String
run_columns =
    "id" ∷ "dag_name" ∷ "status" ∷ "trigger_reason" ∷ "started_at" ∷ "ended_at" ∷ "error" ∷ []

abbrev pub task_columns : List String
task_columns = "dag_run_id" ∷ "task_name" ∷ "status" ∷ "started_at" ∷ "ended_at" ∷ "error" ∷ []

abbrev pub attempt_columns : List String
attempt_columns =
    "id" ∷ "dag_run_id" ∷ "task_name" ∷ "attempt_number" ∷ "status" ∷ "started_at" ∷ "ended_at"
    ∷ "error" ∷ []

abbrev pub reaction_columns : List String
reaction_columns = "downstream_dag_name" ∷ "upstream_dag_name" ∷ "last_reacted_run_id" ∷ []

-- The CHECKs of the status columns, from the first schema on.
abbrev pub run_statuses : List String
run_statuses = "running" ∷ "succeeded" ∷ "failed" ∷ []

abbrev pub first_task_statuses : List String
first_task_statuses = "pending" ∷ "running" ∷ "succeeded" ∷ "failed" ∷ []

abbrev pub skipping_task_statuses : List String
skipping_task_statuses = "pending" ∷ "running" ∷ "succeeded" ∷ "failed" ∷ "skipped" ∷ []

abbrev pub task_statuses : List String
task_statuses = "pending" ∷ "running" ∷ "succeeded" ∷ "failed" ∷ "skipped" ∷ "blocked" ∷ []

abbrev pub interruptible_run_statuses : List String
interruptible_run_statuses = "running" ∷ "succeeded" ∷ "failed" ∷ "interrupted" ∷ []

abbrev pub same_columns : List String → List (String × Expression)
same_columns columns = map (λ c. (c, Expression.column c)) columns

-- Version 1.
abbrev pub create_tables : List Statement
create_tables =
    create_table true "dags" dag_columns []
    ∷ create_table true "dag_runs" run_columns run_statuses
    ∷ create_index "dag_runs"
    ∷ create_table true "task_runs" task_columns first_task_statuses
    ∷ []

-- The rebuild of `task_runs` with another CHECK, which versions 2 and 3 share.
abbrev pub rebuild_task_runs : List String → List Statement
rebuild_task_runs statuses =
    create_table false "task_runs_new" task_columns statuses
    ∷ copy_rows "task_runs_new" "task_runs" (same_columns task_columns)
    ∷ drop_table false "task_runs"
    ∷ rename_table "task_runs_new" "task_runs"
    ∷ []

-- Version 2.
abbrev pub allow_skipped : List Statement
allow_skipped = drop_table true "task_runs_new" ∷ rebuild_task_runs skipping_task_statuses

-- Version 3.
abbrev pub add_attempts_table : List Statement
add_attempts_table =
    drop_table true "task_attempts"
    ∷ drop_table true "task_runs_new"
    ∷ (rebuild_task_runs task_statuses
        ++ create_table false "task_attempts" attempt_columns run_statuses
          ∷ create_index "task_attempts"
          ∷ [])

-- Version 4.
abbrev pub add_reactions_table : List Statement
add_reactions_table = create_table true "dag_trigger_reactions" reaction_columns [] ∷ []

abbrev pub owned_run_columns : List String
owned_run_columns = run_columns ++ "on_failure" ∷ "severity" ∷ "owner_pid" ∷ []

abbrev pub owned_values : List (String × Expression)
owned_values =
    same_columns (run_columns ++ "on_failure" ∷ "severity" ∷ [])
    ++ ("owner_pid", Expression.constant Cell.null) ∷ []

-- Version 6.
abbrev pub own_runs : List Statement
own_runs =
    foreign_keys false
    ∷ drop_table true "dag_runs_new"
    ∷ create_table false "dag_runs_new" owned_run_columns interruptible_run_statuses
    ∷ copy_rows "dag_runs_new" "dag_runs" owned_values
    ∷ drop_table false "dag_runs"
    ∷ rename_table "dag_runs_new" "dag_runs"
    ∷ create_index "dag_runs"
    ∷ foreign_keys true
    ∷ []

abbrev pub migrations : List (ℕ × List Statement)
migrations =
    (1, create_tables)
    ∷ (2, allow_skipped)
    ∷ (3, add_attempts_table)
    ∷ (4, add_reactions_table)
    ∷ (5, [])
    ∷ (6, own_runs)
    ∷ (7, [])
    ∷ []

-- What is done in Python before the script of a version.
unfoldable pub prepare_version : ℕ → Database → Result Database
unfolding add_column_if_missing
prepare_version version db =
    if version == 3
    then add_column_if_missing "on_failure" (Cell.text "skip") db
    else if version == 5
    then add_column_if_missing "severity" (Cell.text "medium") db
    else if version == 7
    then add_column_if_missing "owner_create_time_ns" Cell.null db
    else ok db

-- One round of the loop: the version is recorded in a transaction of its own, behind the script.
unfoldable pub migrate : ℕ × List Statement → Database → Result Database
unfolding prepare_version execute_script
migrate (version, script) db =
    prepare_version version db
    >>= execute_script script
    >>= (λ done. ok (record done { version = some version }))

abbrev pub current_version : Database → ℕ
current_version db = elim (db.version) [ none ↦ 0 | some v ↦ v ]

unfoldable pub migrate_from : ℕ → List (ℕ × List Statement) → Database → Result Database
unfolding migrate
migrate_from current [] db = ok db
migrate_from current ((version, script) ∷ rest) db =
    if leb version current
    then migrate_from current rest db
    else migrate (version, script) db >>= migrate_from version rest

unfoldable pub ensure_schema : Database → Result Database
unfolding migrate_from
ensure_schema db = migrate_from (current_version db) migrations db
