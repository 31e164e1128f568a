-- ===== src/State/Attempts.antt =====
-- src/nexolith/state/store.py: retry attempts, and reactions to upstream runs.
use nexolith.Base.{
  ℕ, suc, String, List, ◌∷◌, Bool, ◌&&◌, Option, none, some, filter, any, find, update_where, leb,
  ◌==◌, nat_eq, string_eq, if◌then◌else◌, text_le, Result, ok, err, integrity_error,
}
pub mod Reactions
use nexolith.Base.Sort.{sort_by}
use nexolith.State.Models.{Time, TaskAttemptStatus, TaskAttemptRecord}
use nexolith.State.Store.{Reaction, StateStore, now, later, is_task}

abbrev pub new_attempt : ℕ → ℕ → String → ℕ → Time → TaskAttemptRecord
new_attempt id run_id name number t = record {
  id = id;
  dag_run_id = run_id;
  task_name = name;
  attempt_number = number;
  status = TaskAttemptStatus.running;
  started_at = t;
  ended_at = none;
  error = none;
}

-- The foreign key asks for the row of the task.
unfoldable pub start_task_attempt : ℕ → String → ℕ → StateStore → Result ℕ × StateStore
start_task_attempt run_id name number s =
    if any (is_task run_id name) s.task_runs
    then (
      ok (suc s.last_attempt_id),
      record (later s) {
        task_attempts =
            new_attempt (suc s.last_attempt_id) run_id name number (now s) ∷ s.task_attempts;
        last_attempt_id = suc s.last_attempt_id;
      },
    )
    else (err integrity_error, later s)

unfoldable pub complete_task_attempt : ℕ → Bool → Option String → StateStore → StateStore
complete_task_attempt id success error s = record (later s) {
  task_attempts =
      update_where (λ a. a.id == id)
        (λ a. record a {
          status = if success then TaskAttemptStatus.succeeded else TaskAttemptStatus.failed;
          ended_at = some (now s);
          error = error;
        })
        s.task_attempts;
}

unfoldable pub list_task_attempts : ℕ → String → StateStore → List TaskAttemptRecord
unfolding sort_by
list_task_attempts run_id name s =
    sort_by (λ a b. leb a.attempt_number b.attempt_number)
      (filter (λ a. a.dag_run_id == run_id && a.task_name == name) s.task_attempts)

-- `ORDER BY task_name, attempt_number`.
abbrev pub attempt_le : TaskAttemptRecord → TaskAttemptRecord → Bool
attempt_le a b =
    if a.task_name == b.task_name
    then leb a.attempt_number b.attempt_number
    else text_le a.task_name b.task_name

unfoldable pub list_run_attempts : ℕ → StateStore → List TaskAttemptRecord
unfolding sort_by
list_run_attempts run_id s =
    sort_by attempt_le (filter (λ a. a.dag_run_id == run_id) s.task_attempts)

abbrev pub is_reaction : String → String → Reaction → Bool
is_reaction downstream upstream r = r.downstream == downstream && r.upstream == upstream

abbrev pub run_of : Option Reaction → Option ℕ
run_of none = none
run_of (some r) = some r.last_reacted_run_id

unfoldable pub get_last_reacted_upstream_run_id : String → String → StateStore → Option ℕ
get_last_reacted_upstream_run_id downstream upstream s =
    run_of (find (is_reaction downstream upstream) s.reactions)

-- The `INSERT … ON CONFLICT … DO UPDATE`.
abbrev pub upsert_reaction : String → String → ℕ → List Reaction → List Reaction
upsert_reaction downstream upstream run_id rows =
    if any (is_reaction downstream upstream) rows
    then update_where (is_reaction downstream upstream)
        (λ r. record r { last_reacted_run_id = run_id }) rows
    else record { downstream = downstream; upstream = upstream; last_reacted_run_id = run_id }
      ∷ rows

unfoldable pub record_trigger_reaction : String → String → ℕ → StateStore → StateStore
record_trigger_reaction downstream upstream run_id s = record s {
  reactions = upsert_reaction downstream upstream run_id s.reactions;
}
