-- ===== src/Dag/Executor/Statuses.antt =====
-- The statuses of task runs in the store.
use nexolith.Base.{
  ℕ, String, List, [], ◌∷◌, Option, none, some, find, update_where, ◌==◌, nat_eq, string_eq,
  if◌then◌else◌, ◌≡◌, refl, ap, arith, eq_iff, Bool-cases, inl, inr, Bool,
}
use nexolith.State.Models.{TaskRunStatus, TaskRunRecord}
use nexolith.State.Store.{
  StateStore, is_task, skip_task_run, block_task_run, start_task_run, complete_task_run,
}

abbrev pub status_in : Option TaskRunRecord → Option TaskRunStatus
status_in none = none
status_in (some t) = some t.status

-- The status of the task of a run.
abbrev pub task_status : ℕ → String → StateStore → Option TaskRunStatus
task_status id name s = status_in (find (is_task id name) s.task_runs)

-- A status that is set, if there is a row.
abbrev pub set_to : TaskRunStatus → Option TaskRunStatus → Option TaskRunStatus
set_to new none = none
set_to new (some old) = some new

find-update_task :
    (id : ℕ) (n m : String) (f : TaskRunRecord → TaskRunRecord) (new : TaskRunStatus)
    (rows : List TaskRunRecord)
    → ((t : TaskRunRecord) → is_task id m (f t) ≡ is_task id m t)
    → ((t : TaskRunRecord) → (f t).status ≡ new)
    → status_in (find (is_task id m) (update_where (is_task id n) f rows)) ≡ (
        if n == m
        then set_to new (status_in (find (is_task id m) rows))
        else status_in (find (is_task id m) rows))
find-update_task id n m f new [] key value = ground arith
find-update_task id n m f new (t ∷ ts) key value = elim (Bool-cases (n == m)) [
  | inl e ↦
      let same : n ≡ m = (eq_iff n m).0 e in
      ground (
        arith,
        key t,
        value t,
        find-update_task id n m f new ts key value,
        ap (λ k. is_task id k t) same,
      )
  | inr e ↦ ground (
    arith,
    key t,
    find-update_task id n m f new ts key value,
    eq_iff n m,
    eq_iff t.task_name n,
    eq_iff t.task_name m,
  )
]

-- What setting the status of task `n` does to the statuses of the run.
abbrev pub SetsTo : ℕ → String → TaskRunStatus → StateStore → StateStore → Type 0
SetsTo id n new s s' =
    (m : String)
    → task_status id m s' ≡ (if n == m then set_to new (task_status id m s) else task_status id m s)

pub start_task_run-SetsTo :
    (id : ℕ) (n : String) (s : StateStore)
    → SetsTo id n TaskRunStatus.running s (start_task_run id n s)
unfolding start_task_run
start_task_run-SetsTo id n s m =
    find-update_task id n m _ TaskRunStatus.running s.task_runs (λ t. refl) (λ t. refl)

pub skip_task_run-SetsTo :
    (id : ℕ) (n : String) (s : StateStore)
    → SetsTo id n TaskRunStatus.skipped s (skip_task_run id n s)
unfolding skip_task_run
skip_task_run-SetsTo id n s m =
    find-update_task id n m _ TaskRunStatus.skipped s.task_runs (λ t. refl) (λ t. refl)

pub block_task_run-SetsTo :
    (id : ℕ) (n : String) (s : StateStore)
    → SetsTo id n TaskRunStatus.blocked s (block_task_run id n s)
unfolding block_task_run
block_task_run-SetsTo id n s m =
    find-update_task id n m _ TaskRunStatus.blocked s.task_runs (λ t. refl) (λ t. refl)

abbrev pub outcome : Bool → TaskRunStatus
outcome success = if success then TaskRunStatus.succeeded else TaskRunStatus.failed

pub complete_task_run-SetsTo :
    (id : ℕ) (n : String) (success : Bool) (error : Option String) (s : StateStore)
    → SetsTo id n (outcome success) s (complete_task_run id n success error s)
unfolding complete_task_run
complete_task_run-SetsTo id n success error s m =
    find-update_task id n m _ (outcome success) s.task_runs (λ t. refl) (λ t. refl)
