-- ===== src/Dag/Executor/Effects.antt =====
-- What attempting a task does to the statuses of its run.
use nexolith.Base.{
  ℕ, zero, suc, String, List, Bool, true, false, Option, none, some, ◌≡◌, refl, ◌∙◌, ap, arith, inl,
  inr, Result, ok, find, Result-cases, ◌==◌, string_eq, if◌then◌else◌,
}
use nexolith.Dag.Models.{DagTaskConfig, DagConfig}
use nexolith.Dag.Validator.{Files}
use nexolith.State.Store.{is_task, StateStore, start_task_run}
use nexolith.State.Models.{TaskRunStatus}
use nexolith.State.Attempts.{start_task_attempt, complete_task_attempt}
use nexolith.Dag.Executor.{
  Call, World, with_store, ending_of, wait_before, attempts, run_with_retries, call_of, Progress,
  note_result, attempt_task,
}
use nexolith.Dag.Executor.Retries.{Ending-cases}
use nexolith.Dag.Executor.Statuses.{
  status_in, set_to, SetsTo, outcome, start_task_run-SetsTo, complete_task_run-SetsTo,
}

start_task_attempt-task_runs :
    (id : ℕ) (name : String) (number : ℕ) (s : StateStore)
    → (start_task_attempt id name number s).1.task_runs ≡ s.task_runs
unfolding start_task_attempt
start_task_attempt-task_runs id name number s = ground arith

retold :
    (same : Bool) (new : TaskRunStatus) (a b c d : Option TaskRunStatus)
    → d ≡ (if same then set_to new c else c)
    → c ≡ b
    → b ≡ (if same then set_to TaskRunStatus.running a else a)
    → d ≡ (if same then set_to new a else a)
retold true new none b c d h k e = ground arith
retold true new (some x) b c d h k e = ground arith
retold false new a b c d h k e = ground arith

module _ (files : Files) (perform : List Call → Call → Result (Unit {0})) where
  wait_before-store :
      (task : DagTaskConfig) (number : ℕ) (w : World) → (wait_before task number w).store ≡ w.store
  unfolding wait_before
  wait_before-store task number w = ground arith

  attempts-task_runs :
      (id : ℕ) (task : DagTaskConfig) (call : Call) (left number : ℕ) (last : Option String)
      (w : World)
      → (attempts files perform id task call left number last w).1.store.task_runs
        ≡ w.store.task_runs
  unfolding attempts complete_task_attempt
  attempts-task_runs id task call zero number last w = refl
  attempts-task_runs id task call (suc left) number last w =
      let waited = wait_before task number w in
      let same : waited.store.task_runs ≡ w.store.task_runs =
        ap (λ s. s.task_runs) (wait_before-store task number w) in
      let kept = start_task_attempt-task_runs id task.name number waited.store ∙ same in
      elim (Result-cases (start_task_attempt id task.name number waited.store).0) [
        | inr (e, started) ↦ rw (started, attempts) kept
        | inl (a, started) ↦
            elim (Ending-cases perform call (ending_of (perform waited.calls call))) [
              | inl back ↦ rw (started, back, attempts) kept
              | inr (inl (m, back)) ↦
                  rw (started, back, attempts)
                    (attempts-task_runs id task call left (suc number) (some m) _ ∙ kept)
              | inr (inr (x, back)) ↦ rw (started, back, attempts) kept
            ]
      ]

  -- A task that was attempted is a success or a failure.
  pub record Attempted (dag : DagConfig) (id : ℕ) (t : DagTaskConfig) (p p' : Progress)
      (s s' : StateStore) : Type 0 where
    pub success : Bool
    pub error : Option String
    pub progress : p' ≡ note_result dag.on_failure t success error p
    pub statuses : SetsTo id t.name (outcome success) s s'

  pub attempt_task-Attempted :
      (dag : DagConfig) (base_dir : String) (id : ℕ) (t : DagTaskConfig) (p p' : Progress)
      (w : World)
      → (attempt_task files perform dag base_dir id t p w).0 ≡ ok p'
      → Attempted dag id t p p' w.store (attempt_task files perform dag base_dir id t p w).1.store
  unfolding attempt_task run_with_retries
  attempt_task-Attempted dag base_dir id t p p' w =
      let started = with_store (start_task_run id t.name w.store) w in
      elim (Result-cases (call_of files perform base_dir t)) [
        | inr (e, called) ↦ rw (called, attempt_task) (λ h. absurd (cc))
        | inl (call, called) ↦
            elim (Result-cases (run_with_retries files perform id t call started).0) [
              | inr (e, tried) ↦
                  rw (called, tried, attempt_task, run_with_retries) (λ h. absurd (cc))
              | inl (r, tried) ↦
                  rw (called, tried, attempt_task, run_with_retries)
                    (λ h. record {
                      success = r.0;
                      error = r.1;
                      progress = cc;
                      statuses = λ m.
                          retold (t.name == m) (outcome r.0) _ _ _ _
                            (complete_task_run-SetsTo id t.name r.0 r.1
                              (run_with_retries files perform id t call started).1.store m)
                            (ap (λ rows. status_in (find (is_task id m) rows))
                              (attempts-task_runs id t call (suc t.retries) 1 none started))
                            (start_task_run-SetsTo id t.name w.store m);
                    })
            ]
      ]
