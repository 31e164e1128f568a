-- ===== src/Dag/Executor/Finished.antt =====
-- The history that a finished run leaves in the store.
use nexolith.Base.{
  ℕ, suc, String, List, [], ◌∷◌, ◌++◌, Bool, true, some, map, ◌≡◌, refl, ◌∙◌, ap, subst, sym, arith,
  inl, inr, Result, ok, err, ◌==◌, nat_eq, string_eq, contains, any, find, Nodup, In, Result-cases,
  ◌&&◌, In-contains, contains-In, Option-cases, Bool-cases,
}
use nexolith.Dag.Models.{DagTaskConfig, DagConfig, OnFailure, Severity, names, is_empty, repeated}
use nexolith.Dag.Order.{topological_order}
use nexolith.Dag.Order.Complete.{IsKnown}
use nexolith.Dag.Order.Sound.{topological_order_sound}
use nexolith.Dag.Validator.{Files}
use nexolith.ProcessIdentity.{ProcessIdentity}
use nexolith.State.Models.{TaskRunStatus, TaskRunRecord}
use nexolith.State.Store.{
  StateStore, is_task, pending_task, start_dag_run, start_dag_run_as, complete_dag_run,
  latest_dag_run,
}
use nexolith.State.Attempts.{record_trigger_reaction}
use nexolith.Dag.Executor.{
  Call, World, with_store, Progress, no_progress, run_tasks, registered, close_run, run_ordered,
  run, record_reactions, record_cross_dag_reactions, succeeded_run, blocks,
}
use nexolith.Dag.Executor.Statuses.{task_status, status_in}
use nexolith.Dag.Executor.History.{Account, succeeded, failed, skipped, blocked, History}
use nexolith.Dag.Executor.Rounds.{onto, In-onto, run_tasks-History, run_tasks-BlocksOnlyIf}

find-pending :
    (id : ℕ) (n : String) (ns : List String) (rows : List TaskRunRecord)
    → contains ns n ≡ true
    → status_in (find (is_task id n) (map (pending_task id) ns ++ rows))
      ≡ some TaskRunStatus.pending
find-pending id n [] rows h = cc
find-pending id n (m ∷ ns) rows h = ground (arith, find-pending id n ns rows)

same_id : (a b : ℕ) → ok a ≡ ok b → a ≡ b
same_id a b h = cc

-- Every task that a new run is given is pending in it.
AllPending : List String → ℕ → StateStore → Type 0
AllPending tasks id s =
    (n : String) → contains tasks n ≡ true → task_status id n s ≡ some TaskRunStatus.pending

start_dag_run_as-AllPending :
    (i : ProcessIdentity) (name : String) (tasks : List String) (reason : String) (f : OnFailure)
    (v : Severity) (s : StateStore) (id : ℕ)
    → (start_dag_run_as i name tasks reason f v s).0 ≡ ok id
    → AllPending tasks id (start_dag_run_as i name tasks reason f v s).1
unfolding start_dag_run_as AllPending
start_dag_run_as-AllPending i name tasks reason f v s id =
    elim (Bool-cases (any (λ d. d.name == name) s.dags && is_empty (repeated tasks))) [
      | inl c ↦
          rw (c, start_dag_run_as)
            (λ h n m.
              subst
                (λ k.
                  status_in (
                    find (is_task k n)
                      (map (pending_task (suc s.last_run_id)) tasks ++ s.task_runs))
                  ≡ some TaskRunStatus.pending)
                (same_id (suc s.last_run_id) id h)
                (find-pending (suc s.last_run_id) n tasks s.task_runs m))
      | inr c ↦ rw (c, start_dag_run_as) (λ h. absurd (cc))
    ]

start_dag_run-AllPending :
    (name : String) (tasks : List String) (reason : String) (f : OnFailure) (v : Severity)
    (s : StateStore) (id : ℕ)
    → (start_dag_run name tasks reason f v s).0 ≡ ok id
    → AllPending tasks id (start_dag_run name tasks reason f v s).1
unfolding start_dag_run
start_dag_run-AllPending name tasks reason f v s id = elim (Result-cases s.process_identity) [
  | inl (i, e) ↦
      let as_identity : start_dag_run name tasks reason f v s
          ≡ start_dag_run_as i name tasks reason f v s =
        simp (e) in
      rw as_identity (start_dag_run_as-AllPending i name tasks reason f v s id)
  | inr (x, e) ↦
      let refused : (start_dag_run name tasks reason f v s).0 ≡ err x = simp (e) in
      λ h. absurd (no_id x id (sym refused ∙ h))
]
  where
    no_id : (x : _) (id : ℕ) → ◌≡◌ {A = Result ℕ} (err x) (ok id) → ⊥
    no_id x id c = cc

record_reactions-task_runs :
    (name : String) (ups : List String) (s : StateStore)
    → (record_reactions name ups s).task_runs ≡ s.task_runs
unfolding record_reactions record_trigger_reaction
record_reactions-task_runs name [] s = refl
record_reactions-task_runs name (u ∷ us) s =
    elim (Option-cases (succeeded_run (latest_dag_run u s))) [
      | inl e ↦ rw (e, record_reactions) (record_reactions-task_runs name us s)
      | inr (id, e) ↦ rw (e, record_reactions) (record_reactions-task_runs name us _)
    ]

-- What became of the tasks of a run: which ones failed, and an account of each.
pub record Settled (dag : DagConfig) (id : ℕ) (s : StateStore) : Type 0 where
  pub failed_tasks : List String
  pub stopped : Bool
  pub policy : stopped ≡ true → blocks dag.on_failure ≡ true
  pub failing :
      (n : String) → contains failed_tasks n ≡ true → task_status id n s ≡ some TaskRunStatus.failed
  pub accounts :
      (t : DagTaskConfig) → In t dag.tasks → Account dag.tasks failed_tasks stopped id t s

module _ (id : ℕ) (s s' : StateStore) (same : s'.task_runs ≡ s.task_runs) where
  same_status : (n : String) → task_status id n s' ≡ task_status id n s
  same_status n = ap (λ rows. status_in (find (is_task id n) rows)) same

  Account-same :
      (tasks : List DagTaskConfig) (fs : List String) (stop : Bool) (t : DagTaskConfig)
      → Account tasks fs stop id t s
      → Account tasks fs stop id t s'
  Account-same tasks fs stop t (succeeded e r) =
      succeeded (same_status t.name ∙ e) (λ d dep. same_status d ∙ r d dep)
  Account-same tasks fs stop t (failed e f r) =
      failed (same_status t.name ∙ e) f (λ d dep. same_status d ∙ r d dep)
  Account-same tasks fs stop t (skipped e a) = skipped (same_status t.name ∙ e) a
  Account-same tasks fs stop t (blocked e b) = blocked (same_status t.name ∙ e) b

module _ (files : Files) (perform : List Call → Call → Result (Unit {0})) (dag : DagConfig)
    (distinct : Nodup (names dag.tasks)) (known : IsKnown dag.tasks) where
  close_run-task_runs :
      (id : ℕ) (p : Progress) (s : StateStore)
      → (close_run files perform dag id p s).task_runs ≡ s.task_runs
  unfolding close_run complete_dag_run record_cross_dag_reactions
  close_run-task_runs id p s = elim (Option-cases dag.trigger) [
    | inl e ↦ rw (e, close_run, record_cross_dag_reactions) refl
    | inr (ups, e) ↦
        rw (e, close_run, record_cross_dag_reactions) (record_reactions-task_runs dag.name ups _)
  ]

  no_History :
      (id : ℕ) (s : StateStore)
      → AllPending (names dag.tasks) id s
      → History dag.tasks [] id no_progress s
  unfolding AllPending
  no_History id s pending = record {
    accounts = λ t m. absurd m;
    waiting = λ n k out. pending n k;
    failing = λ n f. absurd (cc);
    failures = λ n f. absurd (cc);
  }

  all_pending :
      (ordered : List DagTaskConfig)
      → ((t : DagTaskConfig) → In t dag.tasks → In t ordered)
      → (id : ℕ) (s : StateStore) → AllPending (names ordered) id s
      → AllPending (names dag.tasks) id s
  unfolding AllPending
  all_pending ordered whole id s pending n c =
      let (t, m, named) = contains-In (λ (v : DagTaskConfig). v.name) n dag.tasks c in
      pending n (
        subst (λ x. contains (names ordered) x ≡ true) named
          (In-contains (λ u. u.name) t ordered (whole t m)))

  settle :
      (id : ℕ) (ordered : List DagTaskConfig) (k : ℕ) (p : Progress)
      → k ≡ id
      → ((t : DagTaskConfig) → In t dag.tasks → In t ordered)
      → (p.blocked ≡ true → blocks dag.on_failure ≡ true)
      → (s₂ : StateStore) → History dag.tasks (onto ordered []) k p s₂
      → Settled dag id (close_run files perform dag k p s₂)
  settle id ordered k p e whole policy s₂ hist =
      let rows = close_run-task_runs k p s₂ in
      subst (λ j. Settled dag j (close_run files perform dag k p s₂)) e
        (record {
          failed_tasks = p.failed_tasks;
          stopped = p.blocked;
          policy = policy;
          failing = λ n f.
              same_status k s₂ (close_run files perform dag k p s₂) rows n ∙ hist.failing n f;
          accounts = λ t m.
              Account-same k s₂ (close_run files perform dag k p s₂) rows dag.tasks _ _ t
                (hist.accounts t (In-onto t ordered [] (inl (whole t m))));
        })

  run_ordered-Settled :
      (path reason : String) (ordered : List DagTaskConfig) (w : World) (id : ℕ)
      → topological_order dag.tasks ≡ ok ordered
      → (run_ordered files perform dag path reason ordered w).0 ≡ ok id
      → Settled dag id (run_ordered files perform dag path reason ordered w).1.store
  unfolding run_ordered AllPending
  run_ordered-Settled path reason ordered w id computed =
      let (behind, once, same) = topological_order_sound dag.tasks ordered distinct computed in
      elim (Result-cases
        (start_dag_run dag.name (names ordered) reason dag.on_failure dag.severity w.store).0) [
          | inr (x, begun) ↦ rw (begun, run_ordered) (λ h. absurd (cc))
          | inl (k, begun) ↦
              let s₁ =
                (start_dag_run dag.name (names ordered) reason dag.on_failure dag.severity
                  w.store).1 in
              let pending =
                start_dag_run-AllPending dag.name (names ordered) reason dag.on_failure dag.severity
                  w.store k begun in
              elim (Result-cases
                (run_tasks files perform dag (files.parent path) k ordered no_progress
                  (with_store s₁ w)).0) [
                    | inr (x, ran) ↦ rw (begun, ran, run_ordered) (λ h. absurd (cc))
                    | inl (p, ran) ↦
                        rw (begun, ran, run_ordered)
                          (λ h.
                            settle id ordered k p (same_id k id h) (λ t. (same t).1)
                              (λ b.
                                elim (run_tasks-BlocksOnlyIf files perform dag (files.parent path) k
                                  known ordered no_progress p (with_store s₁ w) ran b) [
                                    | inl f ↦ absurd (cc)
                                    | inr yields ↦ yields
                                  ])
                              (run_tasks files perform dag (files.parent path) k ordered no_progress
                                (with_store s₁ w)).1.store
                              (run_tasks-History files perform dag (files.parent path) k known
                                ordered [] no_progress p (with_store s₁ w)
                                (no_History k s₁
                                  (all_pending ordered (λ t. (same t).1) k s₁ pending))
                                (λ t. (same t).0) once (λ n c. refl) behind ran))
                  ]
        ]

  -- After a run that returns, of tasks with distinct names and known dependencies, each one has succeeded, failed,
  -- been skipped or been blocked. A task that succeeded or failed has only dependencies that
  -- succeeded; a task that was skipped depends on a failed one, directly or through other tasks;
  -- what counts as failed there has the status of a failure; and tasks are blocked under the policy
  -- that says so, only.
  pub run-Settled :
      (path reason : String) (w : World) (id : ℕ)
      → (run files perform dag path reason w).0 ≡ ok id
      → Settled dag id (run files perform dag path reason w).1.store
  unfolding run
  run-Settled path reason w id = elim (Result-cases (topological_order dag.tasks)) [
    | inr (x, e) ↦ rw (e, run) (λ h. absurd (cc))
    | inl (ordered, e) ↦
        rw (e, run)
          (run_ordered-Settled path reason ordered
            (with_store (registered files perform dag path w.store) w) id e)
  ]
