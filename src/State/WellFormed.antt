-- ===== src/State/WellFormed.antt =====
-- src/nexolith/state/store.py: the constraints of the schema hold after every history of calls.
pub mod Histories
pub mod Runs
pub mod Recovery
use nexolith.Base.{
  ℕ, suc, ◌+◌, ◌-◌, ◌≤◌, String, ◌≡◌, refl, sym, subst, inl, inr, Bool, true, false, ◌&&◌, Option,
  List, [], ◌∷◌, ◌++◌, arith, eq_iff, ◌==◌, if◌then◌else◌, Result, ok, err, Bool-cases, string_eq,
  nat_eq, All, In, any, update_where, All-map, Nodup, In-append_right,
}
use nexolith.State.Store.{
  StateStore, register_dag, later, now, new_dag, start_dag_run, start_dag_run_as, with_identity,
}
use nexolith.State.Keys.{
  Keys, Distinct, IsNumbered, keys_of, map-update_where, In-any, any-In, IsNumbered-suc,
  Distinct-keyed, In-le, All-keyed, map-pending_task, keyed,
}
use nexolith.Dag.Models.{OnFailure, Severity, is_empty, repeated}
use nexolith.ProcessIdentity.{ProcessIdentity}
use nexolith.Dag.Models.Shape.{repeated_Nodup}

-- The primary keys are distinct, the ids are those that AUTOINCREMENT gave, and every reference
-- is to a row that is there.
pub record IsWellFormed (k : Keys) : Type 0 where
  pub dags_distinct : Distinct k.dags
  pub runs_numbered : IsNumbered k.last_run_id k.runs
  pub runs_registered : All (λ n. In n k.dags) k.runs_of
  pub tasks_distinct : Distinct k.tasks
  pub tasks_recorded : All (λ t. In t.0 k.runs) k.tasks
  pub attempts_numbered : IsNumbered k.last_attempt_id k.attempts
  pub attempts_recorded : All (λ a. In a k.tasks) k.attempts_of
  pub reactions_distinct : Distinct k.reactions

module _ (k : Keys) (v : IsWellFormed k) where
  add_dag : (name : String) → ¬ In name k.dags → IsWellFormed (record k { dags = name ∷ k.dags })
  add_dag name fresh = record {
    dags_distinct = (fresh, v.dags_distinct);
    runs_numbered = v.runs_numbered;
    runs_registered =
        All-map (λ n. In n k.dags) (λ n. In n (name ∷ k.dags)) (λ n m. inr m) k.runs_of
          v.runs_registered;
    tasks_distinct = v.tasks_distinct;
    tasks_recorded = v.tasks_recorded;
    attempts_numbered = v.attempts_numbered;
    attempts_recorded = v.attempts_recorded;
    reactions_distinct = v.reactions_distinct;
  }

  -- The run gets the next id, and its tasks are named by it.
  add_run :
      (name : String) (tasks : List String)
      → In name k.dags
      → Nodup tasks
      → IsWellFormed (record k {
        runs = suc k.last_run_id ∷ k.runs;
        runs_of = name ∷ k.runs_of;
        tasks = keyed (suc k.last_run_id) tasks ++ k.tasks;
        last_run_id = suc k.last_run_id;
      })
  add_run name tasks known d = record {
    dags_distinct = v.dags_distinct;
    runs_numbered = IsNumbered-suc k.last_run_id k.runs v.runs_numbered;
    runs_registered = (known, v.runs_registered);
    tasks_distinct =
        Distinct-keyed (suc k.last_run_id) k.last_run_id tasks k.tasks d v.tasks_distinct
          (All-map (λ t. In t.0 k.runs) (λ t. t.0 ≤ k.last_run_id)
            (λ t m. In-le k.last_run_id t.0 k.runs v.runs_numbered.0 m) k.tasks v.tasks_recorded)
          (omega arith);
    tasks_recorded =
        All-keyed (suc k.last_run_id) (λ t. In t.0 (suc k.last_run_id ∷ k.runs)) tasks k.tasks
          (λ n. inl refl)
          (All-map (λ t. In t.0 k.runs) (λ t. In t.0 (suc k.last_run_id ∷ k.runs)) (λ t m. inr m)
            k.tasks v.tasks_recorded);
    attempts_numbered = v.attempts_numbered;
    attempts_recorded =
        All-map (λ a. In a k.tasks) (λ a. In a (keyed (suc k.last_run_id) tasks ++ k.tasks))
          (λ a m. In-append_right a _ k.tasks m) k.attempts_of v.attempts_recorded;
    reactions_distinct = v.reactions_distinct;
  }

  pub add_attempt :
      (task : ℕ × String)
      → In task k.tasks
      → IsWellFormed (record k {
        attempts = suc k.last_attempt_id ∷ k.attempts;
        attempts_of = task ∷ k.attempts_of;
        last_attempt_id = suc k.last_attempt_id;
      })
  add_attempt task m = record {
    dags_distinct = v.dags_distinct;
    runs_numbered = v.runs_numbered;
    runs_registered = v.runs_registered;
    tasks_distinct = v.tasks_distinct;
    tasks_recorded = v.tasks_recorded;
    attempts_numbered = IsNumbered-suc k.last_attempt_id k.attempts v.attempts_numbered;
    attempts_recorded = (m, v.attempts_recorded);
    reactions_distinct = v.reactions_distinct;
  }

  pub add_reaction :
      (pair : String × String)
      → ¬ In pair k.reactions
      → IsWellFormed (record k { reactions = pair ∷ k.reactions })
  add_reaction pair fresh = record {
    dags_distinct = v.dags_distinct;
    runs_numbered = v.runs_numbered;
    runs_registered = v.runs_registered;
    tasks_distinct = v.tasks_distinct;
    tasks_recorded = v.tasks_recorded;
    attempts_numbered = v.attempts_numbered;
    attempts_recorded = v.attempts_recorded;
    reactions_distinct = (fresh, v.reactions_distinct);
  }

-- A registration of a DAG that is known updates its row, and of another one adds a row.
pub register_dag-IsWellFormed :
    (name path : String) (schedule : Option String) (enabled : Bool) (s : StateStore)
    → IsWellFormed (keys_of s)
    → IsWellFormed (keys_of (register_dag name path schedule enabled s))
unfolding register_dag
register_dag-IsWellFormed name path schedule enabled s v =
    go (any (λ d. d.name == name) s.dags) refl
  where
    go :
        (b : Bool)
        → any (λ d. d.name == name) s.dags ≡ b
        → IsWellFormed (
            keys_of (record (later s) {
              dags =
                  if b
                  then update_where
                      (λ d. d.name == name)
                      (λ d. record d {
                        source_path = path;
                        schedule = schedule;
                        enabled = enabled;
                        updated_at = now s;
                      })
                      s.dags
                  else new_dag name path schedule enabled (now s) ∷ s.dags;
            }))
    go true e =
        subst (λ names. IsWellFormed (record (keys_of s) { dags = names }))
          (sym (map-update_where (λ d. d.name) (λ d. d.name == name) _ s.dags (λ d. refl))) v
    go false e = add_dag (keys_of s) v name (λ m. absurd (
        ground (
          arith,
          In-any (λ d. d.name) (λ d. d.name == name) name s.dags
              (λ d p. ground (arith, eq_iff d.name name)) m,
          e,
        )))

-- A run is started with the tasks of its DAG, or nothing is.
pub start_dag_run-IsWellFormed :
    (name : String) (tasks : List String) (reason : String) (on_failure : OnFailure)
    (severity : Severity) (s : StateStore)
    → IsWellFormed (keys_of s)
    → IsWellFormed (keys_of (start_dag_run name tasks reason on_failure severity s).1)
unfolding start_dag_run start_dag_run_as
start_dag_run-IsWellFormed name tasks reason on_failure severity s v = go s.process_identity
  where
    start :
        (identity : ProcessIdentity)
        → IsWellFormed
            (keys_of (start_dag_run_as identity name tasks reason on_failure severity s).1)
    start identity =
        elim (Bool-cases (any (λ d. d.name == name) s.dags && is_empty (repeated tasks))) [
          | inl e ↦ rw e (
              subst
                (λ ts. IsWellFormed (record (keys_of s) {
                  runs = suc s.last_run_id ∷ (keys_of s).runs;
                  runs_of = name ∷ (keys_of s).runs_of;
                  tasks = ts;
                  last_run_id = suc s.last_run_id;
                }))
                (sym (map-pending_task (suc s.last_run_id) tasks s.task_runs))
                (add_run (keys_of s) v name tasks
                  (any-In (λ d. d.name) (λ d. d.name == name) name s.dags
                    (λ d p. ground (arith, eq_iff d.name name)) (ground (arith, e)))
                  (repeated_Nodup tasks (ground (arith, e)))))
          | inr e ↦ rw e v
        ]

    go :
        (identity : Result ProcessIdentity)
        → IsWellFormed (
            keys_of
              (with_identity identity s
                (λ i. start_dag_run_as i name tasks reason on_failure severity s)).1)
    go (ok identity) = start identity
    go (err e) = v
