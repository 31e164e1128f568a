-- ===== src/State/WellFormed/Histories.antt =====
-- Every call keeps the constraints, so a database that starts empty always satisfies them.
use nexolith.Base.{
  ℕ, String, ◌≡◌, refl, sym, subst, inl, inr, Bool, Option, List, [], ◌∷◌, map, arith, ◌==◌, Result,
  Bool-cases, string_eq, nat_eq, any, update_where,
}
use nexolith.State.Calls.{empty_store, after_calls, after_call, StoreCall}
use nexolith.State.Store.{
  StateStore, set_dag_enabled, start_task_run, skip_task_run, block_task_run, is_task, later,
  complete_task_run, complete_dag_run,
}
use nexolith.State.Models.{Time, DagRunRecord, TaskRunRecord}
use nexolith.State.WellFormed.{
  IsWellFormed, add_attempt, add_reaction, register_dag-IsWellFormed, start_dag_run-IsWellFormed,
}
use nexolith.ProcessIdentity.{ProcessIdentity}
use nexolith.State.Keys.{
  keys_of, map-update_where, task_key, reaction_key, any-In, is_task-key, In-any,
  reaction_key-is_reaction,
}
use nexolith.State.Attempts.{
  complete_task_attempt, start_task_attempt, record_trigger_reaction, is_reaction,
}
use nexolith.State.Reconcile.{interrupt_runs, interrupt_abandoned_dag_runs}

-- An UPDATE of each of the tables leaves the keys as they are.
module _ (s : StateStore) (v : IsWellFormed (keys_of s)) where
  update_tasks :
      (p : TaskRunRecord → Bool) (f : TaskRunRecord → TaskRunRecord)
      → ((t : TaskRunRecord) → task_key (f t) ≡ task_key t)
      → IsWellFormed (keys_of (record (later s) { task_runs = update_where p f s.task_runs }))
  update_tasks p f h =
      subst (λ ts. IsWellFormed (record (keys_of s) { tasks = ts }))
        (sym (map-update_where task_key p f s.task_runs h)) v

  update_runs :
      (p : DagRunRecord → Bool) (f : DagRunRecord → DagRunRecord)
      → ((r : DagRunRecord) → (f r).id ≡ r.id)
      → ((r : DagRunRecord) → (f r).dag_name ≡ r.dag_name)
      → IsWellFormed (keys_of (record (later s) { dag_runs = update_where p f s.dag_runs }))
  update_runs p f h g =
      subst
        (λ ns. IsWellFormed (record (keys_of s) {
          runs = map (λ r. r.id) (update_where p f s.dag_runs);
          runs_of = ns;
        }))
        (sym (map-update_where (λ r. r.dag_name) p f s.dag_runs g))
        (subst (λ ids. IsWellFormed (record (keys_of s) { runs = ids }))
          (sym (map-update_where (λ r. r.id) p f s.dag_runs h)) v)

  start_task_attempt-IsWellFormed :
      (id : ℕ) (name : String) (number : ℕ)
      → IsWellFormed (keys_of (start_task_attempt id name number s).1)
  unfolding start_task_attempt
  start_task_attempt-IsWellFormed id name number =
      elim (Bool-cases (any (is_task id name) s.task_runs)) [
        | inl e ↦ rw e (
            add_attempt (keys_of s) v (id, name)
              (any-In task_key (is_task id name) (id, name) s.task_runs (is_task-key id name) e))
        | inr e ↦ rw e v
      ]

  complete_task_attempt-IsWellFormed :
      (id : ℕ) (success : Bool) (error : Option String)
      → IsWellFormed (keys_of (complete_task_attempt id success error s))
  unfolding complete_task_attempt
  complete_task_attempt-IsWellFormed id success error =
      subst
        (λ ns. IsWellFormed (record (keys_of s) {
          attempts = map (λ a. a.id) (complete_task_attempt id success error s).task_attempts;
          attempts_of = ns;
        }))
        (sym (
          map-update_where (λ a. (a.dag_run_id, a.task_name)) (λ a. a.id == id) _ s.task_attempts
            (λ a. refl)))
        (subst (λ ids. IsWellFormed (record (keys_of s) { attempts = ids }))
          (sym (map-update_where (λ a. a.id) (λ a. a.id == id) _ s.task_attempts (λ a. refl))) v)

  record_trigger_reaction-IsWellFormed :
      (downstream upstream : String) (id : ℕ)
      → IsWellFormed (keys_of (record_trigger_reaction downstream upstream id s))
  unfolding record_trigger_reaction
  record_trigger_reaction-IsWellFormed d u id =
      elim (Bool-cases (any (is_reaction d u) s.reactions)) [
        | inl e ↦ rw e (
            subst (λ ps. IsWellFormed (record (keys_of s) { reactions = ps }))
              (sym (map-update_where reaction_key (is_reaction d u) _ s.reactions (λ r. refl))) v)
        | inr e ↦ rw e (
            add_reaction (keys_of s) v (d, u)
              (λ m. absurd (
                ground (
                  arith,
                  In-any reaction_key (is_reaction d u) (d, u) s.reactions
                      (reaction_key-is_reaction d u) m,
                  e,
                ))))
      ]

  interrupt_runs-IsWellFormed : (ids : List ℕ) → IsWellFormed (keys_of (interrupt_runs ids s))
  unfolding interrupt_runs
  interrupt_runs-IsWellFormed [] = v
  interrupt_runs-IsWellFormed (id ∷ ids) = update_runs _ _ (λ r. refl) (λ r. refl)

-- Each method keeps the constraints of the schema, raise or return.
after_call-IsWellFormed :
    (c : StoreCall) (s : StateStore)
    → IsWellFormed (keys_of s)
    → IsWellFormed (keys_of (after_call c s))
unfolding after_call set_dag_enabled start_task_run skip_task_run block_task_run complete_task_run
    complete_dag_run interrupt_abandoned_dag_runs
after_call-IsWellFormed (StoreCall.register name path schedule enabled) s v =
    register_dag-IsWellFormed name path schedule enabled s v
after_call-IsWellFormed (StoreCall.set_enabled name enabled) s v =
    subst (λ names. IsWellFormed (record (keys_of s) { dags = names }))
      (sym (map-update_where (λ d. d.name) (λ d. d.name == name) _ s.dags (λ d. refl))) v
after_call-IsWellFormed (StoreCall.start_run name tasks reason on_failure severity) s v =
    start_dag_run-IsWellFormed name tasks reason on_failure severity s v
after_call-IsWellFormed (StoreCall.start_task id name) s v = update_tasks s v _ _ (λ t. refl)
after_call-IsWellFormed (StoreCall.skip_task id name) s v = update_tasks s v _ _ (λ t. refl)
after_call-IsWellFormed (StoreCall.block_task id name) s v = update_tasks s v _ _ (λ t. refl)
after_call-IsWellFormed (StoreCall.complete_task id name success error) s v =
    update_tasks s v _ _ (λ t. refl)
after_call-IsWellFormed (StoreCall.complete_run id success error) s v =
    update_runs s v _ _ (λ r. refl) (λ r. refl)
after_call-IsWellFormed (StoreCall.start_attempt id name number) s v =
    start_task_attempt-IsWellFormed s v id name number
after_call-IsWellFormed (StoreCall.complete_attempt id success error) s v =
    complete_task_attempt-IsWellFormed s v id success error
after_call-IsWellFormed (StoreCall.react downstream upstream id) s v =
    record_trigger_reaction-IsWellFormed s v downstream upstream id
after_call-IsWellFormed (StoreCall.reconcile_with lookup) s v = interrupt_runs-IsWellFormed s v _

-- After every history of calls, the constraints of the schema hold if they did before: names, ids
-- and keys are distinct, ids are at most the counters, a run is one of a known DAG, a task one of a
-- known run, and an attempt one of a known task.
pub after_calls-IsWellFormed :
    (cs : List StoreCall) (s : StateStore)
    → IsWellFormed (keys_of s)
    → IsWellFormed (keys_of (after_calls cs s))
unfolding after_calls
after_calls-IsWellFormed [] s v = v
after_calls-IsWellFormed (c ∷ cs) s v =
    after_calls-IsWellFormed cs (after_call c s) (after_call-IsWellFormed c s v)

-- A new database satisfies them.
pub empty_store-IsWellFormed :
    (clock : ℕ → Time) (identity : Result ProcessIdentity)
    → IsWellFormed (keys_of (empty_store clock identity))
unfolding empty_store
empty_store-IsWellFormed clock identity = record {
  dags_distinct = tt;
  runs_numbered = (tt, tt);
  runs_registered = tt;
  tasks_distinct = tt;
  tasks_recorded = tt;
  attempts_numbered = (tt, tt);
  attempts_recorded = tt;
  reactions_distinct = tt;
}
