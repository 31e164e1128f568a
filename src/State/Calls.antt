-- ===== src/State/Calls.antt =====
-- src/nexolith/state/store.py: what a process does to the store, as calls of its methods.
use nexolith.Base.{ℕ, String, List, Option, Result, ◌∷◌, Bool, []}
use nexolith.State.Models.{Time}
use nexolith.State.Store.{
  StateStore, register_dag, set_dag_enabled, start_dag_run, start_task_run, skip_task_run,
  block_task_run, complete_task_run, complete_dag_run,
}
use nexolith.ProcessIdentity.{ProcessIdentity, ProcessIdentityProvider}
use nexolith.Dag.Models.{OnFailure, Severity}
use nexolith.State.Attempts.{start_task_attempt, complete_task_attempt, record_trigger_reaction}
use nexolith.State.Reconcile.{interrupt_abandoned_dag_runs}

-- A method that changes the store, with its arguments. The identity of the process and its clock
-- are those of the store.
pub data StoreCall : Type 0 where
  register : (name path : String) (schedule : Option String) (enabled : Bool) → StoreCall
  set_enabled : (name : String) (enabled : Bool) → StoreCall
  start_run :
      (name : String) (tasks : List String) (reason : String) (on_failure : OnFailure)
      (severity : Severity)
      → StoreCall
  start_task skip_task block_task : (run_id : ℕ) (name : String) → StoreCall
  complete_task : (run_id : ℕ) (name : String) (success : Bool) (error : Option String) → StoreCall
  complete_run : (run_id : ℕ) (success : Bool) (error : Option String) → StoreCall
  start_attempt : (run_id : ℕ) (name : String) (number : ℕ) → StoreCall
  complete_attempt : (id : ℕ) (success : Bool) (error : Option String) → StoreCall
  react : (downstream upstream : String) (run_id : ℕ) → StoreCall
  reconcile_with : ProcessIdentityProvider → StoreCall

-- The store after a call, whether or not it raised.
unfoldable pub after_call : StoreCall → StateStore → StateStore
after_call (StoreCall.register name path schedule enabled) s =
    register_dag name path schedule enabled s
after_call (StoreCall.set_enabled name enabled) s = (set_dag_enabled name enabled s).1
after_call (StoreCall.start_run name tasks reason on_failure severity) s =
    (start_dag_run name tasks reason on_failure severity s).1
after_call (StoreCall.start_task id name) s = start_task_run id name s
after_call (StoreCall.skip_task id name) s = skip_task_run id name s
after_call (StoreCall.block_task id name) s = block_task_run id name s
after_call (StoreCall.complete_task id name success error) s =
    complete_task_run id name success error s
after_call (StoreCall.complete_run id success error) s = complete_dag_run id success error s
after_call (StoreCall.start_attempt id name number) s = (start_task_attempt id name number s).1
after_call (StoreCall.complete_attempt id success error) s =
    complete_task_attempt id success error s
after_call (StoreCall.react downstream upstream id) s =
    record_trigger_reaction downstream upstream id s
after_call (StoreCall.reconcile_with lookup) s = (interrupt_abandoned_dag_runs lookup s).1

-- A history of calls, the first call first; of one process or of several, since each is a
-- transaction.
unfoldable pub after_calls : List StoreCall → StateStore → StateStore
unfolding after_call
after_calls [] s = s
after_calls (c ∷ cs) s = after_calls cs (after_call c s)

-- A new database.
unfoldable pub empty_store : (ℕ → Time) → Result ProcessIdentity → StateStore
empty_store clock identity = record {
  dags = [];
  dag_runs = [];
  task_runs = [];
  task_attempts = [];
  reactions = [];
  last_run_id = 0;
  last_attempt_id = 0;
  clock = clock;
  readings = 0;
  process_identity = identity;
}
