-- ===== src/State/WellFormed/Recovery.antt =====
-- Recovery in a store with any history.
use nexolith.Base.{
  ℕ, ◌≡◌, inl, inr, true, ◌&&◌, some, List, [], ◌∷◌, map, arith, ◌==◌, if◌then◌else◌, Bool-cases,
  string_eq, nat_eq, In, any,
}
use nexolith.ProcessIdentity.{ProcessIdentityProvider}
use nexolith.State.Models.{DagRunRecord, DagRunStatus}
use nexolith.State.Calls.{StoreCall, after_calls}
use nexolith.State.Keys.{Distinct, any-In, keys_of}
use nexolith.State.Reconcile.FailClosed.{
  DistinctIds, is_abandoned, interrupt_abandoned_dag_runs-get_dag_run,
}
use nexolith.State.Store.{StateStore, get_dag_run, is_running, now}
use nexolith.State.WellFormed.{IsWellFormed}
use nexolith.State.Reconcile.{interrupt_abandoned_dag_runs, owner_of}
use nexolith.State.WellFormed.Histories.{after_calls-IsWellFormed}

In-any_id :
    (id : ℕ) (runs : List DagRunRecord)
    → any (λ q. q.id == id) runs ≡ true
    → In id (map (λ r. r.id) runs)
In-any_id id runs h = any-In (λ r. r.id) (λ q. q.id == id) id runs (λ r e. ground (arith, e)) h

Distinct-DistinctIds :
    (runs : List DagRunRecord) → Distinct (map (λ r. r.id) runs) → DistinctIds runs
Distinct-DistinctIds [] d = tt
Distinct-DistinctIds (r ∷ rs) d = elim (Bool-cases (any (λ q. q.id == r.id) rs)) [
  | inl e ↦ absurd (d.0 (In-any_id r.id rs e))
  | inr e ↦ (e, Distinct-DistinctIds rs d.1)
]

-- Whatever was done to a well-formed store, recovery leaves each of its runs as it is, but one that is
-- still marked as running and whose owner is proven gone: that one becomes interrupted at the time of
-- the recovery.
pub interrupt_abandoned_dag_runs-after_calls :
    (lookup : ProcessIdentityProvider) (cs : List StoreCall) (s : StateStore) (id : ℕ)
    (run : DagRunRecord)
    → IsWellFormed (keys_of s)
    → get_dag_run id (after_calls cs s) ≡ some run
    → get_dag_run id (interrupt_abandoned_dag_runs lookup (after_calls cs s)).1
      ≡ some (
          if is_running run.status && is_abandoned (owner_of lookup run)
          then record run {
            status = DagRunStatus.interrupted;
            ended_at = some (now (after_calls cs s));
          }
          else run)
interrupt_abandoned_dag_runs-after_calls lookup cs s id run v h =
    interrupt_abandoned_dag_runs-get_dag_run lookup id (after_calls cs s) run
      (Distinct-DistinctIds (after_calls cs s).dag_runs
        (after_calls-IsWellFormed cs s v).runs_numbered.1)
      h
