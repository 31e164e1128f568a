-- ===== src/State/Reconcile.antt =====
-- src/nexolith/state/store.py, `interrupt_abandoned_dag_runs`.
pub mod FailClosed
use nexolith.Base.{
  ℕ, String, List, [], ◌∷◌, Bool, false, ◌&&◌, ◌||◌, Option, none, some, update_where, ◌==◌, nat_eq,
  if◌then◌else◌,
}
use nexolith.ProcessIdentity.{
  ProcessIdentity, ProcessIdentityLookup, ProcessIdentityProvider, found, not_found, access_denied,
  unavailable, same_identity,
}
use nexolith.State.Models.{DagRunStatus, DagRunRecord}
use nexolith.State.Store.{StateStore, now, later, is_running, list_incomplete_dag_runs}

pub record DagRunReconciliation : Type 0 where
  pub interrupted_run_ids : List ℕ
  pub unverifiable_runs : List (ℕ × String)

-- What is known of the owner of a run.
pub data Owner : Type 0 where
  abandoned alive : Owner
  unverifiable : String → Owner

unfoldable pub judge_lookup : ProcessIdentity → Option ProcessIdentityLookup → Owner
judge_lookup stored none = unverifiable "unavailable"
judge_lookup stored (some not_found) = abandoned
judge_lookup stored (some (found i)) = if same_identity i stored then alive else abandoned
judge_lookup stored (some access_denied) = unverifiable "access_denied"
judge_lookup stored (some unavailable) = unverifiable "unavailable"

-- A row that lacks either half of the identity is a legacy row.
unfoldable pub judge_owner : ProcessIdentityProvider → Option ℕ → Option ℕ → Owner
unfolding judge_lookup
judge_owner lookup none create_time = unverifiable "legacy_owner_identity"
judge_owner lookup (some pid) none = unverifiable "legacy_owner_identity"
judge_owner lookup (some pid) (some create_time) =
    judge_lookup (record { pid = pid; create_time_ns = create_time }) (lookup pid)

abbrev pub owner_of : ProcessIdentityProvider → DagRunRecord → Owner
owner_of lookup run = judge_owner lookup run.owner_pid run.owner_create_time_ns

abbrev pub note : Owner → ℕ → DagRunReconciliation → DagRunReconciliation
note abandoned id r = record r { interrupted_run_ids = id ∷ r.interrupted_run_ids }
note alive id r = r
note (unverifiable why) id r = record r { unverifiable_runs = (id, why) ∷ r.unverifiable_runs }

-- The `for` loop over the incomplete runs.
unfoldable pub reconcile : ProcessIdentityProvider → List DagRunRecord → DagRunReconciliation
unfolding judge_owner
reconcile lookup [] = record { interrupted_run_ids = []; unverifiable_runs = [] }
reconcile lookup (run ∷ runs) = note (owner_of lookup run) run.id (reconcile lookup runs)

abbrev pub contains_id : List ℕ → ℕ → Bool
contains_id [] n = false
contains_id (m ∷ ms) n = m == n || contains_id ms n

-- `UPDATE … WHERE id = ? AND status = 'running'` for every abandoned run. Without one, the clock is
-- not read.
unfoldable pub interrupt_runs : List ℕ → StateStore → StateStore
interrupt_runs [] s = s
interrupt_runs (id ∷ ids) s = record (later s) {
  dag_runs =
      update_where (λ r. contains_id (id ∷ ids) r.id && is_running r.status)
        (λ r. record r { status = DagRunStatus.interrupted; ended_at = some (now s) }) s.dag_runs;
}

unfoldable pub interrupt_abandoned_dag_runs :
    ProcessIdentityProvider → StateStore → DagRunReconciliation × StateStore
unfolding reconcile interrupt_runs list_incomplete_dag_runs
interrupt_abandoned_dag_runs lookup s =
    let verdict = reconcile lookup (list_incomplete_dag_runs s) in
    (verdict, interrupt_runs verdict.interrupted_run_ids s)
