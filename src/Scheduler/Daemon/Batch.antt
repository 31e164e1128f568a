-- ===== src/Scheduler/Daemon/Batch.antt =====
-- Which DAGs a tick executes, and in which order.
use nexolith.Base.{
  String, List, Bool, false, ◌&&◌, some, any, contains, ◌==◌, nat_eq, string_eq, ◌≡◌, ◌↔◌, ok, In,
}
use nexolith.Dag.Validator.{Files}
use nexolith.State.Models.{Time, DagRecord}
use nexolith.State.Store.{StateStore, is_running}
use nexolith.Scheduler.Daemon.{DueDag, judge}

-- Some run of the DAG is marked as running.
abbrev pub is_running_dag : StateStore → String → Bool
is_running_dag s name = any (λ r. is_running r.status && r.dag_name == name) s.dag_runs

module _ (files : Files) (now : DagRecord → Time) (s : StateStore) where
  -- The DAG is registered, no run of it is going on, and it is judged to be due.
  pub record IsChosen (rows : List DagRecord) (running : List String) (i : DueDag) : Type 0 where
    pub registered : In i.dag_record rows
    pub idle : contains running i.dag_record.name ≡ false
    pub due : judge files now i.dag_record s ≡ ok (some i)

  Chosen : List String → List DagRecord → List DueDag → Type 0
  Chosen running rows items = (i : DueDag) → In i items ↔ IsChosen rows running i

  abbrev IsInBatch : DueDag → Type 0
  IsInBatch i =
      In i.dag_record s.dags
      × (is_running_dag s i.dag_record.name ≡ false)
      × (judge files now i.dag_record s ≡ ok (some i))
