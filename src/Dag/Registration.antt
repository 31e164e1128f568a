-- ===== src/Dag/Registration.antt =====
-- src/nexolith/dag/registration.py.
pub mod Enabled
use nexolith.Base.{String, Bool, true, false, Option, none, some, Result, ok, err, unexpected}
use nexolith.Dag.Models.{DagConfig}
use nexolith.Dag.Validator.{Files, load_dag}
use nexolith.State.Models.{DagRecord}
use nexolith.State.Store.{StateStore, register_dag, get_dag}

pub record DagRegistrationResult : Type 0 where
  pub dag : DagConfig
  pub row : DagRecord
  pub created : Bool
  pub updated : Bool

-- The row that was just written, which an `assert` expects.
unfoldable pub read_back :
    DagConfig → Bool → Option DagRecord → StateStore → Result DagRegistrationResult × StateStore
read_back dag created none s = (err (unexpected "AssertionError"), s)
read_back dag true (some row) s =
    (ok (record { dag = dag; row = row; created = true; updated = false }), s)
read_back dag false (some row) s =
    (ok (record { dag = dag; row = row; created = false; updated = true }), s)

unfoldable pub register_loaded :
    DagConfig
    → String
    → Option DagRecord
    → Bool
    → StateStore
    → Result DagRegistrationResult × StateStore
unfolding read_back register_dag get_dag
register_loaded dag path none force s =
    let written = register_dag dag.name path dag.schedule true s in
    read_back dag true (get_dag dag.name written) written
register_loaded dag path (some existing) false s =
    (ok (record { dag = dag; row = existing; created = false; updated = false }), s)
register_loaded dag path (some existing) true s =
    let written = register_dag dag.name path dag.schedule existing.enabled s in
    read_back dag false (get_dag dag.name written) written

-- `register_dag` of the module.
unfoldable pub register_dag_file :
    Files → String → Bool → StateStore → Result DagRegistrationResult × StateStore
unfolding register_loaded load_dag
register_dag_file files path force s = elim (load_dag files path) [
  | err e ↦ (err e, s)
  | ok dag ↦ register_loaded dag path (get_dag dag.name s) force s
]
