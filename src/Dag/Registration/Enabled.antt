-- ===== src/Dag/Registration/Enabled.antt =====
-- A registration never enables what was disabled.
use nexolith.Base.{
  String, List, [], ◌∷◌, Bool, true, false, Option, none, some, find, any, update_where, ◌==◌,
  string_eq, ◌≡◌, refl, arith, eq_iff, Bool-cases, inl, inr, Result, ok,
}
use nexolith.Dag.Models.{DagConfig}
use nexolith.Dag.Validator.{Files, load_dag}
use nexolith.State.Models.{DagRecord}
use nexolith.State.Store.{StateStore, now, new_dag, register_dag, get_dag}
use nexolith.Dag.Registration.{DagRegistrationResult, read_back, register_loaded, register_dag_file}

-- New rows are enabled, the others stay as they are.
abbrev pub enabled_before : Option DagRecord → Bool
enabled_before none = true
enabled_before (some row) = row.enabled

find-updated_dag :
    (name : String) (f : DagRecord → DagRecord) (rows : List DagRecord)
    → ((d : DagRecord) → (f d).name ≡ d.name)
    → any (λ d. d.name == name) rows ≡ true
    → (d : DagRecord) × (find (λ e. e.name == name) (update_where (λ e. e.name == name) f rows)
        ≡ some (f d))
find-updated_dag name f [] same h = absurd (cc)
find-updated_dag name f (r ∷ rs) same h = elim (Bool-cases (r.name == name)) [
  | inl e ↦ (r, ground (arith, e, same r))
  | inr e ↦
      let (d, found) = find-updated_dag name f rs same (ground (arith, h, e)) in
      (d, ground (arith, e, found))
]

-- A registered DAG is there, with the flag that it was given.
get_dag-register_dag :
    (name path : String) (schedule : Option String) (enabled : Bool) (s : StateStore)
    → (d : DagRecord) × (get_dag name (register_dag name path schedule enabled s) ≡ some d)
      × (d.enabled ≡ enabled)
unfolding get_dag register_dag
get_dag-register_dag name path schedule enabled s =
    elim (Bool-cases (any (λ d. d.name == name) s.dags)) [
      | inl e ↦
          rw e (let (d, found) = find-updated_dag name _ s.dags (λ d. refl) e in (_, found, refl))
      | inr e ↦
          rw e (new_dag name path schedule enabled (now s), ground (arith, eq_iff name name), refl)
    ]

read_back-some :
    (dag : DagConfig) (created : Bool) (o : Option DagRecord) (row : DagRecord) (s : StateStore)
    → o ≡ some row
    → (r : DagRegistrationResult) × ((read_back dag created o s).0 ≡ ok r)
      × ((read_back dag created o s).1 ≡ s)
      × (r.row ≡ row)
unfolding read_back
read_back-some dag created none row s h = absurd (cc)
read_back-some dag true (some r) row s h = (_, refl, refl, ground arith)
read_back-some dag false (some r) row s h = (_, refl, refl, ground arith)

-- What a registration leaves behind.
abbrev pub Registers : DagConfig → Bool → Result DagRegistrationResult × StateStore → Type 0
Registers dag enabled out =
    (r : DagRegistrationResult) × (out.0 ≡ ok r)
    × (get_dag dag.name out.1 ≡ some r.row)
    × (r.row.enabled ≡ enabled)

written-Registers :
    (dag : DagConfig) (path : String) (created enabled : Bool) (s : StateStore)
    → let written = register_dag dag.name path dag.schedule enabled s in
      Registers dag enabled (read_back dag created (get_dag dag.name written) written)
written-Registers dag path created enabled s =
    let (d, there, flag) = get_dag-register_dag dag.name path dag.schedule enabled s in
    let (r, is_ok, same, row) =
      read_back-some dag created _ d (register_dag dag.name path dag.schedule enabled s) there in
    (r, is_ok, rw (same, row) there, rw row flag)

register_loaded-Registers :
    (dag : DagConfig) (path : String) (o : Option DagRecord) (force : Bool) (s : StateStore)
    → get_dag dag.name s ≡ o
    → Registers dag (enabled_before o) (register_loaded dag path o force s)
unfolding register_loaded
register_loaded-Registers dag path none force s h = written-Registers dag path true true s
register_loaded-Registers dag path (some existing) false s h = (_, refl, h, refl)
register_loaded-Registers dag path (some existing) true s h =
    written-Registers dag path false existing.enabled s

-- The registration of a file that loads succeeds, forced or not: it returns the row that is then in
-- the store under the DAG's name, which is enabled if there was none before, and otherwise just as
-- enabled as before.
pub register_dag_file-Registers :
    (files : Files) (path : String) (force : Bool) (s : StateStore) (dag : DagConfig)
    → load_dag files path ≡ ok dag
    → Registers dag (enabled_before (get_dag dag.name s)) (register_dag_file files path force s)
unfolding register_dag_file
register_dag_file-Registers files path force s dag h =
    rw (h, register_dag_file) (register_loaded-Registers dag path (get_dag dag.name s) force s refl)
