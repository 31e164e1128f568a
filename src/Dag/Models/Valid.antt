-- ===== src/Dag/Models/Valid.antt =====
-- Exactly the valid DAG configurations pass validation.
use nexolith.Base.{
  String, [], Bool, true, false, not, none, ◌≡◌, ◌≢◌, ◌↔◌, refl, All, Nodup, ◌==◌, string_eq, arith,
  eq_iff,
}
use nexolith.Dag.Models.{
  DagConfig, names, is_empty, triggers_itself, trigger_fault, no_upstreams,
  validate_task_graph_shape, dag_field_faults, validate_document, tasks_faults,
}
use nexolith.Dag.Models.Shape.{
  IsValidTask, IsLinked, require_cons_iff, require_iff, after_iff, append-nil_iff, tasks_faults_iff,
  duplicates-is_empty, repeated_Nodup, Nodup_repeated, first_dependency_fault_iff,
}

pub record IsValidDag (dag : DagConfig) : Type 0 where
  pub named : dag.name ≢ ""
  pub some_task : is_empty (names dag.tasks) ≡ false
  pub valid_tasks : All IsValidTask dag.tasks
  pub distinct_names : Nodup (names dag.tasks)
  pub linked : All (IsLinked (names dag.tasks)) dag.tasks
  pub some_upstream : no_upstreams dag.trigger ≡ false
  pub not_own_trigger : triggers_itself dag dag.trigger ≡ false

validate_task_graph_shape_iff :
    (dag : DagConfig)
    → (validate_task_graph_shape dag ≡ none) ↔ (
        Nodup (names dag.tasks)
        × All (IsLinked (names dag.tasks)) dag.tasks
        × (triggers_itself dag dag.trigger ≡ false))
unfolding validate_task_graph_shape trigger_fault
validate_task_graph_shape_iff dag =
    let e = duplicates-is_empty dag.tasks in
    let linked_iff = first_dependency_fault_iff (names dag.tasks) dag.tasks in
    (
      λ h. (
        repeated_Nodup (names dag.tasks) (ground (arith, e)),
        linked_iff.0 (ground (arith, e)),
        ground (arith, e),
      ),
      λ (d, l, t). ground (arith, e, Nodup_repeated (names dag.tasks) d, linked_iff.1 l),
    )

named_iff : (n : String) → (not (n == "") ≡ true) ↔ (n ≢ "")
named_iff n = (λ h. ground (arith, eq_iff n ""), λ h. ground (arith, eq_iff n ""))

not-true_iff : (b : Bool) → (not b ≡ true) ↔ (b ≡ false)
not-true_iff true = (λ h. cc, λ h. cc)
not-true_iff false = (λ h. refl, λ h. refl)

-- The constraints on the DAG's own fields, and those on its tasks.
abbrev FieldsPass : DagConfig → Type 0
FieldsPass dag =
    (not (dag.name == "") ≡ true)
    × (not (is_empty (names dag.tasks)) ≡ true)
    × (tasks_faults 0 dag.tasks ≡ [])
    × (not (no_upstreams dag.trigger) ≡ true)

dag_field_faults_iff : (dag : DagConfig) → (dag_field_faults dag ≡ []) ↔ FieldsPass dag
unfolding dag_field_faults
dag_field_faults_iff dag = (
  λ h.
      let (a, h₁) = (require_cons_iff _ _ _ _).0 h in
      let (b, h₂) = (require_cons_iff _ _ _ _).0 h₁ in
      let (c, h₃) = (append-nil_iff _ _).0 h₂ in (a, b, c, (require_iff _ _ _).0 h₃),
  λ (a, b, c, d).
      (require_cons_iff _ _ _ _).1
        (a, (require_cons_iff _ _ _ _).1 (b, (append-nil_iff _ _).1 (c, (require_iff _ _ _).1 d))),
)

-- A document passes validation exactly if the DAG and its tasks are named, each task runs either a
-- pipeline or a script, with a delay of at least 0 and a multiplier of at least 1, the names of the
-- tasks are distinct, each dependency is another task of the DAG, and a `trigger` names some
-- upstream, and not the DAG itself.
pub validate_document_iff : (dag : DagConfig) → (validate_document dag ≡ []) ↔ IsValidDag dag
unfolding validate_document
validate_document_iff dag = (
  λ h.
      let (fields, shape) = (after_iff (dag_field_faults dag) _ _).0 h in
      let (a, b, c, d) = (dag_field_faults_iff dag).0 fields in
      let (distinct, linked, own) = (validate_task_graph_shape_iff dag).0 shape in
      record {
        named = (named_iff dag.name).0 a;
        some_task = (not-true_iff _).0 b;
        valid_tasks = (tasks_faults_iff 0 dag.tasks).0 c;
        distinct_names = distinct;
        linked = linked;
        some_upstream = (not-true_iff _).0 d;
        not_own_trigger = own;
      },
  λ v. (after_iff (dag_field_faults dag) _ _).1 (
    (dag_field_faults_iff dag).1 (
      (named_iff dag.name).1 v.named,
      (not-true_iff _).1 v.some_task,
      (tasks_faults_iff 0 dag.tasks).1 v.valid_tasks,
      (not-true_iff _).1 v.some_upstream,
    ),
    (validate_task_graph_shape_iff dag).1 (v.distinct_names, v.linked, v.not_own_trigger),
  ),
)
