-- ===== src/Dag/Validator/Accepted.antt =====
-- Exactly the sound DAG files are loaded, and a loaded DAG can be executed.
use nexolith.Base.{
  String, List, [], true, ◌≡◌, ◌↔◌, refl, ap, subst, ok, >>=-eq-ok, arith, ◌∙◌, sym,
}
use nexolith.Dag.Models.{DagTaskConfig, DagConfig, validate_document}
use nexolith.Dag.Models.Valid.{IsValidDag, validate_document_iff}
use nexolith.Dag.Order.{topological_order}
use nexolith.Dag.Order.Complete.{topological_order_total}
use nexolith.Dag.Validator.{
  Files, Document, unreadable, not_a_mapping, invalid_yaml, mapping, validate_structure,
  validate_schedule, parse_document, read_dag_config, check_for_cycles,
  validate_referenced_pipelines, load_dag,
}
use nexolith.Dag.Validator.Loaded.{
  HasSchedule, IsLoadable, validate_structure_iff, validate_schedule_iff,
  validate_referenced_pipelines_iff, report_cycle_iff, known_of_linked,
}

module _ (files : Files) where
  parse_document_iff :
      (path : String) (document : Document) (dag : DagConfig)
      → (parse_document files path document ≡ ok dag)
        ↔ ((document ≡ mapping dag) × IsValidDag dag × HasSchedule files dag.schedule)
  unfolding parse_document
  parse_document_iff path unreadable dag = (λ h. absurd (cc), λ h. absurd (let e = h.0 in cc))
  parse_document_iff path not_a_mapping dag = (λ h. absurd (cc), λ h. absurd (let e = h.0 in cc))
  parse_document_iff path (invalid_yaml m) dag = (λ h. absurd (cc), λ h. absurd (let e = h.0 in cc))
  parse_document_iff path (mapping document) dag = (
    λ h.
        let (d, valid, h₁) = >>=-eq-ok (validate_structure files document) _ dag h in
        let (u, schedule, h₂) = >>=-eq-ok (validate_schedule files d d.schedule) _ dag h₁ in
        let (same, clean) = (validate_structure_iff files document d).0 valid in
        let is_dag : d ≡ dag = ground arith in
        (
          ap mapping (same ∙ is_dag),
          subst IsValidDag (same ∙ is_dag) ((validate_document_iff document).0 clean),
          subst (λ x. HasSchedule files x.schedule) is_dag
              ((validate_schedule_iff files d d.schedule).0 schedule),
        ),
    λ (e, valid, schedule).
        let same : document ≡ dag = cc in
        let clean =
          subst (λ x. validate_document x ≡ []) (sym same) ((validate_document_iff dag).1 valid) in
        let passes = (validate_structure_iff files document dag).1 (same, clean) in
        let on_time = (validate_schedule_iff files dag dag.schedule).1 schedule in
        rw passes (rw on_time refl),
  )

  -- `load_dag` returns a DAG exactly if the file is there and holds it, it passes validation, its
  -- schedule is an interval, its dependencies have no cycle, and what its tasks refer to is there.
  pub load_dag_iff :
      (path : String) (dag : DagConfig) → (load_dag files path ≡ ok dag) ↔ IsLoadable files path dag
  unfolding load_dag read_dag_config
  load_dag_iff path dag = (
    λ h.
        let (d, loaded, h₁) = >>=-eq-ok (read_dag_config files path) _ dag h in
        let (u, acyclic, h₂) = >>=-eq-ok (check_for_cycles files d) _ dag h₁ in
        let (w, refs, h₃) =
          >>=-eq-ok (validate_referenced_pipelines files (files.parent path) d.tasks) _ dag h₂ in
        let is_dag : d ≡ dag = ground arith in
        let present : files.is_file path ≡ true = ground arith in
        let (parsed, valid, schedule) =
          (parse_document_iff path (files.document path) d).0 (ground arith) in
        let (rank, ranked) = (report_cycle_iff files d valid).0 acyclic in
        subst (IsLoadable files path) is_dag (record {
          is_file = present;
          parsed = parsed;
          valid = valid;
          schedule = schedule;
          rank = rank;
          ranked = ranked;
          references = (validate_referenced_pipelines_iff files (files.parent path) d.tasks).0 refs;
        }),
    λ l.
        let parsed =
          (parse_document_iff path (files.document path) dag).1 (l.parsed, l.valid, l.schedule) in
        let acyclic = (report_cycle_iff files dag l.valid).1 (l.rank, l.ranked) in
        let refs =
          (validate_referenced_pipelines_iff files (files.parent path) dag.tasks).1 l.references in
        rw (l.is_file, parsed) (rw acyclic (rw refs refl)),
  )

  -- Every DAG that `load_dag` returns has an execution order, so the executor's own check for a
  -- cycle never fires on it.
  pub load_dag-topological_order :
      (path : String) (dag : DagConfig)
      → load_dag files path ≡ ok dag
      → (plan : List DagTaskConfig) × (topological_order dag.tasks ≡ ok plan)
  load_dag-topological_order path dag h =
      let l = (load_dag_iff path dag).0 h in
      topological_order_total l.rank dag.tasks l.ranked
        (known_of_linked files dag.tasks l.valid.linked) l.valid.distinct_names
