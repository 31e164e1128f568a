-- ===== src/Dag/Validator/Loaded.antt =====
-- What each step of loading a DAG file accepts.
use nexolith.Base.{
  ◌>>◌, ℕ, String, List, [], ◌∷◌, true, Option, none, some, ◌≡◌, ◌↔◌, refl, inl, inr, All, All-map,
  Result, ok, err, arith, Result-cases,
}
use nexolith.Dag.Models.{DagTaskConfig, DagConfig, names, validate_document}
use nexolith.Dag.Models.Shape.{IsLinked}
use nexolith.Dag.Models.Valid.{IsValidDag}
use nexolith.Dag.Order.Complete.{IsKnown, IsRanked}
use nexolith.Dag.Cycles.{Outcome, cycle, finished, key_error, out_of_fuel, detect_cycle}
use nexolith.Dag.Cycles.Verdict.{Verdict, detect_cycle-Verdict, IsCycle-not-IsRanked}
use nexolith.Dag.Cycles.Visit.{time}
use nexolith.Scheduler.Interval.{parse_interval}
use nexolith.Dag.Validator.{
  Files, mapping, validate_structure, validate_schedule, report_cycle, check_for_cycles, resolve,
  validate_referenced_script, validate_reference, validate_referenced_pipelines, validate_pipeline,
}

module _ (files : Files) where
  -- A file without a schedule, or with one that the scheduler can parse.
  abbrev pub HasSchedule : Option String → Type 0
  HasSchedule none = Unit
  HasSchedule (some s) = (seconds : ℕ) × (parse_interval files.unicode s ≡ ok seconds)

  -- What a task refers to is there: the script, or a pipeline that loads.
  abbrev pub RefersTo : String → DagTaskConfig → Option String → Option String → Type 0
  RefersTo base_dir task pipeline (some script) =
      files.is_file (resolve files base_dir script) ≡ true
  RefersTo base_dir task (some pipeline) none =
      files.load_pipeline (resolve files base_dir pipeline) task.parameters ≡ ok tt
  RefersTo base_dir task none none = ⊥

  pub record IsLoadable (path : String) (dag : DagConfig) : Type 0 where
    pub is_file : files.is_file path ≡ true
    pub parsed : files.document path ≡ mapping dag
    pub valid : IsValidDag dag
    pub schedule : HasSchedule dag.schedule
    pub rank : String → ℕ
    pub ranked : IsRanked rank dag.tasks
    pub references : All (λ t. RefersTo (files.parent path) t t.pipeline t.script) dag.tasks

  pub validate_structure_iff :
      (document dag : DagConfig)
      → (validate_structure files document ≡ ok dag)
        ↔ ((document ≡ dag) × (validate_document document ≡ []))
  unfolding validate_structure
  validate_structure_iff document dag = (λ h. (ground arith, ground arith), λ (e, v). ground arith)

  pub validate_schedule_iff :
      (dag : DagConfig) (schedule : Option String)
      → (validate_schedule files dag schedule ≡ ok tt) ↔ HasSchedule schedule
  unfolding validate_schedule
  validate_schedule_iff dag none = (λ h. tt, λ h. refl)
  validate_schedule_iff dag (some s) = (
    λ h. elim (Result-cases (parse_interval files.unicode s)) [
      | inl (t, e) ↦ (t, e)
      | inr (e, f) ↦ absurd (ground arith)
    ],
    λ (t, e). ground arith,
  )

  validate_pipeline_iff :
      (base_dir : String) (task : DagTaskConfig) (pipeline : String)
      → (validate_pipeline files base_dir task pipeline ≡ ok tt)
        ↔ (files.load_pipeline (resolve files base_dir pipeline) task.parameters ≡ ok tt)
  unfolding validate_pipeline
  validate_pipeline_iff base_dir task pipeline = (
    λ h.
        elim (Result-cases
          (files.load_pipeline (resolve files base_dir pipeline) task.parameters)) [
            | inl (t, e) ↦ e
            | inr (e, f) ↦ absurd (ground arith)
          ],
    λ e. ground arith,
  )

  validate_reference_iff :
      (base_dir : String) (task : DagTaskConfig) (p s : Option String)
      → (validate_reference files base_dir task p s ≡ ok tt) ↔ RefersTo base_dir task p s
  unfolding validate_reference validate_referenced_script
  validate_reference_iff base_dir task p (some s) = (λ h. ground arith, λ h. ground arith)
  validate_reference_iff base_dir task (some p) none = validate_pipeline_iff base_dir task p
  validate_reference_iff base_dir task none none = (λ h. cc, λ h. absurd h)

  then-ok_iff : (m k : Result (Unit {0})) → ((m >> k) ≡ ok tt) ↔ ((m ≡ ok tt) × (k ≡ ok tt))
  then-ok_iff (ok tt) k = (λ h. (refl, h), λ h. h.1)
  then-ok_iff (err e) k = (λ h. absurd (cc), λ h. absurd (let e = h.0 in cc))

  pub validate_referenced_pipelines_iff :
      (base_dir : String) (tasks : List DagTaskConfig)
      → (validate_referenced_pipelines files base_dir tasks ≡ ok tt)
        ↔ All (λ t. RefersTo base_dir t t.pipeline t.script) tasks
  unfolding validate_referenced_pipelines
  validate_referenced_pipelines_iff base_dir [] = (λ h. tt, λ h. refl)
  validate_referenced_pipelines_iff base_dir (t ∷ ts) =
      let first = validate_reference_iff base_dir t t.pipeline t.script in
      let later = validate_referenced_pipelines_iff base_dir ts in
      (
        λ h. let (a, b) = (then-ok_iff _ _).0 h in (first.0 a, later.0 b),
        λ h. (then-ok_iff _ _).1 (first.1 h.0, later.1 h.1),
      )

  pub known_of_linked :
      (tasks : List DagTaskConfig) → All (IsLinked (names tasks)) tasks → IsKnown tasks
  known_of_linked tasks = All-map _ _ (λ t l. l.known_deps) tasks

  pub report_cycle_iff :
      (dag : DagConfig)
      → IsValidDag dag
      → (check_for_cycles files dag ≡ ok tt) ↔ ((rank : String → ℕ) × IsRanked rank dag.tasks)
  unfolding check_for_cycles
  report_cycle_iff dag v =
      go (detect_cycle dag.tasks)
        (detect_cycle-Verdict dag.tasks v.distinct_names (known_of_linked dag.tasks v.linked))
    where
      go :
          (o : Outcome)
          → Verdict dag.tasks o
          → (report_cycle files dag o ≡ ok tt) ↔ ((rank : String → ℕ) × IsRanked rank dag.tasks)
      go (cycle c) g = (
        λ h. absurd (unfold report_cycle in cc),
        λ (rank, ranked). absurd (IsCycle-not-IsRanked dag.tasks c rank g ranked),
      )
      go (finished s) g = (λ h. (time s, g), λ h. unfold report_cycle in refl)
      go (key_error n) g = absurd g
      go out_of_fuel g = absurd g
