-- ===== src/Dag/Validator.antt =====
-- src/nexolith/dag/validator.py: reading and validating a DAG file.
pub mod Loaded
pub mod Accepted
use nexolith.Base.{
  ℕ, suc, String, List, [], ◌∷◌, Bool, true, false, Option, none, some, map, if◌then◌else◌, concat,
  join, show_nat, Result, ok, err, Error, configuration_error, key_error, out_of_fuel, ◌>>=◌, ◌>>◌,
  unexpected,
}
use nexolith.Types.{Parameters}
use nexolith.Dag.Models.{DagTaskConfig, DagConfig, Fault, FaultKind, validate_document}
use nexolith.Dag.Cycles.{
  Outcome, cycle, finished, key_error as unknown_name, out_of_fuel as no_fuel, detect_cycle,
}
use nexolith.Scheduler.Interval.{Unicode, parse_interval}

-- What a file holds, as the YAML parser and pydantic's type checks read it.
pub data Document : Type 0 where
  unreadable not_a_mapping : Document
  -- The parser's mark, as line and column from 0.
  invalid_yaml : Option (ℕ × ℕ) → Document
  mapping : DagConfig → Document

-- The file system, path arithmetic, pydantic's own messages, and the loading of pipelines.
pub record Files : Type 0 where
  pub is_file : String → Bool
  pub document : String → Document
  pub is_absolute : String → Bool
  pub child : String → String → String
  pub parent : String → String
  pub message : FaultKind → String
  pub unicode : Unicode
  pub load_pipeline : String → Parameters → Result (Unit {0})

module _ (files : Files) where
  -- A fault with its place in front, as `_validate_structure` writes it.
  abbrev pub describe : Fault → String
  describe f =
      if is_top f.loc
      then files.message f.kind
      else concat (join "." f.loc ∷ ": " ∷ files.message f.kind ∷ [])
    where
      is_top : List String → Bool
      is_top [] = true
      is_top (x ∷ xs) = false

  unfoldable pub validate_structure : DagConfig → Result DagConfig
  validate_structure dag = elim (validate_document dag) [
    | [] ↦ ok dag
    | f ∷ fs ↦ err (
        configuration_error
          (concat ("Invalid DAG configuration:\n" ∷ join "\n" (map describe (f ∷ fs)) ∷ [])))
  ]

  -- Other exceptions than ConfigurationError pass through.
  unfoldable pub relabel : String → Error → Error
  relabel prefix (configuration_error m) = configuration_error (concat (prefix ∷ m ∷ []))
  relabel prefix e = e

  unfoldable pub validate_schedule : DagConfig → Option String → Result (Unit {0})
  validate_schedule dag none = ok tt
  validate_schedule dag (some schedule) = elim (parse_interval files.unicode schedule) [
    | ok seconds ↦ ok tt
    | err e ↦ err (relabel "Invalid DAG schedule: " e)
  ]

  unfoldable pub yaml_error : String → Option (ℕ × ℕ) → String
  yaml_error path none = concat ("Invalid YAML in " ∷ path ∷ "." ∷ [])
  yaml_error path (some (line, column)) = concat (
      "Invalid YAML in "
      ∷ path
      ∷ " at line "
      ∷ show_nat (suc line)
      ∷ ", column "
      ∷ show_nat (suc column)
      ∷ "."
      ∷ [])

  unfoldable pub parse_document : String → Document → Result DagConfig
  parse_document path unreadable = err (
      configuration_error
        (concat ("Could not read DAG file: " ∷ path ∷ ". Check file permissions." ∷ [])))
  parse_document path (invalid_yaml mark) = err (configuration_error (yaml_error path mark))
  parse_document path not_a_mapping =
      err (configuration_error "DAG YAML must contain a mapping at its root")
  parse_document path (mapping document) = do
    dag ← validate_structure document
    validate_schedule dag dag.schedule
    ok dag

  unfoldable pub read_dag_config : String → Result DagConfig
  read_dag_config path =
      if files.is_file path
      then parse_document path (files.document path)
      else err (
          configuration_error
            (concat ("DAG file not found: " ∷ path ∷ ". Check the path and try again." ∷ [])))

  unfoldable pub report_cycle : DagConfig → Outcome → Result (Unit {0})
  report_cycle dag (cycle names) = err (
      configuration_error
        (concat ("Cycle detected in DAG '" ∷ dag.name ∷ "': " ∷ join " -> " names ∷ [])))
  report_cycle dag (finished s) = ok tt
  report_cycle dag (unknown_name n) = err (key_error n)
  report_cycle dag no_fuel = err out_of_fuel

  unfoldable pub check_for_cycles : DagConfig → Result (Unit {0})
  check_for_cycles dag = report_cycle dag (detect_cycle dag.tasks)

  -- A relative path is resolved from the directory of the DAG file.
  unfoldable pub resolve : String → String → String
  resolve base_dir path = if files.is_absolute path then path else files.child base_dir path

  unfoldable pub validate_referenced_script : String → DagTaskConfig → String → Result (Unit {0})
  validate_referenced_script base_dir task script =
      if files.is_file (resolve base_dir script)
      then ok tt
      else err (
          configuration_error (
            concat (
              "Task '"
              ∷ task.name
              ∷ "' references a script that does not exist: "
              ∷ resolve base_dir script
              ∷ [])))

  -- The text of a ConfigurationError is put behind the task and its file.
  unfoldable pub validate_pipeline : String → DagTaskConfig → String → Result (Unit {0})
  validate_pipeline base_dir task pipeline =
      elim (files.load_pipeline (resolve base_dir pipeline) task.parameters) [
        | ok loaded ↦ ok tt
        | err e ↦ err (
            relabel
              (concat (
                "Task '" ∷ task.name ∷ "' references an invalid pipeline (" ∷ pipeline ∷ "): "
                ∷ []))
              e)
      ]

  -- The `assert` fails for a task that names neither.
  unfoldable pub validate_reference :
      String → DagTaskConfig → Option String → Option String → Result (Unit {0})
  validate_reference base_dir task pipeline (some script) =
      validate_referenced_script base_dir task script
  validate_reference base_dir task (some pipeline) none = validate_pipeline base_dir task pipeline
  validate_reference base_dir task none none = err (unexpected "AssertionError")

  unfoldable pub validate_referenced_pipelines : String → List DagTaskConfig → Result (Unit {0})
  validate_referenced_pipelines base_dir [] = ok tt
  validate_referenced_pipelines base_dir (task ∷ tasks) = do
    validate_reference base_dir task task.pipeline task.script
    validate_referenced_pipelines base_dir tasks

  unfoldable pub load_dag : String → Result DagConfig
  load_dag path = do
    dag ← read_dag_config path
    check_for_cycles dag
    validate_referenced_pipelines (files.parent path) dag.tasks
    ok dag
