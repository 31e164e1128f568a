-- ===== src/Config/Loader.antt =====
-- src/nexolith/config/loader.py: `load_pipeline`. The file system, the YAML parser, pydantic's
-- reading of a document, Python's `repr`, and the imports of local code are the fields of `Project`.
pub mod Merged
pub mod Resolved
use nexolith.Base.{
  ℕ, suc, String, Bool, true, false, not, Option, none, some, List, [], ◌∷◌, ◌==◌, if◌then◌else◌,
  Result, ok, err, Error, string_eq, nat_eq, ◌>>=◌, ◌>>◌, >>=-eq-ok, concat, join, show_nat,
  text_le,
}
use nexolith.Config.Environment.{Node, resolve_environment, mapping, Environment}
use nexolith.Config.Models.{
  ConfigFault, CsvConfig, DestinationConfig, pipeline_faults, SourceConfig, TransformationConfig,
  is_none, csv_destination, python_job, function_destination, PipelineDocument, csv_source,
  sql_source, PythonJobConfig,
}
use nexolith.Nexofunctions.Loader.{load_function_registry, load_action_registry, LocalDirectory}
use nexolith.Nexofunctions.Registry.{lookup_action, Registry, lookup_function}
use nexolith.Transformations.{missing_from}
use nexolith.Types.{Parameters, assign}
use nexolith.Jobs.{load_job_module, resolve_entrypoint, Interpreter}
use nexolith.Base.Sort.{sort_by}
use nexolith.Nexoactions.Contracts.{bind_parameters, keys, NexoActionDefinition}
use nexolith.Nexoactions.Execution.{NexoActionConfig}
use nexolith.Nexofunctions.Contracts.{
  bind_function_parameters, NexoFunctionDefinition, builtin_nexo_functions,
}
use nexolith.Nexofunctions.Destination.{NexoFunctionDestinationConfig}

-- What `yaml.safe_load` ends with; an error may know its line and column.
pub data Yaml : Type 0 where
  yaml_error : Option (ℕ × ℕ) → Yaml
  loaded : Node → Yaml

pub record Project : Type 0 where
  pub is_file : String → Bool
  -- Reading ends with a text, an `OSError`, or another exception.
  pub read_text : String → Result String
  pub is_os_error : Error → Bool
  pub is_absolute : String → Bool
  pub child : String → String → String
  pub parent : String → String
  pub safe_load : String → Yaml
  pub model_validate : Node → Option PipelineDocument
  pub report : List ConfigFault → String
  pub environment : Environment
  pub repr : String → String
  pub functions : LocalDirectory NexoFunctionDefinition
  pub actions : LocalDirectory NexoActionDefinition
  pub interpreter : Interpreter

abbrev configuration {ℓ} : {A : Type ℓ} → List String → Result A
configuration pieces = err (Error.configuration_error (concat pieces))

-- `except OSError`.
abbrev or_unreadable : (Error → Bool) → String → Result String → Result String
or_unreadable is_os_error message (ok t) = ok t
or_unreadable is_os_error message (err e) =
    if is_os_error e then err (Error.configuration_error message) else err e

abbrev yaml_place : Option (ℕ × ℕ) → String
yaml_place none = ""
yaml_place (some (line, column)) =
    concat (" at line " ∷ show_nat (suc line) ∷ ", column " ∷ show_nat (suc column) ∷ [])

-- `except ValueError`; the text of the ValueError, which ends the message, is not modelled.
abbrev or_invalid {ℓ} : {A : Type ℓ} → (noun type : String) → Result A → Result A
or_invalid noun type (ok a) = ok a
or_invalid noun type (err Error.value_error) =
    configuration ("Invalid parameters for " ∷ noun ∷ " '" ∷ type ∷ "'" ∷ [])
or_invalid noun type (err e) = err e

-- `{**declared, **overrides}`.
unfoldable pub merged : Parameters → Parameters → Parameters
merged declared [] = declared
merged declared ((name, value) ∷ rest) = merged (assign name value declared) rest

abbrev pub unset : Parameters → List String
unset [] = []
unset ((name, value) ∷ rest) =
    let others = unset rest in if is_none value then name ∷ others else others

abbrev is_empty_list {ℓ} : {A : Type ℓ} → List A → Bool
is_empty_list [] = true
is_empty_list (x ∷ xs) = false

abbrev named_after : String → List String → Error
named_after text names =
    Error.configuration_error (concat (text ∷ join ", " (sort_by text_le names) ∷ []))

-- `_resolve_parameters` of a SQL source.
unfoldable pub resolve_sql_parameters : Parameters → Parameters → Result Parameters
unfolding missing_from merged
resolve_sql_parameters declared overrides = elim (missing_from (keys declared) (keys overrides)) [
  | n ∷ ns ↦ err (
      named_after "Unknown parameter override(s), not declared in this pipeline's 'parameters': "
        (n ∷ ns))
  | [] ↦ elim (unset (merged declared overrides)) [
    | n ∷ ns ↦ err (named_after "Missing required parameter(s): " (n ∷ ns))
    | [] ↦ ok (merged declared overrides)
  ]
]

unfoldable pub resolve_parameters : SourceConfig → Parameters → Result SourceConfig
unfolding resolve_sql_parameters
resolve_parameters (csv_source c) overrides =
    if is_empty_list overrides
    then ok (csv_source c)
    else configuration (
        "Parameter overrides were supplied, but this pipeline's source does not declare a SQL query."
        ∷ [])
resolve_parameters (sql_source s) overrides =
    resolve_sql_parameters s.parameters overrides
    >>= (λ ps. ok (sql_source (record s { parameters = ps })))

module _ (project : Project) where
  abbrev pub resolved_path : String → String → String
  resolved_path base path = if project.is_absolute path then path else project.child base path

  -- `_resolve_query_file`, with the path of the file.
  unfoldable pub read_query : String → Result String
  read_query path =
      if project.is_file path
      then or_unreadable project.is_os_error
          (concat ("Could not read query file: " ∷ path ∷ ". Check file permissions." ∷ []))
          (project.read_text path)
      else configuration ("Query file not found: " ∷ path ∷ ". Check the path and try again." ∷ [])

  unfoldable pub resolve_query_file : String → SourceConfig → Result SourceConfig
  unfolding read_query
  resolve_query_file base (csv_source c) = ok (csv_source c)
  resolve_query_file base (sql_source s) = elim s.query_file [
    | none ↦ ok (sql_source s)
    | some file ↦
        if file == ""
        then ok (sql_source s)
        else read_query (resolved_path base file)
          >>= (λ text. ok (sql_source (record s { query = some text })))
  ]

  unfoldable pub resolve_python_job : String → PythonJobConfig → Result PythonJobConfig
  unfolding load_job_module resolve_entrypoint
  resolve_python_job base job =
      let path = resolved_path base job.file in
      if project.is_file path
      then (do
        m ← load_job_module project.interpreter path
        found ← resolve_entrypoint project.interpreter m job.entrypoint path
        ok (record job { file = path }))
      else configuration
          ("Python job file not found: " ∷ path ∷ ". Check the path and try again." ∷ [])

  unfoldable pub resolve_step : String → TransformationConfig → Result TransformationConfig
  unfolding resolve_python_job
  resolve_step base (python_job job) = resolve_python_job base job >>= (λ j. ok (python_job j))
  resolve_step base step = ok step

  unfoldable pub resolve_python_jobs :
      String → List TransformationConfig → Result (List TransformationConfig)
  unfolding resolve_step
  resolve_python_jobs base [] = ok []
  resolve_python_jobs base (step ∷ steps) = do
    one ← resolve_step base step
    rest ← resolve_python_jobs base steps
    ok (one ∷ rest)

  unfoldable pub resolve_function_destination :
      NexoFunctionDestinationConfig → Result NexoFunctionDestinationConfig
  unfolding load_function_registry lookup_function bind_function_parameters
  resolve_function_destination d = do
    registry ← load_function_registry (λ f. f.name) builtin_nexo_functions project.functions
    definition ← lookup_function project.repr d.type registry
    bound ← or_invalid "Nexo Function" d.type (bind_function_parameters definition d.parameters)
    ok (record d { resolved_function = some definition })

  unfoldable pub resolve_nexo_function : DestinationConfig → Result DestinationConfig
  unfolding resolve_function_destination
  resolve_nexo_function (function_destination d) =
      resolve_function_destination d >>= (λ r. ok (function_destination r))
  resolve_nexo_function other = ok other

  unfoldable pub resolve_action_in :
      Registry NexoActionDefinition → NexoActionConfig → Result NexoActionConfig
  unfolding lookup_action bind_parameters
  resolve_action_in registry a = do
    definition ← lookup_action project.repr a.type registry
    bound ← or_invalid "Nexo Action" a.type (bind_parameters definition a.parameters)
    ok (record a { resolved_action = some definition })

  unfoldable pub resolve_each :
      Registry NexoActionDefinition → List NexoActionConfig → Result (List NexoActionConfig)
  unfolding resolve_action_in
  resolve_each registry [] = ok []
  resolve_each registry (a ∷ actions) = do
    one ← resolve_action_in registry a
    rest ← resolve_each registry actions
    ok (one ∷ rest)

  -- Without actions, no local file is imported.
  unfoldable pub resolve_nexo_actions : List NexoActionConfig → Result (List NexoActionConfig)
  unfolding load_action_registry resolve_each
  resolve_nexo_actions [] = ok []
  resolve_nexo_actions (a ∷ actions) =
      load_action_registry (λ d. d.name) project.actions
      >>= (λ registry. resolve_each registry (a ∷ actions))

  abbrev pub resolve_csv : String → CsvConfig → CsvConfig
  resolve_csv base c = record c { path = resolved_path base c.path }

  -- `_resolve_csv_paths`.
  abbrev pub resolve_csv_source : String → SourceConfig → SourceConfig
  resolve_csv_source base (csv_source c) = csv_source (resolve_csv base c)
  resolve_csv_source base (sql_source s) = sql_source s

  abbrev pub resolve_csv_destination : String → DestinationConfig → DestinationConfig
  resolve_csv_destination base (csv_destination c) = csv_destination (resolve_csv base c)
  resolve_csv_destination base other = other

  unfoldable pub read_document : String → Result Node
  read_document path =
      if project.is_file path
      then (do
        content ←
            or_unreadable project.is_os_error
              (concat ("Could not read pipeline file: " ∷ path ∷ ". Check file permissions." ∷ []))
              (project.read_text path)
        mapping_of (project.safe_load content))
      else configuration
          ("Pipeline file not found: " ∷ path ∷ ". Check the path and try again." ∷ [])
    where
      mapping_of : Yaml → Result Node
      mapping_of (yaml_error place) =
          configuration ("Invalid YAML in " ∷ path ∷ yaml_place place ∷ "." ∷ [])
      mapping_of (loaded (mapping entries)) = ok (mapping entries)
      mapping_of (loaded _) =
          configuration ("Pipeline YAML must contain a mapping at its root" ∷ [])

  abbrev invalid_pipeline {ℓ} : {A : Type ℓ} → List ConfigFault → Result A
  invalid_pipeline faults =
      configuration ("Invalid pipeline configuration:\n" ∷ project.report faults ∷ [])

  -- `PipelineConfig.validate_document`.
  unfoldable pub validated_document : Node → Result PipelineDocument
  unfolding pipeline_faults
  validated_document node = elim (project.model_validate node) [
    | none ↦ invalid_pipeline []
    | some p ↦ elim (pipeline_faults p) [ [] ↦ ok p | f ∷ fs ↦ invalid_pipeline (f ∷ fs) ]
  ]

  -- What is done with a valid configuration.
  unfoldable pub resolve_references :
      String → Parameters → PipelineDocument → Result PipelineDocument
  unfolding resolve_query_file resolve_parameters resolve_python_jobs resolve_nexo_function
      resolve_nexo_actions
  resolve_references base overrides p = do
    queried ← resolve_query_file base p.source
    source ← resolve_parameters queried overrides
    steps ← resolve_python_jobs base p.transformations
    destination ← resolve_nexo_function p.destination
    actions ← resolve_nexo_actions p.actions
    ok (record {
      name = p.name;
      source = resolve_csv_source base source;
      transformations = steps;
      destination = resolve_csv_destination base destination;
      actions = actions;
    })

  unfoldable pub load_pipeline : String → Parameters → Result PipelineDocument
  unfolding read_document resolve_environment validated_document resolve_references
  load_pipeline path overrides = do
    document ← read_document path
    resolved ← resolve_environment project.environment document
    config ← validated_document resolved
    resolve_references (project.parent path) overrides config
