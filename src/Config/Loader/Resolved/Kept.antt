-- ===== src/Config/Loader/Resolved/Kept.antt =====
-- What loading leaves of a configuration as it was written.
use nexolith.Base.{
  String, ◌≡◌, ◌⊎◌, refl, inl, inr, Option, none, some, List, [], ◌∷◌, map, arith, ok, ap, subst,
  Bool-cases, string_eq, nat_eq, ◌>>=◌, >>=-eq-ok,
}
use nexolith.Config.Loader.{
  Project, read_query, resolved_path, resolve_parameters, resolve_sql_parameters,
  resolve_csv_source, resolve_csv, resolve_csv_destination, resolve_step, resolve_python_job,
  resolve_python_jobs, resolve_nexo_function, resolve_function_destination, resolve_action_in,
  resolve_each, resolve_nexo_actions, or_invalid,
}
use nexolith.Config.Models.{
  SourceConfig, csv_source, sql_source, DestinationConfig, csv_destination, sql_destination,
  function_destination, TransformationConfig, python_job, PythonJobConfig, PipelineDocument,
}
use nexolith.Jobs.{load_job_module, resolve_entrypoint}
use nexolith.Nexoactions.Contracts.{NexoActionDefinition, bind_parameters}
use nexolith.Nexoactions.Execution.{NexoActionConfig}
use nexolith.Nexofunctions.Contracts.{builtin_nexo_functions, bind_function_parameters}
use nexolith.Nexofunctions.Loader.{load_action_registry, load_function_registry}
use nexolith.Nexofunctions.Registry.{Registry, lookup_action, lookup_function}
use nexolith.Types.{Parameters}

abbrev pub plain_action : NexoActionConfig → NexoActionConfig
plain_action a = record a { resolved_action = none }

abbrev pub plain_destination : DestinationConfig → DestinationConfig
plain_destination (function_destination d) =
    function_destination (record d { resolved_function = none })
plain_destination (csv_destination c) = csv_destination c
plain_destination (sql_destination c) = sql_destination c

module _ (project : Project) where
  -- The query stays as it is, or becomes the text of the query file.
  abbrev pub HasText : String → Option String → (written query : Option String) → Type 0
  HasText base none written query = query ≡ written
  HasText base (some file) written query =
      ((file ≡ "") × (query ≡ written))
      ⊎ ((text : String) × (read_query project (resolved_path project base file) ≡ ok text)
          × (query ≡ some text))

  abbrev pub IsQueried : String → SourceConfig → SourceConfig → Type 0
  IsQueried base (csv_source c) out = out ≡ csv_source c
  IsQueried base (sql_source s) out =
      (query : Option String) × HasText base s.query_file s.query query
      × (out ≡ sql_source (record s { query = query }))

  -- A source as it was written, with its path, its query and its parameters in place.
  abbrev pub KeepsSource : String → Parameters → SourceConfig → SourceConfig → Type 0
  KeepsSource base overrides (csv_source c) out = out ≡ csv_source (resolve_csv project base c)
  KeepsSource base overrides (sql_source s) out =
      (query : Option String) × (parameters : Parameters) × HasText base s.query_file s.query query
      × (resolve_sql_parameters s.parameters overrides ≡ ok parameters)
      × (out ≡ sql_source (record s { query = query; parameters = parameters }))

  abbrev pub placed_step : String → TransformationConfig → TransformationConfig
  placed_step base (python_job job) =
      python_job (record job { file = resolved_path project base job.file })
  placed_step base step = step

  -- Nothing that was written is lost: paths are placed in the directory of the pipeline, and
  -- definitions are added to the function and to the actions.
  pub record Keeps (base : String) (overrides : Parameters) (config p : PipelineDocument)
      : Type 0 where
    pub name : p.name ≡ config.name
    pub source : KeepsSource base overrides config.source p.source
    pub steps : p.transformations ≡ map (placed_step base) config.transformations
    pub destination :
        plain_destination p.destination
        ≡ plain_destination (resolve_csv_destination project base config.destination)
    pub actions : map plain_action p.actions ≡ map plain_action config.actions

  pub resolve_parameters-KeepsSource :
      (base : String) (source queried out : SourceConfig) (overrides : Parameters)
      → IsQueried base source queried
      → resolve_parameters queried overrides ≡ ok out
      → KeepsSource base overrides source (resolve_csv_source project base out)
  unfolding resolve_parameters
  resolve_parameters-KeepsSource base (csv_source c) queried out overrides same h =
      ap (resolve_csv_source project base)
        (there overrides (subst (λ s. resolve_parameters s overrides ≡ ok out) same h))
    where
      there : (os : Parameters) → resolve_parameters (csv_source c) os ≡ ok out → out ≡ csv_source c
      there [] e = ground (arith, e)
      there (o ∷ os) e = absurd (cc)
  resolve_parameters-KeepsSource base (sql_source s) queried out overrides (query, text, same) h =
      let (ps, merged_as, last) =
        >>=-eq-ok (resolve_sql_parameters s.parameters overrides) _ out
          (subst (λ s. resolve_parameters s overrides ≡ ok out) same h) in
      let same_out : out ≡ sql_source (record s { query = query; parameters = ps }) =
        ground (arith, last) in
      (query, ps, text, merged_as, ap (resolve_csv_source project base) same_out)

  resolve_python_job-placed :
      (base : String) (job out : PythonJobConfig)
      → resolve_python_job project base job ≡ ok out
      → out ≡ record job { file = resolved_path project base job.file }
  unfolding resolve_python_job
  resolve_python_job-placed base job out h =
      elim (Bool-cases (project.is_file (resolved_path project base job.file))) [
        | inr e ↦ absurd (ground (arith, e, h))
        | inl e ↦
            let path = resolved_path project base job.file in
            let (m, imported_as, rest) =
              >>=-eq-ok (load_job_module project.interpreter path)
                (λ m.
                  resolve_entrypoint project.interpreter m job.entrypoint path
                  >>= (λ u. ok (record job { file = path })))
                out (ground (arith, e, h)) in
            let (u, found, same) =
              >>=-eq-ok (resolve_entrypoint project.interpreter m job.entrypoint path) _ out rest in
            ground (arith, same)
      ]

  resolve_step-placed :
      (base : String) (step out : TransformationConfig)
      → resolve_step project base step ≡ ok out
      → out ≡ placed_step base step
  unfolding resolve_step
  resolve_step-placed base (python_job job) out h =
      let (j, resolved, same) = >>=-eq-ok (resolve_python_job project base job) _ out h in
      ground (arith, same, resolve_python_job-placed base job j resolved)
  resolve_step-placed base (TransformationConfig.select columns) out h = ground (arith, h)
  resolve_step-placed base (TransformationConfig.rename columns) out h = ground (arith, h)
  resolve_step-placed base (TransformationConfig.drop_nulls columns) out h = ground (arith, h)
  resolve_step-placed base (TransformationConfig.filter_rows c o v) out h = ground (arith, h)

  pub resolve_python_jobs-placed :
      (base : String) (steps out : List TransformationConfig)
      → resolve_python_jobs project base steps ≡ ok out
      → out ≡ map (placed_step base) steps
  unfolding resolve_python_jobs
  resolve_python_jobs-placed base [] out h = ground (arith, h)
  resolve_python_jobs-placed base (step ∷ steps) out h =
      let (one, first, rest) = >>=-eq-ok (resolve_step project base step) _ out h in
      let (others, more, same) = >>=-eq-ok (resolve_python_jobs project base steps) _ out rest in
      ground (
        arith,
        same,
        resolve_step-placed base step one first,
        resolve_python_jobs-placed base steps others more,
      )

  pub resolve_function-plain :
      (base : String) (d out : DestinationConfig)
      → resolve_nexo_function project d ≡ ok out
      → plain_destination (resolve_csv_destination project base out)
        ≡ plain_destination (resolve_csv_destination project base d)
  unfolding resolve_nexo_function resolve_function_destination
  resolve_function-plain base (csv_destination c) out h =
      let same : csv_destination c ≡ out = ground (arith, h) in rw (← same) refl
  resolve_function-plain base (sql_destination c) out h =
      let same : sql_destination c ≡ out = ground (arith, h) in rw (← same) refl
  resolve_function-plain base (function_destination d) out h =
      let (r, resolved, last) = >>=-eq-ok (resolve_function_destination project d) _ out h in
      let (registry, made, rest) =
        >>=-eq-ok (load_function_registry (λ f. f.name) builtin_nexo_functions project.functions) _
          r resolved in
      let (definition, found, more) =
        >>=-eq-ok (lookup_function project.repr d.type registry) _ r rest in
      let (bound, fits, same) =
        >>=-eq-ok
          (or_invalid "Nexo Function" d.type (bind_function_parameters definition d.parameters)) _ r
          more in
      let same_r : record d { resolved_function = some definition } ≡ r = ground (arith, same) in
      let same_out : function_destination (record d { resolved_function = some definition }) ≡ out =
        ground (arith, last, same_r) in
      rw (← same_out) refl

  resolve_action_in-plain :
      (registry : Registry NexoActionDefinition) (a out : NexoActionConfig)
      → resolve_action_in project registry a ≡ ok out
      → plain_action out ≡ plain_action a
  unfolding resolve_action_in
  resolve_action_in-plain registry a out h =
      let (definition, found, rest) =
        >>=-eq-ok (lookup_action project.repr a.type registry) _ out h in
      let (bound, fits, same) =
        >>=-eq-ok (or_invalid "Nexo Action" a.type (bind_parameters definition a.parameters)) _ out
          rest in
      let same_out : record a { resolved_action = some definition } ≡ out = ground (arith, same) in
      rw (← same_out) refl

  resolve_each-plain :
      (registry : Registry NexoActionDefinition) (actions out : List NexoActionConfig)
      → resolve_each project registry actions ≡ ok out
      → map plain_action out ≡ map plain_action actions
  unfolding resolve_each
  resolve_each-plain registry [] out h = let same : [] ≡ out = ground (arith, h) in rw (← same) refl
  resolve_each-plain registry (a ∷ actions) out h =
      let (one, first, rest) = >>=-eq-ok (resolve_action_in project registry a) _ out h in
      let (others, more, same) = >>=-eq-ok (resolve_each project registry actions) _ out rest in
      let same_out : (one ∷ others) ≡ out = ground (arith, same) in
      rw (← same_out) (
        rw
          (
            resolve_action_in-plain registry a one first,
            resolve_each-plain registry actions others more,
          )
          refl)

  pub resolve_nexo_actions-plain :
      (actions out : List NexoActionConfig)
      → resolve_nexo_actions project actions ≡ ok out
      → map plain_action out ≡ map plain_action actions
  unfolding resolve_nexo_actions
  resolve_nexo_actions-plain [] out h = let same : [] ≡ out = ground (arith, h) in rw (← same) refl
  resolve_nexo_actions-plain (a ∷ actions) out h =
      let (registry, made, rest) =
        >>=-eq-ok (load_action_registry (λ d. d.name) project.actions) _ out h in
      resolve_each-plain registry (a ∷ actions) out rest
