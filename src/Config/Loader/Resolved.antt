-- ===== src/Config/Loader/Resolved.antt =====
-- What a pipeline that loads refers to.
pub mod Steps
pub mod Kept
pub mod Found
pub mod Loaded
use nexolith.Base.{String, ◌≡◌, true, some, List, [], ◌∷◌, Result, ok, All, Nodup}
use nexolith.Config.Loader.{Project}
use nexolith.Config.Models.{
  PipelineDocument, TransformationConfig, DestinationConfig, SourceConfig, csv_source,
  function_destination, sql_source, python_job,
}
use nexolith.Nexoactions.Execution.{NexoActionConfig}
use nexolith.Nexofunctions.Loader.{load_action_registry, load_function_registry}
use nexolith.Nexoactions.Contracts.{NexoActionDefinition, bind_parameters, NexoActionParameterValue}
use nexolith.Nexofunctions.Registry.{Registry}
use nexolith.Nexofunctions.Names.{function_name_from_identifier, action_name_from_identifier}
use nexolith.Nexofunctions.Contracts.{
  NexoFunctionDefinition, bind_function_parameters, builtin_nexo_functions, BoundParameters,
}
use nexolith.Jobs.{load_job_module, JobModule, callable_function}
use nexolith.Config.Loader.Merged.{HasValue}
use nexolith.Types.{field_of}
use nexolith.Config.Models.Valid.{action_types, IsNamed}

-- A definition that a registry has under a name.
abbrev pub IsFound {ℓ} : {D : Type ℓ} → Registry D → Result String → D → Type ℓ
IsFound registry read definition =
    (name : String) × (read ≡ ok name) × (field_of name registry ≡ some definition)

abbrev pub IsResolvedSource : SourceConfig → Type 0
IsResolvedSource (csv_source c) = Unit {0}
IsResolvedSource (sql_source s) = IsNamed (sql_source s) × All HasValue s.parameters

module _ (project : Project) where
  -- The registry has a definition under the type of an action, which is the one that is kept, and
  -- which takes the action's parameters.
  abbrev pub IsResolvedAction : Registry NexoActionDefinition → NexoActionConfig → Type 0
  IsResolvedAction registry a =
      (definition : NexoActionDefinition) × (a.resolved_action ≡ some definition)
      × IsFound registry (action_name_from_identifier a.type) definition
      × ((bound : List (String × NexoActionParameterValue)) × (bind_parameters definition
              a.parameters
            ≡ ok bound))

  -- A registry is made where there are actions.
  abbrev pub AreResolved : List NexoActionConfig → Type 0
  AreResolved [] = Unit {0}
  AreResolved (a ∷ actions) =
      (registry : Registry NexoActionDefinition) × (load_action_registry (λ d. d.name)
          project.actions
        ≡ ok registry)
      × All (IsResolvedAction registry) (a ∷ actions)

  abbrev pub IsResolvedDestination : DestinationConfig → Type 0
  IsResolvedDestination (function_destination d) =
      (registry : Registry NexoFunctionDefinition) × (load_function_registry (λ f. f.name)
          builtin_nexo_functions project.functions
        ≡ ok registry)
      × (definition : NexoFunctionDefinition) × (d.resolved_function ≡ some definition)
      × IsFound registry (function_name_from_identifier d.type) definition
      × ((bound : BoundParameters) × (bind_function_parameters definition d.parameters ≡ ok bound))
  IsResolvedDestination _ = Unit {0}

  -- The file of a job is there, can be imported, and has the entrypoint.
  abbrev pub IsResolvedStep : TransformationConfig → Type 0
  IsResolvedStep (python_job job) =
      (project.is_file job.file ≡ true)
      × (m : JobModule) × (load_job_module project.interpreter job.file ≡ ok m)
      × (field_of job.entrypoint m ≡ some callable_function)
  IsResolvedStep _ = Unit {0}

  pub record IsResolved (p : PipelineDocument) : Type 0 where
    pub source : IsResolvedSource p.source
    pub steps : All IsResolvedStep p.transformations
    pub destination : IsResolvedDestination p.destination
    pub actions : AreResolved p.actions
    pub actions_distinct : Nodup (action_types p.actions)
