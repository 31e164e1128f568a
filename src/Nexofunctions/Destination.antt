-- ===== src/Nexofunctions/Destination.antt =====
-- src/nexolith/nexofunctions/destination.py: the boundary between the runner and a function. The SQL
-- destination is a parameter.
pub mod Guarded
use nexolith.Base.{
  ℕ, String, not, Option, none, some, List, [], ◌∷◌, if◌then◌else◌, Result, ok, err, Error,
  string_eq, nat_eq, concat,
}
use nexolith.Nexofunctions.Contracts.{
  DestinationCapability, BoundParameters, DestinationWriteMode, Returned, bind_function_parameters,
  function_result, NexoFunctionDefinition, call_function, raised, invalid_result,
}
use nexolith.Types.{Rows}
use nexolith.Runner.{nexolith_message, is_interruption}
use nexolith.Nexofunctions.Names.{function_identifier}

-- `SqlFunctionTargetConfig` and `NexoFunctionDestinationConfig` of src/nexolith/config/models.py.
pub record SqlFunctionTargetConfig : Type 0 where
  pub type : String
  pub connection_url : String
  pub table : String

pub record NexoFunctionDestinationConfig : Type 0 where
  pub type : String
  pub target : SqlFunctionTargetConfig
  pub parameters : BoundParameters
  pub resolved_function : Option NexoFunctionDefinition

-- `SqlDestination` of connectors/sql.py, with its URL, its table and its mode.
pub record SqlDestination : Type 0 where
  pub write_to : String → String → String → Rows → Result ℕ
  pub upsert_to : String → String → String → Rows → List String → Result ℕ

abbrev mode_value : DestinationWriteMode → String
mode_value DestinationWriteMode.append = "append"
mode_value DestinationWriteMode.truncate = "truncate"

abbrev pub sql_capability : SqlDestination → SqlFunctionTargetConfig → DestinationCapability
sql_capability sql target = record {
  write = λ rows mode. sql.write_to target.connection_url target.table (mode_value mode) rows;
  upsert = λ rows keys. sql.upsert_to target.connection_url target.table "append" rows keys;
}

-- The name of the type of an exception that is no `NexolithError`.
abbrev pub type_name : Error → String
type_name Error.value_error = "ValueError"
type_name Error.overflow_error = "OverflowError"
type_name Error.integrity_error = "IntegrityError"
type_name (Error.key_error key) = "KeyError"
type_name (Error.unexpected name) = name
type_name e = ""

-- `except NexolithError: raise`, `except Exception` and neither.
abbrev pub passed_on : String → Error → Error
passed_on identifier e = elim (nexolith_message e) [
  | some m ↦ e
  | none ↦
      if is_interruption e
      then e
      else Error.execution_error
          (concat ("Nexo Function '" ∷ identifier ∷ "' failed with " ∷ type_name e ∷ "." ∷ []))
]

abbrev pub written : String → Returned → Result ℕ
written identifier (function_result n) = ok n
written identifier invalid_result = err (
    Error.execution_error
      (concat ("Nexo Function '" ∷ identifier ∷ "' must return NexoFunctionResult." ∷ [])))
written identifier (raised e) = err (passed_on identifier e)

module _ (local_call : String → DestinationCapability → Rows → BoundParameters → Returned)
    (sql : SqlDestination) where
  -- The body of the `try`.
  unfoldable pub attempt_function :
      NexoFunctionDestinationConfig → NexoFunctionDefinition → Rows → Returned
  unfolding bind_function_parameters call_function
  attempt_function config definition rows =
      elim (bind_function_parameters definition config.parameters) [
        | err e ↦ raised e
        | ok parameters ↦
            call_function local_call definition.execute (sql_capability sql config.target) rows
              parameters
      ]

  unfoldable pub execute_destination_function : NexoFunctionDestinationConfig → Rows → Result ℕ
  unfolding attempt_function function_identifier
  execute_destination_function config rows = elim config.resolved_function [
    | none ↦
        err (Error.configuration_error "Nexo Function destination was not resolved during loading.")
    | some definition ↦
        written (function_identifier definition.name) (attempt_function config definition rows)
  ]
