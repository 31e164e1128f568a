-- ===== src/Nexofunctions/Contracts.antt =====
-- src/nexolith/nexofunctions/contracts.py and builtin.py. Parameters and their checks are those of
-- nexoactions/contracts.py word for word, so its types stand for both.
use nexolith.Base.{
  ℕ, String, Bool, true, false, not, ◌&&◌, ◌||◌, Option, none, some, List, [], ◌∷◌, ◌==◌, Result,
  ok, err, Error, string_eq, nat_eq, all,
}
use nexolith.Types.{Rows, field_of}
use nexolith.Nexoactions.Contracts.{
  NexoActionParameterValue, bind_parameters, NexoActionParameter, NexoActionParameterKind,
  has_repeats, declared, scalar, strings,
}
use nexolith.Nexofunctions.Names.{is_name}

abbrev pub NexoFunctionParameter : Type 0
NexoFunctionParameter = NexoActionParameter

abbrev pub BoundParameters : Type 0
BoundParameters = List (String × NexoActionParameterValue)

pub data DestinationWriteMode : Type 0 where
  append truncate : DestinationWriteMode

-- What a function can do with the destination.
pub record DestinationCapability : Type 0 where
  pub write : Rows → DestinationWriteMode → Result ℕ
  pub upsert : Rows → List String → Result ℕ

-- What a call of a function ends with: `NexoFunctionResult` with its rows, another object, or an
-- exception. A negative count is the ValueError that making the result raises.
pub data Returned : Type 0 where
  function_result : (rows_written : ℕ) → Returned
  invalid_result : Returned
  raised : Error → Returned

-- The functions of builtin.py, and those that a project brings, by their files.
pub data Executor : Type 0 where
  upsert truncate_write : Executor
  local_function : String → Executor

pub record NexoFunctionDefinition : Type 0 where
  pub name : String
  pub execute : Executor
  pub parameters : List NexoFunctionParameter

abbrev is_string_list : NexoActionParameterKind → Bool
is_string_list NexoActionParameterKind.string_list = true
is_string_list _ = false

-- `__post_init__` of a parameter.
unfoldable pub is_valid_declaration : NexoFunctionParameter → Bool
unfolding is_name
is_valid_declaration p =
    is_name p.name && (is_string_list p.kind || (p.minimum_items == 0 && not p.unique_items))

-- `__post_init__` of a definition, whose parameters exist.
unfoldable pub is_valid_definition : NexoFunctionDefinition → Bool
unfolding is_valid_declaration is_name
is_valid_definition d =
    all is_valid_declaration d.parameters
    && is_name d.name
    && not (has_repeats (declared d.parameters))

unfoldable pub bind_function_parameters :
    NexoFunctionDefinition → BoundParameters → Result BoundParameters
unfolding bind_parameters
bind_function_parameters d configured =
    bind_parameters (record { name = d.name; parameters = d.parameters }) configured

abbrev pub conflict_keys : NexoFunctionParameter
conflict_keys = record {
  name = "conflict_keys";
  kind = NexoActionParameterKind.string_list;
  minimum_items = 1;
  unique_items = true;
}

abbrev pub upsert_definition : NexoFunctionDefinition
upsert_definition = record {
  name = "upsert";
  execute = Executor.upsert;
  parameters = conflict_keys ∷ [];
}

abbrev pub truncate_write_definition : NexoFunctionDefinition
truncate_write_definition = record {
  name = "truncate_write";
  execute = Executor.truncate_write;
  parameters = [];
}

-- `BUILTIN_NEXO_FUNCTIONS`.
abbrev pub builtin_nexo_functions : List NexoFunctionDefinition
builtin_nexo_functions = upsert_definition ∷ truncate_write_definition ∷ []

abbrev pub counted : Result ℕ → Returned
counted (ok n) = function_result n
counted (err e) = raised e

-- `parameters["conflict_keys"]`, which must be a tuple.
abbrev upsert_with : DestinationCapability → Rows → Option NexoActionParameterValue → Returned
upsert_with c rows none = raised (Error.key_error "conflict_keys")
upsert_with c rows (some (scalar v)) = raised (Error.unexpected "AssertionError")
upsert_with c rows (some (strings keys)) = counted (c.upsert rows keys)

-- A call of a function; `local_call` is what those of the project do.
module _ (local_call : String → DestinationCapability → Rows → BoundParameters → Returned) where
  unfoldable pub call_function :
      Executor → DestinationCapability → Rows → BoundParameters → Returned
  call_function Executor.upsert c rows parameters =
      upsert_with c rows (field_of "conflict_keys" parameters)
  call_function Executor.truncate_write c rows parameters =
      counted (c.write rows DestinationWriteMode.truncate)
  call_function (local_function file) c rows parameters = local_call file c rows parameters
