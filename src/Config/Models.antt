-- ===== src/Config/Models.antt =====
-- src/nexolith/config/models.py: the configuration of a pipeline and its validators. Missing and
-- unknown fields, and their types, are pydantic's.
pub mod Valid
use nexolith.Base.{
  String, Bool, true, false, not, ◌&&◌, ◌||◌, Option, List, [], ◌∷◌, ◌++◌, map, ◌==◌, if◌then◌else◌,
  Result, ok, err, string_eq, nat_eq,
}
use nexolith.Types.{Scalar, Parameters}
use nexolith.Nexofunctions.Destination.{NexoFunctionDestinationConfig}
use nexolith.Nexoactions.Contracts.{no_empty_text, has_repeats}
use nexolith.Nexofunctions.Names.{function_name_from_identifier, action_name_from_identifier}
use nexolith.Dag.Models.{is_given}
use nexolith.Nexoactions.Execution.{NexoActionConfig}

pub record CsvConfig : Type 0 where
  pub path : String
  pub encoding : String

pub record SqlSourceConfig : Type 0 where
  pub type : String
  pub connection_url : String
  pub query : Option String
  pub query_file : Option String
  pub table : Option String
  pub parameters : Parameters

pub data SourceConfig : Type 0 where
  csv_source : CsvConfig → SourceConfig
  sql_source : SqlSourceConfig → SourceConfig

pub data WriteMode : Type 0 where
  append replace fail truncate : WriteMode

pub record SqlDestinationConfig : Type 0 where
  pub type : String
  pub connection_url : String
  pub table : String
  pub mode : WriteMode

pub data DestinationConfig : Type 0 where
  csv_destination : CsvConfig → DestinationConfig
  sql_destination : SqlDestinationConfig → DestinationConfig
  function_destination : NexoFunctionDestinationConfig → DestinationConfig

pub data FilterOperator : Type 0 where
  equals not_equals greater_than greater_than_or_equal less_than less_than_or_equal contains_text
        is_null is_not_null :
      FilterOperator

pub record PythonJobConfig : Type 0 where
  pub file : String
  pub entrypoint : String
  pub parameters : Parameters

pub data TransformationConfig : Type 0 where
  select : List String → TransformationConfig
  rename : List (String × String) → TransformationConfig
  drop_nulls : Option (List String) → TransformationConfig
  filter_rows : String → FilterOperator → Scalar → TransformationConfig
  python_job : PythonJobConfig → TransformationConfig

-- `PipelineConfig`, whole.
pub record PipelineDocument : Type 0 where
  pub name : String
  pub source : SourceConfig
  pub transformations : List TransformationConfig
  pub destination : DestinationConfig
  pub actions : List NexoActionConfig

-- What a validator says.
pub data ConfigFault : Type 0 where
  empty_text empty_list : ConfigFault
  exclusive_query missing_query missing_value : ConfigFault
  invalid_identifier empty_idempotency_field repeated_idempotency_field repeated_action :
      ConfigFault

abbrev pub demand : Bool → ConfigFault → List ConfigFault
demand true fault = []
demand false fault = fault ∷ []

abbrev is_nonempty_list {ℓ} : {A : Type ℓ} → List A → Bool
is_nonempty_list [] = false
is_nonempty_list (x ∷ xs) = true

-- `require_query_or_table`.
unfoldable pub require_query_or_table : SqlSourceConfig → List ConfigFault
require_query_or_table s =
    if is_given s.query && is_given s.query_file
    then exclusive_query ∷ []
    else demand (is_given s.query || is_given s.query_file || is_given s.table) missing_query

unfoldable pub source_faults : SourceConfig → List ConfigFault
unfolding require_query_or_table
source_faults (csv_source c) = []
source_faults (sql_source s) = require_query_or_table s

abbrev pub takes_no_value : FilterOperator → Bool
takes_no_value FilterOperator.is_null = true
takes_no_value FilterOperator.is_not_null = true
takes_no_value _ = false

abbrev pub is_none : Scalar → Bool
is_none Scalar.null = true
is_none _ = false

-- `FilterConfig.require_value`, and the lengths of the others.
unfoldable pub transformation_faults : TransformationConfig → List ConfigFault
transformation_faults (select columns) = demand (is_nonempty_list columns) empty_list
transformation_faults (rename columns) = demand (is_nonempty_list columns) empty_list
transformation_faults (drop_nulls columns) = []
transformation_faults (filter_rows column operator value) =
    demand (takes_no_value operator || not (is_none value)) missing_value
transformation_faults (python_job job) = []

abbrev is_ok {ℓ} : {A : Type ℓ} → Result A → Bool
is_ok (ok a) = true
is_ok (err e) = false

unfoldable pub destination_faults : DestinationConfig → List ConfigFault
unfolding function_name_from_identifier
destination_faults (csv_destination c) = []
destination_faults (sql_destination d) = []
destination_faults (function_destination d) =
    demand (is_ok (function_name_from_identifier d.type)) invalid_identifier
    ++ demand (not (d.target.table == "")) empty_text

-- `require_unique_non_empty_fields`, behind the length.
unfoldable pub idempotency_faults : List String → List ConfigFault
idempotency_faults fields =
    if is_nonempty_list fields
    then (if no_empty_text fields
        then demand (not (has_repeats fields)) repeated_idempotency_field
        else empty_idempotency_field ∷ [])
    else empty_list ∷ []

unfoldable pub action_faults : NexoActionConfig → List ConfigFault
unfolding action_name_from_identifier idempotency_faults
action_faults a =
    demand (is_ok (action_name_from_identifier a.type)) invalid_identifier
    ++ (demand (not (a.condition.field == "")) empty_text
        ++ idempotency_faults a.idempotency_fields)

abbrev pub faults_of {ℓ} : {A : Type ℓ} → (A → List ConfigFault) → List A → List ConfigFault
faults_of faults [] = []
faults_of faults (x ∷ xs) = faults x ++ faults_of faults xs

unfoldable pub field_faults : PipelineDocument → List ConfigFault
unfolding source_faults transformation_faults destination_faults action_faults
field_faults p =
    demand (not (p.name == "")) empty_text
    ++ (source_faults p.source
        ++ (faults_of transformation_faults p.transformations
            ++ (destination_faults p.destination ++ faults_of action_faults p.actions)))

-- `require_unique_actions`.
unfoldable pub require_unique_actions : PipelineDocument → List ConfigFault
require_unique_actions p = demand (not (has_repeats (map (λ a. a.type) p.actions))) repeated_action

-- The validator of the whole model runs once its fields are valid.
abbrev pub or_else_faults : List ConfigFault → List ConfigFault → List ConfigFault
or_else_faults [] faults = faults
or_else_faults (f ∷ fs) faults = f ∷ fs

unfoldable pub pipeline_faults : PipelineDocument → List ConfigFault
unfolding field_faults require_unique_actions
pipeline_faults p = or_else_faults (field_faults p) (require_unique_actions p)
