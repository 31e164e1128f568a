-- ===== src/Samples/Projects.antt =====
-- A project with a pipeline, its own version of a built-in function, and an environment.
use nexolith.Base.{
  ◌-◌, ◌/◌, String, ◌≡◌, refl, ◌↔◌, true, false, Option, none, some, List, [], ◌∷◌, ◌==◌,
  if◌then◌else◌, ok, string_eq, nat_eq, length, concat, Nodup,
}
use nexolith.Nexoactions.Contracts.{
  NexoActionDefinition, NexoActionOperator, NexoActionMatchMode, bind_parameters, strings,
}
use nexolith.Nexoactions.Execution.{NexoActionConfig}
use nexolith.Config.Models.{PipelineDocument, function_destination, sql_source, python_job}
use nexolith.Nexofunctions.Destination.{
  SqlDestination, execute_destination_function, NexoFunctionDestinationConfig,
}
use nexolith.Config.Loader.{Project, resolve_sql_parameters, load_pipeline, loaded, merged}
use nexolith.Nexofunctions.Loader.{
  discover_local, LocalDirectory, imported, function_wording, load_function_registry, import_failed,
}
use nexolith.Config.Environment.{
  Piece, Environment, resolve_string, resolve_pieces, mapping, entry_and, Node, no_entries,
}
use nexolith.Nexofunctions.Registry.{Registry}
use nexolith.Nexofunctions.Contracts.{
  DestinationCapability, NexoFunctionDefinition, BoundParameters, local_function, upsert_definition,
  conflict_keys, Returned, builtin_nexo_functions,
}
use nexolith.Config.Loader.Resolved.{IsResolved}
use nexolith.Types.{Rows, Parameters, Scalar}
use nexolith.Nexoactions.Contracts.Bound.{Bound, bind_parameters-Bound}
use nexolith.Nexofunctions.Destination.Guarded.{Upserted, execute_destination_function-Upserted}
use nexolith.Nexofunctions.Loader.Discovered.{names_of, Holds, load_function_registry-Holds}
use nexolith.Config.Loader.Resolved.Kept.{Keeps}
use nexolith.Config.Loader.Resolved.Loaded.{IsWritten, load_pipeline-IsResolved}
use nexolith.Config.Loader.Merged.{IsMerged, resolve_sql_parameters_iff}
use nexolith.Jobs.{job_module, callable_function, job_rows}

abbrev local_upsert : NexoFunctionDefinition
local_upsert = record { name = "upsert"; execute = local_function "upsert.py"; parameters = [] }

abbrev functions : LocalDirectory NexoFunctionDefinition
functions = record {
  exists = true;
  is_symlink = false;
  is_dir = true;
  python_files =
      record {
        name = "upsert.py";
        is_symlink = false;
        is_inside = true;
        import_file = imported (some local_upsert);
      }
      ∷ record {
        name = "_shared.py";
        is_symlink = true;
        is_inside = false;
        import_file = import_failed "SyntaxError";
      }
      ∷ [];
}

builtins_distinct : Nodup (names_of (λ f. f.name) builtin_nexo_functions)
builtins_distinct = (refl, (refl, tt))

discovered : discover_local function_wording (λ f. f.name) functions ≡ ok (local_upsert ∷ [])
unfolding discover_local nexolith.Nexofunctions.Loader.discover_files
    nexolith.Nexofunctions.Loader.load_files nexolith.Nexofunctions.Loader.check_names
    nexolith.Nexofunctions.Loader.load_definition nexolith.Nexofunctions.Names.after_prefix
    nexolith.Base.Sort.sort_by nexolith.Base.Sort.insert_by
discovered = refl

load_function_registry-Holds_example :
    (registry : Registry NexoFunctionDefinition) × (load_function_registry
        (λ f. f.name)
        builtin_nexo_functions
        functions
      ≡ ok registry)
    × Holds (λ f. f.name) (local_upsert ∷ []) builtin_nexo_functions registry
load_function_registry-Holds_example =
    load_function_registry-Holds (λ f. f.name) builtin_nexo_functions (local_upsert ∷ []) functions
      builtins_distinct discovered

-- The contract of `upsert`.
abbrev upsert_contract : NexoActionDefinition
upsert_contract = record { name = "upsert"; parameters = conflict_keys ∷ [] }

abbrev by_id : BoundParameters
by_id = ("conflict_keys", strings ("id" ∷ [])) ∷ []

by_id_bound : bind_parameters upsert_contract by_id ≡ ok by_id
unfolding bind_parameters nexolith.Nexoactions.Contracts.bind_each
    nexolith.Nexoactions.Contracts.is_valid_parameter
by_id_bound = refl

bind_parameters-Bound_example : Bound by_id (conflict_keys ∷ []) by_id
bind_parameters-Bound_example = bind_parameters-Bound upsert_contract by_id by_id by_id_bound

abbrev no_local_call : String → DestinationCapability → Rows → BoundParameters → Returned
no_local_call file c rows parameters = Returned.invalid_result

-- A sink that takes every row.
abbrev sink : SqlDestination
sink = record {
  write_to = λ url table mode rows. ok (length rows);
  upsert_to = λ url table mode rows keys. ok (length rows);
}

abbrev upsert_destination : NexoFunctionDestinationConfig
upsert_destination = record {
  type = "nexofunction.upsert";
  target = record { type = "sqlite"; connection_url = "sqlite:///out.db"; table = "events" };
  parameters = by_id;
  resolved_function = some upsert_definition;
}

abbrev one_row : Rows
one_row = (("id", Scalar.string "a") ∷ []) ∷ []

row_upserted : execute_destination_function no_local_call sink upsert_destination one_row ≡ ok 1
unfolding execute_destination_function nexolith.Nexofunctions.Destination.attempt_function
    nexolith.Nexofunctions.Contracts.bind_function_parameters bind_parameters
    nexolith.Nexoactions.Contracts.bind_each nexolith.Nexoactions.Contracts.is_valid_parameter
    nexolith.Nexofunctions.Contracts.call_function
row_upserted = refl

execute_destination_function-Upserted_example :
    Upserted no_local_call sink upsert_destination one_row 1
execute_destination_function-Upserted_example =
    execute_destination_function-Upserted no_local_call sink upsert_destination one_row 1 refl
      row_upserted

abbrev environment : Environment
environment name = if name == "HOME" then some "/srv" else none

-- `${HOME}/in`.
abbrev home_path : List Piece
home_path = Piece.variable "HOME" ∷ Piece.plain "/" ∷ Piece.plain "i" ∷ Piece.plain "n" ∷ []

home_resolved : resolve_string environment "${HOME}/in" ≡ ok "/srv/in"
unfolding resolve_string nexolith.Config.Environment.pieces nexolith.Config.Environment.read_pieces
    nexolith.Config.Environment.match_name nexolith.Config.Environment.span_word resolve_pieces
    nexolith.Config.Environment.missing_variables nexolith.Config.Environment.filled
home_resolved = refl

-- A query that asks for a day and has a limit.
abbrev day_and_limit : Parameters
day_and_limit = ("day", Scalar.null) ∷ ("limit", Scalar.integer false 10) ∷ []

abbrev monday : Parameters
monday = ("day", Scalar.string "monday") ∷ []

abbrev for_monday : Parameters
for_monday = ("day", Scalar.string "monday") ∷ ("limit", Scalar.integer false 10) ∷ []

resolve_sql_parameters_iff_example :
    (resolve_sql_parameters day_and_limit monday ≡ ok for_monday)
    ↔ ((for_monday ≡ merged day_and_limit monday) × IsMerged day_and_limit monday for_monday)
resolve_sql_parameters_iff_example =
    resolve_sql_parameters_iff day_and_limit monday for_monday (refl, tt)

abbrev alert_definition : NexoActionDefinition
alert_definition = record { name = "alert"; parameters = [] }

abbrev actions : LocalDirectory NexoActionDefinition
actions = record {
  exists = true;
  is_symlink = false;
  is_dir = true;
  python_files =
      record {
        name = "alert.py";
        is_symlink = false;
        is_inside = true;
        import_file = imported (some alert_definition);
      }
      ∷ [];
}

-- An alert if an amount is more than 10.
abbrev alert : Option NexoActionDefinition → NexoActionConfig
alert resolved = record {
  type = "nexoaction.alert";
  condition = record {
    field = "amount";
    operator = NexoActionOperator.greater_than;
    value = Scalar.integer false 10;
  };
  match = NexoActionMatchMode.any;
  idempotency_fields = "id" ∷ [];
  parameters = [];
  resolved_action = resolved;
}

abbrev upsert_by : Option NexoFunctionDefinition → NexoFunctionDestinationConfig
upsert_by resolved = record upsert_destination { parameters = []; resolved_function = resolved }

abbrev report_pipeline :
    Option String
    → Parameters
    → String
    → Option NexoFunctionDefinition
    → Option NexoActionDefinition
    → PipelineDocument
report_pipeline query parameters job function action = record {
  name = "report";
  source = sql_source (record {
    type = "sqlite";
    connection_url = "sqlite:///in.db";
    query = query;
    query_file = some "report.sql";
    table = none;
    parameters = parameters;
  });
  transformations = python_job (record { file = job; entrypoint = "run"; parameters = [] }) ∷ [];
  destination = function_destination (upsert_by function);
  actions = alert action ∷ [];
}

abbrev project : Project
project = record {
  is_file = λ path. true;
  read_text = λ path. if path == "pipelines/report.sql" then ok "select 1" else ok "name: report";
  is_os_error = λ e. false;
  is_absolute = λ path. false;
  child = λ base path. concat (base ∷ "/" ∷ path ∷ []);
  parent = λ path. "pipelines";
  safe_load = λ content. loaded (mapping (entry_and "name" (Node.text "${HOME}") no_entries));
  model_validate = λ node. some (report_pipeline none day_and_limit "job.py" none none);
  report = λ faults. "invalid";
  environment = environment;
  repr = λ text. text;
  functions = functions;
  actions = actions;
  interpreter = record {
    import_file = λ path. job_module (("run", callable_function) ∷ []);
    call = λ path entrypoint rows parameters. job_rows rows;
    type_of = λ e. "Exception";
    file_name = λ path. path;
  };
}

abbrev loaded_report : PipelineDocument
loaded_report =
    report_pipeline (some "select 1") for_monday "pipelines/job.py" (some local_upsert)
      (some alert_definition)

report_loaded : load_pipeline project "pipelines/report.yaml" monday ≡ ok loaded_report
unfolding load_pipeline
report_loaded = refl

load_pipeline-IsResolved_example :
    (config : PipelineDocument) × IsWritten project "pipelines/report.yaml" config
    × Keeps project "pipelines" monday config loaded_report
    × IsResolved project loaded_report
load_pipeline-IsResolved_example =
    load_pipeline-IsResolved project "pipelines/report.yaml" monday loaded_report (refl, tt)
      report_loaded
