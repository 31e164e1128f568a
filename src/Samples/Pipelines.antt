-- ===== src/Samples/Pipelines.antt =====
-- A pipeline of two rows with an action that follows its write.
use mathlib.Core.List.{Permᴰ}
use nexolith.Base.{
  ℕ, String, List, [], ◌∷◌, true, false, some, is_some, ◌≡◌, ◌↔◌, refl, concat, length, ok,
}
use nexolith.Types.{Scalar, Row, Rows}
use nexolith.Nexoactions.Contracts.{NexoActionOperator, NexoActionMatchMode}
use nexolith.Nexoactions.Conditions.{Hashing, derive_idempotency_key}
use nexolith.Nexoactions.Conditions.Keys.{derive_idempotency_key-Perm}
use nexolith.Nexoactions.Execution.{
  NexoActionConfig, PreparedAction, prepare_action, Invocation, HandlerEnd, Progress,
  execute_prepared_actions,
}
use nexolith.Nexoactions.Execution.Batch.{WhenInvoked, prepare_action-WhenInvoked}
use nexolith.Nexoactions.Execution.Reported.{Reports}
use nexolith.Nexoactions.Execution.Invoked.{execute_prepared_actions-Reports}
use nexolith.Runner.{PipelineConfig, Components, run_pipeline_config}
use nexolith.Runner.Told.{Told, run_pipeline_config-Told}
use nexolith.Runner.Written.{WrittenOnce, run_pipeline_config-WrittenOnce}
use nexolith.Transformations.{select, rename}
use nexolith.Transformations.Renamed.{Kept, rename-Kept}
use nexolith.Transformations.Selected.{IsSelectable, select_iff}

abbrev row : String → ℕ → Row
row id amount = ("id", Scalar.string id) ∷ ("amount", Scalar.integer false amount) ∷ []

abbrev rows : Rows
rows = row "a" 5 ∷ row "b" 50 ∷ []

abbrev id_text : Scalar → String
id_text (Scalar.string s) = s
id_text v = ""

abbrev row_text : Row → String
row_text [] = ""
row_text ((k, v) ∷ rest) = id_text v

abbrev hashing : Hashing
hashing = record {
  canonical = row_text;
  digest = λ identifier pipeline identities. concat (pipeline ∷ identifier ∷ identities);
}

abbrev alert : NexoActionConfig
alert = record {
  type = "nexoaction.alert";
  condition = record {
    field = "amount";
    operator = NexoActionOperator.greater_than;
    value = Scalar.integer false 10;
  };
  match = NexoActionMatchMode.any;
  idempotency_fields = "id" ∷ [];
  parameters = [];
  resolved_action = some (record { name = "alert"; parameters = [] });
}

derived : derive_idempotency_key hashing "p" "t" rows ("id" ∷ []) ≡ ok "ptab"
unfolding derive_idempotency_key nexolith.Nexoactions.Conditions.identities
    nexolith.Nexoactions.Conditions.identity nexolith.Base.Sort.insert_by nexolith.Base.Sort.sort_by
derived = refl

derive_idempotency_key-Perm_example :
    derive_idempotency_key hashing "p" "t" (row "b" 50 ∷ row "a" 5 ∷ []) ("id" ∷ []) ≡ ok "ptab"
derive_idempotency_key-Perm_example =
    derive_idempotency_key-Perm hashing "p" "t" ("id" ∷ []) rows (row "b" 50 ∷ row "a" 5 ∷ [])
      "ptab" (Permᴰ.swap refl refl) derived

abbrev prepared : PreparedAction
prepared = record {
  identifier = "nexoaction.alert";
  matched_rows = row "b" 50 ∷ [];
  invocation = some (
    record { name = "alert"; parameters = [] },
    record {
      pipeline_name = "p";
      action_identifier = "nexoaction.alert";
      idempotency_key = "pnexoaction.alertb";
      parameters = [];
    },
  );
}

prepares : prepare_action hashing "p" alert rows ≡ ok prepared
unfolding prepare_action
prepares = refl

prepare_action-WhenInvoked_example :
    (is_some prepared.invocation ≡ true) ↔ WhenInvoked NexoActionMatchMode.any alert.condition rows
prepare_action-WhenInvoked_example =
    prepare_action-WhenInvoked hashing "p" alert rows prepared prepares

-- A handler that fails.
abbrev failing_handler : List Invocation → Invocation → HandlerEnd
failing_handler calls call = HandlerEnd.raised "OSError"

abbrev idle : Progress
idle = record { invocations = []; outcomes = []; events = [] }

-- The first call returns its result, the second one fails.
abbrev second_fails : List Invocation → Invocation → HandlerEnd
second_fails [] call = HandlerEnd.returned_result
second_fails (c ∷ calls) call = HandlerEnd.raised "OSError"

execute_prepared_actions-Reports_example :
    Reports second_fails
      (prepared ∷ prepared ∷ prepared ∷ [])
      idle
      (execute_prepared_actions second_fails (prepared ∷ prepared ∷ prepared ∷ []) idle)
execute_prepared_actions-Reports_example =
    execute_prepared_actions-Reports second_fails (prepared ∷ prepared ∷ prepared ∷ []) idle

abbrev config : PipelineConfig
config = record { name = "p"; source_type = "csv"; destination_type = "csv"; actions = alert ∷ [] }

abbrev components : Components
components = record {
  read = ok rows;
  transformations = [];
  write = λ out. ok (length out);
  execute = failing_handler;
  hashing = hashing;
}

run_pipeline_config-WrittenOnce_example :
    WrittenOnce config components (run_pipeline_config config components false).1
run_pipeline_config-WrittenOnce_example = run_pipeline_config-WrittenOnce config components false

run_pipeline_config-Told_example :
    Told config components false (run_pipeline_config config components false)
run_pipeline_config-Told_example = run_pipeline_config-Told config components false

abbrev repr : List String → String
repr names = concat names

selected :
    select repr ("id" ∷ []) rows
    ≡ ok ((("id", Scalar.string "a") ∷ []) ∷ (("id", Scalar.string "b") ∷ []) ∷ [])
unfolding select nexolith.Transformations.missing_from nexolith.Transformations.select_row
    nexolith.Transformations.select_rows
selected = refl

select_iff_example :
    ((outs : Rows) × (select repr ("id" ∷ []) [] ≡ ok outs)) ↔ IsSelectable ("id" ∷ []) []
select_iff_example = select_iff repr ("id" ∷ []) []

abbrev renaming : List (String × String)
renaming = ("id", "key") ∷ []

renamed_rows :
    rename repr renaming (row "a" 5 ∷ [])
    ≡ ok ((("key", Scalar.string "a") ∷ ("amount", Scalar.integer false 5) ∷ []) ∷ [])
unfolding rename nexolith.Transformations.missing_from nexolith.Transformations.rename_row
renamed_rows = refl

rename-Kept_example :
    Kept renaming
      (row "a" 5 ∷ [])
      ((("key", Scalar.string "a") ∷ ("amount", Scalar.integer false 5) ∷ []) ∷ [])
rename-Kept_example =
    rename-Kept renaming repr (row "a" 5 ∷ []) _ ((refl, (refl, tt)), tt) renamed_rows
