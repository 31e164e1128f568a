-- ===== src/Dag/Models.antt =====
-- src/nexolith/dag/models.py: DAG files as records, and what their validators refuse.
pub mod Shape
pub mod Valid
use nexolith.Base.{
  ℕ, suc, String, List, [], ◌∷◌, ◌++◌, Bool, true, false, not, ◌&&◌, Option, none, some, map,
  filter, contains, ◌==◌, nat_eq, string_eq, if◌then◌else◌, concat, join, text_le, show_nat,
}
use nexolith.Base.Sort.{sort_by}
use nexolith.Types.{Decimal, at_least_zero, at_least_one, Parameters}

pub record DagTaskConfig : Type 0 where
  pub name : String
  pub pipeline : Option String
  pub script : Option String
  pub entrypoint : String
  pub interpreter : Option String
  pub depends_on : List String
  pub parameters : Parameters
  pub retries : ℕ
  pub retry_delay_seconds : Decimal
  pub retry_backoff_multiplier : Decimal

pub data OnFailure : Type 0 where
  skip block : OnFailure

pub data Priority : Type 0 where
  low normal high critical : Priority

pub data Severity : Type 0 where
  low medium high critical : Severity

pub record DagConfig : Type 0 where
  pub name : String
  pub tasks : List DagTaskConfig
  pub on_failure : OnFailure
  pub schedule : Option String
  -- `trigger.on_success_of`, if there is a `trigger`.
  pub trigger : Option (List String)
  pub priority : Priority
  pub severity : Severity

-- What pydantic reports: where, and why. The texts of its own messages are the library's.
pub data FaultKind : Type 0 where
  string_too_short list_too_short below_minimum : FaultKind
  value_error : String → FaultKind

pub record Fault : Type 0 where
  pub loc : List String
  pub kind : FaultKind

abbrev fault : List String → FaultKind → Fault
fault loc kind = record { loc = loc; kind = kind }

-- A `Field` constraint at `loc`.
abbrev pub require : Bool → List String → FaultKind → List Fault
require true loc kind = []
require false loc kind = fault loc kind ∷ []

-- A text's truth value.
abbrev pub is_given : Option String → Bool
is_given none = false
is_given (some s) = not (s == "")

-- `min_length=1` on an optional text.
abbrev pub not_empty : Option String → Bool
not_empty none = true
not_empty (some s) = not (s == "")

abbrev pub pipeline_or_script : Option String → Option String → Option String
pipeline_or_script pipeline script =
    if is_given pipeline && is_given script
    then some "'pipeline' and 'script' are mutually exclusive; specify only one"
    else if not (is_given pipeline) && not (is_given script)
    then some "either 'pipeline' or 'script' is required"
    else none

unfoldable pub require_pipeline_or_script : DagTaskConfig → Option String
require_pipeline_or_script task = pipeline_or_script task.pipeline task.script

-- The constraints of the fields. Natural `retries` meet `ge=0`.
unfoldable pub task_field_faults : List String → DagTaskConfig → List Fault
task_field_faults loc task =
    require (not (task.name == "")) (loc ++ "name" ∷ []) string_too_short
    ++ (require (not_empty task.pipeline) (loc ++ "pipeline" ∷ []) string_too_short
        ++ (require (not_empty task.script) (loc ++ "script" ∷ []) string_too_short
            ++ (require (at_least_zero task.retry_delay_seconds) (loc ++ "retry_delay_seconds" ∷ [])
                  below_minimum
                ++ require (at_least_one task.retry_backoff_multiplier)
                    (loc ++ "retry_backoff_multiplier" ∷ []) below_minimum)))

-- An `after` validator runs only on fields that passed.
abbrev pub after : List Fault → List String → Option String → List Fault
after [] loc none = []
after [] loc (some message) = fault loc (value_error message) ∷ []
after (f ∷ fs) loc verdict = f ∷ fs

unfoldable pub task_faults : List String → DagTaskConfig → List Fault
task_faults loc task = after (task_field_faults loc task) loc (require_pipeline_or_script task)

abbrev pub names : List DagTaskConfig → List String
names tasks = map (λ t. t.name) tasks

-- The names that come again further on. A name may stand here more than once.
abbrev pub repeated : List String → List String
repeated [] = []
repeated (n ∷ ns) = if contains ns n then n ∷ repeated ns else repeated ns

abbrev pub distinct : List String → List String
distinct [] = []
distinct (n ∷ ns) = let rest = distinct ns in if contains ns n then rest else n ∷ rest

-- `sorted(name for name, count in counts.items() if count > 1)`.
unfoldable pub duplicates : List DagTaskConfig → List String
unfolding sort_by
duplicates tasks = sort_by text_le (distinct (repeated (names tasks)))

-- `sorted(dep for dep in task.depends_on if dep not in known_names)`.
unfoldable pub unknown_dependencies : List String → DagTaskConfig → List String
unfolding sort_by
unknown_dependencies known task =
    sort_by text_le (filter (λ d. not (contains known d)) task.depends_on)

abbrev pub is_empty : List String → Bool
is_empty [] = true
is_empty (x ∷ xs) = false

unfoldable pub dependency_fault : List String → DagTaskConfig → Option String
dependency_fault known task =
    if contains task.depends_on task.name
    then some (concat ("task '" ∷ task.name ∷ "' cannot depend on itself" ∷ []))
    else if is_empty (unknown_dependencies known task)
    then none
    else some (
        concat (
          "task '"
          ∷ task.name
          ∷ "' depends_on unknown task(s): "
          ∷ join ", " (unknown_dependencies known task)
          ∷ []))

unfoldable pub first_dependency_fault : List String → List DagTaskConfig → Option String
first_dependency_fault known [] = none
first_dependency_fault known (task ∷ tasks) = elim (dependency_fault known task) [
  | some message ↦ some message
  | none ↦ first_dependency_fault known tasks
]

abbrev pub triggers_itself : DagConfig → Option (List String) → Bool
triggers_itself dag none = false
triggers_itself dag (some upstreams) = contains upstreams dag.name

unfoldable pub trigger_fault : DagConfig → Option String
trigger_fault dag =
    if triggers_itself dag dag.trigger
    then some (concat ("DAG '" ∷ dag.name ∷ "' cannot list itself as its own trigger source" ∷ []))
    else none

unfoldable pub validate_task_graph_shape : DagConfig → Option String
validate_task_graph_shape dag =
    if is_empty (duplicates dag.tasks)
    then elim (first_dependency_fault (names dag.tasks) dag.tasks) [
      | some message ↦ some message
      | none ↦ trigger_fault dag
    ]
    else some (concat ("duplicate task name(s): " ∷ join ", " (duplicates dag.tasks) ∷ []))

unfoldable pub tasks_faults : ℕ → List DagTaskConfig → List Fault
tasks_faults index [] = []
tasks_faults index (task ∷ tasks) =
    task_faults ("tasks" ∷ show_nat index ∷ []) task ++ tasks_faults (suc index) tasks

abbrev pub no_upstreams : Option (List String) → Bool
no_upstreams none = false
no_upstreams (some upstreams) = is_empty upstreams

unfoldable pub dag_field_faults : DagConfig → List Fault
dag_field_faults dag =
    require (not (dag.name == "")) ("name" ∷ []) string_too_short
    ++ (require (not (is_empty (names dag.tasks))) ("tasks" ∷ []) list_too_short
        ++ (tasks_faults 0 dag.tasks
            ++ require (not (no_upstreams dag.trigger)) ("trigger" ∷ "on_success_of" ∷ [])
                list_too_short))

-- The faults of a document whose values have the declared types.
unfoldable pub validate_document : DagConfig → List Fault
validate_document dag = after (dag_field_faults dag) [] (validate_task_graph_shape dag)
