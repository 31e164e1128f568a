-- ===== src/Dag/Order.antt =====
-- src/nexolith/dag/executor.py, `_topological_order`.
pub mod Reference
pub mod Sound
pub mod Complete
use nexolith.Base.{
  ℕ, zero, suc, String, List, [], ◌∷◌, ◌++◌, Bool, not, ◌&&◌, map, filter, length, contains, subset,
  ltb, ◌==◌, string_eq, if◌then◌else◌, concat, join, text_le, Result, ok, err, Error,
  configuration_error,
}
use nexolith.Base.Sort.{sort_by}
use nexolith.Dag.Models.{DagTaskConfig}

-- `index_by_name` and `by_name` have the same keys in the same order, so they are one dictionary.
pub record Entry : Type 0 where
  pub name : String
  pub index : ℕ
  pub task : DagTaskConfig

abbrev pub entry : ℕ → DagTaskConfig → Entry
entry index task = record { name = task.name; index = index; task = task }

-- A dictionary keeps the place of a key that is written again.
unfoldable pub put : Entry → List Entry → List Entry
put e [] = e ∷ []
put e (f ∷ fs) = if f.name == e.name then e ∷ fs else f ∷ put e fs

unfoldable pub index_tasks : ℕ → List DagTaskConfig → List Entry → List Entry
index_tasks index [] by_name = by_name
index_tasks index (task ∷ tasks) by_name =
    index_tasks (suc index) tasks (put (entry index task) by_name)

-- A task is ready if it is not ordered yet and all of its dependencies are.
abbrev pub is_ready : List String → DagTaskConfig → Bool
is_ready ordered_names task =
    not (contains ordered_names task.name) && subset task.depends_on ordered_names

abbrev pub entry_is_ready : List String → Entry → Bool
entry_is_ready ordered_names e =
    not (contains ordered_names e.name) && subset e.task.depends_on ordered_names

-- `min(ready, key=…)`: the first of the entries with the least index.
unfoldable pub earliest : Entry → List Entry → Entry
earliest e [] = e
earliest e (f ∷ fs) = earliest (if ltb f.index e.index then f else e) fs

unfoldable pub cycle_among : List String → List String → Error
cycle_among keys ordered_names = configuration_error (
    concat (
      "Cannot compute an execution order -- a cycle exists among: "
      ∷ join ", " (sort_by text_le (filter (λ n. not (contains ordered_names n)) keys))
      ∷ []))

-- The `while` loop. Each round orders one task, so the rounds left are `len(tasks) - len(ordered)`.
unfoldable pub rounds :
    ℕ → List Entry → List DagTaskConfig → List String → Result (List DagTaskConfig)
rounds zero by_name ordered ordered_names = ok ordered
rounds (suc left) by_name ordered ordered_names =
    elim (filter (entry_is_ready ordered_names) by_name) [
      | [] ↦ err (cycle_among (map (λ e. e.name) by_name) ordered_names)
      | e ∷ es ↦
          let chosen = earliest e es in
          rounds left by_name (ordered ++ chosen.task ∷ []) (chosen.name ∷ ordered_names)
    ]

unfoldable pub topological_order : List DagTaskConfig → Result (List DagTaskConfig)
topological_order tasks = rounds (length tasks) (index_tasks 0 tasks []) [] []
