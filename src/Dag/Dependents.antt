-- ===== src/Dag/Dependents.antt =====
-- src/nexolith/dag/executor.py, `_transitive_dependents`. A set is the list of its elements; the
-- order in which a set is listed does not change which names are found.
pub mod Affected
pub mod Spread
pub mod Found
use nexolith.Base.{
  ℕ, zero, suc, ◌+◌, String, List, [], ◌∷◌, ◌++◌, not, ◌&&◌, length, contains, find, ◌==◌,
  string_eq, if◌then◌else◌, Result, ok, err, key_error, out_of_fuel, none, some,
}
use nexolith.Dag.Models.{DagTaskConfig, names}

-- The name of a task, once for every mention of `name` among its dependencies.
abbrev pub mentions : String → String → List String → List String
mentions name task [] = []
mentions name task (d ∷ ds) =
    let rest = mentions name task ds in if d == name then task ∷ rest else rest

-- `dependents_of[name]`.
unfoldable pub dependents : String → List DagTaskConfig → List String
dependents name [] = []
dependents name (task ∷ tasks) = mentions name task.name task.depends_on ++ dependents name tasks

abbrev pub dependencies : List DagTaskConfig → List String
dependencies [] = []
dependencies (task ∷ tasks) = task.depends_on ++ dependencies tasks

-- The inner `for` loop, on `to_skip` and the queue.
unfoldable pub spread :
    List String → List String → List String → List String → List String × List String
spread failed [] to_skip queue = (to_skip, queue)
spread failed (dependent ∷ dependents) to_skip queue =
    let fresh = not (contains to_skip dependent) && not (contains failed dependent) in
    spread failed dependents (if fresh then dependent ∷ to_skip else to_skip)
      (if fresh then dependent ∷ queue else queue)

-- The `while` loop. The head of the list is the end of the queue.
unfoldable pub search :
    ℕ → List DagTaskConfig → List String → List String → List String → Result (List String)
unfolding dependents spread
search zero tasks failed to_skip [] = ok to_skip
search zero tasks failed to_skip (name ∷ queue) = err out_of_fuel
search (suc fuel) tasks failed to_skip [] = ok to_skip
search (suc fuel) tasks failed to_skip (name ∷ queue) =
    let next = spread failed (dependents name tasks) to_skip queue in
    search fuel tasks failed next.0 next.1

-- A dependency that is no task has no entry in `dependents_of`.
unfoldable pub transitive_dependents : List DagTaskConfig → List String → Result (List String)
unfolding search
transitive_dependents tasks failed =
    elim (find (λ d. not (contains (names tasks) d)) (dependencies tasks)) [
      | some d ↦ err (key_error d)
      | none ↦ search (length failed + length tasks) tasks failed [] failed
    ]
