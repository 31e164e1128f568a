-- ===== src/Dag/Cycles.antt =====
-- src/nexolith/dag/validator.py, `_detect_cycle`.
pub mod Graph
pub mod Visit
pub mod Report
pub mod Verdict
use nexolith.Base.{
  ℕ, zero, suc, String, List, [], ◌∷◌, ◌++◌, Bool, true, false, Option, none, some, length, ◌==◌,
  string_eq, if◌then◌else◌,
}
use nexolith.Dag.Models.{DagTaskConfig}

-- A task without a mark is unvisited.
pub data Mark : Type 0 where
  visiting done : Mark

-- `state`: the newest mark of a name is the one that counts.
abbrev pub State : Type 0
State = List (String × Mark)

unfoldable pub mark_of : String → State → Option Mark
mark_of n [] = none
mark_of n ((m, k) ∷ s) = if m == n then some k else mark_of n s

-- `{task.name: task for task in tasks}[name]`: the last task of the name.
unfoldable pub by_name : String → List DagTaskConfig → Option DagTaskConfig
by_name n [] = none
by_name n (t ∷ ts) = elim (by_name n ts) [
  | some u ↦ some u
  | none ↦ if t.name == n then some t else none
]

-- `path[path.index(name):]`.
unfoldable pub path_from : String → List String → List String
path_from n [] = []
path_from n (m ∷ path) = if m == n then m ∷ path else path_from n path

-- How a visit ends: with a cycle, with the new marks, with the KeyError of an unknown name, or
-- without fuel.
pub data Outcome : Type 0 where
  cycle : List String → Outcome
  finished : State → Outcome
  key_error : String → Outcome
  out_of_fuel : Outcome

-- `if found is not None: return found`.
abbrev pub and_then : Outcome → (State → Outcome) → Outcome
and_then (cycle c) rest = cycle c
and_then (finished s) rest = rest s
and_then (key_error n) rest = key_error n
and_then out_of_fuel rest = out_of_fuel

abbrev pub is_visiting : Option Mark → Bool
is_visiting (some visiting) = true
is_visiting _ = false

abbrev pub is_done : Option Mark → Bool
is_done (some done) = true
is_done _ = false

-- The `for` loop of `visit(name)`, over the dependencies that are left. `path` ends in `name`.
unfoldable pub visit_deps :
    (State → List String → String → Outcome) → String → List String → State → List String → Outcome
visit_deps visit name [] s path = finished ((name, done) ∷ s)
visit_deps visit name (d ∷ ds) s path =
    if is_visiting (mark_of d s)
    then cycle (path_from d path ++ d ∷ [])
    else if is_done (mark_of d s)
    then visit_deps visit name ds s path
    else elim (visit s path d) [ finished s' ↦ visit_deps visit name ds s' path | other ↦ other ]

-- The fuel bounds the depth of the recursion. `path` is as it was once a visit has finished.
unfoldable pub visit : ℕ → List DagTaskConfig → State → List String → String → Outcome
visit zero tasks s path name = out_of_fuel
visit (suc fuel) tasks s path name = elim (by_name name tasks) [
  | none ↦ key_error name
  | some task ↦
      visit_deps (visit fuel tasks) name task.depends_on ((name, visiting) ∷ s) (path ++ name ∷ [])
]

-- The loop over the tasks that are left.
unfoldable pub scan : List DagTaskConfig → List DagTaskConfig → State → Outcome
scan tasks [] s = finished s
scan tasks (t ∷ ts) s =
    if is_done (mark_of t.name s)
    then scan tasks ts s
    else and_then (visit (suc (length tasks)) tasks s [] t.name) (λ s'. scan tasks ts s')

unfoldable pub detect_cycle : List DagTaskConfig → Outcome
detect_cycle tasks = scan tasks tasks []
