-- ===== src/Config/Models/Valid.antt =====
-- What the validators of a pipeline let through.
use nexolith.Base.{
  String, ◌≡◌, refl, true, not, ◌||◌, List, [], ◌∷◌, ◌++◌, map, arith, ◌==◌, string_eq, nat_eq,
  Nodup,
}
use nexolith.Nexoactions.Execution.{NexoActionConfig}
use nexolith.Config.Models.{
  pipeline_faults, SourceConfig, source_faults, ConfigFault, require_query_or_table, or_else_faults,
  csv_source, field_faults, require_unique_actions, sql_source, PipelineDocument, demand,
}
use nexolith.Dag.Models.{is_given}
use nexolith.Nexoactions.Contracts.Bound.{has_repeats-Nodup}

-- A SQL source says what it reads, in one way or another.
abbrev pub IsNamed : SourceConfig → Type 0
IsNamed (csv_source c) = Unit {0}
IsNamed (sql_source s) = (is_given s.query || is_given s.query_file || is_given s.table) ≡ true

abbrev pub action_types : List NexoActionConfig → List String
action_types actions = map (λ a. a.type) actions

append-nil : (xs ys : List ConfigFault) → xs ++ ys ≡ [] → (xs ≡ []) × (ys ≡ [])
append-nil [] ys h = (refl, h)
append-nil (x ∷ xs) ys h = absurd (cc)

or_else_faults-nil : (xs ys : List ConfigFault) → or_else_faults xs ys ≡ [] → (xs ≡ []) × (ys ≡ [])
or_else_faults-nil [] ys h = (refl, h)
or_else_faults-nil (x ∷ xs) ys h = absurd (cc)

source_faults-IsNamed : (source : SourceConfig) → source_faults source ≡ [] → IsNamed source
unfolding source_faults require_query_or_table
source_faults-IsNamed (csv_source c) h = tt
source_faults-IsNamed (sql_source s) h = ground (arith, h)

-- A valid pipeline names what it reads, and each action once.
pub pipeline_faults-valid :
    (p : PipelineDocument)
    → pipeline_faults p ≡ []
    → IsNamed p.source × Nodup (action_types p.actions)
unfolding pipeline_faults field_faults require_unique_actions
pipeline_faults-valid p h =
    let (fields, unique) = or_else_faults-nil (field_faults p) (require_unique_actions p) h in
    let (name, rest) = append-nil (demand (not (p.name == "")) ConfigFault.empty_text) _ fields in
    (
      source_faults-IsNamed p.source (append-nil (source_faults p.source) _ rest).0,
      has_repeats-Nodup (action_types p.actions) (ground (arith, unique)),
    )
