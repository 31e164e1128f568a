-- ===== src/Dag/Dependents/Affected.antt =====
-- The tasks that depend on others, directly or through further tasks.
use nexolith.Base.{
  String, List, [], ◌∷◌, true, ◌||◌, ◌&&◌, contains, ◌==◌, string_eq, ◌≡◌, ◌↔◌, refl, inl, inr,
  arith, eq_iff, contains-append, Bool-cases, In,
}
use nexolith.Dag.Models.{DagTaskConfig}
use nexolith.Dag.Dependents.{mentions, dependents}

-- The task named `n` depends on `d`.
abbrev pub DependsOn : List DagTaskConfig → String → String → Type 0
DependsOn tasks n d =
    (t : DagTaskConfig) × In t tasks × (t.name ≡ n) × (contains t.depends_on d ≡ true)

pub data Affected (tasks : List DagTaskConfig) (failed : List String) : String → Type 0 where
  direct : (n d : String) → contains failed d ≡ true → DependsOn tasks n d → Affected tasks failed n
  through : (n d : String) → Affected tasks failed d → DependsOn tasks n d → Affected tasks failed n

mentions-contains :
    (d n name : String) (deps : List String)
    → contains (mentions d name deps) n ≡ (name == n) && contains deps d
mentions-contains d n name [] = ground arith
mentions-contains d n name (x ∷ xs) = ground (arith, mentions-contains d n name xs)

contains-dependents :
    (d n : String) (t : DagTaskConfig) (ts : List DagTaskConfig)
    → contains (dependents d (t ∷ ts)) n
      ≡ (t.name == n && contains t.depends_on d) || contains (dependents d ts) n
unfolding dependents
contains-dependents d n t ts = ground (
  arith,
  contains-append (mentions d t.name t.depends_on) (dependents d ts) n,
  mentions-contains d n t.name t.depends_on,
)

dependents_sound :
    (d n : String) (tasks : List DagTaskConfig)
    → contains (dependents d tasks) n ≡ true
    → DependsOn tasks n d
unfolding dependents
dependents_sound d n [] h = cc
dependents_sound d n (t ∷ ts) h = elim (Bool-cases (contains (dependents d ts) n)) [
  | inl e ↦ let (u, m, named, dep) = dependents_sound d n ts e in (u, inr m, named, dep)
  | inr e ↦ (
    t,
    inl refl,
    ground (arith, h, e, contains-dependents d n t ts, eq_iff t.name n),
    ground (arith, h, e, contains-dependents d n t ts),
  )
]

dependents_complete :
    (d n : String) (tasks : List DagTaskConfig)
    → DependsOn tasks n d
    → contains (dependents d tasks) n ≡ true
dependents_complete d n [] (u, m, named, dep) = absurd m
dependents_complete d n (t ∷ ts) (u, inl e, named, dep) =
    let dep' : contains t.depends_on d ≡ true = rw (← e) dep in
    let named' : t.name ≡ n = rw (← e) named in
    ground (arith, eq_iff t.name n, contains-dependents d n t ts)
dependents_complete d n (t ∷ ts) (u, inr m, named, dep) =
    ground (arith, dependents_complete d n ts (u, m, named, dep), contains-dependents d n t ts)

pub dependents_iff :
    (d n : String) (tasks : List DagTaskConfig)
    → (contains (dependents d tasks) n ≡ true) ↔ DependsOn tasks n d
dependents_iff d n tasks = (dependents_sound d n tasks, dependents_complete d n tasks)
