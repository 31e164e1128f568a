-- ===== src/Dag/Models/Shape.antt =====
-- What a validated DAG configuration satisfies.
use nexolith.Base.{
  ℕ, suc, String, List, [], ◌∷◌, ◌++◌, Bool, true, false, not, Option, none, some, ◌≡◌, ◌≢◌, ◌↔◌,
  ◌∙◌, inl, inr, refl, filter, All, contains, subset, Nodup, ◌==◌, string_eq, text_le, arith,
  eq_iff, Bool-cases,
}
use nexolith.Base.Sort.{sort_by, insert_by}
use nexolith.Types.{at_least_zero, at_least_one}
use nexolith.Dag.Models.{
  DagTaskConfig, Fault, FaultKind, require, not_empty, after, names, repeated, distinct, is_empty,
  pipeline_or_script, require_pipeline_or_script, task_field_faults, task_faults, tasks_faults,
  duplicates, unknown_dependencies, dependency_fault, first_dependency_fault,
}

-- A task names what it runs, a pipeline or a script, and not both.
abbrev pub RunsOne : Option String → Option String → Type 0
RunsOne (some p) none = p ≢ ""
RunsOne none (some s) = s ≢ ""
RunsOne _ _ = ⊥

pub record IsValidTask (task : DagTaskConfig) : Type 0 where
  pub named : task.name ≢ ""
  pub runs_one : RunsOne task.pipeline task.script
  pub delay : at_least_zero task.retry_delay_seconds ≡ true
  pub multiplier : at_least_one task.retry_backoff_multiplier ≡ true

-- The dependencies are known tasks, and others than the task.
pub record IsLinked (known : List String) (task : DagTaskConfig) : Type 0 where
  pub not_self : contains task.depends_on task.name ≡ false
  pub known_deps : subset task.depends_on known ≡ true

insert_by-is_empty :
    (le : String → String → Bool) (x : String) (xs : List String)
    → is_empty (insert_by le x xs) ≡ false
unfolding insert_by
insert_by-is_empty le x [] = refl
insert_by-is_empty le x (y ∷ ys) = ground arith

sort_by-is_empty :
    (le : String → String → Bool) (xs : List String) → is_empty (sort_by le xs) ≡ is_empty xs
unfolding sort_by
sort_by-is_empty le [] = refl
sort_by-is_empty le (x ∷ xs) = insert_by-is_empty le x (sort_by le xs)

distinct-is_empty : (xs : List String) → is_empty (distinct xs) ≡ is_empty xs
distinct-is_empty [] = refl
distinct-is_empty (x ∷ []) = refl
distinct-is_empty (x ∷ y ∷ ys) = ground (arith, distinct-is_empty (y ∷ ys))

pub repeated_Nodup : (xs : List String) → is_empty (repeated xs) ≡ true → Nodup xs
repeated_Nodup [] h = tt
repeated_Nodup (x ∷ xs) h = elim (Bool-cases (contains xs x)) [
  | inl e ↦ cc (rw e at h)
  | inr e ↦ (e, repeated_Nodup xs (rw e at h))
]

pub Nodup_repeated : (xs : List String) → Nodup xs → is_empty (repeated xs) ≡ true
Nodup_repeated [] h = refl
Nodup_repeated (x ∷ xs) h = ground (arith, h.0, Nodup_repeated xs h.1)

pub duplicates-is_empty :
    (tasks : List DagTaskConfig) → is_empty (duplicates tasks) ≡ is_empty (repeated (names tasks))
unfolding duplicates
duplicates-is_empty tasks =
    sort_by-is_empty text_le (distinct (repeated (names tasks)))
    ∙ distinct-is_empty (repeated (names tasks))

filter-is_empty :
    (known deps : List String)
    → is_empty (filter (λ d. not (contains known d)) deps) ≡ subset deps known
filter-is_empty known [] = refl
filter-is_empty known (d ∷ deps) = ground (arith, filter-is_empty known deps)

unknown_dependencies-is_empty :
    (known : List String) (task : DagTaskConfig)
    → is_empty (unknown_dependencies known task) ≡ subset task.depends_on known
unfolding unknown_dependencies
unknown_dependencies-is_empty known task =
    sort_by-is_empty text_le _ ∙ filter-is_empty known task.depends_on

dependency_fault_iff :
    (known : List String) (task : DagTaskConfig)
    → (dependency_fault known task ≡ none) ↔ IsLinked known task
unfolding dependency_fault
dependency_fault_iff known task = (
  λ h. ground (arith, unknown_dependencies-is_empty known task),
  λ h. ground (arith, unknown_dependencies-is_empty known task),
)

first_dependency_fault_parts :
    (known : List String) (t : DagTaskConfig) (ts : List DagTaskConfig)
    → first_dependency_fault known (t ∷ ts) ≡ none
    → (dependency_fault known t ≡ none) × (first_dependency_fault known ts ≡ none)
unfolding first_dependency_fault
first_dependency_fault_parts known t ts h = (ground arith, ground arith)

pub first_dependency_fault_iff :
    (known : List String) (tasks : List DagTaskConfig)
    → (first_dependency_fault known tasks ≡ none) ↔ All (IsLinked known) tasks
unfolding first_dependency_fault
first_dependency_fault_iff known [] = (λ h. tt, λ h. refl)
first_dependency_fault_iff known (t ∷ ts) =
    let head_iff = dependency_fault_iff known t in
    let tail_iff = first_dependency_fault_iff known ts in
    (
      λ h. let (a, b) = first_dependency_fault_parts known t ts h in (head_iff.0 a, tail_iff.0 b),
      λ h. ground (arith, head_iff.1 h.0, tail_iff.1 h.1),
    )

pub append-nil_iff : (fs gs : List Fault) → (fs ++ gs ≡ []) ↔ ((fs ≡ []) × (gs ≡ []))
append-nil_iff [] gs = (λ h. (refl, h), λ h. h.1)
append-nil_iff (f ∷ fs) gs = (λ h. cc, λ h. cc)

pub require_iff :
    (b : Bool) (loc : List String) (kind : FaultKind) → (require b loc kind ≡ []) ↔ (b ≡ true)
require_iff true loc kind = (λ h. refl, λ h. refl)
require_iff false loc kind = (λ h. cc, λ h. cc)

pub after_iff :
    (fs : List Fault) (loc : List String) (verdict : Option String)
    → (after fs loc verdict ≡ []) ↔ ((fs ≡ []) × (verdict ≡ none))
after_iff [] loc none = (λ h. (refl, refl), λ h. refl)
after_iff [] loc (some m) = (λ h. cc, λ h. cc)
after_iff (f ∷ fs) loc verdict = (λ h. cc, λ h. cc)

pub require_cons_iff :
    (b : Bool) (loc : List String) (kind : FaultKind) (fs : List Fault)
    → (require b loc kind ++ fs ≡ []) ↔ ((b ≡ true) × (fs ≡ []))
require_cons_iff true loc kind fs = (λ h. (refl, h), λ h. h.1)
require_cons_iff false loc kind fs = (λ h. cc, λ h. cc)

-- The five constraints on a task's fields.
abbrev FieldsPass : DagTaskConfig → Type 0
FieldsPass task =
    (not (task.name == "") ≡ true)
    × (not_empty task.pipeline ≡ true)
    × (not_empty task.script ≡ true)
    × (at_least_zero task.retry_delay_seconds ≡ true)
    × (at_least_one task.retry_backoff_multiplier ≡ true)

task_field_faults_iff :
    (loc : List String) (task : DagTaskConfig) → (task_field_faults loc task ≡ []) ↔ FieldsPass task
unfolding task_field_faults
task_field_faults_iff loc task = (
  λ h.
      let (a, h₁) = (require_cons_iff _ _ _ _).0 h in
      let (b, h₂) = (require_cons_iff _ _ _ _).0 h₁ in
      let (c, h₃) = (require_cons_iff _ _ _ _).0 h₂ in
      let (d, h₄) = (require_cons_iff _ _ _ _).0 h₃ in (a, b, c, d, (require_iff _ _ _).0 h₄),
  λ p. simp (p.0, p.1, p.2, p.3, p.4),
)

RunsOne-iff :
    (p s : Option String)
    → ((not_empty p ≡ true) × (not_empty s ≡ true) × (pipeline_or_script p s ≡ none)) ↔ RunsOne p s
RunsOne-iff none none = (λ h. cc, λ h. absurd h)
RunsOne-iff none (some s) = (λ h. ground (arith, eq_iff s ""), λ h. ground (arith, eq_iff s ""))
RunsOne-iff (some p) none = (λ h. ground (arith, eq_iff p ""), λ h. ground (arith, eq_iff p ""))
RunsOne-iff (some p) (some s) = (λ h. ground (arith, eq_iff p "", eq_iff s ""), λ h. absurd h)

task_faults_iff :
    (loc : List String) (task : DagTaskConfig) → (task_faults loc task ≡ []) ↔ IsValidTask task
unfolding task_faults require_pipeline_or_script
task_faults_iff loc task = (
  λ h.
      let (fields, verdict) = (after_iff _ _ _).0 h in
      let (a, b, c, d, e) = (task_field_faults_iff loc task).0 fields in
      record {
        named = ground (arith, eq_iff task.name "");
        runs_one = (RunsOne-iff task.pipeline task.script).0 (b, c, verdict);
        delay = d;
        multiplier = e;
      },
  λ v.
      let (b, c, verdict) = (RunsOne-iff task.pipeline task.script).1 v.runs_one in
      (after_iff _ _ _).1 (
        (task_field_faults_iff loc task).1
            (ground (arith, eq_iff task.name "", v.named), b, c, v.delay, v.multiplier),
        verdict,
      ),
)

pub tasks_faults_iff :
    (index : ℕ) (tasks : List DagTaskConfig)
    → (tasks_faults index tasks ≡ []) ↔ All IsValidTask tasks
unfolding tasks_faults
tasks_faults_iff index [] = (λ h. tt, λ h. refl)
tasks_faults_iff index (t ∷ ts) =
    let rest = tasks_faults_iff (suc index) ts in
    (
      λ h. let (a, b) = (append-nil_iff _ _).0 h in ((task_faults_iff _ t).0 a, rest.0 b),
      λ v. (append-nil_iff _ _).1 ((task_faults_iff _ t).1 v.0, rest.1 v.1),
    )
