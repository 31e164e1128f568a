-- ===== src/Dag/Order/Complete.antt =====
-- An execution order exists whenever the dependencies are known and acyclic.
use nexolith.Base.{
  ℕ, zero, suc, ◌+◌, ◌<◌, String, List, [], ◌∷◌, ◌++◌, true, false, ◌≡◌, refl, ◌∙◌, inl, inr, find,
  length, contains, subset, Nodup, All, ok, arith, Option-cases, In-All, find-eq-none, contains-In,
  pigeonhole, contains-subset, subset-contains,
}
use nexolith.Dag.Models.{DagTaskConfig, names}
use nexolith.Dag.Order.{is_ready, topological_order}
use nexolith.Dag.Order.Reference.{greedy, topological_order-eq-greedy}
use nexolith.Dag.Order.Sound.{length-names}

-- `rank` puts each dependency below its task, so the dependencies form no cycle.
abbrev pub IsRanked : (String → ℕ) → List DagTaskConfig → Type 0
IsRanked rank tasks =
    All (λ t. (d : String) → contains t.depends_on d ≡ true → rank d < rank t.name) tasks

abbrev pub IsKnown : List DagTaskConfig → Type 0
IsKnown tasks = All (λ t. subset t.depends_on (names tasks) ≡ true) tasks

module _ (rank : String → ℕ) (tasks : List DagTaskConfig) (ranked : IsRanked rank tasks)
    (known : IsKnown tasks) where
  -- If no task is ready, all tasks up to any rank are ordered.
  descent :
      (seen : List String)
      → All (λ t. is_ready seen t ≡ false) tasks
      → (bound : ℕ) (n : String) → contains (names tasks) n ≡ true
      → rank n < bound
      → contains seen n ≡ true
  descent seen idle zero n m lt = absurd (omega arith)
  descent seen idle (suc bound) n m lt =
      let (t, listed, named) = contains-In (λ (u : DagTaskConfig). u.name) n tasks m in
      let deps = In-All _ t tasks known listed in
      let lower = In-All _ t tasks ranked listed in
      let done : subset t.depends_on seen ≡ true = contains-subset t.depends_on seen (λ d c.
        descent seen idle bound d (subset-contains t.depends_on (names tasks) d deps c)
          (let below : rank t.name < suc bound = rw named lt in omega (arith, lower d c))) in
      let stuck : is_ready seen t ≡ false = In-All _ t tasks idle listed in
      rw (← named) (ground arith)

  greedy_total :
      (left : ℕ) (ordered : List DagTaskConfig) (seen : List String)
      → Nodup (names tasks)
      → length seen + left ≡ length tasks
      → (plan : List DagTaskConfig) × (greedy left tasks ordered seen ≡ ok plan)
  unfolding greedy
  greedy_total zero ordered seen d e = (ordered, refl)
  greedy_total (suc left) ordered seen d e = elim (Option-cases (find (is_ready seen) tasks)) [
    | inl f ↦
        let idle = find-eq-none (is_ready seen) tasks f in
        absurd (
          omega (
            arith,
            length-names tasks,
            pigeonhole (names tasks) seen d
                (λ n m. descent seen idle (suc (rank n)) n m (omega arith)),
          ))
    | inr (t, f) ↦
        let (plan, g) = greedy_total left (ordered ++ t ∷ []) (t.name ∷ seen) d (omega arith) in
        (plan, ground arith)
  ]

  -- Tasks with distinct names whose dependencies are known and ranked have an execution order: the
  -- cycle error is raised for cycles only.
  pub topological_order_total :
      Nodup (names tasks) → (plan : List DagTaskConfig) × (topological_order tasks ≡ ok plan)
  topological_order_total distinct =
      let (plan, e) = greedy_total (length tasks) [] [] distinct (omega arith) in
      (plan, topological_order-eq-greedy tasks distinct ∙ e)
