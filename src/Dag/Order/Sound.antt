-- ===== src/Dag/Order/Sound.antt =====
-- A computed execution order holds every task once, behind its dependencies.
use nexolith.Base.{
  ℕ, zero, suc, ◌≤◌, String, List, [], ◌∷◌, ◌++◌, true, false, some, ◌≡◌, ◌↔◌, refl, sym, ap, subst,
  ◌∙◌, inl, inr, find, length, contains, subset, Nodup, ok, arith, eq_iff, Bool-cases, Option-cases,
  In, find-eq-some, In-contains, contains-In, In-unique, pigeonhole,
}
use mathlib.Core.List.{append-nil, append_assoc}
use nexolith.Dag.Models.{DagTaskConfig, names}
use nexolith.Dag.Order.{is_ready, topological_order}
use nexolith.Dag.Order.Reference.{greedy, topological_order-eq-greedy}

-- Each task depends only on `seen` and on the tasks before it.
abbrev pub IsOrdered : List String → List DagTaskConfig → Type 0
IsOrdered seen [] = Unit
IsOrdered seen (t ∷ ts) = (subset t.depends_on seen ≡ true) × IsOrdered (t.name ∷ seen) ts

-- Each task is the first ready one of the file when its turn comes.
abbrev pub IsSchedule : List DagTaskConfig → List String → List DagTaskConfig → Type 0
IsSchedule tasks seen [] = Unit
IsSchedule tasks seen (t ∷ ts) =
    (find (is_ready seen) tasks ≡ some t) × IsSchedule tasks (t.name ∷ seen) ts

record Rest (tasks ordered : List DagTaskConfig) (seen : List String) (left : ℕ)
    (plan : List DagTaskConfig) : Type 0 where
  rest : List DagTaskConfig
  whole : plan ≡ ordered ++ rest
  schedule : IsSchedule tasks seen rest
  count : length rest ≡ left

greedy-Rest :
    (left : ℕ) (tasks ordered : List DagTaskConfig) (seen : List String) (plan : List DagTaskConfig)
    → greedy left tasks ordered seen ≡ ok plan
    → Rest tasks ordered seen left plan
unfolding greedy
greedy-Rest zero tasks ordered seen plan h = record {
  rest = [];
  whole = ground (arith, append-nil ordered);
  schedule = tt;
  count = refl;
}
greedy-Rest (suc left) tasks ordered seen plan h =
    elim (Option-cases (find (is_ready seen) tasks)) [
      | inl e ↦ absurd (ground arith)
      | inr (t, e) ↦
          let r = greedy-Rest left tasks (ordered ++ t ∷ []) (t.name ∷ seen) plan (ground arith) in
          record {
            rest = t ∷ r.rest;
            whole = r.whole ∙ append_assoc ordered (t ∷ []) r.rest;
            schedule = (e, r.schedule);
            count = ap suc r.count;
          }
    ]

IsSchedule-IsOrdered :
    (tasks : List DagTaskConfig) (seen : List String) (plan : List DagTaskConfig)
    → IsSchedule tasks seen plan
    → IsOrdered seen plan
IsSchedule-IsOrdered tasks seen [] s = tt
IsSchedule-IsOrdered tasks seen (t ∷ ts) s =
    let (m, ready) = find-eq-some (is_ready seen) tasks t s.0 in
    (ground arith, IsSchedule-IsOrdered tasks (t.name ∷ seen) ts s.1)

IsSchedule-In :
    (tasks : List DagTaskConfig) (seen : List String) (plan : List DagTaskConfig)
    → IsSchedule tasks seen plan
    → (t : DagTaskConfig) → In t plan
    → In t tasks
IsSchedule-In tasks seen [] s t m = absurd m
IsSchedule-In tasks seen (u ∷ us) s t (inl e) = rw e (find-eq-some (is_ready seen) tasks u s.0).0
IsSchedule-In tasks seen (u ∷ us) s t (inr m) = IsSchedule-In tasks (u.name ∷ seen) us s.1 t m

-- A scheduled name was not seen before.
IsSchedule-fresh :
    (tasks : List DagTaskConfig) (seen : List String) (plan : List DagTaskConfig)
    → IsSchedule tasks seen plan
    → (n : String) → contains seen n ≡ true
    → contains (names plan) n ≡ false
IsSchedule-fresh tasks seen [] s n h = refl
IsSchedule-fresh tasks seen (t ∷ ts) s n h =
    let ready = (find-eq-some (is_ready seen) tasks t s.0).1 in
    ground (arith, eq_iff t.name n, IsSchedule-fresh tasks (t.name ∷ seen) ts s.1 n)

IsSchedule-Nodup :
    (tasks : List DagTaskConfig) (seen : List String) (plan : List DagTaskConfig)
    → IsSchedule tasks seen plan
    → Nodup (names plan)
IsSchedule-Nodup tasks seen [] s = tt
IsSchedule-Nodup tasks seen (t ∷ ts) s = (
  IsSchedule-fresh tasks (t.name ∷ seen) ts s.1 t.name (ground (arith, eq_iff t.name t.name)),
  IsSchedule-Nodup tasks (t.name ∷ seen) ts s.1,
)

pub length-names : (ts : List DagTaskConfig) → length (names ts) ≡ length ts
length-names [] = refl
length-names (t ∷ ts) = ap suc (length-names ts)

-- Distinct names among the names of a list that is no longer are all of them.
names_complete :
    (xs ys : List String)
    → Nodup xs
    → ((n : String) → contains xs n ≡ true → contains ys n ≡ true)
    → length ys ≤ length xs
    → (n : String) → contains ys n ≡ true
    → contains xs n ≡ true
names_complete xs ys d h le n m = elim (Bool-cases (contains xs n)) [
  | inl e ↦ e
  | inr e ↦
      absurd (omega (arith, pigeonhole (n ∷ xs) ys (e, d) (λ k c. ground (arith, h k, eq_iff n k))))
]

module _ (tasks plan : List DagTaskConfig) (distinct : Nodup (names tasks))
    (returned : topological_order tasks ≡ ok plan) where
  plan-IsSchedule : IsSchedule tasks [] plan × (length plan ≡ length tasks)
  plan-IsSchedule =
      let r =
        greedy-Rest (length tasks) tasks [] [] plan
          (sym (topological_order-eq-greedy tasks distinct) ∙ returned) in
      rw r.whole (r.schedule, r.count)

  names_in : (n : String) → contains (names plan) n ≡ true → contains (names tasks) n ≡ true
  names_in n h =
      let (t, m, named) = contains-In (λ (u : DagTaskConfig). u.name) n plan h in
      let m' = IsSchedule-In tasks [] plan plan-IsSchedule.0 t m in
      rw (← named) (In-contains (λ u. u.name) t tasks m')

  distinct_plan : Nodup (names plan)
  distinct_plan = IsSchedule-Nodup tasks [] plan plan-IsSchedule.0

  same_tasks : (t : DagTaskConfig) → In t plan ↔ In t tasks
  same_tasks t = (
    IsSchedule-In tasks [] plan plan-IsSchedule.0 t,
    λ m.
        let listed =
          names_complete (names plan) (names tasks) distinct_plan names_in
            (omega (arith, length-names plan, length-names tasks, plan-IsSchedule.1)) t.name
            (In-contains (λ u. u.name) t tasks m) in
        let (u, mu, named) = contains-In (λ (u : DagTaskConfig). u.name) t.name plan listed in
        let same =
          In-unique (λ u. u.name) u t tasks distinct
            (IsSchedule-In tasks [] plan plan-IsSchedule.0 u mu) m named in
        subst (λ v. In v plan) same mu,
  )

  -- The execution order of tasks with distinct names has every task behind all of its dependencies,
  -- and holds just the given tasks, each once.
  pub topological_order_sound :
      IsOrdered [] plan × Nodup (names plan) × ((t : DagTaskConfig) → In t plan ↔ In t tasks)
  topological_order_sound =
      (IsSchedule-IsOrdered tasks [] plan plan-IsSchedule.0, distinct_plan, same_tasks)
