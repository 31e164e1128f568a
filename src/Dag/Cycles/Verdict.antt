-- ===== src/Dag/Cycles/Verdict.antt =====
-- The cycle check: a reported cycle is one, and without a report there is none.
use nexolith.Base.{
  ℕ, ◌<◌, String, List, [], ◌∷◌, ◌++◌, some, ◌≡◌, Nodup, All, string_eq, arith, In, In-All, All-In,
  In-contains, In-unique, subst,
}
use nexolith.Dag.Models.{DagTaskConfig, names}
use nexolith.Dag.Order.Complete.{IsKnown, IsRanked}
use nexolith.Dag.Cycles.{
  done, State, mark_of, by_name, Outcome, cycle, finished, key_error, out_of_fuel, scan,
  detect_cycle,
}
use nexolith.Dag.Cycles.Graph.{IsWalk, IsCycle, by_name-eq-some, by_name_known}
use nexolith.Dag.Cycles.Visit.{time, Inv}
use nexolith.Dag.Cycles.Report.{ScanGood, scan-Good}

module _ (tasks : List DagTaskConfig) (known : IsKnown tasks) where
  empty-Inv : Inv tasks [] []
  unfolding mark_of
  empty-Inv = record {
    done_before = λ n d h e. absurd (cc);
    on_path = λ n h. absurd (cc);
    marked = λ n h. absurd (cc);
  }

  by_name_self :
      (t : DagTaskConfig) → Nodup (names tasks) → In t tasks → by_name t.name tasks ≡ some t
  by_name_self t distinct m =
      let (u, found) =
        by_name_known tasks t.name (In-contains (λ (v : DagTaskConfig). v.name) t tasks m) in
      let (mu, named) = by_name-eq-some tasks t.name u found in
      let same : u ≡ t = In-unique (λ v. v.name) u t tasks distinct mu m named in cc

  finished-IsRanked :
      (s : State)
      → Nodup (names tasks)
      → Inv tasks s []
      → All (λ t. mark_of t.name s ≡ some done) tasks
      → IsRanked (time s) tasks
  finished-IsRanked s distinct inv all_done = All-In _ tasks λ t m d dep.
      (inv.done_before t.name d (In-All _ t tasks all_done m) (t, by_name_self t distinct m, dep)).1

-- What the cycle check says of the tasks.
abbrev pub Verdict : List DagTaskConfig → Outcome → Type 0
Verdict tasks (cycle c) = IsCycle tasks c
Verdict tasks (finished s) = IsRanked (time s) tasks
Verdict tasks _ = ⊥

-- The cycle check of tasks with distinct names and known dependencies ends without an error. If it
-- reports a list of names, each depends on the next and the last is the first; if it reports
-- nothing, the tasks can be ranked with every dependency below its task, so there is no cycle.
pub detect_cycle-Verdict :
    (tasks : List DagTaskConfig)
    → Nodup (names tasks)
    → IsKnown tasks
    → Verdict tasks (detect_cycle tasks)
unfolding detect_cycle
detect_cycle-Verdict tasks distinct known =
    judge (scan tasks tasks []) (scan-Good tasks known tasks [] (λ t m. m) (empty-Inv tasks known))
  where
    judge : (o : Outcome) → ScanGood tasks known tasks [] o → Verdict tasks o
    judge (cycle c) g = g
    judge (finished s) (inv, stays, all_done) =
        finished-IsRanked tasks known s distinct inv all_done
    judge (key_error n) g = g
    judge out_of_fuel g = g

IsWalk-falls :
    (tasks : List DagTaskConfig) (rank : String → ℕ)
    → IsRanked rank tasks
    → (a : String) (between : List String) (b : String) → IsWalk tasks ((a ∷ between) ++ b ∷ [])
    → rank b < rank a
IsWalk-falls tasks rank ranked a [] b ((t, found, dep), _) =
    let (m, named) = by_name-eq-some tasks a t found in
    let lower = In-All _ t tasks ranked m b dep in rw (← named) lower
IsWalk-falls tasks rank ranked a (c ∷ cs) b ((t, found, dep), w) =
    let (m, named) = by_name-eq-some tasks a t found in
    let lower : rank c < rank a = rw (← named) (In-All _ t tasks ranked m c dep) in
    omega (arith, IsWalk-falls tasks rank ranked c cs b w)

-- Tasks with a cycle cannot be ranked.
pub IsCycle-not-IsRanked :
    (tasks : List DagTaskConfig) (c : List String) (rank : String → ℕ)
    → IsCycle tasks c
    → ¬ IsRanked rank tasks
IsCycle-not-IsRanked tasks c rank cyc ranked = omega (
  arith,
  IsWalk-falls tasks rank ranked cyc.start cyc.between cyc.start
      (subst (IsWalk tasks) cyc.closed cyc.walk),
)
