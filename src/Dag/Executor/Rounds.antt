-- ===== src/Dag/Executor/Rounds.antt =====
-- The rounds of the loop over the tasks, one after the other.
use nexolith.Base.{
  ℕ, String, List, [], ◌∷◌, true, false, ◌≡◌, refl, subst, arith, inl, inr, ◌⊎◌, Result, ok,
  string_eq, eq_iff, Bool-cases, contains, subset, In, Result-cases, Nodup, Bool, Option, sym, ap,
  ◌∙◌,
}
use nexolith.Dag.Models.{DagTaskConfig, DagConfig, names}
use nexolith.Dag.Order.Complete.{IsKnown}
use nexolith.Dag.Order.Sound.{IsOrdered}
use nexolith.Dag.Validator.{Files}
use nexolith.Dag.Dependents.{transitive_dependents}
use nexolith.Dag.Dependents.Found.{transitive_dependents_iff}
use nexolith.State.Models.{TaskRunStatus}
use nexolith.State.Store.{skip_task_run, block_task_run}
use nexolith.Dag.Executor.{
  Call, World, Progress, run_task, run_tasks, with_store, attempt_task, note_result, blocks,
}
use nexolith.Dag.Executor.Statuses.{skip_task_run-SetsTo, block_task_run-SetsTo}
use nexolith.Dag.Executor.Effects.{attempt_task-Attempted}
use nexolith.Dag.Executor.History.{skipped, blocked, History, History-snoc, set_status}
use nexolith.Dag.Executor.Loop.{same_progress, released, attempted}

-- The tasks that are dealt with at the end, the last one first.
abbrev pub onto : List DagTaskConfig → List DagTaskConfig → List DagTaskConfig
onto [] done = done
onto (t ∷ ts) done = onto ts (t ∷ done)

pub In-onto :
    (t : DagTaskConfig) (ts done : List DagTaskConfig) → In t ts ⊎ In t done → In t (onto ts done)
In-onto t [] done (inl m) = absurd m
In-onto t [] done (inr m) = m
In-onto t (u ∷ ts) done (inl (inl e)) = In-onto t ts (u ∷ done) (inr (inl e))
In-onto t (u ∷ ts) done (inl (inr m)) = In-onto t ts (u ∷ done) (inl m)
In-onto t (u ∷ ts) done (inr m) = In-onto t ts (u ∷ done) (inr (inr m))

module _ (files : Files) (perform : List Call → Call → Result (Unit {0})) (dag : DagConfig)
    (base_dir : String) (id : ℕ) (known : IsKnown dag.tasks) where
  round_blocked :
      (t : DagTaskConfig) (p : Progress) (w : World)
      → p.blocked ≡ true
      → run_task files perform dag base_dir id t p w
        ≡ (ok p, with_store (block_task_run id t.name w.store) w)
  unfolding run_task
  round_blocked t p w stop = simp (stop)

  round_skipped :
      (t : DagTaskConfig) (p : Progress) (w : World) (skip : List String)
      → p.blocked ≡ false
      → transitive_dependents dag.tasks p.failed_tasks ≡ ok skip
      → contains skip t.name ≡ true
      → run_task files perform dag base_dir id t p w
        ≡ (ok p, with_store (skip_task_run id t.name w.store) w)
  unfolding run_task
  round_skipped t p w skip go searched off = simp (go, searched, off)

  round_attempted :
      (t : DagTaskConfig) (p : Progress) (w : World) (skip : List String)
      → p.blocked ≡ false
      → transitive_dependents dag.tasks p.failed_tasks ≡ ok skip
      → contains skip t.name ≡ false
      → run_task files perform dag base_dir id t p w
        ≡ attempt_task files perform dag base_dir id t p w
  unfolding run_task
  round_attempted t p w skip go searched on = simp (go, searched, on)

  round :
      (done : List DagTaskConfig) (t : DagTaskConfig) (p p' : Progress) (w : World)
      → History dag.tasks done id p w.store
      → In t dag.tasks
      → contains (names done) t.name ≡ false
      → subset t.depends_on (names done) ≡ true
      → (run_task files perform dag base_dir id t p w).0 ≡ ok p'
      → History dag.tasks (t ∷ done) id p' (run_task files perform dag base_dir id t p w).1.store
  round done t p p' w h member fresh ready = elim (Bool-cases p.blocked) [
    | inl stop ↦ rw (round_blocked t p w stop) (λ r.
        subst (λ q. History dag.tasks (t ∷ done) id q (block_task_run id t.name w.store))
          (same_progress p p' r)
          (let sets = block_task_run-SetsTo id t.name w.store in
            History-snoc dag.tasks done id t p p w.store (block_task_run id t.name w.store)
              TaskRunStatus.blocked sets h member fresh (λ n f. f) (λ b. b)
              (blocked
                (set_status dag.tasks done id t p p w.store (block_task_run id t.name w.store)
                  TaskRunStatus.blocked sets h member fresh (λ n f. f) (λ b. b))
                stop)
              (λ n f. ground (arith, h.failures n)) (λ n f. inl f)))
    | inr go ↦
        let (skip, searched, found) = transitive_dependents_iff dag.tasks p.failed_tasks known in
        elim (Bool-cases (contains skip t.name)) [
          | inl off ↦ rw (round_skipped t p w skip go searched off) (λ r.
              subst (λ q. History dag.tasks (t ∷ done) id q (skip_task_run id t.name w.store))
                (same_progress p p' r)
                (let sets = skip_task_run-SetsTo id t.name w.store in
                  History-snoc dag.tasks done id t p p w.store (skip_task_run id t.name w.store)
                    TaskRunStatus.skipped sets h member fresh (λ n f. f) (λ b. b)
                    (skipped
                      (set_status dag.tasks done id t p p w.store (skip_task_run id t.name w.store)
                        TaskRunStatus.skipped sets h member fresh (λ n f. f) (λ b. b))
                      ((found t.name).0 off).0)
                    (λ n f. ground (arith, h.failures n)) (λ n f. inl f)))
          | inr on ↦ rw (round_attempted t p w skip go searched on) (λ r.
              let a = attempt_task-Attempted files perform dag base_dir id t p p' w r in
              attempted dag.tasks done id t p w.store h member fresh dag p' _
                (released dag.tasks done id t p w.store h member fresh skip go on found ready)
                a.success a.error a.progress a.statuses)
        ]
  ]

  pub run_tasks-History :
      (ts done : List DagTaskConfig) (p p' : Progress) (w : World)
      → History dag.tasks done id p w.store
      → ((t : DagTaskConfig) → In t ts → In t dag.tasks)
      → Nodup (names ts)
      → ((n : String) → contains (names ts) n ≡ true → contains (names done) n ≡ false)
      → IsOrdered (names done) ts
      → (run_tasks files perform dag base_dir id ts p w).0 ≡ ok p'
      → History dag.tasks
          (onto ts done)
          id
          p'
          (run_tasks files perform dag base_dir id ts p w).1.store
  unfolding run_tasks
  run_tasks-History [] done p p' w h members distinct apart ordered =
      λ r. subst (λ q. History dag.tasks done id q w.store) (same_progress p p' r) h
  run_tasks-History (t ∷ ts) done p p' w h members distinct apart ordered =
      elim (Result-cases (run_task files perform dag base_dir id t p w).0) [
        | inr (e, ran) ↦ rw (ran, run_tasks) (λ r. absurd (cc))
        | inl (q, ran) ↦
            rw (ran, run_tasks)
              (λ r.
                run_tasks-History ts (t ∷ done) q p' _
                  (round done t p q w h (members t (inl refl))
                    (apart t.name (ground (arith, eq_iff t.name t.name))) ordered.0 ran)
                  (λ u m. members u (inr m)) distinct.1
                  (λ n m. ground (arith, apart n, distinct.0, eq_iff t.name n)) ordered.1 r)
      ]

  -- A run is blocked under the policy that says so, only.
  abbrev pub BlocksOnlyIf : Progress → Progress → Type 0
  BlocksOnlyIf p p' = p'.blocked ≡ true → (p.blocked ≡ true) ⊎ (blocks dag.on_failure ≡ true)

  noted-BlocksOnlyIf :
      (t : DagTaskConfig) (success : Bool) (error : Option String) (p p' : Progress)
      → p' ≡ note_result dag.on_failure t success error p
      → BlocksOnlyIf p p'
  unfolding note_result
  noted-BlocksOnlyIf t true error p p' e b = inl (sym (ap (λ q. q.blocked) e) ∙ b)
  noted-BlocksOnlyIf t false error p p' e b = elim (Bool-cases (blocks dag.on_failure)) [
    | inl policy ↦ inr policy
    | inr free ↦ inl (ground (arith, ap (λ q. q.blocked) e))
  ]

  round-BlocksOnlyIf :
      (t : DagTaskConfig) (p p' : Progress) (w : World)
      → (run_task files perform dag base_dir id t p w).0 ≡ ok p'
      → BlocksOnlyIf p p'
  round-BlocksOnlyIf t p p' w = elim (Bool-cases p.blocked) [
    | inl stop ↦ λ r b. inl stop
    | inr go ↦
        let (skip, searched, found) = transitive_dependents_iff dag.tasks p.failed_tasks known in
        elim (Bool-cases (contains skip t.name)) [
          | inl off ↦
              rw (round_skipped t p w skip go searched off)
                (λ r b. inl (ap (λ q. q.blocked) (same_progress p p' r) ∙ b))
          | inr on ↦ rw (round_attempted t p w skip go searched on) (λ r b.
              let a = attempt_task-Attempted files perform dag base_dir id t p p' w r in
              noted-BlocksOnlyIf t a.success a.error p p' a.progress b)
        ]
  ]

  pub run_tasks-BlocksOnlyIf :
      (ts : List DagTaskConfig) (p p' : Progress) (w : World)
      → (run_tasks files perform dag base_dir id ts p w).0 ≡ ok p'
      → BlocksOnlyIf p p'
  unfolding run_tasks
  run_tasks-BlocksOnlyIf [] p p' w = λ r b. inl (ap (λ q. q.blocked) (same_progress p p' r) ∙ b)
  run_tasks-BlocksOnlyIf (t ∷ ts) p p' w =
      elim (Result-cases (run_task files perform dag base_dir id t p w).0) [
        | inr (e, ran) ↦ rw (ran, run_tasks) (λ r. absurd (cc))
        | inl (q, ran) ↦
            rw (ran, run_tasks)
              (λ r b. elim (run_tasks-BlocksOnlyIf ts q p' _ r b) [
                | inl earlier ↦ round-BlocksOnlyIf t p q w ran earlier
                | inr policy ↦ inr policy
              ])
      ]
