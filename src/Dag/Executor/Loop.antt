-- ===== src/Dag/Executor/Loop.antt =====
-- The loop over the tasks keeps the history of its run.
use nexolith.Base.{
  ℕ, String, List, ◌∷◌, Bool, true, false, Option, some, ◌≡◌, refl, ◌∙◌, ap, subst, arith, ok,
  string_eq, eq_iff, contains, subset, subset-contains, In, contains-In, ◌↔◌, inl, inr, Bool-cases,
  ◌==◌,
}
use nexolith.Dag.Models.{DagTaskConfig, DagConfig, names}
use nexolith.Dag.Dependents.Affected.{Affected, direct, through}
use nexolith.State.Models.{TaskRunStatus}
use nexolith.State.Store.{StateStore}
use nexolith.Dag.Executor.{Progress, note_result}
use nexolith.Dag.Executor.Statuses.{task_status, SetsTo, outcome}
use nexolith.Dag.Executor.History.{
  IsReleased, Account, succeeded, failed, skipped, blocked, History, History-snoc, set_status,
  stays_succeeded,
}

pub same_progress : (p p' : Progress) → ok p ≡ ok p' → p ≡ p'
same_progress p p' h = cc

module _ (tasks done : List DagTaskConfig) (id : ℕ) (t : DagTaskConfig) (p : Progress)
    (s : StateStore) (h : History tasks done id p s) (member : In t tasks)
    (fresh : contains (names done) t.name ≡ false) where
  not_failed : contains p.failed_tasks t.name ≡ false
  not_failed = ground (arith, h.failures t.name)

  -- A task that is neither blocked nor skipped has only dependencies that succeeded.
  pub released :
      (skip : List String)
      → p.blocked ≡ false
      → contains skip t.name ≡ false
      → ((n : String)
          → (contains skip n ≡ true)
            ↔ (Affected tasks p.failed_tasks n × (contains p.failed_tasks n ≡ false)))
      → subset t.depends_on (names done) ≡ true
      → IsReleased id t s
  released skip open_ kept found ready d dep =
      let (u, m, named) =
        contains-In (λ (v : DagTaskConfig). v.name) d done
          (subset-contains t.depends_on (names done) d ready dep) in
      subst (λ n. task_status id n s ≡ some TaskRunStatus.succeeded) named
        (judge u named (h.accounts u m))
    where
      spared : Affected tasks p.failed_tasks t.name → ⊥
      spared a = absurd (ground (arith, (found t.name).1 (a, not_failed)))

      judge :
          (u : DagTaskConfig)
          → u.name ≡ d
          → Account tasks p.failed_tasks p.blocked id u s
          → task_status id u.name s ≡ some TaskRunStatus.succeeded
      judge u named (succeeded e r) = e
      judge u named (failed e f r) = absurd (
          spared (
            direct t.name d (subst (λ n. contains p.failed_tasks n ≡ true) named f)
              (t, member, refl, dep)))
      judge u named (skipped e a) = absurd (
          spared (
            through t.name d (subst (λ n. Affected tasks p.failed_tasks n) named a)
              (t, member, refl, dep)))
      judge u named (blocked e b) = absurd (ground arith)

  -- The history once the task was attempted.
  pub attempted :
      (dag : DagConfig) (p' : Progress) (s' : StateStore)
      → IsReleased id t s
      → (success : Bool) (error : Option String) → p' ≡ note_result dag.on_failure t success error p
      → SetsTo id t.name (outcome success) s s'
      → History tasks (t ∷ done) id p' s'
  unfolding note_result
  attempted dag p' s' free true error e sets =
      let stays : p'.blocked ≡ p.blocked = ap (λ q. q.blocked) e in
      let fails : p'.failed_tasks ≡ p.failed_tasks = ap (λ q. q.failed_tasks) e in
      let more : (n : String)
          → contains p.failed_tasks n ≡ true
          → contains p'.failed_tasks n ≡ true =
        λ n f. rw fails f in
      let stop : p.blocked ≡ true → p'.blocked ≡ true = λ b. stays ∙ b in
      History-snoc tasks done id t p p' s s' _ sets h member fresh more stop
        (succeeded (set_status tasks done id t p p' s s' _ sets h member fresh more stop) (λ d dep.
          stays_succeeded tasks done id t p p' s s' _ sets h member fresh more stop d (free d dep)))
        (λ n f. ground (arith, h.failures n, ap (λ l. contains l n) fails))
        (λ n f. inl (ground (arith, ap (λ l. contains l n) fails)))
  attempted dag p' s' free false error e sets =
      let fails : p'.failed_tasks ≡ t.name ∷ p.failed_tasks = ap (λ q. q.failed_tasks) e in
      let more : (n : String)
          → contains p.failed_tasks n ≡ true
          → contains p'.failed_tasks n ≡ true =
        λ n f. rw fails (ground arith) in
      let stop : p.blocked ≡ true → p'.blocked ≡ true =
        λ b. ground (arith, ap (λ q. q.blocked) e) in
      History-snoc tasks done id t p p' s s' _ sets h member fresh more stop
        (failed (set_status tasks done id t p p' s s' _ sets h member fresh more stop)
          (rw fails (ground (arith, eq_iff t.name t.name)))
          (λ d dep.
            stays_succeeded tasks done id t p p' s s' _ sets h member fresh more stop d
              (free d dep)))
        (λ n f. ground (arith, h.failures n, ap (λ l. contains l n) fails))
        (λ n f. elim (Bool-cases (t.name == n)) [
          | inl same ↦ inr ((eq_iff t.name n).0 same, refl)
          | inr other ↦ inl (ground (arith, ap (λ l. contains l n) fails))
        ])
