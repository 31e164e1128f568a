-- ===== src/Dag/Executor/History.antt =====
-- What the statuses of a run say while its tasks are run.
use nexolith.Base.{
  ℕ, String, List, ◌∷◌, Bool, true, false, ◌||◌, some, ◌≡◌, sym, ◌∙◌, subst, arith, inl, inr, ◌==◌,
  string_eq, eq_iff, Bool-cases, contains, In, In-contains, ◌⊎◌, ap,
}
use nexolith.Dag.Models.{DagTaskConfig, names}
use nexolith.Dag.Dependents.Affected.{Affected, direct, through}
use nexolith.State.Models.{TaskRunStatus}
use nexolith.State.Store.{StateStore}
use nexolith.Dag.Executor.{Progress}
use nexolith.Dag.Executor.Statuses.{task_status, SetsTo}

-- Every dependency of the task has succeeded.
abbrev pub IsReleased : ℕ → DagTaskConfig → StateStore → Type 0
IsReleased id t s =
    (d : String)
    → contains t.depends_on d ≡ true
    → task_status id d s ≡ some TaskRunStatus.succeeded

-- What became of a task, and why.
pub data Account (tasks : List DagTaskConfig) (failed_tasks : List String) (stopped : Bool) (id : ℕ)
    (t : DagTaskConfig) (s : StateStore) : Type 0 where
  succeeded :
      task_status id t.name s ≡ some TaskRunStatus.succeeded
      → IsReleased id t s
      → Account tasks failed_tasks stopped id t s
  failed :
      task_status id t.name s ≡ some TaskRunStatus.failed
      → contains failed_tasks t.name ≡ true
      → IsReleased id t s
      → Account tasks failed_tasks stopped id t s
  skipped :
      task_status id t.name s ≡ some TaskRunStatus.skipped
      → Affected tasks failed_tasks t.name
      → Account tasks failed_tasks stopped id t s
  blocked :
      task_status id t.name s ≡ some TaskRunStatus.blocked
      → stopped ≡ true
      → Account tasks failed_tasks stopped id t s

pub record History (tasks done : List DagTaskConfig) (id : ℕ) (p : Progress) (s : StateStore)
    : Type 0 where
  pub accounts : (t : DagTaskConfig) → In t done → Account tasks p.failed_tasks p.blocked id t s
  pub waiting :
      (n : String)
      → contains (names tasks) n ≡ true
      → contains (names done) n ≡ false
      → task_status id n s ≡ some TaskRunStatus.pending
  -- What counts as failed did fail.
  pub failing :
      (n : String)
      → contains p.failed_tasks n ≡ true
      → task_status id n s ≡ some TaskRunStatus.failed
  pub failures : (n : String) → contains p.failed_tasks n ≡ true → contains (names done) n ≡ true

Affected-more :
    (tasks : List DagTaskConfig) (fs gs : List String)
    → ((n : String) → contains fs n ≡ true → contains gs n ≡ true)
    → (n : String) → Affected tasks fs n
    → Affected tasks gs n
Affected-more tasks fs gs more n (direct n' d f dep) = direct n d (more d f) dep
Affected-more tasks fs gs more n (through n' d a dep) =
    through n d (Affected-more tasks fs gs more d a) dep

-- One more task is dealt with: the others keep their accounts.
module _ (tasks done : List DagTaskConfig) (id : ℕ) (t : DagTaskConfig) (p p' : Progress)
    (s s' : StateStore) (new : TaskRunStatus) (sets : SetsTo id t.name new s s')
    (h : History tasks done id p s) (member : In t tasks)
    (fresh : contains (names done) t.name ≡ false)
    (more : (n : String) → contains p.failed_tasks n ≡ true → contains p'.failed_tasks n ≡ true)
    (stays : p.blocked ≡ true → p'.blocked ≡ true) where
  was_pending : task_status id t.name s ≡ some TaskRunStatus.pending
  was_pending = h.waiting t.name (In-contains (λ u. u.name) t tasks member) fresh

  pub set_status : task_status id t.name s' ≡ some new
  set_status = ground (arith, sets t.name, was_pending, eq_iff t.name t.name)

  pub stays_succeeded :
      (d : String)
      → task_status id d s ≡ some TaskRunStatus.succeeded
      → task_status id d s' ≡ some TaskRunStatus.succeeded
  stays_succeeded d e = elim (Bool-cases (t.name == d)) [
    | inl same ↦
        let named : t.name ≡ d = (eq_iff t.name d).0 same in
        absurd (
          clash (
            sym (subst (λ n. task_status id n s ≡ some TaskRunStatus.pending) named was_pending)
            ∙ e))
    | inr other ↦ ground (arith, sets d)
  ]
    where
      clash : some TaskRunStatus.pending ≡ some TaskRunStatus.succeeded → ⊥
      clash c = cc

  others_keep :
      (u : DagTaskConfig) (x : TaskRunStatus)
      → In u done
      → task_status id u.name s ≡ some x
      → task_status id u.name s' ≡ some x
  others_keep u x m e =
      ground (arith, sets u.name, eq_iff t.name u.name, In-contains (λ v. v.name) u done m, fresh)

  kept :
      (u : DagTaskConfig)
      → In u done
      → Account tasks p.failed_tasks p.blocked id u s
      → Account tasks p'.failed_tasks p'.blocked id u s'
  kept u m (succeeded e r) = succeeded (others_keep u _ m e) (λ d dep. stays_succeeded d (r d dep))
  kept u m (failed e f r) =
      failed (others_keep u _ m e) (more u.name f) (λ d dep. stays_succeeded d (r d dep))
  kept u m (skipped e a) = skipped (others_keep u _ m e) (Affected-more tasks _ _ more u.name a)
  kept u m (blocked e b) = blocked (others_keep u _ m e) (stays b)

  pub History-snoc :
      Account tasks p'.failed_tasks p'.blocked id t s'
      → ((n : String)
          → contains p'.failed_tasks n ≡ true
          → (t.name == n) || contains (names done) n ≡ true)
      → ((n : String)
          → contains p'.failed_tasks n ≡ true
          → (contains p.failed_tasks n ≡ true) ⊎ ((t.name ≡ n) × (new ≡ TaskRunStatus.failed)))
      → History tasks (t ∷ done) id p' s'
  History-snoc a f g = record {
    accounts = λ u m. elim m [
      | inl e ↦ subst (λ v. Account tasks p'.failed_tasks p'.blocked id v s') (sym e) a
      | inr m' ↦ kept u m' (h.accounts u m')
    ];
    waiting = λ n k out. ground (arith, sets n, h.waiting n);
    failing = λ n k. elim (g n k) [
      | inl old ↦ ground (arith, sets n, h.failing n old, h.failures n old, eq_iff t.name n, fresh)
      | inr (same, is_new) ↦
          subst (λ m. task_status id m s' ≡ some TaskRunStatus.failed) same
            (set_status ∙ ap some is_new)
    ];
    failures = f;
  }
