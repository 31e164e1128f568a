-- ===== src/State/Reconcile/FailClosed.antt =====
-- Recovery interrupts exactly the running runs whose owner is proven gone.
use nexolith.Base.{
  ℕ, List, inl, inr, none, ◌↔◌, ◌⊎◌, ◌≢◌, [], ◌∷◌, Bool, true, false, ◌&&◌, ◌||◌, some, any, filter,
  find, update_where, ◌==◌, nat_eq, if◌then◌else◌, ◌≡◌, refl, ◌∙◌, ap, arith, Bool-cases, Option,
}
use nexolith.Base.Sort.{any-sort_by}
use nexolith.ProcessIdentity.{
  ProcessIdentity, ProcessIdentityLookup, found, not_found, access_denied, unavailable,
  same_identity_iff, ProcessIdentityProvider,
}
use nexolith.State.Models.{Time, DagRunStatus, DagRunRecord}
use nexolith.State.Store.{StateStore, now, is_running, get_dag_run, list_incomplete_dag_runs}
use nexolith.State.Reconcile.{
  judge_lookup, Owner, abandoned, alive, unverifiable, owner_of, reconcile, contains_id, note,
  DagRunReconciliation, interrupt_runs, interrupt_abandoned_dag_runs, judge_owner,
}

abbrev pub is_abandoned : Owner → Bool
is_abandoned abandoned = true
is_abandoned _ = false

-- The primary key: no id stands twice.
abbrev pub DistinctIds : List DagRunRecord → Type 0
DistinctIds [] = Unit
DistinctIds (r ∷ rs) = (any (λ q. q.id == r.id) rs ≡ false) × DistinctIds rs

-- A run that must be interrupted, as the store sees it.
abbrev is_lost : ProcessIdentityProvider → ℕ → DagRunRecord → Bool
is_lost lookup id r = r.id == id && is_abandoned (owner_of lookup r)

note-ids :
    (o : Owner) (id n : ℕ) (r : DagRunReconciliation)
    → contains_id (note o n r).interrupted_run_ids id
      ≡ (n == id && is_abandoned o) || contains_id r.interrupted_run_ids id
note-ids abandoned id n r = ground arith
note-ids alive id n r = ground arith
note-ids (unverifiable why) id n r = ground arith

reconcile_ids :
    (lookup : ProcessIdentityProvider) (id : ℕ) (runs : List DagRunRecord)
    → contains_id (reconcile lookup runs).interrupted_run_ids id ≡ any (is_lost lookup id) runs
unfolding reconcile
reconcile_ids lookup id [] = refl
reconcile_ids lookup id (r ∷ rs) =
    note-ids (owner_of lookup r) id r.id (reconcile lookup rs)
    ∙ ap (λ b. is_lost lookup id r || b) (reconcile_ids lookup id rs)

any-filter :
    (p q : DagRunRecord → Bool) (runs : List DagRunRecord)
    → any p (filter q runs) ≡ any (λ r. q r && p r) runs
any-filter p q [] = refl
any-filter p q (r ∷ rs) = ground (arith, any-filter p q rs)

any-absent :
    (p : DagRunRecord → Bool) (id : ℕ) (runs : List DagRunRecord)
    → any (λ q. q.id == id) runs ≡ false
    → any (λ r. is_running r.status && (r.id == id && p r)) runs ≡ false
any-absent p id [] h = refl
any-absent p id (r ∷ rs) h = ground (arith, any-absent p id rs)

-- Of distinct ids the condition is that of the one row.
any-at :
    (p : DagRunRecord → Bool) (id : ℕ) (runs : List DagRunRecord) (run : DagRunRecord)
    → DistinctIds runs
    → find (λ r. r.id == id) runs ≡ some run
    → any (λ r. is_running r.status && (r.id == id && p r)) runs ≡ is_running run.status && p run
any-at p id [] run d h = absurd (cc)
any-at p id (r ∷ rs) run d h = elim (Bool-cases (r.id == id)) [
  | inl e ↦ ground (arith, any-absent p id rs, d.0)
  | inr e ↦ ground (arith, any-at p id rs run d.1)
]

find-id :
    (id : ℕ) (runs : List DagRunRecord) (run : DagRunRecord)
    → find (λ r. r.id == id) runs ≡ some run
    → run.id ≡ id
find-id id [] run h = absurd (cc)
find-id id (r ∷ rs) run h = ground (arith, find-id id rs run)

find-update :
    (id : ℕ) (p : DagRunRecord → Bool) (f : DagRunRecord → DagRunRecord) (runs : List DagRunRecord)
    (run : DagRunRecord)
    → ((r : DagRunRecord) → (f r).id ≡ r.id)
    → find (λ r. r.id == id) runs ≡ some run
    → find (λ r. r.id == id) (update_where p f runs) ≡ some (if p run then f run else run)
find-update id p f [] run same h = absurd (cc)
find-update id p f (r ∷ rs) run same h = ground (arith, same r, find-update id p f rs run same)

find-update-key :
    (id : ℕ) (c : ℕ → Bool) (t : Time) (runs : List DagRunRecord) (run : DagRunRecord)
    → find (λ r. r.id == id) runs ≡ some run
    → find
        (λ r. r.id == id)
        (update_where
          (λ r. c r.id && is_running r.status)
          (λ r. record r { status = DagRunStatus.interrupted; ended_at = some t })
          runs)
      ≡ some (
          if c id && is_running run.status
          then record run { status = DagRunStatus.interrupted; ended_at = some t }
          else run)
find-update-key id c t runs run h =
    find-update id (λ r. c r.id && is_running r.status)
      (λ r. record r { status = DagRunStatus.interrupted; ended_at = some t }) runs run (λ r. refl)
      h
    ∙ ap
        (λ n. some (
          if c n && is_running run.status
          then record run { status = DagRunStatus.interrupted; ended_at = some t }
          else run))
        (find-id id runs run h)

-- The row after the UPDATE.
interrupt_runs-find :
    (ids : List ℕ) (id : ℕ) (s : StateStore) (run : DagRunRecord)
    → get_dag_run id s ≡ some run
    → get_dag_run id (interrupt_runs ids s)
      ≡ some (
          if contains_id ids id && is_running run.status
          then record run { status = DagRunStatus.interrupted; ended_at = some (now s) }
          else run)
unfolding interrupt_runs get_dag_run
interrupt_runs-find [] id s run h = h
interrupt_runs-find (i ∷ is) id s run h =
    find-update-key id (λ n. contains_id (i ∷ is) n) (now s) s.dag_runs run h

interrupted_ids :
    (lookup : ProcessIdentityProvider) (id : ℕ) (s : StateStore) (run : DagRunRecord)
    → DistinctIds s.dag_runs
    → get_dag_run id s ≡ some run
    → contains_id (reconcile lookup (list_incomplete_dag_runs s)).interrupted_run_ids id
      ≡ is_running run.status && is_abandoned (owner_of lookup run)
unfolding list_incomplete_dag_runs get_dag_run
interrupted_ids lookup id s run d h =
    reconcile_ids lookup id _
    ∙ any-sort_by (is_lost lookup id) _ _
    ∙ any-filter (is_lost lookup id) (λ r. is_running r.status) s.dag_runs
    ∙ any-at (λ r. is_abandoned (owner_of lookup r)) id s.dag_runs run d h

-- Recovery leaves every run as it is, but one that is still marked as running and whose owner is
-- proven gone: that one becomes interrupted at the time of the recovery. An owner that is alive, that
-- the system does not let be seen, or that a legacy row does not name in full, keeps its run. The
-- hypotheses are that the ids of the runs are distinct and that the run stands in the store.
pub interrupt_abandoned_dag_runs-get_dag_run :
    (lookup : ProcessIdentityProvider) (id : ℕ) (s : StateStore) (run : DagRunRecord)
    → DistinctIds s.dag_runs
    → get_dag_run id s ≡ some run
    → get_dag_run id (interrupt_abandoned_dag_runs lookup s).1
      ≡ some (
          if is_running run.status && is_abandoned (owner_of lookup run)
          then record run { status = DagRunStatus.interrupted; ended_at = some (now s) }
          else run)
unfolding interrupt_abandoned_dag_runs
interrupt_abandoned_dag_runs-get_dag_run lookup id s run d h =
    interrupt_runs-find (reconcile lookup (list_incomplete_dag_runs s)).interrupted_run_ids id s run
      h
    ∙ ap
        (λ b. some (
          if b && is_running run.status
          then record run { status = DagRunStatus.interrupted; ended_at = some (now s) }
          else run))
        (interrupted_ids lookup id s run d h)
    ∙ again (is_running run.status) (is_abandoned (owner_of lookup run)) _ _
  where
    again :
        (a b : Bool) (x y : DagRunRecord)
        → some (if (a && b) && a then x else y) ≡ some (if a && b then x else y)
    again a b x y = ground arith

-- The row names its owner in full, and the system knows that no process has both the PID and the
-- creation time.
abbrev pub IsGone : ProcessIdentityProvider → DagRunRecord → Type 0
IsGone lookup run =
    (pid time : ℕ) × (run.owner_pid ≡ some pid)
    × (run.owner_create_time_ns ≡ some time)
    × ((lookup pid ≡ some not_found)
        ⊎ ((i : ProcessIdentity) × (lookup pid ≡ some (found i))
            × (i ≢ record { pid = pid; create_time_ns = time })))

judge_owner-IsGone :
    (lookup : ProcessIdentityProvider) (run : DagRunRecord) (p t : Option ℕ)
    → run.owner_pid ≡ p
    → run.owner_create_time_ns ≡ t
    → judge_owner lookup p t ≡ abandoned
    → IsGone lookup run
unfolding judge_owner judge_lookup
judge_owner-IsGone lookup run none t hp ht h = absurd (cc)
judge_owner-IsGone lookup run (some pid) none hp ht h = absurd (cc)
judge_owner-IsGone lookup run (some pid) (some time) hp ht h =
    (pid, time, hp, ht, go (lookup pid) h)
  where
    go :
        (o : Option ProcessIdentityLookup)
        → judge_lookup (record { pid = pid; create_time_ns = time }) o ≡ abandoned
        → (o ≡ some not_found)
          ⊎ ((i : ProcessIdentity) × (o ≡ some (found i))
              × (i ≢ record { pid = pid; create_time_ns = time }))
    go none h' = absurd (cc)
    go (some not_found) h' = inl refl
    go (some (found i)) h' = inr (
      i,
      refl,
      λ e.
          absurd
            (ground (arith, same_identity_iff i (record { pid = pid; create_time_ns = time }))),
    )
    go (some access_denied) h' = absurd (cc)
    go (some unavailable) h' = absurd (cc)

IsGone-judge_owner :
    (lookup : ProcessIdentityProvider) (run : DagRunRecord)
    → IsGone lookup run
    → owner_of lookup run ≡ abandoned
unfolding judge_owner judge_lookup
IsGone-judge_owner lookup run (pid, time, hp, ht, inl e) = rw (hp, ht, e) refl
IsGone-judge_owner lookup run (pid, time, hp, ht, inr (i, e, ne)) =
    rw (hp, ht, e)
      (ground (arith, same_identity_iff i (record { pid = pid; create_time_ns = time })))

-- The owner of a run is judged to have abandoned it exactly if the row names its PID and its creation
-- time and the system says that the PID is free or belongs to another process. An exception, a denied
-- access or an unavailable answer is no such proof.
pub owner_of-abandoned_iff :
    (lookup : ProcessIdentityProvider) (run : DagRunRecord)
    → (owner_of lookup run ≡ abandoned) ↔ IsGone lookup run
owner_of-abandoned_iff lookup run = (
  judge_owner-IsGone lookup run run.owner_pid run.owner_create_time_ns refl refl,
  IsGone-judge_owner lookup run,
)
