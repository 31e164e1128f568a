-- ===== src/Scheduler/Daemon/Triggers.antt =====
-- Upstream runs trigger a DAG once.
use nexolith.Base.{
  ℕ, String, List, [], ◌∷◌, true, false, not, Option, none, some, contains, ◌==◌, nat_eq, string_eq,
  ◌≡◌, refl, ◌∙◌, sym, subst, arith, eq_iff, inl, inr, Bool-cases, Option-cases,
}
use nexolith.Dag.Models.{DagConfig}
use nexolith.Dag.Validator.{Files}
use nexolith.Dag.Executor.{
  Call, Progress, succeeded_run, record_reactions, record_cross_dag_reactions, close_run,
}
use nexolith.Base.{Result}
use nexolith.State.Store.{StateStore, latest_dag_run, complete_dag_run}
use nexolith.State.Attempts.{get_last_reacted_upstream_run_id, record_trigger_reaction}
use nexolith.State.Attempts.Reactions.{record_trigger_reaction_lem}
use nexolith.Scheduler.Daemon.{is_nonempty, satisfied_upstreams, read_trigger}

-- The latest run of the DAG is a success, by its id.
abbrev pub success_of : String → StateStore → Option ℕ
success_of upstream s = succeeded_run (latest_dag_run upstream s)

recorded-success_of :
    (name upstream u : String) (id : ℕ) (s : StateStore)
    → success_of u (record_trigger_reaction name upstream id s) ≡ success_of u s
unfolding latest_dag_run record_trigger_reaction
recorded-success_of name upstream u id s = refl

reactions-success_of :
    (name u : String) (upstreams : List String) (s : StateStore)
    → success_of u (record_reactions name upstreams s) ≡ success_of u s
unfolding record_reactions
reactions-success_of name u [] s = refl
reactions-success_of name u (v ∷ vs) s = elim (Option-cases (success_of v s)) [
  | inl e ↦ rw (e, record_reactions) (reactions-success_of name u vs s)
  | inr (id, e) ↦
      rw (e, record_reactions)
        (reactions-success_of name u vs (record_trigger_reaction name v id s)
          ∙ recorded-success_of name v u id s)
]

-- The DAG has reacted to the latest success of the upstream, if there is one.
abbrev HasReacted : String → StateStore → String → Type 0
HasReacted name s u =
    (id : ℕ) → success_of u s ≡ some id → get_last_reacted_upstream_run_id name u s ≡ some id

record_own :
    (name u : String) (id : ℕ) (s : StateStore)
    → success_of u s ≡ some id
    → HasReacted name (record_trigger_reaction name u id s) u
record_own name u id s h k e = ground (
  arith,
  recorded-success_of name u u id s,
  record_trigger_reaction_lem name u name u id s,
  eq_iff name name,
  eq_iff u u,
)

record_keeps :
    (name u v : String) (id : ℕ) (s : StateStore)
    → success_of v s ≡ some id
    → HasReacted name s u
    → HasReacted name (record_trigger_reaction name v id s) u
record_keeps name u v id s h r k e = elim (Bool-cases (v == u)) [
  | inl same ↦
      let is_v : v ≡ u = (eq_iff v u).0 same in
      subst
        (λ x.
          get_last_reacted_upstream_run_id name x (record_trigger_reaction name v id s) ≡ some k)
        is_v
        (record_own name v id s h k
          (subst (λ x. success_of x (record_trigger_reaction name v id s) ≡ some k) (sym is_v) e))
  | inr other ↦ ground (
    arith,
    record_trigger_reaction_lem name u name v id s,
    other,
    r k (sym (recorded-success_of name v u id s) ∙ e),
  )
]

reactions_keep :
    (name u : String) (vs : List String) (s : StateStore)
    → HasReacted name s u
    → HasReacted name (record_reactions name vs s) u
unfolding record_reactions
reactions_keep name u [] s r = r
reactions_keep name u (v ∷ vs) s r = elim (Option-cases (success_of v s)) [
  | inl e ↦ rw (e, record_reactions) (reactions_keep name u vs s r)
  | inr (id, e) ↦
      rw (e, record_reactions)
        (reactions_keep name u vs (record_trigger_reaction name v id s)
          (record_keeps name u v id s e r))
]

reactions-HasReacted :
    (name u : String) (vs : List String) (s : StateStore)
    → contains vs u ≡ true
    → HasReacted name (record_reactions name vs s) u
unfolding record_reactions
reactions-HasReacted name u [] s m = absurd (cc)
reactions-HasReacted name u (v ∷ vs) s m = elim (Option-cases (success_of v s)) [
  | inl e ↦
      rw (e, record_reactions)
        (elim (Bool-cases (v == u)) [
          | inl same ↦ reactions_keep name u vs s (λ k f.
              absurd
                (nothing k (sym (subst (λ x. success_of x s ≡ none) ((eq_iff v u).0 same) e) ∙ f)))
          | inr other ↦ reactions-HasReacted name u vs s (ground (arith, other, m))
        ])
  | inr (id, e) ↦
      rw (e, record_reactions)
        (elim (Bool-cases (v == u)) [
          | inl same ↦ reactions_keep name u vs (record_trigger_reaction name v id s) (
              subst (HasReacted name (record_trigger_reaction name v id s)) ((eq_iff v u).0 same)
                (record_own name v id s e))
          | inr other ↦
              reactions-HasReacted name u vs (record_trigger_reaction name v id s)
                (ground (arith, other, m))
        ])
]
  where
    nothing : (k : ℕ) → ◌≡◌ {A = Option ℕ} none (some k) → ⊥
    nothing k c = cc

satisfied-none :
    (name : String) (us : List String) (s : StateStore)
    → ((u : String) → contains us u ≡ true → HasReacted name s u)
    → satisfied_upstreams name us s ≡ []
unfolding satisfied_upstreams
satisfied-none name [] s h = refl
satisfied-none name (u ∷ us) s h =
    let rest = satisfied-none name us s (λ v m. h v (ground (arith, m))) in
    elim (Option-cases (success_of u s)) [
      | inl e ↦ rw (e, satisfied_upstreams) rest
      | inr (id, e) ↦
          let known = h u (ground (arith, eq_iff u u)) id e in ground (arith, e, known, rest)
    ]

nonempty-false : (ps : List (String × ℕ)) → ps ≡ [] → is_nonempty ps ≡ false
nonempty-false ps e = rw e refl

triggered :
    (dag : DagConfig) (us : List String) (s : StateStore)
    → dag.trigger ≡ some us
    → record_cross_dag_reactions dag s ≡ record_reactions dag.name us s
unfolding record_cross_dag_reactions
triggered dag us s e = rw (e, record_cross_dag_reactions) refl

reactions-read_trigger :
    (dag : DagConfig) (s : StateStore)
    → (read_trigger dag.name dag (record_cross_dag_reactions dag s)).cross_dag_due ≡ false
unfolding read_trigger record_cross_dag_reactions
reactions-read_trigger dag s = elim (Option-cases dag.trigger) [
  | inl e ↦ rw (e, read_trigger, record_cross_dag_reactions) refl
  | inr (us, e) ↦
      let done = triggered dag us s e in
      let none_left = nonempty-false _ (
        satisfied-none dag.name us (record_reactions dag.name us s)
          (λ u m. reactions-HasReacted dag.name u us s m)) in
      rw done (rw (e, read_trigger) none_left)
]

-- In the store that a closed run of a DAG leaves, the DAG's own trigger does not make it due: the run
-- has reacted to the latest success of each upstream, whether it succeeded itself or not.
close_run-read_trigger :
    (files : Files) (perform : List Call → Call → Result (Unit {0})) (dag : DagConfig) (id : ℕ)
    (p : Progress) (s : StateStore)
    → (read_trigger dag.name dag (close_run files perform dag id p s)).cross_dag_due ≡ false
unfolding close_run
close_run-read_trigger files perform dag id p s =
    reactions-read_trigger dag (complete_dag_run id (not p.dag_failed) p.first_error s)
