-- ===== src/Nexoactions/Execution/Batch.antt =====
-- The batch before the write: which actions are to be invoked.
use nexolith.Base.{
  ◌≤◌, String, List, [], ◌∷◌, Bool, true, false, is_some, ◌==◌, nat_eq, if◌then◌else◌, ◌≡◌, ◌≢◌,
  ◌↔◌, inl, inr, refl, sym, ◌∙◌, subst, length, All, In, ok, >>=-eq-ok, arith,
}
use nexolith.Types.{Row, Rows}
use nexolith.Nexoactions.Contracts.{
  NexoActionMatchMode, NexoActionCondition, NexoActionDefinition, NexoActionParameterValue,
  bind_parameters,
}
use nexolith.Nexoactions.Conditions.{Hashing, row_matches, matched_rows, derive_idempotency_key}
use nexolith.Nexoactions.Execution.{
  NexoActionConfig, PreparedAction, should_invoke, prepare_invocation, prepare_action,
  resolve_action, bound_or, quiet,
}

abbrev pub Passes : NexoActionCondition → Row → Type 0
Passes c row = row_matches c row ≡ ok true

-- What is counted of the rows that match.
record Counted (c : NexoActionCondition) (rows ms : Rows) : Type 0 where
  pub bound : length ms ≤ length rows
  pub some_row : ((length ms == 0) ≡ false) ↔ ((row : Row) × In row rows × Passes c row)
  pub all_rows : (length ms ≡ length rows) ↔ All (Passes c) rows

Counted-hit :
    (c : NexoActionCondition) (row : Row) (rows ms : Rows)
    → Passes c row
    → Counted c rows ms
    → Counted c (row ∷ rows) (row ∷ ms)
Counted-hit c row rows ms hit h = record {
  bound = omega (arith, h.bound);
  some_row = (λ e. (row, inl refl, hit), λ e. ground arith);
  all_rows = (
    λ e. (hit, h.all_rows.0 (omega (arith, e))),
    λ passes. let rest = h.all_rows.1 passes.1 in omega (arith, rest),
  );
}

Counted-miss :
    (c : NexoActionCondition) (row : Row) (rows ms : Rows)
    → row_matches c row ≡ ok false
    → Counted c rows ms
    → Counted c (row ∷ rows) ms
Counted-miss c row rows ms miss h = record {
  bound = omega (arith, h.bound);
  some_row = (
    λ e. let (found, m, passes) = h.some_row.0 e in (found, inr m, passes),
    λ (found, m, passes). elim m [
      | inl same ↦ absurd (missed found same passes)
      | inr later ↦ h.some_row.1 (found, later, passes)
    ],
  );
  all_rows = (λ e. absurd (omega (arith, e, h.bound)), λ passes. absurd (missed row refl passes.0));
}
  where
    missed : (found : Row) → found ≡ row → Passes c found → ⊥
    missed found same passes = cc

Counted-none : (c : NexoActionCondition) → Counted c [] []
Counted-none c = record {
  bound = omega arith;
  some_row = (λ e. absurd cc, λ (found, m, passes). absurd m);
  all_rows = (λ e. tt, λ passes. refl);
}

matched_rows-Counted :
    (c : NexoActionCondition) (rows ms : Rows) → matched_rows rows c ≡ ok ms → Counted c rows ms
unfolding matched_rows
matched_rows-Counted c [] ms e =
    let none : [] ≡ ms = cc in subst (Counted c []) none (Counted-none c)
matched_rows-Counted c (row ∷ rows) ms e =
    let (b, tested, e₁) = >>=-eq-ok (row_matches c row) _ ms e in
    let (rest, known, e₂) = >>=-eq-ok (matched_rows rows c) _ ms e₁ in
    let whole : (if b then row ∷ rest else rest) ≡ ms = cc in
    subst (Counted c (row ∷ rows)) whole
      (counted_row b rest tested (matched_rows-Counted c rows rest known))
  where
    counted_row :
        (b : Bool) (rest : Rows)
        → row_matches c row ≡ ok b
        → Counted c rows rest
        → Counted c (row ∷ rows) (if b then row ∷ rest else rest)
    counted_row true rest hit h = Counted-hit c row rows rest hit h
    counted_row false rest miss h = Counted-miss c row rows rest miss h

-- With `any` some row matches, with `all` every row does and there is one.
abbrev pub WhenInvoked : NexoActionMatchMode → NexoActionCondition → Rows → Type 0
WhenInvoked NexoActionMatchMode.any c rows = (row : Row) × In row rows × Passes c row
WhenInvoked NexoActionMatchMode.all c rows = (rows ≢ []) × All (Passes c) rows

nonempty_iff : (rows : Rows) → ((length rows == 0) ≡ false) ↔ (rows ≢ [])
nonempty_iff [] = (λ e. absurd cc, λ h. absurd (h refl))
nonempty_iff (row ∷ rows) = (λ e h. absurd cc, λ h. ground arith)

should_invoke_iff :
    (mode : NexoActionMatchMode) (c : NexoActionCondition) (rows ms : Rows)
    → Counted c rows ms
    → (should_invoke mode (length ms) (length rows) ≡ true) ↔ WhenInvoked mode c rows
should_invoke_iff NexoActionMatchMode.any c rows ms h =
    (λ e. h.some_row.0 (ground arith), λ found. let hit = h.some_row.1 found in ground arith)
should_invoke_iff NexoActionMatchMode.all c rows ms h = (
  λ e. ((nonempty_iff rows).0 (ground arith), h.all_rows.0 (ground arith)),
  λ (there, passes).
      let equal = h.all_rows.1 passes in let nonempty = (nonempty_iff rows).1 there in ground arith,
)

prepare_invocation-invoked :
    (h : Hashing) (name : String) (a : NexoActionConfig) (ms : Rows) (d : NexoActionDefinition)
    (ps : List (String × NexoActionParameterValue)) (item : PreparedAction)
    → prepare_invocation h name a ms d ps ≡ ok item
    → is_some item.invocation ≡ true
unfolding prepare_invocation
prepare_invocation-invoked h name a ms d ps item e =
    let (key, known, e₁) =
      >>=-eq-ok (derive_idempotency_key h name a.type ms a.idempotency_fields) _ item e in
    ground arith

decided_item :
    (h : Hashing) (name : String) (a : NexoActionConfig) (ms : Rows) (d : NexoActionDefinition)
    (ps : List (String × NexoActionParameterValue)) (item : PreparedAction) (b : Bool)
    → (if b then prepare_invocation h name a ms d ps else ok (quiet a ms)) ≡ ok item
    → is_some item.invocation ≡ b
decided_item h name a ms d ps item true e = prepare_invocation-invoked h name a ms d ps item e
decided_item h name a ms d ps item false e = ground arith

-- An action that is prepared is to be invoked exactly if some row of the batch matches its
-- condition, or, where it asks for all, if there are rows and each of them does.
pub prepare_action-WhenInvoked :
    (h : Hashing) (pipeline_name : String) (a : NexoActionConfig) (rows : Rows)
    (item : PreparedAction)
    → prepare_action h pipeline_name a rows ≡ ok item
    → (is_some item.invocation ≡ true) ↔ WhenInvoked a.match a.condition rows
unfolding prepare_action
prepare_action-WhenInvoked h pipeline_name a rows item e =
    let (ms, matched, e₁) = >>=-eq-ok (matched_rows rows a.condition) _ item e in
    let (d, resolved, e₂) = >>=-eq-ok (resolve_action a) _ item e₁ in
    let (ps, bound, e₃) = >>=-eq-ok (bound_or a.type (bind_parameters d a.parameters)) _ item e₂ in
    let decided = decided_item h pipeline_name a ms d ps item _ e₃ in
    let counted =
      should_invoke_iff a.match a.condition rows ms
        (matched_rows-Counted a.condition rows ms matched) in
    (λ i. counted.0 (sym decided ∙ i), λ w. decided ∙ counted.1 w)
