-- ===== src/Runner/Told.antt =====
-- What the events say of the end of a run.
use nexolith.Base.{
  if◌then◌else◌, String, List, [], ◌∷◌, ◌++◌, Bool, true, false, ◌||◌, Option, none, some, ◌≡◌, ◌⊎◌,
  inl, inr, refl, map, Result, ok, err, Error, arith,
}
use nexolith.Types.{Rows}
use nexolith.Nexoactions.Execution.{PreparedAction, ActionEvent}
use nexolith.Runner.{
  PipelineConfig, ExecutionResult, ExecutionStatus, PipelinePhase, FailureCategory,
  ApplicationEvent, of_action, pipeline_execution_completed, pipeline_failed, failure_category,
  nexolith_message, is_interruption, Components, Running, failing, failed_with, pipeline_error,
  proceed, extract, transform, prepare, write_rows, act, body, conclude, begun_run,
  run_pipeline_config,
}

abbrev pub is_terminal : ApplicationEvent → Bool
is_terminal (pipeline_execution_completed name read written) = true
is_terminal (pipeline_failed name phase category) = true
is_terminal e = false

abbrev pub is_over : List ApplicationEvent → Bool
is_over [] = false
is_over (e ∷ es) = is_terminal e || is_over es

is_over-append : (xs ys : List ApplicationEvent) → is_over (xs ++ ys) ≡ (is_over xs || is_over ys)
is_over-append [] ys = refl
is_over-append (x ∷ xs) ys = ground (arith, is_over-append xs ys)

is_over-of_action : (es : List ActionEvent) → is_over (map of_action es) ≡ false
is_over-of_action [] = refl
is_over-of_action (e ∷ es) = is_over-of_action es

-- The run is told to its end by this event, and by no earlier one.
abbrev pub EndsWith : List ApplicationEvent → ApplicationEvent → Type 0
EndsWith events last =
    (earlier : List ApplicationEvent) × (events ≡ earlier ++ (last ∷ []))
    × (is_over earlier ≡ false)
    × (is_terminal last ≡ true)

module _ (config : PipelineConfig) (c : Components) where
  abbrev pub FailureTold : Running → Type 0
  FailureTold r =
      (phase : PipelinePhase) × (category : FailureCategory) × EndsWith r.events
        (pipeline_failed config.name phase category)

  -- What the events say of a result, or of an exception.
  abbrev pub Told : Bool → Result ExecutionResult × Running → Type 0
  Told raise_on_error (ok result, r) =
      ((result.status ≡ ExecutionStatus.succeeded)
        × EndsWith r.events
            (pipeline_execution_completed config.name result.rows_read result.rows_written))
      ⊎ ((raise_on_error ≡ false) × (result.status ≡ ExecutionStatus.failed) × FailureTold r)
  Told raise_on_error (err e, r) =
      ((is_interruption e ≡ true) × (is_over r.events ≡ false)) ⊎ FailureTold r

  Open : Running → Type 0
  Open r = is_over r.events ≡ false

  proceed-Open :
      {A : Type 0} (out : Result A × Running) (next : A → Running → Result (Unit {0}) × Running)
      → Open out.1
      → ((a : A) (r : Running) → Open r → Open (next a r).1)
      → Open (proceed out next).1
  proceed-Open (err e, r) next o h = o
  proceed-Open (ok a, r) next o h = h a r o

  extract-Open : (r : Running) → Open r → Open (extract config c r).1
  unfolding Open extract
  extract-Open r o = grind (arith, is_over-append)

  transform-Open : (rows : Rows) (r : Running) → Open r → Open (transform config c rows r).1
  unfolding Open transform
  transform-Open rows r o = grind (arith, is_over-append)

  write_rows-Open : (rows : Rows) (r : Running) → Open r → Open (write_rows config c rows r).1
  unfolding Open write_rows
  write_rows-Open rows r o = grind (arith, is_over-append)

  act-Open : (items : List PreparedAction) (r : Running) → Open r → Open (act config c items r).1
  unfolding Open act
  act-Open items r o = grind (arith, is_over-append, is_over-of_action)

  body-Open : (r : Running) → Open r → Open (body config c r).1
  unfolding body prepare Open
  body-Open r o = proceed-Open (extract config c r) _ (extract-Open r o) (λ source r₁ o₁.
      proceed-Open (transform config c source r₁) _ (transform-Open source r₁ o₁) (λ rows r₂ o₂.
        proceed-Open (prepare config c rows r₂) _ o₂ (λ items r₃ o₃.
          proceed-Open (write_rows config c rows r₃) _ (write_rows-Open rows r₃ o₃)
            (λ u r₄ o₄. act-Open items r₄ o₄))))

  failure-Told :
      (raise_on_error : Bool) (said : Option String) (interruption : Bool) (e : Error) (r : Running)
      → is_interruption e ≡ interruption
      → Open r
      → Told raise_on_error (elim said [
        | some m ↦ (
          if raise_on_error
              then err (Error.execution_error (pipeline_error config.name m))
              else ok (failed_with (pipeline_error config.name m) r),
          failing config c
              (failure_category e)
              (record r { result = failed_with (pipeline_error config.name m) r }),
        )
        | none ↦
            if interruption
            then (err e, r)
            else (err e, failing config c FailureCategory.unexpected r)
      ])
  unfolding Open
  failure-Told true (some m) interruption e r i o =
      inr (r.phase, failure_category e, (r.events, refl, o, refl))
  failure-Told false (some m) interruption e r i o =
      inr (refl, refl, (r.phase, failure_category e, (r.events, refl, o, refl)))
  failure-Told raise_on_error none true e r i o = inl (i, o)
  failure-Told raise_on_error none false e r i o =
      inr (r.phase, FailureCategory.unexpected, (r.events, refl, o, refl))

  conclude-Told :
      (raise_on_error : Bool) (out : Result (Unit {0}) × Running)
      → Open out.1
      → Told raise_on_error (conclude config c raise_on_error out)
  unfolding conclude Open
  conclude-Told raise_on_error (ok u, r) o = inl (refl, (r.events, refl, o, refl))
  conclude-Told raise_on_error (err e, r) o =
      failure-Told raise_on_error (nexolith_message e) (is_interruption e) e r refl o

  -- The events of a run end with one terminal event, and it agrees with the result: completed, with
  -- the numbers of rows of a result that succeeded, or failed, for a result that failed or an exception. A result that
  -- failed is returned only if errors are not to be raised. Only an interrupted run has no such event.
  pub run_pipeline_config-Told :
      (raise_on_error : Bool) → Told raise_on_error (run_pipeline_config config c raise_on_error)
  unfolding run_pipeline_config Open
  run_pipeline_config-Told raise_on_error =
      conclude-Told raise_on_error (body config c (begun_run config c))
        (body-Open (begun_run config c) refl)
