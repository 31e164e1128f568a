-- ===== src/Runner/Written.antt =====
-- When the destination is written, and when handlers are called.
use nexolith.Base.{
  ℕ, List, [], ◌∷◌, Bool, ◌≡◌, ◌⊎◌, inl, inr, refl, ap, ◌∙◌, Result, ok, err, ◌>>=◌, Error, arith,
  Result-cases,
}
use nexolith.Types.{Rows}
use nexolith.Nexoactions.Execution.{PreparedAction, prepare_actions}
use nexolith.Runner.{
  PipelineConfig, Components, Running, apply_all, proceed, extract, transform, prepare, write_rows,
  act, body, conclude, begun_run, run_pipeline_config,
}

module _ (config : PipelineConfig) (c : Components) where
  -- The rows that a run is to write, and its prepared actions.
  abbrev pub Ready : Rows → List PreparedAction → Type 0
  Ready rows items =
      ((c.read >>= λ source. apply_all c.transformations source) ≡ ok rows)
      × (prepare_actions c.hashing config.name config.actions rows ≡ ok items)

  abbrev pub Untouched : Running → Type 0
  Untouched r = (r.writes ≡ []) × (r.invocations ≡ [])

  abbrev pub WrittenOnce : Running → Type 0
  WrittenOnce r =
      Untouched r
      ⊎ ((rows : Rows) × (items : List PreparedAction) × Ready rows items
          × (r.writes ≡ rows ∷ [])
          × ((r.invocations ≡ []) ⊎ ((n : ℕ) × (c.write rows ≡ ok n))))

  proceed-WrittenOnce :
      {A : Type 0} (P : A → Running → Type 0) (out : Result A × Running)
      (next : A → Running → Result (Unit {0}) × Running)
      → ((e : Error) → out.0 ≡ err e → WrittenOnce out.1)
      → ((a : A) → out.0 ≡ ok a → P a out.1)
      → ((a : A) (r : Running) → P a r → WrittenOnce (next a r).1)
      → WrittenOnce (proceed out next).1
  proceed-WrittenOnce P (err e, r) next failed passed h = failed e refl
  proceed-WrittenOnce P (ok a, r) next failed passed h = h a r (passed a refl)

  extract-Untouched :
      (r : Running)
      → Untouched r
      → Untouched (extract config c r).1
        × ((rows : Rows) → (extract config c r).0 ≡ ok rows → c.read ≡ ok rows)
  unfolding extract
  extract-Untouched r h = (ground arith, λ rows e. ground arith)

  transform-Untouched :
      (rows : Rows) (r : Running)
      → Untouched r
      → Untouched (transform config c rows r).1
        × ((out : Rows)
            → (transform config c rows r).0 ≡ ok out
            → apply_all c.transformations rows ≡ ok out)
  unfolding transform
  transform-Untouched rows r h = (ground arith, λ out e. ground arith)

  write_rows_once :
      (rows : Rows) (r : Running)
      → Untouched r
      → ((write_rows config c rows r).1.writes ≡ rows ∷ [])
        × ((write_rows config c rows r).1.invocations ≡ [])
        × ((u : Unit {0}) → (write_rows config c rows r).0 ≡ ok u → (n : ℕ) × (c.write rows ≡ ok n))
  unfolding write_rows
  write_rows_once rows r h = (
    ground arith,
    ground arith,
    λ u e. elim (Result-cases (c.write rows)) [
      | inl (n, written) ↦ (n, written)
      | inr (x, failed) ↦ absurd (ground arith)
    ],
  )

  act_writes :
      (items : List PreparedAction) (r : Running) → (act config c items r).1.writes ≡ r.writes
  unfolding act
  act_writes items r = refl

  conclude_keeps :
      (raise_on_error : Bool) (out : Result (Unit {0}) × Running)
      → ((conclude config c raise_on_error out).1.writes ≡ out.1.writes)
        × ((conclude config c raise_on_error out).1.invocations ≡ out.1.invocations)
  unfolding conclude
  conclude_keeps raise_on_error out = ground arith

  prepare-Untouched :
      (rows : Rows) (r : Running)
      → Untouched r
      → Untouched (prepare config c rows r).1
        × ((items : List PreparedAction)
            → (prepare config c rows r).0 ≡ ok items
            → prepare_actions c.hashing config.name config.actions rows ≡ ok items)
  unfolding prepare
  prepare-Untouched rows r h = (h, λ items e. e)

  write-WrittenOnce :
      (rows : Rows) (items : List PreparedAction) (r : Running)
      → Untouched r
      → Ready rows items
      → WrittenOnce (proceed (write_rows config c rows r) (λ u r₄. act config c items r₄)).1
  write-WrittenOnce rows items r h ready =
      let once = write_rows_once rows r h in
      proceed-WrittenOnce (λ u r₄. (r₄.writes ≡ rows ∷ []) × ((n : ℕ) × (c.write rows ≡ ok n)))
        (write_rows config c rows r) _ (λ e q. inr (rows, items, ready, once.0, inl once.1))
        (λ u q. (once.0, once.2 u q))
        (λ u r₄ (written, n). inr (rows, items, ready, act_writes items r₄ ∙ written, inr n))

  body-WrittenOnce : (r : Running) → Untouched r → WrittenOnce (body config c r).1
  unfolding body
  body-WrittenOnce r h =
      let read = extract-Untouched r h in
      proceed-WrittenOnce (λ source r₁. Untouched r₁ × (c.read ≡ ok source)) (extract config c r) _
        (λ e q. inl read.0) (λ source q. (read.0, read.1 source q))
        (λ source r₁ (h₁, q₁).
          let applied = transform-Untouched source r₁ h₁ in
          proceed-WrittenOnce
            (λ rows r₂.
              Untouched r₂ × ((c.read >>= λ source. apply_all c.transformations source) ≡ ok rows))
            (transform config c source r₁) _ (λ e q. inl applied.0)
            (λ rows q. (
              applied.0,
              ap (λ x. x >>= λ source. apply_all c.transformations source) q₁ ∙ applied.1 rows q,
            ))
            (λ rows r₂ (h₂, q₂).
              let prepared = prepare-Untouched rows r₂ h₂ in
              proceed-WrittenOnce (λ items r₃. Untouched r₃ × Ready rows items)
                (prepare config c rows r₂) _ (λ e q. inl prepared.0)
                (λ items q. (prepared.0, (q₂, prepared.1 items q)))
                (λ items r₃ (h₃, ready). write-WrittenOnce rows items r₃ h₃ ready)))

  conclude-WrittenOnce :
      (raise_on_error : Bool) (out : Result (Unit {0}) × Running)
      → WrittenOnce out.1
      → WrittenOnce (conclude config c raise_on_error out).1
  conclude-WrittenOnce raise_on_error out (inl (w, i)) =
      let kept = conclude_keeps raise_on_error out in inl (kept.0 ∙ w, kept.1 ∙ i)
  conclude-WrittenOnce raise_on_error out (inr (rows, items, ready, w, inl i)) =
      let kept = conclude_keeps raise_on_error out in
      inr (rows, items, ready, kept.0 ∙ w, inl (kept.1 ∙ i))
  conclude-WrittenOnce raise_on_error out (inr (rows, items, ready, w, inr n)) =
      let kept = conclude_keeps raise_on_error out in inr (rows, items, ready, kept.0 ∙ w, inr n)

  -- A run hands rows to the destination at most once: the rows of the source after all
  -- transformations, and only when every action was prepared on them. Handlers are called only
  -- when that write has returned.
  pub run_pipeline_config-WrittenOnce :
      (raise_on_error : Bool) → WrittenOnce (run_pipeline_config config c raise_on_error).1
  unfolding run_pipeline_config
  run_pipeline_config-WrittenOnce raise_on_error =
      conclude-WrittenOnce raise_on_error (body config c (begun_run config c))
        (body-WrittenOnce (begun_run config c) (refl, refl))
