-- ===== src/Nexofunctions/Destination/Guarded.antt =====
-- What a built-in function is called with, and what leaves the boundary.
use nexolith.Base.{
  ℕ, ◌≤◌, String, ◌≡◌, refl, ap, subst, ◌∙◌, ◌≢◌, ◌⊎◌, inl, inr, true, some, List, [], ◌∷◌, arith,
  Result, ok, err, Error, Result-cases, Option-cases, Bool-cases, string_eq, nat_eq, All, length,
  is_some, Nodup,
}
use nexolith.Nexofunctions.Contracts.{
  DestinationCapability, BoundParameters, Returned, call_function, counted, conflict_keys,
  function_result, bind_function_parameters, upsert_definition, raised, Executor, invalid_result,
}
use nexolith.Types.{Rows, field_of}
use nexolith.Nexofunctions.Destination.{
  SqlDestination, NexoFunctionDestinationConfig, written, execute_destination_function,
  attempt_function, passed_on, sql_capability,
}
use nexolith.Runner.{nexolith_message, is_interruption}
use nexolith.Nexofunctions.Names.{function_identifier}
use nexolith.Nexoactions.Contracts.Bound.{Bound, bind_parameters-Bound, HasItems}
use nexolith.Nexoactions.Contracts.{strings}

-- Conflict keys that the contract of `upsert` lets through.
abbrev pub AreKeys : List String → Type 0
AreKeys keys = (1 ≤ length keys) × Nodup keys × All (λ s. s ≢ "") keys

module _ (local_call : String → DestinationCapability → Rows → BoundParameters → Returned)
    (sql : SqlDestination) (config : NexoFunctionDestinationConfig) (rows : Rows) where
  -- An upsert of the destination that went through.
  abbrev pub Upserted : ℕ → Type 0
  Upserted n =
      (keys : List String) × AreKeys keys
      × (field_of "conflict_keys" config.parameters ≡ some (strings keys))
      × (sql.upsert_to config.target.connection_url config.target.table "append" rows keys ≡ ok n)

  counted-result :
      (identifier : String) (r : Result ℕ) (n : ℕ)
      → written identifier (counted r) ≡ ok n
      → r ≡ ok n
  counted-result identifier (ok m) n h = h
  counted-result identifier (err e) n h = absurd (cc)

  conflict_keys-Upserted :
      (out : BoundParameters) (n : ℕ)
      → Bound config.parameters (conflict_keys ∷ []) out
      → written
          (function_identifier "upsert")
          (call_function local_call Executor.upsert (sql_capability sql config.target) rows out)
        ≡ ok n
      → Upserted n
  unfolding call_function
  conflict_keys-Upserted [] n b h = absurd b
  conflict_keys-Upserted ((name, v) ∷ (x ∷ xs)) n b h =
      (let (same, configured, fits, none_left) = b in absurd none_left)
  conflict_keys-Upserted ((name, v) ∷ []) n
        (same, configured, ((items, is_list, filled), counts), u) h =
      let counted_items = subst (HasItems conflict_keys) is_list counts in
      (
        items,
        (counted_items.0, counted_items.1 refl, filled),
        configured ∙ ap some is_list,
        counted-result "nexofunction.upsert"
            (sql.upsert_to config.target.connection_url config.target.table "append" rows items) n
            (ground (arith, h, same, is_list)),
      )

  -- The built-in upsert reports rows only if the destination has written them with the conflict keys
  -- of the pipeline, of which there is at least one, all distinct and none empty.
  pub execute_destination_function-Upserted :
      (n : ℕ)
      → config.resolved_function ≡ some upsert_definition
      → execute_destination_function local_call sql config rows ≡ ok n
      → Upserted n
  unfolding execute_destination_function attempt_function bind_function_parameters
  execute_destination_function-Upserted n resolved h =
      elim (Result-cases (bind_function_parameters upsert_definition config.parameters)) [
        | inl (out, e) ↦
            conflict_keys-Upserted out n
              (bind_parameters-Bound (record { name = "upsert"; parameters = conflict_keys ∷ [] })
                config.parameters out e)
              (ground (arith, h, resolved, e))
        | inr (e, q) ↦ absurd (ground (arith, h, resolved, q))
      ]

  passed_on-Guarded :
      (identifier : String) (e : Error)
      → (is_some (nexolith_message (passed_on identifier e)) ≡ true)
        ⊎ (is_interruption (passed_on identifier e) ≡ true)
  passed_on-Guarded identifier e = elim (Option-cases (nexolith_message e)) [
    | inr (m, q) ↦ inl (ground (arith, q))
    | inl q ↦ elim (Bool-cases (is_interruption e)) [
      | inl i ↦ inr (ground (arith, q, i))
      | inr i ↦ inl (ground (arith, q, i))
    ]
  ]

  written-Guarded :
      (identifier : String) (r : Returned) (e : Error)
      → written identifier r ≡ err e
      → (is_some (nexolith_message e) ≡ true) ⊎ (is_interruption e ≡ true)
  written-Guarded identifier (function_result n) e h = absurd (cc)
  written-Guarded identifier invalid_result e h = inl (ground (arith, h))
  written-Guarded identifier (raised q) e h =
      let same : passed_on identifier q ≡ e = ground (arith, h) in
      rw (← same) (passed_on-Guarded identifier q)

  -- Whatever a function does, the runner is told a count or gets an exception of the program's own,
  -- unless the process is interrupted.
  pub execute_destination_function-Guarded :
      (e : Error)
      → execute_destination_function local_call sql config rows ≡ err e
      → (is_some (nexolith_message e) ≡ true) ⊎ (is_interruption e ≡ true)
  unfolding execute_destination_function
  execute_destination_function-Guarded e h = elim (Option-cases config.resolved_function) [
    | inl q ↦ inl (ground (arith, h, q))
    | inr (definition, q) ↦
        written-Guarded (function_identifier definition.name)
          (attempt_function local_call sql config definition rows) e (ground (arith, h, q))
  ]
