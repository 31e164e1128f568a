-- ===== src/Config/Loader/Resolved/Found.antt =====
-- The function and the actions of a pipeline that loads.
use nexolith.Base.{
  String, ◌≡◌, refl, Option, none, some, List, [], ◌∷◌, arith, Result, ok, err, Error, string_eq,
  nat_eq, >>=-eq-ok, All,
}
use nexolith.Config.Loader.{
  Project, resolve_nexo_function, resolve_each, resolve_action_in, resolve_nexo_actions, or_invalid,
  resolve_function_destination,
}
use nexolith.Config.Models.{
  DestinationConfig, function_destination, csv_destination, sql_destination,
}
use nexolith.Nexoactions.Execution.{NexoActionConfig}
use nexolith.Nexofunctions.Loader.{load_action_registry, load_function_registry}
use nexolith.Nexoactions.Contracts.{NexoActionDefinition, bind_parameters}
use nexolith.Nexofunctions.Registry.{Registry, look_up, lookup_action, lookup_function}
use nexolith.Nexofunctions.Names.{function_name_from_identifier, action_name_from_identifier}
use nexolith.Nexofunctions.Contracts.{
  NexoFunctionDefinition, bind_function_parameters, builtin_nexo_functions,
}
use nexolith.Types.{field_of}
use nexolith.Config.Models.Valid.{action_types}
use nexolith.Config.Loader.Resolved.{IsFound, IsResolvedAction, AreResolved, IsResolvedDestination}

look_up-ok {ℓ} :
    {D : Type ℓ} (noun invalid identifier : String) (read : Result String) (registry : Registry D)
    (definition : D)
    → look_up noun invalid identifier read registry ≡ ok definition
    → IsFound registry read definition
look_up-ok noun invalid identifier (err e) registry definition h = absurd (cc)
look_up-ok noun invalid identifier (ok name) registry definition h =
    (name, refl, there (field_of name registry) refl)
  where
    there : (o : Option _) → field_of name registry ≡ o → o ≡ some definition
    there none e = absurd (ground (arith, e, h))
    there (some d) e = ground (arith, e, h)

module _ (project : Project) where
  or_invalid-ok {ℓ} :
      {A : Type ℓ} (noun type : String) (r : Result A) (a : A)
      → or_invalid noun type r ≡ ok a
      → r ≡ ok a
  or_invalid-ok noun type (ok b) a h = h
  or_invalid-ok noun type (err Error.value_error) a h = absurd (cc)
  or_invalid-ok noun type (err _) a h = absurd (cc)

  lookup_action-ok :
      (identifier : String) (registry : Registry NexoActionDefinition) (d : NexoActionDefinition)
      → lookup_action project.repr identifier registry ≡ ok d
      → IsFound registry (action_name_from_identifier identifier) d
  unfolding lookup_action
  lookup_action-ok identifier registry d h =
      look_up-ok "Nexo Action" (project.repr identifier) identifier
        (action_name_from_identifier identifier) registry d h

  lookup_function-ok :
      (identifier : String) (registry : Registry NexoFunctionDefinition)
      (d : NexoFunctionDefinition)
      → lookup_function project.repr identifier registry ≡ ok d
      → IsFound registry (function_name_from_identifier identifier) d
  unfolding lookup_function
  lookup_function-ok identifier registry d h =
      look_up-ok "Nexo Function" (project.repr identifier) identifier
        (function_name_from_identifier identifier) registry d h

  resolve_action_in-IsResolved :
      (registry : Registry NexoActionDefinition) (a out : NexoActionConfig)
      → resolve_action_in project registry a ≡ ok out
      → IsResolvedAction project registry out
  unfolding resolve_action_in
  resolve_action_in-IsResolved registry a out h =
      let (definition, found, rest) =
        >>=-eq-ok (lookup_action project.repr a.type registry) _ out h in
      let (bound, fits, same) =
        >>=-eq-ok (or_invalid "Nexo Action" a.type (bind_parameters definition a.parameters)) _ out
          rest in
      let same_out : record a { resolved_action = some definition } ≡ out = ground (arith, same) in
      rw (← same_out) (
        definition,
        refl,
        lookup_action-ok a.type registry definition found,
        (bound, or_invalid-ok "Nexo Action" a.type _ bound fits),
      )

  -- A resolved action has its type still.
  resolve_each-types :
      (registry : Registry NexoActionDefinition) (actions out : List NexoActionConfig)
      → resolve_each project registry actions ≡ ok out
      → action_types out ≡ action_types actions
  unfolding resolve_each resolve_action_in
  resolve_each-types registry [] out h = let same : [] ≡ out = ground (arith, h) in rw (← same) refl
  resolve_each-types registry (a ∷ actions) out h =
      let (one, first, rest) = >>=-eq-ok (resolve_action_in project registry a) _ out h in
      let (others, more, same) = >>=-eq-ok (resolve_each project registry actions) _ out rest in
      let (definition, found, last) =
        >>=-eq-ok (lookup_action project.repr a.type registry) _ one first in
      let (bound, fits, same_one) =
        >>=-eq-ok (or_invalid "Nexo Action" a.type (bind_parameters definition a.parameters)) _ one
          last in
      let same_type : one.type ≡ a.type = ground (arith, same_one) in
      let same_out : (one ∷ others) ≡ out = ground (arith, same) in
      rw (← same_out) (rw (same_type, resolve_each-types registry actions others more) refl)

  pub resolve_nexo_actions-types :
      (actions out : List NexoActionConfig)
      → resolve_nexo_actions project actions ≡ ok out
      → action_types out ≡ action_types actions
  unfolding resolve_nexo_actions
  resolve_nexo_actions-types [] out h = let same : [] ≡ out = ground (arith, h) in rw (← same) refl
  resolve_nexo_actions-types (a ∷ actions) out h =
      let (registry, made, rest) =
        >>=-eq-ok (load_action_registry (λ d. d.name) project.actions) _ out h in
      resolve_each-types registry (a ∷ actions) out rest

  resolve_each-IsResolved :
      (registry : Registry NexoActionDefinition) (actions out : List NexoActionConfig)
      → resolve_each project registry actions ≡ ok out
      → All (IsResolvedAction project registry) out
  unfolding resolve_each
  resolve_each-IsResolved registry [] out h =
      let same : [] ≡ out = ground (arith, h) in rw (← same) tt
  resolve_each-IsResolved registry (a ∷ actions) out h =
      let (one, first, rest) = >>=-eq-ok (resolve_action_in project registry a) _ out h in
      let (others, more, same) = >>=-eq-ok (resolve_each project registry actions) _ out rest in
      let same_out : (one ∷ others) ≡ out = ground (arith, same) in
      rw (← same_out) (
        resolve_action_in-IsResolved registry a one first,
        resolve_each-IsResolved registry actions others more,
      )

  All-AreResolved :
      (registry : Registry NexoActionDefinition) (actions : List NexoActionConfig)
      → load_action_registry (λ d. d.name) project.actions ≡ ok registry
      → All (IsResolvedAction project registry) actions
      → AreResolved project actions
  All-AreResolved registry [] made h = tt
  All-AreResolved registry (a ∷ actions) made h = (registry, made, h)

  pub resolve_nexo_actions-AreResolved :
      (actions out : List NexoActionConfig)
      → resolve_nexo_actions project actions ≡ ok out
      → AreResolved project out
  unfolding resolve_nexo_actions
  resolve_nexo_actions-AreResolved [] out h =
      let same : [] ≡ out = ground (arith, h) in rw (← same) tt
  resolve_nexo_actions-AreResolved (a ∷ actions) out h =
      let (registry, made, rest) =
        >>=-eq-ok (load_action_registry (λ d. d.name) project.actions) _ out h in
      All-AreResolved registry out made (resolve_each-IsResolved registry (a ∷ actions) out rest)

  pub resolve_nexo_function-IsResolved :
      (d out : DestinationConfig)
      → resolve_nexo_function project d ≡ ok out
      → IsResolvedDestination project out
  unfolding resolve_nexo_function resolve_function_destination
  resolve_nexo_function-IsResolved (csv_destination c) out h =
      let same : csv_destination c ≡ out = ground (arith, h) in rw (← same) tt
  resolve_nexo_function-IsResolved (sql_destination c) out h =
      let same : sql_destination c ≡ out = ground (arith, h) in rw (← same) tt
  resolve_nexo_function-IsResolved (function_destination d) out h =
      let (r, resolved, last) = >>=-eq-ok (resolve_function_destination project d) _ out h in
      let (registry, made, rest) =
        >>=-eq-ok (load_function_registry (λ f. f.name) builtin_nexo_functions project.functions) _
          r resolved in
      let (definition, found, more) =
        >>=-eq-ok (lookup_function project.repr d.type registry) _ r rest in
      let (bound, fits, same) =
        >>=-eq-ok
          (or_invalid "Nexo Function" d.type (bind_function_parameters definition d.parameters)) _ r
          more in
      let same_r : record d { resolved_function = some definition } ≡ r = ground (arith, same) in
      let same_out : function_destination (record d { resolved_function = some definition }) ≡ out =
        ground (arith, last, same_r) in
      rw (← same_out) (
        registry,
        made,
        definition,
        refl,
        lookup_function-ok d.type registry definition found,
        (bound, or_invalid-ok "Nexo Function" d.type _ bound fits),
      )
