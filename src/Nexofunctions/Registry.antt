-- ===== src/Nexofunctions/Registry.antt =====
-- src/nexolith/nexofunctions/registry.py and src/nexolith/nexoactions/registry.py: a registry is a
-- dictionary of definitions by their names. Python's `repr` of a text is a parameter.
use nexolith.Base.{
  String, Bool, not, ◌&&◌, none, some, List, [], ◌∷◌, if◌then◌else◌, Result, ok, err, Error,
  string_eq, nat_eq, concat, is_some,
}
use nexolith.Nexofunctions.Names.{function_name_from_identifier, action_name_from_identifier}
use nexolith.Types.{field_of, assign}

abbrev pub Registry {ℓ} : Type ℓ → Type ℓ
Registry D = List (String × D)

abbrev already_registered : String → String → Error
already_registered noun name =
    Error.configuration_error (concat (noun ∷ " '" ∷ name ∷ "' is already registered." ∷ []))

-- `NexoFunctionRegistry.register`.
unfoldable pub register_function {ℓ} :
    {D : Type ℓ} → (replace : Bool) → String → D → Registry D → Result (Registry D)
register_function replace name definition registry =
    if is_some (field_of name registry) && not replace
    then err (already_registered "Nexo Function" name)
    else ok (assign name definition registry)

-- `NexoActionRegistry.register`.
unfoldable pub register_action {ℓ} : {D : Type ℓ} → String → D → Registry D → Result (Registry D)
register_action name definition registry =
    if is_some (field_of name registry)
    then err (already_registered "Nexo Action" name)
    else ok (assign name definition registry)

-- The `lookup` of both registries, once the name has been read.
abbrev pub look_up {ℓ} :
    {D : Type ℓ} → (noun invalid : String) → String → Result String → Registry D → Result D
look_up noun invalid identifier (err e) registry =
    err (
      Error.configuration_error (concat ("Invalid " ∷ noun ∷ " identifier: " ∷ invalid ∷ "." ∷ [])))
look_up noun invalid identifier (ok name) registry = elim (field_of name registry) [
  | none ↦
      err (Error.configuration_error (concat ("Unknown " ∷ noun ∷ ": " ∷ identifier ∷ "." ∷ [])))
  | some definition ↦ ok definition
]

module _ {ℓ} {D : Type ℓ} (repr : String → String) where
  unfoldable pub lookup_function : String → Registry D → Result D
  unfolding function_name_from_identifier
  lookup_function identifier registry =
      look_up "Nexo Function" (repr identifier) identifier
        (function_name_from_identifier identifier) registry

  unfoldable pub lookup_action : String → Registry D → Result D
  unfolding action_name_from_identifier
  lookup_action identifier registry =
      look_up "Nexo Action" (repr identifier) identifier (action_name_from_identifier identifier)
        registry
