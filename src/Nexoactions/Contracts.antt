-- ===== src/Nexoactions/Contracts.antt =====
-- src/nexolith/nexoactions/contracts.py. Handlers are known by the names of their definitions; the
-- messages of a ValueError, which callers replace, are not modelled.
pub mod Bound
use nexolith.Base.{
  string_eq, ℕ, String, List, [], ◌∷◌, Bool, true, false, not, ◌&&◌, ◌||◌, Option, none, some, ◌==◌,
  ltb, if◌then◌else◌, map, contains, subset, length, Result, ok, err, ◌>>=◌, Error,
}
use nexolith.Types.{Scalar, field_of}

pub data NexoActionOperator : Type 0 where
  equals not_equals less_than less_than_or_equal greater_than greater_than_or_equal :
      NexoActionOperator

pub data NexoActionMatchMode : Type 0 where
  any all : NexoActionMatchMode

pub data NexoActionExecutionStatus : Type 0 where
  not_matched completed failed : NexoActionExecutionStatus

pub data NexoActionParameterKind : Type 0 where
  string integer number boolean string_list : NexoActionParameterKind

pub record NexoActionCondition : Type 0 where
  pub field : String
  pub operator : NexoActionOperator
  pub value : Scalar

pub data NexoActionParameterValue : Type 0 where
  scalar : Scalar → NexoActionParameterValue
  strings : List String → NexoActionParameterValue

pub record NexoActionContext : Type 0 where
  pub pipeline_name : String
  pub action_identifier : String
  pub idempotency_key : String
  pub parameters : List (String × NexoActionParameterValue)

pub record NexoActionParameter : Type 0 where
  pub name : String
  pub kind : NexoActionParameterKind
  pub minimum_items : ℕ
  pub unique_items : Bool

pub record NexoActionDefinition : Type 0 where
  pub name : String
  pub parameters : List NexoActionParameter

pub record NexoActionExecutionResult : Type 0 where
  pub identifier : String
  pub status : NexoActionExecutionStatus
  pub matched_rows : ℕ
  pub idempotency_key : Option String

abbrev pub has_repeats : List String → Bool
has_repeats [] = false
has_repeats (x ∷ xs) = contains xs x || has_repeats xs

abbrev pub no_empty_text : List String → Bool
no_empty_text [] = true
no_empty_text (x ∷ xs) = not (x == "") && no_empty_text xs

abbrev pub kind_fits : NexoActionParameterKind → NexoActionParameterValue → Bool
kind_fits NexoActionParameterKind.string (scalar (Scalar.string s)) = true
kind_fits NexoActionParameterKind.integer (scalar (Scalar.integer negative n)) = true
kind_fits NexoActionParameterKind.number (scalar (Scalar.integer negative n)) = true
kind_fits NexoActionParameterKind.number (scalar (Scalar.floating d)) = true
kind_fits NexoActionParameterKind.number (scalar Scalar.not_finite) = true
kind_fits NexoActionParameterKind.boolean (scalar (Scalar.boolean b)) = true
kind_fits NexoActionParameterKind.string_list (strings items) = no_empty_text items
kind_fits _ _ = false

abbrev pub items_fit : NexoActionParameter → NexoActionParameterValue → Bool
items_fit p (scalar v) = true
items_fit p (strings items) =
    not (ltb (length items) p.minimum_items) && not (p.unique_items && has_repeats items)

-- `_validate_parameter_value`.
unfoldable pub is_valid_parameter : NexoActionParameter → NexoActionParameterValue → Bool
is_valid_parameter p v = kind_fits p.kind v && items_fit p v

abbrev pub declared : List NexoActionParameter → List String
declared parameters = map (λ p. p.name) parameters

abbrev pub keys {ℓ} : {A : Type ℓ} → List (String × A) → List String
keys entries = map (λ e. e.0) entries

-- The loop over the declared parameters.
unfoldable pub bind_each :
    List NexoActionParameter
    → List (String × NexoActionParameterValue)
    → Result (List (String × NexoActionParameterValue))
unfolding is_valid_parameter
bind_each [] configured = ok []
bind_each (p ∷ ps) configured =
    let rest = bind_each ps configured in
    elim (field_of p.name configured) [
      | none ↦ err Error.value_error
      | some v ↦
          if is_valid_parameter p v
          then rest >>= (λ bound. ok ((p.name, v) ∷ bound))
          else err Error.value_error
    ]

unfoldable pub bind_parameters :
    NexoActionDefinition
    → List (String × NexoActionParameterValue)
    → Result (List (String × NexoActionParameterValue))
unfolding bind_each
bind_parameters definition configured =
    if subset (keys configured) (declared definition.parameters)
      && subset (declared definition.parameters) (keys configured)
    then bind_each definition.parameters configured
    else err Error.value_error
