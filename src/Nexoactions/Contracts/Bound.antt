-- ===== src/Nexoactions/Contracts/Bound.antt =====
-- What `bind_parameters` lets through.
use nexolith.Base.{
  ℕ, ◌≤◌, String, ◌≡◌, refl, ◌≢◌, ◌⊎◌, inl, inr, Bool, true, false, ◌&&◌, some, List, [], ◌∷◌,
  arith, eq_iff, ok, Option-cases, Bool-cases, string_eq, nat_eq, >>=-eq-ok, All, length, Nodup,
  subset,
}
use nexolith.Nexoactions.Contracts.{
  has_repeats, bind_each, NexoActionParameter, NexoActionParameterValue, no_empty_text,
  bind_parameters, NexoActionParameterKind, scalar, NexoActionDefinition, is_valid_parameter,
  kind_fits, items_fit, keys, declared, strings,
}
use nexolith.Types.{field_of, Scalar, Decimal}

-- A value of a kind.
abbrev pub HasKind : NexoActionParameterKind → NexoActionParameterValue → Type 0
HasKind NexoActionParameterKind.string v = (s : String) × (v ≡ scalar (Scalar.string s))
HasKind NexoActionParameterKind.integer v =
    (negative : Bool) × (n : ℕ) × (v ≡ scalar (Scalar.integer negative n))
HasKind NexoActionParameterKind.number v =
    ((negative : Bool) × (n : ℕ) × (v ≡ scalar (Scalar.integer negative n)))
    ⊎ (((d : Decimal) × (v ≡ scalar (Scalar.floating d))) ⊎ (v ≡ scalar Scalar.not_finite))
HasKind NexoActionParameterKind.boolean v = (b : Bool) × (v ≡ scalar (Scalar.boolean b))
HasKind NexoActionParameterKind.string_list v =
    (items : List String) × (v ≡ strings items) × All (λ s. s ≢ "") items

-- The bounds that a declaration puts on a list.
abbrev pub HasItems : NexoActionParameter → NexoActionParameterValue → Type 0
HasItems p (scalar v) = Unit {0}
HasItems p (strings items) =
    (p.minimum_items ≤ length items) × (p.unique_items ≡ true → Nodup items)

abbrev pub Fits : NexoActionParameter → NexoActionParameterValue → Type 0
Fits p v = HasKind p.kind v × HasItems p v

-- One value for each declared parameter, as it was configured.
abbrev pub Bound :
    List (String × NexoActionParameterValue)
    → List NexoActionParameter
    → List (String × NexoActionParameterValue)
    → Type 0
Bound configured [] [] = Unit
Bound configured (p ∷ ps) ((name, v) ∷ rest) =
    (name ≡ p.name) × (field_of p.name configured ≡ some v) × Fits p v × Bound configured ps rest
Bound configured _ _ = ⊥

no_empty-All : (items : List String) → no_empty_text items ≡ true → All (λ s. s ≢ "") items
no_empty-All [] h = tt
no_empty-All (x ∷ xs) h = (ground (arith, eq_iff x ""), no_empty-All xs (ground arith))

pub has_repeats-Nodup : (items : List String) → has_repeats items ≡ false → Nodup items
has_repeats-Nodup [] h = tt
has_repeats-Nodup (x ∷ xs) h = (ground arith, has_repeats-Nodup xs (ground arith))

kind_fits-HasKind :
    (k : NexoActionParameterKind) (v : NexoActionParameterValue)
    → kind_fits k v ≡ true
    → HasKind k v
kind_fits-HasKind NexoActionParameterKind.string (scalar (Scalar.string s)) h = (s, refl)
kind_fits-HasKind NexoActionParameterKind.integer (scalar (Scalar.integer b n)) h = (b, n, refl)
kind_fits-HasKind NexoActionParameterKind.number (scalar (Scalar.integer b n)) h = inl (b, n, refl)
kind_fits-HasKind NexoActionParameterKind.number (scalar (Scalar.floating d)) h =
    inr (inl (d, refl))
kind_fits-HasKind NexoActionParameterKind.number (scalar Scalar.not_finite) h = inr (inr refl)
kind_fits-HasKind NexoActionParameterKind.boolean (scalar (Scalar.boolean b)) h = (b, refl)
kind_fits-HasKind NexoActionParameterKind.string_list (strings items) h =
    (items, refl, no_empty-All items h)
kind_fits-HasKind _ _ h = absurd (cc)

items_fit-HasItems :
    (p : NexoActionParameter) (v : NexoActionParameterValue) → items_fit p v ≡ true → HasItems p v
items_fit-HasItems p (scalar v) h = tt
items_fit-HasItems p (strings items) h =
    (ground (arith, h), λ u. has_repeats-Nodup items (ground (arith, h, u)))

bind_each-Bound :
    (ps : List NexoActionParameter) (configured out : List (String × NexoActionParameterValue))
    → bind_each ps configured ≡ ok out
    → Bound configured ps out
unfolding bind_each is_valid_parameter
bind_each-Bound [] configured [] h = tt
bind_each-Bound [] configured (x ∷ xs) h = absurd (cc)
bind_each-Bound (p ∷ ps) configured out h = elim (Option-cases (field_of p.name configured)) [
  | inl e ↦ absurd (ground (arith, e))
  | inr (v, e) ↦ elim (Bool-cases (kind_fits p.kind v && items_fit p v)) [
    | inr q ↦ absurd (ground (arith, e, q))
    | inl q ↦
        let (rest, r, same) =
          >>=-eq-ok (bind_each ps configured) (λ bound. ok ((p.name, v) ∷ bound)) out
            (ground (arith, e, q)) in
        let same_out : ((p.name, v) ∷ rest) ≡ out = ground (arith, same) in
        rw (← same_out) (
          refl,
          e,
          (kind_fits-HasKind p.kind v (ground arith), items_fit-HasItems p v (ground arith)),
          bind_each-Bound ps configured rest r,
        )
  ]
]

-- Parameters that are bound are those that the definition declares, one value for each, as it was
-- configured, of the declared kind and with the number of items that it asks for.
pub bind_parameters-Bound :
    (definition : NexoActionDefinition) (configured out : List (String × NexoActionParameterValue))
    → bind_parameters definition configured ≡ ok out
    → Bound configured definition.parameters out
unfolding bind_parameters
bind_parameters-Bound definition configured out h =
    elim (Bool-cases (
      subset (keys configured) (declared definition.parameters)
      && subset (declared definition.parameters) (keys configured))) [
        | inl e ↦ bind_each-Bound definition.parameters configured out (ground (arith, e))
        | inr e ↦ absurd (ground (arith, e))
      ]
