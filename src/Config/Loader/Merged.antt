-- ===== src/Config/Loader/Merged.antt =====
-- The parameters of a SQL source, with the overrides of a DAG task over them.
use nexolith.Base.{
  String, ◌≡◌, refl, ◌∙◌, ◌↔◌, inl, inr, true, false, Option, none, some, List, [], ◌∷◌, arith,
  eq_iff, ok, Bool-cases, string_eq, nat_eq, All, contains, Nodup, subset, subset-contains,
}
use nexolith.Transformations.{missing_from}
use nexolith.Config.Loader.{merged, resolve_sql_parameters, unset}
use nexolith.Nexoactions.Contracts.{keys}
use nexolith.Config.Models.{is_none}
use nexolith.Types.{assign, Scalar, Parameters, field_of, field_of-assign}

-- The value of a name, where an override stands in front of the declaration.
abbrev pub overridden : Parameters → Parameters → String → Option Scalar
overridden declared overrides name = elim (field_of name overrides) [
  | none ↦ field_of name declared
  | some v ↦ some v
]

abbrev pub HasValue : String × Scalar → Type 0
HasValue entry = is_none entry.1 ≡ false

-- A source's parameters as the declarations and the overrides give them.
pub record IsMerged (declared overrides out : Parameters) : Type 0 where
  -- Every override is of a declared name, and the names stay those that are declared.
  pub known : subset (keys overrides) (keys declared) ≡ true
  pub names : keys out ≡ keys declared
  pub values : (name : String) → field_of name out ≡ overridden declared overrides name
  -- No value is null.
  pub set : All HasValue out

unset-All : (ps : Parameters) → unset ps ≡ [] → All HasValue ps
unset-All [] h = tt
unset-All ((name, v) ∷ rest) h = elim (Bool-cases (is_none v)) [
  | inl e ↦ absurd (ground (arith, e, h))
  | inr e ↦ (e, unset-All rest (ground (arith, e, h)))
]

All-unset : (ps : Parameters) → All HasValue ps → unset ps ≡ []
All-unset [] h = refl
All-unset ((name, v) ∷ rest) h = ground (arith, h.0, All-unset rest h.1)

missing_from-subset :
    (there names : List String) → missing_from there names ≡ [] → subset names there ≡ true
unfolding missing_from
missing_from-subset there [] h = refl
missing_from-subset there (c ∷ cs) h =
    ground (arith, h, missing_from-subset there cs, subset-contains cs there c)

subset-missing_from :
    (there names : List String) → subset names there ≡ true → missing_from there names ≡ []
unfolding missing_from
subset-missing_from there [] h = refl
subset-missing_from there (c ∷ cs) h = ground (arith, h, subset-missing_from there cs)

keys-assign :
    (name : String) (v : Scalar) (ps : Parameters)
    → contains (keys ps) name ≡ true
    → keys (assign name v ps) ≡ keys ps
keys-assign name v [] h = absurd (cc)
keys-assign name v ((k, w) ∷ rest) h = ground (arith, keys-assign name v rest, h)

keys-merged :
    (declared overrides : Parameters)
    → subset (keys overrides) (keys declared) ≡ true
    → keys (merged declared overrides) ≡ keys declared
unfolding merged
keys-merged declared [] h = refl
keys-merged declared ((name, v) ∷ rest) h =
    let same : keys (assign name v declared) ≡ keys declared =
      keys-assign name v declared (ground arith) in
    keys-merged (assign name v declared) rest (rw same (ground arith)) ∙ same

field_of_absent :
    (name : String) (ps : Parameters) → contains (keys ps) name ≡ false → field_of name ps ≡ none
field_of_absent name [] h = refl
field_of_absent name ((k, v) ∷ rest) h = ground (arith, h, field_of_absent name rest)

merged-overridden :
    (declared overrides : Parameters) (name : String)
    → Nodup (keys overrides)
    → field_of name (merged declared overrides) ≡ overridden declared overrides name
unfolding merged
merged-overridden declared [] name d = refl
merged-overridden declared ((k, v) ∷ rest) name d =
    merged-overridden (assign k v declared) rest name d.1
    ∙ ground
        (arith, field_of-assign name k v declared, eq_iff k name, d.0, field_of_absent name rest)

-- The parameters of a SQL source can be resolved exactly if every override is of a declared name and
-- no value is null in the end; then they have the declared names, and the value of an override goes
-- before the declared one. The hypothesis is that the overrides have distinct names.
pub resolve_sql_parameters_iff :
    (declared overrides out : Parameters)
    → Nodup (keys overrides)
    → (resolve_sql_parameters declared overrides ≡ ok out)
      ↔ ((out ≡ merged declared overrides) × IsMerged declared overrides out)
unfolding resolve_sql_parameters
resolve_sql_parameters_iff declared overrides out d = (
  λ h.
      accepted (missing_from (keys declared) (keys overrides)) (unset (merged declared overrides))
        refl refl h,
  λ (e, m). ground (
    arith,
    subset-missing_from (keys declared) (keys overrides) m.known,
    All-unset (merged declared overrides) (rw (← e) m.set),
    e,
  ),
)
  where
    accepted :
        (missing nulls : List String)
        → missing_from (keys declared) (keys overrides) ≡ missing
        → unset (merged declared overrides) ≡ nulls
        → resolve_sql_parameters declared overrides ≡ ok out
        → (out ≡ merged declared overrides) × IsMerged declared overrides out
    accepted (n ∷ ns) nulls e q h = absurd (ground (arith, e, h))
    accepted [] (n ∷ ns) e q h = absurd (ground (arith, e, q, h))
    accepted [] [] e q h =
        let same : merged declared overrides ≡ out = ground (arith, e, q, h) in
        let known = missing_from-subset (keys declared) (keys overrides) e in
        rw (← same) (
          refl,
          record {
            known = known;
            names = keys-merged declared overrides known;
            values = λ name. merged-overridden declared overrides name d;
            set = unset-All (merged declared overrides) q;
          },
        )
