-- ===== src/Transformations/Selected.antt =====
-- What a selection keeps, and when it fails.
use nexolith.Base.{
  String, ◌≡◌, refl, subst, ◌↔◌, inl, inr, true, none, List, [], ◌∷◌, arith, eq_iff, if◌then◌else◌,
  ok, Option-cases, string_eq, nat_eq, >>=-eq-ok, All, contains, is_some, subset, subset-contains,
}
use nexolith.Types.{field_of, assign, Row, Rows, field_of-assign}
use nexolith.Transformations.{
  select_row, missing_from, select_rows, names_nothing, select, first_keys,
}
use nexolith.Nexoactions.Contracts.{keys}

select_row-field_of :
    (columns : List String) (row built out : Row) (c : String)
    → select_row columns row built ≡ ok out
    → field_of c out ≡ (if contains columns c then field_of c row else field_of c built)
unfolding select_row
select_row-field_of [] row built out c e = ground arith
select_row-field_of (k ∷ ks) row built out c e = elim (Option-cases (field_of k row)) [
  | inl missing ↦ absurd (ground arith)
  | inr (v, known) ↦
      let rest = select_row-field_of ks row (assign k v built) out c (ground arith) in
      ground (arith, rest, field_of-assign c k v built, eq_iff k c, known)
]

keys-field_of :
    {A : Type 0} (row : List (String × A)) (c : String)
    → contains (keys row) c ≡ is_some (field_of c row)
keys-field_of [] c = refl
keys-field_of ((k, v) ∷ rest) c = ground (arith, keys-field_of rest c)

missing_from-names_nothing :
    (there columns : List String)
    → (names_nothing (missing_from there columns) ≡ true) ↔ (subset columns there ≡ true)
unfolding missing_from
missing_from-names_nothing there [] = (λ e. refl, λ e. refl)
missing_from-names_nothing there (c ∷ cs) =
    let rest = missing_from-names_nothing there cs in
    let held = subset-contains cs there c in
    (λ e. ground (arith, rest, held), λ e. ground (arith, rest))

select_row-subset :
    (columns : List String) (row built out : Row)
    → select_row columns row built ≡ ok out
    → subset columns (keys row) ≡ true
unfolding select_row
select_row-subset [] row built out e = refl
select_row-subset (c ∷ cs) row built out e = elim (Option-cases (field_of c row)) [
  | inl missing ↦ absurd (ground arith)
  | inr (v, known) ↦
      let rest = select_row-subset cs row (assign c v built) out (ground arith) in
      ground (arith, rest, keys-field_of row c)
]

subset-select_row :
    (columns : List String) (row built : Row)
    → subset columns (keys row) ≡ true
    → (out : Row) × (select_row columns row built ≡ ok out)
unfolding select_row
subset-select_row [] row built h = (built, refl)
subset-select_row (c ∷ cs) row built h = elim (Option-cases (field_of c row)) [
  | inl missing ↦ absurd (ground (arith, keys-field_of row c))
  | inr (v, known) ↦
      let (out, e) = subset-select_row cs row (assign c v built) (ground arith) in
      (out, ground arith)
]

-- The rows have all columns, and there is a row unless no column is asked for.
abbrev pub IsSelectable : List String → Rows → Type 0
IsSelectable columns rows =
    (subset columns (first_keys rows) ≡ true) × All (λ row. subset columns (keys row) ≡ true) rows

-- Row by row, the columns that were asked for have their values, and there are no others.
abbrev pub Projected : List String → Rows → Rows → Type 0
Projected columns [] [] = Unit
Projected columns (row ∷ rows) (out ∷ outs) =
    ((c : String) → field_of c out ≡ (if contains columns c then field_of c row else none))
    × Projected columns rows outs
Projected columns rows outs = ⊥

select_rows-Projected :
    (columns : List String) (rows outs : Rows)
    → select_rows columns rows ≡ ok outs
    → Projected columns rows outs × All (λ row. subset columns (keys row) ≡ true) rows
unfolding select_rows
select_rows-Projected columns [] [] e = (tt, tt)
select_rows-Projected columns [] (o ∷ os) e = absurd cc
select_rows-Projected columns (row ∷ rows) outs e =
    let (out, selected, e₁) = >>=-eq-ok (select_row columns row []) _ outs e in
    let (rest, known, e₂) = >>=-eq-ok (select_rows columns rows) _ outs e₁ in
    let whole : out ∷ rest ≡ outs = cc in
    let later = select_rows-Projected columns rows rest known in
    (
      subst (Projected columns (row ∷ rows)) whole
          (λ c. select_row-field_of columns row [] out c selected, later.0),
      (select_row-subset columns row [] out selected, later.1),
    )

subset-select_rows :
    (columns : List String) (rows : Rows)
    → All (λ row. subset columns (keys row) ≡ true) rows
    → (outs : Rows) × (select_rows columns rows ≡ ok outs)
unfolding select_rows
subset-select_rows columns [] h = ([], refl)
subset-select_rows columns (row ∷ rows) h =
    let (out, e) = subset-select_row columns row [] h.0 in
    let (outs, e') = subset-select_rows columns rows h.1 in (out ∷ outs, rw (e, e') refl)

module _ (repr : List String → String) (columns : List String) (rows : Rows) where
  select-select_rows :
      (outs : Rows)
      → select repr columns rows ≡ ok outs
      → (select_rows columns rows ≡ ok outs)
        × (names_nothing (missing_from (first_keys rows) columns) ≡ true)
  unfolding select
  select-select_rows outs e = (ground arith, ground arith)

  -- A selection that succeeds keeps, of each row and in the rows' order, exactly the columns that were asked for, with
  -- their values.
  select-Projected :
      (outs : Rows) → select repr columns rows ≡ ok outs → Projected columns rows outs
  select-Projected outs e =
      (select_rows-Projected columns rows outs (select-select_rows outs e).0).0

  -- A selection succeeds exactly if every row has every column, and, without any row, no column is
  -- asked for.
  pub select_iff :
      ((outs : Rows) × (select repr columns rows ≡ ok outs)) ↔ IsSelectable columns rows
  unfolding select
  select_iff = (
    λ (outs, e).
        let found = select-select_rows outs e in
        (
          (missing_from-names_nothing (first_keys rows) columns).0 found.1,
          (select_rows-Projected columns rows outs found.0).1,
        ),
    λ (first, each).
        let (outs, e) = subset-select_rows columns rows each in
        let present = (missing_from-names_nothing (first_keys rows) columns).1 first in
        (outs, ground arith),
  )
