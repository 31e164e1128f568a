-- ===== src/Transformations.antt =====
-- src/nexolith/transformations: what happens to the rows between the source and the destination.
-- `Filter` and `PythonJob` are not modelled.
pub mod Selected
pub mod Renamed
pub mod Dropped
use nexolith.Base.{
  String, List, [], ◌∷◌, Bool, true, false, not, ◌&&◌, ◌||◌, Option, none, some, ◌==◌, string_eq,
  if◌then◌else◌, concat, contains, text_le, Result, ok, err, ◌>>=◌, Error,
}
use nexolith.Base.Sort.{sort_by}
use nexolith.Types.{Scalar, field_of, assign, Row, Rows}
use nexolith.Nexoactions.Contracts.{keys}

-- `set(rows[0] if rows else [])`.
abbrev pub first_keys : Rows → List String
first_keys [] = []
first_keys (row ∷ rows) = keys row

-- `set(columns) - set(there)`.
unfoldable pub missing_from : List String → List String → List String
missing_from there [] = []
missing_from there (c ∷ cs) =
    let rest = missing_from there cs in if contains there c || contains cs c then rest else c ∷ rest

abbrev pub names_nothing : List String → Bool
names_nothing [] = true
names_nothing (c ∷ cs) = false

-- A transformation's name, and Python's `repr` of the sorted list of the missing columns.
abbrev pub missing_columns : (List String → String) → String → List String → Error
missing_columns repr name missing =
    Error.transformation_error
      (concat (name ∷ " references missing columns: " ∷ repr (sort_by text_le missing) ∷ []))

unfoldable pub select_row : List String → Row → Row → Result Row
select_row [] row built = ok built
select_row (c ∷ cs) row built = elim (field_of c row) [
  | none ↦ err (Error.key_error c)
  | some v ↦ select_row cs row (assign c v built)
]

unfoldable pub select_rows : List String → Rows → Result Rows
unfolding select_row
select_rows columns [] = ok []
select_rows columns (row ∷ rows) = do
  out ← select_row columns row []
  outs ← select_rows columns rows
  ok (out ∷ outs)

-- `Select.apply`.
unfoldable pub select : (List String → String) → List String → Rows → Result Rows
unfolding missing_from select_rows
select repr columns rows =
    if names_nothing (missing_from (first_keys rows) columns)
    then select_rows columns rows
    else err (missing_columns repr "Select" (missing_from (first_keys rows) columns))

-- `columns.get(key, key)`.
abbrev pub renamed : List (String × String) → String → String
renamed columns key = elim (field_of key columns) [ none ↦ key | some name ↦ name ]

unfoldable pub rename_row : List (String × String) → Row → Row → Row
rename_row columns [] built = built
rename_row columns ((k, v) ∷ rest) built =
    rename_row columns rest (assign (renamed columns k) v built)

abbrev pub rename_rows : List (String × String) → Rows → Rows
rename_rows columns [] = []
rename_rows columns (row ∷ rows) = rename_row columns row [] ∷ rename_rows columns rows

-- `Rename.apply`.
unfoldable pub rename : (List String → String) → List (String × String) → Rows → Result Rows
unfolding missing_from rename_row
rename repr columns rows =
    if names_nothing (missing_from (first_keys rows) (keys columns))
    then ok (rename_rows columns rows)
    else err (missing_columns repr "Rename" (missing_from (first_keys rows) (keys columns)))

-- `row.get(column) in (None, "")`.
abbrev pub is_blank : Option Scalar → Bool
is_blank none = true
is_blank (some Scalar.null) = true
is_blank (some (Scalar.string s)) = s == ""
is_blank (some v) = false

abbrev pub is_full : Row → List String → Bool
is_full row [] = true
is_full row (c ∷ cs) = not (is_blank (field_of c row)) && is_full row cs

-- `self.columns or list(row)`.
abbrev pub checked_columns : Option (List String) → Row → List String
checked_columns none row = keys row
checked_columns (some []) row = keys row
checked_columns (some (c ∷ cs)) row = c ∷ cs

-- `DropNulls.apply`.
unfoldable pub drop_nulls : Option (List String) → Rows → Rows
drop_nulls columns [] = []
drop_nulls columns (row ∷ rows) =
    let rest = drop_nulls columns rows in
    if is_full row (checked_columns columns row) then row ∷ rest else rest
