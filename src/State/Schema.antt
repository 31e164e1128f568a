-- ===== src/State/Schema.antt =====
-- src/nexolith/state/store.py, `_MIGRATIONS` and `_ensure_schema`: the SQL of the migrations as
-- statements on tables of rows. Foreign keys and indices have no effect on what the tables hold.
pub mod Migrations
pub mod Contents
pub mod Upgraded
pub mod Crashes
use nexolith.Base.{
  ℕ, ◌+◌, String, Bool, true, false, Option, none, some, List, [], ◌∷◌, ◌++◌, map, ◌==◌,
  if◌then◌else◌, Result, ok, err, Error, string_eq, nat_eq, ◌>>=◌, ◌>>◌, all, contains,
}
use nexolith.Types.{field_of, assign}

pub data Cell : Type 0 where
  null : Cell
  text : String → Cell
  number : ℕ → Cell

abbrev pub SqlRow : Type 0
SqlRow = List (String × Cell)

-- `statuses` is the CHECK on the column of that name; without one it is empty.
pub record Table : Type 0 where
  pub columns : List String
  pub statuses : List String
  pub rows : List SqlRow

-- The tables, and the row of `schema_version`.
pub record Database : Type 0 where
  pub tables : List (String × Table)
  pub version : Option ℕ

-- An expression of a SELECT.
pub data Expression : Type 0 where
  column : String → Expression
  constant : Cell → Expression

pub data Statement : Type 0 where
  create_table : (if_not_exists : Bool) (name : String) (columns statuses : List String) → Statement
  drop_table : (if_exists : Bool) (name : String) → Statement
  -- `INSERT INTO … (…) SELECT … FROM …`.
  copy_rows : (target source : String) (values : List (String × Expression)) → Statement
  rename_table : (name new_name : String) → Statement
  create_index : (table : String) → Statement
  foreign_keys : Bool → Statement

abbrev pub operational_error : Error
operational_error = Error.unexpected "OperationalError"

abbrev pub value_of : SqlRow → Expression → Cell
value_of row (constant c) = c
value_of row (column name) = elim (field_of name row) [ none ↦ null | some c ↦ c ]

abbrev pub selected_row : List (String × Expression) → SqlRow → SqlRow
selected_row [] row = []
selected_row ((name, e) ∷ rest) row = (name, value_of row e) ∷ selected_row rest row

abbrev is_status : List String → Option Cell → Bool
is_status allowed (some (Cell.text status)) = contains allowed status
is_status allowed _ = false

-- The CHECK of a table.
abbrev pub passes : List String → SqlRow → Bool
passes [] row = true
passes (s ∷ ss) row = is_status (s ∷ ss) (field_of "status" row)

abbrev without {ℓ} : {A : Type ℓ} → String → List (String × A) → List (String × A)
without name [] = []
without name ((n, t) ∷ rest) =
    let others = without name rest in if n == name then others else (n, t) ∷ others

abbrev insert_rows : String → Table → List SqlRow → Database → Result Database
insert_rows name table new db =
    if all (passes table.statuses) new
    then ok
        (record db { tables = assign name (record table { rows = table.rows ++ new }) db.tables })
    else err Error.integrity_error

abbrev create : Bool → String → Table → Option Table → Database → Result Database
create if_not_exists name table none db =
    ok (record db { tables = db.tables ++ (name, table) ∷ [] })
create if_not_exists name table (some old) db =
    if if_not_exists then ok db else err operational_error

abbrev drop : Bool → String → Option Table → Database → Result Database
drop if_exists name none db = if if_exists then ok db else err operational_error
drop if_exists name (some table) db = ok (record db { tables = without name db.tables })

abbrev copy :
    String → List (String × Expression) → Option Table → Option Table → Database → Result Database
copy target values (some table) (some source) db =
    insert_rows target table (map (selected_row values) source.rows) db
copy target values _ _ db = err operational_error

-- A new name must be free.
abbrev rename_to : String → String → Option Table → Option Table → Database → Result Database
rename_to name new_name (some table) none db =
    ok (record db { tables = without name db.tables ++ (new_name, table) ∷ [] })
rename_to name new_name _ _ db = err operational_error

abbrev index_on : Option Table → Database → Result Database
index_on (some table) db = ok db
index_on none db = err operational_error

unfoldable pub execute : Statement → Database → Result Database
execute (create_table if_not_exists name columns statuses) db =
    create if_not_exists name (record { columns = columns; statuses = statuses; rows = [] })
      (field_of name db.tables) db
execute (drop_table if_exists name) db = drop if_exists name (field_of name db.tables) db
execute (copy_rows target source values) db =
    copy target values (field_of target db.tables) (field_of source db.tables) db
execute (rename_table name new_name) db =
    rename_to name new_name (field_of name db.tables) (field_of new_name db.tables) db
execute (create_index table) db = index_on (field_of table db.tables) db
execute (foreign_keys enforced) db = ok db

-- `executescript`: each statement is committed by itself, and the first error ends the script.
unfoldable pub execute_script : List Statement → Database → Result Database
unfolding execute
execute_script [] db = ok db
execute_script (s ∷ ss) db = execute s db >>= execute_script ss

abbrev with_column : String → Cell → Table → Table
with_column name default table = record table {
  columns = table.columns ++ name ∷ [];
  rows = map (λ row. row ++ (name, default) ∷ []) table.rows;
}

abbrev add_to : String → Cell → Option Table → Database → Result Database
add_to name default none db = err operational_error
add_to name default (some table) db =
    if contains table.columns name
    then ok db
    else ok (record db { tables = assign "dag_runs" (with_column name default table) db.tables })

-- The three `_add_dag_runs_…_column_if_missing`: `ALTER TABLE dag_runs ADD COLUMN`, unless it is
-- there.
unfoldable pub add_column_if_missing : String → Cell → Database → Result Database
add_column_if_missing name default db = add_to name default (field_of "dag_runs" db.tables) db
