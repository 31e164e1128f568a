-- ===== src/Transformations/Renamed.antt =====
-- What a renaming keeps.
use nexolith.Base.{
  String, ◌≡◌, refl, sym, ap, subst, ◌∙◌, inl, inr, true, false, List, [], ◌∷◌, map, arith, eq_iff,
  ◌==◌, ok, Bool-cases, string_eq, nat_eq, All, contains, Nodup,
}
use nexolith.Types.{field_of, assign, Row, Rows, field_of-assign}
use nexolith.Nexoactions.Contracts.{keys}
use nexolith.Transformations.{renamed, rename_row, rename_rows, rename}

module _ (columns : List (String × String)) where
  -- The names that the columns of a row get.
  abbrev pub new_names : Row → List String
  new_names row = map (renamed columns) (keys row)

  rename_row_other :
      (row built : Row) (n : String)
      → contains (new_names row) n ≡ false
      → field_of n (rename_row columns row built) ≡ field_of n built
  unfolding rename_row
  rename_row_other [] built n h = refl
  rename_row_other ((k, v) ∷ rest) built n h =
      rename_row_other rest (assign (renamed columns k) v built) n (ground arith)
      ∙ ground (arith, field_of-assign n (renamed columns k) v built)

  rename_row-field_of :
      (row built : Row) (c : String)
      → Nodup (new_names row)
      → contains (keys row) c ≡ true
      → field_of (renamed columns c) (rename_row columns row built) ≡ field_of c row
  unfolding rename_row
  rename_row-field_of [] built c distinct here = absurd cc
  rename_row-field_of ((k, v) ∷ rest) built c distinct here = elim (Bool-cases (k == c)) [
    | inl same ↦
        let name : renamed columns c ≡ renamed columns k =
          ap (renamed columns) (sym ((eq_iff k c).0 same)) in
        rw name (
          rename_row_other rest (assign (renamed columns k) v built) (renamed columns k) distinct.0
          ∙ ground (
            arith,
            field_of-assign (renamed columns k) (renamed columns k) v built,
            eq_iff (renamed columns k) (renamed columns k),
          ))
    | inr other ↦
        rename_row-field_of rest (assign (renamed columns k) v built) c distinct.1 (ground arith)
        ∙ ground arith
  ]

  -- Row by row, each value stands under the new name of its column.
  abbrev pub Kept : Rows → Rows → Type 0
  Kept [] [] = Unit
  Kept (row ∷ rows) (out ∷ outs) =
      ((c : String)
        → contains (keys row) c ≡ true
        → field_of (renamed columns c) out ≡ field_of c row)
      × Kept rows outs
  Kept rows outs = ⊥

  rename_rows-Kept :
      (rows : Rows) → All (λ row. Nodup (new_names row)) rows → Kept rows (rename_rows columns rows)
  rename_rows-Kept [] h = tt
  rename_rows-Kept (row ∷ rows) h =
      (λ c here. rename_row-field_of row [] c h.0 here, rename_rows-Kept rows h.1)

  -- A renaming under which no two columns of a row get one name keeps each value of each row, in
  -- the rows' order, under the new name of its column.
  pub rename-Kept :
      (repr : List String → String) (rows outs : Rows)
      → All (λ row. Nodup (new_names row)) rows
      → rename repr columns rows ≡ ok outs
      → Kept rows outs
  unfolding rename
  rename-Kept repr rows outs h e = subst (Kept rows) (ground arith) (rename_rows-Kept rows h)
