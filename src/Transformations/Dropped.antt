-- ===== src/Transformations/Dropped.antt =====
-- Which rows are dropped for a blank.
use nexolith.Base.{
  ◌==◌, string_eq, if◌then◌else◌, String, List, [], ◌∷◌, Bool, true, false, Option, contains, In,
  ◌≡◌, ◌↔◌, inl, inr, refl, sym, subst, arith, eq_iff, Bool-cases,
}
use nexolith.Types.{field_of, Row, Rows}
use nexolith.Transformations.{is_blank, is_full, checked_columns, drop_nulls}

-- None of the row's columns that are checked is blank.
abbrev pub IsFull : Option (List String) → Row → Type 0
IsFull columns row =
    (c : String)
    → contains (checked_columns columns row) c ≡ true
    → is_blank (field_of c row) ≡ false

is_full_iff :
    (row : Row) (cs : List String)
    → (is_full row cs ≡ true)
      ↔ ((c : String) → contains cs c ≡ true → is_blank (field_of c row) ≡ false)
is_full_iff row [] = (λ e c h. absurd cc, λ h. refl)
is_full_iff row (k ∷ ks) = (
  λ e c h. elim (Bool-cases (k == c)) [
    | inl same ↦ subst (λ n. is_blank (field_of n row) ≡ false) ((eq_iff k c).0 same) (ground arith)
    | inr other ↦ (is_full_iff row ks).0 (ground arith) c (ground arith)
  ],
  λ h.
      let rest = (is_full_iff row ks).1 (λ c m. h c (ground arith)) in
      let first = h k (ground (arith, eq_iff k k)) in ground arith,
)

module _ (columns : Option (List String)) where
  -- What `kept` is to be for `rows`.
  abbrev FullOf : Row → Rows → Rows → Type 0
  FullOf row rows kept = In row kept ↔ (In row rows × IsFull columns row)

  dropped_cons :
      (row r : Row) (rows kept : Rows) (full : Bool)
      → is_full r (checked_columns columns r) ≡ full
      → FullOf row rows kept
      → FullOf row (r ∷ rows) (if full then r ∷ kept else kept)
  dropped_cons row r rows kept true e h = (
    λ m. elim m [
      | inl same ↦ (
        inl same,
        subst (IsFull columns) (sym same) ((is_full_iff r (checked_columns columns r)).0 e),
      )
      | inr later ↦ (inr (h.0 later).0, (h.0 later).1)
    ],
    λ (m, full). elim m [ inl same ↦ inl same | inr later ↦ inr (h.1 (later, full)) ],
  )
  dropped_cons row r rows kept false e h = (
    λ m. (inr (h.0 m).0, (h.0 m).1),
    λ (m, full). elim m [
      | inl same ↦ absurd (blank_and_full (subst (IsFull columns) same full))
      | inr later ↦ h.1 (later, full)
    ],
  )
    where
      blank_and_full : IsFull columns r → ⊥
      blank_and_full full =
          let known = (is_full_iff r (checked_columns columns r)).1 full in ground arith

  -- Of the rows, `DropNulls` keeps exactly those without a blank in the columns that it checks: the
  -- given ones, or all of the row where none are given.
  drop_nulls_iff :
      (row : Row) (rows : Rows)
      → In row (drop_nulls columns rows) ↔ (In row rows × IsFull columns row)
  unfolding drop_nulls
  drop_nulls_iff row [] = (λ m. absurd m, λ h. absurd h.0)
  drop_nulls_iff row (r ∷ rows) =
      dropped_cons row r rows (drop_nulls columns rows) (is_full r (checked_columns columns r)) refl
        (drop_nulls_iff row rows)
