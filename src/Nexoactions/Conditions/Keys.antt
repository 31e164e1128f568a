-- ===== src/Nexoactions/Conditions/Keys.antt =====
-- The idempotency key of a batch does not depend on the order of its rows.
use mathlib.Core.List.{Permᴰ}
use nexolith.Base.{
  String, List, [], ◌∷◌, ◌≡◌, refl, sym, ap, ◌∙◌, subst, text_le, text_le_total, text_le_trans,
  text_le_antisym, ok, >>=-eq-ok,
}
use nexolith.Base.Sort.{insert_by, sort_by}
use nexolith.Base.Sort.Unique.{sort_by-swap}
use nexolith.Types.{Row, Rows}
use nexolith.Nexoactions.Conditions.{Hashing, identity, identities, derive_idempotency_key}

module _ (h : Hashing) (fields : List String) where
  -- The identities of a batch with one more row.
  record Headed (row : Row) (rows : Rows) (found : List String) : Type 0 where
    pub known : Row
    pub rest : List String
    pub row_known : identity fields row [] ≡ ok known
    pub rest_known : identities h fields rows ≡ ok rest
    pub whole : h.canonical known ∷ rest ≡ found

  identities-Headed :
      (row : Row) (rows : Rows) (found : List String)
      → identities h fields (row ∷ rows) ≡ ok found
      → Headed row rows found
  unfolding identities
  identities-Headed row rows found e =
      let (known, k, e₁) = >>=-eq-ok (identity fields row []) _ found e in
      let (rest, r, e₂) = >>=-eq-ok (identities h fields rows) _ found e₁ in
      record { known = known; rest = rest; row_known = k; rest_known = r; whole = cc }

  identities_cons :
      (row : Row) (rows : Rows) (known : Row) (rest : List String)
      → identity fields row [] ≡ ok known
      → identities h fields rows ≡ ok rest
      → identities h fields (row ∷ rows) ≡ ok (h.canonical known ∷ rest)
  unfolding identities
  identities_cons row rows known rest k r = rw (k, r) refl

  -- The identities of the rows in another order, which sort to the same list.
  Reordered : Rows → List String → Type 0
  Reordered rows found =
      (found' : List String) × (identities h fields rows ≡ ok found')
      × (sort_by text_le found ≡ sort_by text_le found')

  same_row :
      {row row' known : Row}
      → row ≡ row'
      → identity fields row [] ≡ ok known
      → identity fields row' [] ≡ ok known
  same_row {known = known} q k = subst (λ r. identity fields r [] ≡ ok known) q k

  identities-Reordered :
      {rows rows' : Rows}
      → Permᴰ rows rows'
      → (found : List String) → identities h fields rows ≡ ok found
      → Reordered rows' found
  unfolding Reordered sort_by
  identities-Reordered Permᴰ.nil found e = (found, e, refl)
  identities-Reordered (Permᴰ.cons {a} {b} {l₁} {l₂} same perm) found e =
      let head = identities-Headed a l₁ found e in
      let (rest', r, sorted) = identities-Reordered perm head.rest head.rest_known in
      (
        h.canonical head.known ∷ rest',
        identities_cons b l₂ head.known rest' (same_row same head.row_known) r,
        ap (sort_by text_le) (sym head.whole)
            ∙ ap (insert_by text_le (h.canonical head.known)) sorted,
      )
  identities-Reordered (Permᴰ.swap {a} {b} {a'} {b'} {l} same same') found e =
      let first = identities-Headed a (b ∷ l) found e in
      let second = identities-Headed b l first.rest first.rest_known in
      (
        h.canonical second.known ∷ h.canonical first.known ∷ second.rest,
        identities_cons a' (b' ∷ l) second.known (h.canonical first.known ∷ second.rest)
            (same_row same' second.row_known)
            (identities_cons b' l first.known second.rest (same_row same first.row_known)
              second.rest_known),
        ap (sort_by text_le)
              (sym first.whole ∙ ap (λ rest. h.canonical first.known ∷ rest) (sym second.whole))
            ∙ sort_by-swap text_le text_le_total text_le_trans text_le_antisym
                (h.canonical first.known) (h.canonical second.known) second.rest,
      )
  identities-Reordered (Permᴰ.trans perm perm') found e =
      let (found', e', sorted) = identities-Reordered perm found e in
      let (found'', e'', sorted') = identities-Reordered perm' found' e' in
      (found'', e'', sorted ∙ sorted')

-- The key of a batch is the key of its rows in any other order.
pub derive_idempotency_key-Perm :
    (h : Hashing) (pipeline_name identifier : String) (fields : List String) (rows rows' : Rows)
    (key : String)
    → Permᴰ rows rows'
    → derive_idempotency_key h pipeline_name identifier rows fields ≡ ok key
    → derive_idempotency_key h pipeline_name identifier rows' fields ≡ ok key
unfolding derive_idempotency_key Reordered
derive_idempotency_key-Perm h pipeline_name identifier fields rows rows' key perm e =
    let (found, known, e₁) = >>=-eq-ok (identities h (sort_by text_le fields) rows) _ key e in
    let (found', known', sorted) =
      identities-Reordered h (sort_by text_le fields) perm found known in
    rw (known', sym sorted) e₁
