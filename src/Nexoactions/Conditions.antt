-- ===== src/Nexoactions/Conditions.antt =====
-- src/nexolith/nexoactions/execution.py: the rows that match a condition, and the key of a batch.
pub mod Keys
use nexolith.Base.{
  ℕ, ◌-◌, ◌^◌, String, List, [], ◌∷◌, Bool, true, false, not, ◌&&◌, ◌||◌, none, some, ◌==◌,
  string_eq, ltb, if◌then◌else◌, concat, text_le, Result, ok, err, ◌>>=◌, ◌>>◌, Error,
}
use nexolith.Base.Sort.{sort_by}
use nexolith.Types.{Decimal, Scalar, field_of, assign, Row, Rows, decimal_lt, decimal_eq}
use nexolith.Nexoactions.Contracts.{NexoActionOperator, NexoActionCondition}

pub data ScalarKind : Type 0 where
  null boolean number string : ScalarKind

abbrev pub scalar_kind : Scalar → ScalarKind
scalar_kind Scalar.null = ScalarKind.null
scalar_kind (Scalar.boolean b) = ScalarKind.boolean
scalar_kind (Scalar.integer negative n) = ScalarKind.number
scalar_kind (Scalar.floating d) = ScalarKind.number
scalar_kind Scalar.not_finite = ScalarKind.number
scalar_kind (Scalar.string s) = ScalarKind.string

abbrev pub same_kind : ScalarKind → ScalarKind → Bool
same_kind ScalarKind.null ScalarKind.null = true
same_kind ScalarKind.boolean ScalarKind.boolean = true
same_kind ScalarKind.number ScalarKind.number = true
same_kind ScalarKind.string ScalarKind.string = true
same_kind _ _ = false

abbrev pub is_ordered_kind : ScalarKind → Bool
is_ordered_kind ScalarKind.number = true
is_ordered_kind ScalarKind.string = true
is_ordered_kind _ = false

abbrev pub finite_if_number : Scalar → Bool
finite_if_number Scalar.not_finite = false
finite_if_number _ = true

abbrev pub integer_value : Bool → ℕ → Decimal
integer_value negative n = record { negative = negative; digits = n; scale = 0 }

-- `==` of two values of one kind.
unfoldable pub scalar_equals : Scalar → Scalar → Bool
unfolding decimal_eq
scalar_equals Scalar.null Scalar.null = true
scalar_equals (Scalar.boolean a) (Scalar.boolean b) = (a && b) || (not a && not b)
scalar_equals (Scalar.string a) (Scalar.string b) = a == b
scalar_equals (Scalar.integer s a) (Scalar.integer t b) =
    decimal_eq (integer_value s a) (integer_value t b)
scalar_equals (Scalar.integer s a) (Scalar.floating b) = decimal_eq (integer_value s a) b
scalar_equals (Scalar.floating a) (Scalar.integer t b) = decimal_eq a (integer_value t b)
scalar_equals (Scalar.floating a) (Scalar.floating b) = decimal_eq a b
scalar_equals _ _ = false

-- An integer that rounds to 2 ^ 1024 or above has no float.
abbrev pub float_limit : ℕ
float_limit = 2 ^ 1024 - 2 ^ 970

-- `float(value)` of a number; the rounding to 53 bits is not modelled.
unfoldable pub to_float : Scalar → Result Decimal
to_float (Scalar.integer negative n) =
    if ltb n float_limit then ok (integer_value negative n) else err Error.overflow_error
to_float (Scalar.floating d) = ok d
to_float _ = err (Error.unexpected "AssertionError")

-- The four orders, by the tests `a < b` and `b < a`.
abbrev pub compare_by : NexoActionOperator → Bool → Bool → Bool
compare_by NexoActionOperator.less_than less more = less
compare_by NexoActionOperator.less_than_or_equal less more = not more
compare_by NexoActionOperator.greater_than less more = more
compare_by _ less more = not less

abbrev pub text_lt : String → String → Bool
text_lt a b = not (text_le b a)

unfoldable pub compare_numbers : NexoActionOperator → Scalar → Scalar → Result Bool
unfolding to_float decimal_lt
compare_numbers operator actual expected = do
  a ← to_float actual
  b ← to_float expected
  ok (compare_by operator (decimal_lt a b) (decimal_lt b a))

unfoldable pub compare_ordered : NexoActionOperator → Scalar → Scalar → Result Bool
unfolding compare_numbers
compare_ordered operator (Scalar.string a) (Scalar.string b) =
    ok (compare_by operator (text_lt a b) (text_lt b a))
compare_ordered operator actual expected = compare_numbers operator actual expected

abbrev pub incompatible : String → Error
incompatible field =
    Error.execution_error
      (concat ("Nexo Action condition field '" ∷ field ∷ "' has an incompatible type." ∷ []))

abbrev pub require_comparable : Scalar → Scalar → String → (ordered : Bool) → Result (Unit {0})
require_comparable actual expected field ordered =
    if same_kind (scalar_kind actual) (scalar_kind expected)
      && (not ordered || is_ordered_kind (scalar_kind actual))
      && finite_if_number actual
      && finite_if_number expected
    then ok tt
    else err (incompatible field)

abbrev pub is_null : Scalar → Bool
is_null Scalar.null = true
is_null _ = false

unfoldable pub test_equality : Scalar → NexoActionCondition → Result Bool
unfolding scalar_equals
test_equality actual c =
    if is_null actual || is_null c.value
    then ok (is_null actual && is_null c.value)
    else (require_comparable actual c.value c.field false >> ok (scalar_equals actual c.value))

unfoldable pub test_order : Scalar → NexoActionCondition → Result Bool
unfolding compare_ordered
test_order actual c =
    require_comparable actual c.value c.field true >> compare_ordered c.operator actual c.value

unfoldable pub matches : Scalar → NexoActionCondition → Result Bool
unfolding test_equality test_order
matches actual c = elim c.operator [
  | NexoActionOperator.equals ↦ test_equality actual c
  | NexoActionOperator.not_equals ↦ test_equality actual c >>= (λ b. ok (not b))
  | NexoActionOperator.less_than ↦ test_order actual c
  | NexoActionOperator.less_than_or_equal ↦ test_order actual c
  | NexoActionOperator.greater_than ↦ test_order actual c
  | NexoActionOperator.greater_than_or_equal ↦ test_order actual c
]

-- The test of one row.
unfoldable pub row_matches : NexoActionCondition → Row → Result Bool
unfolding matches
row_matches c row = elim (field_of c.field row) [
  | none ↦ err (
      Error.execution_error
        (concat ("Nexo Action condition field '" ∷ c.field ∷ "' is missing from a row." ∷ [])))
  | some actual ↦ matches actual c
]

unfoldable pub matched_rows : Rows → NexoActionCondition → Result Rows
unfolding row_matches
matched_rows [] c = ok []
matched_rows (row ∷ rows) c = do
  b ← row_matches c row
  rest ← matched_rows rows c
  ok (if b then row ∷ rest else rest)

-- The json and hashlib modules: the canonical JSON of a dictionary, and the digest of the action,
-- the pipeline and the identities.
pub record Hashing : Type 0 where
  pub canonical : Row → String
  pub digest : String → String → List String → String

-- The dictionary of one row's identity; `fields` are sorted.
unfoldable pub identity : List String → Row → Row → Result Row
identity [] row built = ok built
identity (field ∷ fields) row built = elim (field_of field row) [
  | none ↦ err (
      Error.execution_error (
        concat
          ("Nexo Action idempotency field '" ∷ field ∷ "' is missing from a matched row." ∷ [])))
  | some value ↦
      if finite_if_number value
      then identity fields row (assign field value built)
      else err (
          Error.execution_error (
            concat
              ("Nexo Action idempotency field '" ∷ field ∷ "' contains an unstable number." ∷ [])))
]

unfoldable pub identities : Hashing → List String → Rows → Result (List String)
unfolding identity
identities h fields [] = ok []
identities h fields (row ∷ rows) = do
  known ← identity fields row []
  rest ← identities h fields rows
  ok (h.canonical known ∷ rest)

unfoldable pub derive_idempotency_key :
    Hashing → String → String → Rows → List String → Result String
unfolding identities sort_by
derive_idempotency_key h pipeline_name identifier rows fields =
    identities h (sort_by text_le fields) rows >>= λ found.
    ok (h.digest identifier pipeline_name (sort_by text_le found))
