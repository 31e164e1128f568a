-- ===== src/Types.antt =====
-- src/nexolith/types.py: scalars, and the exact decimals that stand for floating-point numbers.
use nexolith.Base.{
  ℕ, zero, suc, ◌+◌, ◌*◌, ◌^◌, String, ◌≡◌, Bool, false, not, ◌&&◌, ◌||◌, Option, none, some, List,
  [], ◌∷◌, arith, eq_iff, ◌==◌, if◌then◌else◌, string_eq, nat_eq, ltb, leb,
}

-- A finite float is a decimal: `digits / 10 ^ scale`. Products are exact; rounding is not modelled.
pub record Decimal : Type 0 where
  pub negative : Bool
  pub digits : ℕ
  pub scale : ℕ

abbrev pub decimal : ℕ → ℕ → Decimal
decimal digits scale = record { negative = false; digits = digits; scale = scale }

unfoldable pub times : Decimal → Decimal → Decimal
times a b = record {
  negative = (a.negative && not b.negative) || (not a.negative && b.negative);
  digits = a.digits * b.digits;
  scale = a.scale + b.scale;
}

unfoldable pub power : Decimal → ℕ → Decimal
unfolding times
power a zero = decimal 1 0
power a (suc n) = times a (power a n)

-- `x > 0`.
unfoldable pub is_positive : Decimal → Bool
is_positive a = not a.negative && ltb 0 a.digits

-- `x >= 0.0` and `x >= 1.0`.
unfoldable pub at_least_zero : Decimal → Bool
at_least_zero a = not a.negative || a.digits == 0

unfoldable pub at_least_one : Decimal → Bool
at_least_one a = not a.negative && leb (10 ^ a.scale) a.digits

pub data Scalar : Type 0 where
  null : Scalar
  boolean : Bool → Scalar
  integer : (negative : Bool) → ℕ → Scalar
  floating : Decimal → Scalar
  -- The floats that are no numbers: an infinity or NaN.
  not_finite : Scalar
  string : String → Scalar

abbrev pub Parameters : Type 0
Parameters = List (String × Scalar)

-- A dictionary, in the order of its keys' insertion.
abbrev pub Row : Type 0
Row = List (String × Scalar)

abbrev pub Rows : Type 0
Rows = List Row

-- `row.get(key)`, with the outer `none` for a missing key.
abbrev pub field_of {ℓ} : {A : Type ℓ} → String → List (String × A) → Option A
field_of key [] = none
field_of key ((k, v) ∷ rest) = if k == key then some v else field_of key rest

-- `d[key] = value`.
abbrev pub assign {ℓ} : {A : Type ℓ} → String → A → List (String × A) → List (String × A)
assign key value [] = (key, value) ∷ []
assign key value ((k, v) ∷ rest) =
    let later = assign key value rest in if k == key then (k, value) ∷ rest else (k, v) ∷ later

-- `a < b` of two decimals.
unfoldable pub decimal_lt : Decimal → Decimal → Bool
decimal_lt a b =
    let left = a.digits * 10 ^ b.scale in
    let right = b.digits * 10 ^ a.scale in
    if a.negative
    then (if b.negative then ltb right left else ltb 0 (left + right))
    else (if b.negative then false else ltb left right)

unfoldable pub decimal_eq : Decimal → Decimal → Bool
unfolding decimal_lt
decimal_eq a b = not (decimal_lt a b) && not (decimal_lt b a)

pub field_of-assign {ℓ} :
    {A : Type ℓ} (c k : String) (v : A) (d : List (String × A))
    → field_of c (assign k v d) ≡ (if k == c then some v else field_of c d)
field_of-assign c k v [] = ground arith
field_of-assign c k v ((k', v') ∷ rest) =
    ground (arith, eq_iff k' k, eq_iff k' c, eq_iff k c, field_of-assign c k v rest)
