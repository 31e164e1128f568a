-- ===== src/Scheduler/Interval.antt =====
-- src/nexolith/scheduler/interval.py. Texts are read as lists of code points.

use Prim.Native.Char.{code}
pub mod Laws
use nexolith.Base.{
  ℕ, zero, suc, ◌+◌, ◌*◌, String, List, [], ◌∷◌, Bool, Option, none, some, ltb, ◌==◌, nat_eq,
  if◌then◌else◌, concat, Result, ok, err, configuration_error, value_error, overflow_error,
}

abbrev pub codes : String → List ℕ
codes String.[] = []
codes (String.◌∷◌ c s) = code c ∷ codes s

-- What Python knows of Unicode: the value of a decimal digit (`\d`, `int`), and white space.
pub record Unicode : Type 0 where
  pub decimal : ℕ → Option ℕ
  pub is_space : ℕ → Bool

-- `_UNIT_SECONDS`.
abbrev pub unit_seconds : ℕ → Option ℕ
unit_seconds c =
    if c == b's'
    then some 1
    else if c == b'm'
    then some 60
    else if c == b'h'
    then some 3600
    else if c == b'd'
    then some 86400
    else none

-- The largest `timedelta` has 999999999 days, and 86399 seconds of one more.
abbrev pub max_seconds : ℕ
max_seconds = 999999999 * 86400 + 86399

-- `int` refuses a text of more digits.
abbrev pub max_digits : ℕ
max_digits = 4300

module _ (u : Unicode) where
  unfoldable pub lstrip : List ℕ → List ℕ
  lstrip [] = []
  lstrip (c ∷ cs) = let rest = lstrip cs in if u.is_space c then rest else c ∷ cs

  -- A character goes if it is a space and all that follow it went.
  unfoldable pub rstrip : List ℕ → List ℕ
  rstrip [] = []
  rstrip (c ∷ cs) = elim (rstrip cs) [
    | [] ↦ if u.is_space c then [] else c ∷ []
    | d ∷ ds ↦ c ∷ d ∷ ds
  ]

  -- The unit, if it is the last character and some digit stands before it.
  unfoldable pub match_unit : ℕ → ℕ → ℕ → List ℕ → Option (ℕ × ℕ × ℕ)
  match_unit zero amount c cs = none
  match_unit (suc k) amount c [] = elim (unit_seconds c) [
    | none ↦ none
    | some unit ↦ some (suc k, amount, unit)
  ]
  match_unit (suc k) amount c (d ∷ ds) = none

  -- `^(\d+)(s|m|h|d)$` behind `digits` matched digits of the value `amount`: both groups, as the
  -- number of digits, their value and the seconds of the unit.
  unfoldable pub match_interval : ℕ → ℕ → List ℕ → Option (ℕ × ℕ × ℕ)
  match_interval digits amount [] = none
  match_interval digits amount (c ∷ cs) = elim (u.decimal c) [
    | some v ↦ match_interval (suc digits) (amount * 10 + v) cs
    | none ↦ match_unit digits amount c cs
  ]

  invalid_schedule : String → String
  invalid_schedule schedule = concat (
      "Invalid schedule '" ∷ schedule ∷ "'. Expected an interval like '30s', "
      ∷ "'5m', '2h', or '1d' (seconds/minutes/hours/days)." ∷ [])

  zero_schedule : String → String
  zero_schedule schedule =
      concat ("Invalid schedule '" ∷ schedule ∷ "'. The interval amount must be positive." ∷ [])

  -- `int(match.group(1))`, the test for zero, and `timedelta(seconds=…)`.
  unfoldable pub to_timedelta : String → Option (ℕ × ℕ × ℕ) → Result ℕ
  unfolding invalid_schedule zero_schedule
  to_timedelta schedule none = err (configuration_error (invalid_schedule schedule))
  to_timedelta schedule (some (digits, amount, unit)) =
      if ltb max_digits digits
      then err value_error
      else if amount == 0
      then err (configuration_error (zero_schedule schedule))
      else if ltb max_seconds (amount * unit)
      then err overflow_error
      else ok (amount * unit)

  -- The interval in seconds.
  unfoldable pub parse_interval : String → Result ℕ
  unfolding lstrip rstrip match_interval to_timedelta
  parse_interval schedule =
      to_timedelta schedule (match_interval 0 0 (rstrip (lstrip (codes schedule))))
