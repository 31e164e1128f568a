-- ===== src/Nexofunctions/Names.antt =====
-- src/nexolith/nexofunctions/contracts.py and src/nexolith/nexoactions/contracts.py: names, and the
-- identifiers that they are written as.
use Prim.Native.Char.{code}
use Prim.Native.String.{◌++◌ as text_append}
use nexolith.Base.{
  ℕ, zero, suc, String, Bool, true, false, ◌&&◌, ◌||◌, Option, none, some, ◌==◌, if◌then◌else◌,
  Result, ok, err, Error, string_eq, nat_eq, leb,
}

abbrev pub in_range : ℕ → ℕ → ℕ → Bool
in_range low high c = leb low c && leb c high

abbrev pub is_lower : ℕ → Bool
is_lower c = in_range b'a' b'z' c

-- `[a-z0-9_]`.
abbrev pub is_name_code : ℕ → Bool
is_name_code c = is_lower c || in_range b'0' b'9' c || c == b'_'

-- `[a-z0-9_]{0,n}` up to the end.
unfoldable pub matches_rest : ℕ → String → Bool
matches_rest n String.[] = true
matches_rest zero (String.◌∷◌ c s) = false
matches_rest (suc n) (String.◌∷◌ c s) = is_name_code (code c) && matches_rest n s

-- `FUNCTION_NAME_PATTERN.fullmatch`, which is `ACTION_NAME_PATTERN.fullmatch` too.
unfoldable pub is_name : String → Bool
unfolding matches_rest
is_name String.[] = false
is_name (String.◌∷◌ c s) = is_lower (code c) && matches_rest 62 s

-- `s.startswith(prefix)` with `s.removeprefix(prefix)`.
unfoldable pub after_prefix : String → String → Option String
after_prefix String.[] s = some s
after_prefix (String.◌∷◌ c p) String.[] = none
after_prefix (String.◌∷◌ c p) (String.◌∷◌ d s) =
    let rest = after_prefix p s in if code c == code d then rest else none

abbrev pub validated : String → Result String
validated name = if is_name name then ok name else err Error.value_error

unfoldable pub name_from_identifier : String → String → Result String
unfolding after_prefix is_name
name_from_identifier prefix identifier = elim (after_prefix prefix identifier) [
  | none ↦ err Error.value_error
  | some name ↦ validated name
]

unfoldable pub function_name_from_identifier : String → Result String
unfolding name_from_identifier
function_name_from_identifier identifier = name_from_identifier "nexofunction." identifier

unfoldable pub action_name_from_identifier : String → Result String
unfolding name_from_identifier
action_name_from_identifier identifier = name_from_identifier "nexoaction." identifier

-- `FUNCTION_IDENTIFIER_PREFIX + self.name`.
unfoldable pub function_identifier : String → String
function_identifier name = text_append "nexofunction." name
