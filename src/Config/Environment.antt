-- ===== src/Config/Environment.antt =====
-- src/nexolith/config/loader.py: `ENV_PATTERN`, `_resolve_string` and `_resolve_environment`.
pub mod Printed
use Prim.Native.Char.{Char, code}
use Prim.Native.String.{◌++◌ as text_append, count}
use nexolith.Base.{
  ℕ, zero, suc, String, Bool, false, ◌&&◌, ◌||◌, Option, none, some, List, [], ◌∷◌, ◌==◌,
  if◌then◌else◌, Result, ok, err, Error, string_eq, nat_eq, ◌>>=◌, ◌>>◌, concat, join, text_le,
}
use nexolith.Dag.Models.{distinct}
use nexolith.Base.Sort.{sort_by}
use nexolith.Nexofunctions.Names.{is_lower, in_range}
use nexolith.Types.{Scalar}

abbrev pub is_letter : ℕ → Bool
is_letter c = is_lower c || in_range b'A' b'Z' c || c == b'_'

-- `[A-Za-z0-9_]`.
abbrev pub is_word : ℕ → Bool
is_word c = is_letter c || in_range b'0' b'9' c

-- The longest run of word characters, and what follows it.
unfoldable pub span_word : String → String × String
span_word String.[] = ("", "")
span_word (String.◌∷◌ c s) =
    let rest = span_word s in
    if is_word (code c) then (String.◌∷◌ c rest.0, rest.1) else ("", String.◌∷◌ c s)

abbrev starts_with_letter : String → Bool
starts_with_letter String.[] = false
starts_with_letter (String.◌∷◌ c s) = is_letter (code c)

abbrev pub closed_by_brace : String → String → Option (String × String)
closed_by_brace name String.[] = none
closed_by_brace name (String.◌∷◌ c s) =
    if starts_with_letter name && code c == b'}' then some (name, s) else none

-- The match behind a `$`: the name, and what follows the match. No word character is a brace, so the
-- run of them need not be cut short.
unfoldable pub match_name : String → Option (String × String)
unfolding span_word
match_name String.[] = none
match_name (String.◌∷◌ c s) =
    let (name, rest) = span_word s in
    let closed : Option (String × String) = closed_by_brace name rest in
    if code c == b'{' then closed else none

-- A text as the pattern reads it.
pub data Piece : Type 0 where
  plain : Char → Piece
  variable : String → Piece

abbrev pub next_piece : Char → String → Option (String × String) → Piece × String
next_piece c s none = (Piece.plain c, s)
next_piece c s (some (name, rest)) = (Piece.variable name, rest)

-- `ENV_PATTERN.sub` reads from left to right. Each round reads a character at least.
unfoldable pub read_pieces : ℕ → String → List Piece
unfolding match_name
read_pieces zero s = []
read_pieces (suc fuel) String.[] = []
read_pieces (suc fuel) (String.◌∷◌ c s) =
    let (piece, rest) = next_piece c s (if code c == b'$' then match_name s else none) in
    piece ∷ read_pieces fuel rest

unfoldable pub pieces : String → List Piece
unfolding read_pieces
pieces s = read_pieces (count s) s

-- `os.getenv`.
abbrev pub Environment : Type 0
Environment = String → Option String

module _ (env : Environment) where
  unfoldable pub missing_variables : List Piece → List String
  missing_variables [] = []
  missing_variables (Piece.plain c ∷ ps) = missing_variables ps
  missing_variables (Piece.variable name ∷ ps) =
      let rest = missing_variables ps in elim (env name) [ none ↦ name ∷ rest | some value ↦ rest ]

  unfoldable pub filled : List Piece → String
  filled [] = ""
  filled (Piece.plain c ∷ ps) = String.◌∷◌ c (filled ps)
  filled (Piece.variable name ∷ ps) =
      let rest = filled ps in elim (env name) [ none ↦ rest | some value ↦ text_append value rest ]

  abbrev pub missing_environment : List String → Error
  missing_environment names = Error.configuration_error (
      concat
        ("Missing environment variable(s): " ∷ join ", " (sort_by text_le (distinct names)) ∷ []))

  unfoldable pub resolve_pieces : List Piece → Result String
  unfolding missing_variables filled
  resolve_pieces ps = elim (missing_variables ps) [
    | [] ↦ ok (filled ps)
    | n ∷ ns ↦ err (missing_environment (n ∷ ns))
  ]

  unfoldable pub resolve_string : String → Result String
  unfolding pieces resolve_pieces
  resolve_string s = resolve_pieces (pieces s)

-- What `yaml.safe_load` gives.
mutual
  pub data Node : Type 0 where
    text : String → Node
    sequence : Nodes → Node
    mapping : Entries → Node
    -- A number, a Boolean, a date or null.
    other : Scalar → Node

  pub data Nodes : Type 0 where
    no_nodes : Nodes
    node_and : Node → Nodes → Nodes

  pub data Entries : Type 0 where
    no_entries : Entries
    entry_and : String → Node → Entries → Entries

module _ (env : Environment) where
  unfoldable mutual
    unfolding resolve_string

    pub resolve_environment : Node → Result Node
    resolve_environment (text s) = resolve_string env s >>= (λ t. ok (text t))
    resolve_environment (sequence nodes) = resolve_nodes nodes >>= (λ ns. ok (sequence ns))
    resolve_environment (mapping entries) = resolve_entries entries >>= (λ es. ok (mapping es))
    resolve_environment (other v) = ok (other v)

    pub resolve_nodes : Nodes → Result Nodes
    resolve_nodes no_nodes = ok no_nodes
    resolve_nodes (node_and n ns) =
        let rest = resolve_nodes ns in
        resolve_environment n >>= (λ m. rest >>= (λ ms. ok (node_and m ms)))

    pub resolve_entries : Entries → Result Entries
    resolve_entries no_entries = ok no_entries
    resolve_entries (entry_and key n es) =
        let rest = resolve_entries es in
        resolve_environment n >>= (λ m. rest >>= (λ ms. ok (entry_and key m ms)))
