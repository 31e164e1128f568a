-- ===== src/Config/Environment/Printed.antt =====
-- A text that is written with references is read back as what was written.
use Prim.Native.Char.{code}
use Prim.Native.String.{count}
use Prim.Native.String.count
use nexolith.Base.{String, ◌≡◌, Bool, true, false, ◌&&◌, List, [], ◌∷◌, ◌==◌, string_eq, nat_eq}
use nexolith.Config.Environment.{Piece, is_word, is_letter, Environment}

-- A text in front of another.
abbrev pub prepend : String → String → String
prepend String.[] t = t
prepend (String.◌∷◌ c s) t = String.◌∷◌ c (prepend s t)

abbrev brace : String → String
brace t = prepend "}" t

abbrev pub print_piece : Piece → String → String
print_piece (Piece.plain c) t = String.◌∷◌ c t
print_piece (Piece.variable name) t = prepend "${" (prepend name (brace t))

-- The text that the pieces are written as.
abbrev pub print : List Piece → String
print [] = ""
print (p ∷ ps) = print_piece p (print ps)

-- `[A-Za-z_][A-Za-z0-9_]*`.
abbrev pub all_word : String → Bool
all_word String.[] = true
all_word (String.◌∷◌ c s) = is_word (code c) && all_word s

abbrev pub is_variable : String → Bool
is_variable String.[] = false
is_variable (String.◌∷◌ c s) = is_letter (code c) && all_word s

-- A character that is no dollar sign, or a reference to a variable.
abbrev pub IsPrintable : Piece → Type 0
IsPrintable (Piece.plain c) = (code c == b'$') ≡ false
IsPrintable (Piece.variable name) = is_variable name ≡ true
