-- ===== src/Base/Texts.antt =====
-- Messages: f-strings and `str.join`, and the order of texts that `sorted` and `ORDER BY` use.
pub mod Order
use Prim.Native.Nat.{Ordering}
use Prim.Native.String.{String, compare, ◌++◌ as text_append}
use mathlib.Core.Bool.{Bool, true, false}
use mathlib.Core.List.{List, [], ◌∷◌}

-- An f-string, as the list of its pieces.
abbrev pub concat : List String → String
concat [] = ""
concat (s ∷ ss) = text_append s (concat ss)

join_rest : String → List String → String
join_rest sep [] = ""
join_rest sep (s ∷ ss) = concat (sep ∷ s ∷ join_rest sep ss ∷ [])

-- `sep.join(names)`.
unfoldable pub join : String → List String → String
unfolding join_rest
join sep [] = ""
join sep (s ∷ ss) = concat (s ∷ join_rest sep ss ∷ [])

abbrev pub not_gt : Ordering → Bool
not_gt Ordering.gt = false
not_gt _ = true

-- `s <= t`: by code points, which is the order of the bytes of UTF-8 too.
abbrev pub text_le : String → String → Bool
text_le s t = not_gt (compare s t)
