-- ===== src/Base/Texts/Order.antt =====
-- The order of texts is total and transitive.
use Prim.Native.String.{String}
use Prim.Native.String.compare
use mathlib.Core.Path.{◌≡◌, refl}
use mathlib.Core.Logic.{◌⊎◌}
use mathlib.Core.Bool.{true}
use native.Mathlib.Omega.{arith}
use text.Mathlib.TextEquality.{eq_iff}
use nexolith.Base.Texts.{text_le}

pub text_le_total : (s t : String) → (text_le s t ≡ true) ⊎ (text_le t s ≡ true)
text_le_total String.[] String.[] = ground (arith, compare.nil-nil)
text_le_total String.[] (String.◌∷◌ d t) = ground (arith, compare.nil-cons d t)
text_le_total (String.◌∷◌ c s) String.[] = ground (arith, compare.nil-cons c s)
text_le_total (String.◌∷◌ c s) (String.◌∷◌ d t) =
    ground (arith, compare.cons-cons c d s t, compare.cons-cons d c t s, text_le_total s t)

pub text_le_trans : (s t u : String) → text_le s t ≡ true → text_le t u ≡ true → text_le s u ≡ true
text_le_trans String.[] t String.[] h k = ground (arith, compare.nil-nil)
text_le_trans String.[] t (String.◌∷◌ e u) h k = ground (arith, compare.nil-cons e u)
text_le_trans (String.◌∷◌ c s) String.[] u h k = ground (arith, compare.cons-nil c s)
text_le_trans (String.◌∷◌ c s) (String.◌∷◌ d t) String.[] h k = ground (arith, compare.cons-nil d t)
text_le_trans (String.◌∷◌ c s) (String.◌∷◌ d t) (String.◌∷◌ e u) h k = ground (
  arith,
  compare.cons-cons c d s t,
  compare.cons-cons d e t u,
  compare.cons-cons c e s u,
  text_le_trans s t u,
)

pub text_le_antisym : (s t : String) → text_le s t ≡ true → text_le t s ≡ true → s ≡ t
text_le_antisym String.[] String.[] h k = refl
text_le_antisym String.[] (String.◌∷◌ d t) h k = absurd (ground (arith, compare.cons-nil d t))
text_le_antisym (String.◌∷◌ c s) String.[] h k = absurd (ground (arith, compare.cons-nil c s))
text_le_antisym (String.◌∷◌ c s) (String.◌∷◌ d t) h k = ground (
  arith,
  compare.cons-cons c d s t,
  compare.cons-cons d c t s,
  text_le_antisym s t,
  eq_iff s t,
  eq_iff (String.◌∷◌ c s) (String.◌∷◌ d t),
)
