-- ===== src/Base/Numbers.antt =====
-- `str(n)` of a natural number.
use Prim.Native.Nat.{ℕ, zero, suc, ◌/◌, ◌%◌}
use Prim.Native.String.{String}
use mathlib.Core.List.{List, [], ◌∷◌}
use nexolith.Base.Tests.{ltb, if◌then◌else◌}
use nexolith.Base.Texts.{concat}

pick_digit : List String → ℕ → String
pick_digit [] n = ""
pick_digit (d ∷ ds) zero = d
pick_digit (d ∷ ds) (suc n) = pick_digit ds n

digit : ℕ → String
unfolding pick_digit
digit n = pick_digit ("0" ∷ "1" ∷ "2" ∷ "3" ∷ "4" ∷ "5" ∷ "6" ∷ "7" ∷ "8" ∷ "9" ∷ []) n

-- A number has at most as many digits as it counts, so its successor is enough fuel.
show_digits : ℕ → ℕ → String
unfolding digit
show_digits zero n = ""
show_digits (suc fuel) n =
    let rest = show_digits fuel (n / 10) in
    if ltb n 10 then digit n else concat (rest ∷ digit (n % 10) ∷ [])

unfoldable pub show_nat : ℕ → String
unfolding show_digits
show_nat n = show_digits (suc n) n
