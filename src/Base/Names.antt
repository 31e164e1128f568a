-- ===== src/Base/Names.antt =====
-- Sets and lists of names.
use Prim.Native.Nat.{suc, ◌≤◌}
use Prim.Native.String.{String}
use mathlib.Core.Path.{◌≡◌, refl}
use mathlib.Core.Bool.{Bool, true, false, ◌&&◌, ◌||◌}
use mathlib.Core.List.{List, [], ◌∷◌, ◌++◌}
use native.Mathlib.Omega.{arith}
use text.Mathlib.TextEquality.{eq_iff}
use nexolith.Base.Tests.{◌==◌, string_eq, if◌then◌else◌}
use nexolith.Base.Lists.{length}

-- `name in names`.
abbrev pub contains : List String → String → Bool
contains [] n = false
contains (x ∷ xs) n = x == n || contains xs n

-- `set(a) <= set(b)`.
abbrev pub subset : List String → List String → Bool
subset [] ys = true
subset (x ∷ xs) ys = contains ys x && subset xs ys

-- No name stands twice.
abbrev pub Nodup : List String → Type 0
Nodup [] = Unit
Nodup (x ∷ xs) = (contains xs x ≡ false) × Nodup xs

pub contains-append :
    (xs ys : List String) (n : String) → contains (xs ++ ys) n ≡ contains xs n || contains ys n
contains-append [] ys n = refl
contains-append (x ∷ xs) ys n = ground (arith, contains-append xs ys n)

pub subset-contains :
    (xs ys : List String) (n : String)
    → subset xs ys ≡ true
    → contains xs n ≡ true
    → contains ys n ≡ true
subset-contains [] ys n h m = cc
subset-contains (x ∷ xs) ys n h m = ground (arith, subset-contains xs ys n, eq_iff x n)

pub contains-subset :
    (xs ys : List String)
    → ((n : String) → contains xs n ≡ true → contains ys n ≡ true)
    → subset xs ys ≡ true
contains-subset [] ys h = refl
contains-subset (x ∷ xs) ys h =
    ground (arith, h x, eq_iff x x, contains-subset xs ys (λ n m. h n (ground arith)))

-- `names` with every `n` dropped.
abbrev pub erase : String → List String → List String
erase n [] = []
erase n (x ∷ xs) = let rest = erase n xs in if x == n then rest else x ∷ rest

pub contains-erase :
    (n m : String) (xs : List String)
    → contains (erase n xs) m ≡ (if n == m then false else contains xs m)
contains-erase n m [] = ground arith
contains-erase n m (x ∷ xs) =
    ground (arith, contains-erase n m xs, eq_iff x n, eq_iff x m, eq_iff n m)

length-erase_le : (n : String) (xs : List String) → length (erase n xs) ≤ length xs
length-erase_le n [] = omega arith
length-erase_le n (x ∷ xs) = ground (arith, length-erase_le n xs)

length-erase :
    (n : String) (xs : List String) → contains xs n ≡ true → suc (length (erase n xs)) ≤ length xs
length-erase n [] h = cc
length-erase n (x ∷ xs) h = ground (arith, length-erase n xs, length-erase_le n xs)

-- Distinct names of a collection are at most as many as the collection.
pub pigeonhole :
    (xs ys : List String)
    → Nodup xs
    → ((n : String) → contains xs n ≡ true → contains ys n ≡ true)
    → length xs ≤ length ys
pigeonhole [] ys d h = omega arith
pigeonhole (x ∷ xs) ys d h = omega (
  arith,
  length-erase x ys (h x (ground (arith, eq_iff x x))),
  pigeonhole xs (erase x ys) d.1
      (λ n m. ground (arith, contains-erase x n ys, h n, eq_iff x n, d.0)),
)
