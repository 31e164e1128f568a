-- ===== src/Base/Members.antt =====
-- Membership by recursion, and what the searches of `Base.Lists` find.
use Prim.Native.String.{String}
use mathlib.Core.Path.{◌≡◌, refl}
use mathlib.Core.Logic.{◌⊎◌, inl, inr}
use mathlib.Core.Bool.{Bool, true, false}
use mathlib.Core.Option.{none, some}
use mathlib.Core.List.{List, [], ◌∷◌, ◌++◌, map}
use native.Mathlib.Omega.{arith}
use text.Mathlib.TextEquality.{eq_iff}
use nexolith.Base.Tests.{Bool-cases}
use nexolith.Base.Lists.{find, All}
use nexolith.Base.Names.{contains, Nodup}

module _ {A : Type 0} where
  abbrev pub In : A → List A → Type 0
  In x [] = ⊥
  In x (y ∷ ys) = (x ≡ y) ⊎ In x ys

  pub In-All {κ} : (P : A → Type κ) (x : A) (xs : List A) → All P xs → In x xs → P x
  In-All P x [] h m = absurd m
  In-All P x (y ∷ ys) h (inl e) = rw e h.0
  In-All P x (y ∷ ys) h (inr m) = In-All P x ys h.1 m

  pub All-In {κ} : (P : A → Type κ) (xs : List A) → ((x : A) → In x xs → P x) → All P xs
  All-In P [] h = tt
  All-In P (x ∷ xs) h = (h x (inl refl), All-In P xs (λ y m. h y (inr m)))

  pub In-append_right : (x : A) (xs ys : List A) → In x ys → In x (xs ++ ys)
  In-append_right x [] ys m = m
  In-append_right x (y ∷ xs) ys m = inr (In-append_right x xs ys m)

  pub In-append_left : (x : A) (xs ys : List A) → In x xs → In x (xs ++ ys)
  In-append_left x [] ys m = absurd m
  In-append_left x (y ∷ xs) ys (inl e) = inl e
  In-append_left x (y ∷ xs) ys (inr m) = inr (In-append_left x xs ys m)

  pub find-eq-some :
      (p : A → Bool) (xs : List A) (x : A) → find p xs ≡ some x → In x xs × (p x ≡ true)
  find-eq-some p [] x h = cc
  find-eq-some p (y ∷ ys) x h = elim (Bool-cases (p y)) [
    | inl e ↦ let same : y ≡ x = ground arith in (inl (cc), rw (← same) e)
    | inr e ↦ let (m, q) = find-eq-some p ys x (ground arith) in (inr m, q)
  ]

  pub find-eq-none : (p : A → Bool) (xs : List A) → find p xs ≡ none → All (λ x. p x ≡ false) xs
  find-eq-none p [] h = tt
  find-eq-none p (y ∷ ys) h = elim (Bool-cases (p y)) [
    | inl e ↦ absurd (ground arith)
    | inr e ↦ (e, find-eq-none p ys (ground arith))
  ]

  pub In-contains :
      (f : A → String) (x : A) (xs : List A) → In x xs → contains (map f xs) (f x) ≡ true
  In-contains f x [] m = absurd m
  In-contains f x (y ∷ ys) (inl e) = ground (arith, eq_iff (f y) (f x))
  In-contains f x (y ∷ ys) (inr m) = ground (arith, In-contains f x ys m)

  pub contains-In :
      (f : A → String) (n : String) (xs : List A)
      → contains (map f xs) n ≡ true
      → (x : A) × In x xs × (f x ≡ n)
  contains-In f n [] h = absurd (cc)
  contains-In f n (y ∷ ys) h = elim (Bool-cases (contains (map f ys) n)) [
    | inl e ↦ let (x, m, named) = contains-In f n ys e in (x, inr m, named)
    | inr e ↦ (y, inl refl, ground (arith, eq_iff (f y) n))
  ]

  -- Distinct keys: a key stands for one element.
  pub In-unique :
      (f : A → String) (x y : A) (xs : List A)
      → Nodup (map f xs)
      → In x xs
      → In y xs
      → f x ≡ f y
      → x ≡ y
  In-unique f x y [] d mx my e = absurd mx
  In-unique f x y (z ∷ zs) d (inl p) (inl q) e = cc
  In-unique f x y (z ∷ zs) d (inl p) (inr n) e = absurd (ground (arith, In-contains f y zs n, d.0))
  In-unique f x y (z ∷ zs) d (inr m) (inl q) e = absurd (ground (arith, In-contains f x zs m, d.0))
  In-unique f x y (z ∷ zs) d (inr m) (inr n) e = In-unique f x y zs d.1 m n e
