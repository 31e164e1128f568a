-- ===== src/Base/Sort/Unique.antt =====
-- A sort by a linear order forgets the order of its input.
use mathlib.Core.Path.{◌≡◌}
use mathlib.Core.Logic.{◌⊎◌}
use mathlib.Core.Bool.{Bool, true}
use mathlib.Core.List.{List, [], ◌∷◌}
use native.Mathlib.Omega.{arith}
use nexolith.Base.Sort.{insert_by, sort_by}

module _ {ℓ} {A : Type ℓ} (le : A → A → Bool)
    (total : (x y : A) → (le x y ≡ true) ⊎ (le y x ≡ true))
    (trans : (x y z : A) → le x y ≡ true → le y z ≡ true → le x z ≡ true)
    (antisym : (x y : A) → le x y ≡ true → le y x ≡ true → x ≡ y) where
  insert_by-insert_by :
      (x y : A) (zs : List A)
      → insert_by le x (insert_by le y zs) ≡ insert_by le y (insert_by le x zs)
  unfolding insert_by
  insert_by-insert_by x y [] = ground (arith, total x y, antisym x y)
  insert_by-insert_by x y (z ∷ zs) = ground (
    arith,
    total x y,
    antisym x y,
    trans x y z,
    trans y x z,
    total x z,
    total y z,
    insert_by-insert_by x y zs,
  )

  pub sort_by-swap : (x y : A) (zs : List A) → sort_by le (x ∷ y ∷ zs) ≡ sort_by le (y ∷ x ∷ zs)
  unfolding sort_by
  sort_by-swap x y zs = insert_by-insert_by x y (sort_by le zs)
