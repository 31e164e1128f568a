-- ===== src/Base/Sort.antt =====
-- `sorted`, `list.sort` and `ORDER BY`: a stable sort by a Boolean order.
pub mod Unique
use mathlib.Core.Path.{◌≡◌, refl, ◌∙◌, ap}
use mathlib.Core.Logic.{◌⊎◌, ◌↔◌, inl, inr}
use mathlib.Core.Bool.{Bool, true, ◌||◌}
use mathlib.Core.Option.{Option, none, some}
use mathlib.Core.List.{List, [], ◌∷◌, Perm}
use mathlib.Core.List.Perm
use native.Mathlib.Omega.{arith}
use nexolith.Base.Tests.{if◌then◌else◌, Bool-cases}
use nexolith.Base.Members.{In}
use nexolith.Base.Lists.{All, All-map, head?, any}

module _ {ℓ} {A : Type ℓ} where
  unfoldable pub insert_by : (A → A → Bool) → A → List A → List A
  insert_by le x [] = x ∷ []
  insert_by le x (y ∷ ys) = let rest = insert_by le x ys in if le x y then x ∷ y ∷ ys else y ∷ rest

  unfoldable pub sort_by : (A → A → Bool) → List A → List A
  unfolding insert_by
  sort_by le [] = []
  sort_by le (x ∷ xs) = insert_by le x (sort_by le xs)

  -- Each element is in order with all that follow it.
  abbrev pub IsSorted : (A → A → Bool) → List A → Type 0
  IsSorted le [] = Unit
  IsSorted le (x ∷ xs) = All (λ y. le x y ≡ true) xs × IsSorted le xs

  insert_by-perm : (le : A → A → Bool) (x : A) (xs : List A) → Perm (insert_by le x xs) (x ∷ xs)
  unfolding insert_by
  insert_by-perm le x [] = Perm.refl _
  insert_by-perm le x (y ∷ ys) = elim (Bool-cases (le x y)) [
    | inl e ↦ rw e (Perm.refl _)
    | inr e ↦ rw e (Perm.trans (Perm.cons y (insert_by-perm le x ys)) (Perm.swap x y ys))
  ]

  pub sort_by-perm : (le : A → A → Bool) (xs : List A) → Perm (sort_by le xs) xs
  unfolding sort_by
  sort_by-perm le [] = Perm.refl _
  sort_by-perm le (x ∷ xs) =
      Perm.trans (insert_by-perm le x (sort_by le xs)) (Perm.cons x (sort_by-perm le xs))

module _ {ℓ κ} {A : Type ℓ} (P : A → Type κ) (le : A → A → Bool) where
  All-insert_by : (x : A) (xs : List A) → P x → All P xs → All P (insert_by le x xs)
  unfolding insert_by
  All-insert_by x [] p h = (p, tt)
  All-insert_by x (y ∷ ys) p h = elim (Bool-cases (le x y)) [
    | inl e ↦ rw e (p, h)
    | inr e ↦ rw e (h.0, All-insert_by x ys p h.1)
  ]

  pub All-sort_by : (xs : List A) → All P xs → All P (sort_by le xs)
  unfolding sort_by
  All-sort_by [] h = tt
  All-sort_by (x ∷ xs) h = All-insert_by x (sort_by le xs) h.0 (All-sort_by xs h.1)

-- The row that an `ORDER BY … LIMIT 1` keeps.
abbrev pub pick {ℓ} : {A : Type ℓ} → (A → A → Bool) → A → Option A → A
pick le x none = x
pick le x (some y) = if le x y then x else y

pub head?-sort_by {ℓ} :
    {A : Type ℓ} (le : A → A → Bool) (x : A) (xs : List A)
    → head? (sort_by le (x ∷ xs)) ≡ some (pick le x (head? (sort_by le xs)))
unfolding sort_by insert_by
head?-sort_by le x xs = go (sort_by le xs)
  where
    go : (ys : List _) → head? (insert_by le x ys) ≡ some (pick le x (head? ys))
    go [] = refl
    go (y ∷ ys) = ground arith

module _ {ℓ} {A : Type ℓ} (le : A → A → Bool)
    (total : (x y : A) → (le x y ≡ true) ⊎ (le y x ≡ true))
    (trans : (x y z : A) → le x y ≡ true → le y z ≡ true → le x z ≡ true) where
  insert_by-IsSorted : (x : A) (xs : List A) → IsSorted le xs → IsSorted le (insert_by le x xs)
  unfolding insert_by
  insert_by-IsSorted x [] h = (tt, tt)
  insert_by-IsSorted x (y ∷ ys) h = elim (Bool-cases (le x y)) [
    | inl e ↦ rw e ((e, All-map _ _ (λ z yz. trans x y z e yz) ys h.0), h)
    | inr e ↦ rw e (
      All-insert_by (λ z. le y z ≡ true) le x ys (ground (arith, total x y)) h.0,
      insert_by-IsSorted x ys h.1,
    )
  ]

  pub sort_by-IsSorted : (xs : List A) → IsSorted le (sort_by le xs)
  unfolding sort_by
  sort_by-IsSorted [] = tt
  sort_by-IsSorted (x ∷ xs) = insert_by-IsSorted x (sort_by le xs) (sort_by-IsSorted xs)

-- Sorting keeps what a query asks of some row.
any-insert_by {ℓ} :
    {A : Type ℓ} (p : A → Bool) (le : A → A → Bool) (x : A) (xs : List A)
    → any p (insert_by le x xs) ≡ p x || any p xs
unfolding insert_by
any-insert_by p le x [] = refl
any-insert_by p le x (y ∷ ys) = ground (arith, any-insert_by p le x ys)

pub any-sort_by {ℓ} :
    {A : Type ℓ} (p : A → Bool) (le : A → A → Bool) (xs : List A) → any p (sort_by le xs) ≡ any p xs
unfolding sort_by
any-sort_by p le [] = refl
any-sort_by p le (x ∷ xs) =
    any-insert_by p le x (sort_by le xs) ∙ ap (λ b. p x || b) (any-sort_by p le xs)

module _ {A : Type 0} (le : A → A → Bool) where
  In-insert_by : (y x : A) (xs : List A) → In y (insert_by le x xs) ↔ In y (x ∷ xs)
  unfolding insert_by
  In-insert_by y x [] = (λ h. h, λ h. h)
  In-insert_by y x (z ∷ zs) = elim (Bool-cases (le x z)) [
    | inl e ↦ rw e (λ h. h, λ h. h)
    | inr e ↦ rw e (swap (In-insert_by y x zs).0, back (In-insert_by y x zs).1)
  ]
    where
      swap :
          (In y (insert_by le x zs) → In y (x ∷ zs))
          → In y (z ∷ insert_by le x zs)
          → In y (x ∷ z ∷ zs)
      swap f (inl p) = inr (inl p)
      swap f (inr m) = elim (f m) [ inl p ↦ inl p | inr k ↦ inr (inr k) ]

      back :
          (In y (x ∷ zs) → In y (insert_by le x zs))
          → In y (x ∷ z ∷ zs)
          → In y (z ∷ insert_by le x zs)
      back f (inl p) = inr (f (inl p))
      back f (inr (inl p)) = inl p
      back f (inr (inr m)) = inr (f (inr m))

  -- Sorting keeps the elements.
  pub In-sort_by : (y : A) (xs : List A) → In y (sort_by le xs) ↔ In y xs
  unfolding sort_by
  In-sort_by y [] = (λ h. h, λ h. h)
  In-sort_by y (x ∷ xs) =
      let step = In-insert_by y x (sort_by le xs) in
      let rest = In-sort_by y xs in
      (
        λ h. widen (sort_by le xs) xs rest.0 (step.0 h),
        λ h. step.1 (widen xs (sort_by le xs) rest.1 h),
      )
    where
      widen : (us vs : List A) → (In y us → In y vs) → In y (x ∷ us) → In y (x ∷ vs)
      widen us vs f (inl p) = inl p
      widen us vs f (inr m) = inr (f m)
