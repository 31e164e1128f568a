-- ===== src/Dag/Cycles/Graph.antt =====
-- The graph of the dependencies, and walks in it.
use nexolith.Base.{
  String, List, [], ◌∷◌, ◌++◌, true, some, ◌≡◌, inl, inr, contains, ◌==◌, string_eq, arith, eq_iff,
  Bool-cases, Option-cases, In, subst, ap, sym, ◌∙◌,
}
use nexolith.Dag.Models.{DagTaskConfig, names}
use nexolith.Dag.Cycles.{by_name, path_from}

-- The task called `a` depends on `b`.
abbrev pub Edge : List DagTaskConfig → String → String → Type 0
Edge tasks a b = (t : DagTaskConfig) × (by_name a tasks ≡ some t) × (contains t.depends_on b ≡ true)

-- Each name of the list depends on the next one.
abbrev pub IsWalk : List DagTaskConfig → List String → Type 0
IsWalk tasks [] = Unit
IsWalk tasks (a ∷ []) = Unit
IsWalk tasks (a ∷ b ∷ r) = Edge tasks a b × IsWalk tasks (b ∷ r)

-- A walk from a name back to it.
pub record IsCycle (tasks : List DagTaskConfig) (c : List String) : Type 0 where
  pub start : String
  pub between : List String
  pub closed : c ≡ (start ∷ between) ++ start ∷ []
  pub walk : IsWalk tasks c

module _ (tasks : List DagTaskConfig) where
  pub IsWalk-snoc :
      (xs : List String) (a b : String)
      → IsWalk tasks (xs ++ a ∷ [])
      → Edge tasks a b
      → IsWalk tasks ((xs ++ a ∷ []) ++ b ∷ [])
  IsWalk-snoc [] a b w e = (e, tt)
  IsWalk-snoc (x ∷ []) a b w e = (w.0, (e, tt))
  IsWalk-snoc (x ∷ y ∷ xs) a b w e = (w.0, IsWalk-snoc (y ∷ xs) a b w.1 e)

  IsWalk-tail : (x : String) (xs : List String) → IsWalk tasks (x ∷ xs) → IsWalk tasks xs
  IsWalk-tail x [] w = tt
  IsWalk-tail x (y ∷ ys) w = w.1

  IsWalk-path_from :
      (d : String) (path : List String)
      → IsWalk tasks (path ++ d ∷ [])
      → IsWalk tasks (path_from d path ++ d ∷ [])
  unfolding path_from
  IsWalk-path_from d [] w = w
  IsWalk-path_from d (x ∷ xs) w = elim (Bool-cases (x == d)) [
    | inl e ↦ rw e w
    | inr e ↦ rw e (IsWalk-path_from d xs (IsWalk-tail x (xs ++ d ∷ []) w))
  ]

  path_from_starts :
      (d : String) (path : List String)
      → contains path d ≡ true
      → (rest : List String) × (path_from d path ≡ d ∷ rest)
  unfolding path_from
  path_from_starts d [] h = absurd (cc)
  path_from_starts d (x ∷ xs) h = elim (Bool-cases (x == d)) [
    | inl e ↦ (xs, ground (arith, eq_iff x d))
    | inr e ↦ let (rest, f) = path_from_starts d xs (ground arith) in (rest, ground arith)
  ]

  pub path_from-IsCycle :
      (d : String) (path : List String)
      → contains path d ≡ true
      → IsWalk tasks (path ++ d ∷ [])
      → IsCycle tasks (path_from d path ++ d ∷ [])
  path_from-IsCycle d path h w =
      let (rest, e) = path_from_starts d path h in
      record {
        start = d;
        between = rest;
        closed = ap (λ p. p ++ d ∷ []) e;
        walk = IsWalk-path_from d path w;
      }

-- Distinct names: a task is found by its name, and what is found has the name.
pub by_name-eq-some :
    (tasks : List DagTaskConfig) (n : String) (t : DagTaskConfig)
    → by_name n tasks ≡ some t
    → In t tasks × (t.name ≡ n)
unfolding by_name
by_name-eq-some [] n t h = absurd (cc)
by_name-eq-some (u ∷ us) n t h = elim (Option-cases (by_name n us)) [
  | inl e ↦ (inl (ground arith), ground (arith, eq_iff u.name n))
  | inr (v, e) ↦
      let same : v ≡ t = ground arith in
      let (m, named) = by_name-eq-some us n v e in
      (inr (subst (λ x. In x us) same m), ap (λ x. x.name) (sym same) ∙ named)
]

pub by_name_known :
    (tasks : List DagTaskConfig) (n : String)
    → contains (names tasks) n ≡ true
    → (t : DagTaskConfig) × (by_name n tasks ≡ some t)
unfolding by_name
by_name_known [] n h = absurd (cc)
by_name_known (u ∷ us) n h = elim (Option-cases (by_name n us)) [
  | inl e ↦ elim (Bool-cases (contains (names us) n)) [
    | inl m ↦ let (t, f) = by_name_known us n m in absurd (cc)
    | inr m ↦ (u, ground arith)
  ]
  | inr (v, e) ↦ (v, ground arith)
]
