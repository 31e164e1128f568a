-- ===== src/Dag/Dependents/Found.antt =====
-- The skipped tasks are those that depend, directly or transitively, on a failed one.
use nexolith.Base.{
  ℕ, zero, suc, ◌+◌, ◌≤◌, String, List, [], ◌∷◌, ◌++◌, Bool, true, false, ◌||◌, length, contains,
  string_eq, ok, ◌≡◌, ◌↔◌, refl, inl, inr, arith, eq_iff, Nodup, pigeonhole, Bool-cases,
  In-contains, find, subset, All, not, none,
}
use nexolith.Dag.Order.Sound.{length-names}
use nexolith.Dag.Order.Complete.{IsKnown}
use nexolith.Dag.Dependents.Affected.{DependsOn, Affected, direct, through, dependents_iff}
use nexolith.Dag.Dependents.Spread.{Spread, spread-Spread}
use nexolith.Dag.Models.{DagTaskConfig, names}
use nexolith.Dag.Dependents.{dependents, search, transitive_dependents, dependencies}

-- What is known of a name: it failed or it was found.
abbrev pub marked : List String → List String → String → Bool
marked failed to_skip n = contains failed n || contains to_skip n

-- What the loop has found, and that what is not in the queue is dealt with.
record Seen (tasks : List DagTaskConfig) (failed to_skip queue : List String) : Type 0 where
  distinct : Nodup to_skip
  sound :
      (n : String)
      → contains to_skip n ≡ true
      → Affected tasks failed n × (contains failed n ≡ false)
  waiting : (n : String) → contains queue n ≡ true → marked failed to_skip n ≡ true
  closed :
      (m n : String)
      → marked failed to_skip m ≡ true
      → contains queue m ≡ false
      → contains (dependents m tasks) n ≡ true
      → marked failed to_skip n ≡ true

module _ (tasks : List DagTaskConfig) (failed : List String) where
  Affected-known : (n : String) → Affected tasks failed n → contains (names tasks) n ≡ true
  Affected-known n (direct n' d f (t, m, named, dep)) =
      rw (← named) (In-contains (λ u. u.name) t tasks m)
  Affected-known n (through n' d a (t, m, named, dep)) =
      rw (← named) (In-contains (λ u. u.name) t tasks m)

  Seen-small :
      (to_skip queue : List String)
      → Seen tasks failed to_skip queue
      → length to_skip ≤ length tasks
  Seen-small to_skip queue s = omega (
    arith,
    length-names tasks,
    pigeonhole to_skip (names tasks) s.distinct (λ n h. Affected-known n (s.sound n h).0),
  )

  marked-Affected :
      (to_skip queue : List String) (m n : String)
      → Seen tasks failed to_skip queue
      → marked failed to_skip m ≡ true
      → DependsOn tasks n m
      → Affected tasks failed n
  marked-Affected to_skip queue m n s h d = elim (Bool-cases (contains failed m)) [
    | inl e ↦ direct n m e d
    | inr e ↦ through n m (s.sound m (ground arith)).0 d
  ]

  step :
      (to_skip queue : List String) (name : String) (r : List String × List String)
      → Seen tasks failed to_skip (name ∷ queue)
      → Spread failed (dependents name tasks) to_skip queue r
      → Seen tasks failed r.0 r.1
  step to_skip queue name r s p = record {
    distinct = p.distinct s.distinct;
    sound = λ n h. elim (Bool-cases (contains to_skip n)) [
      | inl e ↦ s.sound n e
      | inr e ↦ (
        marked-Affected to_skip (name ∷ queue) name n s
            (s.waiting name (ground (arith, eq_iff name name)))
            ((dependents_iff name n tasks).0 (ground (arith, p.skips n))),
        ground (arith, p.skips n),
      )
    ];
    waiting = λ n h. ground (arith, p.queued n, p.skips n, s.waiting n);
    closed = λ m n h out dep.
        ground (arith, p.queued m, p.skips m, p.skips n, s.closed m n, eq_iff name m);
  }

-- What the search has found in the end.
pub record Found (tasks : List DagTaskConfig) (failed skip : List String) : Type 0 where
  pub sound :
      (n : String) → contains skip n ≡ true → Affected tasks failed n × (contains failed n ≡ false)
  pub closed :
      (m n : String)
      → marked failed skip m ≡ true
      → DependsOn tasks n m
      → marked failed skip n ≡ true

module _ (tasks : List DagTaskConfig) (failed : List String) where
  Seen-Found : (skip : List String) → Seen tasks failed skip [] → Found tasks failed skip
  Seen-Found skip s = record {
    sound = s.sound;
    closed = λ m n h d. s.closed m n h refl ((dependents_iff m n tasks).1 d);
  }

  search-Found :
      (fuel : ℕ) (to_skip queue : List String)
      → Seen tasks failed to_skip queue
      → length queue + length tasks ≤ fuel + length to_skip
      → (skip : List String) × (search fuel tasks failed to_skip queue ≡ ok skip)
        × Found tasks failed skip
  unfolding search
  search-Found zero to_skip [] s le = (to_skip, refl, Seen-Found to_skip s)
  search-Found zero to_skip (x ∷ queue) s le =
      absurd (omega (arith, Seen-small tasks failed to_skip (x ∷ queue) s))
  search-Found (suc fuel) to_skip [] s le = (to_skip, refl, Seen-Found to_skip s)
  search-Found (suc fuel) to_skip (x ∷ queue) s le =
      let p = spread-Spread failed (dependents x tasks) to_skip queue in
      search-Found fuel _ _ (step tasks failed to_skip queue x _ s p) (omega (arith, p.counts))

  start : Seen tasks failed [] failed
  start = record {
    distinct = tt;
    sound = λ n h. cc;
    waiting = λ n h. ground arith;
    closed = λ m n h out dep. ground arith;
  }

  Found-iff :
      (skip : List String)
      → Found tasks failed skip
      → (n : String)
      → (contains skip n ≡ true) ↔ (Affected tasks failed n × (contains failed n ≡ false))
  Found-iff skip f n = (f.sound n, λ h. ground (arith, reached n h.0))
    where
      reached : (m : String) → Affected tasks failed m → marked failed skip m ≡ true
      reached m (direct m' d e dep) = f.closed d m (ground arith) dep
      reached m (through m' d a dep) = f.closed d m (reached d a) dep

find-append-none :
    (p : String → Bool) (xs ys : List String)
    → find p xs ≡ none
    → find p ys ≡ none
    → find p (xs ++ ys) ≡ none
find-append-none p [] ys h k = k
find-append-none p (x ∷ xs) ys h k = ground (arith, find-append-none p xs ys)

subset-find :
    (known deps : List String)
    → subset deps known ≡ true
    → find (λ d. not (contains known d)) deps ≡ none
subset-find known [] h = refl
subset-find known (d ∷ deps) h = ground (arith, subset-find known deps)

known_dependencies :
    (known : List String) (tasks : List DagTaskConfig)
    → All (λ t. subset t.depends_on known ≡ true) tasks
    → find (λ d. not (contains known d)) (dependencies tasks) ≡ none
known_dependencies known [] h = refl
known_dependencies known (t ∷ ts) h =
    find-append-none (λ d. not (contains known d)) t.depends_on (dependencies ts)
      (subset-find known t.depends_on h.0) (known_dependencies known ts h.1)

pub transitive_dependents-Found :
    (tasks : List DagTaskConfig) (failed : List String)
    → IsKnown tasks
    → (skip : List String) × (transitive_dependents tasks failed ≡ ok skip)
      × Found tasks failed skip
unfolding transitive_dependents
transitive_dependents-Found tasks failed known =
    rw (known_dependencies (names tasks) tasks known, transitive_dependents)
      (search-Found tasks failed (length failed + length tasks) [] failed (start tasks failed)
        (omega arith))

-- Where every dependency names a task, the search for the tasks to skip ends, and it finds exactly
-- the names that depend on a failed task, directly or through other tasks, and have not failed
-- themselves.
pub transitive_dependents_iff :
    (tasks : List DagTaskConfig) (failed : List String)
    → IsKnown tasks
    → (skip : List String) × (transitive_dependents tasks failed ≡ ok skip)
      × ((n : String)
          → (contains skip n ≡ true) ↔ (Affected tasks failed n × (contains failed n ≡ false)))
transitive_dependents_iff tasks failed known =
    let (skip, h, found) = transitive_dependents-Found tasks failed known in
    (skip, h, Found-iff tasks failed skip found)
