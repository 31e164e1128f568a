-- ===== src/Dag/Cycles/Visit.antt =====
-- What a visit keeps and what it returns.
use nexolith.Base.{
  subst, sym, ℕ, suc, ◌≤◌, String, List, [], ◌∷◌, ◌++◌, true, false, Option, none, some, ◌≡◌, ◌≢◌,
  ◌⊎◌, refl, inl, inr, contains, Nodup, ◌==◌, string_eq, if◌then◌else◌, arith, eq_iff, Bool-cases,
  length, subset, contains-append, subset-contains, ◌<◌,
}
use nexolith.Dag.Models.{DagTaskConfig, names}
use nexolith.Dag.Cycles.{
  Mark, visiting, done, State, mark_of, by_name, Outcome, cycle, finished, key_error, out_of_fuel,
  visit_deps, and_then,
}
use nexolith.Dag.Cycles.Graph.{Edge, IsWalk, IsCycle, IsWalk-snoc, path_from-IsCycle}

-- The time of a name's newest mark.
abbrev pub time : State → String → ℕ
time [] n = 0
time ((m, k) ∷ s) n = if m == n then suc (length s) else time s n

pub time_le : (s : State) (n : String) → time s n ≤ length s
time_le [] n = omega arith
time_le ((m, k) ∷ s) n = ground (arith, time_le s n)

-- What the marks say while the names of `path` are visited.
pub record Inv (tasks : List DagTaskConfig) (s : State) (path : List String) : Type 0 where
  -- The dependencies of a task that is done were done before it.
  pub done_before :
      (n d : String)
      → mark_of n s ≡ some done
      → Edge tasks n d
      → (mark_of d s ≡ some done) × (time s d < time s n)
  pub on_path : (n : String) → mark_of n s ≡ some visiting → contains path n ≡ true
  pub marked : (n : String) → contains path n ≡ true → mark_of n s ≡ some visiting

-- The path is a walk through distinct tasks.
pub record IsPath (tasks : List DagTaskConfig) (path : List String) : Type 0 where
  pub walk : IsWalk tasks path
  pub distinct : Nodup path
  pub known : (n : String) → contains path n ≡ true → contains (names tasks) n ≡ true

-- Marks but that of `name` stay.
abbrev pub Keeps : String → State → State → Type 0
Keeps name s s' = (n : String) (k : Mark) → n ≢ name → mark_of n s ≡ some k → mark_of n s' ≡ some k

-- A visit finds a cycle, or marks its task as done.
abbrev pub Good : List DagTaskConfig → State → List String → String → Outcome → Type 0
Good tasks s path name (cycle c) = IsCycle tasks c
Good tasks s path name (finished s') =
    Inv tasks s' path × Keeps name s s' × (mark_of name s' ≡ some done)
Good tasks s path name _ = ⊥

abbrev pub VisitSpec :
    List DagTaskConfig → (State → List String → String → Outcome) → List String → Type 0
VisitSpec tasks v path =
    (s : State) (d : String)
    → Inv tasks s path
    → mark_of d s ≡ none
    → contains (names tasks) d ≡ true
    → IsWalk tasks (path ++ d ∷ [])
    → Good tasks s path d (v s path d)

pub mark-cases : (o : Option Mark) → (o ≡ none) ⊎ ((o ≡ some visiting) ⊎ (o ≡ some done))
mark-cases none = inl refl
mark-cases (some visiting) = inr (inl refl)
mark-cases (some done) = inr (inr refl)

visit_deps_unmarked :
    (v : State → List String → String → Outcome) (name d : String) (ds : List String) (s : State)
    (path : List String)
    → mark_of d s ≡ none
    → visit_deps v name (d ∷ ds) s path ≡ and_then (v s path d) (λ s'. visit_deps v name ds s' path)
unfolding visit_deps
visit_deps_unmarked v name d ds s path h = ground arith

module _ (tasks : List DagTaskConfig) (path : List String) (name : String) (task : DagTaskConfig)
    (called : by_name name tasks ≡ some task) (fresh : contains path name ≡ false) where
  abbrev longer : List String
  longer = path ++ name ∷ []

  name_visiting : (s : State) → Inv tasks s longer → mark_of name s ≡ some visiting
  name_visiting s inv =
      inv.marked name (ground (arith, contains-append path (name ∷ []) name, eq_iff name name))

  close-done_before :
      (s : State)
      → Inv tasks s longer
      → ((d : String) → contains task.depends_on d ≡ true → mark_of d s ≡ some done)
      → (n d : String) → mark_of n ((name, done) ∷ s) ≡ some done
      → Edge tasks n d
      → (mark_of d ((name, done) ∷ s) ≡ some done)
        × (time ((name, done) ∷ s) d < time ((name, done) ∷ s) n)
  unfolding mark_of
  close-done_before s inv all_done n d h (t, found, dep) = elim (Bool-cases (name == n)) [
    | inl e ↦
        let same : name ≡ n = (eq_iff name n).0 e in
        let t_is : t ≡ task = ground arith in
        let d_done = all_done d (rw (← t_is) dep) in
        ground (arith, d_done, name_visiting s inv, eq_iff name d, time_le s d)
    | inr e ↦
        let (d_done, before) = inv.done_before n d (ground arith) (t, found, dep) in
        ground (arith, d_done, before, name_visiting s inv, eq_iff name d)
  ]

  -- All dependencies of `name` are done.
  close :
      (s : State)
      → Inv tasks s longer
      → ((d : String) → contains task.depends_on d ≡ true → mark_of d s ≡ some done)
      → Inv tasks ((name, done) ∷ s) path
  unfolding mark_of
  close s inv all_done = record {
    done_before = close-done_before s inv all_done;
    on_path =
        λ n h. ground (arith, eq_iff name n, inv.on_path n, contains-append path (name ∷ []) n);
    marked = λ n h.
        ground (arith, eq_iff name n, inv.marked n, fresh, contains-append path (name ∷ []) n);
  }

  module _ (v : State → List String → String → Outcome) (spec : VisitSpec tasks v longer)
      (known : subset task.depends_on (names tasks) ≡ true) (walk : IsWalk tasks longer) where
    next-Good :
        (s₀ s : State) (d : String) (o : Outcome) (f : State → Outcome)
        → Good tasks s longer d o
        → ((s' : State)
            → Inv tasks s' longer
            → Keeps d s s'
            → mark_of d s' ≡ some done
            → Good tasks s₀ path name (f s'))
        → Good tasks s₀ path name (and_then o f)
    next-Good s₀ s d (cycle c) f g k = g
    next-Good s₀ s d (finished s') f (inv, keeps, marked) k = k s' inv keeps marked
    next-Good s₀ s d (key_error n) f g k = g
    next-Good s₀ s d out_of_fuel f g k = g

    pub visit_deps-Good :
        (s₀ : State) (ds : List String) (s : State)
        → Inv tasks s longer
        → Keeps name s₀ s
        → ((d : String) → contains ds d ≡ true → contains task.depends_on d ≡ true)
        → ((d : String)
            → contains task.depends_on d ≡ true
            → (contains ds d ≡ true) ⊎ (mark_of d s ≡ some done))
        → Good tasks s₀ path name (visit_deps v name ds s longer)
    unfolding visit_deps mark_of
    visit_deps-Good s₀ [] s inv keeps sub left = (
      close s inv (λ d c. ground (arith, left d c)),
      λ n k ne h. ground (arith, keeps n k ne h, eq_iff name n),
      ground (arith, eq_iff name name),
    )
    visit_deps-Good s₀ (d ∷ ds) s inv keeps sub left = elim (mark-cases (mark_of d s)) [
      | inl unmarked ↦
          let listed = sub d (ground (arith, eq_iff d d)) in
          let walk_on = IsWalk-snoc tasks path name d walk (task, called, listed) in
          subst (Good tasks s₀ path name) (sym (visit_deps_unmarked v name d ds s longer unmarked))
            (next-Good s₀ s d (v s longer d) (λ s'. visit_deps v name ds s' longer)
              (spec s d inv unmarked (subset-contains task.depends_on (names tasks) d known listed)
                walk_on)
              λ s' inv' keeps' d_done.
                visit_deps-Good s₀ ds s' inv'
                  (λ n k ne h. keeps' n k (λ same. ground (arith, keeps n k ne h)) (keeps n k ne h))
                  (λ x c. sub x (ground arith))
                  (λ x c. ground (arith, left x c, eq_iff d x, keeps' x done, d_done)))
      | inr (inl on) ↦ rw on (
          path_from-IsCycle tasks d longer (inv.on_path d on)
            (IsWalk-snoc tasks path name d walk (task, called, sub d (ground (arith, eq_iff d d)))))
      | inr (inr was) ↦ rw was (
          visit_deps-Good s₀ ds s inv keeps (λ x c. sub x (ground arith))
            (λ x c. ground (arith, left x c, eq_iff d x)))
    ]
