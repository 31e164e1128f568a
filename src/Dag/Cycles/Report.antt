-- ===== src/Dag/Cycles/Report.antt =====
-- A scan of the tasks ends, with a cycle or with every task done.
use nexolith.Base.{
  ℕ, zero, suc, ◌+◌, ◌<◌, String, List, [], ◌∷◌, ◌++◌, true, false, none, some, ◌≡◌, refl, inl, inr,
  contains, Nodup, All, ◌==◌, string_eq, arith, eq_iff, Bool-cases, length, length-append,
  contains-append, pigeonhole, In, In-All, In-contains, subst, sym,
}
use nexolith.Dag.Models.{DagTaskConfig, names}
use nexolith.Dag.Order.Sound.{length-names}
use nexolith.Dag.Order.Complete.{IsKnown}
use nexolith.Dag.Cycles.{
  visiting, done, State, mark_of, by_name, Outcome, cycle, finished, key_error, out_of_fuel,
  and_then, visit_deps, visit, scan,
}
use nexolith.Dag.Cycles.Graph.{IsCycle, by_name-eq-some, by_name_known}
use nexolith.Dag.Cycles.Visit.{Inv, Good, VisitSpec, visit_deps-Good, mark-cases}

-- Marking an unvisited name as visited extends the path.
enter-Inv :
    (tasks : List DagTaskConfig) (s : State) (path : List String) (name : String)
    → Inv tasks s path
    → mark_of name s ≡ none
    → Inv tasks ((name, visiting) ∷ s) (path ++ name ∷ [])
unfolding mark_of
enter-Inv tasks s path name inv unmarked = record {
  done_before = λ n d h e.
      let (d_done, before) = inv.done_before n d (ground (arith, eq_iff name n)) e in
      ground (arith, d_done, before, eq_iff name d, eq_iff name n);
  on_path = λ n h. ground (arith, eq_iff name n, inv.on_path n, contains-append path (name ∷ []) n);
  marked = λ n h. ground (arith, eq_iff name n, inv.marked n, contains-append path (name ∷ []) n);
}

Nodup-snoc :
    (path : List String) (name : String)
    → Nodup path
    → contains path name ≡ false
    → Nodup (path ++ name ∷ [])
Nodup-snoc [] name d f = (refl, tt)
Nodup-snoc (x ∷ xs) name d f = (
  ground (arith, contains-append xs (name ∷ []) x, d.0, eq_iff name x, eq_iff x name),
  Nodup-snoc xs name d.1 (ground arith),
)

visit_known :
    (fuel : ℕ) (tasks : List DagTaskConfig) (s : State) (path : List String) (name : String)
    (task : DagTaskConfig)
    → by_name name tasks ≡ some task
    → visit (suc fuel) tasks s path name
      ≡ visit_deps
          (visit fuel tasks)
          name
          task.depends_on
          ((name, visiting) ∷ s)
          (path ++ name ∷ [])
unfolding visit
visit_known fuel tasks s path name task e = ground arith

module _ (tasks : List DagTaskConfig) (known : IsKnown tasks) where
  visit-Good :
      (fuel : ℕ) (path : List String)
      → Nodup path
      → ((n : String) → contains path n ≡ true → contains (names tasks) n ≡ true)
      → length tasks < fuel + length path
      → VisitSpec tasks (visit fuel tasks) path
  visit-Good zero path distinct sub enough s name inv unmarked listed walk =
      absurd (omega (arith, pigeonhole path (names tasks) distinct sub, length-names tasks))
  visit-Good (suc fuel) path distinct sub enough s name inv unmarked listed walk =
      let (task, called) = by_name_known tasks name listed in
      let fresh : contains path name ≡ false = ground (arith, inv.marked name) in
      let deps = In-All _ task tasks known (by_name-eq-some tasks name task called).0 in
      let longer = path ++ name ∷ [] in
      subst (Good tasks s path name) (sym (visit_known fuel tasks s path name task called)) (
        visit_deps-Good tasks path name task called fresh (visit fuel tasks)
          (visit-Good fuel longer (Nodup-snoc path name distinct fresh)
            (λ n h. ground (arith, contains-append path (name ∷ []) n, eq_iff name n, sub n))
            (omega (arith, length-append path (name ∷ []))))
          deps walk s task.depends_on ((name, visiting) ∷ s)
          (enter-Inv tasks s path name inv unmarked)
          (λ n k ne h. unfold mark_of in ground (arith, eq_iff name n)) (λ d c. c) (λ d c. inl c))

  abbrev pub ScanGood : List DagTaskConfig → State → Outcome → Type 0
  ScanGood ts s (cycle c) = IsCycle tasks c
  ScanGood ts s (finished s') =
      Inv tasks s' []
      × ((n : String) → mark_of n s ≡ some done → mark_of n s' ≡ some done)
      × All (λ t. mark_of t.name s' ≡ some done) ts
  ScanGood ts s _ = ⊥

  scan_step :
      (t : DagTaskConfig) (ts : List DagTaskConfig) (s : State)
      → mark_of t.name s ≡ none
      → scan tasks (t ∷ ts) s
        ≡ and_then (visit (suc (length tasks)) tasks s [] t.name) (λ s'. scan tasks ts s')
  unfolding scan
  scan_step t ts s h = ground arith

  -- One more task that is done, before a scan.
  widen :
      (t : DagTaskConfig) (ts : List DagTaskConfig) (s s₁ : State) (o : Outcome)
      → ((n : String) → mark_of n s ≡ some done → mark_of n s₁ ≡ some done)
      → mark_of t.name s₁ ≡ some done
      → ScanGood ts s₁ o
      → ScanGood (t ∷ ts) s o
  widen t ts s s₁ (cycle c) keeps marked g = g
  widen t ts s s₁ (finished s') keeps marked (inv, stays, all_done) =
      (inv, λ n h. stays n (keeps n h), (stays t.name marked, all_done))
  widen t ts s s₁ (key_error n) keeps marked g = g
  widen t ts s s₁ out_of_fuel keeps marked g = g

  then-ScanGood :
      (t : DagTaskConfig) (ts : List DagTaskConfig) (s : State) (o : Outcome)
      → Good tasks s [] t.name o
      → ((s' : State) → Inv tasks s' [] → ScanGood ts s' (scan tasks ts s'))
      → ScanGood (t ∷ ts) s (and_then o (λ s'. scan tasks ts s'))
  then-ScanGood t ts s (cycle c) g rest = g
  then-ScanGood t ts s (finished s₁) (inv, keeps, marked) rest =
      widen t ts s s₁ (scan tasks ts s₁) (λ n h. stays n h) marked (rest s₁ inv)
    where
      stays : (n : String) → mark_of n s ≡ some done → mark_of n s₁ ≡ some done
      stays n h = elim (Bool-cases (n == t.name)) [
        | inl e ↦ rw ((eq_iff n t.name).0 e) marked
        | inr e ↦ keeps n done (λ same. ground (arith, eq_iff n t.name)) h
      ]
  then-ScanGood t ts s (key_error n) g rest = g
  then-ScanGood t ts s out_of_fuel g rest = g

  scan_done :
      (t : DagTaskConfig) (ts : List DagTaskConfig) (s : State)
      → mark_of t.name s ≡ some done
      → scan tasks (t ∷ ts) s ≡ scan tasks ts s
  unfolding scan
  scan_done t ts s h = ground arith

  pub scan-Good :
      (ts : List DagTaskConfig) (s : State)
      → ((t : DagTaskConfig) → In t ts → In t tasks)
      → Inv tasks s []
      → ScanGood ts s (scan tasks ts s)
  scan-Good [] s sub inv = unfold scan in (inv, λ n h. h, tt)
  scan-Good (t ∷ ts) s sub inv = elim (mark-cases (mark_of t.name s)) [
    | inl unmarked ↦
        let listed = In-contains (λ (u : DagTaskConfig). u.name) t tasks (sub t (inl refl)) in
        subst (ScanGood (t ∷ ts) s) (sym (scan_step t ts s unmarked)) (
          then-ScanGood t ts s (visit (suc (length tasks)) tasks s [] t.name)
            (visit-Good (suc (length tasks)) [] tt (λ n h. absurd (cc)) (omega arith) s t.name inv
              unmarked listed tt)
            (λ s' inv'. scan-Good ts s' (λ u m. sub u (inr m)) inv'))
    | inr (inl on) ↦ absurd (let h = inv.on_path t.name on in cc)
    | inr (inr was) ↦ subst (ScanGood (t ∷ ts) s) (sym (scan_done t ts s was)) (
        widen t ts s s (scan tasks ts s) (λ n h. h) was (scan-Good ts s (λ u m. sub u (inr m)) inv))
  ]
