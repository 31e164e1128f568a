-- ===== src/State/WellFormed/Runs.antt =====
-- What the constraints of the schema say of runs: ids are fresh, and the newest run has the largest.
use nexolith.Base.{
  ℕ, suc, ◌≤◌, ◌<◌, String, ◌≡◌, refl, ap, ◌∙◌, ◌≢◌, inl, inr, Bool, true, ◌&&◌, Option, none, some,
  List, [], ◌∷◌, map, arith, eq_iff, ◌==◌, if◌then◌else◌, Result, ok, err, Bool-cases, string_eq,
  nat_eq, All, any, filter, find, head?,
}
use nexolith.Base.Sort.{sort_by, pick, All-sort_by, head?-sort_by}
use nexolith.State.Models.{DagRunRecord}
use nexolith.State.Store.{
  StateStore, start_dag_run, newer, start_dag_run_as, get_dag_run, latest_dag_run, is_running,
  with_identity, new_run, now,
}
use nexolith.Dag.Models.{OnFailure, Severity, is_empty, repeated}
use nexolith.State.WellFormed.{IsWellFormed}
use nexolith.State.Keys.{keys_of}
use nexolith.ProcessIdentity.{ProcessIdentity}

find-absent :
    (last id : ℕ) (runs : List DagRunRecord)
    → All (λ n. n ≤ last) (map (λ r. r.id) runs)
    → last < id
    → find (λ r. r.id == id) runs ≡ none
find-absent last id [] h lt = refl
find-absent last id (r ∷ rs) h lt = ground (arith, h.0, find-absent last id rs h.1 lt)

-- Every run is older than one with a larger id.
newest :
    (r : DagRunRecord) (last : ℕ) (p : DagRunRecord → Bool) (runs : List DagRunRecord)
    → All (λ n. n ≤ last) (map (λ q. q.id) runs)
    → last < r.id
    → All (λ q. newer r q ≡ true) (filter p runs)
newest r last p [] h lt = tt
newest r last p (q ∷ qs) h lt = elim (Bool-cases (p q)) [
  | inl e ↦ rw e (ground (arith, h.0), newest r last p qs h.1 lt)
  | inr e ↦ rw e (newest r last p qs h.1 lt)
]

head?-All {κ} :
    {A : Type 0} (P : A → Type κ) (x : A) (xs : List A) → All P xs → head? xs ≡ some x → P x
head?-All P x [] h e = absurd (cc)
head?-All P x (y ∷ ys) h e = let same : y ≡ x = ground arith in rw (← same) h.0

head?-newest :
    (r : DagRunRecord) (runs : List DagRunRecord)
    → All (λ q. newer r q ≡ true) runs
    → head? (sort_by newer (r ∷ runs)) ≡ some r
head?-newest r runs h = head?-sort_by newer r runs ∙ go (head? (sort_by newer runs)) refl
  where
    go : (o : Option DagRunRecord) → head? (sort_by newer runs) ≡ o → some (pick newer r o) ≡ some r
    go none e = refl
    go (some q) e =
        let older : newer r q ≡ true =
          head?-All (λ k. newer r k ≡ true) q (sort_by newer runs)
            (All-sort_by (λ k. newer r k ≡ true) newer runs h) e in
        rw older refl

latest-newest :
    (name : String) (r : DagRunRecord) (last : ℕ) (runs : List DagRunRecord)
    → r.dag_name ≡ name
    → All (λ n. n ≤ last) (map (λ q. q.id) runs)
    → last < r.id
    → head? (sort_by newer (filter (λ q. q.dag_name == name) (r ∷ runs))) ≡ some r
latest-newest name r last runs e h lt =
    let named : (r.dag_name == name) ≡ true = ground (arith, eq_iff r.dag_name name, e) in
    let rest = filter (λ q. q.dag_name == name) runs in
    ap (λ b. head? (sort_by newer (if b then r ∷ rest else rest))) named
    ∙ head?-newest r rest (newest r last (λ q. q.dag_name == name) runs h lt)

-- A run that was started.
abbrev pub Started : String → ℕ → StateStore → StateStore → Type 0
Started name id s after =
    (run : DagRunRecord) × (get_dag_run id after ≡ some run)
    × (latest_dag_run name after ≡ some run)
    × (run.dag_name ≡ name)
    × (is_running run.status ≡ true)
    × (get_dag_run id s ≡ none)
    × ((other : ℕ) → other ≢ id → get_dag_run other after ≡ get_dag_run other s)

-- In a store that satisfies its constraints, a run that is started has an id that no run had, is the
-- newest run of its DAG and is running; every other run stays as it was.
pub start_dag_run-Started :
    (name : String) (tasks : List String) (reason : String) (on_failure : OnFailure)
    (severity : Severity) (s : StateStore) (id : ℕ)
    → IsWellFormed (keys_of s)
    → (start_dag_run name tasks reason on_failure severity s).0 ≡ ok id
    → Started name id s (start_dag_run name tasks reason on_failure severity s).1
unfolding start_dag_run start_dag_run_as get_dag_run latest_dag_run
start_dag_run-Started name tasks reason on_failure severity s id v h = go s.process_identity h
  where
    go :
        (owner : Result ProcessIdentity)
        → (with_identity owner s
            (λ i. start_dag_run_as i name tasks reason on_failure severity s)).0
          ≡ ok id
        → Started name id s
            (with_identity owner s
              (λ i. start_dag_run_as i name tasks reason on_failure severity s)).1
    go (err e) q = absurd (cc)
    go (ok i) q =
        elim (Bool-cases (any (λ d. d.name == name) s.dags && is_empty (repeated tasks))) [
          | inr e ↦ absurd (ground (arith, e))
          | inl e ↦
              let same : suc s.last_run_id ≡ id = ground (arith, e) in
              rw (← same) (
                rw e (
                  new_run (suc s.last_run_id) name reason on_failure severity (now s) i,
                  ground arith,
                  latest-newest name
                      (new_run (suc s.last_run_id) name reason on_failure severity (now s) i)
                      s.last_run_id s.dag_runs refl v.runs_numbered.0 (omega arith),
                  refl,
                  refl,
                  find-absent s.last_run_id (suc s.last_run_id) s.dag_runs v.runs_numbered.0
                      (omega arith),
                  λ other ne. ground (arith, ne),
                ))
        ]
