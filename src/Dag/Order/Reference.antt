-- ===== src/Dag/Order/Reference.antt =====
-- With distinct names, the next task is always the first ready one of the file.
use nexolith.Base.{
  length, ◌⊎◌, inl, inr, ℕ, zero, suc, ◌≤◌, String, List, [], ◌∷◌, ◌++◌, Bool, false, Option, none,
  some, ◌≡◌, refl, sym, ap, inl, inr, map, filter, find, contains, Nodup, All, ltb, string_eq,
  Result, ok, err, arith, eq_iff, Bool-cases, contains-append,
}
use mathlib.Core.Path.{◌≡⟨◌⟩◌, ◌∎}
use mathlib.Core.List.{append-nil, append_assoc}
use nexolith.Dag.Models.{DagTaskConfig, names}
use nexolith.Dag.Order.{
  Entry, entry, put, index_tasks, is_ready, earliest, cycle_among, rounds, topological_order,
  entry_is_ready,
}

-- The loop without indices: the first ready task in the order of declaration comes next.
unfoldable pub greedy :
    ℕ → List DagTaskConfig → List DagTaskConfig → List String → Result (List DagTaskConfig)
greedy zero tasks ordered ordered_names = ok ordered
greedy (suc left) tasks ordered ordered_names = elim (find (is_ready ordered_names) tasks) [
  | none ↦ err (cycle_among (names tasks) ordered_names)
  | some task ↦ greedy left tasks (ordered ++ task ∷ []) (task.name ∷ ordered_names)
]

-- The entries of a list of tasks, from an index on.
abbrev entries : ℕ → List DagTaskConfig → List Entry
entries index [] = []
entries index (t ∷ ts) = entry index t ∷ entries (suc index) ts

abbrev keys : List Entry → List String
keys es = map (λ e. e.name) es

put_new :
    (e : Entry) (es : List Entry) → contains (keys es) e.name ≡ false → put e es ≡ es ++ e ∷ []
unfolding put
put_new e [] h = refl
put_new e (f ∷ fs) h = ground (arith, put_new e fs)

keys-append : (es fs : List Entry) → keys (es ++ fs) ≡ keys es ++ keys fs
keys-append [] fs = refl
keys-append (e ∷ es) fs = ap (λ l. e.name ∷ l) (keys-append es fs)

-- No name of `xs` is one of `ys`.
abbrev Apart : List String → List String → Type 0
Apart xs [] = Unit
Apart xs (y ∷ ys) = (contains xs y ≡ false) × Apart xs ys

Apart-snoc :
    (xs ys : List String) (n : String)
    → Apart xs ys
    → contains ys n ≡ false
    → Apart (xs ++ n ∷ []) ys
Apart-snoc xs [] n a h = tt
Apart-snoc xs (y ∷ ys) n a h = (
  ground (arith, contains-append xs (n ∷ []) y, a.0, eq_iff n y, eq_iff y n),
  Apart-snoc xs ys n a.1 (ground arith),
)

Apart-nil : (ys : List String) → Apart [] ys
Apart-nil [] = tt
Apart-nil (y ∷ ys) = (refl, Apart-nil ys)

index_tasks-eq :
    (index : ℕ) (tasks : List DagTaskConfig) (by_name : List Entry)
    → Nodup (names tasks)
    → Apart (keys by_name) (names tasks)
    → index_tasks index tasks by_name ≡ by_name ++ entries index tasks
unfolding index_tasks
index_tasks-eq index [] by_name d a = sym (append-nil by_name)
index_tasks-eq index (t ∷ ts) by_name d a =
    index_tasks (suc index) ts (put (entry index t) by_name)
    ≡⟨ ap (index_tasks (suc index) ts) (put_new (entry index t) by_name a.0) ⟩
      index_tasks (suc index) ts (by_name ++ entry index t ∷ [])
    ≡⟨ index_tasks-eq (suc index) ts (by_name ++ entry index t ∷ []) d.1 (
        rw (keys-append by_name (entry index t ∷ []))
          (Apart-snoc (keys by_name) (names ts) t.name a.1 d.0)) ⟩
      (by_name ++ entry index t ∷ []) ++ entries (suc index) ts
    ≡⟨ append_assoc by_name (entry index t ∷ []) (entries (suc index) ts) ⟩
      by_name ++ entries index (t ∷ ts) ∎

-- Every entry from `index` on has at least that index.
abbrev From : ℕ → List Entry → Type 0
From index es = All (λ e. index ≤ e.index) es

filter-From :
    (index : ℕ) (p : Entry → Bool) (es : List Entry) → From index es → From index (filter p es)
filter-From index p [] h = tt
filter-From index p (e ∷ es) h = elim (Bool-cases (p e)) [
  | inl q ↦ rw q (h.0, filter-From index p es h.1)
  | inr q ↦ rw q (filter-From index p es h.1)
]

From-entries : (low index : ℕ) (ts : List DagTaskConfig) → low ≤ index → From low (entries index ts)
From-entries low index [] h = tt
From-entries low index (t ∷ ts) h = (h, From-entries low (suc index) ts (omega arith))

earliest_first : (e : Entry) (es : List Entry) → From e.index es → earliest e es ≡ e
unfolding earliest
earliest_first e [] h = refl
earliest_first e (f ∷ fs) h = rw (not_lt h.0) (earliest_first e fs h.1)
  where
    not_lt : e.index ≤ f.index → ltb f.index e.index ≡ false
    not_lt k = ground arith

-- A round finds no ready entry, or chooses that of the first ready task.
abbrev Choice : List Entry → Option DagTaskConfig → Type 0
Choice ready found =
    (ready ≡ []) × (found ≡ none)
    ⊎ ((e : Entry) × (es : List Entry) × (ready ≡ e ∷ es)
        × (earliest e es ≡ e)
        × (found ≡ some e.task)
        × (e.name ≡ e.task.name))

ready-Choice :
    (ordered_names : List String) (index : ℕ) (ts : List DagTaskConfig)
    → Choice
        (filter (entry_is_ready ordered_names) (entries index ts))
        (find (is_ready ordered_names) ts)
ready-Choice P index [] = inl (refl, refl)
ready-Choice P index (t ∷ ts) = elim (Bool-cases (is_ready P t)) [
  | inl e ↦ rw e (
      let later = entries (suc index) ts in
      let least =
        filter-From index (entry_is_ready P) later
          (From-entries index (suc index) ts (omega arith)) in
      inr (
        entry index t,
        filter (entry_is_ready P) later,
        refl,
        earliest_first (entry index t) _ least,
        refl,
        refl,
      ))
  | inr e ↦ rw e (ready-Choice P (suc index) ts)
]

keys-entries : (index : ℕ) (ts : List DagTaskConfig) → keys (entries index ts) ≡ names ts
keys-entries index [] = refl
keys-entries index (t ∷ ts) = ap (λ l. t.name ∷ l) (keys-entries (suc index) ts)

rounds-eq-greedy :
    (left : ℕ) (ts ordered : List DagTaskConfig) (ordered_names : List String)
    → rounds left (entries 0 ts) ordered ordered_names ≡ greedy left ts ordered ordered_names
unfolding rounds greedy
rounds-eq-greedy zero ts ordered P = refl
rounds-eq-greedy (suc left) ts ordered P = elim (ready-Choice P 0 ts) [
  | inl (nothing, found) ↦
      rw (nothing, found, rounds, greedy) (ap (λ l. err (cycle_among l P)) (keys-entries 0 ts))
  | inr (e, es, ready, first, found, named) ↦
      ground (arith, rounds-eq-greedy left ts (ordered ++ e.task ∷ []) (e.task.name ∷ P))
]

-- On tasks with distinct names the execution order is computed by taking, round by round, the first
-- task of the file that is not ordered yet and whose dependencies all are.
pub topological_order-eq-greedy :
    (tasks : List DagTaskConfig)
    → Nodup (names tasks)
    → topological_order tasks ≡ greedy (length tasks) tasks [] []
unfolding topological_order
topological_order-eq-greedy tasks distinct =
    rw (index_tasks-eq 0 tasks [] distinct (Apart-nil (names tasks)))
      (rounds-eq-greedy (length tasks) tasks [] [])
