-- ===== src/State/Keys.antt =====
-- src/nexolith/state/store.py: the keys of the tables, which the constraints of the schema are about.
-- An UPDATE leaves them as they are.
use nexolith.Base.{
  ℕ, suc, ◌≤◌, ◌<◌, String, ◌≡◌, refl, ap, inl, inr, Bool, true, false, List, [], ◌∷◌, ◌++◌, map,
  arith, eq_iff, Bool-cases, string_eq, nat_eq, All, In, any, contains, update_where, All-map,
  In-All, Nodup,
}
use nexolith.State.Store.{StateStore, pending_task, Reaction, is_task}
use nexolith.State.Models.{TaskRunRecord}
use nexolith.State.Attempts.{is_reaction}

-- What the primary keys and the foreign keys of a store read.
pub record Keys : Type 0 where
  pub dags : List String
  pub runs : List ℕ
  pub runs_of : List String
  pub tasks : List (ℕ × String)
  pub attempts : List ℕ
  pub attempts_of : List (ℕ × String)
  pub reactions : List (String × String)
  pub last_run_id : ℕ
  pub last_attempt_id : ℕ

abbrev pub task_key : TaskRunRecord → ℕ × String
task_key t = (t.dag_run_id, t.task_name)

abbrev pub keys_of : StateStore → Keys
keys_of s = record {
  dags = map (λ d. d.name) s.dags;
  runs = map (λ r. r.id) s.dag_runs;
  runs_of = map (λ r. r.dag_name) s.dag_runs;
  tasks = map task_key s.task_runs;
  attempts = map (λ a. a.id) s.task_attempts;
  attempts_of = map (λ a. (a.dag_run_id, a.task_name)) s.task_attempts;
  reactions = map (λ r. (r.downstream, r.upstream)) s.reactions;
  last_run_id = s.last_run_id;
  last_attempt_id = s.last_attempt_id;
}

-- An UPDATE that does not write a column leaves it as it is.
pub map-update_where :
    {A B : Type 0} (key : A → B) (p : A → Bool) (f : A → A) (xs : List A)
    → ((x : A) → key (f x) ≡ key x)
    → map key (update_where p f xs) ≡ map key xs
map-update_where key p f [] h = refl
map-update_where key p f (x ∷ xs) h = ground (arith, h x, map-update_where key p f xs h)

module _ {A : Type 0} where
  -- No element stands twice.
  abbrev pub Distinct : List A → Type 0
  Distinct [] = Unit
  Distinct (x ∷ xs) = (¬ In x xs) × Distinct xs

  -- A row that is looked up by its key is there.
  pub any-In :
      {B : Type 0} (key : B → A) (p : B → Bool) (k : A) (xs : List B)
      → ((x : B) → p x ≡ true → k ≡ key x)
      → any p xs ≡ true
      → In k (map key xs)
  any-In key p k [] named h = absurd (cc)
  any-In key p k (x ∷ xs) named h = elim (Bool-cases (p x)) [
    | inl e ↦ inl (named x e)
    | inr e ↦ inr (any-In key p k xs named (ground arith))
  ]

  pub In-any :
      {B : Type 0} (key : B → A) (p : B → Bool) (k : A) (xs : List B)
      → ((x : B) → k ≡ key x → p x ≡ true)
      → In k (map key xs)
      → any p xs ≡ true
  In-any key p k [] named h = absurd h
  In-any key p k (x ∷ xs) named (inl e) = ground (arith, named x e)
  In-any key p k (x ∷ xs) named (inr m) = ground (arith, In-any key p k xs named m)

-- The keys that AUTOINCREMENT gave: from 1 to the counter, and each once.
abbrev pub IsNumbered : ℕ → List ℕ → Type 0
IsNumbered last ids = All (λ n. n ≤ last) ids × Distinct ids

pub In-le : (last n : ℕ) (ids : List ℕ) → All (λ m. m ≤ last) ids → In n ids → n ≤ last
In-le last n ids h m = In-All (λ k. k ≤ last) n ids h m

pub IsNumbered-suc :
    (last : ℕ) (ids : List ℕ) → IsNumbered last ids → IsNumbered (suc last) (suc last ∷ ids)
IsNumbered-suc last ids (h, d) = (
  (omega arith, All-map (λ n. n ≤ last) (λ n. n ≤ suc last) (λ n p. omega arith) ids h),
  (λ m. let p = In-le last (suc last) ids h m in omega arith, d),
)

-- The keys of the tasks of a new run.
abbrev pub keyed : ℕ → List String → List (ℕ × String)
keyed id names = map (λ n. (id, n)) names

module _ (id : ℕ) where
  pub All-keyed {κ} :
      (P : ℕ × String → Type κ) (names : List String) (old : List (ℕ × String))
      → ((n : String) → P (id, n))
      → All P old
      → All P (keyed id names ++ old)
  All-keyed P [] old f h = h
  All-keyed P (n ∷ names) old f h = (f n, All-keyed P names old f h)

  In-keyed :
      (name : String) (names : List String) (old : List (ℕ × String))
      → contains names name ≡ false
      → ¬ In (id, name) old
      → ¬ In (id, name) (keyed id names ++ old)
  In-keyed name [] old h fresh m = fresh m
  In-keyed name (n ∷ names) old h fresh (inl e) =
      let same : name ≡ n = ap (λ p. p.1) e in ground (arith, eq_iff n name)
  In-keyed name (n ∷ names) old h fresh (inr m) =
      In-keyed name names old (ground (arith, h)) fresh m

  pub Distinct-keyed :
      (last : ℕ) (names : List String) (old : List (ℕ × String))
      → Nodup names
      → Distinct old
      → All (λ t. t.0 ≤ last) old
      → last < id
      → Distinct (keyed id names ++ old)
  Distinct-keyed last [] old d old_d h lt = old_d
  Distinct-keyed last (n ∷ names) old d old_d h lt = (
    In-keyed n names old d.0 (λ m. let p = In-All (λ t. t.0 ≤ last) (id, n) old h m in omega arith),
    Distinct-keyed last names old d.1 old_d h lt,
  )

pub map-pending_task :
    (id : ℕ) (names : List String) (old : List TaskRunRecord)
    → map task_key (map (pending_task id) names ++ old) ≡ keyed id names ++ map task_key old
map-pending_task id [] old = refl
map-pending_task id (n ∷ names) old = ap (λ ts. (id, n) ∷ ts) (map-pending_task id names old)

-- The rows that a WHERE by key finds.
pub is_task-key :
    (id : ℕ) (name : String) (t : TaskRunRecord)
    → is_task id name t ≡ true
    → (id, name) ≡ task_key t
is_task-key id name t h =
    let same_id : id ≡ t.dag_run_id = ground arith in
    let same_name : name ≡ t.task_name = ground (arith, eq_iff t.task_name name) in
    rw (same_id, same_name) refl

abbrev pub reaction_key : Reaction → String × String
reaction_key r = (r.downstream, r.upstream)

pub reaction_key-is_reaction :
    (d u : String) (r : Reaction) → (d, u) ≡ reaction_key r → is_reaction d u r ≡ true
reaction_key-is_reaction d u r e =
    let same_d : d ≡ r.downstream = ap (λ p. p.0) e in
    let same_u : u ≡ r.upstream = ap (λ p. p.1) e in
    ground (arith, same_d, same_u, eq_iff r.downstream d, eq_iff r.upstream u)
