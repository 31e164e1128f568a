-- ===== src/State/Schema/Upgraded.antt =====
-- Opening a database of any schema version brings it to the last one with every row it had.
use nexolith.Base.{
  ℕ, String, ◌≡◌, refl, ap, ◌∙◌, true, some, List, [], ◌∷◌, map, arith, ok, string_eq, nat_eq,
  ◌>>=◌, All, all, contains, subset, subset-contains, All-map,
}
use nexolith.State.Schema.{
  SqlRow, Cell, passes, selected_row, execute_script, execute, add_column_if_missing, Statement,
}
use nexolith.Types.{field_of}
use nexolith.State.Schema.Migrations.{
  migrate, prepare_version, same_columns, task_columns, create_tables, allow_skipped,
  first_task_statuses, add_reactions_table, add_attempts_table, own_runs, skipping_task_statuses,
  owned_values, ensure_schema, migrate_from, run_statuses, task_statuses,
}
use nexolith.State.Schema.Contents.{
  TaskRow, database, task_row, Contents, IsAllowed, version1, new, upgraded_to, version2, RunRow,
  version5, version6, version3, version4, run_row, version7, with_policy, default_policy,
  with_owner, AreAllowed, with_severity, with_creation_time, no_owner, default_severity,
  SchemaVersion, upgraded, no_identity,
}

map-map :
    {A B C : Type 0} (f : B → C) (g : A → B) (h : A → C) (xs : List A)
    → ((x : A) → f (g x) ≡ h x)
    → map f (map g xs) ≡ map h xs
map-map f g h [] e = refl
map-map f g h (x ∷ xs) e = ground (arith, e x, map-map f g h xs e)

-- Rows whose status is in the list pass the CHECK.
pub all-passes {ℓ} :
    {A : Type ℓ} (status : A → String) (row : A → SqlRow) (s : String) (ss olds : List String)
    (xs : List A)
    → ((x : A) → field_of "status" (row x) ≡ some (Cell.text (status x)))
    → subset olds (s ∷ ss) ≡ true
    → All (λ x. contains olds (status x) ≡ true) xs
    → all (passes (s ∷ ss)) (map row xs) ≡ true
all-passes status row s ss olds [] e sub h = refl
all-passes status row s ss olds (x ∷ xs) e sub h = ground (
  arith,
  e x,
  subset-contains olds (s ∷ ss) (status x) sub h.0,
  all-passes status row s ss olds xs e sub h.1,
)

pub tasks_copied :
    (ts : List TaskRow)
    → map (selected_row (same_columns task_columns)) (map task_row ts) ≡ map task_row ts
tasks_copied ts =
    map-map (selected_row (same_columns task_columns)) task_row task_row ts (λ t. refl)

pub tasks_pass :
    (s : String) (ss olds : List String) (ts : List TaskRow)
    → subset olds (s ∷ ss) ≡ true
    → All (λ (t : TaskRow). contains olds t.status ≡ true) ts
    → all (passes (s ∷ ss)) (map task_row ts) ≡ true
tasks_pass s ss olds ts = all-passes (λ t. t.status) task_row s ss olds ts (λ t. refl)

-- Rows to which a step adds a column, or which it copies.
runs_changed :
    (f : SqlRow → SqlRow) (old added : RunRow → SqlRow) (change : RunRow → RunRow)
    (rs : List RunRow)
    → ((r : RunRow) → f (run_row old r) ≡ run_row added (change r))
    → map f (map (run_row old) rs) ≡ map (run_row added) (map change rs)
runs_changed f old added change [] e = refl
runs_changed f old added change (r ∷ rs) e =
    ground (arith, e r, runs_changed f old added change rs e)

allowed_still :
    (statuses : List String) (change : RunRow → RunRow) (rs : List RunRow)
    → ((r : RunRow) → (change r).status ≡ r.status)
    → All (λ (r : RunRow). contains statuses r.status ≡ true) rs
    → All (λ (r : RunRow). contains statuses r.status ≡ true) (map change rs)
allowed_still statuses change [] e h = tt
allowed_still statuses change (r ∷ rs) e h = (rw (e r) h.0, allowed_still statuses change rs e h.1)

pub widened :
    (runs tasks runs' tasks' : List String) (c : Contents)
    → subset runs runs' ≡ true
    → subset tasks tasks' ≡ true
    → AreAllowed runs tasks c
    → AreAllowed runs' tasks' c
widened runs tasks runs' tasks' c r t a = (
  All-map (λ (q : RunRow). contains runs q.status ≡ true)
      (λ (q : RunRow). contains runs' q.status ≡ true)
      (λ q h. subset-contains runs runs' q.status r h) c.runs a.0,
  All-map (λ (q : TaskRow). contains tasks q.status ≡ true)
      (λ (q : TaskRow). contains tasks' q.status ≡ true)
      (λ q h. subset-contains tasks tasks' q.status t h) c.tasks a.1,
)

-- The step from each version to the next.
first_version :
    (c : Contents)
    → migrate (1, create_tables) (database new c) ≡ ok (database version1 (upgraded_to version1 c))
unfolding migrate prepare_version execute_script execute database
first_version c = refl

module _ (c : Contents) where
  second_version :
      IsAllowed version1 c
      → migrate (2, allow_skipped) (database version1 c) ≡ ok (database version2 c)
  unfolding migrate prepare_version execute_script execute database
  second_version a = rw (tasks_copied c.tasks) (
      rw
        (tasks_pass "pending" ("running" ∷ "succeeded" ∷ "failed" ∷ "skipped" ∷ [])
          first_task_statuses c.tasks refl a.1)
        refl)

  third_version :
      IsAllowed version2 c
      → migrate (3, add_attempts_table) (database version2 c)
        ≡ ok (database version3 (upgraded_to version3 c))
  unfolding migrate prepare_version add_column_if_missing execute_script execute database
  third_version a = rw (tasks_copied c.tasks) (
      rw
        (tasks_pass "pending" ("running" ∷ "succeeded" ∷ "failed" ∷ "skipped" ∷ "blocked" ∷ [])
          skipping_task_statuses c.tasks refl a.1)
        (rw (runs_changed _ (λ r. []) with_policy default_policy c.runs (λ r. refl)) refl))

  fourth_version :
      migrate (4, add_reactions_table) (database version3 c)
      ≡ ok (database version4 (upgraded_to version4 c))
  unfolding migrate prepare_version execute_script execute database
  fourth_version = refl

  fifth_version :
      migrate (5, []) (database version4 c) ≡ ok (database version5 (upgraded_to version5 c))
  unfolding migrate prepare_version add_column_if_missing execute_script database
  fifth_version =
      rw (runs_changed _ with_policy with_severity default_severity c.runs (λ r. refl)) refl

  sixth_version :
      IsAllowed version5 c
      → migrate (6, own_runs) (database version5 c)
        ≡ ok (database version6 (upgraded_to version6 c))
  unfolding migrate prepare_version execute_script execute database
  sixth_version a =
      rw
        (runs_changed (selected_row owned_values) with_severity with_owner no_owner c.runs
          (λ r. refl))
        (rw
          (all-passes (λ r. r.status) (run_row with_owner) "running"
            ("succeeded" ∷ "failed" ∷ "interrupted" ∷ []) run_statuses (map no_owner c.runs)
            (λ r. refl) refl (allowed_still run_statuses no_owner c.runs (λ r. refl) a.0))
          refl)

  seventh_version :
      migrate (7, []) (database version6 c) ≡ ok (database version7 (upgraded_to version7 c))
  unfolding migrate prepare_version add_column_if_missing execute_script database
  seventh_version =
      rw (runs_changed _ with_owner with_creation_time no_identity c.runs (λ r. refl)) refl

-- The migrations that are left behind a version.
abbrev pub after_sixth : List (ℕ × List Statement)
after_sixth = (7, []) ∷ []

abbrev pub after_fifth : List (ℕ × List Statement)
after_fifth = (6, own_runs) ∷ after_sixth

abbrev pub after_fourth : List (ℕ × List Statement)
after_fourth = (5, []) ∷ after_fifth

abbrev pub after_third : List (ℕ × List Statement)
after_third = (4, add_reactions_table) ∷ after_fourth

abbrev pub after_second : List (ℕ × List Statement)
after_second = (3, add_attempts_table) ∷ after_third

abbrev pub after_first : List (ℕ × List Statement)
after_first = (2, allow_skipped) ∷ after_second

-- From a version on, step by step.
from_sixth :
    (c : Contents)
    → migrate_from 6 after_sixth (database version6 c)
      ≡ ok (database version7 (upgraded version6 c))
unfolding migrate_from
from_sixth c = ap (λ r. r >>= migrate_from 7 []) (seventh_version c)

pub from_fifth :
    (c : Contents)
    → IsAllowed version5 c
    → migrate_from 5 after_fifth (database version5 c)
      ≡ ok (database version7 (upgraded version5 c))
unfolding migrate_from
from_fifth c a =
    ap (λ r. r >>= migrate_from 6 after_sixth) (sixth_version c a)
    ∙ from_sixth (upgraded_to version6 c)

from_fourth :
    (c : Contents)
    → IsAllowed version4 c
    → migrate_from 4 after_fourth (database version4 c)
      ≡ ok (database version7 (upgraded version4 c))
unfolding migrate_from
from_fourth c a =
    ap (λ r. r >>= migrate_from 5 after_fifth) (fifth_version c)
    ∙ from_fifth (upgraded_to version5 c)
        (allowed_still run_statuses default_severity c.runs (λ r. refl) a.0, a.1)

from_third :
    (c : Contents)
    → IsAllowed version3 c
    → migrate_from 3 after_third (database version3 c)
      ≡ ok (database version7 (upgraded version3 c))
unfolding migrate_from
from_third c a =
    ap (λ r. r >>= migrate_from 4 after_fourth) (fourth_version c)
    ∙ from_fourth (upgraded_to version4 c) a

pub from_second :
    (c : Contents)
    → IsAllowed version2 c
    → migrate_from 2 after_second (database version2 c)
      ≡ ok (database version7 (upgraded version2 c))
unfolding migrate_from
from_second c a =
    ap (λ r. r >>= migrate_from 3 after_third) (third_version c a)
    ∙ from_third (upgraded_to version3 c) (
        widened run_statuses skipping_task_statuses run_statuses task_statuses
          (upgraded_to version3 c) refl refl
          (allowed_still run_statuses default_policy c.runs (λ r. refl) a.0, a.1))

pub from_first :
    (c : Contents)
    → IsAllowed version1 c
    → migrate_from 1 after_first (database version1 c)
      ≡ ok (database version7 (upgraded version1 c))
unfolding migrate_from
from_first c a =
    ap (λ r. r >>= migrate_from 2 after_second) (second_version c a)
    ∙ from_second c
        (widened run_statuses first_task_statuses run_statuses skipping_task_statuses c refl refl a)

-- Opening a database of any version of the schema succeeds, and leaves one of the last version that
-- holds every row that was there, with the defaults of the columns that were added; a database of
-- the last version stays as it is. The hypothesis is that the statuses of the rows pass the CHECKs
-- of their version.
pub ensure_schema-database :
    (v : SchemaVersion) (c : Contents)
    → IsAllowed v c
    → ensure_schema (database v c) ≡ ok (database version7 (upgraded v c))
unfolding ensure_schema migrate_from database
ensure_schema-database new c a =
    ap (λ r. r >>= migrate_from 1 after_first) (first_version c)
    ∙ from_first (upgraded_to version1 c) (tt, tt)
ensure_schema-database version1 c a = from_first c a
ensure_schema-database version2 c a = from_second c a
ensure_schema-database version3 c a = from_third c a
ensure_schema-database version4 c a = from_fourth c a
ensure_schema-database version5 c a = from_fifth c a
ensure_schema-database version6 c a = from_sixth c
ensure_schema-database version7 c a = refl
