-- ===== src/State/Schema/Crashes.antt =====
-- A process that dies inside of a migration, and the next one that opens the database. Each statement
-- of a script is committed by itself, and the version behind the last one.
use nexolith.Base.{
  ℕ, zero, suc, String, ◌≡◌, refl, ap, ◌∙◌, Bool, true, false, List, [], ◌∷◌, map, arith, ◌==◌,
  if◌then◌else◌, Result, ok, err, string_eq, nat_eq, ◌>>=◌, All, all, contains, subset, take,
}
use nexolith.State.Schema.{
  Statement, Database, execute_script, passes, selected_row, execute, operational_error, Table,
  SqlRow,
}
use nexolith.State.Schema.Migrations.{
  ensure_schema, migrate_from, migrate, prepare_version, same_columns, task_columns, allow_skipped,
  skipping_task_statuses, first_task_statuses, run_columns, run_statuses,
}
use nexolith.State.Schema.Contents.{
  TaskRow, database, task_row, Contents, IsAllowed, version1, version7, upgraded, tasks_table,
  versioned, dags_table, runs_table, version2,
}
use nexolith.State.Schema.Upgraded.{tasks_copied, tasks_pass, after_second, from_second, widened}

-- What is left when the script of a version was ended behind its first statements.
unfoldable pub crash_behind : ℕ → List Statement → Database → Result Database
crash_behind n script db = execute_script (take n script) db

copied_anew :
    (s : String) (ss olds : List String) (ts : List TaskRow)
    → subset olds (s ∷ ss) ≡ true
    → All (λ (t : TaskRow). contains olds t.status ≡ true) ts
    → all (passes (s ∷ ss)) (map (selected_row (same_columns task_columns)) (map task_row ts))
      ≡ true
copied_anew s ss olds ts sub h = rw (tasks_copied ts) (tasks_pass s ss olds ts sub h)

-- The tables that a crash leaves, behind those that the migration does not touch.
abbrev left : List (String × Table) → Contents → Database
left tables c =
    versioned 1 (dags_table c ∷ runs_table run_columns run_statuses (λ r. []) c ∷ tables)

abbrev copied_to : List SqlRow → String × Table
copied_to rows = (
  "task_runs_new",
  record { columns = task_columns; statuses = skipping_task_statuses; rows = rows },
)

abbrev left_behind : ℕ → Contents → Database
left_behind zero c = database version1 c
left_behind (suc zero) c = database version1 c
left_behind (suc (suc zero)) c = left (tasks_table first_task_statuses c ∷ copied_to [] ∷ []) c
left_behind (suc (suc (suc zero))) c =
    left (tasks_table first_task_statuses c ∷ copied_to (map task_row c.tasks) ∷ []) c
left_behind (suc (suc (suc (suc zero)))) c = left (copied_to (map task_row c.tasks) ∷ []) c
left_behind (suc (suc (suc (suc (suc n))))) c = left (tasks_table skipping_task_statuses c ∷ []) c

take_all {ℓ} : {A : Type ℓ} (n : ℕ) → take {A = A} n [] ≡ []
take_all zero = refl
take_all (suc n) = refl

module _ (c : Contents) (a : IsAllowed version1 c) where
  copy_passes :
      all
        (passes skipping_task_statuses)
        (map (selected_row (same_columns task_columns)) (map task_row c.tasks))
      ≡ true
  copy_passes =
      copied_anew "pending" ("running" ∷ "succeeded" ∷ "failed" ∷ "skipped" ∷ [])
        first_task_statuses c.tasks refl a.1

  crashed_at : (n : ℕ) → crash_behind n allow_skipped (database version1 c) ≡ ok (left_behind n c)
  unfolding crash_behind execute_script execute database
  crashed_at zero = refl
  crashed_at (suc zero) = refl
  crashed_at (suc (suc zero)) = refl
  crashed_at (suc (suc (suc zero))) = rw copy_passes (rw (tasks_copied c.tasks) refl)
  crashed_at (suc (suc (suc (suc zero)))) = rw copy_passes (rw (tasks_copied c.tasks) refl)
  crashed_at (suc (suc (suc (suc (suc n))))) = rw copy_passes (
      rw (tasks_copied c.tasks) (
        ap (λ rest. execute_script rest (left (tasks_table skipping_task_statuses c ∷ []) c))
          (take_all n)))

  -- The migration, run again on what is left.
  again :
      (n : ℕ)
      → migrate (2, allow_skipped) (left_behind n c)
        ≡ (if n == 4 then err operational_error else ok (database version2 c))
  unfolding migrate prepare_version execute_script execute database
  again zero = rw (copy_passes, tasks_copied c.tasks) refl
  again (suc zero) = rw (copy_passes, tasks_copied c.tasks) refl
  again (suc (suc zero)) = rw (copy_passes, tasks_copied c.tasks) refl
  again (suc (suc (suc zero))) = rw (copy_passes, tasks_copied c.tasks) refl
  again (suc (suc (suc (suc zero)))) = refl
  again (suc (suc (suc (suc (suc n))))) =
      let late : (suc (suc (suc (suc (suc n)))) == 4) ≡ false = ground arith in
      rw (copy_passes, tasks_copied c.tasks, late) refl

reopened :
    (n : ℕ) (c : Contents)
    → ensure_schema (left_behind n c)
      ≡ (migrate (2, allow_skipped) (left_behind n c) >>= migrate_from 2 after_second)
unfolding ensure_schema migrate_from database
reopened zero c = refl
reopened (suc zero) c = refl
reopened (suc (suc zero)) c = refl
reopened (suc (suc (suc zero))) c = refl
reopened (suc (suc (suc (suc zero)))) c = refl
reopened (suc (suc (suc (suc (suc n))))) c = refl

-- The second migration is safe to run again after a crash behind any of its statements, but for
-- one: once the old `task_runs` is dropped, and the new table does not have its name yet, the next
-- process drops the new table, the only one with the rows, and fails.
pub crash_behind-ensure_schema :
    (n : ℕ) (c : Contents)
    → IsAllowed version1 c
    → (crash_behind n allow_skipped (database version1 c) >>= ensure_schema)
      ≡ (if n == 4 then err operational_error else ok (database version7 (upgraded version1 c)))
crash_behind-ensure_schema n c a =
    ap (λ r. r >>= ensure_schema) (crashed_at c a n)
    ∙ reopened n c
    ∙ ap (λ r. r >>= migrate_from 2 after_second) (again c a n)
    ∙ continued (n == 4)
  where
    continued :
        (b : Bool)
        → ((if b then err operational_error else ok (database version2 c))
            >>= migrate_from 2 after_second)
          ≡ (if b then err operational_error else ok (database version7 (upgraded version1 c)))
    continued true = refl
    continued false =
        from_second c (
          widened run_statuses first_task_statuses run_statuses skipping_task_statuses c refl refl
            a)
