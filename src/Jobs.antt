-- ===== src/Jobs.antt =====
-- src/nexolith/jobs/loader.py and transformations/python_job.py: Python jobs. Importing a file, and
-- what its functions do, are parameters.
use nexolith.Base.{
  String, none, some, List, [], ◌∷◌, if◌then◌else◌, Result, ok, err, Error, string_eq, nat_eq,
  ◌>>=◌, concat,
}
use nexolith.Types.{Parameters, Rows, field_of}
use nexolith.Runner.{is_interruption}

-- What stands under a name of a module; a name that is bound to None counts as missing.
pub data Attribute : Type 0 where
  not_callable callable_function : Attribute

abbrev pub JobModule : Type 0
JobModule = List (String × Attribute)

pub data JobImport : Type 0 where
  no_spec : JobImport
  -- An `Exception`, by its type.
  import_raised : String → JobImport
  job_module : JobModule → JobImport

-- What a call of an entrypoint ends with.
pub data JobReturned : Type 0 where
  job_rows : Rows → JobReturned
  -- Another object, by its type.
  no_list : String → JobReturned
  job_raised : Error → JobReturned

pub record Interpreter : Type 0 where
  pub import_file : String → JobImport
  pub call : String → String → Rows → Parameters → JobReturned
  -- The name of the type of an exception.
  pub type_of : Error → String
  -- `path.name`.
  pub file_name : String → String

module _ (py : Interpreter) where
  unfoldable pub load_job_module : String → Result JobModule
  load_job_module path = elim (py.import_file path) [
    | no_spec ↦
        err (Error.configuration_error (concat ("Could not load Python job file: " ∷ path ∷ [])))
    | import_raised type ↦ err (
        Error.configuration_error
          (concat ("Python job file raised " ∷ type ∷ " while importing: " ∷ path ∷ [])))
    | job_module m ↦ ok m
  ]

  unfoldable pub resolve_entrypoint : JobModule → String → String → Result (Unit {0})
  resolve_entrypoint m entrypoint path = elim (field_of entrypoint m) [
    | none ↦ err (
        Error.configuration_error
          (concat ("Python job file " ∷ path ∷ " has no function named '" ∷ entrypoint ∷ "'" ∷ [])))
    | some not_callable ↦ err (
        Error.configuration_error
          (concat ("Python job file " ∷ path ∷ ": '" ∷ entrypoint ∷ "' is not callable" ∷ [])))
    | some callable_function ↦ ok tt
  ]

  -- Only an `Exception` is replaced, without its message.
  abbrev pub step_failed : String → String → Error → Error
  step_failed path entrypoint e =
      if is_interruption e
      then e
      else Error.transformation_error (
          concat (
            "Python job step failed: entrypoint '"
            ∷ entrypoint
            ∷ "' in "
            ∷ py.file_name path
            ∷ " raised "
            ∷ py.type_of e
            ∷ "."
            ∷ []))

  abbrev pub returned_rows : String → String → JobReturned → Result Rows
  returned_rows path entrypoint (job_rows rows) = ok rows
  returned_rows path entrypoint (no_list type) = err (
      Error.transformation_error (
        concat (
          "Python job step failed: entrypoint '"
          ∷ entrypoint
          ∷ "' in "
          ∷ py.file_name path
          ∷ " must return a list of rows, got "
          ∷ type
          ∷ "."
          ∷ [])))
  returned_rows path entrypoint (job_raised e) = err (step_failed path entrypoint e)

  abbrev pub or_step_failed {ℓ} : {A : Type ℓ} → String → String → Result A → Result A
  or_step_failed path entrypoint (ok a) = ok a
  or_step_failed path entrypoint (err e) = err (step_failed path entrypoint e)

  -- `PythonJob.apply`.
  unfoldable pub apply_job : String → String → Parameters → Rows → Result Rows
  unfolding load_job_module resolve_entrypoint
  apply_job path entrypoint parameters rows = do
    m ← or_step_failed path entrypoint (load_job_module path)
    found ← or_step_failed path entrypoint (resolve_entrypoint m entrypoint path)
    returned_rows path entrypoint (py.call path entrypoint rows parameters)
