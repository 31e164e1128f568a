-- ===== src/Nexofunctions/Loader.antt =====
-- src/nexolith/nexofunctions/loader.py and src/nexolith/nexoactions/loader.py, which do the same for
-- the two kinds of definitions. The directory, and what importing a file gives, are parameters.
pub mod Discovered
use nexolith.Base.{
  String, Bool, true, false, not, ◌||◌, Option, none, some, List, [], ◌∷◌, map, ◌==◌, if◌then◌else◌,
  Result, ok, err, Error, string_eq, nat_eq, ◌>>=◌, ◌>>◌, >>=-eq-ok, concat, is_some, text_le,
}
use nexolith.Nexofunctions.Registry.{register_function, Registry, register_action}
use nexolith.Types.{assign, field_of}
use nexolith.Base.Sort.{sort_by}
use nexolith.Nexofunctions.Names.{after_prefix}

-- What importing a file ends with.
pub data Imported {ℓ} (D : Type ℓ) : Type ℓ where
  no_loader : Imported D
  -- An `Exception`, by its type.
  import_failed : String → Imported D
  -- The export, if it is a definition of the kind.
  imported : Option D → Imported D

pub record LocalFile {ℓ} (D : Type ℓ) : Type ℓ where
  pub name : String
  pub is_symlink : Bool
  -- Its resolved parent is the resolved directory.
  pub is_inside : Bool
  pub import_file : Imported D

-- The directory of a project, with the files that end in `.py`.
pub record LocalDirectory {ℓ} (D : Type ℓ) : Type ℓ where
  pub exists : Bool
  pub is_symlink : Bool
  pub is_dir : Bool
  pub python_files : List (LocalFile D)

-- What the texts of the two loaders call a definition, its directory and its export.
pub record Wording : Type 0 where
  pub noun : String
  pub directory : String
  pub export : String

abbrev pub function_wording : Wording
function_wording = record {
  noun = "Nexo Function";
  directory = "nexofunctions";
  export = "NEXO_FUNCTION";
}

abbrev pub action_wording : Wording
action_wording = record { noun = "Nexo Action"; directory = "nexoactions"; export = "NEXO_ACTION" }

abbrev refusal {ℓ} : {A : Type ℓ} → List String → Result A
refusal pieces = err (Error.configuration_error (concat pieces))

-- Python files that hold no definition.
abbrev pub is_private : String → Bool
is_private name = name == "__init__.py" || is_some (after_prefix "_" name)

-- The key of the sort.
abbrev pub by_file_name {ℓ} : {D : Type ℓ} → LocalFile D → LocalFile D → Bool
by_file_name a b = text_le a.name b.name

module _ {ℓ} {D : Type ℓ} (w : Wording) (name_of : D → String) where
  abbrev defined : String → Imported D → Result D
  defined file no_loader = refusal ("Could not load local " ∷ w.noun ∷ " file '" ∷ file ∷ "'." ∷ [])
  defined file (import_failed type) =
      refusal ("Local " ∷ w.noun ∷ " file '" ∷ file ∷ "' raised " ∷ type ∷ " while importing." ∷ [])
  defined file (imported none) =
      refusal (
        "Local " ∷ w.noun ∷ " file '" ∷ file ∷ "' must export one " ∷ w.export ∷ " definition."
        ∷ [])
  defined file (imported (some definition)) = ok definition

  unfoldable pub load_definition : LocalFile D → Result D
  load_definition file =
      if file.is_symlink || not file.is_inside
      then refusal (
          "Local " ∷ w.noun ∷ " file '" ∷ file.name ∷ "' must stay inside '" ∷ w.directory ∷ "'."
          ∷ [])
      else defined file.name file.import_file

  -- The first loop: each definition with the name of its file.
  unfoldable pub load_files : List (LocalFile D) → Result (List (D × String))
  unfolding load_definition after_prefix
  load_files [] = ok []
  load_files (file ∷ files) =
      let rest = load_files files in
      if is_private file.name
      then rest
      else load_definition file >>= (λ d. rest >>= (λ ds. ok ((d, file.name) ∷ ds)))

  -- The second loop: the first name that stands twice is an error.
  unfoldable pub check_names : List (String × String) → List (D × String) → Result (Unit {0})
  check_names by_name [] = ok tt
  check_names by_name ((d, file) ∷ rest) =
      let others = check_names (assign (name_of d) file by_name) rest in
      elim (field_of (name_of d) by_name) [
        | none ↦ others
        | some previous ↦ refusal (
            "Duplicate local "
            ∷ w.noun
            ∷ " '"
            ∷ name_of d
            ∷ "' in '"
            ∷ previous
            ∷ "' and '"
            ∷ file
            ∷ "'."
            ∷ [])
      ]

  -- Both loops.
  unfoldable pub discover_files : List (LocalFile D) → Result (List D)
  unfolding load_files check_names
  discover_files files = do
    found ← load_files files
    checked ← check_names [] found
    ok (map (λ entry. entry.0) found)

  unfoldable pub discover_local : LocalDirectory D → Result (List D)
  unfolding discover_files sort_by
  discover_local directory =
      if not directory.exists
      then ok []
      else if directory.is_symlink || not directory.is_dir
      then refusal
          ("Local " ∷ w.noun ∷ " location '" ∷ w.directory ∷ "' must be a real directory." ∷ [])
      else discover_files (sort_by by_file_name directory.python_files)

module _ {ℓ} {D : Type ℓ} (name_of : D → String) where
  -- The loops over the discovered definitions.
  unfoldable pub register_functions : List D → Registry D → Result (Registry D)
  unfolding register_function
  register_functions [] registry = ok registry
  register_functions (d ∷ ds) registry =
      register_function true (name_of d) d registry >>= register_functions ds

  unfoldable pub register_actions : List D → Registry D → Result (Registry D)
  unfolding register_action
  register_actions [] registry = ok registry
  register_actions (d ∷ ds) registry =
      register_action (name_of d) d registry >>= register_actions ds

  -- `builtin_nexo_function_registry`.
  unfoldable pub register_builtins : List D → Registry D → Result (Registry D)
  unfolding register_function
  register_builtins [] registry = ok registry
  register_builtins (d ∷ ds) registry =
      register_function false (name_of d) d registry >>= register_builtins ds

  -- The built-in functions, and over them the local ones.
  unfoldable pub load_function_registry : List D → LocalDirectory D → Result (Registry D)
  unfolding discover_local register_functions register_builtins
  load_function_registry builtins directory = do
    registry ← register_builtins builtins []
    local ← discover_local function_wording name_of directory
    register_functions local registry

  unfoldable pub load_action_registry : LocalDirectory D → Result (Registry D)
  unfolding discover_local register_actions
  load_action_registry directory = do
    local ← discover_local action_wording name_of directory
    register_actions local []
