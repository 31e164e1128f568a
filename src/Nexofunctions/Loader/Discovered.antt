-- ===== src/Nexofunctions/Loader/Discovered.antt =====
-- What the registries of a project hold.
use nexolith.Base.{
  String, ◌≡◌, refl, ◌∙◌, inl, inr, true, false, not, ◌||◌, Option, none, some, List, [], ◌∷◌, map,
  arith, eq_iff, ◌==◌, ok, Option-cases, Bool-cases, string_eq, nat_eq, >>=-eq-ok, find, contains,
  is_some, Nodup,
}
use nexolith.Types.{field_of, assign, field_of-assign}
use nexolith.Nexofunctions.Loader.{
  register_functions, check_names, discover_local, register_actions, Wording, LocalDirectory,
  load_action_registry, register_builtins, load_function_registry, discover_files, LocalFile,
  by_file_name, action_wording, function_wording, load_files,
}
use nexolith.Nexofunctions.Registry.{register_function, Registry, register_action}
use nexolith.Base.Sort.{sort_by}

module _ {ℓ} {D : Type ℓ} (name_of : D → String) where
  abbrev pub names_of : List D → List String
  names_of ds = map name_of ds

  -- The definition of a name, if there is one.
  abbrev pub named : String → List D → Option D
  named n ds = find (λ d. name_of d == n) ds

  abbrev pub or_else : Option D → Option D → Option D
  or_else (some d) other = some d
  or_else none other = other

  absent_named : (n : String) (ds : List D) → contains (names_of ds) n ≡ false → named n ds ≡ none
  absent_named n [] h = refl
  absent_named n (d ∷ ds) h = ground (arith, absent_named n ds, h)

  -- The registry once the definitions were put into it, one by one.
  abbrev put_all : List D → Registry D → Registry D
  put_all [] r = r
  put_all (d ∷ ds) r = put_all ds (assign (name_of d) d r)

  put_all-field_of :
      (n : String) (ds : List D) (r : Registry D)
      → Nodup (names_of ds)
      → field_of n (put_all ds r) ≡ or_else (named n ds) (field_of n r)
  put_all-field_of n [] r d = refl
  put_all-field_of n (x ∷ xs) r d =
      put_all-field_of n xs (assign (name_of x) x r) d.1
      ∙ ground
          (arith, field_of-assign n (name_of x) x r, absent_named n xs, d.0, eq_iff (name_of x) n)

  -- No name that is to come is there.
  abbrev Fresh : List D → Registry D → Type ℓ
  Fresh ds r = (n : String) → contains (names_of ds) n ≡ true → field_of n r ≡ none

  Fresh-assign :
      (x : D) (xs : List D) (r : Registry D)
      → Nodup (names_of (x ∷ xs))
      → Fresh (x ∷ xs) r
      → Fresh xs (assign (name_of x) x r)
  Fresh-assign x xs r d h n m =
      ground (arith, field_of-assign n (name_of x) x r, h n, m, d.0, eq_iff (name_of x) n)

  register_functions-eq :
      (ds : List D) (r : Registry D) → register_functions name_of ds r ≡ ok (put_all ds r)
  unfolding register_functions register_function
  register_functions-eq [] r = refl
  register_functions-eq (x ∷ xs) r =
      ground (arith, register_functions-eq xs (assign (name_of x) x r))

  register_actions-eq :
      (ds : List D) (r : Registry D)
      → Nodup (names_of ds)
      → Fresh ds r
      → register_actions name_of ds r ≡ ok (put_all ds r)
  unfolding register_actions register_action
  register_actions-eq [] r d h = refl
  register_actions-eq (x ∷ xs) r d h =
      let first : field_of (name_of x) r ≡ none =
        h (name_of x) (ground (arith, eq_iff (name_of x) (name_of x))) in
      ground (
        arith,
        first,
        register_actions-eq xs (assign (name_of x) x r) d.1 (Fresh-assign x xs r d h),
      )

  register_builtins-eq :
      (ds : List D) (r : Registry D)
      → Nodup (names_of ds)
      → Fresh ds r
      → register_builtins name_of ds r ≡ ok (put_all ds r)
  unfolding register_builtins register_function
  register_builtins-eq [] r d h = refl
  register_builtins-eq (x ∷ xs) r d h =
      let first : field_of (name_of x) r ≡ none =
        h (name_of x) (ground (arith, eq_iff (name_of x) (name_of x))) in
      ground (
        arith,
        first,
        register_builtins-eq xs (assign (name_of x) x r) d.1 (Fresh-assign x xs r d h),
      )

  -- The second loop lets nothing through whose name stood before.
  check_names-Nodup :
      (w : Wording) (by_name : List (String × String)) (found : List (D × String)) (u : Unit {0})
      → check_names w name_of by_name found ≡ ok u
      → Nodup (names_of (map (λ entry. entry.0) found))
        × ((n : String)
            → is_some (field_of n by_name) ≡ true
            → contains (names_of (map (λ entry. entry.0) found)) n ≡ false)
  unfolding check_names
  check_names-Nodup w by_name [] u h = (tt, λ n m. refl)
  check_names-Nodup w by_name ((d, file) ∷ rest) u h =
      elim (Option-cases (field_of (name_of d) by_name)) [
        | inr (previous, e) ↦ absurd (ground (arith, e))
        | inl e ↦
            let (distinct, others) =
              check_names-Nodup w (assign (name_of d) file by_name) rest u (ground (arith, e)) in
            (
              (
                others (name_of d) (
                    ground (
                      arith,
                      field_of-assign (name_of d) (name_of d) file by_name,
                      eq_iff (name_of d) (name_of d),
                    )),
                distinct,
              ),
              λ n m. ground (
                arith,
                others n,
                field_of-assign n (name_of d) file by_name,
                eq_iff (name_of d) n,
                e,
                m,
              ),
            )
      ]

  discover_files-Nodup :
      (w : Wording) (files : List (LocalFile D)) (ds : List D)
      → discover_files w name_of files ≡ ok ds
      → Nodup (names_of ds)
  unfolding discover_files
  discover_files-Nodup w files ds h =
      let (found, e, rest) = >>=-eq-ok (load_files w name_of files) _ ds h in
      let (u, checked, same) = >>=-eq-ok (check_names w name_of [] found) _ ds rest in
      let same_ds : map (λ entry. entry.0) found ≡ ds = ground (arith, same) in
      rw (← same_ds) (check_names-Nodup w [] found u checked).0

  -- What is discovered has distinct names.
  discover_local-Nodup :
      (w : Wording) (directory : LocalDirectory D) (ds : List D)
      → discover_local w name_of directory ≡ ok ds
      → Nodup (names_of ds)
  unfolding discover_local
  discover_local-Nodup w directory ds h = elim (Bool-cases directory.exists) [
    | inr e ↦ let empty : [] ≡ ds = ground (arith, e) in rw (← empty) tt
    | inl e ↦ elim (Bool-cases (directory.is_symlink || not directory.is_dir)) [
      | inl q ↦ absurd (ground (arith, e, q))
      | inr q ↦
          discover_files-Nodup w (sort_by by_file_name directory.python_files) ds
            (ground (arith, e, q))
    ]
  ]

  -- A registry that holds the local definitions over others.
  abbrev pub Holds : List D → List D → Registry D → Type ℓ
  Holds local builtins registry =
      (n : String) → field_of n registry ≡ or_else (named n local) (named n builtins)

  -- If the local functions of a project can be discovered, the registry of the project is made, and
  -- it gives for every name the local definition, where there is one, and else the built-in one. The
  -- hypothesis is that the names of the built-in functions are distinct.
  pub load_function_registry-Holds :
      (builtins local : List D) (directory : LocalDirectory D)
      → Nodup (names_of builtins)
      → discover_local function_wording name_of directory ≡ ok local
      → (registry : Registry D) × (load_function_registry name_of builtins directory ≡ ok registry)
        × Holds local builtins registry
  unfolding load_function_registry
  load_function_registry-Holds builtins local directory d h = (
    put_all local (put_all builtins []),
    rw (register_builtins-eq builtins [] d (λ n m. refl), h)
        (register_functions-eq local (put_all builtins [])),
    λ n. ground (
      arith,
      put_all-field_of n local (put_all builtins [])
          (discover_local-Nodup function_wording directory local h),
      put_all-field_of n builtins [] d,
    ),
  )

  -- The registry of actions is made whenever the local actions can be discovered, never fails with a
  -- name that is registered twice, and gives for every name the local definition.
  load_action_registry-Holds :
      (local : List D) (directory : LocalDirectory D)
      → discover_local action_wording name_of directory ≡ ok local
      → (registry : Registry D) × (load_action_registry name_of directory ≡ ok registry)
        × Holds local [] registry
  unfolding load_action_registry
  load_action_registry-Holds local directory h =
      let distinct = discover_local-Nodup action_wording directory local h in
      (
        put_all local [],
        rw h (register_actions-eq local [] distinct (λ n m. refl)),
        λ n. put_all-field_of n local [] distinct,
      )
