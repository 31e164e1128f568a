-- ===== src/Config/Loader/Resolved/Loaded.antt =====
-- The source of a pipeline that loads, and the whole.
use nexolith.Base.{
  String, ◌≡◌, refl, inl, inr, Option, none, some, List, [], ◌∷◌, arith, ◌==◌, ok, Bool-cases,
  string_eq, nat_eq, >>=-eq-ok, Nodup, subst, sym, eq_iff,
}
use nexolith.Config.Loader.{
  Project, resolve_parameters, resolve_python_jobs, resolve_references, load_pipeline,
  resolve_csv_source, resolve_csv_destination, resolved_path, resolve_sql_parameters, read_document,
  resolve_query_file, resolve_nexo_function, resolve_nexo_actions, validated_document, read_query,
}
use nexolith.Config.Models.{
  pipeline_faults, ConfigFault, DestinationConfig, SourceConfig, PipelineDocument, csv_source,
  csv_destination, sql_destination, sql_source, function_destination,
}
use nexolith.Types.{Parameters}
use nexolith.Nexoactions.Contracts.{keys}
use nexolith.Config.Environment.{resolve_environment, Node}
use nexolith.Config.Loader.Resolved.{IsResolvedDestination, IsResolvedSource, IsResolved}
use nexolith.Config.Loader.Resolved.Found.{
  resolve_nexo_function-IsResolved, resolve_nexo_actions-AreResolved, resolve_nexo_actions-types,
}
use nexolith.Config.Models.Valid.{IsNamed, pipeline_faults-valid}
use nexolith.Config.Loader.Merged.{resolve_sql_parameters_iff}
use nexolith.Config.Loader.Resolved.Kept.{
  HasText, IsQueried, Keeps, resolve_parameters-KeepsSource, resolve_python_jobs-placed,
  resolve_function-plain, resolve_nexo_actions-plain,
}
use nexolith.Config.Loader.Resolved.Steps.{resolve_python_jobs-IsResolved}

module _ (project : Project) where
  resolve_query_file-IsQueried :
      (base : String) (source out : SourceConfig)
      → IsNamed source
      → resolve_query_file project base source ≡ ok out
      → IsNamed out × IsQueried project base source out
  unfolding resolve_query_file
  resolve_query_file-IsQueried base (csv_source c) out named h =
      let same : csv_source c ≡ out = ground (arith, h) in rw (← same) (tt, refl)
  resolve_query_file-IsQueried base (sql_source s) out named h = go s.query_file refl
    where
      text_of :
          {o : Option String} (query : Option String)
          → s.query_file ≡ o
          → HasText project base o s.query query
          → HasText project base s.query_file s.query query
      text_of query e t = subst (λ file. HasText project base file s.query query) (sym e) t

      unchanged :
          {o : Option String}
          → s.query_file ≡ o
          → HasText project base o s.query s.query
          → sql_source s ≡ out
          → IsNamed out × IsQueried project base (sql_source s) out
      unchanged e t same = rw (← same) (named, (s.query, text_of s.query e t, refl))

      go :
          (o : Option String)
          → s.query_file ≡ o
          → IsNamed out × IsQueried project base (sql_source s) out
      go none e = unchanged e refl (ground (arith, e, h))
      go (some file) e = elim (Bool-cases (file == "")) [
        | inl q ↦ unchanged e (inl ((eq_iff file "").0 q, refl)) (ground (arith, e, q, h))
        | inr q ↦
            let (text, read, same) =
              >>=-eq-ok (read_query project (resolved_path project base file))
                (λ t. ok (sql_source (record s { query = some t }))) out
                (ground (arith, e, q, h)) in
            let same_out : sql_source (record s { query = some text }) ≡ out =
              ground (arith, same) in
            rw (← same_out) (
              ground (arith, e, q),
              (some text, text_of (some text) e (inr (text, read, refl)), refl),
            )
      ]

  resolve_parameters-IsResolved :
      (source out : SourceConfig) (overrides : Parameters)
      → Nodup (keys overrides)
      → IsNamed source
      → resolve_parameters source overrides ≡ ok out
      → IsResolvedSource out
  unfolding resolve_parameters
  resolve_parameters-IsResolved (csv_source c) out [] d named h =
      let same : csv_source c ≡ out = ground (arith, h) in rw (← same) tt
  resolve_parameters-IsResolved (csv_source c) out (o ∷ os) d named h = absurd (cc)
  resolve_parameters-IsResolved (sql_source s) out overrides d named h =
      let (ps, merged_as, same) =
        >>=-eq-ok (resolve_sql_parameters s.parameters overrides) _ out h in
      let same_out : sql_source (record s { parameters = ps }) ≡ out = ground (arith, same) in
      rw (← same_out)
        (named, ((resolve_sql_parameters_iff s.parameters overrides ps d).0 merged_as).1.set)

  csv_source-IsResolved :
      (base : String) (source : SourceConfig)
      → IsResolvedSource source
      → IsResolvedSource (resolve_csv_source project base source)
  csv_source-IsResolved base (csv_source c) h = h
  csv_source-IsResolved base (sql_source s) h = h

  csv_destination-IsResolved :
      (base : String) (d : DestinationConfig)
      → IsResolvedDestination project d
      → IsResolvedDestination project (resolve_csv_destination project base d)
  csv_destination-IsResolved base (csv_destination c) h = h
  csv_destination-IsResolved base (sql_destination c) h = h
  csv_destination-IsResolved base (function_destination c) h = h

  resolve_references-IsResolved :
      (base : String) (overrides : Parameters) (p out : PipelineDocument)
      → Nodup (keys overrides)
      → pipeline_faults p ≡ []
      → resolve_references project base overrides p ≡ ok out
      → Keeps project base overrides p out × IsResolved project out
  unfolding resolve_references
  resolve_references-IsResolved base overrides p out d valid h =
      let (named, distinct) = pipeline_faults-valid p valid in
      let (queried, e₁, h₁) = >>=-eq-ok (resolve_query_file project base p.source) _ out h in
      let (source, e₂, h₂) = >>=-eq-ok (resolve_parameters queried overrides) _ out h₁ in
      let (steps, e₃, h₃) =
        >>=-eq-ok (resolve_python_jobs project base p.transformations) _ out h₂ in
      let (destination, e₄, h₄) =
        >>=-eq-ok (resolve_nexo_function project p.destination) _ out h₃ in
      let (actions, e₅, h₅) = >>=-eq-ok (resolve_nexo_actions project p.actions) _ out h₄ in
      let (still_named, asked) = resolve_query_file-IsQueried base p.source queried named e₁ in
      let same : record {
        name = p.name;
        source = resolve_csv_source project base source;
        transformations = steps;
        destination = resolve_csv_destination project base destination;
        actions = actions;
      }
          ≡ out =
        ground (arith, h₅) in
      rw (← same) (
        record {
          name = refl;
          source =
              resolve_parameters-KeepsSource project base p.source queried source overrides asked
                e₂;
          steps = resolve_python_jobs-placed project base p.transformations steps e₃;
          destination = resolve_function-plain project base p.destination destination e₄;
          actions = resolve_nexo_actions-plain project p.actions actions e₅;
        },
        record {
          source =
              csv_source-IsResolved base source
                (resolve_parameters-IsResolved queried source overrides d still_named e₂);
          steps = resolve_python_jobs-IsResolved project base p.transformations steps e₃;
          destination =
              csv_destination-IsResolved base destination
                (resolve_nexo_function-IsResolved project p.destination destination e₄);
          actions = resolve_nexo_actions-AreResolved project p.actions actions e₅;
          actions_distinct = rw (resolve_nexo_actions-types project p.actions actions e₅) distinct;
        },
      )

  validated_document-valid :
      (node : Node) (p : PipelineDocument)
      → validated_document project node ≡ ok p
      → pipeline_faults p ≡ []
  unfolding validated_document
  validated_document-valid node p h = go (project.model_validate node) refl h
    where
      go :
          (o : Option PipelineDocument)
          → project.model_validate node ≡ o
          → validated_document project node ≡ ok p
          → pipeline_faults p ≡ []
      go none e q = absurd (ground (arith, e, q))
      go (some document) e q = faultless (pipeline_faults document) refl
        where
          faultless :
              (faults : List ConfigFault)
              → pipeline_faults document ≡ faults
              → pipeline_faults p ≡ []
          faultless [] f = let same : document ≡ p = ground (arith, e, q, f) in rw (← same) f
          faultless (x ∷ xs) f = absurd (ground (arith, e, q, f))

  -- The configuration that a file holds, as it passes validation.
  pub record IsWritten (path : String) (config : PipelineDocument) : Type 0 where
    pub document : Node
    pub resolved : Node
    pub read : read_document project path ≡ ok document
    pub environment : resolve_environment project.environment document ≡ ok resolved
    pub valid : validated_document project resolved ≡ ok config

  -- A pipeline that loads is the configuration that its file holds, and what it refers to is there.
  -- The paths of its CSV files and of its Python jobs are placed in the directory of the file, its
  -- query is the text of its query file, if it has one, its parameters are those of the
  -- configuration with the overrides over them, and definitions are added to its function and its
  -- actions; the rest is kept. A SQL source names a query, a query file or a table, and all its
  -- parameters have values. The files of the jobs can be imported and have their entrypoints. The
  -- registry of functions has the function of the destination, and that of actions each of the
  -- actions, under the name that the configured type stands for; these are the definitions that are
  -- added, and they take the parameters that the pipeline gives. No two actions have the same type.
  -- The hypothesis is that the overrides, a dictionary, have distinct names.
  pub load_pipeline-IsResolved :
      (path : String) (overrides : Parameters) (p : PipelineDocument)
      → Nodup (keys overrides)
      → load_pipeline project path overrides ≡ ok p
      → (config : PipelineDocument) × IsWritten path config
        × Keeps project (project.parent path) overrides config p
        × IsResolved project p
  unfolding load_pipeline
  load_pipeline-IsResolved path overrides p d h =
      let (document, e₁, h₁) = >>=-eq-ok (read_document project path) _ p h in
      let (resolved, e₂, h₂) =
        >>=-eq-ok (resolve_environment project.environment document) _ p h₁ in
      let (config, e₃, h₃) = >>=-eq-ok (validated_document project resolved) _ p h₂ in
      let (kept, there) =
        resolve_references-IsResolved (project.parent path) overrides config p d
          (validated_document-valid resolved config e₃) h₃ in
      (
        config,
        record {
          document = document;
          resolved = resolved;
          read = e₁;
          environment = e₂;
          valid = e₃;
        },
        kept,
        there,
      )
