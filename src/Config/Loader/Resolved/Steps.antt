-- ===== src/Config/Loader/Resolved/Steps.antt =====
-- The Python jobs of a pipeline that loads.
use nexolith.Base.{
  String, ◌≡◌, refl, inl, inr, Option, none, some, List, [], ◌∷◌, arith, ok, Bool-cases, string_eq,
  nat_eq, ◌>>=◌, >>=-eq-ok, All,
}
use nexolith.Config.Loader.{
  Project, resolve_python_jobs, resolve_python_job, resolve_step, resolved_path,
}
use nexolith.Config.Models.{PythonJobConfig, TransformationConfig, python_job}
use nexolith.Jobs.{resolve_entrypoint, load_job_module, JobModule, callable_function, Attribute}
use nexolith.Types.{field_of}
use nexolith.Config.Loader.Resolved.{IsResolvedStep}

module _ (project : Project) where
  resolve_entrypoint-ok :
      (m : JobModule) (entrypoint path : String) (u : Unit {0})
      → resolve_entrypoint project.interpreter m entrypoint path ≡ ok u
      → field_of entrypoint m ≡ some callable_function
  unfolding resolve_entrypoint
  resolve_entrypoint-ok m entrypoint path u h = attribute (field_of entrypoint m) refl h
    where
      attribute :
          (o : Option Attribute)
          → field_of entrypoint m ≡ o
          → resolve_entrypoint project.interpreter m entrypoint path ≡ ok u
          → field_of entrypoint m ≡ some callable_function
      attribute none e q = absurd (ground (arith, e, q))
      attribute (some Attribute.not_callable) e q = absurd (ground (arith, e, q))
      attribute (some Attribute.callable_function) e q = e

  resolve_python_job-IsResolved :
      (base : String) (job out : PythonJobConfig)
      → resolve_python_job project base job ≡ ok out
      → IsResolvedStep project (python_job out)
  unfolding resolve_python_job
  resolve_python_job-IsResolved base job out h =
      elim (Bool-cases (project.is_file (resolved_path project base job.file))) [
        | inr e ↦ absurd (ground (arith, e, h))
        | inl e ↦
            let path = resolved_path project base job.file in
            let (m, imported_as, rest) =
              >>=-eq-ok (load_job_module project.interpreter path)
                (λ m.
                  resolve_entrypoint project.interpreter m job.entrypoint path
                  >>= (λ u. ok (record job { file = path })))
                out (ground (arith, e, h)) in
            let (u, found, same) =
              >>=-eq-ok (resolve_entrypoint project.interpreter m job.entrypoint path) _ out rest in
            let same_out : record job { file = path } ≡ out = ground (arith, same) in
            rw (← same_out) (e, m, imported_as, resolve_entrypoint-ok m job.entrypoint path u found)
      ]

  resolve_step-IsResolved :
      (base : String) (step out : TransformationConfig)
      → resolve_step project base step ≡ ok out
      → IsResolvedStep project out
  unfolding resolve_step
  resolve_step-IsResolved base (python_job job) out h =
      let (j, resolved, same) = >>=-eq-ok (resolve_python_job project base job) _ out h in
      let same_out : python_job j ≡ out = ground (arith, same) in
      rw (← same_out) (resolve_python_job-IsResolved base job j resolved)
  resolve_step-IsResolved base (TransformationConfig.select columns) out h =
      let same : TransformationConfig.select columns ≡ out = ground (arith, h) in rw (← same) tt
  resolve_step-IsResolved base (TransformationConfig.rename columns) out h =
      let same : TransformationConfig.rename columns ≡ out = ground (arith, h) in rw (← same) tt
  resolve_step-IsResolved base (TransformationConfig.drop_nulls columns) out h =
      let same : TransformationConfig.drop_nulls columns ≡ out = ground (arith, h) in rw (← same) tt
  resolve_step-IsResolved base (TransformationConfig.filter_rows c o v) out h =
      let same : TransformationConfig.filter_rows c o v ≡ out = ground (arith, h) in rw (← same) tt

  pub resolve_python_jobs-IsResolved :
      (base : String) (steps out : List TransformationConfig)
      → resolve_python_jobs project base steps ≡ ok out
      → All (IsResolvedStep project) out
  unfolding resolve_python_jobs
  resolve_python_jobs-IsResolved base [] out h =
      let same : [] ≡ out = ground (arith, h) in rw (← same) tt
  resolve_python_jobs-IsResolved base (step ∷ steps) out h =
      let (one, first, rest) = >>=-eq-ok (resolve_step project base step) _ out h in
      let (others, more, same) = >>=-eq-ok (resolve_python_jobs project base steps) _ out rest in
      let same_out : (one ∷ others) ≡ out = ground (arith, same) in
      rw (← same_out) (
        resolve_step-IsResolved base step one first,
        resolve_python_jobs-IsResolved base steps others more,
      )
