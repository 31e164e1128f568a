-- ===== src/Scheduler/Daemon/Ticks.antt =====
-- How often the daemon ticks.
use nexolith.Base.{
  Error, ok, err, ◌⊎◌, ℕ, zero, suc, ◌+◌, ◌≤◌, List, Bool, some, ◌≡◌, refl, arith, inl, inr,
  Bool-cases, Result, Result-cases,
}
use nexolith.Dag.Validator.{Files}
use nexolith.Dag.Executor.{Call}
use nexolith.ProcessIdentity.{ProcessIdentityProvider}
use nexolith.State.Models.{Time, DagRecord}
use nexolith.Scheduler.Daemon.{Daemon, tick, reached, run_loop}

module _ (files : Files) (perform : List Call → Call → Result (Unit {0}))
    (lookup : ProcessIdentityProvider) (stopped : ℕ → Bool) (now : ℕ → DagRecord → Time)
    (limit : ℕ) where
  -- The loop was left after a number of ticks, or by the error of a tick.
  abbrev pub Ends : Result ℕ × Daemon → Type 0
  Ends out =
      ((n : ℕ) × (out.0 ≡ ok n))
      ⊎ ((n : ℕ) × (d : Daemon) × (e : Error) × ((tick files perform lookup (now n) d).0 ≡ err e)
          × (out.0 ≡ err e))

  -- With a limit on the ticks the loop of `run` ends, after a number of ticks or by the error of a
  -- tick, when the fuel is above the number of ticks that are left.
  run_loop-Ends :
      (fuel ticks : ℕ) (d : Daemon)
      → limit ≤ ticks + fuel
      → Ends (run_loop files perform lookup stopped now (some limit) (suc fuel) ticks d)
  unfolding run_loop
  run_loop-Ends zero ticks d h = elim (Bool-cases (stopped ticks)) [
    | inl e ↦ rw (e, run_loop) (inl (ticks, refl))
    | inr e ↦ elim (Result-cases (tick files perform lookup (now ticks) d).0) [
      | inr (x, t) ↦ rw (e, t, run_loop) (inr (ticks, d, x, t, refl))
      | inl (ids, t) ↦ elim (Bool-cases (reached (suc ticks) (some limit))) [
        | inl r ↦ rw (e, t, r, run_loop) (inl (suc ticks, refl))
        | inr r ↦ absurd (ground arith)
      ]
    ]
  ]
  run_loop-Ends (suc fuel) ticks d h = elim (Bool-cases (stopped ticks)) [
    | inl e ↦ rw (e, run_loop) (inl (ticks, refl))
    | inr e ↦ elim (Result-cases (tick files perform lookup (now ticks) d).0) [
      | inr (x, t) ↦ rw (e, t, run_loop) (inr (ticks, d, x, t, refl))
      | inl (ids, t) ↦ elim (Bool-cases (reached (suc ticks) (some limit))) [
        | inl r ↦ rw (e, t, r, run_loop) (inl (suc ticks, refl))
        | inr r ↦
            rw (e, t, r, run_loop)
              (run_loop-Ends fuel (suc ticks) (tick files perform lookup (now ticks) d).1
                (omega arith))
      ]
    ]
  ]
