-- ===== src/Scheduler/Control/Stop.antt =====
-- A request to stop the scheduler: whom it signals, and what its answer says.
use nexolith.Base.{
  sym, subst, Error, nat_eq, ℕ, ◌≤◌, List, [], ◌∷◌, Bool, false, some, ◌≡◌, ◌⊎◌, inl, inr, refl,
  Result, ok, err, Error, arith, Result-cases, subst,
}
use nexolith.ProcessIdentity.{ProcessTerminationStatus}
use nexolith.Scheduler.Pidfile.Marker.{PidFileRecord}
use nexolith.Scheduler.Pidfile.{PidFileOwnerStatus, is_gone}
use nexolith.Scheduler.Control.{
  SchedulerStopState, Response, done, control_error, raised, SchedulerStopResult, Action, terminate,
  Stopping, after_termination, stop_owner, stop_scheduler_process,
}
use nexolith.Scheduler.Control.Await.{
  SeenGone, Ended, Awaited, await_end-Awaited, await_end_actions,
}

module _ (owner : ℕ → PidFileRecord → Result PidFileOwnerStatus)
    (terminate_owner : PidFileRecord → ProcessTerminationStatus) (windows : Bool) where
  -- The owner was verified before its termination was asked for.
  abbrev pub WasVerified : PidFileRecord → List Action → Type 0
  WasVerified r actions = (actions ≡ terminate ∷ []) × (owner 0 r ≡ ok PidFileOwnerStatus.matching)

  abbrev pub Signalled : ProcessTerminationStatus → PidFileRecord → Type 0
  Signalled t r = (owner 0 r ≡ ok PidFileOwnerStatus.matching) × (terminate_owner r ≡ t)

  abbrev pub ConcludedAs : PidFileRecord → SchedulerStopResult → SchedulerStopState → Type 0
  ConcludedAs r result SchedulerStopState.not_running =
      SeenGone owner terminate_owner windows 0 r
      ⊎ (Signalled ProcessTerminationStatus.not_found r
          ⊎ Signalled ProcessTerminationStatus.identity_mismatch r)
  ConcludedAs r result state =
      Signalled ProcessTerminationStatus.sent r
      × (result.pid ≡ some r.pid)
      × Ended owner terminate_owner windows 1 21 r state

  abbrev pub Concluded : PidFileRecord → Response SchedulerStopResult → Type 0
  Concluded r (done result) = ConcludedAs r result result.state
  Concluded r (control_error failure detail) =
      (status : PidFileOwnerStatus) × (owner 0 r ≡ ok status) × (is_gone status ≡ false)
  Concluded r (raised e) = (n : ℕ) × (n ≤ 21) × (owner n r ≡ err e)

  ConcludedAs-Ended :
      (r : PidFileRecord) (result : SchedulerStopResult) (state : SchedulerStopState)
      → Signalled ProcessTerminationStatus.sent r
      → result.pid ≡ some r.pid
      → Ended owner terminate_owner windows 1 21 r state
      → ConcludedAs r result state
  ConcludedAs-Ended r result SchedulerStopState.stopped g named h = (g, named, h)
  ConcludedAs-Ended r result SchedulerStopState.uncertain g named h = (g, named, h)
  ConcludedAs-Ended r result SchedulerStopState.not_running g named h = absurd h

  Awaited-Concluded :
      (r : PidFileRecord) (out : Response SchedulerStopResult)
      → Signalled ProcessTerminationStatus.sent r
      → Awaited owner terminate_owner windows 1 21 r out
      → Concluded r out
  Awaited-Concluded r (done result) g h = ConcludedAs-Ended r result result.state g h.0 h.1
  Awaited-Concluded r (control_error failure detail) g h = absurd h
  Awaited-Concluded r (raised e) g (n, from, to, failed) = (n, to, failed)

  abbrev pub StopJustified : PidFileRecord → Stopping → Type 0
  StopJustified r out = ((out.1 ≡ []) ⊎ WasVerified r out.1) × Concluded r out.0

  after_termination-Justified :
      (r : PidFileRecord) (t : ProcessTerminationStatus)
      → owner 0 r ≡ ok PidFileOwnerStatus.matching
      → terminate_owner r ≡ t
      → StopJustified r (after_termination owner terminate_owner windows t r)
  after_termination-Justified r ProcessTerminationStatus.sent known e = (
    inr (await_end_actions owner terminate_owner windows 20 1 r, known),
    Awaited-Concluded r _ (known, e)
        (await_end-Awaited owner terminate_owner windows 20 1 21 r (omega arith)),
  )
  after_termination-Justified r ProcessTerminationStatus.not_found known e =
      (inr (refl, known), inr (inl (known, e)))
  after_termination-Justified r ProcessTerminationStatus.identity_mismatch known e =
      (inr (refl, known), inr (inr (known, e)))
  after_termination-Justified r ProcessTerminationStatus.access_denied known e =
      (inr (refl, known), (PidFileOwnerStatus.matching, known, refl))
  after_termination-Justified r ProcessTerminationStatus.unavailable known e =
      (inr (refl, known), (PidFileOwnerStatus.matching, known, refl))
  after_termination-Justified r ProcessTerminationStatus.unsupported known e =
      (inr (refl, known), (PidFileOwnerStatus.matching, known, refl))

  stop_owner-Justified :
      (r : PidFileRecord) (status : PidFileOwnerStatus)
      → owner 0 r ≡ ok status
      → StopJustified r (stop_owner owner terminate_owner windows r status)
  stop_owner-Justified r PidFileOwnerStatus.matching known =
      after_termination-Justified r (terminate_owner r) known refl
  stop_owner-Justified r PidFileOwnerStatus.dead known =
      (inl refl, inl (PidFileOwnerStatus.dead, known, refl))
  stop_owner-Justified r PidFileOwnerStatus.reused known =
      (inl refl, inl (PidFileOwnerStatus.reused, known, refl))
  stop_owner-Justified r PidFileOwnerStatus.legacy known =
      (inl refl, (PidFileOwnerStatus.legacy, known, refl))
  stop_owner-Justified r PidFileOwnerStatus.access_denied known =
      (inl refl, (PidFileOwnerStatus.access_denied, known, refl))
  stop_owner-Justified r PidFileOwnerStatus.unavailable known =
      (inl refl, (PidFileOwnerStatus.unavailable, known, refl))

  owner_unknown :
      (r : PidFileRecord) (there : Bool) (e : Error)
      → owner 0 r ≡ err e
      → stop_scheduler_process owner terminate_owner windows (ok (some r)) there ≡ (raised e, [])
  unfolding stop_scheduler_process
  owner_unknown r there e failed = rw (failed, stop_scheduler_process) refl

  owner_known :
      (r : PidFileRecord) (there : Bool) (status : PidFileOwnerStatus)
      → owner 0 r ≡ ok status
      → stop_scheduler_process owner terminate_owner windows (ok (some r)) there
        ≡ stop_owner owner terminate_owner windows r status
  unfolding stop_scheduler_process
  owner_known r there status known = rw (known, stop_scheduler_process) refl

  -- A request to stop the owner of a marker that was read asks for its termination only after the
  -- first query has verified the owner. It answers that the scheduler was stopped only if the
  -- signal was sent and one of the 21 queries after it saw the owner gone, that this is uncertain only if
  -- none of them did, and that nothing ran only if the owner was gone at first or at the signal.
  pub stop_scheduler_process-Justified :
      (r : PidFileRecord) (there : Bool)
      → StopJustified r (stop_scheduler_process owner terminate_owner windows (ok (some r)) there)
  stop_scheduler_process-Justified r there = elim (Result-cases (owner 0 r)) [
    | inr (e, failed) ↦
        subst (StopJustified r) (sym (owner_unknown r there e failed))
          (inl refl, (0, omega arith, failed))
    | inl (status, known) ↦
        subst (StopJustified r) (sym (owner_known r there status known))
          (stop_owner-Justified r status known)
  ]
