-- ===== src/Scheduler/Control/Await.antt =====
-- Waiting for the end of a process that was asked to end.
use nexolith.Base.{
  nat_eq, ◌==◌, ℕ, zero, suc, ◌+◌, ◌≤◌, [], ◌∷◌, Bool, true, false, some, ◌≡◌, inl, inr, refl,
  if◌then◌else◌, Result, ok, err, arith, Result-cases, Bool-cases, ◌==◌, subst,
}
use nexolith.ProcessIdentity.{ProcessTerminationStatus}
use nexolith.Scheduler.Pidfile.Marker.{PidFileRecord}
use nexolith.Scheduler.Pidfile.{PidFileOwnerStatus, is_gone}
use nexolith.Scheduler.Control.{
  SchedulerStopState, Response, done, control_error, raised, SchedulerStopResult, terminate,
  Stopping, await_end, stop_result,
}

module _ (owner : ℕ → PidFileRecord → Result PidFileOwnerStatus)
    (terminate_owner : PidFileRecord → ProcessTerminationStatus) (windows : Bool) where
  -- The owner was seen to be gone by the query `n`.
  abbrev pub SeenGone : ℕ → PidFileRecord → Type 0
  SeenGone n r = (status : PidFileOwnerStatus) × (owner n r ≡ ok status) × (is_gone status ≡ true)

  abbrev pub Ended : ℕ → ℕ → PidFileRecord → SchedulerStopState → Type 0
  Ended first last r SchedulerStopState.stopped = (n : ℕ) × (first ≤ n) × (n ≤ last) × SeenGone n r
  Ended first last r SchedulerStopState.uncertain =
      (n : ℕ)
      → first ≤ n
      → n ≤ last
      → (status : PidFileOwnerStatus) × (owner n r ≡ ok status) × (is_gone status ≡ false)
  Ended first last r SchedulerStopState.not_running = ⊥

  abbrev pub Awaited : ℕ → ℕ → PidFileRecord → Response SchedulerStopResult → Type 0
  Awaited first last r (done result) = (result.pid ≡ some r.pid) × Ended first last r result.state
  Awaited first last r (control_error failure detail) = ⊥
  Awaited first last r (raised e) = (n : ℕ) × (first ≤ n) × (n ≤ last) × (owner n r ≡ err e)

  Ended-earlier :
      (first last : ℕ) (r : PidFileRecord) (status : PidFileOwnerStatus)
      (state : SchedulerStopState)
      → owner first r ≡ ok status
      → is_gone status ≡ false
      → Ended (suc first) last r state
      → Ended first last r state
  Ended-earlier first last r status SchedulerStopState.stopped known there (n, from, to, seen) =
      (n, omega arith, to, seen)
  Ended-earlier first last r status SchedulerStopState.uncertain known there h = λ n from to.
      elim (Bool-cases (n == first)) [
        | inl same ↦ (status, subst (λ m. owner m r ≡ ok status) (ground arith) known, there)
        | inr other ↦ h n (ground arith) to
      ]
  Ended-earlier first last r status SchedulerStopState.not_running known there h = h

  Awaited-earlier :
      (first last : ℕ) (r : PidFileRecord) (status : PidFileOwnerStatus)
      (out : Response SchedulerStopResult)
      → owner first r ≡ ok status
      → is_gone status ≡ false
      → Awaited (suc first) last r out
      → Awaited first last r out
  Awaited-earlier first last r status (done result) known there h =
      (h.0, Ended-earlier first last r status result.state known there h.1)
  Awaited-earlier first last r status (control_error failure detail) known there h = h
  Awaited-earlier first last r status (raised e) known there (n, from, to, failed) =
      (n, omega arith, to, failed)

  last_Ended :
      (first : ℕ) (r : PidFileRecord) (status : PidFileOwnerStatus) (gone : Bool)
      → owner first r ≡ ok status
      → is_gone status ≡ gone
      → Ended first first r
          (if gone then SchedulerStopState.stopped else SchedulerStopState.uncertain)
  last_Ended first r status true known h = (first, omega arith, omega arith, (status, known, h))
  last_Ended first r status false known h =
      λ n from to. (status, subst (λ m. owner m r ≡ ok status) (omega arith) known, h)

  round-Awaited :
      (first last : ℕ) (r : PidFileRecord) (status : PidFileOwnerStatus) (gone : Bool)
      (rest : Stopping)
      → first ≤ last
      → owner first r ≡ ok status
      → is_gone status ≡ gone
      → Awaited (suc first) last r rest.0
      → Awaited first last r
          (if gone
            then (
              done (stop_result owner terminate_owner windows r SchedulerStopState.stopped),
              terminate ∷ [],
            )
            else rest).0
  round-Awaited first last r status true rest le known h later =
      (refl, (first, omega arith, le, (status, known, h)))
  round-Awaited first last r status false rest le known h later =
      Awaited-earlier first last r status rest.0 known h later

  pub await_end-Awaited :
      (rounds first last : ℕ) (r : PidFileRecord)
      → last ≡ first + rounds
      → Awaited first last r (await_end owner terminate_owner windows rounds first r).0
  unfolding await_end
  await_end-Awaited zero first last r e = elim (Result-cases (owner first r)) [
    | inr (e', failed) ↦ rw (failed, await_end) (first, omega arith, omega arith, failed)
    | inl (status, known) ↦
        rw (known, await_end)
          (
            refl,
            subst
                (λ m. Ended first m r (
                  if is_gone status
                  then SchedulerStopState.stopped
                  else SchedulerStopState.uncertain))
                (omega arith) (last_Ended first r status (is_gone status) known refl),
          )
  ]
  await_end-Awaited (suc rounds) first last r e = elim (Result-cases (owner first r)) [
    | inr (e', failed) ↦ rw (failed, await_end) (first, omega arith, omega arith, failed)
    | inl (status, known) ↦
        rw (known, await_end)
          (round-Awaited first last r status (is_gone status) _ (omega arith) known refl
            (await_end-Awaited rounds (suc first) last r (omega arith)))
  ]

  pub await_end_actions :
      (rounds first : ℕ) (r : PidFileRecord)
      → (await_end owner terminate_owner windows rounds first r).1 ≡ terminate ∷ []
  unfolding await_end
  await_end_actions zero first r = elim (Result-cases (owner first r)) [
    | inr (e, failed) ↦ rw (failed, await_end) refl
    | inl (status, known) ↦ rw (known, await_end) refl
  ]
  await_end_actions (suc rounds) first r = elim (Result-cases (owner first r)) [
    | inr (e, failed) ↦ rw (failed, await_end) refl
    | inl (status, known) ↦
        rw (known, await_end) (ground (arith, await_end_actions rounds (suc first) r))
  ]
