-- ===== src/Scheduler/Control/Start.antt =====
-- What the outcome of a request to start the scheduler says.
use nexolith.Base.{
  ℕ, zero, suc, List, [], ◌∷◌, Bool, true, false, Option, none, some, ◌≡◌, ◌==◌, ◌⊎◌, inl, inr,
  refl, nat_eq, if◌then◌else◌, arith, Result, ok, err, Error,
}
use nexolith.Scheduler.Status.{SchedulerQueryState, SchedulerStatusSnapshot}
use nexolith.Scheduler.Control.{
  SchedulerStartState, SchedulerControlFailure, done, control_error, raised, Action, launch, reap,
  terminate, Request, Answers, running_child, ended, ended_as, out_of_time, out_of_time_as,
  pid_if_running, in_state, in_round, await_claim, launched_child, begun, begun_in,
  start_scheduler_process, started_by, child_remains_running, already,
}

-- The child, if one was launched, is left to itself.
abbrev pub LeavesChild : List Action → Type 0
LeavesChild actions = (actions ≡ []) ⊎ (actions ≡ launch ∷ [])

module _ (a : Answers) where
  -- Some query has said that the scheduler runs as this process.
  abbrev pub WasSeen : ℕ → Type 0
  WasSeen pid =
      (n : ℕ) × (s : SchedulerStatusSnapshot) × (a.status n ≡ ok s)
      × (s.state ≡ SchedulerQueryState.running)
      × (s.pid ≡ some pid)

  -- The first query has said that no scheduler runs.
  abbrev pub WasIdle : Type 0
  WasIdle =
      (s : SchedulerStatusSnapshot) × (a.status 0 ≡ ok s)
      × (s.state ≡ SchedulerQueryState.not_running)

  abbrev pub Treats : SchedulerStartState → List Action → Type 0
  Treats SchedulerStartState.started actions = actions ≡ launch ∷ reap ∷ []
  Treats SchedulerStartState.already_running actions = LeavesChild actions

  abbrev pub Justified : Request → Type 0
  Justified (done r, actions) = WasSeen r.pid × Treats r.state actions
  Justified (control_error SchedulerControlFailure.startup_timeout detail, actions) =
      actions ≡ launch ∷ terminate ∷ []
  Justified (control_error failure detail, actions) = LeavesChild actions
  Justified (raised e, actions) = LeavesChild actions

  pid_of-seen :
      (n pid : ℕ) (s : SchedulerStatusSnapshot) (state : SchedulerQueryState)
      → a.status n ≡ ok s
      → s.state ≡ state
      → (elim state [
        | SchedulerQueryState.running ↦ s.pid
        | SchedulerQueryState.not_running ↦ none
        | SchedulerQueryState.unknown ↦ none
      ])
        ≡ some pid
      → WasSeen pid
  pid_of-seen n pid s SchedulerQueryState.running answer e h = (n, s, answer, e, h)
  pid_of-seen n pid s SchedulerQueryState.not_running answer e h = absurd cc
  pid_of-seen n pid s SchedulerQueryState.unknown answer e h = absurd cc

  module _ (timeout : ℕ) where
    started_by-Justified :
        (pid : ℕ) (o : Option Error)
        → WasSeen pid
        → (let out : Request = elim o [
          | some e ↦ (raised e, launch ∷ [])
          | none ↦
              (done (record { state = SchedulerStartState.started; pid = pid }), launch ∷ reap ∷ [])
        ] in
            Justified out)
    started_by-Justified pid none seen = (seen, refl)
    started_by-Justified pid (some e) seen = inr refl

    seen-Justified :
        (child pid : ℕ) (same remains : Bool)
        → (same ≡ true → child ≡ pid)
        → WasSeen pid
        → Justified (
            if same
            then started_by a timeout child
            else (if remains then started_by a timeout pid else already (launch ∷ []) pid))
    seen-Justified child pid true remains e (n, s, answer, runs, has) =
        started_by-Justified child a.reaped (n, s, answer, runs, rw (e refl) has)
    seen-Justified child pid false true e seen = started_by-Justified pid a.reaped seen
    seen-Justified child pid false false e seen = (seen, inr refl)

    running_child-Justified :
        (child n : ℕ) (s : SchedulerStatusSnapshot) (pid : Option ℕ)
        → a.status n ≡ ok s
        → s.state ≡ SchedulerQueryState.running
        → s.pid ≡ pid
        → Justified (running_child a timeout child pid)
    unfolding running_child
    running_child-Justified child n s none answer runs has = inr refl
    running_child-Justified child n s (some pid) answer runs has =
        seen-Justified child pid (pid == child) (child_remains_running a.wait) (λ h. ground arith)
          (n, s, answer, runs, has)

    ended_as-Justified :
        (n : ℕ) (s : SchedulerStatusSnapshot) (pid : Option ℕ)
        → a.status n ≡ ok s
        → pid_if_running s ≡ pid
        → Justified (ended_as a timeout pid)
    ended_as-Justified n s none answer h = inr refl
    ended_as-Justified n s (some pid) answer h =
        (pid_of-seen n pid s s.state answer refl h, inr refl)

    ended-Justified :
        (n : ℕ) (q : Result SchedulerStatusSnapshot)
        → a.status n ≡ q
        → Justified (ended a timeout q)
    ended-Justified n (err e) answer = inr refl
    ended-Justified n (ok s) answer = ended_as-Justified n s (pid_if_running s) answer refl

    out_of_time_as-Justified :
        (child n : ℕ) (s : SchedulerStatusSnapshot) (pid : Option ℕ)
        → a.status n ≡ ok s
        → pid_if_running s ≡ pid
        → Justified (out_of_time_as a timeout child pid)
    out_of_time_as-Justified child n s none answer h = refl
    out_of_time_as-Justified child n s (some pid) answer h =
        seen-Justified pid pid (pid == child) (child_remains_running a.wait) (λ h. refl)
          (pid_of-seen n pid s s.state answer refl h)

    out_of_time-Justified :
        (child n : ℕ) (q : Result SchedulerStatusSnapshot)
        → a.status n ≡ q
        → Justified (out_of_time a timeout child q)
    out_of_time-Justified child n (err e) answer = inr refl
    out_of_time-Justified child n (ok s) answer =
        out_of_time_as-Justified child n s (pid_if_running s) answer refl

    polled-Justified :
        (n : ℕ) (polled : Bool) (rest : Request)
        → Justified rest
        → Justified (if polled then ended a timeout (a.status (suc (suc n))) else rest)
    polled-Justified n true rest h = ended-Justified (suc (suc n)) _ refl
    polled-Justified n false rest h = h

    in_state-Justified :
        (child n : ℕ) (s : SchedulerStatusSnapshot) (state : SchedulerQueryState) (rest : Request)
        → a.status (suc n) ≡ ok s
        → s.state ≡ state
        → Justified rest
        → Justified (in_state a timeout child n rest s.pid state)
    in_state-Justified child n s SchedulerQueryState.running rest answer e h =
        running_child-Justified child (suc n) s s.pid answer e refl
    in_state-Justified child n s SchedulerQueryState.not_running rest answer e h =
        polled-Justified n (a.polled n) rest h
    in_state-Justified child n s SchedulerQueryState.unknown rest answer e h =
        polled-Justified n (a.polled n) rest h

    round-Justified :
        (child n : ℕ) (in_time : Bool) (q : Result SchedulerStatusSnapshot) (rest : Request)
        → a.status (suc n) ≡ q
        → Justified rest
        → Justified
            (if in_time then in_round a timeout child n rest q else out_of_time a timeout child q)
    round-Justified child n false q rest answer h = out_of_time-Justified child (suc n) q answer
    round-Justified child n true (err e) rest answer h = inr refl
    round-Justified child n true (ok s) rest answer h =
        in_state-Justified child n s s.state rest answer refl h

    await_claim-Justified : (fuel child n : ℕ) → Justified (await_claim a timeout fuel child n)
    unfolding await_claim
    await_claim-Justified zero child n = inr refl
    await_claim-Justified (suc fuel) child n =
        round-Justified child n _ (a.status (suc n)) _ refl
          (await_claim-Justified fuel child (suc n))

    launched_child-Justified :
        (fuel : ℕ) (launched : Result (Option ℕ))
        → Justified (launched_child a timeout fuel launched)
    launched_child-Justified fuel (err e) = inl refl
    launched_child-Justified fuel (ok none) = inl refl
    launched_child-Justified fuel (ok (some child)) = await_claim-Justified fuel child 0

    begun_in-Justified :
        (fuel : ℕ) (s : SchedulerStatusSnapshot) (state : SchedulerQueryState) (pid : Option ℕ)
        → a.status 0 ≡ ok s
        → s.state ≡ state
        → s.pid ≡ pid
        → Justified (begun_in a timeout fuel pid state)
          × (((begun_in a timeout fuel pid state).1 ≡ []) ⊎ WasIdle)
    begun_in-Justified fuel s SchedulerQueryState.running none answer e has = (inl refl, inl refl)
    begun_in-Justified fuel s SchedulerQueryState.running (some pid) answer e has =
        (((0, s, answer, e, has), inl refl), inl refl)
    begun_in-Justified fuel s SchedulerQueryState.unknown pid answer e has = (inl refl, inl refl)
    begun_in-Justified fuel s SchedulerQueryState.not_running pid answer e has =
        (launched_child-Justified fuel a.launched, inr (s, answer, e))

    begun-Justified :
        (fuel : ℕ) (q : Result SchedulerStatusSnapshot)
        → a.status 0 ≡ q
        → Justified (begun a timeout fuel q) × (((begun a timeout fuel q).1 ≡ []) ⊎ WasIdle)
    begun-Justified fuel (err e) answer = (inl refl, inl refl)
    begun-Justified fuel (ok s) answer = begun_in-Justified fuel s s.state s.pid answer refl refl

    -- A request to start answers with a PID only if some query said that the scheduler runs as that
    -- process. Its child is handed to the reaper exactly if the request says it started the
    -- scheduler, and is told to end exactly if the time ran out, while an exception leaves it to
    -- itself; no child is launched unless the first query said that no scheduler runs.
    pub start_scheduler_process-Justified :
        (fuel : ℕ)
        → Justified (start_scheduler_process a timeout fuel)
          × (((start_scheduler_process a timeout fuel).1 ≡ []) ⊎ WasIdle)
    unfolding start_scheduler_process
    start_scheduler_process-Justified fuel = begun-Justified fuel (a.status 0) refl
