-- ===== src/Scheduler/Control/Ends.antt =====
-- A request to start the scheduler ends.
use nexolith.Base.{
  ℕ, zero, suc, [], ◌∷◌, Bool, true, false, Option, none, some, ◌≡◌, ◌⊎◌, ◌==◌, inl, inr, refl,
  nat_eq, if◌then◌else◌, arith, ◌+◌, ◌≤◌, ◌<◌, subst, ltb, Bool-cases, Result, ok, err, Error,
}
use nexolith.Scheduler.Status.{SchedulerQueryState, SchedulerStatusSnapshot}
use nexolith.Scheduler.Control.{
  SchedulerStartState, Response, done, raised, launch, reap, Request, Answers, running_child, ended,
  ended_as, out_of_time, out_of_time_as, pid_if_running, in_state, in_round, await_claim,
  launched_child, running_already, begun, begun_in, start_scheduler_process, started_by, already,
  child_remains_running,
}

-- A scheduler that is said to run has a PID.
abbrev pub HasPid : Result SchedulerStatusSnapshot → Type 0
HasPid (err e) = Unit {0}
HasPid (ok s) = elim s.state [
  | SchedulerQueryState.running ↦ (pid : ℕ) × (s.pid ≡ some pid)
  | _ ↦ Unit
]

pid_of_running :
    (s : SchedulerStatusSnapshot)
    → s.state ≡ SchedulerQueryState.running
    → HasPid (ok s)
    → (pid : ℕ) × (s.pid ≡ some pid)
pid_of_running s e named =
    subst
      (λ state. elim state [
        | SchedulerQueryState.running ↦ (pid : ℕ) × (s.pid ≡ some pid)
        | SchedulerQueryState.not_running ↦ Unit
        | SchedulerQueryState.unknown ↦ Unit
      ])
      e named

-- The exception of a query, of the launcher or of the reaper.
abbrev pub WasRaised : Answers → Error → Type 0
WasRaised a e = ((n : ℕ) × (a.status n ≡ err e)) ⊎ ((a.launched ≡ err e) ⊎ (a.reaped ≡ some e))

-- The outcome is a result, a `SchedulerControlError`, or an exception that one of the calls raised.
abbrev pub IsAnswer {ℓ} : {A : Type ℓ} → Answers → Response A → Type 0
IsAnswer a (raised e) = WasRaised a e
IsAnswer a _ = Unit

module _ (a : Answers) (timeout limit : ℕ)
    -- From this reading on, the clock is past the deadline.
    (late : a.monotonic 0 + timeout ≤ a.monotonic (suc limit))
    (named : (n : ℕ) → HasPid (a.status n)) where
  started_by-IsAnswer :
      (pid : ℕ) (o : Option Error)
      → a.reaped ≡ o
      → (let out : Request = elim o [
        | some e ↦ (raised e, launch ∷ [])
        | none ↦
            (done (record { state = SchedulerStartState.started; pid = pid }), launch ∷ reap ∷ [])
      ] in
          IsAnswer a out.0)
  started_by-IsAnswer pid none h = tt
  started_by-IsAnswer pid (some e) h = inr (inr h)

  seen-IsAnswer :
      (child pid : ℕ) (same remains : Bool)
      → IsAnswer a
          (if same
            then started_by a timeout child
            else (if remains then started_by a timeout pid else already (launch ∷ []) pid)).0
  seen-IsAnswer child pid true remains = started_by-IsAnswer child a.reaped refl
  seen-IsAnswer child pid false true = started_by-IsAnswer pid a.reaped refl
  seen-IsAnswer child pid false false = tt

  ended_as-IsAnswer : (pid : Option ℕ) → IsAnswer a (ended_as a timeout pid).0
  ended_as-IsAnswer none = tt
  ended_as-IsAnswer (some pid) = tt

  ended-IsAnswer :
      (n : ℕ) (q : Result SchedulerStatusSnapshot)
      → a.status n ≡ q
      → IsAnswer a (ended a timeout q).0
  ended-IsAnswer n (err e) answer = inl (n, answer)
  ended-IsAnswer n (ok s) answer = ended_as-IsAnswer (pid_if_running s)

  out_of_time_as-IsAnswer :
      (child : ℕ) (pid : Option ℕ) → IsAnswer a (out_of_time_as a timeout child pid).0
  out_of_time_as-IsAnswer child none = tt
  out_of_time_as-IsAnswer child (some pid) =
      seen-IsAnswer pid pid (pid == child) (child_remains_running a.wait)

  out_of_time-IsAnswer :
      (child n : ℕ) (q : Result SchedulerStatusSnapshot)
      → a.status n ≡ q
      → IsAnswer a (out_of_time a timeout child q).0
  out_of_time-IsAnswer child n (err e) answer = inl (n, answer)
  out_of_time-IsAnswer child n (ok s) answer = out_of_time_as-IsAnswer child (pid_if_running s)

  running_child-IsAnswer :
      (child : ℕ) (pid : Option ℕ)
      → ((p : ℕ) × (pid ≡ some p))
      → IsAnswer a (running_child a timeout child pid).0
  unfolding running_child
  running_child-IsAnswer child none has = absurd cc
  running_child-IsAnswer child (some pid) has =
      seen-IsAnswer child pid (pid == child) (child_remains_running a.wait)

  polled-IsAnswer :
      (n : ℕ) (polled : Bool) (rest : Request)
      → IsAnswer a rest.0
      → IsAnswer a (if polled then ended a timeout (a.status (suc (suc n))) else rest).0
  polled-IsAnswer n true rest h = ended-IsAnswer (suc (suc n)) _ refl
  polled-IsAnswer n false rest h = h

  in_state-IsAnswer :
      (child n : ℕ) (s : SchedulerStatusSnapshot) (state : SchedulerQueryState) (rest : Request)
      → s.state ≡ state
      → HasPid (ok s)
      → IsAnswer a rest.0
      → IsAnswer a (in_state a timeout child n rest s.pid state).0
  in_state-IsAnswer child n s SchedulerQueryState.running rest e has h =
      running_child-IsAnswer child s.pid (pid_of_running s e has)
  in_state-IsAnswer child n s SchedulerQueryState.not_running rest e has h =
      polled-IsAnswer n (a.polled n) rest h
  in_state-IsAnswer child n s SchedulerQueryState.unknown rest e has h =
      polled-IsAnswer n (a.polled n) rest h

  round-IsAnswer :
      (child n : ℕ) (in_time : Bool) (q : Result SchedulerStatusSnapshot) (rest : Request)
      → a.status (suc n) ≡ q
      → HasPid q
      → (in_time ≡ true → IsAnswer a rest.0)
      → IsAnswer a
          (if in_time then in_round a timeout child n rest q else out_of_time a timeout child q).0
  round-IsAnswer child n false q rest answer has h = out_of_time-IsAnswer child (suc n) q answer
  round-IsAnswer child n true (err e) rest answer has h = inl (suc n, answer)
  round-IsAnswer child n true (ok s) rest answer has h =
      in_state-IsAnswer child n s s.state rest refl has (h refl)

  in_time_never :
      {n : ℕ} → n ≡ limit → ltb (a.monotonic (suc n)) (a.monotonic 0 + timeout) ≡ true → ⊥
  in_time_never same early = ground (
    arith,
    late,
    subst (λ n. ltb (a.monotonic (suc n)) (a.monotonic 0 + timeout) ≡ true) same early,
  )

  in_time_before :
      (n : ℕ) → n ≤ limit → ltb (a.monotonic (suc n)) (a.monotonic 0 + timeout) ≡ true → n < limit
  in_time_before n le early = elim (Bool-cases (n == limit)) [
    | inl same ↦ absurd (in_time_never (ground arith) early)
    | inr other ↦ ground arith
  ]

  await_claim_enough :
      (fuel child n : ℕ)
      → n ≤ limit
      → limit < n + fuel
      → IsAnswer a (await_claim a timeout fuel child n).0
  unfolding await_claim
  await_claim_enough zero child n le lt = absurd (omega arith)
  await_claim_enough (suc fuel) child n le lt =
      round-IsAnswer child n _ (a.status (suc n)) _ refl (named (suc n)) (λ early.
        let before = in_time_before n le early in
        await_claim_enough fuel child (suc n) (omega arith) (omega arith))

  launched_child-IsAnswer :
      (fuel : ℕ) (launched : Result (Option ℕ))
      → a.launched ≡ launched
      → limit < fuel
      → IsAnswer a (launched_child a timeout fuel launched).0
  launched_child-IsAnswer fuel (err e) h lt = inr (inl h)
  launched_child-IsAnswer fuel (ok none) h lt = tt
  launched_child-IsAnswer fuel (ok (some child)) h lt =
      await_claim_enough fuel child 0 (omega arith) (omega arith)

  running_already-IsAnswer :
      (pid : Option ℕ) → ((p : ℕ) × (pid ≡ some p)) → IsAnswer a (running_already a timeout pid).0
  running_already-IsAnswer none has = absurd cc
  running_already-IsAnswer (some pid) has = tt

  begun_in-IsAnswer :
      (fuel : ℕ) (s : SchedulerStatusSnapshot) (state : SchedulerQueryState)
      → s.state ≡ state
      → HasPid (ok s)
      → limit < fuel
      → IsAnswer a (begun_in a timeout fuel s.pid state).0
  begun_in-IsAnswer fuel s SchedulerQueryState.running e has lt =
      running_already-IsAnswer s.pid (pid_of_running s e has)
  begun_in-IsAnswer fuel s SchedulerQueryState.unknown e has lt = tt
  begun_in-IsAnswer fuel s SchedulerQueryState.not_running e has lt =
      launched_child-IsAnswer fuel a.launched refl lt

  begun-IsAnswer :
      (fuel : ℕ) (q : Result SchedulerStatusSnapshot)
      → a.status 0 ≡ q
      → HasPid q
      → limit < fuel
      → IsAnswer a (begun a timeout fuel q).0
  begun-IsAnswer fuel (err e) answer has lt = inl (0, answer)
  begun-IsAnswer fuel (ok s) answer has lt = begun_in-IsAnswer fuel s s.state refl has lt

  -- When the clock passes the deadline at some reading, and each answer that the scheduler runs has a
  -- PID, a request to start ends: with a result, with a control error, or with the exception that a
  -- query of the status, the launcher or the reaper has raised, and with no other. The fuel is one
  -- round for each reading before that.
  pub start_scheduler_process_enough :
      (fuel : ℕ) → limit < fuel → IsAnswer a (start_scheduler_process a timeout fuel).0
  unfolding start_scheduler_process
  start_scheduler_process_enough fuel lt = begun-IsAnswer fuel (a.status 0) refl (named 0) lt
