-- ===== src/Scheduler/Control.antt =====
-- src/nexolith/scheduler/control.py: starting and stopping the scheduler's process. The calls on the
-- child process, the clock and the status are given by the order in which they are made.
pub mod Start
pub mod Ends
pub mod Await
pub mod Stop
use nexolith.Base.{
  ℕ, zero, suc, ◌+◌, String, List, [], ◌∷◌, Bool, true, false, Option, none, some, ◌==◌, nat_eq,
  ltb, if◌then◌else◌, Result, ok, err, Error, unexpected, out_of_fuel,
}
use nexolith.ProcessIdentity.{ProcessTerminationStatus}
use nexolith.Scheduler.Pidfile.Marker.{PidFileRecord}
use nexolith.Scheduler.Pidfile.{PidFileOwnerStatus, is_gone}
use nexolith.Scheduler.Status.{SchedulerQueryState, SchedulerStatusSnapshot, owner_value}

pub data SchedulerStartState : Type 0 where
  started already_running : SchedulerStartState

pub data SchedulerStopState : Type 0 where
  stopped not_running uncertain : SchedulerStopState

pub data SchedulerControlFailure : Type 0 where
  identity_unavailable child_start_failed startup_timeout termination_unavailable :
      SchedulerControlFailure

-- What a request ends with: its result, a `SchedulerControlError`, or another exception.
pub data Response {ℓ} (A : Type ℓ) : Type ℓ where
  done : A → Response A
  control_error : SchedulerControlFailure → Option String → Response A
  raised : Error → Response A

pub record SchedulerStartResult : Type 0 where
  pub state : SchedulerStartState
  pub pid : ℕ

pub record SchedulerStopResult : Type 0 where
  pub state : SchedulerStopState
  pub pid : Option ℕ
  pub forced : Bool

-- What a request does to other processes.
pub data Action : Type 0 where
  launch reap terminate : Action

-- How `child.wait(timeout=0.5)` ends.
pub data Wait : Type 0 where
  timed_out os_error exited : Wait

abbrev pub child_remains_running : Wait → Bool
child_remains_running timed_out = true
child_remains_running os_error = false
child_remains_running exited = false

abbrev pub Request : Type 0
Request = Response SchedulerStartResult × List Action

abbrev pub already : List Action → ℕ → Request
already actions pid =
    (done (record { state = SchedulerStartState.already_running; pid = pid }), actions)

abbrev pub assertion_error : Error
assertion_error = unexpected "AssertionError"

abbrev pub pid_if_running : SchedulerStatusSnapshot → Option ℕ
pid_if_running s = elim s.state [
  | SchedulerQueryState.running ↦ s.pid
  | SchedulerQueryState.not_running ↦ none
  | SchedulerQueryState.unknown ↦ none
]

-- The answers that a request gets, by the number of the call.
pub record Answers : Type 0 where
  -- A query of the status may raise an exception.
  pub status : ℕ → Result SchedulerStatusSnapshot
  -- Milliseconds.
  pub monotonic : ℕ → ℕ
  -- Whether the child has ended, at the n-th poll.
  pub polled : ℕ → Bool
  pub wait : Wait
  -- The PID of the child; `none` is an `OSError` or a `SubprocessError`, which are caught.
  pub launched : Result (Option ℕ)
  -- The exception of the reaper, if it cannot take the child.
  pub reaped : Option Error

module _ (a : Answers) (timeout : ℕ) where
  -- The child is handed to the reaper.
  abbrev pub started_by : ℕ → Request
  started_by pid = elim a.reaped [
    | some e ↦ (raised e, launch ∷ [])
    | none ↦ (done (record { state = SchedulerStartState.started; pid = pid }), launch ∷ reap ∷ [])
  ]

  unfoldable pub running_child : ℕ → Option ℕ → Request
  running_child child none = (raised assertion_error, launch ∷ [])
  running_child child (some pid) =
      if pid == child
      then started_by child
      else (if child_remains_running a.wait then started_by pid else already (launch ∷ []) pid)

  -- The child has ended: another scheduler may have won.
  abbrev pub ended_as : Option ℕ → Request
  ended_as none = (control_error SchedulerControlFailure.child_start_failed none, launch ∷ [])
  ended_as (some pid) = already (launch ∷ []) pid

  abbrev pub ended : Result SchedulerStatusSnapshot → Request
  ended (err e) = (raised e, launch ∷ [])
  ended (ok s) = ended_as (pid_if_running s)

  abbrev pub out_of_time_as : ℕ → Option ℕ → Request
  out_of_time_as child none =
      (control_error SchedulerControlFailure.startup_timeout none, launch ∷ terminate ∷ [])
  out_of_time_as child (some pid) =
      if pid == child
      then started_by pid
      else (if child_remains_running a.wait then started_by pid else already (launch ∷ []) pid)

  -- A query that raises leaves the child as it is.
  abbrev pub out_of_time : ℕ → Result SchedulerStatusSnapshot → Request
  out_of_time child (err e) = (raised e, launch ∷ [])
  out_of_time child (ok s) = out_of_time_as child (pid_if_running s)

  -- The body of the loop at its round `n`; `rest` is what the next rounds do.
  abbrev pub in_state : ℕ → ℕ → Request → Option ℕ → SchedulerQueryState → Request
  in_state child n rest pid SchedulerQueryState.running = running_child child pid
  in_state child n rest pid _ = if a.polled n then ended (a.status (suc (suc n))) else rest

  abbrev pub in_round : ℕ → ℕ → Request → Result SchedulerStatusSnapshot → Request
  in_round child n rest (err e) = (raised e, launch ∷ [])
  in_round child n rest (ok s) = in_state child n rest s.pid s.state

  -- The loop, at its round `n`: the query `n + 1` and the reading `n + 1` of the clock, on fuel.
  unfoldable pub await_claim : ℕ → ℕ → ℕ → Request
  unfolding running_child
  await_claim zero child n = (raised out_of_fuel, launch ∷ [])
  await_claim (suc fuel) child n =
      let rest = await_claim fuel child (suc n) in
      if ltb (a.monotonic (suc n)) (a.monotonic 0 + timeout)
      then in_round child n rest (a.status (suc n))
      else out_of_time child (a.status (suc n))

  abbrev pub launched_child : ℕ → Result (Option ℕ) → Request
  launched_child fuel (err e) = (raised e, [])
  launched_child fuel (ok none) =
      (control_error SchedulerControlFailure.child_start_failed none, [])
  launched_child fuel (ok (some child)) = await_claim fuel child 0

  abbrev pub running_already : Option ℕ → Request
  running_already none = (raised assertion_error, [])
  running_already (some pid) = already [] pid

  abbrev pub begun_in : ℕ → Option ℕ → SchedulerQueryState → Request
  begun_in fuel pid SchedulerQueryState.running = running_already pid
  begun_in fuel pid SchedulerQueryState.unknown =
      (control_error SchedulerControlFailure.identity_unavailable none, [])
  begun_in fuel pid SchedulerQueryState.not_running = launched_child fuel a.launched

  abbrev pub begun : ℕ → Result SchedulerStatusSnapshot → Request
  begun fuel (err e) = (raised e, [])
  begun fuel (ok initial) = begun_in fuel initial.pid initial.state

  unfoldable pub start_scheduler_process : ℕ → Request
  unfolding await_claim
  start_scheduler_process fuel = begun fuel (a.status 0)

abbrev pub Stopping : Type 0
Stopping = Response SchedulerStopResult × List Action

abbrev pub termination_value : ProcessTerminationStatus → String
termination_value ProcessTerminationStatus.sent = "sent"
termination_value ProcessTerminationStatus.not_found = "not_found"
termination_value ProcessTerminationStatus.identity_mismatch = "identity_mismatch"
termination_value ProcessTerminationStatus.access_denied = "access_denied"
termination_value ProcessTerminationStatus.unavailable = "unavailable"
termination_value ProcessTerminationStatus.unsupported = "unsupported"

abbrev pub nothing_to_stop : SchedulerStopResult
nothing_to_stop = record { state = SchedulerStopState.not_running; pid = none; forced = false }

-- The n-th query of the owner, the termination of the owner, and whether the platform is Windows.
module _ (owner : ℕ → PidFileRecord → Result PidFileOwnerStatus)
    (terminate_owner : PidFileRecord → ProcessTerminationStatus) (windows : Bool) where
  abbrev pub stop_result : PidFileRecord → SchedulerStopState → SchedulerStopResult
  stop_result r state = record { state = state; pid = some r.pid; forced = windows }

  -- The query `n` and at most `rounds` more after it.
  unfoldable pub await_end : ℕ → ℕ → PidFileRecord → Stopping
  await_end zero n r = elim (owner n r) [
    | err e ↦ (raised e, terminate ∷ [])
    | ok status ↦ (
      done (
          stop_result r
            (if is_gone status then SchedulerStopState.stopped else SchedulerStopState.uncertain)),
      terminate ∷ [],
    )
  ]
  await_end (suc rounds) n r =
      let rest = await_end rounds (suc n) r in
      elim (owner n r) [
        | err e ↦ (raised e, terminate ∷ [])
        | ok status ↦
            if is_gone status
            then (done (stop_result r SchedulerStopState.stopped), terminate ∷ [])
            else rest
      ]

  abbrev pub after_termination : ProcessTerminationStatus → PidFileRecord → Stopping
  after_termination ProcessTerminationStatus.sent r = await_end 20 1 r
  after_termination ProcessTerminationStatus.not_found r = (done nothing_to_stop, terminate ∷ [])
  after_termination ProcessTerminationStatus.identity_mismatch r =
      (done nothing_to_stop, terminate ∷ [])
  after_termination status r = (
    control_error SchedulerControlFailure.termination_unavailable (some (termination_value status)),
    terminate ∷ [],
  )

  abbrev pub stop_owner : PidFileRecord → PidFileOwnerStatus → Stopping
  stop_owner r PidFileOwnerStatus.matching = after_termination (terminate_owner r) r
  stop_owner r PidFileOwnerStatus.dead = (done nothing_to_stop, [])
  stop_owner r PidFileOwnerStatus.reused = (done nothing_to_stop, [])
  stop_owner r status =
      (control_error SchedulerControlFailure.identity_unavailable (some (owner_value status)), [])

  -- The marker is read first; `there` is whether the file exists after that.
  unfoldable pub stop_scheduler_process : Result (Option PidFileRecord) → Bool → Stopping
  stop_scheduler_process (err e) there = (raised e, [])
  stop_scheduler_process (ok none) there =
      if there
      then (control_error SchedulerControlFailure.identity_unavailable (some "corrupt"), [])
      else (done nothing_to_stop, [])
  stop_scheduler_process (ok (some r)) there = elim (owner 0 r) [
    | err e ↦ (raised e, [])
    | ok status ↦ stop_owner r status
  ]
