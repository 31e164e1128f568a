-- ===== src/Scheduler/Status.antt =====
-- src/nexolith/scheduler/status.py: what an observer says of the scheduler.
pub mod Claimed
use nexolith.Base.{ℕ, String, Option, none, some, Result, ok, err, if◌then◌else◌}
use nexolith.ProcessIdentity.{ProcessIdentityProvider}
use nexolith.Scheduler.Pidfile.Marker.{PidFileRecord, MarkerFile, JsonCodec, read_pidfile}
use nexolith.Scheduler.Pidfile.{PidFileOwnerStatus, pidfile_owner_status, exists}

pub data SchedulerQueryState : Type 0 where
  running not_running unknown : SchedulerQueryState

pub record SchedulerStatusSnapshot : Type 0 where
  pub state : SchedulerQueryState
  pub pid : Option ℕ
  pub started_at : Option String
  pub reason : Option String

abbrev pub owner_value : PidFileOwnerStatus → String
owner_value PidFileOwnerStatus.matching = "matching"
owner_value PidFileOwnerStatus.dead = "dead"
owner_value PidFileOwnerStatus.reused = "reused"
owner_value PidFileOwnerStatus.legacy = "legacy"
owner_value PidFileOwnerStatus.access_denied = "access_denied"
owner_value PidFileOwnerStatus.unavailable = "unavailable"

abbrev pub unknown_because : String → SchedulerStatusSnapshot
unknown_because why = record {
  state = SchedulerQueryState.unknown;
  pid = none;
  started_at = none;
  reason = some why;
}

abbrev pub nothing_runs : SchedulerStatusSnapshot
nothing_runs = record {
  state = SchedulerQueryState.not_running;
  pid = none;
  started_at = none;
  reason = none;
}

abbrev pub snapshot_of : PidFileRecord → PidFileOwnerStatus → SchedulerStatusSnapshot
snapshot_of r PidFileOwnerStatus.matching = record {
  state = SchedulerQueryState.running;
  pid = some r.pid;
  started_at = some r.started_at;
  reason = none;
}
snapshot_of r PidFileOwnerStatus.dead = nothing_runs
snapshot_of r PidFileOwnerStatus.reused = nothing_runs
snapshot_of r status = unknown_because (owner_value status)

-- `later` is the marker when the observer looks whether there is one.
unfoldable pub query_scheduler_status :
    JsonCodec → ProcessIdentityProvider → MarkerFile → MarkerFile → Result SchedulerStatusSnapshot
unfolding read_pidfile pidfile_owner_status
query_scheduler_status codec provider m later = elim (read_pidfile codec m) [
  | err e ↦ err e
  | ok none ↦ ok (if exists later then unknown_because "corrupt" else nothing_runs)
  | ok (some r) ↦ elim (pidfile_owner_status provider r) [
    | err e ↦ err e
    | ok status ↦ ok (snapshot_of r status)
  ]
]
