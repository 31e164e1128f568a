-- ===== src/Scheduler/Pidfile/Processes.antt =====
-- What observers make of a PID: one that was read from a marker carries the identity of its process.
use nexolith.Base.{
  ℕ, String, Bool, true, false, Option, none, some, ◌≡◌, ◌↔◌, refl, Result, ok, err, arith, nat_eq,
}
use nexolith.ProcessIdentity.{
  ProcessIdentity, ProcessIdentityLookup, ProcessIdentityProvider, found, lookup_process_identity,
  Observation, created_at, ProcessTerminationStatus, SystemCall, terminate_process_identity_linux,
  terminate-sent,
}
use nexolith.Scheduler.Pidfile.Marker.{PidFileRecord}
use nexolith.Scheduler.Pidfile.{PidFileOwnerStatus, owner_identity, pidfile_owner_status}

-- `_PidFilePid` is the second constructor.
pub data Pid : Type 0 where
  plain : ℕ → Pid
  of_marker : ℕ → Option ℕ → Pid

abbrev pub is_matching : PidFileOwnerStatus → Bool
is_matching PidFileOwnerStatus.matching = true
is_matching _ = false

abbrev pub is_sent : ProcessTerminationStatus → Bool
is_sent ProcessTerminationStatus.sent = true
is_sent _ = false

abbrev pub marker_record : ℕ → ℕ → PidFileRecord
marker_record pid t = record { pid = pid; started_at = ""; owner_create_time_ns = some t }

abbrev matches_owner : Result PidFileOwnerStatus → Result Bool
matches_owner (ok status) = ok (is_matching status)
matches_owner (err e) = err e

-- `raw` is `_raw_pid_is_alive`, the operating system's answer.
unfoldable pub is_process_alive : ProcessIdentityProvider → (ℕ → Bool) → Pid → Result Bool
unfolding pidfile_owner_status
is_process_alive provider raw (plain pid) = ok (raw pid)
is_process_alive provider raw (of_marker pid none) = ok false
is_process_alive provider raw (of_marker pid (some t)) =
    matches_owner (pidfile_owner_status provider (marker_record pid t))

abbrev signal_found : (ProcessIdentity → ProcessTerminationStatus) → ProcessIdentityLookup → Bool
signal_found end (found i) = is_sent (end i)
signal_found end lookup = false

unfoldable pub stop_process :
    (ℕ → Observation) → (ProcessIdentity → ProcessTerminationStatus) → Pid → Bool
unfolding lookup_process_identity
stop_process observe end (plain pid) = signal_found end (lookup_process_identity observe pid)
stop_process observe end (of_marker pid none) = false
stop_process observe end (of_marker pid (some t)) =
    is_sent (end (record { pid = pid; create_time_ns = t }))

unfoldable pub stop_pidfile_owner :
    (ProcessIdentity → ProcessTerminationStatus) → PidFileRecord → ProcessTerminationStatus
stop_pidfile_owner end r = elim (owner_identity r) [
  | none ↦ ProcessTerminationStatus.unavailable
  | some identity ↦ end identity
]

-- A PID that was read from a marker with a creation time is alive exactly if the provider finds the
-- marker's identity under it.
is_process_alive_iff :
    (provider : ProcessIdentityProvider) (raw : ℕ → Bool) (pid t : ℕ)
    → (is_process_alive provider raw (of_marker pid (some t)) ≡ ok true)
      ↔ (provider pid ≡ some (found (record { pid = pid; create_time_ns = t })))
unfolding is_process_alive
is_process_alive_iff provider raw pid t = (λ h. ground arith, λ h. ground arith)

owner_sent :
    (observe : ℕ → Observation) (supported : Bool) (open_call send : SystemCall) (pid : ℕ)
    (s : String) (created : Option ℕ)
    → stop_pidfile_owner
        (terminate_process_identity_linux supported open_call observe send)
        (record { pid = pid; started_at = s; owner_create_time_ns = created })
      ≡ ProcessTerminationStatus.sent
    → (t : ℕ) × (created ≡ some t) × (observe pid ≡ created_at t)
unfolding stop_pidfile_owner
owner_sent observe supported open_call send pid s none h = absurd cc
owner_sent observe supported open_call send pid s (some t) h = (
  t,
  refl,
  (terminate-sent supported open_call send observe (record { pid = pid; create_time_ns = t }) h).2,
)

-- On Linux, the owner of a marker is sent a signal only if the marker has its creation time, and
-- the process that has the marker's PID then was created at that time.
stop_pidfile_owner-sent :
    (observe : ℕ → Observation) (supported : Bool) (open_call send : SystemCall) (r : PidFileRecord)
    → stop_pidfile_owner (terminate_process_identity_linux supported open_call observe send) r
      ≡ ProcessTerminationStatus.sent
    → (t : ℕ) × (r.owner_create_time_ns ≡ some t) × (observe r.pid ≡ created_at t)
unfolding stop_pidfile_owner
stop_pidfile_owner-sent observe supported open_call send r h =
    owner_sent observe supported open_call send r.pid r.started_at r.owner_create_time_ns h
