-- ===== src/Scheduler/Pidfile.antt =====
-- src/nexolith/scheduler/pidfile.py: the marker of the scheduler's process, and the lock that a
-- process holds for its lifetime. Calls on the files fail only in the ways that the code handles.
pub mod Marker
pub mod Owner
pub mod Exclusive
pub mod Handover
pub mod Processes
use nexolith.Base.{
  ℕ, suc, String, [], ◌∷◌, Bool, true, false, Option, none, some, ◌==◌, nat_eq, string_eq,
  if◌then◌else◌, concat, Result, ok, err, Error, process_identity_unavailable, unexpected,
}
use nexolith.ProcessIdentity.{
  ProcessIdentity, ProcessIdentityLookup, ProcessIdentityProvider, found, same_identity,
  status_value,
}
use nexolith.Scheduler.Pidfile.Marker.{
  PidFileRecord, MarkerFile, absent, text, JsonCodec, payload, read_pidfile, same_record,
}

pub data PidFileOwnerStatus : Type 0 where
  matching dead reused legacy access_denied unavailable : PidFileOwnerStatus

abbrev pub owner_identity : PidFileRecord → Option ProcessIdentity
owner_identity r = elim r.owner_create_time_ns [
  | none ↦ none
  | some t ↦ some (record { pid = r.pid; create_time_ns = t })
]

-- A provider's own exception passes through.
abbrev pub provider_error : Error
provider_error = unexpected "ProcessIdentityProvider"

unfoldable pub judge_found :
    ProcessIdentity → Option ProcessIdentityLookup → Result PidFileOwnerStatus
judge_found expected none = err provider_error
judge_found expected (some ProcessIdentityLookup.not_found) = ok PidFileOwnerStatus.dead
judge_found expected (some ProcessIdentityLookup.access_denied) =
    ok PidFileOwnerStatus.access_denied
judge_found expected (some ProcessIdentityLookup.unavailable) = ok PidFileOwnerStatus.unavailable
judge_found expected (some (found i)) =
    ok (if same_identity i expected then PidFileOwnerStatus.matching else PidFileOwnerStatus.reused)

unfoldable pub pidfile_owner_status :
    ProcessIdentityProvider → PidFileRecord → Result PidFileOwnerStatus
unfolding judge_found
pidfile_owner_status provider r = elim (owner_identity r) [
  | none ↦ ok PidFileOwnerStatus.legacy
  | some expected ↦ judge_found expected (provider r.pid)
]

-- Dead or reused: no process is the recorded owner.
abbrev pub is_gone : PidFileOwnerStatus → Bool
is_gone PidFileOwnerStatus.dead = true
is_gone PidFileOwnerStatus.reused = true
is_gone _ = false

pub record PidFileClaim : Type 0 where
  pub acquired : Bool
  pub existing : Option PidFileRecord
  pub owned : Option PidFileRecord
  -- A lease is known by the number of its lock attempt.
  pub lease : Option ℕ

abbrev pub refused : Option PidFileRecord → PidFileClaim
refused existing = record { acquired = false; existing = existing; owned = none; lease = none }

abbrev pub granted : PidFileRecord → ℕ → PidFileClaim
granted owned lease = record {
  acquired = true;
  existing = none;
  owned = some owned;
  lease = some lease;
}

-- The marker, and the lease that holds the companion file's lock.
pub record Disk : Type 0 where
  pub marker : MarkerFile
  pub lock : Option ℕ
  pub leases : ℕ

abbrev pub with_marker : MarkerFile → Disk → Disk
with_marker m d = record d { marker = m }

abbrev pub unlocked : Disk → Disk
unlocked d = record d { lock = none }

abbrev create_time_of : ProcessIdentityLookup → Option ℕ
create_time_of (found i) = some i.create_time_ns
create_time_of lookup = none

-- `_record_for_pid`.
unfoldable pub record_for_pid : ProcessIdentityProvider → ℕ → String → Result PidFileRecord
record_for_pid provider pid started_at = elim (provider pid) [
  | none ↦ err provider_error
  | some lookup ↦
      ok (record {
        pid = pid;
        started_at = started_at;
        owner_create_time_ns = create_time_of lookup;
      })
]

unfoldable pub write_pidfile :
    JsonCodec → ProcessIdentityProvider → ℕ → String → Disk → Result (Unit {0}) × Disk
unfolding record_for_pid
write_pidfile codec provider pid started_at d = elim (record_for_pid provider pid started_at) [
  | err e ↦ (err e, d)
  | ok r ↦ (ok tt, with_marker (text (payload codec r)) d)
]

-- The owner that `acquire_pidfile` writes down: it must be identified.
unfoldable pub identify : ProcessIdentityProvider → ℕ → String → Result PidFileRecord
identify provider pid started_at = elim (provider pid) [
  | none ↦ err provider_error
  | some (found i) ↦
      if i.pid == pid
      then ok (record {
        pid = pid;
        started_at = started_at;
        owner_create_time_ns = some i.create_time_ns;
      })
      else err (process_identity_unavailable "Scheduler process identity returned the wrong PID")
  | some lookup ↦ err (
      process_identity_unavailable
        (concat ("Cannot determine scheduler process identity (" ∷ status_value lookup ∷ ")" ∷ [])))
]

abbrev pub exists : MarkerFile → Bool
exists absent = false
exists _ = true

module _ (codec : JsonCodec) (provider : ProcessIdentityProvider)
    -- What other processes make of the marker before each of the steps below.
    (others : ℕ → MarkerFile → MarkerFile) where
  -- The second `exclusive_create`, once the marker of a gone owner was removed.
  unfoldable pub create_again : PidFileRecord → ℕ → Disk → Result PidFileClaim × Disk
  unfolding read_pidfile
  create_again owned lease d =
      if exists (others 3 d.marker)
      then elim (read_pidfile codec (others 3 d.marker)) [
        | err e ↦ (err e, unlocked (with_marker (others 3 d.marker) d))
        | ok existing ↦ (ok (refused existing), unlocked (with_marker (others 3 d.marker) d))
      ]
      else (ok (granted owned lease), with_marker (text (payload codec owned)) d)

  unfoldable pub recover : PidFileRecord → ℕ → PidFileRecord → Disk → Result PidFileClaim × Disk
  unfolding pidfile_owner_status create_again
  recover owned lease existing d = elim (pidfile_owner_status provider existing) [
    | err e ↦ (err e, unlocked d)
    | ok status ↦
        if is_gone status
        then (if exists (others 2 d.marker)
            then create_again owned lease (with_marker absent d)
            else (ok (refused none), unlocked (with_marker (others 2 d.marker) d)))
        else (ok (refused (some existing)), unlocked d)
  ]

  -- With the lock: create the marker, or recover the one that is there.
  unfoldable pub claim_marker : PidFileRecord → ℕ → Disk → Result PidFileClaim × Disk
  unfolding read_pidfile recover
  claim_marker owned lease d =
      if exists (others 0 d.marker)
      then (let seen = with_marker (others 1 (others 0 d.marker)) d in
          elim (read_pidfile codec seen.marker) [
            | err e ↦ (err e, unlocked seen)
            | ok none ↦ (ok (refused none), unlocked seen)
            | ok (some existing) ↦ recover owned lease existing seen
          ])
      else (ok (granted owned lease), with_marker (text (payload codec owned)) d)

  unfoldable pub acquire_owned : PidFileRecord → Disk → Result PidFileClaim × Disk
  unfolding claim_marker
  acquire_owned owned d = elim d.lock [
    | none ↦
        claim_marker owned (suc d.leases)
          (record d { lock = some (suc d.leases); leases = suc d.leases })
    | some other ↦ elim (read_pidfile codec d.marker) [
      | err e ↦ (err e, d)
      | ok existing ↦ (ok (refused existing), d)
    ]
  ]

  unfoldable pub acquire_pidfile : ℕ → String → Disk → Result PidFileClaim × Disk
  unfolding identify acquire_owned
  acquire_pidfile pid started_at d = elim (identify provider pid started_at) [
    | err e ↦ (err e, d)
    | ok owned ↦ acquire_owned owned d
  ]

abbrev pub holds : Option ℕ → ℕ → Bool
holds none lease = false
holds (some l) lease = l == lease

abbrev pub is_record : Option PidFileRecord → PidFileRecord → Bool
is_record none r = false
is_record (some q) r = same_record q r

module _ (codec : JsonCodec) (others : ℕ → MarkerFile → MarkerFile) where
  -- The body of the `try` of `release_pidfile`; its `finally` has released the lease.
  unfoldable pub remove_marker : PidFileRecord → Disk → Result Bool × Disk
  unfolding read_pidfile
  remove_marker owned d = elim (read_pidfile codec d.marker) [
    | err e ↦ (err e, d)
    | ok current ↦
        if is_record current owned
        then (ok (exists (others 0 d.marker)), with_marker absent d)
        else (ok false, d)
  ]

  unfoldable pub release_held : Option PidFileRecord → Option ℕ → Disk → Result Bool × Disk
  unfolding remove_marker
  release_held (some owned) (some lease) d =
      if holds d.lock lease then remove_marker owned (unlocked d) else (ok false, d)
  release_held _ _ d = (ok false, d)

  unfoldable pub release_pidfile : PidFileClaim → Disk → Result Bool × Disk
  unfolding release_held
  release_pidfile claim d =
      if claim.acquired then release_held claim.owned claim.lease d else (ok false, d)
