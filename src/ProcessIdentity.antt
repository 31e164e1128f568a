-- ===== src/ProcessIdentity.antt =====
-- src/nexolith/process_identity.py: processes are identified by PID and creation time.
pub mod Windows
use nexolith.Base.{
  ℕ, String, Bool, true, false, Option, ◌==◌, nat_eq, ◌&&◌, ◌≡◌, ◌↔◌, arith, Result, ok, err,
  process_identity_unavailable, concat, if◌then◌else◌, ◌∷◌, [],
}

pub record ProcessIdentity : Type 0 where
  pub pid : ℕ
  pub create_time_ns : ℕ

-- A lookup is found exactly if it carries an identity, which `__post_init__` enforces.
pub data ProcessIdentityLookup : Type 0 where
  found : ProcessIdentity → ProcessIdentityLookup
  not_found access_denied unavailable : ProcessIdentityLookup

-- `status.value`.
abbrev pub status_value : ProcessIdentityLookup → String
status_value (found i) = "found"
status_value not_found = "not_found"
status_value access_denied = "access_denied"
status_value unavailable = "unavailable"

-- A provider looks a PID up in the process table; `none` is an exception of its own.
abbrev pub ProcessIdentityProvider : Type 0
ProcessIdentityProvider = ℕ → Option ProcessIdentityLookup

-- The equality of the frozen dataclass.
abbrev pub same_identity : ProcessIdentity → ProcessIdentity → Bool
same_identity a b = a.pid == b.pid && a.create_time_ns == b.create_time_ns

pub same_identity_iff : (a b : ProcessIdentity) → (same_identity a b ≡ true) ↔ (a ≡ b)
same_identity_iff a b = (λ h. ground arith, λ h. ground arith)

-- What psutil says of a PID: its creation time in nanoseconds, or the exception that it raises.
pub data Observation : Type 0 where
  created_at : ℕ → Observation
  access_denied_error no_such_process other_error : Observation

unfoldable pub lookup_process_identity : (ℕ → Observation) → ℕ → ProcessIdentityLookup
lookup_process_identity observe pid = elim (observe pid) [
  | created_at t ↦ found (record { pid = pid; create_time_ns = t })
  | access_denied_error ↦ access_denied
  | no_such_process ↦ not_found
  | other_error ↦ unavailable
]

abbrev identity_of : ProcessIdentityLookup → Result ProcessIdentity
identity_of (found i) = ok i
identity_of lookup = err (
    process_identity_unavailable
      (concat ("Cannot determine current process identity (" ∷ status_value lookup ∷ ")" ∷ [])))

unfoldable pub current_process_identity : (ℕ → Observation) → ℕ → Result ProcessIdentity
current_process_identity observe pid = identity_of (lookup_process_identity observe pid)

pub data ProcessTerminationStatus : Type 0 where
  sent not_found identity_mismatch access_denied unavailable unsupported : ProcessTerminationStatus

-- How opening a pidfd ends, or sending a signal through one.
pub data SystemCall : Type 0 where
  done process_lookup_error permission_error os_error : SystemCall

abbrev pub signalled : SystemCall → ProcessTerminationStatus
signalled done = ProcessTerminationStatus.sent
signalled process_lookup_error = ProcessTerminationStatus.not_found
signalled permission_error = ProcessTerminationStatus.access_denied
signalled os_error = ProcessTerminationStatus.unavailable

-- Linux: the identity is looked up again once the pidfd holds the process.
abbrev pub signal_verified :
    ProcessIdentity → ProcessIdentityLookup → SystemCall → ProcessTerminationStatus
signal_verified identity (found i) send =
    if same_identity i identity then signalled send else ProcessTerminationStatus.identity_mismatch
signal_verified identity not_found send = ProcessTerminationStatus.not_found
signal_verified identity access_denied send = ProcessTerminationStatus.access_denied
signal_verified identity unavailable send = ProcessTerminationStatus.unavailable

unfoldable pub terminate_process_identity_linux :
    Bool → SystemCall → (ℕ → Observation) → SystemCall → ProcessIdentity → ProcessTerminationStatus
unfolding lookup_process_identity
terminate_process_identity_linux false open_call observe send identity =
    ProcessTerminationStatus.unsupported
terminate_process_identity_linux true process_lookup_error observe send identity =
    ProcessTerminationStatus.not_found
terminate_process_identity_linux true permission_error observe send identity =
    ProcessTerminationStatus.access_denied
terminate_process_identity_linux true os_error observe send identity =
    ProcessTerminationStatus.unavailable
terminate_process_identity_linux true done observe send identity =
    signal_verified identity (lookup_process_identity observe identity.pid) send

-- On Linux a signal is sent only to a process that has, at the time of the signal, both the PID and
-- the creation time of the identity.
pub terminate-sent :
    (supported : Bool) (open_call send : SystemCall) (observe : ℕ → Observation)
    (identity : ProcessIdentity)
    → terminate_process_identity_linux supported open_call observe send identity
      ≡ ProcessTerminationStatus.sent
    → (supported ≡ true)
      × (open_call ≡ done)
      × (observe identity.pid ≡ created_at identity.create_time_ns)
      × (send ≡ done)
unfolding terminate_process_identity_linux
terminate-sent supported open_call send observe identity h = ground arith
