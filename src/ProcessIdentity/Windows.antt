-- ===== src/ProcessIdentity/Windows.antt =====
-- src/nexolith/process_identity.py: ending a process on Windows, through one handle.
pub mod Ended
use nexolith.Base.{
  ℕ, ◌+◌, ◌-◌, ◌*◌, ◌≤◌, ◌≡◌, ◌≢◌, ◌↔◌, ◌⊎◌, inl, inr, refl, true, false, List, [], ◌∷◌, ◌++◌, ◌==◌,
  nat_eq, ltb, if◌then◌else◌, arith, Bool-cases,
}
use nexolith.ProcessIdentity.{ProcessIdentity, ProcessTerminationStatus}

abbrev pub error_access_denied : ℕ
error_access_denied = 5

abbrev pub error_invalid_parameter : ℕ
error_invalid_parameter = 87

abbrev pub windows_to_unix_ticks : ℕ
windows_to_unix_ticks = 116444736000000000

abbrev pub windows_create_time_tolerance_ns : ℕ
windows_create_time_tolerance_ns = 1000

-- A 64-bit time in ticks of 100 ns, in two halves of 32 bits, whose `|` is their sum.
pub record FileTime : Type 0 where
  pub high : ℕ
  pub low : ℕ

abbrev pub filetime : FileTime → ℕ
filetime t = t.high * 4294967296 + t.low

-- What kernel32 answers: the last error, where a call fails.
pub data KernelCall {ℓ} (A : Type ℓ) : Type ℓ where
  answered : A → KernelCall A
  last_error : ℕ → KernelCall A

-- The absolute difference of two times, both counted from the Windows epoch.
abbrev pub distance : ℕ → ℕ → ℕ
distance a b = if ltb a b then b - a else a - b

abbrev pub created_apart : FileTime → ProcessIdentity → ℕ
created_apart t identity =
    distance (filetime t * 100) (identity.create_time_ns + windows_to_unix_ticks * 100)

abbrev pub opening_failed : ℕ → ProcessTerminationStatus
opening_failed error =
    if error == error_invalid_parameter
    then ProcessTerminationStatus.not_found
    else (if error == error_access_denied
        then ProcessTerminationStatus.access_denied
        else ProcessTerminationStatus.unavailable)

abbrev pub ending : KernelCall (Unit {0}) → ProcessTerminationStatus
ending (answered done) = ProcessTerminationStatus.sent
ending (last_error error) =
    if error == error_access_denied
    then ProcessTerminationStatus.access_denied
    else ProcessTerminationStatus.unavailable

-- The calls of kernel32, which are made on the one handle that `OpenProcess` gives for a PID.
pub data HandleCall : Type 0 where
  open_process : ℕ → HandleCall
  get_process_times terminate_process close_handle : HandleCall

-- The body of the `try`, behind `OpenProcess`: its status, and the calls that it makes.
unfoldable pub with_handle :
    KernelCall FileTime
    → KernelCall (Unit {0})
    → ProcessIdentity
    → ProcessTerminationStatus × List HandleCall
with_handle (last_error error) ended identity =
    (ProcessTerminationStatus.unavailable, get_process_times ∷ [])
with_handle (answered created) ended identity =
    if ltb windows_create_time_tolerance_ns (created_apart created identity)
    then (ProcessTerminationStatus.identity_mismatch, get_process_times ∷ [])
    else (ending ended, get_process_times ∷ terminate_process ∷ [])

-- The answers of `OpenProcess`, by the PID, of `GetProcessTimes` and of `TerminateProcess`; the
-- status, and the calls in their order.
unfoldable pub terminate_process_identity_windows :
    (ℕ → KernelCall (Unit {0}))
    → KernelCall FileTime
    → KernelCall (Unit {0})
    → ProcessIdentity
    → ProcessTerminationStatus × List HandleCall
unfolding with_handle
terminate_process_identity_windows opening times ended identity = elim (opening identity.pid) [
  | last_error error ↦ (opening_failed error, open_process identity.pid ∷ [])
  | answered handle ↦
      let body = with_handle times ended identity in
      (body.0, open_process identity.pid ∷ body.1 ++ close_handle ∷ [])
]
