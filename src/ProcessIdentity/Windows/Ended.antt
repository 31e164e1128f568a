-- ===== src/ProcessIdentity/Windows/Ended.antt =====
-- Which process is ended on Windows, and what the answer says of it.
use nexolith.Base.{
  ℕ, ◌+◌, ◌*◌, ◌≤◌, ◌≡◌, ◌≢◌, ◌↔◌, ◌⊎◌, inl, inr, refl, true, false, List, [], ◌∷◌, ◌++◌, ltb,
  arith, Bool-cases, nat_eq,
}
use nexolith.ProcessIdentity.{ProcessIdentity, ProcessTerminationStatus}
use nexolith.ProcessIdentity.Windows.{
  windows_create_time_tolerance_ns, FileTime, filetime, KernelCall, answered, last_error,
  created_apart, opening_failed, ending, HandleCall, open_process, get_process_times,
  terminate_process, close_handle, with_handle, terminate_process_identity_windows,
}

-- The creation time that was read is within one microsecond of the identity's, which counts from
-- 1970 and not from 1601.
abbrev pub IsNear : FileTime → ProcessIdentity → Type 0
IsNear created identity =
    (filetime created * 100 ≤ identity.create_time_ns + 11644473600000001000)
    × (identity.create_time_ns + 11644473600000000000 ≤ filetime created * 100 + 1000)

abbrev pub ReadsTarget : KernelCall FileTime → ProcessIdentity → Type 0
ReadsTarget (answered created) identity = IsNear created identity
ReadsTarget (last_error error) identity = ⊥

-- A handle was opened for the PID, and what was read through it is the identity.
abbrev pub IsTarget : KernelCall (Unit {0}) → KernelCall FileTime → ProcessIdentity → Type 0
IsTarget (answered handle) times identity = ReadsTarget times identity
IsTarget (last_error error) times identity = ⊥

-- A handle was opened for the PID, and what was read through it is not the identity.
abbrev pub IsAnother : KernelCall (Unit {0}) → KernelCall FileTime → ProcessIdentity → Type 0
IsAnother (answered handle) (answered created) identity = ¬ IsNear created identity
IsAnother _ _ identity = ⊥

abbrev pub Untouched : KernelCall (Unit {0}) → ProcessIdentity → List HandleCall → Type 0
Untouched (answered handle) identity calls =
    calls ≡ open_process identity.pid ∷ get_process_times ∷ close_handle ∷ []
Untouched (last_error error) identity calls = calls ≡ open_process identity.pid ∷ []

-- What a request to end a process does, and what it answers.
pub record EndsTarget (opening : KernelCall (Unit {0})) (times : KernelCall FileTime)
    (ended : KernelCall (Unit {0})) (identity : ProcessIdentity)
    (out : ProcessTerminationStatus × List HandleCall) : Type 0 where
  -- The target is ended between the reading of its time and the closing of its handle, and nothing
  -- else is.
  pub target :
      (IsTarget opening times identity
        × (out.1
            ≡ open_process identity.pid
              ∷ get_process_times
              ∷ terminate_process
              ∷ close_handle
              ∷ []))
      ⊎ (¬ IsTarget opening times identity × Untouched opening identity out.1)
  pub sent_iff :
      (out.0 ≡ ProcessTerminationStatus.sent)
      ↔ (IsTarget opening times identity × (ended ≡ answered tt))
  pub mismatch_iff :
      (out.0 ≡ ProcessTerminationStatus.identity_mismatch) ↔ IsAnother opening times identity

is_near :
    (created : FileTime) (identity : ProcessIdentity)
    → ltb windows_create_time_tolerance_ns (created_apart created identity) ≡ false
    → IsNear created identity
is_near created identity h = (ground arith, ground arith)

is_far :
    (created : FileTime) (identity : ProcessIdentity)
    → ltb windows_create_time_tolerance_ns (created_apart created identity) ≡ true
    → ¬ IsNear created identity
is_far created identity h near = ground arith

ending_iff :
    (ended : KernelCall (Unit {0}))
    → (ending ended ≡ ProcessTerminationStatus.sent) ↔ (ended ≡ answered tt)
ending_iff (answered done) = (λ h. refl, λ h. refl)
ending_iff (last_error error) = (λ h. absurd (ground arith), λ h. absurd cc)

ending-ne-mismatch :
    (ended : KernelCall (Unit {0})) → ending ended ≢ ProcessTerminationStatus.identity_mismatch
ending-ne-mismatch (answered done) h = cc
ending-ne-mismatch (last_error error) h = ground arith

with_handle-EndsTarget :
    (times : KernelCall FileTime) (ended : KernelCall (Unit {0})) (identity : ProcessIdentity)
    → EndsTarget (answered tt) times ended identity (
      (with_handle times ended identity).0,
      open_process identity.pid ∷ (with_handle times ended identity).1 ++ close_handle ∷ [],
    )
unfolding with_handle
with_handle-EndsTarget (last_error error) ended identity = record {
  target = inr (λ h. h, refl);
  sent_iff = (λ h. absurd cc, λ h. absurd h.0);
  mismatch_iff = (λ h. absurd cc, λ h. absurd h);
}
with_handle-EndsTarget (answered created) ended identity =
    elim (Bool-cases (ltb windows_create_time_tolerance_ns (created_apart created identity))) [
      | inl apart ↦
          rw (apart, with_handle)
            (record {
              target = inr (is_far created identity apart, refl);
              sent_iff = (λ h. absurd cc, λ h. absurd (is_far created identity apart h.0));
              mismatch_iff = (λ h. is_far created identity apart, λ h. refl);
            })
      | inr close ↦
          rw (close, with_handle)
            (record {
              target = inl (is_near created identity close, refl);
              sent_iff = (
                λ h. (is_near created identity close, (ending_iff ended).0 h),
                λ h. (ending_iff ended).1 h.1,
              );
              mismatch_iff = (
                λ h. absurd (ending-ne-mismatch ended h),
                λ h. absurd (h (is_near created identity close)),
              );
            })
    ]

opened-EndsTarget :
    (opening : KernelCall (Unit {0})) (times : KernelCall FileTime) (ended : KernelCall (Unit {0}))
    (identity : ProcessIdentity)
    → (let out : ProcessTerminationStatus × List HandleCall = elim opening [
      | last_error error ↦ (opening_failed error, open_process identity.pid ∷ [])
      | answered handle ↦ (
        (with_handle times ended identity).0,
        open_process identity.pid ∷ (with_handle times ended identity).1 ++ close_handle ∷ [],
      )
    ] in
        EndsTarget opening times ended identity out)
opened-EndsTarget (answered handle) times ended identity =
    with_handle-EndsTarget times ended identity
opened-EndsTarget (last_error error) times ended identity = record {
  target = inr (λ h. h, refl);
  sent_iff = (λ h. absurd (ground arith), λ h. absurd h.0);
  mismatch_iff = (λ h. absurd (ground arith), λ h. absurd h);
}

-- On Windows, the process with the PID of an identity is ended exactly if a handle to it was opened
-- and its creation time, which was read through that handle, is within one microsecond of the
-- identity's. It is ended behind that reading, and a handle that was opened is closed last, on every
-- path. The answer is that the request was sent exactly if the process was ended by a call that
-- succeeded, and that the identity does not match exactly if a time further off was read.
pub terminate_windows-EndsTarget :
    (opening : ℕ → KernelCall (Unit {0})) (times : KernelCall FileTime)
    (ended : KernelCall (Unit {0})) (identity : ProcessIdentity)
    → EndsTarget
        (opening identity.pid)
        times
        ended
        identity
        (terminate_process_identity_windows opening times ended identity)
unfolding terminate_process_identity_windows
terminate_windows-EndsTarget opening times ended identity =
    opened-EndsTarget (opening identity.pid) times ended identity
