-- ===== src/Scheduler/Pidfile/Handover.antt =====
-- Which markers a claim replaces, and the way from one scheduler to the next.
use nexolith.Base.{
  ◌&&◌, ◌==◌, nat_eq, string_eq, eq_iff, ℕ, Bool, false, not, ◌||◌, Option, some, ◌≡◌, arith,
  Result, ok, err, if◌then◌else◌, String, none, suc, true, refl,
}
use nexolith.ProcessIdentity.{ProcessIdentityProvider}
use nexolith.Scheduler.Pidfile.Owner.{ReadsBack, IsWritable, read_pidfile-payload}
use nexolith.Scheduler.Pidfile.Marker.{
  PidFileRecord, MarkerFile, text, JsonCodec, payload, read_pidfile, same_time,
}
use nexolith.Scheduler.Pidfile.{
  PidFileOwnerStatus, pidfile_owner_status, is_gone, PidFileClaim, Disk, exists, create_again,
  recover, claim_marker, acquire_pidfile, acquire_owned, release_pidfile, remove_marker, identify,
  granted, absent, is_record, with_marker,
}

-- No other process touches the marker.
abbrev pub alone : ℕ → MarkerFile → MarkerFile
alone n m = m

abbrev pub owner_is_gone : Result PidFileOwnerStatus → Bool
owner_is_gone (ok status) = is_gone status
owner_is_gone (err e) = false

abbrev pub was_granted : Result PidFileClaim → Bool
was_granted (ok c) = c.acquired
was_granted (err e) = false

module _ (codec : JsonCodec) (provider : ProcessIdentityProvider) where
  -- A record that is read, of an owner that is gone.
  abbrev pub names_gone_owner : Result (Option PidFileRecord) → Bool
  names_gone_owner (ok (some r)) = owner_is_gone (pidfile_owner_status provider r)
  names_gone_owner _ = false

  abbrev pub is_replaceable : MarkerFile → Bool
  is_replaceable m = not (exists m) || names_gone_owner (read_pidfile codec m)

  claim_marker-alone :
      (owned : PidFileRecord) (lease : ℕ) (d : Disk)
      → (was_granted (claim_marker codec provider alone owned lease d).0 ≡ is_replaceable d.marker)
        × ((claim_marker codec provider alone owned lease d).1.marker
            ≡ (if is_replaceable d.marker then text (payload codec owned) else d.marker))
  unfolding claim_marker recover create_again
  claim_marker-alone owned lease d = ground arith

  acquire_owned-alone :
      (owned : PidFileRecord) (m : MarkerFile) (lock : Option ℕ) (n : ℕ)
      → lock ≡ none
      → (let out =
            acquire_owned codec provider alone owned
              (record { marker = m; lock = lock; leases = n }) in
          (was_granted out.0 ≡ is_replaceable m)
          × (out.1.marker ≡ (if is_replaceable m then text (payload codec owned) else m)))
  unfolding acquire_owned
  acquire_owned-alone owned m none n free =
      claim_marker-alone owned (suc n) (record { marker = m; lock = some (suc n); leases = suc n })
  acquire_owned-alone owned m (some l) n free = absurd cc

  -- An identified process that finds the lock free, with no other process at the marker, is granted its
  -- claim exactly when there is no marker or the marker names an owner that is gone. The marker
  -- then is its own, else the marker that was there.
  pub acquire_pidfile-alone :
      (pid : ℕ) (started_at : String) (owned : PidFileRecord) (d : Disk)
      → identify provider pid started_at ≡ ok owned
      → d.lock ≡ none
      → (let out = acquire_pidfile codec provider alone pid started_at d in
          (was_granted out.0 ≡ is_replaceable d.marker)
          × (out.1.marker
              ≡ (if is_replaceable d.marker then text (payload codec owned) else d.marker)))
  unfolding acquire_pidfile
  acquire_pidfile-alone pid started_at owned d known free =
      rw (known, acquire_pidfile) (acquire_owned-alone owned d.marker d.lock d.leases free)

  claim_marker-granted :
      (owned : PidFileRecord) (lease : ℕ) (d : Disk)
      → is_replaceable d.marker ≡ true
      → claim_marker codec provider alone owned lease d
        ≡ (ok (granted owned lease), with_marker (text (payload codec owned)) d)
  unfolding claim_marker recover create_again
  claim_marker-granted owned lease d h = ground arith

  acquire_pidfile-granted :
      (pid : ℕ) (started_at : String) (owned : PidFileRecord) (m : MarkerFile) (n : ℕ)
      → identify provider pid started_at ≡ ok owned
      → is_replaceable m ≡ true
      → acquire_pidfile codec provider alone pid started_at
          (record { marker = m; lock = none; leases = n })
        ≡ (
          ok (granted owned (suc n)),
          record { marker = text (payload codec owned); lock = some (suc n); leases = suc n },
        )
  unfolding acquire_pidfile acquire_owned
  acquire_pidfile-granted pid started_at owned m n known h =
      rw (known, acquire_pidfile) (claim_marker-granted owned (suc n) _ h)

module _ (codec : JsonCodec) where
  record_refl : (p : ℕ) (s : String) (t : Option ℕ) → (p == p && s == s && same_time t t) ≡ true
  record_refl p s none = ground (arith, eq_iff s s)
  record_refl p s (some t) = ground (arith, eq_iff s s)

  is_record_refl : (r : PidFileRecord) → is_record (some r) r ≡ true
  is_record_refl r = record_refl r.pid r.started_at r.owner_create_time_ns

  release_own :
      (owned : PidFileRecord) (lease : ℕ) (m : MarkerFile)
      → exists m ≡ true
      → read_pidfile codec m ≡ ok (some owned)
      → release_pidfile codec alone
          (granted owned lease)
          (record { marker = m; lock = some lease; leases = lease })
        ≡ (ok true, record { marker = absent; lock = none; leases = lease })
  unfolding release_pidfile remove_marker
  release_own owned lease m there mine = ground (arith, is_record_refl owned)

-- Two identified processes in turn, with no other process at the marker: the first one, which
-- finds the lock free and no marker or one of a gone owner, is granted its claim; releasing it
-- removes its marker; and the second one is then granted its own claim. The first one has a
-- positive PID and creation time and a time of its start, and the json module reads back what it
-- wrote.
pub release_pidfile-acquire_pidfile :
    (codec : JsonCodec) (provider : ProcessIdentityProvider) (p q : ℕ) (s t : String)
    (first second : PidFileRecord) (m : MarkerFile) (n : ℕ)
    → ReadsBack codec first
    → IsWritable first
    → identify provider p s ≡ ok first
    → identify provider q t ≡ ok second
    → is_replaceable codec provider m ≡ true
    → (let claimed : Result PidFileClaim × Disk =
          acquire_pidfile codec provider alone p s
            (record { marker = m; lock = none; leases = n }) in
        let released : Result Bool × Disk =
          release_pidfile codec alone (granted first (suc n)) claimed.1 in
        let next = acquire_pidfile codec provider alone q t released.1 in
        (claimed.0 ≡ ok (granted first (suc n)))
        × (released.0 ≡ ok true)
        × (released.1.marker ≡ absent)
        × (next.0 ≡ ok (granted second (suc (suc n)))))
release_pidfile-acquire_pidfile codec provider p q s t first second m n back w known known' h =
    rw
      (
        acquire_pidfile-granted codec provider p s first m n known h,
        release_own codec first (suc n) (text (payload codec first)) refl
            (read_pidfile-payload codec first back w),
        acquire_pidfile-granted codec provider q t second absent (suc n) known' refl,
      )
      (refl, refl, refl, refl)
