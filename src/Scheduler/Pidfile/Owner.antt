-- ===== src/Scheduler/Pidfile/Owner.antt =====
-- What a process finds in a marker, and when it replaces one.
use nexolith.Base.{
  ℕ, zero, suc, ◌<◌, String, Bool, true, false, Option, none, some, string_eq, if◌then◌else◌, ◌≡◌,
  ◌≢◌, refl, ap, ◌∙◌, sym, arith, eq_iff, inl, inr, Result, ok, err, Result-cases,
}
use nexolith.ProcessIdentity.{ProcessIdentityProvider}
use nexolith.Scheduler.Pidfile.Marker.{
  PidFileRecord, MarkerFile, text, object, JsonCodec, fields, payload, read_json, read_pidfile,
}
use nexolith.Scheduler.Pidfile.{
  PidFileClaim, Disk, identify, create_again, recover, claim_marker, acquire_owned, acquire_pidfile,
}

-- The json module reads back what it wrote for this record.
abbrev pub ReadsBack : JsonCodec → PidFileRecord → Type 0
ReadsBack codec r = codec.loads (payload codec r) ≡ some (object (fields r))

abbrev IsPositive : Option ℕ → Type 0
IsPositive none = Unit
IsPositive (some t) = 0 < t

-- A process has a positive PID and creation time, and a time of its start.
pub record IsWritable (r : PidFileRecord) : Type 0 where
  pub pid : 0 < r.pid
  pub started_at : r.started_at ≢ ""
  pub create_time : IsPositive r.owner_create_time_ns

read_json-fields :
    (pid : ℕ) (s : String) (t : Option ℕ)
    → 0 < pid
    → s ≢ ""
    → IsPositive t
    → read_json
        (some (object (fields (record { pid = pid; started_at = s; owner_create_time_ns = t }))))
      ≡ some (record { pid = pid; started_at = s; owner_create_time_ns = t })
unfolding read_json
read_json-fields zero s t p q r = absurd (omega arith)
read_json-fields (suc n) s none p q r = ground (arith, eq_iff s "")
read_json-fields (suc n) s (some zero) p q r = absurd (omega arith)
read_json-fields (suc n) s (some (suc t)) p q r = ground (arith, eq_iff s "")

-- The marker of a process, with a positive PID and creation time and a time of its start, is read
-- back as its record, where the json module reads back what it wrote.
pub read_pidfile-payload :
    (codec : JsonCodec) (r : PidFileRecord)
    → ReadsBack codec r
    → IsWritable r
    → read_pidfile codec (text (payload codec r)) ≡ ok (some r)
unfolding read_pidfile
read_pidfile-payload codec r back w =
    ap (λ j. ok (read_json j)) back
    ∙ ap ok (
        read_json-fields r.pid r.started_at r.owner_create_time_ns w.pid w.started_at w.create_time)

module _ (codec : JsonCodec) (provider : ProcessIdentityProvider) where
  -- What a granted claim says, and that any other attempt gives the lock back.
  abbrev pub Claimed : PidFileRecord → ℕ → Result PidFileClaim × Disk → Type 0
  Claimed owned lease (err e, d) = d.lock ≡ none
  Claimed owned lease (ok c, d) =
      if c.acquired
      then (c.owned ≡ some owned)
        × (c.lease ≡ some lease)
        × (d.lock ≡ some lease)
        × (d.marker ≡ text (payload codec owned))
      else d.lock ≡ none

  pub record Granted (pid : ℕ) (started_at : String) (d : Disk) (c : PidFileClaim) (d' : Disk)
      : Type 0 where
    pub owner : PidFileRecord
    pub identified : identify provider pid started_at ≡ ok owner
    pub free : d.lock ≡ none
    pub owned : c.owned ≡ some owner
    pub lease : c.lease ≡ some (suc d.leases)
    pub held : d'.lock ≡ some (suc d.leases)
    pub marker : d'.marker ≡ text (payload codec owner)

  abbrev pub Attempted : ℕ → String → Disk → Result PidFileClaim × Disk → Type 0
  Attempted pid started_at d (err e, d') = d'.lock ≡ d.lock
  Attempted pid started_at d (ok c, d') =
      if c.acquired then Granted pid started_at d c d' else d'.lock ≡ d.lock

  Granted-if :
      (pid : ℕ) (started_at : String) (d d' : Disk) (owned : PidFileRecord) (c : PidFileClaim)
      (b : Bool)
      → identify provider pid started_at ≡ ok owned
      → d.lock ≡ none
      → (if b
          then (c.owned ≡ some owned)
            × (c.lease ≡ some (suc d.leases))
            × (d'.lock ≡ some (suc d.leases))
            × (d'.marker ≡ text (payload codec owned))
          else d'.lock ≡ none)
      → (if b then Granted pid started_at d c d' else d'.lock ≡ d.lock)
  Granted-if pid started_at d d' owned c true known free h = record {
    owner = owned;
    identified = known;
    free = free;
    owned = h.0;
    lease = h.1;
    held = h.2;
    marker = h.3;
  }
  Granted-if pid started_at d d' owned c false known free h = h ∙ sym free

  Claimed-Attempted :
      (pid : ℕ) (started_at : String) (d : Disk) (owned : PidFileRecord)
      (out : Result PidFileClaim × Disk)
      → identify provider pid started_at ≡ ok owned
      → d.lock ≡ none
      → Claimed owned (suc d.leases) out
      → Attempted pid started_at d out
  Claimed-Attempted pid started_at d owned (err e, d') known free h = h ∙ sym free
  Claimed-Attempted pid started_at d owned (ok c, d') known free h =
      Granted-if pid started_at d d' owned c c.acquired known free h

module _ (codec : JsonCodec) (provider : ProcessIdentityProvider)
    (others : ℕ → MarkerFile → MarkerFile) where
  claim_marker-Claimed :
      (owned : PidFileRecord) (lease : ℕ) (d : Disk)
      → d.lock ≡ some lease
      → Claimed codec provider owned lease (claim_marker codec provider others owned lease d)
  unfolding claim_marker recover create_again
  claim_marker-Claimed owned lease d h = ground arith

  acquire_owned_free :
      (owned : PidFileRecord) (m : MarkerFile) (n : ℕ)
      → acquire_owned codec provider others owned (record { marker = m; lock = none; leases = n })
        ≡ claim_marker codec provider others owned
            (suc n)
            (record { marker = m; lock = some (suc n); leases = suc n })
  unfolding acquire_owned
  acquire_owned_free owned m n = refl

  acquire_owned-Attempted :
      (pid : ℕ) (started_at : String) (owned : PidFileRecord) (m : MarkerFile) (lock : Option ℕ)
      (n : ℕ)
      → identify provider pid started_at ≡ ok owned
      → (let d : Disk = record { marker = m; lock = lock; leases = n } in
          Attempted codec provider pid started_at d (acquire_owned codec provider others owned d))
  unfolding acquire_owned
  acquire_owned-Attempted pid started_at owned m none n known =
      Claimed-Attempted codec provider pid started_at _ owned _ known refl
        (claim_marker-Claimed owned (suc n) _ refl)
  acquire_owned-Attempted pid started_at owned m (some l) n known =
      elim (Result-cases (read_pidfile codec m)) [
        | inr (e, eq) ↦ rw (eq, acquire_owned) refl
        | inl (r, eq) ↦ rw (eq, acquire_owned) refl
      ]

  -- An attempt that is granted found the lock free, and leaves it held by the new lease, with the
  -- marker of the identified owner. Any other attempt, errors included, leaves the lock as it was.
  pub acquire_pidfile-Attempted :
      (pid : ℕ) (started_at : String) (d : Disk)
      → Attempted codec provider pid started_at d
          (acquire_pidfile codec provider others pid started_at d)
  unfolding acquire_pidfile
  acquire_pidfile-Attempted pid started_at d =
      elim (Result-cases (identify provider pid started_at)) [
        | inr (e, known) ↦ rw (known, acquire_pidfile) refl
        | inl (owned, known) ↦
            rw (known, acquire_pidfile)
              (acquire_owned-Attempted pid started_at owned d.marker d.lock d.leases known)
      ]
