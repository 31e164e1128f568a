-- ===== src/Scheduler/Status/Claimed.antt =====
-- What an observer sees of a scheduler that was granted its claim.
use nexolith.Base.{ℕ, String, ◌≡◌, ok, arith, some, true, subst, refl, if◌then◌else◌, none, ◌∙◌}
use nexolith.ProcessIdentity.{ProcessIdentityProvider}
use nexolith.Scheduler.Pidfile.Marker.{PidFileRecord, JsonCodec, MarkerFile, read_pidfile}
use nexolith.Scheduler.Pidfile.{
  PidFileOwnerStatus, pidfile_owner_status, identify, Disk, PidFileClaim, acquire_pidfile,
}
use nexolith.Scheduler.Pidfile.Owner.{
  Granted, IsWritable, ReadsBack, read_pidfile-payload, Attempted, acquire_pidfile-Attempted,
}
use nexolith.Scheduler.Status.{query_scheduler_status, snapshot_of, SchedulerQueryState}

identify-matching :
    (provider : ProcessIdentityProvider) (pid : ℕ) (started_at : String) (owner : PidFileRecord)
    → identify provider pid started_at ≡ ok owner
    → (owner.pid ≡ pid)
      × (owner.started_at ≡ started_at)
      × (pidfile_owner_status provider owner ≡ ok PidFileOwnerStatus.matching)
unfolding identify pidfile_owner_status
identify-matching provider pid started_at owner h = ground arith

query-identified :
    (codec : JsonCodec) (provider : ProcessIdentityProvider) (r : PidFileRecord)
    (m later : MarkerFile)
    → read_pidfile codec m ≡ ok (some r)
    → pidfile_owner_status provider r ≡ ok PidFileOwnerStatus.matching
    → query_scheduler_status codec provider m later ≡ ok (snapshot_of r PidFileOwnerStatus.matching)
unfolding query_scheduler_status
query-identified codec provider r m later reads owns = rw (reads, owns, query_scheduler_status) refl

snapshot_matching :
    (r : PidFileRecord) (pid : ℕ) (s : String)
    → r.pid ≡ pid
    → r.started_at ≡ s
    → ok (snapshot_of r PidFileOwnerStatus.matching)
      ≡ ok (record {
        state = SchedulerQueryState.running;
        pid = some pid;
        started_at = some s;
        reason = none;
      })
snapshot_matching r pid s named since = cc

Granted-claim :
    (codec : JsonCodec) (provider : ProcessIdentityProvider) (others : ℕ → MarkerFile → MarkerFile)
    (pid : ℕ) (started_at : String) (d d' : Disk) (c : PidFileClaim)
    → acquire_pidfile codec provider others pid started_at d ≡ (ok c, d')
    → c.acquired ≡ true
    → Granted codec provider pid started_at d c d'
Granted-claim codec provider others pid started_at d d' c claimed acquired =
    subst (λ b. if b then Granted codec provider pid started_at d c d' else d'.lock ≡ d.lock)
      acquired
      (subst (Attempted codec provider pid started_at d) claimed
        (acquire_pidfile-Attempted codec provider others pid started_at d))

-- Once an identified process was granted its claim, an observer that reads the marker says that
-- the scheduler runs, as that process and since the time that it gave. The process has a positive
-- PID and creation time and a time of its start, and the json module reads back what it wrote.
acquire_pidfile-query_scheduler_status :
    (codec : JsonCodec) (provider : ProcessIdentityProvider) (others : ℕ → MarkerFile → MarkerFile)
    (pid : ℕ) (started_at : String) (owner : PidFileRecord) (d d' : Disk) (c : PidFileClaim)
    → identify provider pid started_at ≡ ok owner
    → IsWritable owner
    → ReadsBack codec owner
    → acquire_pidfile codec provider others pid started_at d ≡ (ok c, d')
    → c.acquired ≡ true
    → query_scheduler_status codec provider d'.marker d'.marker
      ≡ ok (record {
        state = SchedulerQueryState.running;
        pid = some pid;
        started_at = some started_at;
        reason = none;
      })
acquire_pidfile-query_scheduler_status codec provider others pid started_at owner d d' c known w
      back claimed acquired =
    let g : Granted codec provider pid started_at d c d' =
      Granted-claim codec provider others pid started_at d d' c claimed acquired in
    let same : g.owner ≡ owner = ground (arith, g.identified, known) in
    let owns = identify-matching provider pid started_at owner known in
    rw (g.marker, same)
      (query-identified codec provider owner _ _ (read_pidfile-payload codec owner back w) owns.2
        ∙ snapshot_matching owner pid started_at owns.0 owns.1)
