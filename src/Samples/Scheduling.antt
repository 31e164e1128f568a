-- ===== src/Samples/Scheduling.antt =====
-- The sample DAG under the scheduler, and two schedulers that follow one another.
use nexolith.Base.{
  ℕ, zero, suc, ◌+◌, ◌≤◌, List, [], ◌∷◌, true, false, none, some, ◌≡◌, ◌↔◌, ◌⊎◌, refl, arith,
  Result, ok, ◌*◌,
}
use nexolith.Samples.{files, store}
use nexolith.Dag.Models.{Priority}
use nexolith.Dag.Validator.{Files}
use nexolith.State.Models.{DagRecord}
use nexolith.State.Store.{StateStore}
use nexolith.Scheduler.Daemon.{DueDag, Daemon}
use nexolith.ProcessIdentity.Windows.{answered, terminate_process_identity_windows, FileTime}
use nexolith.ProcessIdentity.Windows.Ended.{EndsTarget, terminate_windows-EndsTarget}
use nexolith.ProcessIdentity.{
  ProcessIdentity, ProcessIdentityProvider, found, created_at, done,
  terminate_process_identity_linux, ProcessTerminationStatus,
}
use nexolith.Scheduler.Pidfile.Marker.{
  PidFileRecord, absent, text, JsonCodec, object, fields, payload, read_pidfile,
}
use nexolith.Scheduler.Pidfile.{Disk, acquire_pidfile, identify, granted, PidFileOwnerStatus}
use nexolith.Scheduler.Pidfile.Owner.{
  IsWritable, Attempted, read_pidfile-payload, acquire_pidfile-Attempted,
}
use nexolith.Scheduler.Pidfile.Exclusive.{
  System, Reach, here, more, acquire, crash, IsExclusive, Reach-IsExclusive, Step,
}
use nexolith.Scheduler.Pidfile.Handover.{
  alone, was_granted, is_replaceable, acquire_pidfile-alone, release_pidfile-acquire_pidfile,
}
use nexolith.Scheduler.Pidfile.Processes.{stop_pidfile_owner}
use nexolith.Scheduler.Status.{SchedulerQueryState, nothing_runs}
use nexolith.Scheduler.Control.{Answers, timed_out, start_scheduler_process, stop_scheduler_process}
use nexolith.Scheduler.Control.Start.{Justified, WasIdle, start_scheduler_process-Justified}
use nexolith.Scheduler.Control.Ends.{IsAnswer, HasPid, start_scheduler_process_enough}
use nexolith.Scheduler.Control.Stop.{StopJustified, stop_scheduler_process-Justified}

abbrev owner : PidFileRecord
owner = record { pid = 7; started_at = "noon"; owner_create_time_ns = some 70 }

abbrev successor : PidFileRecord
successor = record { pid = 8; started_at = "one"; owner_create_time_ns = some 80 }

-- A codec that knows the owner's marker.
abbrev codec : JsonCodec
codec = record { dumps = λ v. "{pid: 7}"; loads = λ t. some (object (fields owner)) }

-- A process is created ten times its PID nanoseconds after the epoch.
abbrev provider : ProcessIdentityProvider
provider pid = some (found (record { pid = pid; create_time_ns = pid * 10 }))

abbrev free : Disk
free = record { marker = absent; lock = none; leases = 0 }

owner-IsWritable : IsWritable owner
owner-IsWritable = record {
  pid = omega arith;
  started_at = λ h. absurd cc;
  create_time = omega arith;
}

identified : identify provider 7 "noon" ≡ ok owner
unfolding identify
identified = refl

identified_next : identify provider 8 "one" ≡ ok successor
unfolding identify
identified_next = refl

read_pidfile-payload_example : read_pidfile codec (text (payload codec owner)) ≡ ok (some owner)
read_pidfile-payload_example = read_pidfile-payload codec owner refl owner-IsWritable

acquire_pidfile-Attempted_example :
    Attempted codec provider 7 "noon" free (acquire_pidfile codec provider alone 7 "noon" free)
acquire_pidfile-Attempted_example = acquire_pidfile-Attempted codec provider alone 7 "noon" free

acquire_pidfile-alone_example :
    (was_granted (acquire_pidfile codec provider alone 7 "noon" free).0
      ≡ is_replaceable codec provider free.marker)
    × ((acquire_pidfile codec provider alone 7 "noon" free).1.marker ≡ text (payload codec owner))
acquire_pidfile-alone_example =
    acquire_pidfile-alone codec provider 7 "noon" owner free identified refl

release_pidfile-acquire_pidfile_example :
    (acquire_pidfile codec provider alone 7 "noon" free).0 ≡ ok (granted owner 1)
release_pidfile-acquire_pidfile_example =
    (release_pidfile-acquire_pidfile codec provider 7 8 "noon" "one" owner successor absent 0 refl
      owner-IsWritable identified identified_next refl).0

claimed :
    acquire_pidfile codec provider alone 7 "noon" free
    ≡ (ok (granted owner 1), record { marker = text "{pid: 7}"; lock = some 1; leases = 1 })
unfolding acquire_pidfile
claimed = refl

abbrev idle : System
idle = record { disk = free; holders = [] }

-- A process is granted its claim.
abbrev held : System
held = record {
  disk = record { marker = text "{pid: 7}"; lock = some 1; leases = 1 };
  holders = granted owner 1 ∷ [];
}

-- The process crashes: its marker stays.
abbrev crashed : System
crashed = record {
  disk = record { marker = text "{pid: 7}"; lock = none; leases = 1 };
  holders = [];
}

claims : Step codec provider idle held
unfolding acquire_pidfile
claims = acquire alone 7 "noon" free []

crashes : Step codec provider held crashed
crashes =
    crash (record { marker = text "{pid: 7}"; lock = some 1; leases = 1 }) [] (granted owner 1) []

history : Reach codec provider idle crashed
history = more (more (here idle) claims) crashes

Reach-IsExclusive_example : IsExclusive crashed.disk []
Reach-IsExclusive_example = Reach-IsExclusive codec provider idle crashed history refl

sent_now :
    stop_pidfile_owner
      (terminate_process_identity_linux true done (λ pid. created_at 70) done)
      owner
    ≡ ProcessTerminationStatus.sent
unfolding stop_pidfile_owner terminate_process_identity_linux
sent_now = refl

-- The child is slow: the scheduler is seen by the second query, as a process of another PID.
abbrev answers : Answers
answers = record {
  status = λ n. elim n [
    | zero ↦ ok nothing_runs
    | suc m ↦ ok (record {
      state = SchedulerQueryState.running;
      pid = some 9;
      started_at = some "noon";
      reason = none;
    })
  ];
  monotonic = λ n. n * 100;
  polled = λ n. false;
  wait = timed_out;
  launched = ok (some 7);
  reaped = none;
}

start_scheduler_process-Justified_example :
    Justified answers (start_scheduler_process answers 250 10)
    × (((start_scheduler_process answers 250 10).1 ≡ []) ⊎ WasIdle answers)
start_scheduler_process-Justified_example = start_scheduler_process-Justified answers 250 10

named : (n : ℕ) → HasPid (answers.status n)
named zero = tt
named (suc n) = (9, refl)

start_scheduler_process_enough_example : IsAnswer answers (start_scheduler_process answers 250 10).0
start_scheduler_process_enough_example =
    start_scheduler_process_enough answers 250 2 (omega arith) named 10 (omega arith)

-- The owner is there at first, then its PID is free.
abbrev owners : ℕ → PidFileRecord → Result PidFileOwnerStatus
owners zero r = ok PidFileOwnerStatus.matching
owners (suc n) r = ok PidFileOwnerStatus.dead

abbrev signal : PidFileRecord → ProcessTerminationStatus
signal r = ProcessTerminationStatus.sent

stop_scheduler_process-Justified_example :
    StopJustified owners signal false owner
      (stop_scheduler_process owners signal false (ok (some owner)) true)
stop_scheduler_process-Justified_example =
    stop_scheduler_process-Justified owners signal false owner true

abbrev row : DagRecord
row = record {
  name = "etl";
  source_path = "dags/gone.yaml";
  schedule = some "1h";
  enabled = true;
  created_at = 1;
  updated_at = 1;
}

abbrev stored_row : StateStore
stored_row = record store { dags = row ∷ []; dag_runs = [] }

abbrev batch : List DueDag
batch = record { dag_record = row; priority = Priority.normal; satisfied_upstreams = [] } ∷ []

abbrev no_files : Files
no_files = record files { is_file = λ path. false }

-- One second after the Unix epoch.
abbrev first_second : FileTime
first_second = record { high = 27111902; low = 3587317760 }

abbrev seven : ProcessIdentity
seven = record { pid = 7; create_time_ns = 1000000400 }

terminate_windows-EndsTarget_example :
    EndsTarget (answered tt) (answered first_second) (answered tt) seven (
      terminate_process_identity_windows
        (λ pid. answered tt)
        (answered first_second)
        (answered tt)
        seven)
terminate_windows-EndsTarget_example =
    terminate_windows-EndsTarget (λ pid. answered tt) (answered first_second) (answered tt) seven
