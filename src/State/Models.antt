-- ===== src/State/Models.antt =====
-- src/nexolith/state/models.py: the rows that the store returns. Timestamps are microseconds since
-- the epoch in place of their ISO texts, which Python reads back to the same instants.
use nexolith.Base.{ℕ, String, Bool, Option}
use nexolith.Dag.Models.{OnFailure, Severity}

abbrev pub Time : Type 0
Time = ℕ

pub data DagRunStatus : Type 0 where
  running succeeded failed interrupted : DagRunStatus

pub data TaskRunStatus : Type 0 where
  pending running succeeded failed skipped blocked : TaskRunStatus

pub data TaskAttemptStatus : Type 0 where
  running succeeded failed : TaskAttemptStatus

pub record DagRecord : Type 0 where
  pub name : String
  pub source_path : String
  pub schedule : Option String
  pub enabled : Bool
  pub created_at : Time
  pub updated_at : Time

pub record DagRunRecord : Type 0 where
  pub id : ℕ
  pub dag_name : String
  pub status : DagRunStatus
  pub trigger_reason : String
  pub started_at : Time
  pub ended_at : Option Time
  pub error : Option String
  pub on_failure : OnFailure
  pub severity : Severity
  pub owner_pid : Option ℕ
  pub owner_create_time_ns : Option ℕ

pub record TaskRunRecord : Type 0 where
  pub dag_run_id : ℕ
  pub task_name : String
  pub status : TaskRunStatus
  pub started_at : Option Time
  pub ended_at : Option Time
  pub error : Option String

pub record TaskAttemptRecord : Type 0 where
  pub id : ℕ
  pub dag_run_id : ℕ
  pub task_name : String
  pub attempt_number : ℕ
  pub status : TaskAttemptStatus
  pub started_at : Time
  pub ended_at : Option Time
  pub error : Option String
