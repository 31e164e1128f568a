-- ===== src/Lib.antt =====
-- Nexolith runs data pipelines as DAGs of tasks: a DAG file is read and validated
-- (src/nexolith/dag/models.py, dag/validator.py), ordered and executed task by task
-- (dag/executor.py), with its history in an SQLite store (state/store.py), by hand or by
-- the scheduler (scheduler/), of which one process runs at a time; a task of a DAG is a
-- script or a pipeline, which is loaded with its local functions and actions (config/,
-- nexofunctions/) and run (execution/runner.py), its actions (nexoactions/) after its write.
-- This library models the core of that program and proves what makes it correct.
--
-- Base: shared helpers. Lists with native lengths, sets of names, stable sorting
-- (`sorted`, `ORDER BY`), f-strings, and exceptions as values of `Result`.
--
-- Types: src/nexolith/types.py. A float is an exact decimal; rounding is not modelled.
--
-- Dag.Models: src/nexolith/dag/models.py. The configuration records and the validators
-- (`require_pipeline_or_script`, `validate_task_graph_shape`, the field constraints).
-- What pydantic says of them in words is a parameter (`Files.message`).
--
-- Dag.Order: `_topological_order` of src/nexolith/dag/executor.py. A round orders one
-- task, so the loop gets as many rounds as there are tasks.
--
-- Dag.Cycles: `_detect_cycle` of src/nexolith/dag/validator.py, as a depth-first search
-- on explicit marks. The fuel bounds the depth of the recursion by the number of tasks
-- plus one.
--
-- Dag.Validator: the rest of src/nexolith/dag/validator.py. The file system, the YAML
-- parser, path arithmetic and the loading of a pipeline are the fields of `Files`.
--
-- Dag.Dependents: `_transitive_dependents` of src/nexolith/dag/executor.py. The fuel is
-- the number of failed tasks plus the number of tasks, since a name enters the queue once.
--
-- Dag.Executor: `DagExecutor` and `execute_dag` of src/nexolith/dag/executor.py. The
-- store, the calls and the delays are passed along as a `World`; what a script or a
-- pipeline does is a function `perform` of the calls made before. A `BaseException` is an
-- error that no `except` clause catches.
--
-- Dag.Registration: `register_dag` of src/nexolith/dag/registration.py, here
-- `register_dag_file`.
--
-- Scheduler.Interval: src/nexolith/scheduler/interval.py on lists of code points. What
-- Python knows of Unicode is the record `Unicode`.
--
-- Scheduler.Daemon: `Scheduler` of src/nexolith/scheduler/daemon.py. The clock, the stop
-- event and what a script or a pipeline does are parameters; the fuel of the loop is one
-- more than the ticks that are allowed. Signal handlers and logging are not modelled.
--
-- Scheduler.Pidfile: src/nexolith/scheduler/pidfile.py. The file is a `MarkerFile`, the
-- lock of the companion file is the number of the lease that holds it, and what other
-- processes make of the marker between two steps is a function of the step. The json
-- module is the parameter `JsonCodec`. `Exclusive.Step` has a step for each thing that a
-- process or the operating system does. The calls that lock a file, and
-- `_raw_pid_is_alive`, are not modelled.
--
-- Scheduler.Status, Scheduler.Control: src/nexolith/scheduler/status.py and control.py.
-- The answers of the child process, of the clock and of the queries are functions of the
-- number of the call, and what a request does to other processes is a list of actions. The
-- fuel of a start is one round for each reading of the clock before the deadline; a stop
-- makes at most 21 queries after its signal, as the code does. A query of the status, the
-- launcher and the reaper may raise; polling and waiting for the child end only as the code
-- expects. `_launch_scheduler_child` is not modelled, and a process lock serialises the
-- requests to start.
--
-- ProcessIdentity, ProcessIdentity.Windows: src/nexolith/process_identity.py. What psutil
-- and the system calls answer are parameters; on Windows, the calls on the handle are recorded
-- in their order.
--
-- State.Models, State.Store, State.Attempts, State.Reconcile: src/nexolith/state/models.py
-- and the queries and updates of src/nexolith/state/store.py. A table is a list of rows, a
-- method a function of the store, and a violated constraint is an `integrity_error` that
-- leaves the tables as they are. `State.Calls` has a constructor for each method that
-- changes the store, and `State.Keys` what the constraints of the schema read. Connections
-- are not modelled.
--
-- State.Schema: `_MIGRATIONS` and `_ensure_schema` of src/nexolith/state/store.py. A script
-- is a list of statements, each of which is committed by itself; `Schema.Contents` describes
-- the database of each version, and a crash is a script that is cut short. Indices and
-- foreign keys do not change what the tables hold.
--
-- Nexoactions: src/nexolith/nexoactions/contracts.py and execution.py. A handler is what
-- ends a call, given the calls made before; the json and hashlib modules are the parameter
-- `Hashing`. The numbers of an ordered comparison are exact, after the overflow check of
-- `float`.
--
-- Nexofunctions: src/nexolith/nexofunctions. `Names`, `Registry` and `Loader` also model
-- nexoactions/registry.py and nexoactions/loader.py, which differ in their texts and in that
-- actions are never replaced. Importing a file is a parameter, `LocalFile.import_file`, and
-- so are the local functions and the SQL destination. The texts of ValueErrors are not
-- modelled.
--
-- Jobs: src/nexolith/jobs/loader.py and transformations/python_job.py. What importing a file
-- and calling a function does is the record `Interpreter`.
--
-- Config: src/nexolith/config. `Environment` reads a text as the regular expression does,
-- with a round for each of its characters; `Models` has the configuration and its validators;
-- `Loader` is `load_pipeline`. The file system, the YAML parser and pydantic's reading of a
-- document are the fields of `Project`. The selection of the destination's model is left to
-- pydantic.
--
-- Runner: `DefaultPipelineRunner.run` of src/nexolith/execution/runner.py, here
-- `run_pipeline_config`, with src/nexolith/events.py and src/nexolith/models/execution.py.
-- The source, the transformations and the destination are the record `Components`. Times,
-- logging and an event sink that raises are not modelled.
--
-- Transformations: `Select`, `Rename` and `DropNulls` of
-- src/nexolith/transformations/builtin.py; Python's `repr` of a list of texts is a
-- parameter.
--
-- Samples and its modules: a DAG with its files and a store, two schedulers, and a
-- pipeline, a store with its history and a project, on which the code is run.
--
-- Not modelled: filters, the registries of connectors and transformations, the connectors, the
-- subprocess of a script, the application services, the HTTP API and the command line.
pub mod Base
pub mod Types
pub mod Dag
pub mod Scheduler
pub mod Nexoactions
pub mod Runner
pub mod Transformations
pub mod ProcessIdentity
pub mod State
pub mod Samples
pub mod Nexofunctions
pub mod Config
pub mod Jobs
