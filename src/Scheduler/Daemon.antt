-- ===== src/Scheduler/Daemon.antt =====
-- src/nexolith/scheduler/daemon.py. What is logged is not modelled.
pub mod Batch
pub mod Triggers
pub mod Ticks
use nexolith.Base.{
  ℕ, zero, suc, ◌+◌, ◌*◌, String, List, [], ◌∷◌, Bool, true, false, not, ◌&&◌, ◌||◌, Option, none,
  some, map, contains, leb, ltb, ◌==◌, nat_eq, if◌then◌else◌, text_le, Result, ok, err, ◌>>=◌,
  configuration_error, out_of_fuel,
}
use nexolith.Base.Sort.{sort_by}
use nexolith.Dag.Models.{DagConfig, Priority}
use nexolith.Dag.Validator.{Files, read_dag_config}
use nexolith.Dag.Executor.{Call, World, with_store, execute_dag, succeeded_run}
use nexolith.ProcessIdentity.{ProcessIdentityProvider}
use nexolith.Scheduler.Interval.{parse_interval}
use nexolith.State.Models.{Time, DagRecord}
use nexolith.State.Store.{StateStore, list_dags, list_incomplete_dag_runs, latest_dag_run}
use nexolith.State.Attempts.{get_last_reacted_upstream_run_id, record_trigger_reaction}
use nexolith.State.Reconcile.{interrupt_abandoned_dag_runs}

-- `_PRIORITY_RANK`.
abbrev pub priority_rank : Priority → ℕ
priority_rank Priority.low = 0
priority_rank Priority.normal = 1
priority_rank Priority.high = 2
priority_rank Priority.critical = 3

pub record DueDag : Type 0 where
  pub dag_record : DagRecord
  pub priority : Priority
  pub satisfied_upstreams : List (String × ℕ)

-- The order of the sort keys: the higher rank first, then by name.
abbrev pub before : DueDag → DueDag → Bool
before a b =
    if ltb (priority_rank b.priority) (priority_rank a.priority)
    then true
    else priority_rank a.priority == priority_rank b.priority
      && text_le a.dag_record.name b.dag_record.name

-- What a DAG's own file says, and the upstream runs that it has not reacted to.
pub record Reading : Type 0 where
  pub priority : Priority
  pub cross_dag_due : Bool
  pub satisfied : List (String × ℕ)

abbrev pub unread : Reading
unread = record { priority = Priority.normal; cross_dag_due = false; satisfied = [] }

abbrev pub is_nonempty : List (String × ℕ) → Bool
is_nonempty [] = false
is_nonempty (p ∷ ps) = true

-- `last_reacted != latest_upstream.id`.
abbrev pub differs : Option ℕ → ℕ → Bool
differs none id = true
differs (some last) id = not (last == id)

-- The loop over `on_success_of`.
unfoldable pub satisfied_upstreams : String → List String → StateStore → List (String × ℕ)
unfolding latest_dag_run get_last_reacted_upstream_run_id
satisfied_upstreams name [] s = []
satisfied_upstreams name (upstream ∷ upstreams) s =
    let rest = satisfied_upstreams name upstreams s in
    elim (succeeded_run (latest_dag_run upstream s)) [
      | none ↦ rest
      | some id ↦
          if differs (get_last_reacted_upstream_run_id name upstream s) id
          then (upstream, id) ∷ rest
          else rest
    ]

unfoldable pub read_trigger : String → DagConfig → StateStore → Reading
unfolding satisfied_upstreams
read_trigger name dag s = elim dag.trigger [
  | none ↦ record { priority = dag.priority; cross_dag_due = false; satisfied = [] }
  | some upstreams ↦
      let satisfied = satisfied_upstreams name upstreams s in
      record {
        priority = dag.priority;
        cross_dag_due = is_nonempty satisfied;
        satisfied = satisfied;
      }
]

-- A ConfigurationError is logged, another error passes through.
abbrev pub tolerate {ℓ} : {A : Type ℓ} → A → Result A → Result A
tolerate a (ok b) = ok b
tolerate a (err (configuration_error m)) = ok a
tolerate a (err e) = err e

-- `_is_due`; the run was started a whole interval ago. Times are microseconds.
unfoldable pub is_due : Time → ℕ → DagRecord → StateStore → Bool
unfolding latest_dag_run
is_due now interval row s = elim (latest_dag_run row.name s) [
  | none ↦ true
  | some latest ↦ leb (latest.started_at + interval * 1000000) now
]

abbrev pub add : Option DueDag → List DueDag → List DueDag
add none items = items
add (some item) items = item ∷ items

abbrev pub running_dag_names : StateStore → List String
running_dag_names s = map (λ r. r.dag_name) (list_incomplete_dag_runs s)

module _ (files : Files) (now : DagRecord → Time) where
  unfoldable pub read_priority_and_trigger_due : DagRecord → StateStore → Result Reading
  unfolding read_trigger
  read_priority_and_trigger_due row s =
      if files.is_file row.source_path
      then tolerate unread
          (read_dag_config files row.source_path >>= λ dag. ok (read_trigger row.name dag s))
      else ok unread

  unfoldable pub interval_due : DagRecord → StateStore → Result Bool
  unfolding is_due
  interval_due row s = elim row.schedule [
    | none ↦ ok false
    | some schedule ↦
        if row.enabled
        then tolerate false (
            parse_interval files.unicode schedule >>= λ interval.
            ok (is_due (now row) interval row s))
        else ok false
  ]

  -- One DAG that is not running.
  unfoldable pub judge : DagRecord → StateStore → Result (Option DueDag)
  unfolding interval_due read_priority_and_trigger_due
  judge row s = do
    by_interval ← interval_due row s
    reading ← read_priority_and_trigger_due row s
    ok (
        if by_interval || reading.cross_dag_due
        then some (record {
          dag_record = row;
          priority = reading.priority;
          satisfied_upstreams = reading.satisfied;
        })
        else none)

  -- The loop over the registered DAGs.
  unfoldable pub collect : List String → List DagRecord → StateStore → Result (List DueDag)
  unfolding judge
  collect running [] s = ok []
  collect running (row ∷ rows) s =
      if contains running row.name
      then collect running rows s
      else do verdict ← judge row s; items ← collect running rows s; ok (add verdict items)

  -- The due DAGs, in the order in which they are executed.
  unfoldable pub due_batch : StateStore → Result (List DueDag)
  unfolding collect list_dags list_incomplete_dag_runs sort_by
  due_batch s = collect (running_dag_names s) (list_dags s) s >>= λ items. ok (sort_by before items)

unfoldable pub record_satisfied : String → List (String × ℕ) → StateStore → StateStore
unfolding record_trigger_reaction
record_satisfied name [] s = s
record_satisfied name ((upstream, id) ∷ rest) s =
    record_satisfied name rest (record_trigger_reaction name upstream id s)

-- The scheduler's own state.
pub record Daemon : Type 0 where
  pub world : World
  pub reconciled_incomplete_runs : Bool

abbrev pub reached : ℕ → Option ℕ → Bool
reached ticks none = false
reached ticks (some max_ticks) = leb max_ticks ticks

module _ (files : Files) (perform : List Call → Call → Result (Unit {0}))
    (lookup : ProcessIdentityProvider) where
  -- `_default_execute` on each DAG of the batch.
  unfoldable pub execute_batch : List DueDag → World → Result (List ℕ) × World
  unfolding execute_dag record_satisfied
  execute_batch [] w = (ok [], w)
  execute_batch (item ∷ items) w =
      let done = execute_dag files perform item.dag_record.source_path "schedule" none w in
      elim done.0 [
        | err e ↦ (err e, done.1)
        | ok run_id ↦
            let rest = execute_batch items (
              with_store
                (record_satisfied item.dag_record.name item.satisfied_upstreams done.1.store)
                done.1) in
            (rest.0 >>= (λ ids. ok (run_id ∷ ids)), rest.1)
      ]

  unfoldable pub reconcile_once : Daemon → Daemon
  unfolding interrupt_abandoned_dag_runs
  reconcile_once d = if d.reconciled_incomplete_runs then d else record {
    world = with_store (interrupt_abandoned_dag_runs lookup d.world.store).1 d.world;
    reconciled_incomplete_runs = true;
  }

  unfoldable pub tick : (DagRecord → Time) → Daemon → Result (List ℕ) × Daemon
  unfolding reconcile_once due_batch execute_batch
  tick now d =
      let ready = reconcile_once d in
      elim (due_batch files now ready.world.store) [
        | err e ↦ (err e, ready)
        | ok batch ↦
            let done = execute_batch batch ready.world in (done.0, record ready { world = done.1 })
      ]

  -- The loop of `run`. `stopped n` says whether the stop event is set when it is asked for the n-th
  -- time, `now n` is the clock during the n-th tick.
  unfoldable pub run_loop :
      (stopped : ℕ → Bool)
      → (now : ℕ → DagRecord → Time) → (max_ticks : Option ℕ) → (fuel ticks : ℕ) → Daemon
      → Result ℕ × Daemon
  unfolding tick
  run_loop stopped now max_ticks zero ticks d = (err out_of_fuel, d)
  run_loop stopped now max_ticks (suc fuel) ticks d = elim (stopped ticks) [
    | true ↦ (ok ticks, d)
    | false ↦
        let done = tick (now ticks) d in
        elim done.0 [
          | err e ↦ (err e, done.1)
          | ok ids ↦ elim (reached (suc ticks) max_ticks) [
            | true ↦ (ok (suc ticks), done.1)
            | false ↦ run_loop stopped now max_ticks fuel (suc ticks) done.1
          ]
        ]
  ]
