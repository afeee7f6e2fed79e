-- ===== src/Execution/Materialize.antt =====
-- `materialize_and_enqueue` of the execution store: a prepared plan becomes the rows of its steps,
-- and the run is queued. The events that it appends are left out.
use pangi.Prelude.{
  String, Bool, true, false, ◌||◌, ◌&&◌, not, List, [], ◌∷◌, Option, none, some, map, str_eq,
  if◌then◌else◌,
}
use pangi.Prelude.Int.{ℤ, pos, increment, same_ℤ}
use pangi.Prelude.Results.{Result, ok, err, ◌>>=◌, ◌>>◌, raise_if}
use pangi.Prelude.Sets.{subset}
use pangi.Text.{DateTime, naive, aware}
use pangi.Runs.States.{RunState, received, planning, StepState}
use pangi.Orchestration.Contracts.{invalid}
use pangi.Execution.Contracts.{
  PreparedExecutionPlan, PreparedExecutionStep, ExecutionStepSnapshot, ExecutionPlanSnapshot,
  plan_snapshot_init, step_task_id,
}
use pangi.Execution.World.{
  RunRow, EngineError, plan_conflict, plan_not_found, persistence, value_error, step_from_row,
}

-- A row of `run_execution_plans`, with the rows of `run_steps` that go with it.
pub record StoredPlan : Type 0 where
  pub fingerprint : String
  pub plan : PreparedExecutionPlan
  pub steps : List ExecutionStepSnapshot

-- What the database holds of one run.
pub record Entry : Type 0 where
  pub run : Option RunRow
  pub stored : Option StoredPlan

-- The plan's fingerprint, the redactor's effect on a plan, and the digest that makes a step's id.
pub record Codec : Type 0 where
  pub fingerprint : PreparedExecutionPlan → String
  pub safe_plan : PreparedExecutionPlan → Result EngineError PreparedExecutionPlan
  pub step_id : String → String → ℤ → String

-- The row that `_insert_step` writes.
abbrev pub inserted : Codec → String → DateTime → PreparedExecutionStep → ExecutionStepSnapshot
inserted codec run_id at definition = record {
  step = record {
    id = codec.step_id run_id definition.task.id (pos 1);
    run_id = run_id;
    node_id = definition.task.id;
    type = "subagent";
    state = StepState.queued;
    requirement = definition.requirement;
    idempotent = definition.idempotent;
    attempt = pos 1;
    created_at = at;
    updated_at = at;
    depends_on = definition.task.depends_on;
    started_at = none;
    finished_at = none;
    error_code = none;
  };
  definition = definition;
  result = none;
}

-- A row that is read; one that `_step_from_row` refuses is a persistence error.
abbrev pub read_row : ExecutionStepSnapshot → Result EngineError ExecutionStepSnapshot
read_row s = elim (step_from_row s) [ ok t ↦ ok t | err e ↦ err (persistence "invalid row") ]

unfoldable pub read_rows :
    List ExecutionStepSnapshot → Result EngineError (List ExecutionStepSnapshot)
read_rows [] = ok []
read_rows (s ∷ rest) =
    let later = read_rows rest in do row ← read_row s; rows ← later; ok (row ∷ rows)

-- `_snapshot`: the stored rows must be those of the plan's steps, and each must make a snapshot.
unfoldable pub read_plan : StoredPlan → Result EngineError ExecutionPlanSnapshot
unfolding read_rows
read_plan p = do
  let expected = map step_task_id p.plan.steps
  let latest = map (λ (s : ExecutionStepSnapshot). s.step.node_id) p.steps
  raise_if (not (subset latest expected && subset expected latest))
      (persistence "Persisted execution Steps do not match the Plan")
  steps ← read_rows p.steps
  elim (plan_snapshot_init (record { plan = p.plan; steps = steps })) [
    | ok s ↦ ok s
    | err e ↦ err (persistence "invalid snapshot")
  ]

-- state in {RECEIVED, PLANNING}
abbrev pub accepts_plan : RunState → Bool
accepts_plan received = true
accepts_plan planning = true
accepts_plan _ = false

-- The UPDATE of the run's row. Its WHERE clause repeats, in the same transaction, what has been
-- checked.
abbrev pub enqueued : PreparedExecutionPlan → DateTime → RunRow → RunRow
enqueued plan at run = record run {
  state = RunState.queued;
  mode = some plan.mode;
  revision = increment run.revision;
  worker_id = none;
  lease_expires_at = none;
  heartbeat_at = none;
  error_code = none;
  updated_at = at;
  queued_at = some at;
}

abbrev aware_time : DateTime → Result EngineError DateTime
aware_time (naive t) = err (value_error (invalid "execution clock"))
aware_time (aware t) = ok (aware t)

-- With no plan stored yet.
unfoldable pub store_plan :
    Codec
    → String
    → ℤ
    → String
    → PreparedExecutionPlan
    → DateTime
    → Option RunRow
    → Result EngineError (ExecutionPlanSnapshot × Entry)
unfolding read_plan
store_plan codec run_id revision fingerprint plan at none = err (plan_not_found "Run")
store_plan codec run_id revision fingerprint plan at (some run) = do
  raise_if (not (same_ℤ run.revision revision) || not (accepts_plan run.state))
      (plan_conflict "The Run cannot accept an execution Plan")
  let stored : StoredPlan = record {
    fingerprint = fingerprint;
    plan = plan;
    steps = map (inserted codec run_id at) plan.steps;
  }
  snapshot ← read_plan stored
  ok (snapshot, record { run = some (enqueued plan at run); stored = some stored })

unfoldable pub materialize_and_enqueue :
    Codec
    → String
    → ℤ
    → PreparedExecutionPlan
    → DateTime
    → Entry
    → Result EngineError (ExecutionPlanSnapshot × Entry)
unfolding read_plan store_plan
materialize_and_enqueue codec run_id expected_revision plan at entry = do
  timestamp ← aware_time at
  safe ← codec.safe_plan plan
  elim entry.stored [
    | some p ↦
        (if str_eq p.fingerprint (codec.fingerprint plan)
          then (do snapshot ← read_plan p; ok (snapshot, entry))
          else err (plan_conflict "A different execution Plan already exists"))
    | none ↦
        store_plan codec run_id expected_revision (codec.fingerprint plan) safe timestamp entry.run
  ]
