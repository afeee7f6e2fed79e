-- ===== src/Execution/Store.antt =====
-- The transactions of SqliteOrchestrationExecutionStore on a claimed run. The events that they
-- append are left out, and a row is named by its node and attempt: its id is a digest of the run,
-- the node and the attempt.
use pangi.Prelude.{
  ℕ, suc, String, Bool, true, false, ◌&&◌, ◌||◌, not, List, [], ◌∷◌, Option, none, some, map,
  str_eq, ltb, leb, if◌then◌else◌,
}
use pangi.Prelude.Int.{ℤ, increment, same_ℤ}
use pangi.Prelude.Results.{Result, ok, err}
use pangi.Prelude.Sets.{subset}
use pangi.Text.{DateTime, naive, aware, len}
use pangi.Runs.States.{RunState, composing, StepState, RunErrorCode, same_step_state}
use pangi.Runs.Contracts.{RunStep}
use pangi.Orchestration.Contracts.{AgentResult, invalid}
use pangi.Execution.Contracts.{
  PreparedExecutionPlan, ExecutionStepSnapshot, ExecutionPlanSnapshot, is_result_state,
  step_task_id, plan_snapshot_init,
}
use pangi.Orchestration.Facts.{Json}
use pangi.Codec.Results.{result_data}
use pangi.Execution.World.{
  RunRow, EngineError, plan_conflict, ownership_lost, persistence, value_error, Exec, lift, ◌>>=◌,
  ◌>>◌, raise_if, pure, stored, each, step_from_row,
}

-- The worker's claim, as far as the store reads it.
pub record Claim : Type 0 where
  pub run_id : String
  pub worker_id : String

-- What lies outside one execution: its clock, read once before each transaction; what the other
-- tasks (heartbeat, cancellation, recovery) have committed to the run's row before each
-- transaction; the digest that makes a step's id; the redactor's effect on a result; and json.dumps
-- with sorted keys and without spaces.
pub record Env : Type 0 where
  pub clock : ℕ → DateTime
  pub interfere : ℕ → RunRow → RunRow
  pub step_id : String → String → ℤ → String
  pub redact : AgentResult → Result EngineError AgentResult
  pub dumps : Json → String

abbrev pub is_running : RunState → Bool
is_running RunState.running = true
is_running _ = false

abbrev same_worker : Option String → String → Bool
same_worker none worker = false
same_worker (some w) worker = str_eq w worker

-- julianday(lease_expires_at) > julianday(at); a missing lease compares as NULL
abbrev lease_holds : Option DateTime → DateTime → Bool
lease_holds (some (aware t)) (aware at) = ltb at t
lease_holds _ _ = false

unfoldable pub is_owner : Claim → RunRow → DateTime → Bool
is_owner claim row at =
    is_running row.state
    && same_worker row.worker_id claim.worker_id
    && lease_holds row.lease_expires_at at

-- WHERE id = ? AND state = ? AND attempt = ?
unfoldable pub matches : RunStep → StepState → ExecutionStepSnapshot → Bool
matches step state row =
    str_eq step.node_id row.step.node_id
    && same_step_state row.step.state state
    && same_ℤ row.step.attempt step.attempt

-- UPDATE of the one row that fits, with the row after it; `none` if the row count is 0.
unfoldable pub update_row :
    (ExecutionStepSnapshot → Bool)
    → (ExecutionStepSnapshot → ExecutionStepSnapshot)
    → List ExecutionStepSnapshot
    → Option (ExecutionStepSnapshot × List ExecutionStepSnapshot)
update_row fits change [] = none
update_row fits change (s ∷ rest) =
    let later = update_row fits change rest in
    if fits s
    then some (change s, change s ∷ rest)
    else elim later [ none ↦ none | some (found, rest') ↦ some (found, s ∷ rest') ]

abbrev pub is_composing : RunState → Bool
is_composing composing = true
is_composing _ = false

abbrev pub is_failed_run : RunState → Bool
is_failed_run RunState.failed = true
is_failed_run _ = false

-- `_snapshot`: the stored rows must be those of the plan's steps, and each must make a snapshot.
unfoldable pub read_snapshot :
    PreparedExecutionPlan → List ExecutionStepSnapshot → Exec ExecutionPlanSnapshot
unfolding each
read_snapshot plan steps = do
  let expected = map step_task_id plan.steps
  let latest = map (λ (s : ExecutionStepSnapshot). s.step.node_id) steps
  raise_if (not (subset latest expected && subset expected latest))
      (persistence "Persisted execution Steps do not match the Plan")
  read ← each (λ s. stored (step_from_row s)) steps
  stored (plan_snapshot_init (record { plan = plan; steps = read }))

module _ (env : Env) (claim : Claim) where
  -- The clock's reading, which must be aware, then `_require_owner`: the start of a transaction.
  unfoldable pub enter : Exec DateTime
  enter w = elim (env.clock w.tick) [
    | naive t ↦ err (value_error (invalid "execution clock"))
    | aware t ↦
        if is_owner claim (env.interfere w.tick w.run) (aware t)
        then ok (aware t, record w { tick = suc w.tick; run = env.interfere w.tick w.run })
        else err ownership_lost
  ]

  -- The reading alone: what the caller gives as `at` must be aware before any other check.
  unfoldable pub aware_clock : Exec (Unit {0})
  aware_clock w = elim (env.clock w.tick) [
    | naive t ↦ err (value_error (invalid "execution clock"))
    | aware t ↦ ok (tt, w)
  ]

  -- The UPDATE and `_step_by_id`. A new error code that the table's CHECK refuses is one that the
  -- RunStep's constructor refuses too, with the same error.
  unfoldable pub change_step :
      RunStep
      → StepState
      → (ExecutionStepSnapshot → ExecutionStepSnapshot)
      → String
      → Exec ExecutionStepSnapshot
  change_step step state change message w = elim (update_row (matches step state) change w.steps) [
    | none ↦ err (plan_conflict message)
    | some (found, steps) ↦ stored (step_from_row found) (record w { steps = steps })
  ]

  abbrev pub started : DateTime → ExecutionStepSnapshot → ExecutionStepSnapshot
  started at s = record s {
    step = record s.step { state = StepState.running; started_at = some at; updated_at = at };
  }

  unfoldable pub start_step : ExecutionStepSnapshot → Exec ExecutionStepSnapshot
  unfolding enter change_step aware_clock
  start_step s = do
    aware_clock
    raise_if (not (same_step_state s.step.state StepState.queued))
        (plan_conflict "Only queued Steps can start")
    at ← enter
    change_step s.step StepState.queued (started at) "The queued Step changed"

  abbrev pub finished :
      StepState
      → AgentResult
      → Option String
      → DateTime
      → ExecutionStepSnapshot
      → ExecutionStepSnapshot
  finished state result error_code at s = record s {
    step = record s.step {
      state = state;
      error_code = error_code;
      updated_at = at;
      finished_at = some at;
    };
    result = some result;
  }

  -- CHECK (length(result_json) BETWEEN 2 AND 1000000) on a row that the UPDATE finds, in characters
  unfoldable pub fits : AgentResult → Bool
  unfolding result_data
  fits result =
      leb 2 (len (env.dumps (result_data result)))
      && leb (len (env.dumps (result_data result))) 1_000_000

  unfoldable pub finish_step :
      ExecutionStepSnapshot → StepState → AgentResult → Option String → Exec ExecutionStepSnapshot
  unfolding enter change_step aware_clock
  finish_step s state result error_code = do
    aware_clock
    raise_if (not (is_result_state state)) (value_error (invalid "finish state"))
    raise_if (not (str_eq result.task_id s.step.node_id)) (value_error (invalid "AgentResult"))
    safe ← lift (env.redact result)
    at ← enter
    changed ←
        change_step s.step StepState.running (finished state safe error_code at)
          "The running Step changed"
    raise_if (not (fits safe)) (persistence "Execution Step finish failed")
    pure changed

  abbrev pub cancelled : String → DateTime → ExecutionStepSnapshot → ExecutionStepSnapshot
  cancelled error_code at s = record s {
    step = record s.step {
      state = StepState.cancelled;
      error_code = some error_code;
      updated_at = at;
      finished_at = some at;
    };
  }

  unfoldable pub cancel_step : String → ExecutionStepSnapshot → Exec ExecutionStepSnapshot
  unfolding enter change_step
  cancel_step error_code s = do
    at ← enter
    change_step s.step StepState.queued (cancelled error_code at) "The queued Step changed"

  -- The row that `_insert_step` adds for the next attempt.
  abbrev pub retried : DateTime → ExecutionStepSnapshot → ExecutionStepSnapshot
  retried at s = record s {
    step = record {
      id = env.step_id claim.run_id s.definition.task.id (increment s.step.attempt);
      run_id = claim.run_id;
      node_id = s.definition.task.id;
      type = "subagent";
      state = StepState.queued;
      requirement = s.definition.requirement;
      idempotent = s.definition.idempotent;
      attempt = increment s.step.attempt;
      created_at = at;
      updated_at = at;
      depends_on = s.definition.task.depends_on;
      started_at = none;
      finished_at = none;
      error_code = none;
    };
    result = none;
  }

  unfoldable pub retry_interrupted_step : ExecutionStepSnapshot → Exec ExecutionStepSnapshot
  unfolding enter change_step aware_clock
  retry_interrupted_step s = do
    aware_clock
    raise_if (not (same_step_state s.step.state StepState.interrupted) || not s.step.idempotent)
        (plan_conflict "Only interrupted idempotent Steps can retry")
    at ← enter
    change_step s.step StepState.interrupted (retried at) "The interrupted Step changed"

  -- The clock's reading, the owner, then `_snapshot`.
  unfoldable pub load_for_claim : Exec ExecutionPlanSnapshot
  unfolding enter read_snapshot
  load_for_claim = do enter; λ w. read_snapshot w.plan w.steps w

  unfoldable pub finish_run : RunState → List String → Option RunErrorCode → Exec (Unit {0})
  unfolding enter aware_clock
  finish_run state warnings error_code = do
    aware_clock
    raise_if (not (is_composing state || is_failed_run state))
        (value_error (invalid "finish state"))
    at ← enter
    λ w. ok (
      tt,
      record w {
        run = record w.run {
          state = state;
          revision = increment w.run.revision;
          worker_id = if is_composing state then w.run.worker_id else none;
          lease_expires_at = if is_composing state then w.run.lease_expires_at else none;
          heartbeat_at = if is_composing state then w.run.heartbeat_at else none;
          warnings = warnings;
          error_code = error_code;
          updated_at = at;
          finished_at = if is_failed_run state then some at else none;
        };
      },
    )
