-- ===== src/Execution/Engine.antt =====
-- application/services/execution_engine.py: DependencyExecutionEngine.execute. `asyncio.gather`
-- runs the steps of a batch in the batch's order; each of them reads the snapshot and writes its
-- own row only.
use Prim.Native.String.{◌++◌ as append}
use pangi.Prelude.{
  ℕ, zero, suc, String, Bool, true, false, ◌&&◌, not, List, [], ◌∷◌, ◌++◌, Option, none, some,
  length, take, any, all, keep, is_empty, map, str_eq, if◌then◌else◌,
}
use pangi.Prelude.Results.{Result, ok, err}
use pangi.Runs.States.{
  RunState, composing, StepState, required_step_failed, optional_step_failed, same_step_state,
  is_terminal_step, is_required,
}
use pangi.Runs.Outcome.{is_failed_step}
use pangi.Orchestration.Contracts.{AgentResult, failed, is_failed, is_partial}
use pangi.Execution.Contracts.{
  ExecutionPolicy, ExecutionStepSnapshot, ExecutionPlanSnapshot, StepExecutionRequest, request_init,
  ExecutionOutcome, outcome_init, is_direct,
}
use pangi.Execution.World.{
  EngineError, persistence, key_error, out_of_fuel, Exec, pure, raise, lift, ◌>>=◌, ◌>>◌, checked,
  each,
}
use pangi.Execution.Store.{
  Claim, Env, start_step, finish_step, cancel_step, retry_interrupted_step, load_for_claim,
  finish_run,
}

-- {item.step.node_id: item.step.state for item in steps}.get(node): a later item wins.
unfoldable pub state_of : String → List ExecutionStepSnapshot → Option StepState
state_of node [] = none
state_of node (s ∷ rest) = elim (state_of node rest) [
  | some state ↦ some state
  | none ↦ if str_eq node s.step.node_id then some s.step.state else none
]

-- all(states[d] is COMPLETED for d in deps)
unfoldable pub all_completed : List ExecutionStepSnapshot → List String → Result EngineError Bool
all_completed steps [] = ok true
all_completed steps (d ∷ ds) = elim (state_of d steps) [
  | none ↦ err (key_error d)
  | some state ↦ elim (same_step_state state StepState.completed) [
    | true ↦ all_completed steps ds
    | false ↦ ok false
  ]
]

-- any(states[d] in failed for d in deps)
unfoldable pub any_failed : List ExecutionStepSnapshot → List String → Result EngineError Bool
unfolding is_failed_step
any_failed steps [] = ok false
any_failed steps (d ∷ ds) = elim (state_of d steps) [
  | none ↦ err (key_error d)
  | some state ↦ elim (is_failed_step state) [ true ↦ ok true | false ↦ any_failed steps ds ]
]

abbrev pub is_queued : ExecutionStepSnapshot → Bool
is_queued s = same_step_state s.step.state StepState.queued

-- The steps of `items` that are queued and pass a test that may raise.
unfoldable pub queued_where :
    (List String → Result EngineError Bool)
    → List ExecutionStepSnapshot
    → Result EngineError (List ExecutionStepSnapshot)
queued_where test [] = ok []
queued_where test (s ∷ rest) =
    let later = queued_where test rest in
    elim (is_queued s) [
      | false ↦ later
      | true ↦ elim (test s.step.depends_on) [
        | err e ↦ err e
        | ok b ↦ elim later [ err e ↦ err e | ok l ↦ ok (if b then s ∷ l else l) ]
      ]
    ]

abbrev pub dependency_blocked_steps :
    ExecutionPlanSnapshot → Result EngineError (List ExecutionStepSnapshot)
dependency_blocked_steps snapshot = queued_where (any_failed snapshot.steps) snapshot.steps

abbrev pub ready_steps : ExecutionPlanSnapshot → Result EngineError (List ExecutionStepSnapshot)
ready_steps snapshot = queued_where (all_completed snapshot.steps) snapshot.steps

unfoldable pub required_failure : List ExecutionStepSnapshot → Bool
unfolding is_failed_step
required_failure steps =
    any (λ s. is_required s.step.requirement && is_failed_step s.step.state) steps

-- {item.step.node_id: item for item in steps}.get(node)
unfoldable pub item_of : String → List ExecutionStepSnapshot → Option ExecutionStepSnapshot
item_of node [] = none
item_of node (s ∷ rest) = elim (item_of node rest) [
  | some item ↦ some item
  | none ↦ if str_eq node s.step.node_id then some s else none
]

unfoldable pub dependency_results :
    List ExecutionStepSnapshot → List String → Result EngineError (List AgentResult)
dependency_results steps [] = ok []
dependency_results steps (d ∷ ds) = elim (item_of d steps) [
  | none ↦ err (key_error d)
  | some item ↦ elim item.result [
    | none ↦ err (persistence "A completed dependency Result is unavailable")
    | some r ↦ elim (dependency_results steps ds) [ err e ↦ err e | ok rs ↦ ok (r ∷ rs) ]
  ]
]

abbrev pub failed_result : String → String → AgentResult
failed_result task_id error_code = record {
  task_id = task_id;
  status = failed;
  summary_markdown = "Task execution failed.";
  evidence = [];
  facts = [];
  warnings = [];
  error_code = some error_code;
}

-- What comes of `asyncio.wait_for(executor.execute(request), ...)`.
pub data Reply : Type 0 where
  returned : AgentResult → Reply
  returned_other timed_out raised : Reply

-- The result that is recorded for a reply.
unfoldable pub result_of : String → Reply → AgentResult
result_of task_id (returned r) =
    if str_eq r.task_id task_id then r else failed_result task_id "step_result_invalid"
result_of task_id returned_other = failed_result task_id "step_result_invalid"
result_of task_id timed_out = failed_result task_id "step_timeout"
result_of task_id raised = failed_result task_id "step_execution_failed"

abbrev pub state_for : AgentResult → StepState
state_for r = if is_failed r.status then StepState.failed else StepState.completed

-- The warnings of a delegate outcome.
abbrev pub result_warnings : AgentResult → List String
result_warnings r =
    if is_partial r.status then append "partial result: " r.task_id ∷ r.warnings else r.warnings

unfoldable pub flatten_warnings : List AgentResult → List String
flatten_warnings [] = []
flatten_warnings (r ∷ rs) = result_warnings r ++ flatten_warnings rs

unfoldable pub present_results : List ExecutionStepSnapshot → List AgentResult
present_results [] = []
present_results (s ∷ rest) =
    let later = present_results rest in elim s.result [ none ↦ later | some r ↦ r ∷ later ]

-- The values that `_finish_delegate` hands to the store and returns.
unfoldable pub delegate_outcome : String → List ExecutionStepSnapshot → ExecutionOutcome
unfolding is_failed_step flatten_warnings present_results
delegate_outcome run_id steps =
    let failures = keep (λ s. is_failed_step s.step.state) steps in
    let optional_warnings =
      map (λ (s : ExecutionStepSnapshot). append "optional step failed: " s.step.node_id)
        failures in
    let results = present_results steps in
    if any (λ s. is_required s.step.requirement) failures
    then record {
      run_id = run_id;
      state = RunState.failed;
      results = results;
      direct_answer = none;
      warnings = [];
      error_code = some required_step_failed;
    }
    else record {
      run_id = run_id;
      state = composing;
      results = results;
      direct_answer = none;
      warnings = optional_warnings ++ flatten_warnings results;
      error_code = if is_empty optional_warnings then none else some optional_step_failed;
    }

module _ (env : Env) (policy : ExecutionPolicy) (executor : StepExecutionRequest → Reply)
    (claim : Claim) where
  abbrev pub recover_step : ExecutionStepSnapshot → Exec (Unit {0})
  recover_step s =
      if not (same_step_state s.step.state StepState.interrupted)
      then pure tt
      else if not s.step.idempotent
      then raise (persistence "A non-idempotent interrupted Step reached execution")
      else (do retry_interrupted_step env claim s; pure tt)

  unfoldable pub prepare_recovery : ExecutionPlanSnapshot → Exec ExecutionPlanSnapshot
  prepare_recovery snapshot = do each recover_step snapshot.steps; load_for_claim env claim

  unfoldable pub execute_one :
      ExecutionPlanSnapshot → ExecutionStepSnapshot → Exec ExecutionStepSnapshot
  unfolding result_of
  execute_one snapshot s = do
    dependencies ← lift (dependency_results snapshot.steps s.definition.task.depends_on)
    request ← checked (
        request_init (record {
          run_id = claim.run_id;
          step_id = s.step.id;
          task = s.definition.task;
          dependency_results = dependencies;
        }))
    let result = result_of s.definition.task.id (executor request)
    finish_step env claim s (state_for result) result
        (if is_failed result.status then result.error_code else none)

  unfoldable pub finish_delegate : ExecutionPlanSnapshot → Exec ExecutionOutcome
  finish_delegate snapshot = do
    let o = delegate_outcome claim.run_id snapshot.steps
    finish_run env claim o.state o.warnings o.error_code
    checked (outcome_init o)

  unfoldable pub cancel_remaining : ExecutionPlanSnapshot → Exec ExecutionPlanSnapshot
  cancel_remaining snapshot = do
    each (cancel_step env claim "dependency_failed") (keep is_queued snapshot.steps)
    load_for_claim env claim

  abbrev pub run_batch : ExecutionPlanSnapshot → List ExecutionStepSnapshot → Exec (Unit {0})
  run_batch snapshot queued = do
    begun ← each (start_step env claim) (take policy.max_parallel_steps queued)
    each (execute_one snapshot) begun
    pure tt

  -- One round of the `while True` loop: an outcome, or `none` to go on.
  unfoldable pub round : ExecutionPlanSnapshot → Exec (Option ExecutionOutcome)
  round snapshot =
      if required_failure snapshot.steps
      then (do final ← cancel_remaining snapshot; o ← finish_delegate final; pure (some o))
      else (do
        blocked ← lift (dependency_blocked_steps snapshot)
        if not (is_empty blocked)
            then (do each (cancel_step env claim "dependency_failed") blocked; pure none)
            else (do
              queued ← lift (ready_steps snapshot)
              if not (is_empty queued)
                  then (do run_batch snapshot queued; pure none)
                  else if all (λ s. is_terminal_step s.step.state) snapshot.steps
                  then (do o ← finish_delegate snapshot; pure (some o))
                  else raise (persistence "Persisted dependency execution is stuck")))

  unfoldable pub rounds : ℕ → ExecutionPlanSnapshot → Exec ExecutionOutcome
  rounds zero snapshot = raise out_of_fuel
  rounds (suc fuel) snapshot = do
    done ← round snapshot
    elim done [ some o ↦ pure o | none ↦ (do next ← load_for_claim env claim; rounds fuel next) ]

  abbrev pub execute_direct : ExecutionPlanSnapshot → Exec ExecutionOutcome
  execute_direct snapshot = do
    finish_run env claim composing [] none
    checked (
        outcome_init (record {
          run_id = claim.run_id;
          state = composing;
          results = [];
          direct_answer = snapshot.plan.direct_answer;
          warnings = [];
          error_code = none;
        }))

  unfoldable pub execute : Exec ExecutionOutcome
  execute = do
    snapshot ← load_for_claim env claim
    if is_direct snapshot.plan.mode then execute_direct snapshot else (do
      recovered ← prepare_recovery snapshot
      rounds (suc (length recovered.steps)) recovered)
