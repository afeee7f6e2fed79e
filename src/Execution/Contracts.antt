-- ===== src/Execution/Contracts.antt =====
-- application/contracts/orchestration_execution.py: prepared plans, step snapshots, requests and
-- outcomes, with the checks of their constructors.
use pangi.Prelude.{
  ℕ, String, Bool, true, false, ◌&&◌, ◌||◌, not, List, [], ◌∷◌, Option, none, some, length, any,
  is_empty, map, ltb, leb, str_eq,
}
use pangi.Prelude.Results.{Result, ok, err, ◌>>◌, raise_if}
use pangi.Prelude.Sets.{contains, unique}
use pangi.Text.{is_blank}
use pangi.Runs.States.{
  RunMode, direct, delegate, skill, RunState, composing, StepState, StepRequirement, required,
  RunErrorCode, required_step_failed, optional_step_failed, is_required,
}
use pangi.Runs.Contracts.{RunStep, identifier_ok}
use pangi.Orchestration.Contracts.{
  CompositionMode, deterministic, DelegatedTask, AgentResult, ValueError, invalid, hard_max_tasks,
  ValidatedOrchestratorPlan, is_none, is_failed,
}

pub record ExecutionPolicy : Type 0 where
  pub max_parallel_steps : ℕ

unfoldable pub policy_init : ExecutionPolicy → Result ValueError ExecutionPolicy
policy_init p = do
  raise_if (not (leb 1 p.max_parallel_steps && leb p.max_parallel_steps hard_max_tasks))
      (invalid "max_parallel_steps")
  ok p

pub record PreparedExecutionStep : Type 0 where
  pub task : DelegatedTask
  pub requirement : StepRequirement
  pub idempotent : Bool

pub record PreparedExecutionPlan : Type 0 where
  pub mode : RunMode
  pub steps : List PreparedExecutionStep
  pub direct_answer : Option String
  pub composition : CompositionMode

abbrev pub step_task_id : PreparedExecutionStep → String
step_task_id s = s.task.id

abbrev pub is_deterministic : CompositionMode → Bool
is_deterministic deterministic = true
is_deterministic _ = false

-- The loop over the steps with the set `seen`: false where it raises.
unfoldable pub steps_in_order : List String → List PreparedExecutionStep → Bool
steps_in_order seen [] = true
steps_in_order seen (s ∷ rest) =
    not (any (λ d. not (contains d seen)) s.task.depends_on)
    && steps_in_order (s.task.id ∷ seen) rest

abbrev pub blank_answer : Option String → Bool
blank_answer none = true
blank_answer (some a) = is_blank a

unfoldable pub check_direct : PreparedExecutionPlan → Result ValueError PreparedExecutionPlan
check_direct p = do
  raise_if (blank_answer p.direct_answer || not (is_empty p.steps)) (invalid "direct plan")
  raise_if (not (is_deterministic p.composition)) (invalid "direct composition")
  ok p

unfoldable pub check_delegate : PreparedExecutionPlan → Result ValueError PreparedExecutionPlan
check_delegate p = do
  raise_if (not (is_none p.direct_answer) || is_empty p.steps) (invalid "delegate plan")
  raise_if (not (unique (map step_task_id p.steps))) (invalid "step identifiers")
  raise_if (not (steps_in_order [] p.steps)) (invalid "dependency order")
  ok p

abbrev pub check_mode : RunMode → PreparedExecutionPlan → Result ValueError PreparedExecutionPlan
check_mode direct p = check_direct p
check_mode delegate p = check_delegate p
check_mode skill p = err (invalid "skill execution")

-- PreparedExecutionPlan.__post_init__
unfoldable pub plan_init : PreparedExecutionPlan → Result ValueError PreparedExecutionPlan
plan_init p = do
  raise_if (ltb hard_max_tasks (length p.steps)) (invalid "too many steps")
  check_mode p.mode p

-- PreparedExecutionStep(task), with its defaults
abbrev pub prepare_step : DelegatedTask → PreparedExecutionStep
prepare_step t = record { task = t; requirement = required; idempotent = false }

abbrev prepared : RunMode → ValidatedOrchestratorPlan → Result ValueError PreparedExecutionPlan
prepared direct p = plan_init (record {
  mode = direct;
  steps = [];
  direct_answer = p.decision.direct_answer;
  composition = p.decision.composition;
})
prepared skill p = err (invalid "skill execution")
prepared delegate p = plan_init (record {
  mode = delegate;
  steps = map prepare_step p.ordered_tasks;
  direct_answer = none;
  composition = p.decision.composition;
})

unfoldable pub from_validated : ValidatedOrchestratorPlan → Result ValueError PreparedExecutionPlan
from_validated p = prepared p.decision.mode p

-- A step as its row, its definition in the plan, and its result, if there is one.
pub record ExecutionStepSnapshot : Type 0 where
  pub step : RunStep
  pub definition : PreparedExecutionStep
  pub result : Option AgentResult

abbrev same_bool : Bool → Bool → Bool
same_bool true b = b
same_bool false b = not b

-- state in {COMPLETED, FAILED}
abbrev pub is_result_state : StepState → Bool
is_result_state StepState.completed = true
is_result_state StepState.failed = true
is_result_state _ = false

abbrev pub is_failed_state : StepState → Bool
is_failed_state StepState.failed = true
is_failed_state _ = false

-- The checks on the result, against the Step.
abbrev pub result_mismatch : RunStep → Option AgentResult → Bool
result_mismatch s none = is_result_state s.state
result_mismatch s (some r) =
    not (str_eq r.task_id s.node_id)
    || not (is_result_state s.state)
    || not (same_bool (is_failed r.status) (is_failed_state s.state))

unfoldable pub snapshot_init : ExecutionStepSnapshot → Result ValueError ExecutionStepSnapshot
snapshot_init s = do
  raise_if (not (str_eq s.step.node_id s.definition.task.id)) (invalid "execution definition")
  raise_if (not (same_bool (is_required s.step.requirement) (is_required s.definition.requirement)))
      (invalid "requirement")
  raise_if (not (same_bool s.step.idempotent s.definition.idempotent)) (invalid "idempotency")
  raise_if (result_mismatch s.step s.result) (invalid "AgentResult")
  ok s

pub record ExecutionPlanSnapshot : Type 0 where
  pub plan : PreparedExecutionPlan
  pub steps : List ExecutionStepSnapshot

abbrev pub is_direct : RunMode → Bool
is_direct direct = true
is_direct _ = false

unfoldable pub plan_snapshot_init : ExecutionPlanSnapshot → Result ValueError ExecutionPlanSnapshot
plan_snapshot_init p = do
  raise_if (is_direct p.plan.mode && not (is_empty p.steps)) (invalid "direct execution snapshot")
  ok p

pub record StepExecutionRequest : Type 0 where
  pub run_id : String
  pub step_id : String
  pub task : DelegatedTask
  pub dependency_results : List AgentResult

-- tuple(result.task_id for result in dependency_results) == task.depends_on
unfoldable pub results_follow : List AgentResult → List String → Bool
results_follow [] [] = true
results_follow (r ∷ rs) (d ∷ ds) = str_eq r.task_id d && results_follow rs ds
results_follow [] (d ∷ ds) = false
results_follow (r ∷ rs) [] = false

unfoldable pub request_init : StepExecutionRequest → Result ValueError StepExecutionRequest
request_init q = do
  raise_if (not (identifier_ok q.run_id)) (invalid "run_id")
  raise_if (not (identifier_ok q.step_id)) (invalid "step_id")
  raise_if (not (results_follow q.dependency_results q.task.depends_on))
      (invalid "dependency_results")
  ok q

pub record ExecutionOutcome : Type 0 where
  pub run_id : String
  pub state : RunState
  pub results : List AgentResult
  pub direct_answer : Option String
  pub warnings : List String
  pub error_code : Option RunErrorCode

abbrev pub is_required_failed : Option RunErrorCode → Bool
is_required_failed (some required_step_failed) = true
is_required_failed _ = false

abbrev pub is_none_or_optional_failed : Option RunErrorCode → Bool
is_none_or_optional_failed none = true
is_none_or_optional_failed (some optional_step_failed) = true
is_none_or_optional_failed _ = false

-- The checks that depend on the outcome's state; any third state is rejected.
abbrev outcome_mismatch : RunState → ExecutionOutcome → Bool
outcome_mismatch RunState.failed o =
    not (is_required_failed o.error_code) || not (is_none o.direct_answer)
outcome_mismatch composing o = not (is_none_or_optional_failed o.error_code)
outcome_mismatch _ o = true

unfoldable pub outcome_init : ExecutionOutcome → Result ValueError ExecutionOutcome
outcome_init o = do
  raise_if (not (identifier_ok o.run_id)) (invalid "run_id")
  raise_if (any is_blank o.warnings) (invalid "warnings")
  raise_if (not (is_none o.direct_answer) && not (is_empty o.results)) (invalid "direct outcome")
  raise_if (outcome_mismatch o.state o) (invalid "execution outcome")
  ok o
