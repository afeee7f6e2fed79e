-- ===== src/Runs/Outcome.antt =====
-- domain/runs.py: `resolve_step_outcome`, the outcome of a Run whose Steps are all terminal.
use Prim.Native.String.{◌++◌ as append}
use pangi.Prelude.{
  String, Bool, true, false, not, List, [], Option, none, some, any, keep, is_empty, map,
  if◌then◌else◌,
}
use pangi.Prelude.Results.{Result, ok, ◌>>◌, raise_if}
use pangi.Runs.States.{
  RunState, StepState, RunErrorCode, required_step_failed, optional_step_failed, is_terminal_step,
  is_required,
}
use pangi.Runs.Contracts.{RunStep, RunError, contract}

pub record StepOutcome : Type 0 where
  pub state : RunState
  pub warnings : List String
  pub error_code : Option RunErrorCode

-- step.state in {FAILED, CANCELLED}
unfoldable pub is_failed_step : StepState → Bool
is_failed_step StepState.failed = true
is_failed_step StepState.cancelled = true
is_failed_step _ = false

-- The part of `resolve_step_outcome` below its first check, on the failed Steps.
unfoldable pub outcome_of_failed : List RunStep → StepOutcome
outcome_of_failed failed =
    if any (λ s. is_required s.requirement) failed
    then record { state = RunState.failed; warnings = []; error_code = some required_step_failed }
    else let warnings =
        map (λ (s : RunStep). append "optional step failed: " s.node_id)
          (keep (λ s. not (is_required s.requirement)) failed) in
      record {
        state = RunState.completed;
        warnings = warnings;
        error_code = if is_empty warnings then none else some optional_step_failed;
      }

unfoldable pub resolve_step_outcome : List RunStep → Result RunError StepOutcome
unfolding is_terminal_step is_failed_step outcome_of_failed
resolve_step_outcome steps = do
  raise_if (not (is_empty (keep (λ s. not (is_terminal_step s.state)) steps)))
      (contract "all Run Steps must be terminal before resolving the outcome")
  ok (outcome_of_failed (keep (λ s. is_failed_step s.state) steps))
