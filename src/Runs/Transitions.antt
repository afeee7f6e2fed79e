-- ===== src/Runs/Transitions.antt =====
-- domain/runs.py: `transition_run` and `transition_step`. `replace` runs the constructor's checks
-- again on the changed value.
use pangi.Prelude.{some, not, if◌then◌else◌, ◌&&◌}
use pangi.Prelude.Int.{increment}
use pangi.Prelude.Results.{Result, ◌>>=◌, ◌>>◌, raise_if}
use pangi.Text.{DateTime}
use pangi.Runs.States.{
  RunState, StepState, run_transition_allowed, step_transition_allowed, same_run_state,
  same_step_state, is_terminal_run, is_terminal_step,
}
use pangi.Runs.Contracts.{
  Run, RunStep, RunError, invalid_run_transition, invalid_step_transition, utc, run_init, step_init,
  is_none,
}

-- The fields that a transition to `target` at `timestamp` gives anew.
abbrev pub moved_run : Run → RunState → DateTime → Run
moved_run run target timestamp = record run {
  state = target;
  updated_at = timestamp;
  revision = increment run.revision;
  started_at =
      if same_run_state target RunState.running && is_none run.started_at
      then some timestamp
      else run.started_at;
  finished_at = if is_terminal_run target then some timestamp else run.finished_at;
}

unfoldable pub transition_run : Run → RunState → DateTime → Result RunError Run
transition_run run target at = do
  raise_if (not (run_transition_allowed run.state target)) (invalid_run_transition run.state target)
  timestamp ← utc "transition timestamp" at
  run_init (moved_run run target timestamp)

abbrev pub moved_step : RunStep → StepState → DateTime → RunStep
moved_step step target timestamp = record step {
  state = target;
  updated_at = timestamp;
  started_at =
      if same_step_state target StepState.running && is_none step.started_at
      then some timestamp
      else step.started_at;
  finished_at = if is_terminal_step target then some timestamp else step.finished_at;
}

unfoldable pub transition_step : RunStep → StepState → DateTime → Result RunError RunStep
transition_step step target at = do
  raise_if (not (step_transition_allowed step.state target))
      (invalid_step_transition step.state target)
  timestamp ← utc "transition timestamp" at
  step_init (moved_step step target timestamp)
