-- ===== src/Runs/Tests.antt =====
-- Examples: a Run from its receipt to its end, and Steps with each kind of outcome.
use pangi.Prelude.{String, false, List, [], ◌∷◌, none, some, Option, All, ◌≡◌, ◌⊎◌, ◌↔◌, refl}
use pangi.Prelude.Distinct.{In}
use pangi.Prelude.Int.{pos}
use pangi.Prelude.Results.{ok, err}
use pangi.Text.{DateTime, aware, is_padded}
use pangi.Runs.States.{
  api, RunState, received, StepState, StepRequirement, required, optional, optional_step_failed,
  required_step_failed, RunErrorCode, run_transition_allowed, is_terminal_run,
}
use pangi.Runs.Contracts.{
  member, RunRequest, Run, RunStep, contract, invalid_run_transition, run_init, validate_identifier,
  check_each, utc, optional_utc,
}
use pangi.Runs.Transitions.{moved_run, transition_run}
use pangi.Runs.Validity.{transition_run_exact}
use pangi.Runs.History.{History, start, move, Lifecycle, History-Lifecycle, History-keeps}
use pangi.Runs.Outcome.{StepOutcome, resolve_step_outcome}
use pangi.Runs.OutcomeLaws.{HasCompleted, resolve_completed}
use pangi.Runs.Resolving.{HasFailed, HasEnded, HasCode, warnings_of, resolve_exact}

abbrev request : RunRequest
request = record {
  request_id = "req_00000001";
  principal = record { user_id = "user_00000000001"; role = member; channel = api };
  text = "What changed?";
  idempotency_key = "key-1";
  created_at = aware 10;
  thread_key = none;
  explicit_skill = none;
  schedule_id = none;
  attachments = [];
}

abbrev new_run : Run
new_run = record {
  id = "run_000000000001";
  request = request;
  state = received;
  updated_at = aware 10;
  revision = pos 0;
  mode = none;
  skill_version_id = none;
  worker_id = none;
  lease_expires_at = none;
  heartbeat_at = none;
  started_at = none;
  finished_at = none;
  warnings = [];
  error_code = none;
}

abbrev queued_run : Run
queued_run = moved_run new_run RunState.queued (aware 11)

abbrev running_run : Run
running_run = moved_run queued_run RunState.running (aware 12)

abbrev failed_run : Run
failed_run = moved_run running_run RunState.failed (aware 13)

-- A fresh Run cannot start without being queued first.
transition_run_exact_example :
    (transition_run new_run RunState.running (aware 12)
      ≡ err (invalid_run_transition received RunState.running))
    × (run_init (moved_run new_run RunState.running (aware 12))
        ≡ ok (moved_run new_run RunState.running (aware 12)))
unfolding run_transition_allowed run_init validate_identifier is_padded is_terminal_run check_each
    utc optional_utc
transition_run_exact_example =
    transition_run_exact {r = new_run} RunState.running (aware 12) refl tt

failed-History : History new_run failed_run 3
unfolding transition_run run_transition_allowed run_init validate_identifier is_padded
    is_terminal_run check_each utc optional_utc
failed-History =
    move RunState.failed (aware 13)
      (move RunState.running (aware 12) (move RunState.queued (aware 11) start refl) refl) refl

History-Lifecycle_example : Lifecycle failed_run 3
History-Lifecycle_example =
    History-Lifecycle {a = new_run} {b = failed_run} {n = 3}
      (record { state = refl; revision = refl; started = refl; finished = refl }) failed-History

History-keeps_example :
    (failed_run.id ≡ new_run.id)
    × (failed_run.request ≡ new_run.request)
    × (failed_run.worker_id ≡ new_run.worker_id)
    × (failed_run.lease_expires_at ≡ new_run.lease_expires_at)
    × ((s : DateTime) → new_run.started_at ≡ some s → failed_run.started_at ≡ some s)
History-keeps_example = History-keeps {a = new_run} {b = failed_run} {n = 3} failed-History

abbrev step : String → StepState → StepRequirement → RunStep
step node state requirement = record {
  id = "step_00000000001";
  run_id = "run_000000000001";
  node_id = node;
  type = "subagent";
  state = state;
  requirement = requirement;
  idempotent = false;
  attempt = pos 1;
  created_at = aware 12;
  updated_at = aware 13;
  depends_on = [];
  started_at = some (aware 12);
  finished_at = some (aware 13);
  error_code = none;
}

abbrev mixed_steps : List RunStep
mixed_steps =
    step "research" StepState.completed required ∷ step "extra" StepState.failed optional ∷ []

resolve_exact_example :
    (((s : RunStep) × In s mixed_steps × (¬ HasEnded s))
      × (resolve_step_outcome mixed_steps
          ≡ err (contract "all Run Steps must be terminal before resolving the outcome")))
    ⊎ (((s : RunStep) → In s mixed_steps → HasEnded s)
        × ((s : RunStep) × In s mixed_steps × (s.requirement ≡ required) × HasFailed s)
        × (resolve_step_outcome mixed_steps
            ≡ ok (record {
              state = RunState.failed;
              warnings = [];
              error_code = some required_step_failed;
            })))
    ⊎ (((s : RunStep) → In s mixed_steps → HasEnded s)
        × ((s : RunStep)
            → In s mixed_steps
            → s.requirement ≡ required
            → s.state ≡ StepState.completed)
        × ((code : Option RunErrorCode) × HasCode mixed_steps code
            × (resolve_step_outcome mixed_steps
                ≡ ok (record {
                  state = RunState.completed;
                  warnings = warnings_of mixed_steps;
                  error_code = code;
                }))))
resolve_exact_example = resolve_exact mixed_steps

abbrev mixed_outcome : StepOutcome
mixed_outcome = record {
  state = RunState.completed;
  warnings = "optional step failed: extra" ∷ [];
  error_code = some optional_step_failed;
}

resolve_completed_example :
    (mixed_outcome.state ≡ RunState.completed) ↔ All HasCompleted mixed_steps
unfolding resolve_step_outcome
resolve_completed_example = resolve_completed mixed_steps mixed_outcome refl
