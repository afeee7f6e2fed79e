-- ===== src/Codec/Tests.antt =====
-- Examples for the encodings.
use pangi.Codec.Reading.{plan_from_data-bounds}
use pangi.Prelude.{leb, length, ◌&&◌, All, [], ◌∷◌, none, some, true, false, ◌≡◌, refl}
use pangi.Prelude.Int.{pos}
use pangi.Prelude.Results.{ok, err}
use pangi.Prelude.Sets.{unique, subset, contains}
use pangi.Text.{is_blank}
use pangi.Runs.States.{delegate, required}
use pangi.Orchestration.Facts.{boolean, integer, text, object, no_field, field, value_ok}
use pangi.Orchestration.Contracts.{
  deterministic, DelegatedTask, task_init, Evidence, evidence_init, computed, AgentResult,
  succeeded, agent_result_init, invalid, hard_max_tasks, hard_max_task_timeout_seconds,
}
use pangi.Execution.Contracts.{PreparedExecutionPlan, plan_init, check_delegate, steps_in_order}
use pangi.Codec.Json.{value_error, exact_keys}
use pangi.Codec.Plans.{plan_data, plan_from_data}
use pangi.Codec.Results.{result_data, result_from_data}
use pangi.Codec.RoundTrip.{plan_from_data-plan_data}
use pangi.Codec.ResultRoundTrip.{result_from_data-result_data}

abbrev task : DelegatedTask
task = record {
  id = "research";
  subagent = "research";
  objective = "Look it up.";
  depends_on = [];
  connection_hints = "crm" ∷ [];
  allowed_tool_hints = [];
  timeout_seconds = 30;
}

abbrev plan : PreparedExecutionPlan
plan = record {
  mode = delegate;
  steps = record { task = task; requirement = required; idempotent = false } ∷ [];
  direct_answer = none;
  composition = deterministic;
}

plan_from_data-plan_data_example : plan_from_data (plan_data plan) ≡ ok plan
unfolding plan_init task_init check_delegate unique steps_in_order is_blank
plan_from_data-plan_data_example = plan_from_data-plan_data plan refl (refl, tt)

plan_read : plan_from_data (plan_data plan) ≡ ok plan
unfolding plan_init task_init check_delegate unique steps_in_order is_blank
plan_read = plan_from_data-plan_data plan refl (refl, tt)

plan_from_data-bounds_example :
    (leb (length plan.steps) hard_max_tasks ≡ true)
    × All
        (λ s.
          (leb 1 s.task.timeout_seconds && leb s.task.timeout_seconds hard_max_task_timeout_seconds)
          ≡ true)
        plan.steps
    × (plan_from_data (plan_data plan) ≡ ok plan)
plan_from_data-bounds_example = plan_from_data-bounds (plan_data plan) plan plan_read

abbrev source : Evidence
source = record {
  source_type = computed;
  source_name = "sum";
  title = "Sum";
  uri = none;
  excerpt = some "1 + 1";
}

abbrev result : AgentResult
result = record {
  task_id = "research";
  status = succeeded;
  summary_markdown = "Done.";
  evidence = source ∷ [];
  facts = field "total" (integer (pos 2)) (field "exact" (boolean true) no_field) ∷ [];
  warnings = "Rounded." ∷ [];
  error_code = none;
}

result_from_data-result_data_example : result_from_data (result_data result) ≡ ok result
unfolding agent_result_init evidence_init is_blank value_ok
result_from_data-result_data_example = result_from_data-result_data result refl (refl, tt)

-- An object with a wrong set of keys is refused.
refused :
    plan_from_data (object (field "mode" (text "direct") no_field))
    ≡ err (value_error (invalid "execution plan"))
unfolding plan_from_data exact_keys subset contains
refused = refl
