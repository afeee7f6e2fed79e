-- ===== src/Codec/Plans.antt =====
-- execution_plan_data, prepared_execution_plan_from_data and the encoding of a step.
use pangi.Prelude.{ℕ, String, Bool, false, not, List, [], ◌∷◌, str_eq, if◌then◌else◌}
use pangi.Prelude.Int.{ℤ, pos, negsuc}
use pangi.Prelude.Results.{Result, ok, ◌>>=◌, ◌>>◌, raise_if}
use pangi.Runs.States.{RunMode, direct, delegate, skill, StepRequirement, required, optional}
use pangi.Orchestration.Contracts.{
  CompositionMode, deterministic, synthesis_subagent, DelegatedTask, invalid, task_init,
}
use pangi.Execution.Contracts.{PreparedExecutionStep, PreparedExecutionPlan, plan_init}
use pangi.Orchestration.Facts.{Json, boolean, integer, text, array, object, Fields, no_field, field}
use pangi.Codec.Json.{
  DataError, value_error, bad, built, get, mapping, exact_keys, string, string_tuple,
  as_optional_text, as_items, as_boolean, as_integer, read_all, write_all, optional_text,
}

-- EXECUTION_PLAN_SCHEMA_VERSION
abbrev pub plan_schema_version : String
plan_schema_version = "orchestration-execution-v1"

-- The values of the enumerations, and the members by value.
abbrev pub mode_value : RunMode → String
mode_value direct = "direct"
mode_value delegate = "delegate"
mode_value skill = "skill"

abbrev pub mode_of : String → Result DataError RunMode
mode_of s =
    if str_eq s "direct"
    then ok direct
    else if str_eq s "delegate"
    then ok delegate
    else if str_eq s "skill"
    then ok skill
    else bad "RunMode"

abbrev pub composition_value : CompositionMode → String
composition_value deterministic = "deterministic"
composition_value synthesis_subagent = "synthesis_subagent"

abbrev pub composition_of : String → Result DataError CompositionMode
composition_of s =
    if str_eq s "deterministic"
    then ok deterministic
    else if str_eq s "synthesis_subagent"
    then ok synthesis_subagent
    else bad "CompositionMode"

abbrev pub requirement_value : StepRequirement → String
requirement_value required = "required"
requirement_value optional = "optional"

abbrev pub requirement_of : String → Result DataError StepRequirement
requirement_of s =
    if str_eq s "required"
    then ok required
    else if str_eq s "optional"
    then ok optional
    else bad "StepRequirement"

abbrev pub task_data : DelegatedTask → Json
task_data t = object (
    field "allowed_tool_hints" (array (write_all text t.allowed_tool_hints)) (
      field "connection_hints" (array (write_all text t.connection_hints)) (
        field "depends_on" (array (write_all text t.depends_on)) (
          field "id" (text t.id) (
            field "objective" (text t.objective) (
              field "subagent" (text t.subagent)
                (field "timeout_seconds" (integer (pos t.timeout_seconds)) no_field)))))))

-- `prepared_execution_step_data`
unfoldable pub step_data : PreparedExecutionStep → Json
step_data s = object (
    field "idempotent" (boolean s.idempotent) (
      field "requirement" (text (requirement_value s.requirement))
        (field "task" (task_data s.task) no_field)))

-- `execution_plan_data`
unfoldable pub plan_data : PreparedExecutionPlan → Json
plan_data p = object (
    field "composition" (text (composition_value p.composition)) (
      field "direct_answer" (optional_text p.direct_answer) (
        field "mode" (text (mode_value p.mode)) (
          field "schema_version" (text plan_schema_version)
            (field "steps" (array (write_all step_data p.steps)) no_field)))))

-- A number that DelegatedTask takes as a timeout; it refuses zero as it does a negative one.
abbrev timeout_of : ℤ → ℕ
timeout_of (pos n) = n
timeout_of (negsuc n) = 0

abbrev task_keys : List String
task_keys =
    "allowed_tool_hints" ∷ "connection_hints" ∷ "depends_on" ∷ "id" ∷ "objective" ∷ "subagent"
    ∷ "timeout_seconds" ∷ []

-- The call of DelegatedTask in `prepared_execution_step_from_data`
unfoldable pub read_task : Fields → ℤ → Result DataError DelegatedTask
read_task task timeout_seconds = do
  id ← string task "id"
  subagent ← string task "subagent"
  objective ← string task "objective"
  depends_on ← string_tuple task "depends_on"
  connection_hints ← string_tuple task "connection_hints"
  allowed_tool_hints ← string_tuple task "allowed_tool_hints"
  built (
      task_init (record {
        id = id;
        subagent = subagent;
        objective = objective;
        depends_on = depends_on;
        connection_hints = connection_hints;
        allowed_tool_hints = allowed_tool_hints;
        timeout_seconds = timeout_of timeout_seconds;
      }))

-- `prepared_execution_step_from_data`
unfoldable pub step_from_data : Json → Result DataError PreparedExecutionStep
step_from_data value = do
  data' ← mapping value "execution step"
  exact_keys data' ("idempotent" ∷ "requirement" ∷ "task" ∷ []) "execution step"
  task_value ← get data' "task"
  task_fields ← mapping task_value "delegated task"
  exact_keys task_fields task_keys "delegated task"
  idempotent_value ← get data' "idempotent"
  timeout_value ← get task_fields "timeout_seconds"
  idempotent ← as_boolean idempotent_value "idempotent"
  timeout_seconds ← as_integer timeout_value "timeout_seconds"
  task ← read_task task_fields timeout_seconds
  requirement_text ← string data' "requirement"
  requirement ← requirement_of requirement_text
  ok (record { task = task; requirement = requirement; idempotent = idempotent })

-- data["schema_version"] == version
abbrev has_version : String → Json → Bool
has_version version (text s) = str_eq s version
has_version version _ = false

unfoldable pub check_version : String → Json → Result DataError (Unit {0})
check_version version value =
    raise_if (not (has_version version value)) (value_error (invalid "schema version"))

-- `prepared_execution_plan_from_data`
unfoldable pub plan_from_data : Json → Result DataError PreparedExecutionPlan
plan_from_data value = do
  data' ← mapping value "execution plan"
  exact_keys data' ("composition" ∷ "direct_answer" ∷ "mode" ∷ "schema_version" ∷ "steps" ∷ [])
      "execution plan"
  version ← get data' "schema_version"
  check_version plan_schema_version version
  steps_value ← get data' "steps"
  items ← as_items steps_value "steps"
  answer_value ← get data' "direct_answer"
  direct_answer ← as_optional_text answer_value "direct_answer"
  mode_text ← string data' "mode"
  mode ← mode_of mode_text
  composition_text ← string data' "composition"
  composition ← composition_of composition_text
  steps ← read_all step_from_data items
  built (
      plan_init (record {
        mode = mode;
        steps = steps;
        direct_answer = direct_answer;
        composition = composition;
      }))
