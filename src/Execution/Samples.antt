-- ===== src/Execution/Samples.antt =====
-- Sample data for the execution's examples, and facts about it.
use pangi.Prelude.{
  String, true, false, if◌then◌else◌, [], ◌∷◌, none, some, ◌≡◌, refl, inl, inr, ap, map, arith,
  eq_iff,
}
use pangi.Prelude.Int.{ℤ, pos}
use pangi.Prelude.Results.{ok, err}
use pangi.Prelude.Sets.{contains, subset}
use pangi.Text.{aware, is_padded, is_blank}
use pangi.Runs.States.{delegate, RunState, StepState, required, is_terminal_step}
use pangi.Runs.Contracts.{identifier_ok, bounded_text_ok, check_each}
use pangi.Runs.StepValidity.{IsStep}
use pangi.Codec.Results.{result_data}
use pangi.Execution.Writes.{Redacts}
use pangi.Orchestration.Contracts.{DelegatedTask, AgentResult, succeeded, deterministic}
use pangi.Execution.Contracts.{
  PreparedExecutionPlan, step_task_id, snapshot_init, ExecutionPolicy, StepExecutionRequest,
}
use pangi.Execution.World.{RunRow, World, redaction_failed}
use pangi.Execution.Store.{Claim, Env, is_owner, fits}
use pangi.Execution.Engine.{Reply, returned, result_of}
use pangi.Execution.Working.{Services}
use pangi.Execution.Materialize.{Codec}
use pangi.Execution.Table.{Row, IsRow, Good}
use pangi.Execution.Hoare.{Ownership, Holds}

abbrev pub sample_task : DelegatedTask
sample_task = record {
  id = "research";
  subagent = "research";
  objective = "Look it up.";
  depends_on = [];
  connection_hints = [];
  allowed_tool_hints = [];
  timeout_seconds = 30;
}

abbrev pub row : StepState → Row
row state = record {
  step = record {
    id = "step_00000000001";
    run_id = "run_000000000001";
    node_id = "research";
    type = "subagent";
    state = state;
    requirement = required;
    idempotent = true;
    attempt = pos 1;
    created_at = aware 12;
    updated_at = aware 12;
    depends_on = [];
    started_at = none;
    finished_at = none;
    error_code = none;
  };
  definition = record { task = sample_task; requirement = required; idempotent = true };
  result = none;
}

abbrev pub claim : Claim
claim = record { run_id = "run_000000000001"; worker_id = "worker_000000001" }

abbrev pub run_row : RunRow
run_row = record {
  state = RunState.running;
  mode = some delegate;
  revision = pos 2;
  worker_id = some "worker_000000001";
  lease_expires_at = some (aware 100);
  heartbeat_at = none;
  warnings = [];
  error_code = none;
  updated_at = aware 12;
  queued_at = some (aware 11);
  finished_at = none;
}

-- Nobody interferes, and the lease holds. The redactor refuses a result with a blank summary.
abbrev pub env : Env
env = record {
  clock = λ n. aware 13;
  interfere = λ n r. r;
  step_id = λ run node n. "step_00000000002";
  redact = λ r. if is_blank r.summary_markdown then err redaction_failed else ok r;
  dumps = λ j. "{}";
}

abbrev pub IsOwned : RunRow → Type 0
IsOwned r = is_owner claim r (aware 13) ≡ true

pub env-Ownership : Ownership env claim ⊥ IsOwned
env-Ownership = record {
  clock_aware = λ n. tt;
  lose = λ n r o h. absurd (cc (o, h));
  own = λ n r h. h;
}

abbrev pub sample_plan : PreparedExecutionPlan
sample_plan = record {
  mode = delegate;
  steps = record { task = sample_task; requirement = required; idempotent = true } ∷ [];
  direct_answer = none;
  composition = deterministic;
}

abbrev pub world : StepState → World
world state = record { tick = 0; plan = sample_plan; steps = row state ∷ []; run = run_row }

-- The sample row in a state that has not ended
row_IsStep : (state : StepState) → is_terminal_step state ≡ false → IsStep (row state).step
unfolding identifier_ok is_padded bounded_text_ok is_blank check_each
row_IsStep state open_state = record {
  id = refl;
  run_id = refl;
  node_id = refl;
  type = refl;
  attempt = refl;
  finished = λ h. absurd (cc (h, open_state));
  depends_on = refl;
  error_code = λ c e. absurd (cc e);
  created = tt;
  updated = tt;
  started = tt;
  ended = tt;
}

pub row_IsRow :
    (state : StepState)
    → is_terminal_step state ≡ false
    → snapshot_init (row state) ≡ ok (row state)
    → IsRow (row state)
row_IsRow state open_state h = record {
  snapshot = h;
  depends = refl;
  valid = row_IsStep state open_state;
  warnings = λ r e. absurd (cc e);
}

pub row_Good :
    (state : StepState)
    → is_terminal_step state ≡ false
    → snapshot_init (row state) ≡ ok (row state)
    → Good (row state ∷ [])
unfolding contains subset
row_Good state open_state h = record {
  distinct = (refl, tt);
  ordered = refl;
  rows = λ s i. elim i [ inl e ↦ rw e (row_IsRow state open_state h) | inr j ↦ elim j [ ] ];
  after_dependencies = λ s i b. elim i [ inl e ↦ rw e (λ d m. absurd (cc m)) | inr j ↦ elim j [ ] ];
}

pub owned : is_owner claim run_row (aware 13) ≡ true
unfolding is_owner
owned = refl

pub state_Holds :
    (state : StepState)
    → is_terminal_step state ≡ false
    → snapshot_init (row state) ≡ ok (row state)
    → Holds IsOwned (world state)
state_Holds state open_state h = record {
  owned = owned;
  good = row_Good state open_state h;
  delegated = refl;
  planned = refl;
}

abbrev pub success : AgentResult
success = record {
  task_id = "research";
  status = succeeded;
  summary_markdown = "Done.";
  evidence = [];
  facts = [];
  warnings = [];
  error_code = none;
}

pub new_id_ok : (run node : String) (n : ℤ) → identifier_ok (env.step_id run node n) ≡ true
unfolding identifier_ok is_padded
new_id_ok run node n = refl

abbrev pub policy : ExecutionPolicy
policy = record { max_parallel_steps = 2 }

abbrev pub executor : StepExecutionRequest → Reply
executor q = returned success

pub run_id_ok : identifier_ok claim.run_id ≡ true
unfolding identifier_ok is_padded
run_id_ok = refl

pub success-Redacts : Redacts env claim success success
unfolding fits result_data is_blank
success-Redacts = record {
  redacted = refl;
  same_task = refl;
  same_status = refl;
  warnings = refl;
  size = refl;
}

-- The answer on the one task of the plan
recorded :
    (id : String)
    → contains id (map step_task_id sample_plan.steps) ≡ true
    → result_of id (
        executor (record {
          run_id = claim.run_id;
          step_id = "step_00000000001";
          task = sample_task;
          dependency_results = [];
        }))
      ≡ success
unfolding result_of contains
recorded id h = ground (arith, eq_iff id "research", eq_iff "research" id, h)

pub services : Services env claim executor sample_plan
services = record {
  run_id = run_id_ok;
  step_ids = new_id_ok;
  redacts = λ q (_, h). (success, rw (recorded q.task.id h) success-Redacts);
  codes = λ q (_, h) c e.
      absurd (cc (ap (λ (r : AgentResult). r.error_code) (recorded q.task.id h), e));
}

abbrev pub codec : Codec
codec = record {
  fingerprint = λ p. "fingerprint";
  safe_plan = ok;
  step_id = λ run node n. "step_00000000002";
}

abbrev pub planned_run : RunRow
planned_run = record run_row {
  state = RunState.planning;
  worker_id = none;
  lease_expires_at = none;
}
