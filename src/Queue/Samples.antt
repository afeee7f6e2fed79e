-- ===== src/Queue/Samples.antt =====
-- Sample tables for the queue's examples: a queued Run, one running under an expired lease with a
-- step, and one that composes its output under an expired lease.
use pangi.Prelude.{String, true, [], ◌∷◌, none, some, refl, inl, inr}
use pangi.Prelude.Distinct.{In}
use pangi.Prelude.Int.{ℤ, pos}
use pangi.Prelude.Sets.{contains}
use pangi.Text.{aware, is_padded, is_blank}
use pangi.Runs.States.{api, RunState, composing, StepState, required, is_terminal_run}
use pangi.Runs.Contracts.{
  member, RunRequest, RunStep, run_init, validate_identifier, validate_bounded_text, check_each,
  utc, optional_utc, principal_init, request_init,
}
use pangi.Runs.Validity.{IsRun-run_init}
use pangi.Queue.Contracts.{RunQueuePolicy}
use pangi.Queue.Database.{RunEntry, Database, stored_request}
use pangi.Queue.Invariant.{IsEntry, IsQueue}

abbrev pub worker : String
worker = "worker_000000001"

abbrev pub policy : RunQueuePolicy
policy = record { max_concurrent_runs = 2; lease_duration = 60; heartbeat_interval = 20 }

abbrev pub request : String → RunRequest
request id = record {
  request_id = id;
  principal = record { user_id = "user_00000000001"; role = member; channel = api };
  text = "What changed?";
  idempotency_key = "key-1";
  created_at = aware 10;
  thread_key = none;
  explicit_skill = none;
  schedule_id = none;
  attachments = [];
}

abbrev pub queued_entry : RunEntry
queued_entry = record {
  run = record {
    id = "run_000000000001";
    request = request "req_00000001";
    state = RunState.queued;
    updated_at = aware 11;
    revision = pos 1;
    mode = none;
    skill_version_id = none;
    worker_id = none;
    lease_expires_at = none;
    heartbeat_at = none;
    started_at = none;
    finished_at = none;
    warnings = [];
    error_code = none;
  };
  queued_at = some (aware 11);
}

abbrev leased_entry : String → String → RunState → ℤ → RunEntry
leased_entry id request_id state revision = record {
  run = record {
    id = id;
    request = request request_id;
    state = state;
    updated_at = aware 20;
    revision = revision;
    mode = none;
    skill_version_id = none;
    worker_id = some worker;
    lease_expires_at = some (aware 50);
    heartbeat_at = some (aware 20);
    started_at = some (aware 20);
    finished_at = none;
    warnings = [];
    error_code = none;
  };
  queued_at = some (aware 12);
}

abbrev pub running_entry : RunEntry
running_entry = leased_entry "run_000000000002" "req_00000002" RunState.running (pos 2)

abbrev pub composing_entry : RunEntry
composing_entry = leased_entry "run_000000000003" "req_00000003" composing (pos 3)

abbrev pub running_step : RunStep
running_step = record {
  id = "step_00000000001";
  run_id = "run_000000000002";
  node_id = "research";
  type = "subagent";
  state = StepState.running;
  requirement = required;
  idempotent = true;
  attempt = pos 1;
  created_at = aware 20;
  updated_at = aware 20;
  depends_on = [];
  started_at = some (aware 20);
  finished_at = none;
  error_code = none;
}

abbrev pub tables : Database
tables = record {
  runs = queued_entry ∷ running_entry ∷ composing_entry ∷ [];
  steps = running_step ∷ [];
  events = [];
}

queued_entry-IsEntry : IsEntry queued_entry
unfolding stored_request principal_init request_init run_init validate_identifier is_padded
    is_terminal_run check_each validate_bounded_text is_blank utc optional_utc
queued_entry-IsEntry = record {
  request = refl;
  run = (IsRun-run_init {r = queued_entry.run} refl).0;
  worker = refl;
  lease = refl;
  heartbeat = refl;
  queue_time = λ h. refl;
}

running_entry-IsEntry : IsEntry running_entry
unfolding stored_request principal_init request_init run_init validate_identifier is_padded
    is_terminal_run check_each validate_bounded_text is_blank utc optional_utc
running_entry-IsEntry = record {
  request = refl;
  run = (IsRun-run_init {r = running_entry.run} refl).0;
  worker = refl;
  lease = refl;
  heartbeat = refl;
  queue_time = λ h. refl;
}

composing_entry-IsEntry : IsEntry composing_entry
unfolding stored_request principal_init request_init run_init validate_identifier is_padded
    is_terminal_run check_each validate_bounded_text is_blank utc optional_utc
composing_entry-IsEntry = record {
  request = refl;
  run = (IsRun-run_init {r = composing_entry.run} refl).0;
  worker = refl;
  lease = refl;
  heartbeat = refl;
  queue_time = λ h. refl;
}

tables_entries : (e : RunEntry) → In e tables.runs → IsEntry e
tables_entries e (inl f) = rw f queued_entry-IsEntry
tables_entries e (inr (inl f)) = rw f running_entry-IsEntry
tables_entries e (inr (inr (inl f))) = rw f composing_entry-IsEntry
tables_entries e (inr (inr (inr i))) = elim i [ ]

pub tables-IsQueue : IsQueue tables
unfolding contains
tables-IsQueue = record {
  distinct = ((refl, (refl, (refl, tt))));
  entries = tables_entries;
  numbered = tt;
}
