-- ===== src/Queue/Store.antt =====
-- SqliteRunQueueStore: each operation is one serialised transaction, a function of the tables; an
-- exception rolls it back. Times are aware instants, as RunQueueService gives them. Of the events
-- that the operations append, the attributes are left out.
use pangi.Prelude.{
  ℕ, String, Bool, true, false, ◌&&◌, ◌||◌, not, List, Option, none, some, any, map, str_eq, leb,
  if◌then◌else◌,
}
use pangi.Prelude.Int.{ℤ, same_ℤ}
use pangi.Prelude.Results.{Result, ok, err, ◌>>=◌, ◌>>◌, raise_if}
use pangi.Text.{aware}
use pangi.Runs.States.{RunState, received, planning, StepState, same_run_state}
use pangi.Runs.Contracts.{Run, RunStep, run_init}
use pangi.Runs.Transitions.{transition_run}
use pangi.Orchestration.Contracts.{ValueError, invalid}
use pangi.Queue.Events.{public}
use pangi.Queue.Contracts.{claim_init, RunCancellation, cancellation_init}
use pangi.Queue.Database.{
  RunEntry, Database, QueueError, not_found, conflict, value_error, is_leased, lease_expired,
  select_run, run_from_row, checked_run, persist_transition, append_event, first_queued,
}

-- A ValueError of a constructor
abbrev pub checked_value : {A : Type 0} → Result ValueError A → Result QueueError A
checked_value (ok a) = ok a
checked_value (err e) = err (value_error e)

abbrev pub selected : Option RunEntry → Result QueueError RunEntry
selected none = err not_found
selected (some e) = ok e

-- replace(transition_run(run, target, at), worker_id=None, lease_expires_at=None,
--         heartbeat_at=None, error_code=error)
abbrev pub released : Option String → Run → Run
released error r = record r {
  worker_id = none;
  lease_expires_at = none;
  heartbeat_at = none;
  error_code = error;
}

abbrev pub owned_by : String → ℕ → ℕ → Run → Run
owned_by worker at until r = record r {
  worker_id = some worker;
  heartbeat_at = some (aware at);
  lease_expires_at = some (aware until);
}

-- transition_run, then `replace` of some fields
unfoldable pub moved_to : RunState → ℕ → (Run → Run) → Run → Result QueueError Run
moved_to target at change current = do
  moved ← checked_run (transition_run current target (aware at))
  checked_run (run_init (change moved))

-- state in {RECEIVED, PLANNING, INTERRUPTED}
abbrev pub can_queue : RunState → Bool
can_queue received = true
can_queue planning = true
can_queue RunState.interrupted = true
can_queue _ = false

unfoldable pub enqueue : String → ℤ → ℕ → Database → Result QueueError (Run × Database)
enqueue run_id expected_revision at db = do
  row ← selected (select_run run_id db.runs)
  current ← run_from_row row
  raise_if (not (same_ℤ current.revision expected_revision) || not (can_queue current.state))
      conflict
  queued ← moved_to RunState.queued at (released none) current
  db1 ← persist_transition current queued db
  db2 ← append_event "run.queued" public "Run queued" queued at db1
  ok (queued, db2)

-- The claim of one row.
unfoldable pub claim_row : String → ℕ → ℕ → RunEntry → Database → Result QueueError (Run × Database)
claim_row worker_id at lease_expires_at row db = do
  current ← run_from_row row
  claimed ← moved_to RunState.running at (owned_by worker_id at lease_expires_at) current
  db1 ← persist_transition current claimed db
  db2 ← append_event "run.running" public "Run started" claimed at db1
  claim ← checked_value (claim_init claimed)
  ok (claim, db2)

unfoldable pub claim_next : String → ℕ → ℕ → Database → Result QueueError (Option Run × Database)
claim_next worker_id at lease_expires_at db = do
  raise_if (leb lease_expires_at at) (value_error (invalid "lease_expires_at"))
  elim (first_queued db.runs) [
    | none ↦ ok (none, db)
    | some row ↦ (do
      (claim, db') ← claim_row worker_id at lease_expires_at row db
      ok (some claim, db'))
  ]

-- The WHERE clause of the heartbeat: the owner, in time.
unfoldable pub can_renew : String → String → ℕ → RunEntry → Bool
can_renew run_id worker_id at e =
    str_eq run_id e.run.id
    && is_leased e.run.state
    && elim e.run.worker_id [ none ↦ false | some w ↦ str_eq w worker_id ]
    && elim e.run.lease_expires_at [ none ↦ false | some t ↦ not (lease_expired (some t) at) ]

abbrev pub renewed : ℕ → ℕ → RunEntry → RunEntry
renewed at until e = record e {
  run = record e.run {
    heartbeat_at = some (aware at);
    lease_expires_at = some (aware until);
    updated_at = aware at;
  };
}

-- UPDATE of the rows that may be renewed.
unfoldable pub renew_rows : String → String → ℕ → ℕ → List RunEntry → List RunEntry
renew_rows run_id worker_id at until =
    map (λ e. if can_renew run_id worker_id at e then renewed at until e else e)

unfoldable pub heartbeat : String → String → ℕ → ℕ → Database → Result QueueError (Bool × Database)
heartbeat run_id worker_id at lease_expires_at db = do
  raise_if (leb lease_expires_at at) (value_error (invalid "lease_expires_at"))
  ok (
    any (can_renew run_id worker_id at) db.runs,
    record db { runs = renew_rows run_id worker_id at lease_expires_at db.runs },
  )

-- UPDATE run_steps ... WHERE run_id = ? AND state IN (...)
unfoldable pub update_steps :
    String → (StepState → Bool) → (RunStep → RunStep) → List RunStep → List RunStep
update_steps run_id fits change =
    map (λ s. if str_eq run_id s.run_id && fits s.state then change s else s)

abbrev pub is_open_step : StepState → Bool
is_open_step StepState.queued = true
is_open_step StepState.running = true
is_open_step _ = false

abbrev pub is_running_step : StepState → Bool
is_running_step StepState.running = true
is_running_step _ = false

abbrev pub is_interrupted_step : StepState → Bool
is_interrupted_step StepState.interrupted = true
is_interrupted_step _ = false

abbrev pub cancelled_step : ℕ → RunStep → RunStep
cancelled_step at s = record s {
  state = StepState.cancelled;
  updated_at = aware at;
  finished_at = some (aware at);
}

abbrev pub interrupted_step : ℕ → RunStep → RunStep
interrupted_step at s = record s { state = StepState.interrupted; updated_at = aware at }

abbrev pub failed_step : ℕ → RunStep → RunStep
failed_step at s = record s {
  state = StepState.failed;
  error_code = some "non_idempotent_recovery";
  updated_at = aware at;
  finished_at = some (aware at);
}

-- state in {QUEUED, RUNNING}
abbrev pub can_cancel : RunState → Bool
can_cancel RunState.queued = true
can_cancel RunState.running = true
can_cancel _ = false

-- `cancel`, when the Run is not cancelled yet
unfoldable pub cancel_current : Run → ℕ → Database → Result QueueError (RunCancellation × Database)
cancel_current current at db = do
  raise_if (not (can_cancel current.state)) conflict
  moved ← checked_run (transition_run current RunState.cancelled (aware at))
  cancelled ← checked_run (run_init (released moved.error_code moved))
  db1 ← persist_transition current cancelled db
  db2 ←
      append_event "run.cancelled" public "Run cancelled" cancelled at (record db1 {
        steps = update_steps cancelled.id is_open_step (cancelled_step at) db1.steps;
      })
  result ← checked_value (cancellation_init (record { run = cancelled; changed = true }))
  ok (result, db2)

unfoldable pub cancel : String → ℕ → Database → Result QueueError (RunCancellation × Database)
cancel run_id at db = do
  row ← selected (select_run run_id db.runs)
  current ← run_from_row row
  if same_run_state current.state RunState.cancelled
      then (do
        result ← checked_value (cancellation_init (record { run = current; changed = false }))
        ok (result, db))
      else cancel_current current at db
