-- ===== src/Queue/Database.antt =====
-- The tables `runs`, `run_steps` and `run_events` as the queue reads and writes them. A row of `runs` is kept as
-- the Run that `_run_from_row` makes of it, with the column `queued_at`.
use Prim.Native.Nat.{Ordering}
use Prim.Native.String.{compare as compare_text}
use pangi.Prelude.{
  ℕ, String, Bool, true, false, ◌&&◌, ◌||◌, not, List, [], ◌∷◌, Option, none, some, keep, str_eq,
  ltb, leb, suc, if◌then◌else◌,
}
use pangi.Prelude.Int.{same_ℤ}
use pangi.Prelude.Results.{Result, ok, err, ◌>>=◌, ◌>>◌}
use pangi.Text.{DateTime, naive, aware}
use pangi.Runs.States.{RunState, composing, same_run_state}
use pangi.Runs.Contracts.{
  Run, RunRequest, RunStep, RunError, run_init, request_init, principal_init, attachment_init,
  check_each,
}
use pangi.Queue.Events.{RunEvent, EventVisibility, event_init, max_index}
use pangi.Orchestration.Contracts.{ValueError}

pub record RunEntry : Type 0 where
  pub run : Run
  pub queued_at : Option DateTime

pub record Database : Type 0 where
  pub runs : List RunEntry
  pub steps : List RunStep
  pub events : List RunEvent

-- The errors of application/ports/run_queue.py, and those of the constructors.
pub data QueueError : Type 0 where
  not_found conflict invalid_row : QueueError
  contract_error : RunError → QueueError
  value_error : ValueError → QueueError
  runtime_error : String → QueueError

abbrev pub entry_id : RunEntry → String
entry_id e = e.run.id

abbrev pub is_leased : RunState → Bool
is_leased RunState.running = true
is_leased composing = true
is_leased _ = false

-- The instant of a time; every stored time is aware.
abbrev pub instant : DateTime → ℕ
instant (naive t) = t
instant (aware t) = t

-- julianday(lease_expires_at) <= julianday(at), without SQLite's rounding of the two to
-- milliseconds; a missing lease compares as NULL
abbrev pub lease_expired : Option DateTime → ℕ → Bool
lease_expired none at = false
lease_expired (some t) at = leb (instant t) at

-- `_select_run`
unfoldable pub select_run : String → List RunEntry → Option RunEntry
select_run id [] = none
select_run id (e ∷ rest) = if str_eq id e.run.id then some e else select_run id rest

-- The request of a row, with the checks of its parts.
unfoldable pub stored_request : RunRequest → Result RunError RunRequest
stored_request q = do
  principal ← principal_init q.principal
  check_each q.attachments (λ a. attachment_init a >>= λ _. ok tt)
  request_init q

-- `_run_from_row`: the constructors check the stored values again.
unfoldable pub run_from_row : RunEntry → Result QueueError Run
run_from_row e =
    elim (stored_request e.run.request >>= λ q. run_init (record e.run { request = q })) [
      | ok r ↦ ok r
      | err x ↦ err invalid_row
    ]

-- `replace` on a Run
abbrev pub checked_run : Result RunError Run → Result QueueError Run
checked_run (ok r) = ok r
checked_run (err e) = err (contract_error e)

-- The columns that `_persist_transition` writes.
abbrev pub put_run : Run → RunEntry → RunEntry
put_run changed e = record {
  run = record e.run {
    state = changed.state;
    revision = changed.revision;
    worker_id = changed.worker_id;
    lease_expires_at = changed.lease_expires_at;
    heartbeat_at = changed.heartbeat_at;
    warnings = changed.warnings;
    error_code = changed.error_code;
    updated_at = changed.updated_at;
    started_at = changed.started_at;
    finished_at = changed.finished_at;
  };
  queued_at =
      if same_run_state changed.state RunState.queued then some changed.updated_at else e.queued_at;
}

-- WHERE id = ? AND state = ? AND revision = ?
unfoldable pub is_current : Run → RunEntry → Bool
is_current current e =
    str_eq current.id e.run.id
    && same_run_state e.run.state current.state
    && same_ℤ e.run.revision current.revision

unfoldable pub update_run : Run → Run → List RunEntry → Option (List RunEntry)
unfolding is_current
update_run current changed [] = none
update_run current changed (e ∷ rest) =
    let later = update_run current changed rest in
    if is_current current e
    then some (put_run changed e ∷ rest)
    else elim later [ none ↦ none | some rest' ↦ some (e ∷ rest') ]

-- `_persist_transition`
unfoldable pub persist_transition : Run → Run → Database → Result QueueError Database
persist_transition current changed db = elim (update_run current changed db.runs) [
  | none ↦ err conflict
  | some runs ↦ ok (record db { runs = runs })
]

-- `_append_event`, with the type, the visibility and the message of the event
unfoldable pub append_event :
    String → EventVisibility → String → Run → ℕ → Database → Result QueueError Database
append_event type visibility message run at db = do
  event ←
      elim (event_init (record {
        run_id = run.id;
        index = suc (max_index run.id db.events);
        type = type;
        visibility = visibility;
        created_at = aware at;
        step_id = none;
        message = some message;
      })) [ ok e ↦ ok e | err x ↦ err (contract_error x) ]
  ok (record db { events = event ∷ db.events })

-- ORDER BY COALESCE(r.queued_at, r.created_at), r.created_at, r.id
abbrev pub queue_time : RunEntry → ℕ
queue_time e = elim e.queued_at [ none ↦ instant e.run.request.created_at | some t ↦ instant t ]

abbrev pub created_time : RunEntry → ℕ
created_time e = instant e.run.request.created_at

abbrev pub is_before : Ordering → Bool
is_before Ordering.lt = true
is_before _ = false

abbrev pub text_before : String → String → Bool
text_before a b = is_before (compare_text a b)

unfoldable pub queue_before : RunEntry → RunEntry → Bool
queue_before a b =
    ltb (queue_time a) (queue_time b)
    || not (ltb (queue_time b) (queue_time a))
      && (ltb (created_time a) (created_time b)
          || not (ltb (created_time b) (created_time a)) && text_before a.run.id b.run.id)

abbrev pub is_queued_run : RunEntry → Bool
is_queued_run e = same_run_state e.run.state RunState.queued

-- The first of the queued rows in that order.
unfoldable pub first_queued : List RunEntry → Option RunEntry
first_queued [] = none
first_queued (e ∷ rest) =
    let later = first_queued rest in
    if is_queued_run e
    then elim later [
      | none ↦ some e
      | some best ↦ if queue_before best e then some best else some e
    ]
    else later

-- ORDER BY r.lease_expires_at, r.id
abbrev pub lease_time : RunEntry → ℕ
lease_time e = elim e.run.lease_expires_at [ none ↦ 0 | some t ↦ instant t ]

unfoldable pub lease_before : RunEntry → RunEntry → Bool
lease_before a b =
    ltb (lease_time a) (lease_time b)
    || not (ltb (lease_time b) (lease_time a)) && text_before a.run.id b.run.id

unfoldable pub insert_entry : RunEntry → List RunEntry → List RunEntry
insert_entry e [] = e ∷ []
insert_entry e (x ∷ rest) =
    let later = insert_entry e rest in if lease_before x e then x ∷ later else e ∷ x ∷ rest

unfoldable pub by_lease : List RunEntry → List RunEntry
by_lease [] = []
by_lease (e ∷ rest) = insert_entry e (by_lease rest)

-- state IN ('running', 'composing') AND the lease has expired
abbrev pub is_expired : ℕ → RunEntry → Bool
is_expired at e = is_leased e.run.state && lease_expired e.run.lease_expires_at at

abbrev pub expired_rows : ℕ → List RunEntry → List RunEntry
expired_rows at runs = by_lease (keep (is_expired at) runs)
