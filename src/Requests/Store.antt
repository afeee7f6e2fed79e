-- ===== src/Requests/Store.antt =====
-- SqliteRunStore.create_or_replay: one transaction on the tables users, api_idempotency_records,
-- runs and run_events. A stored response is kept as the Run id that it names.
use pangi.Prelude.{
  ℕ, String, Bool, true, false, ◌&&◌, ◌||◌, not, List, [], ◌∷◌, Option, none, some, any, keep,
  str_eq, leb, ◌==◌, if◌then◌else◌,
}
use pangi.Prelude.Results.{Result, ok, err, ◌>>◌, raise_if}
use pangi.Runs.States.{RunState, same_run_state}
use pangi.Runs.Contracts.{UserRole, member, skill_author, admin, system, Run}
use pangi.Queue.Events.{RunEvent}
use pangi.Queue.Database.{RunEntry, Database, select_run, run_from_row}

-- A row of users: id, role, and whether its status is active
pub record User : Type 0 where
  pub id : String
  pub role : UserRole
  pub active : Bool

pub data RecordState : Type 0 where
  processing completed failed : RecordState

pub record IdempotencyRecord : Type 0 where
  pub principal_id : String
  pub route_key : String
  pub idempotency_key : String
  pub request_fingerprint : String
  pub state : RecordState
  pub response_run_id : Option String
  pub run_id : Option String
  pub expires_at : ℕ

pub record Tables : Type 0 where
  pub users : List User
  pub records : List IdempotencyRecord
  pub database : Database

pub record RunCreateRecord : Type 0 where
  pub run : Run
  pub first_event : RunEvent
  pub route_key : String
  pub request_fingerprint : String
  pub recorded_at : ℕ
  pub expires_at : ℕ

pub record RunCreation : Type 0 where
  pub run : Run
  pub replayed : Bool

pub data CreationError : Type 0 where
  principal_unavailable idempotency_conflict idempotency_unavailable request_conflict persistence
        invalid_value :
      CreationError

abbrev role_index : UserRole → ℕ
role_index member = 0
role_index skill_author = 1
role_index admin = 2
role_index system = 3

abbrev pub same_role : UserRole → UserRole → Bool
same_role a b = role_index a == role_index b

-- SELECT role, status FROM users, and the checks on them
unfoldable pub is_available : String → UserRole → List User → Bool
is_available id role [] = false
is_available id role (u ∷ rest) =
    let later = is_available id role rest in
    if str_eq id u.id then u.active && same_role u.role role else later

-- principal_id = ? AND route_key = ? AND idempotency_key = ?
unfoldable pub has_key : RunCreateRecord → IdempotencyRecord → Bool
has_key r i =
    str_eq r.run.request.principal.user_id i.principal_id
    && str_eq r.route_key i.route_key
    && str_eq r.run.request.idempotency_key i.idempotency_key

unfoldable pub find_record : RunCreateRecord → List IdempotencyRecord → Option IdempotencyRecord
find_record r [] = none
find_record r (i ∷ rest) = let later = find_record r rest in if has_key r i then some i else later

-- DELETE of the record of this key, when it has expired
unfoldable pub delete_expired : RunCreateRecord → List IdempotencyRecord → List IdempotencyRecord
delete_expired r = keep (λ i. not (has_key r i && leb i.expires_at r.recorded_at))

abbrev is_completed : RecordState → Bool
is_completed completed = true
is_completed _ = false

abbrev same_text : Option String → String → Bool
same_text none s = false
same_text (some t) s = str_eq t s

-- The row that `_replay_existing` selects, read as a Run
abbrev read_row : Option RunEntry → Result CreationError Run
read_row none = err persistence
read_row (some row) = elim (run_from_row row) [ ok run ↦ ok run | err e ↦ err persistence ]

abbrev replay_id : Option String → IdempotencyRecord → Database → Result CreationError Run
replay_id none i db = err idempotency_unavailable
replay_id (some run_id) i db = do
  raise_if (not (is_completed i.state)) idempotency_unavailable
  raise_if (not (same_text i.response_run_id run_id)) persistence
  read_row (select_run run_id db.runs)

-- `_replay_existing`
unfoldable pub replay_existing : IdempotencyRecord → String → Database → Result CreationError Run
replay_existing i request_fingerprint db = do
  raise_if (not (str_eq i.request_fingerprint request_fingerprint)) idempotency_conflict
  replay_id i.run_id i db

-- The row that `_insert_run` writes
abbrev pub new_entry : Run → RunEntry
new_entry r = record {
  run = r;
  queued_at = if same_run_state r.state RunState.queued then some r.updated_at else none;
}

abbrev pub completed_record : RunCreateRecord → IdempotencyRecord
completed_record r = record {
  principal_id = r.run.request.principal.user_id;
  route_key = r.route_key;
  idempotency_key = r.run.request.idempotency_key;
  request_fingerprint = r.request_fingerprint;
  state = completed;
  response_run_id = some r.run.id;
  run_id = some r.run.id;
  expires_at = r.expires_at;
}

-- The tables after the inserts and the final update
abbrev pub created : RunCreateRecord → List IdempotencyRecord → Tables → Tables
created r records t = record t {
  records = completed_record r ∷ records;
  database = record t.database {
    runs = new_entry r.run ∷ t.database.runs;
    events = r.first_event ∷ t.database.events;
  };
}

-- The inserts, with the constraints of the tables
unfoldable pub insert_new :
    RunCreateRecord → List IdempotencyRecord → Tables → Result CreationError (RunCreation × Tables)
insert_new r records t = do
  raise_if (leb r.expires_at r.recorded_at) persistence
  raise_if (any (λ e. str_eq r.run.id e.run.id) t.database.runs) persistence
  raise_if (any (λ e. str_eq r.run.request.request_id e.run.request.request_id) t.database.runs)
      request_conflict
  raise_if
      (any (λ e. str_eq r.first_event.run_id e.run_id && e.index == r.first_event.index)
        t.database.events)
      persistence
  ok (record { run = r.run; replayed = false }, created r records t)

abbrev pub replayed_run :
    Tables → Result CreationError Run → Result CreationError (RunCreation × Tables)
replayed_run t (ok run) = ok (record { run = run; replayed = true }, t)
replayed_run t (err e) = err e

-- The part of `create_or_replay` after the deletion
unfoldable pub find_or_insert :
    RunCreateRecord → List IdempotencyRecord → Tables → Result CreationError (RunCreation × Tables)
find_or_insert r records t = elim (find_record r records) [
  | some i ↦
      replayed_run (record t { records = records })
        (replay_existing i r.request_fingerprint t.database)
  | none ↦ insert_new r records t
]

unfoldable pub create_or_replay :
    RunCreateRecord → Tables → Result CreationError (RunCreation × Tables)
create_or_replay r t = do
  raise_if (not (str_eq r.first_event.run_id r.run.id) || not (r.first_event.index == 1))
      persistence
  raise_if (not (is_available r.run.request.principal.user_id r.run.request.principal.role t.users))
      principal_unavailable
  find_or_insert r (delete_expired r t.records) t
