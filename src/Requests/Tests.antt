-- ===== src/Requests/Tests.antt =====
-- Examples for the creation of Runs.
use pangi.Prelude.{String, true, false, [], ◌∷◌, ◌≡◌, refl, inl, ◌⊎◌}
use pangi.Prelude.Results.{ok, err}
use pangi.Text.{is_padded, is_blank}
use pangi.Runs.States.{is_terminal_run}
use pangi.Runs.Contracts.{
  member, run_init, validate_identifier, validate_bounded_text, check_each, utc, optional_utc,
  principal_init, request_init, identifier_ok,
}
use pangi.Queue.Events.{event_init, event_type_ok}
use pangi.Queue.Database.{stored_request}
use pangi.Queue.Samples.{request, queued_entry, tables, tables-IsQueue}
use pangi.Requests.Access.{get_run, run_not_found, get_run_exact}
use pangi.Queue.Invariant.{IsQueue}
use pangi.Requests.Reception.{Joined, create_run-IsQueue}
use pangi.Requests.Store.{
  Tables, RunCreateRecord, created, create_or_replay, find_or_insert, insert_new, find_record,
  delete_expired, is_available,
}
use pangi.Requests.Service.{SemanticRequest, create_run, received_run, received_event, route_key_ok}
use pangi.Requests.Idempotency.{create_run_again}

abbrev store : Tables
store = record {
  users = record { id = "user_00000000001"; role = member; active = true } ∷ [];
  records = [];
  database = tables;
}

-- A digest that tells texts apart
abbrev digest : SemanticRequest → String
digest s = s.text

abbrev first_record : RunCreateRecord
first_record = record {
  run = received_run "run_000000000004" (request "req_00000004");
  first_event = received_event "run_000000000004" (request "req_00000004");
  route_key = "runs.create";
  request_fingerprint = "What changed?";
  recorded_at = 100;
  expires_at = 1_100;
}

first_created :
    create_run digest 1_000 "run_000000000004" 100 (request "req_00000004") "runs.create" store
    ≡ ok (record { run = first_record.run; replayed = false }, created first_record [] store)
unfolding create_run route_key_ok run_init validate_identifier is_padded is_terminal_run check_each
    utc optional_utc event_init event_type_ok validate_bounded_text is_blank create_or_replay
    is_available delete_expired find_or_insert find_record insert_new
first_created = refl

request_ok : stored_request (request "req_00000004") ≡ ok (request "req_00000004")
unfolding stored_request principal_init check_each request_init validate_identifier is_padded
    validate_bounded_text is_blank utc
request_ok = refl

-- The retry has another request id and run id, and comes later.
create_run_again_example :
    (first_record.run ≡ received_run "run_000000000004" (request "req_00000004"))
    × (create_run digest 1_000 "run_000000000005" 200
          (request "req_00000005")
          "runs.create"
          (created first_record [] store)
        ≡ ok (record { run = first_record.run; replayed = true }, created first_record [] store))
unfolding route_key_ok identifier_ok is_padded
create_run_again_example =
    create_run_again digest 1_000 "run_000000000004" "run_000000000005" 100 200
      (request "req_00000004") (request "req_00000005") "runs.create" store
      (created first_record [] store) first_record.run refl refl refl request_ok tt tt refl refl
      refl first_created

create_run-IsQueue_example :
    IsQueue (created first_record [] store).database
    × (((false ≡ true) × (tables ≡ (created first_record [] store).database))
        ⊎ Joined "run_000000000004"
            (request "req_00000004")
            store
            (record { run = first_record.run; replayed = false })
            (created first_record [] store))
unfolding route_key_ok identifier_ok is_padded
create_run-IsQueue_example =
    create_run-IsQueue digest 1_000 "run_000000000004" 100 (request "req_00000004") "runs.create"
      store (created first_record [] store) (record { run = first_record.run; replayed = false })
      refl refl tt request_ok tables-IsQueue first_created

-- A member does not see the Run of another one.
get_run_exact_example :
    get_run
      (record { user_id = "user_00000000002"; role = member; active = true })
      "run_000000000001"
      tables
    ≡ err run_not_found
get_run_exact_example =
    get_run_exact (record { user_id = "user_00000000002"; role = member; active = true })
      queued_entry tables tables-IsQueue (inl refl)
