-- ===== src/Requests/Idempotency.antt =====
-- RunService.create_run is idempotent under an idempotency key.
use pangi.Prelude.{
  ℕ, ◌+◌, String, true, false, ◌≡◌, refl, ◌∙◌, sym, subst, arith, str_eq, leb, if◌then◌else◌,
}
use pangi.Prelude.Results.{ok, err}
use pangi.Text.{is_blank}
use pangi.Runs.States.{is_terminal_run}
use pangi.Runs.Contracts.{
  RunRequest, Run, identifier_ok, validate_identifier, check_each, bounded_text_ok,
  validate_bounded_text,
}
use pangi.Runs.Validity.{IsAware, IsRun, run_init-IsRun, utc-aware}
use pangi.Queue.Database.{stored_request}
use pangi.Queue.Events.{event_init, event_type_ok}
use pangi.Requests.Store.{Tables, RunCreateRecord, create_or_replay, idempotency_conflict}
use pangi.Requests.Service.{
  SemanticRequest, semantic_request, route_key_ok, received_run, received_event, create_run,
}
use pangi.Requests.Replay.{IsRetry, create_or_replay-inv, retry_outcome}

pub received_run-IsRun :
    (id : String) (q : RunRequest)
    → identifier_ok id ≡ true
    → IsAware q.created_at
    → IsRun (received_run id q)
unfolding validate_identifier check_each is_terminal_run
received_run-IsRun id q i a = record {
  id = ground (arith, i);
  revision = refl;
  finished = λ h. cc;
  skill = refl;
  worker = refl;
  warnings = refl;
  error_code = refl;
  updated = a;
  lease = tt;
  heartbeat = tt;
  started = tt;
  ended = tt;
}

received_event_ok :
    (id : String) (q : RunRequest)
    → identifier_ok id ≡ true
    → IsAware q.created_at
    → event_init (received_event id q) ≡ ok (received_event id q)
unfolding event_init validate_identifier validate_bounded_text event_type_ok bounded_text_ok
    is_blank
received_event_ok id q i a = rw (i, utc-aware "created_at" q.created_at a) refl

-- The record that `create_run` hands to the store
abbrev pub create_record :
    (SemanticRequest → String) → ℕ → String → ℕ → RunRequest → String → RunCreateRecord
create_record digest ttl id at q route = record {
  run = received_run id q;
  first_event = received_event id q;
  route_key = route;
  request_fingerprint = digest (semantic_request q);
  recorded_at = at;
  expires_at = at + ttl;
}

pub create_run_store :
    (digest : SemanticRequest → String) (ttl : ℕ) (id : String) (at : ℕ) (q : RunRequest)
    (route : String) (t : Tables)
    → route_key_ok route ≡ true
    → identifier_ok id ≡ true
    → IsAware q.created_at
    → create_run digest ttl id at q route t
      ≡ create_or_replay (create_record digest ttl id at q route) t
unfolding create_run
create_run_store digest ttl id at q route t r i a =
    rw (r, run_init-IsRun (received_run-IsRun id q i a), received_event_ok id q i a) refl

-- After `create_run` has created a Run, a second call with the same principal, route and
-- idempotency key, before the record expires, creates nothing, whatever its new id, request id and
-- times are: with the same semantic fields (as the digest tells them apart) it returns the Run of
-- the first call, marked as replayed, and with others it raises a conflict. Ids are valid and times
-- aware, and the first request is one that its constructors accept.
pub create_run_again :
    (digest : SemanticRequest → String) (ttl : ℕ) (id1 id2 : String) (at1 at2 : ℕ)
    (q1 q2 : RunRequest) (route : String) (t t' : Tables) (run : Run)
    → route_key_ok route ≡ true
    → identifier_ok id1 ≡ true
    → identifier_ok id2 ≡ true
    → stored_request q1 ≡ ok q1
    → IsAware q1.created_at
    → IsAware q2.created_at
    → q2.principal ≡ q1.principal
    → q2.idempotency_key ≡ q1.idempotency_key
    → leb (at1 + ttl) at2 ≡ false
    → create_run digest ttl id1 at1 q1 route t ≡ ok (record { run = run; replayed = false }, t')
    → (run ≡ received_run id1 q1)
      × (create_run digest ttl id2 at2 q2 route t' ≡ (
          if str_eq (digest (semantic_request q1)) (digest (semantic_request q2))
          then ok (record { run = received_run id1 q1; replayed = true }, t')
          else err idempotency_conflict))
create_run_again digest ttl id1 id2 at1 at2 q1 q2 route t t' run r i1 i2 q a1 a2 p k later h =
    let first = create_record digest ttl id1 at1 q1 route in
    let second = create_record digest ttl id2 at2 q2 route in
    let retry : IsRetry first second = record {
      principal = p;
      route = refl;
      key = k;
      event = refl;
      first = refl;
      in_time = later;
    } in
    let (free, absent, same, tables) =
      create_or_replay-inv first t t' run
        (sym (create_run_store digest ttl id1 at1 q1 route t r i1 a1) ∙ h) in
    let good = run_init-IsRun (received_run-IsRun id1 q1 i1 a1) in
    (
      same,
      create_run_store digest ttl id2 at2 q2 route t' r i2 a2
          ∙ subst
              (λ u. create_or_replay second u ≡ (
                if str_eq first.request_fingerprint second.request_fingerprint
                then ok (record { run = received_run id1 q1; replayed = true }, u)
                else err idempotency_conflict))
              tables (retry_outcome first second _ t retry absent free q good),
    )
