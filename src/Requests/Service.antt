-- ===== src/Requests/Service.antt =====
-- RunService.create_run and request_fingerprint of application/services/runs.py. The digest of the
-- semantic fields (JSON and SHA-256) and the new id are arguments. Times are aware instants.
use pangi.Prelude.{
  ℕ, ◌+◌, String, Bool, false, ◌&&◌, ◌||◌, not, List, [], ◌∷◌, Option, none, some, all, leb, length,
  ◌==◌,
}
use pangi.Prelude.Int.{pos}
use pangi.Prelude.Results.{Result, ok, err, ◌>>=◌, ◌>>◌, raise_if}
use pangi.Text.{codes, is_lower, is_digit}
use pangi.Runs.States.{PrincipalChannel, received}
use pangi.Runs.Contracts.{AttachmentRef, RunRequest, Run, RunError, run_init}
use pangi.Queue.Events.{RunEvent, public, event_init}
use pangi.Requests.Store.{Tables, RunCreation, CreationError, invalid_value, create_or_replay}

-- The fields that `request_fingerprint` digests
pub record SemanticRequest : Type 0 where
  pub attachments : List AttachmentRef
  pub channel : PrincipalChannel
  pub explicit_skill : Option String
  pub schedule_id : Option String
  pub text : String
  pub thread_key : Option String

abbrev pub semantic_request : RunRequest → SemanticRequest
semantic_request q = record {
  attachments = q.attachments;
  channel = q.principal.channel;
  explicit_skill = q.explicit_skill;
  schedule_id = q.schedule_id;
  text = q.text;
  thread_key = q.thread_key;
}

abbrev route_codes_ok : List ℕ → Bool
route_codes_ok [] = false
route_codes_ok (c ∷ rest) =
    is_lower c
    && all (λ d. is_lower d || is_digit d || d == b'_' || d == b'.' || d == b'-') rest
    && leb (length rest) 119

-- ^[a-z][a-z0-9_.-]{0,119}$
unfoldable pub route_key_ok : String → Bool
route_key_ok key = route_codes_ok (codes key)

abbrev pub received_run : String → RunRequest → Run
received_run id q = record {
  id = id;
  request = q;
  state = received;
  updated_at = q.created_at;
  revision = pos 0;
  mode = none;
  skill_version_id = none;
  worker_id = none;
  lease_expires_at = none;
  heartbeat_at = none;
  started_at = none;
  finished_at = none;
  warnings = [];
  error_code = none;
}

abbrev pub received_event : String → RunRequest → RunEvent
received_event id q = record {
  run_id = id;
  index = 1;
  type = "run.received";
  visibility = public;
  created_at = q.created_at;
  step_id = none;
  message = some "Request received";
}

abbrev pub value {ℓ} : {A : Type ℓ} → Result RunError A → Result CreationError A
value (ok a) = ok a
value (err e) = err invalid_value

unfoldable pub create_run :
    (SemanticRequest → String)
    → ℕ
    → String
    → ℕ
    → RunRequest
    → String
    → Tables
    → Result CreationError (RunCreation × Tables)
create_run digest idempotency_ttl new_id recorded_at request route_key t = do
  raise_if (not (route_key_ok route_key)) invalid_value
  run ← value (run_init (received_run new_id request))
  first_event ← value (event_init (received_event run.id request))
  create_or_replay
      (record {
        run = run;
        first_event = first_event;
        route_key = route_key;
        request_fingerprint = digest (semantic_request request);
        recorded_at = recorded_at;
        expires_at = recorded_at + idempotency_ttl;
      })
      t
