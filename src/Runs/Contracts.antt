-- ===== src/Runs/Contracts.antt =====
-- domain/runs.py: Principal, AttachmentRef, RunRequest, Run and RunStep with the checks that
-- their construction makes. A call of the constructor is a function from the field values to
-- the value, its timestamps normalised to UTC, or to the error that it raises.
use pangi.Prelude.{
  ℕ, String, Bool, true, false, ◌&&◌, ◌||◌, not, List, [], ◌∷◌, Option, none, some, all, ltb, leb,
  ◌==◌,
}
use pangi.Prelude.Int.{ℤ, pos, ltb_ℤ}
use pangi.Prelude.Results.{Result, ok, err, ◌>>=◌, ◌>>◌, raise_if}
use pangi.Text.{DateTime, naive, aware, codes, len, is_padded, is_blank, is_alnum, is_digit}
use pangi.Runs.States.{
  PrincipalChannel, RunMode, RunState, StepState, StepRequirement, is_terminal_run,
  is_terminal_step,
}
use text.Mathlib.Text.{find?}

-- domain/auth.py
pub data UserRole : Type 0 where
  member skill_author admin system : UserRole

-- A contract error keeps what its message names.
pub data RunError : Type 0 where
  contract : String → RunError
  invalid_run_transition : RunState → RunState → RunError
  invalid_step_transition : StepState → StepState → RunError

abbrev pub Checked : Type 0
Checked = Result RunError (Unit {0})

unfoldable pub utc : String → DateTime → Result RunError DateTime
utc field_name (naive t) = err (contract field_name)
utc field_name (aware t) = ok (aware t)

unfoldable pub optional_utc : String → Option DateTime → Result RunError (Option DateTime)
unfolding utc
optional_utc field_name none = ok none
optional_utc field_name (some value) = do t ← utc field_name value; ok (some t)

unfoldable pub identifier_ok : String → Bool
identifier_ok value = (leb 16 (len value) && leb (len value) 64) && not (is_padded value)

unfoldable pub validate_identifier : String → String → Checked
unfolding identifier_ok
validate_identifier value field_name = raise_if (not (identifier_ok value)) (contract field_name)

unfoldable pub bounded_text_ok : String → ℕ → Bool
bounded_text_ok value limit = not (is_blank value || ltb limit (len value))

unfoldable pub validate_bounded_text : String → String → ℕ → Checked
unfolding bounded_text_ok
validate_bounded_text value field_name limit =
    raise_if (not (bounded_text_ok value limit)) (contract field_name)

-- `if value is not None: check(value)`
abbrev pub when_present {ℓ} : {A : Type ℓ} → Option A → (A → Checked) → Checked
when_present none check = ok tt
when_present (some a) check = check a

-- `for value in values: check(value)`
unfoldable pub check_each {ℓ} : {A : Type ℓ} → List A → (A → Checked) → Checked
check_each [] check = ok tt
check_each (a ∷ rest) check = let later = check_each rest check in check a >> later

pub record Principal : Type 0 where
  pub user_id : String
  pub role : UserRole
  pub channel : PrincipalChannel

unfoldable pub principal_init : Principal → Result RunError Principal
unfolding validate_identifier
principal_init p = do validate_identifier p.user_id "principal user_id"; ok p

pub record AttachmentRef : Type 0 where
  pub reference : String
  pub display_name : Option String
  pub media_type : Option String
  pub size_bytes : Option ℤ
  pub fingerprint : Option String

-- sub in value
abbrev contains_text : String → String → Bool
contains_text value sub = elim (find? value sub) [ none ↦ false | some i ↦ true ]

-- [0-9a-f]{64}
abbrev is_sha256_hex : String → Bool
is_sha256_hex s = len s == 64 && all (λ c. is_digit c || (leb b'a' c && leb c b'f')) (codes s)

unfoldable pub attachment_init : AttachmentRef → Result RunError AttachmentRef
unfolding validate_bounded_text
attachment_init a = do
  validate_bounded_text a.reference "attachment reference" 512
  raise_if (contains_text a.reference "://") (contract "attachment reference must be opaque")
  when_present a.display_name (λ v. validate_bounded_text v "attachment display_name" 255)
  when_present a.media_type (λ v. validate_bounded_text v "attachment media_type" 255)
  when_present a.size_bytes (λ n. raise_if (ltb_ℤ n (pos 0)) (contract "attachment size_bytes"))
  when_present a.fingerprint
      (λ v. raise_if (not (is_sha256_hex v)) (contract "attachment fingerprint"))
  ok a

pub record RunRequest : Type 0 where
  pub request_id : String
  pub principal : Principal
  pub text : String
  pub idempotency_key : String
  pub created_at : DateTime
  pub thread_key : Option String
  pub explicit_skill : Option String
  pub schedule_id : Option String
  pub attachments : List AttachmentRef

-- ^[A-Za-z0-9_-]{8,80}$
unfoldable pub request_id_ok : String → Bool
request_id_ok s =
    (leb 8 (len s) && leb (len s) 80) && all (λ c. is_alnum c || c == b'_' || c == b'-') (codes s)

-- ^[!-~]{1,255}$
unfoldable pub idempotency_key_ok : String → Bool
idempotency_key_ok s =
    (leb 1 (len s) && leb (len s) 255) && all (λ c. leb b'!' c && leb c b'~') (codes s)

unfoldable pub request_init : RunRequest → Result RunError RunRequest
unfolding request_id_ok idempotency_key_ok validate_bounded_text validate_identifier utc
request_init r = do
  raise_if (not (request_id_ok r.request_id)) (contract "request_id")
  validate_bounded_text r.text "request text" 100_000
  raise_if (not (idempotency_key_ok r.idempotency_key)) (contract "idempotency_key")
  when_present r.thread_key (λ v. validate_bounded_text v "thread_key" 255)
  when_present r.explicit_skill (λ v. validate_bounded_text v "explicit_skill" 255)
  when_present r.schedule_id (λ v. validate_identifier v "schedule_id")
  created_at ← utc "created_at" r.created_at
  ok (record r { created_at = created_at })

pub record Run : Type 0 where
  pub id : String
  pub request : RunRequest
  pub state : RunState
  pub updated_at : DateTime
  pub revision : ℤ
  pub mode : Option RunMode
  pub skill_version_id : Option String
  pub worker_id : Option String
  pub lease_expires_at : Option DateTime
  pub heartbeat_at : Option DateTime
  pub started_at : Option DateTime
  pub finished_at : Option DateTime
  pub warnings : List String
  pub error_code : Option String

abbrev pub is_none {ℓ} : {A : Type ℓ} → Option A → Bool
is_none none = true
is_none (some a) = false

unfoldable pub run_init : Run → Result RunError Run
run_init r = do
  validate_identifier r.id "run id"
  raise_if (ltb_ℤ r.revision (pos 0)) (contract "run revision")
  raise_if (is_terminal_run r.state && is_none r.finished_at) (contract "terminal Run state")
  when_present r.skill_version_id (λ v. validate_identifier v "skill_version_id")
  when_present r.worker_id (λ v. validate_identifier v "worker_id")
  check_each r.warnings (λ w. validate_bounded_text w "run warning" 2_000)
  when_present r.error_code (λ v. validate_bounded_text v "run error_code" 120)
  updated_at ← utc "updated_at" r.updated_at
  lease_expires_at ← optional_utc "lease_expires_at" r.lease_expires_at
  heartbeat_at ← optional_utc "heartbeat_at" r.heartbeat_at
  started_at ← optional_utc "started_at" r.started_at
  finished_at ← optional_utc "finished_at" r.finished_at
  ok (record r {
    updated_at = updated_at;
    lease_expires_at = lease_expires_at;
    heartbeat_at = heartbeat_at;
    started_at = started_at;
    finished_at = finished_at;
  })

pub record RunStep : Type 0 where
  pub id : String
  pub run_id : String
  pub node_id : String
  pub type : String
  pub state : StepState
  pub requirement : StepRequirement
  pub idempotent : Bool
  pub attempt : ℤ
  pub created_at : DateTime
  pub updated_at : DateTime
  pub depends_on : List String
  pub started_at : Option DateTime
  pub finished_at : Option DateTime
  pub error_code : Option String

unfoldable pub step_init : RunStep → Result RunError RunStep
step_init s = do
  validate_identifier s.id "step id"
  validate_identifier s.run_id "run id"
  validate_bounded_text s.node_id "node_id" 255
  validate_bounded_text s.type "step type" 120
  raise_if (ltb_ℤ s.attempt (pos 1)) (contract "step attempt")
  raise_if (is_terminal_step s.state && is_none s.finished_at) (contract "terminal Run Step")
  check_each s.depends_on (λ d. validate_bounded_text d "step dependency" 255)
  when_present s.error_code (λ v. validate_bounded_text v "step error_code" 120)
  created_at ← utc "created_at" s.created_at
  updated_at ← utc "updated_at" s.updated_at
  started_at ← optional_utc "started_at" s.started_at
  finished_at ← optional_utc "finished_at" s.finished_at
  ok (record s {
    created_at = created_at;
    updated_at = updated_at;
    started_at = started_at;
    finished_at = finished_at;
  })
