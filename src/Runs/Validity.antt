-- ===== src/Runs/Validity.antt =====
-- What the constructors of Run and RunStep accept, and that transitions keep it.
use pangi.Prelude.{
  String, Bool, true, false, Option, none, some, if◌then◌else◌, ◌≡◌, refl, arith, ◌&&◌,
}
use pangi.Prelude.Int.{ℤ, pos, negsuc, ltb_ℤ, increment}
use pangi.Prelude.Results.{ok, err}
use pangi.Text.{DateTime, naive, aware}
use pangi.Runs.States.{RunState, run_transition_allowed, is_terminal_run}
use pangi.Runs.Contracts.{
  Run, invalid_run_transition, utc, optional_utc, run_init, is_none, validate_identifier,
  validate_bounded_text, when_present, check_each,
}
use pangi.Runs.Transitions.{moved_run, transition_run}

abbrev pub IsAware : DateTime → Type 0
IsAware (naive t) = ⊥
IsAware (aware t) = Unit

abbrev pub IsAware? : Option DateTime → Type 0
IsAware? none = Unit
IsAware? (some t) = IsAware t

-- The checks of `Run.__post_init__`, one field each, on a run whose timestamps are normal.
pub record IsRun (r : Run) : Type 0 where
  pub id : validate_identifier r.id "run id" ≡ ok tt
  pub revision : ltb_ℤ r.revision (pos 0) ≡ false
  pub finished : is_terminal_run r.state ≡ true → is_none r.finished_at ≡ false
  pub skill :
      when_present r.skill_version_id (λ v. validate_identifier v "skill_version_id") ≡ ok tt
  pub worker : when_present r.worker_id (λ v. validate_identifier v "worker_id") ≡ ok tt
  pub warnings : check_each r.warnings (λ w. validate_bounded_text w "run warning" 2_000) ≡ ok tt
  pub error_code :
      when_present r.error_code (λ v. validate_bounded_text v "run error_code" 120) ≡ ok tt
  pub updated : IsAware r.updated_at
  pub lease : IsAware? r.lease_expires_at
  pub heartbeat : IsAware? r.heartbeat_at
  pub started : IsAware? r.started_at
  pub ended : IsAware? r.finished_at

pub utc-aware : (f : String) (t : DateTime) → IsAware t → utc f t ≡ ok t
unfolding utc
utc-aware f (naive t) h = elim h [ ]
utc-aware f (aware t) h = refl

pub optional_utc-aware : (f : String) (t : Option DateTime) → IsAware? t → optional_utc f t ≡ ok t
unfolding optional_utc
optional_utc-aware f none h = refl
optional_utc-aware f (some (naive t)) h = elim h [ ]
optional_utc-aware f (some (aware t)) h = refl

pub utc-same : (f : String) (t : DateTime) {t' : DateTime} → utc f t ≡ ok t' → t' ≡ t
unfolding utc
utc-same f (naive t) h = cc
utc-same f (aware t) h = cc

guard_false : (b c : Bool) → (b ≡ true → c ≡ false) → (b && c) ≡ false
guard_false b c h = ground arith

pub run_init-IsRun : {r : Run} → IsRun r → run_init r ≡ ok r
unfolding run_init
run_init-IsRun {r} h = simp (
  h.id,
  h.revision,
  guard_false _ _ h.finished,
  h.skill,
  h.worker,
  h.warnings,
  h.error_code,
  utc-aware "updated_at" _ h.updated,
  optional_utc-aware "lease_expires_at" _ h.lease,
  optional_utc-aware "heartbeat_at" _ h.heartbeat,
  optional_utc-aware "started_at" _ h.started,
  optional_utc-aware "finished_at" _ h.ended,
)

pub IsRun-run_init : {r r' : Run} → run_init r ≡ ok r' → IsRun r × (r' ≡ r)
unfolding run_init utc optional_utc
IsRun-run_init {r} {r'} h = ground arith

increment_nonnegative : (n : ℤ) → ltb_ℤ n (pos 0) ≡ false → ltb_ℤ (increment n) (pos 0) ≡ false
increment_nonnegative (pos n) h = ground arith
increment_nonnegative (negsuc n) h = cc

moved_run-IsRun :
    {r : Run} (target : RunState) (at : DateTime)
    → IsRun r
    → IsAware at
    → IsRun (moved_run r target at)
moved_run-IsRun {r} target at h a = record {
  id = h.id;
  revision = increment_nonnegative r.revision h.revision;
  finished = ground arith;
  skill = h.skill;
  worker = h.worker;
  warnings = h.warnings;
  error_code = h.error_code;
  updated = a;
  lease = h.lease;
  heartbeat = h.heartbeat;
  started = ground arith;
  ended = ground arith;
}

-- On a Run that its constructor accepts and an aware timestamp, a transition raises exactly when
-- the table does not list the target, and never a contract error; otherwise it returns the Run
-- with the changed fields, which the constructor accepts too.
pub transition_run_exact :
    {r : Run} (target : RunState) (t : DateTime)
    → run_init r ≡ ok r
    → IsAware t
    → (transition_run r target t ≡ (
        if run_transition_allowed r.state target
        then ok (moved_run r target t)
        else err (invalid_run_transition r.state target)))
      × (run_init (moved_run r target t) ≡ ok (moved_run r target t))
unfolding transition_run
transition_run_exact {r} target t h a =
    let good = run_init-IsRun (moved_run-IsRun target t (IsRun-run_init h).0 a) in
    (ground (arith, good, utc-aware "transition timestamp" t a), good)
