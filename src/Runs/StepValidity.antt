-- ===== src/Runs/StepValidity.antt =====
-- What `RunStep.__post_init__` demands, one field each.
use pangi.Prelude.{String, true, false, Option, none, some, ◌≡◌, refl, arith}
use pangi.Prelude.Int.{pos, ltb_ℤ}
use pangi.Prelude.Results.{ok}
use pangi.Runs.States.{is_terminal_step}
use pangi.Runs.Contracts.{
  RunStep, identifier_ok, bounded_text_ok, validate_identifier, validate_bounded_text, check_each,
  when_present, is_none, step_init,
}
use pangi.Runs.Validity.{IsAware, IsAware?, utc-aware, optional_utc-aware}

-- The checks on a Step whose timestamps are normal.
pub record IsStep (s : RunStep) : Type 0 where
  pub id : identifier_ok s.id ≡ true
  pub run_id : identifier_ok s.run_id ≡ true
  pub node_id : bounded_text_ok s.node_id 255 ≡ true
  pub type : bounded_text_ok s.type 120 ≡ true
  pub attempt : ltb_ℤ s.attempt (pos 1) ≡ false
  pub finished : is_terminal_step s.state ≡ true → is_none s.finished_at ≡ false
  pub depends_on :
      check_each s.depends_on (λ d. validate_bounded_text d "step dependency" 255) ≡ ok tt
  pub error_code : (c : String) → s.error_code ≡ some c → bounded_text_ok c 120 ≡ true
  pub created : IsAware s.created_at
  pub updated : IsAware s.updated_at
  pub started : IsAware? s.started_at
  pub ended : IsAware? s.finished_at

code_checked :
    (o : Option String)
    → ((c : String) → o ≡ some c → bounded_text_ok c 120 ≡ true)
    → when_present o (λ v. validate_bounded_text v "step error_code" 120) ≡ ok tt
unfolding validate_bounded_text
code_checked none f = refl
code_checked (some c) f = rw (f c refl) refl

pub step_init-IsStep : (s : RunStep) → IsStep s → step_init s ≡ ok s
unfolding step_init validate_identifier validate_bounded_text
step_init-IsStep s h = ground (
  arith,
  h.id,
  h.run_id,
  h.node_id,
  h.type,
  h.attempt,
  h.finished,
  h.depends_on,
  code_checked s.error_code h.error_code,
  utc-aware "created_at" s.created_at h.created,
  utc-aware "updated_at" s.updated_at h.updated,
  optional_utc-aware "started_at" s.started_at h.started,
  optional_utc-aware "finished_at" s.finished_at h.ended,
)
