-- ===== src/Queue/StepRecovery.antt =====
-- The steps of the tables before and after the recovery of one Run.
use pangi.Prelude.{
  ℕ, String, Bool, true, false, ◌&&◌, str_eq, eq_iff, if◌then◌else◌, ◌≡◌, refl, arith,
}
use pangi.Runs.States.{StepState}
use pangi.Runs.Contracts.{RunStep}
use pangi.Queue.Store.{is_running_step, is_interrupted_step, interrupted_step, failed_step}

-- The state of a step after the recovery of its Run: `composing` says whether the Run composed its
-- output, `stopped` whether one of its unfinished steps may not run twice.
abbrev pub state_after : Bool → Bool → StepState → StepState
state_after true stopped state = state
state_after false stopped StepState.running =
    if stopped then StepState.failed else StepState.interrupted
state_after false stopped StepState.interrupted =
    if stopped then StepState.failed else StepState.interrupted
state_after false stopped state = state

-- A step before and after the recovery of a Run: a step of another Run stays as it is, and so does
-- a step whose state stays.
pub record StepRecovered (id : String) (composing stopped : Bool) (s s' : RunStep) : Type 0 where
  pub other : (¬ (s.run_id ≡ id)) → s' ≡ s
  pub own : s.run_id ≡ id → s'.state ≡ state_after composing stopped s.state
  pub kept : (s'.id ≡ s.id) × (s'.run_id ≡ s.run_id) × (s'.idempotent ≡ s.idempotent)
  pub settled : s'.state ≡ s.state → s' ≡ s

abbrev pub interrupt : String → ℕ → RunStep → RunStep
interrupt id at s =
    if str_eq id s.run_id && is_running_step s.state then interrupted_step at s else s

abbrev pub fail : String → ℕ → RunStep → RunStep
fail id at s = if str_eq id s.run_id && is_interrupted_step s.state then failed_step at s else s

pub untouched-StepRecovered :
    (id : String) (c stopped : Bool) (s : RunStep) → c ≡ true → StepRecovered id c stopped s s
untouched-StepRecovered id c stopped s h = record {
  other = λ n. refl;
  own = λ i. rw h refl;
  kept = (refl, refl, refl);
  settled = λ k. refl;
}

pub interrupt-StepRecovered :
    (id : String) (at : ℕ) (c stopped : Bool) (s : RunStep)
    → c ≡ false
    → stopped ≡ false
    → StepRecovered id c stopped s (interrupt id at s)
interrupt-StepRecovered id at c stopped s h n = record {
  other = λ i. ground (arith, eq_iff id s.run_id, i);
  own = λ i. ground (arith, eq_iff id s.run_id, i);
  kept = (ground arith, ground arith, ground arith);
  settled = λ k. ground (arith, k);
}

pub fail-StepRecovered :
    (id : String) (at : ℕ) (c stopped : Bool) (s : RunStep)
    → c ≡ false
    → stopped ≡ true
    → StepRecovered id c stopped s (fail id at (interrupt id at s))
fail-StepRecovered id at c stopped s h n = record {
  other = λ i. ground (arith, eq_iff id s.run_id, i);
  own = λ i. ground (arith, eq_iff id s.run_id, i);
  kept = (ground arith, ground arith, ground arith);
  settled = λ k. ground (arith, k);
}
