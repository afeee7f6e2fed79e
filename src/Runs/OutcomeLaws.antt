-- ===== src/Runs/OutcomeLaws.antt =====
-- What `resolve_step_outcome` decides.
use Prim.Native.String.{◌++◌ as append}
use pangi.Prelude.{
  Bool, true, false, not, ◌&&◌, List, [], ◌∷◌, none, some, any, all, keep, map, All, if◌then◌else◌,
  ◌≡◌, refl, sym, ◌∙◌, ◌↔◌, arith, is_empty-keep-not, any-keep, keep-keep, is_empty-keep,
  is_empty-map,
}
use pangi.Prelude.Results.{Result, ok, err}
use pangi.Runs.States.{
  RunState, StepState, required_step_failed, optional_step_failed, is_terminal_step, is_required,
}
use pangi.Runs.Contracts.{RunStep, RunError, contract}
use pangi.Runs.Outcome.{StepOutcome, resolve_step_outcome, is_failed_step}

abbrev pub failed_required : RunStep → Bool
failed_required s = is_failed_step s.state && is_required s.requirement

abbrev pub failed_optional : RunStep → Bool
failed_optional s = is_failed_step s.state && not (is_required s.requirement)

-- The outcome, read off the Steps directly.
abbrev pub expected_outcome : List RunStep → Result RunError StepOutcome
expected_outcome steps =
    if all (λ s. is_terminal_step s.state) steps
    then (if any failed_required steps
        then ok (record {
          state = RunState.failed;
          warnings = [];
          error_code = some required_step_failed;
        })
        else ok (record {
          state = RunState.completed;
          warnings =
              map (λ (s : RunStep). append "optional step failed: " s.node_id)
                (keep failed_optional steps);
          error_code = if any failed_optional steps then some optional_step_failed else none;
        }))
    else err (contract "all Run Steps must be terminal before resolving the outcome")

-- `resolve_step_outcome` in terms of that reading
pub resolve-eq-expected :
    (steps : List RunStep) → resolve_step_outcome steps ≡ expected_outcome steps
unfolding resolve_step_outcome
resolve-eq-expected steps =
    simp is_empty-keep-not (simp (any-keep, keep-keep, is_empty-map, is_empty-keep) (ground arith))

abbrev pub HasCompleted : RunStep → Type 0
HasCompleted s = is_required s.requirement ≡ true → s.state ≡ StepState.completed

required_completed :
    (s : RunStep) → is_terminal_step s.state ≡ true → failed_required s ≡ false → HasCompleted s
unfolding is_terminal_step is_failed_step
required_completed s t f = ground arith

completed_of_no_failure :
    (steps : List RunStep)
    → all (λ s. is_terminal_step s.state) steps ≡ true
    → any failed_required steps ≡ false
    → All HasCompleted steps
completed_of_no_failure [] t f = tt
completed_of_no_failure (s ∷ rest) t f = (
  required_completed s (ground arith) (ground arith),
  completed_of_no_failure rest (ground arith) (ground arith),
)

no_failure_of_completed :
    (steps : List RunStep) → All HasCompleted steps → any failed_required steps ≡ false
unfolding is_failed_step
no_failure_of_completed [] h = refl
no_failure_of_completed (s ∷ rest) h = ground (arith, no_failure_of_completed rest h.1, h.0)

-- `completed` is decided exactly when every required Step has completed.
pub resolve_completed :
    (steps : List RunStep) (o : StepOutcome)
    → resolve_step_outcome steps ≡ ok o
    → (o.state ≡ RunState.completed) ↔ All HasCompleted steps
resolve_completed steps o h =
    let e = sym (resolve-eq-expected steps) ∙ h in
    let t : all (λ s. is_terminal_step s.state) steps ≡ true = ground arith in
    (
      λ c. completed_of_no_failure steps t (ground arith),
      λ c. ground (arith, no_failure_of_completed steps c),
    )
