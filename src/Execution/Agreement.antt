-- ===== src/Execution/Agreement.antt =====
-- The engine's outcome against the domain's rule: `_finish_delegate` decides as
-- `resolve_step_outcome` does.
use Prim.Native.String.{◌++◌ as append}
use pangi.Prelude.{
  String, true, false, not, List, [], ◌∷◌, ◌++◌, none, some, any, all, keep, is_empty, map,
  if◌then◌else◌, ◌≡◌, refl, ◌∙◌, inl, inr, Bool-cases, arith,
}
use pangi.Prelude.Results.{ok}
use pangi.Runs.States.{
  RunState, composing, required_step_failed, optional_step_failed, is_required, is_terminal_step,
}
use pangi.Runs.Contracts.{RunStep}
use pangi.Runs.Outcome.{StepOutcome, is_failed_step, resolve_step_outcome}
use pangi.Runs.OutcomeLaws.{failed_required, failed_optional, resolve-eq-expected}
use pangi.Execution.Engine.{delegate_outcome, flatten_warnings, present_results}
use pangi.Execution.Table.{Row}

abbrev pub rows_steps : List Row → List RunStep
rows_steps steps = map (λ (s : Row). s.step) steps

abbrev optional_warning : RunStep → String
optional_warning s = append "optional step failed: " s.node_id

all_rows :
    (steps : List Row)
    → all (λ (s : RunStep). is_terminal_step s.state) (rows_steps steps)
      ≡ all (λ s. is_terminal_step s.step.state) steps
all_rows [] = refl
all_rows (s ∷ rest) = ground (arith, all_rows rest)

any_required :
    (steps : List Row)
    → any
        (λ (s : Row). is_required s.step.requirement)
        (keep (λ (s : Row). is_failed_step s.step.state) steps)
      ≡ any failed_required (rows_steps steps)
any_required [] = refl
any_required (s ∷ rest) = ground (arith, any_required rest)

-- Without a failed required step, the failures are the optional ones.
warnings_agree :
    (steps : List Row)
    → any failed_required (rows_steps steps) ≡ false
    → map
        (λ (s : Row). append "optional step failed: " s.step.node_id)
        (keep (λ (s : Row). is_failed_step s.step.state) steps)
      ≡ map optional_warning (keep failed_optional (rows_steps steps))
warnings_agree [] h = refl
warnings_agree (s ∷ rest) h = ground (arith, warnings_agree rest)

any_optional :
    (steps : List RunStep)
    → is_empty (map optional_warning (keep failed_optional steps)) ≡ not (any failed_optional steps)
any_optional [] = refl
any_optional (s ∷ rest) = ground (arith, any_optional rest)

-- The state of a run whose steps have the outcome: composition comes before completion.
abbrev pub execution_state : RunState → RunState
execution_state RunState.completed = composing
execution_state other = other

-- On steps that have all ended, the engine's outcome is the domain's: `resolve_step_outcome` returns
-- an outcome, with the same error code and the state `failed` exactly if the engine's is; in a run
-- that goes on to composition its warnings come first, and those of the results follow.
pub delegate_outcome-resolve :
    (run_id : String) (steps : List Row)
    → all (λ s. is_terminal_step s.step.state) steps ≡ true
    → (o : StepOutcome) × (resolve_step_outcome (rows_steps steps) ≡ ok o)
      × ((delegate_outcome run_id steps).state ≡ execution_state o.state)
      × ((delegate_outcome run_id steps).error_code ≡ o.error_code)
      × ((delegate_outcome run_id steps).warnings
          ≡ o.warnings
            ++ (if any failed_required (rows_steps steps)
                then []
                else flatten_warnings (present_results steps)))
unfolding delegate_outcome
delegate_outcome-resolve run_id steps h =
    let e = resolve-eq-expected (rows_steps steps) in
    let t = all_rows steps ∙ h in
    let r = any_required steps in
    elim (Bool-cases (any failed_required (rows_steps steps))) [
      | inl fatal ↦ (
        record { state = RunState.failed; warnings = []; error_code = some required_step_failed },
        e ∙ ground arith,
        ground arith,
        ground arith,
        ground arith,
      )
      | inr fine ↦
          let w = warnings_agree steps fine in
          let n = any_optional (rows_steps steps) in
          (
            record {
              state = RunState.completed;
              warnings = map optional_warning (keep failed_optional (rows_steps steps));
              error_code =
                  if any failed_optional (rows_steps steps)
                  then some optional_step_failed
                  else none;
            },
            e ∙ ground arith,
            ground arith,
            ground arith,
            ground arith,
          )
    ]
