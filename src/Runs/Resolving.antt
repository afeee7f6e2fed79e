-- ===== src/Runs/Resolving.antt =====
-- What `resolve_step_outcome` decides, by the states of the Steps.
use Prim.Native.String.{◌++◌ as append}
use pangi.Prelude.{
  String, true, false, List, [], ◌∷◌, Option, none, some, any, all, keep, map, if◌then◌else◌, ◌≡◌,
  ◌⊎◌, ◌↔◌, inl, inr, refl, ◌∙◌, arith, Bool-cases,
}
use pangi.Prelude.Distinct.{In}
use pangi.Prelude.Keyed.{any_some, none_any, all_each, not_all}
use pangi.Prelude.Results.{ok, err}
use pangi.Runs.States.{
  RunState, StepState, RunErrorCode, required_step_failed, optional_step_failed, required, optional,
  is_terminal_step, is_required,
}
use pangi.Runs.Contracts.{RunStep, contract}
use pangi.Runs.Outcome.{resolve_step_outcome, is_failed_step}
use pangi.Runs.OutcomeLaws.{failed_required, failed_optional, resolve-eq-expected}

abbrev pub HasFailed : RunStep → Type 0
HasFailed s = (s.state ≡ StepState.failed) ⊎ (s.state ≡ StepState.cancelled)

abbrev pub HasEnded : RunStep → Type 0
HasEnded s = (s.state ≡ StepState.completed) ⊎ HasFailed s

-- The warnings, Step by Step: one for each optional Step that failed or was cancelled.
abbrev pub warning_of : RunStep → StepState → List String → List String
warning_of s StepState.failed later = append "optional step failed: " s.node_id ∷ later
warning_of s StepState.cancelled later = append "optional step failed: " s.node_id ∷ later
warning_of s _ later = later

abbrev pub warnings_of : List RunStep → List String
warnings_of [] = []
warnings_of (s ∷ rest) =
    let later = warnings_of rest in
    if is_required s.requirement then later else warning_of s s.state later

-- The error code of a Run that completes.
abbrev pub HasCode : List RunStep → Option RunErrorCode → Type 0
HasCode steps code =
    (((s : RunStep) × In s steps × (s.requirement ≡ optional) × HasFailed s)
      × (code ≡ some optional_step_failed))
    ⊎ (((s : RunStep) → In s steps → s.state ≡ StepState.completed) × (code ≡ none))

ended_iff : (s : RunStep) → (is_terminal_step s.state ≡ true) ↔ HasEnded s
unfolding is_terminal_step
ended_iff s = ground arith

failed_required_iff :
    (s : RunStep) → (failed_required s ≡ true) ↔ ((s.requirement ≡ required) × HasFailed s)
unfolding is_failed_step
failed_required_iff s = ground arith

failed_optional_iff :
    (s : RunStep) → (failed_optional s ≡ true) ↔ ((s.requirement ≡ optional) × HasFailed s)
unfolding is_failed_step
failed_optional_iff s = ground arith

warnings-eq :
    (steps : List RunStep)
    → map (λ (s : RunStep). append "optional step failed: " s.node_id) (keep failed_optional steps)
      ≡ warnings_of steps
unfolding is_failed_step
warnings-eq [] = refl
warnings-eq (s ∷ rest) = ground (arith, warnings-eq rest)

required_completed :
    (s : RunStep)
    → is_terminal_step s.state ≡ true
    → failed_required s ≡ false
    → s.requirement ≡ required
    → s.state ≡ StepState.completed
unfolding is_terminal_step is_failed_step
required_completed s t f q = ground arith

all_completed :
    (s : RunStep)
    → is_terminal_step s.state ≡ true
    → failed_required s ≡ false
    → failed_optional s ≡ false
    → s.state ≡ StepState.completed
unfolding is_terminal_step is_failed_step
all_completed s t f g = ground arith

-- `resolve_step_outcome` raises if a Step has not ended. If all have, and a required one failed or
-- was cancelled, the Run fails, with the code for that and no warning. Otherwise every required
-- Step has completed and so does the Run, with one warning for each optional Step that failed or
-- was cancelled, in order; the error code tells whether there is such a Step, and if there is none,
-- every Step has completed.
pub resolve_exact :
    (steps : List RunStep)
    → (((s : RunStep) × In s steps × (¬ HasEnded s))
        × (resolve_step_outcome steps
            ≡ err (contract "all Run Steps must be terminal before resolving the outcome")))
      ⊎ (((s : RunStep) → In s steps → HasEnded s)
          × ((s : RunStep) × In s steps × (s.requirement ≡ required) × HasFailed s)
          × (resolve_step_outcome steps
              ≡ ok (record {
                state = RunState.failed;
                warnings = [];
                error_code = some required_step_failed;
              })))
      ⊎ (((s : RunStep) → In s steps → HasEnded s)
          × ((s : RunStep) → In s steps → s.requirement ≡ required → s.state ≡ StepState.completed)
          × ((code : Option RunErrorCode) × HasCode steps code
              × (resolve_step_outcome steps
                  ≡ ok (record {
                    state = RunState.completed;
                    warnings = warnings_of steps;
                    error_code = code;
                  }))))
resolve_exact steps =
    let e = resolve-eq-expected steps in
    let w = warnings-eq steps in
    elim (Bool-cases (all (λ s. is_terminal_step s.state) steps)) [
      | inr h ↦
          let (s, i, b) = not_all (λ (s : RunStep). is_terminal_step s.state) steps h in
          inl ((s, i, λ q. absurd (cc ((ended_iff s).1 q, b))), e ∙ rw h refl)
      | inl h ↦
          let each = all_each (λ (s : RunStep). is_terminal_step s.state) steps h in
          let ended : (s : RunStep) → In s steps → HasEnded s = λ s i. (ended_iff s).0 (each s i) in
          elim (Bool-cases (any failed_required steps)) [
            | inl f ↦
                let (s, i, b) = any_some failed_required steps f in
                let (q, t) = (failed_required_iff s).0 b in
                inr (inl (ended, (s, i, q, t), e ∙ rw (h, f) refl))
            | inr f ↦
                let fine = none_any failed_required steps f in
                inr (
                  inr (
                    ended,
                    (λ s i. required_completed s (each s i) (fine s i)),
                    elim (Bool-cases (any failed_optional steps)) [
                      | inl g ↦
                          let (s, i, b) = any_some failed_optional steps g in
                          let (q, t) = (failed_optional_iff s).0 b in
                          (
                            some optional_step_failed,
                            inl ((s, i, q, t), refl),
                            e ∙ rw (h, f, g, w) refl,
                          )
                      | inr g ↦ (
                        none,
                        inr (
                          λ s i.
                              all_completed s (each s i) (fine s i)
                                (none_any failed_optional steps g s i),
                          refl,
                        ),
                        e ∙ rw (h, f, g, w) refl,
                      )
                    ],
                  ))
          ]
    ]
