-- ===== src/Execution/Tests.antt =====
-- Examples: the plan of two tasks prepared, a plan stored and run, and transactions on its rows.
use pangi.Prelude.{ℕ, [], ◌∷◌, none, some, ◌≡◌, refl, inl, inr, any, ◌++◌, if◌then◌else◌}
use pangi.Prelude.Int.{ℤ, pos}
use pangi.Prelude.Results.{Result, ok}
use pangi.Prelude.Sets.{contains, unique}
use pangi.Prelude.Distinct.{In}
use pangi.Runs.Contracts.{bounded_text_ok, check_each}
use pangi.Text.{DateTime, aware, is_blank}
use pangi.Runs.States.{StepState, is_terminal_step}
use pangi.Orchestration.Contracts.{default_limits, limits_init}
use pangi.Orchestration.Tests.{plan, catalog, decision, reversed_tasks, accepted}
use pangi.Execution.Contracts.{
  PreparedExecutionStep, from_validated, plan_init, snapshot_init, policy_init,
  ExecutionPlanSnapshot, check_delegate, steps_in_order,
}
use pangi.Execution.Preparation.{delegate_plan, from_validated_delegate}
use pangi.Execution.World.{EngineError}
use pangi.Execution.Store.{
  started, finished, cancelled, retried, start_step, finish_step, cancel_step,
  retry_interrupted_step,
}
use pangi.Execution.Engine.{state_for, execute, delegate_outcome, flatten_warnings, present_results}
use pangi.Execution.Materialize.{Entry, materialize_and_enqueue}
use pangi.Execution.Materialized.{IsStepTask, Materialized, materialize_and_enqueue-Good}
use pangi.Execution.Agreement.{rows_steps, execution_state, delegate_outcome-resolve}
use pangi.Runs.Outcome.{StepOutcome, resolve_step_outcome}
use pangi.Runs.OutcomeLaws.{failed_required}
use pangi.Execution.Rounds.{Ended}
use pangi.Execution.Termination.{execute-Runs}
use pangi.Execution.Hoare.{Runs}
use pangi.Execution.Transactions.{Wrote}
use pangi.Execution.Writes.{
  start_step-Runs, finish_step-Runs, cancel_step-Runs, retry_interrupted_step-Runs,
}
use pangi.Execution.Samples.{
  row, claim, env, IsOwned, env-Ownership, sample_plan, world, state_Holds, success, new_id_ok,
  policy, executor, services, run_id_ok, success-Redacts, codec, planned_run,
}

from_validated_delegate_example : from_validated plan ≡ ok (delegate_plan plan)
unfolding limits_init
from_validated_delegate_example =
    from_validated_delegate catalog default_limits (decision reversed_tasks) plan refl refl accepted

start_step-Runs_example :
    Runs ⊥
      (λ r w'.
        Wrote IsOwned (row StepState.queued) r (world StepState.queued) w'
        × ((at : DateTime) × (r ≡ started env claim at (row StepState.queued))))
      (start_step env claim (row StepState.queued) (world StepState.queued))
unfolding snapshot_init is_terminal_step
start_step-Runs_example =
    start_step-Runs env claim ⊥ IsOwned env-Ownership (row StepState.queued)
      (world StepState.queued) refl (state_Holds StepState.queued refl refl) (inl refl)
      (λ d m. absurd (unfold contains in cc m))

cancel_step-Runs_example :
    Runs ⊥
      (λ r w'.
        Wrote IsOwned (row StepState.queued) r (world StepState.queued) w'
        × ((at : DateTime) × (r
              ≡ cancelled env claim "dependency_failed" at (row StepState.queued))))
      (cancel_step env claim "dependency_failed" (row StepState.queued) (world StepState.queued))
unfolding snapshot_init is_terminal_step bounded_text_ok is_blank
cancel_step-Runs_example =
    cancel_step-Runs env claim ⊥ IsOwned env-Ownership "dependency_failed" (row StepState.queued)
      (world StepState.queued) refl refl (state_Holds StepState.queued refl refl) (inl refl)

finish_step-Runs_example :
    Runs ⊥
      (λ r w'.
        Wrote IsOwned (row StepState.running) r (world StepState.running) w'
        × ((at : DateTime) × (r
              ≡ finished env claim (state_for success) success none at (row StepState.running))))
      (finish_step env claim
        (row StepState.running)
        (state_for success)
        success
        none
        (world StepState.running))
unfolding snapshot_init is_terminal_step
finish_step-Runs_example =
    finish_step-Runs env claim ⊥ IsOwned env-Ownership (row StepState.running) success success none
      (world StepState.running) refl refl success-Redacts (λ c e. absurd (cc e))
      (state_Holds StepState.running refl refl) (inl refl)

retry_interrupted_step-Runs_example :
    Runs ⊥
      (λ r w'.
        Wrote IsOwned (row StepState.interrupted) r (world StepState.interrupted) w'
        × ((at : DateTime) × (r ≡ retried env claim at (row StepState.interrupted))))
      (retry_interrupted_step env claim (row StepState.interrupted) (world StepState.interrupted))
unfolding snapshot_init is_terminal_step
retry_interrupted_step-Runs_example =
    retry_interrupted_step-Runs env claim ⊥ IsOwned env-Ownership (row StepState.interrupted)
      (world StepState.interrupted) new_id_ok run_id_ok refl refl
      (state_Holds StepState.interrupted refl refl) (inl refl)

execute-Runs_example :
    Runs ⊥ (Ended claim.run_id) (execute env policy executor claim (world StepState.queued))
unfolding snapshot_init policy_init is_terminal_step
execute-Runs_example =
    execute-Runs env policy executor claim ⊥ IsOwned env-Ownership sample_plan services
      (world StepState.queued) refl refl refl
      (λ s i. elim i [ inl e ↦ rw e refl | inr j ↦ elim j [ ] ])
      (state_Holds StepState.queued refl refl)

sample_texts : (s : PreparedExecutionStep) → In s sample_plan.steps → IsStepTask s.task
unfolding bounded_text_ok is_blank check_each
sample_texts s i = elim i [
  | inl e ↦ rw e (record { id = refl; depends_on = refl })
  | inr j ↦ elim j [ ]
]

materialize_and_enqueue-Good_example :
    (snapshot : ExecutionPlanSnapshot) × (entry : Entry) × ◌≡◌
      {A = Result EngineError (ExecutionPlanSnapshot × Entry)}
      (materialize_and_enqueue codec "run_000000000001"
        (pos 2)
        sample_plan
        (aware 12)
        (record { run = some planned_run; stored = none }))
      (ok (snapshot, entry))
    × Materialized "run_000000000001" planned_run sample_plan snapshot (aware 12) entry
    × ((later : ℕ) (other : ℤ)
        → ◌≡◌ {A = Result EngineError (ExecutionPlanSnapshot × Entry)}
            (materialize_and_enqueue codec "run_000000000001" other sample_plan (aware later) entry)
            (ok (snapshot, entry)))
unfolding plan_init check_delegate unique steps_in_order
materialize_and_enqueue-Good_example =
    materialize_and_enqueue-Good codec "run_000000000001" (pos 2) sample_plan sample_plan 12
      planned_run new_id_ok refl refl refl run_id_ok sample_texts refl refl

delegate_outcome-resolve_example :
    (o : StepOutcome) × (resolve_step_outcome (rows_steps (row StepState.cancelled ∷ [])) ≡ ok o)
    × ((delegate_outcome "run_000000000001" (row StepState.cancelled ∷ [])).state
        ≡ execution_state o.state)
    × ((delegate_outcome "run_000000000001" (row StepState.cancelled ∷ [])).error_code
        ≡ o.error_code)
    × ((delegate_outcome "run_000000000001" (row StepState.cancelled ∷ [])).warnings
        ≡ o.warnings
          ++ (if any failed_required (rows_steps (row StepState.cancelled ∷ []))
              then []
              else flatten_warnings (present_results (row StepState.cancelled ∷ []))))
unfolding is_terminal_step
delegate_outcome-resolve_example =
    delegate_outcome-resolve "run_000000000001" (row StepState.cancelled ∷ []) refl
