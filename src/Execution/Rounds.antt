-- ===== src/Execution/Rounds.antt =====
-- One round of the engine's loop: cancelling, running a batch, and finishing.
use pangi.Prelude.{
  ◌+◌, ◌<◌, String, Bool, true, false, ◌||◌, not, List, Option, keep, is_empty, Bool-cases, ◌≡◌,
  refl, inl, inr, arith,
}
use pangi.Prelude.Distinct.{In}
use pangi.Runs.States.{
  RunState, StepState, RunErrorCode, same_step_state, same_step_state_iff, is_terminal_step,
}
use pangi.Orchestration.Contracts.{AgentResult}
use pangi.Execution.Contracts.{ExecutionOutcome}
use pangi.Execution.World.{RunRow, World, each}
use pangi.Execution.Store.{Claim, Env, enter, cancel_step, finish_run, is_composing, is_failed_run}
use pangi.Execution.Engine.{is_queued, state_for, delegate_outcome}
use pangi.Execution.Table.{Row, Good, queued_count, contains-nodes}
use pangi.Execution.Hoare.{
  Runs, done, Runs-bind, Runs-weaken, Runs-raise_if, Runs-clock, Ownership, Holds, enter-Runs,
}
use pangi.Execution.Progress.{is_settled, In-keep}
use pangi.Execution.Sweep.{Swept, SweptWorld, each-Runs}
use pangi.Execution.Operations.{Cancellable, Cancelled, cancel-IsOperation}
use pangi.Execution.Selections.{Distinct-keep, keep-In, queued_count-none, queued_count-some}

-- Every row is queued or has ended.
abbrev pub AreSettled : List Row → Type 0
AreSettled steps = (s : Row) → In s steps → is_settled s ≡ true

abbrev pub AreEnded : List Row → Type 0
AreEnded steps = (s : Row) → In s steps → is_terminal_step s.step.state ≡ true

pub finished_settled : (result : AgentResult) → is_terminal_step (state_for result) ≡ true
unfolding is_terminal_step
finished_settled result = ground arith

pub finished_not_queued :
    (result : AgentResult) → same_step_state (state_for result) StepState.queued ≡ false
finished_not_queued result = ground arith

pub outcome_state :
    (run_id : String) (steps : List Row)
    → (is_composing (delegate_outcome run_id steps).state
        || is_failed_run (delegate_outcome run_id steps).state)
      ≡ true
unfolding delegate_outcome
outcome_state run_id steps = ground arith

-- What an execution that ends leaves: every step has ended, the outcome is that of the steps, and
-- the run's row tells it.
pub record Ended (run_id : String) (o : ExecutionOutcome) (w : World) : Type 0 where
  pub good : Good w.steps
  pub ended : AreEnded w.steps
  pub outcome : o ≡ delegate_outcome run_id w.steps
  pub state : w.run.state ≡ o.state
  pub warnings : w.run.warnings ≡ o.warnings
  pub error_code : w.run.error_code ≡ o.error_code

-- What a round leaves that goes on: the table is settled, and fewer rows are queued.
pub record Advanced (O : RunRow → Type 0) (w w' : World) : Type 0 where
  pub holds : Holds O w'
  pub plan : w'.plan ≡ w.plan
  pub settled : AreSettled w'.steps
  pub fewer : queued_count w'.steps < queued_count w.steps

module _ (env : Env) (claim : Claim) (L : Type 0) (O : RunRow → Type 0)
    (own : Ownership env claim L O) where
  Cancelled-settled :
      (b r : Row) → Cancelled env claim L O own b r → is_terminal_step r.step.state ≡ true
  unfolding is_terminal_step
  Cancelled-settled b r (at, e) = rw e refl

  -- After cancelling queued rows: what was settled is settled.
  Swept-settled :
      (bs rs : List Row) (steps steps' : List Row)
      → AreSettled steps
      → Swept (Cancelled env claim L O own) bs rs steps steps'
      → AreSettled steps'
  Swept-settled bs rs steps steps' settled s x i = elim (s.others x i) [
    | inl (j, _) ↦ settled x j
    | inr j ↦ let (b, _, r) = s.related x j in ground (arith, Cancelled-settled b x r)
  ]

  Cancelled-count :
      (bs rs : List Row) (steps steps' : List Row)
      → Swept (Cancelled env claim L O own) bs rs steps steps'
      → queued_count steps' + queued_count bs ≡ queued_count steps
  Cancelled-count bs rs steps steps' s = omega (
    arith,
    s.counted,
    queued_count-none rs (λ r i. let (b, _, (at, e)) = s.related r i in rw e refl),
  )

  -- Cancelling a selection of queued rows.
  cancel-Runs :
      (p : Row → Bool) (w : World)
      → ((s : Row) → p s ≡ true → is_queued s ≡ true)
      → Holds O w
      → Runs L
          (λ rs w'.
            SweptWorld env claim L O own (Cancelled env claim L O own) (keep p w.steps) rs w w')
          (each (cancel_step env claim "dependency_failed") (keep p w.steps) w)
  cancel-Runs p w q h =
      each-Runs env claim L O own (Cancellable env claim L O own) (Cancelled env claim L O own)
        (cancel_step env claim "dependency_failed") (cancel-IsOperation env claim L O own)
        (keep p w.steps) w h (Distinct-keep p w.steps h.good.distinct)
        (λ b i.
          let (j, k) = In-keep p b w.steps i in
          (j, (same_step_state_iff b.step.state StepState.queued).0 (q b k)))

  -- Cancelling a non-empty selection leaves fewer queued rows.
  pub cancel_some-Runs :
      (p : Row → Bool) (w : World)
      → ((s : Row) → p s ≡ true → is_queued s ≡ true)
      → is_empty (keep p w.steps) ≡ false
      → AreSettled w.steps
      → Holds O w
      → Runs L
          (λ rs w'. Advanced O w w')
          (each (cancel_step env claim "dependency_failed") (keep p w.steps) w)
  cancel_some-Runs p w q some_row settled h = Runs-weaken (cancel-Runs p w q h) λ rs w' s. record {
    holds = s.holds;
    plan = s.plan;
    settled = Swept-settled (keep p w.steps) rs w.steps w'.steps settled s.swept;
    fewer = omega (
      arith,
      Cancelled-count (keep p w.steps) rs w.steps w'.steps s.swept,
      queued_count-some (keep p w.steps) (λ b i. q b (In-keep p b w.steps i).1) some_row,
    );
  }

  Swept-ended :
      (rs : List Row) (steps steps' : List Row)
      → AreSettled steps
      → Swept (Cancelled env claim L O own) (keep is_queued steps) rs steps steps'
      → AreEnded steps'
  Swept-ended rs steps steps' settled s x i = elim (s.others x i) [
    | inl (j, apart) ↦ elim (Bool-cases (is_queued x)) [
      | inl queued ↦
          absurd (
            cc
              (apart, contains-nodes x (keep is_queued steps) (keep-In is_queued x steps j queued)))
      | inr other ↦ ground (arith, settled x j)
    ]
    | inr j ↦ let (b, _, r) = s.related x j in Cancelled-settled b x r
  ]

  -- Cancelling every queued row leaves a table in which all have ended.
  pub cancel_all-Runs :
      (w : World)
      → AreSettled w.steps
      → Holds O w
      → Runs L
          (λ rs w'. Holds O w' × AreEnded w'.steps)
          (each (cancel_step env claim "dependency_failed") (keep is_queued w.steps) w)
  cancel_all-Runs w settled h =
      Runs-weaken (cancel-Runs is_queued w (λ s q. q) h)
        λ rs w' s. (s.holds, Swept-ended rs w.steps w'.steps settled s.swept)

  -- The run's row after `finish_run`.
  pub finish_run-Runs :
      (state : RunState) (warnings : List String) (code : Option RunErrorCode) (w : World)
      → (is_composing state || is_failed_run state) ≡ true
      → Holds O w
      → Runs L
          (λ u w'.
            (w'.steps ≡ w.steps)
            × (w'.run.state ≡ state)
            × (w'.run.warnings ≡ warnings)
            × (w'.run.error_code ≡ code))
          (finish_run env claim state warnings code w)
  unfolding finish_run
  finish_run-Runs state warnings code w ok_state h = Runs-clock env claim L O own _ w (
      Runs-raise_if (not (is_composing state || is_failed_run state)) _ _ w (rw ok_state refl) (
        Runs-bind (enter env claim) _ w (enter-Runs env claim L O own w h.owned)
          λ at w' (same, _, _, _). done tt _ refl (same, refl, refl, refl)))
