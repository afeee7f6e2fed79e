-- ===== src/Execution/Writes.antt =====
-- The transactions that the engine calls, each on a row that the table holds.
use pangi.Prelude.{
  String, true, false, not, ◌||◌, if◌then◌else◌, List, Option, none, some, any, str_eq, eq_iff, ◌≡◌,
  refl, sym, subst, arith,
}
use pangi.Prelude.Results.{ok}
use pangi.Prelude.Distinct.{In}
use pangi.Prelude.Int.{ℤ, increment}
use pangi.Text.{DateTime, is_blank}
use pangi.Runs.States.{StepState, same_step_state}
use pangi.Runs.Contracts.{identifier_ok, bounded_text_ok}
use pangi.Runs.Validity.{IsAware}
use pangi.Execution.ValidSteps.{
  some_inj, started-IsStep, cancelled-IsStep, finished-IsStep, retried-IsStep,
}
use pangi.Orchestration.Contracts.{AgentResult, is_failed}
use pangi.Execution.Contracts.{snapshot_init, is_result_state}
use pangi.Execution.Engine.{is_queued, state_for}
use pangi.Execution.World.{RunRow, World}
use pangi.Execution.Store.{
  Claim, Env, started, finished, cancelled, retried, start_step, finish_step, cancel_step,
  retry_interrupted_step, fits,
}
use pangi.Execution.Table.{Row, node, IsRow, AreDone, Good}
use pangi.Execution.Replacement.{IsChange}
use pangi.Execution.Hoare.{Runs, Runs-raise_if, Runs-lift, Runs-clock, Ownership, Holds}
use pangi.Execution.Transactions.{
  Wrote, write-Runs, write_checked-Runs, started_row, cancelled_row, finished_row, retried_row,
}

-- What the redactor makes of a result that it does not refuse, of a size that the table takes.
pub record Redacts (env : Env) (claim : Claim) (result safe : AgentResult) : Type 0 where
  pub redacted : env.redact result ≡ ok safe
  pub same_task : safe.task_id ≡ result.task_id
  pub same_status : safe.status ≡ result.status
  pub warnings : any is_blank safe.warnings ≡ false
  pub size : fits env claim safe ≡ true

module _ (env : Env) (claim : Claim) where
  start-IsChange :
      (b : Row) (steps : List Row) (at : DateTime)
      → b.step.state ≡ StepState.queued
      → Good steps
      → In b steps
      → AreDone steps b.step.depends_on
      → IsAware at
      → IsChange steps b (started env claim at b)
  start-IsChange b steps at e g i deps a =
      let r = g.rows b i in
      record {
        open_step = rw e refl;
        same_node = refl;
        same_depends = refl;
        row = record {
          snapshot = started_row env claim b at r e;
          depends = r.depends;
          valid = started-IsStep env claim b at r.valid a;
          warnings = r.warnings;
        };
        after = λ h. deps;
      }

  cancel-IsChange :
      (b : Row) (steps : List Row) (code : String) (at : DateTime)
      → b.step.state ≡ StepState.queued
      → Good steps
      → In b steps
      → bounded_text_ok code 120 ≡ true
      → IsAware at
      → IsChange steps b (cancelled env claim code at b)
  cancel-IsChange b steps code at e g i ok_code a =
      let r = g.rows b i in
      record {
        open_step = rw e refl;
        same_node = refl;
        same_depends = refl;
        row = record {
          snapshot = cancelled_row env claim b code at r e;
          depends = r.depends;
          valid = cancelled-IsStep env claim b at r.valid a code ok_code;
          warnings = r.warnings;
        };
        after = λ h. absurd (ground arith);
      }

  finish-IsChange :
      (b : Row) (steps : List Row) (state : StepState) (result safe : AgentResult)
      (code : Option String) (at : DateTime)
      → b.step.state ≡ StepState.running
      → is_result_state state ≡ true
      → str_eq result.task_id (node b) ≡ true
      → state ≡ state_for result
      → Redacts env claim result safe
      → Good steps
      → In b steps
      → ((c : String) → code ≡ some c → bounded_text_ok c 120 ≡ true)
      → IsAware at
      → IsChange steps b (finished env claim state safe code at b)
  finish-IsChange b steps state result safe code at e f t st red g i ok_code a =
      let r = g.rows b i in
      record {
        open_step = rw e refl;
        same_node = refl;
        same_depends = refl;
        row = record {
          snapshot =
              finished_row env claim b state safe code at r f (rw red.same_task t)
                (rw (red.same_status, st) refl);
          depends = r.depends;
          valid = finished-IsStep env claim b at r.valid a state safe code ok_code;
          warnings = λ x h.
              subst (λ (y : AgentResult). any is_blank y.warnings ≡ false) (some_inj h)
                red.warnings;
        };
        after = λ h. g.after_dependencies b i (rw e refl);
      }

  pub defined_node : (b : Row) → IsRow b → b.definition.task.id ≡ node b
  unfolding snapshot_init
  defined_node b r =
      let h : snapshot_init b ≡ ok b = r.snapshot in
      ground (arith, eq_iff (node b) b.definition.task.id)

  retry-IsChange :
      (b : Row) (steps : List Row) (at : DateTime)
      → b.step.state ≡ StepState.interrupted
      → ((run : String) (node : String) (n : ℤ) → identifier_ok (env.step_id run node n) ≡ true)
      → identifier_ok claim.run_id ≡ true
      → Good steps
      → In b steps
      → IsAware at
      → IsChange steps b (retried env claim at b)
  retry-IsChange b steps at e ids run g i a =
      let r = g.rows b i in
      record {
        open_step = rw e refl;
        same_node = defined_node b r;
        same_depends = sym r.depends;
        row = record {
          snapshot = retried_row env claim b at r;
          depends = refl;
          valid = retried-IsStep env claim b at r (defined_node b r) a run (ids _ _ _);
          warnings = λ x h. absurd (ground arith);
        };
        after = λ h. absurd (ground arith);
      }

module _ (env : Env) (claim : Claim) (L : Type 0) (O : RunRow → Type 0)
    (own : Ownership env claim L O) where
  -- A queued step whose dependencies have completed can be started: unless the claim is lost, the
  -- transaction ends, writes that row only, makes it a running one, and leaves the table well
  -- formed.
  pub start_step-Runs :
      (b : Row) (w : World)
      → b.step.state ≡ StepState.queued
      → Holds O w
      → In b w.steps
      → AreDone w.steps b.step.depends_on
      → Runs L
          (λ r w'.
            Wrote O b r w w'
            × ((at : DateTime) × (r ≡ record b {
              step = record b.step {
                state = StepState.running;
                started_at = some at;
                updated_at = at;
              };
            })))
          (start_step env claim b w)
  unfolding start_step
  start_step-Runs b w e h i deps = Runs-clock env claim L O own _ w (
      Runs-raise_if (not (is_queued b)) _ _ w (rw e refl) (
        write-Runs env claim L O own b StepState.queued (started env claim)
          "The queued Step changed" w e h i
          (λ at a. start-IsChange env claim b w.steps at e h.good i deps a)))

  -- A queued step can be cancelled with an error code that is not blank and has at most 120
  -- characters: unless the claim is lost, the transaction ends, writes that row only, makes it a
  -- cancelled one, and leaves the table well formed.
  pub cancel_step-Runs :
      (code : String) (b : Row) (w : World)
      → b.step.state ≡ StepState.queued
      → bounded_text_ok code 120 ≡ true
      → Holds O w
      → In b w.steps
      → Runs L
          (λ r w'.
            Wrote O b r w w'
            × ((at : DateTime) × (r ≡ record b {
              step = record b.step {
                state = StepState.cancelled;
                error_code = some code;
                updated_at = at;
                finished_at = some at;
              };
            })))
          (cancel_step env claim code b w)
  unfolding cancel_step
  cancel_step-Runs code b w e ok_code h i =
      write-Runs env claim L O own b StepState.queued (cancelled env claim code)
        "The queued Step changed" w e h i
        (λ at a. cancel-IsChange env claim b w.steps code at e h.good i ok_code a)

  -- A running step can be finished with a result of its own that the redactor lets pass (`Redacts`:
  -- with the same task and status, without blank warnings, and of a size that the table takes), in
  -- the state that fits the result, with no error code or one that is not blank and has at most 120
  -- characters: unless the claim is lost, the transaction ends, writes that row only, records the
  -- redacted result, and leaves the table well formed.
  pub finish_step-Runs :
      (b : Row) (result safe : AgentResult) (code : Option String) (w : World)
      → b.step.state ≡ StepState.running
      → str_eq result.task_id (node b) ≡ true
      → Redacts env claim result safe
      → ((c : String) → code ≡ some c → bounded_text_ok c 120 ≡ true)
      → Holds O w
      → In b w.steps
      → Runs L
          (λ r w'.
            Wrote O b r w w'
            × ((at : DateTime) × (r ≡ record b {
              step = record b.step {
                state = if is_failed result.status then StepState.failed else StepState.completed;
                error_code = code;
                updated_at = at;
                finished_at = some at;
              };
              result = some safe;
            })))
          (finish_step env claim b (state_for result) result code w)
  unfolding finish_step
  finish_step-Runs b result safe code w e t red ok_code h i =
      let f : is_result_state (state_for result) ≡ true = ground arith in
      Runs-clock env claim L O own _ w (
        Runs-raise_if (not (is_result_state (state_for result))) _ _ w (rw f refl) (
          Runs-raise_if (not (str_eq result.task_id (node b))) _ _ w (rw t refl) (
            Runs-lift (env.redact result) safe _ w red.redacted (
              write_checked-Runs env claim L O own b StepState.running
                (finished env claim (state_for result) safe code) "The running Step changed"
                (not (fits env claim safe)) _ w e (rw red.size refl) h i
                (λ at a.
                  finish-IsChange env claim b w.steps (state_for result) result safe code at e f t
                    refl red h.good i ok_code a)))))

  -- An interrupted idempotent step can be tried again, if the ids of the run and of the new row
  -- have the checked form: unless the claim is lost, the transaction ends, puts a queued row of the
  -- next attempt in the row's place, and leaves the table well formed.
  pub retry_interrupted_step-Runs :
      (b : Row) (w : World)
      → ((run : String) (node : String) (n : ℤ) → identifier_ok (env.step_id run node n) ≡ true)
      → identifier_ok claim.run_id ≡ true
      → b.step.state ≡ StepState.interrupted
      → b.step.idempotent ≡ true
      → Holds O w
      → In b w.steps
      → Runs L
          (λ r w'.
            Wrote O b r w w'
            × ((at : DateTime) × (r ≡ record b {
              step = record b.step {
                id = env.step_id claim.run_id b.definition.task.id (increment b.step.attempt);
                run_id = claim.run_id;
                node_id = b.definition.task.id;
                type = "subagent";
                state = StepState.queued;
                requirement = b.definition.requirement;
                idempotent = b.definition.idempotent;
                attempt = increment b.step.attempt;
                depends_on = b.definition.task.depends_on;
                created_at = at;
                updated_at = at;
                started_at = none;
                finished_at = none;
                error_code = none;
              };
              result = none;
            })))
          (retry_interrupted_step env claim b w)
  unfolding retry_interrupted_step
  retry_interrupted_step-Runs b w ids run e idem h i = Runs-clock env claim L O own _ w (
      Runs-raise_if
        (not (same_step_state b.step.state StepState.interrupted) || not b.step.idempotent) _ _ w
        (rw (e, idem) refl)
        (write-Runs env claim L O own b StepState.interrupted (retried env claim)
          "The interrupted Step changed" w e h i
          (λ at a. retry-IsChange env claim b w.steps at e ids run h.good i a)))
