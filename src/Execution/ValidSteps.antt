-- ===== src/Execution/ValidSteps.antt =====
-- The steps that the transactions write are ones that RunStep's constructor accepts.
use pangi.Prelude.{String, true, false, Option, none, some, ◌≡◌, refl, ap, arith}
use pangi.Prelude.Int.{ℤ, pos, negsuc, ltb_ℤ, increment}
use pangi.Text.{DateTime, is_blank}
use pangi.Runs.States.{StepState, is_terminal_step}
use pangi.Runs.Contracts.{identifier_ok, bounded_text_ok}
use pangi.Runs.Validity.{IsAware}
use pangi.Runs.StepValidity.{IsStep}
use pangi.Orchestration.Contracts.{AgentResult}
use pangi.Execution.Store.{Claim, Env, started, finished, cancelled, retried}
use pangi.Execution.Table.{Row, node, IsRow}

pub some_inj : {A : Type 0} {x y : A} → some x ≡ some y → x ≡ y
some_inj {x = x} h = ap (λ o. elim o [ none ↦ x | some z ↦ z ]) h

module _ (env : Env) (claim : Claim) (b : Row) (at : DateTime) (h : IsStep b.step)
    (a : IsAware at) where
  pub started-IsStep : IsStep (started env claim at b).step
  unfolding is_terminal_step
  started-IsStep = record {
    id = h.id;
    run_id = h.run_id;
    node_id = h.node_id;
    type = h.type;
    attempt = h.attempt;
    finished = λ t. absurd (cc t);
    depends_on = h.depends_on;
    error_code = h.error_code;
    created = h.created;
    updated = a;
    started = a;
    ended = h.ended;
  }

  pub cancelled-IsStep :
      (code : String)
      → bounded_text_ok code 120 ≡ true
      → IsStep (cancelled env claim code at b).step
  cancelled-IsStep code ok_code = record {
    id = h.id;
    run_id = h.run_id;
    node_id = h.node_id;
    type = h.type;
    attempt = h.attempt;
    finished = λ t. refl;
    depends_on = h.depends_on;
    error_code = λ c e. rw (← some_inj e) ok_code;
    created = h.created;
    updated = a;
    started = h.started;
    ended = a;
  }

  pub finished-IsStep :
      (state : StepState) (result : AgentResult) (code : Option String)
      → ((c : String) → code ≡ some c → bounded_text_ok c 120 ≡ true)
      → IsStep (finished env claim state result code at b).step
  finished-IsStep state result code ok_code = record {
    id = h.id;
    run_id = h.run_id;
    node_id = h.node_id;
    type = h.type;
    attempt = h.attempt;
    finished = λ t. refl;
    depends_on = h.depends_on;
    error_code = ok_code;
    created = h.created;
    updated = a;
    started = h.started;
    ended = a;
  }

attempt_after : (n : ℤ) → ltb_ℤ n (pos 1) ≡ false → ltb_ℤ (increment n) (pos 1) ≡ false
attempt_after (pos n) h = ground arith
attempt_after (negsuc n) h = cc

pub retried-IsStep :
    (env : Env) (claim : Claim) (b : Row) (at : DateTime)
    → IsRow b
    → b.definition.task.id ≡ node b
    → IsAware at
    → identifier_ok claim.run_id ≡ true
    → identifier_ok (env.step_id claim.run_id b.definition.task.id (increment b.step.attempt))
      ≡ true
    → IsStep (retried env claim at b).step
unfolding is_terminal_step bounded_text_ok is_blank
retried-IsStep env claim b at r same a run id =
    let h = r.valid in
    record {
      id = id;
      run_id = run;
      node_id = rw same h.node_id;
      type = refl;
      attempt = attempt_after b.step.attempt h.attempt;
      finished = λ t. absurd (cc t);
      depends_on = rw (← r.depends) h.depends_on;
      error_code = λ c e. absurd (cc e);
      created = a;
      updated = a;
      started = tt;
      ended = tt;
    }
