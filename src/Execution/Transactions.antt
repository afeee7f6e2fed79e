-- ===== src/Execution/Transactions.antt =====
-- The store's transactions on a row that the table holds.
use pangi.Prelude.{
  String, Bool, true, false, Option, map, str_eq, eq_refl, ◌≡◌, refl, sym, ap, ◌∙◌, subst, arith,
}
use pangi.Prelude.Results.{Result, ok, err}
use pangi.Prelude.Distinct.{In}
use pangi.Text.{DateTime}
use pangi.Runs.Validity.{IsAware}
use pangi.Runs.States.{StepState}
use pangi.Orchestration.Contracts.{AgentResult}
use pangi.Execution.Contracts.{PreparedExecutionPlan, step_task_id, snapshot_init, is_result_state}
use pangi.Execution.Engine.{state_for}
use pangi.Execution.World.{RunRow, World, EngineError, Exec, ◌>>=◌, ◌>>◌, raise_if, pure, stored}
use pangi.Execution.Store.{Claim, Env, enter, change_step, started, finished, cancelled, retried}
use pangi.Execution.Table.{
  Row, node, nodes, IsRow, Good, replace, nodes-replace, step_from_row-IsRow,
}
use pangi.Execution.Replacement.{IsChange, Good-replace, update_row-replace}
use pangi.Execution.Hoare.{Runs, done, Runs-bind, Ownership, Holds, enter-Runs}

change_step-ok :
    (env : Env) (claim : Claim) (b : Row) (change : Row → Row) (message : String) (w : World)
    → Good w.steps
    → In b w.steps
    → IsRow (change b)
    → change_step env claim b.step b.step.state change message w
      ≡ ok (change b, record w { steps = replace b (change b) w.steps })
unfolding change_step
change_step-ok env claim b change message w g i r =
    rw (update_row-replace b change w.steps g.distinct i, change_step)
      (rw (step_from_row-IsRow (change b) r, stored) refl)

-- The changed rows are rows that the snapshot's constructor accepts.
pub started_row :
    (env : Env) (claim : Claim) (b : Row) (at : DateTime)
    → IsRow b
    → b.step.state ≡ StepState.queued
    → snapshot_init (started env claim at b) ≡ ok (started env claim at b)
unfolding snapshot_init
started_row env claim b at r e = let h : snapshot_init b ≡ ok b = r.snapshot in ground arith

pub cancelled_row :
    (env : Env) (claim : Claim) (b : Row) (code : String) (at : DateTime)
    → IsRow b
    → b.step.state ≡ StepState.queued
    → snapshot_init (cancelled env claim code at b) ≡ ok (cancelled env claim code at b)
unfolding snapshot_init
cancelled_row env claim b code at r e = let h : snapshot_init b ≡ ok b = r.snapshot in ground arith

pub finished_row :
    (env : Env) (claim : Claim) (b : Row) (state : StepState) (result : AgentResult)
    (code : Option String) (at : DateTime)
    → IsRow b
    → is_result_state state ≡ true
    → str_eq result.task_id (node b) ≡ true
    → state ≡ state_for result
    → snapshot_init (finished env claim state result code at b)
      ≡ ok (finished env claim state result code at b)
unfolding snapshot_init
finished_row env claim b state result code at r e t st =
    let h : snapshot_init b ≡ ok b = r.snapshot in ground arith

pub retried_row :
    (env : Env) (claim : Claim) (b : Row) (at : DateTime)
    → IsRow b
    → snapshot_init (retried env claim at b) ≡ ok (retried env claim at b)
unfolding snapshot_init
retried_row env claim b at r = ground (arith, eq_refl b.definition.task.id)

-- What a write of row `b` leaves: the row `r` in its place, and all else as it was.
pub record Wrote (O : RunRow → Type 0) (b r : Row) (w w' : World) : Type 0 where
  pub holds : Holds O w'
  pub steps : w'.steps ≡ replace b r w.steps
  pub plan : w'.plan ≡ w.plan

-- What an action returns that only checks, after another one
check_result :
    {B : Type 0} (g : B → Exec B) (r : Result EngineError (B × World))
    → ((b : B) (w : World) → g b w ≡ ok (b, w))
    → (elim r as (λ _. Result EngineError (B × World)) [ ok (b, w) ↦ g b w | err e ↦ err e ]) ≡ r
check_result g (ok (b, w)) f = f b w
check_result g (err e) f = refl

end_check_result :
    {A B : Type 0} (m : A → Exec B) (g : B → Exec B) (r : Result EngineError (A × World))
    → ((b : B) (w : World) → g b w ≡ ok (b, w))
    → (elim r as (λ _. Result EngineError (B × World)) [
      | ok (a, w) ↦ (m a >>= g) w
      | err e ↦ err e
    ])
      ≡ (elim r as (λ _. Result EngineError (B × World)) [ ok (a, w) ↦ m a w | err e ↦ err e ])
end_check_result m g (ok (a, w)) f = check_result g (m a w) f
end_check_result m g (err e) f = refl

end_check :
    {A B : Type 0} (n : Exec A) (m : A → Exec B) (g : B → Exec B) (w : World)
    → ((b : B) (v : World) → g b v ≡ ok (b, v))
    → (n >>= λ a. m a >>= g) w ≡ (n >>= m) w
end_check n m g w f = end_check_result m g (n w) f

module _ (env : Env) (claim : Claim) (L : Type 0) (O : RunRow → Type 0)
    (own : Ownership env claim L O) where
  pub write-Runs :
      (b : Row) (state : StepState) (change : DateTime → Row → Row) (message : String) (w : World)
      → b.step.state ≡ state
      → Holds O w
      → In b w.steps
      → ((at : DateTime) → IsAware at → IsChange w.steps b (change at b))
      → Runs L
          (λ r w'. Wrote O b r w w' × ((at : DateTime) × (r ≡ change at b)))
          ((enter env claim >>= λ at. change_step env claim b.step state (change at) message) w)
  write-Runs b state change message w e h i c =
      Runs-bind (enter env claim) _ w (enter-Runs env claim L O own w h.owned)
        λ at w' (same, plan, o, a).
          let g : Good w'.steps = rw same h.good in
          let i' : In b w'.steps = rw same i in
          let c' : IsChange w'.steps b (change at b) = rw same (c at a) in
          done (change at b) (record w' { steps = replace b (change at b) w'.steps })
            (subst
              (λ st.
                change_step env claim b.step st (change at) message w'
                ≡ ok (change at b, record w' { steps = replace b (change at b) w'.steps }))
              e (change_step-ok env claim b (change at) message w' g i' c'.row))
            (
              record {
                holds = record {
                  owned = o;
                  good = Good-replace w'.steps b (change at b) g i' c';
                  delegated = rw plan h.delegated;
                  planned =
                      nodes-replace b (change at b) w'.steps c'.same_node
                      ∙ ap nodes same
                      ∙ h.planned
                      ∙ sym (ap (λ (p : PreparedExecutionPlan). map step_task_id p.steps) plan);
                };
                steps = ap (replace b (change at b)) same;
                plan = plan;
              },
              (at, refl),
            )

  -- The same with a check at the end that does not raise.
  pub write_checked-Runs :
      (b : Row) (state : StepState) (change : DateTime → Row → Row) (message : String)
      (refused : Bool) (error : EngineError) (w : World)
      → b.step.state ≡ state
      → refused ≡ false
      → Holds O w
      → In b w.steps
      → ((at : DateTime) → IsAware at → IsChange w.steps b (change at b))
      → Runs L
          (λ r w'. Wrote O b r w w' × ((at : DateTime) × (r ≡ change at b)))
          ((enter env claim >>= λ at.
              change_step env claim b.step state (change at) message >>= λ changed.
              raise_if refused error >> pure changed)
            w)
  write_checked-Runs b state change message refused error w e f h i c =
      subst (Runs L (λ r w'. Wrote O b r w w' × ((at : DateTime) × (r ≡ change at b))))
        (sym (
          end_check (enter env claim) (λ at. change_step env claim b.step state (change at) message)
            (λ changed. raise_if refused error >> pure changed) w (λ r v. rw f refl)))
        (write-Runs b state change message w e h i c)
