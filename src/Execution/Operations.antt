-- ===== src/Execution/Operations.antt =====
-- The engine's operations, one step at a time, each fit for a sweep over steps; and reading the
-- table back.
use pangi.Prelude.{
  String, true, List, [], ◌∷◌, map, ◌≡◌, refl, sym, ap, ◌∙◌, subst, inl, inr, arith,
}
use pangi.Prelude.Results.{ok}
use pangi.Prelude.Sets.{subset}
use pangi.Prelude.Distinct.{In, contains-subset}
use pangi.Text.{DateTime, is_blank}
use pangi.Runs.Contracts.{bounded_text_ok}
use pangi.Runs.States.{delegate, StepState}
use pangi.Execution.Contracts.{
  ExecutionPlanSnapshot, PreparedExecutionPlan, step_task_id, plan_snapshot_init,
}
use pangi.Execution.World.{RunRow, World, stored, each, step_from_row}
use pangi.Execution.Store.{
  Claim, Env, enter, started, cancelled, start_step, cancel_step, load_for_claim, read_snapshot,
}
use pangi.Execution.Table.{Row, nodes, IsRow, AreDone, step_from_row-IsRow}
use pangi.Execution.Replacement.{AreDone-replace}
use pangi.Execution.Hoare.{Runs, done, Runs-bind, Ownership, Holds, enter-Runs}
use pangi.Execution.Writes.{start_step-Runs, cancel_step-Runs}
use pangi.Execution.Sweep.{IsOperation}

each_row-ok :
    (steps : List Row)
    → ((s : Row) → In s steps → IsRow s)
    → (w : World) → each (λ s. stored (step_from_row s)) steps w ≡ ok (steps, w)
unfolding each
each_row-ok [] f w = refl
each_row-ok (s ∷ rest) f w =
    ground (arith, step_from_row-IsRow s (f s (inl refl)), each_row-ok rest (λ x i. f x (inr i)) w)

-- What reading the table back gives, and leaves.
pub record Loaded (O : RunRow → Type 0) (w : World) (snapshot : ExecutionPlanSnapshot) (w' : World)
    : Type 0 where
  pub read : snapshot.steps ≡ w'.steps
  pub read_plan : snapshot.plan ≡ w'.plan
  pub steps : w'.steps ≡ w.steps
  pub plan : w'.plan ≡ w.plan
  pub holds : Holds O w'

pub subset_refl : (xs : List String) → subset xs xs ≡ true
subset_refl xs = contains-subset xs xs (λ x m. m)

snapshot_built :
    (plan : PreparedExecutionPlan) (steps : List Row) (w : World)
    → plan.mode ≡ delegate
    → nodes steps ≡ map step_task_id plan.steps
    → each (λ s. stored (step_from_row s)) steps w ≡ ok (steps, w)
    → read_snapshot plan steps w ≡ ok (record { plan = plan; steps = steps }, w)
unfolding read_snapshot plan_snapshot_init
snapshot_built plan steps w d n h =
    let s : subset (nodes steps) (map step_task_id plan.steps) ≡ true =
      subst (λ z. subset (nodes steps) z ≡ true) n (subset_refl (nodes steps)) in
    let t : subset (map step_task_id plan.steps) (nodes steps) ≡ true =
      subst (λ z. subset z (nodes steps) ≡ true) n (subset_refl (nodes steps)) in
    ground arith

read_snapshot-ok :
    {O : RunRow → Type 0} (w : World)
    → Holds O w
    → read_snapshot w.plan w.steps w ≡ ok (record { plan = w.plan; steps = w.steps }, w)
read_snapshot-ok w h =
    snapshot_built w.plan w.steps w h.delegated h.planned (each_row-ok w.steps h.good.rows w)

dependency_failed_ok : bounded_text_ok "dependency_failed" 120 ≡ true
unfolding bounded_text_ok is_blank
dependency_failed_ok = refl

module _ (env : Env) (claim : Claim) (L : Type 0) (O : RunRow → Type 0)
    (own : Ownership env claim L O) where
  pub load-Runs : (w : World) → Holds O w → Runs L (Loaded O w) (load_for_claim env claim w)
  unfolding load_for_claim
  load-Runs w h =
      Runs-bind (enter env claim) _ w (enter-Runs env claim L O own w h.owned)
        λ at w' (same, plan, o, _).
          let h' : Holds O w' = record {
            owned = o;
            good = rw same h.good;
            delegated = rw plan h.delegated;
            planned =
                ap nodes same
                ∙ h.planned
                ∙ sym (ap (λ (p : PreparedExecutionPlan). map step_task_id p.steps) plan);
          } in
          done (record { plan = w'.plan; steps = w'.steps }) w' (read_snapshot-ok w' h')
            (record { read = refl; read_plan = refl; steps = same; plan = plan; holds = h' })

  -- Starting: a queued row whose dependencies have completed.
  abbrev pub Startable : List Row → Row → Type 0
  Startable steps b = (b.step.state ≡ StepState.queued) × AreDone steps b.step.depends_on

  abbrev pub Started : Row → Row → Type 0
  Started b r = (at : DateTime) × (r ≡ started env claim at b)

  pub start-IsOperation : IsOperation env claim L O own Startable Started (start_step env claim)
  start-IsOperation = record {
    runs = λ b w h i (e, deps). start_step-Runs env claim L O own b w e h i deps;
    same_node = λ b r (at, e). rw e refl;
    stable = λ steps b r c g i (e, _) (e', deps).
        (e', AreDone-replace steps b r c.step.depends_on g.distinct i (rw e refl) deps);
  }

  -- Cancelling: a queued row.
  abbrev pub Cancellable : List Row → Row → Type 0
  Cancellable steps b = b.step.state ≡ StepState.queued

  abbrev pub Cancelled : Row → Row → Type 0
  Cancelled b r = (at : DateTime) × (r ≡ cancelled env claim "dependency_failed" at b)

  pub cancel-IsOperation :
      IsOperation env claim L O own Cancellable Cancelled
        (cancel_step env claim "dependency_failed")
  cancel-IsOperation = record {
    runs = λ b w h i e.
        cancel_step-Runs env claim L O own "dependency_failed" b w e dependency_failed_ok h i;
    same_node = λ b r (at, e). rw e refl;
    stable = λ steps b r c g i _ e. e;
  }
