-- ===== src/Execution/Preparation.antt =====
-- A validated plan becomes a prepared plan: the constructor's checks on it never fail.
use pangi.Prelude.{
  ◌≤◌, String, true, false, List, [], ◌∷◌, none, length, is_empty, map, ◌≡◌, refl, ap, ◌∙◌, arith,
}
use pangi.Prelude.Results.{ok}
use pangi.Prelude.Sets.{unique}
use pangi.Prelude.Distinct.{Distinct-unique, any_missing}
use pangi.Runs.States.{delegate}
use pangi.Orchestration.Contracts.{
  DelegatedTask, OrchestratorDecision, OrchestratorCatalog, OrchestratorLimits,
  ValidatedOrchestratorPlan, limits_init,
}
use pangi.Orchestration.Validator.{validate}
use pangi.Orchestration.Order.{ids, in_order}
use pangi.Orchestration.Acceptance.{validate-IsPlanFor, validate_delegate_exact}
use pangi.Execution.Contracts.{
  PreparedExecutionPlan, prepare_step, step_task_id, steps_in_order, plan_init, check_delegate,
  from_validated,
}

prepared_ids : (tasks : List DelegatedTask) → map step_task_id (map prepare_step tasks) ≡ ids tasks
prepared_ids [] = refl
prepared_ids (t ∷ rest) = ap (λ l. t.id ∷ l) (prepared_ids rest)

prepared_order :
    (seen : List String) (tasks : List DelegatedTask)
    → steps_in_order seen (map prepare_step tasks) ≡ in_order seen tasks
unfolding steps_in_order
prepared_order seen [] = refl
prepared_order seen (t ∷ rest) =
    ground (arith, any_missing t.depends_on seen, prepared_order (t.id ∷ seen) rest)

length-prepared : (tasks : List DelegatedTask) → length (map prepare_step tasks) ≡ length tasks
length-prepared [] = refl
length-prepared (t ∷ rest) = omega (arith, length-prepared rest)

-- The prepared form of a delegate plan.
abbrev pub delegate_plan : ValidatedOrchestratorPlan → PreparedExecutionPlan
delegate_plan p = record {
  mode = delegate;
  steps = map prepare_step p.ordered_tasks;
  direct_answer = none;
  composition = p.decision.composition;
}

not_empty :
    (xs ys : List DelegatedTask)
    → length ys ≡ length xs
    → is_empty xs ≡ false
    → is_empty (map prepare_step ys) ≡ false
not_empty xs [] h e = ground arith
not_empty xs (y ∷ ys) h e = refl

few : (limits : OrchestratorLimits) → limits_init limits ≡ ok limits → limits.max_tasks ≤ 5
unfolding limits_init
few limits h = ground arith

prepare_delegate :
    (p : ValidatedOrchestratorPlan)
    → length (map prepare_step p.ordered_tasks) ≤ 5
    → is_empty (map prepare_step p.ordered_tasks) ≡ false
    → unique (map step_task_id (map prepare_step p.ordered_tasks)) ≡ true
    → steps_in_order [] (map prepare_step p.ordered_tasks) ≡ true
    → plan_init (delegate_plan p) ≡ ok (delegate_plan p)
unfolding plan_init check_delegate
prepare_delegate p f e u o = ground arith

module _ (catalog : OrchestratorCatalog) (limits : OrchestratorLimits) where
  -- Under limits that `OrchestratorLimits` accepts, a delegate decision that the validator accepts
  -- is prepared with its steps in the plan's order, and no check of the prepared plan fails.
  pub from_validated_delegate :
      (d : OrchestratorDecision) (p : ValidatedOrchestratorPlan)
      → limits_init limits ≡ ok limits
      → d.mode ≡ delegate
      → validate catalog limits d ≡ ok p
      → from_validated p ≡ ok (delegate_plan p)
  unfolding from_validated
  from_validated_delegate d p l m h =
      let plan = validate-IsPlanFor catalog limits d p m h in
      let a = (validate_delegate_exact catalog limits d m).0 (p, h) in
      let o = plan.ordering in
      rw (ap (λ (x : OrchestratorDecision). x.mode) plan.decision ∙ m) (
        prepare_delegate p
          (omega (arith, length-prepared p.ordered_tasks, plan.few_tasks, few limits l))
          (not_empty d.tasks p.ordered_tasks o.same_length a.some_task)
          (rw prepared_ids (Distinct-unique (ids p.ordered_tasks) o.distinct))
          (prepared_order [] p.ordered_tasks ∙ o.sorted))
