-- ===== src/Orchestration/Failures.antt =====
-- How the validator fails: only by a rejection with one of its codes.
use pangi.Prelude.{
  ℕ, zero, suc, Bool, false, not, ◌||◌, String, List, [], ◌∷◌, length, is_empty, ltb, ◌≡◌, refl,
  ◌⊎◌, inl, inr, arith,
}
use pangi.Prelude.Results.{Result, ok, err, ◌>>=◌, ◌>>◌, raise_if, Result-cases}
use pangi.Prelude.Sets.{unique}
use pangi.Prelude.Distinct.{unique-Distinct}
use pangi.Runs.States.{RunMode, direct, delegate, skill}
use pangi.Orchestration.Contracts.{
  DelegatedTask, OrchestratorDecision, OrchestratorCatalog, OrchestratorLimits,
  ValidatedOrchestratorPlan, is_none,
}
use pangi.Orchestration.Validator.{
  PlanFailure, rejected, out_of_fuel, PlanValidationErrorCode, dependency_cycle, duplicate_task_id,
  invalid_mode_payload, task_limit_exceeded, run_timeout_exceeded, dispatch, Progress, pass, rounds,
  topological_order, critical_path_timeout, check_synthesis_task, validate_synthesis, validate_task,
  validate_tasks, validate_direct, validate_skill, validate_delegate, validate,
}
use pangi.Orchestration.Order.{ids}
use pangi.Orchestration.Order.Loop.{topological_order-IsOrdering}
use pangi.Orchestration.Order.Termination.{topological_order_ends}
use pangi.Orchestration.CriticalPath.{critical_path_exact}

abbrev pub IsRejection : PlanFailure → Type 0
IsRejection e = (code : PlanValidationErrorCode) × (e ≡ rejected code)

rounds_failure :
    (fuel : ℕ) (tasks : List DelegatedTask) (s : Progress) {e : PlanFailure}
    → rounds fuel tasks s ≡ err e
    → (e ≡ out_of_fuel) ⊎ (e ≡ rejected dependency_cycle)
unfolding rounds
rounds_failure zero tasks s h = inl (ground arith)
rounds_failure (suc fuel) tasks s {e} h =
    ground (arith, rounds_failure fuel tasks (pass tasks (record s { progressed = false })) {e = e})

topological_order_failure :
    (tasks : List DelegatedTask) {e : PlanFailure} → topological_order tasks ≡ err e → IsRejection e
unfolding topological_order
topological_order_failure tasks {e} h = elim (rounds_failure _ tasks _ h) [
  | inl fuel ↦ absurd (unfold topological_order in topological_order_ends tasks (rw fuel at h))
  | inr cycle ↦ (dependency_cycle, cycle)
]

validate_task_failure :
    (catalog : OrchestratorCatalog) (limits : OrchestratorLimits) (known : List String)
    (t : DelegatedTask) {e : PlanFailure}
    → validate_task catalog limits known t ≡ err e
    → IsRejection e
unfolding validate_task
validate_task_failure catalog limits known t h = ground arith

validate_tasks_failure :
    (catalog : OrchestratorCatalog) (limits : OrchestratorLimits) (known : List String)
    (tasks : List DelegatedTask) {e : PlanFailure}
    → validate_tasks catalog limits known tasks ≡ err e
    → IsRejection e
unfolding validate_tasks
validate_tasks_failure catalog limits known [] h = cc
validate_tasks_failure catalog limits known (t ∷ rest) {e} h =
    elim (Result-cases (validate_task catalog limits known t)) [
      | inl (u, fine) ↦ validate_tasks_failure catalog limits known rest (ground arith)
      | inr (e', bad) ↦ validate_task_failure catalog limits known t (ground arith)
    ]

check_synthesis_failure :
    (ss tasks : List DelegatedTask) {e : PlanFailure}
    → check_synthesis_task ss tasks ≡ err e
    → IsRejection e
unfolding check_synthesis_task
check_synthesis_failure (s ∷ []) tasks h = ground arith
check_synthesis_failure _ tasks h = ground arith

validate_synthesis_failure :
    (catalog : OrchestratorCatalog) (d : OrchestratorDecision) {e : PlanFailure}
    → validate_synthesis catalog d ≡ err e
    → IsRejection e
unfolding validate_synthesis
validate_synthesis_failure catalog d {e} h = ground arith

-- A call that raises nothing but rejections.
abbrev Rejects {ℓ} : {A : Type ℓ} → Result PlanFailure A → Type ℓ
Rejects r = (e : PlanFailure) → r ≡ err e → IsRejection e

reject_if-Rejects :
    (b : Bool) (code : PlanValidationErrorCode) → Rejects (raise_if b (rejected code))
reject_if-Rejects b code e h = ground arith

bind-Rejects :
    {A B : Type 0} (m : Result PlanFailure A) (f : A → Result PlanFailure B)
    → Rejects m
    → ((a : A) → m ≡ ok a → Rejects (f a))
    → Rejects (m >>= f)
bind-Rejects (ok a) f hm hf = hf a refl
bind-Rejects (err e') f hm hf = λ e h. hm e (cc)

module _ (catalog : OrchestratorCatalog) (limits : OrchestratorLimits) where
  validate_direct-Rejects : (d : OrchestratorDecision) → Rejects (validate_direct catalog limits d)
  unfolding validate_direct
  validate_direct-Rejects d e h = ground arith

  validate_skill-Rejects : (d : OrchestratorDecision) → Rejects (validate_skill catalog limits d)
  unfolding validate_skill
  validate_skill-Rejects d e h = ground arith

  critical-Rejects :
      (tasks ordered : List DelegatedTask) (u : Unit {0})
      → raise_if (not (unique (ids tasks))) (rejected duplicate_task_id) ≡ ok u
      → topological_order tasks ≡ ok ordered
      → Rejects (critical_path_timeout ordered)
  critical-Rejects tasks ordered u distinct h e bad =
      let o =
        topological_order-IsOrdering tasks (unique-Distinct (ids tasks) (ground (arith, distinct)))
          h in
      let (c, fine, bound, attained) = critical_path_exact ordered o.distinct o.sorted in
      cc (fine, bad)

  in_time-Rejects :
      (d : OrchestratorDecision) (ordered : List DelegatedTask) (c : ℕ)
      → Rejects {A = ValidatedOrchestratorPlan} (
          raise_if (ltb limits.run_timeout_seconds c) (rejected run_timeout_exceeded)
          >> ok
              (record { decision = d; ordered_tasks = ordered; critical_path_timeout_seconds = c }))
  in_time-Rejects d ordered c e h = ground arith

  validate_delegate-Rejects :
      (d : OrchestratorDecision) → Rejects (validate_delegate catalog limits d)
  unfolding validate_delegate
  validate_delegate-Rejects d =
      bind-Rejects
        (raise_if (not (is_none d.direct_answer) || not (is_none d.skill_name) || is_empty d.tasks)
          (rejected invalid_mode_payload))
        _ (reject_if-Rejects _ _)
        λ _ _.
          bind-Rejects
            (raise_if (ltb limits.max_tasks (length d.tasks)) (rejected task_limit_exceeded)) _
            (reject_if-Rejects _ _)
            λ _ _.
              bind-Rejects (raise_if (not (unique (ids d.tasks))) (rejected duplicate_task_id)) _
                (reject_if-Rejects _ _)
                λ u distinct.
                  bind-Rejects _ _
                    (λ e. validate_tasks_failure catalog limits (ids d.tasks) d.tasks)
                    λ _ _.
                      bind-Rejects _ _ (λ e. topological_order_failure d.tasks)
                        λ ordered found.
                          bind-Rejects _ _ (λ e. validate_synthesis_failure catalog d)
                            λ _ _.
                              bind-Rejects _ _ (critical-Rejects d.tasks ordered u distinct found)
                                λ c _. in_time-Rejects d ordered c

  dispatch-Rejects :
      (m : RunMode) (d : OrchestratorDecision) → Rejects (dispatch catalog limits m d)
  dispatch-Rejects direct d = validate_direct-Rejects d
  dispatch-Rejects skill d = validate_skill-Rejects d
  dispatch-Rejects delegate d = validate_delegate-Rejects d

  -- Whatever the decision, the validator returns a plan or raises a rejection: its loops end and
  -- no key is missing from its dictionaries.
  pub validate-Rejects :
      (d : OrchestratorDecision) (e : PlanFailure)
      → validate catalog limits d ≡ err e
      → (code : PlanValidationErrorCode) × (e ≡ rejected code)
  unfolding validate
  validate-Rejects d = dispatch-Rejects d.mode d
