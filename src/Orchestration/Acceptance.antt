-- ===== src/Orchestration/Acceptance.antt =====
-- What `OrchestratorPlanValidator` accepts: the conditions on a delegate decision, both ways, and
-- what the accepted plan holds.
use pangi.Prelude.{
  ℕ, ◌≤◌, String, true, false, not, List, [], ◌∷◌, none, length, any, is_empty, ◌≡◌, ◌↔◌, refl, sym,
  ◌∙◌, ◌⊎◌, inl, inr, arith,
}
use pangi.Prelude.Results.{ok}
use pangi.Prelude.Sets.{contains, unique}
use pangi.Prelude.Distinct.{Distinct, unique-Distinct, Distinct-unique, In}
use pangi.Runs.States.{delegate}
use pangi.Orchestration.Contracts.{
  DelegatedTask, OrchestratorDecision, OrchestratorCatalog, OrchestratorLimits,
  ValidatedOrchestratorPlan,
}
use pangi.Orchestration.Validator.{
  topological_order, critical_path_timeout, validate_synthesis, validate_task, validate_tasks,
  validate_delegate, validate,
}
use pangi.Orchestration.Order.{ids, IsOrdering}
use pangi.Orchestration.Order.Loop.{topological_order-IsOrdering}
use pangi.Orchestration.Order.Completeness.{topological_order_exact}
use pangi.Orchestration.Synthesis.{IsComposed, validate_synthesis_iff}
use pangi.Orchestration.CriticalPath.{Chain, single, extend, critical_path_exact}

module _ (catalog : OrchestratorCatalog) (limits : OrchestratorLimits) where
  -- The conditions on one task.
  pub record IsTask (known : List String) (t : DelegatedTask) : Type 0 where
    pub subagent : contains t.subagent catalog.available_subagents ≡ true
    pub timeout : t.timeout_seconds ≤ limits.max_task_timeout_seconds
    pub dependencies : unique t.depends_on ≡ true
    pub not_self : contains t.id t.depends_on ≡ false
    pub known_dependencies : any (λ d. not (contains d known)) t.depends_on ≡ false
    pub connection_hints : unique t.connection_hints ≡ true
    pub tool_hints : unique t.allowed_tool_hints ≡ true

  validate_task-IsTask :
      (known : List String) (t : DelegatedTask)
      → validate_task catalog limits known t ≡ ok tt
      → IsTask known t
  unfolding validate_task
  validate_task-IsTask known t h = ground arith

  IsTask-validate_task :
      (known : List String) (t : DelegatedTask)
      → IsTask known t
      → validate_task catalog limits known t ≡ ok tt
  unfolding validate_task
  IsTask-validate_task known t h = ground arith

  validate_tasks-IsTask :
      (known : List String) (tasks : List DelegatedTask)
      → validate_tasks catalog limits known tasks ≡ ok tt
      → (t : DelegatedTask) → In t tasks
      → IsTask known t
  unfolding validate_tasks
  validate_tasks-IsTask known [] h t i = elim i [ ]
  validate_tasks-IsTask known (u ∷ rest) h t (inl e) =
      rw e (validate_task-IsTask known u (ground arith))
  validate_tasks-IsTask known (u ∷ rest) h t (inr i) =
      validate_tasks-IsTask known rest (ground arith) t i

  IsTask-validate_tasks :
      (known : List String) (tasks : List DelegatedTask)
      → ((t : DelegatedTask) → In t tasks → IsTask known t)
      → validate_tasks catalog limits known tasks ≡ ok tt
  unfolding validate_tasks
  IsTask-validate_tasks known [] f = refl
  IsTask-validate_tasks known (u ∷ rest) f =
      rw (IsTask-validate_task known u (f u (inl refl)))
        (IsTask-validate_tasks known rest (λ t i. f t (inr i)))

  -- The conditions on a delegate decision.
  pub record IsAcceptable (d : OrchestratorDecision) : Type 0 where
    pub no_answer : d.direct_answer ≡ none
    pub no_skill : d.skill_name ≡ none
    pub some_task : is_empty d.tasks ≡ false
    pub few_tasks : length d.tasks ≤ limits.max_tasks
    pub distinct : Distinct (ids d.tasks)
    pub each_task : (t : DelegatedTask) → In t d.tasks → IsTask (ids d.tasks) t
    pub orderable : (order : List DelegatedTask) × IsOrdering d.tasks order
    pub composed : IsComposed catalog d
    pub chains : (t : DelegatedTask) (n : ℕ) → Chain d.tasks t n → n ≤ limits.run_timeout_seconds

  -- The parts of a successful validation.
  record Stages (d : OrchestratorDecision) (p : ValidatedOrchestratorPlan) : Type 0 where
    no_answer : d.direct_answer ≡ none
    no_skill : d.skill_name ≡ none
    some_task : is_empty d.tasks ≡ false
    few_tasks : length d.tasks ≤ limits.max_tasks
    unique_ids : unique (ids d.tasks) ≡ true
    tasks : validate_tasks catalog limits (ids d.tasks) d.tasks ≡ ok tt
    ordered : topological_order d.tasks ≡ ok p.ordered_tasks
    synthesis : validate_synthesis catalog d ≡ ok tt
    critical : critical_path_timeout p.ordered_tasks ≡ ok p.critical_path_timeout_seconds
    in_time : p.critical_path_timeout_seconds ≤ limits.run_timeout_seconds
    decision : p.decision ≡ d

  stages :
      (d : OrchestratorDecision) (p : ValidatedOrchestratorPlan)
      → validate_delegate catalog limits d ≡ ok p
      → Stages d p
  unfolding validate_delegate
  stages d p h = ground arith

  run-Stages :
      (d : OrchestratorDecision) (p : ValidatedOrchestratorPlan)
      → Stages d p
      → validate_delegate catalog limits d ≡ ok p
  unfolding validate_delegate
  run-Stages d p s = ground arith

  validate-delegate :
      (d : OrchestratorDecision)
      → d.mode ≡ delegate
      → validate catalog limits d ≡ validate_delegate catalog limits d
  unfolding validate
  validate-delegate d m = rw m

  -- Chains do not depend on the order in which the tasks are listed.
  Chain-transfer :
      (xs ys : List DelegatedTask)
      → ((t : DelegatedTask) → In t xs → In t ys)
      → (t : DelegatedTask) (n : ℕ) → Chain xs t n
      → Chain ys t n
  Chain-transfer xs ys f t n (single i e) = single (f t i) e
  Chain-transfer xs ys f t n (extend u m i c g e) =
      extend u m (f t i) c (Chain-transfer xs ys f u m g) e

  -- What an accepted delegate plan holds: the decision itself, an ordering of its tasks, and the
  -- longest total timeout of a dependency chain, within the run's limit.
  pub record IsPlanFor (d : OrchestratorDecision) (p : ValidatedOrchestratorPlan) : Type 0 where
    pub decision : p.decision ≡ d
    pub ordering : IsOrdering d.tasks p.ordered_tasks
    pub few_tasks : length p.ordered_tasks ≤ limits.max_tasks
    pub chains :
        (t : DelegatedTask) (n : ℕ) → Chain d.tasks t n → n ≤ p.critical_path_timeout_seconds
    pub attained :
        (p.critical_path_timeout_seconds ≡ 0)
        ⊎ ((t : DelegatedTask) × Chain d.tasks t p.critical_path_timeout_seconds)
    pub in_time : p.critical_path_timeout_seconds ≤ limits.run_timeout_seconds

  plan_of_Stages :
      (d : OrchestratorDecision) (p : ValidatedOrchestratorPlan) → Stages d p → IsPlanFor d p
  plan_of_Stages d p s =
      let o =
        topological_order-IsOrdering d.tasks (unique-Distinct (ids d.tasks) s.unique_ids)
          s.ordered in
      let (c, e, bound, attained) = critical_path_exact p.ordered_tasks o.distinct o.sorted in
      let same : c ≡ p.critical_path_timeout_seconds = ground (arith, s.critical) in
      record {
        decision = s.decision;
        ordering = o;
        few_tasks = omega (arith, o.same_length, s.few_tasks);
        chains = λ t n g.
            rw (← same) (bound t n (Chain-transfer d.tasks p.ordered_tasks o.complete t n g));
        attained = elim attained [
          | inl z ↦ inl (sym same ∙ z)
          | inr (t, g) ↦ inr (t, rw (← same) (Chain-transfer p.ordered_tasks d.tasks o.sound t c g))
        ];
        in_time = s.in_time;
      }

  -- The plan of an accepted delegate decision holds that decision; its tasks are an ordering of the
  -- decision's, no more than the limit; and its critical path is the longest total timeout of a
  -- dependency chain, or 0, and within the run's limit.
  pub validate-IsPlanFor :
      (d : OrchestratorDecision) (p : ValidatedOrchestratorPlan)
      → d.mode ≡ delegate
      → validate catalog limits d ≡ ok p
      → IsPlanFor d p
  validate-IsPlanFor d p m h = plan_of_Stages d p (stages d p (sym (validate-delegate d m) ∙ h))

  accepted-IsAcceptable :
      (d : OrchestratorDecision) (p : ValidatedOrchestratorPlan) → Stages d p → IsAcceptable d
  accepted-IsAcceptable d p s =
      let plan = plan_of_Stages d p s in
      record {
        no_answer = s.no_answer;
        no_skill = s.no_skill;
        some_task = s.some_task;
        few_tasks = s.few_tasks;
        distinct = unique-Distinct (ids d.tasks) s.unique_ids;
        each_task = validate_tasks-IsTask (ids d.tasks) d.tasks s.tasks;
        orderable = (p.ordered_tasks, plan.ordering);
        composed =
            (validate_synthesis_iff catalog d (unique-Distinct (ids d.tasks) s.unique_ids)).0
              s.synthesis;
        chains = λ t n g. omega (arith, plan.chains t n g, plan.in_time);
      }

  accept_critical :
      (d : OrchestratorDecision) (c : ℕ)
      → IsAcceptable d
      → (c ≡ 0) ⊎ ((t : DelegatedTask) × Chain d.tasks t c)
      → c ≤ limits.run_timeout_seconds
  accept_critical d c a (inl z) = omega arith
  accept_critical d c a (inr (t, g)) = a.chains t c g

  acceptable-Stages :
      (d : OrchestratorDecision) → IsAcceptable d → (p : ValidatedOrchestratorPlan) × Stages d p
  acceptable-Stages d a =
      let (order, ordered) = (topological_order_exact d.tasks a.distinct).1 a.orderable in
      let o = topological_order-IsOrdering d.tasks a.distinct ordered in
      let (c, critical, bound, attained) = critical_path_exact order o.distinct o.sorted in
      let transferred : (c ≡ 0) ⊎ ((t : DelegatedTask) × Chain d.tasks t c) = elim attained [
        | inl z ↦ inl z
        | inr (t, g) ↦ inr (t, Chain-transfer order d.tasks o.sound t c g)
      ] in
      (
        record { decision = d; ordered_tasks = order; critical_path_timeout_seconds = c },
        record {
          no_answer = a.no_answer;
          no_skill = a.no_skill;
          some_task = a.some_task;
          few_tasks = a.few_tasks;
          unique_ids = Distinct-unique (ids d.tasks) a.distinct;
          tasks = IsTask-validate_tasks (ids d.tasks) d.tasks a.each_task;
          ordered = ordered;
          synthesis = (validate_synthesis_iff catalog d a.distinct).1 a.composed;
          critical = critical;
          in_time = accept_critical d c a transferred;
          decision = refl;
        },
      )

  -- A delegate decision is accepted exactly if: it has no answer and no skill; it has a task, and no
  -- more than the limit; its ids are distinct; each task names an available subagent, is within the
  -- timeout, and has hints without repetition and dependencies without repetition on other known
  -- tasks; its tasks can be ordered by their dependencies; no task is for the synthesis subagent if
  -- the composition is deterministic, and else exactly one is, which is available, depends on at
  -- least two tasks and has no task depend on it; and no dependency chain takes more than the run's
  -- timeout.
  pub validate_delegate_exact :
      (d : OrchestratorDecision)
      → d.mode ≡ delegate
      → ((p : ValidatedOrchestratorPlan) × (validate catalog limits d ≡ ok p)) ↔ IsAcceptable d
  validate_delegate_exact d m = (
    λ (p, h). accepted-IsAcceptable d p (stages d p (sym (validate-delegate d m) ∙ h)),
    λ a. let (p, s) = acceptable-Stages d a in (p, validate-delegate d m ∙ run-Stages d p s),
  )
