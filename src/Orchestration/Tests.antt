-- ===== src/Orchestration/Tests.antt =====
-- Examples: a delegate decision of two tasks, the second on the first, listed in reverse.
use pangi.Prelude.{ℕ, ◌≤◌, String, List, [], ◌∷◌, none, ◌≡◌, ◌≢◌, ◌↔◌, ◌⊎◌, refl}
use pangi.Prelude.Results.{ok, err}
use pangi.Prelude.Sets.{contains, subset, unique, to_set, remove}
use pangi.Prelude.Dict.{lookup, put}
use pangi.Prelude.Distinct.{Distinct}
use pangi.Runs.States.{delegate}
use pangi.Orchestration.Contracts.{
  DelegatedTask, OrchestratorDecision, OrchestratorCatalog, default_limits,
  ValidatedOrchestratorPlan, deterministic,
}
use pangi.Orchestration.Validator.{
  PlanValidationErrorCode, rejected, out_of_fuel, dependency_cycle, visit, pass, rounds,
  topological_order, longest_dependency, durations_from, longest_value, critical_path_timeout,
  validate_synthesis, validate_task, validate_tasks, validate_delegate, validate,
}
use pangi.Orchestration.Order.{ids, IsOrdering}
use pangi.Orchestration.Order.Loop.{topological_order-IsOrdering}
use pangi.Orchestration.Order.Termination.{topological_order_ends}
use pangi.Orchestration.Order.Completeness.{topological_order_exact}
use pangi.Orchestration.CriticalPath.{Chain, critical_path_exact}
use pangi.Orchestration.Acceptance.{
  IsAcceptable, IsPlanFor, validate-IsPlanFor, validate_delegate_exact,
}
use pangi.Orchestration.Failures.{validate-Rejects}

abbrev task : String → List String → ℕ → DelegatedTask
task id depends_on timeout = record {
  id = id;
  subagent = "research";
  objective = "Look it up.";
  depends_on = depends_on;
  connection_hints = [];
  allowed_tool_hints = [];
  timeout_seconds = timeout;
}

abbrev first_task : DelegatedTask
first_task = task "a" [] 30

abbrev second_task : DelegatedTask
second_task = task "b" ("a" ∷ []) 60

abbrev pub reversed_tasks : List DelegatedTask
reversed_tasks = second_task ∷ first_task ∷ []

abbrev pub ordered_tasks : List DelegatedTask
ordered_tasks = first_task ∷ second_task ∷ []

abbrev cyclic_tasks : List DelegatedTask
cyclic_tasks = second_task ∷ task "a" ("b" ∷ []) 30 ∷ []

abbrev pub decision : List DelegatedTask → OrchestratorDecision
decision tasks = record {
  mode = delegate;
  direct_answer = none;
  skill_name = none;
  tasks = tasks;
  composition = deterministic;
  user_message = none;
}

abbrev pub catalog : OrchestratorCatalog
catalog = record { available_subagents = "research" ∷ []; active_skills = [] }

abbrev pub plan : ValidatedOrchestratorPlan
plan = record {
  decision = decision reversed_tasks;
  ordered_tasks = ordered_tasks;
  critical_path_timeout_seconds = 90;
}

pub accepted : validate catalog default_limits (decision reversed_tasks) ≡ ok plan
unfolding validate validate_delegate validate_tasks validate_task validate_synthesis unique
    topological_order rounds pass visit subset remove critical_path_timeout durations_from
    longest_dependency lookup put longest_value
accepted = refl

cyclic : validate catalog default_limits (decision cyclic_tasks) ≡ err (rejected dependency_cycle)
unfolding validate validate_delegate validate_tasks validate_task validate_synthesis unique
    topological_order rounds pass visit subset
cyclic = refl

validate_delegate_exact_example :
    ((p : ValidatedOrchestratorPlan) × (validate catalog default_limits (decision reversed_tasks)
        ≡ ok p))
    ↔ IsAcceptable catalog default_limits (decision reversed_tasks)
validate_delegate_exact_example =
    validate_delegate_exact catalog default_limits (decision reversed_tasks) refl

validate-IsPlanFor_example : IsPlanFor catalog default_limits (decision reversed_tasks) plan
validate-IsPlanFor_example =
    validate-IsPlanFor catalog default_limits (decision reversed_tasks) plan refl accepted

validate-Rejects_example :
    (code : PlanValidationErrorCode) × (rejected dependency_cycle ≡ rejected code)
validate-Rejects_example =
    validate-Rejects catalog default_limits (decision cyclic_tasks) (rejected dependency_cycle)
      cyclic

reversed-Distinct : Distinct (ids reversed_tasks)
unfolding contains
reversed-Distinct = (refl, (refl, tt))

ordered-Distinct : Distinct (ids ordered_tasks)
unfolding contains
ordered-Distinct = (refl, (refl, tt))

topological_order_exact_example :
    ((out : List DelegatedTask) × (topological_order reversed_tasks ≡ ok out))
    ↔ ((order : List DelegatedTask) × IsOrdering reversed_tasks order)
topological_order_exact_example = topological_order_exact reversed_tasks reversed-Distinct

topological_order-IsOrdering_example : IsOrdering reversed_tasks ordered_tasks
unfolding topological_order rounds to_set pass visit subset remove
topological_order-IsOrdering_example =
    topological_order-IsOrdering reversed_tasks reversed-Distinct {out = ordered_tasks} refl

topological_order_ends_example : topological_order cyclic_tasks ≢ err out_of_fuel
topological_order_ends_example = topological_order_ends cyclic_tasks

critical_path_exact_example :
    (c : ℕ) × (critical_path_timeout ordered_tasks ≡ ok c)
    × ((t : DelegatedTask) (n : ℕ) → Chain ordered_tasks t n → n ≤ c)
    × ((c ≡ 0) ⊎ ((t : DelegatedTask) × Chain ordered_tasks t c))
unfolding subset contains
critical_path_exact_example = critical_path_exact ordered_tasks ordered-Distinct refl
