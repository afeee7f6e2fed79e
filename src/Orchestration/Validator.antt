-- ===== src/Orchestration/Validator.antt =====
-- application/services/plan_validator.py: the fail-closed validation of a Root decision.
use pangi.Prelude.{
  ℕ, zero, suc, ◌+◌, max, String, Bool, true, false, ◌&&◌, ◌||◌, not, List, [], ◌∷◌, ◌++◌, Option,
  none, some, length, any, keep, is_empty, map, ltb, ◌==◌, if◌then◌else◌, str_eq,
}
use pangi.Prelude.Results.{Result, ok, err, ◌>>=◌, ◌>>◌, raise_if}
use pangi.Prelude.Sets.{contains, subset, to_set, unique, remove}
use pangi.Prelude.Dict.{lookup, put}
use pangi.Runs.States.{RunMode, direct, delegate, skill}
use pangi.Orchestration.Contracts.{
  DelegatedTask, OrchestratorDecision, OrchestratorCatalog, OrchestratorLimits,
  ValidatedOrchestratorPlan, CompositionMode, deterministic, synthesis_subagent, is_none,
}

pub data PlanValidationErrorCode : Type 0 where
  invalid_mode_payload invalid_composition task_limit_exceeded duplicate_task_id unknown_subagent
        unknown_skill duplicate_dependency self_dependency unknown_dependency dependency_cycle
        duplicate_hint task_timeout_exceeded run_timeout_exceeded invalid_synthesis :
      PlanValidationErrorCode

-- `key_error` is Python's KeyError, and `out_of_fuel` a loop that runs on.
pub data PlanFailure : Type 0 where
  rejected : PlanValidationErrorCode → PlanFailure
  key_error : String → PlanFailure
  out_of_fuel : PlanFailure

abbrev pub reject_if : Bool → PlanValidationErrorCode → Result PlanFailure (Unit {0})
reject_if b code = raise_if b (rejected code)

abbrev pub task_id : DelegatedTask → String
task_id t = t.id

-- The variables of `_topological_order`.
pub record Progress : Type 0 where
  pub completed : List String
  pub remaining : List String
  pub ordered : List DelegatedTask
  pub progressed : Bool

-- The body of the inner loop.
unfoldable pub visit : DelegatedTask → Progress → Progress
visit t s =
    if not (contains t.id s.remaining) || not (subset t.depends_on s.completed) then s else record {
      completed = t.id ∷ s.completed;
      remaining = remove t.id s.remaining;
      ordered = s.ordered ++ t ∷ [];
      progressed = true;
    }

unfoldable pub pass : List DelegatedTask → Progress → Progress
pass [] s = s
pass (t ∷ rest) s = pass rest (visit t s)

-- The outer loop.
unfoldable pub rounds : ℕ → List DelegatedTask → Progress → Result PlanFailure (List DelegatedTask)
rounds zero tasks s = err out_of_fuel
rounds (suc fuel) tasks s =
    let s' = pass tasks (record s { progressed = false }) in
    let rest = rounds fuel tasks s' in
    if is_empty s.remaining
    then ok s.ordered
    else if s'.progressed
    then rest
    else err (rejected dependency_cycle)

abbrev pub begin : List DelegatedTask → Progress
begin tasks = record {
  completed = [];
  remaining = to_set (map task_id tasks);
  ordered = [];
  progressed = false;
}

unfoldable pub topological_order : List DelegatedTask → Result PlanFailure (List DelegatedTask)
topological_order tasks = rounds (suc (length tasks)) tasks (begin tasks)

-- max((durations[d] for d in ds), default=0), from `longest`
unfoldable pub longest_dependency : ℕ → List String → List (String × ℕ) → Result PlanFailure ℕ
longest_dependency longest [] durations = ok longest
longest_dependency longest (d ∷ ds) durations = elim (lookup d durations) [
  | none ↦ err (key_error d)
  | some n ↦ longest_dependency (max longest n) ds durations
]

unfoldable pub durations_from :
    List (String × ℕ) → List DelegatedTask → Result PlanFailure (List (String × ℕ))
durations_from durations [] = ok durations
durations_from durations (t ∷ rest) = elim (longest_dependency 0 t.depends_on durations) [
  | ok longest ↦ durations_from (put t.id (longest + t.timeout_seconds) durations) rest
  | err e ↦ err e
]

-- max(durations.values(), default=0)
unfoldable pub longest_value : List (String × ℕ) → ℕ
longest_value [] = 0
longest_value ((k, n) ∷ rest) = max n (longest_value rest)

unfoldable pub critical_path_timeout : List DelegatedTask → Result PlanFailure ℕ
critical_path_timeout tasks = do durations ← durations_from [] tasks; ok (longest_value durations)

abbrev pub is_deterministic : CompositionMode → Bool
is_deterministic deterministic = true
is_deterministic synthesis_subagent = false

abbrev pub synthesis_tasks : List DelegatedTask → List DelegatedTask
synthesis_tasks tasks = keep (λ t. str_eq t.subagent "synthesis") tasks

-- The checks on the one synthesis task; `tasks[0]` of any other number is not reached.
unfoldable pub check_synthesis_task :
    List DelegatedTask → List DelegatedTask → Result PlanFailure (Unit {0})
check_synthesis_task (s ∷ []) tasks = do
  reject_if (ltb (length s.depends_on) 2) invalid_synthesis
  reject_if (any (λ t. not (str_eq t.id s.id) && contains s.id t.depends_on) tasks)
      invalid_synthesis
check_synthesis_task _ tasks = err (rejected invalid_synthesis)

unfoldable pub validate_synthesis :
    OrchestratorCatalog → OrchestratorDecision → Result PlanFailure (Unit {0})
unfolding check_synthesis_task
validate_synthesis catalog decision =
    if is_deterministic decision.composition
    then reject_if (not (is_empty (synthesis_tasks decision.tasks))) invalid_synthesis
    else do
      reject_if
          (not (length (synthesis_tasks decision.tasks) == 1)
            || not (contains "synthesis" catalog.available_subagents))
          invalid_synthesis
      check_synthesis_task (synthesis_tasks decision.tasks) decision.tasks

module _ (catalog : OrchestratorCatalog) (limits : OrchestratorLimits) where
  unfoldable pub validate_task : List String → DelegatedTask → Result PlanFailure (Unit {0})
  validate_task known_task_ids task = do
    reject_if (not (contains task.subagent catalog.available_subagents)) unknown_subagent
    reject_if (ltb limits.max_task_timeout_seconds task.timeout_seconds) task_timeout_exceeded
    reject_if (not (unique task.depends_on)) duplicate_dependency
    reject_if (contains task.id task.depends_on) self_dependency
    reject_if (any (λ d. not (contains d known_task_ids)) task.depends_on) unknown_dependency
    reject_if (not (unique task.connection_hints)) duplicate_hint
    reject_if (not (unique task.allowed_tool_hints)) duplicate_hint

  unfoldable pub validate_tasks : List String → List DelegatedTask → Result PlanFailure (Unit {0})
  validate_tasks known_task_ids [] = ok tt
  validate_tasks known_task_ids (t ∷ rest) =
      let later = validate_tasks known_task_ids rest in validate_task known_task_ids t >> later

  unfoldable pub validate_direct :
      OrchestratorDecision → Result PlanFailure ValidatedOrchestratorPlan
  validate_direct d = do
    reject_if (is_none d.direct_answer || not (is_none d.skill_name) || not (is_empty d.tasks))
        invalid_mode_payload
    reject_if (not (is_deterministic d.composition)) invalid_composition
    ok (record { decision = d; ordered_tasks = []; critical_path_timeout_seconds = 0 })

  -- decision.skill_name not in active_skills; `none` has been rejected before
  abbrev pub skill_unknown : Option String → Bool
  skill_unknown none = true
  skill_unknown (some name) = not (contains name catalog.active_skills)

  unfoldable pub validate_skill :
      OrchestratorDecision → Result PlanFailure ValidatedOrchestratorPlan
  validate_skill d = do
    reject_if (not (is_none d.direct_answer) || is_none d.skill_name || not (is_empty d.tasks))
        invalid_mode_payload
    reject_if (not (is_deterministic d.composition)) invalid_composition
    reject_if (skill_unknown d.skill_name) unknown_skill
    ok (record { decision = d; ordered_tasks = []; critical_path_timeout_seconds = 0 })

  unfoldable pub validate_delegate :
      OrchestratorDecision → Result PlanFailure ValidatedOrchestratorPlan
  validate_delegate d = do
    reject_if (not (is_none d.direct_answer) || not (is_none d.skill_name) || is_empty d.tasks)
        invalid_mode_payload
    reject_if (ltb limits.max_tasks (length d.tasks)) task_limit_exceeded
    reject_if (not (unique (map task_id d.tasks))) duplicate_task_id
    validate_tasks (map task_id d.tasks) d.tasks
    ordered_tasks ← topological_order d.tasks
    validate_synthesis catalog d
    critical_path ← critical_path_timeout ordered_tasks
    reject_if (ltb limits.run_timeout_seconds critical_path) run_timeout_exceeded
    ok (record {
      decision = d;
      ordered_tasks = ordered_tasks;
      critical_path_timeout_seconds = critical_path;
    })

  abbrev pub dispatch :
      RunMode → OrchestratorDecision → Result PlanFailure ValidatedOrchestratorPlan
  dispatch direct d = validate_direct d
  dispatch skill d = validate_skill d
  dispatch delegate d = validate_delegate d

  unfoldable pub validate : OrchestratorDecision → Result PlanFailure ValidatedOrchestratorPlan
  validate d = dispatch d.mode d
