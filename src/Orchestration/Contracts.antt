-- ===== src/Orchestration/Contracts.antt =====
-- application/contracts/orchestration.py: tasks, decisions, agent results, catalog and limits, with
-- the checks of their constructors. A negative `int` is not represented where the constructor
-- asks for at least 1.
use pangi.Prelude.{
  ℕ, String, Bool, true, false, ◌&&◌, ◌||◌, not, List, [], ◌∷◌, Option, none, some, length, all,
  ltb, leb, ◌==◌,
}
use pangi.Prelude.Results.{Result, ok, ◌>>◌, raise_if}
use pangi.Orchestration.Facts.{Fields, object, value_ok}
use pangi.Text.{codes, len, is_blank, is_alnum}
use pangi.Runs.States.{RunMode}

abbrev pub hard_max_tasks : ℕ
hard_max_tasks = 5

abbrev pub hard_max_task_timeout_seconds : ℕ
hard_max_task_timeout_seconds = 180

abbrev pub hard_max_run_timeout_seconds : ℕ
hard_max_run_timeout_seconds = 600

abbrev pub hard_max_connection_hints : ℕ
hard_max_connection_hints = 20

abbrev pub hard_max_tool_hints : ℕ
hard_max_tool_hints = 50

pub data CompositionMode : Type 0 where
  deterministic synthesis_subagent : CompositionMode

pub data EvidenceSourceType : Type 0 where
  mcp memory user_input computed : EvidenceSourceType

pub data AgentResultStatus : Type 0 where
  succeeded partial failed : AgentResultStatus

-- A `ValueError` keeps the name of the field that its message begins with.
pub data ValueError : Type 0 where
  invalid : String → ValueError

abbrev pub Checked : Type 0
Checked = Result ValueError (Unit {0})

abbrev pub when_present {ℓ} : {A : Type ℓ} → Option A → (A → Checked) → Checked
when_present none check = ok tt
when_present (some a) check = check a

unfoldable pub check_each {ℓ} : {A : Type ℓ} → List A → (A → Checked) → Checked
check_each [] check = ok tt
check_each (a ∷ rest) check = let later = check_each rest check in check a >> later

-- [A-Za-z0-9._:-]
abbrev is_identifier_char : ℕ → Bool
is_identifier_char c = is_alnum c || c == b'.' || c == b'_' || c == b':' || c == b'-'

abbrev stable_codes : List ℕ → Bool
stable_codes [] = false
stable_codes (c ∷ rest) = is_alnum c && all is_identifier_char rest && leb (length rest) 119

-- ^[A-Za-z0-9][A-Za-z0-9._:-]{0,119}$
unfoldable pub stable_identifier : String → Bool
stable_identifier s = stable_codes (codes s)

unfoldable pub validate_identifier : String → String → Checked
unfolding stable_identifier
validate_identifier value field_name = raise_if (not (stable_identifier value)) (invalid field_name)

unfoldable pub validate_identifier_tuple : List String → String → ℕ → Checked
unfolding validate_identifier check_each
validate_identifier_tuple value field_name maximum = do
  raise_if (ltb maximum (length value)) (invalid field_name)
  check_each value (λ item. validate_identifier item field_name)

unfoldable pub validate_text : String → String → ℕ → Checked
validate_text value field_name limit =
    raise_if (is_blank value || ltb limit (len value)) (invalid field_name)

unfoldable pub validate_integer_range : ℕ → String → ℕ → ℕ → Checked
validate_integer_range value field_name minimum maximum =
    raise_if (not (leb minimum value && leb value maximum)) (invalid field_name)

pub record DelegatedTask : Type 0 where
  pub id : String
  pub subagent : String
  pub objective : String
  pub depends_on : List String
  pub connection_hints : List String
  pub allowed_tool_hints : List String
  pub timeout_seconds : ℕ

unfoldable pub task_init : DelegatedTask → Result ValueError DelegatedTask
unfolding validate_identifier validate_text validate_identifier_tuple validate_integer_range
task_init t = do
  validate_identifier t.id "task id"
  validate_identifier t.subagent "subagent"
  validate_text t.objective "task objective" 10_000
  validate_identifier_tuple t.depends_on "task dependencies" hard_max_tasks
  validate_identifier_tuple t.connection_hints "connection hints" hard_max_connection_hints
  validate_identifier_tuple t.allowed_tool_hints "allowed tool hints" hard_max_tool_hints
  validate_integer_range t.timeout_seconds "task timeout_seconds" 1 hard_max_task_timeout_seconds
  ok t

pub record OrchestratorDecision : Type 0 where
  pub mode : RunMode
  pub direct_answer : Option String
  pub skill_name : Option String
  pub tasks : List DelegatedTask
  pub composition : CompositionMode
  pub user_message : Option String

unfoldable pub decision_init : OrchestratorDecision → Result ValueError OrchestratorDecision
unfolding validate_identifier validate_text
decision_init d = do
  when_present d.direct_answer (λ v. validate_text v "direct_answer" 100_000)
  when_present d.skill_name (λ v. validate_identifier v "skill_name")
  when_present d.user_message (λ v. validate_text v "user_message" 2_000)
  ok d

pub record Evidence : Type 0 where
  pub source_type : EvidenceSourceType
  pub source_name : String
  pub title : String
  pub uri : Option String
  pub excerpt : Option String

unfoldable pub evidence_init : Evidence → Result ValueError Evidence
unfolding validate_identifier validate_text
evidence_init e = do
  validate_identifier e.source_name "evidence source_name"
  validate_text e.title "evidence title" 512
  when_present e.uri (λ v. validate_text v "evidence uri" 2_048)
  when_present e.excerpt (λ v. validate_text v "evidence excerpt" 4_000)
  ok e

pub record AgentResult : Type 0 where
  pub task_id : String
  pub status : AgentResultStatus
  pub summary_markdown : String
  pub evidence : List Evidence
  pub facts : List Fields
  pub warnings : List String
  pub error_code : Option String

abbrev pub is_failed : AgentResultStatus → Bool
is_failed failed = true
is_failed _ = false

abbrev pub is_succeeded : AgentResultStatus → Bool
is_succeeded succeeded = true
is_succeeded _ = false

abbrev pub is_partial : AgentResultStatus → Bool
is_partial partial = true
is_partial _ = false

abbrev pub is_none {ℓ} : {A : Type ℓ} → Option A → Bool
is_none none = true
is_none (some a) = false

unfoldable pub agent_result_init : AgentResult → Result ValueError AgentResult
unfolding validate_identifier validate_text check_each
agent_result_init r = do
  validate_identifier r.task_id "result task_id"
  validate_text r.summary_markdown "result summary_markdown" 100_000
  raise_if (ltb 100 (length r.evidence)) (invalid "evidence")
  raise_if (ltb 100 (length r.facts)) (invalid "facts")
  raise_if (not (all (λ f. value_ok (object f)) r.facts)) (invalid "facts")
  raise_if (ltb 100 (length r.warnings)) (invalid "warnings")
  check_each r.warnings (λ w. validate_text w "result warning" 2_000)
  when_present r.error_code (λ v. validate_identifier v "result error_code")
  raise_if (is_failed r.status && is_none r.error_code)
      (invalid "a failed AgentResult requires error_code")
  raise_if (is_succeeded r.status && not (is_none r.error_code))
      (invalid "a succeeded AgentResult cannot contain error_code")
  ok r

-- Frozen sets of stable identifiers.
pub record OrchestratorCatalog : Type 0 where
  pub available_subagents : List String
  pub active_skills : List String

pub record OrchestratorLimits : Type 0 where
  pub max_tasks : ℕ
  pub max_task_timeout_seconds : ℕ
  pub run_timeout_seconds : ℕ

abbrev pub default_limits : OrchestratorLimits
default_limits = record {
  max_tasks = 3;
  max_task_timeout_seconds = hard_max_task_timeout_seconds;
  run_timeout_seconds = 180;
}

unfoldable pub limits_init : OrchestratorLimits → Result ValueError OrchestratorLimits
unfolding validate_integer_range
limits_init l = do
  validate_integer_range l.max_tasks "max_tasks" 1 hard_max_tasks
  validate_integer_range l.max_task_timeout_seconds "max_task_timeout_seconds" 1
      hard_max_task_timeout_seconds
  validate_integer_range l.run_timeout_seconds "run_timeout_seconds" 1 hard_max_run_timeout_seconds
  ok l

pub record ValidatedOrchestratorPlan : Type 0 where
  pub decision : OrchestratorDecision
  pub ordered_tasks : List DelegatedTask
  pub critical_path_timeout_seconds : ℕ
