-- ===== src/Codec/RoundTrip.antt =====
-- What is written is read back.
use pangi.Prelude.{String, List, [], ◌∷◌, Option, none, some, ◌≡◌, refl, All}
use pangi.Prelude.Results.{Result, ok}
use pangi.Prelude.Sets.{subset, contains}
use pangi.Runs.States.{RunMode, direct, delegate, skill, StepRequirement, required, optional}
use pangi.Orchestration.Contracts.{CompositionMode, deterministic, synthesis_subagent, task_init}
use pangi.Execution.Contracts.{PreparedExecutionStep, PreparedExecutionPlan, plan_init}
use pangi.Orchestration.Facts.{Json, text, array}
use pangi.Codec.Json.{
  DataError, get, exact_keys, string, string_tuple, texts, as_texts, as_optional_text, read_all,
  write_all, optional_text,
}
use pangi.Codec.Plans.{
  mode_value, mode_of, composition_value, composition_of, requirement_value, requirement_of,
  step_data, plan_data, read_task, check_version, step_from_data, plan_from_data,
}

mode_of-value : (m : RunMode) → mode_of (mode_value m) ≡ ok m
mode_of-value direct = refl
mode_of-value delegate = refl
mode_of-value skill = refl

composition_of-value : (c : CompositionMode) → composition_of (composition_value c) ≡ ok c
composition_of-value deterministic = refl
composition_of-value synthesis_subagent = refl

requirement_of-value : (r : StepRequirement) → requirement_of (requirement_value r) ≡ ok r
requirement_of-value required = refl
requirement_of-value optional = refl

texts-write_all : (ss : List String) → texts (write_all text ss) ≡ some ss
unfolding texts
texts-write_all [] = refl
texts-write_all (s ∷ ss) = rw (texts-write_all ss) refl

pub as_texts-write :
    (ss : List String) (what : String) → as_texts (array (write_all text ss)) what ≡ ok ss
unfolding as_texts
as_texts-write ss what = rw (as_texts, texts-write_all ss) refl

pub as_optional_text-write :
    (o : Option String) (what : String) → as_optional_text (optional_text o) what ≡ ok o
as_optional_text-write none what = refl
as_optional_text-write (some s) what = refl

pub read_all-write_all :
    {A : Type 0} (write : A → Json) (read : Json → Result DataError A) (xs : List A)
    → All (λ a. read (write a) ≡ ok a) xs
    → read_all read (write_all write xs) ≡ ok xs
unfolding read_all
read_all-write_all write read [] h = refl
read_all-write_all write read (x ∷ xs) h = rw (h.0, read_all-write_all write read xs h.1) refl

-- A step whose task its constructor accepts.
step_from_data-step_data :
    (s : PreparedExecutionStep) → task_init s.task ≡ ok s.task → step_from_data (step_data s) ≡ ok s
unfolding step_from_data read_task step_data exact_keys subset contains get string string_tuple
step_from_data-step_data s h =
    rw
      (
        as_texts-write s.task.depends_on "depends_on",
        as_texts-write s.task.connection_hints "connection_hints",
        as_texts-write s.task.allowed_tool_hints "allowed_tool_hints",
        h,
        requirement_of-value s.requirement,
      )
      refl

steps_back :
    (steps : List PreparedExecutionStep)
    → All (λ s. task_init s.task ≡ ok s.task) steps
    → All (λ s. step_from_data (step_data s) ≡ ok s) steps
steps_back [] h = tt
steps_back (s ∷ rest) h = (step_from_data-step_data s h.0, steps_back rest h.1)

-- A prepared plan that its constructors accept is read back from its encoding.
pub plan_from_data-plan_data :
    (p : PreparedExecutionPlan)
    → plan_init p ≡ ok p
    → All (λ s. task_init s.task ≡ ok s.task) p.steps
    → plan_from_data (plan_data p) ≡ ok p
unfolding plan_from_data check_version plan_data exact_keys subset contains get string
plan_from_data-plan_data p h tasks =
    rw
      (
        as_optional_text-write p.direct_answer "direct_answer",
        mode_of-value p.mode,
        composition_of-value p.composition,
        read_all-write_all step_data step_from_data p.steps (steps_back p.steps tasks),
        h,
      )
      refl
