-- ===== src/Runs/States.antt =====
-- domain/runs.py: the enumerations, and the transition tables of Runs and Run Steps.
use pangi.Prelude.{Bool, true, false, ℕ, List, [], ◌∷◌, ◌==◌, any, ◌≡◌, ◌↔◌, arith}

pub data PrincipalChannel : Type 0 where
  slack api dashboard scheduler eval : PrincipalChannel

pub data RunMode : Type 0 where
  direct delegate skill : RunMode

pub data RunState : Type 0 where
  received blocked planning queued running composing completed failed cancelled interrupted :
      RunState

pub data StepState : Type 0 where
  queued running completed failed cancelled interrupted : StepState

pub data StepRequirement : Type 0 where
  required optional : StepRequirement

pub data RunErrorCode : Type 0 where
  invalid_run_state_transition invalid_step_state_transition required_step_failed
        optional_step_failed non_idempotent_recovery composition_interrupted :
      RunErrorCode

-- The position of a member in its enumeration: `is` on two members compares it.
abbrev pub run_state_index : RunState → ℕ
run_state_index received = 0
run_state_index blocked = 1
run_state_index planning = 2
run_state_index RunState.queued = 3
run_state_index RunState.running = 4
run_state_index composing = 5
run_state_index RunState.completed = 6
run_state_index RunState.failed = 7
run_state_index RunState.cancelled = 8
run_state_index RunState.interrupted = 9

abbrev pub step_state_index : StepState → ℕ
step_state_index StepState.queued = 0
step_state_index StepState.running = 1
step_state_index StepState.completed = 2
step_state_index StepState.failed = 3
step_state_index StepState.cancelled = 4
step_state_index StepState.interrupted = 5

abbrev pub same_run_state : RunState → RunState → Bool
same_run_state a b = run_state_index a == run_state_index b

abbrev pub same_step_state : StepState → StepState → Bool
same_step_state a b = step_state_index a == step_state_index b

pub same_run_state_iff : (a b : RunState) → (same_run_state a b ≡ true) ↔ (a ≡ b)
same_run_state_iff a b = ground arith

pub same_step_state_iff : (a b : StepState) → (same_step_state a b ≡ true) ↔ (a ≡ b)
same_step_state_iff a b = ground arith

unfoldable pub allowed_run_transitions : RunState → List RunState
allowed_run_transitions received = blocked ∷ planning ∷ RunState.queued ∷ []
allowed_run_transitions blocked = RunState.completed ∷ []
allowed_run_transitions planning = RunState.queued ∷ RunState.failed ∷ []
allowed_run_transitions RunState.queued = RunState.running ∷ RunState.cancelled ∷ []
allowed_run_transitions RunState.running =
    composing ∷ RunState.failed ∷ RunState.cancelled ∷ RunState.interrupted ∷ []
allowed_run_transitions RunState.interrupted = RunState.queued ∷ RunState.failed ∷ []
allowed_run_transitions composing = RunState.completed ∷ RunState.failed ∷ []
allowed_run_transitions RunState.completed = []
allowed_run_transitions RunState.failed = []
allowed_run_transitions RunState.cancelled = []

unfoldable pub allowed_step_transitions : StepState → List StepState
allowed_step_transitions StepState.queued = StepState.running ∷ StepState.cancelled ∷ []
allowed_step_transitions StepState.running =
    StepState.completed ∷ StepState.failed ∷ StepState.cancelled ∷ StepState.interrupted ∷ []
allowed_step_transitions StepState.interrupted = StepState.queued ∷ StepState.failed ∷ []
allowed_step_transitions StepState.completed = []
allowed_step_transitions StepState.failed = []
allowed_step_transitions StepState.cancelled = []

-- target in allowed_run_transitions(state)
unfoldable pub run_transition_allowed : RunState → RunState → Bool
unfolding allowed_run_transitions
run_transition_allowed state target = any (same_run_state target) (allowed_run_transitions state)

unfoldable pub step_transition_allowed : StepState → StepState → Bool
unfolding allowed_step_transitions
step_transition_allowed state target = any (same_step_state target) (allowed_step_transitions state)

-- state in {COMPLETED, FAILED, CANCELLED}
unfoldable pub is_terminal_run : RunState → Bool
is_terminal_run RunState.completed = true
is_terminal_run RunState.failed = true
is_terminal_run RunState.cancelled = true
is_terminal_run _ = false

unfoldable pub is_terminal_step : StepState → Bool
is_terminal_step StepState.completed = true
is_terminal_step StepState.failed = true
is_terminal_step StepState.cancelled = true
is_terminal_step _ = false

abbrev pub is_required : StepRequirement → Bool
is_required required = true
is_required optional = false
