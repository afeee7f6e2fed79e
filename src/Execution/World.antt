-- ===== src/Execution/World.antt =====
-- The state that one execution of a plan reads and writes, and the actions on it.
-- `steps` holds the latest attempt of every step, in the plan's order, as `_snapshot` of
-- adapters/outbound/persistence/sqlite/orchestration_execution.py reads it; older attempts are
-- never read again. `run` is the run's row.
use pangi.Prelude.{ℕ, String, Bool, true, false, List, [], ◌∷◌, Option}
use pangi.Prelude.Int.{ℤ}
use pangi.Prelude.Results.{Result, ok, err}
use pangi.Text.{DateTime}
use pangi.Runs.States.{RunMode, RunState, RunErrorCode}
use pangi.Orchestration.Contracts.{ValueError, invalid}
use pangi.Runs.Contracts.{step_init}
use pangi.Execution.Contracts.{PreparedExecutionPlan, ExecutionStepSnapshot, snapshot_init}

-- The columns of `runs` that the execution store reads or writes.
pub record RunRow : Type 0 where
  pub state : RunState
  pub mode : Option RunMode
  pub revision : ℤ
  pub worker_id : Option String
  pub lease_expires_at : Option DateTime
  pub heartbeat_at : Option DateTime
  pub warnings : List String
  pub error_code : Option RunErrorCode
  pub updated_at : DateTime
  pub queued_at : Option DateTime
  pub finished_at : Option DateTime

-- `tick` counts the transactions.
pub record World : Type 0 where
  pub tick : ℕ
  pub plan : PreparedExecutionPlan
  pub steps : List ExecutionStepSnapshot
  pub run : RunRow

-- Errors of application/ports/orchestration_execution.py, and Python's own. `redaction_failed` is
-- what the redactor raises, and `out_of_fuel` a loop that runs on.
pub data EngineError : Type 0 where
  plan_conflict : String → EngineError
  plan_not_found : String → EngineError
  ownership_lost : EngineError
  persistence : String → EngineError
  value_error : ValueError → EngineError
  key_error : String → EngineError
  redaction_failed : EngineError
  out_of_fuel : EngineError

-- An action that may raise. What it wrote before it raised is not kept in the model.
abbrev pub Exec : Type 0 → Type 0
Exec A = World → Result EngineError (A × World)

abbrev pub pure : {A : Type 0} → A → Exec A
pure a w = ok (a, w)

abbrev pub raise : {A : Type 0} → EngineError → Exec A
raise e w = err e

abbrev pub lift : {A : Type 0} → Result EngineError A → Exec A
lift (ok a) w = ok (a, w)
lift (err e) w = err e

infixl 5 ◌>>=◌ ◌>>◌
abbrev pub ◌>>=◌ : {A B : Type 0} → Exec A → (A → Exec B) → Exec B
◌>>=◌ m f w = elim (m w) [ ok (a, w') ↦ f a w' | err e ↦ err e ]

abbrev pub ◌>>◌ : {A B : Type 0} → Exec A → Exec B → Exec B
m >> k = m >>= λ _. k

abbrev pub raise_if : Bool → EngineError → Exec (Unit {0})
raise_if true e w = err e
raise_if false e w = ok (tt, w)

-- A constructor of the contracts; inside a transaction its ValueError becomes a persistence error.
abbrev pub checked : {A : Type 0} → Result ValueError A → Exec A
checked (ok a) w = ok (a, w)
checked (err e) w = err (value_error e)

abbrev pub stored : {A : Type 0} → Result ValueError A → Exec A
stored (ok a) w = ok (a, w)
stored (err e) w = err (persistence "invalid row")

-- `_step_from_row`: the RunStep's constructor, then the snapshot's.
unfoldable pub step_from_row : ExecutionStepSnapshot → Result ValueError ExecutionStepSnapshot
step_from_row s = elim (step_init s.step) [
  | err e ↦ err (invalid "RunStep")
  | ok step ↦ snapshot_init (record s { step = step })
]

-- for a in items: action(a), with the list of the results
unfoldable pub each : {A B : Type 0} → (A → Exec B) → List A → Exec (List B)
each action [] = pure []
each action (a ∷ rest) = do b ← action a; bs ← each action rest; pure (b ∷ bs)
