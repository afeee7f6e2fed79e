-- ===== src/Queue/Recovering.antt =====
-- SqliteRunQueueStore: the recovery of leases, by `recover_expired` and `abandon_claim`.
use pangi.Prelude.{
  ℕ, String, Bool, false, ◌&&◌, ◌||◌, not, List, [], ◌∷◌, ◌++◌, none, some, any, str_eq,
  if◌then◌else◌,
}
use pangi.Prelude.Results.{Result, ok, ◌>>=◌}
use pangi.Text.{aware}
use pangi.Runs.States.{RunState, composing, same_run_state}
use pangi.Runs.Contracts.{Run, RunStep, run_init}
use pangi.Runs.Transitions.{transition_run}
use pangi.Queue.Events.{public, admin, internal}
use pangi.Queue.Contracts.{RunRecoveryResult, recovery_init}
use pangi.Queue.Database.{
  RunEntry, Database, QueueError, is_leased, select_run, run_from_row, checked_run,
  persist_transition, append_event, expired_rows,
}
use pangi.Queue.Store.{
  checked_value, released, moved_to, update_steps, is_running_step, is_interrupted_step,
  interrupted_step, failed_step,
}

-- SELECT idempotent FROM run_steps WHERE run_id = ? AND state = 'interrupted', with a 0 among them
unfoldable pub has_non_idempotent_step : String → List RunStep → Bool
has_non_idempotent_step run_id steps =
    any (λ s. str_eq run_id s.run_id && is_interrupted_step s.state && not s.idempotent) steps

-- `_recover_one`, from the interrupted Run on
unfoldable pub settle_interrupted : Run → ℕ → Database → Result QueueError (Run × Database)
settle_interrupted interrupted at db =
    if has_non_idempotent_step interrupted.id db.steps
    then (do
      moved ← checked_run (transition_run interrupted RunState.failed (aware at))
      recovered ←
          checked_run (run_init (record moved { error_code = some "non_idempotent_recovery" }))
      db1 ← persist_transition interrupted recovered (record db {
        steps = update_steps interrupted.id is_interrupted_step (failed_step at) db.steps;
      })
      db2 ← append_event "run.failed" public "Run recovery stopped" recovered at db1
      ok (recovered, db2))
    else (do
      moved ← checked_run (transition_run interrupted RunState.queued (aware at))
      recovered ← checked_run (run_init (record moved { error_code = none }))
      db1 ← persist_transition interrupted recovered db
      db2 ← append_event "run.queued" public "Run requeued after interruption" recovered at db1
      ok (recovered, db2))

unfoldable pub recover_one : Run → ℕ → Database → Result QueueError (Run × Database)
recover_one current at db = do
  moved ← checked_run (transition_run current RunState.interrupted (aware at))
  interrupted ← checked_run (run_init (released moved.error_code moved))
  db1 ← persist_transition current interrupted db
  db2 ←
      append_event "run.interrupted" admin "Run execution interrupted" interrupted at (record db1 {
        steps = update_steps current.id is_running_step (interrupted_step at) db1.steps;
      })
  settle_interrupted interrupted at db2

unfoldable pub fail_composing : Run → ℕ → Database → Result QueueError (Run × Database)
fail_composing current at db = do
  failed ← moved_to RunState.failed at (released (some "composition_interrupted")) current
  db1 ← persist_transition current failed db
  db2 ← append_event "output.failed" internal "Output composition interrupted" failed at db1
  db3 ← append_event "run.failed" public "Run Output interrupted" failed at db2
  ok (failed, db3)

-- The choice that `recover_expired` and `abandon_claim` share.
unfoldable pub recover_leased : Run → ℕ → Database → Result QueueError (Run × Database)
recover_leased current at db =
    if same_run_state current.state composing
    then fail_composing current at db
    else recover_one current at db

-- The result with the recovered Run at its end.
abbrev pub add_recovered : Run → RunRecoveryResult → RunRecoveryResult
add_recovered recovered result =
    if same_run_state recovered.state RunState.queued
    then record result { requeued_run_ids = result.requeued_run_ids ++ recovered.id ∷ [] }
    else record result { failed_run_ids = result.failed_run_ids ++ recovered.id ∷ [] }

-- The loop over the expired rows.
unfoldable pub recover_rows :
    List RunEntry
    → ℕ
    → RunRecoveryResult
    → Database
    → Result QueueError (RunRecoveryResult × Database)
recover_rows [] at result db = ok (result, db)
recover_rows (row ∷ rest) at result db = do
  current ← run_from_row row
  (recovered, db') ← recover_leased current at db
  recover_rows rest at (add_recovered recovered result) db'

abbrev pub no_recovery : RunRecoveryResult
no_recovery = record { requeued_run_ids = []; failed_run_ids = [] }

unfoldable pub recover_expired : ℕ → Database → Result QueueError (RunRecoveryResult × Database)
recover_expired at db = do
  (result, db') ← recover_rows (expired_rows at db.runs) at no_recovery db
  checked ← checked_value (recovery_init result)
  ok (checked, db')

abbrev pub is_owned_by : String → Run → Bool
is_owned_by worker_id r = elim r.worker_id [ none ↦ false | some w ↦ str_eq w worker_id ]

-- `abandon_claim`, when the Run is stored
unfoldable pub abandon_current :
    String → Run → ℕ → Database → Result QueueError (RunRecoveryResult × Database)
abandon_current worker_id current at db =
    if not (is_leased current.state) || not (is_owned_by worker_id current)
    then ok (no_recovery, db)
    else (do
      (recovered, db') ← recover_leased current at db
      ok (add_recovered recovered no_recovery, db'))

unfoldable pub abandon_claim :
    String → String → ℕ → Database → Result QueueError (RunRecoveryResult × Database)
abandon_claim run_id worker_id at db = elim (select_run run_id db.runs) [
  | none ↦ ok (no_recovery, db)
  | some row ↦ (do current ← run_from_row row; abandon_current worker_id current at db)
]
