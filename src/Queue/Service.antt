-- ===== src/Queue/Service.antt =====
-- application/services/run_queue.py: RunQueueService. The value of the clock is an argument of each
-- call. A lease duration is in the unit of the instants.
use pangi.Prelude.{
  ℕ, ◌+◌, String, Bool, false, ◌&&◌, not, List, [], ◌∷◌, Option, none, some, all, leb, length,
}
use pangi.Prelude.Int.{ℤ}
use pangi.Prelude.Results.{Result, ok, err, ◌>>=◌, ◌>>◌, raise_if}
use pangi.Text.{DateTime, naive, aware, codes, is_lower}
use pangi.Runs.Contracts.{Run}
use pangi.Orchestration.Contracts.{invalid}
use pangi.Queue.Contracts.{RunQueuePolicy, RunCancellation, RunRecoveryResult}
use pangi.Queue.Events.{is_word}
use pangi.Queue.Database.{Database, QueueError, value_error, runtime_error}
use pangi.Queue.Store.{enqueue, claim_next, heartbeat, cancel}
use pangi.Queue.Recovering.{recover_expired, abandon_claim}

-- The calls of the service, with the claims as their Runs.
pub data Command : Type 0 where
  enqueue_run : String → ℤ → Command
  claim_run : String → Command
  renew_claim : Run → Command
  cancel_run : String → Command
  recover_runs : Command
  give_up_claim : Run → String → Command

pub data Response : Type 0 where
  queued : Run → Response
  claimed : Option Run → Response
  renewal : Bool → Response
  cancellation : RunCancellation → Response
  recovery : RunRecoveryResult → Response

-- `_now`
unfoldable pub now : DateTime → Result QueueError ℕ
now (naive t) = err (value_error (invalid "queue clock"))
now (aware t) = ok t

-- RunClaim.worker_id
unfoldable pub claim_worker : Run → Result QueueError String
claim_worker r = elim r.worker_id [
  | none ↦ err (runtime_error "Run claim worker is unavailable")
  | some w ↦ ok w
]

-- ^[a-z][a-z0-9_]{0,119}$
abbrev reason_codes_ok : List ℕ → Bool
reason_codes_ok [] = false
reason_codes_ok (c ∷ rest) = is_lower c && all is_word rest && leb (length rest) 119

unfoldable pub reason_ok : String → Bool
reason_ok reason = reason_codes_ok (codes reason)

unfoldable pub serve :
    RunQueuePolicy → DateTime → Command → Database → Result QueueError (Response × Database)
serve policy clock (enqueue_run run_id expected_revision) db = do
  at ← now clock
  (run, db') ← enqueue run_id expected_revision at db
  ok (queued run, db')
serve policy clock (claim_run worker_id) db = do
  at ← now clock
  (claim, db') ← claim_next worker_id at (at + policy.lease_duration) db
  ok (claimed claim, db')
serve policy clock (renew_claim claim) db = do
  at ← now clock
  worker_id ← claim_worker claim
  (renewed, db') ← heartbeat claim.id worker_id at (at + policy.lease_duration) db
  ok (renewal renewed, db')
serve policy clock (cancel_run run_id) db = do
  at ← now clock
  (result, db') ← cancel run_id at db
  ok (cancellation result, db')
serve policy clock recover_runs db = do
  at ← now clock
  (result, db') ← recover_expired at db
  ok (recovery result, db')
serve policy clock (give_up_claim claim reason) db = do
  raise_if (not (reason_ok reason)) (value_error (invalid "queue recovery reason"))
  worker_id ← claim_worker claim
  at ← now clock
  (result, db') ← abandon_claim claim.id worker_id at db
  ok (recovery result, db')

-- The tables after a transaction: those before it, when it raises.
abbrev pub committed : {A : Type 0} → Result QueueError (A × Database) → Database → Database
committed (ok (a, db')) db = db'
committed (err e) db = db

-- Calls one after the other, each at its own time.
unfoldable pub serve_all : RunQueuePolicy → List (DateTime × Command) → Database → Database
serve_all policy [] db = db
serve_all policy ((clock, command) ∷ rest) db =
    serve_all policy rest (committed (serve policy clock command db) db)
