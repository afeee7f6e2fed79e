-- ===== src/Queue/Contracts.antt =====
-- application/contracts/run_queue.py: the queue's policy and results, with their constructors'
-- checks. Durations are whole microseconds.
use pangi.Prelude.{ℕ, ◌+◌, String, Bool, ◌&&◌, ◌||◌, not, List, any, length, leb, ltb}
use pangi.Prelude.Results.{Result, ok, ◌>>◌, raise_if}
use pangi.Prelude.Sets.{contains}
use pangi.Runs.States.{RunState, same_run_state}
use pangi.Runs.Contracts.{Run, is_none}
use pangi.Orchestration.Contracts.{ValueError, invalid}

pub record RunQueuePolicy : Type 0 where
  pub max_concurrent_runs : ℕ
  pub lease_duration : ℕ
  pub heartbeat_interval : ℕ

-- A negative duration is not represented; the constructor asks for a positive one.
unfoldable pub queue_policy_init : RunQueuePolicy → Result ValueError RunQueuePolicy
queue_policy_init p = do
  raise_if (not (leb 1 p.max_concurrent_runs && leb p.max_concurrent_runs 64))
      (invalid "max_concurrent_runs")
  raise_if (not (ltb 0 p.lease_duration)) (invalid "lease_duration")
  raise_if (not (ltb 0 p.heartbeat_interval)) (invalid "heartbeat_interval")
  raise_if (not (ltb p.heartbeat_interval p.lease_duration)) (invalid "heartbeat_interval")
  ok p

-- A claim is the Run, in the state RUNNING and with an owner.
unfoldable pub claim_init : Run → Result ValueError Run
claim_init r = do
  raise_if (not (same_run_state r.state RunState.running)) (invalid "a Run claim")
  raise_if (is_none r.worker_id || is_none r.lease_expires_at || is_none r.heartbeat_at)
      (invalid "a Run claim")
  ok r

pub record RunCancellation : Type 0 where
  pub run : Run
  pub changed : Bool

unfoldable pub cancellation_init : RunCancellation → Result ValueError RunCancellation
cancellation_init c = do
  raise_if (not (same_run_state c.run.state RunState.cancelled)) (invalid "a cancellation result")
  ok c

pub record RunRecoveryResult : Type 0 where
  pub requeued_run_ids : List String
  pub failed_run_ids : List String

unfoldable pub recovery_init : RunRecoveryResult → Result ValueError RunRecoveryResult
recovery_init r = do
  raise_if (any (λ id. contains id r.failed_run_ids) r.requeued_run_ids) (invalid "a recovered Run")
  ok r

abbrev pub changed_count : RunRecoveryResult → ℕ
changed_count r = length r.requeued_run_ids + length r.failed_run_ids
