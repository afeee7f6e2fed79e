-- ===== src/Queue/Tests.antt =====
-- Examples for the run queue.
use pangi.Prelude.{true, false, List, [], ◌∷◌, none, some, if◌then◌else◌, ◌≡◌, refl, inl, inr, ◌⊎◌}
use pangi.Prelude.Int.{pos}
use pangi.Prelude.Results.{ok, err}
use pangi.Text.{DateTime, aware, is_padded}
use pangi.Runs.States.{RunState, same_run_state}
use pangi.Runs.Contracts.{Run, identifier_ok}
use pangi.Queue.Contracts.{queue_policy_init, RunCancellation}
use pangi.Queue.Database.{Database, conflict, by_lease, insert_entry, lease_before}
use pangi.Queue.Store.{enqueue, claim_next, cancel}
use pangi.Queue.Recovering.{recover_leased, recover_expired, abandon_claim}
use pangi.Queue.Service.{
  Command, enqueue_run, claim_run, cancel_run, recover_runs, serve, serve_all,
}
use pangi.Queue.Moves.{AllMoved}
use pangi.Queue.Invariant.{IsQueue}
use pangi.Queue.Exact.{claimed_run, claimed_db, enqueue_exact}
use pangi.Queue.Claiming.{NoneQueued, IsFirst, claim_next-IsFirst}
use pangi.Queue.Cancelled.{Cancelled, cancel_exact}
use pangi.Queue.Recovered.{Recovery, recover_leased-Recovery}
use pangi.Queue.Expiry.{IsRecovered, expired_result, recover_expired-IsRecovered}
use pangi.Queue.Holding.{HoldsClaim, abandon_claim-Recovery}
use pangi.Queue.Served.{IsServed}
use pangi.Queue.Safety.{AreCommands, serve-IsServed, serve_all-IsQueue}
use pangi.Queue.Samples.{worker, policy, queued_entry, running_entry, tables, tables-IsQueue}

-- A claim at 60 takes the queued Run, and the recovery at 60 names both Runs with expired leases.
abbrev calls : List (DateTime × Command)
calls =
    (aware 60, claim_run worker)
    ∷ (aware 60, recover_runs)
    ∷ (aware 61, enqueue_run "run_000000000009" (pos 0))
    ∷ (aware 70, cancel_run "run_000000000001")
    ∷ []

policy_ok : queue_policy_init policy ≡ ok policy
unfolding queue_policy_init
policy_ok = refl

worker_ok : identifier_ok worker ≡ true
unfolding identifier_ok is_padded
worker_ok = refl

calls_ok : AreCommands calls
unfolding identifier_ok is_padded
calls_ok = (tt, refl, (tt, tt, (tt, tt, (tt, tt, tt))))

serve_all-IsQueue_example :
    IsQueue (serve_all policy calls tables)
    × AllMoved tables.runs (serve_all policy calls tables).runs
serve_all-IsQueue_example = serve_all-IsQueue policy calls tables policy_ok calls_ok tables-IsQueue

serve-IsServed_example : IsServed tables (serve policy (aware 60) recover_runs tables)
serve-IsServed_example =
    serve-IsServed policy (aware 60) recover_runs tables policy_ok tt tt tables-IsQueue

claim_next-IsFirst_example :
    (NoneQueued tables × (claim_next worker 60 120 tables ≡ ok (none, tables)))
    ⊎ ((e : _) × IsFirst e tables
        × (claim_next worker 60 120 tables
            ≡ ok (some (claimed_run worker 60 120 e.run), claimed_db worker 60 120 e tables)))
claim_next-IsFirst_example = claim_next-IsFirst worker 60 120 tables tables-IsQueue worker_ok refl

enqueue_exact_example : enqueue "run_000000000001" (pos 1) 60 tables ≡ err conflict
enqueue_exact_example = enqueue_exact queued_entry (pos 1) 60 tables tables-IsQueue (inl refl)

cancel_exact_example :
    ((RunState.running ≡ RunState.cancelled)
      × (cancel "run_000000000002" 40 tables
          ≡ ok (record { run = running_entry.run; changed = false }, tables)))
    ⊎ (((RunState.running ≡ RunState.queued) ⊎ (RunState.running ≡ RunState.running))
        × ((c : RunCancellation) × (db' : Database) × (cancel "run_000000000002" 40 tables
              ≡ ok (c, db'))
            × Cancelled running_entry 40 tables c db'))
    ⊎ ((¬ (
          (RunState.running ≡ RunState.cancelled)
          ⊎ (RunState.running ≡ RunState.queued)
          ⊎ (RunState.running ≡ RunState.running)))
        × (cancel "run_000000000002" 40 tables ≡ err conflict))
cancel_exact_example = cancel_exact running_entry 40 tables tables-IsQueue (inr (inl refl))

recover_leased-Recovery_example :
    (r : Run) × (db' : Database) × (recover_leased running_entry.run 60 tables ≡ ok (r, db'))
    × Recovery running_entry tables r db'
recover_leased-Recovery_example =
    recover_leased-Recovery running_entry 60 tables tables-IsQueue (inr (inl refl)) refl

recover_expired-IsRecovered_example :
    (db' : Database) × (recover_expired 60 tables ≡ ok (expired_result 60 tables, db'))
    × IsRecovered 60 tables db'
recover_expired-IsRecovered_example = recover_expired-IsRecovered 60 tables tables-IsQueue

abandon_claim-Recovery_example :
    ((¬ HoldsClaim worker running_entry.run)
      × (abandon_claim "run_000000000002" worker 60 tables
          ≡ ok (record { requeued_run_ids = []; failed_run_ids = [] }, tables)))
    ⊎ (HoldsClaim worker running_entry.run
        × ((r : Run) × (db' : Database) × (abandon_claim "run_000000000002" worker 60 tables
              ≡ ok (
                (if same_run_state r.state RunState.queued
                    then record { requeued_run_ids = r.id ∷ []; failed_run_ids = [] }
                    else record { requeued_run_ids = []; failed_run_ids = r.id ∷ [] }),
                db',
              ))
            × Recovery running_entry tables r db'))
abandon_claim-Recovery_example =
    abandon_claim-Recovery running_entry worker 60 tables tables-IsQueue (inr (inl refl))

-- The expired leases are those of the running Run, which is queued again, and of the composing
-- one, which fails.
expired_names : expired_result 60 tables ≡ record {
  requeued_run_ids = "run_000000000002" ∷ [];
  failed_run_ids = "run_000000000003" ∷ [];
}
unfolding by_lease insert_entry lease_before
expired_names = refl
