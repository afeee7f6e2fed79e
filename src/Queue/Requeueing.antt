-- ===== src/Queue/Requeueing.antt =====
-- The second half of `_recover_one`: an interrupted Run is queued again, or fails when a step of
-- it may not run twice.
use pangi.Prelude.{ℕ, String, true, false, Option, none, some, ◌≡◌, refl, arith, ◌∙◌}
use pangi.Prelude.Distinct.{In}
use pangi.Prelude.Results.{ok}
use pangi.Text.{aware, is_blank}
use pangi.Runs.States.{RunState, run_transition_allowed}
use pangi.Runs.Contracts.{Run, bounded_text_ok, validate_bounded_text, when_present}
use pangi.Runs.Transitions.{moved_run, transition_run}
use pangi.Runs.Validity.{IsRun, run_init-IsRun, transition_run_exact}
use pangi.Queue.Events.{public, event_type_ok}
use pangi.Queue.Database.{RunEntry, Database, is_leased, put_run}
use pangi.Queue.Store.{update_steps, is_interrupted_step, failed_step}
use pangi.Queue.Recovering.{has_non_idempotent_step, settle_interrupted}
use pangi.Queue.Invariant.{IsEntry, IsQueue, put, put-IsQueue}
use pangi.Queue.Writes.{
  logged, persist_transition-put, append_event-logged, logged-IsQueue, moved-IsRun,
}

-- replace(transition_run(run, target, at), error_code=error)
abbrev pub settled_to : RunState → Option String → ℕ → Run → Run
settled_to target error at r = record (moved_run r target (aware at)) { error_code = error }

settled_to-IsRun :
    (target : RunState) (error : Option String) (at : ℕ) (r : Run)
    → when_present error (λ v. validate_bounded_text v "run error_code" 120) ≡ ok tt
    → IsRun r
    → IsRun (settled_to target error at r)
settled_to-IsRun target error at r text h =
    let m = moved-IsRun r target at h in
    record {
      id = m.id;
      revision = m.revision;
      finished = m.finished;
      skill = m.skill;
      worker = m.worker;
      warnings = m.warnings;
      error_code = text;
      updated = m.updated;
      lease = m.lease;
      heartbeat = m.heartbeat;
      started = m.started;
      ended = m.ended;
    }

settled_to-IsEntry :
    (e : RunEntry) (target : RunState) (error : Option String) (at : ℕ)
    → IsEntry e
    → is_leased e.run.state ≡ false
    → is_leased target ≡ false
    → when_present error (λ v. validate_bounded_text v "run error_code" 120) ≡ ok tt
    → IsEntry (put_run (settled_to target error at e.run) e)
settled_to-IsEntry e target error at h free free' text = record {
  request = h.request;
  run = settled_to-IsRun target error at e.run text h.run;
  worker = ground (arith, h.worker);
  lease = ground (arith, h.lease);
  heartbeat = ground (arith, h.heartbeat);
  queue_time = ground arith;
}

abbrev pub stopped_run : ℕ → Run → Run
stopped_run = settled_to RunState.failed (some "non_idempotent_recovery")

abbrev pub requeued_run : ℕ → Run → Run
requeued_run = settled_to RunState.queued none

stopped_text :
    when_present
      (some "non_idempotent_recovery")
      (λ v. validate_bounded_text v "run error_code" 120)
    ≡ ok tt
unfolding validate_bounded_text bounded_text_ok is_blank
stopped_text = refl

transition_interrupted :
    (target : RunState) (at : ℕ) (r : Run)
    → IsRun r
    → run_transition_allowed RunState.interrupted target ≡ true
    → r.state ≡ RunState.interrupted
    → transition_run r target (aware at) ≡ ok (moved_run r target (aware at))
transition_interrupted target at r h allowed c =
    (transition_run_exact {r = r} target (aware at) (run_init-IsRun h) tt).0
    ∙ (rw (c, allowed) refl)

-- The tables with the interrupted steps of a Run failed.
abbrev steps_failed : Run → ℕ → Database → Database
steps_failed r at db = record db {
  steps = update_steps r.id is_interrupted_step (failed_step at) db.steps;
}

abbrev pub stopped_db : ℕ → RunEntry → Database → Database
stopped_db at e db =
    let stopped = stopped_run at e.run in
    logged "run.failed" public "Run recovery stopped" stopped at
      (put e (put_run stopped e) (steps_failed e.run at db))

abbrev pub requeued_db : ℕ → RunEntry → Database → Database
requeued_db at e db =
    let requeued = requeued_run at e.run in
    logged "run.queued" public "Run requeued after interruption" requeued at
      (put e (put_run requeued e) db)

steps_failed-IsQueue :
    (r : Run) (at : ℕ) (db : Database) → IsQueue db → IsQueue (steps_failed r at db)
steps_failed-IsQueue r at db q = record {
  distinct = q.distinct;
  entries = q.entries;
  numbered = q.numbered;
}

pub settle_interrupted-stops :
    (e : RunEntry) (at : ℕ) (db : Database)
    → IsQueue db
    → In e db.runs
    → e.run.state ≡ RunState.interrupted
    → has_non_idempotent_step e.run.id db.steps ≡ true
    → settle_interrupted e.run at db ≡ ok (stopped_run at e.run, stopped_db at e db)
unfolding settle_interrupted run_transition_allowed event_type_ok bounded_text_ok is_blank
settle_interrupted-stops e at db q i c n =
    let h = (q.entries e i).run in
    let stopped = stopped_run at e.run in
    let good = settled_to-IsRun RunState.failed _ at e.run stopped_text h in
    let db1 = steps_failed e.run at db in
    rw
      (
        n,
        transition_interrupted RunState.failed at e.run h refl c,
        run_init-IsRun good,
        persist_transition-put e stopped db1 (steps_failed-IsQueue e.run at db q) i,
        append_event-logged "run.failed" public "Run recovery stopped" stopped at
            (put e (put_run stopped e) db1) refl refl good,
      )
      refl

pub settle_interrupted-requeues :
    (e : RunEntry) (at : ℕ) (db : Database)
    → IsQueue db
    → In e db.runs
    → e.run.state ≡ RunState.interrupted
    → has_non_idempotent_step e.run.id db.steps ≡ false
    → settle_interrupted e.run at db ≡ ok (requeued_run at e.run, requeued_db at e db)
unfolding settle_interrupted run_transition_allowed event_type_ok bounded_text_ok is_blank
settle_interrupted-requeues e at db q i c n =
    let h = (q.entries e i).run in
    let requeued = requeued_run at e.run in
    let good = settled_to-IsRun RunState.queued none at e.run refl h in
    rw
      (
        n,
        transition_interrupted RunState.queued at e.run h refl c,
        run_init-IsRun good,
        persist_transition-put e requeued db q i,
        append_event-logged "run.queued" public "Run requeued after interruption" requeued at
            (put e (put_run requeued e) db) refl refl good,
      )
      refl

pub stopped_db-IsQueue :
    (e : RunEntry) (at : ℕ) (db : Database)
    → IsQueue db
    → In e db.runs
    → is_leased e.run.state ≡ false
    → IsQueue (stopped_db at e db)
stopped_db-IsQueue e at db q i free =
    let stopped = stopped_run at e.run in
    let db1 = steps_failed e.run at db in
    logged-IsQueue "run.failed" public "Run recovery stopped" stopped at
      (put e (put_run stopped e) db1)
      (put-IsQueue e (put_run stopped e) db1 (steps_failed-IsQueue e.run at db q) refl
        (settled_to-IsEntry e RunState.failed _ at (q.entries e i) free refl stopped_text))

pub requeued_db-IsQueue :
    (e : RunEntry) (at : ℕ) (db : Database)
    → IsQueue db
    → In e db.runs
    → is_leased e.run.state ≡ false
    → IsQueue (requeued_db at e db)
requeued_db-IsQueue e at db q i free =
    let requeued = requeued_run at e.run in
    logged-IsQueue "run.queued" public "Run requeued after interruption" requeued at
      (put e (put_run requeued e) db)
      (put-IsQueue e (put_run requeued e) db q refl
        (settled_to-IsEntry e RunState.queued none at (q.entries e i) free refl refl))
