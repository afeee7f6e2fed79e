-- ===== src/Queue/Cancelling.antt =====
-- `cancel` in a well-formed queue.
use pangi.Prelude.{ℕ, true, false, ◌≡◌, refl, arith, if◌then◌else◌}
use pangi.Prelude.Distinct.{In}
use pangi.Prelude.Results.{ok, err}
use pangi.Text.{aware, is_blank}
use pangi.Runs.States.{RunState, same_run_state, run_transition_allowed}
use pangi.Runs.Contracts.{Run, bounded_text_ok}
use pangi.Runs.Transitions.{moved_run, transition_run}
use pangi.Runs.Validity.{IsRun, run_init-IsRun, transition_run_exact}
use pangi.Queue.Events.{public, event_type_ok}
use pangi.Queue.Contracts.{cancellation_init}
use pangi.Queue.Database.{RunEntry, Database, conflict, put_run}
use pangi.Queue.Store.{
  released, can_cancel, cancel_current, cancel, update_steps, is_open_step, cancelled_step,
}
use pangi.Queue.Invariant.{IsQueue, put, put-IsQueue, IsEntry-run_from_row}
use pangi.Queue.Writes.{
  logged, persist_transition-put, append_event-logged, logged-IsQueue, select_run-In, moved-IsRun,
  released-IsRun,
}
use pangi.Queue.Exact.{released-IsEntry}

abbrev pub cancelled_run : ℕ → Run → Run
cancelled_run at r = released r.error_code (moved_run r RunState.cancelled (aware at))

cancelled_run-IsRun : (at : ℕ) (r : Run) → IsRun r → IsRun (cancelled_run at r)
cancelled_run-IsRun at r h =
    released-IsRun r.error_code _ h.error_code (moved-IsRun r RunState.cancelled at h)

-- The tables with the open steps of a Run cancelled.
abbrev steps_cancelled : Run → ℕ → Database → Database
steps_cancelled r at db = record db {
  steps = update_steps r.id is_open_step (cancelled_step at) db.steps;
}

abbrev pub cancelled_db : ℕ → RunEntry → Database → Database
cancelled_db at e db =
    logged "run.cancelled" public "Run cancelled" (cancelled_run at e.run) at
      (steps_cancelled e.run at (put e (put_run (cancelled_run at e.run) e) db))

transition_cancelled :
    (at : ℕ) (r : Run)
    → IsRun r
    → can_cancel r.state ≡ true
    → transition_run r RunState.cancelled (aware at)
      ≡ ok (moved_run r RunState.cancelled (aware at))
unfolding run_transition_allowed
transition_cancelled at r h c =
    ground
      (arith, (transition_run_exact {r = r} RunState.cancelled (aware at) (run_init-IsRun h) tt).0)

cancel_current-ok :
    (e : RunEntry) (at : ℕ) (db : Database)
    → IsQueue db
    → In e db.runs
    → can_cancel e.run.state ≡ true
    → cancel_current e.run at db
      ≡ ok (record { run = cancelled_run at e.run; changed = true }, cancelled_db at e db)
unfolding cancel_current cancellation_init event_type_ok bounded_text_ok is_blank
cancel_current-ok e at db q i c =
    let h = q.entries e i in
    let after = cancelled_run at e.run in
    ground (
      arith,
      transition_cancelled at e.run h.run c,
      run_init-IsRun (cancelled_run-IsRun at e.run h.run),
      persist_transition-put e after db q i,
      append_event-logged "run.cancelled" public "Run cancelled" after at
          (steps_cancelled e.run at (put e (put_run after e) db)) refl refl
          (cancelled_run-IsRun at e.run h.run),
    )

cancel_current-conflict :
    (r : Run) (at : ℕ) (db : Database)
    → can_cancel r.state ≡ false
    → cancel_current r at db ≡ err conflict
unfolding cancel_current
cancel_current-conflict r at db c = rw c refl

-- `cancel` of a stored Run, in terms of the row that it writes
pub cancel_stored :
    (e : RunEntry) (at : ℕ) (db : Database)
    → IsQueue db
    → In e db.runs
    → cancel e.run.id at db ≡ (
        if same_run_state e.run.state RunState.cancelled
        then ok (record { run = e.run; changed = false }, db)
        else if can_cancel e.run.state
        then ok (record { run = cancelled_run at e.run; changed = true }, cancelled_db at e db)
        else err conflict)
unfolding cancel cancellation_init
cancel_stored e at db q i =
    rw (select_run-In e db q i, IsEntry-run_from_row (q.entries e i))
      (ground (arith, cancel_current-ok e at db q i, cancel_current-conflict e.run at db))

pub cancelled_db-IsQueue :
    (e : RunEntry) (at : ℕ) (db : Database)
    → IsQueue db
    → In e db.runs
    → IsQueue (cancelled_db at e db)
cancelled_db-IsQueue e at db q i =
    let r = put_run (cancelled_run at e.run) e in
    let h = q.entries e i in
    let q' =
      put-IsQueue e r db q refl
        (released-IsEntry e e.run.error_code RunState.cancelled at h refl h.run.error_code) in
    logged-IsQueue "run.cancelled" public "Run cancelled" (cancelled_run at e.run) at
      (steps_cancelled e.run at (put e r db))
      (record { distinct = q'.distinct; entries = q'.entries; numbered = q'.numbered })
