-- ===== src/Queue/Settling.antt =====
-- The recovery of one leased Run in a well-formed queue: `_fail_composing` and `_recover_one`.
use pangi.Prelude.{ℕ, some, ◌≡◌, refl, arith}
use pangi.Prelude.Distinct.{In}
use pangi.Prelude.Results.{ok}
use pangi.Text.{aware, is_blank}
use pangi.Runs.States.{RunState, composing, run_transition_allowed}
use pangi.Runs.Contracts.{Run, bounded_text_ok, validate_bounded_text}
use pangi.Runs.Transitions.{moved_run, transition_run}
use pangi.Runs.Validity.{IsRun, run_init-IsRun, transition_run_exact}
use pangi.Queue.Events.{public, admin, internal, event_type_ok}
use pangi.Queue.Database.{RunEntry, Database, put_run}
use pangi.Queue.Store.{released, moved_to, update_steps, is_running_step, interrupted_step}
use pangi.Queue.Recovering.{settle_interrupted, recover_one, fail_composing}
use pangi.Queue.Invariant.{IsQueue, put, put-IsQueue}
use pangi.Queue.Writes.{
  logged, persist_transition-put, append_event-logged, logged-IsQueue, moved_to-ok, moved-IsRun,
  released-IsRun,
}
use pangi.Queue.Exact.{released-IsEntry}

-- `_fail_composing`
abbrev pub failed_run : ℕ → Run → Run
failed_run at r = released (some "composition_interrupted") (moved_run r RunState.failed (aware at))

abbrev pub failed_db : ℕ → RunEntry → Database → Database
failed_db at e db =
    let failed = failed_run at e.run in
    logged "run.failed" public "Run Output interrupted" failed at (
      logged "output.failed" internal "Output composition interrupted" failed at
        (put e (put_run failed e) db))

failed_run-IsRun : (at : ℕ) (r : Run) → IsRun r → IsRun (failed_run at r)
unfolding validate_bounded_text bounded_text_ok is_blank
failed_run-IsRun at r h =
    released-IsRun (some "composition_interrupted") _ refl (moved-IsRun r RunState.failed at h)

moved_to_failed :
    (at : ℕ) (r : Run)
    → IsRun r
    → r.state ≡ composing
    → moved_to RunState.failed at (released (some "composition_interrupted")) r
      ≡ ok (failed_run at r)
unfolding run_transition_allowed
moved_to_failed at r h c =
    moved_to-ok r RunState.failed at (released (some "composition_interrupted")) h (ground arith)
      (failed_run-IsRun at r h)

pub fail_composing-ok :
    (e : RunEntry) (at : ℕ) (db : Database)
    → IsQueue db
    → In e db.runs
    → e.run.state ≡ composing
    → fail_composing e.run at db ≡ ok (failed_run at e.run, failed_db at e db)
unfolding fail_composing event_type_ok bounded_text_ok is_blank
fail_composing-ok e at db q i c =
    let h = q.entries e i in
    let failed = failed_run at e.run in
    let good = failed_run-IsRun at e.run h.run in
    let db1 = put e (put_run failed e) db in
    ground (
      arith,
      moved_to_failed at e.run h.run c,
      persist_transition-put e failed db q i,
      append_event-logged "output.failed" internal "Output composition interrupted" failed at db1
          refl refl good,
      append_event-logged "run.failed" public "Run Output interrupted" failed at
          (logged "output.failed" internal "Output composition interrupted" failed at db1) refl refl
          good,
    )

pub failed_db-IsQueue :
    (e : RunEntry) (at : ℕ) (db : Database)
    → IsQueue db
    → In e db.runs
    → IsQueue (failed_db at e db)
unfolding validate_bounded_text bounded_text_ok is_blank
failed_db-IsQueue e at db q i =
    let failed = failed_run at e.run in
    let db1 = put e (put_run failed e) db in
    logged-IsQueue "run.failed" public "Run Output interrupted" failed at
      (logged "output.failed" internal "Output composition interrupted" failed at db1)
      (logged-IsQueue "output.failed" internal "Output composition interrupted" failed at db1 (
        put-IsQueue e (put_run failed e) db q refl (
          released-IsEntry e (some "composition_interrupted") RunState.failed at (q.entries e i)
            refl refl)))

-- The first half of `_recover_one`
abbrev pub interrupted_run : ℕ → Run → Run
interrupted_run at r = released r.error_code (moved_run r RunState.interrupted (aware at))

abbrev steps_interrupted : Run → ℕ → Database → Database
steps_interrupted r at db = record db {
  steps = update_steps r.id is_running_step (interrupted_step at) db.steps;
}

abbrev pub interrupted_db : ℕ → RunEntry → Database → Database
interrupted_db at e db =
    logged "run.interrupted" admin "Run execution interrupted" (interrupted_run at e.run) at
      (steps_interrupted e.run at (put e (put_run (interrupted_run at e.run) e) db))

transition_interrupted :
    (at : ℕ) (r : Run)
    → IsRun r
    → r.state ≡ RunState.running
    → transition_run r RunState.interrupted (aware at)
      ≡ ok (moved_run r RunState.interrupted (aware at))
unfolding run_transition_allowed
transition_interrupted at r h c =
    ground (
      arith,
      (transition_run_exact {r = r} RunState.interrupted (aware at) (run_init-IsRun h) tt).0,
    )

interrupted_run-IsRun : (at : ℕ) (r : Run) → IsRun r → IsRun (interrupted_run at r)
interrupted_run-IsRun at r h =
    released-IsRun r.error_code _ h.error_code (moved-IsRun r RunState.interrupted at h)

pub recover_one-interrupted :
    (e : RunEntry) (at : ℕ) (db : Database)
    → IsQueue db
    → In e db.runs
    → e.run.state ≡ RunState.running
    → recover_one e.run at db
      ≡ settle_interrupted (interrupted_run at e.run) at (interrupted_db at e db)
unfolding recover_one event_type_ok bounded_text_ok is_blank
recover_one-interrupted e at db q i c =
    let h = q.entries e i in
    let after = interrupted_run at e.run in
    ground (
      arith,
      transition_interrupted at e.run h.run c,
      run_init-IsRun (interrupted_run-IsRun at e.run h.run),
      persist_transition-put e after db q i,
      append_event-logged "run.interrupted" admin "Run execution interrupted" after at
          (steps_interrupted e.run at (put e (put_run after e) db)) refl refl
          (interrupted_run-IsRun at e.run h.run),
    )

pub interrupted_db-IsQueue :
    (e : RunEntry) (at : ℕ) (db : Database)
    → IsQueue db
    → In e db.runs
    → IsQueue (interrupted_db at e db)
interrupted_db-IsQueue e at db q i =
    let r = put_run (interrupted_run at e.run) e in
    let h = q.entries e i in
    let q' =
      put-IsQueue e r db q refl
        (released-IsEntry e e.run.error_code RunState.interrupted at h refl h.run.error_code) in
    logged-IsQueue "run.interrupted" admin "Run execution interrupted" (interrupted_run at e.run) at
      (steps_interrupted e.run at (put e r db))
      (record { distinct = q'.distinct; entries = q'.entries; numbered = q'.numbered })
