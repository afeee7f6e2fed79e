-- ===== src/Queue/Exact.antt =====
-- The operations on one Run, in a well-formed queue: what each returns and writes.
use pangi.Prelude.{ℕ, String, true, false, ◌&&◌, Option, none, ◌≡◌, refl, arith, if◌then◌else◌}
use pangi.Prelude.Distinct.{In}
use pangi.Prelude.Int.{ℤ, same_ℤ}
use pangi.Prelude.Results.{ok, err}
use pangi.Text.{aware, is_blank}
use pangi.Runs.States.{RunState, run_transition_allowed}
use pangi.Runs.Contracts.{Run, identifier_ok, when_present, validate_bounded_text, bounded_text_ok}
use pangi.Runs.Transitions.{moved_run}
use pangi.Runs.Validity.{IsRun}
use pangi.Queue.Events.{public, event_type_ok}
use pangi.Queue.Contracts.{claim_init}
use pangi.Queue.Database.{RunEntry, Database, conflict, is_leased, put_run}
use pangi.Queue.Store.{released, owned_by, moved_to, can_queue, enqueue, claim_row}
use pangi.Queue.Invariant.{IsEntry, IsQueue, put, put-IsQueue, IsEntry-run_from_row}
use pangi.Queue.Writes.{
  logged, persist_transition-put, append_event-logged, logged-IsQueue, select_run-In, moved_to-ok,
  moved-IsRun, released-IsRun, owned_by-IsRun,
}

-- A row whose Run moves to a state without a lease.
pub released-IsEntry :
    (e : RunEntry) (error : Option String) (target : RunState) (at : ℕ)
    → IsEntry e
    → is_leased target ≡ false
    → when_present error (λ v. validate_bounded_text v "run error_code" 120) ≡ ok tt
    → IsEntry (put_run (released error (moved_run e.run target (aware at))) e)
released-IsEntry e error target at h free text = record {
  request = h.request;
  run = released-IsRun error _ text (moved-IsRun e.run target at h.run);
  worker = ground arith;
  lease = ground arith;
  heartbeat = ground arith;
  queue_time = ground arith;
}

pub owned_by-IsEntry :
    (e : RunEntry) (worker : String) (at until : ℕ)
    → IsEntry e
    → identifier_ok worker ≡ true
    → IsEntry (put_run (owned_by worker at until (moved_run e.run RunState.running (aware at))) e)
owned_by-IsEntry e worker at until h w = record {
  request = h.request;
  run = owned_by-IsRun worker at until _ w (moved-IsRun e.run RunState.running at h.run);
  worker = refl;
  lease = refl;
  heartbeat = refl;
  queue_time = λ s. cc;
}

abbrev pub queued_run : ℕ → Run → Run
queued_run at r = released none (moved_run r RunState.queued (aware at))

queued_run-IsRun : (at : ℕ) (r : Run) → IsRun r → IsRun (queued_run at r)
queued_run-IsRun at r h = released-IsRun none _ refl (moved-IsRun r RunState.queued at h)

moved_to_queued :
    (at : ℕ) (r : Run)
    → IsRun r
    → can_queue r.state ≡ true
    → moved_to RunState.queued at (released none) r ≡ ok (queued_run at r)
unfolding run_transition_allowed
moved_to_queued at r h c =
    moved_to-ok r RunState.queued at (released none) h (ground arith) (queued_run-IsRun at r h)

-- What `enqueue` returns and writes, on a stored Run: it needs the expected revision and a state
-- that may be queued.
pub enqueue_exact :
    (e : RunEntry) (revision : ℤ) (at : ℕ) (db : Database)
    → IsQueue db
    → In e db.runs
    → enqueue e.run.id revision at db ≡ (
        if same_ℤ e.run.revision revision && can_queue e.run.state
        then ok (
          queued_run at e.run,
          logged "run.queued" public "Run queued"
              (queued_run at e.run)
              at
              (put e (put_run (queued_run at e.run) e) db),
        )
        else err conflict)
unfolding enqueue event_type_ok bounded_text_ok is_blank
enqueue_exact e revision at db q i =
    let h = q.entries e i in
    let queued = queued_run at e.run in
    ground (
      arith,
      select_run-In e db q i,
      IsEntry-run_from_row h,
      moved_to_queued at e.run h.run,
      persist_transition-put e queued db q i,
      append_event-logged "run.queued" public "Run queued" queued at (put e (put_run queued e) db)
          refl refl (queued_run-IsRun at e.run h.run),
    )

abbrev pub claimed_run : String → ℕ → ℕ → Run → Run
claimed_run worker at until r = owned_by worker at until (moved_run r RunState.running (aware at))

claimed_run-IsRun :
    (worker : String) (at until : ℕ) (r : Run)
    → identifier_ok worker ≡ true
    → IsRun r
    → IsRun (claimed_run worker at until r)
claimed_run-IsRun worker at until r w h =
    owned_by-IsRun worker at until _ w (moved-IsRun r RunState.running at h)

moved_to_running :
    (worker : String) (at until : ℕ) (r : Run)
    → identifier_ok worker ≡ true
    → IsRun r
    → r.state ≡ RunState.queued
    → moved_to RunState.running at (owned_by worker at until) r ≡ ok (claimed_run worker at until r)
unfolding run_transition_allowed
moved_to_running worker at until r w h c =
    moved_to-ok r RunState.running at (owned_by worker at until) h (ground arith)
      (claimed_run-IsRun worker at until r w h)

claim_init_ok :
    (worker : String) (at until : ℕ) (r : Run)
    → claim_init (claimed_run worker at until r) ≡ ok (claimed_run worker at until r)
unfolding claim_init
claim_init_ok worker at until r = refl

-- The tables after the claim of a row.
abbrev pub claimed_db : String → ℕ → ℕ → RunEntry → Database → Database
claimed_db worker at until e db =
    logged "run.running" public "Run started" (claimed_run worker at until e.run) at
      (put e (put_run (claimed_run worker at until e.run) e) db)

pub claim_row_exact :
    (e : RunEntry) (worker : String) (at until : ℕ) (db : Database)
    → identifier_ok worker ≡ true
    → IsQueue db
    → In e db.runs
    → e.run.state ≡ RunState.queued
    → claim_row worker at until e db
      ≡ ok (claimed_run worker at until e.run, claimed_db worker at until e db)
unfolding claim_row event_type_ok bounded_text_ok is_blank
claim_row_exact e worker at until db w q i c =
    let h = q.entries e i in
    let claimed = claimed_run worker at until e.run in
    ground (
      arith,
      IsEntry-run_from_row h,
      moved_to_running worker at until e.run w h.run c,
      persist_transition-put e claimed db q i,
      append_event-logged "run.running" public "Run started" claimed at
          (put e (put_run claimed e) db) refl refl
          (claimed_run-IsRun worker at until e.run w h.run),
      claim_init_ok worker at until e.run,
    )

pub claimed_db-IsQueue :
    (e : RunEntry) (worker : String) (at until : ℕ) (db : Database)
    → identifier_ok worker ≡ true
    → IsQueue db
    → In e db.runs
    → IsQueue (claimed_db worker at until e db)
claimed_db-IsQueue e worker at until db w q i =
    let claimed = claimed_run worker at until e.run in
    logged-IsQueue "run.running" public "Run started" claimed at (put e (put_run claimed e) db) (
      put-IsQueue e (put_run claimed e) db q refl
        (owned_by-IsEntry e worker at until (q.entries e i) w))

pub queued_db-IsQueue :
    (e : RunEntry) (at : ℕ) (db : Database)
    → IsQueue db
    → In e db.runs
    → IsQueue (
        logged "run.queued" public "Run queued"
          (queued_run at e.run)
          at
          (put e (put_run (queued_run at e.run) e) db))
queued_db-IsQueue e at db q i =
    let queued = queued_run at e.run in
    logged-IsQueue "run.queued" public "Run queued" queued at (put e (put_run queued e) db) (
      put-IsQueue e (put_run queued e) db q refl
        (released-IsEntry e none RunState.queued at (q.entries e i) refl refl))
