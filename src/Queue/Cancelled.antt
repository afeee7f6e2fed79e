-- ===== src/Queue/Cancelled.antt =====
-- What `cancel` writes: the Run's row, its steps and one event.
use pangi.Prelude.{
  ℕ, String, true, false, ◌&&◌, ◌∷◌, none, some, str_eq, if◌then◌else◌, ◌≡◌, ◌⊎◌, ◌↔◌, inl, inr,
  refl, ◌∙◌, arith, eq_iff, Bool-cases,
}
use pangi.Prelude.Distinct.{In}
use pangi.Prelude.Int.{increment}
use pangi.Prelude.Keyed.{replace}
use pangi.Prelude.Pointwise.{Pointwise, Pointwise-map}
use pangi.Prelude.Results.{ok, err}
use pangi.Text.{aware}
use pangi.Runs.States.{RunState, StepState, same_run_state, same_run_state_iff, is_terminal_run}
use pangi.Runs.Contracts.{RunStep}
use pangi.Queue.Events.{RunEvent, public}
use pangi.Queue.Contracts.{RunCancellation}
use pangi.Queue.Database.{RunEntry, Database, entry_id, conflict}
use pangi.Queue.Store.{can_cancel, cancel, update_steps, is_open_step, cancelled_step}
use pangi.Queue.Invariant.{IsQueue}
use pangi.Queue.Cancelling.{cancelled_run, cancelled_db, cancel_stored}

-- A queued or running step of the Run
abbrev pub IsOpenStep : String → RunStep → Type 0
IsOpenStep id s = (s.run_id ≡ id) × ((s.state ≡ StepState.queued) ⊎ (s.state ≡ StepState.running))

-- A step before and after: only the open steps of the Run are written.
abbrev pub StepCancelled : String → ℕ → RunStep → RunStep → Type 0
StepCancelled id at s s' =
    (IsOpenStep id s
      × (s' ≡ record s {
        state = StepState.cancelled;
        updated_at = aware at;
        finished_at = some (aware at);
      }))
    ⊎ ((¬ IsOpenStep id s) × (s' ≡ s))

pub record Cancelled (e : RunEntry) (at : ℕ) (db : Database) (c : RunCancellation) (db' : Database)
    : Type 0 where
  pub changed : c.changed ≡ true
  pub run : c.run ≡ record e.run {
    state = RunState.cancelled;
    revision = increment e.run.revision;
    worker_id = none;
    lease_expires_at = none;
    heartbeat_at = none;
    updated_at = aware at;
    finished_at = some (aware at);
  }
  pub runs : db'.runs ≡ replace entry_id e (record e { run = c.run }) db.runs
  pub steps : Pointwise (StepCancelled e.run.id at) db.steps db'.steps
  pub event : RunEvent
  pub events : db'.events ≡ event ∷ db.events
  pub announced :
      (event.run_id ≡ e.run.id) × (event.type ≡ "run.cancelled") × (event.visibility ≡ public)

cancelled_step-StepCancelled :
    (id : String) (at : ℕ) (s : RunStep)
    → StepCancelled id at s
        (if str_eq id s.run_id && is_open_step s.state then cancelled_step at s else s)
cancelled_step-StepCancelled id at s =
    elim (Bool-cases (str_eq id s.run_id && is_open_step s.state)) [
      | inl h ↦ inl ((ground (arith, eq_iff id s.run_id), ground arith), rw h refl)
      | inr h ↦ inr (λ (i, o). absurd (ground (arith, eq_iff id s.run_id, i, o)), rw h refl)
    ]

cancelled_db-Cancelled :
    (e : RunEntry) (at : ℕ) (db : Database)
    → Cancelled e at db
        (record { run = cancelled_run at e.run; changed = true })
        (cancelled_db at e db)
unfolding update_steps is_terminal_run
cancelled_db-Cancelled e at db = record {
  changed = refl;
  run = refl;
  runs = refl;
  steps =
      Pointwise-map (StepCancelled e.run.id at) _ db.steps
        (cancelled_step-StepCancelled e.run.id at);
  event = _;
  events = refl;
  announced = (refl, refl, refl);
}

can_cancel_iff :
    (s : RunState) → (can_cancel s ≡ true) ↔ ((s ≡ RunState.queued) ⊎ (s ≡ RunState.running))
can_cancel_iff s = ground arith

-- `cancel` of a stored Run. A cancelled one stays as it is, and so do the tables. A queued or
-- running one is cancelled: its revision grows by one, it has no worker, lease or heartbeat, and has
-- a finish time; its queued and running steps are cancelled and finished, no other step and no other
-- Run is written, and one public event is added. In any other state it is a conflict.
pub cancel_exact :
    (e : RunEntry) (at : ℕ) (db : Database)
    → IsQueue db
    → In e db.runs
    → ((e.run.state ≡ RunState.cancelled)
        × (cancel e.run.id at db ≡ ok (record { run = e.run; changed = false }, db)))
      ⊎ (((e.run.state ≡ RunState.queued) ⊎ (e.run.state ≡ RunState.running))
          × ((c : RunCancellation) × (db' : Database) × (cancel e.run.id at db ≡ ok (c, db'))
              × Cancelled e at db c db'))
      ⊎ ((¬ (
            (e.run.state ≡ RunState.cancelled)
            ⊎ (e.run.state ≡ RunState.queued)
            ⊎ (e.run.state ≡ RunState.running)))
          × (cancel e.run.id at db ≡ err conflict))
cancel_exact e at db q i =
    let done = cancel_stored e at db q i in
    let same = same_run_state_iff e.run.state RunState.cancelled in
    let free = can_cancel_iff e.run.state in
    elim (Bool-cases (same_run_state e.run.state RunState.cancelled)) [
      | inl h ↦ inl (same.0 h, done ∙ rw h refl)
      | inr h ↦ elim (Bool-cases (can_cancel e.run.state)) [
        | inl f ↦ inr (
            inl (
              free.0 f,
              (
                record { run = cancelled_run at e.run; changed = true },
                cancelled_db at e db,
                done ∙ rw (h, f) refl,
                cancelled_db-Cancelled e at db,
              ),
            ))
        | inr f ↦ inr (inr (λ u. absurd (ground (arith, u, h, f)), done ∙ rw (h, f) refl))
      ]
    ]
