-- ===== src/Queue/Recovered.antt =====
-- What the recovery of one leased Run leaves behind: its row, its state, and the steps of others.
use pangi.Prelude.{
  none, ℕ, String, Bool, true, false, not, ◌&&◌, ◌||◌, ◌≡◌, refl, arith, any, List, [], ◌∷◌, str_eq,
  eq_iff, if◌then◌else◌, Bool-cases, inl, inr, ◌∙◌, ap, sym, subst,
}
use pangi.Prelude.Distinct.{In}
use pangi.Prelude.Keyed.{replace, replace_twice, In-replace_self}
use pangi.Prelude.Pointwise.{Pointwise, Pointwise-map, Pointwise-map_twice, Pointwise-self}
use pangi.Prelude.Results.{ok}
use pangi.Runs.States.{
  RunState, composing, same_run_state, same_run_state_iff, run_transition_allowed,
}
use pangi.Runs.Contracts.{Run, RunStep}
use pangi.Queue.Database.{RunEntry, Database, entry_id, is_leased, put_run}
use pangi.Queue.Store.{
  update_steps, is_running_step, is_interrupted_step, interrupted_step, failed_step,
}
use pangi.Queue.StepRecovery.{
  StepRecovered, untouched-StepRecovered, interrupt-StepRecovered, fail-StepRecovered,
}
use pangi.Queue.Recovering.{has_non_idempotent_step, fail_composing, recover_one, recover_leased}
use pangi.Queue.Moves.{Moved, AllMoved, Moved-once, Moved-trans, replace-AllMoved}
use pangi.Prelude.Int.{increment}
use pangi.Queue.Invariant.{IsQueue}
use pangi.Queue.Settling.{
  failed_run, failed_db, fail_composing-ok, failed_db-IsQueue, interrupted_run, interrupted_db,
  recover_one-interrupted, interrupted_db-IsQueue,
}
use pangi.Queue.Requeueing.{
  stopped_run, requeued_run, stopped_db, requeued_db, settle_interrupted-stops,
  settle_interrupted-requeues, stopped_db-IsQueue, requeued_db-IsQueue,
}

-- A step of the Run that has started, was not finished and may not run twice.
abbrev pub blocks : String → RunStep → Bool
blocks id s =
    str_eq id s.run_id
    && (is_running_step s.state || is_interrupted_step s.state)
    && not s.idempotent

-- The Runs that recovery fails.
abbrev pub is_blocked : List RunStep → RunEntry → Bool
is_blocked steps e = same_run_state e.run.state composing || any (blocks e.run.id) steps

pub record Recovery (e : RunEntry) (db : Database) (r : Run) (db' : Database) : Type 0 where
  pub queue : IsQueue db'
  pub row : RunEntry
  pub runs : db'.runs ≡ replace entry_id e row db.runs
  pub stored : row.run ≡ r
  pub same_id : row.run.id ≡ e.run.id
  pub state : r.state ≡ (if is_blocked db.steps e then RunState.failed else RunState.queued)
  pub released : (r.worker_id ≡ none) × (r.lease_expires_at ≡ none) × (r.heartbeat_at ≡ none)
  pub moves : AllMoved db.runs db'.runs
  pub others :
      (id : String)
      → str_eq id e.run.id ≡ false
      → any (blocks id) db'.steps ≡ any (blocks id) db.steps
  pub steps :
      Pointwise
        (StepRecovered e.run.id
          (same_run_state e.run.state composing)
          (any (blocks e.run.id) db.steps))
        db.steps
        db'.steps

non_idempotent-interrupted :
    (id : String) (at : ℕ) (steps : List RunStep)
    → has_non_idempotent_step id (update_steps id is_running_step (interrupted_step at) steps)
      ≡ any (blocks id) steps
unfolding has_non_idempotent_step update_steps
non_idempotent-interrupted id at [] = refl
non_idempotent-interrupted id at (s ∷ steps) =
    ground (arith, non_idempotent-interrupted id at steps)

interrupted_others :
    (id other : String) (at : ℕ) (steps : List RunStep)
    → str_eq id other ≡ false
    → any (blocks id) (update_steps other is_running_step (interrupted_step at) steps)
      ≡ any (blocks id) steps
unfolding update_steps
interrupted_others id other at [] h = refl
interrupted_others id other at (s ∷ steps) h =
    ground
      (arith, interrupted_others id other at steps h, eq_iff id s.run_id, eq_iff other s.run_id)

failed_others :
    (id other : String) (at : ℕ) (steps : List RunStep)
    → str_eq id other ≡ false
    → any (blocks id) (update_steps other is_interrupted_step (failed_step at) steps)
      ≡ any (blocks id) steps
unfolding update_steps
failed_others id other at [] h = refl
failed_others id other at (s ∷ steps) h =
    ground (arith, failed_others id other at steps h, eq_iff id s.run_id, eq_iff other s.run_id)

composing-Recovery :
    (e : RunEntry) (at : ℕ) (db : Database)
    → IsQueue db
    → In e db.runs
    → e.run.state ≡ composing
    → (recover_leased e.run at db ≡ ok (failed_run at e.run, failed_db at e db))
      × Recovery e db (failed_run at e.run) (failed_db at e db)
unfolding recover_leased run_transition_allowed
composing-Recovery e at db q i c = (
  ground (arith, fail_composing-ok e at db q i c),
  record {
    queue = failed_db-IsQueue e at db q i;
    row = put_run (failed_run at e.run) e;
    runs = refl;
    stored = refl;
    same_id = refl;
    state = ground arith;
    released = (refl, refl, refl);
    moves =
        replace-AllMoved e (put_run (failed_run at e.run) e) db.runs q.distinct i
          (Moved-once e (put_run (failed_run at e.run) e) refl refl (ground arith) refl);
    others = λ id h. refl;
    steps = Pointwise-self _ db.steps (λ s. untouched-StepRecovered e.run.id _ _ s (ground arith));
  },
)

-- The row of the Run between the two halves of `_recover_one`.
abbrev between : ℕ → RunEntry → RunEntry
between at e = put_run (interrupted_run at e.run) e

recover_leased_running :
    (r : Run) (at : ℕ) (db : Database)
    → r.state ≡ RunState.running
    → recover_leased r at db ≡ recover_one r at db
unfolding recover_leased
recover_leased_running r at db c =
    ap (λ (t : Bool). if t then fail_composing r at db else recover_one r at db)
      (ap (λ s. same_run_state s composing) c)

-- The row of a Run after `_recover_one`, two transitions later.
recovered-Moved :
    (at : ℕ) (e : RunEntry) (x : RunEntry)
    → e.run.state ≡ RunState.running
    → run_transition_allowed RunState.interrupted x.run.state ≡ true
    → x.run.id ≡ e.run.id
    → x.run.request ≡ e.run.request
    → x.run.revision ≡ increment (increment e.run.revision)
    → Moved e x
unfolding run_transition_allowed
recovered-Moved at e x c h i q r =
    Moved-trans e (between at e) x (Moved-once e (between at e) refl refl (ground arith) refl)
      (Moved-once (between at e) x i q h r)

running-Recovery :
    (e : RunEntry) (at : ℕ) (db : Database)
    → IsQueue db
    → In e db.runs
    → e.run.state ≡ RunState.running
    → (r : Run) × (db' : Database) × (recover_leased e.run at db ≡ ok (r, db'))
      × Recovery e db r db'
unfolding run_transition_allowed update_steps
running-Recovery e at db q i c =
    let e1 = between at e in
    let db1 = interrupted_db at e db in
    let q1 = interrupted_db-IsQueue e at db q i in
    let i1 : In e1 db1.runs = In-replace_self entry_id e e1 db.runs i in
    let halfway = recover_leased_running e.run at db c ∙ recover_one-interrupted e at db q i c in
    let same = non_idempotent-interrupted e.run.id at db.steps in
    let twice = λ (r : RunEntry). replace_twice entry_id e e1 r db.runs refl in
    let moved = λ (r : RunEntry) (m : Moved e r).
      subst (AllMoved db.runs) (sym (twice r)) (replace-AllMoved e r db.runs q.distinct i m) in
    elim (Bool-cases (any (blocks e.run.id) db.steps)) [
      | inl b ↦ (
        stopped_run at e1.run,
        stopped_db at e1 db1,
        halfway ∙ (settle_interrupted-stops e1 at db1 q1 i1 refl (same ∙ b)),
        record {
          queue = stopped_db-IsQueue e1 at db1 q1 i1 refl;
          row = put_run (stopped_run at e1.run) e1;
          runs = twice _;
          stored = refl;
          same_id = refl;
          state = ground arith;
          released = (refl, refl, refl);
          moves =
              moved (put_run (stopped_run at e1.run) e1)
                (recovered-Moved at e _ c refl refl refl refl);
          others = λ id h.
              failed_others id e.run.id at db1.steps h
              ∙ interrupted_others id e.run.id at db.steps h;
          steps =
              Pointwise-map_twice _ _ _ db.steps
                (λ s. fail-StepRecovered e.run.id at _ _ s (ground arith) b);
        },
      )
      | inr b ↦ (
        requeued_run at e1.run,
        requeued_db at e1 db1,
        halfway ∙ (settle_interrupted-requeues e1 at db1 q1 i1 refl (same ∙ b)),
        record {
          queue = requeued_db-IsQueue e1 at db1 q1 i1 refl;
          row = put_run (requeued_run at e1.run) e1;
          runs = twice _;
          stored = refl;
          same_id = refl;
          state = ground arith;
          released = (refl, refl, refl);
          moves =
              moved (put_run (requeued_run at e1.run) e1)
                (recovered-Moved at e _ c refl refl refl refl);
          others = λ id h. interrupted_others id e.run.id at db.steps h;
          steps =
              Pointwise-map _ _ db.steps
                (λ s. interrupt-StepRecovered e.run.id at _ _ s (ground arith) b);
        },
      )
    ]

-- The recovery of a stored Run with a lease always succeeds: a composing Run fails, a running one
-- is queued again unless an unfinished step of it may not run twice, which makes it fail; its lease
-- is gone, no other Run's row is written, and no step of another Run. The steps of a composing Run
-- stay; of a running one, the running steps are interrupted if it is queued again, and else the
-- running and the interrupted ones are failed.
pub recover_leased-Recovery :
    (e : RunEntry) (at : ℕ) (db : Database)
    → IsQueue db
    → In e db.runs
    → is_leased e.run.state ≡ true
    → (r : Run) × (db' : Database) × (recover_leased e.run at db ≡ ok (r, db'))
      × Recovery e db r db'
recover_leased-Recovery e at db q i l = elim (Bool-cases (same_run_state e.run.state composing)) [
  | inl c ↦
      let (done, rec) =
        composing-Recovery e at db q i ((same_run_state_iff e.run.state composing).0 c) in
      (failed_run at e.run, failed_db at e db, done, rec)
  | inr c ↦ running-Recovery e at db q i (ground arith)
]
