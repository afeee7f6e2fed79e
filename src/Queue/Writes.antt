-- ===== src/Queue/Writes.antt =====
-- What the parts of a queue operation do in a well-formed queue: reading a row, moving its Run,
-- writing the row and appending an event.
use pangi.Prelude.{
  String, true, List, [], ◌∷◌, Option, none, some, ℕ, suc, ◌≡◌, refl, inl, inr, map, sym, eq_iff,
  eq_refl, arith, ap, ◌∙◌, subst,
}
use pangi.Prelude.Distinct.{Distinct, In}
use pangi.Prelude.Int.{ℤ, pos, negsuc, same_ℤ}
use pangi.Prelude.Keyed.{replace, replace_absent, contains-keys}
use pangi.Prelude.Results.{ok}
use pangi.Text.{aware}
use pangi.Runs.States.{RunState, run_transition_allowed}
use pangi.Runs.Contracts.{
  Run, validate_identifier, identifier_ok, when_present, bounded_text_ok, validate_bounded_text,
  utc,
}
use pangi.Runs.Transitions.{moved_run}
use pangi.Runs.Validity.{IsRun, run_init-IsRun, IsRun-run_init, transition_run_exact}
use pangi.Queue.Events.{EventVisibility, event_init, event_type_ok, max_index}
use pangi.Queue.Database.{
  RunEntry, Database, entry_id, select_run, put_run, is_current, update_run, persist_transition,
  append_event,
}
use pangi.Queue.Store.{released, owned_by, moved_to}
use pangi.Queue.Invariant.{IsQueue, put, max_index-count}

same_ℤ_refl : (z : ℤ) → same_ℤ z z ≡ true
same_ℤ_refl (pos n) = ground arith
same_ℤ_refl (negsuc n) = ground arith

is_current_self : (e : RunEntry) → is_current e.run e ≡ true
unfolding is_current
is_current_self e = ground (arith, eq_refl e.run.id, same_ℤ_refl e.run.revision)

update_run_first :
    (e : RunEntry) (changed : Run) (xs : List RunEntry)
    → update_run e.run changed (e ∷ xs) ≡ some (put_run changed e ∷ xs)
unfolding update_run
update_run_first e changed xs = rw (is_current_self e) refl

replace_first :
    (e r : RunEntry) (xs : List RunEntry)
    → Distinct (map entry_id (e ∷ xs))
    → r ∷ xs ≡ replace entry_id e r (e ∷ xs)
replace_first e r xs d = rw (eq_refl e.run.id, replace_absent entry_id e r xs d.0) refl

update_run-replace :
    (e : RunEntry) (changed : Run) (xs : List RunEntry)
    → Distinct (map entry_id xs)
    → In e xs
    → update_run e.run changed xs ≡ some (replace entry_id e (put_run changed e) xs)
unfolding update_run
update_run-replace e changed [] d i = elim i [ ]
update_run-replace e changed (x ∷ xs) d (inl same) =
    subst
      (λ y.
        update_run y.run changed (x ∷ xs) ≡ some (replace entry_id y (put_run changed y) (x ∷ xs)))
      (sym same)
      (update_run_first x changed xs ∙ ap some (replace_first x (put_run changed x) xs d))
update_run-replace e changed (x ∷ xs) d (inr i) = ground (
  arith,
  update_run-replace e changed xs d.1 i,
  contains-keys entry_id e xs i,
  d.0,
  eq_iff e.run.id x.run.id,
)

-- A write of the row whose Run was read replaces that row.
pub persist_transition-put :
    (e : RunEntry) (changed : Run) (db : Database)
    → IsQueue db
    → In e db.runs
    → persist_transition e.run changed db ≡ ok (put e (put_run changed e) db)
unfolding persist_transition
persist_transition-put e changed db q i =
    ground (arith, update_run-replace e changed db.runs q.distinct i)

-- The tables with one more event of the Run.
abbrev pub logged : String → EventVisibility → String → Run → ℕ → Database → Database
logged type visibility message run at db = record db {
  events =
      record {
        run_id = run.id;
        index = suc (max_index run.id db.events);
        type = type;
        visibility = visibility;
        created_at = aware at;
        step_id = none;
        message = some message;
      }
      ∷ db.events;
}

pub append_event-logged :
    (type : String) (visibility : EventVisibility) (message : String) (r : Run) (at : ℕ)
    (db : Database)
    → event_type_ok type ≡ true
    → bounded_text_ok message 2_000 ≡ true
    → IsRun r
    → append_event type visibility message r at db ≡ ok (logged type visibility message r at db)
unfolding append_event event_init validate_bounded_text utc
append_event-logged type visibility message r at db t m h = ground (arith, t, m, h.id)

pub logged-IsQueue :
    (type : String) (visibility : EventVisibility) (message : String) (r : Run) (at : ℕ)
    (db : Database)
    → IsQueue db
    → IsQueue (logged type visibility message r at db)
logged-IsQueue type visibility message r at db q = record {
  distinct = q.distinct;
  entries = q.entries;
  numbered = (ap suc (max_index-count r.id db.events q.numbered), q.numbered);
}

select_first :
    (e : RunEntry) (xs : List RunEntry)
    → Distinct (map entry_id xs)
    → In e xs
    → select_run e.run.id xs ≡ some e
unfolding select_run
select_first e [] d i = elim i [ ]
select_first e (x ∷ xs) d (inl same) = rw same ground (arith, eq_refl x.run.id)
select_first e (x ∷ xs) d (inr i) =
    ground
      (arith, select_first e xs d.1 i, contains-keys entry_id e xs i, d.0, eq_iff e.run.id x.run.id)

-- The row of an id that is stored.
pub select_run-In :
    (e : RunEntry) (db : Database)
    → IsQueue db
    → In e db.runs
    → select_run e.run.id db.runs ≡ some e
select_run-In e db q i = select_first e db.runs q.distinct i

pub select_run-some :
    (id : String) (e : RunEntry) (xs : List RunEntry)
    → select_run id xs ≡ some e
    → In e xs × (id ≡ e.run.id)
unfolding select_run
select_run-some id e [] h = cc
select_run-some id e (x ∷ xs) h = ground (arith, select_run-some id e xs, eq_iff id x.run.id)

-- The move of a Run to an allowed state, with the fields that the operation changes.
pub moved_to-ok :
    (r : Run) (target : RunState) (at : ℕ) (change : Run → Run)
    → IsRun r
    → run_transition_allowed r.state target ≡ true
    → IsRun (change (moved_run r target (aware at)))
    → moved_to target at change r ≡ ok (change (moved_run r target (aware at)))
unfolding moved_to
moved_to-ok r target at change h allowed good = ground (
  arith,
  (transition_run_exact {r = r} target (aware at) (run_init-IsRun h) tt).0,
  allowed,
  run_init-IsRun good,
)

pub moved-IsRun :
    (r : Run) (target : RunState) (at : ℕ) → IsRun r → IsRun (moved_run r target (aware at))
moved-IsRun r target at h =
    (IsRun-run_init (transition_run_exact {r = r} target (aware at) (run_init-IsRun h) tt).1).0

pub released-IsRun :
    (error : Option String) (r : Run)
    → when_present error (λ v. validate_bounded_text v "run error_code" 120) ≡ ok tt
    → IsRun r
    → IsRun (released error r)
released-IsRun error r e h = record {
  id = h.id;
  revision = h.revision;
  finished = h.finished;
  skill = h.skill;
  worker = refl;
  warnings = h.warnings;
  error_code = e;
  updated = h.updated;
  lease = tt;
  heartbeat = tt;
  started = h.started;
  ended = h.ended;
}

pub owned_by-IsRun :
    (worker : String) (at until : ℕ) (r : Run)
    → identifier_ok worker ≡ true
    → IsRun r
    → IsRun (owned_by worker at until r)
unfolding validate_identifier
owned_by-IsRun worker at until r w h = record {
  id = h.id;
  revision = h.revision;
  finished = h.finished;
  skill = h.skill;
  worker = ground (arith, w);
  warnings = h.warnings;
  error_code = h.error_code;
  updated = h.updated;
  lease = tt;
  heartbeat = tt;
  started = h.started;
  ended = h.ended;
}
