-- ===== src/Queue/Invariant.antt =====
-- What the rows of a well-formed queue satisfy, and that writes of single rows keep it.
use pangi.Prelude.{
  String, true, false, List, [], ◌∷◌, ℕ, suc, ◌≡◌, refl, inl, inr, map, str_eq, eq_iff, arith,
  if◌then◌else◌,
}
use pangi.Prelude.Distinct.{Distinct, In}
use pangi.Prelude.Keyed.{replace, In-replace, keys-replace}
use pangi.Prelude.Results.{ok}
use pangi.Runs.States.{RunState, same_run_state}
use pangi.Runs.Contracts.{is_none}
use pangi.Runs.Validity.{IsRun, run_init-IsRun}
use pangi.Queue.Events.{RunEvent, max_index}
use pangi.Queue.Database.{RunEntry, Database, entry_id, is_leased, stored_request, run_from_row}

-- A row that reads back as the Run it stores, with a lease exactly in the leased states and a
-- queue time in the state QUEUED.
pub record IsEntry (e : RunEntry) : Type 0 where
  pub request : stored_request e.run.request ≡ ok e.run.request
  pub run : IsRun e.run
  pub worker : is_none e.run.worker_id ≡ (if is_leased e.run.state then false else true)
  pub lease : is_none e.run.lease_expires_at ≡ (if is_leased e.run.state then false else true)
  pub heartbeat : is_none e.run.heartbeat_at ≡ (if is_leased e.run.state then false else true)
  pub queue_time : same_run_state e.run.state RunState.queued ≡ true → is_none e.queued_at ≡ false

abbrev pub count : String → List RunEvent → ℕ
count run_id [] = 0
count run_id (e ∷ rest) =
    let later = count run_id rest in if str_eq run_id e.run_id then suc later else later

-- The events of a Run are numbered from 1 on, without gaps.
abbrev pub IsNumbered : List RunEvent → Type 0
IsNumbered [] = Unit
IsNumbered (e ∷ rest) = (e.index ≡ suc (count e.run_id rest)) × IsNumbered rest

pub record IsQueue (db : Database) : Type 0 where
  pub distinct : Distinct (map entry_id db.runs)
  pub entries : (e : RunEntry) → In e db.runs → IsEntry e
  pub numbered : IsNumbered db.events

pub IsEntry-run_from_row : {e : RunEntry} → IsEntry e → run_from_row e ≡ ok e.run
unfolding run_from_row
IsEntry-run_from_row {e} h = ground (arith, h.request, run_init-IsRun h.run)

pub max_index-count :
    (id : String) (es : List RunEvent) → IsNumbered es → max_index id es ≡ count id es
unfolding max_index
max_index-count id [] h = refl
max_index-count id (e ∷ es) h =
    ground
      (arith, h.0, max_index-count id es h.1, max_index-count e.run_id es h.1, eq_iff id e.run_id)

-- The row of `e` written anew.
abbrev pub put : RunEntry → RunEntry → Database → Database
put e r db = record db { runs = replace entry_id e r db.runs }

pub put-IsQueue :
    (e r : RunEntry) (db : Database)
    → IsQueue db
    → entry_id r ≡ entry_id e
    → IsEntry r
    → IsQueue (put e r db)
put-IsQueue e r db q same good = record {
  distinct = rw (keys-replace entry_id e r db.runs same) q.distinct;
  entries = λ x i. elim (In-replace entry_id e r x db.runs i) [
    | inl (j, _) ↦ q.entries x j
    | inr new ↦ rw new good
  ];
  numbered = q.numbered;
}
