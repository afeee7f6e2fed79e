-- ===== src/Queue/Claiming.antt =====
-- `claim_next` in a well-formed queue: it takes the first queued Run.
use pangi.Prelude.{ℕ, String, true, false, none, some, ◌≡◌, refl, leb, inl, inr, ◌⊎◌, Option-cases}
use pangi.Prelude.Distinct.{In}
use pangi.Prelude.Results.{ok}
use pangi.Runs.States.{RunState, same_run_state_iff}
use pangi.Runs.Contracts.{identifier_ok}
use pangi.Queue.Database.{RunEntry, Database, first_queued, is_queued_run, queue_before}
use pangi.Queue.Store.{claim_next}
use pangi.Queue.Invariant.{IsQueue}
use pangi.Queue.Exact.{claimed_run, claimed_db, claim_row_exact}
use pangi.Queue.Order.{first_queued-none, first_queued-In, first_queued-least}

pub NoneQueued : Database → Type 0
NoneQueued db = (x : RunEntry) → In x db.runs → is_queued_run x ≡ false

-- A queued row that no queued row is before.
pub record IsFirst (e : RunEntry) (db : Database) : Type 0 where
  pub stored : In e db.runs
  pub queued : e.run.state ≡ RunState.queued
  pub least : (x : RunEntry) → In x db.runs → is_queued_run x ≡ true → queue_before x e ≡ false

-- With a lease that ends later and a valid worker, `claim_next` never fails: if no Run is queued it
-- returns none and changes nothing; else it returns the first queued Run, running and leased to
-- the worker, and writes that row and one event only.
pub claim_next-IsFirst :
    (worker : String) (at until : ℕ) (db : Database)
    → IsQueue db
    → identifier_ok worker ≡ true
    → leb until at ≡ false
    → (NoneQueued db × (claim_next worker at until db ≡ ok (none, db)))
      ⊎ ((e : RunEntry) × IsFirst e db
          × (claim_next worker at until db
              ≡ ok (some (claimed_run worker at until e.run), claimed_db worker at until e db)))
unfolding NoneQueued claim_next
claim_next-IsFirst worker at until db q w later = elim (Option-cases (first_queued db.runs)) [
  | inl empty ↦ inl ((λ x i. first_queued-none x db.runs empty i), rw (later, empty) refl)
  | inr (e, found) ↦
      let (i, queued) = first_queued-In e db.runs found in
      let state = (same_run_state_iff e.run.state RunState.queued).0 queued in
      inr (
        e,
        record {
          stored = i;
          queued = state;
          least = λ x j s. first_queued-least e x db.runs found j s;
        },
        rw (later, found, claim_row_exact e worker at until db w q i state) refl,
      )
]
