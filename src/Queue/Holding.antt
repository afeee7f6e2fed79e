-- ===== src/Queue/Holding.antt =====
-- Who may renew or give up a lease: `heartbeat` and `abandon_claim` on a stored Run.
use pangi.Prelude.{
  ℕ, ◌<◌, String, true, false, [], ◌∷◌, Option, none, some, str_eq, if◌then◌else◌, ◌≡◌, ◌⊎◌, ◌↔◌,
  inl, inr, ap, arith, eq_iff,
}
use pangi.Prelude.Distinct.{In}
use pangi.Prelude.Results.{ok}
use pangi.Text.{aware}
use pangi.Runs.States.{RunState, composing, same_run_state}
use pangi.Runs.Contracts.{Run}
use pangi.Queue.Database.{RunEntry, Database, is_leased}
use pangi.Queue.Recovering.{abandon_claim}
use pangi.Queue.Invariant.{IsQueue}
use pangi.Queue.Recovered.{Recovery}
use pangi.Queue.Leases.{abandon_claim_cases}

-- The worker has claimed the Run, and the claim has not ended.
abbrev pub HoldsClaim : String → Run → Type 0
HoldsClaim worker r =
    (r.worker_id ≡ some worker) × ((r.state ≡ RunState.running) ⊎ (r.state ≡ composing))

-- The worker's lease lasts beyond the given time.
abbrev pub HoldsLease : String → ℕ → Run → Type 0
HoldsLease worker at r =
    HoldsClaim worker r × ((t : ℕ) × (r.lease_expires_at ≡ some (aware t)) × (at < t))

is_leased_iff : (s : RunState) → (is_leased s ≡ true) ↔ ((s ≡ RunState.running) ⊎ (s ≡ composing))
is_leased_iff s = ground arith

same_text_iff :
    (o : Option String) (worker : String)
    → (elim o [ none ↦ false | some w ↦ str_eq w worker ] ≡ true) ↔ (o ≡ some worker)
same_text_iff none worker = (λ h. absurd (cc h), λ h. absurd (cc h))
same_text_iff (some w) worker =
    (λ h. ap some ((eq_iff w worker).0 h), λ h. (eq_iff w worker).1 (ground (arith, h)))

-- `abandon_claim` on a stored Run always succeeds. If the worker has not claimed the Run, nothing
-- happens; if it has, the Run is recovered, and is the one Run that the result names.
pub abandon_claim-Recovery :
    (e : RunEntry) (worker : String) (at : ℕ) (db : Database)
    → IsQueue db
    → In e db.runs
    → ((¬ HoldsClaim worker e.run)
        × (abandon_claim e.run.id worker at db
            ≡ ok (record { requeued_run_ids = []; failed_run_ids = [] }, db)))
      ⊎ (HoldsClaim worker e.run
          × ((r : Run) × (db' : Database) × (abandon_claim e.run.id worker at db
                ≡ ok (
                  (if same_run_state r.state RunState.queued
                      then record { requeued_run_ids = r.id ∷ []; failed_run_ids = [] }
                      else record { requeued_run_ids = []; failed_run_ids = r.id ∷ [] }),
                  db',
                ))
              × Recovery e db r db'))
abandon_claim-Recovery e worker at db q i =
    let leased = is_leased_iff e.run.state in
    let same = same_text_iff e.run.worker_id worker in
    elim (abandon_claim_cases e worker at db q i) [
      | inl (free, done) ↦ inl (λ (w, s). absurd (ground (arith, same.1 w, leased.1 s, free)), done)
      | inr (owned, rec) ↦ inr ((same.0 (ground arith), leased.0 (ground arith)), rec)
    ]
