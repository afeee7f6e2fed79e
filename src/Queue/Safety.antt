-- ===== src/Queue/Safety.antt =====
-- Every call of RunQueueService keeps the queue well formed and fails in the documented ways only.
use pangi.Prelude.{
  ℕ, ◌+◌, String, true, false, ◌≡◌, refl, arith, List, [], ◌∷◌, leb, Option-cases, inl, inr, ap,
}
use pangi.Prelude.Results.{Result, ok, err}
use pangi.Text.{DateTime, aware}
use pangi.Runs.Contracts.{Run, identifier_ok, is_none}
use pangi.Runs.Validity.{IsAware}
use pangi.Queue.Contracts.{RunQueuePolicy, queue_policy_init}
use pangi.Queue.Database.{Database, QueueError}
use pangi.Queue.Store.{enqueue, claim_next, cancel, heartbeat}
use pangi.Queue.Recovering.{recover_expired, abandon_claim}
use pangi.Queue.Service.{
  Command, enqueue_run, claim_run, renew_claim, cancel_run, recover_runs, give_up_claim, Response,
  claim_worker, reason_ok, now, serve, committed, serve_all,
}
use pangi.Queue.Moves.{AllMoved, AllMoved-refl, AllMoved-trans}
use pangi.Queue.Invariant.{IsQueue}
use pangi.Queue.Served.{
  IsServed, IsServed-next, enqueue-IsServed, cancel-IsServed, claim_next-IsServed,
  heartbeat-IsServed, abandon_claim-IsServed, recover_expired-IsServed,
}

-- What the callers of the service give: the runtime's own worker id, which its constructor checks,
-- claims with an owner, and reasons in the asked form.
abbrev pub IsCommand : Command → Type 0
IsCommand (claim_run worker) = identifier_ok worker ≡ true
IsCommand (renew_claim r) = is_none r.worker_id ≡ false
IsCommand (give_up_claim r reason) = (is_none r.worker_id ≡ false) × (reason_ok reason ≡ true)
IsCommand _ = Unit

lease_later :
    (p : RunQueuePolicy) (at : ℕ)
    → queue_policy_init p ≡ ok p
    → leb (at + p.lease_duration) at ≡ false
unfolding queue_policy_init
lease_later p at h = ground arith

claim_worker_ok : (r : Run) → is_none r.worker_id ≡ false → (w : String) × (claim_worker r ≡ ok w)
unfolding claim_worker
claim_worker_ok r h = elim (Option-cases r.worker_id) [
  | inl absent ↦ absurd (cc (ap is_none absent, h))
  | inr (w, e) ↦ (w, rw e refl)
]

now_aware : (clock : DateTime) → IsAware clock → (at : ℕ) × (now clock ≡ ok at)
unfolding now
now_aware (DateTime.naive t) h = elim h [ ]
now_aware (aware t) h = (t, refl)

-- Under an accepted policy and an aware clock, each call with such arguments, on any well-formed
-- queue and for a known or unknown Run, raises that the Run is not found or in conflict, or returns
-- with a well-formed queue, in which every row is still there with its id and request and every Run
-- has gone through allowed transitions, as many as its revision grew by. No constructor rejects a
-- value and no stored row is invalid.
pub serve-IsServed :
    (policy : RunQueuePolicy) (clock : DateTime) (command : Command) (db : Database)
    → queue_policy_init policy ≡ ok policy
    → IsAware clock
    → IsCommand command
    → IsQueue db
    → IsServed db (serve policy clock command db)
unfolding serve now
serve-IsServed policy (DateTime.naive t) command db p h c q = elim h [ ]
serve-IsServed policy (aware at) (enqueue_run id revision) db p h c q =
    IsServed-next db (enqueue id revision at db) Response.queued
      (enqueue-IsServed id revision at db q)
serve-IsServed policy (aware at) (claim_run worker) db p h c q =
    IsServed-next db (claim_next worker at (at + policy.lease_duration) db) Response.claimed
      (claim_next-IsServed worker at (at + policy.lease_duration) db q c (lease_later policy at p))
serve-IsServed policy (aware at) (renew_claim r) db p h c q =
    let (w, e) = claim_worker_ok r c in
    rw e (
      IsServed-next db (heartbeat r.id w at (at + policy.lease_duration) db) Response.renewal
        (heartbeat-IsServed r.id w at (at + policy.lease_duration) db q (lease_later policy at p)))
serve-IsServed policy (aware at) (cancel_run id) db p h c q =
    IsServed-next db (cancel id at db) Response.cancellation (cancel-IsServed id at db q)
serve-IsServed policy (aware at) recover_runs db p h c q =
    IsServed-next db (recover_expired at db) Response.recovery (recover_expired-IsServed at db q)
serve-IsServed policy (aware at) (give_up_claim r reason) db p h c q =
    let (w, e) = claim_worker_ok r c.0 in
    rw (c.1, e)
      (IsServed-next db (abandon_claim r.id w at db) Response.recovery
        (abandon_claim-IsServed r.id w at db q))

-- Every call of a sequence
abbrev pub AreCommands : List (DateTime × Command) → Type 0
AreCommands [] = Unit
AreCommands ((clock, command) ∷ rest) = IsAware clock × IsCommand command × AreCommands rest

committed-IsQueue :
    {A : Type 0} (r : Result QueueError (A × Database)) (db : Database)
    → IsServed db r
    → IsQueue db
    → IsQueue (committed r db) × AllMoved db.runs (committed r db).runs
unfolding IsServed
committed-IsQueue (ok (a, db')) db s q = s
committed-IsQueue (err e) db s q = (q, AllMoved-refl db.runs)

-- Any sequence of such calls, the failing ones included, leaves a well-formed queue: the ids are
-- distinct, each row reads back, only running and composing Runs have a lease and all of these have
-- one, and the events of each Run are numbered from 1 without gaps. Every row is still there, with
-- its id and request, and every Run has gone through allowed transitions, as many as its revision
-- grew by.
pub serve_all-IsQueue :
    (policy : RunQueuePolicy) (calls : List (DateTime × Command)) (db : Database)
    → queue_policy_init policy ≡ ok policy
    → AreCommands calls
    → IsQueue db
    → IsQueue (serve_all policy calls db) × AllMoved db.runs (serve_all policy calls db).runs
unfolding serve_all
serve_all-IsQueue policy [] db p c q = (q, AllMoved-refl db.runs)
serve_all-IsQueue policy ((clock, command) ∷ rest) db p c q =
    let (q', m) =
      committed-IsQueue (serve policy clock command db) db
        (serve-IsServed policy clock command db p c.0 c.1 q) q in
    let (q'', m') = serve_all-IsQueue policy rest _ p c.2 q' in (q'', AllMoved-trans _ _ _ m m')
