-- ===== src/Queue/Served.antt =====
-- The operations of the store by a Run's id, known or not.
use pangi.Prelude.{
  ℕ, String, Bool, true, false, ◌&&◌, none, ◌≡◌, refl, arith, List, [], ◌∷◌, map, leb,
  if◌then◌else◌, Bool-cases, Option-cases, inl, inr, sym, subst,
}
use pangi.Prelude.Int.{ℤ, same_ℤ}
use pangi.Prelude.Results.{Result, ok, err, ◌>>=◌}
use pangi.Prelude.Sets.{contains}
use pangi.Runs.States.{RunState, same_run_state, run_transition_allowed}
use pangi.Runs.Contracts.{identifier_ok}
use pangi.Queue.Database.{
  RunEntry, Database, QueueError, not_found, conflict, select_run, entry_id, put_run,
}
use pangi.Queue.Store.{
  can_renew, renewed, can_queue, enqueue, claim_next, can_cancel, cancel, heartbeat,
}
use pangi.Queue.Recovering.{recover_expired, abandon_claim}
use pangi.Queue.Moves.{
  Moved, AllMoved, AllMoved-refl, Moved-refl, Moved-once, stay, replace-AllMoved,
}
use pangi.Queue.Invariant.{IsQueue}
use pangi.Queue.Writes.{select_run-some}
use pangi.Queue.Exact.{
  queued_run, claimed_run, enqueue_exact, queued_db-IsQueue, claimed_db-IsQueue,
}
use pangi.Queue.Claiming.{claim_next-IsFirst}
use pangi.Queue.Cancelling.{cancelled_run, cancel_stored, cancelled_db-IsQueue}
use pangi.Queue.Leases.{
  beaten, heartbeat_stored, heartbeat_absent, beaten-IsQueue, abandon_claim_cases,
}
use pangi.Queue.Expiry.{recover_expired-IsRecovered}

-- A result that is a well-formed queue, reached from the first one by transitions of its Runs, or
-- one of the two errors that callers handle.
unfoldable pub IsServed {ℓ} : {A : Type ℓ} → Database → Result QueueError (A × Database) → Type 0
IsServed db (ok (a, db')) = IsQueue db' × AllMoved db.runs db'.runs
IsServed db (err not_found) = Unit
IsServed db (err conflict) = Unit
IsServed db (err _) = ⊥

pub IsServed-next :
    {A B : Type 0} (db : Database) (call : Result QueueError (A × Database)) (f : A → B)
    → IsServed db call
    → IsServed db (call >>= λ (a, db'). ok (f a, db'))
unfolding IsServed
IsServed-next db (ok (a, db')) f h = h
IsServed-next db (err not_found) f h = h
IsServed-next db (err conflict) f h = h
IsServed-next db (err _) f h = h

IsServed-if :
    {A : Type 0} (db : Database) (b : Bool) (x y : Result QueueError (A × Database))
    → (b ≡ true → IsServed db x)
    → (b ≡ false → IsServed db y)
    → IsServed db (if b then x else y)
IsServed-if db true x y h k = h refl
IsServed-if db false x y h k = k refl

queued-Moved :
    (e : RunEntry) (at : ℕ)
    → can_queue e.run.state ≡ true
    → Moved e (put_run (queued_run at e.run) e)
unfolding run_transition_allowed
queued-Moved e at c = Moved-once e (put_run (queued_run at e.run) e) refl refl (ground arith) refl

pub enqueue-IsServed :
    (id : String) (revision : ℤ) (at : ℕ) (db : Database)
    → IsQueue db
    → IsServed db (enqueue id revision at db)
unfolding IsServed enqueue
enqueue-IsServed id revision at db q = elim (Option-cases (select_run id db.runs)) [
  | inl absent ↦ rw absent tt
  | inr (e, found) ↦
      let (i, same) = select_run-some id e db.runs found in
      subst (λ k. IsServed db (enqueue k revision at db)) (sym same)
        (subst (IsServed db) (sym (enqueue_exact e revision at db q i)) (
          IsServed-if db (same_ℤ e.run.revision revision && can_queue e.run.state) _ _
            (λ c. (
              queued_db-IsQueue e at db q i,
              replace-AllMoved e (put_run (queued_run at e.run) e) db.runs q.distinct i
                  (queued-Moved e at (ground arith)),
            ))
            (λ c. tt)))
]

cancelled-Moved :
    (e : RunEntry) (at : ℕ)
    → can_cancel e.run.state ≡ true
    → Moved e (put_run (cancelled_run at e.run) e)
unfolding run_transition_allowed
cancelled-Moved e at c =
    Moved-once e (put_run (cancelled_run at e.run) e) refl refl (ground arith) refl

pub cancel-IsServed :
    (id : String) (at : ℕ) (db : Database) → IsQueue db → IsServed db (cancel id at db)
unfolding IsServed cancel
cancel-IsServed id at db q = elim (Option-cases (select_run id db.runs)) [
  | inl absent ↦ rw absent tt
  | inr (e, found) ↦
      let (i, same) = select_run-some id e db.runs found in
      subst (λ k. IsServed db (cancel k at db)) (sym same)
        (subst (IsServed db) (sym (cancel_stored e at db q i)) (
          IsServed-if db (same_run_state e.run.state RunState.cancelled) _ _
            (λ c. (q, AllMoved-refl db.runs))
            (λ c.
              IsServed-if db (can_cancel e.run.state) _ _
                (λ free. (
                  cancelled_db-IsQueue e at db q i,
                  replace-AllMoved e (put_run (cancelled_run at e.run) e) db.runs q.distinct i
                      (cancelled-Moved e at free),
                ))
                (λ closed. tt))))
]

claimed-Moved :
    (e : RunEntry) (worker : String) (at until : ℕ)
    → e.run.state ≡ RunState.queued
    → Moved e (put_run (claimed_run worker at until e.run) e)
unfolding run_transition_allowed
claimed-Moved e worker at until c =
    Moved-once e (put_run (claimed_run worker at until e.run) e) refl refl (ground arith) refl

pub claim_next-IsServed :
    (worker : String) (at until : ℕ) (db : Database)
    → IsQueue db
    → identifier_ok worker ≡ true
    → leb until at ≡ false
    → IsServed db (claim_next worker at until db)
unfolding IsServed
claim_next-IsServed worker at until db q w later =
    elim (claim_next-IsFirst worker at until db q w later) [
      | inl (_, done) ↦ subst (IsServed db) (sym done) (q, AllMoved-refl db.runs)
      | inr (e, first, done) ↦ subst (IsServed db) (sym done) (
        claimed_db-IsQueue e worker at until db w q first.stored,
        replace-AllMoved e (put_run (claimed_run worker at until e.run) e) db.runs q.distinct
            first.stored (claimed-Moved e worker at until first.queued),
      )
    ]

select_none :
    (id : String) (xs : List RunEntry)
    → select_run id xs ≡ none
    → contains id (map entry_id xs) ≡ false
unfolding select_run contains
select_none id [] h = refl
select_none id (x ∷ xs) h = ground (arith, select_none id xs)

beaten-Moved : (e : RunEntry) (worker : String) (at until : ℕ) → Moved e (beaten worker at until e)
beaten-Moved e worker at until = elim (Bool-cases (can_renew e.run.id worker at e)) [
  | inl c ↦
      subst (λ (b : Bool). Moved e (if b then renewed at until e else e)) (sym c)
        (record { same_id = refl; same_request = refl; steps = 0; moves = stay; revision = refl })
  | inr c ↦
      subst (λ (b : Bool). Moved e (if b then renewed at until e else e)) (sym c) (Moved-refl e)
]

pub heartbeat-IsServed :
    (id worker : String) (at until : ℕ) (db : Database)
    → IsQueue db
    → leb until at ≡ false
    → IsServed db (heartbeat id worker at until db)
unfolding IsServed
heartbeat-IsServed id worker at until db q later = elim (Option-cases (select_run id db.runs)) [
  | inl absent ↦
      subst (IsServed db)
        (sym (heartbeat_absent id worker at until db (select_none id db.runs absent) later))
        (q, AllMoved-refl db.runs)
  | inr (e, found) ↦
      let (i, same) = select_run-some id e db.runs found in
      subst (λ k. IsServed db (heartbeat k worker at until db)) (sym same)
        (subst (IsServed db) (sym (heartbeat_stored e worker at until db q i later)) (
          beaten-IsQueue e worker at until db q i,
          replace-AllMoved e (beaten worker at until e) db.runs q.distinct i
              (beaten-Moved e worker at until),
        ))
]

pub abandon_claim-IsServed :
    (id worker : String) (at : ℕ) (db : Database)
    → IsQueue db
    → IsServed db (abandon_claim id worker at db)
unfolding IsServed abandon_claim
abandon_claim-IsServed id worker at db q = elim (Option-cases (select_run id db.runs)) [
  | inl absent ↦ rw (abandon_claim, absent) (q, AllMoved-refl db.runs)
  | inr (e, found) ↦
      let (i, same) = select_run-some id e db.runs found in
      subst (λ k. IsServed db (abandon_claim k worker at db)) (sym same)
        (elim (abandon_claim_cases e worker at db q i) [
          | inl (_, done) ↦ subst (IsServed db) (sym done) (q, AllMoved-refl db.runs)
          | inr (_, (r, db', done, rec)) ↦ subst (IsServed db) (sym done) (rec.queue, rec.moves)
        ])
]

pub recover_expired-IsServed :
    (at : ℕ) (db : Database) → IsQueue db → IsServed db (recover_expired at db)
unfolding IsServed
recover_expired-IsServed at db q =
    let (db', done, rec) = recover_expired-IsRecovered at db q in
    subst (IsServed db) (sym done) (rec.queue, rec.moves)
