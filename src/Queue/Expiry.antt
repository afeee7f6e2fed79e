-- ===== src/Queue/Expiry.antt =====
-- `recover_expired` in a well-formed queue.
use pangi.Prelude.{ℕ, true, false, ◌≡◌, refl, arith, List, map, Bool-cases, inl, inr, ◌∙◌}
use pangi.Prelude.Distinct.{In, Distinct}
use pangi.Prelude.Sets.{contains}
use pangi.Prelude.Keyed.{
  contains-keys, contains-keep_other, In-keep, keep-In, Distinct-keep, keep_apart,
}
use pangi.Prelude.Results.{ok}
use pangi.Queue.Contracts.{RunRecoveryResult, recovery_init}
use pangi.Queue.Database.{RunEntry, Database, entry_id, is_leased, is_expired, expired_rows}
use pangi.Queue.Recovering.{recover_expired, no_recovery}
use pangi.Queue.Moves.{AllMoved}
use pangi.Queue.Invariant.{IsQueue}
use pangi.Queue.Recovered.{is_blocked}
use pangi.Queue.Recovery.{requeued_ids, failed_ids, IsOutcome, Sweep, recover_rows-Sweep}
use pangi.Queue.Sorting.{In-by_lease, by_lease-In, Distinct-by_lease, contains-by_lease}

-- The tables after the recovery of all expired leases.
pub record IsRecovered (at : ℕ) (db db' : Database) : Type 0 where
  pub queue : IsQueue db'
  pub moves : AllMoved db.runs db'.runs
  pub none_expired : (x : RunEntry) → In x db'.runs → is_expired at x ≡ false
  pub kept : (x : RunEntry) → In x db.runs → is_expired at x ≡ false → In x db'.runs
  pub outcome : (e : RunEntry) → In e db.runs → is_expired at e ≡ true → IsOutcome db.steps e db'

-- The selected rows are the stored ones whose lease has expired.
expired_rows-In :
    (at : ℕ) (e : RunEntry) (xs : List RunEntry)
    → In e (expired_rows at xs)
    → In e xs × (is_expired at e ≡ true)
expired_rows-In at e xs i = In-keep (is_expired at) e xs (In-by_lease e _ i)

expired_rows_kept :
    (at : ℕ) (x : RunEntry) (xs : List RunEntry)
    → Distinct (map entry_id xs)
    → In x xs
    → is_expired at x ≡ false
    → contains (entry_id x) (map entry_id (expired_rows at xs)) ≡ false
expired_rows_kept at x xs d i h =
    contains-by_lease x.run.id _ ∙ contains-keep_other entry_id (is_expired at) x xs d i h

expired_rows-Distinct :
    (at : ℕ) (xs : List RunEntry)
    → Distinct (map entry_id xs)
    → Distinct (map entry_id (expired_rows at xs))
expired_rows-Distinct at xs d = Distinct-by_lease _ (Distinct-keep entry_id (is_expired at) xs d)

free_not_expired : (at : ℕ) (x : RunEntry) → is_leased x.run.state ≡ false → is_expired at x ≡ false
free_not_expired at x h = rw h refl

Sweep-IsRecovered :
    (at : ℕ) (db db' : Database) (result : RunRecoveryResult)
    → IsQueue db
    → Sweep (expired_rows at db.runs) no_recovery db result db'
    → IsRecovered at db db'
Sweep-IsRecovered at db db' result q sweep = record {
  queue = sweep.queue;
  moves = sweep.moves;
  none_expired = λ x i. elim (sweep.only x i) [
    | inl (j, absent) ↦ elim (Bool-cases (is_expired at x)) [
      | inl h ↦ absurd (
          cc (
            absent,
            contains-keys entry_id x (expired_rows at db.runs)
                (by_lease-In x _ (keep-In (is_expired at) x db.runs j h)),
          ))
      | inr h ↦ h
    ]
    | inr free ↦ free_not_expired at x free
  ];
  kept = λ x i h. sweep.kept x i (expired_rows_kept at x db.runs q.distinct i h);
  outcome = λ e i h. sweep.outcome e (by_lease-In e _ (keep-In (is_expired at) e db.runs i h));
}

-- The result of `recover_expired`
abbrev pub expired_result : ℕ → Database → RunRecoveryResult
expired_result at db = record {
  requeued_run_ids = requeued_ids db.steps (expired_rows at db.runs);
  failed_run_ids = failed_ids db.steps (expired_rows at db.runs);
}

recovery_init_ok :
    (at : ℕ) (db : Database)
    → IsQueue db
    → recovery_init (expired_result at db) ≡ ok (expired_result at db)
unfolding recovery_init
recovery_init_ok at db q =
    rw
      (keep_apart entry_id (is_blocked db.steps) (expired_rows at db.runs)
        (expired_rows-Distinct at db.runs q.distinct))
      refl

leased_of_expired : (at : ℕ) (e : RunEntry) → is_expired at e ≡ true → is_leased e.run.state ≡ true
leased_of_expired at e h = ground arith

result_eq :
    (r s : RunRecoveryResult)
    → r.requeued_run_ids ≡ s.requeued_run_ids
    → r.failed_run_ids ≡ s.failed_run_ids
    → r ≡ s
result_eq r s a b = λ i. record { requeued_run_ids = a i; failed_run_ids = b i }

-- `recover_expired` always succeeds. It names the Runs whose lease has expired, in the order of
-- their leases: as failed those that were composing or have a step that may not run twice, and as
-- queued again the others. Afterwards no lease is expired, each of these Runs is stored in that
-- state, and every other row is as before.
pub recover_expired-IsRecovered :
    (at : ℕ) (db : Database)
    → IsQueue db
    → (db' : Database) × (recover_expired at db ≡ ok (expired_result at db, db'))
      × IsRecovered at db db'
unfolding recover_expired
recover_expired-IsRecovered at db q =
    let rows = expired_rows at db.runs in
    let (result, db', loop, sweep) =
      recover_rows-Sweep rows at no_recovery db q (expired_rows-Distinct at db.runs q.distinct)
        (λ e i. let (j, h) = expired_rows-In at e db.runs i in (j, leased_of_expired at e h)) in
    let same : result ≡ expired_result at db = result_eq _ _ sweep.requeued sweep.failed in
    (
      db',
      rw (loop, same, recovery_init_ok at db q) refl,
      Sweep-IsRecovered at db db' result q sweep,
    )
