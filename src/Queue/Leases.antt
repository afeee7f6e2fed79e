-- ===== src/Queue/Leases.antt =====
-- `heartbeat` and `abandon_claim` in a well-formed queue: only the owner renews or gives up a lease.
use pangi.Prelude.{
  ℕ, String, Bool, true, false, not, ◌&&◌, ◌||◌, ◌≡◌, refl, arith, any, List, [], ◌∷◌, map, leb,
  str_eq, eq_iff, eq_refl, if◌then◌else◌, Bool-cases, inl, inr, ◌⊎◌, ◌∙◌, ap, sym, subst,
}
use pangi.Prelude.Distinct.{In, Distinct}
use pangi.Prelude.Sets.{contains}
use pangi.Prelude.Keyed.{replace, replace_absent, contains-keys}
use pangi.Prelude.Results.{ok}
use pangi.Runs.Contracts.{Run}
use pangi.Queue.Database.{RunEntry, Database, entry_id, is_leased}
use pangi.Queue.Store.{can_renew, renewed, renew_rows, heartbeat}
use pangi.Queue.Recovering.{
  is_owned_by, add_recovered, no_recovery, abandon_current, abandon_claim, recover_leased,
}
use pangi.Queue.Invariant.{IsEntry, IsQueue, put, put-IsQueue, IsEntry-run_from_row}
use pangi.Queue.Writes.{select_run-In}
use pangi.Queue.Recovered.{Recovery, recover_leased-Recovery}

renewed-IsEntry :
    (e : RunEntry) (id worker : String) (at until : ℕ)
    → IsEntry e
    → can_renew id worker at e ≡ true
    → IsEntry (renewed at until e)
unfolding can_renew
renewed-IsEntry e id worker at until h c = record {
  request = h.request;
  run =
      let r = h.run in
      record {
        id = r.id;
        revision = r.revision;
        finished = r.finished;
        skill = r.skill;
        worker = r.worker;
        warnings = r.warnings;
        error_code = r.error_code;
        updated = tt;
        lease = tt;
        heartbeat = tt;
        started = r.started;
        ended = r.ended;
      };
  worker = h.worker;
  lease = ground arith;
  heartbeat = ground arith;
  queue_time = h.queue_time;
}

renew_absent :
    (id worker : String) (at until : ℕ) (xs : List RunEntry)
    → contains id (map entry_id xs) ≡ false
    → (renew_rows id worker at until xs ≡ xs) × (any (can_renew id worker at) xs ≡ false)
unfolding renew_rows can_renew contains
renew_absent id worker at until [] h = (refl, refl)
renew_absent id worker at until (x ∷ xs) h =
    let other : str_eq id x.run.id ≡ false = ground arith in
    let (a, b) = renew_absent id worker at until xs (ground arith) in
    (rw other (ap (λ l. x ∷ l) a), rw (other, b) refl)

not_renewed :
    (id worker : String) (at : ℕ) (x : RunEntry)
    → str_eq id x.run.id ≡ false
    → can_renew id worker at x ≡ false
unfolding can_renew
not_renewed id worker at x h = rw h refl

-- The row of a Run after a heartbeat.
abbrev pub beaten : String → ℕ → ℕ → RunEntry → RunEntry
beaten worker at until e = if can_renew e.run.id worker at e then renewed at until e else e

-- The heartbeat's UPDATE in terms of the row of its Run
renew_one :
    (e : RunEntry) (worker : String) (at until : ℕ) (xs : List RunEntry)
    → Distinct (map entry_id xs)
    → In e xs
    → (renew_rows e.run.id worker at until xs ≡ replace entry_id e (beaten worker at until e) xs)
      × (any (can_renew e.run.id worker at) xs ≡ can_renew e.run.id worker at e)
unfolding renew_rows
renew_one e worker at until [] d i = elim i [ ]
renew_one e worker at until (x ∷ xs) d (inl f) =
    let (a, b) = renew_absent x.run.id worker at until xs d.0 in
    subst
      (λ y.
        (renew_rows y.run.id worker at until (x ∷ xs)
          ≡ replace entry_id y (beaten worker at until y) (x ∷ xs))
        × (any (can_renew y.run.id worker at) (x ∷ xs) ≡ can_renew y.run.id worker at y))
      (sym f)
      (
        rw (eq_refl x.run.id, replace_absent entry_id x (beaten worker at until x) xs d.0)
            (ap (λ l. beaten worker at until x ∷ l) a),
        ground (arith, b),
      )
renew_one e worker at until (x ∷ xs) d (inr i) =
    let (a, b) = renew_one e worker at until xs d.1 i in
    let other : str_eq e.run.id x.run.id ≡ false =
      ground (arith, contains-keys entry_id e xs i, d.0, eq_iff e.run.id x.run.id) in
    let still = not_renewed e.run.id worker at x other in
    (rw (other, still) (ap (λ l. x ∷ l) a), rw (still, b) refl)

-- The heartbeat of a stored Run with a later lease, in terms of the row of the Run
pub heartbeat_stored :
    (e : RunEntry) (worker : String) (at until : ℕ) (db : Database)
    → IsQueue db
    → In e db.runs
    → leb until at ≡ false
    → heartbeat e.run.id worker at until db
      ≡ ok (can_renew e.run.id worker at e, put e (beaten worker at until e) db)
unfolding heartbeat
heartbeat_stored e worker at until db q i later =
    let (a, b) = renew_one e worker at until db.runs q.distinct i in rw (later, a, b) refl

beaten-IsEntry :
    (e : RunEntry) (worker : String) (at until : ℕ) → IsEntry e → IsEntry (beaten worker at until e)
beaten-IsEntry e worker at until h = elim (Bool-cases (can_renew e.run.id worker at e)) [
  | inl c ↦
      subst (λ (b : Bool). IsEntry (if b then renewed at until e else e)) (sym c)
        (renewed-IsEntry e e.run.id worker at until h c)
  | inr c ↦ subst (λ (b : Bool). IsEntry (if b then renewed at until e else e)) (sym c) h
]

beaten_id :
    (e : RunEntry) (worker : String) (at until : ℕ)
    → entry_id (beaten worker at until e) ≡ entry_id e
beaten_id e worker at until = elim (Bool-cases (can_renew e.run.id worker at e)) [
  | inl c ↦ rw c refl
  | inr c ↦ rw c refl
]

pub beaten-IsQueue :
    (e : RunEntry) (worker : String) (at until : ℕ) (db : Database)
    → IsQueue db
    → In e db.runs
    → IsQueue (put e (beaten worker at until e) db)
beaten-IsQueue e worker at until db q i =
    put-IsQueue e (beaten worker at until e) db q (beaten_id e worker at until)
      (beaten-IsEntry e worker at until (q.entries e i))

-- A heartbeat for a Run that is not stored changes nothing.
pub heartbeat_absent :
    (id worker : String) (at until : ℕ) (db : Database)
    → contains id (map entry_id db.runs) ≡ false
    → leb until at ≡ false
    → heartbeat id worker at until db ≡ ok (false, db)
unfolding heartbeat
heartbeat_absent id worker at until db h later =
    let (a, b) = renew_absent id worker at until db.runs h in rw (later, a, b) refl

not_both : (a b : Bool) → (a && b) ≡ true → (not a || not b) ≡ false
not_both a b h = ground arith

abandon_current-free :
    (worker : String) (r : Run) (at : ℕ) (db : Database)
    → (is_leased r.state && is_owned_by worker r) ≡ false
    → abandon_current worker r at db ≡ ok (no_recovery, db)
unfolding abandon_current
abandon_current-free worker r at db h = ground arith

abandon_current-owned :
    (worker : String) (r r' : Run) (at : ℕ) (db db' : Database)
    → (is_leased r.state && is_owned_by worker r) ≡ true
    → recover_leased r at db ≡ ok (r', db')
    → abandon_current worker r at db ≡ ok (add_recovered r' no_recovery, db')
unfolding abandon_current
abandon_current-owned worker r r' at db db' h done =
    rw (not_both (is_leased r.state) (is_owned_by worker r) h, done) refl

abandon_claim_stored :
    (e : RunEntry) (worker : String) (at : ℕ) (db : Database)
    → IsQueue db
    → In e db.runs
    → abandon_claim e.run.id worker at db ≡ abandon_current worker e.run at db
unfolding abandon_claim
abandon_claim_stored e worker at db q i =
    rw (abandon_claim, select_run-In e db q i, IsEntry-run_from_row (q.entries e i)) refl

-- The two cases of `abandon_claim` on a stored Run
pub abandon_claim_cases :
    (e : RunEntry) (worker : String) (at : ℕ) (db : Database)
    → IsQueue db
    → In e db.runs
    → (((is_leased e.run.state && is_owned_by worker e.run) ≡ false)
        × (abandon_claim e.run.id worker at db ≡ ok (no_recovery, db)))
      ⊎ (((is_leased e.run.state && is_owned_by worker e.run) ≡ true)
          × ((r : Run) × (db' : Database) × (abandon_claim e.run.id worker at db
                ≡ ok (add_recovered r no_recovery, db'))
              × Recovery e db r db'))
abandon_claim_cases e worker at db q i =
    let current = abandon_claim_stored e worker at db q i in
    elim (Bool-cases (is_leased e.run.state && is_owned_by worker e.run)) [
      | inr free ↦ inl (free, current ∙ abandon_current-free worker e.run at db free)
      | inl owned ↦
          let (r, db', done, rec) = recover_leased-Recovery e at db q i (ground arith) in
          inr (
            owned,
            (r, db', current ∙ abandon_current-owned worker e.run r at db db' owned done, rec),
          )
    ]
