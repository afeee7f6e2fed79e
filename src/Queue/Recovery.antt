-- ===== src/Queue/Recovery.antt =====
-- The loop of `recover_expired`: it recovers every row it is given, in order.
use pangi.Prelude.{
  ℕ, String, Bool, true, false, not, ◌||◌, ◌≡◌, refl, arith, List, [], ◌∷◌, ◌++◌, map, keep, str_eq,
  eq_iff, if◌then◌else◌, Bool-cases, inl, inr, ◌⊎◌, ◌∙◌, ap, sym, subst,
}
use pangi.Prelude.Distinct.{In, Distinct}
use pangi.Prelude.Sets.{contains}
use pangi.Prelude.Keyed.{apart_of, In-replace, In-replace_other, In-replace_self}
use pangi.Prelude.Results.{ok}
use pangi.Runs.States.{RunState, composing, same_run_state}
use pangi.Runs.Contracts.{Run, RunStep}
use pangi.Queue.Contracts.{RunRecoveryResult}
use pangi.Queue.Database.{RunEntry, Database, entry_id, is_leased}
use pangi.Queue.Recovering.{recover_rows, add_recovered}
use pangi.Queue.Moves.{AllMoved, AllMoved-refl, AllMoved-trans}
use pangi.Queue.Invariant.{IsQueue, IsEntry-run_from_row}
use pangi.Queue.Recovered.{is_blocked, Recovery, recover_leased-Recovery}

keep_agree :
    (p q : RunEntry → Bool) (xs : List RunEntry)
    → ((x : RunEntry) → In x xs → p x ≡ q x)
    → keep p xs ≡ keep q xs
keep_agree p q [] f = refl
keep_agree p q (x ∷ xs) f = ground (arith, f x (inl refl), keep_agree p q xs (λ y i. f y (inr i)))

append_snoc :
    (xs : List String) (x : String) (ys : List String) → (xs ++ x ∷ []) ++ ys ≡ xs ++ x ∷ ys
append_snoc [] x ys = refl
append_snoc (y ∷ xs) x ys = ap (λ l. y ∷ l) (append_snoc xs x ys)

-- The ids of the rows whose Runs recovery queues again, and of those that it fails.
abbrev pub requeued_ids : List RunStep → List RunEntry → List String
requeued_ids steps rows = map entry_id (keep (λ e. not (is_blocked steps e)) rows)

abbrev pub failed_ids : List RunStep → List RunEntry → List String
failed_ids steps rows = map entry_id (keep (is_blocked steps) rows)

abbrev pub outcome_state : Bool → RunState
outcome_state blocked = if blocked then RunState.failed else RunState.queued

outcome_free : (b : Bool) → is_leased (outcome_state b) ≡ false
outcome_free b = ground arith

-- A stored row of the Run of `e`, in the state that recovery gives it.
abbrev pub IsOutcome : List RunStep → RunEntry → Database → Type 0
IsOutcome steps e db' =
    (x : RunEntry) × In x db'.runs
    × (x.run.id ≡ e.run.id)
    × (x.run.state ≡ outcome_state (is_blocked steps e))

-- What the recovery of `rows` makes of the tables and of the result so far.
pub record Sweep (rows : List RunEntry) (result : RunRecoveryResult) (db : Database)
    (result' : RunRecoveryResult) (db' : Database) : Type 0 where
  pub queue : IsQueue db'
  pub moves : AllMoved db.runs db'.runs
  pub requeued : result'.requeued_run_ids ≡ result.requeued_run_ids ++ requeued_ids db.steps rows
  pub failed : result'.failed_run_ids ≡ result.failed_run_ids ++ failed_ids db.steps rows
  pub kept :
      (x : RunEntry)
      → In x db.runs
      → contains (entry_id x) (map entry_id rows) ≡ false
      → In x db'.runs
  pub outcome : (e : RunEntry) → In e rows → IsOutcome db.steps e db'
  pub only :
      (x : RunEntry)
      → In x db'.runs
      → (In x db.runs × (contains (entry_id x) (map entry_id rows) ≡ false))
        ⊎ (is_leased x.run.state ≡ false)

append_nil : (xs : List String) → xs ≡ xs ++ []
append_nil [] = refl
append_nil (x ∷ xs) = ap (λ l. x ∷ l) (append_nil xs)

none-Sweep :
    (result : RunRecoveryResult) (db : Database) → IsQueue db → Sweep [] result db result db
unfolding contains
none-Sweep result db q = record {
  queue = q;
  moves = AllMoved-refl db.runs;
  requeued = append_nil _;
  failed = append_nil _;
  kept = λ x i h. i;
  outcome = λ e i. elim i [ ];
  only = λ x i. inl (i, refl);
}

add_requeued :
    (r : Run) (result : RunRecoveryResult) (b : Bool)
    → r.state ≡ (if b then RunState.failed else RunState.queued)
    → (add_recovered r result).requeued_run_ids
      ≡ (if b then result.requeued_run_ids else result.requeued_run_ids ++ r.id ∷ [])
add_requeued r result true h = ground arith
add_requeued r result false h = ground arith

add_failed :
    (r : Run) (result : RunRecoveryResult) (b : Bool)
    → r.state ≡ (if b then RunState.failed else RunState.queued)
    → (add_recovered r result).failed_run_ids
      ≡ (if b then result.failed_run_ids ++ r.id ∷ [] else result.failed_run_ids)
add_failed r result true h = ground arith
add_failed r result false h = ground arith

apart : (s t : String) → str_eq s t ≡ false → str_eq t s ≡ false
apart s t h = ground (arith, eq_iff s t, eq_iff t s)

-- The recovery of one row does not change which of the others are blocked.
still_blocked :
    (e y : RunEntry) (rest : List RunEntry) (db db1 : Database) (r : Run)
    → Recovery e db r db1
    → contains (entry_id e) (map entry_id rest) ≡ false
    → In y rest
    → is_blocked db1.steps y ≡ is_blocked db.steps y
still_blocked e y rest db db1 r rec new i =
    ap (λ b. same_run_state y.run.state composing || b)
      (rec.others y.run.id (apart e.run.id y.run.id (apart_of entry_id e y rest new i)))

still_stored :
    (e y : RunEntry) (db db1 : Database) (r : Run)
    → Recovery e db r db1
    → str_eq e.run.id y.run.id ≡ false
    → In y db.runs
    → In y db1.runs
still_stored e y db db1 r rec other i =
    subst (λ l. In y l) (sym rec.runs) (In-replace_other entry_id e rec.row y db.runs i other)

requeued_first :
    (r : Run) (result : RunRecoveryResult) (steps : List RunStep) (e : RunEntry)
    (rest : List RunEntry)
    → r.state ≡ (if is_blocked steps e then RunState.failed else RunState.queued)
    → r.id ≡ e.run.id
    → (add_recovered r result).requeued_run_ids ++ requeued_ids steps rest
      ≡ result.requeued_run_ids ++ requeued_ids steps (e ∷ rest)
requeued_first r result steps e rest h s = elim (Bool-cases (is_blocked steps e)) [
  | inl b ↦
      ap (λ l. l ++ requeued_ids steps rest) (add_requeued r result (is_blocked steps e) h)
      ∙ rw b refl
  | inr b ↦
      ap (λ l. l ++ requeued_ids steps rest) (add_requeued r result (is_blocked steps e) h)
      ∙ rw (b, s) (append_snoc result.requeued_run_ids e.run.id (requeued_ids steps rest))
]

failed_first :
    (r : Run) (result : RunRecoveryResult) (steps : List RunStep) (e : RunEntry)
    (rest : List RunEntry)
    → r.state ≡ (if is_blocked steps e then RunState.failed else RunState.queued)
    → r.id ≡ e.run.id
    → (add_recovered r result).failed_run_ids ++ failed_ids steps rest
      ≡ result.failed_run_ids ++ failed_ids steps (e ∷ rest)
failed_first r result steps e rest h s = elim (Bool-cases (is_blocked steps e)) [
  | inl b ↦
      ap (λ l. l ++ failed_ids steps rest) (add_failed r result (is_blocked steps e) h)
      ∙ rw (b, s) (append_snoc result.failed_run_ids e.run.id (failed_ids steps rest))
  | inr b ↦
      ap (λ l. l ++ failed_ids steps rest) (add_failed r result (is_blocked steps e) h) ∙ rw b refl
]

step-Sweep :
    (e : RunEntry) (rest : List RunEntry) (result result' : RunRecoveryResult)
    (db db1 db' : Database) (r : Run)
    → In e db.runs
    → contains (entry_id e) (map entry_id rest) ≡ false
    → Recovery e db r db1
    → Sweep rest (add_recovered r result) db1 result' db'
    → Sweep (e ∷ rest) result db result' db'
unfolding contains
step-Sweep e rest result result' db db1 db' r i new rec sweep =
    let blocked = λ (y : RunEntry) (j : In y rest). still_blocked e y rest db db1 r rec new j in
    let id : r.id ≡ e.run.id = ap (λ (z : Run). z.id) (sym rec.stored) ∙ rec.same_id in
    let row_in : In rec.row db1.runs =
      subst (λ l. In rec.row l) (sym rec.runs) (In-replace_self entry_id e rec.row db.runs i) in
    record {
      queue = sweep.queue;
      moves = AllMoved-trans db.runs db1.runs db'.runs rec.moves sweep.moves;
      requeued =
          sweep.requeued
          ∙ ap (λ l. (add_recovered r result).requeued_run_ids ++ map entry_id l)
              (keep_agree _ _ rest (λ y j. ap not (blocked y j)))
          ∙ requeued_first r result db.steps e rest rec.state id;
      failed =
          sweep.failed
          ∙ ap (λ l. (add_recovered r result).failed_run_ids ++ map entry_id l)
              (keep_agree _ _ rest blocked)
          ∙ failed_first r result db.steps e rest rec.state id;
      kept = λ x j h.
          sweep.kept x (still_stored e x db db1 r rec (apart x.run.id e.run.id (ground arith)) j)
            (ground arith);
      outcome = λ y j. elim j [
        | inl f ↦
            subst (λ z. IsOutcome db.steps z db') (sym f)
              (
                rec.row,
                sweep.kept rec.row row_in
                    (ap (λ t. contains t (map entry_id rest)) rec.same_id ∙ new),
                rec.same_id,
                ap (λ (z : Run). z.state) rec.stored ∙ rec.state,
              )
        | inr k ↦
            let (x, stored, same, state) = sweep.outcome y k in
            (x, stored, same, state ∙ ap outcome_state (blocked y k))
      ];
      only = λ x j. elim (sweep.only x j) [
        | inl (k, h) ↦
            elim (In-replace entry_id e rec.row x db.runs (subst (λ l. In x l) rec.runs k)) [
              | inl (m, other) ↦ inl (m, (ground (arith, apart e.run.id x.run.id other)))
              | inr same ↦ inr (
                  ap (λ z. is_leased z.run.state) same
                  ∙ ap (λ (z : Run). is_leased z.state) rec.stored
                  ∙ ap is_leased rec.state
                  ∙ outcome_free (is_blocked db.steps e))
            ]
        | inr free ↦ inr free
      ];
    }

-- The loop over stored leased rows always succeeds. It extends the two lists with the ids of the
-- rows, those that are not blocked and those that are; every given Run ends up queued or failed
-- accordingly, every other row stays, and no new lease appears.
pub recover_rows-Sweep :
    (rows : List RunEntry) (at : ℕ) (result : RunRecoveryResult) (db : Database)
    → IsQueue db
    → Distinct (map entry_id rows)
    → ((e : RunEntry) → In e rows → In e db.runs × (is_leased e.run.state ≡ true))
    → (result' : RunRecoveryResult) × (db' : Database) × (recover_rows rows at result db
        ≡ ok (result', db'))
      × Sweep rows result db result' db'
unfolding recover_rows
recover_rows-Sweep [] at result db q d stored = (result, db, refl, none-Sweep result db q)
recover_rows-Sweep (e ∷ rest) at result db q d stored =
    let (i, leased) = stored e (inl refl) in
    let (r, db1, done, rec) = recover_leased-Recovery e at db q i leased in
    let (result', db', loop, sweep) =
      recover_rows-Sweep rest at (add_recovered r result) db1 rec.queue d.1 (λ y j. (
        still_stored e y db db1 r rec (apart_of entry_id e y rest d.0 j) (stored y (inr j)).0,
        (stored y (inr j)).1,
      )) in
    (
      result',
      db',
      rw (IsEntry-run_from_row (q.entries e i), done) loop,
      step-Sweep e rest result result' db db1 db' r i d.0 rec sweep,
    )
