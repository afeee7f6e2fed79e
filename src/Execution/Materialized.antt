-- ===== src/Execution/Materialized.antt =====
-- What `materialize_and_enqueue` stores is a table that the engine can execute.
use pangi.Prelude.{
  ℕ, String, true, List, [], ◌∷◌, Option, none, some, map, eq_refl, ◌≡◌, refl, sym, ap, ◌∙◌, subst,
  inl, inr, arith,
}
use pangi.Prelude.Int.{ℤ, pos, increment, same_ℤ}
use pangi.Prelude.Results.{Result, ok}
use pangi.Prelude.Sets.{unique, subset}
use pangi.Prelude.Distinct.{Distinct, In, unique-Distinct, any_missing}
use pangi.Text.{DateTime, aware, is_blank}
use pangi.Runs.States.{RunState, delegate, is_terminal_step}
use pangi.Orchestration.Contracts.{DelegatedTask}
use pangi.Runs.Contracts.{identifier_ok, bounded_text_ok, validate_bounded_text, check_each}
use pangi.Runs.Validity.{IsAware}
use pangi.Runs.StepValidity.{IsStep}
use pangi.Execution.Contracts.{
  PreparedExecutionPlan, PreparedExecutionStep, ExecutionPlanSnapshot, snapshot_init,
  plan_snapshot_init, plan_init, check_delegate, steps_in_order, step_task_id,
}
use pangi.Execution.World.{RunRow, EngineError}
use pangi.Execution.Materialize.{
  StoredPlan, Entry, Codec, inserted, read_rows, read_plan, accepts_plan, enqueued, store_plan,
  materialize_and_enqueue,
}
use pangi.Execution.Table.{Row, nodes, deps_in_order, IsRow, Good, step_from_row-IsRow}
use pangi.Execution.Operations.{subset_refl}
use pangi.Execution.Termination.{is_recoverable}

-- A task whose id and dependencies the constructor of a Step accepts
pub record IsStepTask (t : DelegatedTask) : Type 0 where
  pub id : bounded_text_ok t.id 255 ≡ true
  pub depends_on :
      check_each t.depends_on (λ d. validate_bounded_text d "step dependency" 255) ≡ ok tt

module _ (codec : Codec) (run_id : String) (at : DateTime)
    (ids : (run node : String) (n : ℤ) → identifier_ok (codec.step_id run node n) ≡ true)
    (run : identifier_ok run_id ≡ true) (aware_at : IsAware at) where
  abbrev rows_of : List PreparedExecutionStep → List Row
  rows_of = map (inserted codec run_id at)

  inserted_row :
      (s : PreparedExecutionStep)
      → snapshot_init (inserted codec run_id at s) ≡ ok (inserted codec run_id at s)
  unfolding snapshot_init
  inserted_row s = ground (arith, eq_refl s.task.id)

  inserted-IsStep :
      (s : PreparedExecutionStep) → IsStepTask s.task → IsStep (inserted codec run_id at s).step
  unfolding is_terminal_step bounded_text_ok is_blank
  inserted-IsStep s t = record {
    id = ids run_id s.task.id (pos 1);
    run_id = run;
    node_id = t.id;
    type = refl;
    attempt = refl;
    finished = λ h. absurd (cc h);
    depends_on = t.depends_on;
    error_code = λ c e. absurd (cc e);
    created = aware_at;
    updated = aware_at;
    started = tt;
    ended = tt;
  }

  inserted-IsRow :
      (s : PreparedExecutionStep) → IsStepTask s.task → IsRow (inserted codec run_id at s)
  inserted-IsRow s t = record {
    snapshot = inserted_row s;
    depends = refl;
    valid = inserted-IsStep s t;
    warnings = λ r e. absurd (cc e);
  }

  In-rows :
      (x : Row) (ss : List PreparedExecutionStep)
      → In x (rows_of ss)
      → (s : PreparedExecutionStep) × In s ss × (x ≡ inserted codec run_id at s)
  In-rows x [] i = elim i [ ]
  In-rows x (s ∷ ss) (inl e) = (s, inl refl, e)
  In-rows x (s ∷ ss) (inr i) = let (t, j, e) = In-rows x ss i in (t, inr j, e)

  nodes-rows : (ss : List PreparedExecutionStep) → nodes (rows_of ss) ≡ map step_task_id ss
  nodes-rows [] = refl
  nodes-rows (s ∷ ss) = ap (λ l. s.task.id ∷ l) (nodes-rows ss)

  ordered-rows :
      (seen : List String) (ss : List PreparedExecutionStep)
      → deps_in_order seen (rows_of ss) ≡ steps_in_order seen ss
  unfolding steps_in_order
  ordered-rows seen [] = refl
  ordered-rows seen (s ∷ ss) =
      ground (arith, any_missing s.task.depends_on seen, ordered-rows (s.task.id ∷ seen) ss)

  rows-Good :
      (plan : PreparedExecutionPlan)
      → plan_init plan ≡ ok plan
      → plan.mode ≡ delegate
      → ((s : PreparedExecutionStep) → In s plan.steps → IsStepTask s.task)
      → Good (rows_of plan.steps)
  unfolding plan_init check_delegate
  rows-Good plan h m texts =
      let u : unique (map step_task_id plan.steps) ≡ true = ground arith in
      let o : steps_in_order [] plan.steps ≡ true = ground arith in
      record {
        distinct =
            subst Distinct (sym (nodes-rows plan.steps))
              (unique-Distinct (map step_task_id plan.steps) u);
        ordered = ordered-rows [] plan.steps ∙ o;
        rows = λ x i. let (s, j, e) = In-rows x plan.steps i in rw e (inserted-IsRow s (texts s j));
        after_dependencies = λ x i b.
            let (s, _, e) = In-rows x plan.steps i in
            absurd (ground (arith, ap (λ (z : Row). z.step.state) e));
      }

  read_rows-ok :
      (ss : List PreparedExecutionStep)
      → ((s : PreparedExecutionStep) → In s ss → IsStepTask s.task)
      → read_rows (rows_of ss) ≡ ok (rows_of ss)
  unfolding read_rows
  read_rows-ok [] f = refl
  read_rows-ok (s ∷ ss) f = ground (
    arith,
    step_from_row-IsRow (inserted codec run_id at s) (inserted-IsRow s (f s (inl refl))),
    read_rows-ok ss (λ t i. f t (inr i)),
  )

  abbrev stored_of : String → PreparedExecutionPlan → StoredPlan
  stored_of fingerprint plan = record {
    fingerprint = fingerprint;
    plan = plan;
    steps = rows_of plan.steps;
  }

  abbrev snapshot_of_plan : PreparedExecutionPlan → ExecutionPlanSnapshot
  snapshot_of_plan plan = record { plan = plan; steps = rows_of plan.steps }

  read_plan-ok :
      (fingerprint : String) (plan : PreparedExecutionPlan)
      → plan.mode ≡ delegate
      → ((s : PreparedExecutionStep) → In s plan.steps → IsStepTask s.task)
      → read_plan (stored_of fingerprint plan) ≡ ok (snapshot_of_plan plan)
  unfolding read_plan plan_snapshot_init
  read_plan-ok fingerprint plan m texts =
      let names = nodes-rows plan.steps in
      let both = subset_refl (map step_task_id plan.steps) in
      let there = subst (λ l. subset l (map step_task_id plan.steps) ≡ true) (sym names) both in
      let back = subst (λ l. subset (map step_task_id plan.steps) l ≡ true) (sym names) both in
      ground (arith, read_rows-ok plan.steps texts, there, back)

-- What storing a plan gives and leaves.
pub record Materialized (run_id : String) (run : RunRow) (safe : PreparedExecutionPlan)
    (snapshot : ExecutionPlanSnapshot) (at : DateTime) (entry : Entry) : Type 0 where
  pub plan : snapshot.plan ≡ safe
  pub good : Good snapshot.steps
  pub planned : nodes snapshot.steps ≡ map step_task_id safe.steps
  pub recoverable : (s : Row) → In s snapshot.steps → is_recoverable s ≡ true
  pub queued :
      entry.run
      ≡ some (record run {
        state = RunState.queued;
        mode = some safe.mode;
        revision = increment run.revision;
        worker_id = none;
        lease_expires_at = none;
        heartbeat_at = none;
        error_code = none;
        updated_at = at;
        queued_at = some at;
      })

stored_first :
    (codec : Codec) (run_id : String) (revision : ℤ) (plan safe : PreparedExecutionPlan) (n : ℕ)
    (run : RunRow) (snapshot : ExecutionPlanSnapshot)
    → codec.safe_plan plan ≡ ok safe
    → same_ℤ run.revision revision ≡ true
    → accepts_plan run.state ≡ true
    → read_plan (record {
      fingerprint = codec.fingerprint plan;
      plan = safe;
      steps = map (inserted codec run_id (aware n)) safe.steps;
    })
      ≡ ok snapshot
    → materialize_and_enqueue codec run_id revision plan
        (aware n)
        (record { run = some run; stored = none })
      ≡ ok (
        snapshot,
        record {
          run = some (enqueued safe (aware n) run);
          stored = some (record {
            fingerprint = codec.fingerprint plan;
            plan = safe;
            steps = map (inserted codec run_id (aware n)) safe.steps;
          });
        },
      )
unfolding materialize_and_enqueue store_plan
stored_first codec run_id revision plan safe n run snapshot s r a h = ground arith

stored_again :
    (codec : Codec) (run_id : String) (revision : ℤ) (plan safe : PreparedExecutionPlan) (n : ℕ)
    (run : Option RunRow) (p : StoredPlan) (snapshot : ExecutionPlanSnapshot)
    → codec.safe_plan plan ≡ ok safe
    → p.fingerprint ≡ codec.fingerprint plan
    → read_plan p ≡ ok snapshot
    → materialize_and_enqueue codec run_id revision plan
        (aware n)
        (record { run = run; stored = some p })
      ≡ ok (snapshot, record { run = run; stored = some p })
unfolding materialize_and_enqueue
stored_again codec run_id revision plan safe n run p snapshot s f h =
    ground (arith, eq_refl (codec.fingerprint plan))

-- For a run in the expected revision that is received or planning, with no plan stored, an aware
-- time, run and step identifiers of the checked form, and a delegate plan that the redactor turns
-- into a delegate plan which its constructor accepts, with task ids and dependencies that are not
-- blank and have at most 255 characters: `materialize_and_enqueue` puts the run in the state QUEUED
-- with the plan's mode, the next revision, no lease and the queue time, and returns the stored plan
-- with one queued row for each step, a table that the engine can execute; and a second call, at any
-- aware time and with any expected revision, returns the same and changes nothing.
pub materialize_and_enqueue-Good :
    (codec : Codec) (run_id : String) (revision : ℤ) (plan safe : PreparedExecutionPlan) (n : ℕ)
    (run : RunRow)
    → ((r node : String) (k : ℤ) → identifier_ok (codec.step_id r node k) ≡ true)
    → codec.safe_plan plan ≡ ok safe
    → plan_init safe ≡ ok safe
    → safe.mode ≡ delegate
    → identifier_ok run_id ≡ true
    → ((s : PreparedExecutionStep) → In s safe.steps → IsStepTask s.task)
    → same_ℤ run.revision revision ≡ true
    → accepts_plan run.state ≡ true
    → (snapshot : ExecutionPlanSnapshot) × (entry : Entry) × ◌≡◌
        {A = Result EngineError (ExecutionPlanSnapshot × Entry)}
        (materialize_and_enqueue codec run_id revision plan
          (aware n)
          (record { run = some run; stored = none }))
        (ok (snapshot, entry))
      × Materialized run_id run safe snapshot (aware n) entry
      × ((later : ℕ) (other : ℤ)
          → ◌≡◌ {A = Result EngineError (ExecutionPlanSnapshot × Entry)}
              (materialize_and_enqueue codec run_id other plan (aware later) entry)
              (ok (snapshot, entry)))
unfolding is_terminal_step
materialize_and_enqueue-Good codec run_id revision plan safe n run ids s p m i texts r a =
    let stored = stored_of codec run_id (aware n) ids i tt (codec.fingerprint plan) safe in
    let read = read_plan-ok codec run_id (aware n) ids i tt (codec.fingerprint plan) safe m texts in
    (
      snapshot_of_plan codec run_id (aware n) ids i tt safe,
      record { run = some (enqueued safe (aware n) run); stored = some stored },
      stored_first codec run_id revision plan safe n run _ s r a read,
      record {
        plan = refl;
        good = rows-Good codec run_id (aware n) ids i tt safe p m texts;
        planned = nodes-rows codec run_id (aware n) ids i tt safe.steps;
        recoverable = λ x j.
            let (t, _, e) = In-rows codec run_id (aware n) ids i tt x safe.steps j in rw e refl;
        queued = refl;
      },
      λ later other.
          stored_again codec run_id other plan safe later (some (enqueued safe (aware n) run))
            stored _ s refl read,
    )
