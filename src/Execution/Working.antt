-- ===== src/Execution/Working.antt =====
-- Executing a running step: its dependencies' results are there, the request is accepted, and the
-- result is recorded.
use pangi.Prelude.{
  String, Bool, true, false, map, List, [], ◌∷◌, Option, none, some, if◌then◌else◌, str_eq, eq_refl,
  Option-cases, ◌≡◌, refl, sym, subst, inl, inr, arith,
}
use pangi.Prelude.Int.{ℤ}
use pangi.Prelude.Results.{Result, ok}
use pangi.Prelude.Sets.{contains}
use pangi.Prelude.Distinct.{In}
use pangi.Text.{DateTime}
use pangi.Runs.States.{StepState}
use pangi.Runs.Contracts.{identifier_ok, bounded_text_ok}
use pangi.Orchestration.Contracts.{AgentResult, ValueError, is_failed}
use pangi.Execution.Contracts.{
  ExecutionPlanSnapshot, snapshot_init, StepExecutionRequest, request_init, results_follow,
  ExecutionPolicy, PreparedExecutionPlan, step_task_id,
}
use pangi.Execution.Engine.{
  item_of, dependency_results, Reply, returned, returned_other, timed_out, raised, result_of,
  state_for, execute_one,
}
use pangi.Execution.World.{RunRow, World, Exec, ◌>>=◌, checked}
use pangi.Execution.Store.{Claim, Env, finished}
use pangi.Execution.Table.{Row, node, is_completed, IsRow, AreDone, Good}
use pangi.Execution.Hoare.{Runs, Runs-weaken, Runs-lift, Ownership, Holds}
use pangi.Execution.Transactions.{Wrote}
use pangi.Execution.Writes.{Redacts, defined_node, finish_step-Runs}
use pangi.Execution.Lookup.{item_of-In}
use pangi.Execution.Sweep.{IsOperation}

-- A request of this run on a task of the plan
abbrev pub IsRequest : Claim → PreparedExecutionPlan → StepExecutionRequest → Type 0
IsRequest claim plan q =
    (q.run_id ≡ claim.run_id) × (contains q.task.id (map step_task_id plan.steps) ≡ true)

-- What the engine relies on: the run's identifier and the new rows' identifiers have the checked
-- form; and of the results that it records for the plan's tasks, which are the executor's or its own
-- for a timeout or an error, the redactor lets each pass, and an error code is not blank and has at
-- most 120 characters. Nothing is asked of other results.
pub record Services (env : Env) (claim : Claim) (executor : StepExecutionRequest → Reply)
    (plan : PreparedExecutionPlan) : Type 0 where
  pub run_id : identifier_ok claim.run_id ≡ true
  pub step_ids : (run node : String) (n : ℤ) → identifier_ok (env.step_id run node n) ≡ true
  pub redacts :
      (q : StepExecutionRequest)
      → IsRequest claim plan q
      → (safe : AgentResult) × Redacts env claim (result_of q.task.id (executor q)) safe
  pub codes :
      (q : StepExecutionRequest)
      → IsRequest claim plan q
      → (c : String) → (result_of q.task.id (executor q)).error_code ≡ some c
      → bounded_text_ok c 120 ≡ true

recorded_code :
    (b : Bool) (o : Option String)
    → ((c : String) → o ≡ some c → bounded_text_ok c 120 ≡ true)
    → (c : String) → (if b then o else none) ≡ some c
    → bounded_text_ok c 120 ≡ true
recorded_code true o f c e = f c e
recorded_code false o f c e = absurd (cc e)

completed_result :
    (x : Row)
    → IsRow x
    → is_completed x ≡ true
    → (r : AgentResult) × (x.result ≡ some r) × (str_eq r.task_id (node x) ≡ true)
unfolding snapshot_init
completed_result x row c =
    let h : snapshot_init x ≡ ok x = row.snapshot in
    elim (Option-cases x.result) [
      | inl missing ↦ absurd (ground arith)
      | inr (r, e) ↦ (r, e, ground arith)
    ]

dependency_step :
    (steps : List Row) (d : String) (ds : List String) (x : Row) (r : AgentResult)
    (rs : List AgentResult)
    → item_of d steps ≡ some x
    → x.result ≡ some r
    → dependency_results steps ds ≡ ok rs
    → dependency_results steps (d ∷ ds) ≡ ok (r ∷ rs)
unfolding dependency_results
dependency_step steps d ds x r rs i e h = ground arith

-- Completed dependencies have their results, in the dependencies' order.
pub dependency_results-ok :
    (steps : List Row) (ds : List String)
    → Good steps
    → AreDone steps ds
    → (rs : List AgentResult) × (dependency_results steps ds ≡ ok rs)
      × (results_follow rs ds ≡ true)
unfolding dependency_results results_follow contains
dependency_results-ok steps [] g f = ([], refl, refl)
dependency_results-ok steps (d ∷ ds) g f =
    let (x, i, n, c) = f d (rw (eq_refl d) refl) in
    let (r, e, t) = completed_result x (g.rows x i) c in
    let (rs, h, l) = dependency_results-ok steps ds g (λ y m. f y (ground (arith, m))) in
    let found : item_of d steps ≡ some x =
      subst (λ z. item_of z steps ≡ some x) n (item_of-In x steps g.distinct i) in
    let task : str_eq r.task_id d ≡ true = subst (λ z. str_eq r.task_id z ≡ true) n t in
    (r ∷ rs, dependency_step steps d ds x r rs found e h, ground arith)

result_of-task : (task : String) (reply : Reply) → str_eq (result_of task reply).task_id task ≡ true
unfolding result_of
result_of-task task (returned r) = ground (arith, eq_refl task)
result_of-task task returned_other = eq_refl task
result_of-task task timed_out = eq_refl task
result_of-task task raised = eq_refl task

Runs-checked :
    {A B : Type 0} {L : Type 0} {Q : B → World → Type 0} (m : Result ValueError A) (a : A)
    (f : A → Exec B) (w : World)
    → m ≡ ok a
    → Runs L Q (f a w)
    → Runs L Q ((checked m >>= f) w)
Runs-checked {L = L} {Q = Q} m a f w h r = subst (λ c. Runs L Q ((checked c >>= f) w)) (sym h) r

request_ok :
    (q : StepExecutionRequest)
    → identifier_ok q.run_id ≡ true
    → identifier_ok q.step_id ≡ true
    → results_follow q.dependency_results q.task.depends_on ≡ true
    → request_init q ≡ ok q
unfolding request_init
request_ok q a b c = ground arith

module _ (env : Env) (policy : ExecutionPolicy) (executor : StepExecutionRequest → Reply)
    (claim : Claim) (L : Type 0) (O : RunRow → Type 0) (own : Ownership env claim L O)
    (plan : PreparedExecutionPlan) (services : Services env claim executor plan) where
  -- Executing: a running row whose dependencies had completed in the snapshot.
  abbrev pub Executable : List Row → List Row → Row → Type 0
  Executable before steps b =
      (b.step.state ≡ StepState.running)
      × AreDone before b.step.depends_on
      × (contains (node b) (map step_task_id plan.steps) ≡ true)

  abbrev pub Finished : Row → Row → Type 0
  Finished b r =
      (result : AgentResult) × (safe : AgentResult) × (code : Option String) × (at : DateTime) × (r
        ≡ finished env claim (state_for result) safe code at b)

  execute_one-Runs :
      (snapshot : ExecutionPlanSnapshot) (b : Row) (w : World)
      → Good snapshot.steps
      → Holds O w
      → In b w.steps
      → Executable snapshot.steps w.steps b
      → Runs L
          (λ r w'. Wrote O b r w w' × Finished b r)
          (execute_one env policy executor claim snapshot b w)
  unfolding execute_one
  execute_one-Runs snapshot b w g h i (running, deps, planned) =
      let row = h.good.rows b i in
      let (rs, found, follow) =
        dependency_results-ok snapshot.steps b.definition.task.depends_on g
          (rw (← row.depends) deps) in
      let request : StepExecutionRequest = record {
        run_id = claim.run_id;
        step_id = b.step.id;
        task = b.definition.task;
        dependency_results = rs;
      } in
      let result = result_of b.definition.task.id (executor request) in
      let task : str_eq result.task_id (node b) ≡ true =
        subst (λ n. str_eq result.task_id n ≡ true) (defined_node env claim b row)
          (result_of-task b.definition.task.id (executor request)) in
      let asked : IsRequest claim plan request =
        (refl, rw (defined_node env claim b row) planned) in
      let (safe, red) = services.redacts request asked in
      Runs-lift (dependency_results snapshot.steps b.definition.task.depends_on) rs _ w found (
        Runs-checked (request_init request) request _ w
          (request_ok request services.run_id row.valid.id follow)
          (Runs-weaken
            (finish_step-Runs env claim L O own b result safe
              (if is_failed result.status then result.error_code else none) w running task red
              (recorded_code (is_failed result.status) result.error_code
                (services.codes request asked))
              h i)
            (λ r w' (wrote, (at, e)). (
              wrote,
              (result, safe, (if is_failed result.status then result.error_code else none), at, e),
            ))))

  pub work-IsOperation :
      (snapshot : ExecutionPlanSnapshot)
      → Good snapshot.steps
      → IsOperation env claim L O own
          (Executable snapshot.steps)
          Finished
          (execute_one env policy executor claim snapshot)
  work-IsOperation snapshot g = record {
    runs = λ b w h i k. execute_one-Runs snapshot b w g h i k;
    same_node = λ b r (_, _, _, _, e). rw e refl;
    stable = λ steps b r c _ i _ k. k;
  }
