-- ===== src/Codec/Reading.antt =====
-- What is read from a stored plan, whatever the stored text says.
use pangi.Prelude.{true, ◌&&◌, List, [], ◌∷◌, ◌≡◌, All, subst, arith, leb, length}
use pangi.Prelude.Int.{ℤ}
use pangi.Prelude.Results.{Result, ok, err, >>=-eq-ok}
use pangi.Orchestration.Facts.{Json, Fields, Items, no_item, item}
use pangi.Orchestration.Contracts.{
  ValueError, DelegatedTask, task_init, validate_integer_range, hard_max_tasks,
  hard_max_task_timeout_seconds,
}
use pangi.Execution.Contracts.{
  PreparedExecutionStep, PreparedExecutionPlan, plan_init, check_direct, check_delegate,
}
use pangi.Codec.Json.{
  built, read_all, mapping, get, exact_keys, string, string_tuple, as_boolean, as_integer, as_items,
  as_optional_text,
}
use pangi.Codec.Plans.{
  plan_data, read_task, step_from_data, plan_from_data, requirement_of, mode_of, composition_of,
  check_version, plan_schema_version,
}
use pangi.Codec.RoundTrip.{plan_from_data-plan_data}

built-eq-ok : {A : Type 0} (call : Result ValueError A) (a : A) → built call ≡ ok a → call ≡ ok a
built-eq-ok (ok x) a h = ground arith
built-eq-ok (err e) a h = cc

task_init_same : (t u : DelegatedTask) → task_init t ≡ ok u → task_init u ≡ ok u
unfolding task_init
task_init_same t u h = ground arith

plan_init_same : (p q : PreparedExecutionPlan) → plan_init p ≡ ok q → plan_init q ≡ ok q
unfolding plan_init check_direct check_delegate
plan_init_same p q h = ground arith

plan_init_steps : (p q : PreparedExecutionPlan) → plan_init p ≡ ok q → p.steps ≡ q.steps
unfolding plan_init check_direct check_delegate
plan_init_steps p q h = ground arith

-- A step whose task DelegatedTask accepts.
abbrev pub IsAccepted : PreparedExecutionStep → Type 0
IsAccepted s = task_init s.task ≡ ok s.task

read_task-IsAccepted :
    (fields : Fields) (n : ℤ) (t : DelegatedTask) → read_task fields n ≡ ok t → task_init t ≡ ok t
unfolding read_task
read_task-IsAccepted fields n t h0 =
    let (_, _, h1) = >>=-eq-ok (string fields "id") _ h0 in
    let (_, _, h2) = >>=-eq-ok (string fields "subagent") _ h1 in
    let (_, _, h3) = >>=-eq-ok (string fields "objective") _ h2 in
    let (_, _, h4) = >>=-eq-ok (string_tuple fields "depends_on") _ h3 in
    let (_, _, h5) = >>=-eq-ok (string_tuple fields "connection_hints") _ h4 in
    let (_, _, h6) = >>=-eq-ok (string_tuple fields "allowed_tool_hints") _ h5 in
    task_init_same _ t (built-eq-ok _ t h6)

step_from_data-IsAccepted :
    (v : Json) (s : PreparedExecutionStep) → step_from_data v ≡ ok s → IsAccepted s
unfolding step_from_data
step_from_data-IsAccepted v s h0 =
    let (d, _, h1) = >>=-eq-ok (mapping v "execution step") _ h0 in
    let (_, _, h2) = >>=-eq-ok (exact_keys d _ "execution step") _ h1 in
    let (tv, _, h3) = >>=-eq-ok (get d "task") _ h2 in
    let (fs, _, h4) = >>=-eq-ok (mapping tv "delegated task") _ h3 in
    let (_, _, h5) = >>=-eq-ok (exact_keys fs _ "delegated task") _ h4 in
    let (iv, _, h6) = >>=-eq-ok (get d "idempotent") _ h5 in
    let (nv, _, h7) = >>=-eq-ok (get fs "timeout_seconds") _ h6 in
    let (_, _, h8) = >>=-eq-ok (as_boolean iv "idempotent") _ h7 in
    let (n, _, h9) = >>=-eq-ok (as_integer nv "timeout_seconds") _ h8 in
    let (t, made, h10) = >>=-eq-ok (read_task fs n) _ h9 in
    let (rt, _, h11) = >>=-eq-ok (string d "requirement") _ h10 in
    let (_, _, h12) = >>=-eq-ok (requirement_of rt) _ h11 in
    let same : t ≡ s.task = ground (arith, h12) in
    subst (λ u. task_init u ≡ ok u) same (read_task-IsAccepted fs n t made)

read_all-IsAccepted :
    (items : Items) (steps : List PreparedExecutionStep)
    → read_all step_from_data items ≡ ok steps
    → All IsAccepted steps
unfolding read_all
read_all-IsAccepted no_item steps h =
    let same : [] ≡ steps = ground (arith, h) in subst (All IsAccepted) same tt
read_all-IsAccepted (item v rest) steps h0 =
    let (s, first, h1) = >>=-eq-ok (step_from_data v) _ h0 in
    let (more, later, h2) = >>=-eq-ok (read_all step_from_data rest) _ h1 in
    let same : s ∷ more ≡ steps = ground (arith, h2) in
    subst (All IsAccepted) same
      (step_from_data-IsAccepted v s first, read_all-IsAccepted rest more later)

plan_from_data-inv :
    (v : Json) (p : PreparedExecutionPlan)
    → plan_from_data v ≡ ok p
    → (plan_init p ≡ ok p) × All IsAccepted p.steps
unfolding plan_from_data
plan_from_data-inv v p h0 =
    let (d, _, h1) = >>=-eq-ok (mapping v "execution plan") _ h0 in
    let (_, _, h2) = >>=-eq-ok (exact_keys d _ "execution plan") _ h1 in
    let (vv, _, h3) = >>=-eq-ok (get d "schema_version") _ h2 in
    let (_, _, h4) = >>=-eq-ok (check_version plan_schema_version vv) _ h3 in
    let (sv, _, h5) = >>=-eq-ok (get d "steps") _ h4 in
    let (items, _, h6) = >>=-eq-ok (as_items sv "steps") _ h5 in
    let (av, _, h7) = >>=-eq-ok (get d "direct_answer") _ h6 in
    let (_, _, h8) = >>=-eq-ok (as_optional_text av "direct_answer") _ h7 in
    let (mt, _, h9) = >>=-eq-ok (string d "mode") _ h8 in
    let (_, _, h10) = >>=-eq-ok (mode_of mt) _ h9 in
    let (ct, _, h11) = >>=-eq-ok (string d "composition") _ h10 in
    let (_, _, h12) = >>=-eq-ok (composition_of ct) _ h11 in
    let (steps, read, h13) = >>=-eq-ok (read_all step_from_data items) _ h12 in
    let made = built-eq-ok _ p h13 in
    let same : steps ≡ p.steps = plan_init_steps _ p made in
    (plan_init_same _ p made, subst (All IsAccepted) same (read_all-IsAccepted items steps read))

step_bounds :
    (steps : List PreparedExecutionStep)
    → All IsAccepted steps
    → All
        (λ s.
          (leb 1 s.task.timeout_seconds && leb s.task.timeout_seconds hard_max_task_timeout_seconds)
          ≡ true)
        steps
unfolding task_init validate_integer_range
step_bounds [] h = tt
step_bounds (s ∷ rest) h = (ground (arith, h.0), step_bounds rest h.1)

plan_bounds :
    (p : PreparedExecutionPlan) → plan_init p ≡ ok p → leb (length p.steps) hard_max_tasks ≡ true
unfolding plan_init
plan_bounds p h = ground (arith, h)

-- Whatever JSON value a plan is read from: it has at most the greatest number of steps, every
-- timeout is between one second and the greatest one, and writing the plan and reading it again
-- gives the same plan.
pub plan_from_data-bounds :
    (v : Json) (p : PreparedExecutionPlan)
    → plan_from_data v ≡ ok p
    → (leb (length p.steps) hard_max_tasks ≡ true)
      × All
          (λ s.
            (leb 1 s.task.timeout_seconds
              && leb s.task.timeout_seconds hard_max_task_timeout_seconds)
            ≡ true)
          p.steps
      × (plan_from_data (plan_data p) ≡ ok p)
plan_from_data-bounds v p h =
    let (good, tasks) = plan_from_data-inv v p h in
    (plan_bounds p good, step_bounds p.steps tasks, plan_from_data-plan_data p good tasks)
