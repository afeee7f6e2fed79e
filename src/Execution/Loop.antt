-- ===== src/Execution/Loop.antt =====
-- The engine's loop: every round goes on with fewer queued rows, or ends with an outcome.
use pangi.Prelude.{
  ℕ, ◌+◌, ◌≤◌, true, false, not, List, [], ◌∷◌, Option, none, some, take, all, keep, is_empty, map,
  ◌≡◌, refl, sym, ◌∙◌, subst, inl, inr, arith,
}
use pangi.Prelude.Results.{Result, ok}
use pangi.Prelude.Distinct.{In}
use pangi.Prelude.Sets.{contains}
use pangi.Runs.States.{StepState, same_step_state_iff, is_terminal_step}
use pangi.Orchestration.Contracts.{ValueError}
use pangi.Execution.Contracts.{
  ExecutionPolicy, policy_init, ExecutionPlanSnapshot, ExecutionOutcome, outcome_init,
  StepExecutionRequest, PreparedExecutionPlan, step_task_id,
}
use pangi.Execution.World.{RunRow, World, Exec, ◌>>=◌, pure, checked, each}
use pangi.Execution.Store.{Claim, Env, start_step, cancel_step, finish_run}
use pangi.Execution.Engine.{
  is_queued, Reply, delegate_outcome, finish_delegate, cancel_remaining, run_batch, execute_one,
  required_failure, queued_where, any_failed, all_completed, round,
}
use pangi.Execution.Table.{Row, node, Good, queued_count, contains-nodes}
use pangi.Execution.Hoare.{Runs, done, Runs-bind, Runs-weaken, Runs-lift, Runs-if, Ownership, Holds}
use pangi.Execution.Lookup.{AreDone-done_in}
use pangi.Execution.Progress.{
  is_ready_in, is_blocked_in, In-keep, blocked-ok, ready-ok, ended_of_idle,
}
use pangi.Execution.Sweep.{Swept, each-Runs}
use pangi.Execution.Operations.{load-Runs, Startable, Started, start-IsOperation}
use pangi.Execution.Working.{Services, Executable, Finished, work-IsOperation}
use pangi.Execution.Outcomes.{delegate_outcome-ok}
use pangi.Execution.Selections.{
  Distinct-keep, Distinct-take, In-take, is_empty-take, queued_count-none, queued_count-some,
}
use pangi.Execution.Rounds.{
  AreSettled, AreEnded, Ended, Advanced, outcome_state, finished_settled, finished_not_queued,
  cancel_some-Runs, cancel_all-Runs, finish_run-Runs,
}

-- The snapshot that reading the table gives.
abbrev pub snapshot_of : World → ExecutionPlanSnapshot
snapshot_of w = record { plan = w.plan; steps = w.steps }

checked-Runs :
    {A : Type 0} {L : Type 0} {Q : A → World → Type 0} (m : Result ValueError A) (a : A) (w : World)
    → m ≡ ok a
    → Q a w
    → Runs L Q (checked m w)
checked-Runs {L = L} {Q = Q} m a w h q =
    subst (λ c. Runs L Q (checked c w)) (sym h) (done a w refl q)

allows_one : (p : ExecutionPolicy) → policy_init p ≡ ok p → 1 ≤ p.max_parallel_steps
unfolding policy_init
allows_one p h = ground arith

all_ended :
    (steps : List Row) → all (λ s. is_terminal_step s.step.state) steps ≡ true → AreEnded steps
all_ended [] h s i = elim i [ ]
all_ended (x ∷ xs) h s (inl e) = rw e (ground arith)
all_ended (x ∷ xs) h s (inr i) = all_ended xs (ground arith) s i

module _ (env : Env) (policy : ExecutionPolicy) (executor : StepExecutionRequest → Reply)
    (claim : Claim) (L : Type 0) (O : RunRow → Type 0) (own : Ownership env claim L O)
    (plan : PreparedExecutionPlan) (services : Services env claim executor plan) where
  finish_delegate-Runs :
      (snapshot : ExecutionPlanSnapshot) (w : World)
      → snapshot.steps ≡ w.steps
      → AreEnded w.steps
      → Holds O w
      → Runs L (Ended claim.run_id) (finish_delegate env policy executor claim snapshot w)
  unfolding finish_delegate
  finish_delegate-Runs snapshot w same ended h =
      let o = delegate_outcome claim.run_id snapshot.steps in
      Runs-bind (finish_run env claim o.state o.warnings o.error_code) _ w
        (finish_run-Runs env claim L O own o.state o.warnings o.error_code w
          (outcome_state claim.run_id snapshot.steps) h)
        λ u w' (steps, state, warnings, code).
          let g : Good snapshot.steps = rw same h.good in
          checked-Runs (outcome_init o) o w'
            (delegate_outcome-ok claim.run_id snapshot.steps services.run_id g.rows)
            (record {
              good = rw steps h.good;
              ended = rw steps ended;
              outcome = rw (steps, same) refl;
              state = state;
              warnings = warnings;
              error_code = code;
            })

  cancel_remaining-Runs :
      (w : World)
      → AreSettled w.steps
      → Holds O w
      → Runs L
          (λ final w'. (final.steps ≡ w'.steps) × AreEnded w'.steps × Holds O w')
          (cancel_remaining env policy executor claim (snapshot_of w) w)
  unfolding cancel_remaining
  cancel_remaining-Runs w settled h =
      Runs-bind (each (cancel_step env claim "dependency_failed") (keep is_queued w.steps)) _ w
        (cancel_all-Runs env claim L O own w settled h)
        λ rs w' (h', ended).
          Runs-weaken (load-Runs env claim L O own w' h')
            λ final w'' l. (l.read, rw l.steps ended, l.holds)

  -- A batch of ready steps: started in order, then executed.
  started_of :
      (w : World) (n : ℕ) (b : Row)
      → In b (take n (keep (is_ready_in w.steps) w.steps))
      → In b w.steps × Startable env claim L O own w.steps b
  started_of w n b i =
      let (j, ready) =
        In-keep (is_ready_in w.steps) b w.steps
          (In-take n b (keep (is_ready_in w.steps) w.steps) i) in
      (
        j,
        (
          (same_step_state_iff b.step.state StepState.queued).0 (ground arith),
          AreDone-done_in w.steps b.step.depends_on (ground arith),
        ),
      )

  -- What a batch leaves.
  batch_settled :
      (bs begun rs : List Row) (s0 s1 s2 : List Row)
      → AreSettled s0
      → Swept (Started env claim L O own) bs begun s0 s1
      → Swept (Finished env policy executor claim L O own plan services) begun rs s1 s2
      → AreSettled s2
  batch_settled bs begun rs s0 s1 s2 settled a b x i = elim (b.others x i) [
    | inl (j, apart) ↦ elim (a.others x j) [
      | inl (k, _) ↦ settled x k
      | inr k ↦ absurd (cc (apart, contains-nodes x begun k))
    ]
    | inr j ↦
        let (_, _, (result, _, _, _, e)) = b.related x j in
        rw e (ground (arith, finished_settled result))
  ]

  batch_count :
      (bs begun rs : List Row) (s0 s1 s2 : List Row)
      → Swept (Started env claim L O own) bs begun s0 s1
      → Swept (Finished env policy executor claim L O own plan services) begun rs s1 s2
      → queued_count s2 + queued_count bs ≡ queued_count s0
  batch_count bs begun rs s0 s1 s2 a b = omega (
    arith,
    a.counted,
    b.counted,
    queued_count-none begun (λ r i. let (_, _, (at, e)) = a.related r i in rw e refl),
    queued_count-none rs (λ r i.
        let (_, _, (result, _, _, _, e)) = b.related r i in rw e (finished_not_queued result)),
  )

  planned_node :
      (w : World) (b : Row)
      → w.plan ≡ plan
      → Holds O w
      → In b w.steps
      → contains (node b) (map step_task_id plan.steps) ≡ true
  planned_node w b p h i =
      subst (λ (q : PreparedExecutionPlan). contains (node b) (map step_task_id q.steps) ≡ true) p
        (subst (λ ns. contains (node b) ns ≡ true) h.planned (contains-nodes b w.steps i))

  Executable-of :
      (w : World) (bs begun : List Row) (s1 : List Row)
      → ((b : Row) → In b bs → Startable env claim L O own w.steps b)
      → ((b : Row) → In b bs → In b w.steps)
      → w.plan ≡ plan
      → Holds O w
      → Swept (Started env claim L O own) bs begun w.steps s1
      → (r : Row) → In r begun
      → In r s1 × Executable env policy executor claim L O own plan services w.steps s1 r
  Executable-of w bs begun s1 f g p h s r i =
      let (b, j, (at, e)) = s.related r i in
      (s.written r i, (rw e refl, rw e (f b j).1, rw e (planned_node w b p h (g b j))))

  run_batch-Runs :
      (w : World)
      → 1 ≤ policy.max_parallel_steps
      → w.plan ≡ plan
      → is_empty (keep (is_ready_in w.steps) w.steps) ≡ false
      → AreSettled w.steps
      → Holds O w
      → Runs L
          (λ u w'. Advanced O w w')
          (run_batch env policy executor claim
            (snapshot_of w)
            (keep (is_ready_in w.steps) w.steps)
            w)
  run_batch-Runs w n p some_ready settled h =
      let ready = keep (is_ready_in w.steps) w.steps in
      let bs = take policy.max_parallel_steps ready in
      let d =
        Distinct-take policy.max_parallel_steps ready
          (Distinct-keep (is_ready_in w.steps) w.steps h.good.distinct) in
      let f = started_of w policy.max_parallel_steps in
      Runs-bind (each (start_step env claim) bs) _ w
        (each-Runs env claim L O own (Startable env claim L O own) (Started env claim L O own)
          (start_step env claim) (start-IsOperation env claim L O own) bs w h d f)
        λ begun w' a.
          Runs-bind (each (execute_one env policy executor claim (snapshot_of w)) begun) _ w'
            (each-Runs env claim L O own
              (Executable env policy executor claim L O own plan services w.steps)
              (Finished env policy executor claim L O own plan services)
              (execute_one env policy executor claim (snapshot_of w))
              (work-IsOperation env policy executor claim L O own plan services (snapshot_of w)
                h.good)
              begun w' a.holds (rw a.swept.same_nodes d)
              (Executable-of w bs begun w'.steps (λ b i. (f b i).1) (λ b i. (f b i).0) p h a.swept))
            λ rs w'' b. done tt w'' refl (record {
              holds = b.holds;
              plan = b.plan ∙ a.plan;
              settled =
                  batch_settled bs begun rs w.steps w'.steps w''.steps settled a.swept b.swept;
              fewer = omega (
                arith,
                batch_count bs begun rs w.steps w'.steps w''.steps a.swept b.swept,
                queued_count-some bs
                    (λ x i. (same_step_state_iff x.step.state StepState.queued).1 ((f x i).1).0)
                    (is_empty-take policy.max_parallel_steps ready n some_ready),
              );
            })

  -- What a round ends with.
  abbrev pub RoundEnd : World → Option ExecutionOutcome → World → Type 0
  RoundEnd w none w' = Advanced O w w'
  RoundEnd w (some o) w' = Ended claim.run_id o w'

  Runs-some :
      (m : Exec ExecutionOutcome) (w v : World)
      → Runs L (Ended claim.run_id) (m w)
      → Runs L (RoundEnd v) ((m >>= λ o. pure (some o)) w)
  Runs-some m w v r = Runs-bind m _ w r λ o w' e. done (some o) w' refl e

  Runs-none :
      {A : Type 0} (m : Exec A) (w : World)
      → Runs L (λ a w'. Advanced O w w') (m w)
      → Runs L (RoundEnd w) ((m >>= λ a. pure none) w)
  Runs-none m w r = Runs-bind m _ w r λ a w' e. done none w' refl e

  -- A round on a settled table.
  pub round-Runs :
      (w : World)
      → policy_init policy ≡ ok policy
      → w.plan ≡ plan
      → AreSettled w.steps
      → Holds O w
      → Runs L (RoundEnd w) (round env policy executor claim (snapshot_of w) w)
  unfolding round
  round-Runs w p same settled h =
      let blocked = keep (is_blocked_in w.steps) w.steps in
      let ready = keep (is_ready_in w.steps) w.steps in
      Runs-if (required_failure w.steps) _ _ w
        (λ fatal.
          Runs-bind (cancel_remaining env policy executor claim (snapshot_of w)) _ w
            (cancel_remaining-Runs w settled h)
            λ final w' (read, ended, h').
              Runs-some (finish_delegate env policy executor claim final) w' w
                (finish_delegate-Runs final w' read ended h'))
        (λ fine.
          Runs-lift (queued_where (any_failed w.steps) w.steps) blocked _ w
            (blocked-ok w.steps h.good)
            (Runs-if (not (is_empty blocked)) _ _ w
              (λ some_blocked.
                Runs-none (each (cancel_step env claim "dependency_failed") blocked) w (
                  cancel_some-Runs env claim L O own (is_blocked_in w.steps) w (λ s q. ground arith)
                    (ground arith) settled h))
              (λ none_blocked.
                Runs-lift (queued_where (all_completed w.steps) w.steps) ready _ w
                  (ready-ok w.steps h.good)
                  (Runs-if (not (is_empty ready)) _ _ w
                    (λ some_ready.
                      Runs-none (run_batch env policy executor claim (snapshot_of w) ready) w
                        (run_batch-Runs w (allows_one policy p) same (ground arith) settled h))
                    (λ none_ready.
                      let idle =
                        ended_of_idle w.steps h.good settled (ground arith) (ground arith) in
                      Runs-if (all (λ s. is_terminal_step s.step.state) w.steps) _ _ w
                        (λ over.
                          Runs-some (finish_delegate env policy executor claim (snapshot_of w)) w w
                            (finish_delegate-Runs (snapshot_of w) w refl (all_ended w.steps over)
                              h))
                        (λ not_over. absurd (cc (idle, not_over))))))))
