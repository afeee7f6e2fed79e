-- ===== src/Execution/Termination.antt =====
-- The engine ends with an outcome: recovery, the loop on its fuel, and `execute` as a whole.
use pangi.Prelude.{
  ℕ, zero, suc, ◌<◌, Bool, true, false, ◌&&◌, ◌||◌, not, List, [], ◌∷◌, Option, none, some, length,
  if◌then◌else◌, eq_refl, ◌≡◌, refl, sym, ap, ◌∙◌, subst, ◌⊎◌, inl, inr, arith,
}
use pangi.Prelude.Results.{ok}
use pangi.Prelude.Sets.{contains}
use pangi.Prelude.Distinct.{Distinct, In}
use pangi.Runs.States.{delegate, StepState, same_step_state, same_step_state_iff, is_terminal_step}
use pangi.Execution.Contracts.{
  ExecutionPolicy, policy_init, ExecutionPlanSnapshot, PreparedExecutionPlan, StepExecutionRequest,
  is_direct,
}
use pangi.Execution.World.{RunRow, World, Exec, ◌>>=◌, pure, each}
use pangi.Execution.Store.{Claim, Env, retry_interrupted_step, load_for_claim}
use pangi.Execution.Engine.{
  Reply, recover_step, prepare_recovery, round, rounds, execute_direct, execute,
}
use pangi.Execution.Table.{Row, node, nodes, replace, In-replace, In-replace_other, queued_count}
use pangi.Execution.Hoare.{Runs, done, Runs-bind, Runs-weaken, Runs-if, Ownership, Holds}
use pangi.Execution.Writes.{retry_interrupted_step-Runs}
use pangi.Execution.Progress.{is_settled}
use pangi.Execution.Sweep.{apart_of}
use pangi.Execution.Operations.{load-Runs}
use pangi.Execution.Working.{Services}
use pangi.Execution.Selections.{queued_count-le}
use pangi.Execution.Rounds.{AreSettled, Ended}
use pangi.Execution.Loop.{snapshot_of, RoundEnd, round-Runs}

-- A row that an execution can begin with: queued, ended, or interrupted and idempotent.
abbrev pub is_recoverable : Row → Bool
is_recoverable s =
    is_settled s || (same_step_state s.step.state StepState.interrupted && s.step.idempotent)

-- The table after recovery: nothing but the listed rows is unsettled.
abbrev pub SettledBut : List Row → List Row → Type 0
SettledBut bs steps = (s : Row) → In s steps → In s bs ⊎ (is_settled s ≡ true)

-- What becomes of an optional result.
Runs-option :
    {A B : Type 0} {L : Type 0} {Q : B → World → Type 0} (result : Option A) (x : A → Exec B)
    (y : Exec B) (w : World) (P : Option A → Type 0)
    → P result
    → ((a : A) → P (some a) → Runs L Q (x a w))
    → (P none → Runs L Q (y w))
    → Runs L Q ((elim result as (λ k. Exec B) [ some a ↦ x a | none ↦ y ]) w)
Runs-option none x y w P p f g = g p
Runs-option (some a) x y w P p f g = f a p

same_snapshot :
    (s : ExecutionPlanSnapshot) (w : World)
    → s.steps ≡ w.steps
    → s.plan ≡ w.plan
    → s ≡ snapshot_of w
same_snapshot s w a b = λ i. record { plan = b i; steps = a i }

module _ (env : Env) (policy : ExecutionPolicy) (executor : StepExecutionRequest → Reply)
    (claim : Claim) (L : Type 0) (O : RunRow → Type 0) (own : Ownership env claim L O)
    (plan : PreparedExecutionPlan) (services : Services env claim executor plan) where
  settled_after :
      (b r : Row) (bs steps : List Row)
      → is_settled r ≡ true
      → SettledBut (b ∷ bs) steps
      → SettledBut bs (replace b r steps)
  settled_after b r bs steps h f x i = elim (In-replace b r x steps i) [
    | inl (j, other) ↦ elim (f x j) [
      | inl k ↦ elim k [
        | inl e ↦ absurd (ground (arith, ap node e, eq_refl (node b)))
        | inr l ↦ inl l
      ]
      | inr settled ↦ inr settled
    ]
    | inr e ↦ inr (rw e h)
  ]

  -- One step of recovery: the step is settled, the others stay.
  recover_step-Runs :
      (b : Row) (bs : List Row) (w : World)
      → Holds O w
      → In b w.steps
      → contains (node b) (nodes bs) ≡ false
      → is_recoverable b ≡ true
      → SettledBut (b ∷ bs) w.steps
      → Runs L
          (λ u w'.
            Holds O w'
            × (w'.plan ≡ w.plan)
            × ((c : Row) → In c bs → In c w.steps → In c w'.steps)
            × SettledBut bs w'.steps)
          (recover_step env policy executor claim b w)
  unfolding is_terminal_step
  recover_step-Runs b bs w h i apart rec f =
      Runs-if (not (same_step_state b.step.state StepState.interrupted)) _ _ w
        (λ other. done tt w refl (
          h,
          refl,
          (λ c j k. k),
          λ x j. elim (f x j) [
            | inl k ↦ elim k [ inl e ↦ inr (rw e (ground arith)) | inr l ↦ inl l ]
            | inr settled ↦ inr settled
          ],
        ))
        (λ interrupted.
          Runs-if (not b.step.idempotent) _ _ w (λ not_idempotent. absurd (ground arith))
            (λ idempotent.
              Runs-bind (retry_interrupted_step env claim b) _ w
                (retry_interrupted_step-Runs env claim L O own b w services.step_ids services.run_id
                  ((same_step_state_iff b.step.state StepState.interrupted).0 (ground arith))
                  (ground arith) h i)
                λ r w' (wrote, (at, e)). done tt w' refl (
                  wrote.holds,
                  wrote.plan,
                  (λ c j k.
                      rw wrote.steps (In-replace_other b r c w.steps k (apart_of b c bs apart j))),
                  rw wrote.steps (settled_after b r bs w.steps (rw e refl) f),
                )))

  recover_all-Runs :
      (bs : List Row) (w : World)
      → Holds O w
      → Distinct (nodes bs)
      → ((b : Row) → In b bs → In b w.steps × (is_recoverable b ≡ true))
      → SettledBut bs w.steps
      → Runs L
          (λ us w'. Holds O w' × (w'.plan ≡ w.plan) × AreSettled w'.steps)
          (each (recover_step env policy executor claim) bs w)
  unfolding each
  recover_all-Runs [] w h d r f =
      done [] w refl (h, refl, λ s i. elim (f s i) [ inl j ↦ elim j [ ] | inr settled ↦ settled ])
  recover_all-Runs (b ∷ bs) w h d r f =
      Runs-bind (recover_step env policy executor claim b) _ w
        (recover_step-Runs b bs w h (r b (inl refl)).0 d.0 (r b (inl refl)).1 f)
        λ u w' (h', plan, rest, f').
          Runs-bind (each (recover_step env policy executor claim) bs) _ w'
            (recover_all-Runs bs w' h' d.1 (λ c j. (rest c j (r c (inr j)).0, (r c (inr j)).1)) f')
            λ us w'' (h'', plan', settled). done (u ∷ us) w'' refl (h'', plan' ∙ plan, settled)

  -- The loop ends within as many rounds as rows are queued, and one more.
  rounds-Runs :
      (fuel : ℕ) (w : World)
      → policy_init policy ≡ ok policy
      → w.plan ≡ plan
      → queued_count w.steps < fuel
      → AreSettled w.steps
      → Holds O w
      → Runs L (Ended claim.run_id) (rounds env policy executor claim fuel (snapshot_of w) w)
  unfolding rounds
  rounds-Runs zero w p same l settled h = absurd (omega (arith, l))
  rounds-Runs (suc fuel) w p same l settled h =
      Runs-bind (round env policy executor claim (snapshot_of w)) _ w
        (round-Runs env policy executor claim L O own plan services w p same settled h)
        (λ result w'. λ e.
          Runs-option result pure
            (load_for_claim env claim >>= λ snapshot.
              rounds env policy executor claim fuel snapshot)
            w' (λ o. RoundEnd env policy executor claim L O own plan services w o w') e
            (λ o e'. done o w' refl e')
            (λ a.
              Runs-bind (load_for_claim env claim) _ w' (load-Runs env claim L O own w' a.holds)
                λ snapshot w'' loaded.
                  subst
                    (λ s. Runs L (Ended claim.run_id) (rounds env policy executor claim fuel s w''))
                    (sym (same_snapshot snapshot w'' loaded.read loaded.read_plan))
                    (rounds-Runs fuel w'' p (loaded.plan ∙ a.plan ∙ same)
                      (rw loaded.steps (omega (arith, l, a.fewer))) (rw loaded.steps a.settled)
                      loaded.holds)))

  -- `execute` after the table has been read.
  body-Runs :
      (w : World)
      → policy_init policy ≡ ok policy
      → w.plan ≡ plan
      → w.plan.mode ≡ delegate
      → ((s : Row) → In s w.steps → is_recoverable s ≡ true)
      → Holds O w
      → Runs L (Ended claim.run_id) (
          (prepare_recovery env policy executor claim (snapshot_of w) >>= λ recovered.
          rounds env policy executor claim (suc (length recovered.steps)) recovered)
            w)
  unfolding prepare_recovery
  body-Runs w p same m r h =
      Runs-bind (prepare_recovery env policy executor claim (snapshot_of w)) _ w
        (Runs-bind (each (recover_step env policy executor claim) w.steps) _ w
          (recover_all-Runs w.steps w h h.good.distinct (λ b i. (i, r b i)) (λ s i. inl i))
          λ us w' (h', kept, settled).
            Runs-weaken
              {Q = λ s w''.
                (s ≡ snapshot_of w'') × (w''.plan ≡ plan) × AreSettled w''.steps × Holds O w''}
              (load-Runs env claim L O own w' h')
              λ s w'' l. (
                same_snapshot s w'' l.read l.read_plan,
                l.plan ∙ kept ∙ same,
                rw l.steps settled,
                l.holds,
              ))
        λ recovered w'' (e, same'', settled, h'').
          subst
            (λ s.
              Runs L (Ended claim.run_id)
                (rounds env policy executor claim (suc (length s.steps)) s w''))
            (sym e)
            (rounds-Runs (suc (length w''.steps)) w'' p same''
              (omega (arith, queued_count-le w''.steps)) settled h'')

  -- Under `Ownership`, a policy that its constructor accepts, and `Services` for the plan (the
  -- results that are recorded for its tasks pass the redactor, fit the table and have checked error
  -- codes), on a well-formed table (`Holds`) of that plan, a delegate one whose rows are each
  -- queued, ended, or interrupted and idempotent: `execute` returns an outcome, or it raises that
  -- the ownership is lost and `L` holds. When it returns, every step has ended, the table is well
  -- formed, the outcome is the one of the steps, and the run's row has its state, warnings and
  -- error code.
  pub execute-Runs :
      (w : World)
      → policy_init policy ≡ ok policy
      → w.plan ≡ plan
      → w.plan.mode ≡ delegate
      → ((s : Row) → In s w.steps → is_recoverable s ≡ true)
      → Holds O w
      → Runs L (Ended claim.run_id) (execute env policy executor claim w)
  unfolding execute
  execute-Runs w p same m r h =
      Runs-bind (load_for_claim env claim) _ w (load-Runs env claim L O own w h) λ snapshot w' l.
        subst
          (λ s. Runs L (Ended claim.run_id) (
            (if is_direct s.plan.mode
                then execute_direct env policy executor claim s
                else (prepare_recovery env policy executor claim s >>= λ recovered.
                    rounds env policy executor claim (suc (length recovered.steps)) recovered))
              w'))
          (sym (same_snapshot snapshot w' l.read l.read_plan))
          (Runs-if (is_direct w'.plan.mode) _ _ w'
            (λ direct_mode. absurd (
              cc (
                direct_mode,
                ap (λ (q : PreparedExecutionPlan). is_direct q.mode) l.plan,
                ap is_direct m,
              )))
            (λ _.
              body-Runs w' p (l.plan ∙ same) (ap (λ (q : PreparedExecutionPlan). q.mode) l.plan ∙ m)
                (rw l.steps r) l.holds))
