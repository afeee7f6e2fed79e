-- ===== src/Execution/Hoare.antt =====
-- Postconditions of actions that end normally or, where `L` holds, by a loss of ownership.
use pangi.Prelude.{
  ℕ, suc, Bool, true, false, if◌then◌else◌, ◌≡◌, refl, ap, sym, subst, arith, Bool-cases, inl, inr,
  map,
}
use pangi.Prelude.Results.{Result, ok, err}
use pangi.Runs.Validity.{IsAware}
use pangi.Execution.World.{
  RunRow, World, EngineError, ownership_lost, Exec, ◌>>=◌, ◌>>◌, raise_if, lift,
}
use pangi.Execution.Store.{Claim, Env, is_owner, enter, aware_clock}
use pangi.Execution.Table.{nodes, Good}
use pangi.Execution.Contracts.{step_task_id}
use pangi.Runs.States.{delegate}

pub data Runs {A : Type 0} (L : Type 0) (Q : A → World → Type 0)
    (r : Result EngineError (A × World)) : Type 0 where
  done : (a : A) (w : World) → r ≡ ok (a, w) → Q a w → Runs L Q r
  lost : r ≡ err ownership_lost → L → Runs L Q r

pub Runs-bind :
    {A B : Type 0} {L : Type 0} {P : A → World → Type 0} {Q : B → World → Type 0} (m : Exec A)
    (f : A → Exec B) (w : World)
    → Runs L P (m w)
    → ((a : A) (w' : World) → P a w' → Runs L Q (f a w'))
    → Runs L Q ((m >>= f) w)
Runs-bind {L = L} {Q = Q} m f w (done a w' e p) k =
    subst (Runs L Q) (sym (ap (λ r. elim r [ ok (x, w'') ↦ f x w'' | err er ↦ err er ]) e))
      (k a w' p)
Runs-bind {L = L} {Q = Q} m f w (lost e l) k =
    lost (ap (λ r. elim r [ ok (x, w'') ↦ f x w'' | err er ↦ err er ]) e) l

pub Runs-weaken :
    {A : Type 0} {L : Type 0} {P Q : A → World → Type 0} {r : Result EngineError (A × World)}
    → Runs L P r
    → ((a : A) (w : World) → P a w → Q a w)
    → Runs L Q r
Runs-weaken (done a w e p) k = done a w e (k a w p)
Runs-weaken (lost e l) k = lost e l

-- A guard that does not raise.
pub Runs-raise_if :
    {B : Type 0} {L : Type 0} {Q : B → World → Type 0} (b : Bool) (error : EngineError) (k : Exec B)
    (w : World)
    → b ≡ false
    → Runs L Q (k w)
    → Runs L Q ((raise_if b error >> k) w)
Runs-raise_if {L = L} {Q = Q} b error k w h r =
    subst (λ c. Runs L Q ((raise_if c error >> k) w)) (sym h) r

-- A value that is there.
pub Runs-lift :
    {A B : Type 0} {L : Type 0} {Q : B → World → Type 0} (m : Result EngineError A) (a : A)
    (f : A → Exec B) (w : World)
    → m ≡ ok a
    → Runs L Q (f a w)
    → Runs L Q ((lift m >>= f) w)
Runs-lift {L = L} {Q = Q} m a f w h r = subst (λ c. Runs L Q ((lift c >>= f) w)) (sym h) r

pub Runs-if :
    {A : Type 0} {L : Type 0} {Q : A → World → Type 0} (b : Bool) (x y : Exec A) (w : World)
    → (b ≡ true → Runs L Q (x w))
    → (b ≡ false → Runs L Q (y w))
    → Runs L Q ((if b then x else y) w)
Runs-if true x y w f g = f refl
Runs-if false x y w f g = g refl

enter_ok :
    (env : Env) (claim : Claim) (w : World)
    → IsAware (env.clock w.tick)
    → is_owner claim (env.interfere w.tick w.run) (env.clock w.tick) ≡ true
    → enter env claim w
      ≡ ok (env.clock w.tick, record w { tick = suc w.tick; run = env.interfere w.tick w.run })
unfolding enter
enter_ok env claim w a h = ground arith

enter_lost :
    (env : Env) (claim : Claim) (w : World)
    → IsAware (env.clock w.tick)
    → is_owner claim (env.interfere w.tick w.run) (env.clock w.tick) ≡ false
    → enter env claim w ≡ err ownership_lost
unfolding enter
enter_lost env claim w a h = ground arith

-- The clock gives aware times; what the claim's owner sees of the run's row before and after
-- other tasks have written it; and what follows when they take the ownership away.
pub record Ownership (env : Env) (claim : Claim) (L : Type 0) (O : RunRow → Type 0) : Type 0 where
  pub clock_aware : (n : ℕ) → IsAware (env.clock n)
  pub lose :
      (n : ℕ) (row : RunRow)
      → O row
      → is_owner claim (env.interfere n row) (env.clock n) ≡ false
      → L
  pub own : (n : ℕ) (row : RunRow) → is_owner claim row (env.clock n) ≡ true → O row

-- The state between two transactions of the engine.
pub record Holds (O : RunRow → Type 0) (w : World) : Type 0 where
  pub owned : O w.run
  pub good : Good w.steps
  pub delegated : w.plan.mode ≡ delegate
  pub planned : nodes w.steps ≡ map step_task_id w.plan.steps

clock_ok :
    (env : Env) (claim : Claim) (w : World)
    → IsAware (env.clock w.tick)
    → aware_clock env claim w ≡ ok (tt, w)
unfolding aware_clock
clock_ok env claim w a = ground arith

module _ (env : Env) (claim : Claim) (L : Type 0) (O : RunRow → Type 0)
    (own : Ownership env claim L O) where
  -- A transaction begins: the steps and the plan stay, and the claim is owned.
  pub enter-Runs :
      (w : World)
      → O w.run
      → Runs L
          (λ at w'. (w'.steps ≡ w.steps) × (w'.plan ≡ w.plan) × O w'.run × IsAware at)
          (enter env claim w)
  enter-Runs w o =
      let a = own.clock_aware w.tick in
      elim (Bool-cases (is_owner claim (env.interfere w.tick w.run) (env.clock w.tick))) [
        | inl h ↦ done _ _ (enter_ok env claim w a h) (refl, refl, own.own w.tick _ h, a)
        | inr h ↦ lost (enter_lost env claim w a h) (own.lose w.tick w.run o h)
      ]

  -- The clock's reading is aware.
  pub Runs-clock :
      {B : Type 0} {Q : B → World → Type 0} (k : Exec B) (w : World)
      → Runs L Q (k w)
      → Runs L Q ((aware_clock env claim >> k) w)
  Runs-clock {B = B} {Q = Q} k w r =
      subst
        (λ c.
          Runs L Q
            (elim c as (λ _. Result EngineError (B × World)) [ ok (u, v) ↦ k v | err e ↦ err e ]))
        (sym (clock_ok env claim w (own.clock_aware w.tick))) r
