-- ===== src/Runs/History.antt =====
-- Histories of a Run: sequences of transitions that `transition_run` makes.
use pangi.Prelude.{ℕ, suc, Bool, true, false, none, some, not, ◌≡◌, refl, ap, ◌∙◌, arith}
use pangi.Prelude.Int.{pos}
use pangi.Prelude.Results.{ok, raise_if, raise_if-eq-ok, >>=-eq-ok}
use pangi.Text.{DateTime}
use pangi.Runs.States.{
  RunState, received, blocked, composing, run_transition_allowed, is_terminal_run,
}
use pangi.Runs.Contracts.{Run, is_none, utc}
use pangi.Runs.Transitions.{moved_run, transition_run}
use pangi.Runs.Validity.{IsRun-run_init, utc-same}

-- `History a b n`: `b` comes out of `a` by `n` transitions.
pub data History (a : Run) : Run → ℕ → Type 0 where
  start : History a a 0
  move :
      {b c : Run} {n : ℕ} (target : RunState) (t : DateTime)
      → History a b n
      → transition_run b target t ≡ ok c
      → History a c (suc n)

-- What a successful transition did.
pub transition_run-inv :
    (r : Run) (target : RunState) (t : DateTime) {c : Run}
    → transition_run r target t ≡ ok c
    → (run_transition_allowed r.state target ≡ true) × (c ≡ moved_run r target t)
unfolding transition_run
transition_run-inv r target t {c} h =
    let (u, guard, rest) =
      >>=-eq-ok (raise_if (not (run_transition_allowed r.state target)) _) _ h in
    let (t', stamp, built) = >>=-eq-ok (utc "transition timestamp" t) _ rest in
    let same : t' ≡ t = utc-same "transition timestamp" t stamp in
    (
      ground (arith, raise_if-eq-ok _ _ u guard),
      (IsRun-run_init built).1 ∙ ap (moved_run r target) same,
    )

-- A Run as `RunService` creates it: received, never started, never finished.
pub record IsFresh (r : Run) : Type 0 where
  pub state : r.state ≡ received
  pub revision : r.revision ≡ pos 0
  pub started : r.started_at ≡ none
  pub finished : r.finished_at ≡ none

-- The states after the first claim by a worker and before the end.
abbrev pub is_underway : RunState → Bool
is_underway RunState.running = true
is_underway composing = true
is_underway RunState.interrupted = true
is_underway _ = false

-- What a history of `n` transitions from a fresh Run establishes.
pub record Lifecycle (r : Run) (n : ℕ) : Type 0 where
  pub counted : r.revision ≡ pos n
  pub finished : is_none r.finished_at ≡ not (is_terminal_run r.state)
  pub underway : is_underway r.state ≡ true → is_none r.started_at ≡ false
  pub received_first : r.state ≡ received → n ≡ 0
  pub blocked_second : r.state ≡ blocked → n ≡ 1
  pub completed : r.state ≡ RunState.completed → is_none r.started_at ≡ true → n ≡ 2

fresh-Lifecycle : {r : Run} → IsFresh r → Lifecycle r 0
unfolding is_terminal_run
fresh-Lifecycle f = ground arith

move-Lifecycle :
    (b : Run) (target : RunState) (t : DateTime) (n : ℕ)
    → Lifecycle b n
    → run_transition_allowed b.state target ≡ true
    → Lifecycle (moved_run b target t) (suc n)
unfolding is_terminal_run run_transition_allowed
move-Lifecycle b target t n h ok' = ground arith

-- After any number `n` of transitions from a fresh Run: the revision is `n`; `finished_at` is set
-- exactly in the terminal states; a running, composing or interrupted Run has `started_at`; a
-- blocked Run has made one transition, and a completed Run that never started has made two.
pub History-Lifecycle : {a b : Run} {n : ℕ} → IsFresh a → History a b n → Lifecycle b n
History-Lifecycle f start = fresh-Lifecycle f
History-Lifecycle f (move {b = b} {c = c} {n = n} target t h step) =
    let (allowed, same) = transition_run-inv b target t step in
    rw same (move-Lifecycle b target t n (History-Lifecycle f h) allowed)

-- Along any history the identity, the request and the ownership of a Run stay, and `started_at`
-- stays once it is set.
pub History-keeps :
    {a b : Run} {n : ℕ}
    → History a b n
    → (b.id ≡ a.id)
      × (b.request ≡ a.request)
      × (b.worker_id ≡ a.worker_id)
      × (b.lease_expires_at ≡ a.lease_expires_at)
      × ((s : DateTime) → a.started_at ≡ some s → b.started_at ≡ some s)
History-keeps start = (refl, refl, refl, refl, λ s e. e)
History-keeps {a = a} (move {b = b} {c = c} target t h step) =
    let same = (transition_run-inv b target t step).1 in
    let (i, q, w, l, st) = History-keeps h in rw same (i, q, w, l, λ s e. ground (arith, st s e))
