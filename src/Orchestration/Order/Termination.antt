-- ===== src/Orchestration/Order/Termination.antt =====
-- The loops of `_topological_order` end: every round but the last takes a task out.
use pangi.Prelude.{
  ℕ, zero, suc, ◌≤◌, ◌<◌, true, false, List, [], ◌∷◌, length, Bool-cases, ◌≡◌, ◌≢◌, arith, inl, inr,
}
use pangi.Prelude.Results.{err}
use pangi.Prelude.Distinct.{length-remove-lt, length-remove-le, length-to_set-le}
use pangi.Orchestration.Contracts.{DelegatedTask}
use pangi.Orchestration.Validator.{
  out_of_fuel, Progress, visit, pass, rounds, begin, topological_order,
}
use pangi.Orchestration.Order.{ids, length-ids}

visit_remaining :
    (t : DelegatedTask) (s : Progress) → length (visit t s).remaining ≤ length s.remaining
unfolding visit
visit_remaining t s = ground (arith, length-remove-le t.id s.remaining)

pass_remaining :
    (rest : List DelegatedTask) (s : Progress) → length (pass rest s).remaining ≤ length s.remaining
unfolding pass
pass_remaining [] s = omega arith
pass_remaining (t ∷ rest) s = omega (arith, pass_remaining rest (visit t s), visit_remaining t s)

visit_progress :
    (t : DelegatedTask) (s : Progress)
    → (visit t s).progressed ≡ true
    → s.progressed ≡ false
    → length (visit t s).remaining < length s.remaining
unfolding visit
visit_progress t s p q = ground (arith, length-remove-lt t.id s.remaining)

-- A pass that sets `progressed` has shortened `remaining`.
pub pass_progress :
    (rest : List DelegatedTask) (s : Progress)
    → (pass rest s).progressed ≡ true
    → s.progressed ≡ false
    → length (pass rest s).remaining < length s.remaining
unfolding pass
pass_progress [] s p q = cc
pass_progress (t ∷ rest) s p q = elim (Bool-cases (visit t s).progressed) [
  | inl moved ↦ omega (arith, pass_remaining rest (visit t s), visit_progress t s moved q)
  | inr still ↦ omega (arith, pass_progress rest (visit t s) p still, visit_remaining t s)
]

rounds_end :
    (tasks : List DelegatedTask) (fuel : ℕ) (s : Progress)
    → length s.remaining < fuel
    → rounds fuel tasks s ≢ err out_of_fuel
unfolding rounds
rounds_end tasks zero s h = elim h [ ]
rounds_end tasks (suc fuel) s h = ground (
  arith,
  pass_progress tasks (record s { progressed = false }),
  rounds_end tasks fuel (pass tasks (record s { progressed = false })),
)

-- The fuel that `topological_order` gives its loop is never used up.
pub topological_order_ends :
    (tasks : List DelegatedTask) → topological_order tasks ≢ err out_of_fuel
unfolding topological_order
topological_order_ends tasks =
    rounds_end tasks (suc (length tasks)) (begin tasks)
      (omega (arith, length-to_set-le (ids tasks), length-ids tasks))
