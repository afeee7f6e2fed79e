-- ===== src/Execution/Progress.antt =====
-- In every round of the engine some step can be cancelled or started, or all steps have ended.
use pangi.Prelude.{
  String, Bool, true, false, ◌&&◌, ◌||◌, List, [], ◌∷◌, any, all, keep, is_empty, if◌then◌else◌,
  str_eq, eq_iff, eq_refl, Bool-cases, ◌≡◌, refl, subst, inl, inr, arith,
}
use pangi.Prelude.Results.{ok}
use pangi.Prelude.Sets.{contains, subset}
use pangi.Prelude.Distinct.{Distinct, In, subset-contains}
use pangi.Runs.States.{is_terminal_step}
use pangi.Runs.Outcome.{is_failed_step}
use pangi.Execution.Engine.{all_completed, any_failed, queued_where, is_queued}
use pangi.Execution.Table.{Row, node, nodes, deps_in_order, Good}
use pangi.Execution.Lookup.{
  done_in, failed_in, item_of-In, all_completed-ok, any_failed-ok, queued_where-ok,
  dependencies_known,
}

-- A queued row, or one that has ended.
abbrev pub is_settled : Row → Bool
is_settled s = is_queued s || is_terminal_step s.step.state

abbrev pub is_blocked_in : List Row → Row → Bool
is_blocked_in steps s = is_queued s && any (failed_in steps) s.step.depends_on

abbrev pub is_ready_in : List Row → Row → Bool
is_ready_in steps s = is_queued s && all (done_in steps) s.step.depends_on

pub blocked-ok :
    (steps : List Row)
    → Good steps
    → queued_where (any_failed steps) steps ≡ ok (keep (is_blocked_in steps) steps)
blocked-ok steps g =
    queued_where-ok (any_failed steps) (any (failed_in steps)) steps
      (λ s i. any_failed-ok steps s.step.depends_on (λ d m. dependencies_known steps s d g i m))

pub ready-ok :
    (steps : List Row)
    → Good steps
    → queued_where (all_completed steps) steps ≡ ok (keep (is_ready_in steps) steps)
ready-ok steps g =
    queued_where-ok (all_completed steps) (all (done_in steps)) steps
      (λ s i. all_completed-ok steps s.step.depends_on (λ d m. dependencies_known steps s d g i m))

pub In-keep : (p : Row → Bool) (x : Row) (xs : List Row) → In x (keep p xs) → In x xs × (p x ≡ true)
In-keep p x [] i = elim i [ ]
In-keep p x (y ∷ ys) i = elim (Bool-cases (p y)) [
  | inl h ↦ elim (subst (λ (t : Bool). In x (if t then y ∷ keep p ys else keep p ys)) h i) [
    | inl e ↦ (inl e, rw e h)
    | inr j ↦ let (k, q) = In-keep p x ys j in (inr k, q)
  ]
  | inr h ↦
      let (k, q) =
        In-keep p x ys (subst (λ (t : Bool). In x (if t then y ∷ keep p ys else keep p ys)) h i) in
      (inr k, q)
]

keep-empty :
    (p : Row → Bool) (x : Row) (xs : List Row) → is_empty (keep p xs) ≡ true → In x xs → p x ≡ false
keep-empty p x [] h i = elim i [ ]
keep-empty p x (y ∷ ys) h (inl e) = rw e (ground arith)
keep-empty p x (y ∷ ys) h (inr i) = keep-empty p x ys (ground arith) i

-- Dependencies that have all ended are all completed, or one of them has failed.
all_or_any :
    (steps : List Row) (ds : List String)
    → ((d : String) → contains d ds ≡ true → (done_in steps d || failed_in steps d) ≡ true)
    → (all (done_in steps) ds || any (failed_in steps) ds) ≡ true
unfolding contains
all_or_any steps [] f = refl
all_or_any steps (d ∷ ds) f =
    ground (arith, f d (rw (eq_refl d) refl), all_or_any steps ds (λ x m. f x (ground (arith, m))))

-- A row that has ended is done or failed under its node.
ended_under_node :
    (steps : List Row) (s : Row)
    → Distinct (nodes steps)
    → In s steps
    → is_terminal_step s.step.state ≡ true
    → (done_in steps (node s) || failed_in steps (node s)) ≡ true
unfolding is_terminal_step is_failed_step
ended_under_node steps s d i t = ground (arith, item_of-In s steps d i)

none_queued :
    (steps : List Row)
    → Distinct (nodes steps)
    → ((s : Row) → In s steps → is_settled s ≡ true)
    → is_empty (keep (is_blocked_in steps) steps) ≡ true
    → is_empty (keep (is_ready_in steps) steps) ≡ true
    → (seen : List String) (rest : List Row) → deps_in_order seen rest ≡ true
    → ((s : Row) → In s rest → In s steps)
    → ((d : String) → contains d seen ≡ true → (done_in steps d || failed_in steps d) ≡ true)
    → all (λ s. is_terminal_step s.step.state) rest ≡ true
unfolding contains
none_queued steps d settled b r seen [] o f known = refl
none_queued steps d settled b r seen (s ∷ rest) o f known =
    let i = f s (inl refl) in
    let deps : subset s.step.depends_on seen ≡ true = ground arith in
    let each_ended =
      all_or_any steps s.step.depends_on
        (λ x m. known x (subset-contains s.step.depends_on seen x deps m)) in
    let blocked = keep-empty (is_blocked_in steps) s steps b i in
    let ready = keep-empty (is_ready_in steps) s steps r i in
    let ended : is_terminal_step s.step.state ≡ true = ground (arith, settled s i) in
    rw ended (
      none_queued steps d settled b r (node s ∷ seen) rest (ground arith) (λ x j. f x (inr j))
        (λ x m. elim (Bool-cases (str_eq x (node s))) [
          | inl same ↦ rw ((eq_iff x (node s)).0 same) (ended_under_node steps s d i ended)
          | inr other ↦ known x (ground arith)
        ]))

-- If no step is blocked and none is ready, all steps have ended: execution is never stuck.
pub ended_of_idle :
    (steps : List Row)
    → Good steps
    → ((s : Row) → In s steps → is_settled s ≡ true)
    → is_empty (keep (is_blocked_in steps) steps) ≡ true
    → is_empty (keep (is_ready_in steps) steps) ≡ true
    → all (λ s. is_terminal_step s.step.state) steps ≡ true
unfolding contains
ended_of_idle steps g settled b r =
    none_queued steps g.distinct settled b r [] steps g.ordered (λ s i. i) (λ d m. absurd (cc m))
