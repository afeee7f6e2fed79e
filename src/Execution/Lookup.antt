-- ===== src/Execution/Lookup.antt =====
-- The engine's dictionaries from nodes to steps, on a well-formed table.
use pangi.Prelude.{
  String, Bool, true, false, ◌&&◌, ◌||◌, List, [], ◌∷◌, none, some, any, all, keep, str_eq, eq_iff,
  eq_refl, Bool-cases, Option-cases, ◌≡◌, refl, sym, ◌∙◌, subst, inl, inr, arith,
}
use pangi.Prelude.Results.{Result, ok}
use pangi.Prelude.Sets.{contains, subset}
use pangi.Prelude.Distinct.{Distinct, In, subset-contains}
use pangi.Runs.Outcome.{is_failed_step}
use pangi.Execution.World.{EngineError}
use pangi.Execution.Engine.{state_of, item_of, all_completed, any_failed, queued_where, is_queued}
use pangi.Execution.Table.{Row, node, nodes, is_completed, deps_in_order, AreDone, Good}

abbrev pub is_known : List Row → String → Bool
is_known steps d = elim (item_of d steps) [ none ↦ false | some x ↦ true ]

-- The step has completed, or has failed or been cancelled.
abbrev pub done_in : List Row → String → Bool
done_in steps d = elim (item_of d steps) [ none ↦ false | some x ↦ is_completed x ]

abbrev pub failed_in : List Row → String → Bool
failed_in steps d = elim (item_of d steps) [ none ↦ false | some x ↦ is_failed_step x.step.state ]

item_of-absent :
    (d : String) (steps : List Row) → contains d (nodes steps) ≡ false → item_of d steps ≡ none
unfolding item_of contains
item_of-absent d [] h = refl
item_of-absent d (x ∷ xs) h = ground (arith, item_of-absent d xs)

item_of-head :
    (y : Row) (ys : List Row) → item_of (node y) ys ≡ none → item_of (node y) (y ∷ ys) ≡ some y
unfolding item_of
item_of-head y ys h = ground (arith, eq_refl (node y))

-- In a table with distinct nodes, a row is found under its node.
pub item_of-In :
    (x : Row) (steps : List Row)
    → Distinct (nodes steps)
    → In x steps
    → item_of (node x) steps ≡ some x
unfolding item_of
item_of-In x [] d i = elim i [ ]
item_of-In x (y ∷ ys) d (inl e) =
    subst (λ z. item_of (node z) (y ∷ ys) ≡ some z) (sym e)
      (item_of-head y ys (item_of-absent (node y) ys d.0))
item_of-In x (y ∷ ys) d (inr i) = rw (item_of-In x ys d.1 i) refl

state_of-item :
    (d : String) (steps : List Row)
    → state_of d steps ≡ elim (item_of d steps) [ none ↦ none | some x ↦ some x.step.state ]
unfolding state_of item_of
state_of-item d [] = refl
state_of-item d (x ∷ xs) = ground (arith, state_of-item d xs)

pub all_completed-ok :
    (steps : List Row) (ds : List String)
    → ((d : String) → contains d ds ≡ true → is_known steps d ≡ true)
    → all_completed steps ds ≡ ok (all (done_in steps) ds)
unfolding all_completed contains
all_completed-ok steps [] f = refl
all_completed-ok steps (d ∷ ds) f = ground (
  arith,
  state_of-item d steps,
  f d (rw (eq_refl d) refl),
  all_completed-ok steps ds (λ x m. f x (ground (arith, m))),
)

pub any_failed-ok :
    (steps : List Row) (ds : List String)
    → ((d : String) → contains d ds ≡ true → is_known steps d ≡ true)
    → any_failed steps ds ≡ ok (any (failed_in steps) ds)
unfolding any_failed contains
any_failed-ok steps [] f = refl
any_failed-ok steps (d ∷ ds) f = ground (
  arith,
  state_of-item d steps,
  f d (rw (eq_refl d) refl),
  any_failed-ok steps ds (λ x m. f x (ground (arith, m))),
)

pub queued_where-ok :
    (test : List String → Result EngineError Bool) (value : List String → Bool) (xs : List Row)
    → ((s : Row) → In s xs → test s.step.depends_on ≡ ok (value s.step.depends_on))
    → queued_where test xs ≡ ok (keep (λ s. is_queued s && value s.step.depends_on) xs)
unfolding queued_where
queued_where-ok test value [] f = refl
queued_where-ok test value (s ∷ rest) f =
    ground (arith, f s (inl refl), queued_where-ok test value rest (λ x i. f x (inr i)))

known_dependency :
    (seen : List String) (steps : List Row) (s : Row) (d : String)
    → deps_in_order seen steps ≡ true
    → In s steps
    → contains d s.step.depends_on ≡ true
    → (contains d seen || contains d (nodes steps)) ≡ true
unfolding contains
known_dependency seen [] s d o i m = elim i [ ]
known_dependency seen (x ∷ xs) s d o (inl e) m =
    let h : subset s.step.depends_on seen ≡ true = rw e (ground arith) in
    ground (arith, subset-contains s.step.depends_on seen d h m)
known_dependency seen (x ∷ xs) s d o (inr i) m =
    ground (arith, known_dependency (node x ∷ seen) xs s d (ground arith) i m)

known_of_node :
    (d : String) (steps : List Row) → contains d (nodes steps) ≡ true → is_known steps d ≡ true
unfolding contains item_of
known_of_node d [] h = cc
known_of_node d (x ∷ xs) h = ground (arith, known_of_node d xs)

-- Every dependency of a row is a node of the table.
pub dependencies_known :
    (steps : List Row) (s : Row) (d : String)
    → Good steps
    → In s steps
    → contains d s.step.depends_on ≡ true
    → is_known steps d ≡ true
unfolding contains
dependencies_known steps s d g i m =
    known_of_node d steps (ground (arith, known_dependency [] steps s d g.ordered i m))

-- What is found under a node is a row of that node.
pub item_of_sound :
    (d : String) (steps : List Row) (x : Row) → item_of d steps ≡ some x → In x steps × (node x ≡ d)
unfolding item_of
item_of_sound d [] x h = cc
item_of_sound d (y ∷ ys) x h = elim (Option-cases (item_of d ys)) [
  | inl missing ↦ (inl (ground arith), ground (arith, eq_iff d (node y)))
  | inr (z, found) ↦
      let (i, e) = item_of_sound d ys z found in
      let same : z ≡ x = ground arith in subst (λ r. In r (y ∷ ys) × (node r ≡ d)) same (inr i, e)
]

pub AreDone-done_in :
    (steps : List Row) (ds : List String) → all (done_in steps) ds ≡ true → AreDone steps ds
unfolding contains
AreDone-done_in steps [] h d m = cc
AreDone-done_in steps (e ∷ es) h d m = elim (Bool-cases (str_eq d e)) [
  | inl same ↦ elim (Option-cases (item_of e steps)) [
    | inl missing ↦ absurd (ground arith)
    | inr (x, found) ↦
        let (i, n) = item_of_sound e steps x found in
        (x, i, n ∙ sym ((eq_iff d e).0 same), ground arith)
  ]
  | inr other ↦ AreDone-done_in steps es (ground arith) d (ground arith)
]
