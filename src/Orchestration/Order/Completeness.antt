-- ===== src/Orchestration/Order/Completeness.antt =====
-- `_topological_order` rejects no task list that has an ordering.
use pangi.Prelude.{
  ℕ, zero, suc, ◌<◌, String, true, false, List, [], ◌∷◌, length, is_empty, Bool-cases, str_eq,
  eq_iff, eq_refl, ◌≡◌, ◌↔◌, refl, subst, ◌∙◌, inl, inr, arith,
}
use pangi.Prelude.Results.{ok}
use pangi.Prelude.Sets.{contains, subset}
use pangi.Prelude.Distinct.{
  Distinct, In, is_empty-contains, subset-contains, contains-subset, length-to_set-le,
}
use pangi.Orchestration.Contracts.{DelegatedTask}
use pangi.Orchestration.Validator.{Progress, visit, pass, rounds, begin, topological_order}
use pangi.Orchestration.Order.{ids, in_order, IsOrdering, contains-ids, length-ids}
use pangi.Orchestration.Order.Loop.{Inv, begin-Inv, round-Inv, topological_order-IsOrdering}
use pangi.Orchestration.Order.Termination.{pass_progress}

-- The condition under which a visit leaves a task where it is.
abbrev IsStuck : Progress → DelegatedTask → Type 0
IsStuck s t = contains t.id s.remaining ≡ true → subset t.depends_on s.completed ≡ false

visit_still :
    (t : DelegatedTask) (s : Progress)
    → (visit t s).progressed ≡ false
    → (visit t s ≡ s) × IsStuck s t
unfolding visit
visit_still t s p = elim (Bool-cases (contains t.id s.remaining)) [
  | inr r ↦ (rw r, λ q. cc)
  | inl r ↦ elim (Bool-cases (subset t.depends_on s.completed)) [
    | inr c ↦ (rw (r, c), λ q. c)
    | inl c ↦ absurd (ground arith)
  ]
]

pass_keeps_progress :
    (rest : List DelegatedTask) (s : Progress)
    → s.progressed ≡ true
    → (pass rest s).progressed ≡ true
unfolding pass visit
pass_keeps_progress [] s p = p
pass_keeps_progress (t ∷ rest) s p = pass_keeps_progress rest (visit t s) (ground arith)

pass_still :
    (rest : List DelegatedTask) (s : Progress)
    → (pass rest s).progressed ≡ false
    → (t : DelegatedTask) → In t rest
    → IsStuck s t
unfolding pass
pass_still [] s p t i = elim i [ ]
pass_still (u ∷ rest) s p t (inl e) = elim (Bool-cases (visit u s).progressed) [
  | inl moved ↦ cc (pass_keeps_progress rest (visit u s) moved)
  | inr still ↦ rw e (visit_still u s still).1
]
pass_still (u ∷ rest) s p t (inr j) = elim (Bool-cases (visit u s).progressed) [
  | inl moved ↦ cc (pass_keeps_progress rest (visit u s) moved)
  | inr still ↦
      pass_still rest s (subst (λ v. (pass rest v).progressed ≡ false) (visit_still u s still).0 p)
        t j
]

module _ (tasks : List DelegatedTask) (d : Distinct (ids tasks)) where
  -- If no task can be taken, whatever an ordering lists has been taken already.
  walk :
      (s : Progress)
      → Inv tasks s
      → ((t : DelegatedTask) → In t tasks → IsStuck s t)
      → (seen : List String) (order : List DelegatedTask)
      → ((x : String) → contains x seen ≡ true → contains x s.completed ≡ true)
      → in_order seen order ≡ true
      → ((t : DelegatedTask) → In t order → In t tasks)
      → (x : String) → contains x (ids order) ≡ true
      → contains x s.completed ≡ true
  unfolding contains
  walk s h stuck seen [] f o g x m = cc
  walk s h stuck seen (t ∷ order) f o g x m =
      let taken =
        taken_task s h t (stuck t (g t (inl refl)))
          (contains-subset t.depends_on s.completed
            (λ y n. f y (subset-contains t.depends_on seen y (ground arith) n)))
          (g t (inl refl)) in
      elim (Bool-cases (str_eq x t.id)) [
        | inl same ↦ rw ((eq_iff x t.id).0 same) taken
        | inr other ↦
            walk s h stuck (t.id ∷ seen) order
              (λ y n. elim (Bool-cases (str_eq y t.id)) [
                | inl same ↦ rw ((eq_iff y t.id).0 same) taken
                | inr no_match ↦ f y (ground arith)
              ])
              (ground arith) (λ u i. g u (inr i)) x (ground arith)
      ]
    where
      taken_task :
          (s : Progress)
          → Inv tasks s
          → (t : DelegatedTask) → IsStuck s t
          → subset t.depends_on s.completed ≡ true
          → In t tasks
          → contains t.id s.completed ≡ true
      taken_task s h t stuck c i = elim (h.covered t i) [
        | inl r ↦ cc (stuck r)
        | inr j ↦ rw h.completed_ids (contains-ids t s.ordered j)
      ]

ids_included :
    (xs ys : List DelegatedTask)
    → ((t : DelegatedTask) → In t xs → In t ys)
    → (x : String) → contains x (ids xs) ≡ true
    → contains x (ids ys) ≡ true
unfolding contains
ids_included [] ys f x m = cc
ids_included (t ∷ xs) ys f x m = elim (Bool-cases (str_eq x t.id)) [
  | inl same ↦ rw ((eq_iff x t.id).0 same) (contains-ids t ys (f t (inl refl)))
  | inr other ↦ ids_included xs ys (λ u i. f u (inr i)) x (ground arith)
]

head_contained : (xs : List String) → is_empty xs ≡ false → (x : String) × (contains x xs ≡ true)
unfolding contains
head_contained [] h = cc
head_contained (x ∷ xs) h = (x, rw eq_refl)

module _ (tasks order : List DelegatedTask) (d : Distinct (ids tasks))
    (o : IsOrdering tasks order) where
  -- A round with tasks left takes one, when an ordering exists.
  some_progress :
      (s : Progress)
      → Inv tasks s
      → is_empty s.remaining ≡ false
      → (pass tasks (record s { progressed = false })).progressed ≡ true
  some_progress s h e =
      elim (Bool-cases (pass tasks (record s { progressed = false })).progressed) [
        | inl moved ↦ moved
        | inr still ↦
            let (x, m) = head_contained s.remaining e in
            let known = ids_included tasks order o.complete x (h.remaining_known x m) in
            let taken =
              walk tasks d s h (pass_still tasks (record s { progressed = false }) still) [] order
                (λ y n. cc (is_empty-contains y [] refl, n)) o.sorted o.sound x known in
            cc (taken, h.disjoint x m)
      ]

  rounds_more :
      (fuel : ℕ) (s : Progress)
      → is_empty s.remaining ≡ false
      → (pass tasks (record s { progressed = false })).progressed ≡ true
      → rounds (suc fuel) tasks s ≡ rounds fuel tasks (pass tasks (record s { progressed = false }))
  unfolding rounds
  rounds_more fuel s more moved = ground arith

  rounds_complete :
      (fuel : ℕ) (s : Progress)
      → Inv tasks s
      → length s.remaining < fuel
      → (out : List DelegatedTask) × (rounds fuel tasks s ≡ ok out)
  unfolding rounds
  rounds_complete zero s h l = elim l [ ]
  rounds_complete (suc fuel) s h l = elim (Bool-cases (is_empty s.remaining)) [
    | inl done ↦ (s.ordered, rw done)
    | inr more ↦
        let moved = some_progress s h more in
        let next = pass tasks (record s { progressed = false }) in
        let (out, e) =
          rounds_complete fuel next (round-Inv tasks d s h)
            (omega (arith, pass_progress tasks (record s { progressed = false }) moved refl)) in
        (out, rounds_more fuel s more moved ∙ e)
  ]

-- On tasks with distinct identifiers `_topological_order` returns an order exactly if one exists:
-- a list of the same tasks, each once, every one behind all its dependencies.
pub topological_order_exact :
    (tasks : List DelegatedTask)
    → Distinct (ids tasks)
    → ((out : List DelegatedTask) × (topological_order tasks ≡ ok out))
      ↔ ((order : List DelegatedTask) × IsOrdering tasks order)
unfolding topological_order
topological_order_exact tasks d = (
  λ (out, e). (out, topological_order-IsOrdering tasks d e),
  λ (order, o).
      rounds_complete tasks order d o (suc (length tasks)) (begin tasks) (begin-Inv tasks d)
        (omega (arith, length-to_set-le (ids tasks), length-ids tasks)),
)
