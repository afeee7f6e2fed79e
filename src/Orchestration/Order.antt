-- ===== src/Orchestration/Order.antt =====
-- The order that `_topological_order` returns: its specification, and the invariant of its loops.
pub mod Loop
pub mod Termination
pub mod Completeness
use pangi.Prelude.{
  ℕ, zero, suc, ◌+◌, ◌≤◌, ◌<◌, String, Bool, true, false, ◌&&◌, ◌||◌, not, List, [], ◌∷◌, ◌++◌,
  length, map, All, is_empty, if◌then◌else◌, str_eq, eq_iff, eq_refl, Bool-cases, ◌≡◌, refl, sym,
  ap, ◌∙◌, ◌⊎◌, inl, inr, arith, length-append,
}
use pangi.Prelude.Results.{Result, ok, err}
use pangi.Prelude.Sets.{
  contains, subset, to_set, unique, remove, contains-to_set, contains-remove, contains-append,
}
use pangi.Prelude.Distinct.{
  Distinct, Distinct-to_set, Distinct-remove, Distinct-snoc, length-remove, length-to_set,
  subset-contains, contains-subset, In, In-append_left, In-append_last,
}
use pangi.Orchestration.Contracts.{DelegatedTask}
use pangi.Orchestration.Validator.{
  PlanFailure, Progress, task_id, visit, pass, rounds, begin, topological_order,
}

abbrev pub ids : List DelegatedTask → List String
ids = map task_id

-- Every task's dependencies stand in `seen` or at an earlier task.
abbrev pub in_order : List String → List DelegatedTask → Bool
in_order seen [] = true
in_order seen (t ∷ rest) = subset t.depends_on seen && in_order (t.id ∷ seen) rest

-- The same tasks, each once, every one behind its dependencies.
pub record IsOrdering (tasks ordered : List DelegatedTask) : Type 0 where
  pub sorted : in_order [] ordered ≡ true
  pub distinct : Distinct (ids ordered)
  pub same_length : length ordered ≡ length tasks
  pub complete : (t : DelegatedTask) → In t tasks → In t ordered
  pub sound : (t : DelegatedTask) → In t ordered → In t tasks

pub in_order-snoc :
    (seen : List String) (xs : List DelegatedTask) (t : DelegatedTask)
    → in_order seen xs ≡ true
    → ((d : String)
        → contains d t.depends_on ≡ true
        → (contains d seen || contains d (ids xs)) ≡ true)
    → in_order seen (xs ++ t ∷ []) ≡ true
unfolding contains
in_order-snoc seen [] t h f = rw (contains-subset t.depends_on seen (λ d m. ground (arith, f d m)))
in_order-snoc seen (x ∷ xs) t h f = ground (
  arith,
  in_order-snoc (x.id ∷ seen) xs t (ground arith)
      (λ (d : String) (m : contains d t.depends_on ≡ true). ground (arith, f d m)),
)

ids-snoc : (xs : List DelegatedTask) (t : DelegatedTask) → ids (xs ++ t ∷ []) ≡ ids xs ++ t.id ∷ []
ids-snoc [] t = refl
ids-snoc (x ∷ xs) t = ap (λ l. x.id ∷ l) (ids-snoc xs t)

pub length-ids : (xs : List DelegatedTask) → length (ids xs) ≡ length xs
length-ids [] = refl
length-ids (x ∷ xs) = ap suc (length-ids xs)

pub contains-ids-snoc :
    (x : String) (xs : List DelegatedTask) (t : DelegatedTask)
    → contains x (ids (xs ++ t ∷ [])) ≡ (contains x (ids xs) || str_eq x t.id)
unfolding contains
contains-ids-snoc x [] t = ground arith
contains-ids-snoc x (y ∷ xs) t = ground (arith, contains-ids-snoc x xs t)

pub In-snoc :
    (u : DelegatedTask) (xs : List DelegatedTask) (t : DelegatedTask)
    → In u (xs ++ t ∷ [])
    → In u xs ⊎ (u ≡ t)
In-snoc u [] t (inl e) = inr e
In-snoc u [] t (inr h) = elim h [ ]
In-snoc u (x ∷ xs) t (inl e) = inl (inl e)
In-snoc u (x ∷ xs) t (inr h) = elim (In-snoc u xs t h) [ inl i ↦ inl (inr i) | inr e ↦ inr e ]

pub contains-ids :
    (t : DelegatedTask) (xs : List DelegatedTask) → In t xs → contains t.id (ids xs) ≡ true
unfolding contains
contains-ids t [] h = elim h [ ]
contains-ids t (x ∷ xs) (inl e) = rw (ap task_id e) (rw eq_refl)
contains-ids t (x ∷ xs) (inr h) = ground (arith, contains-ids t xs h)

-- A task of a list with distinct identifiers is determined by its identifier.
pub In-same_id :
    (t u : DelegatedTask) (xs : List DelegatedTask)
    → Distinct (ids xs)
    → In t xs
    → In u xs
    → t.id ≡ u.id
    → t ≡ u
In-same_id t u [] d i j h = elim i [ ]
In-same_id t u (x ∷ xs) d (inl e) (inl f) h = e ∙ sym f
In-same_id t u (x ∷ xs) d (inl e) (inr j) h = cc (d.0, contains-ids u xs j, h)
In-same_id t u (x ∷ xs) d (inr i) (inl f) h = cc (d.0, contains-ids t xs i, h)
In-same_id t u (x ∷ xs) d (inr i) (inr j) h = In-same_id t u xs d.1 i j h
