-- ===== src/Orchestration/Order/Loop.antt =====
-- The invariant of the loops of `_topological_order`, and that what they return is an ordering.
use pangi.Prelude.{
  ℕ, zero, suc, ◌+◌, String, true, false, List, [], ◌∷◌, ◌++◌, length, is_empty, str_eq, eq_iff,
  Bool-cases, ◌≡◌, refl, sym, subst, ◌⊎◌, inl, inr, arith, length-append,
}
use pangi.Prelude.Results.{ok}
use pangi.Prelude.Sets.{contains, subset, remove, contains-to_set, contains-remove}
use pangi.Prelude.Distinct.{
  Distinct, Distinct-to_set, Distinct-remove, Distinct-snoc, length-remove, length-to_set,
  subset-contains, In, is_empty-contains, In-append_left, In-append_last,
}
use pangi.Orchestration.Contracts.{DelegatedTask}
use pangi.Orchestration.Validator.{Progress, visit, pass, rounds, begin, topological_order}
use pangi.Orchestration.Order.{
  ids, in_order, IsOrdering, in_order-snoc, ids-snoc, contains-ids-snoc, In-snoc, contains-ids,
  length-ids, In-same_id,
}

module _ (tasks : List DelegatedTask) where
  -- What holds of the variables between two visits.
  pub record Inv (s : Progress) : Type 0 where
    pub completed_ids : (x : String) → contains x s.completed ≡ contains x (ids s.ordered)
    pub remaining_known :
        (x : String) → contains x s.remaining ≡ true → contains x (ids tasks) ≡ true
    pub disjoint : (x : String) → contains x s.remaining ≡ true → contains x s.completed ≡ false
    pub covered :
        (t : DelegatedTask) → In t tasks → (contains t.id s.remaining ≡ true) ⊎ In t s.ordered
    pub sorted : in_order [] s.ordered ≡ true
    pub distinct : Distinct (ids s.ordered)
    pub distinct_remaining : Distinct s.remaining
    pub counted : length s.ordered + length s.remaining ≡ length tasks
    pub sound : (t : DelegatedTask) → In t s.ordered → In t tasks

  -- The variables after a task has been appended.
  abbrev pub appended : DelegatedTask → Progress → Progress
  appended t s = record {
    completed = t.id ∷ s.completed;
    remaining = remove t.id s.remaining;
    ordered = s.ordered ++ t ∷ [];
    progressed = true;
  }

  module _ (d : Distinct (ids tasks)) (t : DelegatedTask) (s : Progress) (h : Inv s)
      (i : In t tasks) (r : contains t.id s.remaining ≡ true)
      (c : subset t.depends_on s.completed ≡ true) where
    append-covered :
        (u : DelegatedTask)
        → In u tasks
        → (contains u.id (remove t.id s.remaining) ≡ true) ⊎ In u (s.ordered ++ t ∷ [])
    append-covered u j = elim (Bool-cases (str_eq t.id u.id)) [
      | inl same ↦ inr (
          subst (λ v. In v (s.ordered ++ t ∷ []))
            (In-same_id t u tasks d i j ((eq_iff t.id u.id).0 same)) (In-append_last t s.ordered))
      | inr other ↦ elim (h.covered u j) [
        | inl m ↦ inl (ground (arith, contains-remove u.id t.id s.remaining))
        | inr m ↦ inr (In-append_left u s.ordered (t ∷ []) m)
      ]
    ]

    append_sound : (u : DelegatedTask) → In u (s.ordered ++ t ∷ []) → In u tasks
    append_sound u j = elim (In-snoc u s.ordered t j) [
      | inl m ↦ h.sound u m
      | inr e ↦ subst (λ v. In v tasks) (sym e) i
    ]

    pub append-Inv : Inv (appended t s)
    unfolding contains
    append-Inv = record {
      completed_ids = λ x. ground (arith, contains-ids-snoc x s.ordered t, h.completed_ids x);
      remaining_known =
          λ x m. h.remaining_known x (ground (arith, contains-remove x t.id s.remaining));
      disjoint = λ x m.
          ground
            (arith, contains-remove x t.id s.remaining, h.disjoint x, eq_iff x t.id, eq_iff t.id x);
      covered = append-covered;
      sorted = in_order-snoc [] s.ordered t h.sorted (λ x m.
          ground (arith, h.completed_ids x, subset-contains t.depends_on s.completed x c m));
      distinct = rw ids-snoc (
          Distinct-snoc (ids s.ordered) t.id h.distinct
            (ground (arith, h.completed_ids t.id, h.disjoint t.id r)));
      distinct_remaining = Distinct-remove t.id s.remaining h.distinct_remaining;
      counted = omega (
        arith,
        length-append s.ordered (t ∷ []),
        length-remove t.id s.remaining h.distinct_remaining r,
        h.counted,
      );
      sound = append_sound;
    }

  all_ordered :
      (s : Progress)
      → is_empty s.remaining ≡ true
      → length s.ordered + length s.remaining ≡ length tasks
      → length s.ordered ≡ length tasks
  all_ordered s e c = ground arith

  rounds_step :
      (fuel : ℕ) (s : Progress) {out : List DelegatedTask}
      → rounds (suc fuel) tasks s ≡ ok out
      → ((is_empty s.remaining ≡ true) × (out ≡ s.ordered))
        ⊎ (rounds fuel tasks (pass tasks (record s { progressed = false })) ≡ ok out)
  unfolding rounds
  rounds_step fuel s e = ground arith

  module _ (d : Distinct (ids tasks)) where
    pub visit-Inv : (t : DelegatedTask) (s : Progress) → In t tasks → Inv s → Inv (visit t s)
    unfolding visit
    visit-Inv t s i h = elim (Bool-cases (contains t.id s.remaining)) [
      | inr r ↦ rw r h
      | inl r ↦ elim (Bool-cases (subset t.depends_on s.completed)) [
        | inr c ↦ rw (r, c) h
        | inl c ↦ rw (r, c) (append-Inv d t s h i r c)
      ]
    ]

    pub pass-Inv :
        (rest : List DelegatedTask) (s : Progress)
        → ((t : DelegatedTask) → In t rest → In t tasks)
        → Inv s
        → Inv (pass rest s)
    unfolding pass
    pass-Inv [] s f h = h
    pass-Inv (t ∷ rest) s f h =
        pass-Inv rest (visit t s) (λ u i. f u (inr i)) (visit-Inv t s (f t (inl refl)) h)

    restart-Inv : (s : Progress) → Inv s → Inv (record s { progressed = false })
    restart-Inv s h = record {
      completed_ids = h.completed_ids;
      remaining_known = h.remaining_known;
      disjoint = h.disjoint;
      covered = h.covered;
      sorted = h.sorted;
      distinct = h.distinct;
      distinct_remaining = h.distinct_remaining;
      counted = h.counted;
      sound = h.sound;
    }

    pub round-Inv : (s : Progress) → Inv s → Inv (pass tasks (record s { progressed = false }))
    round-Inv s h = pass-Inv tasks (record s { progressed = false }) (λ t i. i) (restart-Inv s h)

    pub begin-Inv : Inv (begin tasks)
    unfolding contains
    begin-Inv = record {
      completed_ids = λ x. refl;
      remaining_known = λ x m. ground (arith, contains-to_set x (ids tasks));
      disjoint = λ x m. refl;
      covered =
          λ t i. inl (ground (arith, contains-to_set t.id (ids tasks), contains-ids t tasks i));
      sorted = refl;
      distinct = tt;
      distinct_remaining = Distinct-to_set (ids tasks);
      counted = omega (arith, length-to_set (ids tasks) d, length-ids tasks);
      sound = λ t i. elim i [ ];
    }

    finished-IsOrdering :
        (s : Progress) → Inv s → is_empty s.remaining ≡ true → IsOrdering tasks s.ordered
    finished-IsOrdering s h e = record {
      sorted = h.sorted;
      distinct = h.distinct;
      same_length = all_ordered s e h.counted;
      complete = λ t i. elim (h.covered t i) [
        | inl m ↦ cc (m, is_empty-contains t.id s.remaining e)
        | inr j ↦ j
      ];
      sound = h.sound;
    }

    rounds-IsOrdering :
        (fuel : ℕ) (s : Progress) {out : List DelegatedTask}
        → Inv s
        → rounds fuel tasks s ≡ ok out
        → IsOrdering tasks out
    unfolding rounds
    rounds-IsOrdering zero s h e = cc
    rounds-IsOrdering (suc fuel) s h e = elim (rounds_step fuel s e) [
      | inl (done, same) ↦ rw same (finished-IsOrdering s h done)
      | inr more ↦
          rounds-IsOrdering fuel (pass tasks (record s { progressed = false })) (round-Inv s h) more
    ]

    -- What `_topological_order` returns is an ordering of the tasks.
    pub topological_order-IsOrdering :
        {out : List DelegatedTask} → topological_order tasks ≡ ok out → IsOrdering tasks out
    unfolding topological_order
    topological_order-IsOrdering e = rounds-IsOrdering _ (begin tasks) begin-Inv e
