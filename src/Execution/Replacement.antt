-- ===== src/Execution/Replacement.antt =====
-- Replacing a row keeps the table well formed, counts, and is what an UPDATE does.
use pangi.Prelude.{
  ◌+◌, String, true, false, List, [], ◌∷◌, some, if◌then◌else◌, str_eq, eq_iff, eq_refl, Bool-cases,
  ◌≡◌, refl, sym, ap, ◌∙◌, subst, inl, inr, arith,
}
use pangi.Prelude.Sets.{contains}
use pangi.Prelude.Distinct.{Distinct, In}
use pangi.Runs.States.{StepState}
use pangi.Execution.Engine.{is_queued}
use pangi.Execution.Store.{matches, update_row}
use pangi.Execution.Table.{
  Row, node, nodes, is_completed, has_started, IsRow, AreDone, Good, replace, same_row, In-replace,
  In-replace_other, nodes-replace, ordered-replace, queued_count, contains-nodes,
}

-- Steps that are done stay done when a row that has not completed is replaced.
pub AreDone-replace :
    (steps : List Row) (b r : Row) (deps : List String)
    → Distinct (nodes steps)
    → In b steps
    → is_completed b ≡ false
    → AreDone steps deps
    → AreDone (replace b r steps) deps
AreDone-replace steps b r deps d i open_step f x m =
    let (y, j, n, c) = f x m in
    elim (Bool-cases (str_eq (node b) (node y))) [
      | inl same ↦
          let e = same_row b y steps d i j ((eq_iff (node b) (node y)).0 same) in
          cc (e, c, open_step)
      | inr other ↦ (y, In-replace_other b r y steps j other, n, c)
    ]

-- A change of a row that has not completed into one with the same node and dependencies. If the
-- new row has started, its dependencies are done.
pub record IsChange (steps : List Row) (b r : Row) : Type 0 where
  pub open_step : is_completed b ≡ false
  pub same_node : node r ≡ node b
  pub same_depends : r.step.depends_on ≡ b.step.depends_on
  pub row : IsRow r
  pub after : has_started r.step.state ≡ true → AreDone steps b.step.depends_on

pub Good-replace :
    (steps : List Row) (b r : Row)
    → Good steps
    → In b steps
    → IsChange steps b r
    → Good (replace b r steps)
Good-replace steps b r g i c = record {
  distinct = rw (nodes-replace b r steps c.same_node) g.distinct;
  ordered =
      ordered-replace b r steps []
        (λ x j e. sym (same_row b x steps g.distinct i j ((eq_iff (node b) (node x)).0 e)))
        c.same_node c.same_depends
      ∙ g.ordered;
  rows = λ s j. elim (In-replace b r s steps j) [
    | inl (old, other) ↦ g.rows s old
    | inr e ↦ rw e c.row
  ];
  after_dependencies = λ s j h. elim (In-replace b r s steps j) [
    | inl (old, other) ↦
        AreDone-replace steps b r s.step.depends_on g.distinct i c.open_step
          (g.after_dependencies s old h)
    | inr e ↦
        subst (AreDone (replace b r steps))
          (sym (ap (λ (z : Row). z.step.depends_on) e ∙ c.same_depends))
          (AreDone-replace steps b r b.step.depends_on g.distinct i c.open_step
            (c.after (subst (λ z. has_started z.step.state ≡ true) e h)))
  ];
}

replace_absent :
    (b r : Row) (steps : List Row)
    → contains (node b) (nodes steps) ≡ false
    → replace b r steps ≡ steps
unfolding contains
replace_absent b r [] h = refl
replace_absent b r (x ∷ xs) h = ground (arith, replace_absent b r xs)

apart :
    (b x : Row) (xs : List Row)
    → contains (node x) (nodes xs) ≡ false
    → In b xs
    → str_eq (node b) (node x) ≡ false
apart b x xs h i = elim (Bool-cases (str_eq (node b) (node x))) [
  | inl same ↦ cc (h, contains-nodes b xs i, (eq_iff (node b) (node x)).0 same)
  | inr other ↦ other
]

-- The queued rows before and after.
pub queued_count-replace :
    (b r : Row) (steps : List Row)
    → Distinct (nodes steps)
    → In b steps
    → queued_count (replace b r steps) + (if is_queued b then 1 else 0)
      ≡ queued_count steps + (if is_queued r then 1 else 0)
queued_count-replace b r [] d i = elim i [ ]
queued_count-replace b r (x ∷ xs) d (inl e) =
    let absent = replace_absent b r xs (rw (ap node e) d.0) in
    let same : str_eq (node b) (node x) ≡ true = rw (ap node e) (eq_refl (node x)) in
    rw (absent, same) (rw (ap is_queued e) (omega arith))
queued_count-replace b r (x ∷ xs) d (inr i) =
    let differ : str_eq (node b) (node x) ≡ false = apart b x xs d.0 i in
    rw differ (omega (arith, queued_count-replace b r xs d.1 i))

-- An UPDATE that names a row by its node, attempt and state replaces that row.
matches_self : (b : Row) → matches b.step b.step.state b ≡ true
unfolding matches
matches_self b = ground (arith, eq_refl (node b))

matches-node :
    (b x : Row) (state : StepState)
    → str_eq (node b) (node x) ≡ false
    → matches b.step state x ≡ false
unfolding matches
matches-node b x state h = ground arith

update_head :
    (b : Row) (change : Row → Row) (xs : List Row)
    → contains (node b) (nodes xs) ≡ false
    → update_row (matches b.step b.step.state) change (b ∷ xs)
      ≡ some (change b, replace b (change b) (b ∷ xs))
unfolding update_row
update_head b change xs h =
    rw (matches_self b) (rw (eq_refl (node b)) (rw (replace_absent b (change b) xs h) refl))

update_tail :
    (b x : Row) (change : Row → Row) (xs : List Row)
    → str_eq (node b) (node x) ≡ false
    → update_row (matches b.step b.step.state) change xs ≡ some (change b, replace b (change b) xs)
    → update_row (matches b.step b.step.state) change (x ∷ xs)
      ≡ some (change b, replace b (change b) (x ∷ xs))
unfolding update_row
update_tail b x change xs h ih = rw (matches-node b x b.step.state h) (rw h (rw ih refl))

pub update_row-replace :
    (b : Row) (change : Row → Row) (steps : List Row)
    → Distinct (nodes steps)
    → In b steps
    → update_row (matches b.step b.step.state) change steps
      ≡ some (change b, replace b (change b) steps)
update_row-replace b change [] d i = elim i [ ]
update_row-replace b change (x ∷ xs) d (inl e) =
    subst
      (λ z.
        update_row (matches b.step b.step.state) change (z ∷ xs)
        ≡ some (change b, replace b (change b) (z ∷ xs)))
      e (update_head b change xs (rw (ap node e) d.0))
update_row-replace b change (x ∷ xs) d (inr i) =
    update_tail b x change xs (apart b x xs d.0 i) (update_row-replace b change xs d.1 i)
