-- ===== src/Execution/Table.antt =====
-- The steps table: replacing one row, and what stays well formed.
use pangi.Prelude.{
  ℕ, ◌+◌, String, Bool, true, false, ◌&&◌, List, [], ◌∷◌, some, map, any, if◌then◌else◌, str_eq,
  eq_iff, eq_refl, Bool-cases, ◌≡◌, refl, sym, ap, ◌∙◌, subst, ◌⊎◌, inl, inr, arith,
}
use pangi.Prelude.Results.{ok}
use pangi.Prelude.Sets.{contains, subset}
use pangi.Prelude.Distinct.{Distinct, In}
use pangi.Text.{is_blank}
use pangi.Runs.States.{StepState, same_step_state}
use pangi.Runs.StepValidity.{IsStep, step_init-IsStep}
use pangi.Execution.World.{step_from_row}
use pangi.Orchestration.Contracts.{AgentResult}
use pangi.Execution.Contracts.{ExecutionStepSnapshot, snapshot_init}
use pangi.Execution.Engine.{is_queued}

abbrev pub Row : Type 0
Row = ExecutionStepSnapshot

abbrev pub node : Row → String
node s = s.step.node_id

abbrev pub nodes : List Row → List String
nodes = map node

abbrev pub is_completed : Row → Bool
is_completed s = same_step_state s.step.state StepState.completed

-- running, completed or failed: the step has been started
abbrev pub has_started : StepState → Bool
has_started StepState.running = true
has_started StepState.completed = true
has_started StepState.failed = true
has_started _ = false

abbrev pub deps_in_order : List String → List Row → Bool
deps_in_order seen [] = true
deps_in_order seen (s ∷ rest) = subset s.step.depends_on seen && deps_in_order (node s ∷ seen) rest

-- A row that the constructors accept, with the definition's dependencies.
pub record IsRow (s : Row) : Type 0 where
  pub snapshot : snapshot_init s ≡ ok s
  pub depends : s.step.depends_on ≡ s.definition.task.depends_on
  pub valid : IsStep s.step
  pub warnings : (r : AgentResult) → s.result ≡ some r → any is_blank r.warnings ≡ false

pub step_from_row-IsRow : (s : Row) → IsRow s → step_from_row s ≡ ok s
unfolding step_from_row
step_from_row-IsRow s h = ground (arith, step_init-IsStep s.step h.valid, h.snapshot)

-- Each of the named steps has completed.
abbrev pub AreDone : List Row → List String → Type 0
AreDone steps deps =
    (d : String)
    → contains d deps ≡ true
    → (x : Row) × In x steps × (node x ≡ d) × (is_completed x ≡ true)

pub record Good (steps : List Row) : Type 0 where
  pub distinct : Distinct (nodes steps)
  pub ordered : deps_in_order [] steps ≡ true
  pub rows : (s : Row) → In s steps → IsRow s
  pub after_dependencies :
      (s : Row) → In s steps → has_started s.step.state ≡ true → AreDone steps s.step.depends_on

abbrev pub replace : Row → Row → List Row → List Row
replace b r [] = []
replace b r (x ∷ rest) = (if str_eq (node b) (node x) then r else x) ∷ replace b r rest

pub contains-nodes :
    (x : Row) (steps : List Row) → In x steps → contains (node x) (nodes steps) ≡ true
unfolding contains
contains-nodes x [] i = elim i [ ]
contains-nodes x (y ∷ ys) (inl e) = rw (ap node e) (rw eq_refl)
contains-nodes x (y ∷ ys) (inr i) = ground (arith, contains-nodes x ys i)

-- In a table with distinct nodes a row is determined by its node.
pub same_row :
    (x y : Row) (steps : List Row)
    → Distinct (nodes steps)
    → In x steps
    → In y steps
    → node x ≡ node y
    → x ≡ y
same_row x y [] d i j h = elim i [ ]
same_row x y (z ∷ zs) d (inl e) (inl f) h = e ∙ sym f
same_row x y (z ∷ zs) d (inl e) (inr j) h = cc (d.0, contains-nodes y zs j, h, ap node e)
same_row x y (z ∷ zs) d (inr i) (inl f) h = cc (d.0, contains-nodes x zs i, h, ap node f)
same_row x y (z ∷ zs) d (inr i) (inr j) h = same_row x y zs d.1 i j h

pub In-replace :
    (b r x : Row) (steps : List Row)
    → In x (replace b r steps)
    → (In x steps × (str_eq (node b) (node x) ≡ false)) ⊎ (x ≡ r)
In-replace b r x [] i = elim i [ ]
In-replace b r x (y ∷ ys) (inr i) = elim (In-replace b r x ys i) [
  | inl (j, e) ↦ inl (inr j, e)
  | inr e ↦ inr e
]
In-replace b r x (y ∷ ys) (inl e) = elim (Bool-cases (str_eq (node b) (node y))) [
  | inl same ↦ inr (e ∙ ap (λ (t : Bool). if t then r else y) same)
  | inr other ↦
      let e' : x ≡ y = e ∙ ap (λ (t : Bool). if t then r else y) other in inl (inl e', rw e' other)
]

pub In-replace_other :
    (b r x : Row) (steps : List Row)
    → In x steps
    → str_eq (node b) (node x) ≡ false
    → In x (replace b r steps)
In-replace_other b r x [] i h = elim i [ ]
In-replace_other b r x (y ∷ ys) (inr i) h = inr (In-replace_other b r x ys i h)
In-replace_other b r x (y ∷ ys) (inl e) h = inl (
    e
    ∙ sym
        (ap (λ (t : Bool). if t then r else y) (subst (λ z. str_eq (node b) (node z) ≡ false) e h)))

pub In-replace_self : (b r : Row) (steps : List Row) → In b steps → In r (replace b r steps)
In-replace_self b r [] i = elim i [ ]
In-replace_self b r (y ∷ ys) (inr i) = inr (In-replace_self b r ys i)
In-replace_self b r (y ∷ ys) (inl e) = inl (
    sym (
      ap (λ (t : Bool). if t then r else y)
        (subst (λ z. str_eq (node b) (node z) ≡ true) e (eq_refl (node b)))))

pub nodes-replace :
    (b r : Row) (steps : List Row) → node r ≡ node b → nodes (replace b r steps) ≡ nodes steps
nodes-replace b r [] h = refl
nodes-replace b r (x ∷ xs) h = ground (arith, nodes-replace b r xs h, eq_iff (node b) (node x))

pub ordered-replace :
    (b r : Row) (steps : List Row) (seen : List String)
    → ((x : Row) → In x steps → str_eq (node b) (node x) ≡ true → x ≡ b)
    → node r ≡ node b
    → r.step.depends_on ≡ b.step.depends_on
    → deps_in_order seen (replace b r steps) ≡ deps_in_order seen steps
ordered-replace b r [] seen f n d = refl
ordered-replace b r (x ∷ xs) seen f n d = elim (Bool-cases (str_eq (node b) (node x))) [
  | inl same ↦
      let e = f x (inl refl) same in
      ground (
        arith,
        ordered-replace b r xs (node x ∷ seen) (λ y i. f y (inr i)) n d,
        same,
        ap (λ (z : Row). z.step.depends_on) e,
        ap node e,
      )
  | inr other ↦
      ground (arith, ordered-replace b r xs (node x ∷ seen) (λ y i. f y (inr i)) n d, other)
]

-- The number of queued rows.
abbrev pub queued_count : List Row → ℕ
queued_count [] = 0
queued_count (s ∷ rest) = (if is_queued s then 1 else 0) + queued_count rest
