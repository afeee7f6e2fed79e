-- ===== src/Orchestration/Synthesis.antt =====
-- The synthesis task of a delegate decision: the conditions of `_validate_synthesis`, both ways.
use pangi.Prelude.{
  ◌≤◌, String, Bool, true, false, not, ◌&&◌, List, [], ◌∷◌, length, any, keep, is_empty, map,
  str_eq, eq_iff, ◌≡◌, ◌⊎◌, ◌↔◌, inl, inr, refl, sym, ap, ◌∙◌, subst, arith, Bool-cases,
}
use pangi.Prelude.Results.{ok}
use pangi.Prelude.Sets.{contains}
use pangi.Prelude.Distinct.{Distinct, In}
use pangi.Prelude.Keyed.{contains-keys, In-keep, keep-In, any_none, none_any}
use pangi.Orchestration.Contracts.{
  DelegatedTask, OrchestratorDecision, OrchestratorCatalog, deterministic, synthesis_subagent,
}
use pangi.Orchestration.Validator.{synthesis_tasks, check_synthesis_task, validate_synthesis}
use pangi.Orchestration.Order.{ids}

abbrev pub IsSynthesisTask : DelegatedTask → Type 0
IsSynthesisTask t = t.subagent ≡ "synthesis"

-- The one task for the synthesis subagent: it depends on at least two tasks, and no other task
-- depends on it.
pub record IsSynthesisOf (tasks : List DelegatedTask) (s : DelegatedTask) : Type 0 where
  pub member : In s tasks
  pub subagent : IsSynthesisTask s
  pub only : (t : DelegatedTask) → In t tasks → IsSynthesisTask t → t ≡ s
  pub inputs : 2 ≤ length s.depends_on
  pub last :
      (t : DelegatedTask) → In t tasks → (¬ (t.id ≡ s.id)) → contains s.id t.depends_on ≡ false

-- How the results are composed: with no synthesis task, or by an available synthesis subagent.
abbrev pub IsComposed : OrchestratorCatalog → OrchestratorDecision → Type 0
IsComposed catalog d =
    ((d.composition ≡ deterministic) × ((t : DelegatedTask) → In t d.tasks → ¬ IsSynthesisTask t))
    ⊎ ((d.composition ≡ synthesis_subagent)
        × (contains "synthesis" catalog.available_subagents ≡ true)
        × ((s : DelegatedTask) × IsSynthesisOf d.tasks s))

module _ {A : Type 0} where
  keep_none : (p : A → Bool) (xs : List A) → ((x : A) → In x xs → p x ≡ false) → keep p xs ≡ []
  keep_none p [] f = refl
  keep_none p (x ∷ xs) f = rw (f x (inl refl)) (keep_none p xs (λ y i. f y (inr i)))

  none_kept :
      (p : A → Bool) (xs : List A) → is_empty (keep p xs) ≡ true → (x : A) → In x xs → p x ≡ false
  none_kept p [] h x i = elim i [ ]
  none_kept p (y ∷ ys) h x (inl e) = ap p e ∙ (ground arith)
  none_kept p (y ∷ ys) h x (inr i) = none_kept p ys (ground arith) x i

  -- One item of a list with distinct keys passes a test.
  keep_one :
      (key : A → String) (p : A → Bool) (s : A) (xs : List A)
      → Distinct (map key xs)
      → In s xs
      → p s ≡ true
      → ((x : A) → In x xs → p x ≡ true → x ≡ s)
      → keep p xs ≡ s ∷ []
  keep_one key p s [] d i h f = elim i [ ]
  keep_one key p s (x ∷ xs) d (inl e) h f =
      let rest : keep p xs ≡ [] = keep_none p xs (λ y j. elim (Bool-cases (p y)) [
        | inl b ↦ absurd (cc (contains-keys key y xs j, f y (inr j) b, e, d.0))
        | inr b ↦ b
      ]) in
      rw (sym (ap p e) ∙ h, rest) (ap (λ z. z ∷ []) (sym e))
  keep_one key p s (x ∷ xs) d (inr i) h f =
      let rest = keep_one key p s xs d.1 i h (λ y j b. f y (inr j) b) in
      elim (Bool-cases (p x)) [
        | inl b ↦ absurd (cc (contains-keys key s xs i, f x (inl refl) b, d.0))
        | inr b ↦ rw b rest
      ]

  one_kept :
      (p : A → Bool) (s : A) (xs : List A)
      → keep p xs ≡ s ∷ []
      → (In s xs × (p s ≡ true)) × ((x : A) → In x xs → p x ≡ true → x ≡ s)
  one_kept p s xs h = (
    In-keep p s xs (subst (In s) (sym h) (inl refl)),
    λ x i b. elim (subst (In x) h (keep-In p x xs i b)) [ inl e ↦ e | inr j ↦ elim j [ ] ],
  )

-- The check of the synthesis task, as its conditions
check_synthesis_task_iff :
    (s : DelegatedTask) (tasks : List DelegatedTask)
    → (check_synthesis_task (s ∷ []) tasks ≡ ok tt) ↔ (
        (2 ≤ length s.depends_on)
        × (any (λ t. not (str_eq t.id s.id) && contains s.id t.depends_on) tasks ≡ false))
unfolding check_synthesis_task
check_synthesis_task_iff s tasks = (λ h. (ground arith, ground arith), λ (a, b). ground arith)

last_iff :
    (s : DelegatedTask) (tasks : List DelegatedTask)
    → (any (λ t. not (str_eq t.id s.id) && contains s.id t.depends_on) tasks ≡ false)
      ↔ ((t : DelegatedTask) → In t tasks → (¬ (t.id ≡ s.id)) → contains s.id t.depends_on ≡ false)
last_iff s tasks = (
  λ h t i n.
      let no = none_any (λ t. not (str_eq t.id s.id) && contains s.id t.depends_on) tasks h t i in
      ground (arith, no, n, eq_iff t.id s.id),
  λ f.
      any_none (λ t. not (str_eq t.id s.id) && contains s.id t.depends_on) tasks
        λ t i. elim (Bool-cases (str_eq t.id s.id)) [
          | inl b ↦ rw b refl
          | inr b ↦ rw (b, f t i (λ e. absurd (cc ((eq_iff t.id s.id).1 e, b)))) refl
        ],
)

one_of_length : {A : Type 0} (xs : List A) → length xs ≡ 1 → (x : A) × (xs ≡ x ∷ [])
one_of_length [] h = absurd (ground arith)
one_of_length (x ∷ []) h = (x, refl)
one_of_length (x ∷ y ∷ ys) h = absurd (ground arith)

is_synthesis_iff : (t : DelegatedTask) → (str_eq t.subagent "synthesis" ≡ true) ↔ IsSynthesisTask t
is_synthesis_iff t = eq_iff t.subagent "synthesis"

synthesis-parts :
    (catalog : OrchestratorCatalog) (d : OrchestratorDecision)
    → d.composition ≡ synthesis_subagent
    → validate_synthesis catalog d ≡ ok tt
    → (length (synthesis_tasks d.tasks) ≡ 1)
      × (contains "synthesis" catalog.available_subagents ≡ true)
      × (check_synthesis_task (synthesis_tasks d.tasks) d.tasks ≡ ok tt)
unfolding validate_synthesis
synthesis-parts catalog d c h = (ground arith, ground arith, ground arith)

subagent-IsComposed :
    (catalog : OrchestratorCatalog) (d : OrchestratorDecision)
    → d.composition ≡ synthesis_subagent
    → validate_synthesis catalog d ≡ ok tt
    → IsComposed catalog d
subagent-IsComposed catalog d c h =
    let (l, available, checked) = synthesis-parts catalog d c h in
    let (s, one) = one_of_length (synthesis_tasks d.tasks) l in
    let ((member, own), only) = one_kept (λ t. str_eq t.subagent "synthesis") s d.tasks one in
    let (inputs, last) =
      (check_synthesis_task_iff s d.tasks).0
        (subst (λ ts. check_synthesis_task ts d.tasks ≡ ok tt) one checked) in
    inr (
      c,
      available,
      (
        s,
        record {
          member = member;
          subagent = (is_synthesis_iff s).0 own;
          only = λ t i b. only t i ((is_synthesis_iff t).1 b);
          inputs = inputs;
          last = (last_iff s d.tasks).0 last;
        },
      ),
    )

deterministic-IsComposed :
    (catalog : OrchestratorCatalog) (d : OrchestratorDecision)
    → d.composition ≡ deterministic
    → validate_synthesis catalog d ≡ ok tt
    → IsComposed catalog d
unfolding validate_synthesis
deterministic-IsComposed catalog d c h =
    let none : is_empty (synthesis_tasks d.tasks) ≡ true = ground arith in
    inl (
      c,
      λ t i b. absurd (
          cc (
            none_kept (λ t. str_eq t.subagent "synthesis") d.tasks none t i,
            (is_synthesis_iff t).1 b,
          )),
    )

composition_cases :
    (d : OrchestratorDecision)
    → (d.composition ≡ deterministic) ⊎ (d.composition ≡ synthesis_subagent)
composition_cases d = ground arith

accepted_composition :
    (catalog : OrchestratorCatalog) (d : OrchestratorDecision)
    → Distinct (ids d.tasks)
    → IsComposed catalog d
    → validate_synthesis catalog d ≡ ok tt
unfolding validate_synthesis
accepted_composition catalog d u (inl (c, f)) =
    let none : synthesis_tasks d.tasks ≡ [] =
      keep_none (λ t. str_eq t.subagent "synthesis") d.tasks
        λ t i. elim (Bool-cases (str_eq t.subagent "synthesis")) [
          | inl b ↦ absurd (f t i ((is_synthesis_iff t).0 b))
          | inr b ↦ b
        ] in
    rw (c, none) refl
accepted_composition catalog d u (inr (c, available, (s, h))) =
    let one : synthesis_tasks d.tasks ≡ s ∷ [] =
      keep_one (λ (t : DelegatedTask). t.id) (λ t. str_eq t.subagent "synthesis") s d.tasks u
        h.member ((is_synthesis_iff s).1 h.subagent)
        (λ t i b. h.only t i ((is_synthesis_iff t).0 b)) in
    rw
      (
        c,
        one,
        available,
        (check_synthesis_task_iff s d.tasks).1 (h.inputs, (last_iff s d.tasks).1 h.last),
      )
      refl

-- `_validate_synthesis` on a decision whose tasks have distinct ids
pub validate_synthesis_iff :
    (catalog : OrchestratorCatalog) (d : OrchestratorDecision)
    → Distinct (ids d.tasks)
    → (validate_synthesis catalog d ≡ ok tt) ↔ IsComposed catalog d
validate_synthesis_iff catalog d u = (
  λ h. elim (composition_cases d) [
    | inl c ↦ deterministic-IsComposed catalog d c h
    | inr c ↦ subagent-IsComposed catalog d c h
  ],
  accepted_composition catalog d u,
)
