-- ===== src/Orchestration/CriticalPath.antt =====
-- `_critical_path_timeout` against dependency chains: the result is the longest total timeout of a
-- chain of tasks in which every task depends on the one before.
use pangi.Prelude.{
  ℕ, ◌+◌, ◌≤◌, max, String, Bool, true, false, ◌||◌, List, [], ◌∷◌, Option, none, some, Bool-cases,
  Option-cases, str_eq, eq_iff, eq_refl, ◌≡◌, refl, sym, ap, ◌∙◌, subst, ◌⊎◌, inl, inr, arith,
}
use pangi.Prelude.Results.{ok}
use pangi.Prelude.Sets.{contains, subset}
use pangi.Prelude.Distinct.{Distinct, In, subset-contains}
use pangi.Prelude.Dict.{lookup, put, lookup-put, In-of_lookup, In-put}
use pangi.Orchestration.Contracts.{DelegatedTask}
use pangi.Orchestration.Validator.{
  longest_dependency, durations_from, longest_value, critical_path_timeout,
}
use pangi.Orchestration.Order.{ids, in_order, contains-ids, In-same_id}

-- `Chain tasks t n`: a chain of dependencies that ends with `t` takes `n` seconds in all.
pub data Chain (tasks : List DelegatedTask) : DelegatedTask → ℕ → Type 0 where
  single : {t : DelegatedTask} {n : ℕ} → In t tasks → n ≡ t.timeout_seconds → Chain tasks t n
  extend :
      {t : DelegatedTask} {n : ℕ} (u : DelegatedTask) (m : ℕ)
      → In t tasks
      → contains u.id t.depends_on ≡ true
      → Chain tasks u m
      → n ≡ m + t.timeout_seconds
      → Chain tasks t n

pub Chain-In :
    {tasks : List DelegatedTask} {t : DelegatedTask} {n : ℕ} → Chain tasks t n → In t tasks
Chain-In (single i e) = i
Chain-In (extend u m i c h e) = i

abbrev pub Durations : Type 0
Durations = List (String × ℕ)

abbrev is_some : Option ℕ → Bool
is_some none = false
is_some (some n) = true

-- The keys are the identifiers that have been seen.
abbrev HasKeys : List String → Durations → Type 0
HasKeys seen d = (x : String) → is_some (lookup x d) ≡ contains x seen

longest_dependency_total :
    (n : ℕ) (deps seen : List String) (d : Durations)
    → HasKeys seen d
    → subset deps seen ≡ true
    → (m : ℕ) × (longest_dependency n deps d ≡ ok m)
unfolding longest_dependency subset
longest_dependency_total n [] seen d k s = (n, refl)
longest_dependency_total n (x ∷ deps) seen d k s = elim (Option-cases (lookup x d)) [
  | inl missing ↦ absurd (ground (arith, k x))
  | inr (v, found) ↦
      let (m, e) = longest_dependency_total (max n v) deps seen d k (ground arith) in
      (m, rw (found, longest_dependency) e)
]

-- The result is at least the start value and every dependency's duration.
longest_dependency_bound :
    (n : ℕ) (deps : List String) (d : Durations) {m : ℕ}
    → longest_dependency n deps d ≡ ok m
    → (n ≤ m) × ((x : String) (v : ℕ) → contains x deps ≡ true → lookup x d ≡ some v → v ≤ m)
unfolding longest_dependency contains
longest_dependency_bound n [] d e = (ground arith, λ x v c. cc)
longest_dependency_bound n (y ∷ deps) d {m} e = elim (Option-cases (lookup y d)) [
  | inl missing ↦ absurd (ground arith)
  | inr (w, found) ↦
      let rest : longest_dependency (max n w) deps d ≡ ok m = ground arith in
      let (above, each) = longest_dependency_bound (max n w) deps d rest in
      (omega arith, λ x v c l. ground (arith, each x v, eq_iff x y, above))
]

max_cases : (a b : ℕ) → (max a b ≡ a) ⊎ (max a b ≡ b)
max_cases a b = omega arith

-- The result is the start value or the duration of a dependency.
longest_dependency_attained :
    (n : ℕ) (deps : List String) (d : Durations) {m : ℕ}
    → longest_dependency n deps d ≡ ok m
    → (m ≡ n) ⊎ ((x : String) × (contains x deps ≡ true) × (lookup x d ≡ some m))
unfolding longest_dependency contains
longest_dependency_attained n [] d e = inl (ground arith)
longest_dependency_attained n (y ∷ deps) d {m} e = elim (Option-cases (lookup y d)) [
  | inl missing ↦ absurd (ground arith)
  | inr (w, found) ↦
      let rest : longest_dependency (max n w) deps d ≡ ok m = ground arith in
      elim (longest_dependency_attained (max n w) deps d rest) [
        | inl e' ↦ elim (max_cases n w) [
          | inl start ↦ inl (e' ∙ start)
          | inr later ↦ inr (y, rw eq_refl, found ∙ ap some (sym (e' ∙ later)))
        ]
        | inr (x, c, l) ↦ inr (x, ground arith, l)
      ]
]

durations_step :
    (d : Durations) (t : DelegatedTask) (rest : List DelegatedTask) {m : ℕ}
    → longest_dependency 0 t.depends_on d ≡ ok m
    → durations_from d (t ∷ rest) ≡ durations_from (put t.id (m + t.timeout_seconds) d) rest
unfolding durations_from
durations_step d t rest e = rw (durations_from, e)

longest_value_bound :
    (d : Durations) (x : String) (v : ℕ) → lookup x d ≡ some v → v ≤ longest_value d
unfolding lookup longest_value
longest_value_bound [] x v h = cc
longest_value_bound ((k, n) ∷ rest) x v h = ground (arith, longest_value_bound rest x v)

longest_value_attained :
    (d : Durations) → (longest_value d ≡ 0) ⊎ ((x : String) × In (x, longest_value d) d)
unfolding longest_value
longest_value_attained [] = inl refl
longest_value_attained ((k, n) ∷ rest) = elim (max_cases n (longest_value rest)) [
  | inl here ↦ inr (k, inl (ap (λ v. (k, v)) here))
  | inr later ↦ elim (longest_value_attained rest) [
    | inl zero' ↦ inl (later ∙ zero')
    | inr (x, i) ↦ inr (x, inr (subst (λ v. In {A = String × ℕ} (x, v) rest) (sym later) i))
  ]
]

module _ (tasks : List DelegatedTask) (distinct : Distinct (ids tasks)) where
  -- Every recorded duration bounds the chains that end with its task, and is one of them.
  record IsExact (d : Durations) : Type 0 where
    bound : (u : DelegatedTask) (n v : ℕ) → Chain tasks u n → lookup u.id d ≡ some v → n ≤ v
    attained :
        (x : String) (v : ℕ) → In (x, v) d → (u : DelegatedTask) × (u.id ≡ x) × Chain tasks u v

  module _ (t : DelegatedTask) (i : In t tasks) (d : Durations) (h : IsExact d) {m : ℕ}
      (e : longest_dependency 0 t.depends_on d ≡ ok m) (seen : List String) (k : HasKeys seen d)
      (s : subset t.depends_on seen ≡ true) where
    Chain-bound : (n : ℕ) → Chain tasks t n → n ≤ m + t.timeout_seconds
    Chain-bound n (single j e') = omega arith
    Chain-bound n (extend u p j c g e') = elim (Option-cases (lookup u.id d)) [
      | inl missing ↦ absurd (ground (arith, k u.id, subset-contains t.depends_on seen u.id s c))
      | inr (v, found) ↦ omega (
        arith,
        h.bound u p v g found,
        (longest_dependency_bound 0 t.depends_on d e).1 u.id v c found,
      )
    ]

    Chain-attained : Chain tasks t (m + t.timeout_seconds)
    Chain-attained = elim (longest_dependency_attained 0 t.depends_on d e) [
      | inl none_longer ↦ single i (omega arith)
      | inr (x, c, l) ↦
          let (u, same, g) = h.attained x m (In-of_lookup x m d l) in
          extend u m i (rw same c) g refl
    ]

    put-IsExact : IsExact (put t.id (m + t.timeout_seconds) d)
    put-IsExact = record {
      bound = λ u n v g l. elim (Bool-cases (str_eq t.id u.id)) [
        | inl same ↦
            let e' = In-same_id t u tasks distinct i (Chain-In g) ((eq_iff t.id u.id).0 same) in
            let b = Chain-bound n (subst (λ w. Chain tasks w n) (sym e') g) in
            ground (arith, lookup-put t.id u.id (m + t.timeout_seconds) d)
        | inr other ↦
            h.bound u n v g (ground (arith, lookup-put t.id u.id (m + t.timeout_seconds) d))
      ];
      attained = λ x v l. elim (In-put t.id x v (m + t.timeout_seconds) d l) [
        | inl (same, n) ↦ (t, sym same, subst (Chain tasks t) (sym n) Chain-attained)
        | inr old ↦ h.attained x v old
      ];
    }

  put-HasKeys :
      (t : DelegatedTask) (seen : List String) (d : Durations) (n : ℕ)
      → HasKeys seen d
      → HasKeys (t.id ∷ seen) (put t.id n d)
  unfolding contains
  put-HasKeys t seen d n k x =
      ground (arith, k x, lookup-put t.id x n d, eq_iff t.id x, eq_iff x t.id)

  durations-IsExact :
      (seen : List String) (rest : List DelegatedTask) (d : Durations)
      → HasKeys seen d
      → IsExact d
      → in_order seen rest ≡ true
      → ((t : DelegatedTask) → In t rest → In t tasks)
      → (out : Durations) × (durations_from d rest ≡ ok out)
        × IsExact out
        × ((x : String)
            → (contains x seen || contains x (ids rest)) ≡ true
            → is_some (lookup x out) ≡ true)
  unfolding durations_from contains
  durations-IsExact seen [] d k h o f = (d, refl, h, λ x c. ground (arith, k x))
  durations-IsExact seen (t ∷ rest) d k h o f =
      let (m, e) = longest_dependency_total 0 t.depends_on seen d k (ground arith) in
      let n = m + t.timeout_seconds in
      let s : subset t.depends_on seen ≡ true = ground arith in
      let (out, e', g, keys) =
        durations-IsExact (t.id ∷ seen) rest (put t.id n d) (put-HasKeys t seen d n k)
          (put-IsExact t (f t (inl refl)) d h e seen k s) (ground arith) (λ u i. f u (inr i)) in
      (out, durations_step d t rest e ∙ e', g, λ x c. keys x (ground arith))

  -- On tasks with distinct identifiers, each behind its dependencies, `_critical_path_timeout`
  -- raises nothing; no dependency chain takes longer than its result, and the result is 0 or the
  -- total of some chain.
  pub critical_path_exact :
      in_order [] tasks ≡ true
      → (c : ℕ) × (critical_path_timeout tasks ≡ ok c)
        × ((t : DelegatedTask) (n : ℕ) → Chain tasks t n → n ≤ c)
        × ((c ≡ 0) ⊎ ((t : DelegatedTask) × Chain tasks t c))
  unfolding critical_path_timeout lookup contains
  critical_path_exact o =
      let (out, e, h, keys) =
        durations-IsExact [] tasks [] (λ x. refl)
          (record { bound = λ u n v g l. cc; attained = λ x v i. elim i [ ] }) o (λ t i. i) in
      (
        longest_value out,
        rw e,
        λ t n g. elim (Option-cases (lookup t.id out)) [
          | inl missing ↦ absurd (ground (arith, keys t.id, contains-ids t tasks (Chain-In g)))
          | inr (v, found) ↦
              omega (arith, h.bound t n v g found, longest_value_bound out t.id v found)
        ],
        elim (longest_value_attained out) [
          | inl none_taken ↦ inl none_taken
          | inr (x, i) ↦ let (u, same, g) = h.attained x (longest_value out) i in inr (u, g)
        ],
      )
