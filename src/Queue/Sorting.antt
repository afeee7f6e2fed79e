-- ===== src/Queue/Sorting.antt =====
-- The rows in the order of their leases are the rows.
use pangi.Prelude.{
  String, false, ◌||◌, ◌≡◌, refl, arith, List, [], ◌∷◌, map, str_eq, eq_iff, Bool-cases, inl, inr,
  ◌⊎◌, ◌∙◌, ap,
}
use pangi.Prelude.Distinct.{In, Distinct}
use pangi.Prelude.Sets.{contains}
use pangi.Queue.Database.{RunEntry, entry_id, by_lease, insert_entry, lease_before}

In-insert : (x e : RunEntry) (xs : List RunEntry) → In x (insert_entry e xs) → (x ≡ e) ⊎ In x xs
unfolding insert_entry
In-insert x e [] i = i
In-insert x e (y ∷ ys) i = elim (Bool-cases (lease_before y e)) [
  | inl b ↦ elim (rw b at i) [
    | inl f ↦ inr (inl f)
    | inr j ↦ elim (In-insert x e ys j) [ inl f ↦ inl f | inr k ↦ inr (inr k) ]
  ]
  | inr b ↦ rw b at i
]

insert-In : (x e : RunEntry) (xs : List RunEntry) → (x ≡ e) ⊎ In x xs → In x (insert_entry e xs)
unfolding insert_entry
insert-In x e [] i = i
insert-In x e (y ∷ ys) i = elim (Bool-cases (lease_before y e)) [
  | inl b ↦ rw b (elim i [
    | inl f ↦ inr (insert-In x e ys (inl f))
    | inr j ↦ elim j [ inl f ↦ inl f | inr k ↦ inr (insert-In x e ys (inr k)) ]
  ])
  | inr b ↦ rw b i
]

pub In-by_lease : (x : RunEntry) (xs : List RunEntry) → In x (by_lease xs) → In x xs
unfolding by_lease
In-by_lease x [] i = i
In-by_lease x (y ∷ ys) i = elim (In-insert x y (by_lease ys) i) [
  | inl f ↦ inl f
  | inr j ↦ inr (In-by_lease x ys j)
]

pub by_lease-In : (x : RunEntry) (xs : List RunEntry) → In x xs → In x (by_lease xs)
unfolding by_lease
by_lease-In x [] i = i
by_lease-In x (y ∷ ys) (inl f) = insert-In x y (by_lease ys) (inl f)
by_lease-In x (y ∷ ys) (inr i) = insert-In x y (by_lease ys) (inr (by_lease-In x ys i))

contains-insert :
    (id : String) (e : RunEntry) (xs : List RunEntry)
    → contains id (map entry_id (insert_entry e xs))
      ≡ (str_eq id e.run.id || contains id (map entry_id xs))
unfolding insert_entry contains
contains-insert id e [] = refl
contains-insert id e (y ∷ ys) = ground (arith, contains-insert id e ys)

pub contains-by_lease :
    (id : String) (xs : List RunEntry)
    → contains id (map entry_id (by_lease xs)) ≡ contains id (map entry_id xs)
unfolding by_lease contains
contains-by_lease id [] = refl
contains-by_lease id (y ∷ ys) =
    contains-insert id y (by_lease ys) ∙ ap (λ b. str_eq id y.run.id || b) (contains-by_lease id ys)

Distinct-insert :
    (e : RunEntry) (xs : List RunEntry)
    → contains (entry_id e) (map entry_id xs) ≡ false
    → Distinct (map entry_id xs)
    → Distinct (map entry_id (insert_entry e xs))
unfolding insert_entry contains
Distinct-insert e [] h d = (refl, tt)
Distinct-insert e (y ∷ ys) h d = elim (Bool-cases (lease_before y e)) [
  | inl b ↦ rw b (
    ground (
      arith,
      contains-insert y.run.id e ys,
      d.0,
      eq_iff y.run.id e.run.id,
      eq_iff e.run.id y.run.id,
    ),
    Distinct-insert e ys (ground arith) d.1,
  )
  | inr b ↦ rw b (h, d)
]

pub Distinct-by_lease :
    (xs : List RunEntry) → Distinct (map entry_id xs) → Distinct (map entry_id (by_lease xs))
unfolding by_lease
Distinct-by_lease [] d = tt
Distinct-by_lease (x ∷ xs) d =
    Distinct-insert x (by_lease xs) (contains-by_lease x.run.id xs ∙ d.0) (Distinct-by_lease xs d.1)
