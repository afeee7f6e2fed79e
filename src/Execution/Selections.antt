-- ===== src/Execution/Selections.antt =====
-- Selections of rows: what `keep` and `take` leave of a table, and how many rows are queued.
use pangi.Prelude.{
  ℕ, zero, suc, ◌≤◌, String, Bool, true, false, List, [], ◌∷◌, length, take, keep, is_empty,
  Bool-cases, ◌≡◌, refl, inl, inr, arith,
}
use pangi.Prelude.Sets.{contains}
use pangi.Prelude.Distinct.{Distinct, In}
use pangi.Execution.Engine.{is_queued}
use pangi.Execution.Table.{Row, node, nodes, queued_count}

absent-keep :
    (p : Row → Bool) (x : String) (xs : List Row)
    → contains x (nodes xs) ≡ false
    → contains x (nodes (keep p xs)) ≡ false
unfolding contains
absent-keep p x [] h = refl
absent-keep p x (y ∷ ys) h = ground (arith, absent-keep p x ys)

pub Distinct-keep :
    (p : Row → Bool) (xs : List Row) → Distinct (nodes xs) → Distinct (nodes (keep p xs))
Distinct-keep p [] d = tt
Distinct-keep p (x ∷ xs) d = elim (Bool-cases (p x)) [
  | inl h ↦ rw h (absent-keep p (node x) xs d.0, Distinct-keep p xs d.1)
  | inr h ↦ rw h (Distinct-keep p xs d.1)
]

pub keep-In : (p : Row → Bool) (x : Row) (xs : List Row) → In x xs → p x ≡ true → In x (keep p xs)
keep-In p x [] i h = elim i [ ]
keep-In p x (y ∷ ys) i h = elim (Bool-cases (p y)) [
  | inl k ↦ rw k (elim i [ inl e ↦ inl e | inr j ↦ inr (keep-In p x ys j h) ])
  | inr k ↦ rw k (elim i [ inl e ↦ absurd (cc (h, k, e)) | inr j ↦ keep-In p x ys j h ])
]

absent-take :
    (n : ℕ) (x : String) (xs : List Row)
    → contains x (nodes xs) ≡ false
    → contains x (nodes (take n xs)) ≡ false
unfolding contains
absent-take zero x xs h = refl
absent-take (suc n) x [] h = refl
absent-take (suc n) x (y ∷ ys) h = ground (arith, absent-take n x ys)

pub Distinct-take : (n : ℕ) (xs : List Row) → Distinct (nodes xs) → Distinct (nodes (take n xs))
Distinct-take zero xs d = tt
Distinct-take (suc n) [] d = tt
Distinct-take (suc n) (x ∷ xs) d = (absent-take n (node x) xs d.0, Distinct-take n xs d.1)

pub In-take : (n : ℕ) (x : Row) (xs : List Row) → In x (take n xs) → In x xs
In-take zero x xs i = elim i [ ]
In-take (suc n) x [] i = elim i [ ]
In-take (suc n) x (y ∷ ys) (inl e) = inl e
In-take (suc n) x (y ∷ ys) (inr i) = inr (In-take n x ys i)

pub is_empty-take :
    (n : ℕ) (xs : List Row) → 1 ≤ n → is_empty xs ≡ false → is_empty (take n xs) ≡ false
is_empty-take zero xs l h = ground arith
is_empty-take (suc n) [] l h = cc
is_empty-take (suc n) (x ∷ xs) l h = refl

-- Rows that are not queued count for nothing, and a queued one counts.
pub queued_count-none :
    (xs : List Row) → ((x : Row) → In x xs → is_queued x ≡ false) → queued_count xs ≡ 0
queued_count-none [] f = refl
queued_count-none (x ∷ xs) f =
    rw (f x (inl refl)) (omega (arith, queued_count-none xs (λ y i. f y (inr i))))

pub queued_count-some :
    (xs : List Row)
    → ((x : Row) → In x xs → is_queued x ≡ true)
    → is_empty xs ≡ false
    → 1 ≤ queued_count xs
queued_count-some [] f h = cc
queued_count-some (x ∷ xs) f h = rw (f x (inl refl)) (omega arith)

pub queued_count-le : (xs : List Row) → queued_count xs ≤ length xs
queued_count-le [] = omega arith
queued_count-le (x ∷ xs) = ground (arith, queued_count-le xs)
