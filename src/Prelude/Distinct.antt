-- ===== src/Prelude/Distinct.antt =====
-- Sets of strings without repetitions, and membership of a value in a list.
use mathlib.Core.Path.{◌≡◌, refl}
use mathlib.Core.Logic.{◌⊎◌, inl, inr}
use mathlib.Core.Bool.{true, false, not}
use mathlib.Core.List.{List, [], ◌∷◌, ◌++◌}
use Prim.Native.Nat.{suc, ◌≤◌, ◌<◌}
use Prim.Native.String.{String}
use native.Mathlib.Omega.{arith}
use pangi.Prelude.Tests.{str_eq, eq_iff, eq_refl, Bool-cases}
use pangi.Prelude.Lists.{length, any, is_empty}
use pangi.Prelude.Sets.{
  contains, subset, to_set, unique, remove, contains-to_set, contains-remove, contains-append,
}

abbrev pub Distinct : List String → Type 0
Distinct [] = Unit
Distinct (x ∷ xs) = (contains x xs ≡ false) × Distinct xs

pub length-to_set-le : (xs : List String) → length (to_set xs) ≤ length xs
unfolding to_set
length-to_set-le [] = omega arith
length-to_set-le (x ∷ xs) = ground (arith, length-to_set-le xs)

-- `len(set(xs)) == len(xs)` holds exactly of a list without repetitions.
pub unique-Distinct : (xs : List String) → unique xs ≡ true → Distinct xs
unfolding unique
unique-Distinct [] h = tt
unique-Distinct (x ∷ xs) h = elim (Bool-cases (contains x xs)) [
  | inl old ↦ absurd (ground (arith, length-to_set-le xs, contains-to_set x xs))
  | inr new ↦ (new, unique-Distinct xs (ground (arith, contains-to_set x xs)))
]

pub Distinct-unique : (xs : List String) → Distinct xs → unique xs ≡ true
unfolding unique
Distinct-unique [] h = refl
Distinct-unique (x ∷ xs) h = ground (arith, Distinct-unique xs h.1, contains-to_set x xs, h.0)

pub Distinct-to_set : (xs : List String) → Distinct (to_set xs)
unfolding to_set
Distinct-to_set [] = tt
Distinct-to_set (x ∷ xs) = elim (Bool-cases (contains x (to_set xs))) [
  | inl old ↦ rw old (Distinct-to_set xs)
  | inr new ↦ rw new (new, Distinct-to_set xs)
]

pub Distinct-remove : (y : String) (xs : List String) → Distinct xs → Distinct (remove y xs)
unfolding remove
Distinct-remove y [] h = tt
Distinct-remove y (x ∷ xs) h = elim (Bool-cases (str_eq y x)) [
  | inl same ↦ rw same (Distinct-remove y xs h.1)
  | inr other ↦ rw other (ground (arith, contains-remove x y xs, h.0), Distinct-remove y xs h.1)
]

remove_absent : (y : String) (xs : List String) → contains y xs ≡ false → remove y xs ≡ xs
unfolding remove contains
remove_absent y [] h = refl
remove_absent y (x ∷ xs) h = ground (arith, remove_absent y xs)

pub length-remove :
    (y : String) (xs : List String)
    → Distinct xs
    → contains y xs ≡ true
    → suc (length (remove y xs)) ≡ length xs
unfolding remove contains
length-remove y [] d h = cc
length-remove y (x ∷ xs) d h =
    ground (arith, d.0, length-remove y xs d.1, remove_absent y xs, eq_iff y x)

pub length-remove-le : (y : String) (xs : List String) → length (remove y xs) ≤ length xs
unfolding remove
length-remove-le y [] = omega arith
length-remove-le y (x ∷ xs) = ground (arith, length-remove-le y xs)

pub length-remove-lt :
    (y : String) (xs : List String) → contains y xs ≡ true → length (remove y xs) < length xs
unfolding remove contains
length-remove-lt y [] h = cc
length-remove-lt y (x ∷ xs) h = ground (arith, length-remove-lt y xs, length-remove-le y xs)

pub length-to_set : (xs : List String) → Distinct xs → length (to_set xs) ≡ length xs
unfolding to_set
length-to_set [] d = refl
length-to_set (x ∷ xs) d = ground (arith, d.0, length-to_set xs d.1, contains-to_set x xs)

pub Distinct-snoc :
    (xs : List String) (y : String) → Distinct xs → contains y xs ≡ false → Distinct (xs ++ y ∷ [])
unfolding contains
Distinct-snoc [] y d h = (refl, tt)
Distinct-snoc (x ∷ xs) y d h = (
  ground (arith, contains-append x xs (y ∷ []), d.0, eq_iff x y, eq_iff y x),
  Distinct-snoc xs y d.1 (ground arith),
)

-- Inclusion, pointwise.
pub subset-contains :
    (xs ys : List String) (x : String)
    → subset xs ys ≡ true
    → contains x xs ≡ true
    → contains x ys ≡ true
unfolding subset contains
subset-contains [] ys x s h = cc
subset-contains (y ∷ xs) ys x s h = ground (arith, subset-contains xs ys x, eq_iff x y)

pub contains-subset :
    (xs ys : List String)
    → ((x : String) → contains x xs ≡ true → contains x ys ≡ true)
    → subset xs ys ≡ true
unfolding subset
contains-subset [] ys f = refl
contains-subset (x ∷ xs) ys f =
    rw (f x (unfold contains in rw eq_refl))
      (contains-subset xs ys (λ y h. f y (unfold contains in ground arith)))

-- `any(x not in ys for x in xs)`
pub any_missing : (xs ys : List String) → any (λ x. not (contains x ys)) xs ≡ not (subset xs ys)
unfolding subset
any_missing [] ys = refl
any_missing (x ∷ xs) ys = ground (arith, any_missing xs ys)

pub is_empty-contains : (x : String) (xs : List String) → is_empty xs ≡ true → contains x xs ≡ false
unfolding contains
is_empty-contains x [] h = refl
is_empty-contains x (y ∷ xs) h = cc

-- A value that occurs in a list.
abbrev pub In : {A : Type 0} → A → List A → Type 0
In a [] = ⊥
In a (x ∷ xs) = (a ≡ x) ⊎ In a xs

pub In-append_left : {A : Type 0} (a : A) (xs ys : List A) → In a xs → In a (xs ++ ys)
In-append_left a [] ys h = elim h [ ]
In-append_left a (x ∷ xs) ys (inl e) = inl e
In-append_left a (x ∷ xs) ys (inr h) = inr (In-append_left a xs ys h)

pub In-append_last : {A : Type 0} (a : A) (xs : List A) → In a (xs ++ a ∷ [])
In-append_last a [] = inl refl
In-append_last a (x ∷ xs) = inr (In-append_last a xs)
