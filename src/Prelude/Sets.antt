-- ===== src/Prelude/Sets.antt =====
-- Python's sets of strings, as lists: membership, inclusion, and `set(xs)` without repetitions.
use mathlib.Core.Path.{◌≡◌, refl}
use mathlib.Core.Bool.{Bool, true, false, ◌&&◌, ◌||◌}
use mathlib.Core.List.{List, [], ◌∷◌, ◌++◌}
use Prim.Native.String.{String}
use native.Mathlib.Omega.{arith}
use pangi.Prelude.Tests.{str_eq, eq_iff, if◌then◌else◌, ◌==◌}
use pangi.Prelude.Lists.{length}

-- x in xs
unfoldable pub contains : String → List String → Bool
contains x [] = false
contains x (y ∷ ys) = str_eq x y || contains x ys

-- set(xs).issubset(ys)
unfoldable pub subset : List String → List String → Bool
subset [] ys = true
subset (x ∷ xs) ys = contains x ys && subset xs ys

-- set(xs)
unfoldable pub to_set : List String → List String
unfolding contains
to_set [] = []
to_set (x ∷ xs) = let rest = to_set xs in if contains x rest then rest else x ∷ rest

-- len(set(xs)) == len(xs)
unfoldable pub unique : List String → Bool
unfolding to_set
unique xs = length (to_set xs) == length xs

-- xs.remove(x), for a set
unfoldable pub remove : String → List String → List String
remove x [] = []
remove x (y ∷ ys) = let rest = remove x ys in if str_eq x y then rest else y ∷ rest

pub contains-append :
    (x : String) (xs ys : List String) → contains x (xs ++ ys) ≡ (contains x xs || contains x ys)
unfolding contains
contains-append x [] ys = refl
contains-append x (y ∷ xs) ys = ground (arith, contains-append x xs ys)

pub contains-to_set : (x : String) (xs : List String) → contains x (to_set xs) ≡ contains x xs
unfolding contains to_set
contains-to_set x [] = refl
contains-to_set x (y ∷ ys) = ground (arith, contains-to_set x ys, contains-to_set y ys, eq_iff x y)

pub contains-remove :
    (x y : String) (ys : List String)
    → contains x (remove y ys) ≡ (if str_eq y x then false else contains x ys)
unfolding contains remove
contains-remove x y [] = ground arith
contains-remove x y (z ∷ zs) =
    ground (arith, contains-remove x y zs, eq_iff y x, eq_iff x z, eq_iff y z)
