-- ===== src/Prelude/Pointwise.antt =====
-- Two lists whose items are related one by one.
use mathlib.Core.List.{List, [], ◌∷◌, map}

module _ {A : Type 0} (r : A → A → Type 0) where
  abbrev pub Pointwise : List A → List A → Type 0
  Pointwise [] [] = Unit
  Pointwise [] (y ∷ ys) = ⊥
  Pointwise (x ∷ xs) [] = ⊥
  Pointwise (x ∷ xs) (y ∷ ys) = r x y × Pointwise xs ys

  pub Pointwise-map : (f : A → A) (xs : List A) → ((x : A) → r x (f x)) → Pointwise xs (map f xs)
  Pointwise-map f [] h = tt
  Pointwise-map f (x ∷ xs) h = (h x, Pointwise-map f xs h)

  pub Pointwise-map_twice :
      (f g : A → A) (xs : List A) → ((x : A) → r x (g (f x))) → Pointwise xs (map g (map f xs))
  Pointwise-map_twice f g [] h = tt
  Pointwise-map_twice f g (x ∷ xs) h = (h x, Pointwise-map_twice f g xs h)

  pub Pointwise-self : (xs : List A) → ((x : A) → r x x) → Pointwise xs xs
  Pointwise-self [] h = tt
  Pointwise-self (x ∷ xs) h = (h x, Pointwise-self xs h)
