-- ===== src/Prelude/Dict.antt =====
-- Python's `dict` with string keys, as an association list in insertion order.
use mathlib.Core.Path.{◌≡◌, sym, ap, ◌∙◌}
use mathlib.Core.Logic.{◌⊎◌, inl, inr}
use mathlib.Core.List.{List, [], ◌∷◌}
use mathlib.Core.Option.{Option, none, some}
use Prim.Native.String.{String}
use native.Mathlib.Omega.{arith}
use pangi.Prelude.Tests.{str_eq, eq_iff, Bool-cases, if◌then◌else◌}
use pangi.Prelude.Distinct.{In}

module _ {ℓ} {V : Type ℓ} where
  -- d.get(k)
  unfoldable pub lookup : String → List (String × V) → Option V
  lookup k [] = none
  lookup k ((j, v) ∷ rest) = if str_eq k j then some v else lookup k rest

  -- d[k] = v
  unfoldable pub put : String → V → List (String × V) → List (String × V)
  put k v [] = (k, v) ∷ []
  put k v ((j, w) ∷ rest) = if str_eq k j then (j, v) ∷ rest else (j, w) ∷ put k v rest

  pub lookup-put :
      (k j : String) (v : V) (d : List (String × V))
      → lookup j (put k v d) ≡ (if str_eq k j then some v else lookup j d)
  unfolding lookup put
  lookup-put k j v [] = ground (arith, eq_iff k j, eq_iff j k)
  lookup-put k j v ((i, w) ∷ rest) =
      ground (arith, eq_iff k j, eq_iff j k, eq_iff k i, eq_iff j i, lookup-put k j v rest)

module _ {V : Type 0} where
  -- An entry that a lookup finds, and the entries after an assignment.
  pub In-of_lookup :
      (k : String) (v : V) (d : List (String × V)) → lookup k d ≡ some v → In (k, v) d
  unfolding lookup
  In-of_lookup k v [] h = cc
  In-of_lookup k v ((j, w) ∷ rest) h = elim (Bool-cases (str_eq k j)) [
    | inl same ↦ inl (entry_path ((eq_iff k j).0 same) (ground arith))
    | inr other ↦ inr (In-of_lookup k v rest (ground arith))
  ]
    where
      entry_path : k ≡ j → v ≡ w → ◌≡◌ {A = String × V} (k, v) (j, w)
      entry_path p q = λ i. (p i, q i)

  pub In-put :
      (k x : String) (v n : V) (d : List (String × V))
      → In (x, v) (put k n d)
      → ((x ≡ k) × (v ≡ n)) ⊎ In (x, v) d
  unfolding put
  In-put k x v n [] (inl e) = inl (ap (λ (p : String × V). p.0) e, ap (λ (p : String × V). p.1) e)
  In-put k x v n [] (inr i) = elim i [ ]
  In-put k x v n ((j, w) ∷ rest) i = elim (Bool-cases (str_eq k j)) [
    | inl same ↦ replaced ((eq_iff k j).0 same) (rw same at i)
    | inr other ↦ kept (rw other at i) (λ m. In-put k x v n rest m)
  ]
    where
      replaced : k ≡ j → In (x, v) ((j, n) ∷ rest) → ((x ≡ k) × (v ≡ n)) ⊎ In (x, v) ((j, w) ∷ rest)
      replaced p (inl e) =
          inl (ap (λ (p : String × V). p.0) e ∙ sym p, ap (λ (p : String × V). p.1) e)
      replaced p (inr m) = inr (inr m)

      kept :
          In (x, v) ((j, w) ∷ put k n rest)
          → (In (x, v) (put k n rest) → ((x ≡ k) × (v ≡ n)) ⊎ In (x, v) rest)
          → ((x ≡ k) × (v ≡ n)) ⊎ In (x, v) ((j, w) ∷ rest)
      kept (inl e) ih = inr (inl e)
      kept (inr m) ih = elim (ih m) [ inl new ↦ inl new | inr old ↦ inr (inr old) ]
