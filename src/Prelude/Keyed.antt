-- ===== src/Prelude/Keyed.antt =====
-- Lists whose items have distinct keys: replacing one item.
use pangi.Prelude.Tests.{str_eq, eq_iff, eq_refl, if◌then◌else◌, Bool-cases}
use pangi.Prelude.Sets.{contains}
use pangi.Prelude.Distinct.{Distinct, In}
use Prim.Native.String.{String}
use mathlib.Core.Path.{◌≡◌, refl, sym, ap, ◌∙◌, subst}
use mathlib.Core.Logic.{◌⊎◌, inl, inr}
use mathlib.Core.Bool.{Bool, true, false, not}
use pangi.Prelude.Lists.{any, all, keep}
use mathlib.Core.List.{List, [], ◌∷◌, map}
use native.Mathlib.Omega.{arith}

any_fresh :
    (k : String) (ks ids : List String)
    → contains k ids ≡ false
    → any (λ id. contains id (k ∷ ks)) ids ≡ any (λ id. contains id ks) ids
unfolding contains
any_fresh k ks [] h = refl
any_fresh k ks (i ∷ ids) h = ground (arith, any_fresh k ks ids, eq_iff k i, eq_iff i k)

module _ {A : Type 0} (key : A → String) where
  abbrev pub replace : A → A → List A → List A
  replace b r [] = []
  replace b r (x ∷ rest) = (if str_eq (key b) (key x) then r else x) ∷ replace b r rest

  pub contains-keys : (x : A) (xs : List A) → In x xs → contains (key x) (map key xs) ≡ true
  unfolding contains
  contains-keys x [] i = elim i [ ]
  contains-keys x (y ∷ ys) (inl e) = rw (ap key e) (rw eq_refl)
  contains-keys x (y ∷ ys) (inr i) = ground (arith, contains-keys x ys i)

  -- An item is determined by its key.
  pub same_item :
      (x y : A) (xs : List A) → Distinct (map key xs) → In x xs → In y xs → key x ≡ key y → x ≡ y
  same_item x y [] d i j h = elim i [ ]
  same_item x y (z ∷ zs) d (inl e) (inl f) h = e ∙ sym f
  same_item x y (z ∷ zs) d (inl e) (inr j) h = cc (d.0, contains-keys y zs j, h, ap key e)
  same_item x y (z ∷ zs) d (inr i) (inl f) h = cc (d.0, contains-keys x zs i, h, ap key f)
  same_item x y (z ∷ zs) d (inr i) (inr j) h = same_item x y zs d.1 i j h

  pub apart_of :
      (b c : A) (xs : List A)
      → contains (key b) (map key xs) ≡ false
      → In c xs
      → str_eq (key b) (key c) ≡ false
  apart_of b c xs h i = elim (Bool-cases (str_eq (key b) (key c))) [
    | inl same ↦ cc (h, contains-keys c xs i, (eq_iff (key b) (key c)).0 same)
    | inr other ↦ other
  ]

  pub In-replace :
      (b r x : A) (xs : List A)
      → In x (replace b r xs)
      → (In x xs × (str_eq (key b) (key x) ≡ false)) ⊎ (x ≡ r)
  In-replace b r x [] i = elim i [ ]
  In-replace b r x (y ∷ ys) (inr i) = elim (In-replace b r x ys i) [
    | inl (j, e) ↦ inl (inr j, e)
    | inr e ↦ inr e
  ]
  In-replace b r x (y ∷ ys) (inl e) = elim (Bool-cases (str_eq (key b) (key y))) [
    | inl same ↦ inr (e ∙ ap (λ (t : Bool). if t then r else y) same)
    | inr other ↦
        let e' : x ≡ y = e ∙ ap (λ (t : Bool). if t then r else y) other in
        inl (inl e', rw e' other)
  ]

  pub In-replace_other :
      (b r x : A) (xs : List A) → In x xs → str_eq (key b) (key x) ≡ false → In x (replace b r xs)
  In-replace_other b r x [] i h = elim i [ ]
  In-replace_other b r x (y ∷ ys) (inr i) h = inr (In-replace_other b r x ys i h)
  In-replace_other b r x (y ∷ ys) (inl e) h = inl (
      e
      ∙ sym
          (ap (λ (t : Bool). if t then r else y) (subst (λ z. str_eq (key b) (key z) ≡ false) e h)))

  pub In-replace_self : (b r : A) (xs : List A) → In b xs → In r (replace b r xs)
  In-replace_self b r [] i = elim i [ ]
  In-replace_self b r (y ∷ ys) (inr i) = inr (In-replace_self b r ys i)
  In-replace_self b r (y ∷ ys) (inl e) = inl (
      sym (
        ap (λ (t : Bool). if t then r else y)
          (subst (λ z. str_eq (key b) (key z) ≡ true) e (eq_refl (key b)))))

  pub keys-replace : (b r : A) (xs : List A) → key r ≡ key b → map key (replace b r xs) ≡ map key xs
  keys-replace b r [] h = refl
  keys-replace b r (x ∷ xs) h = ground (arith, keys-replace b r xs h, eq_iff (key b) (key x))

  pub replace_absent :
      (b r : A) (xs : List A) → contains (key b) (map key xs) ≡ false → replace b r xs ≡ xs
  unfolding contains
  replace_absent b r [] h = refl
  replace_absent b r (x ∷ xs) h = ground (arith, replace_absent b r xs)

  pub replace_self : (b : A) (xs : List A) → Distinct (map key xs) → In b xs → replace b b xs ≡ xs
  replace_self b [] d i = elim i [ ]
  replace_self b (x ∷ xs) d (inl e) =
      subst (λ y. replace y y (x ∷ xs) ≡ x ∷ xs) (sym e)
        (rw (eq_refl (key x), replace_absent x x xs d.0) refl)
  replace_self b (x ∷ xs) d (inr i) = elim (Bool-cases (str_eq (key b) (key x))) [
    | inl same ↦ absurd (cc (d.0, contains-keys b xs i, (eq_iff (key b) (key x)).0 same))
    | inr other ↦ rw other (ap (λ l. x ∷ l) (replace_self b xs d.1 i))
  ]

  -- A second replacement of the same item undoes the first.
  pub replace_twice :
      (b r s : A) (xs : List A) → key r ≡ key b → replace r s (replace b r xs) ≡ replace b s xs
  replace_twice b r s [] h = refl
  replace_twice b r s (x ∷ xs) h = elim (Bool-cases (str_eq (key b) (key x))) [
    | inl same ↦ rw (same, eq_refl) (ap (λ l. s ∷ l) (replace_twice b r s xs h))
    | inr other ↦ rw (other, h, other) (ap (λ l. x ∷ l) (replace_twice b r s xs h))
  ]

  -- A comprehension over a list of such items.
  pub contains-keep :
      (p : A → Bool) (id : String) (xs : List A)
      → contains id (map key xs) ≡ false
      → contains id (map key (keep p xs)) ≡ false
  unfolding contains
  contains-keep p id [] h = h
  contains-keep p id (x ∷ xs) h = ground (arith, contains-keep p id xs)

  pub Distinct-keep :
      (p : A → Bool) (xs : List A) → Distinct (map key xs) → Distinct (map key (keep p xs))
  Distinct-keep p [] d = tt
  Distinct-keep p (x ∷ xs) d = elim (Bool-cases (p x)) [
    | inl h ↦ rw h (contains-keep p (key x) xs d.0, Distinct-keep p xs d.1)
    | inr h ↦ rw h (Distinct-keep p xs d.1)
  ]

  pub contains-keep_other :
      (p : A → Bool) (x : A) (xs : List A)
      → Distinct (map key xs)
      → In x xs
      → p x ≡ false
      → contains (key x) (map key (keep p xs)) ≡ false
  unfolding contains
  contains-keep_other p x [] d i h = elim i [ ]
  contains-keep_other p x (y ∷ ys) d (inl e) h =
      subst (λ z. contains (key z) (map key (keep p (y ∷ ys))) ≡ false) (sym e)
        (rw (sym (ap p e) ∙ h) (contains-keep p (key y) ys d.0))
  contains-keep_other p x (y ∷ ys) d (inr i) h =
      ground (
        arith,
        contains-keep_other p x ys d.1 i h,
        contains-keys x ys i,
        d.0,
        eq_iff (key x) (key y),
      )

  -- Items that are kept by a test and by its negation have different keys.
  pub keep_apart :
      (p : A → Bool) (xs : List A)
      → Distinct (map key xs)
      → any (λ id. contains id (map key (keep p xs))) (map key (keep (λ x. not (p x)) xs)) ≡ false
  unfolding contains
  keep_apart p [] d = refl
  keep_apart p (x ∷ xs) d = elim (Bool-cases (p x)) [
    | inl h ↦ rw h (
        any_fresh (key x) (map key (keep p xs)) (map key (keep (λ y. not (p y)) xs))
          (contains-keep (λ y. not (p y)) (key x) xs d.0)
        ∙ keep_apart p xs d.1)
    | inr h ↦ rw h (ground (arith, contains-keep p (key x) xs d.0, keep_apart p xs d.1))
  ]

module _ {A : Type 0} where
  pub In-keep : (p : A → Bool) (x : A) (xs : List A) → In x (keep p xs) → In x xs × (p x ≡ true)
  In-keep p x [] i = elim i [ ]
  In-keep p x (y ∷ ys) i = elim (Bool-cases (p y)) [
    | inl h ↦ elim (rw h at i) [
      | inl e ↦ (inl e, ap p e ∙ h)
      | inr j ↦ let (k, q) = In-keep p x ys j in (inr k, q)
    ]
    | inr h ↦ let (k, q) = In-keep p x ys (rw h at i) in (inr k, q)
  ]

  pub keep-In : (p : A → Bool) (x : A) (xs : List A) → In x xs → p x ≡ true → In x (keep p xs)
  keep-In p x [] i h = elim i [ ]
  keep-In p x (y ∷ ys) (inl e) h = rw (sym (ap p e) ∙ h) (inl e)
  keep-In p x (y ∷ ys) (inr i) h = elim (Bool-cases (p y)) [
    | inl q ↦ rw q (inr (keep-In p x ys i h))
    | inr q ↦ rw q (keep-In p x ys i h)
  ]

  pub any_none : (p : A → Bool) (xs : List A) → ((x : A) → In x xs → p x ≡ false) → any p xs ≡ false
  any_none p [] f = refl
  any_none p (x ∷ xs) f = rw (f x (inl refl)) (any_none p xs (λ y i. f y (inr i)))

  pub none_any : (p : A → Bool) (xs : List A) → any p xs ≡ false → (x : A) → In x xs → p x ≡ false
  none_any p [] h x i = elim i [ ]
  none_any p (y ∷ ys) h x (inl e) = ap p e ∙ (ground arith)
  none_any p (y ∷ ys) h x (inr i) = none_any p ys (ground arith) x i

  pub any_some : (p : A → Bool) (xs : List A) → any p xs ≡ true → (x : A) × In x xs × (p x ≡ true)
  any_some p [] h = absurd (cc h)
  any_some p (y ∷ ys) h = elim (Bool-cases (p y)) [
    | inl b ↦ (y, inl refl, b)
    | inr b ↦ let (x, i, c) = any_some p ys (ground arith) in (x, inr i, c)
  ]

  pub all_each : (p : A → Bool) (xs : List A) → all p xs ≡ true → (x : A) → In x xs → p x ≡ true
  all_each p [] h x i = elim i [ ]
  all_each p (y ∷ ys) h x (inl e) = ap p e ∙ (ground arith)
  all_each p (y ∷ ys) h x (inr i) = all_each p ys (ground arith) x i

  pub not_all : (p : A → Bool) (xs : List A) → all p xs ≡ false → (x : A) × In x xs × (p x ≡ false)
  not_all p [] h = absurd (cc h)
  not_all p (y ∷ ys) h = elim (Bool-cases (p y)) [
    | inl b ↦ let (x, i, c) = not_all p ys (ground arith) in (x, inr i, c)
    | inr b ↦ (y, inl refl, b)
  ]
