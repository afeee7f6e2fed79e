-- ===== src/Queue/Order.antt =====
-- The order in which queued Runs are claimed is total, and `first_queued` finds its least row.
use Prim.Native.Nat.{Ordering, compare as compare_ℕ}
use Prim.Native.Char.{Char, code}
use Prim.Native.String.{◌∷◌, [], then as either, compare as compare_text}
use Prim.Native.String.compare
use pangi.Prelude.{
  String, Bool, true, false, ◌&&◌, ◌||◌, ◌≡◌, refl, ap, ◌∙◌, ltb, ◌==◌, arith, List, [], ◌∷◌,
  Option, none, some, inl, inr, Bool-cases, Option-cases, ◌⊎◌, if◌then◌else◌, subst,
}
use pangi.Prelude.Distinct.{In}
use pangi.Queue.Database.{
  RunEntry, is_before, text_before, queue_before, is_queued_run, first_queued,
}

abbrev is_same : Ordering → Bool
is_same Ordering.eq = true
is_same _ = false

is_before_then :
    (o p : Ordering) → is_before (either o p) ≡ (is_before o || is_same o && is_before p)
is_before_then Ordering.lt p = refl
is_before_then Ordering.eq p = refl
is_before_then Ordering.gt p = refl

text_before_cons :
    (c d : Char) (s t : String)
    → text_before (c ∷ s) (d ∷ t) ≡ (ltb (code c) (code d) || code c == code d && text_before s t)
text_before_cons c d s t =
    ap is_before (compare.cons-cons c d s t)
    ∙ is_before_then (compare_ℕ (code c) (code d)) (compare_text s t)
    ∙ ground arith

-- A text that is not before a second one, which is not before a third, is not before the third.
text_before_trans :
    (s t u : String) → text_before s t ≡ false → text_before t u ≡ false → text_before s u ≡ false
text_before_trans [] [] u a b = b
text_before_trans [] (d ∷ t) u a b = cc (ap is_before (compare.nil-cons d t), a)
text_before_trans (c ∷ s) t [] a b = ap is_before (compare.cons-nil c s)
text_before_trans (c ∷ s) [] (f ∷ u) a b = cc (ap is_before (compare.nil-cons f u), b)
text_before_trans (c ∷ s) (d ∷ t) (f ∷ u) a b = ground (
  arith,
  text_before_cons c d s t,
  text_before_cons d f t u,
  text_before_cons c f s u,
  text_before_trans s t u,
)

-- The rows' order is total: what is not before a row that is not before a third is not before it.
pub queue_before_trans :
    (a b c : RunEntry)
    → queue_before a b ≡ false
    → queue_before b c ≡ false
    → queue_before a c ≡ false
unfolding queue_before
queue_before_trans a b c h k = ground (arith, text_before_trans a.run.id b.run.id c.run.id)

text_before_asym : (s t : String) → text_before s t ≡ true → text_before t s ≡ false
text_before_asym [] [] h = ap is_before compare.nil-nil
text_before_asym [] (d ∷ t) h = ap is_before (compare.cons-nil d t)
text_before_asym (c ∷ s) [] h = cc (ap is_before (compare.cons-nil c s), h)
text_before_asym (c ∷ s) (d ∷ t) h =
    ground (arith, text_before_cons c d s t, text_before_cons d c t s, text_before_asym s t)

queue_before_asym : (a b : RunEntry) → queue_before a b ≡ true → queue_before b a ≡ false
unfolding queue_before
queue_before_asym a b h = ground (arith, text_before_asym a.run.id b.run.id)

queue_before_refl : (a : RunEntry) → queue_before a a ≡ false
queue_before_refl a = elim (Bool-cases (queue_before a a)) [
  | inl h ↦ queue_before_asym a a h
  | inr h ↦ h
]

-- Nothing is found exactly if nothing is queued.
pub first_queued-none :
    (x : RunEntry) (xs : List RunEntry) → first_queued xs ≡ none → In x xs → is_queued_run x ≡ false
unfolding first_queued
first_queued-none x [] h i = elim i [ ]
first_queued-none x (y ∷ ys) h (inl e) = rw e (ground arith)
first_queued-none x (y ∷ ys) h (inr i) = ground (arith, first_queued-none x ys)

-- What the choice between a row and the first of the later ones is.
abbrev first_of : RunEntry → Option RunEntry → Option RunEntry
first_of e later =
    if is_queued_run e
    then elim later [
      | none ↦ some e
      | some best ↦ if queue_before best e then some best else some e
    ]
    else later

first_of-some :
    (e b : RunEntry) (later : Option RunEntry)
    → first_of e later ≡ some b
    → ((b ≡ e)
        × (is_queued_run e ≡ true)
        × ((c : RunEntry) → later ≡ some c → queue_before c e ≡ false))
      ⊎ ((later ≡ some b) × (is_queued_run e ≡ true → queue_before b e ≡ true))
first_of-some e b none h = elim (Bool-cases (is_queued_run e)) [
  | inl q ↦ inl (ground arith, q, λ c s. cc)
  | inr q ↦ cc
]
first_of-some e b (some c) h = elim (Bool-cases (is_queued_run e)) [
  | inl q ↦ elim (Bool-cases (queue_before c e)) [
    | inl s ↦ inr (ground arith, λ t. ground arith)
    | inr s ↦ inl (ground arith, q, λ d t. ground arith)
  ]
  | inr q ↦ inr (ground arith, λ t. ground arith)
]

pub first_queued-In :
    (b : RunEntry) (xs : List RunEntry)
    → first_queued xs ≡ some b
    → In b xs × (is_queued_run b ≡ true)
unfolding first_queued
first_queued-In b [] h = cc
first_queued-In b (y ∷ ys) h = elim (first_of-some y b (first_queued ys) h) [
  | inl (e, q, _) ↦ (inl e, rw e q)
  | inr (later, _) ↦ let (i, q) = first_queued-In b ys later in (inr i, q)
]

-- No queued row is before the one that is found.
pub first_queued-least :
    (b x : RunEntry) (xs : List RunEntry)
    → first_queued xs ≡ some b
    → In x xs
    → is_queued_run x ≡ true
    → queue_before x b ≡ false
unfolding first_queued
first_queued-least b x [] h i q = cc
first_queued-least b x (y ∷ ys) h i q = elim (first_of-some y b (first_queued ys) h) [
  | inl (e, _, none_before) ↦ rw e (elim i [
    | inl f ↦ rw f (queue_before_refl y)
    | inr j ↦ elim (Option-cases (first_queued ys)) [
      | inl empty ↦ cc (first_queued-none x ys empty j, q)
      | inr (c, found) ↦
          queue_before_trans x c y (first_queued-least c x ys found j q) (none_before c found)
    ]
  ])
  | inr (later, before) ↦ elim i [
    | inl f ↦ rw f (queue_before_asym b y (before (subst (λ z. is_queued_run z ≡ true) f q)))
    | inr j ↦ first_queued-least b x ys later j q
  ]
]
