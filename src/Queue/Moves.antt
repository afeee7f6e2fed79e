-- ===== src/Queue/Moves.antt =====
-- The state machine of the domain as the specification of the queue: the rows stay, and a Run
-- changes by allowed transitions, each of which its revision counts.
use pangi.Prelude.{
  ℕ, zero, suc, true, false, ◌≡◌, refl, arith, List, [], ◌∷◌, map, str_eq, eq_refl, eq_iff, inl,
  inr, ap, ◌∙◌, sym, subst,
}
use pangi.Prelude.Distinct.{In, Distinct}
use pangi.Prelude.Int.{ℤ, increment}
use pangi.Prelude.Keyed.{replace, replace_absent, contains-keys}
use pangi.Runs.States.{RunState, run_transition_allowed}
use pangi.Queue.Database.{RunEntry, entry_id}

-- `n` allowed transitions lead from one state to another.
pub data Moves (s : RunState) : RunState → ℕ → Type 0 where
  stay : Moves s s 0
  go :
      {t : RunState} {n : ℕ} (u : RunState)
      → Moves s t n
      → run_transition_allowed t u ≡ true
      → Moves s u (suc n)

-- A revision that counts `n` more transitions
abbrev pub revised : ℕ → ℤ → ℤ
revised zero r = r
revised (suc n) r = increment (revised n r)

-- The row of the same Run, `steps` transitions later.
pub record Moved (e x : RunEntry) : Type 0 where
  pub same_id : x.run.id ≡ e.run.id
  pub same_request : x.run.request ≡ e.run.request
  pub steps : ℕ
  pub moves : Moves e.run.state x.run.state steps
  pub revision : x.run.revision ≡ revised steps e.run.revision

-- Each row of the first table with the row in the same place of the second.
abbrev pub AllMoved : List RunEntry → List RunEntry → Type 0
AllMoved [] [] = Unit
AllMoved (e ∷ es) (x ∷ xs) = Moved e x × AllMoved es xs
AllMoved _ _ = ⊥

pub Moved-refl : (e : RunEntry) → Moved e e
Moved-refl e = record {
  same_id = refl;
  same_request = refl;
  steps = 0;
  moves = stay;
  revision = refl;
}

-- The steps of two moves
abbrev both : ℕ → ℕ → ℕ
both zero n = n
both (suc m) n = suc (both m n)

join : {s t u : RunState} {n m : ℕ} → Moves s t n → Moves t u m → Moves s u (both m n)
join p stay = p
join p (go v q h) = go v (join p q) h

revised_add : (m n : ℕ) (r : ℤ) → revised m (revised n r) ≡ revised (both m n) r
revised_add zero n r = refl
revised_add (suc m) n r = ap increment (revised_add m n r)

pub Moved-trans : (a b c : RunEntry) → Moved a b → Moved b c → Moved a c
Moved-trans a b c p q = record {
  same_id = q.same_id ∙ p.same_id;
  same_request = q.same_request ∙ p.same_request;
  steps = both q.steps p.steps;
  moves = join p.moves q.moves;
  revision =
      q.revision ∙ ap (revised q.steps) p.revision ∙ revised_add q.steps p.steps a.run.revision;
}

pub AllMoved-refl : (xs : List RunEntry) → AllMoved xs xs
AllMoved-refl [] = tt
AllMoved-refl (x ∷ xs) = (Moved-refl x, AllMoved-refl xs)

pub AllMoved-trans : (xs ys zs : List RunEntry) → AllMoved xs ys → AllMoved ys zs → AllMoved xs zs
AllMoved-trans [] [] [] p q = tt
AllMoved-trans [] [] (z ∷ zs) p q = q
AllMoved-trans [] (y ∷ ys) zs p q = elim p [ ]
AllMoved-trans (x ∷ xs) [] zs p q = elim p [ ]
AllMoved-trans (x ∷ xs) (y ∷ ys) [] p q = elim q [ ]
AllMoved-trans (x ∷ xs) (y ∷ ys) (z ∷ zs) p q =
    (Moved-trans x y z p.0 q.0, AllMoved-trans xs ys zs p.1 q.1)

-- Writing the row of one Run.
pub replace-AllMoved :
    (e r : RunEntry) (xs : List RunEntry)
    → Distinct (map entry_id xs)
    → In e xs
    → Moved e r
    → AllMoved xs (replace entry_id e r xs)
replace-AllMoved e r [] d i m = elim i [ ]
replace-AllMoved e r (x ∷ xs) d (inl f) m =
    subst (λ y. AllMoved (x ∷ xs) (replace entry_id y r (x ∷ xs))) (sym f)
      (rw (eq_refl x.run.id, replace_absent entry_id x r xs d.0)
        (subst (λ y. Moved y r) f m, AllMoved-refl xs))
replace-AllMoved e r (x ∷ xs) d (inr i) m =
    let other : str_eq e.run.id x.run.id ≡ false =
      ground (arith, contains-keys entry_id e xs i, d.0, eq_iff e.run.id x.run.id) in
    rw other (Moved-refl x, replace-AllMoved e r xs d.1 i m)

-- One allowed transition
pub Moved-once :
    (e x : RunEntry)
    → x.run.id ≡ e.run.id
    → x.run.request ≡ e.run.request
    → run_transition_allowed e.run.state x.run.state ≡ true
    → x.run.revision ≡ increment e.run.revision
    → Moved e x
Moved-once e x i q h r = record {
  same_id = i;
  same_request = q;
  steps = 1;
  moves = go x.run.state stay h;
  revision = r;
}
