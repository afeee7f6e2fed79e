-- ===== src/Execution/Sweep.antt =====
-- One transaction after another, each on another row: what a sweep over some rows leaves.
use pangi.Prelude.{
  ◌+◌, false, List, [], ◌∷◌, str_eq, eq_iff, Bool-cases, ◌≡◌, refl, ◌∙◌, subst, ◌⊎◌, inl, inr,
  arith,
}
use pangi.Prelude.Sets.{contains}
use pangi.Prelude.Distinct.{Distinct, In}
use pangi.Execution.World.{RunRow, World, Exec, each}
use pangi.Execution.Store.{Claim, Env}
use pangi.Execution.Table.{
  Row, node, nodes, Good, replace, In-replace, In-replace_other, In-replace_self, queued_count,
  contains-nodes,
}
use pangi.Execution.Replacement.{queued_count-replace}
use pangi.Execution.Hoare.{Runs, done, Runs-bind, Ownership, Holds}
use pangi.Execution.Transactions.{Wrote}

-- The rows `bs` have become the rows `rs`, one `R` each, and the others are as they were.
pub record Swept (R : Row → Row → Type 0) (bs rs steps steps' : List Row) : Type 0 where
  pub same_nodes : nodes rs ≡ nodes bs
  pub related : (r : Row) → In r rs → (b : Row) × In b bs × R b r
  pub written : (r : Row) → In r rs → In r steps'
  pub others :
      (x : Row) → In x steps' → (In x steps × (contains (node x) (nodes bs) ≡ false)) ⊎ In x rs
  pub kept : (x : Row) → In x steps → contains (node x) (nodes bs) ≡ false → In x steps'
  pub counted : queued_count steps' + queued_count bs ≡ queued_count steps + queued_count rs

Swept-none : (R : Row → Row → Type 0) (steps : List Row) → Swept R [] [] steps steps
unfolding contains
Swept-none R steps = record {
  same_nodes = refl;
  related = λ r i. elim i [ ];
  written = λ r i. elim i [ ];
  others = λ x i. inl (i, refl);
  kept = λ x i h. i;
  counted = refl;
}

Swept-more :
    (R : Row → Row → Type 0) (b r : Row) (bs rs steps steps' : List Row)
    → Distinct (nodes steps)
    → contains (node b) (nodes bs) ≡ false
    → In b steps
    → node r ≡ node b
    → R b r
    → Swept R bs rs (replace b r steps) steps'
    → Swept R (b ∷ bs) (r ∷ rs) steps steps'
unfolding contains
Swept-more R b r bs rs steps steps' d apart i n h s = record {
  same_nodes = rw (n, s.same_nodes) refl;
  related = λ x j. elim j [
    | inl e ↦ (b, inl refl, rw e h)
    | inr k ↦ let (c, m, q) = s.related x k in (c, inr m, q)
  ];
  written = λ x j. elim j [
    | inl e ↦ rw e (s.kept r (In-replace_self b r steps i) (rw n apart))
    | inr k ↦ s.written x k
  ];
  others = λ x j. elim (s.others x j) [
    | inl (k, c) ↦ elim (In-replace b r x steps k) [
      | inl (old, other) ↦
          inl (old, ground (arith, eq_iff (node b) (node x), eq_iff (node x) (node b)))
      | inr e ↦ inr (inl e)
    ]
    | inr k ↦ inr (inr k)
  ];
  kept = λ x j c.
      s.kept x
        (In-replace_other b r x steps j
          (ground (arith, eq_iff (node b) (node x), eq_iff (node x) (node b))))
        (ground arith);
  counted = omega (arith, queued_count-replace b r steps d i, s.counted);
}

pub apart_of :
    (b c : Row) (bs : List Row)
    → contains (node b) (nodes bs) ≡ false
    → In c bs
    → str_eq (node b) (node c) ≡ false
apart_of b c bs h i = elim (Bool-cases (str_eq (node b) (node c))) [
  | inl same ↦ cc (h, contains-nodes c bs i, (eq_iff (node b) (node c)).0 same)
  | inr other ↦ other
]

module _ (env : Env) (claim : Claim) (L : Type 0) (O : RunRow → Type 0)
    (own : Ownership env claim L O) where
  -- What a sweep leaves in the world.
  pub record SweptWorld (R : Row → Row → Type 0) (bs rs : List Row) (w w' : World) : Type 0 where
    pub holds : Holds O w'
    pub plan : w'.plan ≡ w.plan
    pub swept : Swept R bs rs w.steps w'.steps

  -- A transaction fit for a sweep: under `K` it ends, writes its row only, and keeps `K` for the
  -- other rows.
  pub record IsOperation (K : List Row → Row → Type 0) (R : Row → Row → Type 0)
      (op : Row → Exec Row) : Type 0 where
    pub runs :
        (b : Row) (w : World)
        → Holds O w
        → In b w.steps
        → K w.steps b
        → Runs L (λ r w'. Wrote O b r w w' × R b r) (op b w)
    pub same_node : (b r : Row) → R b r → node r ≡ node b
    pub stable :
        (steps : List Row) (b r c : Row)
        → Good steps
        → In b steps
        → K steps b
        → K steps c
        → K (replace b r steps) c

  pub each-Runs :
      (K : List Row → Row → Type 0) (R : Row → Row → Type 0) (op : Row → Exec Row)
      → IsOperation K R op
      → (bs : List Row) (w : World) → Holds O w
      → Distinct (nodes bs)
      → ((b : Row) → In b bs → In b w.steps × K w.steps b)
      → Runs L (λ rs w'. SweptWorld R bs rs w w') (each op bs w)
  unfolding each
  each-Runs K R op is_op [] w h d f =
      done [] w refl (record { holds = h; plan = refl; swept = Swept-none R w.steps })
  each-Runs K R op is_op (b ∷ bs) w h d f =
      let (i, k) = f b (inl refl) in
      Runs-bind (op b) _ w (is_op.runs b w h i k) λ r w' (wrote, q).
        Runs-bind (each op bs) _ w'
          (each-Runs K R op is_op bs w' wrote.holds d.1 (λ c j.
            let (i', k') = f c (inr j) in
            rw wrote.steps (
              In-replace_other b r c w.steps i' (apart_of b c bs d.0 j),
              is_op.stable w.steps b r c h.good i k k',
            )))
          λ rs w'' s. done (r ∷ rs) w'' refl (record {
            holds = s.holds;
            plan = s.plan ∙ wrote.plan;
            swept =
                Swept-more R b r bs rs w.steps w''.steps h.good.distinct d.0 i
                  (is_op.same_node b r q) q
                  (subst (λ t. Swept R bs rs t w''.steps) wrote.steps s.swept);
          })
