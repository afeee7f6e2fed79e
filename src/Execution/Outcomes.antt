-- ===== src/Execution/Outcomes.antt =====
-- The outcome that the engine hands over is always one that `ExecutionOutcome` accepts.
use Prim.Native.String.{◌++◌ as append}
use pangi.Prelude.{
  ℕ, String, true, false, List, [], ◌∷◌, ◌++◌, any, map, keep, is_empty, Option-cases, ◌≡◌, refl,
  ap, ◌∙◌, inl, inr, arith,
}
use pangi.Prelude.Results.{ok}
use pangi.Prelude.Distinct.{In}
use pangi.Text.{codes, is_space, left_strip, strip, is_blank}
use pangi.Runs.Contracts.{identifier_ok}
use pangi.Runs.Outcome.{is_failed_step}
use pangi.Orchestration.Contracts.{AgentResult}
use pangi.Execution.Contracts.{outcome_init}
use pangi.Execution.Engine.{delegate_outcome, flatten_warnings, present_results, result_warnings}
use pangi.Execution.Table.{Row, node, IsRow}
use text.Mathlib.TextLemmas.{cons-append}
use mathlib.Core.List.{reverse, reverse-cons}

-- A text that begins with no white space is not blank.
left_strip-first : (c : ℕ) (cs : List ℕ) → is_space c ≡ false → left_strip (c ∷ cs) ≡ c ∷ cs
unfolding left_strip
left_strip-first c cs h = ground arith

left_strip-last :
    (c : ℕ) (xs : List ℕ) → is_space c ≡ false → is_empty (left_strip (xs ++ c ∷ [])) ≡ false
unfolding left_strip
left_strip-last c [] h = ground arith
left_strip-last c (x ∷ xs) h = ground (arith, left_strip-last c xs)

is_empty-snoc : (xs : List ℕ) (c : ℕ) → is_empty (xs ++ c ∷ []) ≡ false
is_empty-snoc [] c = refl
is_empty-snoc (x ∷ xs) c = refl

is_empty-reverse : (xs : List ℕ) → is_empty (reverse xs) ≡ is_empty xs
is_empty-reverse [] = refl
is_empty-reverse (x ∷ xs) = ap is_empty (reverse-cons x xs) ∙ is_empty-snoc (reverse xs) x

strip-first : (c : ℕ) (cs : List ℕ) → is_space c ≡ false → is_empty (strip (c ∷ cs)) ≡ false
unfolding strip
strip-first c cs h =
    is_empty-reverse (left_strip (reverse (left_strip (c ∷ cs))))
    ∙ ap (λ z. is_empty (left_strip (reverse z))) (left_strip-first c cs h)
    ∙ ap (λ z. is_empty (left_strip z)) (reverse-cons c cs)
    ∙ left_strip-last c (reverse cs) h

optional_warning : (s : String) → is_blank (append "optional step failed: " s) ≡ false
unfolding is_blank is_space
optional_warning s =
    ap is_blank (cons-append "o" "ptional step failed: " s)
    ∙ strip-first b'o' (codes (append "ptional step failed: " s)) refl

partial_warning : (s : String) → is_blank (append "partial result: " s) ≡ false
unfolding is_blank is_space
partial_warning s =
    ap is_blank (cons-append "p" "artial result: " s)
    ∙ strip-first b'p' (codes (append "artial result: " s)) refl

any-append :
    (xs ys : List String)
    → any is_blank xs ≡ false
    → any is_blank ys ≡ false
    → any is_blank (xs ++ ys) ≡ false
any-append [] ys h k = k
any-append (x ∷ xs) ys h k = ground (arith, any-append xs ys)

optional_warnings :
    (steps : List Row)
    → any is_blank (map (λ (s : Row). append "optional step failed: " (node s)) steps) ≡ false
optional_warnings [] = refl
optional_warnings (s ∷ rest) = ground (arith, optional_warning (node s), optional_warnings rest)

warnings_of_result :
    (r : AgentResult) → any is_blank r.warnings ≡ false → any is_blank (result_warnings r) ≡ false
warnings_of_result r h = ground (arith, partial_warning r.task_id)

result_warnings_ok :
    (steps : List Row)
    → ((s : Row) → In s steps → IsRow s)
    → any is_blank (flatten_warnings (present_results steps)) ≡ false
unfolding flatten_warnings present_results
result_warnings_ok [] f = refl
result_warnings_ok (s ∷ rest) f = elim (Option-cases s.result) [
  | inl missing ↦ ground (arith, result_warnings_ok rest (λ x i. f x (inr i)))
  | inr (r, e) ↦
      let head = warnings_of_result r ((f s (inl refl)).warnings r e) in
      let tail = result_warnings_ok rest (λ x i. f x (inr i)) in
      ground
        (arith, any-append (result_warnings r) (flatten_warnings (present_results rest)) head tail)
]

-- Whatever the rows, the outcome that the engine builds of them is accepted.
pub delegate_outcome-ok :
    (run_id : String) (steps : List Row)
    → identifier_ok run_id ≡ true
    → ((s : Row) → In s steps → IsRow s)
    → outcome_init (delegate_outcome run_id steps) ≡ ok (delegate_outcome run_id steps)
unfolding outcome_init delegate_outcome
delegate_outcome-ok run_id steps h f =
    let failures = keep (λ (s : Row). is_failed_step s.step.state) steps in
    let results = flatten_warnings (present_results steps) in
    let warnings =
      any-append (map (λ (s : Row). append "optional step failed: " (node s)) failures) results
        (optional_warnings failures) (result_warnings_ok steps f) in
    ground arith
