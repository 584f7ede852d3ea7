-- ===== src/Artifacts/Proposed.antt =====
-- artifacts.py, `_GenerateVerifyPlanner`: the findings behind an artifact that a planner proposes.
use jev_frame.Prelude.{
  ℕ, arith, String, true, List, [], ◌∷◌, all-append, All, some, ◌≡◌, ap, subst, ◌==◌, ==_iff,
  string_eq, inl, inr, Bool-cases,
}
use jev_frame.Prelude.Set.{has, subset, All-has}
use jev_frame.Errors.{Result, ok, raise}
use jev_frame.State.Value.{Value}
use jev_frame.State.Store.{Store}
use jev_frame.Planning.Turns.{StepOutcome, PlannerResponse, proposed_result}
use jev_frame.Artifacts.{
  CheckSpec, Recipe, check_recipe, deterministic_specs, semantic_specs, all_specs, spec_ids,
}
use jev_frame.Artifacts.Planner.{Planner, Settings, Revision, Finding, new_planner}
use jev_frame.Artifacts.Calls.{call}
use jev_frame.Artifacts.Steps.{is_final}
use jev_frame.Artifacts.Passing.{passed_on, is_cleared, cleared, IsVerified, Shows}
use jev_frame.Artifacts.Verified.{call-Shows}
use jev_frame.Artifacts.Sessions.{Session, answered, after_answer, session}

-- The current revision has the value `v`, and the checks with the ids `required` passed on it.
pub record HasPassed (required : List String) (v : Value) (p : Planner) : Type 0 where
  pub revision : Revision
  pub is_current : p.current ≡ some revision
  pub has_value : revision.value ≡ v
  pub checks : All (λ i. passed_on i revision.id p.findings ≡ true) required

module _ (t : Settings) (objective : String) where
  abbrev required : List String
  required = t.recipe.completion.required_checks

  cleared_check :
      (c : Revision) (fs : List Finding) (cs : List CheckSpec) (i : String)
      → cleared t c fs cs ≡ true
      → has i (spec_ids cs) ≡ true
      → has i required ≡ true
      → passed_on i c.id fs ≡ true
  cleared_check c fs [] i h m n = absurd (ground arith)
  cleared_check c fs (s ∷ cs) i h m n = elim (Bool-cases (i == s.id)) [
    | inr apart ↦ cleared_check c fs cs i (ground arith) (ground arith) n
    | inl same ↦
        let e : i ≡ s.id = (==_iff i s.id).0 same in
        ground (arith, ap (λ j. has j required) e, ap (λ j. passed_on j c.id fs) e)
  ]

  known_check :
      (is known : List String) (i : String)
      → subset is known ≡ true
      → has i is ≡ true
      → has i known ≡ true
  known_check [] known i h m = absurd (ground arith)
  known_check (j ∷ is) known i h m = elim (Bool-cases (i == j)) [
    | inr apart ↦ known_check is known i (ground arith) (ground arith)
    | inl same ↦ ground (arith, ap (λ k. has k known) ((==_iff i j).0 same))
  ]

  proposal-HasPassed :
      (v : Value) (p : Planner)
      → subset required (spec_ids (all_specs t.recipe)) ≡ true
      → Shows t (ok (proposed_result v)) p
      → HasPassed required v p
  proposal-HasPassed v p known (verified, (stage, (c, e, same))) =
      let (first, second) = subst (λ s. IsVerified t s p.current p.findings) stage verified c e in
      let both =
        all-append (is_cleared t c p.findings) (deterministic_specs t.recipe)
          (semantic_specs t.recipe) in
      record {
        revision = c;
        is_current = e;
        has_value = same;
        checks = All-has _ required (λ i m.
            cleared_check c p.findings (all_specs t.recipe) i (ground (arith, both, first, second))
              (known_check required (spec_ids (all_specs t.recipe)) i known m) m);
      }

  answer-proposes :
      (next : Planner → Session) (r : Result PlannerResponse) (p p' : Planner) (v : Value)
      → subset required (spec_ids (all_specs t.recipe)) ≡ true
      → Shows t r p
      → after_answer next r p ≡ answered (proposed_result v) p'
      → (IsVerified t p.stage p.current p.findings
          → next p ≡ answered (proposed_result v) p'
          → HasPassed required v p')
      → HasPassed required v p'
  unfolding after_answer
  answer-proposes next (raise x) p p' v known s e n = absurd cc
  answer-proposes next (ok r) p p' v known s e n = elim (Bool-cases (is_final r)) [
    | inl last ↦
        let both : answered r p ≡ answered (proposed_result v) p' = ground arith in
        let result : r ≡ proposed_result v = cc both in
        let state : p ≡ p' = cc both in
        proposal-HasPassed v p' known
          (subst (λ x. Shows t (ok x) p') result (subst (λ x. Shows t (ok r) x) state s))
    | inr more ↦ n s.0 (ground arith)
  ]

  session-proposes :
      (requests : List (ℕ × List StepOutcome)) (p p' : Planner) (v : Value)
      → subset required (spec_ids (all_specs t.recipe)) ≡ true
      → IsVerified t p.stage p.current p.findings
      → session t objective requests p ≡ answered (proposed_result v) p'
      → HasPassed required v p'
  unfolding session
  session-proposes [] p p' v known h e = absurd cc
  session-proposes ((now, outcomes) ∷ rest) p p' v known h e =
      let (r, q) = call t now objective outcomes p in
      answer-proposes (session t objective rest) r q p' v known
        (call-Shows t now objective outcomes p h) e
        (λ w same. session-proposes rest q p' v known w same)

required_known :
    (r : Recipe)
    → check_recipe r ≡ ok r
    → subset r.completion.required_checks (spec_ids (all_specs r)) ≡ true
unfolding check_recipe
required_known r h = ground arith

-- When a planner whose recipe is valid proposes a value, then it is that of its current revision, and
-- for each check that the recipe requires there is a finding that it passed on this revision.
pub session-HasPassed :
    (t : Settings) (objective : String) (store : Store) (requests : List (ℕ × List StepOutcome))
    (v : Value) (p : Planner)
    → check_recipe t.recipe ≡ ok t.recipe
    → session t objective requests (new_planner store) ≡ answered (proposed_result v) p
    → HasPassed t.recipe.completion.required_checks v p
session-HasPassed t objective store requests v p valid e =
    session-proposes t objective requests (new_planner store) p v (required_known t.recipe valid) tt
      e
