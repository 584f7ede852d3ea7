-- ===== src/Artifacts/Verified.antt =====
-- artifacts.py, `_GenerateVerifyPlanner`: what a call of the planner shows of the
-- findings so far.
use jev_frame.Prelude.{
  ℕ, String, true, not, List, [], ◌∷◌, ◌++◌, all, leb, length, All, Option, none, some, ◌≡◌, refl,
  subst, sym, ◌∙◌, string_eq, inl, inr, Bool-cases,
}
use jev_frame.Prelude.Set.{has}
use jev_frame.Errors.{Result, ok, raise}
use jev_frame.State.Value.{Value}
use jev_frame.Planning.Turns.{StepOutcome, OutcomeValue}
use jev_frame.Artifacts.{
  CheckKind, deterministic, semantic, CheckSpec, deterministic_specs, semantic_specs,
}
use jev_frame.Artifacts.Planner.{
  Planner, Settings, Stage, initial, generation, complete, stopped, checking, Revision, Finding,
  verify_by, go_on,
}
use jev_frame.Artifacts.Findings.{is_failure}
use jev_frame.Artifacts.Calls.{
  generate, verify, retain, keep_digest, keep_revision, artifact_record, revision_of, registered,
  register, is_caught, stable_value, generated, after_try, after_outcome, after_generation,
  after_passing, specs_of, drop, findings_of, after_findings, after_current, after_checks, answer,
  call,
}
use jev_frame.Artifacts.Passing.{
  Shows, IsVerified, stop-Shows, complete_artifact-Shows, start_checks-Shows, semantic-Shows,
  are_semantic, are_deterministic, cleared, cleared-append, cleared-found,
}

module _ (t : Settings) where
  verify_by-Shows :
      (first : List CheckSpec) (p : Planner)
      → first ≡ deterministic_specs t.recipe
      → All (λ c. c.kind ≡ deterministic) first
      → let (r, p') = verify_by first (semantic_specs t.recipe) p in Shows t r p'
  unfolding verify_by
  verify_by-Shows [] p e kinds =
      semantic-Shows t p (λ c o. subst (λ cs. cleared t c p.findings cs ≡ true) e refl)
  verify_by-Shows (c ∷ cs) p e kinds = start_checks-Shows t c cs p (
      subst (λ kind. IsVerified t (checking kind) p.current p.findings) (sym kinds.0)
        (λ n. absurd cc))

  registered-Shows :
      (r : Revision) (kept : Result (Unit {0})) (p : Planner)
      → let (r', p') = registered t r kept p in Shows t r' p'
  unfolding registered verify
  registered-Shows r (raise e) p = tt
  registered-Shows r (ok u) p =
      verify_by-Shows (deterministic_specs t.recipe) (keep_revision t r p) refl
        (are_deterministic t t.recipe.deterministic_checks)

  register-Shows :
      (now : ℕ) (ref : String) (value : Value) (digest : String) (p : Planner)
      → let (r, p') = register t now ref value digest p in Shows t r p'
  unfolding register
  register-Shows now ref value digest p =
      let kept = retain t (artifact_record t now ref value digest) (keep_digest t digest p) in
      registered-Shows (revision_of t ref value digest) kept.0 kept.1

  after_try-Shows :
      (now : ℕ) (ref : String) (tried : Result (Value × String)) (p : Planner)
      → let (r, p') = after_try t now ref tried p in Shows t r p'
  unfolding after_try
  after_try-Shows now ref (raise e) p = elim (Bool-cases (is_caught e)) [
    | inl caught ↦ rw caught (stop-Shows t _ _ p)
    | inr other ↦ rw other tt
  ]
  after_try-Shows now ref (ok (value, digest)) p = elim (Bool-cases (has digest p.digests)) [
    | inl old ↦ rw old (stop-Shows t _ _ p)
    | inr new ↦ rw new (register-Shows now ref value digest p)
  ]

  after_outcome-Shows :
      (now : ℕ) (outcome : Option (OutcomeValue × String)) (p : Planner)
      → let (r, p') = after_outcome t now outcome p in Shows t r p'
  unfolding after_outcome
  after_outcome-Shows now none p = stop-Shows t _ _ p
  after_outcome-Shows now (some (value, ref)) p = after_try-Shows now ref (stable_value t value) p

  -- The stage that the checks of a kind make possible.
  abbrev next_stage : CheckKind → Stage
  next_stage deterministic = checking semantic
  next_stage semantic = complete

  go_on-Shows :
      (kind : CheckKind) (p : Planner)
      → IsVerified t (next_stage kind) p.current p.findings
      → let (r, p') = go_on kind (semantic_specs t.recipe) p in Shows t r p'
  unfolding go_on
  go_on-Shows deterministic p h = semantic-Shows t p h
  go_on-Shows semantic p h = complete_artifact-Shows t p h

  after_passing-Shows :
      (kind : CheckKind) (cs : List CheckSpec) (p : Planner)
      → All (λ c. c.kind ≡ kind) cs
      → (cs ≡ [] → IsVerified t complete p.current p.findings)
      → IsVerified t (next_stage kind) p.current p.findings
      → let (r, p') = after_passing t cs p in Shows t r p'
  unfolding after_passing
  after_passing-Shows kind [] p kinds e h = complete_artifact-Shows t p (e refl)
  after_passing-Shows kind (c ∷ cs) p kinds e h =
      go_on-Shows c.kind p
        (subst (λ k. IsVerified t (next_stage k) p.current p.findings) (sym kinds.0) h)

  same_revision :
      (P : Revision → Type 0) (p : Planner) (c : Revision)
      → p.current ≡ some c
      → P c
      → (c' : Revision) → p.current ≡ some c'
      → P c'
  same_revision P p c e h c' e' =
      let both : some c ≡ some c' = sym e ∙ e' in let same : c ≡ c' = cc both in subst P same h

  abbrev with_found : Planner → List Finding → Planner
  with_found p found = record p { findings = p.findings ++ found }

  passing-Shows :
      (kind : CheckKind) (outcomes : List StepOutcome) (c : Revision) (p : Planner)
      → p.current ≡ some c
      → IsVerified t (checking kind) p.current p.findings
      → all (λ f. not (is_failure f)) (findings_of t kind outcomes c) ≡ true
      → let (r, p') =
          after_passing t (specs_of t kind) (with_found p (findings_of t kind outcomes c)) in
        Shows t r p'
  unfolding findings_of
  passing-Shows deterministic outcomes c p e h good =
      after_passing-Shows deterministic (specs_of t deterministic)
        (with_found p (findings_of t deterministic outcomes c))
        (are_deterministic t t.recipe.deterministic_checks) (λ none_. absurd (h none_))
        (same_revision
          (λ c'.
            cleared t c' (p.findings ++ findings_of t deterministic outcomes c)
              (deterministic_specs t.recipe)
            ≡ true)
          p c e (cleared-found t c _ p.findings (deterministic_specs t.recipe) good))
  passing-Shows semantic outcomes c p e h good =
      let found = findings_of t semantic outcomes c in
      let both =
        same_revision
          (λ c'.
            (cleared t c' (p.findings ++ found) (deterministic_specs t.recipe) ≡ true)
            × (cleared t c' (p.findings ++ found) (semantic_specs t.recipe) ≡ true))
          p c e
          (
            cleared-append t c p.findings found (deterministic_specs t.recipe) (h c e),
            cleared-found t c _ p.findings (semantic_specs t.recipe) good,
          ) in
      after_passing-Shows semantic (specs_of t semantic) (with_found p found)
        (are_semantic t t.recipe.semantic_checks) (λ none_. both) both

  after_findings-Shows :
      (kind : CheckKind) (objective : String) (outcomes : List StepOutcome) (c : Revision)
      (p : Planner)
      → p.current ≡ some c
      → IsVerified t (checking kind) p.current p.findings
      → let (r, p') = after_findings t kind objective c (findings_of t kind outcomes c) p in
        Shows t r p'
  unfolding after_findings generate
  after_findings-Shows kind objective outcomes c p e h =
      let found = findings_of t kind outcomes c in
      elim (Bool-cases (all (λ f. not (is_failure f)) found)) [
        | inl good ↦ rw good (passing-Shows kind outcomes c p e h good)
        | inr bad ↦ elim (Bool-cases (leb t.recipe.max_revisions (length p.revisions))) [
          | inl full ↦ rw (bad, full) (stop-Shows t _ _ (with_found p found))
          | inr free ↦ rw (bad, free) (tt, tt)
        ]
      ]

  after_current-Shows :
      (kind : CheckKind) (objective : String) (outcomes : List StepOutcome)
      (current : Option Revision) (p : Planner)
      → p.current ≡ current
      → IsVerified t (checking kind) p.current p.findings
      → let (r, p') = after_current t kind outcomes objective current p in Shows t r p'
  unfolding after_current
  after_current-Shows kind objective outcomes none p e h = tt
  after_current-Shows kind objective outcomes (some c) p e h =
      after_findings-Shows kind objective outcomes c p e h

  answer-Shows :
      (stage : Stage) (now : ℕ) (objective : String) (outcomes : List StepOutcome) (p : Planner)
      → IsVerified t stage p.current p.findings
      → let (r, p') = answer t stage now objective outcomes p in Shows t r p'
  unfolding answer after_generation after_checks generate
  answer-Shows initial now objective outcomes p h = (tt, tt)
  answer-Shows generation now objective outcomes p h =
      after_outcome-Shows now (generated t outcomes) p
  answer-Shows (checking kind) now objective outcomes p h =
      after_current-Shows kind objective outcomes p.current p refl h
  answer-Shows complete now objective outcomes p h = tt
  answer-Shows stopped now objective outcomes p h = tt

  pub call-Shows :
      (now : ℕ) (objective : String) (outcomes : List StepOutcome) (p : Planner)
      → IsVerified t p.stage p.current p.findings
      → let (r, p') = call t now objective outcomes p in Shows t r p'
  unfolding call
  call-Shows now objective outcomes p h =
      answer-Shows p.stage now objective (drop t p.processed outcomes)
        (record p { processed = length outcomes }) h
