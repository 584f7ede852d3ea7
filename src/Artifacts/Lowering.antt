-- ===== src/Artifacts/Lowering.antt =====
-- artifacts.py, `_GenerateVerifyPlanner`: each call of the planner lowers the turns that are left.
use jev_frame.Prelude.{
  Option, leb, not, all, string_eq, ◌++◌, ℕ, ◌+◌, ◌-◌, ◌*◌, ◌≤◌, ◌<◌, arith, String, List, [], ◌∷◌,
  length, map, ◌≡◌, some, none, All, inl, inr, Bool-cases,
}
use jev_frame.Errors.{Result, ok, raise}
use jev_frame.Prelude.Set.{has}
use jev_frame.Planning.Turns.{StepOutcome, OutcomeValue}
use jev_frame.State.Value.{Value}
use jev_frame.Artifacts.{
  CheckKind, deterministic, semantic, CheckSpec, ArtifactCheck, SemanticCheck, deterministic_spec,
  semantic_spec, semantic_specs,
}
use jev_frame.Artifacts.Planner.{
  Planner, Settings, Stage, initial, generation, complete, stopped, checking, Finding, Revision,
}
use jev_frame.Artifacts.Findings.{is_failure}
use jev_frame.Artifacts.Calls.{
  after_try, after_outcome, stable_value, is_caught, generated, after_generation, specs_of, drop,
  findings_of, after_findings, after_current, after_passing, after_checks, answer, call,
}
use jev_frame.Artifacts.Steps.{
  ahead, turns_left, Leaves, stop-Leaves, complete_artifact-Leaves, generate-Leaves, go_on-Leaves,
  semantic_turns, register-Leaves, IsWithin, bound, turns,
}

module _ (t : Settings) where
  after_try-Leaves :
      (k now : ℕ) (ref : String) (tried : Result (Value × String)) (p : Planner)
      → length p.revisions < bound t
      → 3 * (bound t - length p.revisions) ≤ k
      → let (r, p') = after_try t now ref tried p in Leaves t k r p'
  unfolding after_try
  after_try-Leaves k now ref (raise e) p h l = elim (Bool-cases (is_caught e)) [
    | inl caught ↦ rw caught (stop-Leaves t k _ _ p (omega (arith, h)))
    | inr other ↦ rw other (omega (arith, h))
  ]
  after_try-Leaves k now ref (ok (value, digest)) p h l = elim (Bool-cases (has digest p.digests)) [
    | inl old ↦ rw old (stop-Leaves t k _ _ p (omega (arith, h)))
    | inr new ↦ rw new (register-Leaves t k now ref value digest p h l)
  ]

  after_outcome-Leaves :
      (k now : ℕ) (outcome : Option (OutcomeValue × String)) (p : Planner)
      → length p.revisions < bound t
      → 3 * (bound t - length p.revisions) ≤ k
      → let (r, p') = after_outcome t now outcome p in Leaves t k r p'
  unfolding after_outcome
  after_outcome-Leaves k now none p h l = stop-Leaves t k _ _ p (omega (arith, h))
  after_outcome-Leaves k now (some (value, ref)) p h l =
      after_try-Leaves k now ref (stable_value t value) p h l

  after_passing-Leaves :
      (k : ℕ) (cs : List CheckSpec) (p : Planner)
      → length p.revisions ≤ bound t
      → All (λ c. c.kind ≡ deterministic → 3 * (bound t - length p.revisions) + 1 < k) cs
      → let (r, p') = after_passing t cs p in Leaves t k r p'
  unfolding after_passing
  after_passing-Leaves k [] p h l = complete_artifact-Leaves t k p h
  after_passing-Leaves k (c ∷ cs) p h l =
      go_on-Leaves t k c.kind (semantic_specs t.recipe) p h
        (λ e. semantic_turns t k (bound t - length p.revisions) t.recipe.semantic_checks (l.0 e))

  semantic_kinds :
      (cs : List SemanticCheck) (n k : ℕ)
      → All (λ c. c.kind ≡ deterministic → n < k) (map semantic_spec cs)
  unfolding semantic_spec
  semantic_kinds [] n k = tt
  semantic_kinds (c ∷ cs) n k = (λ e. absurd cc, semantic_kinds cs n k)

  specs_of_kinds :
      (kind : CheckKind) (n k : ℕ)
      → (kind ≡ deterministic → n < k)
      → All (λ c. c.kind ≡ deterministic → n < k) (specs_of t kind)
  specs_of_kinds deterministic n k l = plain t.recipe.deterministic_checks
    where
      plain :
          (cs : List ArtifactCheck)
          → All (λ c. c.kind ≡ deterministic → n < k) (map deterministic_spec cs)
      plain [] = tt
      plain (c ∷ cs) = (l, plain cs)
  specs_of_kinds semantic n k l = semantic_kinds t.recipe.semantic_checks n k

  after_findings-Leaves :
      (k : ℕ) (kind : CheckKind) (objective : String) (c : Revision) (found : List Finding)
      (p : Planner)
      → length p.revisions ≤ bound t
      → turns_left (checking kind) (bound t - length p.revisions) ≤ k
      → let (r, p') = after_findings t kind objective c found p in Leaves t k r p'
  unfolding after_findings
  after_findings-Leaves k kind objective c found p h l =
      let next = record p { findings = p.findings ++ found } in
      elim (Bool-cases (all (λ f. not (is_failure f)) found)) [
        | inl good ↦ rw good (
            after_passing-Leaves k (specs_of t kind) next h
              (specs_of_kinds kind (3 * (bound t - length p.revisions) + 1) k (more kind l)))
        | inr bad ↦ elim (Bool-cases (leb (bound t) (length p.revisions))) [
          | inl full ↦ rw (bad, full) (stop-Leaves t k _ _ next h)
          | inr free ↦ rw (bad, free) (generate-Leaves t k _ next (ground arith) (fewer kind l))
        ]
      ]
    where
      more :
          (kind : CheckKind)
          → turns_left (checking kind) (bound t - length p.revisions) ≤ k
          → kind ≡ deterministic
          → 3 * (bound t - length p.revisions) + 1 < k
      more deterministic l e = omega (arith, l)
      more semantic l e = absurd cc

      fewer :
          (kind : CheckKind)
          → turns_left (checking kind) (bound t - length p.revisions) ≤ k
          → 3 * (bound t - length p.revisions) < k
      fewer deterministic l = omega (arith, l)
      fewer semantic l = omega (arith, l)

  after_current-Leaves :
      (k : ℕ) (kind : CheckKind) (outcomes : List StepOutcome) (objective : String)
      (current : Option Revision) (p : Planner)
      → length p.revisions ≤ bound t
      → turns_left (checking kind) (bound t - length p.revisions) ≤ k
      → let (r, p') = after_current t kind outcomes objective current p in Leaves t k r p'
  unfolding after_current
  after_current-Leaves k kind outcomes objective none p h l = h
  after_current-Leaves k kind outcomes objective (some c) p h l =
      after_findings-Leaves k kind objective c (findings_of t kind outcomes c) p h l

  answer-Leaves :
      (stage : Stage) (now : ℕ) (objective : String) (outcomes : List StepOutcome) (p : Planner)
      → length p.revisions + ahead stage ≤ bound t
      → let (r, p') = answer t stage now objective outcomes p in
        Leaves t (turns_left stage (bound t - length p.revisions)) r p'
  unfolding answer after_generation after_checks
  answer-Leaves initial now objective outcomes p h =
      generate-Leaves t _ objective p (omega (arith, h)) (omega arith)
  answer-Leaves generation now objective outcomes p h =
      after_outcome-Leaves _ now (generated t outcomes) p (omega (arith, h)) (omega arith)
  answer-Leaves (checking kind) now objective outcomes p h =
      after_current-Leaves _ kind outcomes objective p.current p (omega (arith, h)) (omega arith)
  answer-Leaves complete now objective outcomes p h = omega (arith, h)
  answer-Leaves stopped now objective outcomes p h = omega (arith, h)

  pub call-Leaves :
      (now : ℕ) (objective : String) (outcomes : List StepOutcome) (p : Planner)
      → IsWithin t p
      → let (r, p') = call t now objective outcomes p in Leaves t (turns t p) r p'
  unfolding call
  call-Leaves now objective outcomes p h =
      answer-Leaves p.stage now objective (drop t p.processed outcomes)
        (record p { processed = length outcomes }) h
