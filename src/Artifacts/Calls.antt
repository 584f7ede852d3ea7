-- ===== src/Artifacts/Calls.antt =====
-- artifacts.py, `_GenerateVerifyPlanner`: what the planner does in each stage, and its `__call__`.
use jev_frame.Prelude.{
  ℕ, zero, suc, String, Bool, true, false, not, ◌&&◌, List, [], ◌∷◌, ◌++◌, Option, none, some, leb,
  length, all, map, ◌==◌, string_eq, if◌then◌else◌,
}
use jev_frame.Prelude.Set.{has, add, from_keys}
use jev_frame.Prelude.Text.{join}
use jev_frame.Errors.{
  Error, Result, ok, raise, missing_capability, unaccepted_judgment, no_progress, budget_exhaustion,
  assertion_error, artifact_recipe_error, state_error,
}
use jev_frame.Exec.{Exec}
use jev_frame.State.Value.{Value}
use jev_frame.State.Evidence.{Evidence, evidence, observation}
use jev_frame.State.Store.{add_record}
use jev_frame.Planning.{generated_text}
use jev_frame.Planning.Turns.{OutcomeValue, StepOutcome, PlannerResponse, plan_step}
use jev_frame.Artifacts.{
  CheckKind, deterministic, semantic, CheckSpec, deterministic_specs, semantic_specs,
}
use jev_frame.Artifacts.Planner.{
  Finding, Planner, Revision, Settings, Stage, checking, complete, complete_artifact, generation,
  go_on, initial, stop, stopped, verify_by,
}
use jev_frame.Artifacts.Findings.{by_capability, feedback, finding_of, is_failure, is_finished}

-- The errors that `_after_generation` catches: `DefinitionError`, `InputValidationError`,
-- `StateError`, `TypeError` and `ValueError`, with the classes below them.
abbrev pub is_caught : Error → Bool
is_caught Error.value_error = true
is_caught Error.definition_error = true
is_caught Error.input_validation_error = true
is_caught Error.binding_error = true
is_caught Error.runtime_configuration_error = true
is_caught Error.state_error = true
is_caught Error.evidence_not_found_error = true
is_caught Error.evidence_scope_error = true
is_caught Error.stale_evidence_error = true
is_caught Error.view_capacity_error = true
is_caught Error.source_binding_error = true
is_caught Error.candidate_selection_error = true
is_caught Error.planning_error = true
is_caught Error.artifact_recipe_error = true
is_caught (Error.compiler_error _) = true
is_caught _ = false

module _ (t : Settings) where
  -- `_generate`
  unfoldable pub generate : String → Exec Planner PlannerResponse
  generate prompt p = (
    ok (
        plan_step (record {
          id = "generate-artifact";
          capability_id = t.recipe.generator.id;
          arguments =
              (
                t.recipe.prompt_parameter,
                generated_text prompt t.recipe.generator.id t.recipe.generator.version,
              )
              ∷ [];
          depends_on = [];
        })),
    record p { stage = generation },
  )

  -- The outcome that `_after_generation` goes on with: the first, with its evidence.
  unfoldable pub generated : List StepOutcome → Option (OutcomeValue × String)
  generated [] = none
  generated (o ∷ os) = elim o.evidence_ref [
    | none ↦ none
    | some e ↦
        if o.capability_id == t.recipe.generator.id && is_finished o.status
        then some (o.value, e)
        else none
  ]

  -- the body of its `try`: the value with its digest
  unfoldable pub stable_value : OutcomeValue → Result (Value × String)
  stable_value value = elim (t.validate value) [
    | raise e ↦ raise e
    | ok v ↦ elim (t.canonical_digest v) [ none ↦ raise state_error | some d ↦ ok (v, d) ]
  ]

  -- What comes after an artifact that is registered.
  unfoldable pub verify : Exec Planner PlannerResponse
  verify = verify_by (deterministic_specs t.recipe) (semantic_specs t.recipe)

  unfoldable pub revision_id : String → String
  revision_id digest = join ":" (t.root_id ∷ "artifact" ∷ digest ∷ [])

  unfoldable pub artifact_record : ℕ → String → Value → String → Evidence
  artifact_record now evidence_ref value digest = record {
    id = revision_id digest;
    value = value;
    source_id = join ":" ("generator" ∷ t.recipe.generator.id ∷ []);
    scope = t.scope;
    observed_at = now;
    source_version = some t.recipe.generator.version;
    expires_at = none;
    dependencies = evidence_ref ∷ [];
    supersedes = [];
    conflicts_with = [];
    body = observation;
  }

  unfoldable pub revision_of : String → Value → String → Revision
  revision_of evidence_ref value digest = record {
    id = revision_id digest;
    digest = digest;
    value = value;
    generator_id = t.recipe.generator.id;
    generator_version = t.recipe.generator.version;
    evidence_ref = revision_id digest;
    source_refs = from_keys [] (evidence_ref ∷ t.recipe.generator.requires_evidence);
  }

  -- `self.store.add(Observation(…))`
  unfoldable pub retain : Evidence → Exec Planner (Unit {0})
  retain r p = elim (evidence r) [
    | raise e ↦ (raise e, p)
    | ok r' ↦
        let (result, store) = add_record r' p.store in
        elim result [
          | raise e ↦ (raise e, record p { store = store })
          | ok _ ↦ (ok tt, record p { store = store })
        ]
  ]

  abbrev pub keep_digest : String → Planner → Planner
  keep_digest digest p = record p { digests = add digest p.digests }

  abbrev pub keep_revision : Revision → Planner → Planner
  keep_revision r p = record p { current = some r; revisions = p.revisions ++ r ∷ [] }

  unfoldable pub registered : Revision → Result (Unit {0}) → Exec Planner PlannerResponse
  registered r (ok _) p = verify (keep_revision r p)
  registered r (raise e) p = (raise e, p)

  unfoldable pub register : ℕ → String → Value → String → Exec Planner PlannerResponse
  register now evidence_ref value digest p =
      let (kept, q) =
        retain (artifact_record now evidence_ref value digest) (keep_digest digest p) in
      registered (revision_of evidence_ref value digest) kept q

  -- `_after_generation`, from the end of its `try` on
  unfoldable pub after_try : ℕ → String → Result (Value × String) → Exec Planner PlannerResponse
  after_try now evidence_ref (raise e) p =
      if is_caught e
      then stop unaccepted_judgment "the generated artifact was not a stable supported value" p
      else (raise e, p)
  after_try now evidence_ref (ok (value, digest)) p =
      if has digest p.digests
      then stop no_progress "the generator repeated an unchanged artifact" p
      else register now evidence_ref value digest p

  unfoldable pub after_outcome : ℕ → Option (OutcomeValue × String) → Exec Planner PlannerResponse
  after_outcome now none =
      stop missing_capability "the registered artifact generator did not complete"
  after_outcome now (some (value, evidence_ref)) = after_try now evidence_ref (stable_value value)

  -- `_after_generation`
  unfoldable pub after_generation : ℕ → List StepOutcome → Exec Planner PlannerResponse
  after_generation now outcomes = after_outcome now (generated outcomes)

  -- Where `_after_checks` goes when no required check failed.
  unfoldable pub after_passing : List CheckSpec → Exec Planner PlannerResponse
  after_passing [] = complete_artifact
  after_passing (c ∷ _) = go_on c.kind (semantic_specs t.recipe)

  abbrev pub specs_of : CheckKind → List CheckSpec
  specs_of deterministic = deterministic_specs t.recipe
  specs_of semantic = semantic_specs t.recipe

  -- `_after_checks`, once its loop is over, with the findings of the checks of a kind
  unfoldable pub after_findings :
      CheckKind → String → Revision → List Finding → Exec Planner PlannerResponse
  after_findings kind objective current found p =
      let next = record p { findings = p.findings ++ found } in
      if all (λ f. not (is_failure f)) found
      then after_passing (specs_of kind) next
      else if leb t.recipe.max_revisions (length p.revisions)
      then stop budget_exhaustion "the artifact revision limit was exhausted" next
      else generate (t.canonical_json (feedback objective current found)) next

  unfoldable pub findings_of : CheckKind → List StepOutcome → Revision → List Finding
  findings_of kind outcomes current =
      map (finding_of t.recipe current (by_capability outcomes [])) (specs_of kind)

  unfoldable pub after_current :
      CheckKind → List StepOutcome → String → Option Revision → Exec Planner PlannerResponse
  after_current kind outcomes objective none p = (raise assertion_error, p)
  after_current kind outcomes objective (some c) p =
      after_findings kind objective c (findings_of kind outcomes c) p

  -- `_after_checks`
  unfoldable pub after_checks : CheckKind → List StepOutcome → String → Exec Planner PlannerResponse
  after_checks kind outcomes objective p = after_current kind outcomes objective p.current p

  abbrev pub drop : ℕ → List StepOutcome → List StepOutcome
  drop zero os = os
  drop (suc n) [] = []
  drop (suc n) (o ∷ os) = drop n os

  -- What a stage does with the outcomes that are new.
  unfoldable pub answer : Stage → ℕ → String → List StepOutcome → Exec Planner PlannerResponse
  answer initial now objective outcomes p = generate objective p
  answer generation now objective outcomes p = after_generation now outcomes p
  answer (checking kind) now objective outcomes p = after_checks kind outcomes objective p
  answer complete now objective outcomes p = (raise artifact_recipe_error, p)
  answer stopped now objective outcomes p = (raise artifact_recipe_error, p)

  -- `__call__`, for a request with an objective and all outcomes so far
  unfoldable pub call : ℕ → String → List StepOutcome → Exec Planner PlannerResponse
  call now objective outcomes p =
      answer p.stage now objective (drop p.processed outcomes)
        (record p { processed = length outcomes })
