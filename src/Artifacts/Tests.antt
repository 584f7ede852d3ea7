-- ===== src/Artifacts/Tests.antt =====
-- artifacts.py: a recipe with a check of each kind, whose generator's first artifact fails a check.
use jev_frame.Prelude.{
  ℕ, ◌+◌, arith, String, Bool, true, false, List, [], ◌∷◌, Option, none, some, length, ◌≤◌, ◌≡◌,
  refl, string_eq,
}
use jev_frame.Prelude.Text.{join}
use jev_frame.Prelude.Dict.{Dict}
use jev_frame.Errors.{Result, ok, raise, input_validation_error, artifact_recipe_error}
use jev_frame.Definitions.{ToolEffect}
use jev_frame.State.Value.{Value, text}
use jev_frame.State.Evidence.{Evidence, evidence, observation}
use jev_frame.State.Store.{
  Store, new_store, add_record, invalidate_all, invalidate, sweep, require_current, is_current,
  is_current_in,
}
use jev_frame.Planning.{PlannerCapability}
use jev_frame.Planning.Turns.{
  completed, OutcomeValue, plain, check_result, StepOutcome, proposed_result,
}
use jev_frame.Artifacts.{
  Recipe, ArtifactCheck, SemanticCheck, check_recipe, check_artifact_check, check_semantic_check,
  check_completion, semantic_spec,
}
use jev_frame.Artifacts.Planner.{
  Planner, Settings, new_planner, stop, complete_artifact, start_checks, check_step_of,
  start_or_complete, verify_by, go_on,
}
use jev_frame.Artifacts.Findings.{finding_of, feedback}
use jev_frame.Artifacts.Calls.{
  generate, generated, stable_value, verify, revision_id, artifact_record, revision_of, retain,
  registered, register, after_try, after_outcome, after_generation, after_passing, after_findings,
  findings_of, after_current, after_checks, answer, call,
}
use jev_frame.Artifacts.Sessions.{
  session, after_answer, planner_of, is_over, answered, session-bounded, session-returns,
}
use jev_frame.Artifacts.Proposed.{HasPassed, session-HasPassed}
use jev_frame.Artifacts.Accepting.{
  after_check, check_revision, check_required, accepts_revision, accepts_artifact,
}
use jev_frame.Artifacts.Backed.{IsSupported, accepts_artifact-IsSupported}

abbrev capability : List String → List String → PlannerCapability
capability parameters generated = record {
  parameters = parameters;
  effect = ToolEffect.read;
  generated_parameters = generated;
  fixed_arguments = [];
  allow_mutation = false;
}

abbrev shape : ArtifactCheck
shape = record {
  id = "shape";
  capability = capability ("draft" ∷ []) [];
  artifact_parameter = "draft";
  supports_fields = "title" ∷ [];
}

abbrev tone : SemanticCheck
tone = record {
  id = "tone";
  evidence_refs = ("source", "g1") ∷ [];
  selectors = "source" ∷ [];
  supports_fields = [];
}

abbrev recipe : Recipe
recipe = record {
  generator = record {
    id = "write";
    version = "1";
    requires_evidence = [];
    capability = capability ("prompt" ∷ []) ("prompt" ∷ []);
  };
  prompt_parameter = "prompt";
  deterministic_checks = shape ∷ [];
  semantic_checks = tone ∷ [];
  completion = record { required_checks = "shape" ∷ "tone" ∷ []; required_fields = "title" ∷ [] };
  max_revisions = 2;
  step_acceptance_policy = "policy";
}

abbrev digest_of : Value → Option String
digest_of (text s) = some s
digest_of _ = none

abbrev validate : OutcomeValue → Result Value
validate (plain v) = ok v
validate _ = raise input_validation_error

abbrev clock : ℕ → ℕ
clock n = 20 + n

abbrev settings : Settings
settings = record {
  recipe = recipe;
  root_id = "run";
  scope = "scope";
  validate = validate;
  canonical_digest = digest_of;
  canonical_json = λ v. "feedback";
}

abbrev item : String → Evidence
item id = record {
  id = id;
  value = text id;
  source_id = "source";
  scope = "scope";
  observed_at = 5;
  source_version = none;
  expires_at = none;
  dependencies = [];
  supersedes = [];
  conflicts_with = [];
  body = observation;
}

abbrev with_items : List String → Dict String Evidence
with_items [] = []
with_items (i ∷ is) = (i, item i) ∷ with_items is

abbrev store : Store
store = record new_store { records = with_items ("g1" ∷ "s1" ∷ "g2" ∷ "s2" ∷ "t2" ∷ []) }

abbrev outcome : String → String → OutcomeValue → StepOutcome
outcome capability_id ref value = record {
  step_id = capability_id;
  capability_id = capability_id;
  status = completed;
  value = value;
  evidence_ref = some ref;
}

abbrev result : Bool → OutcomeValue
result passed =
    check_result
      (record { passed = passed; message = "checked"; field_ref = none; evidence_ref = none })

abbrev first : List StepOutcome
first = outcome "write" "g1" (plain (text "one")) ∷ []

abbrev second : List StepOutcome
second = outcome "write" "g1" (plain (text "one")) ∷ outcome "shape" "s1" (result false) ∷ []

abbrev revised : List StepOutcome → List StepOutcome
revised more =
    outcome "write" "g1" (plain (text "one"))
    ∷ outcome "shape" "s1" (result false)
    ∷ outcome "write" "g2" (plain (text "two"))
    ∷ more

abbrev fourth : List StepOutcome
fourth = revised (outcome "shape" "s2" (result true) ∷ [])

abbrev fifth : List StepOutcome
fifth =
    revised (
      outcome "shape" "s2" (result true) ∷ outcome "artifact-semantic-tone" "t2" (result true) ∷ [])

abbrev requests : List (ℕ × List StepOutcome)
requests =
    (10, [])
    ∷ (11, first)
    ∷ (12, second)
    ∷ (13, revised [])
    ∷ (14, fourth)
    ∷ (15, fifth)
    ∷ (16, fifth)
    ∷ (17, fifth)
    ∷ []

abbrev program : Unit {0}
unfolding join check_recipe check_artifact_check check_semantic_check check_completion semantic_spec
    stop complete_artifact start_checks check_step_of start_or_complete verify_by go_on finding_of
    feedback generate generated stable_value verify revision_id artifact_record revision_of retain
    registered register after_try after_outcome after_generation after_passing after_findings
    findings_of after_current after_checks answer call session after_answer add_record
    invalidate_all invalidate sweep evidence check_required after_check check_revision
    accepts_revision accepts_artifact require_current is_current is_current_in
program = tt

final : Planner
unfolding program
final = planner_of (session settings "objective" requests (new_planner store))

valid : check_recipe recipe ≡ ok recipe
unfolding program
valid = refl

checks_valid :
    (check_artifact_check shape ≡ ok tt)
    × (check_semantic_check tone ≡ ok tt)
    × (check_completion recipe.completion ≡ ok tt)
    × (check_recipe (record recipe { max_revisions = 0 }) ≡ raise artifact_recipe_error)
unfolding program
checks_valid = (refl, refl, refl, refl)

proposed :
    session settings "objective" requests (new_planner store)
    ≡ answered (proposed_result (text "two")) final
unfolding final
proposed = refl

taken : (accepts_artifact settings final clock final.store (text "two") 0).0 ≡ ok true
unfolding final
taken = refl

refused : (accepts_artifact settings final clock final.store (text "one") 0).0 ≡ ok false
unfolding final
refused = refl

session-bounded_example :
    length (planner_of (session settings "objective" requests (new_planner store))).revisions ≤ 2
session-bounded_example = session-bounded settings "objective" store requests valid

session-returns_example : is_over (session settings "objective" requests (new_planner store)) ≡ true
session-returns_example = session-returns settings "objective" store requests valid (omega arith)

session-HasPassed_example : HasPassed ("shape" ∷ "tone" ∷ []) (text "two") final
session-HasPassed_example =
    session-HasPassed settings "objective" store requests (text "two") final valid proposed

accepts_artifact-IsSupported_example : IsSupported settings final clock final.store 0 (text "two")
accepts_artifact-IsSupported_example =
    accepts_artifact-IsSupported settings final clock final.store 0 (text "two") taken
