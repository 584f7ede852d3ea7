-- ===== src/Artifacts.antt =====
-- artifacts.py: the recipe that has an artifact generated, verified and revised, with the checks of
-- its construction. What the code reads of the signature of a tool's function is a field of the
-- generator or of the check; the tests of annotations are left out.
pub mod Planner
pub mod Findings
pub mod Calls
pub mod Accepting
pub mod Supporting
pub mod Backed
pub mod Steps
pub mod Lowering
pub mod Sessions
pub mod Passing
pub mod Verified
pub mod Proposed
mod Tests
use jev_frame.Prelude.{
  ℕ, String, Bool, not, ◌&&◌, List, [], ◌∷◌, ◌++◌, Option, none, ltb, all, ◌==◌, string_eq, map,
  if◌then◌else◌,
}
use jev_frame.Prelude.Set.{has, unique, subset}
use jev_frame.Prelude.Dict.{Dict, keys, values}
use jev_frame.Prelude.Text.{join}
use jev_frame.Errors.{Result, ok, guard, artifact_recipe_error, ◌>>◌}
use jev_frame.State.Value.{Value}
use jev_frame.Planning.{PlannerCapability}

-- `PlannerCapability`, with the fields of its tool that the recipe reads
pub record Generator : Type 0 where
  pub id : String
  pub version : String
  pub requires_evidence : List String
  pub capability : PlannerCapability

pub data CheckKind : Type 0 where
  deterministic semantic : CheckKind

pub record ArtifactCheck : Type 0 where
  pub id : String
  pub capability : PlannerCapability
  pub artifact_parameter : String
  pub supports_fields : List String

-- `ArtifactSemanticCheck`: its id is that of its judgment, and `selectors` are the names of the
-- evidence that its judgment selects.
pub record SemanticCheck : Type 0 where
  pub id : String
  pub evidence_refs : Dict String String
  pub selectors : List String
  pub supports_fields : List String

pub record ArtifactCompletionContract : Type 0 where
  pub required_checks : List String
  pub required_fields : List String

pub record Recipe : Type 0 where
  pub generator : Generator
  pub prompt_parameter : String
  pub deterministic_checks : List ArtifactCheck
  pub semantic_checks : List SemanticCheck
  pub completion : ArtifactCompletionContract
  pub max_revisions : ℕ
  pub step_acceptance_policy : String

-- `_CheckSpec`
pub record CheckSpec : Type 0 where
  pub id : String
  pub kind : CheckKind
  pub capability_id : String
  pub artifact_parameter : String
  pub supports_fields : List String

-- The specifications that `GenerateVerifyRecipe.run` makes of the checks.
abbrev pub deterministic_spec : ArtifactCheck → CheckSpec
deterministic_spec c = record {
  id = c.id;
  kind = deterministic;
  capability_id = c.id;
  artifact_parameter = c.artifact_parameter;
  supports_fields = c.supports_fields;
}

unfoldable pub semantic_spec : SemanticCheck → CheckSpec
semantic_spec c = record {
  id = c.id;
  kind = semantic;
  capability_id = join "-" ("artifact" ∷ "semantic" ∷ c.id ∷ []);
  artifact_parameter = "artifact";
  supports_fields = c.supports_fields;
}

abbrev pub deterministic_specs : Recipe → List CheckSpec
deterministic_specs r = map deterministic_spec r.deterministic_checks

abbrev pub semantic_specs : Recipe → List CheckSpec
semantic_specs r = map semantic_spec r.semantic_checks

abbrev pub all_specs : Recipe → List CheckSpec
all_specs r = deterministic_specs r ++ semantic_specs r

abbrev pub spec_ids : List CheckSpec → List String
spec_ids = map (λ (c : CheckSpec). c.id)

-- `_field_names`
abbrev pub field_names : List String → Result (Unit {0})
field_names values = guard (unique values && all (λ v. not (v == "")) values) artifact_recipe_error

-- `set(parameters) == {parameter, *fixed}`
abbrev same_parameters : List String → String → List String → Bool
same_parameters parameters parameter fixed =
    subset parameters (parameter ∷ fixed) && subset (parameter ∷ fixed) parameters

abbrev no_names : List String → Bool
no_names [] = Bool.true
no_names (_ ∷ _) = Bool.false

-- `ArtifactCheck.__post_init__`
unfoldable pub check_artifact_check : ArtifactCheck → Result (Unit {0})
check_artifact_check c = do
  guard (not (c.artifact_parameter == "")) artifact_recipe_error
  guard (has c.artifact_parameter c.capability.parameters) artifact_recipe_error
  guard (not (has c.artifact_parameter c.capability.fixed_arguments)) artifact_recipe_error
  guard (no_names c.capability.generated_parameters) artifact_recipe_error
  guard (same_parameters c.capability.parameters c.artifact_parameter c.capability.fixed_arguments)
      artifact_recipe_error
  field_names c.supports_fields

-- `ArtifactSemanticCheck.__post_init__`
unfoldable pub check_semantic_check : SemanticCheck → Result (Unit {0})
check_semantic_check c = do
  guard
      (all (λ v. not (v == "")) (keys c.evidence_refs)
        && all (λ v. not (v == "")) (values c.evidence_refs))
      artifact_recipe_error
  guard (subset (keys c.evidence_refs) c.selectors && subset c.selectors (keys c.evidence_refs))
      artifact_recipe_error
  field_names c.supports_fields

-- `ArtifactCompletionContract.__post_init__`
unfoldable pub check_completion : ArtifactCompletionContract → Result (Unit {0})
check_completion c = do
  field_names c.required_checks
  field_names c.required_fields
  guard (not (no_names c.required_checks)) artifact_recipe_error

-- The fields that the required ones among some checks support.
abbrev pub supported_by : List String → List CheckSpec → List String
supported_by required [] = []
supported_by required (c ∷ cs) =
    let rest = supported_by required cs in
    if has c.id required then c.supports_fields ++ rest else rest

abbrev only_parameter : List String → String → Bool
only_parameter [] p = Bool.false
only_parameter (x ∷ xs) p = x == p && no_names xs

-- `GenerateVerifyRecipe.__post_init__`
unfoldable pub check_recipe : Recipe → Result Recipe
unfolding semantic_spec
check_recipe r = do
  guard (not (r.prompt_parameter == "")) artifact_recipe_error
  guard (only_parameter r.generator.capability.generated_parameters r.prompt_parameter)
      artifact_recipe_error
  guard
      (same_parameters r.generator.capability.parameters r.prompt_parameter
        r.generator.capability.fixed_arguments)
      artifact_recipe_error
  guard (unique (spec_ids (all_specs r))) artifact_recipe_error
  guard (subset r.completion.required_checks (spec_ids (all_specs r))) artifact_recipe_error
  guard
      (subset r.completion.required_fields
        (supported_by r.completion.required_checks (all_specs r)))
      artifact_recipe_error
  guard (ltb 0 r.max_revisions) artifact_recipe_error
  guard (not (r.step_acceptance_policy == "")) artifact_recipe_error
  ok r
