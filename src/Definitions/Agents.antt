-- ===== src/Definitions/Agents.antt =====
-- definitions.py: judgments, candidate snapshots and their providers, packages, and the definition
-- of an agent, with the checks of their constructors. `is_text` and `is_version` are the tests of
-- `_text` and `_version`.
use jev_frame.Prelude.{
  ℕ, String, Bool, true, false, not, ◌&&◌, ◌||◌, List, [], ◌∷◌, ◌++◌, Option, none, some, ltb,
  length, all, ◌==◌, string_eq, map,
}
use jev_frame.Prelude.Set.{has, unique, subset}
use jev_frame.Prelude.Dict.{Dict, values}
use jev_frame.Errors.{Result, ok, guard, definition_error, binding_error, ◌>>◌}
use jev_frame.State.Value.{Value}
use jev_frame.State.Sources.{Part}
use jev_frame.Definitions.Tools.{Tool, Binding, judgment_binding, generated_binding}

pub record ChoiceOption : Type 0 where
  pub key : String
  pub description : Option String

pub data Question : Type 0 where
  choice_question : (instructions : String) → List ChoiceOption → Question
  noul_question : (instructions : String) → (true_ false_ : Option String) → Question
  score_question : (instructions : String) → List String → Question

-- Subjects and evidence are kept by their names. `Judgment.__post_init__` wants a first subject.
pub record Judgment : Type 0 where
  pub id : String
  pub version : String
  pub primitive : Question
  pub subject : String
  pub other_subjects : List String
  pub evidence : List String
  pub dependencies : List String
  pub acceptance_policy : Option String
  pub applicability : Option String
  pub candidate_set : Option String

pub data Coverage : Type 0 where
  complete truncated unknown failed : Coverage

abbrev pub no_fit_key : String
no_fit_key = "__jev_frame_no_fit__"

pub record Candidate : Type 0 where
  pub key : String
  pub value : Value
  pub description : String
  pub source_id : String
  pub source_version : Option String

pub record CandidateSet : Type 0 where
  pub id : String
  pub version : String
  pub candidates : List Candidate
  pub coverage : Coverage
  pub scope : String
  pub total_count : Option ℕ
  pub failure_reason : Option String

abbrev pub is_failed : Coverage → Bool
is_failed failed = true
is_failed _ = false

abbrev covers_all : Option ℕ → List Candidate → Bool
covers_all none candidates = true
covers_all (some n) candidates = not (ltb n (length candidates))

-- `not reason`, for a text that may be missing
abbrev pub is_blank : Option String → Bool
is_blank none = true
is_blank (some s) = s == ""

abbrev is_absent : Option String → Bool
is_absent none = true
is_absent (some _) = false

abbrev pub candidate_keys : List Candidate → List String
candidate_keys = map (λ (c : Candidate). c.key)

-- `CandidateSet.__post_init__`; its query, retrieval parameters and expansion are left out.
unfoldable pub check_candidate_set :
    (is_text is_version : String → Bool) → CandidateSet → Result CandidateSet
check_candidate_set is_text is_version s = do
  guard (is_text s.id) definition_error
  guard (is_version s.version) definition_error
  guard (is_text s.scope) definition_error
  guard (unique (candidate_keys s.candidates)) definition_error
  guard (not (has no_fit_key (candidate_keys s.candidates))) definition_error
  guard (covers_all s.total_count s.candidates) definition_error
  guard (not (is_failed s.coverage && is_blank s.failure_reason)) definition_error
  guard (is_failed s.coverage || is_absent s.failure_reason) definition_error
  ok s

-- The bindings that `CandidateProvider.__post_init__` lets a provider have.
pub data PlainBinding : Type 0 where
  task_input : List Part → PlainBinding
  host_context : (key : String) → PlainBinding
  constant : Value → PlainBinding
  default : PlainBinding

pub record CandidateProvider : Type 0 where
  pub id : String
  pub version : String
  pub bindings : Dict String PlainBinding

pub record CompletionContract : Type 0 where
  pub required_findings : List String
  pub result_bindings : Dict String String
  pub acceptance_policy : String

pub record CapabilityPackage : Type 0 where
  pub id : String
  pub version : String
  pub tools : List Tool
  pub judgments : List Judgment
  pub candidate_providers : List CandidateProvider

-- The output type is kept by the names of its fields, none for a scalar.
pub record AgentDefinition : Type 0 where
  pub id : String
  pub version : String
  pub output_fields : Option (List String)
  pub completion : CompletionContract
  pub acceptance_policies : List String
  pub tools : List Tool
  pub judgments : List Judgment
  pub candidate_providers : List CandidateProvider
  pub packages : List CapabilityPackage

-- The items of the definition and then those of its packages.
module _ {A : Type 0} (own : AgentDefinition → List A) (packaged : CapabilityPackage → List A) where
  abbrev from_packages : List CapabilityPackage → List A
  from_packages [] = []
  from_packages (p ∷ ps) = packaged p ++ from_packages ps

  abbrev pub everything : AgentDefinition → List A
  everything d = own d ++ from_packages d.packages

abbrev pub all_tools : AgentDefinition → List Tool
all_tools = everything (λ d. d.tools) (λ p. p.tools)

abbrev pub all_judgments : AgentDefinition → List Judgment
all_judgments = everything (λ d. d.judgments) (λ p. p.judgments)

abbrev pub all_providers : AgentDefinition → List CandidateProvider
all_providers = everything (λ d. d.candidate_providers) (λ p. p.candidate_providers)

abbrev pub tool_ids : List Tool → List String
tool_ids = map (λ (t : Tool). t.id)

abbrev pub judgment_ids : List Judgment → List String
judgment_ids = map (λ (j : Judgment). j.id)

abbrev pub provider_ids : List CandidateProvider → List String
provider_ids = map (λ (p : CandidateProvider). p.id)

abbrev package_ids : List CapabilityPackage → List String
package_ids = map (λ (p : CapabilityPackage). p.id)

-- `_unique_ids` for the four groups
abbrev pub unique_ids : AgentDefinition → Bool
unique_ids d = unique (
    tool_ids (all_tools d)
    ++ (judgment_ids (all_judgments d)
        ++ (provider_ids (all_providers d) ++ package_ids d.packages)))

abbrev registered : List String → Option String → Bool
registered policies none = true
registered policies (some p) = has p policies

unfoldable pub check_judgments : (known policies : List String) → List Judgment → Result (Unit {0})
check_judgments known policies [] = ok tt
check_judgments known policies (j ∷ js) = do
  guard (subset j.dependencies known) definition_error
  guard (registered policies j.acceptance_policy) definition_error
  check_judgments known policies js

-- whether a binding names nothing that is not registered
abbrev pub is_known : (judgments tools : List String) → Binding → Bool
is_known judgments tools (judgment_binding j) = has j judgments
is_known judgments tools (generated_binding c) = has c tools
is_known judgments tools _ = true

unfoldable pub check_tools : (judgments tools : List String) → List Tool → Result (Unit {0})
check_tools judgments tools [] = ok tt
check_tools judgments tools (t ∷ ts) = do
  guard (all (is_known judgments tools) (values t.bindings)) binding_error
  check_tools judgments tools ts

-- `AgentDefinition.__post_init__`, the checks of names, versions and annotations left out.
unfoldable pub check_agent_definition : AgentDefinition → Result AgentDefinition
unfolding check_judgments check_tools
check_agent_definition d = do
  guard (unique_ids d) definition_error
  guard (has d.completion.acceptance_policy d.acceptance_policies) definition_error
  check_judgments (judgment_ids (all_judgments d)) d.acceptance_policies (all_judgments d)
  check_tools (judgment_ids (all_judgments d)) (tool_ids (all_tools d)) (all_tools d)
  ok d
