-- ===== src/Compiler/Agent.antt =====
-- compiler.py, `compile_agent`: the checks of its arguments, the state of a new `_Compiler`, and
-- `_Compiler.compile`.
pub mod Sound
pub mod Tables
pub mod Refusing
pub mod Compiled
pub mod Promises
use Prim.Native.Nat.{Ordering}
use Prim.Native.String.{compare as compare_text}
use jev_frame.Prelude.{
  String, Bool, false, not, ltb, ◌&&◌, ◌||◌, List, [], ◌∷◌, ◌++◌, Option, none, some, length,
  string_eq, if◌then◌else◌, map,
}
use jev_frame.Prelude.Int.{ℤ, pos, negsuc, is_negative}
use jev_frame.Prelude.Set.{has, unique, subset}
use jev_frame.Prelude.Dict.{Dict, lookup, insert, keys, values}
use jev_frame.Errors.{Result, ok, raise, guard, definition_error, compiler_error, ◌>>=◌, ◌>>◌}
use jev_frame.State.Value.{Value}
use jev_frame.Definitions.Tools.{Tool}
use jev_frame.Definitions.Agents.{
  CandidateSet, CapabilityPackage, AgentDefinition, Judgment, CandidateProvider, all_tools,
  all_judgments, all_providers, tool_ids,
}
use jev_frame.Compiler.Diagnostics.{complete, node_eq, Diagnostic}
use jev_frame.Compiler.Program.{EvaluationStage, CompiledProgram}
use jev_frame.Compiler.Steps.{Setup, Compiling, diagnostic}
use jev_frame.Compiler.Search.{blank, compile_nodes}
use jev_frame.Compiler.Questions.{is_nil}
use jev_frame.Compiler.Stages.{stages}

-- The keyword arguments of `compile_agent`.
pub record Options : Type 0 where
  pub candidate_sets : Dict String CandidateSet
  pub available_evidence : List String
  pub task_input : Option Value
  pub host_context_keys : List String
  pub question_ids : Dict String String
  pub capability_revision : List String
  pub max_revision_steps : ℤ

-- `not (len(capability_ids) > max_steps)`, and False for a negative maximum
abbrev pub allows : ℤ → List String → Bool
allows (pos n) ids = not (ltb n (length ids))
allows (negsuc n) ids = false

abbrev pub outside : List String → List String → List String
outside [] known = []
outside (x ∷ xs) known = let rest = outside xs known in if has x known then rest else x ∷ rest

abbrev smaller : String → String → String
smaller s t = elim (compare_text t s) [ Ordering.lt ↦ t | _ ↦ s ]

-- `min(xs)`
abbrev pub least : String → List String → String
least s [] = s
least s (t ∷ ts) = least (smaller s t) ts

-- Nothing, or a diagnostic about what stands outside.
abbrev pub refuse_first :
    (Option String → Diagnostic) → (List String → Option String) → List String → Result (Unit {0})
refuse_first report pick [] = ok tt
refuse_first report pick (x ∷ xs) = raise (compiler_error (report (pick (x ∷ xs))))

abbrev pub first_of : List String → Option String
first_of [] = none
first_of (x ∷ xs) = some x

abbrev pub least_of : List String → Option String
least_of [] = none
least_of (x ∷ xs) = some (least x xs)

-- `{item.id: item for item in items}`
abbrev pub by_id : {A : Type 0} → (A → String) → List A → Dict String A → Dict String A
by_id id [] d = d
by_id id (x ∷ xs) d = by_id id xs (insert (id x) x d)

abbrev pub add_producer : Tool → List String → Dict String (List Tool) → Dict String (List Tool)
add_producer t [] d = d
add_producer t (o ∷ os) d =
    add_producer t os (insert o (elim (lookup o d) [ none ↦ t ∷ [] | some ts ↦ ts ++ t ∷ [] ]) d)

abbrev pub producers_from : List Tool → Dict String (List Tool) → Dict String (List Tool)
producers_from [] d = d
producers_from (t ∷ ts) d = producers_from ts (add_producer t t.produces_evidence d)

-- `_Compiler.__init__`
unfoldable pub setup_of : AgentDefinition → Options → Setup
setup_of d o =
    let tools = by_id (λ (t : Tool). t.id) (all_tools d) [] in
    record {
      definition = d;
      snapshots = o.candidate_sets;
      available_evidence = o.available_evidence;
      task_input = o.task_input;
      host_context_keys = o.host_context_keys;
      question_ids = o.question_ids;
      capability_roots = o.capability_revision;
      tools = tools;
      judgments = by_id (λ (j : Judgment). j.id) (all_judgments d) [];
      providers = by_id (λ (p : CandidateProvider). p.id) (all_providers d) [];
      producers = producers_from (values tools) [];
    }

abbrev pub unknown_capability : AgentDefinition → Option String → Diagnostic
unknown_capability d reference = record {
  code = "unknown_capability";
  definition_id = d.id;
  node_id = none;
  subject = none;
  binding = none;
  reference = reference;
}

-- `_validate_revision_capabilities`
unfoldable pub check_revision : AgentDefinition → List String → ℤ → Result (List String)
check_revision d ids max_steps = do
  guard (not (is_negative max_steps)) definition_error
  guard (allows max_steps ids) definition_error
  guard (unique ids) definition_error
  refuse_first (unknown_capability d) first_of (outside ids (tool_ids (all_tools d)))
  ok ids

-- `validate_value` for the input of the definition is the argument `validate`.
abbrev pub check_input : (Value → Result Value) → Option Value → Result (Option Value)
check_input validate none = ok none
check_input validate (some v) = do v' ← validate v; ok (some v')

module _ (c : Setup) where
  abbrev refused : String → Diagnostic
  refused code = diagnostic c code (some (complete c.definition.id)) none none none

  -- `_validate_output_contract`
  unfoldable pub check_output : List String → Option (List String) → Result (Unit {0})
  check_output names none =
      guard (is_nil names) (compiler_error (refused "unsupported_result_binding"))
  check_output names (some fields) =
      guard (is_nil names || subset names fields && subset fields names)
        (compiler_error (refused "result_binding_mismatch"))

  abbrev pub check_snapshots : Result (Unit {0})
  check_snapshots =
      refuse_first (diagnostic c "unknown_candidate_snapshot" none none none) least_of
        (outside (keys c.snapshots) (keys c.providers))

  abbrev pub check_question_ids : Result (Unit {0})
  check_question_ids =
      refuse_first (diagnostic c "unknown_question_id" none none none) least_of
        (outside (keys c.question_ids) (keys c.judgments))

  -- The checks of `compile` that come before the search.
  unfoldable pub check_setup : Result (Unit {0})
  unfolding check_output
  check_setup = do
    check_snapshots
    check_question_ids
    guard (unique (values c.question_ids))
        (compiler_error (diagnostic c "duplicate_question_id" none none none none))

  abbrev package_version : CapabilityPackage → String × String
  package_version p = (p.id, p.version)

  unfoldable pub program_of : Compiling → List EvaluationStage → CompiledProgram
  program_of s stages = record {
    definition_id = c.definition.id;
    definition_version = c.definition.version;
    nodes = values s.nodes;
    questions = values s.questions;
    stages = stages;
    candidates = values s.candidates;
    package_versions = map package_version c.definition.packages;
    diagnostics = s.diagnostics;
  }

-- `compile` from the check of the output contract on
unfoldable pub compile_checked : Setup → Result CompiledProgram
unfolding check_output
compile_checked c = do
  check_output c (keys c.definition.completion.result_bindings) c.definition.output_fields
  (done, s) ← compile_nodes c blank
  es ← stages c s.questions
  ok (program_of c s es)

-- `compile`, which replaces the task's input by the validated one
unfoldable pub compile : (Value → Result Value) → Setup → Result CompiledProgram
unfolding check_setup compile_checked
compile validate c = do
  check_setup c
  input ← check_input validate c.task_input
  compile_checked (record c { task_input = input })

unfoldable pub compile_agent :
    (Value → Result Value) → AgentDefinition → Options → Result CompiledProgram
unfolding check_revision compile setup_of
compile_agent validate d o = do
  roots ← check_revision d o.capability_revision o.max_revision_steps
  compile validate (setup_of d (record o { capability_revision = roots }))
