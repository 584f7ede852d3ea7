-- ===== src/Compiler/Direct.antt =====
-- compiler.py, `compile_judgment`: the question of a single judgment, outside of an agent.
pub mod Agreement
use jev_frame.Prelude.{
  String, true, not, List, [], ◌∷◌, ◌++◌, Option, none, some, length, ltb, ◌==◌, string_eq, concat,
  map,
}
use jev_frame.Errors.{Result, ok, raise, guard, compiler_error, ◌>>=◌, ◌>>◌}
use jev_frame.Definitions.Agents.{
  ChoiceOption, Question, choice_question, noul_question, score_question, Judgment, CandidateSet,
  is_failed,
}
use jev_frame.Compiler.Diagnostics.{judge, Diagnostic}
use jev_frame.Compiler.Program.{CompiledOption, CompiledQuestion}
use jev_frame.Compiler.Providers.{candidate_option}
use jev_frame.Compiler.Questions.{
  max_choice_options, max_score_levels, is_nil, text_or, fixed_option, no_fit_option,
  compiled_question,
}
use jev_frame.Compiler.Agent.{outside, refuse_first, least_of}

-- The diagnostics name the judgment in place of a definition.
abbrev judgment_diagnostic : Judgment → String → Option String → Diagnostic
judgment_diagnostic j code reference = record {
  code = code;
  definition_id = j.id;
  node_id = some (judge j.id);
  subject = some j.subject;
  binding = none;
  reference = reference;
}

abbrev refusal : {A : Type 0} → Judgment → String → Option String → Result A
refusal j code reference = raise (compiler_error (judgment_diagnostic j code reference))

-- The snapshot is there exactly if the judgment declares it.
abbrev pub check_snapshot : Judgment → Option String → Option CandidateSet → Result (Unit {0})
check_snapshot j none none = ok tt
check_snapshot j none (some v) = refusal j "unexpected_candidate_snapshot" (some v.id)
check_snapshot j (some set) none = refusal j "missing_candidate_snapshot" (some set)
check_snapshot j (some set) (some v) =
    guard (v.id == set)
      (compiler_error (judgment_diagnostic j "missing_candidate_snapshot" (some set)))

abbrev pub direct_options :
    Judgment → List ChoiceOption → Option CandidateSet → Result (List CompiledOption)
direct_options j criteria none = ok (map fixed_option criteria)
direct_options j criteria (some v) = do
  guard (not (is_failed v.coverage))
      (compiler_error (judgment_diagnostic j "candidate_retrieval_failed" (some v.id)))
  guard (not (is_nil v.candidates))
      (compiler_error (judgment_diagnostic j "deterministic_no_fit" (some v.id)))
  ok (map candidate_option v.candidates ++ no_fit_option ∷ [])

abbrev pub direct_question :
    Judgment → Option CandidateSet → (routing_id : String) → Question → Result CompiledQuestion
direct_question j snapshot routing_id (choice_question text criteria) = do
  options ← direct_options j criteria snapshot
  guard (not (ltb max_choice_options (length options)))
      (compiler_error (judgment_diagnostic j "choice_limit_exceeded" j.candidate_set))
  ok (compiled_question routing_id j "choice" text options [] none none true)
direct_question j snapshot routing_id (noul_question text true_ false_) =
    ok (compiled_question routing_id j "noul" text [] [] true_ false_ true)
direct_question j snapshot routing_id (score_question text levels) = do
  guard (not (ltb max_score_levels (length levels)))
      (compiler_error (judgment_diagnostic j "score_limit_exceeded" none))
  ok (compiled_question routing_id j "score" text [] levels none none true)

unfoldable pub compile_judgment :
    Judgment
    → Option CandidateSet
    → (routing_id : Option String) → (resolved_dependencies : List String) → Result CompiledQuestion
compile_judgment j snapshot routing_id resolved_dependencies = do
  refuse_first (judgment_diagnostic j "unresolved_judgment_dependency") least_of
      (outside j.dependencies resolved_dependencies)
  check_snapshot j j.candidate_set snapshot
  direct_question j snapshot (text_or routing_id (concat ("question:" ∷ j.id ∷ []))) j.primitive
