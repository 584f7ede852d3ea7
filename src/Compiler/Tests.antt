-- ===== src/Compiler/Tests.antt =====
-- compiler.py: a definition with two judgments, and the program that it is compiled to.
use jev_frame.Prelude.{String, true, false, List, [], ◌∷◌, none, some, All, ◌≡◌, refl, ◌≤◌}
use jev_frame.Prelude.Int.{pos}
use jev_frame.Errors.{Result, ok, raise, definition_error}
use jev_frame.State.Value.{Value, text}
use jev_frame.Definitions.{ToolEffect}
use jev_frame.Definitions.Tools.{Tool}
use jev_frame.Definitions.Agents.{
  Judgment, choice_question, score_question, noul_question, AgentDefinition,
}
use jev_frame.Compiler.Diagnostics.{NodeId, judge, complete}
use jev_frame.Compiler.Program.{
  CompiledNode, CompiledQuestion, EvaluationStage, CompiledProgram, judgment, completion,
}
use jev_frame.Compiler.Agent.{
  Options, compile_agent, check_output, check_revision, check_setup, compile, compile_checked,
  program_of, setup_of,
}
use jev_frame.Compiler.Search.{compile_nodes, visit_root}
use jev_frame.Compiler.Steps.{
  ◌>>=◌, for_each, choose, by_option, gets, modify, found, fail_with, pure, report,
}
use jev_frame.Compiler.Needs.{resolve_need, visit_named, visit_candidates, produce}
use jev_frame.Compiler.Visits.{
  visit, visit_judgment, once, judgment_body, inherited, tool_body, visit_tool,
}
use jev_frame.Compiler.Questions.{question, ask, all_resolved, candidate_options, choice_options}
use jev_frame.Compiler.Bindings.{binding, check_group, selection_of, transformation_of}
use jev_frame.Compiler.Providers.{plain_binding, preview, visit_provider}
use jev_frame.Compiler.Stages.{each_level, group, level, stages}
use jev_frame.Prelude.{◌&&◌, all, length, map}
use jev_frame.Definitions.Tools.{constant, derivation_binding}
use jev_frame.Definitions.Agents.{check_agent_definition, check_judgments, check_tools}
use jev_frame.Compiler.Diagnostics.{retrieve, derive, invoke}
use jev_frame.Compiler.Questions.{is_nil}
use jev_frame.Compiler.Search.Invariant.{reports}
use jev_frame.Compiler.Agent.Refusing.{IsRefusal}
use jev_frame.Compiler.Stages.Ordered.{AreStages}
use jev_frame.Compiler.Agent.Compiled.{IsChecked, nodes_follow, lacks_nothing}
use jev_frame.Compiler.Agent.Promises.{
  compile_agent-raise, compile_agent-follows, compile_agent-bounded, compile_agent-AreStages,
  compile_agent-honest, compile_agent-dispatchable,
}
use jev_frame.Prelude.{◌==◌, string_eq}
use jev_frame.Definitions.Agents.{CandidateSet, Coverage}
use jev_frame.Compiler.Steps.{Setup, Compiling}
use jev_frame.Compiler.Search.{blank}
use jev_frame.Compiler.Providers.{supplied_preview}
use jev_frame.Compiler.Questions.{routing_id}
use jev_frame.Compiler.Direct.{compile_judgment}
use jev_frame.Compiler.Direct.Agreement.{IsVisited, compile_judgment_agrees}
use jev_frame.Prelude.Text.{decimal, is_space, join, rstrip}

abbrev fit : Judgment
fit = record {
  id = "fit";
  version = "1.0.0";
  primitive = noul_question "Does it fit?  " none none;
  subject = "plan";
  other_subjects = [];
  evidence = [];
  dependencies = [];
  acceptance_policy = none;
  applicability = none;
  candidate_set = none;
}

abbrev rating : Judgment
rating = record fit {
  id = "rating";
  primitive = score_question "How well?" ("badly" ∷ "well" ∷ []);
  evidence = "text" ∷ [];
  dependencies = "fit" ∷ [];
}

abbrev sample : AgentDefinition
sample = record {
  id = "review";
  version = "1.0.0";
  output_fields = none;
  completion = record {
    required_findings = "rating" ∷ [];
    result_bindings = [];
    acceptance_policy = "strict";
  };
  acceptance_policies = "strict" ∷ [];
  tools = [];
  judgments = rating ∷ fit ∷ [];
  candidate_providers = [];
  packages = [];
}

abbrev plain : Options
plain = record {
  candidate_sets = [];
  available_evidence = "text" ∷ [];
  task_input = none;
  host_context_keys = [];
  question_ids = [];
  capability_revision = [];
  max_revision_steps = pos 0;
}

abbrev accept_all : Value → Result Value
accept_all = ok

abbrev sample_program : CompiledProgram
sample_program = record {
  definition_id = "review";
  definition_version = "1.0.0";
  nodes =
      record {
        id = judge "fit";
        kind = judgment;
        definition_id = "fit";
        version = "1.0.0";
        dependencies = [];
        outputs = "fit" ∷ [];
        applicability = none;
        effect = none;
        bindings = [];
        unresolved = [];
      }
      ∷ record {
        id = judge "rating";
        kind = judgment;
        definition_id = "rating";
        version = "1.0.0";
        dependencies = judge "fit" ∷ [];
        outputs = "rating" ∷ [];
        applicability = none;
        effect = none;
        bindings = [];
        unresolved = [];
      }
      ∷ record {
        id = complete "review";
        kind = completion;
        definition_id = "review";
        version = "1.0.0";
        dependencies = judge "rating" ∷ [];
        outputs = [];
        applicability = none;
        effect = none;
        bindings = [];
        unresolved = [];
      }
      ∷ [];
  questions =
      record {
        routing_id = "question:fit";
        judgment_id = "fit";
        primitive = "noul";
        instructions = "Does it fit?\nSubjects: plan.";
        subjects = "plan" ∷ [];
        evidence = [];
        dependencies = [];
        applicability = none;
        candidate_set = none;
        options = [];
        score_levels = [];
        true_description = none;
        false_description = none;
        dispatchable = true;
      }
      ∷ record {
        routing_id = "question:rating";
        judgment_id = "rating";
        primitive = "score";
        instructions = "How well?\nSubjects: plan.\nEvidence paths: text.";
        subjects = "plan" ∷ [];
        evidence = "text" ∷ [];
        dependencies = "fit" ∷ [];
        applicability = none;
        candidate_set = none;
        options = [];
        score_levels = "badly" ∷ "well" ∷ [];
        true_description = none;
        false_description = none;
        dispatchable = true;
      }
      ∷ [];
  stages =
      record { index = 0; question_ids = "question:fit" ∷ [] }
      ∷ record { index = 1; question_ids = "question:rating" ∷ [] }
      ∷ [];
  candidates = [];
  package_versions = [];
  diagnostics = [];
}

-- the compiler, computed with
abbrev compiler : Unit {0}
unfolding compile_agent check_output check_revision check_setup compile compile_checked program_of
    setup_of compile_nodes visit_root ◌>>=◌ for_each choose by_option gets modify found fail_with
    pure report resolve_need visit_named visit_candidates produce visit visit_judgment once
    judgment_body inherited tool_body visit_tool question ask all_resolved candidate_options
    choice_options binding check_group selection_of transformation_of plain_binding preview
    visit_provider each_level group level stages decimal is_space join rstrip
compiler = tt

compiles : compile_agent accept_all sample plain ≡ ok sample_program
unfolding compiler
compiles = refl

sample-IsChecked : IsChecked sample
unfolding check_agent_definition check_judgments check_tools
sample-IsChecked = record { definition_passes = refl; tools_pass = tt }

compile_agent-follows_example : nodes_follow [] sample_program.nodes ≡ true
compile_agent-follows_example =
    compile_agent-follows accept_all sample plain sample-IsChecked sample_program compiles

compile_agent-bounded_example :
    All (λ q. (length q.options ≤ 255) × (length q.score_levels ≤ 10)) sample_program.questions
compile_agent-bounded_example =
    compile_agent-bounded accept_all sample plain sample-IsChecked sample_program compiles

compile_agent-AreStages_example : AreStages sample_program.questions sample_program.stages
compile_agent-AreStages_example =
    compile_agent-AreStages accept_all sample plain sample-IsChecked sample_program compiles

compile_agent-honest_example :
    All
      (λ n.
        (reports n.kind && is_nil n.unresolved) ≡ true
        → all (lacks_nothing sample_program.nodes) n.dependencies ≡ true)
      sample_program.nodes
compile_agent-honest_example =
    compile_agent-honest accept_all sample plain sample-IsChecked sample_program compiles

compile_agent-dispatchable_example :
    All
      (λ q. q.dispatchable ≡ true → lacks_nothing sample_program.nodes (judge q.judgment_id) ≡ true)
      sample_program.questions
compile_agent-dispatchable_example =
    compile_agent-dispatchable accept_all sample plain sample-IsChecked sample_program compiles

-- a revision that is longer than it may be
abbrev revised : Options
revised = record plain { capability_revision = "send" ∷ [] }

revision_refused : compile_agent accept_all sample revised ≡ raise definition_error
unfolding compiler
revision_refused = refl

compile_agent-raise_example : IsRefusal accept_all definition_error
compile_agent-raise_example =
    compile_agent-raise accept_all sample revised sample-IsChecked definition_error revision_refused

-- A definition whose tool takes an address that a pure tool derives from the candidates of a provider.
abbrev clean : Tool
clean = record {
  id = "clean";
  version = "1.0.0";
  bindings = ("raw", constant (text "")) ∷ [];
  effect = ToolEffect.pure;
  binding_groups = [];
  requires_evidence = [];
  produces_evidence = [];
  timeout = 30;
  durable_intent_required = false;
  idempotency_parameter = none;
}

abbrev send : Tool
send = record clean {
  id = "send";
  bindings = ("to", derivation_binding "clean" ("people" ∷ [])) ∷ [];
  effect = ToolEffect.read;
}

abbrev sending : AgentDefinition
sending = record sample {
  tools = clean ∷ send ∷ [];
  candidate_providers = record { id = "people"; version = "1.0.0"; bindings = [] } ∷ [];
}

abbrev lacking : Result CompiledProgram → List (NodeId × List String)
lacking (ok p) = map (λ (n : CompiledNode). (n.id, n.unresolved)) p.nodes
lacking (raise e) = []

-- There is no snapshot of the candidates, which the node of the tool does not say.
derivation_hides :
    lacking (
      compile_agent accept_all sending
        (record plain { capability_revision = "send" ∷ []; max_revision_steps = pos 1 }))
    ≡ (judge "fit", [])
      ∷ (judge "rating", [])
      ∷ (retrieve "people", "people" ∷ [])
      ∷ (invoke "clean", [])
      ∷ (derive "send" "to", [])
      ∷ (invoke "send", [])
      ∷ (complete "review", [])
      ∷ []
unfolding compiler
derivation_hides = refl

-- A judgment whose evidence is the other judgment, which it does not declare as a dependency.
abbrev quoting : AgentDefinition
quoting = record sample {
  judgments = record rating { evidence = "fit" ∷ []; dependencies = [] } ∷ fit ∷ [];
}

abbrev staged : Result CompiledProgram → List EvaluationStage
staged (ok p) = p.stages
staged (raise e) = []

evidence_in_one_stage :
    staged (compile_agent accept_all quoting plain)
    ≡ record { index = 0; question_ids = "question:fit" ∷ "question:rating" ∷ [] } ∷ []
unfolding compiler
evidence_in_one_stage = refl

-- A Choice over candidates, with the snapshot of one.
abbrev people : CandidateSet
people = record {
  id = "people";
  version = "1.0.0";
  candidates =
      record {
        key = "ann";
        value = text "Ann";
        description = "Ann of sales";
        source_id = "crm";
        source_version = none;
      }
      ∷ [];
  coverage = Coverage.complete;
  scope = "team";
  total_count = some 1;
  failure_reason = none;
}

abbrev pick : Judgment
pick = record fit {
  id = "pick";
  primitive = choice_question "Who is it?" [];
  candidate_set = some "people";
}

picking : Setup
unfolding setup_of
picking = setup_of sample (record plain { candidate_sets = ("people", people) ∷ [] })

abbrev visited : Compiling
visited = record blank { candidates = ("people", supplied_preview people) ∷ [] }

abbrev pick_question : CompiledQuestion
pick_question = record {
  routing_id = "question:pick";
  judgment_id = "pick";
  primitive = "choice";
  instructions = "Who is it?\nSubjects: plan.";
  subjects = "plan" ∷ [];
  evidence = [];
  dependencies = [];
  applicability = none;
  candidate_set = some "people";
  options =
      record {
        key = "ann";
        description = "Ann of sales";
        source_id = some "crm";
        source_version = none;
      }
      ∷ record {
        key = "__jev_frame_no_fit__";
        description = "None of the supplied candidates fit.";
        source_id = none;
        source_version = none;
      }
      ∷ [];
  score_levels = [];
  true_description = none;
  false_description = none;
  dispatchable = true;
}

picked : question picking pick [] visited ≡ ok (pick_question, visited)
unfolding compiler picking
picked = refl

pick-visited : IsVisited picking visited pick (some people)
unfolding picking setup_of
pick-visited = (refl, refl, refl)

pick_named : (routing_id picking pick == "") ≡ false
unfolding picking setup_of
pick_named = refl

compile_judgment_agrees_example :
    compile_judgment pick (some people) (some (routing_id picking pick)) [] ≡ ok pick_question
compile_judgment_agrees_example =
    compile_judgment_agrees picking pick [] (some people) visited visited pick_question pick-visited
      picked refl pick_named
