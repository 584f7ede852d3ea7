-- ===== src/Compiler/Agent/Compiled.antt =====
-- compiler.py, `compile_agent`: what holds of a compiled program.
use jev_frame.Prelude.{
  Bool, true, false, ◌&&◌, List, [], ◌∷◌, Option, none, some, all, All, ◌≡◌, refl, arith, inl, inr,
  string_eq, ◌==◌, subst, ◌∙◌, ap, if◌then◌else◌,
}
use jev_frame.Prelude.Set.{has}
use jev_frame.Prelude.Dict.{Dict, lookup, keys, values}
use jev_frame.Errors.{Error, Result, ok, raise, Result-cases, ◌>>=◌}
use jev_frame.State.Value.{Value}
use jev_frame.Definitions.Agents.{
  AgentDefinition, all_tools, all_judgments, tool_ids, judgment_ids, check_judgments, check_tools,
  check_agent_definition,
}
use jev_frame.Compiler.Diagnostics.{NodeId, node_eq}
use jev_frame.Compiler.Program.{CompiledNode, CompiledProgram}
use jev_frame.Compiler.Steps.{Setup, Compiling}
use jev_frame.Compiler.Questions.{is_nil}
use jev_frame.Compiler.Search.{blank, compile_nodes}
use jev_frame.Compiler.Stages.{stages}
use jev_frame.Compiler.Agent.{
  Options, setup_of, outside, check_revision, check_input, check_setup, check_output, program_of,
  compile, compile_checked, compile_agent,
}
use jev_frame.Compiler.Search.Invariant.{IsSound, IsReady, follows, is_resolved}
use jev_frame.Compiler.Search.Post.{Post, returned, raised}
use jev_frame.Compiler.Search.Searching.{compile_nodes-Post}
use jev_frame.Compiler.Agent.Sound.{is_tool}
use jev_frame.Compiler.Agent.Tables.{table-IsSound}
use jev_frame.Compiler.Agent.Refusing.{
  IsRefusal, diagnosed, Checks, passes, stops, Checks-input, Checks-output, Checks-setup,
  Checks-revision,
}
use jev_frame.Compiler.Stages.Ordered.{AreStages, stages-AreStages}

-- What `AgentDefinition` and `Tool` make sure of when they are made.
pub record IsChecked (d : AgentDefinition) : Type 0 where
  pub definition_passes : check_agent_definition d ≡ ok d
  pub tools_pass : All (λ t. is_tool t ≡ true) (all_tools d)

-- The state in which a search has ended.
pub record Searched (p : CompiledProgram) : Type 0 where
  pub setup : Setup
  pub state : Compiling
  pub sound : IsSound setup
  pub ready : IsReady setup [] state
  pub staged : AreStages (values state.questions) p.stages
  pub nodes_same : p.nodes ≡ values state.nodes
  pub questions_same : p.questions ≡ values state.questions

pub data Outcome (validate : Value → Result Value) : Result CompiledProgram → Type 0 where
  compiled : (p : CompiledProgram) → Searched p → Outcome validate (ok p)
  refused : (e : Error) → IsRefusal validate e → Outcome validate (raise e)

judgments_checked :
    (d : AgentDefinition)
    → IsChecked d
    → check_judgments (judgment_ids (all_judgments d)) d.acceptance_policies (all_judgments d)
      ≡ ok tt
unfolding check_agent_definition
judgments_checked d h =
    let passes_ = h.definition_passes in
    elim (Result-cases
      (check_judgments (judgment_ids (all_judgments d)) d.acceptance_policies (all_judgments d))) [
        | inl (tt, e) ↦ e
        | inr (x, e) ↦ absurd (ground arith)
      ]

tools_checked :
    (d : AgentDefinition)
    → IsChecked d
    → check_tools (judgment_ids (all_judgments d)) (tool_ids (all_tools d)) (all_tools d) ≡ ok tt
unfolding check_agent_definition
tools_checked d h =
    let passes_ = h.definition_passes in
    elim (Result-cases
      (check_tools (judgment_ids (all_judgments d)) (tool_ids (all_tools d)) (all_tools d))) [
        | inl (tt, e) ↦ e
        | inr (x, e) ↦ absurd (ground arith)
      ]

module _ (validate : Value → Result Value) where
  Outcome-bind :
      {A : Type 0} (P : A → Type 0) (r : Result A) (f : A → Result CompiledProgram)
      → Checks validate P r
      → ((a : A) → P a → Outcome validate (f a))
      → Outcome validate (r >>= f)
  Outcome-bind P r f (passes a p) k = k a p
  Outcome-bind P r f (stops e h) k = refused e h

  -- What the search and the stages make of a sound setup.
  searched :
      (c : Setup) (r : Result (Unit {0} × Compiling))
      → IsSound c
      → Post c [] (λ i. false) blank (λ x s. Unit {0}) r
      → Outcome validate (r >>= λ (done, s). stages c s.questions >>= λ es. ok (program_of c s es))
  unfolding program_of
  searched c r sound (returned x s a t) =
      elim (stages-AreStages c sound s.nodes s.questions a.ready.questions_well) [
        | inl (es, e, staged) ↦ rw e (
            compiled _ (record {
              setup = c;
              state = s;
              sound = sound;
              ready = a.ready;
              staged = staged;
              nodes_same = refl;
              questions_same = refl;
            }))
        | inr (d, e) ↦ rw e (refused _ (diagnosed validate d))
      ]
  searched c r sound (raised d) = refused _ (diagnosed validate d)

  same-IsSound : (c : Setup) (o : Option Value) → IsSound c → IsSound (record c { task_input = o })
  same-IsSound c o h = record {
    judgments_named = h.judgments_named;
    tools_named = h.tools_named;
    producers_known = h.producers_known;
    dependencies_known = h.dependencies_known;
    bindings_known = h.bindings_known;
    parameters_unique = h.parameters_unique;
    groups_known = h.groups_known;
    roots_known = h.roots_known;
  }

  compile_checked-Outcome : (c : Setup) → IsSound c → Outcome validate (compile_checked c)
  unfolding compile_checked
  compile_checked-Outcome c sound =
      Outcome-bind _
        (check_output c (keys c.definition.completion.result_bindings) c.definition.output_fields) _
        (Checks-output validate c (keys c.definition.completion.result_bindings)
          c.definition.output_fields)
        (λ y r. searched c (compile_nodes c blank) sound (compile_nodes-Post c sound))

  compile-Outcome : (c : Setup) → IsSound c → Outcome validate (compile validate c)
  unfolding compile
  compile-Outcome c sound = Outcome-bind _ (check_setup c) _ (Checks-setup validate c) (λ x p.
      Outcome-bind _ (check_input validate c.task_input) _ (Checks-input validate c.task_input)
        (λ input q.
          compile_checked-Outcome (record c { task_input = input }) (same-IsSound c input sound)))

  pub compile_agent-Outcome :
      (d : AgentDefinition) (o : Options)
      → IsChecked d
      → Outcome validate (compile_agent validate d o)
  unfolding compile_agent
  compile_agent-Outcome d o h =
      Outcome-bind _ (check_revision d o.capability_revision o.max_revision_steps) _
        (Checks-revision validate d o.capability_revision o.max_revision_steps)
        (λ roots same. compile-Outcome (setup_of d (record o { capability_revision = roots })) (
          table-IsSound d (record o { capability_revision = roots }) (judgments_checked d h)
            (tools_checked d h) h.tools_pass
            (ap (λ ids. outside ids (tool_ids (all_tools d))) same.0 ∙ same.1)))

pub inv_ok :
    (validate : Value → Result Value) (r : Result CompiledProgram) (p : CompiledProgram)
    → Outcome validate r
    → r ≡ ok p
    → Searched p
inv_ok validate r p (compiled q s) e = let same : q ≡ p = cc in subst Searched same s
inv_ok validate r p (refused x h) e = absurd cc

pub inv_raise :
    (validate : Value → Result Value) (r : Result CompiledProgram) (x : Error)
    → Outcome validate r
    → r ≡ raise x
    → IsRefusal validate x
inv_raise validate r x (compiled q s) e = absurd cc
inv_raise validate r x (refused y h) e = let same : y ≡ x = cc in subst (IsRefusal validate) same h

-- In an order of nodes each stands behind all that it depends on.
abbrev pub nodes_follow : List NodeId → List CompiledNode → Bool
nodes_follow done [] = true
nodes_follow done (n ∷ ns) = all (λ i. has i done) n.dependencies && nodes_follow (n.id ∷ done) ns

pub nodes_follow-values :
    (done : List NodeId) (d : Dict NodeId CompiledNode)
    → All (λ e. e.1.id ≡ e.0) d
    → follows done d ≡ true
    → nodes_follow done (values d) ≡ true
nodes_follow-values done [] a h = refl
nodes_follow-values done ((i, n) ∷ d) a h =
    let rest = nodes_follow-values (i ∷ done) d a.1 (ground arith) in
    let same : nodes_follow (n.id ∷ done) (values d) ≡ nodes_follow (i ∷ done) (values d) =
      ap (λ k. nodes_follow (k ∷ done) (values d)) a.0 in
    ground arith

-- the first node with an id
abbrev pub find_node : NodeId → List CompiledNode → Option CompiledNode
find_node i [] = none
find_node i (n ∷ ns) = if i == n.id then some n else find_node i ns

-- Whether the node with an id is there and lacks nothing.
abbrev pub lacks_nothing : List CompiledNode → NodeId → Bool
lacks_nothing ns i = elim (find_node i ns) [ none ↦ false | some n ↦ is_nil n.unresolved ]

pub find_node-values :
    (i : NodeId) (d : Dict NodeId CompiledNode)
    → All (λ e. e.1.id ≡ e.0) d
    → find_node i (values d) ≡ lookup i d
find_node-values i [] a = refl
find_node-values i ((k, n) ∷ d) a =
    let rest = find_node-values i d a.1 in
    let same : (i == n.id) ≡ (i == k) = ap (λ j. i == j) a.0 in ground arith

pub lacks_nothing-values :
    (i : NodeId) (d : Dict NodeId CompiledNode)
    → All (λ e. e.1.id ≡ e.0) d
    → lacks_nothing (values d) i ≡ is_resolved i d
lacks_nothing-values i d a = let e = find_node-values i d a in ground arith
