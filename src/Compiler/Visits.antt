-- ===== src/Compiler/Visits.antt =====
-- compiler.py, `visit_judgment` and `visit_tool`: the depth-first search for the nodes that a program
-- needs. In the model the search takes a bound on its depth.
use jev_frame.Prelude.{
  ℕ, zero, suc, ◌+◌, String, List, [], ◌∷◌, ◌++◌, none, some, length, ◌==◌, string_eq, map,
  if◌then◌else◌,
}
use jev_frame.Prelude.Set.{has, add, discard, from_keys}
use jev_frame.Prelude.Dict.{lookup, insert, contains}
use jev_frame.Errors.{raise, fuel_exhausted}
use jev_frame.Definitions.Tools.{Tool}
use jev_frame.Definitions.Agents.{Judgment}
use jev_frame.Compiler.Diagnostics.{NodeId, judge, invoke, node_eq, Diagnostic}
use jev_frame.Compiler.Program.{
  CompiledBinding, CompiledNode, CompiledQuestion, judgment, invocation,
}
use jev_frame.Compiler.Steps.{
  Setup, Compiling, Compile, ◌>>=◌, ◌>>◌, pure, gets, modify, choose, found, for_each, fail,
}
use jev_frame.Compiler.Questions.{text_or, question}
use jev_frame.Compiler.Needs.{
  judgment_target, tool_target, Visit, concat_lists, add_node, resolve_needs, visit_named,
  visit_candidates,
}
use jev_frame.Compiler.Bindings.{binding, check_groups}

abbrev pub enter : NodeId → Compiling → Compiling
enter i s = record s { visiting = add i s.visiting }

abbrev pub leave : NodeId → Compiling → Compiling
leave i s = record s { visiting = discard i s.visiting }

-- The frame of both visits: a node is made once, and not while it is being made.
unfoldable pub once : NodeId → (cycle : Compile NodeId) → Compile (Unit {0}) → Compile NodeId
once i cycle body = do
  s ← gets (λ s. s)
  choose (contains i s.nodes) (pure i)
      (choose (has i s.visiting) cycle (do modify (enter i); body; modify (leave i); pure i))

module _ (c : Setup) where
  abbrev pub judgment_node : Judgment → List NodeId → CompiledQuestion → CompiledNode
  judgment_node j dependencies q = record {
    id = judge j.id;
    kind = judgment;
    definition_id = j.id;
    version = j.version;
    dependencies = dependencies;
    outputs = j.id ∷ [];
    applicability = j.applicability;
    effect = none;
    bindings = [];
    unresolved = if q.dispatchable then [] else j.id ∷ [];
  }

  abbrev pub add_question : Judgment → List NodeId → CompiledQuestion → Compiling → Compiling
  add_question j dependencies q s =
      add_node (judgment_node j dependencies q) (record s { questions = insert j.id q s.questions })

  unfoldable pub judgment_body : Visit → Judgment → Compile (Unit {0})
  judgment_body visit j = do
    declared ← for_each (visit_named c visit) j.dependencies
    needed ← resolve_needs c visit j.id (λ e. some e) j.evidence
    offered ← visit_candidates c j
    q ← question c j (from_keys [] (declared ++ (needed ++ offered)))
    modify (add_question j (from_keys [] (declared ++ (needed ++ offered))) q)

  unfoldable pub visit_judgment : Visit → Judgment → Compile NodeId
  visit_judgment visit j =
      once (judge j.id)
        (fail c "dependency_cycle" (some (judge j.id)) (some j.subject) none (some j.id))
        (judgment_body visit j)

  -- What the diagnostics say of a node, and what its dependencies lack.
  abbrev pub noted : NodeId → List Diagnostic → List String
  noted i [] = []
  noted i (d ∷ ds) =
      let rest = noted i ds in
      elim d.node_id [
        | none ↦ rest
        | some j ↦ if j == i then text_or d.reference (text_or d.binding "input") ∷ rest else rest
      ]

  unfoldable pub inherited : List NodeId → Compile (List String)
  inherited is = do
    s ← gets (λ s. s)
    ns ← for_each (λ i. found (lookup i s.nodes)) is
    pure (concat_lists (map (λ (n : CompiledNode). n.unresolved) ns))

  abbrev pub invocation_node :
      Tool → List NodeId → List CompiledBinding → List String → CompiledNode
  invocation_node t dependencies bindings unresolved = record {
    id = invoke t.id;
    kind = invocation;
    definition_id = t.id;
    version = t.version;
    dependencies = dependencies;
    outputs = t.produces_evidence;
    applicability = none;
    effect = some t.effect;
    bindings = bindings;
    unresolved = unresolved;
  }

  abbrev pub compiled_bindings : List (CompiledBinding × List NodeId) → List CompiledBinding
  compiled_bindings = map (λ (b : CompiledBinding × List NodeId). b.0)

  abbrev pub bound_nodes : List (CompiledBinding × List NodeId) → List NodeId
  bound_nodes bs = concat_lists (map (λ (b : CompiledBinding × List NodeId). b.1) bs)

  unfoldable pub tool_body : Visit → Tool → Compile (Unit {0})
  tool_body visit t = do
    needed ← resolve_needs c visit t.id (λ _. none) t.requires_evidence
    bound ← for_each (λ b. binding c visit t b.0 b.1) t.bindings
    check_groups c t
    s ← gets (λ s. s)
    lacking ← inherited (needed ++ bound_nodes bound)
    modify (
        add_node (
          invocation_node t (from_keys [] (needed ++ bound_nodes bound)) (compiled_bindings bound)
            (from_keys [] (noted (invoke t.id) s.diagnostics ++ lacking))))

  unfoldable pub visit_tool : Visit → Tool → Compile NodeId
  visit_tool visit t =
      once (invoke t.id) (fail c "dependency_cycle" (some (invoke t.id)) none none (some t.id))
        (tool_body visit t)

  unfoldable pub visit : (depth : ℕ) → Visit
  visit zero t = λ s. raise fuel_exhausted
  visit (suc depth) (judgment_target j) = visit_judgment (visit depth) j
  visit (suc depth) (tool_target t) = visit_tool (visit depth) t

  -- Each visit within another marks one more judgment or tool.
  abbrev pub visit_depth : ℕ
  visit_depth = suc (length c.judgments + length c.tools)
