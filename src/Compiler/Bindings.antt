-- ===== src/Compiler/Bindings.antt =====
-- compiler.py, `_binding` and `_validate_binding_groups`: what a tool's parameters depend on.
use jev_frame.Prelude.{
  String, Bool, true, false, not, ◌&&◌, List, [], ◌∷◌, ◌++◌, Option, none, some, all, ◌==◌,
  string_eq, concat, map,
}
use jev_frame.Prelude.Set.{from_keys}
use jev_frame.Prelude.Dict.{lookup, contains}
use jev_frame.Prelude.Text.{join}
use jev_frame.Definitions.{ToolEffect}
use jev_frame.Definitions.Tools.{
  Tool, Binding, task_input, host_context, constant, default, candidate_binding, source_binding,
  derivation_binding, judgment_binding, generated_binding,
}
use jev_frame.Definitions.Agents.{Judgment, PlainBinding}
use jev_frame.Compiler.Diagnostics.{NodeId, derive, invoke, node_eq}
use jev_frame.Compiler.Program.{CompiledBinding, CompiledNode, derivation}
use jev_frame.Compiler.Steps.{
  Setup, Compile, ◌>>=◌, ◌>>◌, pure, modify, choose, by_option, found, for_each, fail,
}
use jev_frame.Compiler.Providers.{plain_binding, visit_provider}
use jev_frame.Compiler.Questions.{is_nil}
use jev_frame.Compiler.Needs.{
  judgment_target, tool_target, Visit, present, add_node, resolve_needs, visit_named,
}

abbrev pub is_pure : ToolEffect → Bool
is_pure ToolEffect.pure = true
is_pure _ = false

abbrev binding_result : String → String → Option String → CompiledBinding
binding_result parameter source reference = record {
  parameter = parameter;
  source = source;
  reference = reference;
}

-- `(item.snapshot, item.selection)` of a candidate binding
abbrev candidate_pair : Binding → Option (String × String)
candidate_pair (candidate_binding snapshot selection) = some (snapshot, selection)
candidate_pair _ = none

abbrev same_pair : String × String → String × String → Bool
same_pair (s, t) (u, v) = s == u && t == v

-- `len(candidate_bindings) != len(group_bindings) or len(sources) != 1`
abbrev is_mixed : List (Option (String × String)) → Bool
is_mixed [] = false
is_mixed (none ∷ pairs) = not (is_nil (present pairs))
is_mixed (some p ∷ pairs) = not (all (λ o. elim o [ none ↦ false | some q ↦ same_pair p q ]) pairs)

module _ (c : Setup) where
  abbrev pub derivation_node : Tool → String → Tool → List NodeId → CompiledNode
  derivation_node t parameter transformation dependencies = record {
    id = derive t.id parameter;
    kind = derivation;
    definition_id = transformation.id;
    version = transformation.version;
    dependencies = dependencies;
    outputs = concat (t.id ∷ "." ∷ parameter ∷ []) ∷ [];
    applicability = none;
    effect = some ToolEffect.pure;
    bindings = [];
    unresolved = [];
  }

  abbrev refuse : {A : Type 0} → String → Tool → (parameter reference : String) → Compile A
  refuse code t parameter reference =
      fail c code (some (invoke t.id)) (some t.id) (some parameter) (some reference)

  -- The judgment of a candidate binding is a Choice over its candidate set.
  unfoldable pub selection_of : Tool → (parameter snapshot selection : String) → Compile Judgment
  selection_of t parameter snapshot selection =
      by_option (lookup selection c.judgments)
        (refuse "invalid_candidate_selection" t parameter selection)
        (λ j.
          choose (elim j.candidate_set [ none ↦ false | some set ↦ set == snapshot ]) (pure j)
            (refuse "invalid_candidate_selection" t parameter selection))

  unfoldable pub transformation_of : Tool → (parameter transformation : String) → Compile Tool
  transformation_of t parameter transformation =
      by_option (lookup transformation c.tools)
        (refuse "unknown_derivation" t parameter transformation)
        (λ u.
          choose (is_pure u.effect) (pure u)
            (refuse "unknown_derivation" t parameter transformation))

  abbrev pub plain : Tool → String → PlainBinding → Compile (CompiledBinding × List NodeId)
  plain t parameter b = do
    compiled ← plain_binding c (invoke t.id) t.id parameter b
    pure (compiled, [])

  -- `_binding` for a tool: the binding, and the nodes that it depends on.
  unfoldable pub binding : Visit → Tool → String → Binding → Compile (CompiledBinding × List NodeId)
  binding visit t parameter (task_input path) = plain t parameter (PlainBinding.task_input path)
  binding visit t parameter (host_context key) = plain t parameter (PlainBinding.host_context key)
  binding visit t parameter (constant v) = plain t parameter (PlainBinding.constant v)
  binding visit t parameter default = plain t parameter PlainBinding.default
  binding visit t parameter (candidate_binding snapshot selection) = do
    choose (contains snapshot c.providers) (pure tt)
        (refuse "unknown_candidate_provider" t parameter snapshot)
    j ← selection_of t parameter snapshot selection
    p ← visit_provider c snapshot t.id
    i ← visit (judgment_target j)
    pure (
      binding_result parameter "candidate" (some (concat (snapshot ∷ ":" ∷ selection ∷ []))),
      p ∷ i ∷ [],
    )
  binding visit t parameter (source_binding evidence_id locator) = do
    is ← resolve_needs c visit t.id (λ _. some parameter) (evidence_id ∷ [])
    pure (binding_result parameter "source" (some evidence_id), is)
  binding visit t parameter (derivation_binding transformation inputs) = do
    u ← transformation_of t parameter transformation
    is ← resolve_needs c visit t.id (λ _. some parameter) inputs
    i ← visit (tool_target u)
    modify (add_node (derivation_node t parameter u (from_keys [] (is ++ i ∷ []))))
    pure (binding_result parameter "derivation" (some transformation), derive t.id parameter ∷ [])
  binding visit t parameter (judgment_binding judgment_id) = do
    i ← visit_named c visit judgment_id
    pure (binding_result parameter "judgment" (some judgment_id), i ∷ [])
  binding visit t parameter (generated_binding capability) = do
    u ←
        by_option (lookup capability c.tools)
          (refuse "non_executable_capability" t parameter capability) pure
    i ← visit (tool_target u)
    pure (binding_result parameter "generated" (some capability), i ∷ [])

  unfoldable pub check_group : Tool → List String → Compile (Unit {0})
  check_group t group = do
    bindings ← for_each (λ name. found (lookup name t.bindings)) group
    choose (is_mixed (map candidate_pair bindings))
        (fail c "unsafe_binding_group" (some (invoke t.id)) (some t.id) (some (join "," group))
          none)
        (pure tt)

  -- `_validate_binding_groups`
  abbrev pub check_groups : Tool → Compile (Unit {0})
  check_groups t = do done ← for_each (check_group t) t.binding_groups; pure tt
