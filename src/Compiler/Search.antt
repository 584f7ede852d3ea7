-- ===== src/Compiler/Search.antt =====
-- compiler.py, the search of `_Compiler.compile`: from the completion back to all that it needs.
pub mod Invariant
pub mod Post
pub mod Adding
pub mod Asking
pub mod Needing
pub mod Reaching
pub mod Deriving
pub mod Frame
pub mod Judging
pub mod Invoking
pub mod Searching
use jev_frame.Prelude.{String, List, [], ◌++◌, none, string_eq}
use jev_frame.Prelude.Set.{from_keys}
use jev_frame.Prelude.Dict.{lookup, keys, values}
use jev_frame.Compiler.Diagnostics.{NodeId, complete, node_eq}
use jev_frame.Compiler.Program.{CompiledNode, completion}
use jev_frame.Compiler.Steps.{Setup, Compiling, Compile, ◌>>=◌, found, modify, for_each}
use jev_frame.Compiler.Needs.{add_node, resolve_needs, tool_target}
use jev_frame.Compiler.Visits.{visit, visit_depth}

abbrev pub blank : Compiling
blank = record { nodes = []; questions = []; candidates = []; diagnostics = []; visiting = [] }

module _ (c : Setup) where
  abbrev pub completion_node : List NodeId → CompiledNode
  completion_node dependencies = record {
    id = complete c.definition.id;
    kind = completion;
    definition_id = c.definition.id;
    version = c.definition.version;
    dependencies = dependencies;
    outputs = keys c.definition.completion.result_bindings;
    applicability = none;
    effect = none;
    bindings = [];
    unresolved = [];
  }

  abbrev pub roots : List String
  roots =
      from_keys [] (
        c.definition.completion.required_findings ++ values c.definition.completion.result_bindings)

  unfoldable pub visit_root : String → Compile NodeId
  visit_root capability = do
    t ← found (lookup capability c.tools)
    visit c (visit_depth c) (tool_target t)

  -- the search of `compile`, and the node of the completion
  unfoldable pub compile_nodes : Compile (Unit {0})
  unfolding visit_root
  compile_nodes = do
    needed ← resolve_needs c (visit c (visit_depth c)) "completion" (λ _. none) roots
    tools ← for_each visit_root c.capability_roots
    modify (add_node (completion_node (from_keys [] (needed ++ tools))))
