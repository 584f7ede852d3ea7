-- ===== src/Compiler/Providers.antt =====
-- compiler.py: the nodes of candidate providers, and the bindings that need no other node.
use jev_frame.Prelude.{
  String, Bool, true, false, List, [], ◌∷◌, Option, none, some, ◌==◌, string_eq, map,
}
use jev_frame.Prelude.Set.{has}
use jev_frame.Prelude.Dict.{lookup, insert, contains}
use jev_frame.Prelude.Text.{join, decimal}
use jev_frame.State.Value.{Value}
use jev_frame.State.Sources.{Part, name, position, follow}
use jev_frame.Definitions.{read}
use jev_frame.Definitions.Agents.{
  Candidate, CandidateSet, CandidateProvider, PlainBinding, task_input, host_context, constant,
  default,
}
use jev_frame.Compiler.Diagnostics.{NodeId, retrieve, node_eq}
use jev_frame.Compiler.Program.{
  CompiledBinding, CompiledNode, retrieval, CompiledOption, CandidatePreview,
}
use jev_frame.Compiler.Steps.{
  Setup, Compiling, Compile, ◌>>=◌, ◌>>◌, pure, gets, modify, choose, by_option, found, for_each,
  report, diagnostic, fail,
}

abbrev part_text : Part → String
part_text (name s) = s
part_text (position n) = decimal n

abbrev path_text : List Part → String
path_text path = join "." (map part_text path)

-- `self.task_input is MISSING or not _read_path(self.task_input, path)`
abbrev is_missing : Option Value → List Part → Bool
is_missing none path = true
is_missing (some v) path = elim (follow path v) [ none ↦ true | some _ ↦ false ]

abbrev compiled_binding : String → String → Option String → CompiledBinding
compiled_binding parameter source reference = record {
  parameter = parameter;
  source = source;
  reference = reference;
}

abbrev pub candidate_option : Candidate → CompiledOption
candidate_option o = record {
  key = o.key;
  description = o.description;
  source_id = some o.source_id;
  source_version = o.source_version;
}

abbrev pub supplied_preview : CandidateSet → CandidatePreview
supplied_preview s = record {
  id = s.id;
  version = some s.version;
  coverage = some s.coverage;
  scope = some s.scope;
  supplied = true;
  options = map candidate_option s.candidates;
}

abbrev missing_preview : String → CandidatePreview
missing_preview provider_id = record {
  id = provider_id;
  version = none;
  coverage = none;
  scope = none;
  supplied = false;
  options = [];
}

module _ (c : Setup) where
  -- `_binding` for the bindings that a provider may have; `owner` is the id of the tool or provider.
  unfoldable pub plain_binding :
      NodeId → (owner parameter : String) → PlainBinding → Compile CompiledBinding
  plain_binding node_id owner parameter (task_input path) = do
    choose (is_missing c.task_input path)
        (report (
          diagnostic c "missing_task_input" (some node_id) (some owner) (some parameter)
            (some (path_text path))))
        (pure tt)
    pure (compiled_binding parameter "task_input" (some (path_text path)))
  plain_binding node_id owner parameter (host_context key) = do
    choose (has key c.host_context_keys) (pure tt) (
        report (
          diagnostic c "missing_host_context" (some node_id) (some owner) (some parameter)
            (some key)))
    pure (compiled_binding parameter "host_context" (some key))
  plain_binding node_id owner parameter (constant v) =
      pure (compiled_binding parameter "constant" none)
  plain_binding node_id owner parameter default = pure (compiled_binding parameter "default" none)

  abbrev provider_unresolved : String → List String
  provider_unresolved provider_id = elim (lookup provider_id c.snapshots) [
    | none ↦ provider_id ∷ []
    | some _ ↦ []
  ]

  unfoldable pub preview : (provider_id subject : String) → Compile CandidatePreview
  preview provider_id subject =
      by_option (lookup provider_id c.snapshots)
        (report (
            diagnostic c "missing_candidate_snapshot" (some (retrieve provider_id)) (some subject)
              none (some provider_id))
          >> pure (missing_preview provider_id))
        (λ s. choose (s.id == provider_id) (pure (supplied_preview s)) (
          fail c "candidate_snapshot_mismatch" (some (retrieve provider_id)) (some subject) none
            (some provider_id)))

  abbrev pub retrieval_node : String → CandidateProvider → List CompiledBinding → CompiledNode
  retrieval_node provider_id p bindings = record {
    id = retrieve provider_id;
    kind = retrieval;
    definition_id = p.id;
    version = p.version;
    dependencies = [];
    outputs = provider_id ∷ [];
    applicability = none;
    effect = some read;
    bindings = bindings;
    unresolved = provider_unresolved provider_id;
  }

  abbrev pub add_provider : String → CandidatePreview → CompiledNode → Compiling → Compiling
  add_provider provider_id view n s = record s {
    candidates = insert provider_id view s.candidates;
    nodes = insert (retrieve provider_id) n s.nodes;
  }

  abbrev pub provider_bindings : CandidateProvider → String → Compile (List CompiledBinding)
  provider_bindings p provider_id =
      for_each (λ b. plain_binding (retrieve provider_id) p.id b.0 b.1) p.bindings

  unfoldable pub visit_provider : (provider_id subject : String) → Compile NodeId
  visit_provider provider_id subject = do
    visited ← gets (λ s. contains (retrieve provider_id) s.nodes)
    choose visited (pure (retrieve provider_id)) (do
      p ← found (lookup provider_id c.providers)
      view ← preview provider_id subject
      bindings ← provider_bindings p provider_id
      modify (add_provider provider_id view (retrieval_node provider_id p bindings))
      pure (retrieve provider_id))
