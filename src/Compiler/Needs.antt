-- ===== src/Compiler/Needs.antt =====
-- compiler.py, `resolve_need`: the node that gives a reference. `visit_judgment` and `visit_tool` call
-- each other: here their calls are an argument.
use jev_frame.Prelude.{String, List, [], ◌∷◌, ◌++◌, Option, none, some, string_eq}
use jev_frame.Prelude.Set.{has}
use jev_frame.Prelude.Dict.{lookup, insert, contains}
use jev_frame.Definitions.Tools.{Tool}
use jev_frame.Definitions.Agents.{Judgment}
use jev_frame.Compiler.Diagnostics.{NodeId, judge, node_eq}
use jev_frame.Compiler.Program.{CompiledNode}
use jev_frame.Compiler.Steps.{
  Setup, Compiling, Compile, ◌>>=◌, pure, choose, by_option, found, for_each, fail,
}
use jev_frame.Compiler.Providers.{visit_provider}

-- What the search visits.
pub data Target : Type 0 where
  judgment_target : Judgment → Target
  tool_target : Tool → Target

abbrev pub Visit : Type 0
Visit = Target → Compile NodeId

abbrev pub present : {A : Type 0} → List (Option A) → List A
present [] = []
present (none ∷ xs) = present xs
present (some x ∷ xs) = x ∷ present xs

abbrev pub concat_lists : {A : Type 0} → List (List A) → List A
concat_lists [] = []
concat_lists (xs ∷ xss) = xs ++ concat_lists xss

abbrev pub add_node : CompiledNode → Compiling → Compiling
add_node n s = record s { nodes = insert n.id n s.nodes }

module _ (c : Setup) where
  -- The one producer of a reference.
  unfoldable pub produce :
      Visit → (reference subject : String) → (binding : Option String) → List Tool → Compile NodeId
  produce visit reference subject binding [] =
      fail c "missing_evidence_producer" none (some subject) binding (some reference)
  produce visit reference subject binding (t ∷ []) = visit (tool_target t)
  produce visit reference subject binding (t ∷ u ∷ ts) =
      fail c "ambiguous_evidence_producer" none (some subject) binding (some reference)

  abbrev pub producers_of : String → List Tool
  producers_of reference = elim (lookup reference c.producers) [ none ↦ [] | some ts ↦ ts ]

  unfoldable pub resolve_need :
      Visit → (reference subject : String) → (binding : Option String) → Compile (Option NodeId)
  resolve_need visit reference subject binding =
      choose (has reference c.available_evidence) (pure none) (do
        i ←
            by_option (lookup reference c.judgments)
              (choose (contains reference c.providers) (visit_provider c reference subject)
                (produce visit reference subject binding (producers_of reference)))
              (λ j. visit (judgment_target j))
        pure (some i))

  abbrev pub resolve_needs :
      Visit → (subject : String) → (String → Option String) → List String → Compile (List NodeId)
  resolve_needs visit subject binding references = do
    is ← for_each (λ r. resolve_need visit r subject (binding r)) references
    pure (present is)

  -- `self.visit_judgment(self.judgments[id])`
  unfoldable pub visit_named : Visit → String → Compile NodeId
  visit_named visit id = do j ← found (lookup id c.judgments); visit (judgment_target j)

  unfoldable pub visit_candidates : Judgment → Compile (List NodeId)
  visit_candidates j = by_option j.candidate_set (pure []) (λ set.
      choose (contains set c.providers) (do i ← visit_provider c set j.id; pure (i ∷ []))
        (fail c "unknown_candidate_provider" (some (judge j.id)) (some j.subject) none (some set)))
