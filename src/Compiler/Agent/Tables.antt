-- ===== src/Compiler/Agent/Tables.antt =====
-- compiler.py, `_Compiler.__init__`: the tables of a checked definition are sound.
use jev_frame.Prelude.{
  String, true, List, [], ◌∷◌, all, all-All, All, All-map, ◌≡◌, refl, arith, string_eq, sym, ◌∙◌,
}
use jev_frame.Prelude.Set.{has, subset}
use jev_frame.Prelude.Dict.{Dict, contains, keys, values, All-lookup, has-keys}
use jev_frame.Errors.{ok}
use jev_frame.Definitions.Tools.{
  Tool, Binding, task_input, host_context, constant, default, candidate_binding, source_binding,
  derivation_binding, judgment_binding, generated_binding,
}
use jev_frame.Definitions.Agents.{
  Judgment, AgentDefinition, all_tools, all_judgments, tool_ids, judgment_ids, check_judgments,
  check_tools, is_known,
}
use jev_frame.Compiler.Steps.{Setup}
use jev_frame.Compiler.Agent.{Options, by_id, setup_of, outside}
use jev_frame.Compiler.Search.Invariant.{IsSound, is_bound}
use jev_frame.Compiler.Agent.Sound.{
  is_tool, by_id-All, contains-by_id, unique-by_id, items_found, producers_from-Known, values-All,
}

subset-All : (s t : List String) → subset s t ≡ true → All (λ x. has x t ≡ true) s
subset-All [] t h = tt
subset-All (x ∷ s) t h = (ground arith, subset-All s t (ground arith))

checked_judgments :
    (known policies : List String) (js : List Judgment)
    → check_judgments known policies js ≡ ok tt
    → All (λ j. All (λ k. has k known ≡ true) j.dependencies) js
unfolding check_judgments
checked_judgments known policies [] h = tt
checked_judgments known policies (j ∷ js) h = (
  subset-All j.dependencies known (ground arith),
  checked_judgments known policies js (ground arith),
)

checked_tools :
    (judgments tools : List String) (ts : List Tool)
    → check_tools judgments tools ts ≡ ok tt
    → All (λ t. all (is_known judgments tools) (values t.bindings) ≡ true) ts
unfolding check_tools
checked_tools judgments tools [] h = tt
checked_tools judgments tools (t ∷ ts) h =
    (ground arith, checked_tools judgments tools ts (ground arith))

outside-All : (xs known : List String) → outside xs known ≡ [] → All (λ x. has x known ≡ true) xs
outside-All [] known h = tt
outside-All (x ∷ xs) known h = (ground arith, outside-All xs known (ground arith))

both_All :
    {A : Type 0} (P Q : A → Type 0) (xs : List A) → All P xs → All Q xs → All (λ x. P x × Q x) xs
both_All P Q [] p q = tt
both_All P Q (x ∷ xs) p q = ((p.0, q.0), both_All P Q xs p.1 q.1)

module _ (d : AgentDefinition) (o : Options) where
  abbrev table : Setup
  unfolding setup_of
  table = setup_of d o

  judgment_there :
      (k : String)
      → has k (judgment_ids (all_judgments d)) ≡ true
      → contains k table.judgments ≡ true
  unfolding setup_of
  judgment_there k h =
      ground (arith, contains-by_id (λ (j : Judgment). j.id) k (all_judgments d) [])

  bound_too :
      (b : Binding)
      → is_known (judgment_ids (all_judgments d)) (tool_ids (all_tools d)) b ≡ true
      → is_bound table b ≡ true
  bound_too (judgment_binding k) h = judgment_there k h
  bound_too (task_input path) h = refl
  bound_too (host_context key) h = refl
  bound_too (constant v) h = refl
  bound_too default h = refl
  bound_too (candidate_binding s t) h = refl
  bound_too (source_binding s l) h = refl
  bound_too (derivation_binding t is) h = refl
  bound_too (generated_binding t) h = refl

  bindings_too :
      (bs : Dict String Binding)
      → all (is_known (judgment_ids (all_judgments d)) (tool_ids (all_tools d))) (values bs) ≡ true
      → All (λ b. is_bound table b.1 ≡ true) bs
  bindings_too [] h = tt
  bindings_too ((k, b) ∷ bs) h = (bound_too b (ground arith), bindings_too bs (ground arith))

  group_names :
      (t : Tool) (group : List String)
      → subset group (keys t.bindings) ≡ true
      → All (λ name. contains name t.bindings ≡ true) group
  group_names t group h =
      All-map _ _ group (λ name m. sym (has-keys name t.bindings) ∙ m)
        (subset-All group (keys t.bindings) h)

  abbrev IsToolHere : Tool → Type 0
  IsToolHere t =
      (is_tool t ≡ true)
      × (all (is_known (judgment_ids (all_judgments d)) (tool_ids (all_tools d)))
            (values t.bindings)
          ≡ true)

  pub table-IsSound :
      check_judgments (judgment_ids (all_judgments d)) d.acceptance_policies (all_judgments d)
        ≡ ok tt
      → check_tools (judgment_ids (all_judgments d)) (tool_ids (all_tools d)) (all_tools d) ≡ ok tt
      → All (λ t. is_tool t ≡ true) (all_tools d)
      → outside o.capability_revision (tool_ids (all_tools d)) ≡ []
      → IsSound (setup_of d o)
  unfolding setup_of
  table-IsSound hj ht well roots =
      let js =
        by_id-All (λ (j : Judgment). j.id)
          (λ j. All (λ k. has k (judgment_ids (all_judgments d)) ≡ true) j.dependencies)
          (all_judgments d) [] (checked_judgments _ _ (all_judgments d) hj) tt in
      let ts =
        by_id-All (λ (t : Tool). t.id) IsToolHere (all_tools d) []
          (both_All _ _ (all_tools d) well (checked_tools _ _ (all_tools d) ht)) tt in
      let distinct = unique-by_id (λ (t : Tool). t.id) (all_tools d) [] refl in
      let tools = by_id (λ (t : Tool). t.id) (all_tools d) [] in
      let found_ = items_found (λ (t : Tool). t.id) tools tools (λ k h. refl) distinct in
      let here = both_All _ _ tools (All-map _ (λ e. e.1.id ≡ e.0) tools (λ e h. h.0) ts) found_ in
      record {
        judgments_named = λ k j e. (All-lookup _ k j table.judgments e js).0;
        tools_named = λ k t e. (All-lookup _ k t tools e ts).0;
        producers_known = λ r us e.
            All-lookup _ r us table.producers e
              (producers_from-Known tools (values tools) [] (values-All tools tools here) tt);
        dependencies_known = λ k j e.
            All-map _ _ j.dependencies judgment_there (All-lookup _ k j table.judgments e js).1;
        bindings_known = λ k t e. bindings_too t.bindings (All-lookup _ k t tools e ts).1.1;
        parameters_unique = λ k t e. let well_ = (All-lookup _ k t tools e ts).1.0 in ground arith;
        groups_known = λ k t e.
            let well_ = (All-lookup _ k t tools e ts).1.0 in
            All-map _ _ t.binding_groups (group_names t)
              (all-All (λ group. subset group (keys t.bindings)) t.binding_groups (ground arith));
        roots_known =
            All-map _ _ o.capability_revision
              (λ k h. ground (arith, contains-by_id (λ (t : Tool). t.id) k (all_tools d) []))
              (outside-All o.capability_revision (tool_ids (all_tools d)) roots);
      }
