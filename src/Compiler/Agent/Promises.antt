-- ===== src/Compiler/Agent/Promises.antt =====
-- compiler.py, `compile_agent`: what a compiled program promises to those who run it.
use jev_frame.Prelude.{
  ◌≤◌, String, true, ◌&&◌, [], ◌∷◌, length, all, all-map, All, All-map, ◌≡◌, arith, string_eq,
  subst, ◌∙◌, sym, ap,
}
use jev_frame.Prelude.Dict.{Dict, values}
use jev_frame.Errors.{Error, Result, ok, raise}
use jev_frame.State.Value.{Value}
use jev_frame.Definitions.Agents.{AgentDefinition}
use jev_frame.Compiler.Diagnostics.{NodeId, judge, node_eq}
use jev_frame.Compiler.Program.{CompiledQuestion, CompiledProgram}
use jev_frame.Compiler.Questions.{is_nil}
use jev_frame.Compiler.Agent.{Options, compile_agent}
use jev_frame.Compiler.Search.Invariant.{IsQuestion, is_resolved, reports}
use jev_frame.Compiler.Agent.Refusing.{IsRefusal}
use jev_frame.Compiler.Stages.Ordered.{AreStages}
use jev_frame.Compiler.Agent.Compiled.{
  IsChecked, Searched, compile_agent-Outcome, inv_ok, inv_raise, nodes_follow, nodes_follow-values,
  lacks_nothing, lacks_nothing-values,
}

All-values :
    {A : Type 0} (P : A → Type 0) (d : Dict String A) → All (λ e. P e.1) d → All P (values d)
All-values P [] h = tt
All-values P ((k, v) ∷ d) h = (h.0, All-values P d h.1)

nodes-All :
    {A : Type 0} (P : A → Type 0) (d : Dict NodeId A) → All (λ e. P e.1) d → All P (values d)
nodes-All P [] h = tt
nodes-All P ((k, v) ∷ d) h = (h.0, nodes-All P d h.1)

module _ (validate : Value → Result Value) (d : AgentDefinition) (o : Options)
    (h : IsChecked d) where
  -- The compilation of a checked definition comes to an end, and what it raises is a
  -- `DefinitionError` about the revision, a `CompilerError` with a diagnostic, or the error of the
  -- validation of an input.
  pub compile_agent-raise :
      (e : Error) → compile_agent validate d o ≡ raise e → IsRefusal validate e
  compile_agent-raise e r =
      inv_raise validate (compile_agent validate d o) e (compile_agent-Outcome validate d o h) r

  module _ (p : CompiledProgram) (r : compile_agent validate d o ≡ ok p) where
    found_program : Searched p
    found_program =
        inv_ok validate (compile_agent validate d o) p (compile_agent-Outcome validate d o h) r

    -- Each node of the program stands behind all the nodes that it depends on.
    pub compile_agent-follows : nodes_follow [] p.nodes ≡ true
    compile_agent-follows =
        let s = found_program in
        ap (nodes_follow []) s.nodes_same
        ∙ nodes_follow-values [] s.state.nodes s.ready.nodes_well.named s.ready.nodes_well.ordered

    -- No question of the program has more than 255 options or more than 10 levels.
    pub compile_agent-bounded :
        All (λ q. (length q.options ≤ 255) × (length q.score_levels ≤ 10)) p.questions
    compile_agent-bounded =
        let s = found_program in
        subst (All (λ q. (length q.options ≤ 255) × (length q.score_levels ≤ 10)))
          (sym s.questions_same)
          (All-values _ s.state.questions (
            All-map _ _ s.state.questions (λ e w. (w.options_bound, w.levels_bound))
              s.ready.questions_well))

    -- The stages have increasing indices, every question of the program stands in one, and a
    -- question whose judgment depends on another stands in a stage with a greater index than the
    -- other.
    pub compile_agent-AreStages : AreStages p.questions p.stages
    compile_agent-AreStages =
        let s = found_program in subst (λ qs. AreStages qs p.stages) (sym s.questions_same) s.staged

    -- A node for a judgment or a tool that lacks nothing depends on no node that lacks something.
    pub compile_agent-honest :
        All
          (λ n.
            (reports n.kind && is_nil n.unresolved) ≡ true
            → all (lacks_nothing p.nodes) n.dependencies ≡ true)
          p.nodes
    compile_agent-honest =
        let s = found_program in
        subst
          (λ ns.
            All
              (λ n.
                (reports n.kind && is_nil n.unresolved) ≡ true
                → all (lacks_nothing ns) n.dependencies ≡ true)
              ns)
          (sym s.nodes_same)
          (nodes-All _ s.state.nodes (
            All-map _ _ s.state.nodes
              (λ e w full.
                all-map (λ i. is_resolved i s.state.nodes) (lacks_nothing (values s.state.nodes))
                  e.1.dependencies
                  (λ i f. lacks_nothing-values i s.state.nodes s.ready.nodes_well.named ∙ f)
                  (ground arith))
              s.ready.nodes_well.honest))

    dispatched :
        (s : Searched p) (i : String) (q : CompiledQuestion)
        → IsQuestion s.setup s.state.nodes s.state.questions i q
        → q.dispatchable ≡ true
        → lacks_nothing p.nodes (judge q.judgment_id) ≡ true
    dispatched s i q w can =
        let e = w.resolved can in
        ap (λ ns. lacks_nothing ns (judge q.judgment_id)) s.nodes_same
        ∙ (lacks_nothing-values (judge q.judgment_id) s.state.nodes s.ready.nodes_well.named
            ∙ (ap (λ k. is_resolved (judge k) s.state.nodes) w.asks ∙ e))

    -- For a question that can be dispatched there is a node of its judgment, which lacks nothing.
    pub compile_agent-dispatchable :
        All
          (λ q. q.dispatchable ≡ true → lacks_nothing p.nodes (judge q.judgment_id) ≡ true)
          p.questions
    compile_agent-dispatchable =
        let s = found_program in
        subst
          (All (λ q. q.dispatchable ≡ true → lacks_nothing p.nodes (judge q.judgment_id) ≡ true))
          (sym s.questions_same)
          (All-values _ s.state.questions
            (All-map _ _ s.state.questions (λ e w. dispatched s e.0 e.1 w) s.ready.questions_well))
