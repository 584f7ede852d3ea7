-- ===== src/Compiler/Search/Searching.antt =====
-- compiler.py: the search comes to an end, and leaves nodes in order.
use jev_frame.Prelude.{
  ℕ, zero, suc, ◌+◌, ◌<◌, String, true, false, List, [], ◌∷◌, ◌++◌, none, some, length,
  length-append, length-map, All, All-all, all-append, ◌≡◌, refl, arith, inl, inr, Bool-cases,
  Option-cases, string_eq, subst, sym, ◌∙◌, ==_refl, map,
}
use jev_frame.Prelude.Set.{has, add, from_keys, all-from_keys, length-unique}
use jev_frame.Prelude.Dict.{Dict, lookup, contains, keys, contains-insert, length-keys}
use jev_frame.Errors.{Result}
use jev_frame.Definitions.Tools.{Tool, Binding}
use jev_frame.Compiler.Diagnostics.{NodeId, derive, judge, invoke, complete, node_eq}
use jev_frame.Compiler.Program.{CompiledNode}
use jev_frame.Compiler.Steps.{Setup, Compiling}
use jev_frame.Compiler.Needs.{judgment_target, tool_target, add_node}
use jev_frame.Compiler.Visits.{
  enter, visit, visit_judgment, visit_tool, visit_depth, judgment_body, tool_body,
}
use jev_frame.Compiler.Search.{blank, completion_node, roots, visit_root, compile_nodes}
use jev_frame.Compiler.Search.Invariant.{marks, IsSound, IsReady, After, contains-kept, made_within}
use jev_frame.Compiler.Search.Post.{
  Post, Post-bind, Post-modify, Post-found, Post-weaken, Post-for_each, Post-relax,
}
use jev_frame.Compiler.Search.Adding.{After-add_node}
use jev_frame.Compiler.Search.Asking.{AllMade, AllMade-kept, ne-none_of_contains}
use jev_frame.Compiler.Search.Needing.{Made}
use jev_frame.Compiler.Search.Reaching.{Works, resolve_needs-Post}
use jev_frame.Compiler.Search.Judging.{judgment_body-Post}
use jev_frame.Compiler.Search.Invoking.{tool_body-Post}
use jev_frame.Compiler.Search.Frame.{
  AreMarks, has-marks, no_provider, AreMarks-add, length-add, once-Post,
}

absent : (i : NodeId) (d : Dict NodeId CompiledNode) → contains i d ≡ false → lookup i d ≡ none
absent i d h = elim (Option-cases (lookup i d)) [ inl e ↦ e | inr (n, e) ↦ absurd (ground arith) ]

module _ (c : Setup) (sound : IsSound c) where
  -- Before a tool is visited, nothing is derived for it.
  underived :
      (t : Tool) (s : Compiling) (outer : List NodeId) (bindings : Dict String Binding)
      → IsReady c outer s
      → has (invoke t.id) outer ≡ false
      → contains (invoke t.id) s.nodes ≡ false
      → All (λ b. lookup (derive t.id b.0) s.nodes ≡ none) bindings
  underived t s outer [] r apart new = tt
  underived t s outer ((p, b) ∷ bindings) r apart new = (
    absent (derive t.id p) s.nodes (elim (Bool-cases (contains (derive t.id p) s.nodes)) [
      | inr no_ ↦ no_
      | inl there ↦
          let all_ = r.owned (derive t.id p) there in
          let outside : has (invoke t.id) s.visiting ≡ false =
            subst (λ l. has (invoke t.id) l ≡ false) (sym r.within_same) apart in
          absurd (ground arith)
    ]),
    underived t s outer bindings r apart new,
  )

  -- A search that is deep enough for the marks that are left does its work.
  pub visit-Works :
      (depth : ℕ) (within : List NodeId)
      → AreMarks c within
      → length (marks c) < depth + length within
      → Works c within (visit c depth)
  unfolding visit visit_judgment visit_tool
  visit-Works zero within a enough t known s r =
      absurd (omega (arith, length-unique within (marks c) a.once_each a.registered))
  visit-Works (suc depth) within a enough (judgment_target j) known s r =
      once-Post c within (judge j.id) refl _ (judgment_body c (visit c depth) j) s r
        (λ apart new ready.
          let marked =
            AreMarks-add c (judge j.id) within (has-marks c (judgment_target j) known) a in
          judgment_body-Post c sound within j known apart
            (no_provider c (add (judge j.id) within) marked.registered) (visit c depth)
            (visit-Works depth (add (judge j.id) within) marked
              (omega (arith, length-add (judge j.id) within apart)))
            (enter (judge j.id) s) ready (absent (judge j.id) s.nodes new))
  visit-Works (suc depth) within a enough (tool_target t) known s r =
      once-Post c within (invoke t.id) refl _ (tool_body c (visit c depth) t) s r
        (λ apart new ready.
          let marked = AreMarks-add c (invoke t.id) within (has-marks c (tool_target t) known) a in
          tool_body-Post c sound within t known apart
            (no_provider c (add (invoke t.id) within) marked.registered) (visit c depth)
            (visit-Works depth (add (invoke t.id) within) marked
              (omega (arith, length-add (invoke t.id) within apart)))
            (enter (invoke t.id) s) ready (absent (invoke t.id) s.nodes new)
            (underived t s within t.bindings r apart new))

  no_marks : AreMarks c []
  no_marks = record { once_each = refl; registered = refl }

  length-marks : length (marks c) ≡ length c.judgments + length c.tools
  length-marks = omega (
    arith,
    length-append (map judge (keys c.judgments)) (map invoke (keys c.tools)),
    length-map judge (keys c.judgments),
    length-map invoke (keys c.tools),
    length-keys c.judgments,
    length-keys c.tools,
  )

  top_visit-Works : Works c [] (visit c (visit_depth c))
  top_visit-Works = visit-Works (visit_depth c) [] no_marks (omega (arith, length-marks))

  visit_root-Post :
      (capability : String) (s : Compiling)
      → contains capability c.tools ≡ true
      → IsReady c [] s
      → Post c [] (made_within []) s Made (visit_root c capability s)
  unfolding visit_root
  visit_root-Post capability s there r =
      Post-bind c [] _ {P = λ t u. lookup capability c.tools ≡ some t} s _ _
        (Post-found c [] _ s (lookup capability c.tools) r
          (ne-none_of_contains capability c.tools there) (λ t e. e))
        (λ t u a e.
          let same = sound.tools_named capability t e in
          Post-weaken c [] _ u _ (top_visit-Works (tool_target t) (cc) u a.ready) (λ i v b h. h.1))

  blank-IsReady : IsReady c [] blank
  blank-IsReady = record {
    within_same = refl;
    nodes_well = record { named = tt; ordered = refl; honest = tt };
    owned = λ i h. absurd cc;
    previewed = λ p h. absurd cc;
    asked = λ j h. absurd cc;
    questions_well = tt;
  }

  pub compile_nodes-Post : Post c [] (λ i. false) blank (λ x s. Unit {0}) (compile_nodes c blank)
  unfolding compile_nodes
  compile_nodes-Post =
      Post-bind c [] _ blank _ _
        (widened blank (
          resolve_needs-Post c sound [] (λ p. refl) (visit c (visit_depth c)) top_visit-Works
            "completion" (λ _. none) (roots c) blank blank-IsReady))
        (λ needed s a have.
          Post-bind c [] _ s _ _
            (widened s (
              Post-for_each c [] (made_within []) {P = λ r. contains r c.tools ≡ true} {Q = Made} s
                (visit_root c) c.capability_roots (λ i t u b h. contains-kept c [] _ t u i b h)
                (λ r t h ready. visit_root-Post r t h ready) a.ready sound.roots_known))
            (λ tools t b made.
              Post-modify c [] _ t _
                (After-completion (needed ++ tools) t b.ready
                  (made.1 (complete c.definition.id) refl ∙ have.1 (complete c.definition.id) refl)
                  (ground (
                    arith,
                    all-append (λ i. contains i t.nodes) needed tools,
                    AllMade-kept c [] _ needed s t b have.0,
                    All-all (λ i. contains i t.nodes) tools made.0,
                  )))
                tt))
    where
      widened :
          {A : Type 0} {Q : A → Compiling → Type 0} (s : Compiling) {r : Result (A × Compiling)}
          → Post c [] (made_within []) s Q r
          → Post c []
              (λ i. false)
              s
              (λ a u.
                Q a u
                × ((i : NodeId) → made_within [] i ≡ true → lookup i u.nodes ≡ lookup i s.nodes))
              r
      widened s {r} p = Post-relax c [] (made_within []) (λ i. false) s r (λ i h. absurd cc) p

      After-completion :
          (is : List NodeId) (s : Compiling)
          → IsReady c [] s
          → lookup (complete c.definition.id) s.nodes ≡ none
          → AllMade is s
          → After c [] (λ i. false) s (add_node (completion_node c (from_keys [] is)) s)
      After-completion is s r new made =
          let n = completion_node c (from_keys [] is) in
          After-add_node c [] (λ i. false) s n r new
            (all-from_keys (λ i. contains i s.nodes) [] is refl made) refl
            (ground (
              arith,
              contains-insert (complete c.definition.id) (complete c.definition.id) n s.nodes,
              ==_refl c.definition.id,
            ))
            refl (λ p. refl) (λ j. refl)
