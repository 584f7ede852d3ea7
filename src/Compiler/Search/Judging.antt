-- ===== src/Compiler/Search/Judging.antt =====
-- compiler.py: what the visit of a judgment leaves behind.
use jev_frame.Prelude.{
  String, true, false, List, [], ◌++◌, none, some, All, All-map, All-all, all-append, ◌≡◌, refl,
  arith, inl, inr, Bool-cases, string_eq, subst, ◌==◌, ==_iff, sym, ◌∙◌, ==_refl,
}
use jev_frame.Prelude.Set.{has, add, from_keys, has-add, all-from_keys, All-has}
use jev_frame.Prelude.Dict.{lookup, insert, contains, lookup-insert, contains-insert, All-insert}
use jev_frame.Errors.{Result}
use jev_frame.Definitions.Agents.{Judgment}
use jev_frame.Compiler.Diagnostics.{NodeId, retrieve, judge, node_eq}
use jev_frame.Compiler.Program.{CompiledNode, CompiledQuestion}
use jev_frame.Compiler.Steps.{Setup, Compiling, for_each}
use jev_frame.Compiler.Needs.{judgment_target, Visit, visit_named}
use jev_frame.Compiler.Visits.{judgment_node, add_question, judgment_body}
use jev_frame.Compiler.Search.Invariant.{
  IsKnown, IsSound, IsQuestion, IsReady, After, contains-kept, made_within, owner, is_honest,
}
use jev_frame.Compiler.Search.Post.{
  Post, Post-bind, Post-modify, Post-weaken, Post-relax, Post-loop,
}
use jev_frame.Compiler.Search.Adding.{After-add, IsQuestion-kept, lookup-kept}
use jev_frame.Compiler.Search.Asking.{AllMade, AllMade-kept, Asks, question-Post}
use jev_frame.Compiler.Search.Needing.{Made}
use jev_frame.Compiler.Search.Reaching.{
  Works, resolve_needs-Post, visit_named-Post, visit_candidates-Post,
}

module _ (c : Setup) (sound : IsSound c) (outer : List NodeId) (j : Judgment)
    (known : IsKnown c (judgment_target j)) (apart : has (judge j.id) outer ≡ false)
    (no_provider : (p : String) → has (retrieve p) (add (judge j.id) outer) ≡ false) (visit : Visit)
    (works : Works c (add (judge j.id) outer) visit) where
  abbrev inner : List NodeId
  inner = add (judge j.id) outer

  inner_wider : (i : NodeId) → made_within outer i ≡ true → made_within inner i ≡ true
  inner_wider i h = ground (arith, has-add (owner i) (judge j.id) outer)

  self_inner : has (judge j.id) inner ≡ true
  self_inner = ground (arith, has-add (judge j.id) (judge j.id) outer, ==_refl (judge j.id))

  relaxed :
      {A : Type 0} {Q : A → Compiling → Type 0} (s : Compiling) {r : Result (A × Compiling)}
      → Post c inner (made_within inner) s Q r
      → Post c inner
          (made_within outer)
          s
          (λ a u.
            Q a u
            × ((i : NodeId) → made_within inner i ≡ true → lookup i u.nodes ≡ lookup i s.nodes))
          r
  relaxed s {r} p = Post-relax c inner (made_within inner) (made_within outer) s r inner_wider p

  -- The declared dependencies are made, one after the other.
  abbrev Declared : List String → Compiling → Type 0
  Declared rest s =
      All (λ d. contains d c.judgments ≡ true) rest
      × ((d : String) → has d j.dependencies ≡ true → has d rest ≡ false → Made (judge d) s)

  Declared-Post :
      (s : Compiling)
      → IsReady c inner s
      → Post c inner
          (made_within inner)
          s
          (λ is t. Declared [] t × All (λ i. Made i t) is)
          (for_each (visit_named c visit) j.dependencies s)
  Declared-Post s r =
      Post-loop c inner _ {P = Declared} {Q = Made} s (visit_named c visit) j.dependencies
        (λ i t u a h. contains-kept c inner _ t u i a h)
        (λ d rest t h ready.
          Post-weaken c inner _ t _
            (visit_named-Post c sound inner no_provider visit works d t h.0.0 ready)
            (λ i u a made. (
              (
                h.0.1,
                λ e m n. elim (Bool-cases (e == d)) [
                  | inl same ↦
                      subst (λ k. Made (judge k) u) (sym ((==_iff e d).0 same))
                        (subst (λ k. Made k u) made.0 made.1)
                  | inr other ↦ contains-kept c inner _ t u (judge e) a (h.1 e m (ground arith))
                ],
              ),
              made.1,
            )))
        r (sound.dependencies_known j.id j known, λ d m n. absurd cc)

  abbrev node_of : List NodeId → CompiledQuestion → CompiledNode
  node_of is q = judgment_node c j is q

  -- The node and the question of the judgment are added.
  After-question :
      (is : List NodeId) (q : CompiledQuestion) (s : Compiling)
      → IsReady c inner s
      → lookup (judge j.id) s.nodes ≡ none
      → AllMade is s
      → All (λ d. Made (judge d) s) j.dependencies
      → Asks j is q s
      → After c inner (made_within outer) s (add_question c j is q s)
  After-question is q s r new made declared asks =
      let n = node_of is q in
      let nodes' = insert (judge j.id) n s.nodes in
      let qs = insert j.id q s.questions in
      let kept = λ (i : NodeId) (m : CompiledNode). lookup-kept i (judge j.id) m n s.nodes new in
      let more : (k : String) → contains k s.questions ≡ true → contains k qs ≡ true =
        λ k h. ground (arith, contains-insert k j.id q s.questions) in
      After-add c inner (made_within outer) s n r new made (honest is q s asks)
        (ground (arith, contains-insert (judge j.id) (judge j.id) n s.nodes, ==_refl j.id)) apart qs
        s.candidates
        (λ p h. r.previewed p (ground (arith, contains-insert (retrieve p) (judge j.id) n s.nodes)))
        (λ k h. ground (
          arith,
          contains-insert k j.id q s.questions,
          contains-insert (judge k) (judge j.id) n s.nodes,
          r.asked k,
        ))
        (All-insert (λ e. IsQuestion c nodes' qs e.0 e.1) j.id q s.questions
          (record {
            options_bound = asks.options_bound;
            levels_bound = asks.levels_bound;
            asks = asks.asks;
            resolved = λ d.
                ground (arith, lookup-insert (judge j.id) (judge j.id) n s.nodes, ==_refl j.id);
            declared = (j, known, asks.dependencies_same);
            earlier =
                subst (All (λ d. contains d qs ≡ true)) (sym asks.dependencies_same)
                  (All-map _ _ j.dependencies (λ d m. more d (r.asked d m)) declared);
          })
          (All-map _ _ s.questions
            (λ e. IsQuestion-kept c s.nodes nodes' s.questions qs e.0 e.1 kept more)
            r.questions_well))
    where
      honest :
          (is : List NodeId) (q : CompiledQuestion) (s : Compiling)
          → Asks j is q s
          → is_honest s.nodes (node_of is q) ≡ true
      honest is q s asks = elim (Bool-cases q.dispatchable) [
        | inl yes_ ↦ let all_ = asks.resolved yes_ in ground arith
        | inr no_ ↦ ground arith
      ]

  pub judgment_body-Post :
      (s : Compiling)
      → IsReady c inner s
      → lookup (judge j.id) s.nodes ≡ none
      → Post c inner (made_within outer) s (λ x t. Made (judge j.id) t) (judgment_body c visit j s)
  unfolding judgment_body
  judgment_body-Post s r new =
      Post-bind c inner _ s _ _ (relaxed s (Declared-Post s r)) (λ ds t a declared.
        Post-bind c inner _ t _ _
          (relaxed t (
            resolve_needs-Post c sound inner no_provider visit works j.id (λ e. some e) j.evidence t
              a.ready))
          (λ needed u b have.
            Post-bind c inner _ u _ _
              (relaxed u (visit_candidates-Post c sound inner no_provider visit works j u b.ready))
              (λ offered v d have'.
                let is = from_keys [] (ds ++ (needed ++ offered)) in
                let made : AllMade is v =
                  all-from_keys (λ i. contains i v.nodes) [] (ds ++ (needed ++ offered)) refl
                    (gathered ds needed offered v
                      (AllMade-kept c inner _ ds u v d
                        (AllMade-kept c inner _ ds t u b (All-all _ ds declared.0.1)))
                      (AllMade-kept c inner _ needed u v d have.0) have'.0.0) in
                Post-bind c inner _ v _ _
                  (relaxed v
                    (question-Post c inner (made_within inner) j is v d.ready made have'.0.1))
                  (λ q w e asks.
                    Post-modify c inner _ w (add_question c j is q)
                      (After-question is q w e.ready
                        (asks.1 (judge j.id) self_inner
                          ∙ (have'.1 (judge j.id) self_inner
                              ∙ (have.1 (judge j.id) self_inner
                                  ∙ (declared.1 (judge j.id) self_inner ∙ new))))
                        (AllMade-kept c inner _ is v w e made)
                        (All-has (λ k. Made (judge k) w) j.dependencies
                          (λ k m. contains-kept c inner _ v w (judge k) e (
                            contains-kept c inner _ u v (judge k) d
                              (contains-kept c inner _ t u (judge k) b (declared.0.0.1 k m refl)))))
                        asks.0)
                      (ground (
                        arith,
                        contains-insert (judge j.id) (judge j.id) (node_of is q) w.nodes,
                        ==_refl j.id,
                      ))))))
    where
      gathered :
          (ds needed offered : List NodeId) (v : Compiling)
          → AllMade ds v
          → AllMade needed v
          → AllMade offered v
          → AllMade (ds ++ (needed ++ offered)) v
      gathered ds needed offered v h k l = ground (
        arith,
        all-append (λ i. contains i v.nodes) ds (needed ++ offered),
        all-append (λ i. contains i v.nodes) needed offered,
      )
