-- ===== src/Compiler/Search/Deriving.antt =====
-- compiler.py: what the bindings of a tool leave behind, for visits that do their work.
use jev_frame.Prelude.{
  String, Bool, true, false, not, ◌&&◌, ◌||◌, List, [], ◌∷◌, ◌++◌, none, some, all-append, ◌≡◌,
  refl, arith, string_eq, subst, ◌==◌, ==_iff, sym, ◌∙◌, ==_refl,
}
use jev_frame.Prelude.Set.{has, from_keys, all-from_keys}
use jev_frame.Prelude.Dict.{lookup, contains, contains-insert}
use jev_frame.Errors.{Result}
use jev_frame.Definitions.Tools.{
  Tool, Binding, task_input, host_context, constant, default, candidate_binding, source_binding,
  derivation_binding, judgment_binding, generated_binding,
}
use jev_frame.Definitions.Agents.{PlainBinding}
use jev_frame.Compiler.Diagnostics.{NodeId, retrieve, derive, invoke, node_eq}
use jev_frame.Compiler.Program.{CompiledBinding}
use jev_frame.Compiler.Steps.{Setup, Compiling, Compile}
use jev_frame.Compiler.Needs.{judgment_target, tool_target, Visit, add_node}
use jev_frame.Compiler.Bindings.{binding, plain, selection_of, transformation_of, derivation_node}
use jev_frame.Compiler.Search.Invariant.{
  IsKnown, IsSound, is_bound, IsReady, After, contains-kept, made_within, owner,
}
use jev_frame.Compiler.Search.Post.{
  Post, Post-bind, Post-pure, Post-modify, Post-choose, Post-option, Post-fail, Post-weaken,
  Post-relax,
}
use jev_frame.Compiler.Search.Adding.{After-add_node}
use jev_frame.Compiler.Search.Asking.{AllMade, AllMade-kept}
use jev_frame.Compiler.Search.Needing.{Made, plain_binding-Post, visit_provider-Post}
use jev_frame.Compiler.Search.Reaching.{Works, resolve_needs-Post, visit_named-Post}

-- The nodes that a binding of the tool does not make, where `outer` is visited around it.
abbrev pub besides : Tool → String → List NodeId → NodeId → Bool
besides t parameter outer i =
    made_within outer i || (owner i == invoke t.id && not (i == derive t.id parameter))

module _ (c : Setup) (sound : IsSound c) (within : List NodeId)
    (no_provider : (p : String) → has (retrieve p) within ≡ false) (visit : Visit)
    (works : Works c within visit) (t : Tool) (outer : List NodeId)
    (inside : has (invoke t.id) within ≡ true) (outside : has (invoke t.id) outer ≡ false)
    (wider : (i : NodeId) → has i outer ≡ true → has i within ≡ true) where
  abbrev Spares : {A : Type 0} → Compiling → (A → Compiling → Type 0) → Compile A → Type 0
  Spares s Q m = Post c within (made_within within) s Q (m s)

  abbrev Binds : CompiledBinding × List NodeId → Compiling → Type 0
  Binds b u = AllMade b.1 u

  besides-made_within :
      (parameter : String) (i : NodeId)
      → besides t parameter outer i ≡ true
      → made_within within i ≡ true
  besides-made_within parameter i h =
      ground (arith, wider (owner i), ==_iff (owner i) (invoke t.id), inside_of (owner i))
    where
      inside_of : (k : NodeId) → k ≡ invoke t.id → has k within ≡ true
      inside_of k e = subst (λ j. has j within ≡ true) (sym e) inside

  relaxed :
      (parameter : String) {A : Type 0} {Q : A → Compiling → Type 0} (s : Compiling)
      {r : Result (A × Compiling)}
      → Post c within (made_within within) s Q r
      → Post c within
          (besides t parameter outer)
          s
          (λ a u.
            Q a u
            × ((i : NodeId) → made_within within i ≡ true → lookup i u.nodes ≡ lookup i s.nodes))
          r
  relaxed parameter s {r} p =
      Post-relax c within (made_within within) (besides t parameter outer) s r
        (besides-made_within parameter) p

  spare :
      (parameter : String) {A : Type 0} {Q : A → Compiling → Type 0} (s : Compiling)
      {r : Result (A × Compiling)}
      → Post c within (made_within within) s Q r
      → Post c within (besides t parameter outer) s Q r
  spare parameter s {r} p = Post-weaken c within _ s r (relaxed parameter s p) (λ a u b h. h.0)

  plain-Post :
      (parameter : String) (b : PlainBinding) (s : Compiling)
      → IsReady c within s
      → Spares s Binds (plain c t parameter b)
  plain-Post parameter b s r =
      Post-bind c within _ {P = λ x u. Unit {0}} s _ _
        (plain_binding-Post c within _ (invoke t.id) t.id parameter b s r)
        (λ x u a h. Post-pure c within _ u _ a.ready refl)

  selection_of-Post :
      (parameter snapshot selection : String) (s : Compiling)
      → IsReady c within s
      → Spares s
          (λ j u. IsKnown c (judgment_target j))
          (selection_of c t parameter snapshot selection)
  unfolding selection_of
  selection_of-Post parameter snapshot selection s r =
      Post-option c within _ s (lookup selection c.judgments) _ _ (λ e. Post-fail c within _ s _)
        (λ j e.
          Post-choose c within _ s _ _ _
            (λ h. Post-pure c within _ s j r (let same = sound.judgments_named selection j e in cc))
            (λ h. Post-fail c within _ s _))

  transformation_of-Post :
      (parameter transformation : String) (s : Compiling)
      → IsReady c within s
      → Spares s (λ u v. IsKnown c (tool_target u)) (transformation_of c t parameter transformation)
  unfolding transformation_of
  transformation_of-Post parameter transformation s r =
      Post-option c within _ s (lookup transformation c.tools) _ _ (λ e. Post-fail c within _ s _)
        (λ u e.
          Post-choose c within _ s _ _ _
            (λ h.
              Post-pure c within _ s u r (let same = sound.tools_named transformation u e in cc))
            (λ h. Post-fail c within _ s _))

  -- The node of a derivation is added.
  After-derivation :
      (parameter : String) (u : Tool) (is : List NodeId) (s : Compiling)
      → IsReady c within s
      → lookup (derive t.id parameter) s.nodes ≡ none
      → AllMade is s
      → After c within
          (besides t parameter outer)
          s
          (add_node (derivation_node c t parameter u (from_keys [] is)) s)
  After-derivation parameter u is s r new made =
      let n = derivation_node c t parameter u (from_keys [] is) in
      After-add_node c within _ s n r new (all-from_keys (λ i. contains i s.nodes) [] is refl made)
        refl (ground (arith, within_now)) (ground (arith, ==_refl t.id, ==_refl parameter))
        (λ p. refl) (λ j. refl)
    where
      within_now : has (invoke t.id) s.visiting ≡ true
      within_now = subst (λ l. has (invoke t.id) l ≡ true) (sym r.within_same) inside

  Made-last :
      (i : NodeId) (is : List NodeId) (s : Compiling)
      → AllMade is s
      → Made i s
      → AllMade (is ++ i ∷ []) s
  Made-last i is s all_ one = ground (arith, all-append (λ k. contains k s.nodes) is (i ∷ []))

  -- What a binding leaves behind, besides the node of a derivation.
  pub binding-Post :
      (parameter : String) (b : Binding) (s : Compiling)
      → IsReady c within s
      → is_bound c b ≡ true
      → lookup (derive t.id parameter) s.nodes ≡ none
      → Post c within (besides t parameter outer) s Binds (binding c visit t parameter b s)
  unfolding binding
  binding-Post parameter (task_input path) s r known new =
      spare parameter s (plain-Post parameter (PlainBinding.task_input path) s r)
  binding-Post parameter (host_context key) s r known new =
      spare parameter s (plain-Post parameter (PlainBinding.host_context key) s r)
  binding-Post parameter (constant v) s r known new =
      spare parameter s (plain-Post parameter (PlainBinding.constant v) s r)
  binding-Post parameter default s r known new =
      spare parameter s (plain-Post parameter PlainBinding.default s r)
  binding-Post parameter (candidate_binding snapshot selection) s r known new = spare parameter s (
      Post-bind c within _ {P = λ x u. contains snapshot c.providers ≡ true} s _ _
        (Post-choose c within _ s (contains snapshot c.providers) _ _
          (λ there. Post-pure c within _ s tt r there) (λ absent. Post-fail c within _ s _))
        (λ x u a there.
          Post-bind c within _ u _ _ (selection_of-Post parameter snapshot selection u a.ready)
            (λ j v b known_j.
              Post-bind c within _ v _ _
                (visit_provider-Post c within _ snapshot t.id v b.ready there
                  (no_provider snapshot))
                (λ p w d made_p.
                  Post-bind c within _ w _ _ (works (judgment_target j) known_j w d.ready)
                    (λ i z e made_i.
                      let kept = contains-kept c within _ w z p e made_p.1 in
                      Post-pure c within _ z _ e.ready (ground (arith, made_i.1)))))))
  binding-Post parameter (source_binding evidence_id locator) s r known new = spare parameter s (
      Post-bind c within _ s _ _
        (resolve_needs-Post c sound within no_provider visit works t.id (λ _. some parameter)
          (evidence_id ∷ []) s r)
        (λ is u a made. Post-pure c within _ u _ a.ready made))
  binding-Post parameter (derivation_binding transformation inputs) s r known new =
      Post-bind c within _ s _ _
        (relaxed parameter s (transformation_of-Post parameter transformation s r))
        (λ u v a known_u.
          Post-bind c within _ v _ _
            (relaxed parameter v (
              resolve_needs-Post c sound within no_provider visit works t.id (λ _. some parameter)
                inputs v a.ready))
            (λ is w b made.
              Post-bind c within _ w _ _
                (relaxed parameter w (works (tool_target u) known_u.0 w b.ready))
                (λ i z d made_i.
                  let n = derivation_node c t parameter u (from_keys [] (is ++ i ∷ [])) in
                  Post-bind c within _ {P = λ x y. Made (derive t.id parameter) y} z _ _
                    (Post-modify c within _ z (add_node n)
                      (After-derivation parameter u (is ++ i ∷ []) z d.ready
                        (made_i.1 (derive t.id parameter) inside
                          ∙ (made.1 (derive t.id parameter) inside
                              ∙ (known_u.1 (derive t.id parameter) inside ∙ new)))
                        (Made-last i is z (AllMade-kept c within _ is w z d made.0) made_i.0.1))
                      (ground (
                        arith,
                        contains-insert (derive t.id parameter) (derive t.id parameter) n z.nodes,
                        ==_refl t.id,
                        ==_refl parameter,
                      )))
                    (λ x y e there. Post-pure c within _ y _ e.ready (ground arith)))))
  binding-Post parameter (judgment_binding judgment_id) s r known new = spare parameter s (
      Post-bind c within _ s _ _
        (visit_named-Post c sound within no_provider visit works judgment_id s known r)
        (λ i u a made. Post-pure c within _ u _ a.ready (ground (arith, made.1))))
  binding-Post parameter (generated_binding capability) s r known new = spare parameter s (
      Post-bind c within _ {P = λ u v. IsKnown c (tool_target u)} s _ _
        (Post-option c within _ s (lookup capability c.tools) _ _ (λ e. Post-fail c within _ s _)
          (λ u e. Post-pure c within _ s u r (let same = sound.tools_named capability u e in cc)))
        (λ u v a known_u.
          Post-bind c within _ v _ _ (works (tool_target u) known_u v a.ready)
            (λ i w b made. Post-pure c within _ w _ b.ready (ground (arith, made.1)))))
