-- ===== src/Compiler/Search/Invoking.antt =====
-- compiler.py: what the visit of a tool leaves behind.
use jev_frame.Prelude.{
  String, Bool, true, false, List, [], ◌∷◌, ◌++◌, none, some, all, All, All-map, all-append, ◌≡◌,
  refl, arith, inl, inr, Bool-cases, string_eq, ==_iff, ◌∙◌, ==_refl, map,
}
use jev_frame.Prelude.Set.{has, add, from_keys, has-add, all-from_keys, has-from_keys, unique}
use jev_frame.Prelude.Dict.{Dict, lookup, contains, contains-insert, keys}
use jev_frame.Errors.{Result}
use jev_frame.Definitions.Tools.{Tool, Binding}
use jev_frame.Compiler.Diagnostics.{NodeId, retrieve, derive, invoke, node_eq}
use jev_frame.Compiler.Program.{CompiledNode, CompiledBinding}
use jev_frame.Compiler.Steps.{Setup, Compiling, ◌>>=◌, pure, found, for_each}
use jev_frame.Compiler.Questions.{is_nil}
use jev_frame.Compiler.Needs.{tool_target, Visit, add_node, concat_lists}
use jev_frame.Compiler.Bindings.{binding, check_group, check_groups}
use jev_frame.Compiler.Visits.{
  noted, inherited, invocation_node, compiled_bindings, bound_nodes, tool_body,
}
use jev_frame.Compiler.Search.Invariant.{
  IsKnown, IsSound, is_bound, IsReady, After, made_within, owner, is_resolved,
}
use jev_frame.Compiler.Search.Post.{
  Post, Post-bind, Post-pure, Post-read, Post-modify, Post-choose, Post-found, Post-fail,
  Post-weaken, Post-relax, Post-loop, Post-for_each,
}
use jev_frame.Compiler.Search.Adding.{After-add_node}
use jev_frame.Compiler.Search.Asking.{
  AllMade, AllMade-kept, AllResolved, AllResolved-kept, ne-none_of_contains,
}
use jev_frame.Compiler.Search.Needing.{Made, same_nodes}
use jev_frame.Compiler.Search.Reaching.{Works, resolve_needs-Post}
use jev_frame.Compiler.Search.Deriving.{besides, binding-Post}

abbrev unresolved_of : List CompiledNode → List String
unresolved_of ns = concat_lists (map (λ (n : CompiledNode). n.unresolved) ns)

nil_front : (xs ys : List String) → is_nil (xs ++ ys) ≡ true → is_nil xs ≡ true
nil_front [] ys h = refl
nil_front (x ∷ xs) ys h = cc

nil_back : (xs ys : List String) → is_nil (xs ++ ys) ≡ true → is_nil ys ≡ true
nil_back [] ys h = h
nil_back (x ∷ xs) ys h = absurd cc

-- Nothing is unresolved only if no text is there to be kept.
nil-from_keys : (xs : List String) → is_nil (from_keys [] xs) ≡ true → is_nil xs ≡ true
nil-from_keys [] h = refl
nil-from_keys (x ∷ xs) h =
    absurd (ground (arith, kept (from_keys [] (x ∷ xs)) h, has-from_keys x [] (x ∷ xs), ==_refl x))
  where
    kept : (ys : List String) → is_nil ys ≡ true → has x ys ≡ false
    kept [] e = refl
    kept (y ∷ ys) e = absurd cc

module _ (c : Setup) (within : List NodeId) (guarded : NodeId → Bool) where
  check_group-Post :
      (t : Tool) (group : List String) (s : Compiling)
      → IsReady c within s
      → All (λ name. contains name t.bindings ≡ true) group
      → Post c within guarded s (λ x u. Unit {0}) (check_group c t group s)
  unfolding check_group
  check_group-Post t group s r known =
      Post-bind c within guarded s _ _
        (Post-for_each c within guarded {P = λ name. contains name t.bindings ≡ true}
          {Q = λ b u. Unit {0}} s _ group (λ b u v a h. tt)
          (λ name u h ready.
            Post-found c within guarded u (lookup name t.bindings) ready
              (ne-none_of_contains name t.bindings h) (λ b e. tt))
          r known)
        (λ bs u a h.
          Post-choose c within guarded u _ _ _ (λ mixed. Post-fail c within guarded u _)
            (λ same. Post-pure c within guarded u tt a.ready tt))

  check_groups-Post :
      (t : Tool) (s : Compiling)
      → IsReady c within s
      → All (λ group. All (λ name. contains name t.bindings ≡ true) group) t.binding_groups
      → Post c within guarded s (λ x u. Unit {0}) (check_groups c t s)
  check_groups-Post t s r known =
      Post-bind c within guarded s _ _
        (Post-for_each c within guarded
          {P = λ group. All (λ name. contains name t.bindings ≡ true) group} {Q = λ b u. Unit {0}} s
          (check_group c t) t.binding_groups (λ b u v a h. tt)
          (λ group u h ready. check_group-Post t group u ready h) r known)
        (λ bs u a h. Post-pure c within guarded u tt a.ready tt)

  -- The nodes in `d` lack nothing, if nothing is what they lack together.
  lookups-Post :
      (d : Dict NodeId CompiledNode) (is : List NodeId) (s : Compiling)
      → IsReady c within s
      → all (λ i. contains i d) is ≡ true
      → Post c within guarded s
          (λ ns u. is_nil (unresolved_of ns) ≡ true → all (λ i. is_resolved i d) is ≡ true)
          (for_each (λ i. found (lookup i d)) is s)
  unfolding for_each
  lookups-Post d [] s r known = Post-pure c within guarded s [] r (λ h. refl)
  lookups-Post d (i ∷ is) s r known =
      let rest = for_each (λ k. found (lookup k d)) is in
      Post-bind c within guarded {P = λ n u. lookup i d ≡ some n} s (found (lookup i d))
        (λ n. rest >>= λ ns. pure (n ∷ ns))
        (Post-found c within guarded s (lookup i d) r (ne-none_of_contains i d (ground arith))
          (λ n e. e))
        (λ n u a there.
          Post-bind c within guarded u rest (λ ns. pure (n ∷ ns))
            (lookups-Post d is u a.ready (ground arith))
            (λ ns v b resolved.
              Post-pure c within guarded v (n ∷ ns) b.ready (resolved_too n ns there resolved)))
    where
      resolved_too :
          (n : CompiledNode) (ns : List CompiledNode)
          → lookup i d ≡ some n
          → (is_nil (unresolved_of ns) ≡ true → all (λ k. is_resolved k d) is ≡ true)
          → is_nil (unresolved_of (n ∷ ns)) ≡ true
          → all (λ k. is_resolved k d) (i ∷ is) ≡ true
      resolved_too n ns there rest h = ground (
        arith,
        rest (nil_back n.unresolved (unresolved_of ns) h),
        nil_front n.unresolved (unresolved_of ns) h,
      )

  inherited-Post :
      (is : List NodeId) (s : Compiling)
      → IsReady c within s
      → AllMade is s
      → Post c within guarded s (λ l u. is_nil l ≡ true → AllResolved is u) (inherited c is s)
  unfolding inherited
  inherited-Post is s r made = Post-read c within guarded s _ _ (
      Post-bind c within guarded s _ _ (lookups-Post s.nodes is s r made) (λ ns u a h.
        Post-pure c within guarded u _ a.ready
          (λ l. AllResolved-kept c within guarded is s u a (h l))))

module _ (c : Setup) (sound : IsSound c) (outer : List NodeId) (t : Tool)
    (known : IsKnown c (tool_target t)) (apart : has (invoke t.id) outer ≡ false)
    (no_provider : (p : String) → has (retrieve p) (add (invoke t.id) outer) ≡ false)
    (visit : Visit) (works : Works c (add (invoke t.id) outer) visit) where
  abbrev inner : List NodeId
  inner = add (invoke t.id) outer

  inner_wider : (i : NodeId) → has i outer ≡ true → has i inner ≡ true
  inner_wider i h = ground (arith, has-add i (invoke t.id) outer)

  self_inner : has (invoke t.id) inner ≡ true
  self_inner = ground (arith, has-add (invoke t.id) (invoke t.id) outer, ==_refl (invoke t.id))

  -- Nothing is made yet of what the visit makes for the bindings that are left.
  abbrev Unmade : Dict String Binding → Compiling → Type 0
  Unmade rest s =
      (lookup (invoke t.id) s.nodes ≡ none)
      × All (λ b. lookup (derive t.id b.0) s.nodes ≡ none) rest
      × All (λ b. is_bound c b.1 ≡ true) rest
      × (unique (keys rest) ≡ true)

  abbrev Binds : CompiledBinding × List NodeId → Compiling → Type 0
  Binds b u = AllMade b.1 u

  -- The bindings that are left have other parameters.
  others :
      (parameter : String) (rest : Dict String Binding) (s u : Compiling)
      → has parameter (keys rest) ≡ false
      → ((i : NodeId) → besides t parameter outer i ≡ true → lookup i u.nodes ≡ lookup i s.nodes)
      → All (λ b. lookup (derive t.id b.0) s.nodes ≡ none) rest
      → All (λ b. lookup (derive t.id b.0) u.nodes ≡ none) rest
  others parameter [] s u h same a = tt
  others parameter ((p, b) ∷ rest) s u h same a = (
    same (derive t.id p) (ground (arith, ==_refl t.id, ==_iff p parameter, ==_iff parameter p))
        ∙ a.0,
    others parameter rest s u (ground arith) same a.1,
  )

  bindings-Post :
      (s : Compiling)
      → IsReady c inner s
      → Unmade t.bindings s
      → Post c inner
          (made_within outer)
          s
          (λ bs u. Unmade [] u × All (λ b. Binds b u) bs)
          (for_each (λ b. binding c visit t b.0 b.1) t.bindings s)
  bindings-Post s r new =
      Post-loop c inner (made_within outer) {P = Unmade} {Q = Binds} s _ t.bindings
        (λ b u v a. AllMade-kept c inner _ b.1 u v a)
        (λ b rest u h ready.
          Post-weaken c inner _ u _
            (Post-relax c inner (besides t b.0 outer) (made_within outer) u _ (λ i m. ground arith)
              (binding-Post c sound inner no_provider visit works t outer self_inner apart
                inner_wider b.0 b.1 u ready h.2.0 h.1.0))
            (λ x v a made. (
              (
                made.1 (invoke t.id) (ground (arith, ==_refl t.id)) ∙ h.0,
                others b.0 rest u v (ground (arith, h.3)) made.1 h.1.1,
                h.2.1,
                ground (arith, h.3),
              ),
              made.0,
            )))
        r new

  AllMade-bound :
      (bs : List (CompiledBinding × List NodeId)) (s : Compiling)
      → All (λ b. Binds b s) bs
      → AllMade (bound_nodes c bs) s
  AllMade-bound [] s h = refl
  AllMade-bound (b ∷ bs) s h = ground (
    arith,
    all-append (λ i. contains i s.nodes) b.1 (bound_nodes c bs),
    h.0,
    AllMade-bound bs s h.1,
  )

  relaxed :
      {A : Type 0} {Q : A → Compiling → Type 0} (s : Compiling) {r : Result (A × Compiling)}
      → Post c inner (made_within inner) s Q r
      → Post c inner
          (made_within outer)
          s
          (λ a u.
            Q a u
            × ((i : NodeId) → made_within inner i ≡ true → lookup i u.nodes ≡ lookup i s.nodes))
          r
  relaxed s {r} p =
      Post-relax c inner (made_within inner) (made_within outer) s r
        (λ i h. ground (arith, inner_wider (owner i))) p

  -- The node of the tool is added.
  After-invocation :
      (is : List NodeId) (bs : List CompiledBinding) (extra lacking : List String) (s : Compiling)
      → IsReady c inner s
      → lookup (invoke t.id) s.nodes ≡ none
      → AllMade is s
      → (is_nil lacking ≡ true → AllResolved is s)
      → After c inner
          (made_within outer)
          s
          (add_node (invocation_node c t (from_keys [] is) bs (from_keys [] (extra ++ lacking))) s)
  After-invocation is bs extra lacking s r new made resolved =
      let n = invocation_node c t (from_keys [] is) bs (from_keys [] (extra ++ lacking)) in
      After-add_node c inner (made_within outer) s n r new
        (all-from_keys (λ i. contains i s.nodes) [] is refl made)
        (elim (Bool-cases (is_nil (from_keys [] (extra ++ lacking)))) [
          | inl nil ↦
              let all_ =
                all-from_keys (λ i. is_resolved i s.nodes) [] is refl
                  (resolved (nil_back extra lacking (nil-from_keys (extra ++ lacking) nil))) in
              ground arith
          | inr more ↦ ground arith
        ])
        (ground (arith, contains-insert (invoke t.id) (invoke t.id) n s.nodes, ==_refl t.id)) apart
        (λ p. refl) (λ j. refl)

  pub tool_body-Post :
      (s : Compiling)
      → IsReady c inner s
      → lookup (invoke t.id) s.nodes ≡ none
      → All (λ b. lookup (derive t.id b.0) s.nodes ≡ none) t.bindings
      → Post c inner (made_within outer) s (λ x u. Made (invoke t.id) u) (tool_body c visit t s)
  unfolding tool_body
  tool_body-Post s r new underived =
      Post-bind c inner _ s _ _
        (relaxed s (
          resolve_needs-Post c sound inner no_provider visit works t.id (λ _. none)
            t.requires_evidence s r))
        (λ needed u a have.
          Post-bind c inner _ u _ _
            (bindings-Post u a.ready (
              have.1 (invoke t.id) self_inner ∙ new,
              All-map _ _ t.bindings (λ b e. have.1 (derive t.id b.0) self_inner ∙ e) underived,
              sound.bindings_known t.id t known,
              sound.parameters_unique t.id t known,
            ))
            (λ bound v b bs.
              let is = needed ++ bound_nodes c bound in
              let made : AllMade is v = ground (
                arith,
                all-append (λ i. contains i v.nodes) needed (bound_nodes c bound),
                AllMade-bound bound v bs.1,
                AllMade-kept c inner _ needed u v b have.0,
              ) in
              Post-bind c inner _ v _ _
                (same_nodes c inner _ v (check_groups c t v) (
                  check_groups-Post c inner (λ i. true) t v b.ready
                    (sound.groups_known t.id t known)))
                (λ x w d grouped. Post-read c inner _ w _ _ (
                  Post-bind c inner _ w _ _
                    (same_nodes c inner _ w (inherited c is w) (
                      inherited-Post c inner (λ i. true) is w d.ready
                        (AllMade-kept c inner _ is v w d made)))
                    (λ lacking y e resolved.
                      Post-modify c inner _ y _
                        (After-invocation is (compiled_bindings c bound)
                          (noted c (invoke t.id) w.diagnostics) lacking y e.ready
                          (resolved.1 (invoke t.id) refl ∙ (grouped.1 (invoke t.id) refl ∙ bs.0.0))
                          (AllMade-kept c inner _ is w y e (AllMade-kept c inner _ is v w d made))
                          resolved.0)
                        (ground (
                          arith,
                          contains-insert (invoke t.id) (invoke t.id)
                              (invocation_node c t (from_keys [] is) (compiled_bindings c bound)
                                (from_keys [] (noted c (invoke t.id) w.diagnostics ++ lacking)))
                              y.nodes,
                          ==_refl t.id,
                        )))))))
