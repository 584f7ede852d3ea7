-- ===== src/Compiler/Search/Needing.antt =====
-- compiler.py: what providers, needs and bindings leave behind.
use jev_frame.Prelude.{
  String, Bool, true, false, List, [], ◌∷◌, none, All, All-map, ◌≡◌, ◌≢◌, refl, arith, inl, inr,
  Option-cases, Bool-cases, string_eq, ◌==◌, ==_iff, ap, ◌∙◌, ==_refl,
}
use jev_frame.Prelude.Dict.{lookup, insert, contains, lookup-insert, contains-insert}
use jev_frame.Errors.{Result}
use jev_frame.Definitions.Agents.{
  PlainBinding, task_input, host_context, constant, default, CandidateProvider,
}
use jev_frame.Compiler.Diagnostics.{NodeId, retrieve, judge, node_eq}
use jev_frame.Compiler.Program.{CompiledBinding, CandidatePreview}
use jev_frame.Compiler.Steps.{Setup, Compiling}
use jev_frame.Compiler.Providers.{
  plain_binding, preview, retrieval_node, add_provider, provider_bindings, visit_provider,
}
use jev_frame.Compiler.Search.Invariant.{IsReady, After}
use jev_frame.Compiler.Search.Post.{
  Post, Post-bind, Post-pure, Post-read, Post-modify, Post-choose, Post-option, Post-found,
  Post-fail, Post-weaken, Post-for_each, Post-relax,
}
use jev_frame.Compiler.Search.Adding.{After-add, IsQuestion-kept, lookup-kept}
use jev_frame.Compiler.Search.Asking.{Post-report, ne-none, ne-none_of_contains}

abbrev pub Made : NodeId → Compiling → Type 0
Made i s = contains i s.nodes ≡ true

-- What a preview says when it is taken.
abbrev IsPreview : Setup → String → CandidatePreview → Type 0
IsPreview c p v = v.supplied ≡ true → lookup p c.snapshots ≢ none

pub All-of : {A : Type 0} (xs : List A) → All (λ x. Unit {0}) xs
All-of [] = tt
All-of (x ∷ xs) = (tt, All-of xs)

module _ (c : Setup) (within : List NodeId) (guarded : NodeId → Bool) where
  pub plain_binding-Post :
      (i : NodeId) (own parameter : String) (b : PlainBinding) (s : Compiling)
      → IsReady c within s
      → Post c within guarded s (λ x t. Unit {0}) (plain_binding c i own parameter b s)
  unfolding plain_binding
  plain_binding-Post i own parameter (task_input path) s r =
      Post-bind c within guarded {P = λ x t. Unit {0}} s _ _
        (Post-choose c within guarded s _ _ _ (λ e. Post-report c within guarded s _ r tt)
          (λ e. Post-pure c within guarded s tt r tt))
        (λ x t a u. Post-pure c within guarded t _ a.ready tt)
  plain_binding-Post i own parameter (host_context key) s r =
      Post-bind c within guarded {P = λ x t. Unit {0}} s _ _
        (Post-choose c within guarded s _ _ _ (λ e. Post-pure c within guarded s tt r tt)
          (λ e. Post-report c within guarded s _ r tt))
        (λ x t a u. Post-pure c within guarded t _ a.ready tt)
  plain_binding-Post i own parameter (constant v) s r = Post-pure c within guarded s _ r tt
  plain_binding-Post i own parameter default s r = Post-pure c within guarded s _ r tt

  pub preview-Post :
      (p subject : String) (s : Compiling)
      → IsReady c within s
      → Post c within guarded s (λ v t. IsPreview c p v) (preview c p subject s)
  unfolding preview
  preview-Post p subject s r =
      Post-option c within guarded s (lookup p c.snapshots) _ _
        (λ e.
          Post-bind c within guarded {P = λ x t. Unit {0}} s _ _
            (Post-report c within guarded s _ r tt)
            (λ x t a u. Post-pure c within guarded t _ a.ready (λ h. absurd cc)))
        (λ v e.
          Post-choose c within guarded s _ _ _
            (λ same. Post-pure c within guarded s _ r (λ h. ne-none (lookup p c.snapshots) v e))
            (λ other. Post-fail c within guarded s _))

  pub provider_bindings-Post :
      (p : String) (q : CandidateProvider) (s : Compiling)
      → IsReady c within s
      → Post c within guarded s (λ x t. Unit {0}) (provider_bindings c q p s)
  provider_bindings-Post p q s r =
      Post-weaken c within guarded s _
        (Post-for_each c within guarded {P = λ b. Unit {0}} {Q = λ x t. Unit {0}} s _ q.bindings
          (λ x t u a h. tt) (λ b t h ready. plain_binding-Post (retrieve p) q.id b.0 b.1 t ready) r
          (All-of q.bindings))
        (λ xs t a h. tt)

module _ (c : Setup) (within : List NodeId) (guarded : NodeId → Bool) where
  -- The node and the preview of a provider are added.
  After-provider :
      (p : String) (q : CandidateProvider) (v : CandidatePreview) (bs : List CompiledBinding)
      (s : Compiling)
      → IsReady c within s
      → lookup (retrieve p) s.nodes ≡ none
      → IsPreview c p v
      → guarded (retrieve p) ≡ false
      → After c within guarded s (add_provider c p v (retrieval_node c p q bs) s)
  After-provider p q v bs s r new right free =
      let n = retrieval_node c p q bs in
      After-add c within guarded s n r new refl refl
        (ground (arith, contains-insert (retrieve p) (retrieve p) n s.nodes, ==_refl p)) free
        s.questions (insert p v s.candidates)
        (λ o h. elim (Bool-cases (p == o)) [
          | inl same ↦ elim (Option-cases (lookup p c.snapshots)) [
            | inl e ↦ record {
              preview = v;
              is_preview = ground (arith, lookup-insert o p v s.candidates);
              has_snapshot = λ t. absurd (right t e);
            }
            | inr (w, e) ↦ record {
              preview = v;
              is_preview = ground (arith, lookup-insert o p v s.candidates);
              has_snapshot = λ t. (w, ground (arith, ==_iff p o));
            }
          ]
          | inr other ↦
              let old =
                r.previewed o
                  (ground (arith, contains-insert (retrieve o) (retrieve p) n s.nodes)) in
              record {
                preview = old.preview;
                is_preview =
                    let e = old.is_preview in ground (arith, lookup-insert o p v s.candidates);
                has_snapshot = old.has_snapshot;
              }
        ])
        (λ j h. r.asked j (ground (arith, contains-insert (judge j) (retrieve p) n s.nodes)))
        (All-map _ _ s.questions
          (λ e.
            IsQuestion-kept c s.nodes (insert (retrieve p) n s.nodes) s.questions s.questions e.0
              e.1 (λ i m. lookup-kept i (retrieve p) m n s.nodes new) (λ k h. h))
          r.questions_well)

  -- Providers and their bindings add no nodes before the provider's own.
  pub same_nodes :
      {A : Type 0} {Q : A → Compiling → Type 0} (s : Compiling) (r : Result (A × Compiling))
      → Post c within (λ i. true) s Q r
      → Post c within guarded s
          (λ a t. Q a t × ((i : NodeId) → true ≡ true → lookup i t.nodes ≡ lookup i s.nodes))
          r
  same_nodes s r p = Post-relax c within (λ i. true) guarded s r (λ i h. refl) p

  pub visit_provider-Post :
      (p subject : String) (s : Compiling)
      → IsReady c within s
      → contains p c.providers ≡ true
      → guarded (retrieve p) ≡ false
      → Post c within guarded s (λ i t. (i ≡ retrieve p) × Made i t) (visit_provider c p subject s)
  unfolding visit_provider
  visit_provider-Post p subject s r there free = Post-read c within guarded s _ _ (
      Post-choose c within guarded s (contains (retrieve p) s.nodes) _ _
        (λ old. Post-pure c within guarded s _ r (refl, old))
        (λ new.
          Post-bind c within guarded {P = λ q t. t.nodes ≡ s.nodes} s _ _
            (Post-found c within guarded s (lookup p c.providers) r
              (ne-none_of_contains p c.providers there) (λ q e. refl))
            (λ q t a same.
              Post-bind c within guarded t _ _
                (same_nodes t (preview c p subject t)
                  (preview-Post c within (λ i. true) p subject t a.ready))
                (λ v u b seen.
                  Post-bind c within guarded u _ _
                    (same_nodes u (provider_bindings c q p u)
                      (provider_bindings-Post c within (λ i. true) p q u b.ready))
                    (λ bs w d bound.
                      let n = retrieval_node c p q bs in
                      Post-bind c within guarded {P = λ x z. Made (retrieve p) z} w _ _
                        (Post-modify c within guarded w (add_provider c p v n)
                          (After-provider p q v bs w d.ready
                            (bound.1 (retrieve p) refl
                              ∙ (seen.1 (retrieve p) refl
                                  ∙ (ap (lookup (retrieve p)) same ∙ ground arith)))
                            seen.0 free)
                          (ground (
                            arith,
                            contains-insert (retrieve p) (retrieve p) n w.nodes,
                            ==_refl p,
                          )))
                        (λ x z f made.
                          Post-pure c within guarded z (retrieve p) f.ready (refl, made)))))))
