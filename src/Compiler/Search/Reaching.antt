-- ===== src/Compiler/Search/Reaching.antt =====
-- compiler.py: what `resolve_need` and `_binding` leave behind, for visits that do their work.
use jev_frame.Prelude.{
  String, true, false, List, [], ◌∷◌, Option, none, some, All, ◌≡◌, refl, arith, inl, inr,
  Option-cases, string_eq, subst, ap, ◌∙◌,
}
use jev_frame.Prelude.Set.{has}
use jev_frame.Prelude.Dict.{lookup, contains}
use jev_frame.Definitions.Tools.{Tool}
use jev_frame.Definitions.Agents.{Judgment}
use jev_frame.Compiler.Diagnostics.{NodeId, retrieve, judge, node_eq}
use jev_frame.Compiler.Steps.{Setup, Compiling, Compile}
use jev_frame.Compiler.Needs.{
  Target, judgment_target, tool_target, Visit, present, produce, producers_of, resolve_need,
  resolve_needs, visit_named, visit_candidates,
}
use jev_frame.Compiler.Search.Invariant.{
  IsKnown, target_id, IsSound, IsReady, After, contains-kept, made_within,
}
use jev_frame.Compiler.Search.Post.{
  Post, Post-bind, Post-pure, Post-choose, Post-option, Post-found, Post-fail, Post-weaken,
  Post-for_each,
}
use jev_frame.Compiler.Search.Asking.{ne-none_of_contains, AllMade}
use jev_frame.Compiler.Search.Needing.{Made, visit_provider-Post, All-of}

-- A visit at this depth makes the node of its target.
abbrev pub Works : Setup → List NodeId → Visit → Type 0
Works c within visit =
    (t : Target)
    → IsKnown c t
    → (s : Compiling) → IsReady c within s
    → Post c within (made_within within) s (λ i u. (i ≡ target_id t) × Made i u) (visit t s)

abbrev pub MadeIf : Option NodeId → Compiling → Type 0
MadeIf none s = Unit
MadeIf (some i) s = Made i s

pub AllMade-present :
    (is : List (Option NodeId)) (s : Compiling) → All (λ o. MadeIf o s) is → AllMade (present is) s
AllMade-present [] s h = refl
AllMade-present (none ∷ is) s h = AllMade-present is s h.1
AllMade-present (some i ∷ is) s h = ground (arith, h.0, AllMade-present is s h.1)

module _ (c : Setup) (sound : IsSound c) (within : List NodeId)
    (no_provider : (p : String) → has (retrieve p) within ≡ false) (visit : Visit)
    (works : Works c within visit) where
  abbrev Here : {A : Type 0} → Compiling → (A → Compiling → Type 0) → Compile A → Type 0
  Here s Q m = Post c within (made_within within) s Q (m s)

  produce-Post :
      (reference subject : String) (binding : Option String) (ts : List Tool) (s : Compiling)
      → IsReady c within s
      → All (λ t. lookup t.id c.tools ≡ some t) ts
      → Here s Made (produce c visit reference subject binding ts)
  unfolding produce
  produce-Post reference subject binding [] s r known = Post-fail c within _ s _
  produce-Post reference subject binding (t ∷ []) s r known =
      Post-weaken c within _ s _ (works (tool_target t) known.0 s r) (λ i u a h. h.1)
  produce-Post reference subject binding (t ∷ u ∷ ts) s r known = Post-fail c within _ s _

  producers_known :
      (reference : String) → All (λ t. lookup t.id c.tools ≡ some t) (producers_of c reference)
  producers_known reference = elim (Option-cases (lookup reference c.producers)) [
    | inl e ↦
        let same : [] ≡ producers_of c reference = ground arith in
        subst (All (λ t. lookup t.id c.tools ≡ some t)) same tt
    | inr (ts, e) ↦
        let same : ts ≡ producers_of c reference = ground arith in
        subst (All (λ t. lookup t.id c.tools ≡ some t)) same (sound.producers_known reference ts e)
  ]

  named_known :
      (k : String) (j : Judgment) → lookup k c.judgments ≡ some j → lookup j.id c.judgments ≡ some j
  named_known k j e = let same = sound.judgments_named k j e in cc

  pub resolve_need-Post :
      (reference subject : String) (binding : Option String) (s : Compiling)
      → IsReady c within s
      → Here s MadeIf (resolve_need c visit reference subject binding)
  unfolding resolve_need
  resolve_need-Post reference subject binding s r =
      Post-choose c within _ s _ _ _ (λ available. Post-pure c within _ s none r tt)
        (λ missing.
          Post-bind c within _ {P = Made} s _ _
            (Post-option c within _ s (lookup reference c.judgments) _ _
              (λ no_judgment.
                Post-choose c within _ s (contains reference c.providers) _ _
                  (λ there.
                    Post-weaken c within _ s _
                      (visit_provider-Post c within _ reference subject s r there
                        (no_provider reference))
                      (λ i t a h. h.1))
                  (λ absent.
                    produce-Post reference subject binding _ s r (producers_known reference)))
              (λ j e.
                Post-weaken c within _ s _
                  (works (judgment_target j) (named_known reference j e) s r) (λ i t a h. h.1)))
            (λ i t a made. Post-pure c within _ t (some i) a.ready made))

  MadeIf-kept :
      (o : Option NodeId) (t u : Compiling)
      → After c within (made_within within) t u
      → MadeIf o t
      → MadeIf o u
  MadeIf-kept none t u a h = tt
  MadeIf-kept (some i) t u a h = contains-kept c within _ t u i a h

  pub resolve_needs-Post :
      (subject : String) (binding : String → Option String) (references : List String)
      (s : Compiling)
      → IsReady c within s
      → Here s AllMade (resolve_needs c visit subject binding references)
  resolve_needs-Post subject binding references s r =
      Post-bind c within _ s _ _
        (Post-for_each c within _ {P = λ x. Unit {0}} {Q = MadeIf} s _ references MadeIf-kept
          (λ x t h ready. resolve_need-Post x subject (binding x) t ready) r (All-of references))
        (λ is t a made. Post-pure c within _ t (present is) a.ready (AllMade-present is t made))

  pub visit_named-Post :
      (id : String) (s : Compiling)
      → contains id c.judgments ≡ true
      → IsReady c within s
      → Here s (λ i t. (i ≡ judge id) × Made i t) (visit_named c visit id)
  unfolding visit_named
  visit_named-Post id s there r =
      Post-bind c within _ {P = λ j t. lookup id c.judgments ≡ some j} s _ _
        (Post-found c within _ s (lookup id c.judgments) r
          (ne-none_of_contains id c.judgments there) (λ j e. e))
        (λ j t a e.
          let same = sound.judgments_named id j e in
          Post-weaken c within _ t _ (works (judgment_target j) (named_known id j e) t a.ready)
            (λ i u b h. (h.0 ∙ ap judge same, h.1)))

  -- the node of the candidate set, if the judgment has one
  pub visit_candidates-Post :
      (j : Judgment) (s : Compiling)
      → IsReady c within s
      → Here s
          (λ is t.
            AllMade is t × ((set : String) → j.candidate_set ≡ some set → Made (retrieve set) t))
          (visit_candidates c j)
  unfolding visit_candidates
  visit_candidates-Post j s r =
      Post-option c within _ s j.candidate_set _ _
        (λ e. Post-pure c within _ s [] r (refl, λ set e'. absurd cc))
        (λ set e.
          Post-choose c within _ s (contains set c.providers) _ _
            (λ there.
              Post-bind c within _ s _ _
                (visit_provider-Post c within _ set j.id s r there (no_provider set))
                (λ i t a h. Post-pure c within _ t (i ∷ []) a.ready (
                  ground (arith, h.1),
                  λ set' e'.
                      let same : set ≡ set' = cc in
                      subst (λ k. Made (retrieve k) t) same (subst (λ k. Made k t) h.0 h.1),
                )))
            (λ absent. Post-fail c within _ s _))
