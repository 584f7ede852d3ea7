-- ===== src/Compiler/Search/Asking.antt =====
-- compiler.py: what the search knows of a question that `_question` makes.
use jev_frame.Prelude.{
  Eq, ◌≤◌, String, Bool, true, false, List, [], ◌∷◌, ◌++◌, Option, none, some, length, ltb, all,
  all-map, ◌≡◌, ◌≢◌, refl, arith, string_eq, subst,
}
use jev_frame.Prelude.Dict.{Dict, lookup, contains}
use jev_frame.Definitions.Agents.{
  ChoiceOption, Question, choice_question, noul_question, score_question, Judgment, is_failed,
}
use jev_frame.Compiler.Diagnostics.{NodeId, retrieve, node_eq, Diagnostic}
use jev_frame.Compiler.Program.{CompiledQuestion, CompiledOption}
use jev_frame.Compiler.Steps.{Setup, Compiling, ◌>>=◌, pure, found, report}
use jev_frame.Compiler.Questions.{
  max_choice_options, max_score_levels, is_nil, all_resolved, candidate_options, choice_options,
  ask, question,
}
use jev_frame.Compiler.Search.Invariant.{is_resolved, IsReady, After, contains-kept}
use jev_frame.Compiler.Search.Post.{
  Post, Post-bind, Post-pure, Post-read, Post-modify, Post-choose, Post-option, Post-found,
  Post-fail, Post-weaken,
}
use jev_frame.Compiler.Search.Adding.{is_resolved-kept}

pub ne-none : {A : Type 0} (o : Option A) (a : A) → o ≡ some a → o ≢ none
ne-none o a h e = cc

pub ne-none_of_contains :
    {V : Type 0} ⦃e : Eq V⦄ {W : Type 0} (k : V) (d : Dict V W)
    → contains k d ≡ true
    → lookup k d ≢ none
ne-none_of_contains k d h e = ground arith

abbrev pub AllResolved : List NodeId → Compiling → Type 0
AllResolved is s = all (λ i. is_resolved i s.nodes) is ≡ true

abbrev pub AllMade : List NodeId → Compiling → Type 0
AllMade is s = all (λ i. contains i s.nodes) is ≡ true

-- What `_question` gives for a judgment with these nodes as dependencies.
pub record Asks (j : Judgment) (is : List NodeId) (q : CompiledQuestion) (s : Compiling)
    : Type 0 where
  pub options_bound : length q.options ≤ max_choice_options
  pub levels_bound : length q.score_levels ≤ max_score_levels
  pub asks : q.judgment_id ≡ j.id
  pub dependencies_same : q.dependencies ≡ j.dependencies
  pub resolved : q.dispatchable ≡ true → AllResolved is s

module _ (c : Setup) (within : List NodeId) (guarded : NodeId → Bool) where
  pub After-report :
      (s : Compiling) (d : Diagnostic)
      → IsReady c within s
      → After c within guarded s (record s { diagnostics = s.diagnostics ++ d ∷ [] })
  After-report s d r = record {
    ready = record {
      within_same = r.within_same;
      nodes_well = r.nodes_well;
      owned = r.owned;
      previewed = r.previewed;
      asked = r.asked;
      questions_well = r.questions_well;
    };
    kept = λ i n h. h;
    spared = λ i h. refl;
  }

  pub Post-report :
      {Q : Unit {0} → Compiling → Type 0} (s : Compiling) (d : Diagnostic)
      → IsReady c within s
      → Q tt (record s { diagnostics = s.diagnostics ++ d ∷ [] })
      → Post c within guarded s Q (report d s)
  unfolding report
  Post-report s d r q =
      Post-modify c within guarded s (λ t. record t { diagnostics = t.diagnostics ++ d ∷ [] })
        (After-report s d r) q

  pub AllResolved-kept :
      (is : List NodeId) (s t : Compiling)
      → After c within guarded s t
      → AllResolved is s
      → AllResolved is t
  AllResolved-kept is s t a =
      all-map (λ i. is_resolved i s.nodes) (λ i. is_resolved i t.nodes) is
        (λ i h. is_resolved-kept i s.nodes t.nodes a.kept h)

  pub AllMade-kept :
      (is : List NodeId) (s t : Compiling)
      → After c within guarded s t
      → AllMade is s
      → AllMade is t
  AllMade-kept is s t a =
      all-map (λ i. contains i s.nodes) (λ i. contains i t.nodes) is
        (λ i h. contains-kept c within guarded s t i a h)

  all_resolved-Post :
      (is : List NodeId) (s : Compiling)
      → IsReady c within s
      → AllMade is s
      → Post c within guarded s (λ b t. b ≡ true → AllResolved is t) (all_resolved is s)
  unfolding all_resolved
  all_resolved-Post [] s r known = Post-pure c within guarded s true r (λ h. refl)
  all_resolved-Post (i ∷ is) s r known =
      Post-read c within guarded s (λ s. s) _
        (Post-bind c within guarded {P = λ n v. lookup i v.nodes ≡ some n} s
          (found (lookup i s.nodes)) _
          (Post-found c within guarded s (lookup i s.nodes) r
            (ne-none_of_contains i s.nodes (ground arith)) (λ n e. e))
          (λ n v b there.
            Post-choose c within guarded v (is_nil n.unresolved) (all_resolved is) (pure false)
              (λ nil.
                Post-weaken c within guarded v (all_resolved is v)
                  (all_resolved-Post is v b.ready (AllMade-kept is s v b (ground arith)))
                  (λ b' w d rest h. let kept = d.kept i n there in ground (arith, rest h)))
              (λ no. Post-pure c within guarded v false b.ready (λ h. absurd cc))))

  -- The options, with whether the question can be dispatched: not where the other test forbids it.
  abbrev OnlyIf : Bool → List CompiledOption × Bool → Compiling → Type 0
  OnlyIf b o s = o.1 ≡ true → b ≡ true

  candidate_options-Post :
      (j : Judgment) (b : Bool) (set : String) (s : Compiling)
      → IsReady c within s
      → contains (retrieve set) s.nodes ≡ true
      → Post c within guarded s (OnlyIf b) (candidate_options c j b set s)
  unfolding candidate_options
  candidate_options-Post j b set s r made =
      let view = r.previewed set made in
      Post-read c within guarded s (λ s. s) _
        (Post-bind c within guarded {P = λ p t. p ≡ view.preview} s
          (found (lookup set s.candidates)) _
          (Post-found c within guarded s (lookup set s.candidates) r
            (ne-none (lookup set s.candidates) view.preview view.is_preview)
            (λ p e. let e' = view.is_preview in cc))
          (λ p t a same.
            Post-choose c within guarded t p.supplied _ _
              (λ supplied.
                let (v, there) = view.has_snapshot (subst (λ q. q.supplied ≡ true) same supplied) in
                Post-bind c within guarded {P = λ w u. Unit {0}} t (found (lookup set c.snapshots))
                  _
                  (Post-found c within guarded t (lookup set c.snapshots) a.ready
                    (ne-none (lookup set c.snapshots) v there) (λ w e. tt))
                  (λ w u d x.
                    Post-choose c within guarded u (is_failed w.coverage) _ _
                      (λ f. refused _ _ u d.ready)
                      (λ f.
                        Post-choose c within guarded u (is_nil w.candidates) _ _
                          (λ g. refused _ _ u d.ready)
                          (λ g. Post-pure c within guarded u _ d.ready (λ h. h)))))
              (λ no. Post-pure c within guarded t _ a.ready (λ h. absurd cc))))
    where
      refused :
          (o : List CompiledOption) (d : Diagnostic) (u : Compiling)
          → IsReady c within u
          → Post c within guarded u (OnlyIf b) ((report d >>= λ _. pure (o, false)) u)
      refused o d u ready =
          Post-bind c within guarded {P = λ w v. Unit {0}} u (report d) _ (Post-report u d ready tt)
            (λ w v a x. Post-pure c within guarded v (o, false) a.ready (λ h. absurd cc))

  choice_options-Post :
      (j : Judgment) (b : Bool) (criteria : List ChoiceOption) (s : Compiling)
      → IsReady c within s
      → ((set : String) → j.candidate_set ≡ some set → contains (retrieve set) s.nodes ≡ true)
      → Post c within guarded s (OnlyIf b) (choice_options c j b criteria s)
  unfolding choice_options
  choice_options-Post j b criteria s r made =
      Post-option c within guarded s j.candidate_set _ _
        (λ e. Post-pure c within guarded s _ r (λ h. h))
        (λ set e. candidate_options-Post j b set s r (made set e))

  ask-Post :
      (j : Judgment) (is : List NodeId) (b : Bool) (primitive : Question) (s : Compiling)
      → IsReady c within s
      → ((set : String) → j.candidate_set ≡ some set → contains (retrieve set) s.nodes ≡ true)
      → (b ≡ true → AllResolved is s)
      → Post c within guarded s (Asks j is) (ask c j b primitive s)
  unfolding ask
  ask-Post j is b (choice_question text criteria) s r made resolved =
      Post-bind c within guarded {P = OnlyIf b} s (choice_options c j b criteria) _
        (choice_options-Post j b criteria s r made)
        (λ o t a only.
          Post-choose c within guarded t (ltb max_choice_options (length o.0)) _ _
            (λ over. Post-fail c within guarded t _)
            (λ fits. Post-pure c within guarded t _ a.ready (record {
              options_bound = ground arith;
              levels_bound = omega arith;
              asks = refl;
              dependencies_same = refl;
              resolved = λ h. AllResolved-kept is s t a (resolved (only h));
            })))
  ask-Post j is b (noul_question text t f) s r made resolved =
      Post-pure c within guarded s _ r (record {
        options_bound = omega arith;
        levels_bound = omega arith;
        asks = refl;
        dependencies_same = refl;
        resolved = resolved;
      })
  ask-Post j is b (score_question text levels) s r made resolved =
      Post-choose c within guarded s (ltb max_score_levels (length levels)) _ _
        (λ over. Post-fail c within guarded s _)
        (λ fits. Post-pure c within guarded s _ r (record {
          options_bound = omega arith;
          levels_bound = ground arith;
          asks = refl;
          dependencies_same = refl;
          resolved = resolved;
        }))

  pub question-Post :
      (j : Judgment) (is : List NodeId) (s : Compiling)
      → IsReady c within s
      → AllMade is s
      → ((set : String) → j.candidate_set ≡ some set → contains (retrieve set) s.nodes ≡ true)
      → Post c within guarded s (Asks j is) (question c j is s)
  unfolding question
  question-Post j is s r known made =
      Post-bind c within guarded {P = λ b t. b ≡ true → AllResolved is t} s (all_resolved is) _
        (all_resolved-Post is s r known)
        (λ b t a resolved.
          ask-Post j is b j.primitive t a.ready
            (λ set e. contains-kept c within guarded s t (retrieve set) a (made set e)) resolved)
