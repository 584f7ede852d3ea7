-- ===== src/Compiler/Search/Frame.antt =====
-- compiler.py: the frame of a visit, which marks the node that it makes.
use jev_frame.Prelude.{
  ◌+◌, String, true, false, List, [], ◌∷◌, length, length-append, all, all-append, ◌≡◌, refl, arith,
  inl, inr, Bool-cases, string_eq, subst, ◌==◌, ==_iff, sym, ap, ◌∙◌, map,
}
use jev_frame.Prelude.Set.{has, add, discard, unique, discard-add, has-add, unique-add, has-append}
use jev_frame.Prelude.Dict.{contains, keys, has-keys}
use jev_frame.Errors.{Result, ok, raise}
use jev_frame.Compiler.Diagnostics.{NodeId, retrieve, judge, invoke, node_eq, Diagnostic}
use jev_frame.Compiler.Steps.{Setup, Compiling, Compile, ◌>>=◌, pure, modify, fail_with}
use jev_frame.Compiler.Needs.{Target, judgment_target, tool_target}
use jev_frame.Compiler.Visits.{enter, leave, once}
use jev_frame.Compiler.Search.Invariant.{
  IsKnown, target_id, marks, IsReady, After, made_within, owner,
}
use jev_frame.Compiler.Search.Post.{
  Post, returned, raised, Post-pure, Post-read, Post-choose, Post-fail,
}
use jev_frame.Compiler.Search.Needing.{Made}

-- The marks are those of registered judgments and tools, each once.
pub record AreMarks (c : Setup) (within : List NodeId) : Type 0 where
  pub once_each : unique within ≡ true
  pub registered : all (λ i. has i (marks c)) within ≡ true

has-map_judge :
    (k : String) (ks : List String) → has k ks ≡ true → has (judge k) (map judge ks) ≡ true
has-map_judge k [] h = absurd (ground arith)
has-map_judge k (l ∷ ks) h = ground (arith, has-map_judge k ks)

has-map_invoke :
    (k : String) (ks : List String) → has k ks ≡ true → has (invoke k) (map invoke ks) ≡ true
has-map_invoke k [] h = absurd (ground arith)
has-map_invoke k (l ∷ ks) h = ground (arith, has-map_invoke k ks)

pub has-marks : (c : Setup) (t : Target) → IsKnown c t → has (target_id t) (marks c) ≡ true
has-marks c (judgment_target j) h = ground (
  arith,
  has-append (judge j.id) (map judge (keys c.judgments)) (map invoke (keys c.tools)),
  has-map_judge j.id (keys c.judgments),
  has-keys j.id c.judgments,
)
has-marks c (tool_target t) h = ground (
  arith,
  has-append (invoke t.id) (map judge (keys c.judgments)) (map invoke (keys c.tools)),
  has-map_invoke t.id (keys c.tools),
  has-keys t.id c.tools,
)

not_judge : (p : String) (ks : List String) → has (retrieve p) (map judge ks) ≡ false
not_judge p [] = refl
not_judge p (k ∷ ks) = not_judge p ks

not_invoke : (p : String) (ks : List String) → has (retrieve p) (map invoke ks) ≡ false
not_invoke p [] = refl
not_invoke p (k ∷ ks) = not_invoke p ks

-- A provider's node is never marked.
pub no_provider :
    (c : Setup) (within : List NodeId)
    → all (λ i. has i (marks c)) within ≡ true
    → (p : String) → has (retrieve p) within ≡ false
no_provider c [] h p = refl
no_provider c (i ∷ within) h p = ground (
  arith,
  no_provider c within (ground arith) p,
  ==_iff (retrieve p) i,
  has-append (retrieve p) (map judge (keys c.judgments)) (map invoke (keys c.tools)),
  not_judge p (keys c.judgments),
  not_invoke p (keys c.tools),
  same i,
)
  where
    same : (k : NodeId) → retrieve p ≡ k → has k (marks c) ≡ has (retrieve p) (marks c)
    same k e = ap (λ l. has l (marks c)) (sym e)

pub AreMarks-add :
    (c : Setup) (i : NodeId) (outer : List NodeId)
    → has i (marks c) ≡ true
    → AreMarks c outer
    → AreMarks c (add i outer)
AreMarks-add c i outer h a = record {
  once_each = unique-add i outer a.once_each;
  registered =
      let old = a.registered in ground (arith, all-append (λ k. has k (marks c)) outer (i ∷ []));
}

pub length-add :
    (i : NodeId) (outer : List NodeId)
    → has i outer ≡ false
    → length (add i outer) ≡ length outer + 1
length-add i outer h = ground (arith, length-append outer (i ∷ []))

module _ (c : Setup) (outer : List NodeId) (i : NodeId) (own : owner i ≡ i) where
  IsReady-enter : (s : Compiling) → IsReady c outer s → IsReady c (add i outer) (enter i s)
  IsReady-enter s r = record {
    within_same = ap (add i) r.within_same;
    nodes_well = r.nodes_well;
    owned = λ k h. ground (arith, r.owned k, has-add (owner k) i s.visiting);
    previewed = r.previewed;
    asked = r.asked;
    questions_well = r.questions_well;
  }

  After-leave :
      (s t : Compiling)
      → has i outer ≡ false
      → After c (add i outer) (made_within outer) (enter i s) t
      → Made i t
      → After c outer (made_within outer) s (leave i t)
  After-leave s t new a made = record {
    ready = record {
      within_same = ap (discard i) a.ready.within_same ∙ discard-add i outer new;
      nodes_well = a.ready.nodes_well;
      owned = λ k h. elim (Bool-cases (owner k == i)) [
        | inl same ↦
            let e = (==_iff (owner k) i).0 same in
            let there : contains (owner k) t.nodes ≡ true =
              subst (λ l. contains l t.nodes ≡ true) (sym e) made in
            ground arith
        | inr other ↦
            let all_ = a.ready.owned k h in
            let marked : has (owner k) t.visiting ≡ has (owner k) (add i outer) =
              ap (has (owner k)) a.ready.within_same in
            let left : has (owner k) (discard i t.visiting) ≡ has (owner k) outer =
              ap (has (owner k)) (ap (discard i) a.ready.within_same ∙ discard-add i outer new) in
            ground (arith, has-add (owner k) i outer)
      ];
      previewed = a.ready.previewed;
      asked = a.ready.asked;
      questions_well = a.ready.questions_well;
    };
    kept = a.kept;
    spared = a.spared;
  }

  leave_result :
      (s : Compiling) (r : Result (Unit {0} × Compiling))
      → has i outer ≡ false
      → Post c (add i outer) (made_within outer) (enter i s) (λ x t. Made i t) r
      → Post c outer
          (made_within outer)
          s
          (λ k t. (k ≡ i) × Made k t)
          (elim r [ ok (x, t) ↦ ok (i, leave i t) | raise e ↦ raise e ])
  leave_result s r new (returned x t a made) =
      returned i (leave i t) (After-leave s t new a made) (refl, made)
  leave_result s r new (raised d) = raised d

  pub once-Post :
      (d : Diagnostic) (body : Compile (Unit {0})) (s : Compiling)
      → IsReady c outer s
      → (has i outer ≡ false
          → contains i s.nodes ≡ false
          → IsReady c (add i outer) (enter i s)
          → Post c
              (add i outer)
              (made_within outer)
              (enter i s)
              (λ x t. Made i t)
              (body (enter i s)))
      → Post c outer (made_within outer) s (λ k t. (k ≡ i) × Made k t) (once i (fail_with d) body s)
  unfolding once
  once-Post d body s r made = Post-read c outer _ s _ _ (
      Post-choose c outer _ s (contains i s.nodes) _ _
        (λ old. Post-pure c outer _ s i r (refl, old))
        (λ new.
          Post-choose c outer _ s (has i s.visiting) _ _ (λ cycle. Post-fail c outer _ s d)
            (λ fresh.
              let apart : has i outer ≡ false = subst (λ l. has i l ≡ false) r.within_same fresh in
              unfold ◌>>=◌ modify pure in
              leave_result s (body (enter i s)) apart (made apart new (IsReady-enter s r)))))
