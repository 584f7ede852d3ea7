-- ===== src/Compiler/Search/Adding.antt =====
-- compiler.py: a node that is added behind its dependencies keeps the nodes of a `_Compiler` in order.
use jev_frame.Prelude.{
  String, Bool, true, false, ◌&&◌, ◌||◌, List, [], ◌∷◌, ◌++◌, none, some, all, All, All-map,
  all-map, ◌≡◌, refl, sym, subst, inl, inr, Option-cases, Bool-cases, arith, ◌==◌, ==_iff,
  string_eq,
}
use jev_frame.Prelude.Set.{has}
use jev_frame.Prelude.Dict.{
  Dict, lookup, insert, contains, lookup-insert, insert_new, All-insert, contains-insert,
}
use jev_frame.Compiler.Diagnostics.{NodeId, retrieve, judge, node_eq}
use jev_frame.Compiler.Program.{CompiledNode, CompiledQuestion, CandidatePreview}
use jev_frame.Compiler.Questions.{is_nil}
use jev_frame.Compiler.Steps.{Setup, Compiling}
use jev_frame.Compiler.Search.Invariant.{
  follows, is_resolved, reports, is_honest, AreNodes, owner, IsQuestion, HasPreview, IsReady, After,
}

follows-add :
    (done : List NodeId) (d : Dict NodeId CompiledNode) (i : NodeId) (n : CompiledNode)
    → follows done d ≡ true
    → all (λ x. has x done || contains x d) n.dependencies ≡ true
    → follows done (d ++ (i, n) ∷ []) ≡ true
follows-add done [] i n f h =
    ground (
      arith,
      all-map (λ x. has x done || false) (λ x. has x done) n.dependencies (λ x. ground arith),
    )
follows-add done ((j, m) ∷ d) i n f h = ground (
  arith,
  follows-add (j ∷ done) d i n (ground arith) (all-map _ _ n.dependencies (λ x k. ground arith) h),
)

-- What is in a dict is there after a new item is inserted.
pub lookup-kept :
    (i k : NodeId) (n m : CompiledNode) (d : Dict NodeId CompiledNode)
    → lookup k d ≡ none
    → lookup i d ≡ some n
    → lookup i (insert k m d) ≡ some n
lookup-kept i k n m d new h = ground (arith, lookup-insert i k m d, ==_iff k i)

pub is_resolved-kept :
    (i : NodeId) (d e : Dict NodeId CompiledNode)
    → ((j : NodeId) (n : CompiledNode) → lookup j d ≡ some n → lookup j e ≡ some n)
    → is_resolved i d ≡ true
    → is_resolved i e ≡ true
is_resolved-kept i d e kept h = elim (Option-cases (lookup i d)) [
  | inl new ↦ absurd (ground arith)
  | inr (n, there) ↦ let there' = kept i n there in ground arith
]

is_honest-kept :
    (n : CompiledNode) (d e : Dict NodeId CompiledNode)
    → ((j : NodeId) (m : CompiledNode) → lookup j d ≡ some m → lookup j e ≡ some m)
    → is_honest d n ≡ true
    → is_honest e n ≡ true
is_honest-kept n d e kept h = elim (Bool-cases (reports n.kind && is_nil n.unresolved)) [
  | inr no_report ↦ ground arith
  | inl report ↦
      let all' =
        all-map (λ i. is_resolved i d) (λ i. is_resolved i e) n.dependencies
          (λ i r. is_resolved-kept i d e kept r) (ground arith) in
      ground arith
]

pub AreNodes-add :
    (d : Dict NodeId CompiledNode) (n : CompiledNode)
    → AreNodes d
    → lookup n.id d ≡ none
    → all (λ x. contains x d) n.dependencies ≡ true
    → is_honest d n ≡ true
    → AreNodes (insert n.id n d)
AreNodes-add d n a new known honest =
    let kept = λ (i : NodeId) (m : CompiledNode). lookup-kept i n.id m n d new in
    record {
      named = All-insert (λ e. e.1.id ≡ e.0) n.id n d refl a.named;
      ordered =
          subst (λ e. follows [] e ≡ true) (sym (insert_new n.id n d new))
            (follows-add [] d n.id n a.ordered known);
      honest =
          All-insert (λ e. is_honest (insert n.id n d) e.1 ≡ true) n.id n d
            (is_honest-kept n d (insert n.id n d) kept honest)
            (All-map _ _ d (λ e. is_honest-kept e.1 d (insert n.id n d) kept) a.honest);
    }

pub IsQuestion-kept :
    (c : Setup) (d e : Dict NodeId CompiledNode) (qs rs : Dict String CompiledQuestion) (i : String)
    (q : CompiledQuestion)
    → ((j : NodeId) (n : CompiledNode) → lookup j d ≡ some n → lookup j e ≡ some n)
    → ((k : String) → contains k qs ≡ true → contains k rs ≡ true)
    → IsQuestion c d qs i q
    → IsQuestion c e rs i q
IsQuestion-kept c d e qs rs i q kept asked h = record {
  options_bound = h.options_bound;
  levels_bound = h.levels_bound;
  asks = h.asks;
  resolved = λ t. is_resolved-kept (judge i) d e kept (h.resolved t);
  declared = h.declared;
  earlier = All-map _ _ q.dependencies (λ k. asked k) h.earlier;
}

module _ (c : Setup) (within : List NodeId) (guarded : NodeId → Bool) (s : Compiling)
    (n : CompiledNode) (ready : IsReady c within s) (new : lookup n.id s.nodes ≡ none)
    (known : all (λ x. contains x s.nodes) n.dependencies ≡ true)
    (honest : is_honest s.nodes n ≡ true)
    (owned : (contains (owner n.id) (insert n.id n s.nodes) || has (owner n.id) s.visiting) ≡ true)
    (free : guarded n.id ≡ false) where
  abbrev nodes' : Dict NodeId CompiledNode
  nodes' = insert n.id n s.nodes

  contains-nodes' : (i : NodeId) → contains i s.nodes ≡ true → contains i nodes' ≡ true
  contains-nodes' i h = ground (arith, contains-insert i n.id n s.nodes)

  -- A node is added, perhaps with a question or a preview.
  pub After-add :
      (qs : Dict String CompiledQuestion) (previews : Dict String CandidatePreview)
      → ((p : String) → contains (retrieve p) nodes' ≡ true → HasPreview c previews p)
      → ((j : String) → contains (judge j) nodes' ≡ true → contains j qs ≡ true)
      → All (λ e. IsQuestion c nodes' qs e.0 e.1) qs
      → After c within guarded s
          (record s { nodes = nodes'; questions = qs; candidates = previews })
  After-add qs previews previewed asked questions = record {
    ready = record {
      within_same = ready.within_same;
      nodes_well = AreNodes-add s.nodes n ready.nodes_well new known honest;
      owned = λ i h. elim (Bool-cases (n.id == i)) [
        | inl same ↦
            let e : n.id ≡ i = (==_iff n.id i).0 same in
            subst (λ k. (contains (owner k) nodes' || has (owner k) s.visiting) ≡ true) e owned
        | inr apart ↦ ground (
          arith,
          ready.owned i (ground (arith, contains-insert i n.id n s.nodes)),
          contains-nodes' (owner i),
        )
      ];
      previewed = previewed;
      asked = asked;
      questions_well = questions;
    };
    kept = λ i m h. lookup-kept i n.id m n s.nodes new h;
    spared = λ i h. ground (arith, lookup-insert i n.id n s.nodes, ==_iff n.id i);
  }

  -- A node is added that is neither a provider's nor a judgment's.
  pub After-add_node :
      ((p : String) → (n.id == retrieve p) ≡ false)
      → ((j : String) → (n.id == judge j) ≡ false)
      → After c within guarded s (record s { nodes = nodes' })
  After-add_node other other' =
      After-add s.questions s.candidates
        (λ p h.
          ready.previewed p (ground (arith, contains-insert (retrieve p) n.id n s.nodes, other p)))
        (λ j h. ready.asked j (ground (arith, contains-insert (judge j) n.id n s.nodes, other' j)))
        (All-map _ _ s.questions
          (λ e.
            IsQuestion-kept c s.nodes nodes' s.questions s.questions e.0 e.1
              (λ i m. lookup-kept i n.id m n s.nodes new) (λ k h. h))
          ready.questions_well)
