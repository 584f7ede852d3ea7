-- ===== src/Compiler/Search/Invariant.antt =====
-- compiler.py: what holds of the fields of a `_Compiler` between the steps of its search.
use jev_frame.Prelude.{
  ◌≤◌, String, Bool, true, false, not, ◌&&◌, ◌||◌, List, [], ◌∷◌, ◌++◌, none, some, length, all,
  All, ◌≡◌, refl, ◌∙◌, inl, inr, Option-cases, arith, string_eq, map,
}
use jev_frame.Prelude.Set.{has, unique}
use jev_frame.Prelude.Dict.{Dict, lookup, contains, keys}
use jev_frame.Definitions.Tools.{Tool, Binding, judgment_binding}
use jev_frame.Definitions.Agents.{Judgment, CandidateSet}
use jev_frame.Compiler.Diagnostics.{NodeId, retrieve, derive, judge, invoke, complete, node_eq}
use jev_frame.Compiler.Program.{
  CompiledNode, CompiledQuestion, CandidatePreview, NodeKind, judgment, invocation,
}
use jev_frame.Compiler.Steps.{Setup, Compiling}
use jev_frame.Compiler.Questions.{is_nil, max_choice_options, max_score_levels}
use jev_frame.Compiler.Needs.{Target, judgment_target, tool_target}

-- The nodes that the search can be within.
abbrev pub marks : Setup → List NodeId
marks c = map judge (keys c.judgments) ++ map invoke (keys c.tools)

abbrev pub target_id : Target → NodeId
target_id (judgment_target j) = judge j.id
target_id (tool_target t) = invoke t.id

abbrev pub IsKnown : Setup → Target → Type 0
IsKnown c (judgment_target j) = lookup j.id c.judgments ≡ some j
IsKnown c (tool_target t) = lookup t.id c.tools ≡ some t

-- a binding by a judgment names a judgment that there is
abbrev pub is_bound : Setup → Binding → Bool
is_bound c (judgment_binding j) = contains j c.judgments
is_bound c _ = true

-- What `AgentDefinition` and the constructors of its parts guarantee.
pub record IsSound (c : Setup) : Type 0 where
  pub judgments_named : (k : String) (j : Judgment) → lookup k c.judgments ≡ some j → j.id ≡ k
  pub tools_named : (k : String) (t : Tool) → lookup k c.tools ≡ some t → t.id ≡ k
  pub producers_known :
      (r : String) (ts : List Tool)
      → lookup r c.producers ≡ some ts
      → All (λ t. lookup t.id c.tools ≡ some t) ts
  pub dependencies_known :
      (k : String) (j : Judgment)
      → lookup k c.judgments ≡ some j
      → All (λ d. contains d c.judgments ≡ true) j.dependencies
  pub bindings_known :
      (k : String) (t : Tool)
      → lookup k c.tools ≡ some t
      → All (λ b. is_bound c b.1 ≡ true) t.bindings
  pub parameters_unique :
      (k : String) (t : Tool) → lookup k c.tools ≡ some t → unique (keys t.bindings) ≡ true
  pub groups_known :
      (k : String) (t : Tool)
      → lookup k c.tools ≡ some t
      → All (λ group. All (λ name. contains name t.bindings ≡ true) group) t.binding_groups
  pub roots_known : All (λ r. contains r c.tools ≡ true) c.capability_roots

-- The visit that makes a node.
abbrev pub owner : NodeId → NodeId
owner (derive t p) = invoke t
owner (retrieve p) = retrieve p
owner (judge j) = judge j
owner (invoke t) = invoke t
owner (complete d) = complete d

-- In an order of nodes each stands behind its dependencies; `done` holds those before.
abbrev pub follows : List NodeId → Dict NodeId CompiledNode → Bool
follows done [] = true
follows done ((i, n) ∷ d) = all (λ x. has x done) n.dependencies && follows (i ∷ done) d

abbrev pub is_resolved : NodeId → Dict NodeId CompiledNode → Bool
is_resolved i d = elim (lookup i d) [ none ↦ false | some n ↦ is_nil n.unresolved ]

-- the kinds of node that report what their dependencies lack
abbrev pub reports : NodeKind → Bool
reports judgment = true
reports invocation = true
reports _ = false

-- A node of such a kind that lacks nothing has only dependencies that lack nothing.
abbrev pub is_honest : Dict NodeId CompiledNode → CompiledNode → Bool
is_honest d n =
    not (reports n.kind && is_nil n.unresolved) || all (λ i. is_resolved i d) n.dependencies

pub record AreNodes (d : Dict NodeId CompiledNode) : Type 0 where
  pub named : All (λ e. e.1.id ≡ e.0) d
  pub ordered : follows [] d ≡ true
  pub honest : All (λ e. is_honest d e.1 ≡ true) d

pub record IsQuestion (c : Setup) (d : Dict NodeId CompiledNode) (qs : Dict String CompiledQuestion)
    (i : String) (q : CompiledQuestion) : Type 0 where
  pub options_bound : length q.options ≤ max_choice_options
  pub levels_bound : length q.score_levels ≤ max_score_levels
  pub asks : q.judgment_id ≡ i
  pub resolved : q.dispatchable ≡ true → is_resolved (judge i) d ≡ true
  pub declared :
      (j : Judgment) × (lookup i c.judgments ≡ some j) × (q.dependencies ≡ j.dependencies)
  pub earlier : All (λ k. contains k qs ≡ true) q.dependencies

-- A provider's node comes with a preview, which is right about the snapshot.
pub record HasPreview (c : Setup) (previews : Dict String CandidatePreview) (p : String)
    : Type 0 where
  pub preview : CandidatePreview
  pub is_preview : lookup p previews ≡ some preview
  pub has_snapshot : preview.supplied ≡ true → (v : CandidateSet) × (lookup p c.snapshots ≡ some v)

module _ (c : Setup) (within : List NodeId) where
  pub record IsReady (s : Compiling) : Type 0 where
    pub within_same : s.visiting ≡ within
    pub nodes_well : AreNodes s.nodes
    pub owned :
        (i : NodeId)
        → contains i s.nodes ≡ true
        → (contains (owner i) s.nodes || has (owner i) s.visiting) ≡ true
    pub previewed :
        (p : String) → contains (retrieve p) s.nodes ≡ true → HasPreview c s.candidates p
    pub asked : (j : String) → contains (judge j) s.nodes ≡ true → contains j s.questions ≡ true
    pub questions_well : All (λ e. IsQuestion c s.nodes s.questions e.0 e.1) s.questions

abbrev pub is_completion : NodeId → Bool
is_completion (complete d) = true
is_completion _ = false

-- the nodes that are made within the visits that are going on, and the completion
abbrev pub made_within : List NodeId → NodeId → Bool
made_within within i = is_completion i || has (owner i) within

module _ (c : Setup) (within : List NodeId) (guarded : NodeId → Bool) where
  -- A later state of the search, at the same depth, in which the guarded nodes are as before.
  pub record After (s t : Compiling) : Type 0 where
    pub ready : IsReady c within t
    pub kept :
        (i : NodeId) (n : CompiledNode) → lookup i s.nodes ≡ some n → lookup i t.nodes ≡ some n
    pub spared : (i : NodeId) → guarded i ≡ true → lookup i t.nodes ≡ lookup i s.nodes

  pub After-self : (s : Compiling) → IsReady c within s → After s s
  After-self s r = record { ready = r; kept = λ i n h. h; spared = λ i h. refl }

  pub After-trans : (s t u : Compiling) → After s t → After t u → After s u
  After-trans s t u a b = record {
    ready = b.ready;
    kept = λ i n h. b.kept i n (a.kept i n h);
    spared = λ i h. b.spared i h ∙ a.spared i h;
  }

  pub contains-kept :
      (s t : Compiling) (i : NodeId)
      → After s t
      → contains i s.nodes ≡ true
      → contains i t.nodes ≡ true
  contains-kept s t i a h = elim (Option-cases (lookup i s.nodes)) [
    | inl e ↦ absurd (ground arith)
    | inr (n, e) ↦ let e' = a.kept i n e in ground arith
  ]
