-- ===== src/Artifacts/Steps.antt =====
-- artifacts.py, `_GenerateVerifyPlanner`: what a call of the planner does to the number of revisions
-- and to the turns that are left.
use jev_frame.Prelude.{
  sym, ap, subst, string_eq, ℕ, ◌+◌, ◌-◌, ◌*◌, ◌≤◌, ◌<◌, arith, String, Bool, true, false, List, [],
  ◌∷◌, length, length-append, map, ◌≡◌, refl, Option-cases, All, inl, inr,
}
use jev_frame.Errors.{Result, ok, raise, UnresolvedReason, Result-cases}
use jev_frame.State.Evidence.{Evidence, evidence}
use jev_frame.State.Store.{add_record}
use jev_frame.Planning.Turns.{
  PlannerResponse, plan_step, plan_revision, clarification_request, proposed_result,
  planner_handoff,
}
use jev_frame.State.Value.{Value}
use jev_frame.Artifacts.{
  CheckKind, deterministic, semantic, CheckSpec, ArtifactCheck, SemanticCheck, deterministic_spec,
  semantic_spec, deterministic_specs, semantic_specs,
}
use jev_frame.Artifacts.Planner.{
  Planner, Settings, Stage, initial, generation, complete, stopped, checking, stop,
  complete_artifact, start_checks, start_or_complete, verify_by, go_on, Revision,
}
use jev_frame.Artifacts.Calls.{
  generate, verify, retain, keep_digest, keep_revision, artifact_record, revision_of, registered,
  register,
}

-- The responses at which `PlannerEngine.run` returns.
abbrev pub is_final : PlannerResponse → Bool
is_final (plan_step _) = false
is_final (plan_revision _) = false
is_final (clarification_request _) = true
is_final (proposed_result _) = true
is_final (planner_handoff _) = true

-- The revisions that a stage still makes for sure.
abbrev pub ahead : Stage → ℕ
ahead initial = 1
ahead generation = 1
ahead _ = 0

-- The turns that are left to a stage, of `rounds` revisions that may still be made.
abbrev pub turns_left : Stage → ℕ → ℕ
turns_left initial rounds = 3 * rounds + 1
turns_left generation rounds = 3 * rounds
turns_left (checking deterministic) rounds = 3 * rounds + 2
turns_left (checking semantic) rounds = 3 * rounds + 1
turns_left complete rounds = 0
turns_left stopped rounds = 0

module _ (t : Settings) where
  abbrev pub bound : ℕ
  bound = t.recipe.max_revisions

  -- A planner that has not made more revisions than its recipe allows.
  abbrev pub IsWithin : Planner → Type 0
  IsWithin p = length p.revisions + ahead p.stage ≤ bound

  abbrev pub turns : Planner → ℕ
  turns p = turns_left p.stage (bound - length p.revisions)

  -- What an answer leaves: a planner within its bound that has fewer than `k` turns, unless the
  -- answer is final.
  abbrev pub Leaves : ℕ → Result PlannerResponse → Planner → Type 0
  Leaves k (raise e) p = length p.revisions ≤ bound
  Leaves k (ok r) p = IsWithin p × (is_final r ≡ false → turns p < k)

  pub stop-Leaves :
      (k : ℕ) (reason : UnresolvedReason) (detail : String) (p : Planner)
      → length p.revisions ≤ bound
      → let (r, p') = stop reason detail p in Leaves k r p'
  unfolding stop
  stop-Leaves k reason detail p h = (omega (arith, h), λ f. absurd cc)

  pub complete_artifact-Leaves :
      (k : ℕ) (p : Planner)
      → length p.revisions ≤ bound
      → let (r, p') = complete_artifact p in Leaves k r p'
  unfolding complete_artifact
  complete_artifact-Leaves k p h = elim (Option-cases p.current) [
    | inl e ↦ rw (e, complete_artifact) h
    | inr (c, e) ↦ rw (e, complete_artifact) (omega (arith, h), λ f. absurd cc)
  ]

  start_checks-Leaves :
      (k : ℕ) (first : CheckSpec) (rest : List CheckSpec) (p : Planner)
      → length p.revisions ≤ bound
      → turns_left (checking first.kind) (bound - length p.revisions) < k
      → let (r, p') = start_checks first rest p in Leaves k r p'
  unfolding start_checks
  start_checks-Leaves k first rest p h l = elim (Option-cases p.current) [
    | inl e ↦ rw (e, start_checks) h
    | inr (c, e) ↦ rw (e, start_checks) (omega (arith, h), λ f. l)
  ]

  pub generate-Leaves :
      (k : ℕ) (prompt : String) (p : Planner)
      → length p.revisions < bound
      → 3 * (bound - length p.revisions) < k
      → let (r, p') = generate t prompt p in Leaves k r p'
  unfolding generate
  generate-Leaves k prompt p h l = (omega (arith, h), λ f. l)

  -- the checks of a kind, or else the artifact as it is
  start_or_complete-Leaves :
      (k : ℕ) (cs : List CheckSpec) (p : Planner)
      → length p.revisions ≤ bound
      → All (λ c. turns_left (checking c.kind) (bound - length p.revisions) < k) cs
      → let (r, p') = start_or_complete cs p in Leaves k r p'
  unfolding start_or_complete
  start_or_complete-Leaves k [] p h l = complete_artifact-Leaves k p h
  start_or_complete-Leaves k (c ∷ cs) p h l = start_checks-Leaves k c cs p h l.0

  verify_by-Leaves :
      (k : ℕ) (first second : List CheckSpec) (p : Planner)
      → length p.revisions ≤ bound
      → All (λ c. turns_left (checking c.kind) (bound - length p.revisions) < k) first
      → All (λ c. turns_left (checking c.kind) (bound - length p.revisions) < k) second
      → let (r, p') = verify_by first second p in Leaves k r p'
  unfolding verify_by
  verify_by-Leaves k [] second p h l m = start_or_complete-Leaves k second p h m
  verify_by-Leaves k (c ∷ cs) second p h l m = start_checks-Leaves k c cs p h l.0

  pub go_on-Leaves :
      (k : ℕ) (kind : CheckKind) (second : List CheckSpec) (p : Planner)
      → length p.revisions ≤ bound
      → (kind ≡ deterministic
          → All (λ c. turns_left (checking c.kind) (bound - length p.revisions) < k) second)
      → let (r, p') = go_on kind second p in Leaves k r p'
  unfolding go_on
  go_on-Leaves k deterministic second p h m = start_or_complete-Leaves k second p h (m refl)
  go_on-Leaves k semantic second p h m = complete_artifact-Leaves k p h

  pub semantic_turns :
      (k rounds : ℕ) (cs : List SemanticCheck)
      → 3 * rounds + 1 < k
      → All (λ c. turns_left (checking c.kind) rounds < k) (map semantic_spec cs)
  unfolding semantic_spec
  semantic_turns k rounds [] l = tt
  semantic_turns k rounds (c ∷ cs) l = (l, semantic_turns k rounds cs l)

  deterministic_turns :
      (k rounds : ℕ) (cs : List ArtifactCheck)
      → 3 * rounds + 2 < k
      → All (λ c. turns_left (checking c.kind) rounds < k) (map deterministic_spec cs)
  deterministic_turns k rounds [] l = tt
  deterministic_turns k rounds (c ∷ cs) l = (l, deterministic_turns k rounds cs l)

  verify-Leaves :
      (k : ℕ) (p : Planner)
      → length p.revisions ≤ bound
      → 3 * (bound - length p.revisions) + 2 < k
      → let (r, p') = verify t p in Leaves k r p'
  unfolding verify
  verify-Leaves k p h l =
      verify_by-Leaves k (deterministic_specs t.recipe) (semantic_specs t.recipe) p h
        (deterministic_turns k (bound - length p.revisions) t.recipe.deterministic_checks l)
        (semantic_turns k (bound - length p.revisions) t.recipe.semantic_checks (omega (arith, l)))

  -- Retaining a record changes nothing but the store.
  revisions-retain : (r : Evidence) (p : Planner) → (retain t r p).1.revisions ≡ p.revisions
  unfolding retain
  revisions-retain r p = elim (Result-cases (evidence r)) [
    | inl (r', e) ↦ elim (Result-cases (add_record r' p.store).0) [
      | inl (a, e') ↦ ground arith
      | inr (x, e') ↦ ground arith
    ]
    | inr (x, e) ↦ ground arith
  ]

  registered-Leaves :
      (k : ℕ) (r : Revision) (kept : Result (Unit {0})) (p : Planner)
      → length p.revisions < bound
      → 3 * (bound - length p.revisions) ≤ k
      → let (r, p') = registered t r kept p in Leaves k r p'
  unfolding registered
  registered-Leaves k r (raise e) p h l = omega (arith, h)
  registered-Leaves k r (ok u) p h l =
      let longer = length-append p.revisions (r ∷ []) in
      verify-Leaves k (keep_revision t r p) (omega (arith, h, longer)) (omega (arith, h, l, longer))

  pub register-Leaves :
      (k now : ℕ) (ref : String) (value : Value) (digest : String) (p : Planner)
      → length p.revisions < bound
      → 3 * (bound - length p.revisions) ≤ k
      → let (r, p') = register t now ref value digest p in Leaves k r p'
  unfolding register
  register-Leaves k now ref value digest p h l =
      let q = keep_digest t digest p in
      let kept = retain t (artifact_record t now ref value digest) q in
      let same = ap length (revisions-retain (artifact_record t now ref value digest) q) in
      registered-Leaves k (revision_of t ref value digest) kept.0 kept.1 (omega (arith, h, same))
        (subst (λ n. 3 * (bound - n) ≤ k) (sym same) l)
