-- ===== src/Artifacts/Passing.antt =====
-- artifacts.py, `_GenerateVerifyPlanner`: the findings behind an artifact that the planner proposes.
use jev_frame.Prelude.{
  arith, String, Bool, true, false, not, ◌&&◌, ◌||◌, List, [], ◌∷◌, ◌++◌, map, all, all-map, All,
  Option, some, Option-cases, ◌≡◌, ◌≢◌, refl, subst, sym, ◌==◌, ==_refl, string_eq, inl, inr,
}
use jev_frame.Prelude.Set.{has}
use jev_frame.Prelude.Dict.{Dict}
use jev_frame.Errors.{Result, ok, raise, UnresolvedReason}
use jev_frame.Planning.Turns.{StepOutcome, PlannerResponse, proposed_result}
use jev_frame.Artifacts.{
  deterministic, semantic, CheckSpec, ArtifactCheck, SemanticCheck, deterministic_spec,
  semantic_spec, deterministic_specs, semantic_specs,
}
use jev_frame.Artifacts.Planner.{
  Planner, Settings, Stage, complete, checking, Revision, Finding, stop, complete_artifact,
  start_checks, start_or_complete,
}
use jev_frame.Artifacts.Findings.{finding_of, is_failure}

-- Whether some finding says that a check passed on a revision.
abbrev pub passed_on : String → String → List Finding → Bool
passed_on check revision [] = false
passed_on check revision (f ∷ fs) =
    f.check_id == check && f.artifact_revision_id == revision && f.passed
    || passed_on check revision fs

passed_on-append :
    (check revision : String) (fs gs : List Finding)
    → passed_on check revision (fs ++ gs)
      ≡ (passed_on check revision fs || passed_on check revision gs)
passed_on-append check revision [] gs = refl
passed_on-append check revision (f ∷ fs) gs = ground (arith, passed_on-append check revision fs gs)

module _ (t : Settings) where
  abbrev pub is_cleared : Revision → List Finding → CheckSpec → Bool
  is_cleared c fs s = not (has s.id t.recipe.completion.required_checks) || passed_on s.id c.id fs

  -- All required ones among some checks have passed on a revision.
  abbrev pub cleared : Revision → List Finding → List CheckSpec → Bool
  cleared c fs = all (is_cleared c fs)

  pub cleared-append :
      (c : Revision) (fs gs : List Finding) (cs : List CheckSpec)
      → cleared c fs cs ≡ true
      → cleared c (fs ++ gs) cs ≡ true
  cleared-append c fs gs cs h =
      all-map (is_cleared c fs) (is_cleared c (fs ++ gs)) cs
        (λ s k. ground (arith, passed_on-append s.id c.id fs gs)) h

  pub cleared-found :
      (c : Revision) (outcomes : Dict String StepOutcome) (before : List Finding)
      (cs : List CheckSpec)
      → all (λ f. not (is_failure f)) (map (finding_of t.recipe c outcomes) cs) ≡ true
      → cleared c (before ++ map (finding_of t.recipe c outcomes) cs) cs ≡ true
  unfolding finding_of
  cleared-found c outcomes before [] h = refl
  cleared-found c outcomes before (s ∷ cs) h =
      let f = finding_of t.recipe c outcomes s in
      let gs = map (finding_of t.recipe c outcomes) cs in
      let head = is_cleared c (before ++ f ∷ gs) s in
      let first : head ≡ true =
        ground (arith, passed_on-append s.id c.id before (f ∷ gs), ==_refl s.id, ==_refl c.id) in
      let rest : cleared c (before ++ f ∷ gs) cs ≡ true =
        all-map (is_cleared c (before ++ gs)) (is_cleared c (before ++ f ∷ gs)) cs
          (λ x k. ground (
            arith,
            passed_on-append x.id c.id before gs,
            passed_on-append x.id c.id before (f ∷ gs),
          ))
          (cleared-found c outcomes before cs (ground arith)) in
      ground (arith, first, rest)

  -- What a stage has of the current revision.
  abbrev pub IsVerified : Stage → Option Revision → List Finding → Type 0
  IsVerified (checking deterministic) current fs = deterministic_specs t.recipe ≢ []
  IsVerified (checking semantic) current fs =
      (c : Revision) → current ≡ some c → cleared c fs (deterministic_specs t.recipe) ≡ true
  IsVerified complete current fs =
      (c : Revision)
      → current ≡ some c
      → (cleared c fs (deterministic_specs t.recipe) ≡ true)
        × (cleared c fs (semantic_specs t.recipe) ≡ true)
  IsVerified _ current fs = Unit

  -- The value that is proposed is that of the current revision.
  abbrev pub IsProposal : PlannerResponse → Planner → Type 0
  IsProposal (proposed_result v) p =
      (p.stage ≡ complete) × ((c : Revision) × (p.current ≡ some c) × (c.value ≡ v))
  IsProposal _ p = Unit

  abbrev pub Shows : Result PlannerResponse → Planner → Type 0
  Shows (raise e) p = Unit
  Shows (ok r) p = IsVerified p.stage p.current p.findings × IsProposal r p

  pub stop-Shows :
      (reason : UnresolvedReason) (detail : String) (p : Planner)
      → let (r, p') = stop reason detail p in Shows r p'
  unfolding stop
  stop-Shows reason detail p = (tt, tt)

  pub complete_artifact-Shows :
      (p : Planner)
      → IsVerified complete p.current p.findings
      → let (r, p') = complete_artifact p in Shows r p'
  unfolding complete_artifact
  complete_artifact-Shows p h = elim (Option-cases p.current) [
    | inl e ↦ rw (e, complete_artifact) tt
    | inr (c, e) ↦ rw (e, complete_artifact) (h, (refl, (c, e, refl)))
  ]

  pub start_checks-Shows :
      (first : CheckSpec) (rest : List CheckSpec) (p : Planner)
      → IsVerified (checking first.kind) p.current p.findings
      → let (r, p') = start_checks first rest p in Shows r p'
  unfolding start_checks
  start_checks-Shows first rest p h = elim (Option-cases p.current) [
    | inl e ↦ rw (e, start_checks) tt
    | inr (c, e) ↦ rw (e, start_checks) (h, tt)
  ]

  start_or_complete-Shows :
      (cs : List CheckSpec) (p : Planner)
      → cs ≡ semantic_specs t.recipe
      → All (λ c. c.kind ≡ semantic) cs
      → IsVerified (checking semantic) p.current p.findings
      → let (r, p') = start_or_complete cs p in Shows r p'
  unfolding start_or_complete
  start_or_complete-Shows [] p e kinds h =
      complete_artifact-Shows p
        (λ c o. (h c o, subst (λ cs. cleared c p.findings cs ≡ true) e refl))
  start_or_complete-Shows (c ∷ cs) p e kinds h =
      start_checks-Shows c cs p
        (subst (λ kind. IsVerified (checking kind) p.current p.findings) (sym kinds.0) h)

  pub are_semantic : (cs : List SemanticCheck) → All (λ c. c.kind ≡ semantic) (map semantic_spec cs)
  unfolding semantic_spec
  are_semantic [] = tt
  are_semantic (c ∷ cs) = (refl, are_semantic cs)

  pub are_deterministic :
      (cs : List ArtifactCheck) → All (λ c. c.kind ≡ deterministic) (map deterministic_spec cs)
  are_deterministic [] = tt
  are_deterministic (c ∷ cs) = (refl, are_deterministic cs)

  pub semantic-Shows :
      (p : Planner)
      → IsVerified (checking semantic) p.current p.findings
      → let (r, p') = start_or_complete (semantic_specs t.recipe) p in Shows r p'
  semantic-Shows p =
      start_or_complete-Shows (semantic_specs t.recipe) p refl
        (are_semantic t.recipe.semantic_checks)
