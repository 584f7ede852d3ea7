-- ===== src/Artifacts/Backed.antt =====
-- artifacts.py, `accepts` of `GenerateVerifyRecipe.run`: what a value that the host takes rests on.
use jev_frame.Prelude.{
  ℕ, suc, ◌≤◌, refl, none, Option, arith, String, Bool, true, false, List, [], ◌∷◌, some, ==_iff,
  string_eq, ◌≡◌, subst, inl, inr, All, Option-cases,
}
use mathlib.Core.List.{Memᴰ}
use native.Mathlib.Nat.{le_trans}
use jev_frame.Prelude.Dict.{lookup}
use jev_frame.Errors.{Result, ok, raise, Result-cases}
use jev_frame.Exec.{Exec}
use jev_frame.State.Value.{Value}
use jev_frame.State.Evidence.{Evidence}
use jev_frame.State.Store.{Store, require_current}
use jev_frame.Artifacts.Planner.{Planner, Settings, Revision, Finding}
use jev_frame.Artifacts.Accepting.{
  by_check, all_required, check_finding, after_check, check_required, check_revision,
  accepts_revision, accepts_artifact,
}
use jev_frame.Artifacts.Supporting.{by_check-lookup, IsFieldSupported, fields-IsFieldSupported}

module _ (scope : String) (clock : ℕ → ℕ) (s : Store) (start : ℕ) where
  -- The evidence with an id is there, in the scope, and current at a clock reading from `start` on.
  pub record IsCurrentIn (ref : String) : Type 0 where
    pub found : Evidence
    pub reading : ℕ
    pub late : start ≤ reading
    pub current : require_current ref scope (clock reading) s ≡ ok found

  -- One of the findings says that a check passed on a revision, and its evidence is current.
  pub record IsBacked (fs : List Finding) (revision i : String) : Type 0 where
    pub finding : Finding
    pub among : Memᴰ finding fs
    pub of_check : finding.check_id ≡ i
    pub on_revision : finding.artifact_revision_id ≡ revision
    pub has_passed : finding.passed ≡ true
    pub evidence_id : String
    pub refers : finding.evidence_ref ≡ some evidence_id
    pub evidence_current : IsCurrentIn evidence_id
    pub sources_current : All IsCurrentIn finding.source_refs

  all_required-current :
      (refs : List String) (n : ℕ)
      → start ≤ n
      → (all_required scope clock s refs n).0 ≡ ok tt
      → All IsCurrentIn refs
  all_required-current [] n l h = tt
  all_required-current (ref ∷ refs) n l h =
      elim (Result-cases (require_current ref scope (clock n) s)) [
        | inl (r, e) ↦ (
          record { found = r; reading = n; late = l; current = e },
          all_required-current refs (suc n) (omega (arith, l)) (ground arith),
        )
        | inr (x, e) ↦ absurd (ground arith)
      ]

  all_required-reads : (refs : List String) (n : ℕ) → n ≤ (all_required scope clock s refs n).1
  all_required-reads [] n = omega arith
  all_required-reads (ref ∷ refs) n = ground (arith, all_required-reads refs (suc n))

  check_finding-reads : (o : Option Finding) (n : ℕ) → n ≤ (check_finding scope clock s o n).1
  check_finding-reads none n = omega arith
  check_finding-reads (some f) n = elim (Option-cases f.evidence_ref) [
    | inl e ↦ ground arith
    | inr (ref, e) ↦ ground (arith, all_required-reads (ref ∷ f.source_refs) n)
  ]

  check_finding-IsBacked :
      (fs : List Finding) (revision i : String) (f : Finding) (n : ℕ)
      → Memᴰ f fs × (f.check_id ≡ i) × (f.artifact_revision_id ≡ revision)
      → start ≤ n
      → (check_finding scope clock s (some f) n).0 ≡ ok true
      → IsBacked fs revision i
  check_finding-IsBacked fs revision i f n (m, a, b) l h = elim (Option-cases f.evidence_ref) [
    | inl e ↦ absurd (ground arith)
    | inr (ref, e) ↦
        let all_ = all_required-current (ref ∷ f.source_refs) n l (ground arith) in
        record {
          finding = f;
          among = m;
          of_check = a;
          on_revision = b;
          has_passed = ground arith;
          evidence_id = ref;
          refers = e;
          evidence_current = all_.0;
          sources_current = all_.1;
        }
  ]

  after_check-true :
      (q : Result Bool × ℕ) (rest : Exec ℕ Bool)
      → (after_check q rest).0 ≡ ok true
      → (q.0 ≡ ok true) × ((rest q.1).0 ≡ ok true)
  unfolding after_check
  after_check-true (raise e, m) rest h = absurd cc
  after_check-true (ok false, m) rest h = absurd cc
  after_check-true (ok true, m) rest h = (refl, h)

  check_required-IsBacked :
      (fs : List Finding) (revision : String) (is : List String) (n : ℕ)
      → start ≤ n
      → (check_required scope clock s (by_check revision fs []) is n).0 ≡ ok true
      → All (IsBacked fs revision) is
  unfolding check_required after_check
  check_required-IsBacked fs revision [] n l h = tt
  check_required-IsBacked fs revision (i ∷ is) n l h =
      elim (Option-cases (lookup i (by_check revision fs []))) [
        | inl e ↦
            let bad : Result.ok false ≡ ok true =
              subst
                (λ o.
                  (after_check (check_finding scope clock s o n)
                    (check_required scope clock s (by_check revision fs []) is)).0
                  ≡ ok true)
                e h in
            absurd cc
        | inr (f, e) ↦ elim (by_check-lookup revision i fs [] f e) [
          | inr none_ ↦ absurd cc
          | inl known ↦
              let rest = check_required scope clock s (by_check revision fs []) is in
              let (now_, later) = after_check-true (check_finding scope clock s (some f) n) rest (
                subst (λ o. (after_check (check_finding scope clock s o n) rest).0 ≡ ok true) e
                  h) in
              (
                check_finding-IsBacked fs revision i f n known l now_,
                check_required-IsBacked fs revision is (check_finding scope clock s (some f) n).1
                    (le_trans l (check_finding-reads (some f) n)) later,
              )
        ]
      ]

-- What a value that is taken rests on.
pub record IsSupported (t : Settings) (p : Planner) (clock : ℕ → ℕ) (s : Store) (start : ℕ)
    (value : Value) : Type 0 where
  pub revision : Revision
  pub is_current : p.current ≡ some revision
  pub same_digest : t.canonical_digest value ≡ some revision.digest
  pub artifact_current : IsCurrentIn t.scope clock s start revision.evidence_ref
  pub checks :
      All
        (IsBacked t.scope clock s start p.findings revision.id)
        t.recipe.completion.required_checks
  pub fields : All (IsFieldSupported p.findings revision.id) t.recipe.completion.required_fields

accepts_revision-IsSupported :
    (t : Settings) (p : Planner) (clock : ℕ → ℕ) (s : Store) (n : ℕ) (value : Value) (c : Revision)
    → p.current ≡ some c
    → t.canonical_digest value ≡ some c.digest
    → (accepts_revision t p clock s c n).0 ≡ ok true
    → IsSupported t p clock s n value
unfolding accepts_revision check_revision
accepts_revision-IsSupported t p clock s n value c e d h =
    let findings = by_check c.id p.findings [] in
    elim (Result-cases (require_current c.evidence_ref t.scope (clock n) s)) [
      | inr (x, bad) ↦ absurd (ground arith)
      | inl (r, found) ↦
          let checked : (check_required t.scope clock s findings t.recipe.completion.required_checks
                (suc n)).0
              ≡ ok true =
            ground arith in
          record {
            revision = c;
            is_current = e;
            same_digest = d;
            artifact_current = record {
              found = r;
              reading = n;
              late = omega arith;
              current = found;
            };
            checks =
                check_required-IsBacked t.scope clock s n p.findings c.id
                  t.recipe.completion.required_checks (suc n) (omega arith) checked;
            fields =
                fields-IsFieldSupported c.id p.findings t.recipe.completion.required_fields
                  (ground arith);
          }
    ]

-- A value that the host takes has the digest of the planner's current revision, whose evidence is
-- current; each required check has a finding that it passed on this revision, with its evidence and its
-- sources current; and each required field is supported by a required finding that passed on this
-- revision. The evidence is current at readings of the clock that accepts makes itself.
pub accepts_artifact-IsSupported :
    (t : Settings) (p : Planner) (clock : ℕ → ℕ) (s : Store) (n : ℕ) (value : Value)
    → (accepts_artifact t p clock s value n).0 ≡ ok true
    → IsSupported t p clock s n value
unfolding accepts_artifact
accepts_artifact-IsSupported t p clock s n value h =
    elim (Option-cases (t.canonical_digest value)) [
      | inl e ↦ absurd (ground arith)
      | inr (d, e) ↦ elim (Option-cases p.current) [
        | inl e' ↦ absurd (ground arith)
        | inr (c, e') ↦
            accepts_revision-IsSupported t p clock s n value c e'
              (ground (arith, ==_iff d c.digest)) (ground arith)
      ]
    ]
