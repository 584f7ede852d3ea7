-- ===== src/Artifacts/Accepting.antt =====
-- artifacts.py, `accepts` of `GenerateVerifyRecipe.run`: whether the host takes a value that the
-- planner proposes.
use jev_frame.Prelude.{
  ℕ, suc, String, Bool, true, false, ◌&&◌, List, [], ◌∷◌, ◌++◌, Option, none, some, ◌==◌, string_eq,
  if◌then◌else◌,
}
use jev_frame.Prelude.Set.{subset}
use jev_frame.Prelude.Dict.{Dict, lookup, insert, values}
use jev_frame.Errors.{Error, Result, ok, raise}
use jev_frame.Exec.{Exec}
use jev_frame.State.Value.{Value}
use jev_frame.State.Store.{Store, require_current}
use jev_frame.Artifacts.Planner.{Planner, Settings, Revision, Finding}

-- `{finding.check_id: finding for … if …}`, on what `d` holds already
abbrev pub by_check : String → List Finding → Dict String Finding → Dict String Finding
by_check revision [] d = d
by_check revision (f ∷ fs) d =
    by_check revision fs (if f.artifact_revision_id == revision then insert f.check_id f d else d)

-- A round of the loop over the required checks, with what the rest of the loop does.
unfoldable pub after_check : Result Bool × ℕ → Exec ℕ Bool → Result Bool × ℕ
after_check (raise e, m) rest = (raise e, m)
after_check (ok false, m) rest = (ok false, m)
after_check (ok true, m) rest = rest m

-- The successive values of `_clock()` are a function, and the state is how often it was read. A call
-- of `require_current` that raises before it reads the clock counts as a reading too.
module _ (scope : String) (clock : ℕ → ℕ) (s : Store) where
  -- `evidence.require_current` for each reference
  abbrev pub all_required : List String → Exec ℕ (Unit {0})
  all_required [] n = (ok tt, n)
  all_required (ref ∷ refs) n =
      let rest = all_required refs (suc n) in
      elim (require_current ref scope (clock n) s) [ raise e ↦ (raise e, suc n) | ok _ ↦ rest ]

  abbrev passes : Result (Unit {0}) → Result Bool
  passes (raise e) = raise e
  passes (ok _) = ok true

  abbrev pub check_finding : Option Finding → Exec ℕ Bool
  check_finding none n = (ok false, n)
  check_finding (some f) n =
      if f.passed
      then elim f.evidence_ref [
        | none ↦ (ok false, n)
        | some ref ↦ let (r, m) = all_required (ref ∷ f.source_refs) n in (passes r, m)
      ]
      else (ok false, n)

  -- The loop over the required checks.
  unfoldable pub check_required : Dict String Finding → List String → Exec ℕ Bool
  unfolding after_check
  check_required findings [] n = (ok true, n)
  check_required findings (i ∷ is) n =
      after_check (check_finding (lookup i findings) n) (check_required findings is)

abbrev pub is_state_error : Error → Bool
is_state_error Error.state_error = true
is_state_error Error.evidence_not_found_error = true
is_state_error Error.evidence_scope_error = true
is_state_error Error.stale_evidence_error = true
is_state_error Error.view_capacity_error = true
is_state_error Error.source_binding_error = true
is_state_error Error.candidate_selection_error = true
is_state_error _ = false

-- The fields that required findings which passed support.
abbrev pub supported_fields : List Finding → List String
supported_fields [] = []
supported_fields (f ∷ fs) =
    let rest = supported_fields fs in
    if f.required && f.passed then f.supports_fields ++ rest else rest

-- The body of the second `try` of `accepts`.
unfoldable pub check_revision : Settings → Planner → (ℕ → ℕ) → Store → Revision → Exec ℕ Bool
unfolding check_required
check_revision t p clock s c n =
    let rest =
      check_required t.scope clock s (by_check c.id p.findings [])
        t.recipe.completion.required_checks (suc n) in
    elim (require_current c.evidence_ref t.scope (clock n) s) [
      | raise e ↦ (raise e, suc n)
      | ok _ ↦ rest
    ]

-- That `try` with its `except`, and what comes after it.
unfoldable pub accepts_revision : Settings → Planner → (ℕ → ℕ) → Store → Revision → Exec ℕ Bool
unfolding check_revision
accepts_revision t p clock s c n =
    let (checked, m) = check_revision t p clock s c n in
    elim checked [
      | raise e ↦ if is_state_error e then (ok false, m) else (raise e, m)
      | ok false ↦ (ok false, m)
      | ok true ↦ (
        ok (
            subset t.recipe.completion.required_fields
              (supported_fields (values (by_check c.id p.findings [])))),
        m,
      )
    ]

-- `accepts`
unfoldable pub accepts_artifact : Settings → Planner → (ℕ → ℕ) → Store → Value → Exec ℕ Bool
unfolding accepts_revision
accepts_artifact t p clock s value n = elim (t.canonical_digest value) [
  | none ↦ (ok false, n)
  | some digest ↦ elim p.current [
    | none ↦ (ok false, n)
    | some c ↦ if digest == c.digest then accepts_revision t p clock s c n else (ok false, n)
  ]
]
