-- ===== src/State/Store/Current.antt =====
-- state.py: `EvidenceStore.is_current`.
use jev_frame.Prelude.{
  ℕ, zero, suc, ◌<◌, String, ◌≡◌, refl, sym, subst, ◌↔◌, ◌⊎◌, Bool, true, false, ◌||◌, some, List,
  [], ◌∷◌, ◌++◌, arith, ◌==◌, ==_iff, string_eq, inl, inr, Bool-cases, Option-cases, length,
  if◌then◌else◌,
}
use jev_frame.Prelude.Set.{has, has-append}
use jev_frame.Prelude.Dict.{lookup, contains}
use jev_frame.Errors.{Result, ok, raise}
use jev_frame.State.Evidence.{Evidence, is_completed, is_expired}
use jev_frame.State.Store.{Store, all_current, is_current_in, is_current}
use jev_frame.State.Store.WellFormed.{IsWellFormed, index, index-lt}

-- A record is current at `now` if it is a completed execution, or if it is neither stale nor
-- expired and all of its dependencies are current.
pub data IsCurrent (s : Store) (now : ℕ) : String → Type 0 where
  completed :
      (id : String) (r : Evidence)
      → lookup id s.records ≡ some r
      → is_completed r ≡ true
      → IsCurrent s now id
  fresh :
      (id : String) (r : Evidence)
      → lookup id s.records ≡ some r
      → (has id s.stale || is_expired r now) ≡ false
      → ((d : String) → has d r.dependencies ≡ true → IsCurrent s now d)
      → IsCurrent s now id

-- The answer `a` is a Boolean, and decides `P`.
abbrev Decides : Type 0 → Result Bool → Type 0
Decides P (ok true) = P
Decides P (ok false) = ¬ P
Decides P (raise e) = ⊥

module _ (P : String → Type 0) where
  abbrev AllOf : List String → Type 0
  AllOf ds = (d : String) → has d ds ≡ true → P d

  AllOf-cons : (x : String) (ds : List String) → P x → AllOf ds → AllOf (x ∷ ds)
  AllOf-cons x ds first rest d m = elim (Bool-cases (d == x)) [
    | inl same ↦ subst P (sym ((==_iff d x).0 same)) first
    | inr other ↦ rest d (ground arith)
  ]

  AllOf-tail : (x : String) (ds : List String) → AllOf (x ∷ ds) → AllOf ds
  AllOf-tail x ds all d m = all d (ground arith)

  Decides-cons :
      (x : String) (ds : List String) (first rest : Result Bool)
      → Decides (P x) first
      → Decides (AllOf ds) rest
      → Decides
          (AllOf (x ∷ ds))
          (elim first [ raise e ↦ raise e | ok b ↦ if b then rest else ok false ])
  Decides-cons x ds (ok true) (ok true) p q = AllOf-cons x ds p q
  Decides-cons x ds (ok true) (ok false) p q = λ all. q (AllOf-tail x ds all)
  Decides-cons x ds (ok true) (raise e) p q = q
  Decides-cons x ds (ok false) rest p q = λ all. p (all x (ground (arith, ==_iff x x)))
  Decides-cons x ds (raise e) rest p q = absurd p

  all_current-Decides :
      (test : String → Result Bool) (ds : List String)
      → ((d : String) → has d ds ≡ true → Decides (P d) (test d))
      → Decides (AllOf ds) (all_current test ds)
  all_current-Decides test [] h = λ d m. absurd cc
  all_current-Decides test (x ∷ ds) h =
      Decides-cons x ds (test x) (all_current test ds) (h x (ground (arith, ==_iff x x)))
        (all_current-Decides test ds (λ d m. h d (ground arith)))

module _ (s : Store) (now : ℕ) where
  IsCurrent-cases :
      {id : String} (r : Evidence)
      → lookup id s.records ≡ some r
      → IsCurrent s now id
      → (is_completed r ≡ true)
        ⊎ ((has id s.stale || is_expired r now) ≡ false) × AllOf (IsCurrent s now) r.dependencies
  IsCurrent-cases r found (completed id q found' done) =
      let same : q ≡ r = ground arith in inl (subst (λ e. is_completed e ≡ true) same done)
  IsCurrent-cases r found (fresh id q found' clear all) =
      let same : q ≡ r = ground arith in
      inr (
        subst (λ e. (has id s.stale || is_expired e now) ≡ false) same clear,
        subst (λ (e : Evidence). AllOf (IsCurrent s now) e.dependencies) same all,
      )

  Decides-fresh :
      (id : String) (r : Evidence) (inner : Result Bool)
      → lookup id s.records ≡ some r
      → is_completed r ≡ false
      → (has id s.stale || is_expired r now) ≡ false
      → Decides (AllOf (IsCurrent s now) r.dependencies) inner
      → Decides (IsCurrent s now id) inner
  Decides-fresh id r (ok true) found open_ clear all = fresh id r found clear all
  Decides-fresh id r (ok false) found open_ clear some_not =
      λ c. elim (IsCurrent-cases r found c) [ inl done ↦ cc | inr (_, all) ↦ some_not all ]
  Decides-fresh id r (raise e) found open_ clear none_ = none_

  module _ (fuel : ℕ) (id : String) (checking : List String) (r : Evidence)
      (found : lookup id s.records ≡ some r) where
    step_completed : is_completed r ≡ true → is_current_in s now (suc fuel) id checking ≡ ok true
    unfolding is_current_in
    step_completed h = ground arith

    step_outdated :
        is_completed r ≡ false
        → (has id s.stale || is_expired r now) ≡ true
        → is_current_in s now (suc fuel) id checking ≡ ok false
    unfolding is_current_in
    step_outdated h k = ground arith

    step_dependencies :
        is_completed r ≡ false
        → (has id s.stale || is_expired r now) ≡ false
        → has id checking ≡ false
        → is_current_in s now (suc fuel) id checking
          ≡ all_current (λ d. is_current_in s now fuel d (id ∷ checking)) r.dependencies
    unfolding is_current_in
    step_dependencies h k n = ground arith

  not_checking :
      (id : String) (checking : List String)
      → ((c : String) → has c checking ≡ true → index id s.records < index c s.records)
      → has id checking ≡ false
  not_checking id checking above = elim (Bool-cases (has id checking)) [
    | inl twice ↦ absurd (omega (arith, above id twice))
    | inr once ↦ once
  ]

  above_cons :
      (id d : String) (checking : List String)
      → index d s.records < index id s.records
      → ((c : String) → has c checking ≡ true → index id s.records < index c s.records)
      → (c : String) → has c (id ∷ checking) ≡ true
      → index d s.records < index c s.records
  above_cons id d checking below above c m = elim (Bool-cases (c == id)) [
    | inl same ↦
        subst (λ j. index d s.records < index j s.records) (sym ((==_iff c id).0 same)) below
    | inr other ↦ omega (arith, above c (ground arith))
  ]

  is_current_in-Decides :
      IsWellFormed s
      → (fuel : ℕ) (id : String) (checking : List String) → contains id s.records ≡ true
      → index id s.records < fuel
      → ((c : String) → has c checking ≡ true → index id s.records < index c s.records)
      → Decides (IsCurrent s now id) (is_current_in s now fuel id checking)
  is_current_in-Decides wf zero id checking known enough above = absurd (omega arith)
  is_current_in-Decides wf (suc fuel) id checking known enough above =
      elim (Option-cases (lookup id s.records)) [
        | inl e ↦ absurd (ground arith)
        | inr (r, found) ↦ elim (Bool-cases (is_completed r)) [
          | inl done ↦ rw (step_completed fuel id checking r found done) (completed id r found done)
          | inr open_ ↦ elim (Bool-cases (has id s.stale || is_expired r now)) [
            | inl old ↦
                rw (step_outdated fuel id checking r found open_ old)
                  (λ c. elim (IsCurrent-cases r found c) [ inl done ↦ cc | inr (clear, _) ↦ cc ])
            | inr clear ↦
                rw
                  (step_dependencies fuel id checking r found open_ clear
                    (not_checking id checking above))
                  (Decides-fresh id r _ found open_ clear (
                    all_current-Decides (IsCurrent s now) _ r.dependencies (λ d m.
                      let below = wf.resolved id r d found (
                        ground (
                          arith,
                          has-append d r.dependencies (r.supersedes ++ r.conflicts_with),
                        )) in
                      is_current_in-Decides wf fuel d (id ∷ checking) (ground (arith, below.found))
                        (omega (arith, below.earlier))
                        (above_cons id d checking below.earlier above))))
          ]
        ]
      ]

answer : {P : Type 0} (a : Result Bool) → Decides P a → (b : Bool) × (a ≡ ok b) × ((b ≡ true) ↔ P)
answer (ok true) p = (true, refl, (λ _. p, λ _. refl))
answer (ok false) n = (false, refl, (λ h. cc, λ p. absurd (n p)))
answer (raise e) none_ = absurd none_

-- In a well-formed store `is_current` answers for every record, within the model's fuel and with
-- no error: never "evidence dependency cycle". It answers yes exactly for the current ones.
pub is_current_decides :
    (s : Store) (now : ℕ) (id : String)
    → IsWellFormed s
    → contains id s.records ≡ true
    → (b : Bool) × (is_current id now s ≡ ok b) × ((b ≡ true) ↔ IsCurrent s now id)
unfolding is_current
is_current_decides s now id wf known = answer _ (
    is_current_in-Decides s now wf (suc (length s.records)) id [] known
      (omega (arith, index-lt id s.records known)) (λ c m. absurd cc))

-- A record that is stale and no completed execution is not current, in any store.
pub stale-not_current :
    (s : Store) (now : ℕ) (id : String) (r : Evidence)
    → lookup id s.records ≡ some r
    → is_completed r ≡ false
    → has id s.stale ≡ true
    → is_current id now s ≡ ok false
unfolding is_current is_current_in
stale-not_current s now id r found open_ stale = ground arith
