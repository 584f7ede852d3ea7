-- ===== src/Artifacts/Supporting.antt =====
-- artifacts.py, `accepts` of `GenerateVerifyRecipe.run`: which findings its dict of findings holds, and
-- which fields these support.
use jev_frame.Prelude.{
  refl, ◌&&◌, arith, String, true, List, [], ◌∷◌, some, ◌==◌, ==_iff, string_eq, ◌≡◌, subst, sym,
  inl, inr, ◌⊎◌, Bool-cases, All,
}
use mathlib.Core.List.Memᴰ
use mathlib.Core.List.{Memᴰ}
use jev_frame.Prelude.Dict.{Dict, lookup, insert, lookup-insert, values}
use jev_frame.Prelude.Set.{has, has-append, subset}
use jev_frame.Artifacts.Planner.{Finding}
use jev_frame.Artifacts.Accepting.{by_check, supported_fields}

pub by_check-lookup :
    (revision i : String) (fs : List Finding) (d : Dict String Finding) (f : Finding)
    → lookup i (by_check revision fs d) ≡ some f
    → (Memᴰ f fs × (f.check_id ≡ i) × (f.artifact_revision_id ≡ revision)) ⊎ (lookup i d ≡ some f)
by_check-lookup revision i [] d f h = inr h
by_check-lookup revision i (g ∷ fs) d f h = elim (by_check-lookup revision i fs _ f h) [
  | inl (m, a, b) ↦ inl (Memᴰ.tail m, a, b)
  | inr old ↦ elim (Bool-cases (g.artifact_revision_id == revision)) [
    | inr other ↦ inr (ground arith)
    | inl same ↦ elim (Bool-cases (g.check_id == i)) [
      | inl here_ ↦
          let both : some g ≡ some f =
            ground
              (arith, lookup-insert i g.check_id g d, ==_iff g.check_id i, ==_iff i g.check_id) in
          let e : g ≡ f = cc both in
          inl (
            Memᴰ.head (sym e),
            subst (λ x. x.check_id ≡ i) e ((==_iff g.check_id i).0 here_),
            subst (λ x. x.artifact_revision_id ≡ revision) e
                ((==_iff g.artifact_revision_id revision).0 same),
          )
      | inr apart ↦
          inr (
            ground
              (arith, lookup-insert i g.check_id g d, ==_iff i g.check_id, ==_iff g.check_id i))
    ]
  ]
]

values-insert :
    (k : String) (v f : Finding) (d : Dict String Finding)
    → Memᴰ f (values (insert k v d))
    → (f ≡ v) ⊎ Memᴰ f (values d)
values-insert k v f [] m = elim (Memᴰ.cases_cons m) [ inl e ↦ inl e | inr m' ↦ inr m' ]
values-insert k v f ((j, w) ∷ d) m = elim (Bool-cases (k == j)) [
  | inl same ↦
      let here_ : Memᴰ f (v ∷ values d) = subst (Memᴰ f) (ground arith) m in
      elim (Memᴰ.cases_cons here_) [ inl e ↦ inl e | inr m' ↦ inr (Memᴰ.tail m') ]
  | inr apart ↦
      let there_ : Memᴰ f (w ∷ values (insert k v d)) = subst (Memᴰ f) (ground arith) m in
      elim (Memᴰ.cases_cons there_) [
        | inl e ↦ inr (Memᴰ.head e)
        | inr m' ↦ elim (values-insert k v f d m') [ inl e ↦ inl e | inr m'' ↦ inr (Memᴰ.tail m'') ]
      ]
]

values-by_check :
    (revision : String) (fs : List Finding) (d : Dict String Finding) (f : Finding)
    → Memᴰ f (values (by_check revision fs d))
    → (Memᴰ f fs × (f.artifact_revision_id ≡ revision)) ⊎ Memᴰ f (values d)
values-by_check revision [] d f m = inr m
values-by_check revision (g ∷ fs) d f m = elim (values-by_check revision fs _ f m) [
  | inl (m', e) ↦ inl (Memᴰ.tail m', e)
  | inr old ↦ elim (Bool-cases (g.artifact_revision_id == revision)) [
    | inr other ↦ inr (subst (λ x. Memᴰ f (values x)) (ground arith) old)
    | inl same ↦
        let put : Memᴰ f (values (insert g.check_id g d)) =
          subst (λ x. Memᴰ f (values x)) (ground arith) old in
        elim (values-insert g.check_id g f d put) [
          | inr m' ↦ inr m'
          | inl e ↦ inl (
            Memᴰ.head e,
            subst (λ x. x.artifact_revision_id ≡ revision) (sym e)
                ((==_iff g.artifact_revision_id revision).0 same),
          )
        ]
  ]
]

-- A required finding about a revision, which passed, supports a field.
pub record IsFieldSupported (fs : List Finding) (revision x : String) : Type 0 where
  pub finding : Finding
  pub among : Memᴰ finding fs
  pub on_revision : finding.artifact_revision_id ≡ revision
  pub is_required : finding.required ≡ true
  pub has_passed : finding.passed ≡ true
  pub supports : has x finding.supports_fields ≡ true

supported_fields-finding :
    (x : String) (fs : List Finding)
    → has x (supported_fields fs) ≡ true
    → (f : Finding) × Memᴰ f fs
      × (f.required ≡ true)
      × (f.passed ≡ true)
      × (has x f.supports_fields ≡ true)
supported_fields-finding x [] h = absurd (ground arith)
supported_fields-finding x (g ∷ fs) h =
    elim (Bool-cases (g.required && g.passed && has x g.supports_fields)) [
      | inl own ↦ (g, Memᴰ.head refl, ground arith, ground arith, ground arith)
      | inr other ↦
          let (f, m, required, passed, supports) =
            supported_fields-finding x fs
              (ground (arith, has-append x g.supports_fields (supported_fields fs))) in
          (f, Memᴰ.tail m, required, passed, supports)
    ]

pub fields-IsFieldSupported :
    (revision : String) (fs : List Finding) (xs : List String)
    → subset xs (supported_fields (values (by_check revision fs []))) ≡ true
    → All (IsFieldSupported fs revision) xs
fields-IsFieldSupported revision fs [] h = tt
fields-IsFieldSupported revision fs (x ∷ xs) h =
    let (f, m, required, passed, supports) =
      supported_fields-finding x (values (by_check revision fs [])) (ground arith) in
    elim (values-by_check revision fs [] f m) [
      | inr none_ ↦ absurd (Memᴰ.not-nil none_)
      | inl (among, on_revision) ↦ (
        record {
          finding = f;
          among = among;
          on_revision = on_revision;
          is_required = required;
          has_passed = passed;
          supports = supports;
        },
        fields-IsFieldSupported revision fs xs (ground arith),
      )
    ]
