-- ===== src/State/Candidates.antt =====
-- state.py, `select_candidate`. The digest of a snapshot serializes by `json` and hashes by `hashlib`:
-- it is a parameter, `none` where it raises.
use mathlib.Core.List.Memᴰ
use mathlib.Core.List.{Memᴰ}
use jev_frame.Prelude.{
  arith, String, Bool, true, false, List, [], ◌∷◌, Option, none, some, ◌==◌, ==_iff, ==_refl,
  string_eq, ◌≡◌, ◌≢◌, sym, ap, subst, ◌⊎◌, inl, inr, Bool-cases, Option-cases, if◌then◌else◌,
}
use jev_frame.Prelude.Set.{has, unique}
use jev_frame.Errors.{Result, ok, raise, state_error, candidate_selection_error}
use jev_frame.Definitions.Agents.{
  Candidate, CandidateSet, Coverage, candidate_keys, no_fit_key, check_candidate_set,
}

pub data CandidateOutcome : Type 0 where
  selected no_fit : CandidateOutcome

pub record CandidateSelection : Type 0 where
  pub snapshot_digest : String
  pub coverage : Coverage
  pub outcome : CandidateOutcome
  pub candidate : Option Candidate

-- The loop of `select_candidate`.
unfoldable pub candidate_at : String → List Candidate → Option Candidate
candidate_at key [] = none
candidate_at key (c ∷ cs) = if c.key == key then some c else candidate_at key cs

module _ (candidate_snapshot_digest : CandidateSet → Option String) where
  unfoldable pub select_candidate : CandidateSet → String → Result CandidateSelection
  unfolding candidate_at
  select_candidate s key = elim (candidate_snapshot_digest s) [
    | none ↦ raise state_error
    | some digest ↦
        if key == no_fit_key
        then ok (record {
          snapshot_digest = digest;
          coverage = s.coverage;
          outcome = no_fit;
          candidate = none;
        })
        else elim (candidate_at key s.candidates) [
          | none ↦ raise candidate_selection_error
          | some c ↦ ok (record {
            snapshot_digest = digest;
            coverage = s.coverage;
            outcome = selected;
            candidate = some c;
          })
        ]
  ]

key_of-member :
    (c : Candidate) (cs : List Candidate) → Memᴰ c cs → has c.key (candidate_keys cs) ≡ true
key_of-member c [] m = absurd (Memᴰ.not-nil m)
key_of-member c (x ∷ cs) m = elim (Memᴰ.cases_cons m) [
  | inl e ↦ ground (arith, ap (λ (y : Candidate). y.key) e, ==_iff c.key x.key)
  | inr m' ↦ ground (arith, key_of-member c cs m')
]

candidate_at-member :
    (c : Candidate) (cs : List Candidate)
    → unique (candidate_keys cs) ≡ true
    → Memᴰ c cs
    → candidate_at c.key cs ≡ some c
unfolding candidate_at
candidate_at-member c [] u m = absurd (Memᴰ.not-nil m)
candidate_at-member c (x ∷ cs) u m = elim (Memᴰ.cases_cons m) [
  | inl e ↦
      let same : candidate_at x.key (x ∷ cs) ≡ some x = ground (arith, ==_refl x.key) in
      subst (λ (y : Candidate). candidate_at y.key (x ∷ cs) ≡ some y) (sym e) same
  | inr m' ↦
      let later = candidate_at-member c cs (ground arith) m' in
      ground (
        arith,
        later,
        key_of-member c cs m',
        ==_iff x.key c.key,
        λ (e : x.key ≡ c.key). ap (λ k. has k (candidate_keys cs)) e,
      )
]

candidate_at-found :
    (key : String) (cs : List Candidate) (c : Candidate)
    → candidate_at key cs ≡ some c
    → Memᴰ c cs × (c.key ≡ key)
unfolding candidate_at
candidate_at-found key [] c h = absurd cc
candidate_at-found key (x ∷ cs) c h = elim (Bool-cases (x.key == key)) [
  | inl same ↦
      let both : some x ≡ some c = ground arith in
      let e : x ≡ c = cc both in
      (Memᴰ.head (sym e), subst (λ (y : Candidate). y.key ≡ key) e ((==_iff x.key key).0 same))
  | inr apart ↦ let (m, e) = candidate_at-found key cs c (ground arith) in (Memᴰ.tail m, e)
]

unique_keys :
    (is_text is_version : String → Bool) (s : CandidateSet)
    → check_candidate_set is_text is_version s ≡ ok s
    → (unique (candidate_keys s.candidates) ≡ true)
      × (has no_fit_key (candidate_keys s.candidates) ≡ false)
unfolding check_candidate_set
unique_keys is_text is_version s h = (ground arith, ground arith)

module _ (candidate_snapshot_digest : CandidateSet → Option String) where
  -- In a snapshot that the constructor accepts and that has a digest, the key of each candidate selects
  -- this candidate.
  pub select_candidate-candidate_keys :
      (is_text is_version : String → Bool) (s : CandidateSet) (c : Candidate) (digest : String)
      → check_candidate_set is_text is_version s ≡ ok s
      → candidate_snapshot_digest s ≡ some digest
      → Memᴰ c s.candidates
      → select_candidate candidate_snapshot_digest s c.key
        ≡ ok (record {
          snapshot_digest = digest;
          coverage = s.coverage;
          outcome = selected;
          candidate = some c;
        })
  unfolding select_candidate
  select_candidate-candidate_keys is_text is_version s c digest h d m =
      let (u, f) = unique_keys is_text is_version s h in
      let found = candidate_at-member c s.candidates u m in
      let named = key_of-member c s.candidates m in
      ground (
        arith,
        found,
        named,
        f,
        ==_iff c.key no_fit_key,
        λ (e : c.key ≡ no_fit_key). ap (λ k. has k (candidate_keys s.candidates)) e,
      )

  -- What select_candidate returns has the digest and the coverage of the snapshot. For the reserved key
  -- it is the outcome that nothing fits, without a candidate. For any other key it is the outcome of a
  -- selection, with a candidate of the snapshot that has the key that was asked for.
  pub select_candidate-member :
      (s : CandidateSet) (key : String) (r : CandidateSelection)
      → select_candidate candidate_snapshot_digest s key ≡ ok r
      → (candidate_snapshot_digest s ≡ some r.snapshot_digest)
        × (r.coverage ≡ s.coverage)
        × (((key ≡ no_fit_key) × (r.outcome ≡ no_fit) × (r.candidate ≡ none))
            ⊎ ((c : Candidate) × Memᴰ c s.candidates
                × (c.key ≡ key)
                × (r.outcome ≡ selected)
                × (r.candidate ≡ some c)
                × (key ≢ no_fit_key)))
  unfolding select_candidate
  select_candidate-member s key r h = elim (Option-cases (candidate_snapshot_digest s)) [
    | inl e ↦ absurd (ground arith)
    | inr (digest, e) ↦ elim (Bool-cases (key == no_fit_key)) [
      | inl reserved ↦ (
        ground arith,
        ground arith,
        inl ((==_iff key no_fit_key).0 reserved, ground arith, ground arith),
      )
      | inr other ↦ elim (Option-cases (candidate_at key s.candidates)) [
        | inl missing ↦ absurd (ground arith)
        | inr (c, found) ↦
            let (m, k) = candidate_at-found key s.candidates c found in
            (
              ground arith,
              ground arith,
              inr (
                c,
                m,
                k,
                ground arith,
                ground arith,
                λ same. ground (arith, ==_iff key no_fit_key),
              ),
            )
      ]
    ]
  ]
