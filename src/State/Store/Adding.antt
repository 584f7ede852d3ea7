-- ===== src/State/Store/Adding.antt =====
-- state.py: `EvidenceStore.add`.
use jev_frame.Prelude.{
  ◌<◌, String, ◌≡◌, refl, sym, subst, ◌∙◌, true, false, ◌||◌, some, List, [], ◌∷◌, ◌++◌, arith,
  ◌==◌, ==_iff, ==_refl, string_eq, inl, inr, Bool-cases, Option-cases, length, All, All-append,
  if◌then◌else◌,
}
use jev_frame.Prelude.Set.{has, has-append}
use jev_frame.Prelude.Dict.{lookup, insert, contains, lookup-insert, insert_new}
use jev_frame.Errors.{ok}
use jev_frame.State.Evidence.{Evidence}
use jev_frame.State.Store.{
  Store, add_record, index_record, check_references, invalidate, invalidate_all,
}
use jev_frame.State.Store.WellFormed.{
  IsWellFormed, IsOwn, Resolves, references, index, index-lt, index-append, index-append_new,
  has-link_dependents, has-link_conflicts,
}
use jev_frame.State.Store.Sweeping.{is_completed_at}
use jev_frame.State.Store.Invalidating.{
  DependsOn, itself, invalidate-Invalidated, Invalidated-IsWellFormed,
}

-- What the checks of `add` establish of each reference.
check_references-ok :
    (r : Evidence) (s : Store) (ds : List String) (d : String)
    → check_references r s ds ≡ ok tt
    → has d ds ≡ true
    → (t : Evidence) × (lookup d s.records ≡ some t) × (t.scope ≡ r.scope)
check_references-ok r s [] d h m = absurd (cc)
check_references-ok r s (x ∷ ds) d h m = elim (Option-cases (lookup x s.records)) [
  | inl e ↦ absurd (ground arith)
  | inr (t, e) ↦ elim (Bool-cases (d == x)) [
    | inl here ↦ (t, ground (arith, ==_iff d x), ground (arith, ==_iff t.scope r.scope))
    | inr later ↦ check_references-ok r s ds d (ground arith) (ground arith)
  ]
]

module _ (r : Evidence) (s : Store) (wf : IsWellFormed s) (new : contains r.id s.records ≡ false)
    (checked : check_references r s (references r) ≡ ok tt) where
  lookup_after :
      (k : String)
      → lookup k (insert r.id r s.records) ≡ (if r.id == k then some r else lookup k s.records)
  lookup_after k = lookup-insert k r.id r s.records

  appended : insert r.id r s.records ≡ s.records ++ (r.id, r) ∷ []
  appended = insert_new r.id r s.records (ground arith)

  index_after :
      (k : String)
      → contains k s.records ≡ true
      → index k (insert r.id r s.records) ≡ index k s.records
  index_after k h = rw appended (index-append k r.id r s.records h)

  index_new : index r.id (insert r.id r s.records) ≡ length s.records
  index_new = rw appended (index-append_new r.id r s.records new)

  -- the new record stands behind every other
  earlier_after :
      (k d : String) (t : Evidence)
      → lookup d s.records ≡ some t
      → r.id ≡ k
      → index d (insert r.id r s.records) < index k (insert r.id r s.records)
  earlier_after k d t found own =
      let known : contains d s.records ≡ true = ground arith in
      subst (λ j. index d (insert r.id r s.records) < index j (insert r.id r s.records)) own
        (omega (arith, index_after d known, index_new, index-lt d s.records known))

  resolved_after :
      (k : String) (q : Evidence) (d : String)
      → lookup k (insert r.id r s.records) ≡ some q
      → has d (references q) ≡ true
      → Resolves (index_record r s) k q d
  resolved_after k q d h m = elim (Bool-cases (r.id == k)) [
    | inl own ↦
        let same : r ≡ q = ground (arith, lookup_after k) in
        let (t, found, scope) = check_references-ok r s (references r) d checked (rw same m) in
        record {
          target = t;
          found = ground (arith, lookup_after d, ==_iff r.id d);
          same_scope = rw (← same) scope;
          earlier = earlier_after k d t found ((==_iff r.id k).0 own);
        }
    | inr other ↦
        let old = wf.resolved k q d (ground (arith, lookup_after k)) m in
        record {
          target = old.target;
          found = ground (arith, lookup_after d, old.found, ==_iff r.id d);
          same_scope = old.same_scope;
          earlier = omega (
            arith,
            index_after d (ground (arith, old.found)),
            index_after k (ground (arith, lookup_after k)),
            old.earlier,
          );
        }
  ]

  index_record-IsWellFormed : IsWellFormed (index_record r s)
  index_record-IsWellFormed = record {
    owned = subst (All IsOwn) (sym appended) (All-append IsOwn s.records _ wf.owned (refl, tt));
    own = λ k q h. ground (arith, lookup_after k, wf.own k q, ==_iff r.id k);
    resolved = resolved_after;
    dependents = λ b c. ground (
      arith,
      has-link_dependents r.id c b r.dependencies s.dependents,
      wf.dependents b c,
      lookup_after c,
      ==_iff r.id c,
      ==_iff c r.id,
    );
    conflicts = λ b c. ground (
      arith,
      has-link_conflicts r.id c b r.conflicts_with s.conflicts,
      wf.conflicts b c,
      lookup_after c,
      lookup_after b,
      ==_iff r.id c,
      ==_iff c r.id,
      ==_iff r.id b,
      ==_iff b r.id,
    );
    stale_known = λ k h. ground (arith, lookup_after k, wf.stale_known k h);
    stale_incomplete = λ k h.
        ground (arith, lookup_after k, wf.stale_known k h, wf.stale_incomplete k h, ==_iff r.id k);
  }

-- What the invalidations of `add` leave behind: the same records, and each id that they were given
-- stale, unless it is a completed execution.
record AllInvalidated (ids : List String) (s s' : Store) : Type 0 where
  wf : IsWellFormed s'
  records : s'.records ≡ s.records
  grows : (x : String) → has x s.stale ≡ true → has x s'.stale ≡ true
  marked : (x : String) → has x ids ≡ true → (has x s'.stale || is_completed_at s x) ≡ true

invalidate_all-cons :
    (x : String) (ids : List String) (s s' : Store) (affected : List String)
    → invalidate x s ≡ (ok affected, s')
    → invalidate_all (x ∷ ids) s ≡ invalidate_all ids s'
unfolding invalidate_all
invalidate_all-cons x ids s s' affected e = ground arith

invalidate_all-AllInvalidated :
    (ids : List String) (s : Store)
    → IsWellFormed s
    → ((x : String) → has x ids ≡ true → contains x s.records ≡ true)
    → (s' : Store) × (invalidate_all ids s ≡ (ok tt, s')) × AllInvalidated ids s s'
unfolding invalidate_all
invalidate_all-AllInvalidated [] s wf known =
    (s, refl, record { wf = wf; records = refl; grows = λ x h. h; marked = λ x h. cc })
invalidate_all-AllInvalidated (x ∷ ids) s wf known =
    let present : contains x s.records ≡ true = known x (ground (arith, ==_refl x)) in
    let (affected, s', e, i) = invalidate-Invalidated x s wf present in
    let wf' = Invalidated-IsWellFormed x s s' affected wf present i in
    let (t, e', rest) =
      invalidate_all-AllInvalidated ids s' wf' (λ y h. ground (arith, i.records, known y)) in
    (
      t,
      invalidate_all-cons x ids s s' affected e ∙ e',
      record {
        wf = rest.wf;
        records = rest.records ∙ i.records;
        grows = λ y h. rest.grows y (ground (arith, i.stale y));
        marked = λ y h. elim (Bool-cases (has y ids)) [
          | inl later ↦ ground (arith, rest.marked y later, i.records)
          | inr first ↦
              let here : has y affected ≡ true =
                (i.reached y).1
                  ∣ subst (DependsOn s x) ((==_iff x y).0 (ground (arith, ==_iff x y, ==_iff y x)))
                    itself ∣₁ in
              elim (Bool-cases (has y s'.stale)) [
                | inl stale ↦ ground (arith, rest.grows y stale)
                | inr fresh ↦ ground (arith, i.stale y)
              ]
        ];
      },
    )

add_record-runs :
    (r : Evidence) (s s' : Store)
    → contains r.id s.records ≡ false
    → check_references r s (references r) ≡ ok tt
    → invalidate_all r.supersedes (index_record r s) ≡ (ok tt, s')
    → add_record r s ≡ (ok r, s')
unfolding add_record
add_record-runs r s s' new checked e = ground arith

-- In a well-formed store, a record with a new id whose references all exist in its scope is added
-- behind the others. Its addition never fails half-way and leaves a well-formed store, in which what
-- was stale still is, and what it supersedes is stale too, save for completed executions.
pub add_record-Added :
    (r : Evidence) (s : Store)
    → IsWellFormed s
    → contains r.id s.records ≡ false
    → check_references r s (references r) ≡ ok tt
    → (s' : Store) × (add_record r s ≡ (ok r, s'))
      × IsWellFormed s'
      × (s'.records ≡ s.records ++ (r.id, r) ∷ [])
      × ((x : String) → has x s.stale ≡ true → has x s'.stale ≡ true)
      × ((x : String) → has x r.supersedes ≡ true → (has x s'.stale || is_completed_at s x) ≡ true)
add_record-Added r s wf new checked =
    let known = λ (x : String) (h : has x r.supersedes ≡ true).
      check_references-ok r s (references r) x checked (
        ground (
          arith,
          has-append x r.dependencies (r.supersedes ++ r.conflicts_with),
          has-append x r.supersedes r.conflicts_with,
        )) in
    let (s', e, all) =
      invalidate_all-AllInvalidated r.supersedes (index_record r s)
        (index_record-IsWellFormed r s wf new checked)
        (λ x h.
          let (t, found, scope) = known x h in ground (arith, lookup_after r s wf new checked x)) in
    (
      s',
      add_record-runs r s s' new checked e,
      all.wf,
      all.records ∙ appended r s wf new checked,
      all.grows,
      λ x h.
          let (t, found, scope) = known x h in
          ground (arith, all.marked x h, lookup_after r s wf new checked x, ==_iff r.id x),
    )
