-- ===== src/State/Store/Lasting.antt =====
-- state.py: what an invalidation means for the rest of a run.
use jev_frame.Prelude.{
  ℕ, String, ◌≡◌, refl, sym, subst, true, false, some, List, [], ◌∷◌, arith, inl, inr, Bool-cases,
  string_eq, ◌++◌,
}
use jev_frame.Prelude.Set.{has}
use jev_frame.Prelude.Dict.{Dict, lookup, contains}
use jev_frame.Errors.{Result, ok, Result-cases}
use jev_frame.State.Evidence.{Evidence, is_completed}
use jev_frame.State.Store.{Store, add_record, invalidate, is_current, check_references}
use jev_frame.State.Store.WellFormed.{IsWellFormed, references}
use jev_frame.State.Store.Invalidating.{
  DependsOn, Invalidated, invalidate-Invalidated, invalidate_unknown, Invalidated-IsWellFormed,
  invalidate-IsWellFormed,
}
use jev_frame.State.Store.Adding.{add_record-Added}
use jev_frame.State.Store.History.{
  Change, added, invalidated, build, add_record-IsWellFormed, add_record-known,
  add_record-unresolved,
}
use jev_frame.State.Store.Current.{stale-not_current}

lookup-append :
    (k : String) (r : Evidence) (d : Dict String Evidence) (q : Evidence)
    → lookup k d ≡ some q
    → lookup k (d ++ (r.id, r) ∷ []) ≡ some q
lookup-append k r [] q h = cc
lookup-append k r ((j, v) ∷ d) q h = ground (arith, lookup-append k r d q)

-- Records stay, and what is stale stays stale.
record Lasts (s s' : Store) : Type 0 where
  kept : (k : String) (r : Evidence) → lookup k s.records ≡ some r → lookup k s'.records ≡ some r
  stays_stale : (k : String) → has k s.stale ≡ true → has k s'.stale ≡ true

Lasts-refl : (s s' : Store) → s' ≡ s → Lasts s s'
Lasts-refl s s' e = record { kept = λ k r h. ground arith; stays_stale = λ k h. ground arith }

Lasts-trans : {s t u : Store} → Lasts s t → Lasts t u → Lasts s u
Lasts-trans a b = record {
  kept = λ k r h. b.kept k r (a.kept k r h);
  stays_stale = λ k h. b.stays_stale k (a.stays_stale k h);
}

Invalidated-Lasts :
    (s s' : Store) (a : String) (affected : List String) → Invalidated s s' a affected → Lasts s s'
Invalidated-Lasts s s' a affected i = record {
  kept = λ k r h. ground (arith, i.records);
  stays_stale = λ k h. ground (arith, i.stale k);
}

invalidate-Lasts : (id : String) (s : Store) → IsWellFormed s → Lasts s (invalidate id s).1
invalidate-Lasts id s wf = elim (Bool-cases (contains id s.records)) [
  | inl present ↦
      let (affected, s', e, i) = invalidate-Invalidated id s wf present in
      subst (λ (q : Result (List String) × Store). Lasts s q.1) (sym e)
        (Invalidated-Lasts s s' id affected i)
  | inr absent ↦
      subst (λ (q : Result (List String) × Store). Lasts s q.1)
        (sym (invalidate_unknown id s absent)) (Lasts-refl s s refl)
]

add_record-Lasts : (r : Evidence) (s : Store) → IsWellFormed s → Lasts s (add_record r s).1
add_record-Lasts r s wf = elim (Bool-cases (contains r.id s.records)) [
  | inl known ↦ Lasts-refl s _ (add_record-known r s known)
  | inr new ↦ elim (Result-cases (check_references r s (references r))) [
    | inr (e, h) ↦ Lasts-refl s _ (add_record-unresolved r s e h)
    | inl (tt, checked) ↦
        let (s', e, _, records, grows, _) = add_record-Added r s wf new checked in
        subst (λ (q : Result Evidence × Store). Lasts s q.1) (sym e)
          (record {
            kept = λ k q h. ground (arith, records, lookup-append k r s.records q h);
            stays_stale = grows;
          })
  ]
]

build-Lasts : (cs : List Change) (s : Store) → IsWellFormed s → Lasts s (build cs s)
unfolding build
build-Lasts [] s wf = Lasts-refl s s refl
build-Lasts (added r ∷ cs) s wf =
    Lasts-trans (add_record-Lasts r s wf)
      (build-Lasts cs (add_record r s).1 (add_record-IsWellFormed r s wf))
build-Lasts (invalidated id ∷ cs) s wf =
    Lasts-trans (invalidate-Lasts id s wf)
      (build-Lasts cs (invalidate id s).1 (invalidate-IsWellFormed id s wf))

-- Once a record has been invalidated, every record that depends on it and is no completed execution
-- is reported as not current for the rest of the run, whatever is added or invalidated later and at
-- whatever time it is asked for.
pub invalidate_lasts :
    (s : Store) (a x : String) (r : Evidence) (cs : List Change) (now : ℕ)
    → IsWellFormed s
    → contains a s.records ≡ true
    → DependsOn s a x
    → lookup x s.records ≡ some r
    → is_completed r ≡ false
    → is_current x now (build cs (invalidate a s).1) ≡ ok false
invalidate_lasts s a x r cs now wf present depends found open_ =
    let (affected, s', e, i) = invalidate-Invalidated a s wf present in
    let reached : has x affected ≡ true = (i.reached x).1 ∣ depends ∣₁ in
    let lasts = build-Lasts cs s' (Invalidated-IsWellFormed a s s' affected wf present i) in
    subst (λ (q : Result (List String) × Store). is_current x now (build cs q.1) ≡ ok false) (sym e)
      (stale-not_current (build cs s') now x r (lasts.kept x r (ground (arith, i.records))) open_
        (lasts.stays_stale x (ground (arith, i.stale x))))
