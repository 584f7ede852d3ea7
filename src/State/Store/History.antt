-- ===== src/State/Store/History.antt =====
-- state.py: every store that `add` and `invalidate` can build.
use jev_frame.Prelude.{
  String, ◌≡◌, sym, subst, true, false, ◌||◌, List, [], ◌∷◌, ◌++◌, arith, inl, inr, Bool-cases,
  string_eq,
}
use jev_frame.Prelude.Dict.{contains}
use jev_frame.Prelude.Set.{has}
use jev_frame.State.Store.Sweeping.{is_completed_at}
use jev_frame.Errors.{Error, Result, ok, raise, Result-cases}
use jev_frame.State.Evidence.{Evidence}
use jev_frame.State.Store.{Store, new_store, add_record, invalidate, check_references}
use jev_frame.State.Store.WellFormed.{IsWellFormed, references, new_store-IsWellFormed}
use jev_frame.State.Store.Invalidating.{invalidate-IsWellFormed}
use jev_frame.State.Store.Adding.{add_record-Added}

pub add_record-known :
    (r : Evidence) (s : Store) → contains r.id s.records ≡ true → (add_record r s).1 ≡ s
unfolding add_record
add_record-known r s h = ground arith

pub add_record-unresolved :
    (r : Evidence) (s : Store) (e : Error)
    → check_references r s (references r) ≡ raise e
    → (add_record r s).1 ≡ s
unfolding add_record
add_record-unresolved r s e h = ground arith

pub add_record-IsWellFormed :
    (r : Evidence) (s : Store) → IsWellFormed s → IsWellFormed (add_record r s).1
add_record-IsWellFormed r s wf = elim (Bool-cases (contains r.id s.records)) [
  | inl known ↦ subst IsWellFormed (sym (add_record-known r s known)) wf
  | inr new ↦ elim (Result-cases (check_references r s (references r))) [
    | inr (e, h) ↦ subst IsWellFormed (sym (add_record-unresolved r s e h)) wf
    | inl (tt, checked) ↦
        let (s', e, wf', _, _, _) = add_record-Added r s wf new checked in
        subst (λ (q : Result Evidence × Store). IsWellFormed q.1) (sym e) wf'
  ]
]

add_record-accepted :
    (r : Evidence) (s : Store)
    → (add_record r s).0 ≡ ok r
    → (contains r.id s.records ≡ false) × (check_references r s (references r) ≡ ok tt)
unfolding add_record
add_record-accepted r s h = (ground arith, ground arith)

-- In a well-formed store an `add` that raises has changed nothing: the invalidations that follow
-- the first write cannot fail.
pub add_record_atomic :
    (r : Evidence) (s : Store) (e : Error)
    → IsWellFormed s
    → (add_record r s).0 ≡ raise e
    → (add_record r s).1 ≡ s
add_record_atomic r s e wf raised = elim (Bool-cases (contains r.id s.records)) [
  | inl known ↦ add_record-known r s known
  | inr new ↦ elim (Result-cases (check_references r s (references r))) [
    | inr (e', h) ↦ add_record-unresolved r s e' h
    | inl (tt, checked) ↦
        let (s', runs, _, _, _, _) = add_record-Added r s wf new checked in absurd (ground arith)
  ]
]

-- A record with a new id whose references all exist in its scope is added to a well-formed store,
-- behind the other records, and returned; the addition never fails half-way.
pub add_record_appends :
    (r : Evidence) (s : Store)
    → IsWellFormed s
    → contains r.id s.records ≡ false
    → check_references r s (references r) ≡ ok tt
    → ((add_record r s).0 ≡ ok r) × ((add_record r s).1.records ≡ s.records ++ (r.id, r) ∷ [])
add_record_appends r s wf new checked =
    let (s', e, _, records, _, _) = add_record-Added r s wf new checked in
    (ground arith, ground arith)

-- When a record has been added to a well-formed store, what it supersedes is stale, unless it is a
-- completed execution.
pub add_record_supersedes :
    (r : Evidence) (s : Store) (x : String)
    → IsWellFormed s
    → (add_record r s).0 ≡ ok r
    → has x r.supersedes ≡ true
    → (has x (add_record r s).1.stale || is_completed_at s x) ≡ true
add_record_supersedes r s x wf returned m =
    let (new, checked) = add_record-accepted r s returned in
    let (s', e, _, _, _, marked) = add_record-Added r s wf new checked in ground (arith, marked x m)

-- The calls that change a store.
pub data Change : Type 0 where
  added : Evidence → Change
  invalidated : String → Change

unfoldable pub change : Change → Store → Store
change (added r) s = (add_record r s).1
change (invalidated id) s = (invalidate id s).1

unfoldable pub build : List Change → Store → Store
unfolding change
build [] s = s
build (c ∷ cs) s = build cs (change c s)

build_from-IsWellFormed :
    (cs : List Change) (s : Store) → IsWellFormed s → IsWellFormed (build cs s)
unfolding build
build_from-IsWellFormed [] s wf = wf
build_from-IsWellFormed (added r ∷ cs) s wf =
    build_from-IsWellFormed cs (add_record r s).1 (add_record-IsWellFormed r s wf)
build_from-IsWellFormed (invalidated id ∷ cs) s wf =
    build_from-IsWellFormed cs (invalidate id s).1 (invalidate-IsWellFormed id s wf)

-- Every store that calls of `add` and `invalidate` have built, failing ones among them, is well
-- formed.
pub build-IsWellFormed : (cs : List Change) → IsWellFormed (build cs new_store)
build-IsWellFormed cs = build_from-IsWellFormed cs new_store new_store-IsWellFormed
