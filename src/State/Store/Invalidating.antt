-- ===== src/State/Store/Invalidating.antt =====
-- state.py: `EvidenceStore.invalidate`.
use mathlib.Core.Bool.{So-prop}
use mathlib.Core.Logic.{∥∥₁_elim, ∥∥₁_map}
use jev_frame.Prelude.{
  String, ◌≡◌, refl, sym, subst, ◌↔◌, true, false, not, ◌&&◌, ◌||◌, List, [], ◌∷◌, arith, string_eq,
  All, inl, inr, Bool-cases,
}
use jev_frame.Prelude.Set.{has}
use jev_frame.Prelude.Dict.{contains}
use jev_frame.Errors.{Result, ok, raise, evidence_not_found_error}
use jev_frame.State.Store.{Store, Sweep, sweep, sweep_fuel, done, invalidate}
use jev_frame.State.Store.Sweeping.{is_completed_at, Depends, here, step, LinksKnown, sweep-Reached}
use jev_frame.State.Store.WellFormed.{IsWellFormed, IsOwn, depends_on}

-- `x` is `a`, or has it among its dependencies at some depth.
pub data DependsOn (s : Store) (a : String) : String → Type 0 where
  itself : DependsOn s a a
  through : {b : String} (c : String) → DependsOn s a b → depends_on s c b ≡ true → DependsOn s a c

module _ (s : Store) (wf : IsWellFormed s) where
  known : LinksKnown s
  known b c h = ground (arith, wf.dependents b c)

  from_links : (a x : String) → Depends s a x → DependsOn s a x
  from_links a x here = itself
  from_links a x (step {b} c d h) = through c (from_links a b d) (ground (arith, wf.dependents b c))

  to_links : {a x : String} → DependsOn s a x → Depends s a x
  to_links itself = here
  to_links (through {b} c d h) = step c (to_links d) (ground (arith, wf.dependents b c))

-- `s'` is `s` with exactly the records that depend on `a` marked stale, save for completed
-- executions; `affected` lists the former.
pub record Invalidated (s s' : Store) (a : String) (affected : List String) : Type 0 where
  pub records : s'.records ≡ s.records
  pub dependents : s'.dependents ≡ s.dependents
  pub conflicts : s'.conflicts ≡ s.conflicts
  pub reached : (x : String) → (has x affected ≡ true) ↔ ∥ DependsOn s a x ∥₁
  pub stale :
      (x : String) → has x s'.stale ≡ (has x s.stale || has x affected && not (is_completed_at s x))

invalidate-sweep :
    (a : String) (s : Store) (t : Sweep)
    → contains a s.records ≡ true
    → sweep s (sweep_fuel s) (a ∷ []) (record { affected = []; stale = s.stale }) ≡ done t
    → invalidate a s ≡ (ok t.affected, record s { stale = t.stale })
unfolding invalidate
invalidate-sweep a s t present e = ground arith

-- In a well-formed store `invalidate` of a record returns, within the model's fuel. It reports
-- exactly the record and those that depend on it through any chain of dependencies, marks them
-- stale save for completed executions, and changes nothing else.
pub invalidate-Invalidated :
    (a : String) (s : Store)
    → IsWellFormed s
    → contains a s.records ≡ true
    → (affected : List String) × (s' : Store) × (invalidate a s ≡ (ok affected, s'))
      × Invalidated s s' a affected
invalidate-Invalidated a s wf present =
    let (t, e, r) = sweep-Reached s a (known s wf) present in
    (
      t.affected,
      record s { stale = t.stale },
      invalidate-sweep a s t present e,
      record {
        records = refl;
        dependents = refl;
        conflicts = refl;
        reached = λ x. (
          λ h. ∥∥₁_map ((r.reached x).0 h) (from_links s wf a x),
          λ d. (r.reached x).1 (∥∥₁_map d (to_links s wf)),
        );
        stale = r.stale;
      },
    )

DependsOn-known :
    (s : Store) (a : String) {x : String}
    → contains a s.records ≡ true
    → DependsOn s a x
    → contains x s.records ≡ true
DependsOn-known s a present itself = present
DependsOn-known s a present (through c d h) = ground arith

pub Invalidated-IsWellFormed :
    (a : String) (s s' : Store) (affected : List String)
    → IsWellFormed s
    → contains a s.records ≡ true
    → Invalidated s s' a affected
    → IsWellFormed s'
Invalidated-IsWellFormed a s s' affected wf present i = record {
  owned = subst (All IsOwn) (sym i.records) wf.owned;
  own = λ k r h. wf.own k r (ground (arith, i.records));
  resolved = λ k r d h m.
      let target = wf.resolved k r d (ground (arith, i.records)) m in
      record {
        target = target.target;
        found = ground (arith, i.records, target.found);
        same_scope = target.same_scope;
        earlier = rw i.records target.earlier;
      };
  dependents = λ b c. ground (arith, i.records, i.dependents, wf.dependents b c);
  conflicts = λ b c. ground (arith, i.records, i.conflicts, wf.conflicts b c);
  stale_known = λ k h. elim (Bool-cases (has k s.stale)) [
    | inl old ↦ ground (arith, i.records, wf.stale_known k old)
    | inr new ↦
        let reached : contains k s.records ≡ true =
          ∥∥₁_elim ((i.reached k).0 (ground (arith, i.stale k))) (So-prop _)
            (DependsOn-known s a present) in
        ground (arith, i.records)
  ];
  stale_incomplete = λ k h. ground (arith, i.records, i.stale k, wf.stale_incomplete k);
}

pub invalidate_unknown :
    (a : String) (s : Store)
    → contains a s.records ≡ false
    → invalidate a s ≡ (raise evidence_not_found_error, s)
unfolding invalidate
invalidate_unknown a s h = ground arith

pub invalidate-IsWellFormed :
    (a : String) (s : Store) → IsWellFormed s → IsWellFormed (invalidate a s).1
invalidate-IsWellFormed a s wf = elim (Bool-cases (contains a s.records)) [
  | inl present ↦
      let (affected, s', e, i) = invalidate-Invalidated a s wf present in
      subst (λ (r : Result (List String) × Store). IsWellFormed r.1) (sym e)
        (Invalidated-IsWellFormed a s s' affected wf present i)
  | inr absent ↦
      subst (λ (r : Result (List String) × Store). IsWellFormed r.1)
        (sym (invalidate_unknown a s absent)) wf
]
