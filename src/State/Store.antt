-- ===== src/State/Store.antt =====
-- state.py, `EvidenceStore`. The clock is read by the caller: `now` is the value that `_clock()`
-- returned. A work list that the source pops from its end has its next item at the head here; the
-- order in which the members of a set are pushed is one of those that Python may take.
pub mod Sweeping
pub mod WellFormed
pub mod Adding
pub mod Invalidating
pub mod History
pub mod Current
pub mod Lasting
use jev_frame.Prelude.{
  ℕ, zero, suc, ◌+◌, String, Bool, true, false, not, ◌&&◌, ◌||◌, Option, none, some, List, [], ◌∷◌,
  ◌++◌, ◌==◌, string_eq, length, if◌then◌else◌,
}
use jev_frame.Prelude.Set.{has, add}
use jev_frame.Prelude.Dict.{Dict, lookup, insert, values, contains}
use jev_frame.Errors.{
  Result, ok, raise, guard, key_error, state_error, evidence_not_found_error, evidence_scope_error,
  stale_evidence_error, fuel_exhausted,
}
use jev_frame.Exec.{Exec, pure, gets, lift, modify, require, ◌>>=◌, ◌>>◌}
use jev_frame.State.Evidence.{Evidence, is_completed, is_expired}

pub record Store : Type 0 where
  pub records : Dict String Evidence
  pub dependents : Dict String (List String)
  pub conflicts : Dict String (List String)
  pub stale : List String

-- `EvidenceStore.__init__`
abbrev pub new_store : Store
new_store = record { records = []; dependents = []; conflicts = []; stale = [] }

-- `index.get(key, ())` of an index of sets
abbrev pub entries : Dict String (List String) → String → List String
entries index key = elim (lookup key index) [ none ↦ [] | some s ↦ s ]

-- `index[key].add(x)` of a `defaultdict(set)`
abbrev pub link : String → String → Dict String (List String) → Dict String (List String)
link key x index = insert key (add x (entries index key)) index

-- `get`
abbrev pub get : String → Store → Result Evidence
get evidence_id s = elim (lookup evidence_id s.records) [
  | none ↦ raise evidence_not_found_error
  | some r ↦ ok r
]

-- The loop of `add` that checks what a record refers to.
abbrev pub check_references : Evidence → Store → List String → Result (Unit {0})
check_references r s [] = ok tt
check_references r s (reference ∷ references) =
    let rest = check_references r s references in
    elim (lookup reference s.records) [
      | none ↦ raise evidence_not_found_error
      | some related ↦ if related.scope == r.scope then rest else raise evidence_scope_error
    ]

-- `self._stale.add(current)`, unless the record is a completed execution.
abbrev pub mark_stale : Evidence → String → List String → List String
mark_stale r current stale = if is_completed r then stale else add current stale

-- `queue.extend(items)`, on a stack with its top at the head.
abbrev pub push_all {ℓ} : {A : Type ℓ} → List A → List A → List A
push_all [] queue = queue
push_all (x ∷ xs) queue = push_all xs (x ∷ queue)

-- What the loop of `invalidate` has reached so far.
pub record Sweep : Type 0 where
  pub affected : List String
  pub stale : List String

-- How the loop of `invalidate` ends: with an empty queue, at an id that no record has
-- (`KeyError`), or, in the model alone, without fuel.
pub data Swept : Type 0 where
  done missing : Sweep → Swept
  out_of_fuel : Swept

-- The loop of `invalidate`.
unfoldable pub sweep : Store → ℕ → List String → Sweep → Swept
sweep s zero [] w = done w
sweep s zero (current ∷ queue) w = out_of_fuel
sweep s (suc fuel) [] w = done w
sweep s (suc fuel) (current ∷ queue) w =
    let skip = sweep s fuel queue w in
    let visit = λ (r : Evidence).
      sweep s fuel (push_all (entries s.dependents current) queue)
        (record { affected = add current w.affected; stale = mark_stale r current w.stale }) in
    if has current w.affected then skip else elim (lookup current s.records) [
      | none ↦ missing (record w { affected = add current w.affected })
      | some r ↦ visit r
    ]

-- the links of an index, all together
abbrev pub total_links : Dict String (List String) → ℕ
total_links [] = 0
total_links ((k, s) ∷ d) = length s + total_links d

-- A round takes one item from the queue, and no id adds its links twice.
abbrev pub sweep_fuel : Store → ℕ
sweep_fuel s = suc (total_links s.dependents)

abbrev pub finish_sweep : Swept → Exec Store (List String)
finish_sweep (done w) s = (ok w.affected, record s { stale = w.stale })
finish_sweep (missing w) s = (raise key_error, record s { stale = w.stale })
finish_sweep out_of_fuel s = (raise fuel_exhausted, s)

unfoldable pub invalidate : String → Exec Store (List String)
unfolding sweep
invalidate evidence_id s = elim (get evidence_id s) [
  | raise e ↦ (raise e, s)
  | ok r ↦
      finish_sweep
        (sweep s (sweep_fuel s) (evidence_id ∷ []) (record { affected = []; stale = s.stale })) s
]

-- The loop of `add` that invalidates what a record supersedes.
unfoldable pub invalidate_all : List String → Exec Store (Unit {0})
invalidate_all [] = pure tt
invalidate_all (superseded ∷ rest) = do affected ← invalidate superseded; invalidate_all rest

-- `self._dependents[dependency].add(id)` for each dependency
abbrev pub link_dependents :
    String → List String → Dict String (List String) → Dict String (List String)
link_dependents id [] index = index
link_dependents id (d ∷ ds) index = link_dependents id ds (link d id index)

-- Both directions of each conflict are kept.
abbrev pub link_conflicts :
    String → List String → Dict String (List String) → Dict String (List String)
link_conflicts id [] index = index
link_conflicts id (c ∷ cs) index = link_conflicts id cs (link c id (link id c index))

abbrev pub index_record : Evidence → Store → Store
index_record r s = record {
  records = insert r.id r s.records;
  dependents = link_dependents r.id r.dependencies s.dependents;
  conflicts = link_conflicts r.id r.conflicts_with s.conflicts;
  stale = s.stale;
}

unfoldable pub add_record : Evidence → Exec Store Evidence
add_record r = do
  known ← gets (λ s. contains r.id s.records)
  require (not known) state_error
  checked ← gets (λ s. check_references r s (r.dependencies ++ (r.supersedes ++ r.conflicts_with)))
  lift checked
  modify (index_record r)
  invalidate_all r.supersedes
  pure r

-- `all(…)` of tests that may raise: it stops at the first that fails or raises.
abbrev pub all_current : (String → Result Bool) → List String → Result Bool
all_current test [] = ok true
all_current test (d ∷ ds) =
    let rest = all_current test ds in
    elim (test d) [ raise e ↦ raise e | ok b ↦ if b then rest else ok false ]

-- `is_current`, with the set of ids that are being checked. The fuel bounds the nesting.
unfoldable pub is_current_in : Store → ℕ → ℕ → String → List String → Result Bool
is_current_in s now zero id checking = raise fuel_exhausted
is_current_in s now (suc fuel) id checking =
    let inner = λ (d : String). is_current_in s now fuel d (id ∷ checking) in
    elim (get id s) [
      | raise e ↦ raise e
      | ok r ↦
          if is_completed r
          then ok true
          else if has id s.stale || is_expired r now
          then ok false
          else if has id checking
          then raise state_error
          else all_current inner r.dependencies
    ]

unfoldable pub is_current : String → ℕ → Store → Result Bool
unfolding is_current_in
is_current evidence_id now s = is_current_in s now (suc (length s.records)) evidence_id []

unfoldable pub require_current : String → String → ℕ → Store → Result Evidence
require_current evidence_id scope now s = elim (get evidence_id s) [
  | raise e ↦ raise e
  | ok r ↦
      if r.scope == scope
      then elim (is_current evidence_id now s) [
        | raise e ↦ raise e
        | ok b ↦ if b then ok r else raise stale_evidence_error
      ]
      else raise evidence_scope_error
]
