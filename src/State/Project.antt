-- ===== src/State/Project.antt =====
-- state.py, `EvidenceStore.project`: the complete view of some evidence, with all that it depends on
-- and all that conflicts with it. `clock` gives the successive values that `_clock()` returns, one
-- for each round of the loop.
pub mod Fuel
pub mod Closure
use jev_frame.Prelude.{
  ℕ, zero, suc, ◌+◌, String, Bool, true, false, Option, none, some, List, [], ◌∷◌, ltb, ◌==◌,
  string_eq, length, if◌then◌else◌,
}
use jev_frame.Prelude.Int.{ℤ, pos, negsuc}
use jev_frame.Prelude.Set.{has, add}
use jev_frame.Prelude.Dict.{Dict}
use jev_frame.Errors.{
  Result, ok, raise, evidence_scope_error, view_capacity_error, fuel_exhausted, ◌>>=◌, ◌>>◌, guard,
}
use jev_frame.State.Evidence.{Evidence}
use jev_frame.State.Store.{Store, entries, get, push_all, require_current}

-- The items of the queue: an id, and whether its record must be current.
abbrev pub Queue : Type 0
Queue = List (String × Bool)

-- `(id, flag) for id in ids`
abbrev pub tagged : Bool → List String → Queue
tagged flag [] = []
tagged flag (id ∷ ids) = (id, flag) ∷ tagged flag ids

-- The check of one item.
abbrev pub in_scope : String → String → Store → Result Evidence
in_scope evidence_id scope s = elim (get evidence_id s) [
  | raise e ↦ raise e
  | ok r ↦ if r.scope == scope then ok r else raise evidence_scope_error
]

abbrev pub check_item : Bool → String → String → ℕ → Store → Result Evidence
check_item true evidence_id scope now s = require_current evidence_id scope now s
check_item false evidence_id scope now s = in_scope evidence_id scope s

-- what an item that is new pushes
abbrev pub expand : Store → String → Bool → Evidence → Queue → Queue
expand s evidence_id must_be_current r queue =
    push_all (tagged false (entries s.conflicts evidence_id))
      (push_all (tagged must_be_current r.dependencies) queue)

pub collect :
    Store → String → (ℕ → ℕ) → (fuel round : ℕ) → Queue → List String → Result (List String)
collect s scope clock zero round [] included = ok included
collect s scope clock zero round (_ ∷ _) included = raise fuel_exhausted
collect s scope clock (suc fuel) round [] included = ok included
collect s scope clock (suc fuel) round ((id, must) ∷ queue) included =
    let skip = collect s scope clock fuel (suc round) queue included in
    let visit = λ (r : Evidence).
      collect s scope clock fuel (suc round) (expand s id must r queue) (add id included) in
    elim (check_item must id scope (clock round) s) [
      | raise e ↦ raise e
      | ok r ↦ if has id included then skip else visit r
    ]

-- the items that the records can push, each once
abbrev pub total_items : Store → Dict String Evidence → ℕ
total_items s [] = 0
total_items s ((k, r) ∷ d) =
    length (entries s.conflicts k) + length r.dependencies + total_items s d

abbrev pub collect_fuel : Store → List String → ℕ
collect_fuel s ids = length ids + total_items s s.records

-- `tuple(record for key, record in self._records.items() if key in included)`
abbrev pub select_records : List String → Dict String Evidence → List Evidence
select_records included [] = []
select_records included ((k, r) ∷ d) =
    let rest = select_records included d in if has k included then r ∷ rest else rest

-- `max_records is not None and (… or max_records < 0)`, and the test of the view's size
abbrev pub check_capacity : Option ℤ → Result (Unit {0})
check_capacity (some (negsuc n)) = raise view_capacity_error
check_capacity _ = ok tt

abbrev pub fits : Option ℤ → ℕ → Bool
fits none n = true
fits (some (pos m)) n = ltb n (suc m)
fits (some (negsuc m)) n = false

unfoldable pub project : List String → String → Option ℤ → (ℕ → ℕ) → Store → Result (List Evidence)
unfolding collect
project evidence_ids scope max_records clock s = do
  check_capacity max_records
  included ←
      collect s scope clock (collect_fuel s evidence_ids) 0 (push_all (tagged true evidence_ids) [])
        []
  guard (fits max_records (length included)) view_capacity_error
  ok (select_records included s.records)
