-- ===== src/State/Tests.antt =====
-- The evidence store of state.py at a concrete history: an observation, a derivation from it, a
-- rival of the derivation, and a completed execution.
use jev_frame.Prelude.{
  ℕ, string_eq, String, ◌≡◌, ◌≢◌, refl, ◌↔◌, Bool, true, false, ◌||◌, none, some, List, [], ◌∷◌,
  ◌++◌,
}
use jev_frame.Prelude.{◌⊎◌}
use mathlib.Core.List.{Memᴰ}
use jev_frame.Prelude.Int.{pos}
use jev_frame.Prelude.Set.{has}
use jev_frame.Prelude.Dict.{lookup, contains}
use jev_frame.Errors.{
  ok, raise, fuel_exhausted, state_error, evidence_not_found_error, view_capacity_error,
}
use jev_frame.State.Value.{text}
use jev_frame.State.Evidence.{
  Evidence, Body, evidence, observation, derivation, execution, succeeded,
}
use jev_frame.State.Store.{
  Store, new_store, add_record, invalidate, invalidate_all, is_current, require_current,
  check_references,
}
use jev_frame.State.Store.WellFormed.{IsWellFormed}
use jev_frame.State.Store.Sweeping.{is_completed_at}
use jev_frame.State.Store.Invalidating.{DependsOn, Invalidated, invalidate-Invalidated}
use jev_frame.State.Store.History.{
  Change, added, change, build, build-IsWellFormed, add_record_atomic, add_record_appends,
  add_record_supersedes,
}
use jev_frame.State.Store.Current.{IsCurrent, is_current_decides}
use jev_frame.State.Store.Lasting.{invalidate_lasts}
use jev_frame.Errors.{candidate_selection_error}
use jev_frame.Definitions.Agents.{
  Candidate, CandidateSet, Coverage, check_candidate_set, no_fit_key,
}
use jev_frame.State.Candidates.{
  CandidateSelection, selected, no_fit, candidate_at, select_candidate,
  select_candidate-candidate_keys, select_candidate-member,
}
use jev_frame.State.Project.{project}
use jev_frame.State.Project.Fuel.{project_returns}
use jev_frame.State.Project.Closure.{IsRelevant, ids_of, project_view, project_scope}

abbrev offered : CandidateSet
offered = record {
  id = "plans";
  version = "1.0.0";
  candidates =
      record {
        key = "basic";
        value = text "Basic";
        description = "The basic plan.";
        source_id = "catalog";
        source_version = none;
      }
      ∷ record {
        key = "plus";
        value = text "Plus";
        description = "The larger plan.";
        source_id = "catalog";
        source_version = none;
      }
      ∷ [];
  coverage = Coverage.complete;
  scope = "scope";
  total_count = some 2;
  failure_reason = none;
}

abbrev plus : Candidate
plus = record {
  key = "plus";
  value = text "Plus";
  description = "The larger plan.";
  source_id = "catalog";
  source_version = none;
}

abbrev choice : CandidateSelection
choice = record {
  snapshot_digest = "digest";
  coverage = Coverage.complete;
  outcome = selected;
  candidate = some plus;
}

offered_accepted : check_candidate_set (λ s. true) (λ s. true) offered ≡ ok offered
unfolding check_candidate_set
offered_accepted = refl

choices :
    (select_candidate (λ s. some "digest") offered "plus" ≡ ok choice)
    × (select_candidate (λ s. some "digest") offered "other" ≡ raise candidate_selection_error)
unfolding select_candidate candidate_at
choices = (refl, refl)

select_candidate-candidate_keys_example :
    select_candidate (λ s. some "digest") offered "plus" ≡ ok choice
select_candidate-candidate_keys_example =
    select_candidate-candidate_keys (λ s. some "digest") (λ s. true) (λ s. true) offered plus
      "digest" offered_accepted refl (Memᴰ.tail (Memᴰ.head refl))

select_candidate-member_example :
    (some "digest" ≡ some choice.snapshot_digest)
    × (choice.coverage ≡ offered.coverage)
    × ((("plus" ≡ no_fit_key) × (choice.outcome ≡ no_fit) × (choice.candidate ≡ none))
        ⊎ ((c : Candidate) × Memᴰ c offered.candidates
            × (c.key ≡ "plus")
            × (choice.outcome ≡ selected)
            × (choice.candidate ≡ some c)
            × ("plus" ≢ no_fit_key)))
select_candidate-member_example =
    select_candidate-member (λ s. some "digest") offered "plus" choice choices.0

abbrev item : String → List String → List String → List String → Body → Evidence
item id dependencies supersedes conflicts_with body = record {
  id = id;
  value = text id;
  source_id = "source";
  scope = "scope";
  observed_at = 5;
  source_version = none;
  expires_at = some 50;
  dependencies = dependencies;
  supersedes = supersedes;
  conflicts_with = conflicts_with;
  body = body;
}

abbrev seen : Evidence
seen = item "seen" [] [] [] observation

abbrev derived : Evidence
derived = item "derived" ("seen" ∷ []) [] [] (derivation "t" "1")

abbrev rival : Evidence
rival = item "rival" [] [] ("derived" ∷ []) observation

abbrev receipt : Evidence
receipt = item "receipt" ("derived" ∷ []) [] [] (execution "op" succeeded)

abbrev newer : Evidence
newer = item "newer" [] ("seen" ∷ []) [] observation

abbrev history : List Change
history = added seen ∷ added derived ∷ added rival ∷ added receipt ∷ []

program : Unit {0}
unfolding add_record invalidate_all change build invalidate is_current require_current project
    evidence
program = tt

-- The constructors accept these records and refuse a derivation without sources.
constructed :
    (evidence derived ≡ ok derived)
    × (evidence receipt ≡ ok receipt)
    × (evidence (item "x" [] [] [] (derivation "t" "1")) ≡ raise state_error)
unfolding program
constructed = (refl, refl, refl)

abbrev store : Store
store = build history new_store

refused :
    ((add_record derived store).0 ≡ raise state_error)
    × ((add_record (item "x" ("nothing" ∷ []) [] [] observation) store).0
        ≡ raise evidence_not_found_error)
unfolding program
refused = (refl, refl)

present : contains "seen" store.records ≡ true
unfolding program
present = refl

build-IsWellFormed_example : IsWellFormed (build history new_store)
build-IsWellFormed_example = build-IsWellFormed history

store-IsWellFormed : IsWellFormed store
store-IsWellFormed = build-IsWellFormed history

is_new : contains "newer" store.records ≡ false
unfolding program
is_new = refl

resolved : check_references newer store ("seen" ∷ []) ≡ ok tt
unfolding program
resolved = refl

add_record_appends_example :
    ((add_record newer store).0 ≡ ok newer)
    × ((add_record newer store).1.records ≡ store.records ++ ("newer", newer) ∷ [])
add_record_appends_example = add_record_appends newer store store-IsWellFormed is_new resolved

accepted : (add_record newer store).0 ≡ ok newer
accepted = add_record_appends_example.0

add_record_supersedes_example :
    (has "seen" (add_record newer store).1.stale || is_completed_at store "seen") ≡ true
add_record_supersedes_example =
    add_record_supersedes newer store "seen" store-IsWellFormed accepted refl

add_record_atomic_example : (add_record derived store).1 ≡ store
add_record_atomic_example = add_record_atomic derived store state_error store-IsWellFormed refused.0

invalidate-Invalidated_example :
    (affected : List String) × (s' : Store) × (invalidate "seen" store ≡ (ok affected, s'))
    × Invalidated store s' "seen" affected
invalidate-Invalidated_example = invalidate-Invalidated "seen" store store-IsWellFormed present

is_current_decides_example :
    (b : Bool) × (is_current "seen" 10 store ≡ ok b) × ((b ≡ true) ↔ IsCurrent store 10 "seen")
is_current_decides_example = is_current_decides store 10 "seen" store-IsWellFormed present

answers :
    (is_current "derived" 10 store ≡ ok true)
    × (is_current "derived" 50 store ≡ ok false)
    × (is_current "receipt" 50 store ≡ ok true)
    × (is_current "derived" 10 (add_record newer store).1 ≡ ok false)
unfolding program
answers = (refl, refl, refl, refl)

depends : DependsOn store "seen" "derived"
unfolding program
depends = DependsOn.through "derived" DependsOn.itself refl

found : lookup "derived" store.records ≡ some derived
unfolding program
found = refl

invalidate_lasts_example :
    is_current "derived" 10 (build (added newer ∷ []) (invalidate "seen" store).1) ≡ ok false
invalidate_lasts_example =
    invalidate_lasts store "seen" "derived" derived (added newer ∷ []) 10 store-IsWellFormed present
      depends found refl

abbrev clock : ℕ → ℕ
clock n = 10

abbrev rivals : List Evidence
rivals = seen ∷ derived ∷ rival ∷ []

viewed : project ("rival" ∷ []) "scope" none clock store ≡ ok rivals
unfolding program
viewed = refl

bounded : project ("rival" ∷ []) "scope" (some (pos 2)) clock store ≡ raise view_capacity_error
unfolding program
bounded = refl

project_view_example :
    (has "seen" (ids_of rivals) ≡ true) ↔ ∥ IsRelevant store ("rival" ∷ []) "seen" ∥₁
project_view_example =
    project_view ("rival" ∷ []) "scope" none clock store rivals store-IsWellFormed viewed "seen"

project_scope_example :
    (r : Evidence) × (lookup "seen" store.records ≡ some r) × (r.scope ≡ "scope")
project_scope_example =
    project_scope ("rival" ∷ []) "scope" none clock store rivals store-IsWellFormed viewed "seen"
      refl

project_returns_example : project ("rival" ∷ []) "scope" none clock store ≢ raise fuel_exhausted
project_returns_example = project_returns ("rival" ∷ []) "scope" none clock store store-IsWellFormed
