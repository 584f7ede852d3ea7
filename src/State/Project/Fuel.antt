-- ===== src/State/Project/Fuel.antt =====
-- state.py: the loop of `project` ends.
use jev_frame.Prelude.{
  ℕ, zero, suc, ◌+◌, ◌≤◌, String, ◌≡◌, ◌≢◌, refl, Bool, true, false, ◌||◌, Option, some, List, [],
  ◌∷◌, arith, ◌==◌, ==_iff, string_eq, inl, inr, Bool-cases, Option-cases, length, if◌then◌else◌,
}
use jev_frame.Prelude.Int.{ℤ}
use jev_frame.Prelude.Set.{has, add, has-add}
use jev_frame.Prelude.Dict.{Dict, lookup, keys}
use jev_frame.Errors.{ok, raise, fuel_exhausted, Result-cases}
use jev_frame.State.Evidence.{Evidence}
use jev_frame.State.Store.{Store, entries, push_all, require_current, is_current}
use jev_frame.State.Store.Sweeping.{length-push_all}
use jev_frame.State.Store.WellFormed.{IsWellFormed}
use jev_frame.State.Store.Current.{is_current_decides}
use jev_frame.State.Project.{
  Queue, tagged, check_item, expand, collect, total_items, collect_fuel, project,
}

length-tagged : (b : Bool) (ids : List String) → length (tagged b ids) ≡ length ids
length-tagged b [] = refl
length-tagged b (x ∷ ids) = omega (arith, length-tagged b ids)

pub keys-tagged : (b : Bool) (ids : List String) → keys (tagged b ids) ≡ ids
keys-tagged b [] = refl
keys-tagged b (x ∷ ids) = ground (arith, keys-tagged b ids)

pub has-keys-push_all :
    (x : String) (p q : Queue) → has x (keys (push_all p q)) ≡ (has x (keys p) || has x (keys q))
has-keys-push_all x [] q = refl
has-keys-push_all x ((y, b) ∷ p) q = ground (arith, has-keys-push_all x p ((y, b) ∷ q))

-- The items of the records that have not been visited.
abbrev pending : Store → List String → Dict String Evidence → ℕ
pending s seen [] = 0
pending s seen ((k, r) ∷ d) =
    (if has k seen then 0 else length (entries s.conflicts k) + length r.dependencies)
    + pending s seen d

pending-nil : (s : Store) (d : Dict String Evidence) → pending s [] d ≡ total_items s d
pending-nil s [] = refl
pending-nil s ((k, r) ∷ d) = omega (arith, pending-nil s d)

pending-add-le :
    (s : Store) (c : String) (seen : List String) (d : Dict String Evidence)
    → pending s (add c seen) d ≤ pending s seen d
pending-add-le s c seen [] = omega arith
pending-add-le s c seen ((k, r) ∷ d) = ground (arith, pending-add-le s c seen d, has-add k c seen)

pending-add :
    (s : Store) (c : String) (r : Evidence) (seen : List String) (d : Dict String Evidence)
    → has c seen ≡ false
    → lookup c d ≡ some r
    → pending s (add c seen) d + (length (entries s.conflicts c) + length r.dependencies)
      ≤ pending s seen d
pending-add s c r seen [] h e = cc
pending-add s c r seen ((k, v) ∷ d) h e = elim (Bool-cases (c == k)) [
  | inl same ↦
      let own : k ≡ c = ground (arith, ==_iff c k) in
      ground (arith, pending-add-le s c seen d, has-add k c seen, ==_iff c k, ==_iff k c, own)
  | inr other ↦ ground (arith, pending-add s c r seen d, has-add k c seen, ==_iff c k, ==_iff k c)
]

pub check_item-ok :
    (must : Bool) (id scope : String) (now : ℕ) (s : Store) (r : Evidence)
    → check_item must id scope now s ≡ ok r
    → (lookup id s.records ≡ some r)
      × (r.scope ≡ scope)
      × (must ≡ true → is_current id now s ≡ ok true)
unfolding require_current
check_item-ok true id scope now s r h =
    (ground arith, ground (arith, ==_iff r.scope scope), λ _. ground arith)
check_item-ok false id scope now s r h =
    (ground arith, ground (arith, ==_iff r.scope scope), λ e. cc)

check_item-returns :
    (must : Bool) (id scope : String) (now : ℕ) (s : Store)
    → IsWellFormed s
    → check_item must id scope now s ≢ raise fuel_exhausted
unfolding require_current
check_item-returns true id scope now s wf h = elim (Option-cases (lookup id s.records)) [
  | inl e ↦ ground arith
  | inr (r, e) ↦
      let (b, answered, _) = is_current_decides s now id wf (ground arith) in ground arith
]
check_item-returns false id scope now s wf h = ground arith

module _ (s : Store) (scope : String) (clock : ℕ → ℕ) where
  abbrev pub next : String → Bool → Evidence → Queue → Queue
  next id must r queue = expand s id must r queue

  length-next :
      (id : String) (must : Bool) (r : Evidence) (queue : Queue)
      → length (next id must r queue)
        ≡ length (entries s.conflicts id) + length r.dependencies + length queue
  length-next id must r queue = omega (
    arith,
    length-push_all (tagged false (entries s.conflicts id))
        (push_all (tagged must r.dependencies) queue),
    length-push_all (tagged must r.dependencies) queue,
    length-tagged false (entries s.conflicts id),
    length-tagged must r.dependencies,
  )

  pub has-next :
      (x id : String) (must : Bool) (r : Evidence) (queue : Queue)
      → has x (keys (next id must r queue))
        ≡ (has x (entries s.conflicts id) || (has x r.dependencies || has x (keys queue)))
  has-next x id must r queue = ground (
    arith,
    has-keys-push_all x (tagged false (entries s.conflicts id))
        (push_all (tagged must r.dependencies) queue),
    has-keys-push_all x (tagged must r.dependencies) queue,
    keys-tagged false (entries s.conflicts id),
    keys-tagged must r.dependencies,
  )

  collect-returns :
      IsWellFormed s
      → (fuel round : ℕ) (queue : Queue) (included : List String)
      → length queue + pending s included s.records ≤ fuel
      → collect s scope clock fuel round queue included ≢ raise fuel_exhausted
  unfolding collect
  collect-returns wf zero round [] included enough h = cc
  collect-returns wf zero round (i ∷ queue) included enough h = omega arith
  collect-returns wf (suc fuel) round [] included enough h = cc
  collect-returns wf (suc fuel) round ((id, must) ∷ queue) included enough h =
      elim (Result-cases (check_item must id scope (clock round) s)) [
        | inr (e, failed) ↦ check_item-returns must id scope (clock round) s wf (ground arith)
        | inl (r, checked) ↦ elim (Bool-cases (has id included)) [
          | inl old ↦
              collect-returns wf fuel (suc round) queue included (omega arith) (ground arith)
          | inr new ↦
              collect-returns wf fuel (suc round) (next id must r queue) (add id included)
                (omega (
                  arith,
                  length-next id must r queue,
                  pending-add s id r included s.records new
                      (check_item-ok must id scope (clock round) s r checked).0,
                ))
                (ground arith)
        ]
      ]

-- In a well-formed store the loop of `project` ends within the model's fuel, for any clock.
pub project_returns :
    (ids : List String) (scope : String) (cap : Option ℤ) (clock : ℕ → ℕ) (s : Store)
    → IsWellFormed s
    → project ids scope cap clock s ≢ raise fuel_exhausted
unfolding project
project_returns ids scope cap clock s wf h =
    collect-returns s scope clock wf (collect_fuel s ids) 0 (push_all (tagged true ids) []) []
      (omega (
        arith,
        length-push_all (tagged true ids) [],
        length-tagged true ids,
        pending-nil s s.records,
      ))
      (ground arith)
