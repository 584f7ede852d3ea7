-- ===== src/State/Project/Closure.antt =====
-- state.py: the view of `project` is exactly the closure of the requested evidence.
use mathlib.Core.Bool.{So-prop}
use mathlib.Core.Logic.{∥∥₁_elim}
use jev_frame.Prelude.{
  ℕ, zero, suc, String, ◌≡◌, subst, ◌↔◌, Bool, true, ◌&&◌, ◌||◌, Option, some, List, [], ◌∷◌, arith,
  ==_iff, string_eq, inl, inr, Bool-cases, All,
}
use jev_frame.Prelude.Int.{ℤ}
use jev_frame.Prelude.Set.{has, add, has-add}
use jev_frame.Prelude.Dict.{Dict, lookup, contains, keys}
use jev_frame.Errors.{ok, Result-cases}
use jev_frame.State.Evidence.{Evidence}
use jev_frame.State.Store.{Store, entries, push_all}
use jev_frame.State.Store.WellFormed.{IsWellFormed, IsOwn, depends_on}
use jev_frame.State.Project.{
  Queue, tagged, check_item, collect, collect_fuel, select_records, project,
}
use jev_frame.State.Project.Fuel.{keys-tagged, has-keys-push_all, check_item-ok, next, has-next}

-- `b` leads to `c`: it depends on it, or one of the two names the other as a conflict.
abbrev pub leads_to : Store → String → String → Bool
leads_to s b c = depends_on s b c || has c (entries s.conflicts b)

-- What a complete view of `ids` holds: they, and all that they lead to.
pub data IsRelevant (s : Store) (ids : List String) : String → Type 0 where
  asked : (x : String) → has x ids ≡ true → IsRelevant s ids x
  led : {b : String} (c : String) → IsRelevant s ids b → leads_to s b c ≡ true → IsRelevant s ids c

module _ (s : Store) (scope : String) (clock : ℕ → ℕ) (ids : List String) where
  record Inv (queue : Queue) (included : List String) : Type 0 where
    sound : (x : String) → has x included ≡ true → IsRelevant s ids x
    queued : (x : String) → has x (keys queue) ≡ true → IsRelevant s ids x
    covers : (x : String) → has x ids ≡ true → (has x included || has x (keys queue)) ≡ true
    closed :
        (x y : String)
        → has x included ≡ true
        → leads_to s x y ≡ true
        → (has y included || has y (keys queue)) ≡ true
    scoped :
        (x : String)
        → has x included ≡ true
        → (r : Evidence) × (lookup x s.records ≡ some r) × (r.scope ≡ scope)

  Inv-skip :
      (id : String) (must : Bool) (queue : Queue) (included : List String)
      → has id included ≡ true
      → Inv ((id, must) ∷ queue) included
      → Inv queue included
  Inv-skip id must queue included old i = record {
    sound = i.sound;
    queued = λ x h. i.queued x (ground arith);
    covers = λ x h. ground (arith, i.covers x, ==_iff x id);
    closed = λ x y h l. ground (arith, i.closed x y, ==_iff y id);
    scoped = i.scoped;
  }

  Inv-visit :
      (id : String) (must : Bool) (queue : Queue) (included : List String) (r : Evidence)
      → lookup id s.records ≡ some r
      → r.scope ≡ scope
      → Inv ((id, must) ∷ queue) included
      → Inv (next s scope clock id must r queue) (add id included)
  Inv-visit id must queue included r found same i =
      let self : IsRelevant s ids id = i.queued id (ground (arith, ==_iff id id)) in
      record {
        sound = λ x h. elim (Bool-cases (has x included)) [
          | inl old ↦ i.sound x old
          | inr new ↦ i.queued x (ground (arith, has-add x id included))
        ];
        queued = λ x h. elim (Bool-cases (leads_to s id x)) [
          | inl link ↦ led x self link
          | inr no_link ↦ i.queued x (ground (arith, has-next s scope clock x id must r queue))
        ];
        covers = λ x h.
            ground
              (arith, i.covers x, has-add x id included, has-next s scope clock x id must r queue);
        closed = λ x y h l. ground (
          arith,
          i.closed x y,
          has-add x id included,
          has-add y id included,
          has-next s scope clock y id must r queue,
          ==_iff x id,
        );
        scoped = λ x h. elim (Bool-cases (has x included)) [
          | inl old ↦ i.scoped x old
          | inr new ↦
              let own : x ≡ id = ground (arith, has-add x id included, ==_iff x id) in
              (r, rw own found, same)
        ];
      }

  collect-Inv :
      (fuel round : ℕ) (queue : Queue) (included t : List String)
      → Inv queue included
      → collect s scope clock fuel round queue included ≡ ok t
      → Inv [] t
  unfolding collect
  collect-Inv zero round [] included t i h = subst (Inv []) (ground arith) i
  collect-Inv zero round (_ ∷ queue) included t i h = absurd (ground arith)
  collect-Inv (suc fuel) round [] included t i h = subst (Inv []) (ground arith) i
  collect-Inv (suc fuel) round ((id, must) ∷ queue) included t i h =
      elim (Result-cases (check_item must id scope (clock round) s)) [
        | inr (e, failed) ↦ absurd (ground arith)
        | inl (r, checked) ↦ elim (Bool-cases (has id included)) [
          | inl old ↦
              collect-Inv fuel (suc round) queue included t (Inv-skip id must queue included old i)
                (ground arith)
          | inr new ↦
              let (found, same, _) = check_item-ok must id scope (clock round) s r checked in
              collect-Inv fuel (suc round) (next s scope clock id must r queue) (add id included) t
                (Inv-visit id must queue included r found same i) (ground arith)
        ]
      ]

  start : Inv (push_all (tagged true ids) []) []
  start =
      let all = λ (x : String). has-keys-push_all x (tagged true ids) [] in
      record {
        sound = λ x h. absurd cc;
        queued = λ x h. asked x (ground (arith, all x, keys-tagged true ids));
        covers = λ x h. ground (arith, all x, keys-tagged true ids);
        closed = λ x y h l. cc;
        scoped = λ x h. absurd cc;
      }

  Inv-complete : (t : List String) {x : String} → Inv [] t → IsRelevant s ids x → has x t ≡ true
  Inv-complete t i (asked x h) = ground (arith, i.covers x)
  Inv-complete t i (led {b} c r link) = ground (arith, i.closed b c (Inv-complete t i r))

-- the ids of a view
abbrev pub ids_of : List Evidence → List String
ids_of [] = []
ids_of (r ∷ rs) = r.id ∷ ids_of rs

has-ids_of-select_records :
    (x : String) (t : List String) (d : Dict String Evidence)
    → All IsOwn d
    → has x (ids_of (select_records t d)) ≡ (has x t && contains x d)
has-ids_of-select_records x t [] h = ground arith
has-ids_of-select_records x t ((k, r) ∷ d) h =
    ground (arith, has-ids_of-select_records x t d h.1, ==_iff x k, h.0)

project-ok :
    (ids : List String) (scope : String) (cap : Option ℤ) (clock : ℕ → ℕ) (s : Store)
    (view : List Evidence)
    → project ids scope cap clock s ≡ ok view
    → (t : List String) × (collect s scope clock
          (collect_fuel s ids)
          0
          (push_all (tagged true ids) [])
          []
        ≡ ok t)
      × (view ≡ select_records t s.records)
unfolding project
project-ok ids scope cap clock s view h =
    elim (Result-cases
      (collect s scope clock (collect_fuel s ids) 0 (push_all (tagged true ids) []) [])) [
        | inl (t, e) ↦ (t, e, ground arith)
        | inr (e, failed) ↦ absurd (ground arith)
      ]

module _ (ids : List String) (scope : String) (cap : Option ℤ) (clock : ℕ → ℕ) (s : Store)
    (view : List Evidence) (wf : IsWellFormed s) (h : project ids scope cap clock s ≡ ok view) where
  project-Inv :
      (t : List String) × Inv s scope clock ids [] t
      × ((x : String) → has x (ids_of view) ≡ (has x t && contains x s.records))
  project-Inv =
      let (t, e, selected) = project-ok ids scope cap clock s view h in
      (
        t,
        collect-Inv s scope clock ids (collect_fuel s ids) 0 (push_all (tagged true ids) []) [] t
            (start s scope clock ids) e,
        λ x. ground (arith, has-ids_of-select_records x t s.records wf.owned),
      )

  -- The view that `project` returns from a well-formed store is complete and holds nothing else:
  -- its records are exactly the requested ones and all that dependencies and conflicts lead to from
  -- these, at any depth.
  pub project_view : (x : String) → (has x (ids_of view) ≡ true) ↔ ∥ IsRelevant s ids x ∥₁
  project_view x =
      let (t, i, seen) = project-Inv in
      (
        λ m. ∣ i.sound x (ground (arith, seen x)) ∣₁,
        λ d.
            let included : has x t ≡ true =
              ∥∥₁_elim d (So-prop _) (Inv-complete s scope clock ids t i) in
            let (r, found, _) = i.scoped x included in ground (arith, seen x),
      )

  -- Every record of the view that `project` returns lies in the requested scope.
  pub project_scope :
      (x : String)
      → has x (ids_of view) ≡ true
      → (r : Evidence) × (lookup x s.records ≡ some r) × (r.scope ≡ scope)
  project_scope x m = let (t, i, seen) = project-Inv in i.scoped x (ground (arith, seen x))
