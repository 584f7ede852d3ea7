-- ===== src/State/Store/Sweeping.antt =====
-- state.py: the loop of `EvidenceStore.invalidate` ends, and reaches exactly the dependents.
use mathlib.Core.Logic.{∥∥₁_elim}
use mathlib.Core.Bool.{So-prop}
use jev_frame.Prelude.{
  ℕ, zero, suc, ◌+◌, ◌≤◌, String, ◌≡◌, refl, subst, sym, ◌↔◌, Bool, true, false, not, ◌&&◌, ◌||◌,
  none, some, List, [], ◌∷◌, arith, ==_iff, string_eq, length, if◌then◌else◌, inl, inr, Bool-cases,
  Option-cases,
}
use jev_frame.Prelude.Set.{has, add, has-add}
use jev_frame.Prelude.Dict.{Dict, lookup, contains}
use jev_frame.State.Evidence.{Evidence, is_completed}
use jev_frame.State.Store.{
  Store, entries, push_all, Sweep, done, sweep, total_links, sweep_fuel, mark_stale,
}

pub has-push_all : (x : String) (xs q : List String) → has x (push_all xs q) ≡ (has x xs || has x q)
has-push_all x [] q = refl
has-push_all x (y ∷ xs) q = ground (arith, has-push_all x xs (y ∷ q))

pub length-push_all {ℓ} :
    {A : Type ℓ} (xs q : List A) → length (push_all xs q) ≡ length xs + length q
length-push_all [] q = omega arith
length-push_all (y ∷ xs) q = omega (arith, length-push_all xs (y ∷ q))

-- The links of the ids that have not been reached.
abbrev pending : List String → Dict String (List String) → ℕ
pending reached [] = 0
pending reached ((k, s) ∷ d) = (if has k reached then 0 else length s) + pending reached d

pending-nil : (d : Dict String (List String)) → pending [] d ≡ total_links d
pending-nil [] = refl
pending-nil ((k, s) ∷ d) = omega (arith, pending-nil d)

pending-add-le :
    (c : String) (reached : List String) (d : Dict String (List String))
    → pending (add c reached) d ≤ pending reached d
pending-add-le c reached [] = omega arith
pending-add-le c reached ((k, s) ∷ d) =
    ground (arith, pending-add-le c reached d, has-add k c reached)

pending-add :
    (c : String) (reached : List String) (d : Dict String (List String))
    → has c reached ≡ false
    → pending (add c reached) d + length (entries d c) ≤ pending reached d
pending-add c reached [] h = omega arith
pending-add c reached ((k, s) ∷ d) h = ground (
  arith,
  pending-add c reached d h,
  pending-add-le c reached d,
  has-add k c reached,
  ==_iff c k,
  ==_iff k c,
)

abbrev pub is_completed_at : Store → String → Bool
is_completed_at s x = elim (lookup x s.records) [ none ↦ false | some r ↦ is_completed r ]

-- The loop ends where each id that can be reached has a record, and what each round keeps holds at
-- its end, where the queue is empty.
module _ (s : Store) (P : List String → Sweep → Type 0)
    (skip : (c : String) (q : List String) (w : Sweep)
      → has c w.affected ≡ true
      → P (c ∷ q) w
      → P q w)
    (visit : (c : String) (q : List String) (w : Sweep)
      → has c w.affected ≡ false
      → P (c ∷ q) w
      → (r : Evidence) × (lookup c s.records ≡ some r)
        × P
            (push_all (entries s.dependents c) q)
            (record { affected = add c w.affected; stale = mark_stale r c w.stale })) where
  sweep_rule :
      (fuel : ℕ) (q : List String) (w : Sweep)
      → length q + pending w.affected s.dependents ≤ fuel
      → P q w
      → (t : Sweep) × (sweep s fuel q w ≡ done t) × P [] t
  unfolding sweep
  sweep_rule zero [] w enough p = (w, refl, p)
  sweep_rule zero (c ∷ q) w enough p = absurd (omega arith)
  sweep_rule (suc fuel) [] w enough p = (w, refl, p)
  sweep_rule (suc fuel) (c ∷ q) w enough p = elim (Bool-cases (has c w.affected)) [
    | inl old ↦
        let (t, e, end) = sweep_rule fuel q w (omega arith) (skip c q w old p) in
        (t, ground arith, end)
    | inr new ↦
        let (r, found, p') = visit c q w new p in
        let next : Sweep = record { affected = add c w.affected; stale = mark_stale r c w.stale } in
        let (t, e, end) =
          sweep_rule fuel (push_all (entries s.dependents c) q) next
            (omega (
              arith,
              length-push_all (entries s.dependents c) q,
              pending-add c w.affected s.dependents new,
            ))
            p' in
        (t, ground arith, end)
  ]

-- `b` is reached from `a` along the links of the dependents index.
pub data Depends (s : Store) (a : String) : String → Type 0 where
  here : Depends s a a
  step :
      {b : String} (c : String)
      → Depends s a b
      → has c (entries s.dependents b) ≡ true
      → Depends s a c

-- every link of the index leads to a record
abbrev pub LinksKnown : Store → Type 0
LinksKnown s = (b c : String) → has c (entries s.dependents b) ≡ true → contains c s.records ≡ true

module _ (s : Store) (a : String) (known : LinksKnown s) where
  record Inv (q : List String) (w : Sweep) : Type 0 where
    queue_known : (x : String) → has x q ≡ true → contains x s.records ≡ true
    queue_sound : (x : String) → has x q ≡ true → Depends s a x
    sound : (x : String) → has x w.affected ≡ true → Depends s a x
    covers : (has a w.affected || has a q) ≡ true
    closed :
        (x y : String)
        → has x w.affected ≡ true
        → has y (entries s.dependents x) ≡ true
        → (has y w.affected || has y q) ≡ true
    stale :
        (x : String)
        → has x w.stale ≡ (has x s.stale || has x w.affected && not (is_completed_at s x))

  Inv-skip :
      (c : String) (q : List String) (w : Sweep) → has c w.affected ≡ true → Inv (c ∷ q) w → Inv q w
  Inv-skip c q w old i = record {
    queue_known = λ x h. i.queue_known x (ground arith);
    queue_sound = λ x h. i.queue_sound x (ground arith);
    sound = i.sound;
    covers = ground (arith, i.covers, ==_iff a c);
    closed = λ x y h k. ground (arith, i.closed x y, ==_iff y c);
    stale = i.stale;
  }

  Inv-visit :
      (c : String) (q : List String) (w : Sweep)
      → has c w.affected ≡ false
      → Inv (c ∷ q) w
      → (r : Evidence) × (lookup c s.records ≡ some r)
        × Inv
            (push_all (entries s.dependents c) q)
            (record { affected = add c w.affected; stale = mark_stale r c w.stale })
  Inv-visit c q w new i = elim (Option-cases (lookup c s.records)) [
    | inl e ↦ absurd (ground (arith, i.queue_known c, ==_iff c c))
    | inr (r, found) ↦ (
      r,
      found,
      record {
        queue_known = λ x h. elim (Bool-cases (has x (entries s.dependents c))) [
          | inl linked ↦ known c x linked
          | inr no_link ↦
              i.queue_known x (ground (arith, has-push_all x (entries s.dependents c) q))
        ];
        queue_sound = λ x h. elim (Bool-cases (has x (entries s.dependents c))) [
          | inl linked ↦ step x (i.queue_sound c (ground (arith, ==_iff c c))) linked
          | inr no_link ↦
              i.queue_sound x (ground (arith, has-push_all x (entries s.dependents c) q))
        ];
        sound = λ x h. elim (Bool-cases (has x w.affected)) [
          | inl old ↦ i.sound x old
          | inr added ↦ i.queue_sound x (ground (arith, has-add x c w.affected))
        ];
        covers =
            ground
              (arith, i.covers, has-add a c w.affected, has-push_all a (entries s.dependents c) q);
        closed = λ x y h k. ground (
          arith,
          i.closed x y,
          has-add x c w.affected,
          has-add y c w.affected,
          has-push_all y (entries s.dependents c) q,
          ==_iff x c,
          ==_iff y c,
        );
        stale =
            λ x. ground (arith, i.stale x, has-add x c w.affected, has-add x c w.stale, ==_iff x c);
      },
    )
  ]

-- From a record the loop ends within its fuel. It has then reached exactly the ids that depend on
-- it, and marked those of them stale that are not completed executions.
pub record Reached (s : Store) (a : String) (t : Sweep) : Type 0 where
  pub reached : (x : String) → (has x t.affected ≡ true) ↔ ∥ Depends s a x ∥₁
  pub stale :
      (x : String)
      → has x t.stale ≡ (has x s.stale || has x t.affected && not (is_completed_at s x))

complete :
    (s : Store) (a : String) (known : LinksKnown s) (t : Sweep) {x : String}
    → Inv s a known [] t
    → Depends s a x
    → has x t.affected ≡ true
complete s a known t i here = ground (arith, i.covers)
complete s a known t i (step {b} c d link) =
    ground (arith, i.closed b c (complete s a known t i d) link)

pub sweep-Reached :
    (s : Store) (a : String)
    → LinksKnown s
    → contains a s.records ≡ true
    → (t : Sweep) × (sweep s (sweep_fuel s) (a ∷ []) (record { affected = []; stale = s.stale })
        ≡ done t)
      × Reached s a t
sweep-Reached s a known present =
    let (t, e, i) =
      sweep_rule s (Inv s a known) (Inv-skip s a known) (Inv-visit s a known) (sweep_fuel s)
        (a ∷ []) (record { affected = []; stale = s.stale })
        (omega (arith, pending-nil s.dependents))
        (record {
          queue_known = λ x h. ground (arith, ==_iff x a);
          queue_sound = λ x h. subst (Depends s a) (sym ((==_iff x a).0 (ground arith))) here;
          sound = λ x h. cc;
          covers = ground (arith, ==_iff a a);
          closed = λ x y h k. cc;
          stale = λ x. ground arith;
        }) in
    (
      t,
      e,
      record {
        reached =
            λ x. (λ h. ∣ i.sound x h ∣₁, λ d. ∥∥₁_elim d (So-prop _) (complete s a known t i));
        stale = i.stale;
      },
    )
