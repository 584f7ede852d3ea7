-- ===== src/Compiler/Stages/Staging.antt =====
-- compiler.py, `_stages`: where the questions stand in the stages.
use mathlib.Core.List.Memᴰ
use mathlib.Core.List.{Memᴰ}
use jev_frame.Prelude.{
  ℕ, String, true, List, [], ◌∷◌, ◌++◌, Option, none, some, All, All-map, All-append, ◌≡◌, ◌≢◌,
  refl, arith, inl, inr, Option-cases, string_eq, nat_eq, ◌==◌, ==_iff, ==_refl, subst, ◌∙◌, sym,
  ap, if◌then◌else◌,
}
use jev_frame.Prelude.Set.{has, unique, has-append}
use jev_frame.Prelude.Dict.{
  Dict, lookup, insert, keys, values, lookup-insert, has-keys, All-insert, All-lookup,
  contains-insert,
}
use jev_frame.Errors.{ok}
use jev_frame.Compiler.Program.{CompiledQuestion}
use jev_frame.Compiler.Stages.{Levels, add_to, group, routing_ids}

abbrev pub Questions : Type 0
Questions = Dict String CompiledQuestion

abbrev pub Groups : Type 0
Groups = Dict ℕ (List String)

-- the routing ids at a level
abbrev pub ids_at : ℕ → Groups → List String
ids_at n g = elim (lookup n g) [ none ↦ [] | some ids ↦ ids ]

-- A routing id at a level is that of a question whose judgment has the level.
abbrev pub Source : Levels → Questions → ℕ → String → Type 0
Source levels questions n rid =
    (i : String) × (q : CompiledQuestion) × Memᴰ (i, q) questions
    × (q.routing_id ≡ rid)
    × (lookup i levels ≡ some n)

abbrev Sources : Levels → Questions → ℕ × List String → Type 0
Sources levels questions e = All (Source levels questions e.0) e.1

ids_at-add_to :
    (n m : ℕ) (rid : String) (g : Groups)
    → ids_at m (add_to n rid g) ≡ (if n == m then ids_at m g ++ rid ∷ [] else ids_at m g)
ids_at-add_to n m rid g = ground (
  arith,
  lookup-insert m n (elim (lookup n g) [ none ↦ rid ∷ [] | some ids ↦ ids ++ rid ∷ [] ]) g,
  ==_iff n m,
)

add_to-Sources :
    (levels : Levels) (questions : Questions) (n : ℕ) (rid : String) (g : Groups)
    → Source levels questions n rid
    → All (Sources levels questions) g
    → All (Sources levels questions) (add_to n rid g)
add_to-Sources levels questions n rid g s h =
    All-insert (Sources levels questions) n _ g (longer (lookup n g) refl) h
  where
    longer :
        (there : Option (List String))
        → lookup n g ≡ there
        → All
            (Source levels questions n)
            (elim there [ none ↦ rid ∷ [] | some ids ↦ ids ++ rid ∷ [] ])
    longer none e = (s, tt)
    longer (some ids) e =
        All-append _ ids (rid ∷ []) (All-lookup (Sources levels questions) n ids g e h) (s, tt)

-- The groups hold the questions `done` where they belong.
abbrev Placed : Levels → Groups → String × CompiledQuestion → Type 0
Placed levels g e =
    (n : ℕ) × (lookup e.0 levels ≡ some n) × (has e.1.routing_id (ids_at n g) ≡ true)

Placed-add_to :
    (levels : Levels) (g : Groups) (n : ℕ) (rid : String) (e : String × CompiledQuestion)
    → Placed levels g e
    → Placed levels (add_to n rid g) e
Placed-add_to levels g n rid (i, q) (m, at, h) = (
  m,
  at,
  ground (arith, ids_at-add_to n m rid g, has-append q.routing_id (ids_at m g) (rid ∷ [])),
)

-- What grouping gives.
pub record AreGroups (levels : Levels) (questions : Questions) (g : Groups) : Type 0 where
  pub sourced : All (Sources levels questions) g
  pub distinct : unique (keys g) ≡ true
  pub placed : All (Placed levels g) questions

unique-insert :
    (n : ℕ) (v : List String) (g : Groups)
    → unique (keys g) ≡ true
    → unique (keys (insert n v g)) ≡ true
unique-insert n v [] h = refl
unique-insert n v ((m, w) ∷ g) h = ground (
  arith,
  unique-insert n v g,
  has-keys m (insert n v g),
  has-keys m g,
  contains-insert m n v g,
  ==_iff n m,
)

group_step :
    (levels : Levels) (i : String) (q : CompiledQuestion) (n : ℕ) (rest : Questions) (g : Groups)
    → lookup i levels ≡ some n
    → group levels ((i, q) ∷ rest) g ≡ group levels rest (add_to n q.routing_id g)
unfolding group
group_step levels i q n rest g at = ground arith

group_rest :
    (levels : Levels) (questions done rest : Questions) (g : Groups)
    → All (λ e. lookup e.0 levels ≢ none) rest
    → ((e : String × CompiledQuestion) → Memᴰ e rest → Memᴰ e questions)
    → All (Sources levels questions) g
    → unique (keys g) ≡ true
    → All (Placed levels g) done
    → (g' : Groups) × (group levels rest g ≡ ok g')
      × All (Sources levels questions) g'
      × (unique (keys g') ≡ true)
      × All (Placed levels g') done
      × All (Placed levels g') rest
unfolding group
group_rest levels questions done [] g have part s u p = (g, refl, s, u, p, tt)
group_rest levels questions done ((i, q) ∷ rest) g have part s u p =
    elim (Option-cases (lookup i levels)) [
      | inl none_ ↦ absurd (have.0 none_)
      | inr (n, at) ↦
          let g1 = add_to n q.routing_id g in
          let (g', e, s', u', p', r') =
            group_rest levels questions ((i, q) ∷ done) rest g1 have.1 (λ e m. part e (Memᴰ.tail m))
              (add_to-Sources levels questions n q.routing_id g
                (i, q, part (i, q) (Memᴰ.head refl), refl, at) s)
              (unique-insert n _ g u)
              (
                (
                  n,
                  at,
                  ground (
                    arith,
                    ids_at-add_to n n q.routing_id g,
                    has-append q.routing_id (ids_at n g) (q.routing_id ∷ []),
                    ==_refl q.routing_id,
                    ==_refl n,
                  ),
                ),
                All-map _ _ done (λ x. Placed-add_to levels g n q.routing_id x) p,
              ) in
          (g', group_step levels i q n rest g at ∙ e, s', u', p'.1, (p'.0, r'))
    ]

pub group-AreGroups :
    (levels : Levels) (questions : Questions)
    → All (λ e. lookup e.0 levels ≢ none) questions
    → (g : Groups) × (group levels questions [] ≡ ok g) × AreGroups levels questions g
group-AreGroups levels questions have =
    let (g, e, s, u, p, r) =
      group_rest levels questions [] questions [] have (λ e m. m) tt refl tt in
    (g, e, record { sourced = s; distinct = u; placed = r })

-- Questions that share their routing id are one.
pub routing-unique :
    (questions : Questions) (e f : String × CompiledQuestion)
    → unique (routing_ids (values questions)) ≡ true
    → Memᴰ e questions
    → Memᴰ f questions
    → e.1.routing_id ≡ f.1.routing_id
    → e ≡ f
routing-unique [] e f u a b same = absurd (Memᴰ.not-nil a)
routing-unique (x ∷ xs) e f u a b same = elim (Memᴰ.cases_cons a) [
  | inl e_ ↦ elim (Memᴰ.cases_cons b) [
    | inl f_ ↦ e_ ∙ sym f_
    | inr b' ↦
        absurd (
          clash x f xs b' (sym (ap (λ (y : String × CompiledQuestion). y.1.routing_id) e_) ∙ same)
            u)
  ]
  | inr a' ↦ elim (Memᴰ.cases_cons b) [
    | inl f_ ↦ absurd (
        clash x e xs a' (sym (ap (λ (y : String × CompiledQuestion). y.1.routing_id) f_) ∙ sym same)
          u)
    | inr b' ↦ routing-unique xs e f (ground arith) a' b' same
  ]
]
  where
    listed :
        (y : String × CompiledQuestion) (ys : Questions)
        → Memᴰ y ys
        → has y.1.routing_id (routing_ids (values ys)) ≡ true
    listed y [] m = absurd (Memᴰ.not-nil m)
    listed y (z ∷ ys) m = elim (Memᴰ.cases_cons m) [
      | inl e_ ↦ ground (
        arith,
        ap (λ (w : String × CompiledQuestion). w.1.routing_id) e_,
        ==_iff y.1.routing_id z.1.routing_id,
      )
      | inr m' ↦ ground (arith, listed y ys m')
    ]

    clash :
        (z y : String × CompiledQuestion) (ys : Questions)
        → Memᴰ y ys
        → z.1.routing_id ≡ y.1.routing_id
        → unique (routing_ids (values (z ∷ ys))) ≡ true
        → ⊥
    clash z y ys m same_ u_ =
        let there = listed y ys m in
        let there' : has z.1.routing_id (routing_ids (values ys)) ≡ true =
          subst (λ r. has r (routing_ids (values ys)) ≡ true) (sym same_) there in
        ground arith
