-- ===== src/Prelude/Dict.antt =====
-- A Python dict as the list of its items in the order of their insertion.
use mathlib.Core.Path.{◌≡◌, refl, subst}
use mathlib.Core.Logic.{inl, inr}
use mathlib.Core.Bool.{Bool, true, false}
use mathlib.Core.Option.{Option, none, some}
use mathlib.Core.List.{List, [], ◌∷◌, ◌++◌}
use native.Mathlib.Omega.{arith}
use jev_frame.Prelude.Tests.{if◌then◌else◌, Bool-cases}
use jev_frame.Prelude.Keys.{Eq, ◌==◌, ==_iff}
use jev_frame.Prelude.Set.{has}
use jev_frame.Prelude.Lists.{All, length}

abbrev pub Dict {ℓ κ} : Type ℓ → Type κ → Type (ℓ ⊔ κ)
Dict K V = List (K × V)

module _ {ℓ κ} {K : Type ℓ} {V : Type κ} where
  -- `d.keys()` and `d.values()`
  abbrev pub keys : Dict K V → List K
  keys [] = []
  keys ((k, v) ∷ d) = k ∷ keys d

  abbrev pub values : Dict K V → List V
  values [] = []
  values ((k, v) ∷ d) = v ∷ values d

  pub length-keys : (d : Dict K V) → length (keys d) ≡ length d
  length-keys [] = refl
  length-keys ((k, v) ∷ d) = ground (arith, length-keys d)

module _ {ℓ κ} {K : Type ℓ} {V : Type κ} ⦃e : Eq K⦄ where
  -- `d.get(k)`
  abbrev pub lookup : K → Dict K V → Option V
  lookup k [] = none
  lookup k ((j, v) ∷ d) = if k == j then some v else lookup k d

  -- `d[k] = v`
  abbrev pub insert : K → V → Dict K V → Dict K V
  insert k v [] = (k, v) ∷ []
  insert k v ((j, w) ∷ d) = if k == j then (j, v) ∷ d else (j, w) ∷ insert k v d

  -- `k in d`
  abbrev pub contains : K → Dict K V → Bool
  contains k d = elim (lookup k d) [ none ↦ false | some _ ↦ true ]

  pub lookup-insert :
      (j k : K) (v : V) (d : Dict K V)
      → lookup j (insert k v d) ≡ (if k == j then some v else lookup j d)
  lookup-insert j k v [] = ground (arith, ==_iff j k, ==_iff k j)
  lookup-insert j k v ((i, w) ∷ d) =
      ground (arith, lookup-insert j k v d, ==_iff j i, ==_iff k i, ==_iff k j)

  pub insert_new :
      (k : K) (v : V) (d : Dict K V) → lookup k d ≡ none → insert k v d ≡ d ++ (k, v) ∷ []
  insert_new k v [] h = refl
  insert_new k v ((j, w) ∷ d) h = ground (arith, insert_new k v d)

  pub has-keys : (k : K) (d : Dict K V) → has k (keys d) ≡ contains k d
  has-keys k [] = refl
  has-keys k ((j, w) ∷ d) = ground (arith, has-keys k d)

  -- An insertion keeps what holds of all items, if it holds of the new one.
  pub All-insert {μ} :
      (P : K × V → Type μ) (k : K) (v : V) (d : Dict K V)
      → P (k, v)
      → All P d
      → All P (insert k v d)
  All-insert P k v [] p h = (p, tt)
  All-insert P k v ((j, w) ∷ d) p h = elim (Bool-cases (k == j)) [
    | inl same ↦
        let e : (k, v) ∷ d ≡ insert k v ((j, w) ∷ d) = ground (arith, ==_iff k j) in
        subst (All P) e (p, h.1)
    | inr apart ↦
        let e : (j, w) ∷ insert k v d ≡ insert k v ((j, w) ∷ d) = ground arith in
        subst (All P) e (h.0, All-insert P k v d p h.1)
  ]

  pub All-lookup {μ} :
      (P : K × V → Type μ) (k : K) (v : V) (d : Dict K V) → lookup k d ≡ some v → All P d → P (k, v)
  All-lookup P k v [] e h = absurd (ground arith)
  All-lookup P k v ((j, w) ∷ d) e h = elim (Bool-cases (k == j)) [
    | inl same ↦
        let e' : ◌≡◌ {A = K × V} (j, w) (k, v) = ground (arith, ==_iff k j) in subst P e' h.0
    | inr apart ↦ All-lookup P k v d (ground arith) h.1
  ]

  pub contains-insert :
      (j k : K) (v : V) (d : Dict K V)
      → contains j (insert k v d) ≡ (if k == j then true else contains j d)
  contains-insert j k v d = ground (arith, lookup-insert j k v d)
