-- ===== src/Compiler/Agent/Sound.antt =====
-- compiler.py, `_Compiler.__init__`: what a checked definition makes of the compiler's tables.
use jev_frame.Prelude.{
  String, Bool, true, false, ◌&&◌, ◌||◌, List, [], ◌∷◌, ◌++◌, Option, none, some, all, All,
  All-append, ◌≡◌, refl, arith, inl, inr, Bool-cases, string_eq, subst, ◌==◌, ==_iff, ◌∙◌, ==_refl,
  map,
}
use jev_frame.Prelude.Set.{has, unique, subset}
use jev_frame.Prelude.Dict.{
  Dict, lookup, insert, contains, keys, values, All-insert, All-lookup, has-keys, contains-insert,
}
use jev_frame.Definitions.Tools.{Tool}
use jev_frame.Compiler.Agent.{by_id, add_producer, producers_from}

-- The last check of `Tool.__post_init__`: groups name parameters, which are the keys of the bindings
-- and so are distinct.
abbrev pub is_tool : Tool → Bool
is_tool t =
    unique (keys t.bindings) && all (λ group. subset group (keys t.bindings)) t.binding_groups

module _ {A : Type 0} (id : A → String) where
  pub by_id-All :
      (P : A → Type 0) (xs : List A) (d : Dict String A)
      → All P xs
      → All (λ e. (id e.1 ≡ e.0) × P e.1) d
      → All (λ e. (id e.1 ≡ e.0) × P e.1) (by_id id xs d)
  by_id-All P [] d a h = h
  by_id-All P (x ∷ xs) d a h =
      by_id-All P xs (insert (id x) x d) a.1
        (All-insert (λ e. (id e.1 ≡ e.0) × P e.1) (id x) x d (refl, a.0) h)

  pub contains-by_id :
      (k : String) (xs : List A) (d : Dict String A)
      → contains k (by_id id xs d) ≡ (has k (map id xs) || contains k d)
  contains-by_id k [] d = refl
  contains-by_id k (x ∷ xs) d = ground (
    arith,
    contains-by_id k xs (insert (id x) x d),
    contains-insert k (id x) x d,
    ==_iff k (id x),
    ==_iff (id x) k,
  )

  unique-insert :
      (k : String) (v : A) (d : Dict String A)
      → unique (keys d) ≡ true
      → unique (keys (insert k v d)) ≡ true
  unique-insert k v [] h = refl
  unique-insert k v ((j, w) ∷ d) h = ground (
    arith,
    unique-insert k v d,
    has-keys j (insert k v d),
    has-keys j d,
    contains-insert j k v d,
    ==_iff k j,
  )

  pub unique-by_id :
      (xs : List A) (d : Dict String A)
      → unique (keys d) ≡ true
      → unique (keys (by_id id xs d)) ≡ true
  unique-by_id [] d h = h
  unique-by_id (x ∷ xs) d h = unique-by_id xs (insert (id x) x d) (unique-insert (id x) x d h)

  -- In a dict with distinct keys each item is found.
  pub items_found :
      (d e : Dict String A)
      → ((k : String) → contains k d ≡ true → lookup k e ≡ lookup k d)
      → unique (keys d) ≡ true
      → All (λ x. lookup x.0 e ≡ some x.1) d
  items_found [] e same u = tt
  items_found ((k, v) ∷ d) e same u = (
    same k (ground (arith, ==_refl k)) ∙ ground (arith, ==_refl k),
    items_found d e (λ j h. same j (ground arith) ∙ ground (arith, other j h)) (ground arith),
  )
    where
      other : (j : String) → contains j d ≡ true → (j == k) ≡ false
      other j h = elim (Bool-cases (j == k)) [
        | inr apart ↦ apart
        | inl e ↦
            let there : contains k d ≡ true =
              subst (λ i. contains i d ≡ true) ((==_iff j k).0 e) h in
            absurd (ground (arith, has-keys k d))
      ]

module _ (tools : Dict String Tool) where
  abbrev Known : String × List Tool → Type 0
  Known e = All (λ t. lookup t.id tools ≡ some t) e.1

  add_producer-Known :
      (t : Tool) (os : List String) (d : Dict String (List Tool))
      → lookup t.id tools ≡ some t
      → All Known d
      → All Known (add_producer t os d)
  add_producer-Known t [] d k h = h
  add_producer-Known t (o ∷ os) d k h =
      add_producer-Known t os _ k (All-insert Known o _ d (longer (lookup o d) refl) h)
    where
      longer :
          (found_ : Option (List Tool))
          → lookup o d ≡ found_
          → All
              (λ u. lookup u.id tools ≡ some u)
              (elim found_ [ none ↦ t ∷ [] | some ts ↦ ts ++ t ∷ [] ])
      longer none e = (k, tt)
      longer (some ts) e = All-append _ ts (t ∷ []) (All-lookup Known o ts d e h) (k, tt)

  pub producers_from-Known :
      (ts : List Tool) (d : Dict String (List Tool))
      → All (λ t. lookup t.id tools ≡ some t) ts
      → All Known d
      → All Known (producers_from ts d)
  producers_from-Known [] d k h = h
  producers_from-Known (t ∷ ts) d k h =
      producers_from-Known ts _ k.1 (add_producer-Known t t.produces_evidence d k.0 h)

  pub values-All :
      (d : Dict String Tool)
      → All (λ e. (e.1.id ≡ e.0) × (lookup e.0 tools ≡ some e.1)) d
      → All (λ t. lookup t.id tools ≡ some t) (values d)
  values-All [] h = tt
  values-All ((k, t) ∷ d) h = (ground (arith, h.0.0, h.0.1), values-All d h.1)
