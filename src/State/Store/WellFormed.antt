-- ===== src/State/Store/WellFormed.antt =====
-- state.py: what holds of every `EvidenceStore` that `add` and `invalidate` have built.
use jev_frame.Prelude.{
  ℕ, suc, ◌<◌, String, ◌≡◌, refl, Bool, true, false, ◌&&◌, ◌||◌, none, some, List, [], ◌∷◌, ◌++◌,
  arith, ◌==◌, ==_iff, ==_refl, string_eq, length, All, if◌then◌else◌,
}
use jev_frame.Prelude.Set.{has, add, has-add}
use jev_frame.Prelude.Dict.{Dict, lookup, contains, lookup-insert}
use jev_frame.State.Evidence.{Evidence}
use jev_frame.State.Store.{Store, entries, link, link_dependents, link_conflicts, new_store}
use jev_frame.State.Store.Sweeping.{is_completed_at}

-- How many records were added before the one under a key.
abbrev pub index : String → Dict String Evidence → ℕ
index k [] = 0
index k ((j, r) ∷ d) = if k == j then 0 else suc (index k d)

pub index-lt : (k : String) (d : Dict String Evidence) → contains k d ≡ true → index k d < length d
index-lt k [] h = cc
index-lt k ((j, r) ∷ d) h = ground (arith, index-lt k d)

pub index-append :
    (k j : String) (r : Evidence) (d : Dict String Evidence)
    → contains k d ≡ true
    → index k (d ++ (j, r) ∷ []) ≡ index k d
index-append k j r [] h = cc
index-append k j r ((i, v) ∷ d) h = ground (arith, index-append k j r d)

pub index-append_new :
    (k : String) (r : Evidence) (d : Dict String Evidence)
    → contains k d ≡ false
    → index k (d ++ (k, r) ∷ []) ≡ length d
index-append_new k r [] h = ground (arith, ==_refl k)
index-append_new k r ((i, v) ∷ d) h = ground (arith, index-append_new k r d)

-- all that a record refers to
abbrev pub references : Evidence → List String
references r = r.dependencies ++ (r.supersedes ++ r.conflicts_with)

-- `c` has `b` among its dependencies; `c` names `b` as a conflict.
abbrev pub depends_on : Store → String → String → Bool
depends_on s c b = elim (lookup c s.records) [ none ↦ false | some r ↦ has b r.dependencies ]

abbrev pub conflicts_with : Store → String → String → Bool
conflicts_with s c b = elim (lookup c s.records) [ none ↦ false | some r ↦ has b r.conflicts_with ]

pub record Resolves (s : Store) (k : String) (r : Evidence) (d : String) : Type 0 where
  pub target : Evidence
  pub found : lookup d s.records ≡ some target
  pub same_scope : target.scope ≡ r.scope
  pub earlier : index d s.records < index k s.records

-- a record stands under its id
abbrev pub IsOwn : String × Evidence → Type 0
IsOwn (k, r) = r.id ≡ k

pub record IsWellFormed (s : Store) : Type 0 where
  pub owned : All IsOwn s.records
  pub own : (k : String) (r : Evidence) → lookup k s.records ≡ some r → r.id ≡ k
  pub resolved :
      (k : String) (r : Evidence) (d : String)
      → lookup k s.records ≡ some r
      → has d (references r) ≡ true
      → Resolves s k r d
  pub dependents : (b c : String) → has c (entries s.dependents b) ≡ depends_on s c b
  pub conflicts :
      (b c : String)
      → has c (entries s.conflicts b) ≡ (conflicts_with s c b || conflicts_with s b c)
  pub stale_known : (k : String) → has k s.stale ≡ true → contains k s.records ≡ true
  pub stale_incomplete : (k : String) → has k s.stale ≡ true → is_completed_at s k ≡ false

pub new_store-IsWellFormed : IsWellFormed new_store
new_store-IsWellFormed = record {
  owned = tt;
  own = λ k r h. cc;
  resolved = λ k r d h. absurd cc;
  dependents = λ b c. refl;
  conflicts = λ b c. refl;
  stale_known = λ k h. cc;
  stale_incomplete = λ k h. refl;
}

entries-link :
    (k x j : String) (d : Dict String (List String))
    → entries (link k x d) j ≡ (if k == j then add x (entries d j) else entries d j)
entries-link k x j d = ground (arith, lookup-insert j k (add x (entries d k)) d, ==_iff k j)

has-link :
    (c k x j : String) (d : Dict String (List String))
    → has c (entries (link k x d) j) ≡ (has c (entries d j) || (k == j && c == x))
has-link c k x j d = ground (arith, entries-link k x j d, has-add c x (entries d j))

pub has-link_dependents :
    (id c b : String) (ds : List String) (d : Dict String (List String))
    → has c (entries (link_dependents id ds d) b) ≡ (has c (entries d b) || (c == id && has b ds))
has-link_dependents id c b [] d = ground arith
has-link_dependents id c b (x ∷ ds) d = ground (
  arith,
  has-link_dependents id c b ds (link x id d),
  has-link c x id b d,
  ==_iff x b,
  ==_iff b x,
)

pub has-link_conflicts :
    (id c b : String) (cs : List String) (d : Dict String (List String))
    → has c (entries (link_conflicts id cs d) b)
      ≡ (has c (entries d b) || (c == id && has b cs || b == id && has c cs))
has-link_conflicts id c b [] d = ground arith
has-link_conflicts id c b (x ∷ cs) d = ground (
  arith,
  has-link_conflicts id c b cs (link x id (link id x d)),
  has-link c x id b (link id x d),
  has-link c id x b d,
  ==_iff x b,
  ==_iff b x,
  ==_iff id b,
  ==_iff b id,
  ==_iff c x,
)
