-- ===== src/Prelude/Set.antt =====
-- A Python set as the list of its members in the order of their insertion. Nothing that the
-- program returns depends on this order.
use Prim.Native.Nat.{◌≤◌, ◌<◌, suc}
use mathlib.Core.Path.{◌≡◌, refl}
use mathlib.Core.Logic.{inl, inr}
use mathlib.Core.Bool.{Bool, true, false, ◌||◌, ◌&&◌, not}
use mathlib.Core.List.{List, [], ◌∷◌, ◌++◌, append-nil}
use native.Mathlib.Omega.{arith}
use jev_frame.Prelude.Tests.{if◌then◌else◌, Bool-cases}
use jev_frame.Prelude.Keys.{Eq, ◌==◌, ==_iff, ==_refl}
use jev_frame.Prelude.Lists.{length, length-append, all, all-append, All}

module _ {ℓ} {A : Type ℓ} ⦃e : Eq A⦄ where
  -- `x in s`
  abbrev pub has : A → List A → Bool
  has x [] = false
  has x (y ∷ s) = x == y || has x s

  -- `s.add(x)`
  abbrev pub add : A → List A → List A
  add x s = if has x s then s else s ++ x ∷ []

  -- `tuple(dict.fromkeys(xs))`, for what `seen` holds already
  abbrev pub from_keys : List A → List A → List A
  from_keys seen [] = seen
  from_keys seen (x ∷ xs) = from_keys (add x seen) xs

  -- `s.discard(x)`
  abbrev pub discard : A → List A → List A
  discard x [] = []
  discard x (y ∷ s) = if x == y then discard x s else y ∷ discard x s

  -- `s.issubset(t)`
  abbrev pub subset : List A → List A → Bool
  subset [] t = true
  subset (x ∷ s) t = has x t && subset s t

  -- `len(s) == len(set(s))`
  abbrev pub unique : List A → Bool
  unique [] = true
  unique (x ∷ s) = not (has x s) && unique s

  pub has-append : (x : A) (s t : List A) → has x (s ++ t) ≡ (has x s || has x t)
  has-append x [] t = refl
  has-append x (y ∷ s) t = ground (arith, has-append x s t)

  pub has-add : (x y : A) (s : List A) → has x (add y s) ≡ (x == y || has x s)
  has-add x y s = ground (arith, has-append x s (y ∷ []), ==_iff x y)

  pub has-discard : (x y : A) (s : List A) → has x (discard y s) ≡ (not (y == x) && has x s)
  has-discard x y [] = ground arith
  has-discard x y (z ∷ s) = ground (arith, has-discard x y s, ==_iff x z, ==_iff y z, ==_iff y x)

  pub length-discard-le : (x : A) (s : List A) → length (discard x s) ≤ length s
  length-discard-le x [] = omega arith
  length-discard-le x (y ∷ s) = ground (arith, length-discard-le x s)

  pub length-add-le : (x : A) (s : List A) → length (add x s) ≤ suc (length s)
  length-add-le x s = ground (arith, length-append s (x ∷ []))

  all-add :
      (p : A → Bool) (x : A) (s : List A) → p x ≡ true → all p s ≡ true → all p (add x s) ≡ true
  all-add p x s px ps = elim (Bool-cases (has x s)) [
    | inl old ↦ ground arith
    | inr new ↦ ground (arith, all-append p s (x ∷ []))
  ]

  pub all-from_keys :
      (p : A → Bool) (seen xs : List A)
      → all p seen ≡ true
      → all p xs ≡ true
      → all p (from_keys seen xs) ≡ true
  all-from_keys p seen [] s h = s
  all-from_keys p seen (x ∷ xs) s h =
      all-from_keys p (add x seen) xs (all-add p x seen (ground arith) s) (ground arith)

  pub has-from_keys :
      (y : A) (seen xs : List A) → has y (from_keys seen xs) ≡ (has y seen || has y xs)
  has-from_keys y seen [] = ground arith
  has-from_keys y seen (x ∷ xs) = ground (arith, has-from_keys y (add x seen) xs, has-add y x seen)

  discard_absent : (x : A) (s : List A) → has x s ≡ false → discard x s ≡ s
  discard_absent x [] h = refl
  discard_absent x (y ∷ s) h = ground (arith, discard_absent x s)

  discard-append : (x : A) (s t : List A) → discard x (s ++ t) ≡ discard x s ++ discard x t
  discard-append x [] t = refl
  discard-append x (y ∷ s) t = ground (arith, discard-append x s t)

  pub discard-add : (x : A) (s : List A) → has x s ≡ false → discard x (add x s) ≡ s
  discard-add x s h =
      ground (arith, discard-append x s (x ∷ []), discard_absent x s, ==_refl x, append-nil s)

  unique-append :
      (x : A) (s : List A) → has x s ≡ false → unique s ≡ true → unique (s ++ x ∷ []) ≡ true
  unique-append x [] h u = refl
  unique-append x (y ∷ s) h u =
      ground (arith, unique-append x s, has-append y s (x ∷ []), ==_iff x y, ==_iff y x)

  pub unique-add : (x : A) (s : List A) → unique s ≡ true → unique (add x s) ≡ true
  unique-add x s u = elim (Bool-cases (has x s)) [
    | inl old ↦ ground arith
    | inr new ↦ ground (arith, unique-append x s)
  ]

  length-discard-lt : (x : A) (s : List A) → has x s ≡ true → length (discard x s) < length s
  length-discard-lt x [] h = absurd (ground arith)
  length-discard-lt x (y ∷ s) h = ground (arith, length-discard-lt x s, length-discard-le x s)

  -- Distinct members of a list are no more than the list has.
  pub length-unique :
      (s t : List A) → unique s ≡ true → all (λ x. has x t) s ≡ true → length s ≤ length t
  length-unique [] t u h = omega arith
  length-unique (x ∷ s) t u h =
      let rest =
        length-unique s (discard x t) (ground arith) (absent s (ground arith) (ground arith)) in
      omega (arith, rest, length-discard-lt x t (ground arith))
    where
      absent :
          (r : List A)
          → has x r ≡ false
          → all (λ y. has y t) r ≡ true
          → all (λ y. has y (discard x t)) r ≡ true
      absent [] n k = refl
      absent (y ∷ r) n k = ground (arith, absent r, has-discard y x t, ==_iff x y, ==_iff y x)

  pub All-has {κ} : (P : A → Type κ) (s : List A) → ((x : A) → has x s ≡ true → P x) → All P s
  All-has P [] h = tt
  All-has P (x ∷ s) h = (h x (ground (arith, ==_refl x)), All-has P s (λ y m. h y (ground arith)))
