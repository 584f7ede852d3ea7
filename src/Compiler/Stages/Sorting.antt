-- ===== src/Compiler/Stages/Sorting.antt =====
-- compiler.py, `sorted` in `_stages`: the indices of the stages increase.
use jev_frame.Prelude.{
  ℕ, Bool, true, false, ◌&&◌, ◌||◌, List, [], ◌∷◌, all, all-map, ◌≡◌, refl, arith, inl, inr,
  Bool-cases, nat_eq, ◌==◌, ==_iff, leb, ltb,
}
use jev_frame.Prelude.Set.{has, unique}
use jev_frame.Compiler.Stages.{place, sorted}

abbrev pub is_increasing : List ℕ → Bool
is_increasing [] = true
is_increasing (n ∷ ns) = all (ltb n) ns && is_increasing ns

has-place : (x n : ℕ) (ns : List ℕ) → has x (place n ns) ≡ (x == n || has x ns)
has-place x n [] = refl
has-place x n (m ∷ ns) = ground (arith, has-place x n ns)

pub has-sorted : (x : ℕ) (ns : List ℕ) → has x (sorted ns) ≡ has x ns
has-sorted x [] = refl
has-sorted x (n ∷ ns) = ground (arith, has-place x n (sorted ns), has-sorted x ns)

all-place : (p : ℕ → Bool) (n : ℕ) (ns : List ℕ) → all p (place n ns) ≡ (p n && all p ns)
all-place p n [] = refl
all-place p n (m ∷ ns) = ground (arith, all-place p n ns)

place-is_increasing :
    (n : ℕ) (ns : List ℕ)
    → has n ns ≡ false
    → is_increasing ns ≡ true
    → is_increasing (place n ns) ≡ true
place-is_increasing n [] h k = refl
place-is_increasing n (m ∷ ns) h k = elim (Bool-cases (leb n m)) [
  | inl le ↦
      let above = all-map (ltb m) (ltb n) ns (λ x lt. ground arith) (ground arith) in
      ground (arith, ==_iff n m)
  | inr gt ↦ ground (arith, place-is_increasing n ns, all-place (ltb m) n ns)
]

pub sorted-is_increasing : (ns : List ℕ) → unique ns ≡ true → is_increasing (sorted ns) ≡ true
sorted-is_increasing [] h = refl
sorted-is_increasing (n ∷ ns) h =
    place-is_increasing n (sorted ns) (ground (arith, has-sorted n ns))
      (sorted-is_increasing ns (ground arith))
