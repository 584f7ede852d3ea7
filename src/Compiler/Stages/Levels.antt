-- ===== src/Compiler/Stages/Levels.antt =====
-- compiler.py, `level` of `_stages`: a judgment's level is above those of all that it depends on, and
-- the search for it comes to an end.
use jev_frame.Prelude.{
  ℕ, zero, suc, ◌+◌, ◌≤◌, ◌<◌, String, true, false, List, [], ◌∷◌, none, some, length, all, All,
  All-map, ◌≡◌, refl, arith, inl, inr, Bool-cases, Option-cases, string_eq, ◌==◌, ==_iff, ==_refl,
  subst, length-append, ◌∙◌, sym, ap, all-append,
}
use jev_frame.Prelude.Set.{has, add, unique, has-add, unique-add, length-unique}
use jev_frame.Prelude.Dict.{lookup, insert, contains, keys, lookup-insert, has-keys}
use jev_frame.Errors.{◌>>=◌, Result, ok, raise, compiler_error}
use jev_frame.Definitions.Agents.{Judgment}
use jev_frame.Compiler.Diagnostics.{Diagnostic}
use jev_frame.Compiler.Steps.{Setup}
use jev_frame.Compiler.Stages.{Levels, level_above, each_level, level}
use jev_frame.Compiler.Search.Invariant.{IsSound}

-- a level below `n`
abbrev pub Below : Levels → ℕ → String → Type 0
Below levels n d = (m : ℕ) × (lookup d levels ≡ some m) × (m < n)

unfoldable pub AreLevels : Setup → Levels → Type 0
AreLevels c levels =
    (i : String) (n : ℕ) (j : Judgment)
    → lookup i levels ≡ some n
    → lookup i c.judgments ≡ some j
    → All (Below levels n) j.dependencies

Below-kept :
    (l k : Levels) (n : ℕ) (d : String)
    → ((i : String) (m : ℕ) → lookup i l ≡ some m → lookup i k ≡ some m)
    → Below l n d
    → Below k n d
Below-kept l k n d kept (m, e, h) = (m, kept d m e, h)

Below-le : (l : Levels) (n m : ℕ) (d : String) → n ≤ m → Below l n d → Below l m d
Below-le l n m d h (k, e, lt) = (k, e, omega arith)

level_above-le : (n : ℕ) (ns : List ℕ) → level_above ns ≤ level_above (n ∷ ns)
level_above-le n [] = omega arith
level_above-le n (m ∷ ns) = ground arith

lt-level_above : (n : ℕ) (ns : List ℕ) → n < level_above (n ∷ ns)
lt-level_above n ns = ground arith

module _ (c : Setup) where
  -- What the search for levels leaves behind; the judgments in `stack` have no level meanwhile.
  pub record Leveled (stack : List String) (l k : Levels) : Type 0 where
    pub well : AreLevels c k
    pub kept : (i : String) (n : ℕ) → lookup i l ≡ some n → lookup i k ≡ some n
    pub spared : (i : String) → has i stack ≡ true → lookup i k ≡ lookup i l

  pub data LevelPost {A : Type 0} (stack : List String) (l : Levels) (Q : A → Levels → Type 0)
      : Result (A × Levels) → Type 0 where
    returned : (a : A) (k : Levels) → Leveled stack l k → Q a k → LevelPost stack l Q (ok (a, k))
    raised : (d : Diagnostic) → LevelPost stack l Q (raise (compiler_error d))

  later :
      {A : Type 0} {Q : A → Levels → Type 0} (stack : List String) (l k : Levels)
      (r : Result (A × Levels))
      → Leveled stack l k
      → LevelPost stack k Q r
      → LevelPost stack l Q r
  later stack l k r a (returned x u b q) =
      returned x u
        (record {
          well = b.well;
          kept = λ i n h. b.kept i n (a.kept i n h);
          spared = λ i h. b.spared i h ∙ a.spared i h;
        })
        q
  later stack l k r a (raised d) = raised d

  LevelPost-bind :
      {A B : Type 0} {P : A → Levels → Type 0} {Q : B → Levels → Type 0} (stack : List String)
      (l : Levels) (r : Result (A × Levels)) (f : A × Levels → Result (B × Levels))
      → LevelPost stack l P r
      → ((a : A) (k : Levels) → Leveled stack l k → P a k → LevelPost stack k Q (f (a, k)))
      → LevelPost stack l Q (r >>= f)
  LevelPost-bind stack l r f (returned a k b p) g = later stack l k (f (a, k)) b (g a k b p)
  LevelPost-bind stack l r f (raised d) g = raised d

  pub each_level-Post :
      (stack : List String) (find_level : String → Levels → Result (ℕ × Levels)) (is : List String)
      (l : Levels)
      → ((i : String) (k : Levels)
          → contains i c.judgments ≡ true
          → AreLevels c k
          → LevelPost stack k (λ n u. lookup i u ≡ some n) (find_level i k))
      → AreLevels c l
      → All (λ i. contains i c.judgments ≡ true) is
      → LevelPost stack l (λ ns k. All (Below k (level_above ns)) is) (each_level find_level is l)
  unfolding each_level
  each_level-Post stack find_level [] l each well known =
      returned [] l (record { well = well; kept = λ i n h. h; spared = λ i h. refl }) tt
  each_level-Post stack find_level (i ∷ is) l each well known =
      LevelPost-bind stack l (find_level i l) _ (each i l known.0 well) (λ n k a e.
        LevelPost-bind stack k (each_level find_level is k) _
          (each_level-Post stack find_level is k each a.well known.1)
          (λ ns u b below.
            returned (n ∷ ns) u (record { well = b.well; kept = λ j m h. h; spared = λ j h. refl })
              (
                (n, b.kept i n e, lt-level_above n ns),
                All-map _ _ is
                    (λ d.
                      Below-le u (level_above ns) (level_above (n ∷ ns)) d (level_above-le n ns))
                    below,
              )))

  -- The level of a judgment is put above those of its dependencies.
  put_level :
      (stack : List String) (i : String) (j : Judgment) (n : ℕ) (l k : Levels)
      → lookup i c.judgments ≡ some j
      → has i stack ≡ false
      → lookup i l ≡ none
      → Leveled (add i stack) l k
      → All (Below k n) j.dependencies
      → Leveled stack l (insert i n k)
  unfolding AreLevels
  put_level stack i j n l k there apart new a below =
      let fresh : lookup i k ≡ none =
        a.spared i (ground (arith, has-add i i stack, ==_refl i)) ∙ new in
      let kept : (d : String) (m : ℕ) → lookup d k ≡ some m → lookup d (insert i n k) ≡ some m =
        λ d m h. ground (arith, lookup-insert d i n k, ==_iff i d) in
      record {
        well = λ d m u e at. elim (Bool-cases (i == d)) [
          | inl same ↦
              let e' : m ≡ n = ground (arith, lookup-insert d i n k) in
              let at' : j ≡ u = ground (arith, ==_iff i d) in
              subst (λ v. All (Below (insert i n k) m) v.dependencies) at'
                (subst (λ o. All (Below (insert i n k) o) j.dependencies) (sym e')
                  (All-map _ _ j.dependencies (λ x. Below-kept k (insert i n k) n x kept) below))
          | inr other ↦
              All-map _ _ u.dependencies (λ x. Below-kept k (insert i n k) m x kept)
                (a.well d m u (ground (arith, lookup-insert d i n k)) at)
        ];
        kept = λ d m h. kept d m (a.kept d m h);
        spared = λ d h.
            ground
              (arith, lookup-insert d i n k, ==_iff i d, a.spared d, has-add d i stack, same_has d);
      }
    where
      same_has : (d : String) → i ≡ d → has d stack ≡ has i stack
      same_has d e = ap (λ x. has x stack) (sym e)

  abbrev Stacked : List String → Type 0
  Stacked stack = (unique stack ≡ true) × (all (λ i. has i (keys c.judgments)) stack ≡ true)

  Stacked-more :
      (stack : List String) (i : String)
      → Stacked stack
      → contains i c.judgments ≡ true
      → Stacked (add i stack)
  Stacked-more stack i a there = (
    unique-add i stack a.0,
    ground (
      arith,
      a.1,
      all-append (λ d. has d (keys c.judgments)) stack (i ∷ []),
      has-keys i c.judgments,
    ),
  )

  longer :
      (stack : List String) (i : String)
      → has i stack ≡ false
      → length (add i stack) ≡ length stack + 1
  longer stack i h = ground (arith, length-append stack (i ∷ []))

  level_result :
      (stack : List String) (i : String) (j : Judgment) (l : Levels)
      → lookup i c.judgments ≡ some j
      → has i stack ≡ false
      → lookup i l ≡ none
      → (r : Result (List ℕ × Levels))
      → LevelPost (add i stack) l (λ ns k. All (Below k (level_above ns)) j.dependencies) r
      → LevelPost stack l
          (λ n k. lookup i k ≡ some n)
          (r >>= λ (ns, k). ok (level_above ns, insert i (level_above ns) k))
  level_result stack i j l there apart new r (returned ns k a below) =
      returned (level_above ns) (insert i (level_above ns) k)
        (put_level stack i j (level_above ns) l k there apart new a below)
        (ground (arith, lookup-insert i i (level_above ns) k, ==_refl i))
  level_result stack i j l there apart new r (raised d) = raised d

  pub level-Post :
      IsSound c
      → (depth : ℕ) (stack : List String) (i : String) (l : Levels) → Stacked stack
      → length (keys c.judgments) < depth + length stack
      → contains i c.judgments ≡ true
      → AreLevels c l
      → LevelPost stack l (λ n k. lookup i k ≡ some n) (level c depth stack i l)
  unfolding level
  level-Post sound zero stack i l a enough there well =
      absurd (omega (arith, length-unique stack (keys c.judgments) a.0 a.1))
  level-Post sound (suc depth) stack i l a enough there well = elim (Option-cases (lookup i l)) [
    | inr (n, e) ↦
        rw (e, level)
          (returned n l (record { well = well; kept = λ d m h. h; spared = λ d h. refl }) e)
    | inl new ↦
        rw (new, level)
          (elim (Bool-cases (has i stack)) [
            | inl cycle ↦ rw cycle (raised _)
            | inr apart ↦ rw apart (elim (Option-cases (lookup i c.judgments)) [
              | inl none_ ↦ absurd (ground arith)
              | inr (j, at) ↦ rw at (
                  level_result stack i j l at apart new _ (
                    each_level-Post (add i stack) (level c depth (add i stack)) j.dependencies l
                      (λ d k known w.
                        level-Post sound depth (add i stack) d k (Stacked-more stack i a there)
                          (omega (arith, longer stack i apart)) known w)
                      well (sound.dependencies_known i j at)))
            ])
          ])
  ]
