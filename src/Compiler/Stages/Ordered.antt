-- ===== src/Compiler/Stages/Ordered.antt =====
-- compiler.py, `_stages`: questions stand behind those that they depend on.
use mathlib.Core.List.Memᴰ
use mathlib.Core.List.{Memᴰ}
use jev_frame.Prelude.{
  ℕ, ◌<◌, String, Bool, true, false, ◌||◌, List, [], ◌∷◌, Option, none, some, All, All_mem, mem-map,
  ◌≡◌, ◌≢◌, ◌⊎◌, refl, arith, inl, inr, Bool-cases, Option-cases, string_eq, nat_eq, ◌==◌, ==_iff,
  subst, ◌∙◌, sym, ap, map,
}
use jev_frame.Prelude.Set.{has, unique}
use jev_frame.Prelude.Dict.{Dict, lookup, contains, keys, values, has-keys, length-keys, All-lookup}
use jev_frame.Errors.{Result, ok, raise, compiler_error}
use jev_frame.Compiler.Diagnostics.{NodeId, Diagnostic}
use jev_frame.Compiler.Program.{CompiledNode, CompiledQuestion, EvaluationStage}
use jev_frame.Compiler.Steps.{Setup, diagnostic}
use jev_frame.Compiler.Stages.{
  Levels, level_above, level, level_depth, sorted, stage_at, stages, routing_ids,
}
use jev_frame.Compiler.Search.Invariant.{IsSound, IsQuestion}
use jev_frame.Compiler.Stages.Levels.{
  Below, AreLevels, LevelPost, returned, raised, each_level-Post, level-Post,
}
use jev_frame.Compiler.Stages.Staging.{
  Questions, Groups, ids_at, Source, AreGroups, group-AreGroups, routing-unique,
}
use jev_frame.Compiler.Stages.Sorting.{is_increasing, has-sorted, sorted-is_increasing}

abbrev pub in_some : String → List EvaluationStage → Bool
in_some rid [] = false
in_some rid (e ∷ es) = has rid e.question_ids || in_some rid es

abbrev pub indices : List EvaluationStage → List ℕ
indices = map (λ (e : EvaluationStage). e.index)

-- The stages are in order, each question stands in one of them, and behind those that its judgment
-- depends on.
pub record AreStages (qs : List CompiledQuestion) (es : List EvaluationStage) : Type 0 where
  pub increasing : is_increasing (indices es) ≡ true
  pub placed : All (λ q. in_some q.routing_id es ≡ true) qs
  pub later :
      (q r : CompiledQuestion)
      → Memᴰ q qs
      → Memᴰ r qs
      → has r.judgment_id q.dependencies ≡ true
      → (e f : EvaluationStage) → Memᴰ e es
      → Memᴰ f es
      → has q.routing_id e.question_ids ≡ true
      → has r.routing_id f.question_ids ≡ true
      → f.index < e.index

mem-values :
    (q : CompiledQuestion) (d : Questions) → Memᴰ q (values d) → (i : String) × Memᴰ (i, q) d
mem-values q [] m = absurd (Memᴰ.not-nil m)
mem-values q ((i, p) ∷ d) m = elim (Memᴰ.cases_cons m) [
  | inl e ↦ (i, Memᴰ.head (ap (λ (x : CompiledQuestion). (i, x)) e))
  | inr m' ↦ let (k, t) = mem-values q d m' in (k, Memᴰ.tail t)
]

All_has_mem :
    (P : String → Type 0) (r : String) (xs : List String) → All P xs → has r xs ≡ true → P r
All_has_mem P r [] a h = absurd (ground arith)
All_has_mem P r (x ∷ xs) a h = elim (Bool-cases (r == x)) [
  | inl e ↦ subst P (sym ((==_iff r x).0 e)) a.0
  | inr e ↦ All_has_mem P r xs a.1 (ground arith)
]

Source-of :
    (levels : Levels) (questions : Questions) (g : Groups) (n : ℕ) (rid : String)
    → AreGroups levels questions g
    → has rid (ids_at n g) ≡ true
    → Source levels questions n rid
Source-of levels questions g n rid a h = elim (Option-cases (lookup n g)) [
  | inl e ↦ absurd (ground arith)
  | inr (ids, e) ↦
      All_has_mem _ rid ids
        (All-lookup (λ x. All (Source levels questions x.0) x.1) n ids g e a.sourced) (ground arith)
]

-- The level of a question whose routing id stands at a level.
level_of :
    (levels : Levels) (questions : Questions) (g : Groups) (n : ℕ) (i : String)
    (q : CompiledQuestion)
    → AreGroups levels questions g
    → unique (routing_ids (values questions)) ≡ true
    → Memᴰ (i, q) questions
    → has q.routing_id (ids_at n g) ≡ true
    → lookup i levels ≡ some n
level_of levels questions g n i q a u m h =
    let (k, p, m', same, at) = Source-of levels questions g n q.routing_id a h in
    let one = routing-unique questions (k, p) (i, q) u m' m same in
    subst (λ (x : String × CompiledQuestion). lookup x.0 levels ≡ some n) one at

indices_same : (g : Groups) (ns : List ℕ) → indices (map (stage_at g) ns) ≡ ns
indices_same g [] = refl
indices_same g (n ∷ ns) = ap (λ (l : List ℕ). n ∷ l) (indices_same g ns)

in_some-map :
    (g : Groups) (n : ℕ) (rid : String) (ns : List ℕ)
    → has n ns ≡ true
    → has rid (ids_at n g) ≡ true
    → in_some rid (map (stage_at g) ns) ≡ true
in_some-map g n rid [] h k = absurd (ground arith)
in_some-map g n rid (m ∷ ns) h k = elim (Bool-cases (n == m)) [
  | inl e ↦
      let there : has rid (ids_at m g) ≡ true =
        subst (λ x. has rid (ids_at x g) ≡ true) ((==_iff n m).0 e) k in
      ground arith
  | inr e ↦ ground (arith, in_some-map g n rid ns)
]

level_there :
    (g : Groups) (n : ℕ) (rid : String) → has rid (ids_at n g) ≡ true → has n (keys g) ≡ true
level_there g n rid h = ground (arith, has-keys n g)

module _ (c : Setup) (sound : IsSound c) (d : Dict NodeId CompiledNode) (questions : Questions)
    (well : All (λ e. IsQuestion c d questions e.0 e.1) questions) where
  pub grouped-AreStages :
      (levels : Levels) (g : Groups)
      → unique (routing_ids (values questions)) ≡ true
      → AreLevels c levels
      → AreGroups levels questions g
      → AreStages (values questions) (map (stage_at g) (sorted (keys g)))
  unfolding AreLevels
  grouped-AreStages levels g u leveled a = record {
    increasing =
        subst (λ l. is_increasing l ≡ true) (sym (indices_same g (sorted (keys g))))
          (sorted-is_increasing (keys g) a.distinct);
    placed = placed_all questions a.placed;
    later = λ q r mq mr dep e f me mf hq hr.
        let (i, iq) = mem-values q questions mq in
        let (k, kr) = mem-values r questions mr in
        let (n, en) = mem-map (stage_at g) (sorted (keys g)) e me in
        let (m, fm) = mem-map (stage_at g) (sorted (keys g)) f mf in
        let at = level_of levels questions g n i q a u iq (ground (arith, hq)) in
        let at' = level_of levels questions g m k r a u kr (ground (arith, hr)) in
        let is_q = All_mem _ questions (i, q) well iq in
        let is_r = All_mem _ questions (k, r) well kr in
        let (j, there, same) = is_q.declared in
        let (l, low, lt) =
          All_has_mem _ r.judgment_id q.dependencies
            (subst (All (Below levels n)) (sym same) (leveled i n j at there)) dep in
        let eq : l ≡ m = equal_some l m (sym low ∙ (ap (λ x. lookup x levels) is_r.asks ∙ at')) in
        let at_e : e.index ≡ n = ap (λ (x : EvaluationStage). x.index) en in
        let at_f : f.index ≡ m = ap (λ (x : EvaluationStage). x.index) fm in omega arith;
  }
    where
      equal_some : (l m : ℕ) → ◌≡◌ {A = Option ℕ} (some l) (some m) → l ≡ m
      equal_some l m e = cc

      placed_all :
          (rest : Questions)
          → All
              (λ e.
                (n : ℕ) × (lookup e.0 levels ≡ some n) × (has e.1.routing_id (ids_at n g) ≡ true))
              rest
          → All
              (λ q. in_some q.routing_id (map (stage_at g) (sorted (keys g))) ≡ true)
              (values rest)
      placed_all [] h = tt
      placed_all ((i, q) ∷ rest) h =
          let (n, at, there) = h.0 in
          (
            in_some-map g n q.routing_id (sorted (keys g))
                (has-sorted n (keys g) ∙ level_there g n q.routing_id there) there,
            placed_all rest h.1,
          )

  level_outcome :
      {A : Type 0} {Q : A → Levels → Type 0} (r : Result (A × Levels))
      → LevelPost c [] [] Q r
      → ((a : A) × (k : Levels) × (r ≡ ok (a, k)) × AreLevels c k × Q a k)
        ⊎ ((x : Diagnostic) × (r ≡ raise (compiler_error x)))
  level_outcome r (returned a k l q) = inl (a, k, refl, l.well, q)
  level_outcome r (raised x) = inr (x, refl)

  All-leveled :
      (qs : Questions) (levels : Levels) (n : ℕ)
      → All (Below levels n) (keys qs)
      → All (λ e. lookup e.0 levels ≢ none) qs
  All-leveled [] levels n h = tt
  All-leveled ((i, q) ∷ qs) levels n h =
      (λ e. let (m, at, lt) = h.0 in absurd (cc), All-leveled qs levels n h.1)

  known_keys :
      (qs : Questions)
      → All (λ e. IsQuestion c d questions e.0 e.1) qs
      → All (λ i. contains i c.judgments ≡ true) (keys qs)
  known_keys [] h = tt
  known_keys ((i, q) ∷ qs) h = (let (j, at, same) = h.0.declared in ground arith, known_keys qs h.1)

  -- `_stages` gives stages in order, or a diagnostic.
  pub stages-AreStages :
      ((es : List EvaluationStage) × (stages c questions ≡ ok es) × AreStages (values questions) es)
      ⊎ ((x : Diagnostic) × (stages c questions ≡ raise (compiler_error x)))
  unfolding stages AreLevels
  stages-AreStages = elim (Bool-cases (unique (routing_ids (values questions)))) [
    | inr twice ↦ inr (diagnostic c "duplicate_question_id" none none none none, rw twice)
    | inl once_ ↦
        elim (level_outcome _ (
          each_level-Post c [] (level c (level_depth c) []) (keys questions) []
            (λ i k there w.
              level-Post c sound (level_depth c) [] i k (refl, refl)
                (omega (arith, length-keys c.judgments)) there w)
            (λ i n j e at. absurd cc) (known_keys questions well))) [
              | inr (x, e) ↦ inr (x, rw (once_, e))
              | inl (ns, levels, e, w, below) ↦
                  let (g, e', a) =
                    group-AreGroups levels questions
                      (All-leveled questions levels (level_above ns) below) in
                  inl (
                    map (stage_at g) (sorted (keys g)),
                    rw (once_, e, e') refl,
                    grouped-AreStages levels g once_ w a,
                  )
            ]
  ]
