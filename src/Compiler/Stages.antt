-- ===== src/Compiler/Stages.antt =====
-- compiler.py, `_stages`: the stages in which the questions are evaluated.
pub mod Levels
pub mod Staging
pub mod Sorting
pub mod Ordered
use jev_frame.Prelude.{
  ℕ, zero, suc, String, true, false, List, [], ◌∷◌, ◌++◌, none, some, length, leb, string_eq,
  nat_eq, Eq, map, if◌then◌else◌,
}
use jev_frame.Prelude.Set.{has, add, unique}
use jev_frame.Prelude.Dict.{Dict, lookup, insert, keys, values}
use jev_frame.Errors.{
  Result, ok, raise, guard, compiler_error, key_error, fuel_exhausted, ◌>>=◌, ◌>>◌,
}
use jev_frame.Compiler.Diagnostics.{judge}
use jev_frame.Compiler.Program.{CompiledQuestion, EvaluationStage}
use jev_frame.Compiler.Steps.{Setup, diagnostic}

abbrev pub Levels : Type 0
Levels = Dict String ℕ

abbrev pub highest : List ℕ → ℕ
highest [] = 0
highest (n ∷ ns) = let m = highest ns in if leb m n then n else m

-- `max(…) + 1 if judgment.dependencies else 0`
abbrev pub level_above : List ℕ → ℕ
level_above [] = 0
level_above (n ∷ ns) = suc (highest (n ∷ ns))

-- `level(item, stack)` for each item
unfoldable pub each_level :
    (String → Levels → Result (ℕ × Levels)) → List String → Levels → Result (List ℕ × Levels)
each_level level [] levels = ok ([], levels)
each_level level (i ∷ is) levels = do
  (n, levels') ← level i levels
  (ns, levels'') ← each_level level is levels'
  ok (n ∷ ns, levels'')

module _ (c : Setup) where
  -- `level`, with a bound on the depth of its calls
  unfoldable pub level : (depth : ℕ) → (stack : List String) → String → Levels → Result (ℕ × Levels)
  level zero stack i levels = raise fuel_exhausted
  level (suc depth) stack i levels = elim (lookup i levels) [
    | some n ↦ ok (n, levels)
    | none ↦ elim (has i stack) [
      | true ↦
          raise
            (compiler_error (diagnostic c "dependency_cycle" (some (judge i)) none none (some i)))
      | false ↦ elim (lookup i c.judgments) [
        | none ↦ raise key_error
        | some j ↦ (do
          (ns, levels') ← each_level (level depth (add i stack)) j.dependencies levels
          ok (level_above ns, insert i (level_above ns) levels'))
      ]
    ]
  ]

  abbrev pub level_depth : ℕ
  level_depth = suc (length c.judgments)

-- `grouped.setdefault(n, []).append(routing_id)`
abbrev pub add_to : {K V : Type 0} → ⦃e : Eq K⦄ → K → V → Dict K (List V) → Dict K (List V)
add_to k v d = insert k (elim (lookup k d) [ none ↦ v ∷ [] | some vs ↦ vs ++ v ∷ [] ]) d

unfoldable pub group :
    Levels → Dict String CompiledQuestion → Dict ℕ (List String) → Result (Dict ℕ (List String))
group levels [] grouped = ok grouped
group levels ((i, q) ∷ questions) grouped = elim (lookup i levels) [
  | none ↦ raise key_error
  | some n ↦ group levels questions (add_to n q.routing_id grouped)
]

abbrev pub place : ℕ → List ℕ → List ℕ
place n [] = n ∷ []
place n (m ∷ ms) = if leb n m then n ∷ m ∷ ms else m ∷ place n ms

-- `sorted(ns)`
abbrev pub sorted : List ℕ → List ℕ
sorted [] = []
sorted (n ∷ ns) = place n (sorted ns)

abbrev pub stage_at : Dict ℕ (List String) → ℕ → EvaluationStage
stage_at grouped n = record {
  index = n;
  question_ids = elim (lookup n grouped) [ none ↦ [] | some ids ↦ ids ];
}

abbrev pub routing_ids : List CompiledQuestion → List String
routing_ids = map (λ (q : CompiledQuestion). q.routing_id)

unfoldable pub stages : Setup → Dict String CompiledQuestion → Result (List EvaluationStage)
unfolding each_level group
stages c questions = do
  guard (unique (routing_ids (values questions)))
      (compiler_error (diagnostic c "duplicate_question_id" none none none none))
  (ns, levels) ← each_level (level c (level_depth c) []) (keys questions) []
  grouped ← group levels questions []
  ok (map (stage_at grouped) (sorted (keys grouped)))
