-- ===== src/Compiler/Direct/Agreement.antt =====
-- compiler.py: `compile_judgment` and the compiler of agents make the same questions.
use jev_frame.Prelude.{
  String, Bool, true, false, List, [], ◌∷◌, Option, none, some, ◌==◌, string_eq, ◌≡◌, refl, arith,
  inl, inr, Bool-cases, Option-cases, ==_refl, subst,
}
use jev_frame.Prelude.Set.{has}
use jev_frame.Prelude.Dict.{lookup}
use jev_frame.Errors.{ok, Result-cases}
use jev_frame.Compiler.Diagnostics.{NodeId, node_eq}
use jev_frame.Definitions.Agents.{
  Question, choice_question, noul_question, score_question, Judgment, CandidateSet,
}
use jev_frame.Compiler.Program.{CompiledQuestion}
use jev_frame.Compiler.Steps.{
  Setup, Compiling, ◌>>=◌, pure, gets, choose, by_option, found, report, modify, fail_with,
}
use jev_frame.Compiler.Providers.{supplied_preview}
use jev_frame.Compiler.Questions.{
  is_nil, routing_id, candidate_options, choice_options, ask, all_resolved, question,
}
use jev_frame.Compiler.Agent.{outside}
use jev_frame.Compiler.Direct.{check_snapshot, direct_question, compile_judgment}

-- The snapshot of the judgment's candidate set, and its preview, as `visit_provider` leaves them.
abbrev pub IsVisited : Setup → Compiling → Judgment → Option CandidateSet → Type 0
IsVisited c s j none = j.candidate_set ≡ none
IsVisited c s j (some v) =
    (j.candidate_set ≡ some v.id)
    × (lookup v.id c.snapshots ≡ some v)
    × (lookup v.id s.candidates ≡ some (supplied_preview v))

outside_self :
    (xs ys : List String) → ((x : String) → has x xs ≡ true → has x ys ≡ true) → outside xs ys ≡ []
outside_self [] ys h = refl
outside_self (x ∷ xs) ys h =
    ground (arith, h x, outside_self xs ys (λ y m. h y (ground arith)), ==_refl x)

module _ (c : Setup) (s t : Compiling) (j : Judgment) (q : CompiledQuestion)
    (can : q.dispatchable ≡ true) where
  ask_agrees :
      (snapshot : Option CandidateSet) (primitive : Question)
      → IsVisited c s j snapshot
      → ask c j true primitive s ≡ ok (q, t)
      → direct_question j snapshot (routing_id c j) primitive ≡ ok q
  unfolding ask choice_options candidate_options ◌>>=◌ pure gets choose by_option found report
      modify fail_with
  ask_agrees none (choice_question text criteria) visited h = ground arith
  ask_agrees (some v) (choice_question text criteria) (declared, there, seen) h = ground arith
  ask_agrees snapshot (noul_question text y n) visited h = ground arith
  ask_agrees snapshot (score_question text levels) visited h = ground arith

  undispatchable :
      (snapshot : Option CandidateSet) (primitive : Question) (b : Bool)
      → ask c j b primitive s ≡ ok (q, t)
      → b ≡ true
  unfolding ask choice_options candidate_options ◌>>=◌ pure gets choose by_option found report
      modify fail_with
  undispatchable snapshot (choice_question text criteria) b h = ground arith
  undispatchable snapshot (noul_question text y n) b h = ground arith
  undispatchable snapshot (score_question text levels) b h = ground arith

  matches :
      (snapshot : Option CandidateSet)
      → IsVisited c s j snapshot
      → check_snapshot j j.candidate_set snapshot ≡ ok tt
  matches none visited = ground arith
  matches (some v) (declared, there, seen) = ground (arith, ==_refl v.id)

all_resolved-same :
    (is : List NodeId) (s t : Compiling) (b : Bool) → all_resolved is s ≡ ok (b, t) → t ≡ s
unfolding all_resolved ◌>>=◌ pure gets choose found
all_resolved-same [] s t b h = ground arith
all_resolved-same (i ∷ is) s t b h = elim (Option-cases (lookup i s.nodes)) [
  | inl e ↦ absurd (ground arith)
  | inr (n, e) ↦ elim (Bool-cases (is_nil n.unresolved)) [
    | inl nil ↦ all_resolved-same is s t b (ground arith)
    | inr more ↦ ground arith
  ]
]

module _ (c : Setup) (j : Judgment) (is : List NodeId) (snapshot : Option CandidateSet)
    (s t : Compiling) (q : CompiledQuestion) (visited : IsVisited c s j snapshot)
    (made : question c j is s ≡ ok (q, t)) (can : q.dispatchable ≡ true) where
  -- A question of the compiler that can be dispatched, and whose routing id is not empty, is the one
  -- that `compile_judgment` makes of the same judgment and snapshot under that routing id, with the
  -- judgment's dependencies resolved.
  pub compile_judgment_agrees :
      (routing_id c j == "") ≡ false
      → compile_judgment j snapshot (some (routing_id c j)) j.dependencies ≡ ok q
  unfolding compile_judgment question ◌>>=◌
  compile_judgment_agrees named = elim (Result-cases (all_resolved is s)) [
    | inr (x, e) ↦ absurd (ground arith)
    | inl ((b, u), e) ↦
        let same = all_resolved-same is s u b e in
        let asked : ask c j b j.primitive s ≡ ok (q, t) = ground arith in
        let go = undispatchable c s t j q can snapshot j.primitive b asked in
        let direct =
          ask_agrees c s t j q can snapshot j.primitive visited
            (subst (λ x. ask c j x j.primitive s ≡ ok (q, t)) go asked) in
        ground (
          arith,
          outside_self j.dependencies j.dependencies (λ x m. m),
          matches c s t j q can snapshot visited,
        )
  ]
