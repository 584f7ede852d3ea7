-- ===== src/Compiler/Questions.antt =====
-- compiler.py, `_question`: the question of a judgment.
use jev_frame.Prelude.{
  ℕ, String, Bool, true, false, List, [], ◌∷◌, ◌++◌, Option, none, some, length, ltb, ◌==◌,
  string_eq, concat, map, if◌then◌else◌,
}
use jev_frame.Prelude.Dict.{lookup}
use jev_frame.Prelude.Text.{rstrip, join}
use jev_frame.Definitions.Agents.{
  ChoiceOption, Question, choice_question, noul_question, score_question, Judgment, is_failed,
  no_fit_key,
}
use jev_frame.Compiler.Diagnostics.{NodeId, judge, node_eq}
use jev_frame.Compiler.Program.{CompiledOption, CompiledQuestion}
use jev_frame.Compiler.Steps.{
  Setup, Compile, ◌>>=◌, ◌>>◌, pure, gets, choose, by_option, found, report, diagnostic, fail,
}

abbrev pub max_choice_options : ℕ
max_choice_options = 255

abbrev pub max_score_levels : ℕ
max_score_levels = 10

abbrev pub is_nil : {A : Type 0} → List A → Bool
is_nil [] = true
is_nil (_ ∷ _) = false

-- `text or other`, for a text that may be missing
abbrev pub text_or : Option String → String → String
text_or none other = other
text_or (some s) other = if s == "" then other else s

abbrev pub fixed_option : ChoiceOption → CompiledOption
fixed_option o = record {
  key = o.key;
  description = text_or o.description o.key;
  source_id = none;
  source_version = none;
}

abbrev pub no_fit_option : CompiledOption
no_fit_option = record {
  key = no_fit_key;
  description = "None of the supplied candidates fit.";
  source_id = none;
  source_version = none;
}

abbrev pub subjects : Judgment → List String
subjects j = j.subject ∷ j.other_subjects

-- The instructions, followed by the subjects and the paths of the evidence.
abbrev pub instructions : Judgment → String → String
instructions j text = concat (
    rstrip text
    ∷ "\nSubjects: "
    ∷ join ", " (subjects j)
    ∷ "."
    ∷ (if is_nil j.evidence then [] else "\nEvidence paths: " ∷ join ", " j.evidence ∷ "." ∷ []))

abbrev pub compiled_question :
    String
    → Judgment
    → (primitive text : String) → List CompiledOption
    → (levels : List String) → (true_ false_ : Option String) → Bool
    → CompiledQuestion
compiled_question routing_id j primitive text options levels true_ false_ dispatchable = record {
  routing_id = routing_id;
  judgment_id = j.id;
  primitive = primitive;
  instructions = instructions j text;
  subjects = subjects j;
  evidence = j.evidence;
  dependencies = j.dependencies;
  applicability = j.applicability;
  candidate_set = j.candidate_set;
  options = options;
  score_levels = levels;
  true_description = true_;
  false_description = false_;
  dispatchable = dispatchable;
}

-- `all(not self.nodes[item].unresolved for item in dependencies)`
unfoldable pub all_resolved : List NodeId → Compile Bool
all_resolved [] = pure true
all_resolved (i ∷ is) = do
  s ← gets (λ s. s)
  n ← found (lookup i s.nodes)
  choose (is_nil n.unresolved) (all_resolved is) (pure false)

module _ (c : Setup) where
  abbrev pub routing_id : Judgment → String
  routing_id j = elim (lookup j.id c.question_ids) [
    | none ↦ concat ("question:" ∷ j.id ∷ [])
    | some r ↦ r
  ]

  -- The options of a Choice over a candidate set, and whether it can be dispatched.
  unfoldable pub candidate_options : Judgment → Bool → String → Compile (List CompiledOption × Bool)
  candidate_options j dispatchable set = do
    s ← gets (λ s. s)
    candidate ← found (lookup set s.candidates)
    choose candidate.supplied
        (do
          snapshot ← found (lookup set c.snapshots)
          choose (is_failed snapshot.coverage)
              (do
                report (
                    diagnostic c "candidate_retrieval_failed" (some (judge j.id)) (some j.subject)
                      none (some snapshot.id))
                pure (candidate.options ++ no_fit_option ∷ [], false))
              (choose (is_nil snapshot.candidates)
                (do
                  report (
                      diagnostic c "deterministic_no_fit" (some (judge j.id)) (some j.subject) none
                        (some snapshot.id))
                  pure (candidate.options ++ no_fit_option ∷ [], false))
                (pure (candidate.options ++ no_fit_option ∷ [], dispatchable))))
        (pure ([], false))

  unfoldable pub choice_options :
      Judgment → Bool → List ChoiceOption → Compile (List CompiledOption × Bool)
  choice_options j dispatchable criteria =
      by_option j.candidate_set (pure (map fixed_option criteria, dispatchable))
        (candidate_options j dispatchable)

  unfoldable pub ask : Judgment → Bool → Question → Compile CompiledQuestion
  ask j dispatchable (choice_question text criteria) = do
    (options, dispatchable') ← choice_options j dispatchable criteria
    choose (ltb max_choice_options (length options))
        (fail c "choice_limit_exceeded" (some (judge j.id)) (some j.subject) none j.candidate_set)
        (pure (compiled_question (routing_id j) j "choice" text options [] none none dispatchable'))
  ask j dispatchable (noul_question text true_ false_) =
      pure (compiled_question (routing_id j) j "noul" text [] [] true_ false_ dispatchable)
  ask j dispatchable (score_question text levels) =
      choose (ltb max_score_levels (length levels))
        (fail c "score_limit_exceeded" (some (judge j.id)) (some j.subject) none none)
        (pure (compiled_question (routing_id j) j "score" text [] levels none none dispatchable))

  -- `_question`
  unfoldable pub question : Judgment → List NodeId → Compile CompiledQuestion
  unfolding all_resolved
  question j dependencies = do
    dispatchable ← all_resolved dependencies
    ask j dispatchable j.primitive
