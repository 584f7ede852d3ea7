-- ===== src/Artifacts/Sessions.antt =====
-- artifacts.py, `_GenerateVerifyPlanner` as `PlannerEngine.run` uses it: it is called until it raises
-- or its answer is final. Each request brings a clock value and all outcomes so far, which may be
-- any at all.
use jev_frame.Prelude.{
  ℕ, ◌+◌, ◌*◌, ◌≤◌, ◌<◌, arith, String, Bool, true, false, List, [], ◌∷◌, length, ◌≡◌, refl, inl,
  inr, Bool-cases,
}
use jev_frame.Errors.{Error, Result, ok, raise}
use jev_frame.State.Store.{Store}
use jev_frame.Planning.Turns.{StepOutcome, PlannerResponse}
use jev_frame.Artifacts.{Recipe, check_recipe}
use jev_frame.Artifacts.Planner.{Planner, Settings, new_planner}
use jev_frame.Artifacts.Calls.{call}
use jev_frame.Artifacts.Steps.{is_final, bound, IsWithin, turns, Leaves}
use jev_frame.Artifacts.Lowering.{call-Leaves}

pub data Session : Type 0 where
  awaiting : Planner → Session
  answered : PlannerResponse → Planner → Session
  broken : Error → Planner → Session

abbrev pub planner_of : Session → Planner
planner_of (awaiting p) = p
planner_of (answered r p) = p
planner_of (broken e p) = p

abbrev pub is_over : Session → Bool
is_over (awaiting p) = false
is_over (answered r p) = true
is_over (broken e p) = true

unfoldable pub after_answer : (Planner → Session) → Result PlannerResponse → Planner → Session
after_answer next (raise e) p = broken e p
after_answer next (ok r) p = elim (is_final r) [ true ↦ answered r p | false ↦ next p ]

unfoldable pub session : Settings → String → List (ℕ × List StepOutcome) → Planner → Session
unfolding after_answer
session t objective [] p = awaiting p
session t objective ((now, outcomes) ∷ rest) p =
    let (result, p') = call t now objective outcomes p in
    after_answer (session t objective rest) result p'

module _ (t : Settings) (objective : String) where
  -- What holds of a session that ends with an answer, or goes on after it.
  after_answer-holds :
      (P : Session → Type 0) (next : Planner → Session) (result : Result PlannerResponse)
      (p : Planner) (k : ℕ)
      → Leaves t k result p
      → ((e : Error) → length p.revisions ≤ bound t → P (broken e p))
      → ((r : PlannerResponse) → length p.revisions ≤ bound t → P (answered r p))
      → (IsWithin t p → turns t p < k → P (next p))
      → P (after_answer next result p)
  unfolding after_answer
  after_answer-holds P next (raise e) p k l b a n = b e l
  after_answer-holds P next (ok r) p k l b a n = elim (Bool-cases (is_final r)) [
    | inl last ↦ rw (last, after_answer) (a r (omega (arith, l.0)))
    | inr more ↦ rw (more, after_answer) (n l.0 (l.1 more))
  ]

  session-within :
      (requests : List (ℕ × List StepOutcome)) (p : Planner)
      → IsWithin t p
      → length (planner_of (session t objective requests p)).revisions ≤ bound t
  unfolding session
  session-within [] p h = omega (arith, h)
  session-within ((now, outcomes) ∷ rest) p h =
      let (r, p') = call t now objective outcomes p in
      after_answer-holds (λ s. length (planner_of s).revisions ≤ bound t) (session t objective rest)
        r p' (turns t p) (call-Leaves t now objective outcomes p h) (λ e b. b) (λ e b. b)
        (λ w fewer. session-within rest p' w)

  session-over :
      (requests : List (ℕ × List StepOutcome)) (p : Planner)
      → IsWithin t p
      → turns t p < length requests
      → is_over (session t objective requests p) ≡ true
  unfolding session
  session-over [] p h l = absurd (omega (arith, l))
  session-over ((now, outcomes) ∷ rest) p h l =
      let (r, p') = call t now objective outcomes p in
      after_answer-holds (λ s. is_over s ≡ true) (session t objective rest) r p' (turns t p)
        (call-Leaves t now objective outcomes p h) (λ e b. refl) (λ e b. refl)
        (λ w fewer. session-over rest p' w (omega (arith, l, fewer)))

positive : (r : Recipe) → check_recipe r ≡ ok r → 1 ≤ r.max_revisions
unfolding check_recipe
positive r h = ground arith

-- A planner whose recipe is valid never makes more artifacts than the recipe allows, whatever the
-- requests bring and however the session stands.
pub session-bounded :
    (t : Settings) (objective : String) (store : Store) (requests : List (ℕ × List StepOutcome))
    → check_recipe t.recipe ≡ ok t.recipe
    → length (planner_of (session t objective requests (new_planner store))).revisions
      ≤ t.recipe.max_revisions
session-bounded t objective store requests valid =
    session-within t objective requests (new_planner store) (positive t.recipe valid)

-- A planner whose recipe is valid gives a final answer or raises within three turns for each
-- revision that the recipe allows and two more, whatever the requests bring.
pub session-returns :
    (t : Settings) (objective : String) (store : Store) (requests : List (ℕ × List StepOutcome))
    → check_recipe t.recipe ≡ ok t.recipe
    → 3 * t.recipe.max_revisions + 2 ≤ length requests
    → is_over (session t objective requests (new_planner store)) ≡ true
session-returns t objective store requests valid enough =
    session-over t objective requests (new_planner store) (positive t.recipe valid)
      (omega (arith, enough))
