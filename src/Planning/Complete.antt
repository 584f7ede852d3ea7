-- ===== src/Planning/Complete.antt =====
-- planning.py: the order of a plan has the steps of the plan and no others.
use jev_frame.Prelude.{
  ℕ, zero, suc, arith, String, not, ◌&&◌, ◌||◌, ◌≡◌, refl, List, [], ◌∷◌, ◌++◌, ==_iff, string_eq,
  length, inl, inr,
}
use jev_frame.Prelude.Set.{has}
use jev_frame.Prelude.Dict.{Dict}
use jev_frame.Errors.{ok, Result-cases}
use jev_frame.Planning.{
  PlanStep, PlannerCapability, step_ids, keep, is_ready, check_steps, order_steps, validate_plan,
}

has-step_ids-append :
    (i : String) (ss ts : List PlanStep)
    → has i (step_ids (ss ++ ts)) ≡ (has i (step_ids ss) || has i (step_ids ts))
has-step_ids-append i [] ts = refl
has-step_ids-append i (s ∷ ss) ts = ground (arith, has-step_ids-append i ss ts)

has-keep_named :
    (i : String) (ready : List String) (ss : List PlanStep)
    → has i (step_ids (keep (λ t. has t.id ready) ss)) ≡ (has i (step_ids ss) && has i ready)
has-keep_named i ready [] = ground arith
has-keep_named i ready (s ∷ ss) = ground (arith, has-keep_named i ready ss, ==_iff i s.id)

has-keep_others :
    (i : String) (ready : List String) (ss : List PlanStep)
    → has i (step_ids (keep (λ t. not (has t.id ready)) ss))
      ≡ (has i (step_ids ss) && not (has i ready))
has-keep_others i ready [] = ground arith
has-keep_others i ready (s ∷ ss) = ground (arith, has-keep_others i ready ss, ==_iff i s.id)

-- A round moves a step from those that remain to those that are ordered.
accounted :
    (i : String) (ready : List String) (remaining ordered steps : List PlanStep)
    → (has i (step_ids remaining) || has i (step_ids ordered)) ≡ has i (step_ids steps)
    → (has i (step_ids (keep (λ t. not (has t.id ready)) remaining))
        || has i (step_ids (ordered ++ keep (λ t. has t.id ready) steps)))
      ≡ has i (step_ids steps)
accounted i ready remaining ordered steps same = ground (
  arith,
  has-keep_others i ready remaining,
  has-step_ids-append i ordered (keep (λ t. has t.id ready) steps),
  has-keep_named i ready steps,
)

step_ids-order_steps :
    (i : String) (steps : List PlanStep) (fuel : ℕ) (remaining ordered out : List PlanStep)
    → (has i (step_ids remaining) || has i (step_ids ordered)) ≡ has i (step_ids steps)
    → order_steps steps fuel remaining ordered ≡ ok out
    → has i (step_ids out) ≡ has i (step_ids steps)
unfolding order_steps
step_ids-order_steps i steps zero [] ordered out same h = ground arith
step_ids-order_steps i steps zero (s ∷ r) ordered out same h = absurd (ground arith)
step_ids-order_steps i steps (suc fuel) [] ordered out same h = ground arith
step_ids-order_steps i steps (suc fuel) (s ∷ r) ordered out same h =
    let ready = step_ids (keep (is_ready ordered) (s ∷ r)) in
    step_ids-order_steps i steps fuel (keep (λ t. not (has t.id ready)) (s ∷ r))
      (ordered ++ keep (λ t. has t.id ready) steps) out
      (accounted i ready (s ∷ r) ordered steps same) (ground arith)

-- The order that a plan is given names exactly the steps of the plan.
pub step_ids-validate_plan :
    (capabilities : Dict String PlannerCapability) (steps out : List PlanStep) (i : String)
    → validate_plan capabilities steps ≡ ok out
    → has i (step_ids out) ≡ has i (step_ids steps)
unfolding validate_plan
step_ids-validate_plan capabilities steps out i h =
    step_ids-order_steps i steps (length steps) steps [] out (ground arith)
      (elim (Result-cases (check_steps capabilities (step_ids steps) steps)) [
        | inl (tt, e) ↦ ground arith
        | inr (x, e) ↦ absurd (ground arith)
      ])
