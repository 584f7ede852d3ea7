-- ===== src/Planning/Tests.antt =====
-- planning.py, the validation of concrete plans.
use jev_frame.Prelude.{string_eq, String, true, false, ◌≡◌, ◌≢◌, refl, List, [], ◌∷◌}
use jev_frame.Prelude.Dict.{Dict}
use jev_frame.Errors.{ok, raise, planning_error, fuel_exhausted}
use jev_frame.Definitions.{ToolEffect}
use jev_frame.Prelude.Set.{has}
use jev_frame.Planning.Complete.{step_ids-validate_plan}
use jev_frame.Planning.{
  step_ids, generated_text, step_value, PlanStep, PlannerCapability, check_step, check_steps,
  order_steps, validate_plan,
}
use jev_frame.Planning.Order.{follows, validate_plan-returns}
use jev_frame.Planning.Follows.{validate_plan-follows}

abbrev capability : ToolEffect → PlannerCapability
capability effect = record {
  parameters = "query" ∷ "limit" ∷ [];
  effect = effect;
  generated_parameters = "query" ∷ [];
  fixed_arguments = "limit" ∷ [];
  allow_mutation = false;
}

abbrev capabilities : Dict String PlannerCapability
capabilities =
    ("search", capability ToolEffect.read) ∷ ("write", capability ToolEffect.mutation) ∷ []

abbrev step : String → String → List String → PlanStep
step id capability_id depends_on = record {
  id = id;
  capability_id = capability_id;
  arguments = ("query", generated_text "q" "planner" "1") ∷ [];
  depends_on = depends_on;
}

abbrev plan : List PlanStep
plan = step "a" "search" ("c" ∷ []) ∷ step "b" "search" [] ∷ step "c" "search" ("b" ∷ []) ∷ []

abbrev ordered : List PlanStep
ordered = step "b" "search" [] ∷ step "c" "search" ("b" ∷ []) ∷ step "a" "search" ("c" ∷ []) ∷ []

program : Unit {0}
unfolding check_step check_steps order_steps validate_plan
program = tt

validated : validate_plan capabilities plan ≡ ok ordered
unfolding program
validated = refl

-- A cycle, a forbidden mutation, and a fixed argument that a step sets.
rejected :
    (validate_plan capabilities (step "a" "search" ("b" ∷ []) ∷ step "b" "search" ("a" ∷ []) ∷ [])
      ≡ raise planning_error)
    × (validate_plan capabilities (step "a" "write" [] ∷ []) ≡ raise planning_error)
    × (validate_plan capabilities
          (record (step "a" "search" []) { arguments = ("limit", step_value "b" []) ∷ [] } ∷ [])
        ≡ raise planning_error)
unfolding program
rejected = (refl, refl, refl)

validate_plan-follows_example : follows [] ordered ≡ true
validate_plan-follows_example = validate_plan-follows capabilities plan ordered refl validated

validate_plan-returns_example : validate_plan capabilities plan ≢ raise fuel_exhausted
validate_plan-returns_example = validate_plan-returns capabilities plan

step_ids-validate_plan_example : has "c" (step_ids ordered) ≡ has "c" (step_ids plan)
step_ids-validate_plan_example = step_ids-validate_plan capabilities plan ordered "c" validated
