-- ===== src/Planning.antt =====
-- planning.py, `PlannerEngine._validate_plan`: the steps of a plan revision are checked against the
-- capabilities and put into an order in which each follows its dependencies. What the code reads of
-- a tool (its parameters and its effect) is a field of the capability.
pub mod Turns
pub mod Order
pub mod Follows
pub mod Complete
mod Tests
use jev_frame.Prelude.{
  ℕ, zero, suc, String, Bool, true, false, not, ◌&&◌, ◌||◌, List, [], ◌∷◌, ◌++◌, ◌==◌, string_eq,
  length, all, if◌then◌else◌, Option, none, some,
}
use jev_frame.Prelude.Set.{has}
use jev_frame.Prelude.Dict.{Dict, lookup, keys}
use jev_frame.Errors.{Result, ok, raise, guard, planning_error, fuel_exhausted, ◌>>=◌, ◌>>◌}
use jev_frame.Definitions.{ToolEffect, mutation}
use jev_frame.State.Sources.{Part}

-- `PlanArgument`
pub data PlanArgument : Type 0 where
  generated_text : (value generator_id generator_version : String) → PlanArgument
  evidence_value : (evidence_id : String) → List Part → PlanArgument
  step_value : (step_id : String) → List Part → PlanArgument

pub record PlanStep : Type 0 where
  pub id : String
  pub capability_id : String
  pub arguments : Dict String PlanArgument
  pub depends_on : List String

pub record PlannerCapability : Type 0 where
  pub parameters : List String
  pub effect : ToolEffect
  pub generated_parameters : List String
  pub fixed_arguments : List String
  pub allow_mutation : Bool

-- `set(a) <= set(b)`, and `set(a) & set(b)` being empty
abbrev pub is_subset : List String → List String → Bool
is_subset a b = all (λ x. has x b) a

abbrev pub is_disjoint : List String → List String → Bool
is_disjoint a b = all (λ x. not (has x b)) a

abbrev pub is_host_controlled : PlannerCapability → String × PlanArgument → Bool
is_host_controlled c (name, generated_text value g v) = not (has name c.generated_parameters)
is_host_controlled c (name, evidence_value e path) = false
is_host_controlled c (name, step_value s path) = false

abbrev pub is_forbidden : PlannerCapability → Bool
is_forbidden c = elim c.effect [ mutation ↦ not c.allow_mutation | _ ↦ false ]

abbrev pub step_ids : List PlanStep → List String
step_ids [] = []
step_ids (s ∷ ss) = s.id ∷ step_ids ss

-- The checks of one step.
unfoldable pub check_step :
    Dict String PlannerCapability → List String → PlanStep → Result (Unit {0})
check_step capabilities ids s = elim (lookup s.capability_id capabilities) [
  | none ↦ raise planning_error
  | some c ↦ (do
    guard (is_disjoint (keys s.arguments) c.fixed_arguments) planning_error
    guard
        (is_subset (keys s.arguments ++ c.fixed_arguments) c.parameters
          && is_subset c.parameters (keys s.arguments ++ c.fixed_arguments))
        planning_error
    guard (all (λ a. not (is_host_controlled c a)) s.arguments) planning_error
    guard (not (is_forbidden c)) planning_error
    guard (is_subset s.depends_on ids && not (has s.id s.depends_on)) planning_error)
]

unfoldable pub check_steps :
    Dict String PlannerCapability → List String → List PlanStep → Result (Unit {0})
check_steps capabilities ids [] = ok tt
check_steps capabilities ids (s ∷ ss) = do
  check_step capabilities ids s
  check_steps capabilities ids ss

-- The steps that pass a test.
abbrev pub keep : (PlanStep → Bool) → List PlanStep → List PlanStep
keep test [] = []
keep test (s ∷ ss) = let rest = keep test ss in if test s then s ∷ rest else rest

abbrev pub is_ready : List PlanStep → PlanStep → Bool
is_ready ordered s = is_subset s.depends_on (step_ids ordered)

abbrev pub is_empty : List PlanStep → Bool
is_empty [] = true
is_empty (_ ∷ _) = false

-- The rounds: the steps that are ready are appended in the plan's order and leave the others. A step
-- is recognized by its id, which no other step of the plan has.
unfoldable pub order_steps :
    List PlanStep → ℕ → (remaining ordered : List PlanStep) → Result (List PlanStep)
order_steps steps zero [] ordered = ok ordered
order_steps steps zero (_ ∷ _) ordered = raise fuel_exhausted
order_steps steps (suc fuel) [] ordered = ok ordered
order_steps steps (suc fuel) (s ∷ rest) ordered =
    let ready = step_ids (keep (is_ready ordered) (s ∷ rest)) in
    let next =
      order_steps steps fuel (keep (λ t. not (has t.id ready)) (s ∷ rest))
        (ordered ++ keep (λ t. has t.id ready) steps) in
    if is_empty (keep (is_ready ordered) (s ∷ rest)) then raise planning_error else next

-- `_validate_plan`
unfoldable pub validate_plan :
    Dict String PlannerCapability → List PlanStep → Result (List PlanStep)
validate_plan capabilities steps = do
  check_steps capabilities (step_ids steps) steps
  order_steps steps (length steps) steps []
