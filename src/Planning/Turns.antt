-- ===== src/Planning/Turns.antt =====
-- planning.py: what a planner is told of the steps that ran, and what it answers with. `Usage` is left
-- out: the planners that are modelled leave it at its default.
use jev_frame.Prelude.{String, Bool, List, Option}
use jev_frame.State.Value.{Value}
use jev_frame.Planning.{PlanStep}

pub data TerminalStatus : Type 0 where
  completed unresolved failed cancelled : TerminalStatus

-- `ArtifactCheckResult` of artifacts.py, the one class of results that is told from other values
pub record CheckResult : Type 0 where
  pub passed : Bool
  pub message : String
  pub field_ref : Option String
  pub evidence_ref : Option String

-- The value of a `StepOutcome`.
pub data OutcomeValue : Type 0 where
  missing : OutcomeValue
  plain : Value → OutcomeValue
  check_result : CheckResult → OutcomeValue

pub record StepOutcome : Type 0 where
  pub step_id : String
  pub capability_id : String
  pub status : TerminalStatus
  pub value : OutcomeValue
  pub evidence_ref : Option String

-- `PlannerResponse`
pub data PlannerResponse : Type 0 where
  plan_step : PlanStep → PlannerResponse
  plan_revision : List PlanStep → PlannerResponse
  clarification_request : (id : String) → PlannerResponse
  proposed_result : Value → PlannerResponse
  planner_handoff : (reason : String) → PlannerResponse
