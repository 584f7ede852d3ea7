-- ===== src/Limits/Accounting.antt =====
-- limits.py: the methods of the ledger that record token usage, and `snapshot`.
use jev_frame.Prelude.{ℕ, String, none, some, List, length, string_eq}
use jev_frame.Prelude.Dict.{lookup, insert, keys, values}
use jev_frame.Errors.{admission_error}
use jev_frame.Exec.{fail, gets, lift, modify, require, ◌>>=◌, ◌>>◌}
use jev_frame.Definitions.{Tokens, Usage, UsageCoverage, unknown}
use jev_frame.Limits.Measurement.{
  UsageMeasurement, UsageMeasurementKind, observed, estimated, reserved, released, unmeasured,
  usage_measurement, measurement_beq, key_eq,
}
use jev_frame.Limits.{Ledger, Action, sum, max_value}

abbrev store : UsageMeasurement → Ledger → Ledger
store m l = record l { measurements = insert (m.operation_id, m.kind) m l.measurements }

-- `_record`
unfoldable pub record_measurement : UsageMeasurement → Action (Unit {0})
record_measurement m = do
  previous ← gets (λ l. lookup (m.operation_id, m.kind) l.measurements)
  elim previous [
    | none ↦ modify (store m)
    | some known ↦ do require (measurement_beq known m) admission_error; modify (store m)
  ]

abbrev pub kind_of_coverage : UsageCoverage → UsageMeasurementKind
kind_of_coverage unknown = unmeasured
kind_of_coverage _ = observed

unfoldable pub record_usage : String → Usage → Action (Unit {0})
unfolding record_measurement usage_measurement
record_usage operation_id usage = do
  m ← lift (
      usage_measurement operation_id (kind_of_coverage usage.coverage) usage.input_tokens
        usage.output_tokens usage.coverage)
  record_measurement m

unfoldable pub record_estimate : String → Tokens → Tokens → Action (Unit {0})
unfolding record_measurement usage_measurement
record_estimate operation_id input_tokens output_tokens = do
  m ← lift (usage_measurement operation_id estimated input_tokens output_tokens unknown)
  record_measurement m

unfoldable pub reserve_usage : String → Tokens → Tokens → Action (Unit {0})
unfolding record_measurement usage_measurement
reserve_usage operation_id input_tokens output_tokens = do
  m ← lift (usage_measurement operation_id reserved input_tokens output_tokens unknown)
  record_measurement m

-- The released measurement is stored under its key whatever stood there.
release : String → UsageMeasurement → Action (Unit {0})
release operation_id reservation = do
  m ← lift (
      usage_measurement operation_id released reservation.input_tokens reservation.output_tokens
        unknown)
  modify (λ l. record l { measurements = insert (operation_id, released) m l.measurements })

unfoldable pub release_reservation : String → Action (Unit {0})
unfolding release usage_measurement
release_reservation operation_id = do
  found ← gets (λ l. lookup (operation_id, reserved) l.measurements)
  elim found [ none ↦ fail admission_error | some reservation ↦ release operation_id reservation ]

pub record LedgerSnapshot : Type 0 where
  pub provider_attempts : ℕ
  pub submitted_questions : ℕ
  pub tool_attempts : ℕ
  pub investigation_steps : ℕ
  pub writes : ℕ
  pub child_runs : ℕ
  pub max_child_depth : ℕ
  pub planner_calls : ℕ
  pub plan_revisions : ℕ
  pub active_operations : ℕ
  pub attempt_ids : List String
  pub tool_attempt_ids : List String
  pub investigation_ids : List String
  pub write_ids : List String
  pub child_run_ids : List String
  pub planner_call_ids : List String
  pub plan_revision_ids : List String
  pub measurements : List UsageMeasurement

unfoldable pub snapshot : Ledger → LedgerSnapshot
snapshot l = record {
  provider_attempts = length l.attempt_questions;
  submitted_questions = sum (values l.attempt_questions);
  tool_attempts = length l.tool_attempts;
  investigation_steps = length l.investigations;
  writes = length l.writes;
  child_runs = length l.child_runs;
  max_child_depth = max_value (values l.child_runs);
  planner_calls = length l.planner_calls;
  plan_revisions = length l.plan_revisions;
  active_operations = length l.active;
  attempt_ids = keys l.attempt_questions;
  tool_attempt_ids = l.tool_attempts;
  investigation_ids = l.investigations;
  write_ids = l.writes;
  child_run_ids = keys l.child_runs;
  planner_call_ids = l.planner_calls;
  plan_revision_ids = l.plan_revisions;
  measurements = values l.measurements;
}
