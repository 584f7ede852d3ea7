-- ===== src/Definitions.antt =====
-- definitions.py: the values that the components exchange, with the checks of their constructors.
pub mod Tools
pub mod Agents
use jev_frame.Prelude.{
  ℕ, String, List, Bool, true, false, not, ◌&&◌, ◌||◌, Option, none, some, ltb, nat_beq,
  if◌then◌else◌,
}
use jev_frame.Prelude.Int.{ℤ, is_negative}
use jev_frame.Errors.{Result, ok, raise, definition_error, ◌>>◌, guard}

-- The fields are nonnegative integers, which `RunLimits.__post_init__` checks first.
pub record RunLimits : Type 0 where
  pub provider_attempts : ℕ
  pub submitted_questions : ℕ
  pub tool_attempts : ℕ
  pub investigation_steps : ℕ
  pub concurrent_operations : ℕ
  pub writes : ℕ
  pub planner_calls : ℕ
  pub plan_revisions : ℕ
  pub child_depth : ℕ
  pub child_runs : ℕ

-- The last check of `RunLimits.__post_init__`.
unfoldable pub check_run_limits : RunLimits → Result RunLimits
check_run_limits l =
    if nat_beq l.concurrent_operations 0
      && (ltb 0 l.provider_attempts
          || ltb 0 l.tool_attempts
          || ltb 0 l.planner_calls
          || ltb 0 l.child_runs)
    then raise definition_error
    else ok l

pub data UsageCoverage : Type 0 where
  complete partial unknown : UsageCoverage

abbrev pub Tokens : Type 0
Tokens = Option ℤ

-- `value is not None and value < 0`
abbrev pub is_negative_count : Tokens → Bool
is_negative_count none = false
is_negative_count (some n) = is_negative n

pub record Usage : Type 0 where
  pub coverage : UsageCoverage
  pub input_tokens : Tokens
  pub output_tokens : Tokens
  pub provider_attempts : ℤ
  pub submitted_questions : ℤ

abbrev is_known : Tokens → Bool
is_known none = false
is_known (some _) = true

abbrev pub is_complete : UsageCoverage → Bool
is_complete complete = true
is_complete _ = false

-- `Usage.__post_init__`
unfoldable pub check_usage : Usage → Result Usage
check_usage u = do
  guard (not (is_negative_count u.input_tokens)) definition_error
  guard (not (is_negative_count u.output_tokens)) definition_error
  guard (not (is_negative u.provider_attempts)) definition_error
  guard (not (is_negative u.submitted_questions)) definition_error
  guard (not (is_complete u.coverage && not (is_known u.input_tokens && is_known u.output_tokens)))
      definition_error
  ok u

pub data ToolEffect : Type 0 where
  pure read mutation : ToolEffect

pub data AcceptanceStatus : Type 0 where
  accept investigate reject handoff unassessed : AcceptanceStatus

pub record AcceptanceRecord : Type 0 where
  pub policy_id : String
  pub policy_version : String
  pub status : AcceptanceStatus
  pub reasons : List String

-- `AcceptanceRecord.__post_init__`. `is_text` and `is_version` are the tests of `_text` and `_version`,
-- which call `str.strip` and a regular expression.
abbrev pub acceptance_record :
    (is_text is_version : String → Bool) → AcceptanceRecord → Result AcceptanceRecord
acceptance_record is_text is_version r = do
  guard (is_text r.policy_id) definition_error
  guard (is_version r.policy_version) definition_error
  ok r
