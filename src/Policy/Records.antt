-- ===== src/Policy/Records.antt =====
-- policy.py, `ExecutionReceipt` and `WriteRecord`: the records of an execution.
use jev_frame.Prelude.{
  ℕ, nat_beq, String, Bool, true, false, not, ◌&&◌, ◌||◌, Option, none, some, ◌==◌, string_eq,
}
use jev_frame.Errors.{Result, ok, policy_error, ◌>>◌, guard}
use jev_frame.State.Evidence.{
  ExecutionState, proposed, authorized, in_flight, succeeded, failed_before_effect, outcome_unknown,
}
use jev_frame.Policy.{ActionProposal, AuthorizationRecord, check_text}

pub record ExecutionReceipt : Type 0 where
  pub operation_id : String
  pub state : ExecutionState
  pub external_id : Option String
  pub source_version : Option String

abbrev pub state_text : ExecutionState → String
state_text proposed = "proposed"
state_text authorized = "authorized"
state_text in_flight = "in_flight"
state_text succeeded = "succeeded"
state_text failed_before_effect = "failed_before_effect"
state_text outcome_unknown = "outcome_unknown"

-- `is` on two members of the enumeration, by their places in it
abbrev pub state_place : ExecutionState → ℕ
state_place proposed = 0
state_place authorized = 1
state_place in_flight = 2
state_place succeeded = 3
state_place failed_before_effect = 4
state_place outcome_unknown = 5

abbrev pub same_state : ExecutionState → ExecutionState → Bool
same_state a b = nat_beq (state_place a) (state_place b)

abbrev check_optional_text : Option String → Result (Unit {0})
check_optional_text none = ok tt
check_optional_text (some s) = check_text s

abbrev pub is_terminal : ExecutionState → Bool
is_terminal succeeded = true
is_terminal failed_before_effect = true
is_terminal outcome_unknown = true
is_terminal _ = false

-- `ExecutionReceipt.__post_init__`
unfoldable pub execution_receipt : ExecutionReceipt → Result ExecutionReceipt
execution_receipt r = do
  check_text r.operation_id
  guard (is_terminal r.state) policy_error
  check_optional_text r.external_id
  check_optional_text r.source_version
  ok r

pub record WriteRecord : Type 0 where
  pub proposal : ActionProposal
  pub state : ExecutionState
  pub authorization : Option AuthorizationRecord
  pub receipt : Option ExecutionReceipt

abbrev is_some {ℓ} : {A : Type ℓ} → Option A → Bool
is_some none = false
is_some (some _) = true

abbrev pub authorization_matches : Option AuthorizationRecord → ActionProposal → Bool
authorization_matches none p = true
authorization_matches (some a) p = a.action_digest == p.digest && a.scope == p.scope

abbrev pub receipt_matches : Option ExecutionReceipt → ActionProposal → ExecutionState → Bool
receipt_matches none p s = true
receipt_matches (some r) p s =
    r.operation_id == p.operation_id && (same_state s outcome_unknown || same_state r.state s)

-- `WriteRecord.__post_init__`
unfoldable pub write_record : WriteRecord → Result WriteRecord
write_record w = do
  guard (not (same_state w.state proposed && (is_some w.authorization || is_some w.receipt)))
      policy_error
  guard (not (not (same_state w.state proposed) && not (is_some w.authorization))) policy_error
  guard (authorization_matches w.authorization w.proposal) policy_error
  guard (receipt_matches w.receipt w.proposal w.state) policy_error
  ok w
