-- ===== src/Policy/Tests.antt =====
-- policy.py at a concrete action.
use jev_frame.Prelude.{◌≡◌, refl, ◌↔◌, true, none, some, [], ◌∷◌}
use jev_frame.Errors.{ok, raise, policy_error}
use jev_frame.Definitions.{ToolEffect, accept}
use jev_frame.State.Evidence.{in_flight}
use jev_frame.Policy.{
  ActionProposal, AuthorizationRecord, authorization_record, CheckpointRecord, Policy, status_only,
  recorded, check, evaluate,
}
use jev_frame.Policy.Records.{WriteRecord, write_record}
use jev_frame.Policy.Decisions.{IsAcceptance, check-accepts, IsConsistent, write_record_exact}

abbrev action : ActionProposal
action = record {
  operation_id = "run:tool:write";
  tool_id = "write";
  tool_version = "1.0.0";
  arguments = [];
  scope = "scope";
  source_versions = [];
  effect = ToolEffect.mutation;
  digest = "digest";
}

abbrev gate : Policy
gate = record { id = "gate"; version = "1.0.0" }

abbrev checked : CheckpointRecord
checked = record {
  checkpoint_id = "gate";
  checkpoint_version = "1.0.0";
  action_digest = "digest";
  status = accept;
  reasons = [];
}

program : Unit {0}
unfolding check write_record evaluate
program = tt

passes : check (λ s. true) (λ s. true) gate (λ p. status_only accept) action ≡ ok checked
unfolding program
passes = refl

-- A record under another identity is refused, whatever its status.
foreign :
    evaluate
      (λ s. true)
      (λ s. true)
      gate
      (recorded
        (record { policy_id = "other"; policy_version = "1.0.0"; status = accept; reasons = [] }))
    ≡ raise policy_error
unfolding program
foreign = refl

check-accepts_example : (action.digest ≡ action.digest) × IsAcceptance gate (status_only accept)
check-accepts_example =
    check-accepts (λ s. true) (λ s. true) gate (λ p. status_only accept) action action checked
      passes refl

abbrev permission : AuthorizationRecord
permission = record {
  action_digest = "digest";
  scope = "scope";
  authorized = true;
  expires_at = 90;
  reasons = [];
}

-- The constructor takes it, and refuses it with an empty reason.
constructed :
    (authorization_record permission ≡ ok permission)
    × (authorization_record (record permission { reasons = "" ∷ [] }) ≡ raise policy_error)
unfolding authorization_record
constructed = (refl, refl)

abbrev flying : WriteRecord
flying = record {
  proposal = action;
  state = in_flight;
  authorization = some permission;
  receipt = none;
}

write_record_exact_example : (write_record flying ≡ ok flying) ↔ IsConsistent flying
write_record_exact_example = write_record_exact flying

-- A later state without an authorization.
unauthorized : write_record (record flying { authorization = none }) ≡ raise policy_error
unfolding program
unauthorized = refl
