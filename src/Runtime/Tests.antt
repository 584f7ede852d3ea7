-- ===== src/Runtime/Tests.antt =====
-- runtime.py, a guarded mutation at a concrete host: it proposes, checks, authorizes, announces and
-- dispatches once.
use jev_frame.Prelude.{if◌then◌else◌, String, true, ◌≡◌, refl, none, some, List, [], ◌∷◌}
use jev_frame.Errors.{
  policy_error, evidence_not_found_error, host_error, ok, raise, run_unresolved,
  unaccepted_judgment, permission_denial,
}
use jev_frame.Definitions.{RunLimits, accept, reject, mutation}
use jev_frame.Limits.{new_ledger, enter_operation, leave_operation, admit_tool_attempt, admit_write}
use jev_frame.Limits.Requests.{serve}
use jev_frame.State.Value.{null, text, object, end}
use jev_frame.State.Evidence.{outcome_unknown, Evidence, observation, succeeded, evidence}
use jev_frame.State.Store.{
  Store, new_store, add_record, invalidate_all, is_current, require_current,
}
use jev_frame.State.Store.History.{build}
use jev_frame.Policy.{action_proposal, check, ActionProposal, AuthorizationRecord, status_only}
use jev_frame.Policy.Records.{same_state, ExecutionReceipt, write_record}
use jev_frame.Definitions.Tools.{constant, judgment_binding, Tool}
use jev_frame.Runtime.Host.{Context, Shared, Run, Meanwhile, Host, Call, answered, failed}
use jev_frame.Runtime.Steps.{◌>>=◌, except, finally, elapse, require_now}
use jev_frame.Runtime.Arguments.{require_all, resolve, bind_all, tool_arguments}
use jev_frame.Runtime.Returned.{execute_mutation-IsSuccess}
use jev_frame.Runtime.Receipts.{IsSuccess}
use jev_frame.Runtime.Mutation.{
  operation_id_of, reconcile_mutation, ask_reconciliation, ask_host, require_acceptance,
  require_acceptances, persist_write, pass_checkpoint, authorize, current_action, keep_success,
  record_execution,
}
use jev_frame.Runtime.Trace.{dispatches}
use jev_frame.Runtime.Approval.{Guarded}
use jev_frame.Runtime.Guarded.{execute_mutation-Guarded}
use jev_frame.Runtime.Mutation.Dispatch.{
  after_call, named_operation, obtain, prepare, confirm, launch, call_tool, finish, operate,
  execute_mutation,
}

abbrev tool : Tool
tool = record {
  id = "write";
  version = "1.0.0";
  bindings = ("body", constant (text "hello")) ∷ ("verdict", judgment_binding "safe") ∷ [];
  requires_evidence = [];
  timeout = 30;
  effect = mutation;
  binding_groups = [];
  produces_evidence = [];
  durable_intent_required = true;
  idempotency_parameter = none;
}

abbrev context : Context
context = record {
  run_id = "run";
  scope = "scope";
  deadline = 100;
  host_dependencies = [];
  inputs = object end;
}

abbrev accepted : Evidence
accepted = record {
  id = "acceptance";
  value = text "yes";
  source_id = "policy";
  scope = "scope";
  observed_at = 1;
  source_version = none;
  expires_at = none;
  dependencies = [];
  supersedes = [];
  conflicts_with = [];
  body = observation;
}

abbrev store : Store
store = record new_store { records = ("acceptance", accepted) ∷ [] }

abbrev limits : RunLimits
limits = record {
  provider_attempts = 1;
  submitted_questions = 1;
  tool_attempts = 1;
  investigation_steps = 1;
  concurrent_operations = 1;
  writes = 1;
  planner_calls = 1;
  plan_revisions = 1;
  child_depth = 1;
  child_runs = 1;
}

abbrev shared : Shared
shared = record {
  store = store;
  ledger = new_ledger limits;
  findings = ("safe", text "yes") ∷ [];
  selections = [];
  decision_refs = [];
  acceptance_refs = ("safe", "acceptance") ∷ [];
}

abbrev permission : ActionProposal → AuthorizationRecord
permission p = record {
  action_digest = p.digest;
  scope = p.scope;
  authorized = true;
  expires_at = 90;
  reasons = [];
}

abbrev receipt : ExecutionReceipt
receipt = record {
  operation_id = "run:tool:write";
  state = succeeded;
  external_id = none;
  source_version = none;
}

abbrev idle : List Call → Shared → Meanwhile
idle cs s = record {
  requests = [];
  changes = [];
  findings = s.findings;
  selections = s.selections;
  decision_refs = s.decision_refs;
  acceptance_refs = s.acceptance_refs;
}

abbrev host : Host
host = record {
  clock = λ n. 10;
  others = idle;
  turn = λ cs. answered tt;
  intent_store = some (λ cs r. answered tt);
  required_checkpoint =
      some (record { id = "check"; version = "1.0.0" }, λ cs p. status_only accept);
  authorizer = some (λ cs p. answered (some (permission p)));
  function = λ cs arguments. answered (some receipt);
  reconcile = none;
  validate_value = λ name v. ok v;
  canonical_digest = λ v. some "digest";
  is_text = λ s. true;
  is_version = λ s. true;
}

execute_mutation-Guarded_example :
    Guarded host tool context
      (execute_mutation host tool context [] []
        (record { shared = shared; reads = 0; calls = [] })).1.calls
execute_mutation-Guarded_example = execute_mutation-Guarded host tool context [] [] shared 0

program : Unit {0}
unfolding reconcile_mutation ask_reconciliation ask_host after_call named_operation execute_mutation
    ◌>>=◌ except finally elapse require_now require_acceptances require_acceptance require_current
    is_current obtain require_all action_proposal write_record persist_write pass_checkpoint check
    authorize current_action tool_arguments bind_all resolve operate prepare confirm launch
    call_tool finish keep_success record_execution add_record invalidate_all evidence
    enter_operation leave_operation admit_tool_attempt admit_write build serve
program = tt

abbrev start : Run
start = record { shared = shared; reads = 0; calls = [] }

runs : (execute_mutation host tool context [] [] start).0 ≡ ok receipt
unfolding program
runs = refl

once : dispatches (execute_mutation host tool context [] [] start).1.calls ≡ 1
unfolding program
once = refl

-- A checkpoint that rejects, and a host without an authorizer.
refused :
    ((execute_mutation
        (record host {
          required_checkpoint =
              some (record { id = "check"; version = "1.0.0" }, λ cs p. status_only reject);
        })
        tool
        context
        []
        []
        start).0
      ≡ raise (run_unresolved unaccepted_judgment))
    × ((execute_mutation (record host { authorizer = none }) tool context [] [] start).0
        ≡ raise (run_unresolved permission_denial))
unfolding program
refused = (refl, refl)

-- An operation id that is not a string is refused behind the evidence that is not there.
abbrev keyed : Tool
keyed = record tool { idempotency_parameter = some "key" }

late_refusal :
    ((execute_mutation host keyed context (("key", null) ∷ []) [] start).0 ≡ raise policy_error)
    × ((execute_mutation host keyed context (("key", null) ∷ []) ("gone" ∷ []) start).0
        ≡ raise evidence_not_found_error)
unfolding program
late_refusal = (refl, refl)

execute_mutation-IsSuccess_example :
    (operation_id : String) × (operation_id_of context tool [] ≡ ok operation_id)
    × IsSuccess operation_id receipt
execute_mutation-IsSuccess_example =
    execute_mutation-IsSuccess host tool context [] [] shared 0 receipt runs

-- A tool that answers with an unknown outcome, and an intent store that fails to keep just that.
abbrev forgetful : Host
forgetful = record host {
  intent_store = some (λ cs r. if same_state r.state outcome_unknown then failed else answered tt);
  function = λ cs arguments. answered (some (record receipt { state = outcome_unknown }));
  reconcile = some (λ cs i. answered (some receipt));
}

-- The failure of the store then hides the outcome: nothing is reconciled and no evidence of the
-- execution is kept.
unrecorded :
    let end_ = execute_mutation forgetful tool context [] [] start in
    (end_.0 ≡ raise host_error)
    × (dispatches end_.1.calls ≡ 1)
    × (end_.1.shared.store.records ≡ store.records)
unfolding program
unrecorded = (refl, refl, refl)

-- The same failure where the call itself raises is ignored, and the reconciliation is asked.
reconciles :
    (execute_mutation
      (record forgetful { function = λ cs arguments. failed })
      tool
      context
      []
      []
      start).0
    ≡ ok receipt
unfolding program
reconciles = refl
