-- ===== src/Runtime/Mutation.antt =====
-- runtime.py, `_execute_mutation` and `_reconcile_mutation`. Events, which `_emit` logs, are left
-- out; the closure `current_action` is a function of what it captures.
pub mod Dispatch
use jev_frame.Prelude.{
  ℕ, ◌-◌, String, Bool, true, false, not, ◌&&◌, ◌||◌, Option, none, some, List, [], ◌∷◌, ltb, ◌==◌,
  string_eq, concat, if◌then◌else◌,
}
use jev_frame.Prelude.Dict.{Dict, lookup}
use jev_frame.Errors.{
  Error, Result, ok, raise, run_unresolved, permission_denial, unaccepted_judgment, stale_source,
  unknown_write_outcome, deadline_exceeded_error, tool_failure, policy_error, key_error,
  cancelled_error, effect_not_started_error,
}
use jev_frame.Exec.{Exec, pure, fail, gets, lift, require}
use jev_frame.Definitions.{ToolEffect, mutation}
use jev_frame.Limits.{enter_operation, leave_operation, admit_tool_attempt, admit_write}
use jev_frame.State.Value.{Value, text}
use jev_frame.State.Evidence.{
  Evidence, ExecutionState, proposed, authorized, in_flight, succeeded, failed_before_effect,
  outcome_unknown, execution, evidence,
}
use jev_frame.State.Store.{add_record}
use jev_frame.Policy.{
  ActionProposal, action_proposal, AuthorizationRecord, permits, CheckpointRecord, accepts, check,
}
use jev_frame.Policy.Records.{ExecutionReceipt, WriteRecord, write_record, state_text, same_state}
use jev_frame.Policy.Encoding.{write_value}
use jev_frame.Definitions.Tools.{Binding, judgment_binding, Tool}
use jev_frame.Runtime.Host.{
  Context, Run, Host, Reply, result_of, Call, intent, checkpointed, authorizing, dispatched,
  reconciled,
}
use jev_frame.Runtime.Steps.{
  Task, ◌>>=◌, ◌>>◌, is_exception, except, finally, on_store, on_ledger, tick, call, wait,
  require_now, admitted,
}
use jev_frame.Runtime.Arguments.{require_all, tool_arguments}

-- `except _RunUnresolved`, and `except (_RunUnresolved, DeadlineExceededError)`
abbrev pub is_unresolved : Error → Bool
is_unresolved (run_unresolved reason) = true
is_unresolved _ = false

abbrev pub is_refusal : Error → Bool
is_refusal deadline_exceeded_error = true
is_refusal e = is_unresolved e

-- `min`
abbrev pub min_value : ℕ → ℕ → ℕ
min_value a b = if ltb b a then b else a

-- policy.py, `source_versions`
abbrev pub source_versions : List Evidence → Dict String (Option String)
source_versions [] = []
source_versions (r ∷ rs) = (r.id, r.source_version) ∷ source_versions rs

-- `_receipt`
abbrev pub receipt_of : String → Option ExecutionReceipt → Result ExecutionReceipt
receipt_of operation_id none = raise policy_error
receipt_of operation_id (some r) =
    if r.operation_id == operation_id then ok r else raise policy_error

-- The construction of a `WriteRecord`.
abbrev pub written :
    ActionProposal
    → ExecutionState
    → Option AuthorizationRecord
    → Option ExecutionReceipt
    → Task WriteRecord
written p state a r =
    lift (write_record (record { proposal = p; state = state; authorization = a; receipt = r }))

-- The operation id: that of the run and the tool, or the argument that the tool names, which must be
-- a string for `ActionProposal`.
abbrev pub operation_id_of : Context → Tool → Dict String Value → Result String
operation_id_of context tool arguments = elim tool.idempotency_parameter [
  | none ↦ ok (concat (context.run_id ∷ ":tool:" ∷ tool.id ∷ []))
  | some parameter ↦ elim (lookup parameter arguments) [
    | none ↦ raise key_error
    | some (text s) ↦ ok s
    | some _ ↦ raise policy_error
  ]
]

-- How the body of the `async with` ends: it returns from the method, or goes on behind it.
pub data Attempt : Type 0 where
  returned received : ExecutionReceipt → Attempt

module _ (host : Host) (tool : Tool) (context : Context) where
  -- `_persist_write`
  unfoldable pub persist_write : WriteRecord → Task (Unit {0})
  persist_write r = elim host.intent_store [
    | none ↦ require (not tool.durable_intent_required) (run_unresolved permission_denial)
    | some record_ ↦
        call host (λ w. let reply = record_ w.calls r in (result_of reply, intent r reply))
  ]

  -- `_persist_write` with its exceptions ignored
  abbrev pub persist_quietly : WriteRecord → Task (Unit {0})
  persist_quietly r = except (persist_write r) (λ e. if is_exception e then pure tt else fail e)

  abbrev pub execution_id : WriteRecord → String
  execution_id r =
      concat (context.run_id ∷ ":execution:" ∷ r.proposal.tool_id ∷ ":" ∷ state_text r.state ∷ [])

  abbrev pub execution_evidence : WriteRecord → List String → ℕ → Evidence
  execution_evidence r dependencies now = record {
    id = execution_id r;
    value = write_value r;
    source_id = concat ("tool:" ∷ r.proposal.tool_id ∷ []);
    scope = context.scope;
    observed_at = now;
    source_version = none;
    expires_at = none;
    dependencies = dependencies;
    supersedes = [];
    conflicts_with = [];
    body = execution r.proposal.operation_id r.state;
  }

  -- `_record_execution`
  unfoldable pub record_execution : WriteRecord → List String → Task (Unit {0})
  record_execution r dependencies = do
    now ← tick host
    reference ← lift (evidence (execution_evidence r dependencies now))
    _ ← on_store (add_record reference)
    pure tt

  -- What follows a receipt of success, in both methods: the success is made durable and recorded.
  unfoldable pub keep_success :
      ActionProposal → AuthorizationRecord → List String → ExecutionReceipt → Task ExecutionReceipt
  keep_success p a dependencies r = do
    w ← written p succeeded (some a) (some r)
    except (persist_write w) (λ e.
        if is_exception e
        then (do
          u ← written p outcome_unknown (some a) (some r)
          record_execution u dependencies
          fail (run_unresolved unknown_write_outcome))
        else fail e)
    record_execution w dependencies
    pure r

  -- What follows a receipt of a failure before the effect, in both methods.
  unfoldable pub keep_failure :
      ActionProposal
      → AuthorizationRecord
      → List String
      → Option ExecutionReceipt
      → Task ExecutionReceipt
  keep_failure p a dependencies r = do
    w ← written p failed_before_effect (some a) r
    persist_write w
    record_execution w dependencies
    fail tool_failure

  -- `tool.mutation.reconcile(operation_id)`, and the check of its receipt.
  unfoldable pub ask_host :
      (List Call → String → Reply (Option ExecutionReceipt))
      → String
      → Task (Option ExecutionReceipt)
  ask_host f operation_id = do
    v ← call host (λ w.
        let reply = f w.calls operation_id in (result_of reply, reconciled operation_id reply))
    r ← lift (receipt_of operation_id v)
    pure (some r)

  -- The first part of `_reconcile_mutation`: the receipt that the tool's reconciliation gives.
  unfoldable pub ask_reconciliation :
      ActionProposal → AuthorizationRecord → List String → Task (Option ExecutionReceipt)
  ask_reconciliation p a dependencies = elim host.reconcile [
    | none ↦ pure none
    | some f ↦ except (ask_host f p.operation_id) (λ e. if is_exception e then pure none else (do
      u ← written p outcome_unknown (some a) none
      record_execution u dependencies
      fail e))
  ]

  -- `_reconcile_mutation`
  unfoldable pub reconcile_mutation :
      ActionProposal → AuthorizationRecord → List String → Task ExecutionReceipt
  reconcile_mutation p a dependencies = do
    receipt ← ask_reconciliation p a dependencies
    let unknown : Task ExecutionReceipt = (do
      u ← written p outcome_unknown (some a) receipt
      record_execution u dependencies
      fail (run_unresolved unknown_write_outcome))
    elim receipt [
      | none ↦ unknown
      | some r ↦
          if same_state r.state succeeded
          then keep_success p a dependencies r
          else if same_state r.state failed_before_effect
          then keep_failure p a dependencies (some r)
          else unknown
    ]

  -- The acceptance of a judgment exists, and is current.
  unfoldable pub require_acceptance : Option String → Task (Unit {0})
  require_acceptance none = fail (run_unresolved unaccepted_judgment)
  require_acceptance (some reference) = do _ ← require_now host context reference; pure tt

  -- Each judgment that the tool is bound to has an acceptance that is current.
  unfoldable pub require_acceptances : Dict String Binding → Task (Unit {0})
  require_acceptances [] = pure tt
  require_acceptances ((name, judgment_binding j) ∷ bindings) = do
    s ← gets (λ w. w.shared)
    require_acceptance (lookup j s.acceptance_refs)
    require_acceptances bindings
  require_acceptances (_ ∷ bindings) = require_acceptances bindings

  abbrev pub propose : String → Dict String Value → List Evidence → Task ActionProposal
  propose operation_id arguments sources = lift (
      action_proposal host.canonical_digest (record {
        operation_id = operation_id;
        tool_id = tool.id;
        tool_version = tool.version;
        arguments = arguments;
        scope = context.scope;
        source_versions = source_versions sources;
        effect = ToolEffect.mutation;
        digest = "";
      }))

  -- The required checkpoint, which fails closed.
  unfoldable pub pass_checkpoint : ActionProposal → Task (Unit {0})
  pass_checkpoint p = elim host.required_checkpoint [
    | none ↦ pure tt
    | some (policy, evaluator) ↦ (do
      c ←
          except
            (call host (λ w.
              let r = check host.is_text host.is_version policy (evaluator w.calls) p in
              (r, checkpointed p r)))
            (λ e. if is_exception e then fail (run_unresolved unaccepted_judgment) else fail e)
      require (accepts c p) (run_unresolved unaccepted_judgment))
  ]

  -- The authorizer, which fails closed too: its record must permit exactly this action now.
  unfoldable pub authorize :
      (List Call → ActionProposal → Reply (Option AuthorizationRecord))
      → ActionProposal
      → Task AuthorizationRecord
  authorize authorizer p = do
    answer ←
        except
          (call host
            (λ w. let reply = authorizer w.calls p in (result_of reply, authorizing p reply)))
          (λ e. if is_exception e then fail (run_unresolved permission_denial) else fail e)
    elim answer [
      | none ↦ fail (run_unresolved permission_denial)
      | some a ↦ (do
        now ← tick host
        require (permits a p now) (run_unresolved permission_denial)
        pure a)
    ]

  -- `current_action`: the arguments and the proposal as they are now, which must be those approved.
  unfoldable pub current_action :
      String → ActionProposal → AuthorizationRecord → Task (Dict String Value × ActionProposal)
  current_action operation_id p a = do
    now ← tick host
    require (ltb now context.deadline) deadline_exceeded_error
    (arguments, sources) ←
        except
          (do
            require_acceptances tool.bindings
            (arguments, dependencies) ← tool_arguments host context tool
            sources ← require_all host context dependencies
            pure (arguments, sources))
          (λ e.
            if is_unresolved e
            then fail e
            else if is_exception e
            then fail (run_unresolved stale_source)
            else fail e)
    current ← propose operation_id arguments sources
    require (current.digest == p.digest) (run_unresolved stale_source)
    later ← tick host
    require (permits a current later) (run_unresolved permission_denial)
    pure (arguments, current)
