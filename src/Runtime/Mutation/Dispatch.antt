-- ===== src/Runtime/Mutation/Dispatch.antt =====
-- runtime.py, `_execute_mutation`: the dispatch of the tool, and the whole method.
use jev_frame.Prelude.{
  Bool, true, false, ◌-◌, String, Option, none, some, List, [], ◌∷◌, ltb, concat, if◌then◌else◌,
}
use jev_frame.Prelude.Dict.{Dict}
use jev_frame.Errors.{
  Error, run_unresolved, permission_denial, deadline_exceeded_error, cancelled_error,
  effect_not_started_error,
}
use jev_frame.Exec.{pure, fail, lift, require}
use jev_frame.Limits.{enter_operation, leave_operation, admit_tool_attempt, admit_write}
use jev_frame.State.Value.{Value}
use jev_frame.State.Evidence.{
  proposed, authorized, in_flight, succeeded, failed_before_effect, outcome_unknown,
}
use jev_frame.Policy.{ActionProposal, AuthorizationRecord}
use jev_frame.Policy.Records.{ExecutionReceipt, same_state}
use jev_frame.Definitions.Tools.{Tool}
use jev_frame.Runtime.Host.{Context, Host, Reply, Call, result_of, dispatched}
use jev_frame.Runtime.Steps.{
  Task, ◌>>=◌, ◌>>◌, except, finally, on_ledger, tick, call, wait, admitted,
}
use jev_frame.Runtime.Arguments.{require_all}
use jev_frame.Runtime.Mutation.{
  is_refusal, min_value, receipt_of, written, operation_id_of, Attempt, returned, received,
  persist_write, persist_quietly, record_execution, keep_success, keep_failure, reconcile_mutation,
  require_acceptances, propose, pass_checkpoint, authorize, current_action,
}

abbrev pub is_policy_error : Error → Bool
is_policy_error Error.policy_error = true
is_policy_error _ = false

module _ (host : Host) (tool : Tool) (context : Context) where
  -- The call of the tool, and its receipt.
  unfoldable pub call_tool : String → Dict String Value → Task ExecutionReceipt
  call_tool operation_id arguments = do
    now ← tick host
    require (ltb 0 (min_value tool.timeout (context.deadline - now))) deadline_exceeded_error
    v ← call host (λ w.
        let reply = host.function w.calls arguments in
        (result_of reply, dispatched w.shared w.reads arguments reply))
    lift (receipt_of operation_id v)

  -- What becomes of an exception of the call.
  unfoldable pub after_call :
      ActionProposal → AuthorizationRecord → List String → Error → Task Attempt
  after_call p a dependencies cancelled_error = do
    u ← written p outcome_unknown (some a) none
    persist_quietly host tool context u
    record_execution host tool context u dependencies
    fail cancelled_error
  after_call p a dependencies effect_not_started_error = do
    r ← keep_failure host tool context p a dependencies none
    pure (returned r)
  after_call p a dependencies e = do
    u ← written p outcome_unknown (some a) none
    persist_quietly host tool context u
    r ← reconcile_mutation host tool context p a dependencies
    pure (returned r)

  -- The second run of `current_action`, with the intent in flight.
  unfoldable pub confirm :
      String → ActionProposal → AuthorizationRecord → List String → Task (Dict String Value)
  confirm operation_id p a dependencies = do
    (arguments, _) ← except (current_action host tool context operation_id p a) (λ e.
        if is_refusal e
        then (do
          f ← written p failed_before_effect (some a) none
          persist_quietly host tool context f
          record_execution host tool context f dependencies
          fail e)
        else fail e)
    pure arguments

  -- The body of the `async with`, up to the call.
  unfoldable pub prepare :
      String → ActionProposal → AuthorizationRecord → List String → Task (Dict String Value)
  prepare operation_id p a dependencies = do
    let attempt_id = concat (operation_id ∷ ":1" ∷ [])
    admitted host context attempt_id (admit_tool_attempt attempt_id context.deadline)
    admitted host context operation_id (admit_write operation_id context.deadline)
    w ← written p in_flight (some a) none
    persist_write host tool context w
    confirm operation_id p a dependencies

  -- The rest of that body.
  unfoldable pub launch :
      String → ActionProposal → AuthorizationRecord → List String → Dict String Value → Task Attempt
  launch operation_id p a dependencies arguments =
      except (do r ← call_tool operation_id arguments; pure (received r))
        (after_call p a dependencies)

  -- What follows the `async with`.
  unfoldable pub finish :
      ActionProposal → AuthorizationRecord → List String → Attempt → Task ExecutionReceipt
  finish p a dependencies (returned r) = pure r
  finish p a dependencies (received r) =
      if same_state r.state succeeded
      then keep_success host tool context p a dependencies r
      else if same_state r.state failed_before_effect
      then keep_failure host tool context p a dependencies (some r)
      else (do
        u ← written p outcome_unknown (some a) (some r)
        persist_write host tool context u
        reconcile_mutation host tool context p a dependencies)

  -- The `async with` block and what follows it.
  unfoldable pub operate :
      String → ActionProposal → AuthorizationRecord → List String → Task ExecutionReceipt
  operate operation_id p a dependencies = do
    wait host
    admitted host context operation_id (enter_operation operation_id context.deadline)
    r ←
        finally
          (do
            arguments ← prepare operation_id p a dependencies
            launch operation_id p a dependencies arguments)
          (do wait host; on_ledger (leave_operation operation_id))
    finish p a dependencies r

  -- Up to the second authorization: the proposal and the record that permits it.
  unfoldable pub obtain :
      String
      → Dict String Value
      → List String
      → (List Call → ActionProposal → Reply (Option AuthorizationRecord))
      → Task (ActionProposal × AuthorizationRecord)
  obtain operation_id arguments dependencies authorizer = do
    sources ← require_all host context dependencies
    p ← propose host tool context operation_id arguments sources
    w ← written p proposed none none
    persist_write host tool context w
    pass_checkpoint host tool context p
    first ← authorize host tool context authorizer p
    w' ← written p authorized (some first) none
    persist_write host tool context w'
    (_, refreshed) ← current_action host tool context operation_id p first
    a ← authorize host tool context authorizer refreshed
    pure (p, a)

  -- The operation id. `ActionProposal` refuses one that is not a string, behind the evidence.
  unfoldable pub named_operation : Dict String Value → List String → Task String
  named_operation arguments dependencies =
      except (lift (operation_id_of context tool arguments)) (λ e.
        if is_policy_error e
        then (do _ ← require_all host context dependencies; fail e)
        else fail e)

  -- `_execute_mutation`
  unfoldable pub execute_mutation : Dict String Value → List String → Task ExecutionReceipt
  execute_mutation arguments dependencies = elim host.authorizer [
    | none ↦ fail (run_unresolved permission_denial)
    | some authorizer ↦ (do
      require_acceptances host tool context tool.bindings
      operation_id ← named_operation arguments dependencies
      (p, a) ← obtain operation_id arguments dependencies authorizer
      operate operation_id p a dependencies)
  ]
