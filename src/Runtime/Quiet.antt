-- ===== src/Runtime/Quiet.antt =====
-- runtime.py: the parts of an execution that dispatch no tool.
use jev_frame.Prelude.{
  ℕ, arith, String, Bool, true, false, refl, Option, none, some, List, [], ◌∷◌, if◌then◌else◌,
}
use jev_frame.Errors.{Error, cancelled_error, effect_not_started_error}
use jev_frame.Limits.{Action}
use jev_frame.State.Value.{Value}
use jev_frame.Prelude.Dict.{Dict}
use jev_frame.Runtime.Arguments.{require_all}
use jev_frame.Policy.{ActionProposal, AuthorizationRecord}
use jev_frame.Policy.Records.{ExecutionReceipt, WriteRecord, same_state}
use jev_frame.State.Evidence.{succeeded, failed_before_effect}
use jev_frame.Definitions.Tools.{Tool}
use jev_frame.Runtime.Host.{Context, Run, Host, Call, Reply}
use jev_frame.Runtime.Steps.{Task, is_exception, wait, admitted}
use jev_frame.Runtime.Trace.{Grows, same-Grows, Quiet, Reading-Quiet, Quiet-bind, Quiet-except}
use jev_frame.Runtime.Reading.{require_all-Reading, current_action-Reading}
use jev_frame.Runtime.Mutation.{
  current_action, is_refusal, Attempt, returned, received, persist_write, persist_quietly,
  record_execution, keep_success, keep_failure, ask_host, ask_reconciliation, reconcile_mutation,
  pass_checkpoint, authorize,
}
use jev_frame.Runtime.Mutation.Dispatch.{
  named_operation, after_call, confirm, prepare, finish, obtain,
}

pub still : (w : Run) → Grows w w
still w = same-Grows w w refl

pub choose : {A : Type 0} (b : Bool) (m k : Task A) → Quiet m → Quiet k → Quiet (if b then m else k)
choose true m k qm qk = qm
choose false m k qm qk = qk

pub choose_some :
    {A B : Type 0} (o : Option B) (m : Task A) (f : B → Task A)
    → Quiet m
    → ((b : B) → Quiet (f b))
    → Quiet (elim o [ none ↦ m | some b ↦ f b ])
choose_some none m f qm qf = qm
choose_some (some b) m f qm qf = qf b

module _ (host : Host) (tool : Tool) (context : Context) where
  pub wait-Quiet : Quiet (wait host)
  wait-Quiet w = record { added = _ ∷ []; calls = refl; silent = refl }

  pub admitted-Quiet :
      (id : String) (m : ℕ → Action (Unit {0})) → Quiet (admitted host context id m)
  admitted-Quiet id m = Quiet-bind _ _ still (λ _.
      Quiet-bind _ _ (λ w. same-Grows w _ refl)
        (λ now. Quiet-bind _ _ still (λ _. Quiet-bind _ _ wait-Quiet (λ _ w. same-Grows w _ refl))))

  pub persist_write-Quiet : (r : WriteRecord) → Quiet (persist_write host tool context r)
  unfolding persist_write
  persist_write-Quiet r =
      choose_some host.intent_store _ _ still
        (λ f w. record { added = _ ∷ []; calls = refl; silent = refl })

  persist_quietly-Quiet : (r : WriteRecord) → Quiet (persist_quietly host tool context r)
  persist_quietly-Quiet r =
      Quiet-except _ _ (persist_write-Quiet r) (λ e w. same-Grows w _ (ground arith))

  record_execution-Quiet :
      (r : WriteRecord) (dependencies : List String)
      → Quiet (record_execution host tool context r dependencies)
  unfolding record_execution
  record_execution-Quiet r dependencies =
      Quiet-bind _ _ (λ w. same-Grows w _ refl)
        (λ now.
          Quiet-bind _ _ still
            (λ reference. Quiet-bind _ _ (λ w. same-Grows w _ refl) (λ _. still)))

  module _ (p : ActionProposal) (a : AuthorizationRecord) (dependencies : List String) where
    keep_success-Quiet :
        (r : ExecutionReceipt) → Quiet (keep_success host tool context p a dependencies r)
    unfolding keep_success
    keep_success-Quiet r = Quiet-bind _ _ still (λ w.
        Quiet-bind _ _
          (Quiet-except _ _ (persist_write-Quiet w) (λ e.
            choose (is_exception e) _ _
              (Quiet-bind _ _ still
                (λ u. Quiet-bind _ _ (record_execution-Quiet u dependencies) (λ _. still)))
              still))
          (λ _. Quiet-bind _ _ (record_execution-Quiet w dependencies) (λ _. still)))

    keep_failure-Quiet :
        (r : Option ExecutionReceipt) → Quiet (keep_failure host tool context p a dependencies r)
    unfolding keep_failure
    keep_failure-Quiet r = Quiet-bind _ _ still (λ w.
        Quiet-bind _ _ (persist_write-Quiet w)
          (λ _. Quiet-bind _ _ (record_execution-Quiet w dependencies) (λ _. still)))

    ask_host-Quiet :
        (f : List Call → String → Reply (Option ExecutionReceipt)) (operation_id : String)
        → Quiet (ask_host host tool context f operation_id)
    unfolding ask_host
    ask_host-Quiet f operation_id =
        Quiet-bind _ _ (λ w. record { added = _ ∷ []; calls = refl; silent = refl })
          (λ v. Quiet-bind _ _ still (λ r. still))

    ask_reconciliation-Quiet : Quiet (ask_reconciliation host tool context p a dependencies)
    unfolding ask_reconciliation
    ask_reconciliation-Quiet = choose_some host.reconcile _ _ still (λ f.
        Quiet-except _ _ (ask_host-Quiet f p.operation_id) (λ e. choose (is_exception e) _ _ still (
          Quiet-bind _ _ still
            (λ u. Quiet-bind _ _ (record_execution-Quiet u dependencies) (λ _. still)))))

    pub reconcile_mutation-Quiet : Quiet (reconcile_mutation host tool context p a dependencies)
    unfolding reconcile_mutation
    reconcile_mutation-Quiet = Quiet-bind _ _ ask_reconciliation-Quiet (λ receipt.
        let unknown = λ (w : WriteRecord).
          Quiet-bind _ _ (record_execution-Quiet w dependencies) (λ _. still) in
        choose_some receipt _ _ (Quiet-bind _ _ still unknown) (λ r.
          choose (same_state r.state succeeded) _ _ (keep_success-Quiet r) (
            choose (same_state r.state failed_before_effect) _ _ (keep_failure-Quiet (some r))
              (Quiet-bind _ _ still unknown))))

    pub finish-Quiet : (t : Attempt) → Quiet (finish host tool context p a dependencies t)
    unfolding finish
    finish-Quiet (returned r) = still
    finish-Quiet (received r) = choose (same_state r.state succeeded) _ _ (keep_success-Quiet r) (
        choose (same_state r.state failed_before_effect) _ _ (keep_failure-Quiet (some r)) (
          Quiet-bind _ _ still
            (λ u. Quiet-bind _ _ (persist_write-Quiet u) (λ _. reconcile_mutation-Quiet))))

    after_cancelled : Quiet (after_call host tool context p a dependencies cancelled_error)
    unfolding after_call
    after_cancelled = Quiet-bind _ _ still (λ u.
        Quiet-bind _ _ (persist_quietly-Quiet u)
          (λ _. Quiet-bind _ _ (record_execution-Quiet u dependencies) (λ _. still)))

    after_not_started :
        Quiet (after_call host tool context p a dependencies effect_not_started_error)
    unfolding after_call
    after_not_started = Quiet-bind _ _ (keep_failure-Quiet none) (λ r. still)

    -- The other exceptions, by the first of them and an equation for the rest.
    after_other : Quiet (after_call host tool context p a dependencies Error.host_error)
    unfolding after_call
    after_other = Quiet-bind _ _ still (λ u.
        Quiet-bind _ _ (persist_quietly-Quiet u)
          (λ _. Quiet-bind _ _ reconcile_mutation-Quiet (λ r. still)))

    pub after_call-Quiet : (e : Error) → Quiet (after_call host tool context p a dependencies e)
    unfolding after_call
    after_call-Quiet cancelled_error = after_cancelled
    after_call-Quiet effect_not_started_error = after_not_started
    after_call-Quiet _ = after_other

  confirm-Quiet :
      (operation_id : String) (p : ActionProposal) (a : AuthorizationRecord)
      (dependencies : List String)
      → Quiet (confirm host tool context operation_id p a dependencies)
  unfolding confirm
  confirm-Quiet operation_id p a dependencies =
      Quiet-bind _ _
        (Quiet-except _ _
          (Reading-Quiet (current_action host tool context operation_id p a)
            (current_action-Reading host tool context operation_id p a))
          (λ e.
            choose (is_refusal e) _ _
              (Quiet-bind _ _ still (λ f.
                Quiet-bind _ _ (persist_quietly-Quiet f)
                  (λ _. Quiet-bind _ _ (record_execution-Quiet f dependencies) (λ _. still))))
              still))
        (λ q. still)

  pub prepare-Quiet :
      (operation_id : String) (p : ActionProposal) (a : AuthorizationRecord)
      (dependencies : List String)
      → Quiet (prepare host tool context operation_id p a dependencies)
  unfolding prepare
  prepare-Quiet operation_id p a dependencies = Quiet-bind _ _ (admitted-Quiet _ _) (λ _.
      Quiet-bind _ _ (admitted-Quiet _ _) (λ _. Quiet-bind _ _ still (λ w.
        Quiet-bind _ _ (persist_write-Quiet w) (λ _. confirm-Quiet operation_id p a dependencies))))

  pub pass_checkpoint-Quiet : (p : ActionProposal) → Quiet (pass_checkpoint host tool context p)
  unfolding pass_checkpoint
  pass_checkpoint-Quiet p = choose_some host.required_checkpoint _ _ still (λ q.
      Quiet-bind _ _
        (Quiet-except _ _ (λ w. record { added = _ ∷ []; calls = refl; silent = refl })
          (λ e. choose (is_exception e) _ _ still still))
        (λ c. still))

  pub authorize-Quiet :
      (f : List Call → ActionProposal → Reply (Option AuthorizationRecord)) (p : ActionProposal)
      → Quiet (authorize host tool context f p)
  unfolding authorize
  authorize-Quiet f p =
      Quiet-bind _ _
        (Quiet-except _ _ (λ w. record { added = _ ∷ []; calls = refl; silent = refl })
          (λ e. choose (is_exception e) _ _ still still))
        (λ answer. choose_some answer _ _ still (λ a.
          Quiet-bind _ _ (λ w. same-Grows w _ refl) (λ now. Quiet-bind _ _ still (λ _. still))))

  pub obtain-Quiet :
      (operation_id : String) (arguments : Dict String Value) (dependencies : List String)
      (f : List Call → ActionProposal → Reply (Option AuthorizationRecord))
      → Quiet (obtain host tool context operation_id arguments dependencies f)
  unfolding obtain
  obtain-Quiet operation_id arguments dependencies f =
      Quiet-bind _ _
        (Reading-Quiet (require_all host context dependencies)
          (require_all-Reading host context dependencies))
        (λ sources. Quiet-bind _ _ still (λ p. Quiet-bind _ _ still (λ r.
          Quiet-bind _ _ (persist_write-Quiet r) (λ _.
            Quiet-bind _ _ (pass_checkpoint-Quiet p) (λ _.
              Quiet-bind _ _ (authorize-Quiet f p) (λ b. Quiet-bind _ _ still (λ r'.
                Quiet-bind _ _ (persist_write-Quiet r') (λ _.
                  Quiet-bind _ _
                    (Reading-Quiet (current_action host tool context operation_id p b)
                      (current_action-Reading host tool context operation_id p b))
                    (λ q. Quiet-bind _ _ (authorize-Quiet f q.1) (λ a. still))))))))))

  pub named_operation-Quiet :
      (arguments : Dict String Value) (dependencies : List String)
      → Quiet (named_operation host tool context arguments dependencies)
  unfolding named_operation
  named_operation-Quiet arguments dependencies = Quiet-except _ _ still (λ e.
      choose _ _ _
        (Quiet-bind _ _
          (Reading-Quiet (require_all host context dependencies)
            (require_all-Reading host context dependencies))
          (λ _. still))
        still)
