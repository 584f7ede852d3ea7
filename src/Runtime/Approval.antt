-- ===== src/Runtime/Approval.antt =====
-- runtime.py: what must have happened before a mutating tool is dispatched.
use jev_frame.Prelude.{
  ℕ, suc, ◌<◌, String, true, false, ◌≡◌, Option, none, some, List, [], ◌∷◌, string_eq,
}
use jev_frame.Prelude.Set.{has}
use jev_frame.Prelude.Dict.{Dict, lookup}
use jev_frame.Errors.{ok}
use jev_frame.State.Value.{Value}
use jev_frame.State.Evidence.{Evidence, in_flight}
use jev_frame.State.Store.{require_current}
use jev_frame.Policy.{
  ActionProposal, action_value, AuthorizationRecord, permits, CheckpointRecord, accepts, Policy,
  Verdict,
}
use jev_frame.Policy.Records.{ExecutionReceipt, WriteRecord}
use jev_frame.Definitions.Tools.{Binding, judgment_binding, Tool}
use jev_frame.Runtime.Host.{
  Context, Shared, Run, Host, Reply, answered, Call, intent, checkpointed, authorizing, dispatched,
}
use jev_frame.Definitions.{mutation}
use jev_frame.Runtime.Arguments.{tool_arguments}
use jev_frame.Runtime.Trace.{Occurs, dispatches, is_dispatch}

-- The checkpoint, if there is one, has accepted this action.
abbrev pub Checks :
    Option (Policy × (List Call → ActionProposal → Verdict)) → ActionProposal → List Call → Type 0
Checks none p cs = Unit {0}
Checks (some _) p cs =
    (c : CheckpointRecord) × Occurs (checkpointed p (ok c)) cs × (accepts c p ≡ true)

-- The intent that is in flight is the last thing that the store of intents was given, and it has
-- kept it. Without such a store the tool must not require one.
abbrev pub Announces :
    Option (List Call → WriteRecord → Reply (Unit {0})) → Tool → WriteRecord → List Call → Type 0
Announces none tool r cs = tool.durable_intent_required ≡ false
Announces (some _) tool r cs = (earlier : List Call) × (cs ≡ intent r (answered tt) ∷ earlier)

abbrev pub in_flight_record : ActionProposal → AuthorizationRecord → WriteRecord
in_flight_record p a = record {
  proposal = p;
  state = in_flight;
  authorization = some a;
  receipt = none;
}

module _ (host : Host) (tool : Tool) (context : Context) where
  -- The authorizer has been asked about an action with this digest, and this was its answer.
  abbrev pub Authorized : ActionProposal → AuthorizationRecord → List Call → Type 0
  Authorized p a cs =
      (q : ActionProposal) × (q.digest ≡ p.digest) × Occurs (authorizing q (answered (some a))) cs

  -- Each judgment that the tool's parameters are bound to has an acceptance that is current.
  abbrev pub Accepted : Shared → Dict String Binding → Type 0
  Accepted s [] = Unit {0}
  Accepted s ((name, judgment_binding j) ∷ bindings) =
      ((reference : String) × (n : ℕ) × (r : Evidence) × (lookup j s.acceptance_refs
          ≡ some reference)
        × (require_current reference context.scope (host.clock n) s.store ≡ ok r))
      × Accepted s bindings
  Accepted s (_ ∷ bindings) = Accepted s bindings

  -- An action of this tool in this scope, with the digest that its fields have.
  pub record IsAction (p : ActionProposal) : Type 0 where
    pub of_tool : p.tool_id ≡ tool.id
    pub of_version : p.tool_version ≡ tool.version
    pub in_scope : p.scope ≡ context.scope
    pub is_mutation : p.effect ≡ mutation
    pub digested : host.canonical_digest (action_value p) ≡ some p.digest

  -- The arguments that the tool's bindings have, at some readings of the clock, while the run shares
  -- `s`, behind the calls `cs`.
  pub record Resolved (cs : List Call) (s : Shared) (arguments : Dict String Value) : Type 0 where
    pub run : Run
    pub shares : run.shared ≡ s
    pub behind : run.calls ≡ cs
    pub dependencies : List String
    pub resolves : (tool_arguments host context tool run).0 ≡ ok (arguments, dependencies)

  -- What holds when the tool is dispatched with `arguments` while the run shares `s`, behind the
  -- calls `cs` and after `reads` readings of the clock: nothing was dispatched before; the arguments
  -- are what the bindings have now, and make an action with the digest that was proposed, checked,
  -- authorized and announced; the authorization permits this action at the last reading but one; the
  -- deadline had not passed at the last reading; the ledger has admitted the write.
  pub record Ready (cs : List Call) (s : Shared) (reads : ℕ) (arguments : Dict String Value)
      : Type 0 where
    pub proposal : ActionProposal
    pub authorization : AuthorizationRecord
    pub current : ActionProposal
    pub fresh : dispatches cs ≡ 0
    pub resolved : Resolved cs s arguments
    pub same_arguments : current.arguments ≡ arguments
    pub is_action : IsAction current
    pub was_action : IsAction proposal
    pub same_operation : current.operation_id ≡ proposal.operation_id
    pub same_digest : current.digest ≡ proposal.digest
    pub permitted :
        (n : ℕ) × (reads ≡ suc (suc n)) × (permits authorization current (host.clock n) ≡ true)
    pub in_time : (n : ℕ) × (reads ≡ suc n) × (host.clock n < context.deadline)
    pub checked : Checks host.required_checkpoint proposal cs
    pub authorized : Authorized proposal authorization cs
    pub announced : Announces host.intent_store tool (in_flight_record proposal authorization) cs
    pub accepted : Accepted s tool.bindings
    pub admitted : has proposal.operation_id s.ledger.writes ≡ true

  -- Every dispatch among these calls was ready.
  pub data Guarded : List Call → Type 0 where
    empty : Guarded []
    other : {cs : List Call} (c : Call) → is_dispatch c ≡ false → Guarded cs → Guarded (c ∷ cs)
    ready :
        {cs : List Call} (s : Shared) (reads : ℕ) (arguments : Dict String Value)
        (reply : Reply (Option ExecutionReceipt))
        → Ready cs s reads arguments
        → Guarded cs
        → Guarded (dispatched s reads arguments reply ∷ cs)
