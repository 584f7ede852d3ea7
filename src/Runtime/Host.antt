-- ===== src/Runtime/Host.antt =====
-- runtime.py: what the execution of a tool works on. The code that is the host's (the clock, the
-- authorizer, the store of intents, the tool itself) is a record of functions that answer by the
-- calls so far, so that they may answer differently each time. While a call is awaited the other
-- tasks of the run go on: they use the ledger and the evidence store by their operations, and set
-- the other fields of the run's state as they like.
use jev_frame.Prelude.{ℕ, String, Bool, Option, List}
use jev_frame.Prelude.Dict.{Dict}
use jev_frame.Errors.{Result, ok, raise, effect_not_started_error, cancelled_error, host_error}
use jev_frame.Limits.{Ledger}
use jev_frame.Limits.Requests.{Request}
use jev_frame.State.Value.{Value}
use jev_frame.State.Store.{Store}
use jev_frame.State.Store.History.{Change}
use jev_frame.Policy.{ActionProposal, AuthorizationRecord, CheckpointRecord, Policy, Verdict}
use jev_frame.Policy.Records.{ExecutionReceipt, WriteRecord}

-- The fields of a `RunContext` that the execution reads, and the task's inputs.
pub record Context : Type 0 where
  pub run_id : String
  pub scope : String
  pub deadline : ℕ
  pub host_dependencies : Dict String Value
  pub inputs : Value

-- `_RunState`, with the ledger that the run shares.
pub record Shared : Type 0 where
  pub store : Store
  pub ledger : Ledger
  pub findings : Dict String Value
  pub selections : Dict String (Option Value)
  pub decision_refs : Dict String String
  pub acceptance_refs : Dict String String

-- How awaiting the host's code ends.
pub data Reply {ℓ} (A : Type ℓ) : Type ℓ where
  answered : A → Reply A
  failed not_started cancelled : Reply A

abbrev pub result_of {ℓ} : {A : Type ℓ} → Reply A → Result A
result_of (answered a) = ok a
result_of failed = raise host_error
result_of not_started = raise effect_not_started_error
result_of cancelled = raise cancelled_error

-- The calls that leave the runtime, with what came back. A dispatch of the tool is kept with the
-- state of the run at its time, and with how often the clock had been read.
pub data Call : Type 0 where
  intent : WriteRecord → Reply (Unit {0}) → Call
  checkpointed : ActionProposal → Result CheckpointRecord → Call
  authorizing : ActionProposal → Reply (Option AuthorizationRecord) → Call
  waited : Reply (Unit {0}) → Call
  dispatched : Shared → (reads : ℕ) → Dict String Value → Reply (Option ExecutionReceipt) → Call
  reconciled : String → Reply (Option ExecutionReceipt) → Call

pub record Run : Type 0 where
  pub shared : Shared
  -- how often the clock has been read
  pub reads : ℕ
  -- the calls so far, the last one first
  pub calls : List Call

-- What the other tasks do to the fields that are plain dicts.
pub record Meanwhile : Type 0 where
  pub requests : List Request
  pub changes : List Change
  pub findings : Dict String Value
  pub selections : Dict String (Option Value)
  pub decision_refs : Dict String String
  pub acceptance_refs : Dict String String

pub record Host : Type 0 where
  -- the successive values of `context.clock()`
  pub clock : ℕ → ℕ
  pub others : List Call → Shared → Meanwhile
  -- how waiting for the semaphore or for the ledger's lock ends
  pub turn : List Call → Reply (Unit {0})
  pub intent_store : Option (List Call → WriteRecord → Reply (Unit {0}))
  pub required_checkpoint : Option (Policy × (List Call → ActionProposal → Verdict))
  pub authorizer : Option (List Call → ActionProposal → Reply (Option AuthorizationRecord))
  pub function : List Call → Dict String Value → Reply (Option ExecutionReceipt)
  pub reconcile : Option (List Call → String → Reply (Option ExecutionReceipt))
  -- `validate_value` for a parameter of the tool, which calls Pydantic
  pub validate_value : String → Value → Result Value
  pub canonical_digest : Value → Option String
  pub is_text : String → Bool
  pub is_version : String → Bool
