-- ===== src/Definitions/Tools.antt =====
-- definitions.py: the tools of an agent, and where a tool's parameters take their values from.
use jev_frame.Prelude.{ℕ, String, Bool, Option, List}
use jev_frame.Prelude.Dict.{Dict}
use jev_frame.Definitions.{ToolEffect}
use jev_frame.State.Value.{Value}
use jev_frame.State.Sources.{Part, Locator}

pub data Binding : Type 0 where
  task_input : List Part → Binding
  host_context : (key : String) → Binding
  constant : Value → Binding
  default : Binding
  candidate_binding : (snapshot selection : String) → Binding
  source_binding : (evidence_id : String) → Locator → Binding
  derivation_binding : (transformation : String) → List String → Binding
  judgment_binding : (judgment_id : String) → Binding
  generated_binding : (capability : String) → Binding

-- The fields of a `Tool` and of its `MutationContract` that the compiler and the execution read.
pub record Tool : Type 0 where
  pub id : String
  pub version : String
  pub bindings : Dict String Binding
  pub effect : ToolEffect
  pub binding_groups : List (List String)
  pub requires_evidence : List String
  pub produces_evidence : List String
  pub timeout : ℕ
  pub durable_intent_required : Bool
  pub idempotency_parameter : Option String
