-- ===== src/Compiler/Program.antt =====
-- compiler.py: the compiled program and its parts, as data.
use jev_frame.Prelude.{ℕ, String, Bool, List, Option}
use jev_frame.Definitions.{ToolEffect}
use jev_frame.Definitions.Agents.{Coverage}
use jev_frame.Compiler.Diagnostics.{NodeId, Diagnostic}

pub data NodeKind : Type 0 where
  retrieval derivation judgment invocation completion : NodeKind

pub record CompiledBinding : Type 0 where
  pub parameter : String
  pub source : String
  pub reference : Option String

pub record CompiledNode : Type 0 where
  pub id : NodeId
  pub kind : NodeKind
  pub definition_id : String
  pub version : String
  pub dependencies : List NodeId
  pub outputs : List String
  pub applicability : Option String
  pub effect : Option ToolEffect
  pub bindings : List CompiledBinding
  pub unresolved : List String

pub record CompiledOption : Type 0 where
  pub key : String
  pub description : String
  pub source_id : Option String
  pub source_version : Option String

pub record CompiledQuestion : Type 0 where
  pub routing_id : String
  pub judgment_id : String
  pub primitive : String
  pub instructions : String
  pub subjects : List String
  pub evidence : List String
  pub dependencies : List String
  pub applicability : Option String
  pub candidate_set : Option String
  pub options : List CompiledOption
  pub score_levels : List String
  pub true_description : Option String
  pub false_description : Option String
  pub dispatchable : Bool

pub record EvaluationStage : Type 0 where
  pub index : ℕ
  pub question_ids : List String

pub record CandidatePreview : Type 0 where
  pub id : String
  pub version : Option String
  pub coverage : Option Coverage
  pub scope : Option String
  pub supplied : Bool
  pub options : List CompiledOption

pub record CompiledProgram : Type 0 where
  pub definition_id : String
  pub definition_version : String
  pub nodes : List CompiledNode
  pub questions : List CompiledQuestion
  pub stages : List EvaluationStage
  pub candidates : List CandidatePreview
  pub package_versions : List (String × String)
  pub diagnostics : List Diagnostic
