-- ===== src/Artifacts/Planner.antt =====
-- artifacts.py, `_GenerateVerifyPlanner`: the planner of a recipe, which answers each request of the
-- planner engine by the stage it is in. `canonical_digest` (`none` where it raises) and
-- `canonical_json` serialize by `json`, and `validate` is Pydantic's validation of a generated value:
-- they are fields of what the planner is set up with. The clock is read by the caller.
use jev_frame.Prelude.{ℕ, String, Bool, List, [], ◌∷◌, Option, none, some, map, string_eq}
use jev_frame.Prelude.Text.{join}
use jev_frame.Errors.{Result, ok, raise, UnresolvedReason, assertion_error}
use jev_frame.Exec.{Exec}
use jev_frame.State.Value.{Value}
use jev_frame.State.Store.{Store}
use jev_frame.Planning.{PlanStep, evidence_value}
use jev_frame.Planning.Turns.{
  OutcomeValue, PlannerResponse, plan_revision, proposed_result, planner_handoff,
}
use jev_frame.Artifacts.{CheckKind, deterministic, semantic, CheckSpec, Recipe}

pub record Revision : Type 0 where
  pub id : String
  pub digest : String
  pub value : Value
  pub generator_id : String
  pub generator_version : String
  pub evidence_ref : String
  pub source_refs : List String

-- `ArtifactFinding`
pub record Finding : Type 0 where
  pub check_id : String
  pub check_kind : CheckKind
  pub artifact_revision_id : String
  pub passed : Bool
  pub required : Bool
  pub message : String
  pub field_ref : Option String
  pub evidence_ref : Option String
  pub source_refs : List String
  pub supports_fields : List String

-- `stage`: the stages named "deterministic" and "semantic" are those of `checking`.
pub data Stage : Type 0 where
  initial generation complete stopped : Stage
  checking : CheckKind → Stage

pub record Planner : Type 0 where
  pub stage : Stage
  pub processed : ℕ
  pub current : Option Revision
  pub revisions : List Revision
  pub findings : List Finding
  pub digests : List String
  pub stop_reason : Option UnresolvedReason
  pub stop_detail : String
  pub store : Store

pub record Settings : Type 0 where
  pub recipe : Recipe
  pub root_id : String
  pub scope : String
  pub validate : OutcomeValue → Result Value
  pub canonical_digest : Value → Option String
  pub canonical_json : Value → String

-- `__init__`
abbrev pub new_planner : Store → Planner
new_planner store = record {
  stage = initial;
  processed = 0;
  current = none;
  revisions = [];
  findings = [];
  digests = [];
  stop_reason = none;
  stop_detail = "";
  store = store;
}

-- `_stop`
unfoldable pub stop : UnresolvedReason → String → Exec Planner PlannerResponse
stop reason detail p = (
  ok (planner_handoff detail),
  record p { stage = stopped; stop_reason = some reason; stop_detail = detail },
)

-- `_complete`
unfoldable pub complete_artifact : Exec Planner PlannerResponse
complete_artifact p = elim p.current [
  | none ↦ (raise assertion_error, p)
  | some c ↦ (ok (proposed_result c.value), record p { stage = complete })
]

abbrev pub kind_text : CheckKind → String
kind_text deterministic = "deterministic"
kind_text semantic = "semantic"

unfoldable pub check_step_of : String → CheckSpec → PlanStep
check_step_of evidence_ref c = record {
  id = join "-" (kind_text c.kind ∷ c.id ∷ []);
  capability_id = c.capability_id;
  arguments = (c.artifact_parameter, evidence_value evidence_ref []) ∷ [];
  depends_on = [];
}

-- `_checks`, whose callers have a first check
unfoldable pub start_checks : CheckSpec → List CheckSpec → Exec Planner PlannerResponse
unfolding check_step_of
start_checks first rest p = elim p.current [
  | none ↦ (raise assertion_error, p)
  | some c ↦ (
    ok (plan_revision (map (check_step_of c.evidence_ref) (first ∷ rest))),
    record p { stage = checking first.kind },
  )
]

-- `_checks` of the checks of a kind, or `_complete` where there are none.
unfoldable pub start_or_complete : List CheckSpec → Exec Planner PlannerResponse
start_or_complete [] = complete_artifact
start_or_complete (c ∷ cs) = start_checks c cs

-- The two kinds of checks in their order.
unfoldable pub verify_by : (first second : List CheckSpec) → Exec Planner PlannerResponse
verify_by [] second = start_or_complete second
verify_by (c ∷ cs) second = start_checks c cs

-- What follows the checks of a kind that all passed, before the checks `second`.
unfoldable pub go_on : CheckKind → (second : List CheckSpec) → Exec Planner PlannerResponse
go_on deterministic second = start_or_complete second
go_on semantic second = complete_artifact
