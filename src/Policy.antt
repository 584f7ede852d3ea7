-- ===== src/Policy.antt =====
-- policy.py: proposed actions, what a host decides on them, and the records of their execution. The
-- digest of an action is that of state.py's `canonical_digest`, which serializes by `json` and hashes
-- by `hashlib`: it is a parameter, `none` where it raises. What evaluators answer is an argument.
pub mod Records
pub mod Encoding
pub mod Decisions
mod Tests
use jev_frame.Prelude.{
  ℕ, String, Bool, true, false, not, ◌&&◌, Option, none, some, List, [], ◌∷◌, ltb, all, ◌==◌,
  string_eq,
}
use jev_frame.Prelude.Dict.{Dict}
use jev_frame.Errors.{Error, Result, ok, raise, policy_error, host_error, ◌>>=◌, ◌>>◌, guard}
use jev_frame.Definitions.{
  ToolEffect, mutation, AcceptanceStatus, accept, AcceptanceRecord, acceptance_record,
}
use jev_frame.State.Value.{Value, Fields, text, null, object, end, field}

-- `_text` of this module: a non-empty string
abbrev pub check_text : String → Result (Unit {0})
check_text value = guard (not (value == "")) policy_error

pub record ActionProposal : Type 0 where
  pub operation_id : String
  pub tool_id : String
  pub tool_version : String
  pub arguments : Dict String Value
  pub scope : String
  pub source_versions : Dict String (Option String)
  pub effect : ToolEffect
  pub digest : String

abbrev pub is_mutation : ToolEffect → Bool
is_mutation ToolEffect.mutation = true
is_mutation _ = false

abbrev pub effect_text : ToolEffect → String
effect_text ToolEffect.pure = "pure"
effect_text ToolEffect.read = "read"
effect_text ToolEffect.mutation = "mutation"

-- A dict as a value, and an optional string.
abbrev pub fields_of : Dict String Value → Fields
fields_of [] = end
fields_of ((k, v) ∷ d) = field k v (fields_of d)

abbrev pub optional_text : Option String → Value
optional_text none = null
optional_text (some s) = text s

abbrev pub version_fields : Dict String (Option String) → Fields
version_fields [] = end
version_fields ((k, v) ∷ d) = field k (optional_text v) (version_fields d)

-- What the digest of an action covers.
abbrev pub action_value : ActionProposal → Value
action_value p = object (
    field "tool_id" (text p.tool_id) (
      field "tool_version" (text p.tool_version) (
        field "arguments" (object (fields_of p.arguments)) (
          field "scope" (text p.scope) (
            field "source_versions" (object (version_fields p.source_versions))
              (field "effect" (text (effect_text p.effect)) end))))))

-- The construction of a proposal whose fields, save for its digest, are those of `p`.
unfoldable pub action_proposal : (Value → Option String) → ActionProposal → Result ActionProposal
action_proposal canonical_digest p = do
  check_text p.operation_id
  check_text p.tool_id
  check_text p.tool_version
  check_text p.scope
  guard (is_mutation p.effect) policy_error
  elim (canonical_digest (action_value p)) [
    | none ↦ raise policy_error
    | some d ↦ ok (record p { digest = d })
  ]

pub record AuthorizationRecord : Type 0 where
  pub action_digest : String
  pub scope : String
  pub authorized : Bool
  pub expires_at : ℕ
  pub reasons : List String

-- `AuthorizationRecord.__post_init__`
unfoldable pub authorization_record : AuthorizationRecord → Result AuthorizationRecord
authorization_record a = do
  check_text a.action_digest
  check_text a.scope
  guard (all (λ reason. not (reason == "")) a.reasons) policy_error
  ok a

-- `AuthorizationRecord.permits`
abbrev pub permits : AuthorizationRecord → ActionProposal → ℕ → Bool
permits a p now =
    a.authorized && (a.action_digest == p.digest && (a.scope == p.scope && ltb now a.expires_at))

pub record CheckpointRecord : Type 0 where
  pub checkpoint_id : String
  pub checkpoint_version : String
  pub action_digest : String
  pub status : AcceptanceStatus
  pub reasons : List String

abbrev pub is_accept : AcceptanceStatus → Bool
is_accept accept = true
is_accept _ = false

-- `CheckpointRecord.__post_init__`
abbrev pub checkpoint_record : CheckpointRecord → Result CheckpointRecord
checkpoint_record c = do
  check_text c.checkpoint_id
  check_text c.checkpoint_version
  check_text c.action_digest
  ok c

-- `CheckpointRecord.accepts`
abbrev pub accepts : CheckpointRecord → ActionProposal → Bool
accepts c p = is_accept c.status && c.action_digest == p.digest

-- What the callable of a policy or of a checkpoint gives: a status, a record, anything else, or an
-- exception.
pub data Verdict : Type 0 where
  status_only : AcceptanceStatus → Verdict
  recorded : AcceptanceRecord → Verdict
  other : Verdict
  failed : Error → Verdict

-- An `AcceptancePolicy` or a `RequiredCheckpoint`, without its callable.
pub record Policy : Type 0 where
  pub id : String
  pub version : String

-- The constructors of both, whose callables are callable.
abbrev pub policy : Policy → Result Policy
policy p = do check_text p.id; check_text p.version; ok p

module _ (is_text is_version : String → Bool) where
  abbrev pub acceptance_of : Policy → Verdict → Result AcceptanceRecord
  acceptance_of p (status_only s) =
      acceptance_record is_text is_version
        (record { policy_id = p.id; policy_version = p.version; status = s; reasons = [] })
  acceptance_of p (recorded r) = ok r
  acceptance_of p other = raise policy_error
  acceptance_of p (failed e) = raise e

  -- `AcceptancePolicy.evaluate`
  unfoldable pub evaluate : Policy → Verdict → Result AcceptanceRecord
  evaluate p v = do
    r ← acceptance_of p v
    guard (r.policy_id == p.id && r.policy_version == p.version) policy_error
    ok r

  -- `RequiredCheckpoint.check`
  unfoldable pub check :
      Policy → (ActionProposal → Verdict) → ActionProposal → Result CheckpointRecord
  check p evaluator proposal = do
    r ← acceptance_of p (evaluator proposal)
    guard (r.policy_id == p.id && r.policy_version == p.version) policy_error
    checkpoint_record (record {
      checkpoint_id = p.id;
      checkpoint_version = p.version;
      action_digest = proposal.digest;
      status = r.status;
      reasons = r.reasons;
    })
