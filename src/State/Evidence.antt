-- ===== src/State/Evidence.antt =====
-- state.py, the evidence records: `EvidenceRecord` and its five subclasses. Clock values are
-- numbers, as in the ledger, so `observed_at` and `expires_at` are finite.
use jev_frame.Prelude.{
  ℕ, String, Bool, true, false, not, ◌&&◌, ◌||◌, Option, none, some, List, [], ◌∷◌, ltb, ◌==◌,
  string_eq, all,
}
use jev_frame.Prelude.Set.{has, unique}
use jev_frame.Errors.{Result, ok, state_error, ◌>>◌, guard}
use jev_frame.State.Value.{Value}

pub data ExecutionState : Type 0 where
  proposed authorized in_flight succeeded failed_before_effect outcome_unknown : ExecutionState

pub record ModelJudgment : Type 0 where
  pub judgment_id : String
  pub judgment_version : String
  pub question_semantics : String
  pub subjects : List String
  pub answer : Value
  pub input_fingerprint : String
  pub requested_model : String
  pub returned_model : Option String
  pub candidate_snapshot_digest : Option String
  pub presented_candidate_keys : List String

-- The fields that each subclass adds.
pub data Body : Type 0 where
  observation : Body
  derivation : (transformation_id transformation_version : String) → Body
  judgment : ModelJudgment → Body
  acceptance : (judgment_ref policy_id policy_version : String) → Body
  execution : (operation_id : String) → ExecutionState → Body

pub record Evidence : Type 0 where
  pub id : String
  pub value : Value
  pub source_id : String
  pub scope : String
  pub observed_at : ℕ
  pub source_version : Option String
  pub expires_at : Option ℕ
  pub dependencies : List String
  pub supersedes : List String
  pub conflicts_with : List String
  pub body : Body

abbrev pub is_succeeded : ExecutionState → Bool
is_succeeded succeeded = true
is_succeeded _ = false

abbrev pub body_completed : Body → Bool
body_completed (execution operation_id state) = is_succeeded state
body_completed _ = false

-- `isinstance(record, ExecutionReference) and record.completed`
abbrev pub is_completed : Evidence → Bool
is_completed record_ = body_completed record_.body

-- `record.expires_at is not None and now >= record.expires_at`
abbrev expired_at : Option ℕ → ℕ → Bool
expired_at none now = false
expired_at (some t) now = not (ltb now t)

abbrev pub is_expired : Evidence → ℕ → Bool
is_expired r now = expired_at r.expires_at now

-- `_name` and `_names`
abbrev check_name : String → Result (Unit {0})
check_name value = guard (not (value == "")) state_error

abbrev check_names : List String → Result (Unit {0})
check_names values = guard (unique values && all (λ v. not (v == "")) values) state_error

abbrev precedes : Option ℕ → ℕ → Bool
precedes none observed_at = false
precedes (some t) observed_at = ltb t observed_at

abbrev check_optional_name : Option String → Result (Unit {0})
check_optional_name none = ok tt
check_optional_name (some value) = check_name value

-- `EvidenceRecord.__post_init__`
abbrev check_record : Evidence → Result (Unit {0})
check_record r = do
  check_name r.id
  check_name r.source_id
  check_name r.scope
  guard (not (precedes r.expires_at r.observed_at)) state_error
  check_names r.dependencies
  check_names r.supersedes
  check_names r.conflicts_with
  guard (not (has r.id r.dependencies || has r.id r.supersedes || has r.id r.conflicts_with))
      state_error

abbrev is_nonempty : List String → Bool
is_nonempty [] = false
is_nonempty (_ ∷ _) = true

-- what the `__post_init__` of each subclass checks beside that of the base
abbrev check_body : Body → List String → Result (Unit {0})
check_body observation dependencies = ok tt
check_body (derivation transformation_id transformation_version) dependencies = do
  check_name transformation_id
  check_name transformation_version
  guard (is_nonempty dependencies) state_error
check_body (judgment j) dependencies = do
  check_name j.judgment_id
  check_name j.judgment_version
  check_name j.question_semantics
  check_name j.input_fingerprint
  check_name j.requested_model
  check_names j.subjects
  check_names j.presented_candidate_keys
  check_optional_name j.returned_model
check_body (acceptance judgment_ref policy_id policy_version) dependencies = do
  check_name judgment_ref
  check_name policy_id
  check_name policy_version
  guard (has judgment_ref dependencies) state_error
check_body (execution operation_id state) dependencies = check_name operation_id

-- The construction of a record: what the constructor accepts, unchanged.
unfoldable pub evidence : Evidence → Result Evidence
evidence r = do check_record r; check_body r.body r.dependencies; ok r
