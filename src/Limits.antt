-- ===== src/Limits.antt =====
-- limits.py: the ledger that admits work against the shared limits of a run. Each method checks the
-- deadline with a clock value of its own and then runs under the ledger's lock, which is one
-- atomic step here; `now` is the value that `clock()` returned. Only the order of clock values
-- matters to the code, so they are numbers.
pub mod Measurement
pub mod Accounting
pub mod Requests
pub mod Bounds
pub mod Atomic
pub mod Identity
pub mod Writes
pub mod Stable
mod Tests
use jev_frame.Prelude.{
  ℕ, suc, ◌+◌, String, Bool, true, false, not, ◌&&◌, Option, none, some, List, [], ◌∷◌, ltb, leb,
  nat_beq, ◌==◌, string_eq, length, if◌then◌else◌,
}
use jev_frame.Prelude.Int.{ℤ, positive?}
use jev_frame.Prelude.Set.{has, add, discard}
use jev_frame.Prelude.Dict.{Dict, lookup, insert, keys, values}
use jev_frame.Errors.{
  Error, value_error, admission_error, budget_exhausted_error, deadline_exceeded_error,
  child_run_limit_error,
}
use jev_frame.Errors.{Result, ok, raise}
use jev_frame.Exec.{Exec, pure, fail, gets, lift, modify, require, ◌>>=◌, ◌>>◌}
use jev_frame.Definitions.{RunLimits}
use Measurement.{MeasurementKey, UsageMeasurement}

pub record Ledger : Type 0 where
  pub limits : RunLimits
  pub attempt_questions : Dict String ℕ
  pub tool_attempts : List String
  pub investigations : List String
  pub writes : List String
  pub child_runs : Dict String ℕ
  pub planner_calls : List String
  pub plan_revisions : List String
  pub active : List String
  pub operations : List String
  pub measurements : Dict MeasurementKey UsageMeasurement

abbrev pub Action : Type 0 → Type 0
Action A = Exec Ledger A

-- `UsageLedger.__init__`
abbrev pub new_ledger : RunLimits → Ledger
new_ledger limits = record {
  limits = limits;
  attempt_questions = [];
  tool_attempts = [];
  investigations = [];
  writes = [];
  child_runs = [];
  planner_calls = [];
  plan_revisions = [];
  active = [];
  operations = [];
  measurements = [];
}

-- `_check_deadline`
abbrev pub check_deadline : ℕ → ℕ → Action (Unit {0})
check_deadline deadline now = require (ltb now deadline) deadline_exceeded_error

-- `operation`, up to the `yield`.
unfoldable pub enter_operation : String → ℕ → ℕ → Action (Unit {0})
enter_operation operation_id deadline now = do
  require (not (operation_id == "")) value_error
  check_deadline deadline now
  require (not (has operation_id (← gets (λ l. l.operations)))) admission_error
  l ← gets (λ l. l)
  require (ltb (length l.active) l.limits.concurrent_operations) budget_exhausted_error
  modify (λ l. record l {
    active = add operation_id l.active;
    operations = add operation_id l.operations;
  })

-- `operation`, the `finally` block.
unfoldable pub leave_operation : String → Action (Unit {0})
leave_operation operation_id = modify (λ l. record l { active = discard operation_id l.active })

-- Python's `sum`
abbrev pub sum : List ℕ → ℕ
sum [] = 0
sum (n ∷ ns) = n + sum ns

-- Python's `max(…, default=0)`
abbrev pub max_value : List ℕ → ℕ
max_value [] = 0
max_value (n ∷ ns) = let m = max_value ns in if ltb m n then n else m

-- Python's int arguments that the code requires to be at least 1.
abbrev pub at_least_one : ℤ → Result ℕ
at_least_one n = elim (positive? n) [ none ↦ raise value_error | some k ↦ ok k ]

admit_new_attempt : String → ℕ → Action (Unit {0})
admit_new_attempt attempt_id question_count = do
  l ← gets (λ l. l)
  require (ltb (length l.attempt_questions) l.limits.provider_attempts) budget_exhausted_error
  require (leb (sum (values l.attempt_questions) + question_count) l.limits.submitted_questions)
      budget_exhausted_error
  modify
      (λ l. record l { attempt_questions = insert attempt_id question_count l.attempt_questions })

pub admit_provider_attempt : String → ℤ → ℕ → ℕ → Action (Unit {0})
unfolding admit_new_attempt
admit_provider_attempt attempt_id question_count deadline now = do
  require (not (attempt_id == "")) value_error
  count ← lift (at_least_one question_count)
  check_deadline deadline now
  previous ← gets (λ l. lookup attempt_id l.attempt_questions)
  elim previous [
    | none ↦ admit_new_attempt attempt_id count
    | some asked ↦ require (nat_beq asked count) admission_error
  ]

admit_new_child : String → ℕ → Action (Unit {0})
admit_new_child run_id depth = do
  l ← gets (λ l. l)
  require (leb depth l.limits.child_depth) child_run_limit_error
  require (ltb (length l.child_runs) l.limits.child_runs) child_run_limit_error
  modify (λ l. record l { child_runs = insert run_id depth l.child_runs })

pub admit_child_run : String → ℤ → ℕ → ℕ → Action (Unit {0})
unfolding admit_new_child
admit_child_run run_id child_depth deadline now = do
  require (not (run_id == "")) value_error
  depth ← lift (at_least_one child_depth)
  check_deadline deadline now
  previous ← gets (λ l. lookup run_id l.child_runs)
  elim previous [
    | none ↦ admit_new_child run_id depth
    | some known ↦ require (nat_beq known depth) admission_error
  ]

-- A set of the ledger with its limit: Python passes the set itself, which is changed in place.
pub record NamedSet : Type 0 where
  pub members : Ledger → List String
  pub limit : RunLimits → ℕ
  pub put : List String → Ledger → Ledger

-- `_admit_named`. The source repeats this body in `admit_tool_attempt`, `admit_write` and
-- `admit_investigation`, on other sets and limits.
abbrev pub admit_named : NamedSet → String → ℕ → ℕ → Action (Unit {0})
admit_named set identifier deadline now = do
  require (not (identifier == "")) value_error
  check_deadline deadline now
  l ← gets (λ l. l)
  if has identifier (set.members l) then pure tt else do
    require (ltb (length (set.members l)) (set.limit l.limits)) budget_exhausted_error
    modify (set.put (add identifier (set.members l)))

unfoldable pub admit_tool_attempt : String → ℕ → ℕ → Action (Unit {0})
admit_tool_attempt = admit_named (record {
  members = λ l. l.tool_attempts;
  limit = λ r. r.tool_attempts;
  put = λ s l. record l { tool_attempts = s };
})

unfoldable pub admit_write : String → ℕ → ℕ → Action (Unit {0})
admit_write = admit_named (record {
  members = λ l. l.writes;
  limit = λ r. r.writes;
  put = λ s l. record l { writes = s };
})

pub admit_investigation : String → ℕ → ℕ → Action (Unit {0})
admit_investigation = admit_named (record {
  members = λ l. l.investigations;
  limit = λ r. r.investigation_steps;
  put = λ s l. record l { investigations = s };
})

pub admit_planner_call : String → ℕ → ℕ → Action (Unit {0})
admit_planner_call = admit_named (record {
  members = λ l. l.planner_calls;
  limit = λ r. r.planner_calls;
  put = λ s l. record l { planner_calls = s };
})

pub admit_plan_revision : String → ℕ → ℕ → Action (Unit {0})
admit_plan_revision = admit_named (record {
  members = λ l. l.plan_revisions;
  limit = λ r. r.plan_revisions;
  put = λ s l. record l { plan_revisions = s };
})
