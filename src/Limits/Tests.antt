-- ===== src/Limits/Tests.antt =====
-- The ledger of limits.py at concrete inputs.
use jev_frame.Prelude.{
  ◌+◌, ◌≤◌, ◌<◌, String, ◌≡◌, ◌≢◌, ◌↔◌, refl, none, some, List, [], ◌∷◌, arith, length, ==_iff,
  string_eq, false, true,
}
use jev_frame.Prelude.Int.{pos}
use jev_frame.Prelude.Dict.{lookup, values}
use jev_frame.Errors.{
  ok, raise, admission_error, budget_exhausted_error, child_run_limit_error,
  deadline_exceeded_error,
}
use jev_frame.Definitions.{RunLimits, unknown}
use jev_frame.Limits.{
  Ledger, new_ledger, sum, enter_operation, leave_operation, admit_provider_attempt,
  admit_child_run,
}
use jev_frame.Limits.Measurement.{UsageMeasurement, released, key_eq}
use jev_frame.Limits.Accounting.{snapshot, reserve_usage, release_reservation}
use jev_frame.Limits.Requests.{Request, perform, serve}
use jev_frame.Limits.Atomic.{perform_atomic, perform_expired}
use jev_frame.Limits.Bounds.{WithinLimits, serve-WithinLimits}
use jev_frame.Limits.Identity.{
  enter_operation_once, admit_provider_attempt_exact, admit_provider_attempt_again,
}
use jev_frame.Limits.Stable.{serve_keeps_measurements}

abbrev limits : RunLimits
limits = record {
  provider_attempts = 2;
  submitted_questions = 5;
  tool_attempts = 1;
  investigation_steps = 1;
  concurrent_operations = 1;
  writes = 1;
  planner_calls = 1;
  plan_revisions = 1;
  child_depth = 2;
  child_runs = 1;
}

abbrev script : List Request
script =
    Request.enter "op" 10 1
    ∷ Request.enter "other" 10 1
    ∷ Request.provider_attempt "a" (pos 3) 10 2
    ∷ Request.provider_attempt "a" (pos 3) 10 3
    ∷ Request.provider_attempt "b" (pos 3) 10 4
    ∷ Request.child_run "c" (pos 3) 10 5
    ∷ Request.leave "op"
    ∷ Request.reservation "op" (some (pos 7)) none
    ∷ Request.released "op"
    ∷ []

abbrev served : Ledger
served = serve script (new_ledger limits)

program : Unit {0}
unfolding perform serve snapshot enter_operation leave_operation admit_provider_attempt
    admit_child_run reserve_usage release_reservation
program = tt

counted :
    let s = snapshot served in
    (s.provider_attempts ≡ 1)
    × (s.submitted_questions ≡ 3)
    × (s.child_runs ≡ 0)
    × (s.active_operations ≡ 0)
unfolding program
counted = (refl, refl, refl, refl)

refused :
    ((perform (Request.provider_attempt "b" (pos 3) 10 4) served).0 ≡ raise budget_exhausted_error)
    × ((perform (Request.child_run "c" (pos 3) 10 5) served).0 ≡ raise child_run_limit_error)
    × ((perform (Request.enter "op" 10 1) served).0 ≡ raise admission_error)
    × ((perform (Request.enter "new" 10 10) served).0 ≡ raise deadline_exceeded_error)
unfolding program
refused = (refl, refl, refl, refl)

serve-WithinLimits_example : WithinLimits limits (snapshot (serve script (new_ledger limits)))
serve-WithinLimits_example = serve-WithinLimits limits script

perform_atomic_example : (perform (Request.child_run "c" (pos 3) 10 5) served).1 ≡ served
perform_atomic_example =
    perform_atomic (Request.child_run "c" (pos 3) 10 5) served child_run_limit_error refused.1

perform_expired_example :
    ((perform (Request.enter "new" 10 10) served).0 ≢ ok tt)
    × ((perform (Request.enter "new" 10 10) served).1 ≡ served)
perform_expired_example =
    perform_expired (Request.enter "new" 10 10) served 10 10 refl (omega arith)

entered : (enter_operation "op" 10 1 (new_ledger limits)).0 ≡ ok tt
unfolding program
entered = refl

enter_operation_once_example :
    let l = serve script (enter_operation "op" 10 1 (new_ledger limits)).1 in
    enter_operation "op" 20 6 l ≡ (raise admission_error, l)
enter_operation_once_example =
    enter_operation_once "op" 10 1 20 6 (new_ledger limits) script entered (omega arith)

attempt_name : ◌≢◌ {A = String} "a" ""
attempt_name e = let named : false ≡ true = (==_iff {A = String} ⦃e = string_eq⦄ "a" "").1 e in cc

admit_provider_attempt_exact_example :
    ((admit_provider_attempt "a" (pos 3) 10 2 (new_ledger limits)).0 ≡ ok tt)
    ↔ (length (new_ledger limits).attempt_questions < limits.provider_attempts)
      × (sum (values (new_ledger limits).attempt_questions) + 3 ≤ limits.submitted_questions)
admit_provider_attempt_exact_example =
    admit_provider_attempt_exact "a" 2 10 2 (new_ledger limits) attempt_name (omega arith) refl

attempted : (admit_provider_attempt "a" (pos 3) 10 2 (new_ledger limits)).0 ≡ ok tt
unfolding program
attempted = refl

admit_provider_attempt_again_example :
    let l = (admit_provider_attempt "a" (pos 3) 10 2 (new_ledger limits)).1 in
    admit_provider_attempt "a" (pos 4) 10 3 l ≡ (raise admission_error, l)
admit_provider_attempt_again_example =
    admit_provider_attempt_again "a" 3 4 10 2 10 3 (new_ledger limits) attempted (omega arith)
      (omega arith)

abbrev op_released : UsageMeasurement
op_released = record {
  operation_id = "op";
  kind = released;
  input_tokens = some (pos 7);
  output_tokens = none;
  coverage = unknown;
}

recorded :
    lookup ("op", released) (serve script (new_ledger limits)).measurements ≡ some op_released
unfolding program
recorded = refl

serve_keeps_measurements_example :
    lookup
      ("op", released)
      (serve
        (Request.reservation "op" none none ∷ Request.released "op" ∷ [])
        (serve script (new_ledger limits))).measurements
    ≡ some op_released
serve_keeps_measurements_example =
    serve_keeps_measurements limits script
      (Request.reservation "op" none none ∷ Request.released "op" ∷ []) ("op", released) op_released
      recorded
