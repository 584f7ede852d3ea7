-- ===== src/Limits/Identity.antt =====
-- limits.py: what a repeated identifier does.
use jev_frame.Prelude.{
  ℕ, suc, ◌+◌, ◌↔◌, length, nat_beq, if◌then◌else◌, ◌≤◌, ◌<◌, String, ◌≡◌, ◌≢◌, true, none, List,
  arith, string_eq, ==_refl, ==_iff,
}
use jev_frame.Prelude.Int.{pos}
use jev_frame.Prelude.Set.{has, has-add}
use jev_frame.Prelude.Dict.{values, lookup, lookup-insert}
use jev_frame.Errors.{ok, raise, admission_error}
use jev_frame.Limits.{
  Ledger, sum, enter_operation, leave_operation, admit_provider_attempt, admit_child_run,
  admit_tool_attempt, admit_write, admit_investigation, admit_planner_call, admit_plan_revision,
}
use jev_frame.Limits.Accounting.{record_usage, record_estimate, reserve_usage, release_reservation}
use jev_frame.Limits.Requests.{Request, perform, serve, serve_ind}

enter_operation_marks :
    (i : String) (d n : ℕ) (l : Ledger)
    → (enter_operation i d n l).0 ≡ ok tt
    → has i (enter_operation i d n l).1.operations ≡ true
unfolding enter_operation
enter_operation_marks i d n l h = ground (arith, has-add i i l.operations, ==_refl i)

perform_keeps_operations :
    (i : String) (q : Request) (l : Ledger)
    → has i l.operations ≡ true
    → has i (perform q l).1.operations ≡ true
unfolding perform enter_operation leave_operation admit_provider_attempt admit_child_run
    admit_tool_attempt admit_write admit_investigation admit_planner_call admit_plan_revision
    record_usage record_estimate reserve_usage release_reservation
perform_keeps_operations i (Request.enter j d n) l h = ground (arith, has-add i j l.operations)
perform_keeps_operations i _ l h = ground arith

-- Once an operation has been admitted, its identifier is refused as a duplicate for ever after, by
-- every entry whose deadline has not passed, whatever requests come between, its end among them.
pub enter_operation_once :
    (i : String) (d n d' n' : ℕ) (l : Ledger) (rs : List Request)
    → (enter_operation i d n l).0 ≡ ok tt
    → n' < d'
    → let l' = serve rs (enter_operation i d n l).1 in
      enter_operation i d' n' l' ≡ (raise admission_error, l')
unfolding enter_operation
enter_operation_once i d n d' n' l rs h live =
    let l' = serve rs (enter_operation i d n l).1 in
    let kept : has i l'.operations ≡ true =
      serve_ind (λ m. has i m.operations ≡ true) (perform_keeps_operations i) rs
        (enter_operation i d n l).1 (enter_operation_marks i d n l h) in
    ground arith

-- A new attempt with a name and at least one question, before its deadline, is admitted exactly while
-- both the number of attempts and the total of their questions have room.
pub admit_provider_attempt_exact :
    (i : String) (k d n : ℕ) (l : Ledger)
    → i ≢ ""
    → n < d
    → lookup i l.attempt_questions ≡ none
    → ((admit_provider_attempt i (pos (suc k)) d n l).0 ≡ ok tt)
      ↔ (length l.attempt_questions < l.limits.provider_attempts)
        × (sum (values l.attempt_questions) + suc k ≤ l.limits.submitted_questions)
unfolding admit_provider_attempt
admit_provider_attempt_exact i k d n l named live new = ground (arith, ==_iff i "")

-- To admit an attempt again, before the deadline of the new call and with a positive question count,
-- is to change nothing: it returns when the count is the one that was admitted, and raises
-- AdmissionError when it is another.
pub admit_provider_attempt_again :
    (i : String) (k k' d n d' n' : ℕ) (l : Ledger)
    → (admit_provider_attempt i (pos k) d n l).0 ≡ ok tt
    → n' < d'
    → 0 < k'
    → let l' = (admit_provider_attempt i (pos k) d n l).1 in
      admit_provider_attempt i (pos k') d' n' l'
      ≡ (if nat_beq k k' then ok tt else raise admission_error, l')
unfolding admit_provider_attempt
admit_provider_attempt_again i k k' d n d' n' l h live counted =
    ground (arith, ==_iff i "", ==_refl i, lookup-insert i i k l.attempt_questions)
