-- ===== src/Limits/Atomic.antt =====
-- limits.py: a call of the ledger that raises has changed nothing, and an expired one always raises.
use jev_frame.Prelude.{ℕ, ◌≤◌, String, ◌≡◌, ◌≢◌, Option, none, some, inl, inr, arith, string_eq}
use jev_frame.Prelude.Int.{ℤ}
use jev_frame.Errors.{Error, ok, raise, Result-cases}
use jev_frame.Limits.{
  Ledger, enter_operation, leave_operation, admit_provider_attempt, admit_child_run,
  admit_tool_attempt, admit_write, admit_investigation, admit_planner_call, admit_plan_revision,
}
use jev_frame.Limits.Accounting.{record_usage, record_estimate, reserve_usage, release_reservation}
use jev_frame.Limits.Requests.{Request, perform}

provider_attempt_atomic :
    (i : String) (q : ℤ) (d n : ℕ) (l : Ledger) (e : Error)
    → (admit_provider_attempt i q d n l).0 ≡ raise e
    → (admit_provider_attempt i q d n l).1 ≡ l
unfolding admit_provider_attempt
provider_attempt_atomic i q d n l e h = ground arith

child_run_atomic :
    (i : String) (q : ℤ) (d n : ℕ) (l : Ledger) (e : Error)
    → (admit_child_run i q d n l).0 ≡ raise e
    → (admit_child_run i q d n l).1 ≡ l
unfolding admit_child_run
child_run_atomic i q d n l e h = ground arith

-- A call of the ledger that raises leaves the ledger as it was.
pub perform_atomic :
    (q : Request) (l : Ledger) (e : Error) → (perform q l).0 ≡ raise e → (perform q l).1 ≡ l
unfolding perform enter_operation leave_operation admit_tool_attempt admit_write admit_investigation
    admit_planner_call admit_plan_revision record_usage record_estimate reserve_usage
    release_reservation
perform_atomic (Request.provider_attempt i q d n) l e h = provider_attempt_atomic i q d n l e h
perform_atomic (Request.child_run i q d n) l e h = child_run_atomic i q d n l e h
perform_atomic _ l e h = ground arith

-- The deadline and the clock value of the requests that carry one.
abbrev pub due : Request → Option (ℕ × ℕ)
due (Request.enter i d n) = some (d, n)
due (Request.provider_attempt i q d n) = some (d, n)
due (Request.child_run i q d n) = some (d, n)
due (Request.tool_attempt i d n) = some (d, n)
due (Request.write i d n) = some (d, n)
due (Request.investigation i d n) = some (d, n)
due (Request.planner_call i d n) = some (d, n)
due (Request.plan_revision i d n) = some (d, n)
due _ = none

expired-perform :
    (q : Request) (l : Ledger) (d n : ℕ) → due q ≡ some (d, n) → d ≤ n → (perform q l).0 ≢ ok tt
unfolding perform enter_operation admit_provider_attempt admit_child_run admit_tool_attempt
    admit_write admit_investigation admit_planner_call admit_plan_revision
expired-perform (Request.leave i) l d n h k e = cc
expired-perform (Request.usage i u) l d n h k e = cc
expired-perform (Request.estimate i a b) l d n h k e = cc
expired-perform (Request.reservation i a b) l d n h k e = cc
expired-perform (Request.released i) l d n h k e = cc
expired-perform _ l d n h k e = ground arith

-- A request whose deadline has passed is refused whatever else holds, and changes nothing.
pub perform_expired :
    (q : Request) (l : Ledger) (d n : ℕ)
    → due q ≡ some (d, n)
    → d ≤ n
    → ((perform q l).0 ≢ ok tt) × ((perform q l).1 ≡ l)
perform_expired q l d n h k =
    let refused = expired-perform q l d n h k in
    (
      refused,
      elim (Result-cases (perform q l).0) [
        | inl (tt, e) ↦ absurd (refused e)
        | inr (e, raised) ↦ perform_atomic q l e raised
      ],
    )
