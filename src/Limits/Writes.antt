-- ===== src/Limits/Writes.antt =====
-- limits.py: a write that has been admitted stays admitted.
use jev_frame.Prelude.{ℕ, String, ◌≡◌, true, List, arith, string_eq, ==_refl}
use jev_frame.Prelude.Set.{has, has-add}
use jev_frame.Errors.{ok}
use jev_frame.Limits.{
  Ledger, enter_operation, leave_operation, admit_provider_attempt, admit_child_run,
  admit_tool_attempt, admit_write, admit_investigation, admit_planner_call, admit_plan_revision,
}
use jev_frame.Limits.Accounting.{record_usage, record_estimate, reserve_usage, release_reservation}
use jev_frame.Limits.Requests.{Request, perform, serve, serve_ind}

pub admit_write_marks :
    (i : String) (d n : ℕ) (l : Ledger)
    → (admit_write i d n l).0 ≡ ok tt
    → has i (admit_write i d n l).1.writes ≡ true
unfolding admit_write
admit_write_marks i d n l h = ground (arith, has-add i i l.writes, ==_refl i)

perform_keeps_writes :
    (i : String) (q : Request) (l : Ledger)
    → has i l.writes ≡ true
    → has i (perform q l).1.writes ≡ true
unfolding perform enter_operation leave_operation admit_provider_attempt admit_child_run
    admit_tool_attempt admit_write admit_investigation admit_planner_call admit_plan_revision
    record_usage record_estimate reserve_usage release_reservation
perform_keeps_writes i (Request.write j d n) l h = ground (arith, has-add i j l.writes)
perform_keeps_writes i _ l h = ground arith

pub serve_keeps_writes :
    (i : String) (rs : List Request) (l : Ledger)
    → has i l.writes ≡ true
    → has i (serve rs l).writes ≡ true
serve_keeps_writes i rs l h = serve_ind (λ m. has i m.writes ≡ true) (perform_keeps_writes i) rs l h
