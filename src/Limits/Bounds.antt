-- ===== src/Limits/Bounds.antt =====
-- The invariant of the ledger of limits.py: what has been admitted never passes the shared limits.
use jev_frame.Prelude.{
  ℕ, ◌+◌, ◌≤◌, String, ◌≡◌, refl, inl, inr, Option-cases, List, [], ◌∷◌, ◌++◌, arith, string_eq,
  length, length-append,
}
use jev_frame.Prelude.Int.{ℤ, positive?}
use jev_frame.Prelude.Set.{length-discard-le}
use jev_frame.Prelude.Dict.{Dict, lookup, insert_new, values}
use jev_frame.Limits.{
  Ledger, new_ledger, sum, max_value, enter_operation, leave_operation, admit_provider_attempt,
  admit_child_run, admit_tool_attempt, admit_write, admit_investigation, admit_planner_call,
  admit_plan_revision,
}
use jev_frame.Definitions.{Usage, Tokens, RunLimits}
use jev_frame.Limits.Measurement.{UsageMeasurement}
use jev_frame.Limits.Accounting.{
  LedgerSnapshot, snapshot, record_measurement, record_usage, record_estimate, reserve_usage,
  release_reservation,
}
use jev_frame.Limits.Requests.{Request, perform, serve, serve_ind}

values-append : (d e : Dict String ℕ) → values (d ++ e) ≡ values d ++ values e
values-append [] e = refl
values-append ((k, v) ∷ d) e = ground (arith, values-append d e)

sum-append : (xs ys : List ℕ) → sum (xs ++ ys) ≡ sum xs + sum ys
sum-append [] ys = omega arith
sum-append (x ∷ xs) ys = omega (arith, sum-append xs ys)

max_value-append-le :
    (xs : List ℕ) (x b : ℕ) → max_value xs ≤ b → x ≤ b → max_value (xs ++ x ∷ []) ≤ b
max_value-append-le [] x b h k = ground arith
max_value-append-le (y ∷ ys) x b h k = ground (arith, max_value-append-le ys x b)

-- Nothing admitted passes its limit, each admitted child run keeps to the depth limit, and an
-- operation that is active has been admitted.
pub record IsWithin (r : RunLimits) (l : Ledger) : Type 0 where
  pub same : l.limits ≡ r
  pub attempts : length l.attempt_questions ≤ l.limits.provider_attempts
  pub questions : sum (values l.attempt_questions) ≤ l.limits.submitted_questions
  pub tools : length l.tool_attempts ≤ l.limits.tool_attempts
  pub investigations : length l.investigations ≤ l.limits.investigation_steps
  pub writes : length l.writes ≤ l.limits.writes
  pub children : length l.child_runs ≤ l.limits.child_runs
  pub depths : max_value (values l.child_runs) ≤ l.limits.child_depth
  pub planner_calls : length l.planner_calls ≤ l.limits.planner_calls
  pub plan_revisions : length l.plan_revisions ≤ l.limits.plan_revisions
  pub active : length l.active ≤ l.limits.concurrent_operations

module _ (r : RunLimits) where
  enter_operation-IsWithin :
      (i : String) (d n : ℕ) (l : Ledger) → IsWithin r l → IsWithin r (enter_operation i d n l).1
  unfolding enter_operation
  enter_operation-IsWithin i d n l h = ground (arith, length-append l.active (i ∷ []))

  leave_operation-IsWithin :
      (i : String) (l : Ledger) → IsWithin r l → IsWithin r (leave_operation i l).1
  unfolding leave_operation
  leave_operation-IsWithin i l h = ground (arith, length-discard-le i l.active)

  admit_provider_attempt-IsWithin :
      (i : String) (q : ℤ) (d n : ℕ) (l : Ledger)
      → IsWithin r l
      → IsWithin r (admit_provider_attempt i q d n l).1
  unfolding admit_provider_attempt
  admit_provider_attempt-IsWithin i q d n l h = elim (Option-cases (lookup i l.attempt_questions)) [
    | inr (asked, e) ↦ ground arith
    | inl e ↦ elim (Option-cases (positive? q)) [
      | inl e' ↦ ground arith
      | inr (count, e') ↦ ground (
        arith,
        insert_new i count l.attempt_questions,
        length-append l.attempt_questions ((i, count) ∷ []),
        values-append l.attempt_questions ((i, count) ∷ []),
        sum-append (values l.attempt_questions) (count ∷ []),
      )
    ]
  ]

  admit_child_run-IsWithin :
      (i : String) (q : ℤ) (d n : ℕ) (l : Ledger)
      → IsWithin r l
      → IsWithin r (admit_child_run i q d n l).1
  unfolding admit_child_run
  admit_child_run-IsWithin i q d n l h = elim (Option-cases (lookup i l.child_runs)) [
    | inr (known, e) ↦ ground arith
    | inl e ↦ elim (Option-cases (positive? q)) [
      | inl e' ↦ ground arith
      | inr (depth, e') ↦
          let item : Dict String ℕ = (i, depth) ∷ [] in
          ground (
            arith,
            insert_new i depth l.child_runs,
            length-append l.child_runs item,
            values-append l.child_runs item,
            max_value-append-le (values l.child_runs) depth l.limits.child_depth,
          )
    ]
  ]

  admit_tool_attempt-IsWithin :
      (i : String) (d n : ℕ) (l : Ledger) → IsWithin r l → IsWithin r (admit_tool_attempt i d n l).1
  unfolding admit_tool_attempt
  admit_tool_attempt-IsWithin i d n l h = ground (arith, length-append l.tool_attempts (i ∷ []))

  admit_write-IsWithin :
      (i : String) (d n : ℕ) (l : Ledger) → IsWithin r l → IsWithin r (admit_write i d n l).1
  unfolding admit_write
  admit_write-IsWithin i d n l h = ground (arith, length-append l.writes (i ∷ []))

  admit_investigation-IsWithin :
      (i : String) (d n : ℕ) (l : Ledger)
      → IsWithin r l
      → IsWithin r (admit_investigation i d n l).1
  unfolding admit_investigation
  admit_investigation-IsWithin i d n l h = ground (arith, length-append l.investigations (i ∷ []))

  admit_planner_call-IsWithin :
      (i : String) (d n : ℕ) (l : Ledger) → IsWithin r l → IsWithin r (admit_planner_call i d n l).1
  unfolding admit_planner_call
  admit_planner_call-IsWithin i d n l h = ground (arith, length-append l.planner_calls (i ∷ []))

  admit_plan_revision-IsWithin :
      (i : String) (d n : ℕ) (l : Ledger)
      → IsWithin r l
      → IsWithin r (admit_plan_revision i d n l).1
  unfolding admit_plan_revision
  admit_plan_revision-IsWithin i d n l h = ground (arith, length-append l.plan_revisions (i ∷ []))

  record_measurement-IsWithin :
      (m : UsageMeasurement) (l : Ledger) → IsWithin r l → IsWithin r (record_measurement m l).1
  unfolding record_measurement
  record_measurement-IsWithin m l h = ground arith

  record_usage-IsWithin :
      (i : String) (u : Usage) (l : Ledger) → IsWithin r l → IsWithin r (record_usage i u l).1
  unfolding record_usage
  record_usage-IsWithin i u l h = ground arith

  record_estimate-IsWithin :
      (i : String) (a b : Tokens) (l : Ledger)
      → IsWithin r l
      → IsWithin r (record_estimate i a b l).1
  unfolding record_estimate
  record_estimate-IsWithin i a b l h = ground arith

  reserve_usage-IsWithin :
      (i : String) (a b : Tokens) (l : Ledger) → IsWithin r l → IsWithin r (reserve_usage i a b l).1
  unfolding reserve_usage
  reserve_usage-IsWithin i a b l h = ground arith

  release_reservation-IsWithin :
      (i : String) (l : Ledger) → IsWithin r l → IsWithin r (release_reservation i l).1
  unfolding release_reservation
  release_reservation-IsWithin i l h = ground arith

  perform-IsWithin : (q : Request) (l : Ledger) → IsWithin r l → IsWithin r (perform q l).1
  unfolding perform
  perform-IsWithin (Request.enter i d n) = enter_operation-IsWithin i d n
  perform-IsWithin (Request.leave i) = leave_operation-IsWithin i
  perform-IsWithin (Request.provider_attempt i q d n) = admit_provider_attempt-IsWithin i q d n
  perform-IsWithin (Request.child_run i q d n) = admit_child_run-IsWithin i q d n
  perform-IsWithin (Request.tool_attempt i d n) = admit_tool_attempt-IsWithin i d n
  perform-IsWithin (Request.write i d n) = admit_write-IsWithin i d n
  perform-IsWithin (Request.investigation i d n) = admit_investigation-IsWithin i d n
  perform-IsWithin (Request.planner_call i d n) = admit_planner_call-IsWithin i d n
  perform-IsWithin (Request.plan_revision i d n) = admit_plan_revision-IsWithin i d n
  perform-IsWithin (Request.usage i u) = record_usage-IsWithin i u
  perform-IsWithin (Request.estimate i a b) = record_estimate-IsWithin i a b
  perform-IsWithin (Request.reservation i a b) = reserve_usage-IsWithin i a b
  perform-IsWithin (Request.released i) = release_reservation-IsWithin i

  new_ledger-IsWithin : IsWithin r (new_ledger r)
  new_ledger-IsWithin = ground arith

  serve-IsWithin : (rs : List Request) → IsWithin r (serve rs (new_ledger r))
  serve-IsWithin rs = serve_ind (IsWithin r) perform-IsWithin rs (new_ledger r) new_ledger-IsWithin

-- Each count of a snapshot keeps to its limit.
pub record WithinLimits (r : RunLimits) (s : LedgerSnapshot) : Type 0 where
  pub provider_attempts : s.provider_attempts ≤ r.provider_attempts
  pub submitted_questions : s.submitted_questions ≤ r.submitted_questions
  pub tool_attempts : s.tool_attempts ≤ r.tool_attempts
  pub investigation_steps : s.investigation_steps ≤ r.investigation_steps
  pub writes : s.writes ≤ r.writes
  pub child_runs : s.child_runs ≤ r.child_runs
  pub max_child_depth : s.max_child_depth ≤ r.child_depth
  pub planner_calls : s.planner_calls ≤ r.planner_calls
  pub plan_revisions : s.plan_revisions ≤ r.plan_revisions
  pub active_operations : s.active_operations ≤ r.concurrent_operations

-- Whatever requests the callers of a new ledger make, in whatever order and with whatever clock
-- values, each count of its snapshot keeps to its limit.
pub serve-WithinLimits :
    (r : RunLimits) (rs : List Request) → WithinLimits r (snapshot (serve rs (new_ledger r)))
unfolding snapshot
serve-WithinLimits r rs = ground (arith, serve-IsWithin r rs)
