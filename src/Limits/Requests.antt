-- ===== src/Limits/Requests.antt =====
-- Every call that the callers of one ledger can make, in whatever order the event loop runs them.
use jev_frame.Prelude.{ℕ, String, List, [], ◌∷◌}
use jev_frame.Prelude.Int.{ℤ}
use jev_frame.Definitions.{Tokens, Usage}
use jev_frame.Limits.{
  Ledger, Action, enter_operation, leave_operation, admit_provider_attempt, admit_child_run,
  admit_tool_attempt, admit_write, admit_investigation, admit_planner_call, admit_plan_revision,
}
use jev_frame.Limits.Accounting.{record_usage, record_estimate, reserve_usage, release_reservation}

pub data Request : Type 0 where
  enter : String → (deadline now : ℕ) → Request
  leave : String → Request
  provider_attempt child_run : String → ℤ → (deadline now : ℕ) → Request
  tool_attempt write investigation planner_call plan_revision :
      String → (deadline now : ℕ) → Request
  usage : String → Usage → Request
  estimate reservation : String → Tokens → Tokens → Request
  released : String → Request

unfoldable pub perform : Request → Action (Unit {0})
perform (enter i d n) = enter_operation i d n
perform (leave i) = leave_operation i
perform (provider_attempt i q d n) = admit_provider_attempt i q d n
perform (child_run i q d n) = admit_child_run i q d n
perform (tool_attempt i d n) = admit_tool_attempt i d n
perform (write i d n) = admit_write i d n
perform (investigation i d n) = admit_investigation i d n
perform (planner_call i d n) = admit_planner_call i d n
perform (plan_revision i d n) = admit_plan_revision i d n
perform (usage i u) = record_usage i u
perform (estimate i a b) = record_estimate i a b
perform (reservation i a b) = reserve_usage i a b
perform (released i) = release_reservation i

-- A request that raises leaves its caller, and the others go on with the ledger it left.
unfoldable pub serve : List Request → Ledger → Ledger
serve [] l = l
serve (r ∷ rs) l = serve rs (perform r l).1

pub serve_ind {ℓ} :
    (P : Ledger → Type ℓ)
    → ((r : Request) (l : Ledger) → P l → P (perform r l).1)
    → (rs : List Request) (l : Ledger) → P l
    → P (serve rs l)
unfolding serve
serve_ind P keep [] l h = h
serve_ind P keep (r ∷ rs) l h = serve_ind P keep rs (perform r l).1 (keep r l h)
