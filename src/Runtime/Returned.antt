-- ===== src/Runtime/Returned.antt =====
-- runtime.py: a mutation that returns has succeeded.
use jev_frame.Prelude.{ℕ, String, ◌≡◌, arith, sym, ap, ◌∙◌, subst, Option, none, some, List, []}
use jev_frame.Prelude.Dict.{Dict}
use jev_frame.Errors.{Error, ok}
use jev_frame.State.Value.{Value}
use jev_frame.Policy.{ActionProposal, AuthorizationRecord}
use jev_frame.Policy.Records.{ExecutionReceipt}
use jev_frame.Definitions.Tools.{Tool}
use jev_frame.Runtime.Host.{Context, Run, Shared, Host}
use jev_frame.Runtime.Steps.{Task, ◌>>=◌, finally}
use jev_frame.Runtime.Trace.{
  dispatches, Grows-dispatches, Reading-Quiet, Quiet-ends, after-ok, except-ok, Fails, Fails-bind,
  Fails-choose,
}
use jev_frame.Exec.{fail, lift}
use jev_frame.Runtime.Arguments.{require_all}
use jev_frame.Runtime.Reading.{require_acceptances-Reading}
use jev_frame.Runtime.Guarded.{obtain-Approved}
use jev_frame.Runtime.Receipts.{IsSuccess, Succeeds, launch-attempts, finish-Succeeds}
use jev_frame.Runtime.Mutation.{operation_id_of, require_acceptances}
use jev_frame.Runtime.Mutation.Dispatch.{
  is_policy_error, named_operation, operate, execute_mutation,
}

fail-Fails : (e : Error) → Fails {A = String} (fail e)
fail-Fails e w a h = absurd cc

finally-ok :
    {A : Type 0} (m : Task A) (k : Task (Unit {0})) (w : Run) (a : A)
    → (finally m k w).0 ≡ ok a
    → (m w).0 ≡ ok a
unfolding finally
finally-ok m k w a h = after-ok _ _ (m w).1 a h (λ _ v e h' _. h')

by_option :
    {A B P : Type 0} (o : Option B) (m : Task A) (f : B → Task A) (w : Run) (a : A)
    → ((m w).0 ≡ ok a → P)
    → ((b : B) → (f b w).0 ≡ ok a → P)
    → (elim o as (λ _. Task A) [ none ↦ m | some b ↦ f b ] w).0 ≡ ok a
    → P
by_option none m f w a km kf h = km h
by_option (some b) m f w a km kf h = kf b h

module _ (host : Host) (tool : Tool) (context : Context) where
  operate-Succeeds :
      (p : ActionProposal) (a : AuthorizationRecord) (dependencies : List String)
      → Succeeds p.operation_id (operate host tool context p.operation_id p a dependencies)
  unfolding operate
  operate-Succeeds p a dependencies w r h = after-ok _ _ w r h (λ _ w1 e1 h1 _.
      after-ok _ _ w1 r h1 (λ _ w2 e2 h2 _. after-ok _ _ w2 r h2 (λ t w3 e3 h3 _.
        let body = finally-ok _ _ w2 t (ap (λ x. x.0) e3) in
        finish-Succeeds host tool context p a dependencies t
          (after-ok _ _ w2 t body (λ arguments w4 e4 h4 _.
            launch-attempts host tool context p a dependencies arguments w4 t h4))
          w3 r h3)))

  named_operation-ok :
      (arguments : Dict String Value) (dependencies : List String) (i : String) (w w' : Run)
      → named_operation host tool context arguments dependencies w ≡ (ok i, w')
      → lift (operation_id_of context tool arguments) w ≡ (ok i, w')
  unfolding named_operation
  named_operation-ok arguments dependencies i w w' h =
      except-ok (lift (operation_id_of context tool arguments)) _ w w' i
        (λ e.
          Fails-choose (is_policy_error e) (require_all host context dependencies >>= λ _. fail e)
            (fail e) (Fails-bind (require_all host context dependencies) _ (λ _. fail-Fails e))
            (fail-Fails e))
        h

  -- A mutation returns only a receipt of success for its own operation, whether the tool or its
  -- reconciliation has given it: in every other case it raises.
  pub execute_mutation-IsSuccess :
      (arguments : Dict String Value) (dependencies : List String) (s : Shared) (reads : ℕ)
      (r : ExecutionReceipt)
      → (execute_mutation host tool context arguments dependencies
          (record { shared = s; reads = reads; calls = [] })).0
        ≡ ok r
      → (operation_id : String) × (operation_id_of context tool arguments ≡ ok operation_id)
        × IsSuccess operation_id r
  unfolding execute_mutation
  execute_mutation-IsSuccess arguments dependencies s reads r h =
      let w : Run = record { shared = s; reads = reads; calls = [] } in
      by_option host.authorizer _ _ w r (λ never. absurd (ground arith))
        (λ f h'. after-ok _ _ w r h' (λ _ w1 e1 h1 _. after-ok _ _ w1 r h1 (λ i w2 e2 h2 _.
          after-ok _ _ w2 r h2 (λ q w3 e3 h3 _.
            let quiet =
              Reading-Quiet (require_acceptances host tool context tool.bindings)
                (require_acceptances-Reading host tool context tool.bindings) in
            let found = named_operation-ok arguments dependencies i w1 w2 e2 in
            let fresh : dispatches w2.calls ≡ 0 =
              ap (λ x. dispatches x.1.calls) (sym found)
              ∙ Grows-dispatches w w1 (
                  Quiet-ends (require_acceptances host tool context tool.bindings) w w1 _ quiet
                    e1) in
            let named =
              (obtain-Approved host tool context i arguments dependencies f q.0 q.1 w2 w3 fresh
                e3).0 in
            let success = operate-Succeeds q.0 q.1 dependencies w3 r (
              subst (λ x. (operate host tool context x q.0 q.1 dependencies w3).0 ≡ ok r)
                (sym named) h3) in
            (i, ap (λ x. x.0) found, subst (λ x. IsSuccess x r) named success)))))
        h
