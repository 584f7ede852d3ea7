-- ===== src/Runtime/Guarded.antt =====
-- runtime.py: no tool is dispatched without all that its execution requires.
use jev_frame.Prelude.{
  ℕ, suc, ◌<◌, String, true, refl, sym, ◌≡◌, subst, ap, ◌∙◌, Option, none, some, List, [], ◌∷◌,
  string_eq,
}
use jev_frame.Prelude.Dict.{Dict}
use jev_frame.Prelude.Set.{has}
use jev_frame.Errors.{ok}
use jev_frame.State.Value.{Value}
use jev_frame.Policy.{ActionProposal, AuthorizationRecord, Policy, Verdict}
use jev_frame.Definitions.Tools.{Tool}
use jev_frame.Runtime.Host.{Context, Run, Host, Shared, Call, authorizing, Reply, answered}
use jev_frame.Runtime.Trace.{
  first, Grows-trans, Reading-Quiet, same-Grows, after-ok, Quiet-ends, dispatches, Occurs, Grows,
  Grows-Occurs, Grows-dispatches, Quiet-bind,
}
use jev_frame.Runtime.Approval.{Checks, IsAction, Authorized, Ready, Guarded, empty}
use jev_frame.Runtime.Facts.{propose-IsAction, checkpoint-Checks, authorize-calls}
use jev_frame.Runtime.Current.{current-Approved}
use jev_frame.Runtime.Prepared.{Prepared, prepare-Prepared}
use jev_frame.Runtime.Quiet.{
  still, authorize-Quiet, persist_write-Quiet, obtain-Quiet, prepare-Quiet, after_call-Quiet,
  finish-Quiet, wait-Quiet, admitted-Quiet, named_operation-Quiet,
}
use jev_frame.Runtime.Mutation.{
  written, current_action, authorize, persist_write, require_acceptances,
}
use jev_frame.Runtime.Reading.{current_action-Reading, require_acceptances-Reading}
use jev_frame.State.Evidence.{authorized}
use jev_frame.Runtime.Mutation.Dispatch.{launch, operate, obtain, execute_mutation}
use jev_frame.Runtime.Guarding.{
  Guarded-bind, Guarded-then, Guarded-except, Guarded-finally, call_tool-Guarded, by_option,
}

Checks-Grows :
    (o : Option (Policy × (List Call → ActionProposal → Verdict))) (p : ActionProposal) (w w' : Run)
    → Grows w w'
    → Checks o p w.calls
    → Checks o p w'.calls
Checks-Grows none p w w' g h = tt
Checks-Grows (some _) p w w' g (c, o, accepted) = (c, Grows-Occurs w w' g o, accepted)

module _ (host : Host) (tool : Tool) (context : Context) (p : ActionProposal)
    (a : AuthorizationRecord) where
  -- what is known since the authorization
  pub record Approved (cs : List Call) : Type 0 where
    fresh : dispatches cs ≡ 0
    was_action : IsAction host tool context p
    checked : Checks host.required_checkpoint p cs
    authorized : Authorized host tool context p a cs

  Approved-Grows : (w w' : Run) → Grows w w' → Approved w.calls → Approved w'.calls
  Approved-Grows w w' g h = record {
    fresh = Grows-dispatches w w' g ∙ h.fresh;
    was_action = h.was_action;
    checked = Checks-Grows host.required_checkpoint p w w' g h.checked;
    authorized = let (q, same, o) = h.authorized in (q, same, Grows-Occurs w w' g o);
  }

  Prepared-Ready :
      (operation_id : String) (arguments : Dict String Value) (w : Run)
      → p.operation_id ≡ operation_id
      → Approved w.calls
      → Prepared host tool context operation_id p a arguments w
      → (reads : ℕ) → reads ≡ suc w.reads
      → host.clock w.reads < context.deadline
      → Ready host tool context w.calls w.shared reads arguments
  Prepared-Ready operation_id arguments w named approved q reads counted early = record {
    proposal = p;
    authorization = a;
    current = q.current;
    fresh = approved.fresh;
    same_arguments = q.same_arguments;
    same_digest = q.same_digest;
    resolved = q.resolved;
    is_action = q.is_action;
    was_action = approved.was_action;
    same_operation = q.named ∙ sym named;
    permitted = let (n, before, allowed) = q.permitted in (n, counted ∙ ap suc before, allowed);
    in_time = (w.reads, counted, early);
    checked = approved.checked;
    authorized = approved.authorized;
    announced = q.announced;
    accepted = q.accepted;
    admitted = subst (λ i. has i w.shared.ledger.writes ≡ true) (sym named) q.admitted;
  }

  launch-Guarded :
      (operation_id : String) (dependencies : List String) (arguments : Dict String Value) (w : Run)
      → ((reads : ℕ)
          → reads ≡ suc w.reads
          → host.clock w.reads < context.deadline
          → Ready host tool context w.calls w.shared reads arguments)
      → Guarded host tool context w.calls
      → Guarded host tool context
          (launch host tool context operation_id p a dependencies arguments w).1.calls
  unfolding launch
  launch-Guarded operation_id dependencies arguments w now_ready g =
      Guarded-except host tool context _ _ w (after_call-Quiet host tool context p a dependencies) (
        Guarded-then host tool context _ _ w (λ r. still)
          (call_tool-Guarded host tool context operation_id arguments w now_ready g))

  operate-Guarded :
      (operation_id : String) (dependencies : List String) (w : Run)
      → p.operation_id ≡ operation_id
      → Approved w.calls
      → Guarded host tool context w.calls
      → Guarded host tool context
          (operate host tool context operation_id p a dependencies w).1.calls
  unfolding operate
  operate-Guarded operation_id dependencies w named approved g =
      Guarded-bind host tool context _ _ w (wait-Quiet host tool context) g (λ _ w1 e1 s1 g1.
        Guarded-bind host tool context _ _ w1 (admitted-Quiet host tool context _ _) g1
          (λ _ w2 e2 s2 g2.
            Guarded-then host tool context _ _ w2 (finish-Quiet host tool context p a dependencies)
              (Guarded-finally host tool context _ _ w2
                (Quiet-bind _ _ (wait-Quiet host tool context) (λ _ v. same-Grows v _ refl))
                (Guarded-bind host tool context _ _ w2
                  (prepare-Quiet host tool context operation_id p a dependencies) g2
                  (λ arguments w3 e3 s3 g3.
                    launch-Guarded operation_id dependencies arguments w3
                      (Prepared-Ready operation_id arguments w3 named
                        (Approved-Grows w2 w3 s3
                          (Approved-Grows w1 w2 s2 (Approved-Grows w w1 s1 approved)))
                        (prepare-Prepared host tool context operation_id p a dependencies arguments
                          w2 w3 e3))
                      g3)))))

module _ (host : Host) (tool : Tool) (context : Context) where
  pub obtain-Approved :
      (operation_id : String) (arguments : Dict String Value) (dependencies : List String)
      (f : List Call → ActionProposal → Reply (Option AuthorizationRecord)) (p : ActionProposal)
      (a : AuthorizationRecord) (w w' : Run)
      → dispatches w.calls ≡ 0
      → obtain host tool context operation_id arguments dependencies f w ≡ (ok (p, a), w')
      → (p.operation_id ≡ operation_id) × Approved host tool context p a w'.calls
  unfolding obtain
  obtain-Approved operation_id arguments dependencies f p a w w' fresh h =
      let b : ActionProposal × AuthorizationRecord = (p, a) in
      after-ok _ _ w b (ap (λ t. t.0) h) (λ sources w1 e1 h1 s1.
        after-ok _ _ w1 b h1 (λ p' w2 e2 h2 s2. after-ok _ _ w2 b h2 (λ r w3 e3 h3 s3.
          after-ok _ _ w3 b h3 (λ _ w4 e4 h4 s4. after-ok _ _ w4 b h4 (λ _ w5 e5 h5 s5.
            after-ok _ _ w5 b h5 (λ b' w6 e6 h6 s6. after-ok _ _ w6 b h6 (λ r' w7 e7 h7 s7.
              after-ok _ _ w7 b h7 (λ _ w8 e8 h8 s8. after-ok _ _ w8 b h8 (λ q w9 e9 h9 s9.
                after-ok _ _ w9 b h9 (λ a' w10 e10 h10 s10.
                  let last = sym (s1 ∙ s2 ∙ s3 ∙ s4 ∙ s5 ∙ s6 ∙ s7 ∙ s8 ∙ s9 ∙ s10) ∙ h in
                  let ends : w10 ≡ w' = ap (λ t. t.1) last in
                  let same_p : p' ≡ p = cc h10 in
                  let same_a : a' ≡ a = cc h10 in
                  let (action, _, named) =
                    propose-IsAction host tool context operation_id arguments sources p' w1
                      (ap (λ t. t.0) e2) in
                  let g6 =
                    Quiet-ends (authorize host tool context f p') w5 w6 _
                      (authorize-Quiet host tool context f p') e6 in
                  let g7 = Quiet-ends (written p' authorized (some b') none) w6 w7 _ still e7 in
                  let g8 =
                    Quiet-ends (persist_write host tool context r') w7 w8 _
                      (persist_write-Quiet host tool context r') e8 in
                  let g9 =
                    Quiet-ends (current_action host tool context operation_id p' b') w8 w9 _
                      (Reading-Quiet (current_action host tool context operation_id p' b')
                        (current_action-Reading host tool context operation_id p' b'))
                      e9 in
                  let g10 =
                    Quiet-ends (authorize host tool context f q.1) w9 w10 _
                      (authorize-Quiet host tool context f q.1) e10 in
                  let grown =
                    Grows-trans w5 w8 w10 (Grows-trans w5 w7 w8 (Grows-trans w5 w6 w7 g6 g7) g8)
                      (Grows-trans w8 w9 w10 g9 g10) in
                  let asked : w10.calls ≡ authorizing q.1 (answered (some a')) ∷ w9.calls =
                    ap (λ t. t.1.calls) (sym e10)
                    ∙ (authorize-calls host tool context f q.1 a' w9 (ap (λ t. t.0) e10)).0 in
                  let approved : Approved host tool context p' a' w10.calls = record {
                    fresh =
                        ap dispatches (ap (λ v. v.calls) ends)
                        ∙ (Grows-dispatches w w' (
                              Quiet-ends
                                (obtain host tool context operation_id arguments dependencies f) w
                                w' _
                                (obtain-Quiet host tool context operation_id arguments dependencies
                                  f)
                                h)
                            ∙ fresh);
                    was_action = action;
                    checked = Checks-Grows host.required_checkpoint p' w5 w10 grown (
                        subst (λ v. Checks host.required_checkpoint p' v.calls) (ap (λ t. t.1) e5)
                          (checkpoint-Checks host tool context p' w4 (ap (λ t. t.0) e5)));
                    authorized = (
                      q.1,
                      (current-Approved host tool context operation_id p' b' q.0 q.1 w8 w9 e9).0,
                      subst (Occurs (authorizing q.1 (answered (some a')))) (sym asked)
                          (first w9.calls),
                    );
                  } in
                  (
                    ap (λ v. v.operation_id) (sym same_p) ∙ named,
                    subst (λ v. Approved host tool context p a v.calls) ends
                        (subst (λ x. Approved host tool context p x w10.calls) same_a
                          (subst (λ x. Approved host tool context x a' w10.calls) same_p approved)),
                  )))))))))))

  -- Whenever a mutating tool is dispatched, for any host, clock and interleaving of other tasks:
  -- nothing was dispatched before in this execution; the arguments are what the tool's bindings give, at
  -- readings of the clock, in the state that the run then shares; the action that they make for this tool, scope and operation
  -- has as its canonical digest that of the action which was proposed, which the required checkpoint
  -- accepted, which the authorizer permitted when asked about it, and whose in-flight intent the intent
  -- store has just kept; the permission held at the last clock reading but one before the call, and the
  -- deadline had not passed at the last; the acceptances that the arguments need are current in the
  -- evidence store at a reading of the clock; and the ledger has admitted the write.
  pub execute_mutation-Guarded :
      (arguments : Dict String Value) (dependencies : List String) (s : Shared) (reads : ℕ)
      → Guarded host tool context
          (execute_mutation host tool context arguments dependencies
            (record { shared = s; reads = reads; calls = [] })).1.calls
  unfolding execute_mutation
  execute_mutation-Guarded arguments dependencies s reads =
      let w : Run = record { shared = s; reads = reads; calls = [] } in
      by_option host tool context host.authorizer _ _ w empty (λ f.
        Guarded-bind host tool context _ _ w
          (Reading-Quiet (require_acceptances host tool context tool.bindings)
            (require_acceptances-Reading host tool context tool.bindings))
          empty
          (λ _ w1 e1 s1 g1.
            Guarded-bind host tool context _ _ w1
              (named_operation-Quiet host tool context arguments dependencies) g1
              (λ operation_id w2 e2 s2 g2.
                Guarded-bind host tool context _ _ w2
                  (obtain-Quiet host tool context operation_id arguments dependencies f) g2
                  (λ q w3 e3 s3 g3.
                    let fresh = Grows-dispatches w w2 (Grows-trans w w1 w2 s1 s2) in
                    let (named, approved) =
                      obtain-Approved operation_id arguments dependencies f q.0 q.1 w2 w3 fresh
                        e3 in
                    operate-Guarded host tool context q.0 q.1 operation_id dependencies w3 named
                      approved g3))))
