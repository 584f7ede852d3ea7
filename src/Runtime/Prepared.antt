-- ===== src/Runtime/Prepared.antt =====
-- runtime.py: what holds when the tool of a mutation is about to be called.
use jev_frame.Prelude.{
  ℕ, suc, arith, String, true, Option-cases, inl, inr, sym, ◌≡◌, subst, ap, ◌∙◌, List, string_eq,
}
use jev_frame.Prelude.Dict.{Dict}
use jev_frame.Prelude.Set.{has}
use jev_frame.Errors.{ok}
use jev_frame.Limits.{admit_write}
use jev_frame.Limits.Writes.{admit_write_marks, serve_keeps_writes}
use jev_frame.State.Value.{Value}
use jev_frame.Policy.{ActionProposal, AuthorizationRecord, permits}
use jev_frame.Policy.Records.{WriteRecord, write_record}
use jev_frame.Definitions.Tools.{Tool}
use jev_frame.Runtime.Host.{Context, Run, Host}
use jev_frame.Runtime.Steps.{elapse, admitted, on_ledger}
use jev_frame.Runtime.Trace.{Same, Fails-bind, Fails-choose, after-ok, except-ok}
use jev_frame.Runtime.Reading.{current_action-Reading}
use jev_frame.Runtime.Approval.{Accepted, IsAction, Resolved, Announces, in_flight_record}
use jev_frame.Runtime.Facts.{persist-Announces}
use jev_frame.Runtime.Current.{current-Approved, current-Accepted, current-Resolved}
use jev_frame.Runtime.Mutation.{is_refusal, persist_write, current_action}
use jev_frame.Runtime.Mutation.Dispatch.{confirm, prepare}

write_record-kept : (r q : WriteRecord) → write_record r ≡ ok q → q ≡ r
unfolding write_record
write_record-kept r q h = ground arith

module _ (host : Host) (tool : Tool) (context : Context) where
  -- The part of `Ready` that the body before the call establishes.
  pub record Prepared (operation_id : String) (p : ActionProposal) (a : AuthorizationRecord)
      (arguments : Dict String Value) (w : Run) : Type 0 where
    pub current : ActionProposal
    pub same_digest : current.digest ≡ p.digest
    pub same_arguments : current.arguments ≡ arguments
    pub is_action : IsAction host tool context current
    pub named : current.operation_id ≡ operation_id
    pub resolved : Resolved host tool context w.calls w.shared arguments
    pub permitted : (n : ℕ) × (w.reads ≡ suc n) × (permits a current (host.clock n) ≡ true)
    pub announced : Announces host.intent_store tool (in_flight_record p a) w.calls
    pub accepted : Accepted host tool context w.shared tool.bindings
    pub admitted : has operation_id w.shared.ledger.writes ≡ true

  admitted-writes :
      (operation_id : String) (w w' : Run)
      → admitted host context operation_id (admit_write operation_id context.deadline) w
        ≡ (ok tt, w')
      → has operation_id w'.shared.ledger.writes ≡ true
  admitted-writes operation_id w w' h = after-ok _ _ w tt (ap (λ r. r.0) h) (λ _ w0 e0 h0 s0.
      after-ok _ _ w0 tt h0 (λ now w1 e1 h1 s1. after-ok _ _ w1 tt h1 (λ _ w2 e2 h2 s2.
        after-ok _ _ w2 tt h2 (λ _ w3 e3 h3 s3.
          let last : w' ≡ (on_ledger (admit_write operation_id context.deadline now) w3).1 =
            ap (λ r. r.1) (sym h ∙ s0 ∙ s1 ∙ s2 ∙ s3) in
          subst (λ v. has operation_id v.shared.ledger.writes ≡ true) (sym last)
            (admit_write_marks operation_id context.deadline now w3.shared.ledger (cc h3))))))

  elapse-writes :
      (operation_id : String) (w : Run)
      → has operation_id w.shared.ledger.writes ≡ true
      → has operation_id (elapse host w.calls w.shared).ledger.writes ≡ true
  unfolding elapse
  elapse-writes operation_id w h =
      serve_keeps_writes operation_id (host.others w.calls w.shared).requests w.shared.ledger h

  persist-writes :
      (operation_id : String) (r : WriteRecord) (w : Run)
      → has operation_id w.shared.ledger.writes ≡ true
      → has operation_id (persist_write host tool context r w).1.shared.ledger.writes ≡ true
  unfolding persist_write
  persist-writes operation_id r w h = elim (Option-cases host.intent_store) [
    | inl e ↦ ground arith
    | inr (f, e) ↦ ground (arith, elapse-writes operation_id w h)
  ]

  confirm-current :
      (operation_id : String) (p : ActionProposal) (a : AuthorizationRecord)
      (dependencies : List String) (arguments : Dict String Value) (w w' : Run)
      → confirm host tool context operation_id p a dependencies w ≡ (ok arguments, w')
      → (current : ActionProposal) × (current_action host tool context operation_id p a w
          ≡ (ok (arguments, current), w'))
  unfolding confirm
  confirm-current operation_id p a dependencies arguments w w' h =
      after-ok _ _ w arguments (ap (λ r. r.0) h) (λ q w1 e1 h1 s1.
        let ran =
          except-ok _ _ w w1 q
            (λ e.
              Fails-choose (is_refusal e) _ _
                (Fails-bind _ _
                  (λ f. Fails-bind _ _ (λ _. Fails-bind _ _ (λ _ v b never. ground arith))))
                (λ v b never. ground arith))
            e1 in
        let last = sym s1 ∙ h in
        let same : (q.0 ≡ arguments) × (w1 ≡ w') = (cc, ap (λ t. t.1) last) in
        (q.1, ran ∙ (ap (λ v. (ok q, v)) same.1 ∙ ap (λ x. (ok (x, q.1), w')) same.0)))

  pub prepare-Prepared :
      (operation_id : String) (p : ActionProposal) (a : AuthorizationRecord)
      (dependencies : List String) (arguments : Dict String Value) (w w' : Run)
      → prepare host tool context operation_id p a dependencies w ≡ (ok arguments, w')
      → Prepared operation_id p a arguments w'
  unfolding prepare
  prepare-Prepared operation_id p a dependencies arguments w w' h =
      after-ok _ _ w arguments (ap (λ r. r.0) h) (λ _ w1 e1 h1 s1.
        after-ok _ _ w1 arguments h1 (λ _ w2 e2 h2 s2.
          after-ok _ _ w2 arguments h2 (λ r w3 e3 h3 s3.
            after-ok _ _ w3 arguments h3 (λ _ w4 e4 h4 s4.
              let (current, ran) =
                confirm-current operation_id p a dependencies arguments w4 w'
                  (sym (s1 ∙ s2 ∙ s3 ∙ s4) ∙ h) in
              let approved =
                current-Approved host tool context operation_id p a arguments current w4 w' ran in
              let resolved_ =
                current-Resolved host tool context operation_id p a arguments current w4
                  (ap (λ r. r.0) ran) in
              let unmoved : Same w4 w' =
                subst (λ t. Same w4 t.1) ran
                  (current_action-Reading host tool context operation_id p a w4) in
              let written_ : r ≡ in_flight_record p a = write_record-kept _ r (ap (λ t. t.0) e3) in
              let kept : w3 ≡ w2 = cc e3 in
              let admitted_ =
                subst (λ v. has operation_id v.shared.ledger.writes ≡ true) (sym kept)
                  (admitted-writes operation_id w1 w2 e2) in
              record {
                current = current;
                same_digest = approved.0;
                same_arguments = approved.1;
                is_action = approved.2;
                named = approved.3;
                resolved =
                    subst (λ cs. Resolved host tool context cs w'.shared arguments)
                      (sym unmoved.calls)
                      (subst (λ s. Resolved host tool context w4.calls s arguments)
                        (sym unmoved.shared) resolved_);
                permitted = approved.4;
                announced =
                    subst (λ cs. Announces host.intent_store tool (in_flight_record p a) cs)
                      (ap (λ t. t.1.calls) e4 ∙ sym unmoved.calls)
                      (subst
                        (λ q.
                          Announces host.intent_store tool q
                            (persist_write host tool context r w3).1.calls)
                        written_ (persist-Announces host tool context r w3 (ap (λ t. t.0) e4)));
                accepted =
                    subst (λ s. Accepted host tool context s tool.bindings) (sym unmoved.shared)
                      (current-Accepted host tool context operation_id p a (arguments, current) w4
                        (ap (λ t. t.0) ran));
                admitted =
                    subst (λ s. has operation_id s.ledger.writes ≡ true)
                      (ap (λ t. t.1.shared) e4 ∙ sym unmoved.shared)
                      (persist-writes operation_id r w3 admitted_);
              }))))
