-- ===== src/Runtime/Current.antt =====
-- runtime.py: what `current_action` establishes when it ends well.
use jev_frame.Prelude.{
  ℕ, suc, arith, String, true, inl, inr, refl, sym, ◌≡◌, subst, ap, ◌∙◌, Option, none, some, [],
  ◌∷◌, ==_iff, string_eq,
}
use jev_frame.Prelude.Dict.{Dict, lookup}
use jev_frame.Errors.{ok, Result-cases}
use jev_frame.State.Value.{Value}
use jev_frame.Policy.{ActionProposal, AuthorizationRecord, permits}
use jev_frame.State.Evidence.{Evidence}
use jev_frame.State.Store.{require_current}
use jev_frame.Definitions.Tools.{
  Binding, task_input, host_context, constant, default, candidate_binding, source_binding,
  derivation_binding, judgment_binding, generated_binding, Tool,
}
use jev_frame.Runtime.Host.{Context, Run, Host}
use jev_frame.Runtime.Steps.{◌>>=◌, tick, require_now}
use jev_frame.Runtime.Reading.{require_acceptances-Reading}
use jev_frame.Runtime.Trace.{Same, after-ok, except-ok, require-ok}
use jev_frame.Runtime.Approval.{Accepted, IsAction, Resolved}
use jev_frame.Runtime.Mutation.{require_acceptance, require_acceptances, current_action}
use jev_frame.Runtime.Facts.{propose-IsAction}

module _ (host : Host) (tool : Tool) (context : Context) where
  tick-reads :
      (now : ℕ) (w w' : Run)
      → tick host w ≡ (ok now, w')
      → (host.clock w.reads ≡ now) × (w'.reads ≡ suc w.reads)
  tick-reads now w w' h = (ground arith, ap (λ t. t.1.reads) (sym h))

  -- What `current_action` establishes, apart from the acceptances.
  pub current-Approved :
      (operation_id : String) (p : ActionProposal) (a : AuthorizationRecord)
      (arguments : Dict String Value) (current : ActionProposal) (w w' : Run)
      → current_action host tool context operation_id p a w ≡ (ok (arguments, current), w')
      → (current.digest ≡ p.digest)
        × (current.arguments ≡ arguments)
        × IsAction host tool context current
        × (current.operation_id ≡ operation_id)
        × ((n : ℕ) × (w'.reads ≡ suc n) × (permits a current (host.clock n) ≡ true))
  unfolding current_action
  current-Approved operation_id p a arguments current w w' h =
      let result : Dict String Value × ActionProposal = (arguments, current) in
      after-ok _ _ w result (ap (λ t. t.0) h) (λ now w1 e1 h1 s1.
        after-ok _ _ w1 result h1 (λ _ w2 e2 h2 s2. after-ok _ _ w2 result h2 (λ q w3 e3 h3 s3.
          after-ok _ _ w3 result h3 (λ cur w4 e4 h4 s4. after-ok _ _ w4 result h4 (λ _ w5 e5 h5 s5.
            after-ok _ _ w5 result h5 (λ later w6 e6 h6 s6.
              after-ok _ _ w6 result h6 (λ _ w7 e7 h7 s7.
                let (action, kept, named) =
                  propose-IsAction host tool context operation_id q.0 q.1 cur w3
                    (ap (λ t. t.0) e4) in
                let (read, counted) = tick-reads later w5 w6 e6 in
                let (agree, _) = require-ok _ _ w4 w5 e5 in
                let (allowed, unmoved) = require-ok _ _ w6 w7 e7 in
                let ends : w7 ≡ w' = ap (λ t. t.1) (sym (s1 ∙ s2 ∙ s3 ∙ s4 ∙ s5 ∙ s6 ∙ s7) ∙ h) in
                let same : (q.0 ≡ arguments) × (cur ≡ current) = (cc h7, cc h7) in
                (
                  subst (λ c. c.digest ≡ p.digest) same.1 ((==_iff cur.digest p.digest).0 agree),
                  subst (λ c. c.arguments ≡ arguments) same.1 (kept ∙ same.0),
                  subst (IsAction host tool context) same.1 action,
                  subst (λ c. c.operation_id ≡ operation_id) same.1 named,
                  (
                    w5.reads,
                    ap (λ v. v.reads) (sym ends ∙ unmoved) ∙ counted,
                    subst (λ c. permits a c (host.clock w5.reads) ≡ true) same.1
                        (subst (λ t. permits a cur t ≡ true) (sym read) allowed),
                  ),
                ))))))))

  -- One round of the loop over the bindings: the acceptance of a judgment.
  acceptance-current :
      (o : Option String) (w w' : Run)
      → require_acceptance host tool context o w ≡ (ok tt, w')
      → (w'.shared ≡ w.shared)
        × (reference : String) × (n : ℕ) × (r : Evidence) × (o ≡ some reference)
        × (require_current reference context.scope (host.clock n) w.shared.store ≡ ok r)
  unfolding require_acceptance require_now ◌>>=◌
  acceptance-current none w w' h = absurd (ground arith)
  acceptance-current (some reference) w w' h =
      elim (Result-cases
        (require_current reference context.scope (host.clock w.reads) w.shared.store)) [
          | inl (r, e) ↦ (ground arith, reference, w.reads, r, refl, e)
          | inr (x, e) ↦ absurd (ground arith)
        ]

  pub Accepted-bindings :
      (bs : Dict String Binding) (w : Run)
      → (require_acceptances host tool context bs w).0 ≡ ok tt
      → Accepted host tool context w.shared bs
  unfolding require_acceptances
  Accepted-bindings [] w h = tt
  Accepted-bindings ((name, judgment_binding j) ∷ bs) w h = after-ok _ _ w _ h (λ s w1 e1 h1 _.
      after-ok _ _ w1 _ h1 (λ _ w2 e2 h2 _.
        let shared : s ≡ w.shared = cc e1 in
        let unmoved : w1 ≡ w = cc e1 in
        let (kept, reference, n, r, found, current) =
          acceptance-current (lookup j s.acceptance_refs) w1 w2 e2 in
        (
          (
            reference,
            n,
            r,
            subst (λ t. lookup j t.acceptance_refs ≡ some reference) shared found,
            subst
                (λ t. require_current reference context.scope (host.clock n) t.shared.store ≡ ok r)
                unmoved current,
          ),
          subst (λ t. Accepted host tool context t bs) (kept ∙ ap (λ t. t.shared) unmoved)
              (Accepted-bindings bs w2 h2),
        )))
  Accepted-bindings ((name, task_input path) ∷ bs) w h = Accepted-bindings bs w h
  Accepted-bindings ((name, host_context key) ∷ bs) w h = Accepted-bindings bs w h
  Accepted-bindings ((name, constant v) ∷ bs) w h = Accepted-bindings bs w h
  Accepted-bindings ((name, default) ∷ bs) w h = Accepted-bindings bs w h
  Accepted-bindings ((name, candidate_binding a b) ∷ bs) w h = Accepted-bindings bs w h
  Accepted-bindings ((name, source_binding a b) ∷ bs) w h = Accepted-bindings bs w h
  Accepted-bindings ((name, derivation_binding a b) ∷ bs) w h = Accepted-bindings bs w h
  Accepted-bindings ((name, generated_binding a) ∷ bs) w h = Accepted-bindings bs w h

  pub current-Accepted :
      (operation_id : String) (p : ActionProposal) (a : AuthorizationRecord)
      (q : Dict String Value × ActionProposal) (w : Run)
      → (current_action host tool context operation_id p a w).0 ≡ ok q
      → Accepted host tool context w.shared tool.bindings
  unfolding current_action
  current-Accepted operation_id p a q w h = after-ok _ _ w _ h (λ now w1 e1 h1 _.
      after-ok _ _ w1 _ h1 (λ _ w2 e2 h2 _. after-ok _ _ w2 _ h2 (λ t w3 e3 h3 _.
        let (_, unmoved) = require-ok _ _ w1 w2 e2 in
        let body = except-ok _ _ w2 w3 t (λ e v b never. ground arith) e3 in
        after-ok _ _ w2 t (ap (λ r. r.0) body) (λ _ w4 e4 h4 _.
          let same : w2.shared ≡ w.shared = ap (λ v. v.shared) unmoved ∙ ground arith in
          subst (λ s. Accepted host tool context s tool.bindings) same
            (Accepted-bindings tool.bindings w2 (ap (λ r. r.0) e4))))))

  -- The arguments of `current_action` are those of the bindings in the state that it leaves.
  pub current-Resolved :
      (operation_id : String) (p : ActionProposal) (a : AuthorizationRecord)
      (arguments : Dict String Value) (current : ActionProposal) (w : Run)
      → (current_action host tool context operation_id p a w).0 ≡ ok (arguments, current)
      → Resolved host tool context w.calls w.shared arguments
  unfolding current_action
  current-Resolved operation_id p a arguments current w h =
      let result : Dict String Value × ActionProposal = (arguments, current) in
      after-ok _ _ w result h (λ now w1 e1 h1 _. after-ok _ _ w1 result h1 (λ _ w2 e2 h2 _.
        after-ok _ _ w2 result h2 (λ q w3 e3 h3 _. after-ok _ _ w3 result h3 (λ cur w4 e4 h4 _.
          after-ok _ _ w4 result h4 (λ _ w5 e5 h5 _. after-ok _ _ w5 result h5 (λ later w6 e6 h6 _.
            after-ok _ _ w6 result h6 (λ _ w7 e7 h7 _.
              let (_, unmoved) = require-ok _ _ w1 w2 e2 in
              let body = except-ok _ _ w2 w3 q (λ e v b never. ground arith) e3 in
              after-ok _ _ w2 q (ap (λ r. r.0) body) (λ _ v4 f4 k4 _.
                after-ok _ _ v4 q k4 (λ found v5 f5 k5 _.
                  after-ok _ _ v5 q k5 (λ sources v6 f6 k6 _.
                    let same : Same w2 v4 =
                      subst (λ t. Same w2 t.1) f4
                        (require_acceptances-Reading host tool context tool.bindings w2) in
                    let first_ : found.0 ≡ q.0 = cc k6 in
                    let last : q.0 ≡ arguments = cc h7 in
                    let start : w1 ≡ record w { reads = suc w.reads } = ap (λ t. t.1) (sym e1) in
                    record {
                      run = v4;
                      shares = same.shared ∙ ap (λ v. v.shared) (unmoved ∙ start);
                      behind = same.calls ∙ ap (λ v. v.calls) (unmoved ∙ start);
                      dependencies = found.1;
                      resolves = ap (λ t. t.0) f5 ∙ ap (λ x. ok (x, found.1)) (first_ ∙ last);
                    }))))))))))
