-- ===== src/Runtime/Receipts.antt =====
-- runtime.py: what a mutation that returns has received.
use jev_frame.Prelude.{
  String, Bool, true, false, ◌≡◌, refl, arith, ap, ◌∙◌, subst, Option, none, some, List, inl, inr,
  ==_iff, string_eq, ◌⊎◌, if◌then◌else◌,
}
use jev_frame.Prelude.Dict.{Dict}
use jev_frame.Errors.{Error, ok, Result-cases, cancelled_error, effect_not_started_error}
use jev_frame.Exec.{lift}
use jev_frame.State.Value.{Value}
use jev_frame.State.Evidence.{succeeded, failed_before_effect}
use jev_frame.Policy.{ActionProposal, AuthorizationRecord}
use jev_frame.Policy.Records.{ExecutionReceipt, same_state}
use jev_frame.Policy.Decisions.{same_state-eq}
use jev_frame.Definitions.Tools.{Tool}
use jev_frame.Runtime.Host.{Context, Run, Host, Call, Reply}
use jev_frame.Runtime.Steps.{Task, ◌>>=◌, except, is_exception}
use jev_frame.Runtime.Trace.{Fails, Fails-bind, after-ok}
use jev_frame.Runtime.Mutation.{
  receipt_of, Attempt, returned, received, keep_success, keep_failure, ask_host, ask_reconciliation,
  reconcile_mutation,
}
use jev_frame.Runtime.Mutation.Dispatch.{call_tool, after_call, launch, finish}

pub record IsSuccess (operation_id : String) (r : ExecutionReceipt) : Type 0 where
  pub state : r.state ≡ succeeded
  pub named : r.operation_id ≡ operation_id

-- A task whose receipts are all successes of this operation.
abbrev pub Succeeds : String → Task ExecutionReceipt → Type 0
Succeeds i m = (w : Run) (r : ExecutionReceipt) → (m w).0 ≡ ok r → IsSuccess i r

Fails-Succeeds : (i : String) (m : Task ExecutionReceipt) → Fails m → Succeeds i m
Fails-Succeeds i m bad w r h = absurd (bad w r h)

Succeeds-choose :
    (i : String) (b : Bool) (m k : Task ExecutionReceipt)
    → (b ≡ true → Succeeds i m)
    → Succeeds i k
    → Succeeds i (if b then m else k)
Succeeds-choose i true m k sm sk = sm refl
Succeeds-choose i false m k sm sk = sk

Succeeds-some :
    {B : Type 0} (i : String) (o : Option B) (m : Task ExecutionReceipt)
    (f : B → Task ExecutionReceipt)
    → Succeeds i m
    → ((b : B) → o ≡ some b → Succeeds i (f b))
    → Succeeds i (elim o [ none ↦ m | some b ↦ f b ])
Succeeds-some i none m f sm sf = sm
Succeeds-some i (some b) m f sm sf = sf b refl

-- A task that may find a receipt, which is then one of this operation.
abbrev Finds : String → Task (Option ExecutionReceipt) → Type 0
Finds i m = (w : Run) (r : ExecutionReceipt) → (m w).0 ≡ ok (some r) → r.operation_id ≡ i

Finds-some :
    {B : Type 0} (i : String) (o : Option B) (m : Task (Option ExecutionReceipt))
    (f : B → Task (Option ExecutionReceipt))
    → Finds i m
    → ((b : B) → Finds i (f b))
    → Finds i (elim o [ none ↦ m | some b ↦ f b ])
Finds-some i none m f fm ff = fm
Finds-some i (some b) m f fm ff = ff b

Finds-choose :
    (i : String) (b : Bool) (m k : Task (Option ExecutionReceipt))
    → Finds i m
    → Finds i k
    → Finds i (if b then m else k)
Finds-choose i true m k fm fk = fm
Finds-choose i false m k fm fk = fk

receipt_of-named :
    (i : String) (o : Option ExecutionReceipt) (r : ExecutionReceipt)
    → receipt_of i o ≡ ok r
    → r.operation_id ≡ i
receipt_of-named i none r h = absurd (ground arith)
receipt_of-named i (some q) r h = ground (arith, ==_iff q.operation_id i)

except-cases :
    {A : Type 0} (m : Task A) (h : Error → Task A) (w : Run) (a : A)
    → (except m h w).0 ≡ ok a
    → ((m w).0 ≡ ok a) ⊎ ((e : Error) × (v : Run) × ((h e v).0 ≡ ok a))
unfolding except
except-cases m h w a e = elim (Result-cases (m w).0) [
  | inl (b, e') ↦ inl (ground arith)
  | inr (x, e') ↦ inr (x, (m w).1, ground arith)
]

Finds-except :
    (i : String) (m : Task (Option ExecutionReceipt)) (h : Error → Task (Option ExecutionReceipt))
    → Finds i m
    → ((e : Error) → Finds i (h e))
    → Finds i (except m h)
Finds-except i m h fm fh w r e = elim (except-cases m h w (some r) e) [
  | inl ended ↦ fm w r ended
  | inr (x, v, handled) ↦ fh x v r handled
]

-- How the body of the `async with` may end.
abbrev pub IsAttempt : String → Attempt → Type 0
IsAttempt i (returned r) = IsSuccess i r
IsAttempt i (received r) = r.operation_id ≡ i

module _ (host : Host) (tool : Tool) (context : Context) (p : ActionProposal)
    (a : AuthorizationRecord) (dependencies : List String) where
  keep_success-Succeeds :
      (r : ExecutionReceipt)
      → IsSuccess p.operation_id r
      → Succeeds p.operation_id (keep_success host tool context p a dependencies r)
  unfolding keep_success
  keep_success-Succeeds r good w q h = after-ok _ _ w q h (λ _ w1 e1 h1 _.
      after-ok _ _ w1 q h1 (λ _ w2 e2 h2 _.
        after-ok _ _ w2 q h2
          (λ _ w3 e3 h3 _. let same : r ≡ q = cc h3 in subst (IsSuccess p.operation_id) same good)))

  keep_failure-Fails :
      (o : Option ExecutionReceipt) → Fails (keep_failure host tool context p a dependencies o)
  unfolding keep_failure
  keep_failure-Fails o =
      Fails-bind _ _ (λ _. Fails-bind _ _ (λ _. Fails-bind _ _ (λ _ w b never. ground arith)))

  ask_host-Finds :
      (f : List Call → String → Reply (Option ExecutionReceipt)) (i : String)
      → Finds i (ask_host host tool context f i)
  unfolding ask_host
  ask_host-Finds f i w r h = after-ok _ _ w (some r) h (λ v w1 e1 h1 _.
      after-ok _ _ w1 (some r) h1 (λ q w2 e2 h2 _.
        let same : q ≡ r = cc h2 in
        subst (λ x. x.operation_id ≡ i) same (receipt_of-named i v q (ap (λ t. t.0) e2))))

  ask-Finds : Finds p.operation_id (ask_reconciliation host tool context p a dependencies)
  unfolding ask_reconciliation
  ask-Finds =
      Finds-some p.operation_id host.reconcile _ _ (λ w r h. absurd (ground arith))
        (λ f. Finds-except p.operation_id _ _ (ask_host-Finds f p.operation_id) (λ e.
          Finds-choose p.operation_id (is_exception e) _ _ (λ u q never. absurd (ground arith))
            (λ u q never.
              absurd (
                Fails-bind _ _ (λ _. Fails-bind _ _ (λ _ x b bad. ground arith)) u (some q)
                  never))))

  reconcile-Succeeds :
      Succeeds p.operation_id (reconcile_mutation host tool context p a dependencies)
  unfolding reconcile_mutation
  reconcile-Succeeds w r h = after-ok _ _ w r h (λ receipt w1 e1 h1 _.
      Succeeds-some p.operation_id receipt _ _
        (λ v x never.
          absurd (Fails-bind _ _ (λ _. Fails-bind _ _ (λ _ y b bad. ground arith)) v x never))
        (λ q found.
          Succeeds-choose p.operation_id (same_state q.state succeeded) _ _
            (λ good. keep_success-Succeeds q (record {
              state = same_state-eq q.state succeeded good;
              named = ask-Finds w q (ap (λ t. t.0) e1 ∙ ap ok found);
            }))
            (Succeeds-choose p.operation_id (same_state q.state failed_before_effect) _ _
              (λ _ v x never. absurd (keep_failure-Fails (some q) v x never))
              (λ v x never.
                absurd
                  (Fails-bind _ _ (λ _. Fails-bind _ _ (λ _ y b bad. ground arith)) v x never))))
        w1 r h1)

  after_call-attempts :
      (e : Error) (w : Run) (t : Attempt)
      → (after_call host tool context p a dependencies e w).0 ≡ ok t
      → IsAttempt p.operation_id t
  unfolding after_call
  after_call-attempts cancelled_error w t h =
      absurd (
        Fails-bind _ _ (λ _. Fails-bind _ _ (λ _. Fails-bind _ _ (λ _ x b bad. ground arith))) w t
          h)
  after_call-attempts effect_not_started_error w t h =
      after-ok _ _ w t h (λ r w1 e1 h1 _. absurd (keep_failure-Fails none w r (ap (λ x. x.0) e1)))
  after_call-attempts _ w t h = after-ok _ _ w t h (λ u w1 e1 h1 _.
      after-ok _ _ w1 t h1 (λ _ w2 e2 h2 _. after-ok _ _ w2 t h2 (λ r w3 e3 h3 _.
        let same : returned r ≡ t = cc h3 in
        subst (IsAttempt p.operation_id) same (reconcile-Succeeds w2 r (ap (λ x. x.0) e3)))))

  call_tool-named :
      (i : String) (arguments : Dict String Value) (w : Run) (r : ExecutionReceipt)
      → (call_tool host tool context i arguments w).0 ≡ ok r
      → r.operation_id ≡ i
  unfolding call_tool
  call_tool-named i arguments w r h = after-ok _ _ w r h (λ now w1 e1 h1 _.
      after-ok _ _ w1 r h1
        (λ _ w2 e2 h2 _. after-ok _ _ w2 r h2 (λ v w3 e3 h3 _. receipt_of-named i v r h3)))

  called-attempts :
      (arguments : Dict String Value) (w : Run) (t : Attempt)
      → ((call_tool host tool context p.operation_id arguments >>= λ r. lift (ok (received r))) w).0
        ≡ ok t
      → IsAttempt p.operation_id t
  called-attempts arguments w t h = after-ok _ _ w t h (λ r w1 e1 h1 _.
      let same : received r ≡ t = cc h1 in
      subst (IsAttempt p.operation_id) same
        (call_tool-named p.operation_id arguments w r (ap (λ x. x.0) e1)))

  pub launch-attempts :
      (arguments : Dict String Value) (w : Run) (t : Attempt)
      → (launch host tool context p.operation_id p a dependencies arguments w).0 ≡ ok t
      → IsAttempt p.operation_id t
  unfolding launch
  launch-attempts arguments w t h =
      elim (except-cases
        (call_tool host tool context p.operation_id arguments >>= λ r. lift (ok (received r)))
        (after_call host tool context p a dependencies) w t h) [
          | inl ended ↦ called-attempts arguments w t ended
          | inr (x, v, handled) ↦ after_call-attempts x v t handled
        ]

  pub finish-Succeeds :
      (t : Attempt)
      → IsAttempt p.operation_id t
      → Succeeds p.operation_id (finish host tool context p a dependencies t)
  unfolding finish
  finish-Succeeds (returned r) good w q h =
      let same : r ≡ q = cc h in subst (IsSuccess p.operation_id) same good
  finish-Succeeds (received r) named w q h =
      Succeeds-choose p.operation_id (same_state r.state succeeded) _ _
        (λ good.
          keep_success-Succeeds r
            (record { state = same_state-eq r.state succeeded good; named = named }))
        (Succeeds-choose p.operation_id (same_state r.state failed_before_effect) _ _
          (λ _ v x never. absurd (keep_failure-Fails (some r) v x never))
          (λ v x h'.
            after-ok _ _ v x h'
              (λ u w1 e1 h1 _. after-ok _ _ w1 x h1 (λ _ w2 e2 h2 _. reconcile-Succeeds w2 x h2))))
        w q h
