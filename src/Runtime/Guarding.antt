-- ===== src/Runtime/Guarding.antt =====
-- runtime.py: that every dispatch was ready, shown for a task part by part.
use jev_frame.Prelude.{
  ℕ, suc, ◌-◌, ◌<◌, ltb, true, arith, String, inl, inr, refl, sym, ◌≡◌, subst, ap, ◌∙◌, Option,
  none, some, List, [], ◌∷◌, ◌++◌, string_eq,
}
use jev_frame.Prelude.Dict.{Dict}
use jev_frame.Errors.{Error, Result, ok, raise, Result-cases}
use jev_frame.Exec.{lift}
use jev_frame.State.Value.{Value}
use jev_frame.Definitions.Tools.{Tool}
use jev_frame.Runtime.Host.{Context, Run, Host, Call}
use jev_frame.Runtime.Steps.{Task, ◌>>=◌, except, finally}
use jev_frame.Runtime.Trace.{same-Grows, require-ok, dispatches, Grows, Quiet, Quiet-bind}
use jev_frame.Runtime.Approval.{Ready, Guarded, other, ready}
use jev_frame.Runtime.Quiet.{still}
use jev_frame.Runtime.Mutation.{min_value}
use jev_frame.Runtime.Mutation.Dispatch.{call_tool}

-- Where time is left for the tool, the deadline has not passed.
left-lt :
    (timeout deadline now : ℕ) → ltb 0 (min_value timeout (deadline - now)) ≡ true → now < deadline
left-lt timeout deadline now h = ground arith

module _ (host : Host) (tool : Tool) (context : Context) where
  Guarded-append :
      (new cs : List Call)
      → dispatches new ≡ 0
      → Guarded host tool context cs
      → Guarded host tool context (new ++ cs)
  Guarded-append [] cs silent g = g
  Guarded-append (Call.dispatched s n a r ∷ new) cs silent g = absurd (omega arith)
  Guarded-append (Call.intent a b ∷ new) cs silent g = other _ refl (Guarded-append new cs silent g)
  Guarded-append (Call.checkpointed a b ∷ new) cs silent g =
      other _ refl (Guarded-append new cs silent g)
  Guarded-append (Call.authorizing a b ∷ new) cs silent g =
      other _ refl (Guarded-append new cs silent g)
  Guarded-append (Call.waited a ∷ new) cs silent g = other _ refl (Guarded-append new cs silent g)
  Guarded-append (Call.reconciled a b ∷ new) cs silent g =
      other _ refl (Guarded-append new cs silent g)

  Guarded-Grows :
      (w w' : Run)
      → Grows w w'
      → Guarded host tool context w.calls
      → Guarded host tool context w'.calls
  Guarded-Grows w w' g h =
      subst (Guarded host tool context) (sym g.calls) (Guarded-append g.added w.calls g.silent h)

  -- A task whose first part dispatches nothing is guarded if the rest is, from where that part ends
  -- well.
  pub Guarded-bind :
      {A B : Type 0} (m : Task A) (f : A → Task B) (w : Run)
      → Quiet m
      → Guarded host tool context w.calls
      → ((a : A) (w' : Run)
          → m w ≡ (ok a, w')
          → Grows w w'
          → Guarded host tool context w'.calls
          → Guarded host tool context (f a w').1.calls)
      → Guarded host tool context ((m >>= f) w).1.calls
  unfolding ◌>>=◌
  Guarded-bind {B = B} m f w quiet g rest =
      let kept = Guarded-Grows w (m w).1 (quiet w) g in
      elim (Result-cases (m w).0) [
        | inl (a, e) ↦
            let same : (m >>= f) w ≡ f a (m w).1 = ground arith in
            subst (λ (t : Result B × Run). Guarded host tool context t.1.calls) (sym same)
              (rest a (m w).1 (ground arith) (quiet w) kept)
        | inr (x, e) ↦
            let same : (m >>= f) w ≡ (raise x, (m w).1) = ground arith in
            subst (λ (t : Result B × Run). Guarded host tool context t.1.calls) (sym same) kept
      ]

  pub Guarded-then :
      {A B : Type 0} (m : Task A) (f : A → Task B) (w : Run)
      → ((a : A) → Quiet (f a))
      → Guarded host tool context (m w).1.calls
      → Guarded host tool context ((m >>= f) w).1.calls
  unfolding ◌>>=◌
  Guarded-then {B = B} m f w quiet g = elim (Result-cases (m w).0) [
    | inl (a, e) ↦
        let same : (m >>= f) w ≡ f a (m w).1 = ground arith in
        subst (λ (t : Result B × Run). Guarded host tool context t.1.calls) (sym same)
          (Guarded-Grows (m w).1 (f a (m w).1).1 (quiet a (m w).1) g)
    | inr (x, e) ↦
        let same : (m >>= f) w ≡ (raise x, (m w).1) = ground arith in
        subst (λ (t : Result B × Run). Guarded host tool context t.1.calls) (sym same) g
  ]

  pub Guarded-except :
      {A : Type 0} (m : Task A) (h : Error → Task A) (w : Run)
      → ((e : Error) → Quiet (h e))
      → Guarded host tool context (m w).1.calls
      → Guarded host tool context (except m h w).1.calls
  unfolding except
  Guarded-except {A} m h w quiet g = elim (Result-cases (m w).0) [
    | inl (a, e) ↦
        let same : except m h w ≡ (ok a, (m w).1) = ground arith in
        subst (λ (t : Result A × Run). Guarded host tool context t.1.calls) (sym same) g
    | inr (x, e) ↦
        let same : except m h w ≡ h x (m w).1 = ground arith in
        subst (λ (t : Result A × Run). Guarded host tool context t.1.calls) (sym same)
          (Guarded-Grows (m w).1 (h x (m w).1).1 (quiet x (m w).1) g)
  ]

  pub Guarded-finally :
      {A : Type 0} (m : Task A) (k : Task (Unit {0})) (w : Run)
      → Quiet k
      → Guarded host tool context (m w).1.calls
      → Guarded host tool context (finally m k w).1.calls
  unfolding finally
  Guarded-finally {A} m k w quiet g =
      Guarded-Grows (m w).1 _ (Quiet-bind k (λ _. lift (m w).0) quiet (λ _ v. still v) (m w).1) g

  pub call_tool-Guarded :
      (operation_id : String) (arguments : Dict String Value) (w : Run)
      → ((reads : ℕ)
          → reads ≡ suc w.reads
          → host.clock w.reads < context.deadline
          → Ready host tool context w.calls w.shared reads arguments)
      → Guarded host tool context w.calls
      → Guarded host tool context (call_tool host tool context operation_id arguments w).1.calls
  unfolding call_tool
  call_tool-Guarded operation_id arguments w now_ready g =
      Guarded-bind _ _ w (λ v. same-Grows v _ refl) g
        (λ now w1 e1 _ g1. Guarded-bind _ _ w1 still g1 (λ _ w2 e2 _ g2.
          let (left, unmoved) = require-ok _ _ w1 w2 e2 in
          let started : now ≡ host.clock w.reads = cc e1 in
          let in_time = left-lt tool.timeout context.deadline now left in
          let reads : w2.reads ≡ suc w.reads =
            ap (λ v. v.reads) unmoved ∙ ap (λ t. t.1.reads) (sym e1) in
          let shared : w2.shared ≡ w.shared =
            ap (λ v. v.shared) unmoved ∙ ap (λ t. t.1.shared) (sym e1) in
          let calls : w2.calls ≡ w.calls =
            ap (λ v. v.calls) unmoved ∙ ap (λ t. t.1.calls) (sym e1) in
          Guarded-then _ _ w2 (λ v. still)
            (ready w2.shared w2.reads arguments _
              (subst (λ s. Ready host tool context w2.calls s w2.reads arguments) (sym shared)
                (subst (λ cs. Ready host tool context cs w.shared w2.reads arguments) (sym calls)
                  (now_ready w2.reads reads (subst (λ t. t < context.deadline) started in_time))))
              g2)))

  pub by_option :
      {A B : Type 0} (o : Option B) (m : Task A) (f : B → Task A) (w : Run)
      → Guarded host tool context (m w).1.calls
      → ((b : B) → Guarded host tool context (f b w).1.calls)
      → Guarded host tool context (elim o as (λ _. Task A) [ none ↦ m | some b ↦ f b ] w).1.calls
  by_option none m f w gm gf = gm
  by_option (some b) m f w gm gf = gf b
