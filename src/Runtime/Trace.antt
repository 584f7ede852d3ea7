-- ===== src/Runtime/Trace.antt =====
-- runtime.py: what a task leaves in the calls, shown part by part.
use jev_frame.Prelude.{
  ℕ, suc, ◌+◌, Bool, true, false, ◌≡◌, ◌≢◌, refl, sym, ap, ◌∙◌, subst, List, [], ◌∷◌, ◌++◌,
  if◌then◌else◌, arith, inl, inr,
}
use jev_frame.Errors.{Error, Result, ok, raise, Result-cases}
use jev_frame.Exec.{require}
use jev_frame.Runtime.Host.{Call, dispatched, Run}
use jev_frame.Runtime.Steps.{Task, ◌>>=◌, except}

abbrev pub is_dispatch : Call → Bool
is_dispatch (dispatched s reads arguments reply) = true
is_dispatch _ = false

-- how often the tool has been dispatched
abbrev pub dispatches : List Call → ℕ
dispatches [] = 0
dispatches (dispatched s reads arguments reply ∷ cs) = suc (dispatches cs)
dispatches (_ ∷ cs) = dispatches cs

dispatches-append : (cs ds : List Call) → dispatches (cs ++ ds) ≡ dispatches cs + dispatches ds
dispatches-append [] ds = omega arith
dispatches-append (dispatched s n a r ∷ cs) ds = omega (arith, dispatches-append cs ds)
dispatches-append (Call.intent _ _ ∷ cs) ds = dispatches-append cs ds
dispatches-append (Call.checkpointed _ _ ∷ cs) ds = dispatches-append cs ds
dispatches-append (Call.authorizing _ _ ∷ cs) ds = dispatches-append cs ds
dispatches-append (Call.waited _ ∷ cs) ds = dispatches-append cs ds
dispatches-append (Call.reconciled _ _ ∷ cs) ds = dispatches-append cs ds

append_assoc : (xs ys zs : List Call) → (xs ++ ys) ++ zs ≡ xs ++ (ys ++ zs)
append_assoc [] ys zs = refl
append_assoc (x ∷ xs) ys zs = ap (λ l. x ∷ l) (append_assoc xs ys zs)

pub data Occurs (c : Call) : List Call → Type 0 where
  first : (cs : List Call) → Occurs c (c ∷ cs)
  later : (d : Call) {cs : List Call} → Occurs c cs → Occurs c (d ∷ cs)

-- `w'` comes after `w`, and no dispatch lies between them.
pub record Grows (w w' : Run) : Type 0 where
  pub added : List Call
  pub calls : w'.calls ≡ added ++ w.calls
  pub silent : dispatches added ≡ 0

pub same-Grows : (w w' : Run) → w'.calls ≡ w.calls → Grows w w'
same-Grows w w' e = record { added = []; calls = e; silent = refl }

pub Grows-trans : (u v w : Run) → Grows u v → Grows v w → Grows u w
Grows-trans u v w g h = record {
  added = h.added ++ g.added;
  calls = h.calls ∙ (ap (λ cs. h.added ++ cs) g.calls ∙ sym (append_assoc h.added g.added u.calls));
  silent = omega (arith, dispatches-append h.added g.added, g.silent, h.silent);
}

Occurs-append : {c : Call} (cs ds : List Call) → Occurs c ds → Occurs c (cs ++ ds)
Occurs-append [] ds o = o
Occurs-append (x ∷ cs) ds o = later x (Occurs-append cs ds o)

pub Grows-Occurs : {c : Call} (w w' : Run) → Grows w w' → Occurs c w.calls → Occurs c w'.calls
Grows-Occurs {c} w w' g o = subst (Occurs c) (sym g.calls) (Occurs-append g.added w.calls o)

pub Grows-dispatches : (w w' : Run) → Grows w w' → dispatches w'.calls ≡ dispatches w.calls
Grows-dispatches w w' g =
    ap dispatches g.calls ∙ omega (arith, dispatches-append g.added w.calls, g.silent)

-- A task that dispatches nothing, and one that only reads.
abbrev pub Quiet : {A : Type 0} → Task A → Type 0
Quiet m = (w : Run) → Grows w (m w).1

pub record Same (w w' : Run) : Type 0 where
  pub shared : w'.shared ≡ w.shared
  pub calls : w'.calls ≡ w.calls

abbrev pub Reading : {A : Type 0} → Task A → Type 0
Reading m = (w : Run) → Same w (m w).1

pub Reading-Quiet : {A : Type 0} (m : Task A) → Reading m → Quiet m
Reading-Quiet m h w = same-Grows w (m w).1 (h w).calls

-- A task that ends well under a sequence has its first part ending well.
pub bind-ok :
    {A B : Type 0} (m : Task A) (f : A → Task B) (w : Run) (b : B)
    → ((m >>= f) w).0 ≡ ok b
    → (a : A) × (w' : Run) × (m w ≡ (ok a, w')) × ((f a w').0 ≡ ok b) × ((m >>= f) w ≡ f a w')
unfolding ◌>>=◌
bind-ok m f w b h = elim (Result-cases (m w).0) [
  | inl (a, e) ↦ (a, (m w).1, ground arith, ground arith, ground arith)
  | inr (x, e) ↦ absurd (ground arith)
]

-- The same for a proof of `P`: what the first part gave is then a variable.
pub after-ok :
    {A B : Type 0} {P : Type 0} (m : Task A) (f : A → Task B) (w : Run) (b : B)
    → ((m >>= f) w).0 ≡ ok b
    → ((a : A) (w' : Run) → m w ≡ (ok a, w') → (f a w').0 ≡ ok b → (m >>= f) w ≡ f a w' → P)
    → P
after-ok m f w b h k = let (a, w', e, h', same) = bind-ok m f w b h in k a w' e h' same

-- A task that never ends well.
abbrev pub Fails : {A : Type 0} → Task A → Type 0
Fails {A} m = (w : Run) (a : A) → (m w).0 ≢ ok a

pub Fails-bind :
    {A B : Type 0} (m : Task A) (f : A → Task B) → ((a : A) → Fails (f a)) → Fails (m >>= f)
Fails-bind m f bad w b h = after-ok m f w b h (λ a w' e h' _. bad a w' b h')

pub Fails-choose :
    {A : Type 0} (b : Bool) (m k : Task A) → Fails m → Fails k → Fails (if b then m else k)
Fails-choose true m k fm fk = fm
Fails-choose false m k fm fk = fk

-- A handler that never ends well adds no good end.
pub except-ok :
    {A : Type 0} (m : Task A) (h : Error → Task A) (w w' : Run) (a : A)
    → ((e : Error) → Fails (h e))
    → except m h w ≡ (ok a, w')
    → m w ≡ (ok a, w')
unfolding except
except-ok m h w w' a never e = elim (Result-cases (m w).0) [
  | inl (b, e') ↦ ground arith
  | inr (x, e') ↦ absurd (never x (m w).1 a (ground arith))
]

pub require-ok :
    (b : Bool) (e : Error) (w w' : Run) → require b e w ≡ (ok tt, w') → (b ≡ true) × (w' ≡ w)
require-ok b e w w' h = (ground arith, ground arith)

pub Quiet-ends :
    {A : Type 0} (m : Task A) (w w' : Run) (r : Result A) → Quiet m → m w ≡ (r, w') → Grows w w'
Quiet-ends {A} m w w' r quiet e = subst (λ (t : Result A × Run). Grows w t.1) e (quiet w)

pub Quiet-bind :
    {A B : Type 0} (m : Task A) (f : A → Task B)
    → Quiet m
    → ((a : A) → Quiet (f a))
    → Quiet (m >>= f)
unfolding ◌>>=◌
Quiet-bind {B = B} m f qm qf w = elim (Result-cases (m w).0) [
  | inl (a, e) ↦
      let same : (m >>= f) w ≡ f a (m w).1 = ground arith in
      subst (λ (q : Result B × Run). Grows w q.1) (sym same)
        (Grows-trans w (m w).1 (f a (m w).1).1 (qm w) (qf a (m w).1))
  | inr (x, e) ↦
      let same : (m >>= f) w ≡ (raise x, (m w).1) = ground arith in
      subst (λ (q : Result B × Run). Grows w q.1) (sym same) (qm w)
]

pub Quiet-except :
    {A : Type 0} (m : Task A) (h : Error → Task A)
    → Quiet m
    → ((e : Error) → Quiet (h e))
    → Quiet (except m h)
unfolding except
Quiet-except {A} m h qm qh w = elim (Result-cases (m w).0) [
  | inl (a, e) ↦
      let same : except m h w ≡ (ok a, (m w).1) = ground arith in
      subst (λ (q : Result A × Run). Grows w q.1) (sym same) (qm w)
  | inr (x, e) ↦
      let same : except m h w ≡ h x (m w).1 = ground arith in
      subst (λ (q : Result A × Run). Grows w q.1) (sym same)
        (Grows-trans w (m w).1 (h x (m w).1).1 (qm w) (qh x (m w).1))
]

Same-trans : (u v w : Run) → Same u v → Same v w → Same u w
Same-trans u v w g h = record { shared = h.shared ∙ g.shared; calls = h.calls ∙ g.calls }

pub Reading-bind :
    {A B : Type 0} (m : Task A) (f : A → Task B)
    → Reading m
    → ((a : A) → Reading (f a))
    → Reading (m >>= f)
unfolding ◌>>=◌
Reading-bind {B = B} m f qm qf w = elim (Result-cases (m w).0) [
  | inl (a, e) ↦
      let same : (m >>= f) w ≡ f a (m w).1 = ground arith in
      subst (λ (q : Result B × Run). Same w q.1) (sym same)
        (Same-trans w (m w).1 (f a (m w).1).1 (qm w) (qf a (m w).1))
  | inr (x, e) ↦
      let same : (m >>= f) w ≡ (raise x, (m w).1) = ground arith in
      subst (λ (q : Result B × Run). Same w q.1) (sym same) (qm w)
]

pub Reading-except :
    {A : Type 0} (m : Task A) (h : Error → Task A)
    → Reading m
    → ((e : Error) → Reading (h e))
    → Reading (except m h)
unfolding except
Reading-except {A} m h qm qh w = elim (Result-cases (m w).0) [
  | inl (a, e) ↦
      let same : except m h w ≡ (ok a, (m w).1) = ground arith in
      subst (λ (q : Result A × Run). Same w q.1) (sym same) (qm w)
  | inr (x, e) ↦
      let same : except m h w ≡ h x (m w).1 = ground arith in
      subst (λ (q : Result A × Run). Same w q.1) (sym same)
        (Same-trans w (m w).1 (h x (m w).1).1 (qm w) (qh x (m w).1))
]
