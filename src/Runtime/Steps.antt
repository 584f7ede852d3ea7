-- ===== src/Runtime/Steps.antt =====
-- runtime.py: single steps of an execution, reading the clock and calling the host among them.
use jev_frame.Prelude.{ℕ, suc, String, Bool, true, false, not, ◌==◌, string_eq, List, ◌∷◌, ltb}
use jev_frame.Errors.{
  Error, Result, ok, raise, cancelled_error, deadline_exceeded_error, value_error,
}
use jev_frame.Exec.{Exec, gets, lift, require}
use jev_frame.Limits.{Action}
use jev_frame.Limits.Requests.{serve}
use jev_frame.State.Evidence.{Evidence}
use jev_frame.State.Store.{Store, require_current}
use jev_frame.State.Store.History.{build}
use jev_frame.Runtime.Host.{Context, Shared, result_of, Call, waited, Run, Host}

abbrev pub Task : Type 0 → Type 0
Task A = Exec Run A

-- Sequence, `try: m` with a handler that may raise the error again, and `try: m finally: k`. They
-- do not compute by themselves, so that a proof can go by the parts of a task.
infixl 5 ◌>>=◌ ◌>>◌
unfoldable pub ◌>>=◌ : {A B : Type 0} → Task A → (A → Task B) → Task B
◌>>=◌ m f w = let (r, w') = m w in elim r [ ok a ↦ f a w' | raise e ↦ (raise e, w') ]

abbrev pub ◌>>◌ : {B : Type 0} → Task (Unit {0}) → Task B → Task B
m >> k = m >>= λ _. k

unfoldable pub except : {A : Type 0} → Task A → (Error → Task A) → Task A
except m h w = let (r, w') = m w in elim r [ ok a ↦ (ok a, w') | raise e ↦ h e w' ]

unfoldable pub finally : {A : Type 0} → Task A → Task (Unit {0}) → Task A
finally m k w = let (r, w') = m w in (k >> lift r) w'

-- `except Exception`: a cancellation passes.
abbrev pub is_exception : Error → Bool
is_exception cancelled_error = false
is_exception _ = true

-- An operation of the evidence store, and one of the ledger.
abbrev pub on_store : {A : Type 0} → Exec Store A → Task A
on_store m w =
    let (r, s) = m w.shared.store in (r, record w { shared = record w.shared { store = s } })

abbrev pub on_ledger : {A : Type 0} → Action A → Task A
on_ledger m w =
    let (r, l) = m w.shared.ledger in (r, record w { shared = record w.shared { ledger = l } })

module _ (host : Host) where
  -- `context.clock()`
  abbrev pub tick : Task ℕ
  tick w = (ok (host.clock w.reads), record w { reads = suc w.reads })

  -- The state that the other tasks leave behind while a call is awaited.
  unfoldable pub elapse : List Call → Shared → Shared
  elapse calls s =
      let m = host.others calls s in
      record {
        store = build m.changes s.store;
        ledger = serve m.requests s.ledger;
        findings = m.findings;
        selections = m.selections;
        decision_refs = m.decision_refs;
        acceptance_refs = m.acceptance_refs;
      }

  -- A call of the host: its answer, how the call is kept, and what happens meanwhile.
  abbrev pub call : {A : Type 0} → (Run → Result A × Call) → Task A
  call answer w =
      let (r, c) = answer w in
      (r, record w { shared = elapse w.calls w.shared; calls = c ∷ w.calls })

  -- Waiting for the semaphore or for the ledger's lock.
  abbrev pub wait : Task (Unit {0})
  wait = call (λ w. let r = host.turn w.calls in (result_of r, waited r))

  -- `store.require_current(reference, scope)`. A call that raises before it reads the clock counts
  -- as a reading too.
  unfoldable pub require_now : Context → String → Task Evidence
  require_now context reference = do
    now ← tick
    found ← gets (λ w. require_current reference context.scope now w.shared.store)
    lift found

  -- A method of the ledger: the id and then the deadline are checked before the lock is waited for.
  abbrev pub admitted : Context → String → (ℕ → Action (Unit {0})) → Task (Unit {0})
  admitted context id m = do
    require (not (id == "")) value_error
    now ← tick
    require (ltb now context.deadline) deadline_exceeded_error
    wait
    on_ledger (m now)
