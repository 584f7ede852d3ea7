-- ===== src/Runtime/Facts.antt =====
-- runtime.py: what has happened when a part of an execution ends well.
use jev_frame.Prelude.{
  arith, String, true, false, Option-cases, inl, inr, refl, sym, ◌≡◌, subst, Option, none, some,
  List, ◌∷◌, string_eq,
}
use jev_frame.Prelude.Dict.{Dict}
use jev_frame.Errors.{ok, Result-cases}
use jev_frame.State.Value.{Value}
use jev_frame.Policy.{
  ActionProposal, action_value, action_proposal, AuthorizationRecord, permits, CheckpointRecord,
  accepts, check, Policy, Verdict,
}
use jev_frame.Policy.Records.{WriteRecord}
use jev_frame.State.Evidence.{Evidence}
use jev_frame.Definitions.Tools.{Tool}
use jev_frame.Runtime.Host.{
  Context, Run, Host, Call, Reply, answered, intent, checkpointed, authorizing,
}
use jev_frame.Runtime.Steps.{◌>>=◌, except}
use jev_frame.Runtime.Trace.{Occurs, first}
use jev_frame.Runtime.Approval.{IsAction, Checks, Announces}
use jev_frame.Runtime.Mutation.{persist_write, pass_checkpoint, authorize, propose}

pub action_proposal-kept :
    (canonical_digest : Value → Option String) (p q : ActionProposal)
    → action_proposal canonical_digest p ≡ ok q
    → (d : String) × (canonical_digest (action_value p) ≡ some d) × (record p { digest = d } ≡ q)
unfolding action_proposal
action_proposal-kept canonical_digest p q h =
    elim (Option-cases (canonical_digest (action_value p))) [
      | inl e ↦ absurd (ground arith)
      | inr (d, e) ↦
          let both : ok (record p { digest = d }) ≡ ok q = ground arith in (d, e, cc both)
    ]

module _ (host : Host) (tool : Tool) (context : Context) where
  pub authorize-calls :
      (f : List Call → ActionProposal → Reply (Option AuthorizationRecord)) (p : ActionProposal)
      (a : AuthorizationRecord) (w : Run)
      → (authorize host tool context f p w).0 ≡ ok a
      → ((authorize host tool context f p w).1.calls ≡ authorizing p (answered (some a)) ∷ w.calls)
        × (permits a p (host.clock w.reads) ≡ true)
  unfolding authorize ◌>>=◌ except
  authorize-calls f p a w h = (ground arith, ground arith)

  checkpoint-calls :
      (policy : Policy) (evaluator : List Call → ActionProposal → Verdict) (p : ActionProposal)
      (w : Run)
      → host.required_checkpoint ≡ some (policy, evaluator)
      → (pass_checkpoint host tool context p w).0 ≡ ok tt
      → (c : CheckpointRecord) × ((pass_checkpoint host tool context p w).1.calls
          ≡ checkpointed p (ok c) ∷ w.calls)
        × (accepts c p ≡ true)
  unfolding pass_checkpoint ◌>>=◌ except
  checkpoint-calls policy evaluator p w e h =
      elim (Result-cases (check host.is_text host.is_version policy (evaluator w.calls) p)) [
        | inl (c, e') ↦ (c, ground arith, ground arith)
        | inr (x, e') ↦ absurd (ground arith)
      ]

  pub checkpoint-Checks :
      (p : ActionProposal) (w : Run)
      → (pass_checkpoint host tool context p w).0 ≡ ok tt
      → Checks host.required_checkpoint p (pass_checkpoint host tool context p w).1.calls
  checkpoint-Checks p w h =
      let cs = (pass_checkpoint host tool context p w).1.calls in
      elim (Option-cases host.required_checkpoint) [
        | inl e ↦ subst (λ o. Checks o p cs) (sym e) tt
        | inr ((policy, evaluator), e) ↦
            let (c, calls, accepted) = checkpoint-calls policy evaluator p w e h in
            subst (λ o. Checks o p cs) (sym e)
              (c, subst (Occurs (checkpointed p (ok c))) (sym calls) (first w.calls), accepted)
      ]

  persist-calls :
      (f : List Call → WriteRecord → Reply (Unit {0})) (r : WriteRecord) (w : Run)
      → host.intent_store ≡ some f
      → (persist_write host tool context r w).0 ≡ ok tt
      → (persist_write host tool context r w).1.calls ≡ intent r (answered tt) ∷ w.calls
  unfolding persist_write
  persist-calls f r w e h = ground arith

  persist-required :
      (r : WriteRecord) (w : Run)
      → host.intent_store ≡ none
      → (persist_write host tool context r w).0 ≡ ok tt
      → tool.durable_intent_required ≡ false
  unfolding persist_write
  persist-required r w e h = ground arith

  pub persist-Announces :
      (r : WriteRecord) (w : Run)
      → (persist_write host tool context r w).0 ≡ ok tt
      → Announces host.intent_store tool r (persist_write host tool context r w).1.calls
  persist-Announces r w h =
      let cs = (persist_write host tool context r w).1.calls in
      elim (Option-cases host.intent_store) [
        | inl e ↦ subst (λ o. Announces o tool r cs) (sym e) (persist-required r w e h)
        | inr (f, e) ↦ subst (λ o. Announces o tool r cs) (sym e) (w.calls, persist-calls f r w e h)
      ]

  pub propose-IsAction :
      (operation_id : String) (arguments : Dict String Value) (sources : List Evidence)
      (q : ActionProposal) (w : Run)
      → (propose host tool context operation_id arguments sources w).0 ≡ ok q
      → IsAction host tool context q × (q.arguments ≡ arguments) × (q.operation_id ≡ operation_id)
  propose-IsAction operation_id arguments sources q w h =
      let (d, digest, same) = action_proposal-kept host.canonical_digest _ q h in
      subst
        (λ x.
          IsAction host tool context x
          × (x.arguments ≡ arguments)
          × (x.operation_id ≡ operation_id))
        same
        (
          record {
            of_tool = refl;
            of_version = refl;
            in_scope = refl;
            is_mutation = refl;
            digested = digest;
          },
          refl,
          refl,
        )
