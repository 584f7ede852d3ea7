-- ===== src/Policy/Decisions.antt =====
-- policy.py: what an accepting checkpoint and an accepted write record say.
use jev_frame.Prelude.{
  String, arith, Bool, true, ◌≡◌, ◌≢◌, ◌↔◌, Bool-cases, Option-cases, subst, ◌⊎◌, inl, inr, refl,
  Option, none, some, ==_iff, string_eq,
}
use jev_frame.Errors.{ok}
use jev_frame.Definitions.{AcceptanceRecord, AcceptanceStatus, accept}
use jev_frame.State.Evidence.{ExecutionState, proposed, outcome_unknown}
use jev_frame.Policy.{
  ActionProposal, AuthorizationRecord, CheckpointRecord, Policy, Verdict, status_only, recorded,
  other, failed, check, accepts, is_accept,
}
use jev_frame.Policy.Records.{
  ExecutionReceipt, WriteRecord, write_record, same_state, receipt_matches,
}

-- The verdict accepts, as the policy itself: by a bare status, or by a record of its identity.
pub data IsAcceptance (p : Policy) : Verdict → Type 0 where
  by_status : IsAcceptance p (status_only accept)
  by_record :
      (r : AcceptanceRecord)
      → r.policy_id ≡ p.id
      → r.policy_version ≡ p.version
      → r.status ≡ accept
      → IsAcceptance p (recorded r)

accept_iff : (s : AcceptanceStatus) → is_accept s ≡ true → s ≡ accept
accept_iff s h = ground arith

module _ (is_text is_version : String → Bool) where
  checked :
      (p : Policy) (v : Verdict) (evaluator : ActionProposal → Verdict) (proposal : ActionProposal)
      (c : CheckpointRecord)
      → evaluator proposal ≡ v
      → check is_text is_version p evaluator proposal ≡ ok c
      → is_accept c.status ≡ true
      → (c.action_digest ≡ proposal.digest) × IsAcceptance p v
  unfolding check
  checked p (status_only accept) evaluator proposal c e h a = (ground arith, by_status)
  checked p (status_only AcceptanceStatus.investigate) evaluator proposal c e h a =
      absurd (ground arith)
  checked p (status_only AcceptanceStatus.reject) evaluator proposal c e h a = absurd (ground arith)
  checked p (status_only AcceptanceStatus.handoff) evaluator proposal c e h a =
      absurd (ground arith)
  checked p (status_only AcceptanceStatus.unassessed) evaluator proposal c e h a =
      absurd (ground arith)
  checked p (recorded r) evaluator proposal c e h a = (
    ground arith,
    by_record r (ground (arith, ==_iff r.policy_id p.id))
        (ground (arith, ==_iff r.policy_version p.version)) (accept_iff r.status (ground arith)),
  )
  checked p other evaluator proposal c e h a = absurd (ground arith)
  checked p (failed x) evaluator proposal c e h a = absurd (ground arith)

  -- A required checkpoint's record that accepts an action accepts none but actions with the digest of
  -- the one that was checked, and only when its evaluator accepted that one, by a bare status or by a
  -- record under the checkpoint's own id and version.
  pub check-accepts :
      (p : Policy) (evaluator : ActionProposal → Verdict) (proposal action : ActionProposal)
      (c : CheckpointRecord)
      → check is_text is_version p evaluator proposal ≡ ok c
      → accepts c action ≡ true
      → (action.digest ≡ proposal.digest) × IsAcceptance p (evaluator proposal)
  check-accepts p evaluator proposal action c h a =
      let (same, accepted) =
        checked p (evaluator proposal) evaluator proposal c refl h (ground arith) in
      (ground (arith, ==_iff c.action_digest action.digest), accepted)

-- The write records that make sense: a proposal alone, or a later state with an authorization for
-- exactly this action and, where there is a receipt, one of this operation and of this state.
pub data IsConsistent (w : WriteRecord) : Type 0 where
  proposal_only : w.state ≡ proposed → w.authorization ≡ none → w.receipt ≡ none → IsConsistent w
  decided :
      (a : AuthorizationRecord)
      → w.state ≢ proposed
      → w.authorization ≡ some a
      → a.action_digest ≡ w.proposal.digest
      → a.scope ≡ w.proposal.scope
      → ((r : ExecutionReceipt)
          → w.receipt ≡ some r
          → (r.operation_id ≡ w.proposal.operation_id)
            × ((w.state ≡ outcome_unknown) ⊎ (r.state ≡ w.state)))
      → IsConsistent w

pub same_state-eq : (a b : ExecutionState) → same_state a b ≡ true → a ≡ b
same_state-eq a b h = ground arith

same_state_refl : (a : ExecutionState) → same_state a a ≡ true
same_state_refl a = ground arith

receipt-exact :
    (o : Option ExecutionReceipt) (p : ActionProposal) (s : ExecutionState) (r : ExecutionReceipt)
    → receipt_matches o p s ≡ true
    → o ≡ some r
    → (r.operation_id ≡ p.operation_id) × ((s ≡ outcome_unknown) ⊎ (r.state ≡ s))
receipt-exact none p s r h e = absurd (ground arith)
receipt-exact (some q) p s r h e =
    let same : q ≡ r = cc e in
    subst
      (λ (x : ExecutionReceipt).
        (x.operation_id ≡ p.operation_id) × ((s ≡ outcome_unknown) ⊎ (x.state ≡ s)))
      same
      (
        ground (arith, ==_iff q.operation_id p.operation_id),
        elim (Bool-cases (same_state s outcome_unknown)) [
          | inl u ↦ inl (same_state-eq s outcome_unknown u)
          | inr u ↦ inr (same_state-eq q.state s (ground arith))
        ],
      )

receipt-accepted :
    (o : Option ExecutionReceipt) (p : ActionProposal) (s : ExecutionState)
    → ((r : ExecutionReceipt)
        → o ≡ some r
        → (r.operation_id ≡ p.operation_id) × ((s ≡ outcome_unknown) ⊎ (r.state ≡ s)))
    → receipt_matches o p s ≡ true
receipt-accepted none p s h = refl
receipt-accepted (some q) p s h =
    let (named, state) = h q refl in
    elim state [
      | inl u ↦ ground (arith, ==_iff q.operation_id p.operation_id)
      | inr u ↦ ground (arith, ==_iff q.operation_id p.operation_id)
    ]

consistent : (w : WriteRecord) → write_record w ≡ ok w → IsConsistent w
unfolding write_record
consistent w h = elim (Bool-cases (same_state w.state proposed)) [
  | inl early ↦ proposal_only (same_state-eq w.state proposed early) (ground arith) (ground arith)
  | inr late ↦ elim (Option-cases w.authorization) [
    | inl none_ ↦ absurd (ground arith)
    | inr (a, e) ↦
        decided a (λ q. ground arith) e (ground (arith, ==_iff a.action_digest w.proposal.digest))
          (ground (arith, ==_iff a.scope w.proposal.scope))
          (λ r found. receipt-exact w.receipt w.proposal w.state r (ground arith) found)
  ]
]

accepted : (w : WriteRecord) → IsConsistent w → write_record w ≡ ok w
unfolding write_record
accepted w (proposal_only s a r) = ground arith
accepted w (decided a late e digest scope receipt) = ground (
  arith,
  receipt-accepted w.receipt w.proposal w.state receipt,
  ==_iff a.action_digest w.proposal.digest,
  ==_iff a.scope w.proposal.scope,
  same_state-eq w.state proposed,
)

-- A write record is accepted exactly when it makes sense, and then it is kept as it is.
pub write_record_exact : (w : WriteRecord) → (write_record w ≡ ok w) ↔ IsConsistent w
write_record_exact w = (consistent w, accepted w)
