-- ===== src/Planning/Follows.antt =====
-- planning.py: in the order of a plan each step follows all that it depends on.
use jev_frame.Prelude.{
  ℕ, zero, suc, arith, String, Bool, true, not, ◌≡◌, refl, List, [], ◌∷◌, ◌++◌, ◌==◌, ==_iff,
  string_eq, length, All, All-map, some, inl, inr, Bool-cases, ap, sym, ◌∙◌, subst,
}
use jev_frame.Prelude.Set.{has, has-append, unique}
use jev_frame.Prelude.Dict.{Dict}
use jev_frame.Errors.{ok, Result-cases}
use jev_frame.Planning.{
  PlanStep, PlannerCapability, step_ids, keep, is_ready, check_steps, order_steps, validate_plan,
}
use jev_frame.Planning.Order.{find, follows, subset-weaken, follows-append}

has-find :
    (i : String) (ss : List PlanStep) (s : PlanStep)
    → find i ss ≡ some s
    → has i (step_ids ss) ≡ true
has-find i [] s h = absurd (ground arith)
has-find i (t ∷ ss) s h = ground (arith, has-find i ss s)

has_same : (i j : String) (ss : List PlanStep) → i ≡ j → has i (step_ids ss) ≡ has j (step_ids ss)
has_same i j ss e = ap (λ k. has k (step_ids ss)) e

find-unique :
    (ss : List PlanStep) → unique (step_ids ss) ≡ true → All (λ s. find s.id ss ≡ some s) ss
find-unique [] h = tt
find-unique (t ∷ ss) h = (
  ground (arith, ==_iff t.id t.id),
  All-map _ _ ss
      (λ s e. ground (arith, has-find s.id ss s e, ==_iff s.id t.id, has_same s.id t.id ss))
      (find-unique ss (ground arith)),
)

keep_test :
    (test : PlanStep → Bool) (steps rest : List PlanStep) (t : PlanStep)
    → All (λ s. find s.id steps ≡ some s) rest
    → find t.id steps ≡ some t
    → has t.id (step_ids (keep test rest)) ≡ true
    → test t ≡ true
keep_test test steps [] t known e m = absurd cc
keep_test test steps (s ∷ rest) t known e m = elim (Bool-cases (test s)) [
  | inr bad ↦ keep_test test steps rest t known.1 e (ground arith)
  | inl good ↦ elim (Bool-cases (t.id == s.id)) [
    | inr apart ↦ keep_test test steps rest t known.1 e (ground arith)
    | inl same ↦
        let named : t.id ≡ s.id = (==_iff t.id s.id).0 same in
        let both : some t ≡ some s = sym e ∙ (ap (λ i. find i steps) named ∙ known.0) in
        let equal : s ≡ t = cc both in subst (λ x. test x ≡ true) equal good
  ]
]

keep-All :
    {P Q : PlanStep → Type 0} (test : PlanStep → Bool) (ss : List PlanStep)
    → ((t : PlanStep) → P t → test t ≡ true → Q t)
    → All P ss
    → All Q (keep test ss)
keep-All test [] f h = tt
keep-All {Q = Q} test (s ∷ ss) f h = elim (Bool-cases (test s)) [
  | inl good ↦
      let same : s ∷ keep test ss ≡ keep test (s ∷ ss) = ground arith in
      subst (All Q) same (f s h.0 good, keep-All test ss f h.1)
  | inr bad ↦
      let same : keep test ss ≡ keep test (s ∷ ss) = ground arith in
      subst (All Q) same (keep-All test ss f h.1)
]

order_steps-follows :
    (steps : List PlanStep) (fuel : ℕ) (remaining ordered out : List PlanStep)
    → All (λ s. find s.id steps ≡ some s) steps
    → All (λ s. find s.id steps ≡ some s) remaining
    → follows [] ordered ≡ true
    → order_steps steps fuel remaining ordered ≡ ok out
    → follows [] out ≡ true
unfolding order_steps
order_steps-follows steps zero [] ordered out known rest f h = ground arith
order_steps-follows steps zero (s ∷ r) ordered out known rest f h = absurd (ground arith)
order_steps-follows steps (suc fuel) [] ordered out known rest f h = ground arith
order_steps-follows steps (suc fuel) (s ∷ r) ordered out known rest f h =
    let ready = step_ids (keep (is_ready ordered) (s ∷ r)) in
    order_steps-follows steps fuel (keep (λ t. not (has t.id ready)) (s ∷ r))
      (ordered ++ keep (λ t. has t.id ready) steps) out known
      (keep-All (λ t. not (has t.id ready)) (s ∷ r) (λ t e _. e) rest)
      (follows-append ordered (keep (λ t. has t.id ready) steps) [] f (
        keep-All (λ t. has t.id ready) steps
          (λ t e m.
            subset-weaken t.depends_on (step_ids ordered) (step_ids ordered ++ [])
              (λ x b. ground (arith, has-append x (step_ids ordered) []))
              (keep_test (is_ready ordered) steps (s ∷ r) t rest e m))
          known))
      (ground arith)

-- The order that a plan with unique step ids is given puts every step behind all the steps that it
-- depends on.
pub validate_plan-follows :
    (capabilities : Dict String PlannerCapability) (steps out : List PlanStep)
    → unique (step_ids steps) ≡ true
    → validate_plan capabilities steps ≡ ok out
    → follows [] out ≡ true
unfolding validate_plan
validate_plan-follows capabilities steps out u h =
    let known = find-unique steps u in
    order_steps-follows steps (length steps) steps [] out known known refl
      (elim (Result-cases (check_steps capabilities (step_ids steps) steps)) [
        | inl (tt, e) ↦ ground arith
        | inr (x, e) ↦ absurd (ground arith)
      ])
