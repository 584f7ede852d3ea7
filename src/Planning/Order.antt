-- ===== src/Planning/Order.antt =====
-- planning.py: the order that `_validate_plan` gives, and that it always gives an answer.
use jev_frame.Prelude.{
  ℕ, zero, suc, ◌≤◌, ◌<◌, arith, String, Bool, true, false, not, ◌&&◌, ◌≡◌, ◌≢◌, refl, List, [],
  ◌∷◌, ◌++◌, ◌==◌, ==_iff, string_eq, length, all, All, All-map, Option, none, some, inl, inr,
  Bool-cases, if◌then◌else◌,
}
use jev_frame.Prelude.Set.{has, has-append}
use jev_frame.Prelude.Dict.{Dict}
use jev_frame.Errors.{raise, fuel_exhausted, Result-cases}
use jev_frame.Planning.{
  PlanStep, PlannerCapability, step_ids, keep, is_ready, is_empty, check_step, check_steps,
  order_steps, validate_plan,
}

length-keep : (test : PlanStep → Bool) (ss : List PlanStep) → length (keep test ss) ≤ length ss
length-keep test [] = omega arith
length-keep test (s ∷ ss) = ground (arith, length-keep test ss)

-- What a test keeps of `ss` is not kept by its ids being refused.
keep_fewer :
    (test : PlanStep → Bool) (ready : List String) (ss : List PlanStep)
    → is_empty (keep test ss) ≡ false
    → ((s : PlanStep) → has s.id (step_ids (keep test ss)) ≡ true → has s.id ready ≡ true)
    → length (keep (λ t. not (has t.id ready)) ss) < length ss
keep_fewer test ready [] some_ covers = absurd (ground arith)
keep_fewer test ready (s ∷ ss) some_ covers = elim (Bool-cases (test s)) [
  | inl ready_ ↦
      ground (arith, covers s, ==_iff s.id s.id, length-keep (λ t. not (has t.id ready)) ss)
  | inr unready ↦ ground (
    arith,
    length-keep (λ t. not (has t.id ready)) ss,
    keep_fewer test ready ss (ground arith) (λ t h. covers t (ground arith)),
  )
]

order_steps-returns :
    (steps : List PlanStep) (fuel : ℕ) (remaining ordered : List PlanStep)
    → length remaining ≤ fuel
    → order_steps steps fuel remaining ordered ≢ raise fuel_exhausted
unfolding order_steps
order_steps-returns steps zero [] ordered enough h = cc
order_steps-returns steps zero (s ∷ rest) ordered enough h = omega arith
order_steps-returns steps (suc fuel) [] ordered enough h = cc
order_steps-returns steps (suc fuel) (s ∷ rest) ordered enough h =
    let ready = step_ids (keep (is_ready ordered) (s ∷ rest)) in
    elim (Bool-cases (is_empty (keep (is_ready ordered) (s ∷ rest)))) [
      | inl stuck ↦ ground arith
      | inr moved ↦
          let fewer = keep_fewer (is_ready ordered) ready (s ∷ rest) moved (λ t m. m) in
          order_steps-returns steps fuel (keep (λ t. not (has t.id ready)) (s ∷ rest))
            (ordered ++ keep (λ t. has t.id ready) steps) (omega (arith, fewer)) (ground arith)
    ]

check_step-plain :
    (capabilities : Dict String PlannerCapability) (ids : List String) (s : PlanStep)
    → check_step capabilities ids s ≢ raise fuel_exhausted
unfolding check_step
check_step-plain capabilities ids s h = ground arith

check_steps-plain :
    (capabilities : Dict String PlannerCapability) (ids : List String) (ss : List PlanStep)
    → check_steps capabilities ids ss ≢ raise fuel_exhausted
unfolding check_steps
check_steps-plain capabilities ids [] h = cc
check_steps-plain capabilities ids (s ∷ ss) h =
    ground (arith, check_step-plain capabilities ids s, check_steps-plain capabilities ids ss)

-- A plan revision always gets its answer: an order or an error.
pub validate_plan-returns :
    (capabilities : Dict String PlannerCapability) (steps : List PlanStep)
    → validate_plan capabilities steps ≢ raise fuel_exhausted
unfolding validate_plan
validate_plan-returns capabilities steps h =
    elim (Result-cases (check_steps capabilities (step_ids steps) steps)) [
      | inl (tt, e) ↦ order_steps-returns steps (length steps) steps [] (omega arith) (ground arith)
      | inr (x, e) ↦ check_steps-plain capabilities (step_ids steps) steps (ground arith)
    ]

-- The first step of a plan with an id.
abbrev pub find : String → List PlanStep → Option PlanStep
find i [] = none
find i (s ∷ ss) = if i == s.id then some s else find i ss

-- `done` holds all dependencies of the first step, and with its id those of the rest.
abbrev pub follows : List String → List PlanStep → Bool
follows done [] = true
follows done (s ∷ ss) = all (λ d. has d done) s.depends_on && follows (s.id ∷ done) ss

pub subset-weaken :
    (xs d e : List String)
    → ((x : String) → has x d ≡ true → has x e ≡ true)
    → all (λ x. has x d) xs ≡ true
    → all (λ x. has x e) xs ≡ true
subset-weaken [] d e w h = refl
subset-weaken (x ∷ xs) d e w h = ground (arith, w x, subset-weaken xs d e w)

follows-weaken :
    (ss : List PlanStep) (d e : List String)
    → ((x : String) → has x d ≡ true → has x e ≡ true)
    → follows d ss ≡ true
    → follows e ss ≡ true
follows-weaken [] d e w h = refl
follows-weaken (s ∷ ss) d e w h = ground (
  arith,
  subset-weaken s.depends_on d e w,
  follows-weaken ss (s.id ∷ d) (s.id ∷ e) (λ x m. ground (arith, w x)),
)

-- Steps whose dependencies are all in `done` follow it in any order.
follows-all :
    (ss : List PlanStep) (d : List String)
    → All (λ s. all (λ x. has x d) s.depends_on ≡ true) ss
    → follows d ss ≡ true
follows-all [] d h = refl
follows-all (s ∷ ss) d h =
    ground (arith, h.0, follows-weaken ss d (s.id ∷ d) (λ x m. ground arith), follows-all ss d h.1)

pub follows-append :
    (ss ts : List PlanStep) (d : List String)
    → follows d ss ≡ true
    → All (λ s. all (λ x. has x (step_ids ss ++ d)) s.depends_on ≡ true) ts
    → follows d (ss ++ ts) ≡ true
follows-append [] ts d h a = follows-all ts d a
follows-append (s ∷ ss) ts d h a = ground (
  arith,
  follows-append ss ts (s.id ∷ d) (ground arith) (
      All-map _ _ ts
        (λ t r.
          subset-weaken t.depends_on (s.id ∷ (step_ids ss ++ d)) (step_ids ss ++ (s.id ∷ d))
            (λ x m.
              ground (arith, has-append x (step_ids ss) d, has-append x (step_ids ss) (s.id ∷ d)))
            r)
        a),
)
