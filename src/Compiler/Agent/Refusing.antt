-- ===== src/Compiler/Agent/Refusing.antt =====
-- compiler.py, `compile_agent`: the errors that its checks may raise.
use jev_frame.Prelude.{
  String, Bool, true, false, not, List, [], ◌∷◌, Option, none, some, ◌≡◌, ◌⊎◌, refl, inl, inr,
  string_eq,
}
use jev_frame.Prelude.Int.{ℤ, is_negative}
use jev_frame.Prelude.Set.{unique}
use jev_frame.Errors.{
  Error, Result, ok, raise, compiler_error, definition_error, Result-cases, ◌>>=◌, guard,
}
use jev_frame.State.Value.{Value}
use jev_frame.Definitions.Agents.{AgentDefinition, all_tools, tool_ids}
use jev_frame.Compiler.Diagnostics.{node_eq, Diagnostic}
use jev_frame.Compiler.Steps.{Setup, diagnostic}
use jev_frame.Compiler.Agent.{
  outside, first_of, refuse_first, check_revision, check_input, check_setup, check_output,
  check_snapshots, check_question_ids, allows, unknown_capability, least_of,
}

-- An error that `compile_agent` may raise: that of a revision which is not one, a diagnostic, or
-- that of the validation of the input.
abbrev pub IsRefusal : (Value → Result Value) → Error → Type 0
IsRefusal validate e =
    (e ≡ definition_error)
    ⊎ ((x : Diagnostic) × (e ≡ compiler_error x))
    ⊎ ((v : Value) × (validate v ≡ raise e))

pub diagnosed :
    (validate : Value → Result Value) (x : Diagnostic) → IsRefusal validate (compiler_error x)
diagnosed validate x = inr (inl (x, refl))

-- A check that can only refuse with a diagnostic is followed by the rest.
pub data Checks (validate : Value → Result Value) {A : Type 0} (P : A → Type 0)
    : Result A → Type 0 where
  passes : (a : A) → P a → Checks validate P (ok a)
  stops : (e : Error) → IsRefusal validate e → Checks validate P (raise e)

module _ (validate : Value → Result Value) where
  pub Checks-bind :
      {A B : Type 0} (P : A → Type 0) (Q : B → Type 0) (r : Result A) (f : A → Result B)
      → Checks validate P r
      → ((a : A) → P a → Checks validate Q (f a))
      → Checks validate Q (r >>= f)
  Checks-bind P Q r f (passes a p) k = k a p
  Checks-bind P Q r f (stops e h) k = stops e h

  Checks-guard :
      (b : Bool) (e : Error) → IsRefusal validate e → Checks validate (λ x. b ≡ true) (guard b e)
  Checks-guard true e h = passes tt refl
  Checks-guard false e h = stops e h

  Checks-refuse_first :
      (report : Option String → Diagnostic) (pick : List String → Option String) (xs : List String)
      → Checks validate (λ x. xs ≡ []) (refuse_first report pick xs)
  Checks-refuse_first report pick [] = passes tt refl
  Checks-refuse_first report pick (x ∷ xs) = stops _ (diagnosed validate _)

  pub Checks-input : (o : Option Value) → Checks validate (λ x. Unit {0}) (check_input validate o)
  Checks-input none = passes none tt
  Checks-input (some v) = elim (Result-cases (validate v)) [
    | inl (w, e) ↦ rw e (passes (some w) tt)
    | inr (x, e) ↦ rw e (stops x (inr (inr (v, e))))
  ]

  Checks-weaken :
      {A : Type 0} (P : A → Type 0) (r : Result A)
      → Checks validate P r
      → Checks validate (λ x. Unit {0}) r
  Checks-weaken P r (passes a p) = passes a tt
  Checks-weaken P r (stops e h) = stops e h

  pub Checks-output :
      (c : Setup) (names : List String) (fields : Option (List String))
      → Checks validate (λ x. Unit {0}) (check_output c names fields)
  unfolding check_output
  Checks-output c names none = Checks-weaken _ _ (Checks-guard _ _ (diagnosed validate _))
  Checks-output c names (some fields) = Checks-weaken _ _ (Checks-guard _ _ (diagnosed validate _))

  pub Checks-setup : (c : Setup) → Checks validate (λ x. Unit {0}) (check_setup c)
  unfolding check_setup
  Checks-setup c =
      Checks-bind _ _ (check_snapshots c) _
        (Checks-refuse_first (diagnostic c "unknown_candidate_snapshot" none none none) least_of _)
        (λ x p.
          Checks-bind _ _ (check_question_ids c) _
            (Checks-refuse_first (diagnostic c "unknown_question_id" none none none) least_of _)
            (λ y q. Checks-weaken _ _ (Checks-guard _ _ (diagnosed validate _))))

  -- A revision that passes names tools of the definition only.
  pub Checks-revision :
      (d : AgentDefinition) (ids : List String) (n : ℤ)
      → Checks validate
          (λ roots. (roots ≡ ids) × (outside ids (tool_ids (all_tools d)) ≡ []))
          (check_revision d ids n)
  unfolding check_revision
  Checks-revision d ids n =
      Checks-bind _ _ (guard (not (is_negative n)) definition_error) _ (Checks-guard _ _ (inl refl))
        (λ x p.
          Checks-bind _ _ (guard (allows n ids) definition_error) _ (Checks-guard _ _ (inl refl))
            (λ y q.
              Checks-bind _ _ (guard (unique ids) definition_error) _ (Checks-guard _ _ (inl refl))
                (λ z r.
                  Checks-bind _ _
                    (refuse_first (unknown_capability d) first_of
                      (outside ids (tool_ids (all_tools d))))
                    _ (Checks-refuse_first (unknown_capability d) first_of _)
                    (λ w none_outside. passes ids (refl, none_outside)))))
