-- ===== src/Errors.antt =====
-- The exceptions that the modelled code raises, one constructor for each class; their messages are
-- left out. limits.py, definitions.py, state.py, planning.py, policy.py and
-- runtime.py define them.
use jev_frame.Compiler.Diagnostics.{Diagnostic}
use jev_frame.Prelude.{Bool, true, false, if◌then◌else◌, ◌≡◌, refl, ◌⊎◌, inl, inr}

pub data UnresolvedReason : Type 0 where
  missing_evidence source_conflict incomplete_coverage refuted_claim : UnresolvedReason
  semantic_ambiguity missing_capability unaccepted_judgment permission_denial : UnresolvedReason
  stale_source unknown_write_outcome budget_exhaustion no_progress : UnresolvedReason

pub data Error : Type 0 where
  value_error definition_error input_validation_error : Error
  admission_error budget_exhausted_error deadline_exceeded_error child_run_limit_error : Error
  key_error state_error evidence_not_found_error evidence_scope_error stale_evidence_error : Error
  view_capacity_error source_binding_error candidate_selection_error : Error
  planning_error policy_error : Error
  binding_error runtime_configuration_error artifact_recipe_error assertion_error : Error
  -- `CompilerError`, with the diagnostic that it carries
  compiler_error : Diagnostic → Error
  -- `_RunUnresolved`, with the reason of what it carries, and `_ToolFailure`
  run_unresolved : UnresolvedReason → Error
  tool_failure : Error
  -- `EffectNotStartedError`, `asyncio.CancelledError`, and any other exception of the host's code
  effect_not_started_error cancelled_error host_error : Error
  -- no Python exception: a model's loop that ran out of rounds
  fuel_exhausted : Error

-- `except BudgetExhaustedError`: the class itself and `ChildRunLimitError` below it.
abbrev pub is_budget_exhausted : Error → Bool
is_budget_exhausted budget_exhausted_error = true
is_budget_exhausted child_run_limit_error = true
is_budget_exhausted _ = false

pub data Result {ℓ} (A : Type ℓ) : Type ℓ where
  ok : A → Result A
  raise : Error → Result A

-- `if not b: raise e`
abbrev pub guard : Bool → Error → Result (Unit {0})
guard b e = if b then ok tt else raise e

module _ {ℓ κ} {A : Type ℓ} {B : Type κ} where
  infixl 5 ◌>>=◌
  -- the rest of a function body runs when the part before it has not raised
  abbrev pub ◌>>=◌ : Result A → (A → Result B) → Result B
  ◌>>=◌ part rest = elim part [ ok a ↦ rest a | raise e ↦ raise e ]

module _ {κ} {B : Type κ} where
  infixl 5 ◌>>◌
  abbrev pub ◌>>◌ : Result (Unit {0}) → Result B → Result B
  ◌>>◌ part rest = part >>= λ done. rest

pub Result-cases {ℓ} :
    {A : Type ℓ} (r : Result A) → ((a : A) × (r ≡ ok a)) ⊎ ((e : Error) × (r ≡ raise e))
Result-cases (ok a) = inl (a, refl)
Result-cases (raise e) = inr (e, refl)
