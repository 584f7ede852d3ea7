-- ===== src/Runtime/Arguments.antt =====
-- runtime.py: the arguments of a tool, from its bindings.
use jev_frame.Prelude.{
  String, Option, none, some, List, [], ◌∷◌, ◌++◌, ◌==◌, string_eq, if◌then◌else◌,
}
use jev_frame.Prelude.Set.{from_keys}
use jev_frame.Prelude.Dict.{Dict, lookup, insert}
use jev_frame.Errors.{Result, ok, raise, run_unresolved, missing_evidence, missing_capability}
use jev_frame.Exec.{pure, fail, gets, lift}
use jev_frame.State.Value.{Value, text}
use jev_frame.State.Evidence.{Evidence}
use jev_frame.State.Sources.{Part, follow, bind_source}
use jev_frame.Definitions.Tools.{
  Binding, task_input, host_context, constant, default, candidate_binding, source_binding,
  derivation_binding, judgment_binding, generated_binding, Tool,
}
use jev_frame.Runtime.Host.{Context, Host}
use jev_frame.Runtime.Steps.{Task, ◌>>=◌, require_now}

-- `_read_path`
abbrev pub read_path : Value → List Part → Result Value
read_path v path = elim (follow path v) [
  | none ↦ raise (run_unresolved missing_evidence)
  | some c ↦ ok c
]

-- `_host_value`
abbrev pub host_value : Context → String → Result Value
host_value context key =
    if key == "scope"
    then ok (text context.scope)
    else elim (lookup key context.host_dependencies) [
      | none ↦ raise (run_unresolved missing_evidence)
      | some v ↦ ok v
    ]

-- What a binding gives: a value (none for a default), and the evidence that it rests on.
abbrev pub Bound : Type 0
Bound = Option Value × List String

abbrev candidate_value : Option (Option Value) → Result Value
candidate_value (some (some v)) = ok v
candidate_value _ = raise (run_unresolved missing_evidence)

abbrev finding_value : Option Value → Result Value
finding_value (some v) = ok v
finding_value none = raise (run_unresolved missing_evidence)

module _ (host : Host) (context : Context) where
  -- `store.require_current(reference, scope)` for the reference of a decision, if there is one
  abbrev pub require_decision : Option String → Task (List String)
  require_decision none = pure []
  require_decision (some reference) = do
    _ ← require_now host context reference
    pure (reference ∷ [])

  -- The body of the loop of `_tool_arguments` over the bindings, before `validate_value`.
  unfoldable pub resolve : Binding → Task Bound
  resolve (task_input path) = do v ← lift (read_path context.inputs path); pure (some v, [])
  resolve (host_context key) = do v ← lift (host_value context key); pure (some v, [])
  resolve (constant v) = pure (some v, [])
  resolve default = pure (none, [])
  resolve (candidate_binding snapshot selection) = do
    s ← gets (λ w. w.shared)
    v ← lift (candidate_value (lookup selection s.selections))
    d ← require_decision (lookup selection s.decision_refs)
    pure (some v, d)
  resolve (source_binding evidence_id locator) = do
    r ← require_now host context evidence_id
    v ← lift (bind_source r locator)
    pure (some v, r.id ∷ [])
  resolve (derivation_binding transformation inputs) = fail (run_unresolved missing_capability)
  resolve (judgment_binding judgment_id) = do
    s ← gets (λ w. w.shared)
    v ← lift (finding_value (lookup judgment_id s.findings))
    d ← require_decision (lookup judgment_id s.decision_refs)
    pure (some v, d)
  resolve (generated_binding capability) = fail (run_unresolved missing_capability)

  abbrev pub validated : String → Option Value → Dict String Value → Result (Dict String Value)
  validated name none result = ok result
  validated name (some v) result = elim (host.validate_value name v) [
    | raise e ↦ raise e
    | ok v' ↦ ok (insert name v' result)
  ]

  -- The loop over the bindings.
  unfoldable pub bind_all :
      Dict String Binding → Dict String Value → List String → Task (Dict String Value × List String)
  bind_all [] result dependencies = pure (result, dependencies)
  bind_all ((name, b) ∷ bindings) result dependencies = do
    (v, d) ← resolve b
    next ← lift (validated name v result)
    bind_all bindings next (dependencies ++ d)

  -- The loop over the required evidence.
  unfoldable pub require_all : List String → Task (List Evidence)
  require_all [] = pure []
  require_all (reference ∷ references) = do
    r ← require_now host context reference
    rs ← require_all references
    pure (r ∷ rs)

  abbrev pub ids : List Evidence → List String
  ids [] = []
  ids (r ∷ rs) = r.id ∷ ids rs

  -- `_tool_arguments`
  unfoldable pub tool_arguments : Tool → Task (Dict String Value × List String)
  tool_arguments tool = do
    required ← require_all tool.requires_evidence
    (result, dependencies) ← bind_all tool.bindings [] (ids required)
    pure (result, from_keys [] dependencies)
