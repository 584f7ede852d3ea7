-- ===== src/Runtime/Reading.antt =====
-- runtime.py: the parts of an execution that only read the run's state.
use jev_frame.Prelude.{arith, String, refl, string_eq, Option, none, some, List, [], ◌∷◌}
use jev_frame.Prelude.Dict.{Dict, lookup}
use jev_frame.State.Value.{Value}
use jev_frame.Policy.{ActionProposal, AuthorizationRecord}
use jev_frame.Definitions.Tools.{
  Binding, task_input, host_context, constant, default, candidate_binding, source_binding,
  derivation_binding, judgment_binding, generated_binding, Tool,
}
use jev_frame.Runtime.Host.{Context, Run, Host}
use jev_frame.Runtime.Steps.{◌>>=◌, require_now}
use jev_frame.Runtime.Trace.{Same, Reading, Reading-bind, Reading-except}
use jev_frame.Runtime.Arguments.{resolve, require_decision, bind_all, require_all, tool_arguments}
use jev_frame.Runtime.Mutation.{require_acceptance, require_acceptances, current_action}

kept : (w : Run) → Same w w
kept w = record { shared = refl; calls = refl }

module _ (host : Host) (context : Context) where
  pub require_now-Reading : (reference : String) → Reading (require_now host context reference)
  unfolding require_now ◌>>=◌
  require_now-Reading reference w = record { shared = ground arith; calls = ground arith }

  require_decision-Reading : (d : Option String) → Reading (require_decision host context d)
  require_decision-Reading none = kept
  require_decision-Reading (some reference) =
      Reading-bind _ _ (require_now-Reading reference) (λ _. kept)

  resolve-Reading : (b : Binding) → Reading (resolve host context b)
  unfolding resolve
  resolve-Reading (task_input path) = Reading-bind _ _ kept (λ _. kept)
  resolve-Reading (host_context key) = Reading-bind _ _ kept (λ _. kept)
  resolve-Reading (constant v) = kept
  resolve-Reading default = kept
  resolve-Reading (candidate_binding snapshot selection) =
      Reading-bind _ _ kept (λ s.
        Reading-bind _ _ kept (λ v. Reading-bind _ _ (require_decision-Reading _) (λ _. kept)))
  resolve-Reading (source_binding evidence_id locator) =
      Reading-bind _ _ (require_now-Reading evidence_id) (λ r. Reading-bind _ _ kept (λ _. kept))
  resolve-Reading (derivation_binding t i) = kept
  resolve-Reading (judgment_binding j) =
      Reading-bind _ _ kept (λ s.
        Reading-bind _ _ kept (λ v. Reading-bind _ _ (require_decision-Reading _) (λ _. kept)))
  resolve-Reading (generated_binding c) = kept

  bind_all-Reading :
      (bs : Dict String Binding) (result : Dict String Value) (dependencies : List String)
      → Reading (bind_all host context bs result dependencies)
  unfolding bind_all
  bind_all-Reading [] result dependencies = kept
  bind_all-Reading ((name, b) ∷ bs) result dependencies =
      Reading-bind _ _ (resolve-Reading b)
        (λ q. Reading-bind _ _ kept (λ next. bind_all-Reading bs next _))

  pub require_all-Reading :
      (references : List String) → Reading (require_all host context references)
  unfolding require_all
  require_all-Reading [] = kept
  require_all-Reading (reference ∷ references) =
      Reading-bind _ _ (require_now-Reading reference)
        (λ r. Reading-bind _ _ (require_all-Reading references) (λ rs. kept))

  pub tool_arguments-Reading : (tool : Tool) → Reading (tool_arguments host context tool)
  unfolding tool_arguments
  tool_arguments-Reading tool =
      Reading-bind _ _ (require_all-Reading tool.requires_evidence)
        (λ required. Reading-bind _ _ (bind_all-Reading tool.bindings [] _) (λ q. kept))

module _ (host : Host) (tool : Tool) (context : Context) where
  require_acceptance-Reading :
      (o : Option String) → Reading (require_acceptance host tool context o)
  unfolding require_acceptance
  require_acceptance-Reading none = kept
  require_acceptance-Reading (some reference) =
      Reading-bind _ _ (require_now-Reading host context reference) (λ _. kept)

  pub require_acceptances-Reading :
      (bs : Dict String Binding) → Reading (require_acceptances host tool context bs)
  unfolding require_acceptances
  require_acceptances-Reading [] = kept
  require_acceptances-Reading ((name, judgment_binding j) ∷ bs) = Reading-bind _ _ kept (λ s.
      Reading-bind _ _ (require_acceptance-Reading (lookup j s.acceptance_refs))
        (λ _. require_acceptances-Reading bs))
  require_acceptances-Reading ((name, task_input path) ∷ bs) = require_acceptances-Reading bs
  require_acceptances-Reading ((name, host_context key) ∷ bs) = require_acceptances-Reading bs
  require_acceptances-Reading ((name, constant v) ∷ bs) = require_acceptances-Reading bs
  require_acceptances-Reading ((name, default) ∷ bs) = require_acceptances-Reading bs
  require_acceptances-Reading ((name, candidate_binding a b) ∷ bs) = require_acceptances-Reading bs
  require_acceptances-Reading ((name, source_binding a b) ∷ bs) = require_acceptances-Reading bs
  require_acceptances-Reading ((name, derivation_binding a b) ∷ bs) = require_acceptances-Reading bs
  require_acceptances-Reading ((name, generated_binding a) ∷ bs) = require_acceptances-Reading bs

  pub current_action-Reading :
      (operation_id : String) (p : ActionProposal) (a : AuthorizationRecord)
      → Reading (current_action host tool context operation_id p a)
  unfolding current_action
  current_action-Reading operation_id p a =
      Reading-bind _ _ (λ w. record { shared = refl; calls = refl })
        (λ now. Reading-bind _ _ kept (λ _.
          Reading-bind _ _
            (Reading-except _ _
              (Reading-bind _ _ (require_acceptances-Reading tool.bindings) (λ _.
                Reading-bind _ _ (tool_arguments-Reading host context tool)
                  (λ q. Reading-bind _ _ (require_all-Reading host context q.1) (λ sources. kept))))
              (λ e w. record { shared = ground arith; calls = ground arith }))
            (λ q. Reading-bind _ _ kept (λ current. Reading-bind _ _ kept (λ _.
              Reading-bind _ _ (λ w. record { shared = refl; calls = refl })
                (λ later. Reading-bind _ _ kept (λ _. kept)))))))
