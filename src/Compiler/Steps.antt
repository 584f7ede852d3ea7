-- ===== src/Compiler/Steps.antt =====
-- compiler.py: the state of a `_Compiler`, and the steps that its methods are made of. An exception
-- ends the compilation, and the object that it leaves is dropped: so a step gives a new state only
-- with a value.
use jev_frame.Prelude.{String, Bool, List, [], ◌∷◌, ◌++◌, Option, none, some, if◌then◌else◌}
use jev_frame.Prelude.Dict.{Dict}
use jev_frame.Errors.{Result, ok, raise, compiler_error, key_error}
use jev_frame.State.Value.{Value}
use jev_frame.Definitions.Tools.{Tool}
use jev_frame.Definitions.Agents.{Judgment, CandidateSet, CandidateProvider, AgentDefinition}
use jev_frame.Compiler.Diagnostics.{NodeId, Diagnostic}
use jev_frame.Compiler.Program.{CompiledNode, CompiledQuestion, CandidatePreview}

-- The fields that no method changes. `task_input` is none for `MISSING`.
pub record Setup : Type 0 where
  pub definition : AgentDefinition
  pub snapshots : Dict String CandidateSet
  pub available_evidence : List String
  pub task_input : Option Value
  pub host_context_keys : List String
  pub question_ids : Dict String String
  pub capability_roots : List String
  pub tools : Dict String Tool
  pub judgments : Dict String Judgment
  pub providers : Dict String CandidateProvider
  pub producers : Dict String (List Tool)

-- The other fields.
pub record Compiling : Type 0 where
  pub nodes : Dict NodeId CompiledNode
  pub questions : Dict String CompiledQuestion
  pub candidates : Dict String CandidatePreview
  pub diagnostics : List Diagnostic
  pub visiting : List NodeId

abbrev pub Compile : Type 0 → Type 0
Compile A = Compiling → Result (A × Compiling)

-- They do not compute by themselves, so that a proof can go by the parts of a method.
infixl 5 ◌>>=◌ ◌>>◌
unfoldable pub ◌>>=◌ : {A B : Type 0} → Compile A → (A → Compile B) → Compile B
◌>>=◌ m f s = elim (m s) [ ok (a, t) ↦ f a t | raise e ↦ raise e ]

abbrev pub ◌>>◌ : {B : Type 0} → Compile (Unit {0}) → Compile B → Compile B
m >> k = m >>= λ _. k

unfoldable pub pure : {A : Type 0} → A → Compile A
pure a s = ok (a, s)

unfoldable pub gets : {A : Type 0} → (Compiling → A) → Compile A
gets f s = ok (f s, s)

unfoldable pub modify : (Compiling → Compiling) → Compile (Unit {0})
modify f s = ok (tt, f s)

unfoldable pub choose : {A : Type 0} → Bool → Compile A → Compile A → Compile A
choose b m k s = if b then m s else k s

unfoldable pub by_option : {A B : Type 0} → Option A → Compile B → (A → Compile B) → Compile B
by_option none m f s = m s
by_option (some a) m f s = f a s

-- `d[k]`
unfoldable pub found : {A : Type 0} → Option A → Compile A
found none s = raise key_error
found (some a) s = ok (a, s)

-- a comprehension over a list
unfoldable pub for_each : {A B : Type 0} → (A → Compile B) → List A → Compile (List B)
unfolding ◌>>=◌ pure
for_each f [] = pure []
for_each f (x ∷ xs) = f x >>= λ y. for_each f xs >>= λ ys. pure (y ∷ ys)

unfoldable pub fail_with : {A : Type 0} → Diagnostic → Compile A
fail_with d s = raise (compiler_error d)

-- `self.diagnostics.append(d)`
unfoldable pub report : Diagnostic → Compile (Unit {0})
unfolding modify
report d = modify (λ s. record s { diagnostics = s.diagnostics ++ d ∷ [] })

module _ (c : Setup) where
  -- a `CompilationDiagnostic` of this definition
  abbrev pub diagnostic :
      String → Option NodeId → (subject binding reference : Option String) → Diagnostic
  diagnostic code node_id subject binding reference = record {
    code = code;
    definition_id = c.definition.id;
    node_id = node_id;
    subject = subject;
    binding = binding;
    reference = reference;
  }

  -- `fail`
  abbrev pub fail :
      {A : Type 0}
      → String
      → Option NodeId
      → (subject binding reference : Option String) → Compile A
  fail code node_id subject binding reference =
      fail_with (diagnostic code node_id subject binding reference)
