-- ===== src/Lib.antt =====
-- Jev-Frame runs agents whose judgments are made by a language model inside limits, evidence and
-- policies that the host sets. This library models the parts that these promises rest on, and proves
-- what they promise.
--
-- The parts, and the files that model them:
--   * src/jev_frame/limits.py, the ledger of a run: Limits (`UsageLedger` as the record `Ledger`, its
--     admissions), Limits/Measurement and Limits/Accounting (usage measurements, `snapshot`),
--     Limits/Requests (any sequence of calls, as `serve`). The theorems are in Limits/Bounds, Atomic,
--     Identity, Writes and Stable.
--   * src/jev_frame/state.py, retained evidence: State/Value and State/Evidence (the records and
--     the checks of their constructors), State/Store (`EvidenceStore`: `add` is `add_record`, then
--     `get`, `invalidate`, `is_current`, `require_current`), State/Project (`project`),
--     State/Sources (`bind_source`), State/Candidates (`select_candidate`). State/Store/WellFormed
--     holds the invariant; Sweeping, Invalidating, Adding, History, Current and Lasting, and
--     State/Project/Fuel and Closure, hold the proofs.
--   * src/jev_frame/policy.py: Policy (`ActionProposal`, `AuthorizationRecord`, `CheckpointRecord`,
--     `AcceptancePolicy`, `RequiredCheckpoint`), Policy/Records (`ExecutionReceipt`, `WriteRecord`),
--     Policy/Encoding (a write record as a value), Policy/Decisions (the proofs).
--   * src/jev_frame/runtime.py, `_execute_mutation` and what it calls: Runtime/Host (the host and the
--     state of a run), Runtime/Steps (single steps), Runtime/Arguments (`_tool_arguments`),
--     Runtime/Mutation and Runtime/Mutation/Dispatch. Runtime/Approval states what a dispatch needs;
--     Trace, Reading, Quiet, Facts, Current, Prepared, Guarding and Guarded prove it, Receipts and
--     Returned what a mutation returns.
--   * src/jev_frame/planning.py, `_validate_plan`: Planning, with the proofs in Planning/Order,
--     Follows and Complete.
--   * src/jev_frame/compiler.py, `compile_agent` and `compile_judgment`: Compiler/Program (the compiled
--     program as data), Compiler/Steps (the state of a `_Compiler` and the steps of its methods),
--     Providers, Questions, Needs, Bindings and Visits (the methods of the search), Search (`compile`
--     from the roots on), Stages (`_stages`), Agent (`compile_agent`), Direct (`compile_judgment`).
--     In Compiler/Search, Invariant and Post say what holds between the steps and Searching proves it
--     of the whole search, from the modules beside it, one for each method. Compiler/Stages has the
--     proofs about stages, Compiler/Agent those about the tables that `__init__` builds (Sound,
--     Tables), the errors (Refusing) and the program (Compiled, Promises). Compiler/Direct/Agreement
--     compares the two entry points.
--   * src/jev_frame/artifacts.py: Artifacts (the recipe, its checks and their constructors),
--     Artifacts/Planner, Findings and Calls (`_GenerateVerifyPlanner`, whose `__call__` is `call`;
--     Planning/Turns has what goes in and out), Artifacts/Accepting (`accepts`). Artifacts/Sessions
--     calls the planner as `PlannerEngine.run` does, until its answer is final, with any outcomes;
--     Steps and Lowering count its revisions and turns, Passing and Verified follow its findings,
--     Proposed, Supporting and Backed state what a proposal and its acceptance rest on.
--   * src/jev_frame/definitions.py: Definitions, Definitions/Tools (bindings and tools) and
--     Definitions/Agents (judgments, candidates, packages and agent definitions).
-- A mutation of the runtime proposes an action (Policy), requires evidence to be current (State), asks
-- for admission (Limits), and keeps what became of it as evidence (State).
--
-- How the code is read. A method that changes an object and may raise is a function from the state to
-- a result and the new state (Exec); what was written before a raise stays written. Exceptions are
-- the constructors of `Error` without their messages (Errors). Dicts and sets are lists in the order
-- of insertion (Prelude/Dict, Prelude/Set). Clock values and timeouts are numbers: the code only
-- compares them and takes their difference. The checks by `type` and `isinstance` are what the types of
-- the model say.
--
-- Loops. `invalidate` has fuel for every link of the index of dependents and one round more,
-- `project` for every item that the records can push, and `is_current` for a nesting as deep as the
-- number of records: in a well-formed store these suffice, as the results say of each.
-- `_validate_plan` has a round for every step, and each round takes one at least. The planner of a
-- recipe has a number of turns left that each of its answers lowers. The search of the compiler may
-- go as deep as there are judgments and tools, since each visit marks one more, and `level` as deep
-- as there are judgments. The other loops are structural.
--
-- Concurrency. The ledger's methods hold its lock and so are atomic; any interleaving of its callers is
-- a list of requests. While a mutation awaits the host, the semaphore or the lock, the other tasks of
-- the run perform arbitrary requests on the ledger and changes of the evidence store, and set the
-- other fields of the run's state freely. The host's answers may depend on all calls so far, may be
-- exceptions and may be cancellations.
--
-- Parameters. `canonical_digest`, `candidate_snapshot_digest` and `canonical_json` (json and
-- hashlib), `validate_value` (Pydantic), the tests `_text` and `_version` (regular expressions),
-- and all callables of the host.
--
-- Not modelled: the scheduler's loop, judgments and investigations, the loop of the planner engine, the
-- decision client, documents, calibration and evaluation; input and output (fixtures,
-- provider, integrations); the events that `_emit` logs; the messages of diagnostics and the JSON view of
-- a compiled program.
pub mod Prelude
pub mod Errors
pub mod Exec
pub mod Artifacts
pub mod Compiler
pub mod Definitions
pub mod Limits
pub mod State
pub mod Policy
pub mod Runtime
pub mod Planning
