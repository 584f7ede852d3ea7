-- ===== src/Artifacts/Findings.antt =====
-- artifacts.py, `_GenerateVerifyPlanner`: the findings that `_after_checks` makes of the outcomes of
-- checks, and the feedback that `_feedback` makes of those.
use jev_frame.Prelude.{
  String, Bool, true, false, not, ◌&&◌, List, [], ◌∷◌, Option, none, some, string_eq, if◌then◌else◌,
}
use jev_frame.Prelude.Set.{has, from_keys}
use jev_frame.Prelude.Dict.{Dict, lookup, insert}
use jev_frame.Prelude.Text.{join}
use jev_frame.State.Value.{Value, Items, text, null, array, object, nil, cons, end, field}
use jev_frame.Planning.Turns.{
  TerminalStatus, completed, CheckResult, OutcomeValue, check_result, StepOutcome,
}
use jev_frame.Artifacts.{CheckKind, CheckSpec, Recipe}
use jev_frame.Artifacts.Planner.{Finding, Revision, kind_text}

-- `{outcome.capability_id: outcome for outcome in outcomes}`, on what `d` holds already
abbrev pub by_capability : List StepOutcome → Dict String StepOutcome → Dict String StepOutcome
by_capability [] d = d
by_capability (o ∷ os) d = by_capability os (insert o.capability_id o d)

abbrev pub is_finished : TerminalStatus → Bool
is_finished completed = true
is_finished _ = false

abbrev pub invalid_result : CheckKind → CheckResult
invalid_result kind = record {
  passed = false;
  message = join " " (kind_text kind ∷ "check did not produce a valid result" ∷ []);
  field_ref = none;
  evidence_ref = none;
}

abbrev value_result : CheckKind → OutcomeValue → CheckResult
value_result kind (check_result r) = r
value_result kind _ = invalid_result kind

abbrev pub result_of_check : CheckKind → Option StepOutcome → CheckResult
result_of_check kind none = invalid_result kind
result_of_check kind (some o) =
    if is_finished o.status then value_result kind o.value else invalid_result kind

abbrev outcome_ref : Option StepOutcome → Option String
outcome_ref none = none
outcome_ref (some o) = o.evidence_ref

abbrev present : Option String → List String
present none = []
present (some s) = s ∷ []

-- The body of the loop of `_after_checks`.
unfoldable pub finding_of : Recipe → Revision → Dict String StepOutcome → CheckSpec → Finding
finding_of r current outcomes c =
    let outcome = lookup c.capability_id outcomes in
    let result = result_of_check c.kind outcome in
    record {
      check_id = c.id;
      check_kind = c.kind;
      artifact_revision_id = current.id;
      passed = result.passed;
      required = has c.id r.completion.required_checks;
      message = result.message;
      field_ref = result.field_ref;
      evidence_ref = outcome_ref outcome;
      source_refs = from_keys [] (current.evidence_ref ∷ present result.evidence_ref);
      supports_fields = c.supports_fields;
    }

abbrev pub is_failure : Finding → Bool
is_failure f = f.required && not f.passed

abbrev optional_value : Option String → Value
optional_value none = null
optional_value (some s) = text s

abbrev finding_items : List Finding → Items
finding_items [] = nil
finding_items (f ∷ fs) =
    let rest = finding_items fs in
    if is_failure f
    then cons
        (object (
          field "check" (text f.check_id) (
            field "kind" (text (kind_text f.check_kind))
              (field "message" (text f.message) (field "field" (optional_value f.field_ref) end)))))
        rest
    else rest

-- What `_feedback` serializes.
unfoldable pub feedback : String → Revision → List Finding → Value
feedback objective current findings = object (
    field "objective" (text objective) (
      field "artifact_revision" (text current.id)
        (field "findings" (array (finding_items findings)) end)))
