-- ===== src/Policy/Encoding.antt =====
-- policy.py: a write record as the value of the evidence that keeps it.
use jev_frame.Prelude.{String, Option, none, some, List, [], ◌∷◌}
use jev_frame.Prelude.Int.{pos}
use jev_frame.State.Value.{
  Value, Items, null, text, flag, int, array, object, nil, cons, end, field,
}
use jev_frame.Policy.{
  ActionProposal, AuthorizationRecord, effect_text, fields_of, optional_text, version_fields,
}
use jev_frame.Policy.Records.{ExecutionReceipt, WriteRecord, state_text}

abbrev pub proposal_value : ActionProposal → Value
proposal_value p = object (
    field "operation_id" (text p.operation_id) (
      field "tool_id" (text p.tool_id) (
        field "tool_version" (text p.tool_version) (
          field "arguments" (object (fields_of p.arguments)) (
            field "scope" (text p.scope) (
              field "source_versions" (object (version_fields p.source_versions)) (
                field "effect" (text (effect_text p.effect))
                  (field "digest" (text p.digest) end))))))))

abbrev pub texts : List String → Items
texts [] = nil
texts (s ∷ ss) = cons (text s) (texts ss)

abbrev pub authorization_value : Option AuthorizationRecord → Value
authorization_value none = null
authorization_value (some a) = object (
    field "action_digest" (text a.action_digest) (
      field "scope" (text a.scope) (
        field "authorized" (flag a.authorized) (
          field "expires_at" (int (pos a.expires_at))
            (field "reasons" (array (texts a.reasons)) end)))))

abbrev pub receipt_value : Option ExecutionReceipt → Value
receipt_value none = null
receipt_value (some r) = object (
    field "operation_id" (text r.operation_id) (
      field "state" (text (state_text r.state)) (
        field "external_id" (optional_text r.external_id)
          (field "source_version" (optional_text r.source_version) end))))

abbrev pub write_value : WriteRecord → Value
write_value w = object (
    field "proposal" (proposal_value w.proposal) (
      field "state" (text (state_text w.state)) (
        field "authorization" (authorization_value w.authorization)
          (field "receipt" (receipt_value w.receipt) end))))
