-- ===== src/Payload/Dispatch.antt =====
-- `collect_input_item` of src/payload.rs: the kind of an item chooses its collector.
use agent_veil.Domain.{FieldClass}
use agent_veil.Payload.Items.{
  collect_message, collect_agent_message, collect_output_payload, collect_string_field,
  collect_additional_tools, collect_reasoning, collect_known_structural_item, collect_compaction,
}
use agent_veil.Prelude.{
  ℕ, Text, ◌>>=◌, if◌then◌else◌, ok_or, text_eq, bytes, ◌∷◌, [], contains, err,
}
use agent_veil.Payload.Value.{Value, Members, as_object, str_at}
use agent_veil.Payload.Target.{
  PayloadError, Checked, Targets, FieldPath, PathSegment, texts, RewriteMode,
}

-- The match on `item_type`.
unfoldable pub collect_kind : Text → Members → FieldPath → Checked Targets
collect_kind kind object base =
    if text_eq kind (bytes "message")
    then collect_message object base FieldClass.message_text
    else if text_eq kind (bytes "agent_message")
    then collect_agent_message object base
    else if text_eq kind (bytes "function_call_output")
    then collect_output_payload object base FieldClass.function_output (
        texts (
          "id" ∷ "type" ∷ "call_id" ∷ "output" ∷ "internal_chat_message_metadata_passthrough" ∷ []))
    else if text_eq kind (bytes "custom_tool_call_output")
    then collect_output_payload object base FieldClass.custom_tool_output (
        texts (
          "id" ∷ "type" ∷ "call_id" ∷ "name" ∷ "output"
          ∷ "internal_chat_message_metadata_passthrough" ∷ []))
    else if text_eq kind (bytes "function_call")
    then collect_string_field object base (bytes "arguments") FieldClass.function_arguments
        RewriteMode.rewrite
        (texts (
          "id" ∷ "type" ∷ "name" ∷ "namespace" ∷ "arguments" ∷ "call_id"
          ∷ "internal_chat_message_metadata_passthrough" ∷ []))
    else if text_eq kind (bytes "custom_tool_call")
    then collect_string_field object base (bytes "input") FieldClass.custom_tool_input
        RewriteMode.rewrite
        (texts (
          "id" ∷ "type" ∷ "status" ∷ "call_id" ∷ "name" ∷ "namespace" ∷ "input"
          ∷ "internal_chat_message_metadata_passthrough" ∷ []))
    else if text_eq kind (bytes "additional_tools")
    then collect_additional_tools object base
    else if text_eq kind (bytes "reasoning")
    then collect_reasoning object base
    else if contains
        (texts
          ("local_shell_call" ∷ "tool_search_call" ∷ "tool_search_output" ∷ "web_search_call" ∷ []))
        kind
    then collect_known_structural_item object base
    else if contains
        (texts
          ("compaction" ∷ "compaction_summary" ∷ "context_compaction" ∷ "compaction_trigger" ∷ []))
        kind
    then collect_compaction object
    else if text_eq kind (bytes "image_generation_call")
    then err PayloadError.unsupported_media
    else err PayloadError.unsupported_input_item

unfoldable pub collect_input_item : ℕ → Value → Checked Targets
collect_input_item index item = do
  object ← ok_or (as_object item) PayloadError.input_item_must_be_object
  kind ← ok_or (str_at (bytes "type") object) PayloadError.missing_item_type
  collect_kind kind object (PathSegment.key (bytes "input") ∷ PathSegment.index index ∷ [])
