-- ===== src/Payload/Items.antt =====
-- The collectors of src/payload.rs for one item of `input`: which of its fields are checked, and
-- which of its texts are targets.
use agent_veil.Payload.Strings.{collect_tool_value, collect_all_strings}
use agent_veil.Domain.{FieldClass}
use agent_veil.Prelude.{
  ℕ, Text, ◌>>◌, ◌>>=◌, List, [], ok, ok_or, if◌then◌else◌, contains, ◌++◌, ◌∷◌, bytes, none, ◌||◌,
  some, err, refuse_if, is_some,
}
use agent_veil.Payload.Value.{
  Value, Members, get_member, as_object, as_array, str_at, is_text, is_string, is_null,
}
use agent_veil.Payload.Target.{
  PayloadError, FieldPath, Checked, Targets, RewriteMode, ensure_text_part, ensure_allowed_keys,
  validate_common_item_fields, new_target, texts, require_string, PathSegment, each_value,
  require_optional_string, validate_optional_metadata,
}

-- A text part: the target of its `text`.
unfoldable pub text_target : FieldPath → Text → ℕ → FieldClass → Members → Checked Targets
text_target base field i class part = do
  ensure_text_part part
  ok (
      new_target
        (base
          ++ (PathSegment.key field ∷ PathSegment.index i ∷ PathSegment.key (bytes "text") ∷ []))
        class RewriteMode.rewrite
      ∷ [])

unfoldable pub encrypted_part : Members → Checked Targets
encrypted_part part = do
  ensure_allowed_keys part (texts ("type" ∷ "encrypted_content" ∷ []))
      PayloadError.unsupported_content_part_field
  require_string part (bytes "encrypted_content")
  ok []

-- The loop body of `collect_agent_message`.
unfoldable pub agent_part : FieldPath → ℕ → Value → Checked Targets
agent_part base i v = do
  part ← ok_or (as_object v) PayloadError.content_part_must_be_object
  let kind = str_at (bytes "type") part
  if is_text kind (bytes "input_text")
      then text_target base (bytes "content") i FieldClass.agent_message_text part
      else if is_text kind (bytes "encrypted_content")
      then encrypted_part part
      else err PayloadError.unsupported_content_part

-- The loop body of `collect_content_array`.
unfoldable pub content_part : FieldPath → FieldClass → ℕ → Value → Checked Targets
content_part base class i v = do
  part ← ok_or (as_object v) PayloadError.content_part_must_be_object
  let kind = str_at (bytes "type") part
  if is_text kind (bytes "input_text") || is_text kind (bytes "output_text")
      then text_target base (bytes "content") i class part
      else if is_text kind (bytes "input_image") || is_text kind (bytes "input_file")
      then err PayloadError.unsupported_media
      else err PayloadError.unsupported_content_part

-- The loop body of `collect_output_payload`.
unfoldable pub output_part : FieldPath → FieldClass → ℕ → Value → Checked Targets
output_part base class i v = do
  part ← ok_or (as_object v) PayloadError.content_part_must_be_object
  let kind = str_at (bytes "type") part
  if is_text kind (bytes "input_text")
      then text_target base (bytes "output") i class part
      else if is_text kind (bytes "encrypted_content")
      then encrypted_part part
      else if is_text kind (bytes "input_image")
      then err PayloadError.unsupported_media
      else err PayloadError.unsupported_content_part

-- The inner loop body of `collect_reasoning`.
unfoldable pub reasoning_part : FieldPath → Text → ℕ → Value → Checked Targets
reasoning_part base field i v = do
  part ← ok_or (as_object v) PayloadError.content_part_must_be_object
  let kind = str_at (bytes "type") part
  if is_text kind (bytes "summary_text") || is_text kind (bytes "reasoning_text")
      then text_target base field i FieldClass.reasoning_summary part
      else err PayloadError.unsupported_content_part

unfoldable pub collect_content_array : Value → FieldPath → FieldClass → Checked Targets
collect_content_array content base class = do
  parts ← ok_or (as_array content) (PayloadError.invalid_field_type (bytes "content"))
  each_value (content_part base class) 0 parts

unfoldable pub collect_message : Members → FieldPath → FieldClass → Checked Targets
collect_message object base class = do
  ensure_allowed_keys object
      (texts (
        "id" ∷ "type" ∷ "role" ∷ "content" ∷ "phase" ∷ "internal_chat_message_metadata_passthrough"
        ∷ []))
      PayloadError.unsupported_item_field
  validate_common_item_fields object
  require_string object (bytes "role")
  content ←
      ok_or (get_member (bytes "content") object) (PayloadError.missing_field (bytes "content"))
  if is_string content
      then ok (
          new_target (base ++ PathSegment.key (bytes "content") ∷ []) class RewriteMode.rewrite
          ∷ [])
      else collect_content_array content base class

unfoldable pub collect_agent_message : Members → FieldPath → Checked Targets
collect_agent_message object base = do
  ensure_allowed_keys object
      (texts (
        "id" ∷ "type" ∷ "author" ∷ "recipient" ∷ "content"
        ∷ "internal_chat_message_metadata_passthrough" ∷ []))
      PayloadError.unsupported_item_field
  validate_common_item_fields object
  require_string object (bytes "author")
  require_string object (bytes "recipient")
  content ←
      ok_or (elim (get_member (bytes "content") object) [ none ↦ none | some v ↦ as_array v ])
        (PayloadError.invalid_field_type (bytes "agent_message.content"))
  each_value (agent_part base) 0 content

unfoldable pub collect_output_payload :
    Members → FieldPath → FieldClass → List Text → Checked Targets
collect_output_payload object base class allowed_keys = do
  ensure_allowed_keys object allowed_keys PayloadError.unsupported_item_field
  validate_common_item_fields object
  require_string object (bytes "call_id")
  output ← ok_or (get_member (bytes "output") object) (PayloadError.missing_field (bytes "output"))
  if is_string output
      then ok (
          new_target (base ++ PathSegment.key (bytes "output") ∷ []) class RewriteMode.rewrite ∷ [])
      else (do
        parts ← ok_or (as_array output) (PayloadError.invalid_field_type (bytes "output"))
        each_value (output_part base class) 0 parts)

unfoldable pub collect_string_field :
    Members → FieldPath → Text → FieldClass → RewriteMode → List Text → Checked Targets
collect_string_field object base field class mode allowed_keys = do
  ensure_allowed_keys object allowed_keys PayloadError.unsupported_item_field
  validate_common_item_fields object
  require_string object (bytes "call_id")
  require_string object (bytes "name")
  require_string object field
  ok (new_target (base ++ PathSegment.key field ∷ []) class mode ∷ [])

-- The outer loop body of `collect_reasoning`.
unfoldable pub reasoning_field : Members → FieldPath → Text → Checked Targets
reasoning_field object base field = elim (get_member field object) [
  | none ↦ ok []
  | some parts ↦ if is_null parts then ok [] else (do
    vs ← ok_or (as_array parts) (PayloadError.invalid_field_type (bytes "reasoning text"))
    each_value (reasoning_part base field) 0 vs)
]

unfoldable pub collect_reasoning : Members → FieldPath → Checked Targets
collect_reasoning object base = do
  ensure_allowed_keys object
      (texts (
        "id" ∷ "type" ∷ "summary" ∷ "content" ∷ "encrypted_content"
        ∷ "internal_chat_message_metadata_passthrough" ∷ []))
      PayloadError.unsupported_item_field
  validate_common_item_fields object
  require_optional_string object (bytes "encrypted_content")
  validate_optional_metadata object
  summary ← reasoning_field object base (bytes "summary")
  content ← reasoning_field object base (bytes "content")
  ok (summary ++ content)

-- The loop of `collect_known_structural_item`.
unfoldable pub structural_members : Members → FieldPath → Targets
structural_members Members.end base = []
structural_members (Members.member k v ms) base =
    (if contains
        (texts (
          "id" ∷ "type" ∷ "call_id" ∷ "status" ∷ "internal_chat_message_metadata_passthrough" ∷ []))
        k
      then []
      else collect_all_strings v (base ++ PathSegment.key k ∷ []) FieldClass.function_arguments)
    ++ structural_members ms base

unfoldable pub collect_known_structural_item : Members → FieldPath → Checked Targets
collect_known_structural_item object base = do
  validate_common_item_fields object
  ok (structural_members object base)

unfoldable pub collect_compaction : Members → Checked Targets
collect_compaction object = do
  ensure_allowed_keys object
      (texts
        ("id" ∷ "type" ∷ "encrypted_content" ∷ "internal_chat_message_metadata_passthrough" ∷ []))
      PayloadError.unsupported_item_field
  validate_common_item_fields object
  let kind = str_at (bytes "type") object
  if is_text kind (bytes "compaction_trigger")
      then refuse_if (is_some (get_member (bytes "encrypted_content") object))
          (PayloadError.invalid_field_type (bytes "encrypted_content"))
      else if is_text kind (bytes "context_compaction")
      then require_optional_string object (bytes "encrypted_content")
      else require_string object (bytes "encrypted_content")
  validate_optional_metadata object
  ok []

-- The loop body of `collect_tool_array`.
unfoldable pub tool_entry : FieldPath → ℕ → Value → Checked Targets
tool_entry path i tool = ok (collect_tool_value tool (path ++ PathSegment.index i ∷ []) none)

unfoldable pub collect_tool_array : Value → FieldPath → Checked Targets
collect_tool_array tools path = do
  vs ← ok_or (as_array tools) (PayloadError.invalid_field_type (bytes "tools"))
  each_value (tool_entry path) 0 vs

unfoldable pub collect_additional_tools : Members → FieldPath → Checked Targets
collect_additional_tools object base = do
  ensure_allowed_keys object (texts ("id" ∷ "type" ∷ "role" ∷ "tools" ∷ []))
      PayloadError.unsupported_item_field
  validate_common_item_fields object
  require_string object (bytes "role")
  tools ← ok_or (get_member (bytes "tools") object) (PayloadError.missing_field (bytes "tools"))
  collect_tool_array tools (base ++ PathSegment.key (bytes "tools") ∷ [])
