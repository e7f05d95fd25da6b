-- ===== src/Payload/Covers/Kinds.antt =====
-- Each kind of input item of src/payload.rs emits targets with a path.
use agent_veil.Domain.{FieldClass}
use agent_veil.Payload.Request.{
  collect_instructions, collect_input, collect_tools, metadata_members, collect_metadata,
  collect_targets,
}
use agent_veil.Payload.Dispatch.{collect_kind, collect_input_item}
use agent_veil.Payload.Items.{
  collect_tool_array, collect_content_array, collect_message, collect_agent_message,
  collect_output_payload, collect_string_field, reasoning_field, collect_reasoning,
  collect_known_structural_item, collect_compaction, collect_additional_tools, tool_entry,
  structural_members,
}
use agent_veil.Prelude.{
  ℕ, Text, List, Option-cases, ok_or, inl, ok, bytes, inr, ◌++◌, ◌∷◌, [], none, refuse_if, not,
  All-append, refl,
}
use agent_veil.Payload.Value.{Value, Members, get_member, as_array, is_string}
use agent_veil.Payload.Target.{
  FieldPath, RewriteMode, validate_common_item_fields, each_value, PathSegment, new_target,
}
use agent_veil.Payload.Covers.Collected.{
  Emits, emits_rules, agent_part-Emits, Emits-err, content_part-Emits, Emits-if, each_value-Emits,
  Emits-bind, output_part-Emits, Emits-append, reasoning_part-Emits, Emits-nil, Emits-ok,
  tool_value-All, structural_members-All, Emits-chain, IsLocated,
}

tool_array-Emits : (tools : Value) (path : FieldPath) → Emits (collect_tool_array tools path)
unfolding collect_tool_array tool_entry
tool_array-Emits tools path =
    Emits-bind (ok_or (as_array tools) _) (each_value (tool_entry path) 0) λ vs.
      each_value-Emits (tool_entry path)
        (λ i v. Emits-ok _ (tool_value-All v (path ++ PathSegment.index i ∷ []) none)) 0 vs

ruleset part_rules = (
  emits_rules, agent_part-Emits, content_part-Emits, output_part-Emits, reasoning_part-Emits,
  each_value-Emits, tool_array-Emits,
)

content_array-Emits :
    (v : Value) (base : FieldPath) (class : FieldClass) → Emits (collect_content_array v base class)
unfolding collect_content_array
content_array-Emits v base class = search part_rules depth 7

message-Emits :
    (object : Members) (base : FieldPath) (class : FieldClass)
    → Emits (collect_message object base class)
unfolding collect_message
message-Emits object base class = search (part_rules, content_array-Emits) depth 9

agent_message-Emits :
    (object : Members) (base : FieldPath) → Emits (collect_agent_message object base)
unfolding collect_agent_message
agent_message-Emits object base = search part_rules depth 9

output_payload-Emits :
    (object : Members) (base : FieldPath) (class : FieldClass) (keys : List Text)
    → Emits (collect_output_payload object base class keys)
unfolding collect_output_payload
output_payload-Emits object base class keys = search part_rules depth 9

string_field-Emits :
    (object : Members) (base : FieldPath) (field : Text) (class : FieldClass) (mode : RewriteMode)
    (keys : List Text)
    → Emits (collect_string_field object base field class mode keys)
unfolding collect_string_field
string_field-Emits object base field class mode keys = search emits_rules depth 9

reasoning_field-Emits :
    (object : Members) (base : FieldPath) (field : Text) → Emits (reasoning_field object base field)
unfolding reasoning_field
reasoning_field-Emits object base field = elim (Option-cases (get_member field object)) [
  | inl e ↦ rw (e, reasoning_field) Emits-nil
  | inr (v, e) ↦ rw (e, reasoning_field) (search part_rules depth 7)
]

reasoning-Emits : (object : Members) (base : FieldPath) → Emits (collect_reasoning object base)
unfolding collect_reasoning
reasoning-Emits object base = search (emits_rules, Emits-append, reasoning_field-Emits) depth 9

structural_item-Emits :
    (object : Members) (base : FieldPath) → Emits (collect_known_structural_item object base)
unfolding collect_known_structural_item
structural_item-Emits object base =
    Emits-bind (validate_common_item_fields object) (λ _. ok (structural_members object base))
      λ _. Emits-ok _ (structural_members-All object base)

compaction-Emits : (object : Members) → Emits (collect_compaction object)
unfolding collect_compaction
compaction-Emits object = search emits_rules depth 9

additional_tools-Emits :
    (object : Members) (base : FieldPath) → Emits (collect_additional_tools object base)
unfolding collect_additional_tools
additional_tools-Emits object base = search part_rules depth 9

ruleset kind_rules = (
  Emits-err, Emits-if, message-Emits, agent_message-Emits, output_payload-Emits, string_field-Emits,
  reasoning-Emits, structural_item-Emits, compaction-Emits, additional_tools-Emits,
)

kind-Emits :
    (kind : Text) (object : Members) (base : FieldPath) → Emits (collect_kind kind object base)
unfolding collect_kind
kind-Emits kind object base = search kind_rules depth 16

input_item-Emits : (i : ℕ) (item : Value) → Emits (collect_input_item i item)
unfolding collect_input_item
input_item-Emits i item = search (emits_rules, kind-Emits)

instructions-Emits : (root : Members) → Emits (collect_instructions root)
unfolding collect_instructions
instructions-Emits root = elim (Option-cases (get_member (bytes "instructions") root)) [
  | inl e ↦ rw (e, collect_instructions) Emits-nil
  | inr (v, e) ↦ rw (e, collect_instructions) (search emits_rules)
]

input-Emits : (input : Value) → Emits (collect_input input)
unfolding collect_input
input-Emits (Value.string s) = search emits_rules
input-Emits (Value.array items) = each_value-Emits collect_input_item input_item-Emits 0 items
input-Emits _ = search emits_rules

tools-Emits : (root : Members) → Emits (collect_tools root)
unfolding collect_tools
tools-Emits root = elim (Option-cases (get_member (bytes "tools") root)) [
  | inl e ↦ rw (e, collect_tools) Emits-nil
  | inr (v, e) ↦ rw (e, collect_tools) (tool_array-Emits v _)
]

metadata_members-Emits : (ms : Members) → Emits (metadata_members ms)
unfolding metadata_members
metadata_members-Emits Members.end = search emits_rules
metadata_members-Emits (Members.member k v ms) = Emits-bind (refuse_if (not (is_string v)) _) _ λ _.
    Emits-chain (metadata_members ms) _ (metadata_members-Emits ms) λ ts h.
      Emits-ok
        (new_target (PathSegment.key (bytes "client_metadata") ∷ PathSegment.key k ∷ [])
            FieldClass.client_metadata RewriteMode.block_only
          ∷ ts)
        (unfold new_target in (refl, h))

metadata-Emits : (root : Members) → Emits (collect_metadata root)
unfolding collect_metadata
metadata-Emits root = elim (Option-cases (get_member (bytes "client_metadata") root)) [
  | inl e ↦ rw (e, collect_metadata) Emits-nil
  | inr (v, e) ↦ rw (e, collect_metadata) (search (emits_rules, metadata_members-Emits))
]

-- What `parse` has collected before it looks for the strings that are left.
pub collect_targets-Emits : (root : Members) → Emits (collect_targets root)
unfolding collect_targets
collect_targets-Emits root =
    Emits-chain (collect_instructions root) _ (instructions-Emits root) λ a ha.
      Emits-bind (ok_or (get_member (bytes "input") root) _) _ λ input.
        Emits-chain (collect_input input) _ (input-Emits input) λ b hb.
          Emits-chain (collect_tools root) _ (tools-Emits root) λ c hc.
            Emits-chain (collect_metadata root) _ (metadata-Emits root) λ d hd.
              Emits-ok (a ++ (b ++ (c ++ d))) (
                All-append IsLocated a _ ha
                  (All-append IsLocated b _ hb (All-append IsLocated c d hc hd)))
