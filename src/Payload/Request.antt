-- ===== src/Payload/Request.antt =====
-- `ValidatedRequest` of src/payload.rs. `serde_json::from_slice` is a parameter: it hands over the
-- value with its keys as they stand in the text, and the visitor refuses a key that comes twice.
use agent_veil.Payload.Dispatch.{collect_input_item}
use agent_veil.Domain.{FieldClass}
use agent_veil.Payload.Controls.{validate_top_level_controls}
use agent_veil.Payload.Items.{collect_tool_array}
use agent_veil.Payload.Strings.{collect_untracked_strings}
use agent_veil.Prelude.{
  ℕ, Text, Option, List, Bool, if◌then◌else◌, some, ◌>>◌, ok, ◌>>=◌, ◌∷◌, false, bytes, [], ok_or,
  true, not, refuse_if, ◌++◌, get_elem?, ltb, none, is_some, ◌||◌, err, ◌==◌, contains, ◌&&◌,
}
use agent_veil.Payload.Value.{
  Value, Members, get_member, as_object, as_str, is_string, Values, bool_at, set_member, get_value,
  set_value,
}
use agent_veil.Payload.Target.{
  PayloadError, Targets, Checked, FieldPath, TextTarget, texts, ensure_allowed_keys, new_target,
  require_string, PathSegment, require_bool, RewriteMode, each_value,
}

pub record ValidatedRequest : Type 0 where
  pub value : Value
  pub targets : Targets

-- The order of bytes, by which a `BTreeMap` sorts its keys.
unfoldable pub text_lt : Text → Text → Bool
text_lt [] [] = false
text_lt [] (b ∷ t) = true
text_lt (a ∷ s) [] = false
text_lt (a ∷ s) (b ∷ t) = ltb a b || a == b && text_lt s t

-- `Map::insert` of a new key.
unfoldable pub insert_member : Text → Value → Members → Members
insert_member k v Members.end = Members.member k v Members.end
insert_member k v (Members.member j x ms) =
    if text_lt k j
    then Members.member k v (Members.member j x ms)
    else Members.member j x (insert_member k v ms)

-- `UniqueValueVisitor`; `seen` is the set of keys so far, and `object` the map so far.
unfoldable mutual
  pub unique_value : Value → Option Value
  unique_value Value.null = some Value.null
  unique_value (Value.boolean b) = some (Value.boolean b)
  unique_value (Value.number n) = some (Value.number n)
  unique_value (Value.string s) = some (Value.string s)
  unique_value (Value.array vs) = elim (unique_values vs) [
    | none ↦ none
    | some us ↦ some (Value.array us)
  ]
  unique_value (Value.object ms) = elim (unique_members ms [] Members.end) [
    | none ↦ none
    | some us ↦ some (Value.object us)
  ]

  pub unique_values : Values → Option Values
  unique_values Values.nil = some Values.nil
  unique_values (Values.cons v vs) = elim (unique_value v) [
    | none ↦ none
    | some u ↦ elim (unique_values vs) [ none ↦ none | some us ↦ some (Values.cons u us) ]
  ]

  pub unique_members : Members → List Text → Members → Option Members
  unique_members Members.end seen object = some object
  unique_members (Members.member k v ms) seen object =
      if contains seen k then none else elim (unique_value v) [
        | none ↦ none
        | some u ↦ unique_members ms (k ∷ seen) (insert_member k u object)
      ]

unfoldable pub top_level_keys : List Text
top_level_keys = texts (
    "model" ∷ "instructions" ∷ "input" ∷ "tools" ∷ "tool_choice" ∷ "parallel_tool_calls"
    ∷ "reasoning" ∷ "store" ∷ "stream" ∷ "stream_options" ∷ "include" ∷ "service_tier"
    ∷ "prompt_cache_key" ∷ "text" ∷ "client_metadata" ∷ [])

-- The optional Boolean is the given one.
abbrev pub is_bool : Option Bool → Bool → Bool
is_bool none b = false
is_bool (some true) b = b
is_bool (some false) b = not b

-- The checks of `parse` before it collects.
unfoldable pub check_root : Members → Checked (Unit {0})
check_root root = do
  ensure_allowed_keys root top_level_keys PayloadError.unsupported_top_level_field
  require_string root (bytes "model")
  require_bool root (bytes "store")
  refuse_if (not (is_bool (bool_at (bytes "store") root) false))
      (PayloadError.invalid_field_value (bytes "store"))
  require_string root (bytes "tool_choice")
  require_bool root (bytes "parallel_tool_calls")
  refuse_if (not (is_bool (bool_at (bytes "stream") root) true)) PayloadError.streaming_required
  validate_top_level_controls root

unfoldable pub collect_instructions : Members → Checked Targets
collect_instructions root = elim (get_member (bytes "instructions") root) [
  | none ↦ ok []
  | some v ↦
      if is_string v
      then ok (
          new_target (PathSegment.key (bytes "instructions") ∷ []) FieldClass.instructions
            RewriteMode.rewrite
          ∷ [])
      else err (PayloadError.invalid_field_type (bytes "instructions"))
]

unfoldable pub collect_input : Value → Checked Targets
collect_input (Value.string s) = ok (
    new_target (PathSegment.key (bytes "input") ∷ []) FieldClass.message_text RewriteMode.rewrite
    ∷ [])
collect_input (Value.array items) = each_value collect_input_item 0 items
collect_input _ = err (PayloadError.invalid_field_type (bytes "input"))

unfoldable pub collect_tools : Members → Checked Targets
collect_tools root = elim (get_member (bytes "tools") root) [
  | none ↦ ok []
  | some tools ↦ collect_tool_array tools (PathSegment.key (bytes "tools") ∷ [])
]

-- The loop over `client_metadata`.
unfoldable pub metadata_members : Members → Checked Targets
metadata_members Members.end = ok []
metadata_members (Members.member k v ms) = do
  refuse_if (not (is_string v)) (PayloadError.invalid_field_type (bytes "client_metadata value"))
  rest ← metadata_members ms
  ok (
      new_target (PathSegment.key (bytes "client_metadata") ∷ PathSegment.key k ∷ [])
        FieldClass.client_metadata RewriteMode.block_only
      ∷ rest)

unfoldable pub collect_metadata : Members → Checked Targets
collect_metadata root = elim (get_member (bytes "client_metadata") root) [
  | none ↦ ok []
  | some v ↦ do
    object ← ok_or (as_object v) (PayloadError.invalid_field_type (bytes "client_metadata"))
    metadata_members object
]

-- The targets that `parse` pushes before `collect_untracked_strings`.
unfoldable pub collect_targets : Members → Checked Targets
collect_targets root = do
  instructions ← collect_instructions root
  input ← ok_or (get_member (bytes "input") root) (PayloadError.missing_field (bytes "input"))
  inputs ← collect_input input
  tools ← collect_tools root
  metadata ← collect_metadata root
  ok (instructions ++ (inputs ++ (tools ++ metadata)))

-- `parse` from the value on.
unfoldable pub parse_value : Value → Checked ValidatedRequest
parse_value value = do
  root ← ok_or (as_object value) PayloadError.root_must_be_object
  check_root root
  targets ← collect_targets root
  ok (record { value = value; targets = collect_untracked_strings value [] targets })

unfoldable pub parse : (Text → Option Value) → Text → Checked ValidatedRequest
parse from_slice source = do
  raw ← ok_or (from_slice source) PayloadError.json
  value ← ok_or (unique_value raw) PayloadError.json
  parse_value value

unfoldable pub locate : Value → FieldPath → Checked Value
locate root [] = ok root
locate (Value.object ms) (PathSegment.key k ∷ path) = elim (get_member k ms) [
  | none ↦ err PayloadError.target_missing
  | some v ↦ locate v path
]
locate (Value.array vs) (PathSegment.index i ∷ path) = elim (get_value vs i) [
  | none ↦ err PayloadError.target_missing
  | some v ↦ locate v path
]
locate _ (s ∷ path) = err PayloadError.target_missing

-- The assignment through the reference that `locate_mut` returns.
unfoldable pub write : Value → FieldPath → Value → Value
write root [] x = x
write (Value.object ms) (PathSegment.key k ∷ path) x = elim (get_member k ms) [
  | none ↦ Value.object ms
  | some v ↦ Value.object (set_member k (write v path x) ms)
]
write (Value.array vs) (PathSegment.index i ∷ path) x = elim (get_value vs i) [
  | none ↦ Value.array vs
  | some v ↦ Value.array (set_value vs i (write v path x))
]
write root (s ∷ path) x = root

unfoldable pub text : ValidatedRequest → TextTarget → Checked Text
text r target = elim target.literal [
  | some literal ↦ ok literal
  | none ↦ do v ← locate r.value target.path; ok_or (as_str v) PayloadError.target_changed_type
]

unfoldable pub replace_text : ValidatedRequest → ℕ → Text → Checked ValidatedRequest
replace_text r target_index replacement = do
  target ← ok_or (get_elem? r.targets target_index) PayloadError.target_missing
  refuse_if (is_some target.literal) PayloadError.target_is_structural_literal
  v ← locate r.value target.path
  refuse_if (not (is_string v)) PayloadError.target_changed_type
  ok (record r { value = write r.value target.path (Value.string replacement) })
