-- ===== src/Payload/Tests.antt =====
-- A request of src/payload.rs and its theorems at it.
use agent_veil.Payload.Covers.{string-IsTarget, key-IsTarget}
use agent_veil.Payload.Replace.{text-replace_text}
use agent_veil.Payload.Request.{
  ValidatedRequest, parse_value, replace_text, text, locate, check_root, top_level_keys,
  collect_targets, collect_instructions, collect_input, collect_tools, collect_metadata, write,
  unique_value, unique_values, unique_members, insert_member, text_lt, parse,
}
use agent_veil.Payload.Strings.{
  collect_untracked_strings, collect_untracked_values, collect_untracked_members, track,
}
use agent_veil.Payload.Controls.{validate_top_level_controls}
use agent_veil.Payload.Target.{
  TextTarget, PathSegment, FieldPath, PayloadError, RewriteMode, new_target, structural_literal,
  segment_eq, path_eq, texts, ensure_allowed_keys, require_string, require_bool,
  require_optional_string,
}
use agent_veil.Payload.Value.{Value, Members, get_member, set_member}
use agent_veil.Domain.{FieldClass}
use agent_veil.Prelude.{
  Text, bytes, ◌≡◌, ok, err, refl, text_eq, contains, true, false, some, In, [], ◌∷◌, get_elem?,
  ◌≢◌,
}

abbrev pub controls : Members
controls = Members.member (bytes "model") (Value.string (bytes "m")) (
    Members.member (bytes "parallel_tool_calls") (Value.boolean true) (
      Members.member (bytes "store") (Value.boolean false) (
        Members.member (bytes "stream") (Value.boolean true)
          (Members.member (bytes "tool_choice") (Value.string (bytes "auto")) Members.end))))

abbrev pub sample : Value
sample = Value.object (Members.member (bytes "input") (Value.string (bytes "hi")) controls)

abbrev pub input_path : FieldPath
input_path = PathSegment.key (bytes "input") ∷ []

abbrev pub request : ValidatedRequest
request = record {
  value = sample;
  targets =
      collect_untracked_strings sample []
        (new_target input_path FieldClass.message_text RewriteMode.rewrite ∷ []);
}

pub accepted : parse_value sample ≡ ok request
unfolding parse_value check_root top_level_keys texts bytes contains text_eq require_string
    require_bool require_optional_string get_member ensure_allowed_keys validate_top_level_controls
    collect_targets collect_instructions collect_input collect_tools collect_metadata
accepted = refl

-- A key that comes twice is refused, even with the same value.
twice :
    parse (λ s. some (Value.object (Members.member (bytes "store") Value.null controls))) []
    ≡ err PayloadError.json
unfolding parse unique_value unique_values unique_members insert_member text_lt contains bytes
    text_eq
twice = refl

abbrev rewritten : ValidatedRequest
rewritten = record {
  value = Value.object (Members.member (bytes "input") (Value.string (bytes "yo")) controls);
  targets = request.targets;
}

rewriting : replace_text request 0 (bytes "yo") ≡ ok rewritten
unfolding replace_text locate write get_member set_member bytes text_eq new_target
    structural_literal track path_eq segment_eq collect_untracked_strings collect_untracked_values
    collect_untracked_members
rewriting = refl

at_model : locate sample (PathSegment.key (bytes "model") ∷ []) ≡ ok (Value.string (bytes "m"))
unfolding locate get_member bytes text_eq
at_model = refl

has_store :
    get_member (bytes "store") (Members.member (bytes "input") (Value.string (bytes "hi")) controls)
    ≡ some (Value.boolean false)
unfolding get_member bytes text_eq
has_store = refl

at_root : locate sample [] ≡ ok sample
unfolding locate
at_root = refl

string-IsTarget_example :
    (t : TextTarget) × In t request.targets
    × (t.path ≡ PathSegment.key (bytes "model") ∷ [])
    × (text request t ≡ ok (bytes "m"))
string-IsTarget_example =
    string-IsTarget sample request accepted (PathSegment.key (bytes "model") ∷ []) (bytes "m")
      at_model

key-IsTarget_example :
    (t : TextTarget) × In t request.targets × (text request t ≡ ok (bytes "store"))
key-IsTarget_example =
    key-IsTarget sample request accepted []
      (Members.member (bytes "input") (Value.string (bytes "hi")) controls) (bytes "store")
      (Value.boolean false) at_root has_store

text-replace_text_example :
    (t : TextTarget) × (get_elem? request.targets 0 ≡ some t)
    × (text rewritten t ≡ ok (bytes "yo"))
    × (rewritten.targets ≡ request.targets)
    × ((u : TextTarget) (s : Text)
        → t.path ≢ u.path
        → text request u ≡ ok s
        → text rewritten u ≡ ok s)
text-replace_text_example = text-replace_text request 0 (bytes "yo") rewritten rewriting
