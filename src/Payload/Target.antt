-- ===== src/Payload/Target.antt =====
-- The errors, the targets and the small checks of src/payload.rs.
use agent_veil.Domain.{FieldClass}
use agent_veil.Prelude.{
  ℕ, Text, List, Option, Bool, Result, bytes, none, [], text_eq, String, if◌then◌else◌, ok, some,
  ◌==◌, true, ◌∷◌, is_some, false, ◌&&◌, refuse_if, err, not, ◌>>◌, ◌>>=◌, contains, ◌+◌, ok_or,
  ◌++◌,
}
use agent_veil.Payload.Value.{
  Value, Members, Values, get_member, str_at, bool_at, is_null, is_string, as_object,
}

pub data PayloadError : Type 0 where
  json root_must_be_object streaming_required input_item_must_be_object : PayloadError
  missing_item_type unsupported_input_item content_part_must_be_object : PayloadError
  unsupported_content_part unsupported_media target_missing : PayloadError
  target_changed_type target_is_structural_literal serialize : PayloadError
  missing_field invalid_field_type invalid_field_value : Text → PayloadError
  unsupported_top_level_field unsupported_control_field unsupported_item_field : Text → PayloadError
  unsupported_content_part_field : Text → PayloadError

pub data RewriteMode : Type 0 where
  rewrite block_only : RewriteMode

pub data PathSegment : Type 0 where
  key : Text → PathSegment
  index : ℕ → PathSegment

abbrev pub FieldPath : Type 0
FieldPath = List PathSegment

pub record TextTarget : Type 0 where
  pub path : FieldPath
  pub literal : Option Text
  pub field_class : FieldClass
  pub mode : RewriteMode

-- `TextTarget::new`
unfoldable pub new_target : FieldPath → FieldClass → RewriteMode → TextTarget
new_target path field_class mode = record {
  path = path;
  literal = none;
  field_class = field_class;
  mode = mode;
}

unfoldable pub structural_literal : Text → TextTarget
structural_literal value = record {
  path = [];
  literal = some value;
  field_class = FieldClass.structural_metadata;
  mode = RewriteMode.block_only;
}

-- The derived `==` of `PathSegment` and of paths.
unfoldable pub segment_eq : PathSegment → PathSegment → Bool
segment_eq (PathSegment.key a) (PathSegment.key b) = text_eq a b
segment_eq (PathSegment.index i) (PathSegment.index j) = i == j
segment_eq _ _ = false

unfoldable pub path_eq : FieldPath → FieldPath → Bool
path_eq [] [] = true
path_eq (a ∷ p) (b ∷ q) = segment_eq a b && path_eq p q
path_eq _ _ = false

abbrev pub Targets : Type 0
Targets = List TextTarget

abbrev pub Checked : Type 0 → Type 0
Checked A = Result PayloadError A

-- A list of literal keys.
unfoldable pub texts : List String → List Text
unfolding bytes
texts [] = []
texts (s ∷ ss) = bytes s ∷ texts ss

unfoldable pub require_string : Members → Text → Checked (Unit {0})
require_string object field =
    if is_some (str_at field object)
    then ok tt
    else err (
        if is_some (get_member field object)
        then PayloadError.invalid_field_type field
        else PayloadError.missing_field field)

unfoldable pub require_bool : Members → Text → Checked (Unit {0})
require_bool object field =
    if is_some (bool_at field object)
    then ok tt
    else err (
        if is_some (get_member field object)
        then PayloadError.invalid_field_type field
        else PayloadError.missing_field field)

unfoldable pub require_optional_string : Members → Text → Checked (Unit {0})
require_optional_string object field = elim (get_member field object) [
  | none ↦ ok tt
  | some v ↦
      refuse_if (not (is_null v) && not (is_string v)) (PayloadError.invalid_field_type field)
]

unfoldable pub ensure_allowed_keys :
    Members → List Text → (Text → PayloadError) → Checked (Unit {0})
ensure_allowed_keys Members.end allowed error = ok tt
ensure_allowed_keys (Members.member k v ms) allowed error = do
  refuse_if (not (contains allowed k)) (error k)
  ensure_allowed_keys ms allowed error

-- A loop over fields whose body is `require_optional_string(object, field)?`.
unfoldable pub require_optional_strings : Members → List Text → Checked (Unit {0})
require_optional_strings object [] = ok tt
require_optional_strings object (f ∷ fs) = do
  require_optional_string object f
  require_optional_strings object fs

-- A loop over an array whose body pushes targets or returns an error.
unfoldable pub each_value : (ℕ → Value → Checked Targets) → ℕ → Values → Checked Targets
each_value body i Values.nil = ok []
each_value body i (Values.cons v vs) = do
  first ← body i v
  rest ← each_value body (i + 1) vs
  ok (first ++ rest)

unfoldable pub validate_optional_metadata : Members → Checked (Unit {0})
validate_optional_metadata object =
    elim (get_member (bytes "internal_chat_message_metadata_passthrough") object) [
      | none ↦ ok tt
      | some metadata ↦ if is_null metadata then ok tt else (do
        ms ←
            ok_or (as_object metadata)
              (PayloadError.invalid_field_type (bytes "internal_chat_message_metadata_passthrough"))
        ensure_allowed_keys ms (texts ("turn_id" ∷ [])) PayloadError.unsupported_item_field
        require_optional_string ms (bytes "turn_id"))
    ]

unfoldable pub validate_common_item_fields : Members → Checked (Unit {0})
validate_common_item_fields object = do
  require_optional_strings object (
      texts (
        "id" ∷ "type" ∷ "role" ∷ "phase" ∷ "author" ∷ "recipient" ∷ "call_id" ∷ "name" ∷ "namespace"
        ∷ "status" ∷ []))
  validate_optional_metadata object

unfoldable pub ensure_text_part : Members → Checked (Unit {0})
ensure_text_part object = do
  ensure_allowed_keys object (texts ("type" ∷ "text" ∷ []))
      PayloadError.unsupported_content_part_field
  require_string object (bytes "text")
