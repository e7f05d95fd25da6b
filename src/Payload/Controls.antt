-- ===== src/Payload/Controls.antt =====
-- `validate_top_level_controls` and `validate_text_controls` of src/payload.rs.
use agent_veil.Prelude.{
  ℕ, Bool, Option, false, suc, ok, ◌||◌, some, if◌then◌else◌, none, ◌>>◌, ◌>>=◌, ok_or, refuse_if,
  bytes, not, ◌∷◌, [], ltb, is_some, err,
}
use agent_veil.Payload.Value.{
  Value, Members, Values, is_null, as_object, as_array, is_text, is_string, str_at, as_str,
  get_member,
}
use agent_veil.Payload.Target.{
  PayloadError, Checked, require_string, ensure_allowed_keys, texts, require_optional_string,
  require_optional_strings, require_bool,
}

-- The format object of `text`.
unfoldable pub validate_format : Members → Checked (Unit {0})
validate_format format = do
  require_string format (bytes "type")
  if is_text (str_at (bytes "type") format) (bytes "text")
      then ensure_allowed_keys format (texts ("type" ∷ [])) PayloadError.unsupported_control_field
      else if is_text (str_at (bytes "type") format) (bytes "json_schema")
      then (do
        ensure_allowed_keys format (texts ("type" ∷ "strict" ∷ "schema" ∷ "name" ∷ []))
            PayloadError.unsupported_control_field
        require_bool format (bytes "strict")
        require_string format (bytes "name")
        refuse_if (not (is_some (get_member (bytes "schema") format)))
            (PayloadError.missing_field (bytes "schema")))
      else err (PayloadError.invalid_field_value (bytes "text.format.type"))

unfoldable pub validate_text_controls : Members → Checked (Unit {0})
validate_text_controls object = do
  ensure_allowed_keys object (texts ("verbosity" ∷ "format" ∷ []))
      PayloadError.unsupported_control_field
  require_optional_string object (bytes "verbosity")
  elim (get_member (bytes "format") object) [
    | none ↦ ok tt
    | some format ↦ if is_null format then ok tt else (do
      ms ← ok_or (as_object format) (PayloadError.invalid_field_type (bytes "text.format"))
      validate_format ms)
  ]

unfoldable pub any_value : (Value → Bool) → Values → Bool
any_value p Values.nil = false
any_value p (Values.cons v vs) = p v || any_value p vs

unfoldable pub count_values : Values → ℕ
count_values Values.nil = 0
count_values (Values.cons v vs) = suc (count_values vs)

-- `if let Some(value) = root.get(field) && !value.is_null()`
abbrev pub unless_null : Option Value → (Value → Checked (Unit {0})) → Checked (Unit {0})
unless_null none check = ok tt
unless_null (some v) check = if is_null v then ok tt else check v

-- `if let Some(value) = root.get(field)`
abbrev pub if_some : Option Value → (Value → Checked (Unit {0})) → Checked (Unit {0})
if_some none check = ok tt
if_some (some v) check = check v

unfoldable pub validate_reasoning : Value → Checked (Unit {0})
validate_reasoning v = do
  reasoning ← ok_or (as_object v) (PayloadError.invalid_field_type (bytes "reasoning"))
  ensure_allowed_keys reasoning (texts ("effort" ∷ "summary" ∷ "context" ∷ []))
      PayloadError.unsupported_control_field
  require_optional_strings reasoning (texts ("effort" ∷ "summary" ∷ "context" ∷ []))

unfoldable pub validate_stream_options : Value → Checked (Unit {0})
validate_stream_options v = do
  options ← ok_or (as_object v) (PayloadError.invalid_field_type (bytes "stream_options"))
  ensure_allowed_keys options (texts ("reasoning_summary_delivery" ∷ []))
      PayloadError.unsupported_control_field
  require_string options (bytes "reasoning_summary_delivery")

unfoldable pub validate_include : Value → Checked (Unit {0})
validate_include v = do
  include ← ok_or (as_array v) (PayloadError.invalid_field_type (bytes "include"))
  refuse_if (any_value (λ entry. not (is_string entry)) include)
      (PayloadError.invalid_field_type (bytes "include entry"))
  refuse_if
      (ltb 4 (count_values include)
        || any_value (λ entry. not (is_text (as_str entry) (bytes "reasoning.encrypted_content")))
            include)
      (PayloadError.invalid_field_value (bytes "include"))

unfoldable pub validate_text : Value → Checked (Unit {0})
validate_text v = do
  text ← ok_or (as_object v) (PayloadError.invalid_field_type (bytes "text"))
  validate_text_controls text

unfoldable pub validate_top_level_controls : Members → Checked (Unit {0})
validate_top_level_controls root = do
  refuse_if (not (is_text (str_at (bytes "tool_choice") root) (bytes "auto")))
      (PayloadError.invalid_field_value (bytes "tool_choice"))
  unless_null (get_member (bytes "reasoning") root) validate_reasoning
  if_some (get_member (bytes "stream_options") root) validate_stream_options
  if_some (get_member (bytes "include") root) validate_include
  require_optional_string root (bytes "service_tier")
  require_optional_string root (bytes "prompt_cache_key")
  unless_null (get_member (bytes "text") root) validate_text
