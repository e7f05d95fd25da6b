-- ===== src/Payload/Value.antt =====
-- `serde_json::Value`, and the reads of it that src/payload.rs makes. An object is the list of its
-- members in the order in which the map iterates.
use agent_veil.Prelude.{
  ℕ, Bool, Option, Text, suc, some, true, none, if◌then◌else◌, zero, false, text_eq,
}

mutual
  pub data Value : Type 0 where
    null : Value
    boolean : Bool → Value
    number : Text → Value
    string : Text → Value
    array : Values → Value
    object : Members → Value

  pub data Values : Type 0 where
    nil : Values
    cons : Value → Values → Values

  pub data Members : Type 0 where
    end : Members
    member : Text → Value → Members → Members

abbrev pub as_str : Value → Option Text
as_str (Value.string s) = some s
as_str _ = none

abbrev pub as_bool : Value → Option Bool
as_bool (Value.boolean b) = some b
as_bool _ = none

abbrev pub as_array : Value → Option Values
as_array (Value.array vs) = some vs
as_array _ = none

abbrev pub as_object : Value → Option Members
as_object (Value.object ms) = some ms
as_object _ = none

abbrev pub is_string : Value → Bool
is_string (Value.string s) = true
is_string _ = false

abbrev pub is_null : Value → Bool
is_null Value.null = true
is_null _ = false

-- `Map::get`
unfoldable pub get_member : Text → Members → Option Value
get_member k Members.end = none
get_member k (Members.member j v ms) = if text_eq j k then some v else get_member k ms

-- `<[Value]>::get`
unfoldable pub get_value : Values → ℕ → Option Value
get_value Values.nil i = none
get_value (Values.cons v vs) zero = some v
get_value (Values.cons v vs) (suc i) = get_value vs i

-- A write through `Map::get_mut`.
unfoldable pub set_member : Text → Value → Members → Members
set_member k x Members.end = Members.end
set_member k x (Members.member j v ms) =
    if text_eq j k then Members.member j x ms else Members.member j v (set_member k x ms)

-- A write through `<[Value]>::get_mut`.
unfoldable pub set_value : Values → ℕ → Value → Values
set_value Values.nil i x = Values.nil
set_value (Values.cons v vs) zero x = Values.cons x vs
set_value (Values.cons v vs) (suc i) x = Values.cons v (set_value vs i x)

-- `get(field).and_then(Value::as_str)`
abbrev pub str_at : Text → Members → Option Text
str_at k ms = elim (get_member k ms) [ none ↦ none | some v ↦ as_str v ]

-- `get(field).and_then(Value::as_bool)`
abbrev pub bool_at : Text → Members → Option Bool
bool_at k ms = elim (get_member k ms) [ none ↦ none | some v ↦ as_bool v ]

-- The optional text is the given one.
abbrev pub is_text : Option Text → Text → Bool
is_text none t = false
is_text (some s) t = text_eq s t
