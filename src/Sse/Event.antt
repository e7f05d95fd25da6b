-- ===== src/Sse/Event.antt =====
-- The events that src/sse.rs restores, and the fields of them that it changes. `restore` is the
-- closure that `push` is called with: it may change a state of its own, also before an error.
use agent_veil.Payload.Value.{Value, Values, get_member, set_member, as_str, as_array, is_text}
use agent_veil.Payload.Target.{texts}
use agent_veil.Prelude.{
  Run, and_then, Text, Bool, Option, none, some, [], ◌∷◌, ok, err, bytes, text_eq, contains,
  if◌then◌else◌, List,
}

pub data SseRestorationMode : Type 0 where
  synthetic_display_text synthetic_display_delta_only : SseRestorationMode

pub data SseError : Type 0 where
  oversize_event invalid_utf8 multiple_data_lines missing_data invalid_json : SseError
  missing_event_type mismatched_event_type invalid_text_shape serialize truncated_event : SseError

-- `Value::get` and the write through `Value::get_mut`, at a key.
unfoldable pub get_field : Text → Value → Option Value
get_field k (Value.object ms) = get_member k ms
get_field k _ = none

unfoldable pub set_field : Text → Value → Value → Value
set_field k x (Value.object ms) = Value.object (set_member k x ms)
set_field k x v = v

-- `get(field).and_then(Value::as_str)`
abbrev pub str_field : Text → Value → Option Text
str_field k v = elim (get_field k v) [ none ↦ none | some x ↦ as_str x ]

unfoldable pub is_restorable_event : SseRestorationMode → Text → Bool
is_restorable_event SseRestorationMode.synthetic_display_delta_only event_type =
    text_eq event_type (bytes "response.output_text.delta")
is_restorable_event SseRestorationMode.synthetic_display_text event_type =
    contains
      (texts (
        "response.output_text.delta" ∷ "response.output_text.done" ∷ "response.content_part.added"
        ∷ "response.content_part.done" ∷ "response.output_item.added" ∷ "response.output_item.done"
        ∷ "response.created" ∷ "response.in_progress" ∷ "response.completed" ∷ []))
      event_type

-- The alternatives of the arms of `restore_event`.
unfoldable pub part_events : List Text
part_events = texts ("response.content_part.added" ∷ "response.content_part.done" ∷ [])

unfoldable pub item_events : List Text
item_events = texts ("response.output_item.added" ∷ "response.output_item.done" ∷ [])

unfoldable pub snapshot_events : List Text
snapshot_events = texts ("response.created" ∷ "response.in_progress" ∷ "response.completed" ∷ [])

module _ {S : Type 0} where
  -- A loop over an array whose body changes the items in place.
  unfoldable pub each_item : (Value → S → Run SseError S Value) → Values → S → Run SseError S Values
  each_item body Values.nil s = (ok Values.nil, s)
  each_item body (Values.cons v vs) s =
      and_then (body v s)
        (λ v' t. and_then (each_item body vs t) (λ vs' u. (ok (Values.cons v' vs'), u)))

  -- `get_mut(field)`, and the items of the array there.
  unfoldable pub restore_items :
      (Value → S → Run SseError S Value) → Text → Value → S → Run SseError S Value
  restore_items body field value s = elim (get_field field value) [
    | none ↦ (ok value, s)
    | some items ↦ elim (as_array items) [
      | none ↦ (err SseError.invalid_text_shape, s)
      | some vs ↦
          and_then (each_item body vs s)
            (λ vs' t. (ok (set_field field (Value.array vs') value), t))
    ]
  ]

  -- `if let Some(part) = event.get_mut(field)`, and a restoration of the part.
  unfoldable pub restore_field :
      (Value → S → Run SseError S Value) → Text → Value → S → Run SseError S Value
  restore_field body field event s = elim (get_field field event) [
    | none ↦ (ok event, s)
    | some part ↦ and_then (body part s) (λ part' t. (ok (set_field field part' event), t))
  ]

module _ {S : Type 0} (restore : Text → S → Text × S) where
  unfoldable pub restore_string_field : Value → Text → S → Run SseError S Value
  restore_string_field value field s = elim (get_field field value) [
    | none ↦ (ok value, s)
    | some current ↦ elim (as_str current) [
      | none ↦ (err SseError.invalid_text_shape, s)
      | some text ↦
          let (restored, s') = restore text s in
          (ok (set_field field (Value.string restored) value), s')
    ]
  ]

  unfoldable pub restore_output_text_part : Value → S → Run SseError S Value
  restore_output_text_part part s =
      if is_text (str_field (bytes "type") part) (bytes "output_text")
      then restore_string_field part (bytes "text") s
      else (ok part, s)

  unfoldable pub restore_message_item : Value → S → Run SseError S Value
  restore_message_item item s =
      if is_text (str_field (bytes "type") item) (bytes "message")
      then restore_items restore_output_text_part (bytes "content") item s
      else (ok item, s)

  unfoldable pub restore_response_snapshot : Value → S → Run SseError S Value
  restore_response_snapshot response s =
      restore_items restore_message_item (bytes "output") response s

  unfoldable pub restore_event : Text → Value → S → Run SseError S Value
  restore_event event_type event s =
      if text_eq event_type (bytes "response.output_text.delta")
      then restore_string_field event (bytes "delta") s
      else if text_eq event_type (bytes "response.output_text.done")
      then restore_string_field event (bytes "text") s
      else if contains part_events event_type
      then restore_field restore_output_text_part (bytes "part") event s
      else if contains item_events event_type
      then restore_field restore_message_item (bytes "item") event s
      else if contains snapshot_events event_type
      then restore_field restore_response_snapshot (bytes "response") event s
      else (ok event, s)
