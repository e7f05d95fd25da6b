-- ===== src/Demo/Stream.antt =====
-- `codex_demo_sse` of src/demo.rs. The members of an object stand in the order of their keys, in
-- which the map of serde_json holds them; `serde_json::to_string` is a parameter.
use agent_veil.Payload.Value.{Value, Values, Members, str_at}
use agent_veil.Prelude.{Text, bytes, Option, none, some, List, [], ◌∷◌, ◌++◌, unwrap_or}

unfoldable pub members_of : List (Text × Value) → Members
members_of [] = Members.end
members_of ((key, value) ∷ members) = Members.member key value (members_of members)

unfoldable pub values_of : List Value → Values
values_of [] = Values.nil
values_of (value ∷ values) = Values.cons value (values_of values)

abbrev json : List (Text × Value) → Value
json members = Value.object (members_of members)

abbrev text_of : Text → Value
text_of s = Value.string s

abbrev item_id : Value
item_id = Value.string (bytes "msg_agentveil_synthetic")

abbrev response_id : Value
response_id = Value.string (bytes "resp_agentveil_synthetic")

abbrev index_zero : Value
index_zero = Value.number (bytes "0")

unfoldable pub text_part : Text → Value
unfolding bytes
text_part s = json ((bytes "text", text_of s) ∷ (bytes "type", text_of (bytes "output_text")) ∷ [])

-- The message with the given parts.
unfoldable pub message_item : List Value → Value
unfolding bytes
message_item parts = json (
    (bytes "content", Value.array (values_of parts))
    ∷ (bytes "id", item_id)
    ∷ (bytes "role", text_of (bytes "assistant"))
    ∷ (bytes "type", text_of (bytes "message"))
    ∷ [])

-- The sequence number and the type, with which each event ends.
unfoldable pub numbered : Text → Text → List (Text × Value)
unfolding bytes
numbered number event_type =
    (bytes "sequence_number", Value.number number) ∷ (bytes "type", text_of event_type) ∷ []

-- Where the only part stands: its index, and the item that it is of.
unfoldable pub before_part : List (Text × Value)
unfolding bytes
before_part = (bytes "content_index", index_zero) ∷ []

unfoldable pub item_place : List (Text × Value)
unfolding bytes
item_place = (bytes "item_id", item_id) ∷ (bytes "output_index", index_zero) ∷ []

unfoldable pub fixture_events : Text → List Value
unfolding bytes
fixture_events s =
    json (
      (
        bytes "response",
        json ((bytes "id", response_id) ∷ (bytes "output", Value.array Values.nil) ∷ []),
      )
      ∷ numbered (bytes "0") (bytes "response.created"))
    ∷ json (
        (bytes "item", message_item [])
        ∷ (bytes "output_index", index_zero)
        ∷ numbered (bytes "1") (bytes "response.output_item.added"))
    ∷ json (
        before_part
        ++ item_place
        ++ (bytes "part", text_part [])
          ∷ numbered (bytes "2") (bytes "response.content_part.added"))
    ∷ json (
        before_part
        ++ (bytes "delta", text_of s) ∷ item_place
        ++ numbered (bytes "3") (bytes "response.output_text.delta"))
    ∷ json (
        before_part
        ++ item_place
        ++ (bytes "sequence_number", Value.number (bytes "4"))
          ∷ (bytes "text", text_of s)
          ∷ (bytes "type", text_of (bytes "response.output_text.done"))
          ∷ [])
    ∷ json (
        before_part
        ++ item_place
        ++ (bytes "part", text_part s) ∷ numbered (bytes "5") (bytes "response.content_part.done"))
    ∷ json (
        (bytes "item", message_item (text_part s ∷ []))
        ∷ (bytes "output_index", index_zero)
        ∷ numbered (bytes "6") (bytes "response.output_item.done"))
    ∷ json (
        (
          bytes "response",
          json (
              (bytes "id", response_id)
              ∷ (bytes "output", Value.array (values_of (message_item (text_part s ∷ []) ∷ [])))
              ∷ (bytes "status", text_of (bytes "completed"))
              ∷ []),
        )
        ∷ numbered (bytes "7") (bytes "response.completed"))
    ∷ []

abbrev event_type : Value → Text
event_type (Value.object ms) = unwrap_or (str_at (bytes "type") ms) (bytes "response.failed")
event_type _ = bytes "response.failed"

-- The loop over the events.
unfoldable pub frames_for : (Value → Option Text) → List Value → Option Text
unfolding bytes
frames_for to_string [] = some []
frames_for to_string (event ∷ events) =
    let rest = frames_for to_string events in
    elim (to_string event) [
      | none ↦ none
      | some printed ↦ elim rest [
        | none ↦ none
        | some frames ↦ some (
            bytes "event: "
            ++ (event_type event ++ (bytes "\ndata: " ++ (printed ++ (bytes "\n\n" ++ frames)))))
      ]
    ]

unfoldable pub codex_demo_sse : (Value → Option Text) → Text → Option Text
codex_demo_sse to_string tokenized_text = frames_for to_string (fixture_events tokenized_text)
