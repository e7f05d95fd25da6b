-- ===== src/Sse/Tests.antt =====
-- A stream of src/sse.rs in two chunks, an event, and the theorems at them.
use agent_veil.Sse.Chunks.{push-append, push_done}
use agent_veil.Sse.Keeps.{Keeps}
use agent_veil.Sse.Display.{IsDisplayText, restore_event-Keeps}
use agent_veil.Sse.Event.{
  SseRestorationMode, SseError, restore_event, restore_string_field, get_field, set_field,
  is_restorable_event,
}
use agent_veil.Sse.Frame.{
  SseTransformer, new, push, take_frames, find_frame_end, transform_frame, transform_scanned,
  transform_event, scan_lines, read_header, header_matches, finish, is_ascii_whitespace,
}
use agent_veil.Sse.Text.{
  is_utf8, utf8_from, lead, trim, trim_start, trim_start_within, trim_end, after_space,
  trim_newlines, split_lines, strip_prefix, starts_with,
}
use agent_veil.Payload.Value.{Value, Members, get_member, set_member}
use agent_veil.Payload.Target.{texts}
use agent_veil.Prelude.{
  ℕ, ◌+◌, Text, bytes, Option, none, some, List, [], ◌∷◌, ◌++◌, ◌≡◌, ok, err, refl, text_eq,
  contains,
}

abbrev mode : SseRestorationMode
mode = SseRestorationMode.synthetic_display_text

-- A closure that counts its calls.
abbrev restore : Text → ℕ → Text × ℕ
restore text n = (bytes "ava", n + 1)

abbrev delta : Value
delta = Value.object (
    Members.member (bytes "delta") (Value.string (bytes "T")) (
      Members.member (bytes "id") (Value.string (bytes "T")) (
        Members.member (bytes "type") (Value.string (bytes "response.output_text.delta"))
          Members.end)))

abbrev restored : Value
restored = Value.object (
    Members.member (bytes "delta") (Value.string (bytes "ava")) (
      Members.member (bytes "id") (Value.string (bytes "T")) (
        Members.member (bytes "type") (Value.string (bytes "response.output_text.delta"))
          Members.end)))

abbrev from_str : Text → Option Value
from_str data_text = some delta

abbrev to_string : Value → Option Text
to_string v = some (bytes "{}")

abbrev first_chunk : Text
first_chunk = bytes "event: response.output_text.delta\ndata: {\"d"

abbrev second_chunk : Text
second_chunk = bytes "elta\"}\n\nid"

abbrev waiting : SseTransformer
waiting = record { buffer = first_chunk; restoration_mode = mode }

abbrev after : SseTransformer
after = record { buffer = bytes "id"; restoration_mode = mode }

abbrev frames : List Text
frames = bytes "event: response.output_text.delta\ndata: {}\n\n" ∷ []

first : push from_str to_string restore (new mode) first_chunk 0 ≡ ((ok [], waiting), 0)
unfolding push new take_frames find_frame_end starts_with strip_prefix bytes
first = refl

second : push from_str to_string restore waiting second_chunk 0 ≡ ((ok frames, after), 1)
unfolding push take_frames find_frame_end starts_with strip_prefix bytes transform_frame
    transform_scanned transform_event scan_lines read_header header_matches is_utf8 utf8_from lead
    trim trim_start trim_start_within trim_end after_space trim_newlines split_lines
    is_restorable_event restore_event restore_string_field get_field set_field get_member set_member
    text_eq contains texts
second = refl

unfinished : finish after ≡ err SseError.truncated_event
unfolding finish is_ascii_whitespace bytes
unfinished = refl

restoring : restore_event restore (bytes "response.output_text.delta") delta 0 ≡ (ok restored, 1)
unfolding restore_event restore_string_field get_field set_field get_member set_member text_eq bytes
restoring = refl

push-append_example :
    push from_str to_string restore (new mode) (first_chunk ++ second_chunk) 0
    ≡ ((ok ([] ++ frames), after), 1)
push-append_example =
    push-append from_str to_string restore (new mode) first_chunk second_chunk 0 [] waiting 0 frames
      after 1 first second

push_done_example : find_frame_end (bytes "id") ≡ none
push_done_example =
    push_done from_str to_string restore waiting second_chunk 0 frames after 1 second

restore_event-Keeps_example :
    Keeps (IsDisplayText (bytes "response.output_text.delta")) delta restored
restore_event-Keeps_example =
    restore_event-Keeps restore (bytes "response.output_text.delta") delta restored 0 1 restoring
