-- ===== src/Sse/Frame.antt =====
-- Frames of src/sse.rs: where they end, how one is transformed, and the transformer's methods.
-- `serde_json::from_str` and `serde_json::to_string` are parameters.
use agent_veil.Sse.Event.{
  SseRestorationMode, SseError, is_restorable_event, restore_event, str_field,
}
use agent_veil.Sse.Text.{
  is_utf8, trim, trim_start, trim_newlines, split_lines, strip_prefix, starts_with,
}
use agent_veil.Payload.Value.{Value}
use agent_veil.Prelude.{
  Run, and_then, ℕ, zero, suc, ◌+◌, ◌*◌, Text, Bool, Option, none, some, List, [], ◌∷◌, ◌++◌,
  Result, ok, err, bytes, text_eq, if◌then◌else◌, true, false, not, ◌&&◌, ◌||◌, is_some, ltb, ◌==◌,
  length, take, drop, all,
}

abbrev pub max_sse_event_bytes : ℕ
max_sse_event_bytes = 1024 * 1024

pub record SseTransformer : Type 0 where
  pub buffer : Text
  pub restoration_mode : SseRestorationMode

unfoldable pub new : SseRestorationMode → SseTransformer
new mode = record { buffer = []; restoration_mode = mode }

-- The position after the first blank line.
unfoldable pub find_frame_end : Text → Option ℕ
find_frame_end [] = none
find_frame_end (b ∷ s) =
    if starts_with (b ∷ s) (b'\n' ∷ b'\n' ∷ [])
    then some 2
    else if starts_with (b ∷ s) (b'\r' ∷ b'\n' ∷ b'\r' ∷ b'\n' ∷ [])
    then some 4
    else elim (find_frame_end s) [ none ↦ none | some end ↦ some (suc end) ]

-- Where the data line starts and ends, and the line.
pub record DataLine : Type 0 where
  pub start : ℕ
  pub end : ℕ
  pub line : Text

-- What the loop over the lines keeps.
pub record Scan : Type 0 where
  pub event_type_header : Option Text
  pub data_line : Option DataLine

-- `event_type_header` after a line.
unfoldable pub read_header : Text → Option Text → Option Text
read_header content header = elim (strip_prefix (bytes "event:") content) [
  | none ↦ header
  | some value ↦ some (trim value)
]

unfoldable pub scan_lines : List Text → ℕ → Scan → Result SseError Scan
scan_lines [] offset scan = ok scan
scan_lines (line ∷ lines) offset scan =
    let header = read_header (trim_newlines line) scan.event_type_header in
    elim (starts_with (trim_newlines line) (bytes "data:")) [
      | false ↦ scan_lines lines (offset + length line) (record scan { event_type_header = header })
      | true ↦ elim scan.data_line [
        | some seen ↦ err SseError.multiple_data_lines
        | none ↦ scan_lines lines (offset + length line) (record {
          event_type_header = header;
          data_line = some (record { start = offset; end = offset + length line; line = line });
        })
      ]
    ]

-- The header, if there is one, is the type.
unfoldable pub header_matches : Option Text → Text → Bool
header_matches none event_type = true
header_matches (some header) event_type = text_eq header event_type

-- `frames.push(frame)` before the later rounds; an error drops the frames.
abbrev pub add_frame :
    {S : Type 0}
    → Text
    → (Result SseError (List Text) × Text) × S
    → (Result SseError (List Text) × Text) × S
add_frame frame ((err e, rest), s) = ((err e, rest), s)
add_frame frame ((ok frames, rest), s) = ((ok (frame ∷ frames), rest), s)

module _ (from_str : Text → Option Value) (to_string : Value → Option Text) where
  module _ {S : Type 0} (restore : Text → S → Text × S) where
    -- `transform_frame` after the data line is found and parsed.
    unfoldable pub transform_event :
        SseRestorationMode → Text → Option Text → DataLine → Value → S → Run SseError S Text
    transform_event mode frame header d event s = elim (str_field (bytes "type") event) [
      | none ↦ (err SseError.missing_event_type, s)
      | some event_type ↦
          if not (header_matches header event_type)
          then (err SseError.mismatched_event_type, s)
          else if not (is_restorable_event mode event_type)
          then (ok frame, s)
          else and_then (restore_event restore event_type event s) (λ event' t.
            elim (to_string event') [
              | none ↦ (err SseError.serialize, t)
              | some serialized ↦ (
                ok (
                    take d.start frame
                    ++ (bytes "data: "
                        ++ (serialized
                            ++ (drop (length (trim_newlines d.line)) d.line ++ drop d.end frame)))),
                t,
              )
            ])
    ]

    -- `transform_frame` after the loop over the lines.
    unfoldable pub transform_scanned : SseRestorationMode → Text → Scan → S → Run SseError S Text
    transform_scanned mode frame scan s = elim scan.data_line [
      | none ↦ (ok frame, s)
      | some d ↦ elim (strip_prefix (bytes "data:") (trim_newlines d.line)) [
        | none ↦ (err SseError.missing_data, s)
        | some rest ↦
            if text_eq (trim_start rest) (bytes "[DONE]")
            then (ok frame, s)
            else elim (from_str (trim_start rest)) [
              | none ↦ (err SseError.invalid_json, s)
              | some event ↦ transform_event mode frame scan.event_type_header d event s
            ]
      ]
    ]

    unfoldable pub transform_frame : SseRestorationMode → Text → S → Run SseError S Text
    transform_frame mode frame s =
        if not (is_utf8 frame)
        then (err SseError.invalid_utf8, s)
        else elim (scan_lines (split_lines frame) 0
            (record { event_type_header = none; data_line = none })) [
              | err e ↦ (err e, s)
              | ok scan ↦ transform_scanned mode frame scan s
            ]

    -- The loop of `push` over the frames in the buffer: the frames, the rest of the buffer and the
    -- state. The first argument bounds the rounds, and the length of the buffer is enough.
    unfoldable pub take_frames :
        ℕ → SseRestorationMode → Text → S → (Result SseError (List Text) × Text) × S
    take_frames zero mode buffer s = ((ok [], buffer), s)
    take_frames (suc n) mode buffer s = elim (find_frame_end buffer) [
      | none ↦ ((ok [], buffer), s)
      | some end ↦
          let (result, t) = transform_frame mode (take end buffer) s in
          elim result [
            | err e ↦ ((err e, drop end buffer), t)
            | ok frame ↦ add_frame frame (take_frames n mode (drop end buffer) t)
          ]
    ]

    unfoldable pub push :
        SseTransformer → Text → S → (Result SseError (List Text) × SseTransformer) × S
    push t chunk s =
        let buffer = t.buffer ++ chunk in
        if ltb max_sse_event_bytes (length buffer) && not (is_some (find_frame_end buffer))
        then ((err SseError.oversize_event, record t { buffer = buffer }), s)
        else (let ((frames, rest), s') = take_frames (length buffer) t.restoration_mode buffer s in
            ((frames, record t { buffer = rest }), s'))

-- `u8::is_ascii_whitespace`
unfoldable pub is_ascii_whitespace : ℕ → Bool
is_ascii_whitespace b = b == b' ' || b == b'\t' || b == b'\n' || b == 0x0C || b == b'\r'

unfoldable pub finish : SseTransformer → Result SseError (Unit {0})
finish t = if all is_ascii_whitespace t.buffer then ok tt else err SseError.truncated_event
