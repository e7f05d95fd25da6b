-- ===== src/Gateway/Relay.antt =====
-- `relay_upstream` of src/gateway.rs: the answer of the upstream, whose events pass through the SSE
-- transformer where display text is restored. The answer is the list of what arrives, each with the
-- time at which the engine is asked; what is relayed is the list of what the body yields.
use agent_veil.Detector.Matches.{to_ascii_lowercase}
use agent_veil.Gateway.Headers.{HeaderMap, header_str}
use agent_veil.Gateway.Settings.{RestorationMode, sse_mode}
use agent_veil.Payload.Value.{Value}
use agent_veil.Sse.Event.{SseError, SseRestorationMode}
use agent_veil.Sse.Frame.{SseTransformer, push, finish, new}
use agent_veil.Sse.Text.{starts_with}
use agent_veil.Prelude.{
  ℕ, Text, bytes, Bool, false, ◌||◌, Option, none, some, List, [], ◌∷◌, ◌++◌, Result, ok, err,
  if◌then◌else◌, contains,
}

-- An error of the connection or of the transformer ends a body.
pub data StreamError : Type 0 where
  upstream : StreamError
  sse : SseError → StreamError

abbrev pub Body : Type 0
Body = List (Result StreamError Text)

-- A chunk of the answer, or the error of the connection.
pub record Arrival : Type 0 where
  pub now_ms : ℕ
  pub chunk : Option Text

pub record Answer : Type 0 where
  pub status : ℕ
  pub headers : HeaderMap
  pub arrivals : List Arrival

pub record Relayed : Type 0 where
  pub status : ℕ
  pub headers : HeaderMap
  pub body : Body

unfoldable pub response_names : List Text
unfolding bytes
response_names =
    bytes "cache-control"
    ∷ bytes "content-type"
    ∷ bytes "retry-after"
    ∷ bytes "x-request-id"
    ∷ bytes "request-id"
    ∷ []

-- `response_headers`
unfoldable pub response_headers : HeaderMap → HeaderMap
response_headers [] = []
response_headers ((name, value) ∷ source) =
    let rest = response_headers source in
    if contains response_names name
      || starts_with name (bytes "x-ratelimit-")
      || starts_with name (bytes "openai-")
    then (name, value) ∷ rest
    else rest

-- `source.map(|result| result.map_err(io::Error::other))`
unfoldable pub pass_through : List Arrival → Body
pass_through [] = []
pass_through (a ∷ arrivals) = elim a.chunk [
  | none ↦ err StreamError.upstream ∷ pass_through arrivals
  | some chunk ↦ ok chunk ∷ pass_through arrivals
]

-- What the end of the answer yields.
unfoldable pub finished : SseTransformer → Body
finished t = elim (finish t) [ ok u ↦ [] | err e ↦ err (StreamError.sse e) ∷ [] ]

unfoldable pub frames_of : List Text → Body
frames_of [] = []
frames_of (frame ∷ frames) = ok frame ∷ frames_of frames

unfoldable pub is_event_stream : (Text → Option Text) → HeaderMap → Bool
is_event_stream to_str headers = elim (header_str to_str (bytes "content-type") headers) [
  | none ↦ false
  | some value ↦ starts_with (to_ascii_lowercase value) (bytes "text/event-stream")
]

module _ (from_str : Text → Option Value) (to_string : Value → Option Text) {S : Type 0}
    (restore : ℕ → Text → S → Text × S) where
  -- The loop over the chunks. The engine, which the closure asks, goes from chunk to chunk.
  unfoldable pub restore_stream : SseTransformer → List Arrival → S → Body × S
  restore_stream t [] s = (finished t, s)
  restore_stream t (a ∷ arrivals) s = elim a.chunk [
    | none ↦ (err StreamError.upstream ∷ [], s)
    | some chunk ↦
        let ((pushed, t'), s') = push from_str to_string (restore a.now_ms) t chunk s in
        elim pushed [
          | err e ↦ (err (StreamError.sse e) ∷ [], s')
          | ok frames ↦
              let (rest, s'') = restore_stream t' arrivals s' in (frames_of frames ++ rest, s'')
        ]
  ]

  -- The mode in which an answer is restored. `models` passes no state of the gateway, so no mode.
  unfoldable pub relay_mode :
      (Text → Option Text) → Option RestorationMode → HeaderMap → Option SseRestorationMode
  relay_mode to_str none headers = none
  relay_mode to_str (some mode) headers =
      if is_event_stream to_str headers then sse_mode mode else none

  unfoldable pub relay_upstream :
      (Text → Option Text) → Option RestorationMode → Answer → S → Relayed × S
  relay_upstream to_str mode answer s = elim (relay_mode to_str mode answer.headers) [
    | none ↦ (
      record {
        status = answer.status;
        headers = response_headers answer.headers;
        body = pass_through answer.arrivals;
      },
      s,
    )
    | some restored ↦
        let (body, s') = restore_stream (new restored) answer.arrivals s in
        (
          record { status = answer.status; headers = response_headers answer.headers; body = body },
          s',
        )
  ]
