-- ===== src/Gateway/RelayTests.antt =====
-- Runs of the relay, the fixed addresses and the dashboard of src/gateway.rs, and their theorems at
-- them.
use agent_veil.Gateway.Activity.{SyntheticWireProof}
use agent_veil.Sse.Text.{
  starts_with, strip_prefix, is_utf8, utf8_from, lead, split_lines, trim_newlines,
}
use agent_veil.Gateway.Headers.{get_all}
use agent_veil.Gateway.Settings.{UpstreamMode, RestorationMode}
use agent_veil.Gateway.Board.{
  Board, Page, DashboardSnapshot, dashboard, dashboard_authority_allowed,
  dashboard_authority_rejected, GatewayClient, IsLocal, apply_dashboard_headers, dashboard-IsLocal,
}
use agent_veil.Gateway.Relay.{restore_stream, frames_of, finished}
use agent_veil.Gateway.Streams.{
  EndsAtError, IsClean, arrive, concat, restore_stream-EndsAtError, restore_stream-concat,
}
use agent_veil.Payload.Value.{Value}
use agent_veil.Sse.Event.{SseRestorationMode}
use agent_veil.Sse.Frame.{
  SseTransformer, push, take_frames, find_frame_end, transform_frame, scan_lines, transform_scanned,
  finish, read_header, is_ascii_whitespace,
}
use agent_veil.Prelude.{
  ℕ, ◌+◌, ◌≡◌, refl, Text, bytes, Option, none, some, [], ◌∷◌, ok, subst, sym, ◌⊎◌, text_eq, true,
  false,
}

abbrev from_str : Text → Option Value
from_str s = none

abbrev to_string : Value → Option Text
to_string v = none

abbrev restore : ℕ → Text → ℕ → Text × ℕ
restore now s n = (s, n + 1)

abbrev fresh : SseTransformer
fresh = record { buffer = []; restoration_mode = SseRestorationMode.synthetic_display_text }

-- A comment of the stream, cut in the middle, passes as one frame.
relayed_whole :
    restore_stream from_str to_string restore fresh (arrive 7 (bytes ":\n" ∷ bytes "\n" ∷ [])) 0
    ≡ (ok (bytes ":\n\n") ∷ [], 0)
unfolding restore_stream arrive push bytes take_frames find_frame_end starts_with strip_prefix
    frames_of transform_frame is_utf8 utf8_from lead scan_lines split_lines trim_newlines
    transform_scanned finished finish read_header is_ascii_whitespace
relayed_whole = refl

restore_stream-concat_example :
    restore_stream from_str to_string restore fresh (arrive 7 (bytes ":\n" ∷ bytes "\n" ∷ [])) 0
    ≡ restore_stream from_str to_string restore fresh
        (arrive 7 (concat (bytes ":\n" ∷ bytes "\n" ∷ []) ∷ []))
        0
restore_stream-concat_example =
    restore_stream-concat from_str to_string restore 7 (bytes ":\n") (bytes "\n" ∷ []) fresh 0
      (subst (λ r. IsClean r.0) (sym relayed_whole) tt)

restore_stream-EndsAtError_example :
    EndsAtError
      (restore_stream from_str to_string restore fresh
        (record { now_ms = 7; chunk = some (bytes ":\n\n") }
          ∷ record { now_ms = 8; chunk = none }
          ∷ [])
        0).0
restore_stream-EndsAtError_example =
    restore_stream-EndsAtError from_str to_string restore fresh
      (record { now_ms = 7; chunk = some (bytes ":\n\n") }
        ∷ record { now_ms = 8; chunk = none }
        ∷ [])
      0

abbrev board : Board
board = record {
  expected_dashboard_authority = bytes "127.0.0.1:9";
  upstream = UpstreamMode.open_ai;
  gateway_client = GatewayClient.generic;
  restoration_mode = RestorationMode.disabled;
  audit_healthy = true;
  session_pseudonym = bytes "av_session_12345678";
  policy_name = bytes "default";
  request_sequence = 0;
  synthetic_wire_proof = SyntheticWireProof.unmeasured;
  dashboard_poisoned = false;
  dashboard_activity = [];
}

abbrev asset : Page → Text
asset p = bytes "asset"

abbrev to_json : DashboardSnapshot → Text
to_json s = s.binding

-- A request that names another host is refused.
rebound :
    (dashboard some asset to_json Page.state board ((bytes "host", bytes "evil.test") ∷ [])).status
    ≡ 421
unfolding dashboard dashboard_authority_allowed get_all bytes text_eq dashboard_authority_rejected
    apply_dashboard_headers
rebound = refl

dashboard-IsLocal_example :
    (dashboard some asset to_json Page.state board ((bytes "host", bytes "127.0.0.1:9") ∷ [])
      ≡ dashboard_authority_rejected)
    ⊎ IsLocal some asset to_json board ((bytes "host", bytes "127.0.0.1:9") ∷ [])
dashboard-IsLocal_example =
    dashboard-IsLocal some asset to_json Page.state board ((bytes "host", bytes "127.0.0.1:9") ∷ [])
