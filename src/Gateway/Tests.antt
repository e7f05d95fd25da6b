-- ===== src/Gateway/Tests.antt =====
-- A request of src/gateway.rs that is forwarded, and the theorem at it.
use agent_veil.Gateway.Fixed.{IsFixed, responses-IsFixed}
use agent_veil.Gateway.Upstream
use agent_veil.Gateway.Upstream.{Route, api_responses_url, with_query, live_url, has_header}
use agent_veil.Gateway.Settings.{
  GatewayConfig, Url, UpstreamMode, RestorationMode, check_config, validate_upstream,
  validate_loopback_test_url, is_unsafe_url, is_bad_token, is_disabled, is_openai_mode,
  IsSafeConfig, check_config-IsSafeConfig,
}
use agent_veil.Gateway.Activity.{
  DashboardActivity, new_activity, record_dashboard_activity,
  record_dashboard_activity-IsBoundedActivity, IsBoundedActivity, Mark, SyntheticWireProof, marked,
  mark, marked_failed_iff, wire_label,
}
use agent_veil.Gateway.Egress.{IsQuiet, Sends, responses-Sends}
use agent_veil.Gateway.Headers.{
  HeaderMap, UpstreamKind, authorized, HasToken, header_str, get_all, content_type_is_json,
  has_unsupported_content_encoding, before_semicolon, eq_ignore_case, forward_request_headers,
  forward_allowed, forwarded_names, header_names, has_single_authorization,
}
use agent_veil.Gateway.Responses.{
  Config, GatewayState, Moment, Request, Effect, responses, protected, dispatch, forward_request,
  post, write_audit, audit_decision, audit_findings,
}
use agent_veil.Audit.{
  AuditDecision, UpstreamOutcome, AuditEvent, AuditRoute, new_event, safe_identifier, safe_hex,
  safe_version, is_identifier_byte, is_ascii_hexdigit, is_version_byte,
}
use agent_veil.Engine.Plan.{EngineError}
use agent_veil.Engine.Protect.{ProtectionOutcome, ForwardRequest, ForwardDecision}
use agent_veil.Sse.Text.{
  trim, trim_start, trim_start_within, trim_end, after_space, starts_with, strip_prefix,
}
use agent_veil.Prelude.{
  ℕ, Text, bytes, Bool, true, Option, some, List, [], ◌∷◌, ◌≡◌, ◌⊎◌, Result, ok, refl, replicate,
  text_eq, is_ascii_alphanumeric, is_ascii_uppercase, is_ascii_lowercase, is_ascii_digit, false,
  ◌↔◌, arith, In, none, subst, sym, inr, contains, inl,
}

abbrev secret : Text
secret = replicate 32 b'k'

abbrev config : Config
config = record {
  expected_local_token = secret;
  upstream = UpstreamKind.loopback_test (bytes "http://127.0.0.1:9/");
  session_pseudonym = bytes "av_session_12345678";
  policy_name = bytes "demo";
  policy_hash = replicate 64 b'a';
  version = bytes "0.1.0";
}

abbrev headers : HeaderMap
headers =
    (bytes "x-agentveil-session", secret)
    ∷ (bytes "content-type", bytes "Application/JSON; charset=utf-8")
    ∷ []

abbrev m : Moment
m = record { event_id = some (bytes "av_evt_1234"); timestamp_unix_ms = 5; scan_latency_ms = 1 }

abbrev start : GatewayState ℕ
start = record {
  engine = 0;
  audit_healthy = true;
  request_sequence = 0;
  effects = [];
  dashboard_poisoned = false;
  dashboard_activity = [];
}

abbrev forward : ForwardRequest
forward = record {
  body = bytes "{}";
  decision = ForwardDecision.allowed;
  summary = record { scanned_fields = 1; findings = [] };
}

abbrev write : List Effect → AuditEvent → Bool
write effects event = true

abbrev send : List Effect → Request → Bool
send effects request = true

abbrev upstream_url : HeaderMap → Option Text
upstream_url source = some (bytes "http://127.0.0.1:9/v1/responses")

abbrev to_str : Text → Option Text
to_str v = some v

abbrev protect : Text → ℕ → Result EngineError ProtectionOutcome × ℕ
protect body engine = (ok (ProtectionOutcome.forward forward), engine)

abbrev event : UpstreamOutcome → AuditEvent
event outcome = record {
  schema_version = 1;
  event_id = bytes "av_evt_1234";
  timestamp_unix_ms = 5;
  session_pseudonym = bytes "av_session_12345678";
  request_sequence = 1;
  route = AuditRoute.responses;
  decision = AuditDecision.allowed;
  findings = [];
  upstream_outcome = outcome;
  scan_latency_ms = 1;
  policy_name = bytes "demo";
  policy_hash = replicate 64 b'a';
  agentveil_version = bytes "0.1.0";
}

abbrev outgoing : Request
outgoing = record {
  url = bytes "http://127.0.0.1:9/v1/responses";
  headers =
      (bytes "content-type", bytes "application/json")
      ∷ (bytes "x-agentveil-synthetic", bytes "true")
      ∷ [];
  body = bytes "{}";
}

forwards :
    (responses config write send upstream_url to_str protect m headers [] start).1.effects
    ≡ Effect.recorded (event UpstreamOutcome.pending)
      ∷ Effect.sent outgoing
      ∷ Effect.recorded (event UpstreamOutcome.started)
      ∷ []
unfolding responses protected dispatch forward_request post write_audit audit_decision
    audit_findings new_event safe_identifier safe_hex safe_version is_identifier_byte
    is_ascii_hexdigit is_version_byte authorized header_str get_all content_type_is_json
    has_unsupported_content_encoding before_semicolon eq_ignore_case forward_request_headers trim
    trim_start trim_start_within trim_end after_space text_eq bytes is_ascii_alphanumeric
    is_ascii_uppercase is_ascii_lowercase is_ascii_digit
forwards = refl

responses-Sends_example :
    IsQuiet []
      (responses config write send upstream_url to_str protect m headers [] start).1.effects
    ⊎ (HasToken to_str secret headers
        × (◌≡◌ {A = Bool} true true)
        × ((f : ForwardRequest) × ((protect [] 0).0 ≡ ok (ProtectionOutcome.forward f))
            × Sends config write send upstream_url to_str protect m headers f []
                (responses config write send upstream_url to_str protect m headers []
                  start).1.effects))
responses-Sends_example =
    responses-Sends config write send upstream_url to_str protect m headers [] start

abbrev shown : List DashboardActivity
shown = new_activity (event UpstreamOutcome.pending) ∷ []

record_dashboard_activity-IsBoundedActivity_example :
    IsBoundedActivity (record_dashboard_activity false (event UpstreamOutcome.completed) shown)
unfolding new_activity
record_dashboard_activity-IsBoundedActivity_example =
    record_dashboard_activity-IsBoundedActivity false (event UpstreamOutcome.completed) shown
      (record { bounded = omega arith; distinct = (tt, tt) })

marked_failed_iff_example :
    (marked (Mark.mark_failed ∷ Mark.mark_passed ∷ []) SyntheticWireProof.unmeasured
      ≡ SyntheticWireProof.failed)
    ↔ In Mark.mark_failed (Mark.mark_failed ∷ Mark.mark_passed ∷ [])
marked_failed_iff_example = marked_failed_iff (Mark.mark_failed ∷ Mark.mark_passed ∷ [])

label_passed :
    wire_label (marked (Mark.mark_passed ∷ []) SyntheticWireProof.unmeasured)
    ≡ bytes "synthetic_passed"
unfolding wire_label marked mark bytes
label_passed = refl

abbrev parse_address : Text → Option Bool
parse_address host = some (text_eq host (bytes "127.0.0.1"))

abbrev test_url : Url
test_url = record {
  scheme = bytes "http";
  username = [];
  password = none;
  query = none;
  fragment = none;
  host_str = some (bytes "127.0.0.1");
}

abbrev settings : GatewayConfig
settings = record {
  bind_is_loopback = true;
  local_session_token = replicate 32 b'a';
  upstream = UpstreamMode.loopback_test test_url;
  restoration_mode = RestorationMode.synthetic_display_text;
  policy_name = bytes "demo";
}

settings_accepted : check_config parse_address settings ≡ ok tt
unfolding check_config validate_upstream validate_loopback_test_url is_unsafe_url is_bad_token
    is_disabled is_openai_mode text_eq bytes is_ascii_alphanumeric is_ascii_lowercase
settings_accepted = refl

check_config-IsSafeConfig_example : IsSafeConfig parse_address settings
check_config-IsSafeConfig_example =
    check_config-IsSafeConfig parse_address settings settings_accepted

abbrev live : Config
live = record config { upstream = UpstreamKind.open_ai }

abbrev signed : HeaderMap
signed = (bytes "authorization", bytes "Bearer k") ∷ headers

abbrev parse : Text → Option Text
parse url = some url

abbrev join : Text → Text → Option Text
join base path = none

abbrev set : Text → Text → Text
set url query = url

abbrev live_request : Request
live_request = record {
  url = api_responses_url;
  headers =
      (bytes "authorization", bytes "Bearer k")
      ∷ (bytes "content-type", bytes "Application/JSON; charset=utf-8")
      ∷ [];
  body = bytes "{}";
}

abbrev sending : List Effect
sending =
    (responses live write send
      (λ h. Upstream.upstream_url parse join set live.upstream h Route.responses_route none) to_str
      protect m signed [] start).1.effects

sends_live :
    sending
    ≡ Effect.recorded (event UpstreamOutcome.pending)
      ∷ Effect.sent live_request
      ∷ Effect.recorded (event UpstreamOutcome.started)
      ∷ []
unfolding responses protected dispatch forward_request post write_audit audit_decision
    audit_findings new_event safe_identifier safe_hex safe_version is_identifier_byte
    is_ascii_hexdigit is_version_byte authorized header_str get_all content_type_is_json
    has_unsupported_content_encoding before_semicolon eq_ignore_case forward_request_headers trim
    trim_start trim_start_within trim_end after_space text_eq bytes is_ascii_alphanumeric
    is_ascii_uppercase is_ascii_lowercase is_ascii_digit forward_allowed forwarded_names
    header_names contains has_single_authorization starts_with strip_prefix Upstream.upstream_url
    with_query live_url has_header
sends_live = refl

responses-IsFixed_example :
    In (Effect.sent live_request) [] ⊎ IsFixed parse join set live_request.url
responses-IsFixed_example =
    responses-IsFixed parse join set live write send to_str protect m signed [] start live_request
      refl (subst (In (Effect.sent live_request)) (sym sends_live) (inr (inl refl)))
