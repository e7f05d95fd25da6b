-- ===== src/Gateway/Responses.antt =====
-- `responses` and `write_audit` of src/gateway.rs. The engine is a parameter, and so are the audit
-- file and the HTTP client, which may answer by what has happened so far, and `upstream_url`, whose
-- work `reqwest::Url` does. The texts of the error messages are left out.
use agent_veil.Gateway.Headers.{
  HeaderMap, UpstreamKind, is_openai, authorized, has_single_authorization, content_type_is_json,
  has_unsupported_content_encoding, forward_request_headers,
}
use agent_veil.Gateway.Activity.{DashboardActivity, record_dashboard_activity}
use agent_veil.Audit.{AuditDecision, UpstreamOutcome, AuditFinding, AuditEvent, new_event}
use agent_veil.Engine.Plan.{EngineError, ProtectionSummary, FindingSummary}
use agent_veil.Engine.Protect.{ProtectionOutcome, ForwardRequest, ForwardDecision}
use agent_veil.Payload.Target.{PayloadError}
use agent_veil.Prelude.{
  ℕ, ◌+◌, Text, Bool, true, false, not, ◌&&◌, ◌||◌, Option, none, some, List, [], ◌∷◌, ◌++◌, Result,
  ok, err, if◌then◌else◌, bytes, map,
}

pub record Request : Type 0 where
  pub url : Text
  pub headers : HeaderMap
  pub body : Text

pub data Effect : Type 0 where
  recorded : AuditEvent → Effect
  sent : Request → Effect

-- `error_response` with its status, code, event and the bytes forwarded, or a relayed response.
pub data Response : Type 0 where
  error_response : ℕ → Text → Option Text → Option ℕ → Response
  relayed : Response

-- What does not change while the gateway runs.
pub record Config : Type 0 where
  pub expected_local_token : Text
  pub upstream : UpstreamKind
  pub session_pseudonym : Text
  pub policy_name : Text
  pub policy_hash : Text
  pub version : Text

pub record GatewayState (L : Type 0) : Type 0 where
  pub engine : L
  pub audit_healthy : Bool
  pub request_sequence : ℕ
  pub effects : List Effect
  pub dashboard_poisoned : Bool
  pub dashboard_activity : List DashboardActivity

-- What the clock and the random source give to one request.
pub record Moment : Type 0 where
  pub event_id : Option Text
  pub timestamp_unix_ms : ℕ
  pub scan_latency_ms : ℕ

unfoldable pub audit_decision : ForwardDecision → AuditDecision
audit_decision ForwardDecision.allowed = AuditDecision.allowed
audit_decision ForwardDecision.rewritten = AuditDecision.rewritten

unfoldable pub engine_error_status : EngineError → ℕ × Text
engine_error_status EngineError.oversize = (413, bytes "agentveil_oversize")
engine_error_status (EngineError.payload PayloadError.json) = (400, bytes "agentveil_invalid_json")
engine_error_status (EngineError.payload e) = (422, bytes "agentveil_unsupported_payload")
engine_error_status e = (503, bytes "agentveil_protection_failure")

unfoldable pub audit_findings : Option ProtectionSummary → List AuditFinding
audit_findings none = []
audit_findings (some summary) =
    map
      (λ (f : FindingSummary). record {
        detector = f.detector;
        data_class = f.data_class;
        confidence = f.confidence;
        action = f.action;
        source_field = f.source_field;
        count = f.count;
      })
      summary.findings

module _ {L : Type 0} (config : Config) (write : List Effect → AuditEvent → Bool) where
  unfoldable pub write_audit :
      Moment
      → Text
      → ℕ
      → AuditDecision
      → Option ProtectionSummary
      → UpstreamOutcome
      → GatewayState L
      → Bool × GatewayState L
  write_audit m event_id sequence decision summary outcome s =
      elim (new_event event_id m.timestamp_unix_ms config.session_pseudonym sequence decision
        (audit_findings summary) outcome m.scan_latency_ms config.policy_name config.policy_hash
        config.version) [
          | err e ↦ (false, record s { audit_healthy = false })
          | ok event ↦
              if write s.effects event
              then (
                true,
                record s {
                  effects = s.effects ++ Effect.recorded event ∷ [];
                  dashboard_activity =
                      record_dashboard_activity s.dashboard_poisoned event s.dashboard_activity;
                },
              )
              else (false, record s { audit_healthy = false })
        ]

  module _ (send : List Effect → Request → Bool) (upstream_url : HeaderMap → Option Text)
      (to_str : Text → Option Text)
      (protect : Text → L → Result EngineError ProtectionOutcome × L) where
    -- From the post to the response.
    unfoldable pub post :
        Moment → Text → ℕ → ForwardRequest → Request → GatewayState L → Response × GatewayState L
    post m event_id sequence forward request s =
        let ok_sent = send s.effects request in
        let s' : GatewayState L = record s { effects = s.effects ++ Effect.sent request ∷ [] } in
        if ok_sent
        then (
          Response.relayed,
          (write_audit m event_id sequence (audit_decision forward.decision) (some forward.summary)
              UpstreamOutcome.started s').1,
        )
        else (
          Response.error_response 502 (bytes "agentveil_upstream_unavailable") (some event_id) none,
          (write_audit m event_id sequence (audit_decision forward.decision) (some forward.summary)
              UpstreamOutcome.failed s').1,
        )

    -- From the protected request on.
    unfoldable pub forward_request :
        Moment → Text → ℕ → HeaderMap → ForwardRequest → GatewayState L → Response × GatewayState L
    forward_request m event_id sequence headers forward s = elim (upstream_url headers) [
      | none ↦ (
        Response.error_response 502 (bytes "agentveil_upstream_configuration") (some event_id)
            (some 0),
        (write_audit m event_id sequence (audit_decision forward.decision) (some forward.summary)
            UpstreamOutcome.not_started s).1,
      )
      | some url ↦
          let (written, s') =
            write_audit m event_id sequence (audit_decision forward.decision) (some forward.summary)
              UpstreamOutcome.pending s in
          elim written [
            | false ↦ (
              Response.error_response 503 (bytes "agentveil_audit_unavailable") (some event_id)
                  (some 0),
              s',
            )
            | true ↦
                post m event_id sequence forward
                  (record {
                    url = url;
                    headers = forward_request_headers headers config.upstream true;
                    body = forward.body;
                  })
                  s'
          ]
    ]

    -- From the result of the engine on.
    unfoldable pub dispatch :
        Moment
        → Text
        → ℕ
        → HeaderMap
        → Result EngineError ProtectionOutcome
        → GatewayState L
        → Response × GatewayState L
    dispatch m event_id sequence headers (err e) s =
        let (status, code) = engine_error_status e in
        (
          Response.error_response status code (some event_id) (some 0),
          (write_audit m event_id sequence AuditDecision.rejected none UpstreamOutcome.not_started
              s).1,
        )
    dispatch m event_id sequence headers (ok (ProtectionOutcome.blocked summary)) s = (
      Response.error_response 422 (bytes "agentveil_blocked") (some event_id) (some 0),
      (write_audit m event_id sequence AuditDecision.blocked (some summary)
          UpstreamOutcome.not_started s).1,
    )
    dispatch m event_id sequence headers (ok (ProtectionOutcome.forward forward)) s =
        forward_request m event_id sequence headers forward s

    -- From the checks of the headers on.
    unfoldable pub protected :
        Moment → HeaderMap → Text → GatewayState L → Response × GatewayState L
    protected m headers body s = elim m.event_id [
      | none ↦ (Response.error_response 503 (bytes "agentveil_random_unavailable") none none, s)
      | some event_id ↦
          let (outcome, engine) = protect body s.engine in
          dispatch m event_id (s.request_sequence + 1) headers outcome
            (record s { engine = engine; request_sequence = s.request_sequence + 1 })
    ]

    unfoldable pub responses :
        Moment → HeaderMap → Text → GatewayState L → Response × GatewayState L
    responses m headers body s =
        if not (authorized to_str config.expected_local_token headers)
        then (Response.error_response 401 (bytes "agentveil_unauthorized") none none, s)
        else if not s.audit_healthy
        then (Response.error_response 503 (bytes "agentveil_audit_unavailable") none (some 0), s)
        else if not (content_type_is_json to_str headers)
            || has_unsupported_content_encoding to_str headers
        then (Response.error_response 415 (bytes "agentveil_unsupported_encoding") none none, s)
        else if is_openai config.upstream && not (has_single_authorization to_str headers)
        then (Response.error_response 401 (bytes "agentveil_upstream_auth_missing") none none, s)
        else protected m headers body s
