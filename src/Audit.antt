-- ===== src/Audit.antt =====
-- Audit events (src/audit.rs): metadata only, checked before an event is made.
use agent_veil.Domain.{Action, Confidence, DataClass, DetectorId, FieldClass}
use agent_veil.Prelude.{
  ℕ, Text, Bool, not, ◌&&◌, ◌||◌, leb, ◌==◌, List, Result, ok, err, if◌then◌else◌, all, length,
  is_ascii_alphanumeric, is_ascii_digit,
}

pub data AuditDecision : Type 0 where
  allowed rewritten blocked rejected : AuditDecision

pub data UpstreamOutcome : Type 0 where
  not_started pending started completed failed : UpstreamOutcome

pub data AuditRoute : Type 0 where
  responses models : AuditRoute

pub record AuditFinding : Type 0 where
  pub detector : DetectorId
  pub data_class : DataClass
  pub confidence : Confidence
  pub action : Action
  pub source_field : FieldClass
  pub count : ℕ

pub record AuditEvent : Type 0 where
  pub schema_version : ℕ
  pub event_id : Text
  pub timestamp_unix_ms : ℕ
  pub session_pseudonym : Text
  pub request_sequence : ℕ
  pub route : AuditRoute
  pub decision : AuditDecision
  pub findings : List AuditFinding
  pub upstream_outcome : UpstreamOutcome
  pub scan_latency_ms : ℕ
  pub policy_name : Text
  pub policy_hash : Text
  pub agentveil_version : Text

pub data AuditError : Type 0 where
  unsafe_metadata serialize : AuditError

unfoldable pub is_identifier_byte : ℕ → Bool
is_identifier_byte b = is_ascii_alphanumeric b || b == b'-' || b == b'_'

unfoldable pub safe_identifier : Text → ℕ → ℕ → Bool
safe_identifier value minimum maximum =
    (leb minimum (length value) && leb (length value) maximum) && all is_identifier_byte value

-- `u8::is_ascii_hexdigit`
unfoldable pub is_ascii_hexdigit : ℕ → Bool
is_ascii_hexdigit b = is_ascii_digit b || leb b'a' b && leb b b'f' || leb b'A' b && leb b b'F'

unfoldable pub safe_hex : Text → ℕ → Bool
safe_hex value size = length value == size && all is_ascii_hexdigit value

unfoldable pub is_version_byte : ℕ → Bool
is_version_byte b = is_ascii_digit b || b == b'.' || b == b'-'

unfoldable pub safe_version : Text → Bool
safe_version value = not (length value == 0) && leb (length value) 32 && all is_version_byte value

-- `AuditEvent::new`
unfoldable pub new_event :
    Text
    → ℕ
    → Text
    → ℕ
    → AuditDecision
    → List AuditFinding
    → UpstreamOutcome
    → ℕ
    → Text
    → Text
    → Text
    → Result AuditError AuditEvent
new_event event_id timestamp session sequence decision findings outcome latency name hash version =
    if not (safe_identifier event_id 8 72)
      || not (safe_identifier session 8 72)
      || not (safe_identifier name 1 48)
      || not (safe_hex hash 64)
      || not (safe_version version)
    then err AuditError.unsafe_metadata
    else ok (record {
      schema_version = 1;
      event_id = event_id;
      timestamp_unix_ms = timestamp;
      session_pseudonym = session;
      request_sequence = sequence;
      route = AuditRoute.responses;
      decision = decision;
      findings = findings;
      upstream_outcome = outcome;
      scan_latency_ms = latency;
      policy_name = name;
      policy_hash = hash;
      agentveil_version = version;
    })
