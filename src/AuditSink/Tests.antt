-- ===== src/AuditSink/Tests.antt =====
-- A run of src/audit_sink.rs on a small file system, and the theorem on it.
use agent_veil.AuditSink.Durable.{write_iff, IsDurable}
use agent_veil.Audit.{AuditEvent, AuditRoute, AuditDecision, UpstreamOutcome}
use agent_veil.AuditSink.Private.{open_sink-IsPrivateFile, IsPrivateFile}
use agent_veil.AuditSink.{
  AuditSinkError, Os, open_sink, required, ensure_private_directory, looked_up, refuse,
  validate_private_directory, failing, is_private, is_real_directory, or_current, check_existing,
  open_private, write,
}
use agent_veil.Prelude.{
  ℕ, ◌≡◌, refl, true, false, some, ok, err, ◌==◌, ◌+◌, bytes, Option, Text, ◌↔◌, ◌∷◌, [],
}

-- The path 1 is a directory, 2 the name of the file, 12 the file in the directory; the state is the
-- mode of the file, which all directories share.
abbrev os : Os ℕ ℕ ℕ
os = record {
  parent = λ p. some 1;
  file_name = λ p. some 2;
  join = λ d n. 10 + n;
  is_empty = λ p. false;
  current_directory = 0;
  symlink_metadata = λ p s. (
    ok (record { is_symlink = false; is_dir = p == 1; is_file = p == 12; nlink = 1; mode = s }),
    s,
  );
  canonicalize = λ p s. (ok p, s);
  create_directory = λ p s. (ok tt, s);
  open_append = λ p s. (ok p, s);
  file_metadata = λ f s.
      (ok (record { is_symlink = false; is_dir = false; is_file = true; nlink = 1; mode = s }), s);
  write_all = λ f t s. (ok tt, s);
  flush = λ f s. (ok tt, s);
  sync_data = λ f s. (ok tt, s);
}

-- The mode 0o600 is accepted.
opens : open_sink os 3 384 ≡ (ok 12, 384)
unfolding open_sink required ensure_private_directory looked_up refuse validate_private_directory
    failing is_private is_real_directory or_current check_existing open_private
opens = refl

-- The mode 0o644 is refused.
refuses : open_sink os 3 420 ≡ (err AuditSinkError.permissive_directory_mode, 420)
unfolding open_sink required ensure_private_directory looked_up refuse validate_private_directory
    failing is_private is_real_directory or_current
refuses = refl

open_sink-IsPrivateFile_example : IsPrivateFile os 12 384
open_sink-IsPrivateFile_example = open_sink-IsPrivateFile os 3 384 12 384 opens

abbrev event : AuditEvent
event = record {
  schema_version = 1;
  event_id = bytes "av_evt_1234";
  timestamp_unix_ms = 5;
  session_pseudonym = bytes "av_session_12345678";
  request_sequence = 1;
  route = AuditRoute.responses;
  decision = AuditDecision.allowed;
  findings = [];
  upstream_outcome = UpstreamOutcome.pending;
  scan_latency_ms = 1;
  policy_name = bytes "demo";
  policy_hash = [];
  agentveil_version = bytes "0.1.0";
}

abbrev to_json_line : AuditEvent → Option Text
to_json_line e = some (b'\n' ∷ [])

write_iff_example :
    (write os to_json_line 12 false event 384 ≡ (ok tt, 384))
    ↔ IsDurable os to_json_line 12 false event 384 384
write_iff_example = write_iff os to_json_line 12 false event 384 384

writes : write os to_json_line 12 false event 384 ≡ (ok tt, 384)
unfolding write required refuse failing
writes = refl
