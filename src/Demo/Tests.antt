-- ===== src/Demo/Tests.antt =====
-- A run of the fixture of src/demo.rs, and its theorem at it.
use agent_veil.Detector.Matches.{contains_text, find, find_from, match_indices, match_from}
use agent_veil.Sse.Text.{starts_with, strip_prefix}
use agent_veil.Engine.Slice.{get_range, is_char_boundary}
use agent_veil.Gateway.Headers.{get_all}
use agent_veil.Gateway.Upstream.{has_header}
use agent_veil.Gateway.Activity.{mark}
use agent_veil.Demo.{any_window, contains_bytes, contains_hashed_value}
use agent_veil.Demo.Stream.{codex_demo_sse, frames_for, fixture_events}
use agent_veil.Demo.Tokens.{
  codex_demo_contains_original, codex_demo_tokens, collect_codex_demo_tokens, collect_both,
  collect_tokens_with_prefix, collect_tokens_at, token_at, is_token_digit, insert_token,
  only_tokens,
}
use agent_veil.Demo.Fixture.{
  codex_demo_responses, count_request, check_request, is_forbidden, read_request, answer, marks,
  reject, tokenized_text, FixtureSecret, FixtureState,
}
use agent_veil.Demo.Proof.{IsProtected, after_requests, after_requests-IsProtected}
use agent_veil.Gateway.Activity.{SyntheticWireProof}
use agent_veil.Gateway.Headers.{HeaderMap}
use agent_veil.Payload.Value.{Value}
use agent_veil.Prelude.{
  text_eq, contains, is_ascii_digit, ◌≡◌, Text, bytes, Option, some, List, [], ◌∷◌, ◌++◌, All, true,
  false, refl,
}

abbrev secret : FixtureSecret
secret = record { session_token_hash = bytes "secret"; session_token_len = 6 }

abbrev fresh : FixtureState
fresh = record {
  request_count = 0;
  forbidden_header_seen = false;
  wire_proof = SyntheticWireProof.unmeasured;
}

abbrev tokens : Text
tokens =
    bytes "[AV_EMAIL_AAAAAAAAAAAAAAAAAAAAAAAAAAAAAAAA] [AV_IPV4_BBBBBBBBBBBBBBBBBBBBBBBBBBBBBBBB]"

abbrev requests : List (HeaderMap × Text)
requests = ([], tokens) ∷ []

abbrev hash : Text → Text
hash s = s

abbrev from_slice : Text → Option Value
from_slice s = some (Value.string s)

abbrev to_string : Value → Option Text
to_string v = some []

run_passes :
    (after_requests hash from_slice to_string true secret requests fresh).wire_proof
    ≡ SyntheticWireProof.passed
unfolding after_requests codex_demo_responses count_request check_request is_forbidden has_header
    get_all contains_hashed_value any_window bytes text_eq contains_bytes read_request
    codex_demo_contains_original contains_text find find_from starts_with strip_prefix
    codex_demo_tokens collect_codex_demo_tokens collect_both collect_tokens_with_prefix
    match_indices match_from collect_tokens_at token_at get_range is_char_boundary is_token_digit
    is_ascii_digit insert_token contains only_tokens answer codex_demo_sse frames_for fixture_events
    marks mark reject tokenized_text
run_passes = refl

-- A request with the address, after one that passes, makes the proof fail.
run_fails :
    (after_requests hash from_slice to_string true secret
      (requests ++ ([], bytes "ava.agentveil@example.test") ∷ [])
      fresh).wire_proof
    ≡ SyntheticWireProof.failed
unfolding after_requests codex_demo_responses count_request check_request is_forbidden has_header
    get_all contains_hashed_value any_window bytes text_eq contains_bytes read_request
    codex_demo_contains_original contains_text find find_from starts_with strip_prefix
    codex_demo_tokens collect_codex_demo_tokens collect_both collect_tokens_with_prefix
    match_indices match_from collect_tokens_at token_at get_range is_char_boundary is_token_digit
    is_ascii_digit insert_token contains only_tokens answer codex_demo_sse frames_for fixture_events
    marks mark reject tokenized_text
run_fails = refl

after_requests-IsProtected_example :
    All (λ request. IsProtected hash from_slice secret request.0 request.1) requests
after_requests-IsProtected_example =
    after_requests-IsProtected hash from_slice to_string true secret requests fresh run_passes
