-- ===== src/Demo/Fixture.antt =====
-- `codex_demo_responses` of src/demo.rs: the capturing upstream of the demonstration, which answers
-- a protected request and marks the wire proof as failed on any other. The delay of its answer is
-- left out; parsing, printing and blake3 are parameters, and so is whether the response is built.
use agent_veil.Demo.{
  local_session_header, synthetic_email, synthetic_private_ip, contains_bytes,
  contains_hashed_value,
}
use agent_veil.Demo.Stream.{codex_demo_sse}
use agent_veil.Demo.Tokens.{codex_demo_contains_original, codex_demo_tokens}
use agent_veil.Gateway.Activity.{Mark, mark, SyntheticWireProof}
use agent_veil.Gateway.Headers.{HeaderMap}
use agent_veil.Gateway.Upstream.{has_header}
use agent_veil.Payload.Value.{Value}
use agent_veil.Prelude.{
  ℕ, ◌+◌, ◌%◌, ◌^◌, Text, bytes, Bool, true, ◌||◌, Option, none, some, [], ◌∷◌, ◌++◌, any,
  if◌then◌else◌, text_eq,
}

-- `CodexDemoFakeState`: what stays, and what a request changes.
pub record FixtureSecret : Type 0 where
  pub session_token_hash : Text
  pub session_token_len : ℕ

pub record FixtureState : Type 0 where
  pub request_count : ℕ
  pub forbidden_header_seen : Bool
  pub wire_proof : SyntheticWireProof

pub record FixtureResponse : Type 0 where
  pub status : ℕ
  pub headers : HeaderMap
  pub body : Text

unfoldable pub codex_demo_rejection : FixtureResponse
unfolding bytes
codex_demo_rejection = record {
  status = 422;
  headers = (bytes "content-type", bytes "text/plain; charset=utf-8") ∷ [];
  body = bytes "AgentVeil synthetic fixture rejected the request.";
}

unfoldable pub tokenized_text : Text → Text → Text
unfolding bytes
tokenized_text email_token private_ip_token =
    bytes "const SUPPORT_EMAIL = \""
    ++ (email_token ++ (bytes "\";\nconst BUILD_HOST = \"" ++ (private_ip_token ++ bytes "\";")))

-- The state after a mark of its proof.
unfoldable pub marks : Mark → FixtureState → FixtureState
marks m s = record s { wire_proof = mark m s.wire_proof }

unfoldable pub reject : FixtureState → FixtureResponse × FixtureState
reject s = (codex_demo_rejection, marks Mark.mark_failed s)

-- `StatusCode::INTERNAL_SERVER_ERROR.into_response()`
unfoldable pub internal_error : FixtureState → FixtureResponse × FixtureState
internal_error s = (record { status = 500; headers = []; body = [] }, marks Mark.mark_failed s)

-- The request is counted with the wrap-around of a `usize`.
unfoldable pub count_request : FixtureState → FixtureState
count_request s = record s { request_count = (s.request_count + 1) % 2 ^ 64 }

module _ (hash : Text → Text) (from_slice : Text → Option Value) (to_string : Value → Option Text)
    (is_built : Bool) (secret : FixtureSecret) where
  unfoldable pub is_forbidden : HeaderMap → Text → Bool
  unfolding bytes
  is_forbidden headers body =
      has_header (bytes "authorization") headers
      || has_header local_session_header headers
      || any (λ h. text_eq (hash h.1) secret.session_token_hash) headers
      || contains_hashed_value hash body secret.session_token_len secret.session_token_hash

  -- From the tokens on.
  unfoldable pub answer : Text × Text → FixtureState → FixtureResponse × FixtureState
  unfolding bytes
  answer (email_token, private_ip_token) s =
      elim (codex_demo_sse to_string (tokenized_text email_token private_ip_token)) [
        | none ↦ internal_error s
        | some sse ↦
            if is_built
            then (
              record {
                status = 200;
                headers =
                    (bytes "content-type", bytes "text/event-stream; charset=utf-8")
                    ∷ (bytes "cache-control", bytes "no-store")
                    ∷ [];
                body = sse;
              },
              marks Mark.mark_passed s,
            )
            else internal_error s
      ]

  -- On the value of the body.
  unfoldable pub read_request : Value → FixtureState → FixtureResponse × FixtureState
  read_request request s =
      if codex_demo_contains_original request
      then reject s
      else elim (codex_demo_tokens request) [ none ↦ reject s | some tokens ↦ answer tokens s ]

  -- What follows the count.
  unfoldable pub check_request : HeaderMap → Text → FixtureState → FixtureResponse × FixtureState
  check_request headers body s =
      if is_forbidden headers body
      then reject (record s { forbidden_header_seen = true })
      else if contains_bytes body synthetic_email || contains_bytes body synthetic_private_ip
      then reject s
      else elim (from_slice body) [ none ↦ reject s | some request ↦ read_request request s ]

  unfoldable pub codex_demo_responses :
      HeaderMap → Text → FixtureState → FixtureResponse × FixtureState
  codex_demo_responses headers body s = check_request headers body (count_request s)
