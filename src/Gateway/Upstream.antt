-- ===== src/Gateway/Upstream.antt =====
-- Where src/gateway.rs sends a request: `upstream_url` and the handler of `/v1/models`. Parsing and
-- joining of URLs are parameters.
use agent_veil.Gateway.Headers.{
  HeaderMap, UpstreamKind, is_openai, authorized, has_single_authorization, forward_request_headers,
  get_all,
}
use agent_veil.Gateway.Relay.{Answer, Relayed}
use agent_veil.Gateway.Responses.{Config, Request}
use agent_veil.Gateway.Settings.{validated_models_query}
use agent_veil.Prelude.{
  ℕ, Text, bytes, Bool, true, false, not, ◌&&◌, Option, none, some, [], ◌∷◌, ok, err, if◌then◌else◌,
}

abbrev pub chatgpt_responses_url : Text
chatgpt_responses_url = bytes "https://chatgpt.com/backend-api/codex/responses"

abbrev pub chatgpt_models_url : Text
chatgpt_models_url = bytes "https://chatgpt.com/backend-api/codex/models"

abbrev pub api_responses_url : Text
api_responses_url = bytes "https://api.openai.com/v1/responses"

abbrev pub api_models_url : Text
api_models_url = bytes "https://api.openai.com/v1/models"

pub data Route : Type 0 where
  responses_route models_route : Route

-- The paths on a test upstream.
unfoldable pub test_path : Route → Text
unfolding bytes
test_path Route.responses_route = bytes "/v1/responses"
test_path Route.models_route = bytes "/v1/models"

unfoldable pub live_url : Route → Bool → Text
live_url Route.responses_route true = chatgpt_responses_url
live_url Route.models_route true = chatgpt_models_url
live_url Route.responses_route false = api_responses_url
live_url Route.models_route false = api_models_url

-- `contains_key`
unfoldable pub has_header : Text → HeaderMap → Bool
has_header name headers = elim (get_all name headers) [ [] ↦ false | v ∷ vs ↦ true ]

module _ (url_parse : Text → Option Text) (url_join : Text → Text → Option Text)
    (set_query : Text → Text → Text) where
  unfoldable pub with_query : Option Text → Option Text → Option Text
  with_query query none = none
  with_query none (some url) = some url
  with_query (some query) (some url) = some (set_query url query)

  unfoldable pub upstream_url : UpstreamKind → HeaderMap → Route → Option Text → Option Text
  upstream_url (UpstreamKind.loopback_test base) headers route query =
      with_query query (url_join base (test_path route))
  upstream_url UpstreamKind.open_ai headers route query =
      with_query query
        (url_parse (live_url route (has_header (bytes "chatgpt-account-id") headers)))

  -- What `models` does: it refuses with a status and a code, or sends a request and relays.
  pub data ModelsOutcome : Type 0 where
    refused : ℕ → Text → ModelsOutcome
    unavailable : Request → ModelsOutcome
    answered : Request → Relayed → ModelsOutcome

  module _ (to_str : Text → Option Text) (send : Request → Option Answer)
      (relay : Answer → Relayed) where
    -- From the chosen URL on. The request has no body.
    unfoldable pub discover : Config → HeaderMap → Option Text → ModelsOutcome
    discover config headers none = refused 502 (bytes "agentveil_upstream_configuration")
    discover config headers (some url) =
        let request : Request = record {
          url = url;
          headers = forward_request_headers headers config.upstream false;
          body = [];
        } in
        elim (send request) [
          | none ↦ unavailable request
          | some answer ↦ answered request (relay answer)
        ]

    unfoldable pub models : Config → HeaderMap → Option Text → ModelsOutcome
    models config headers uri_query =
        if not (authorized to_str config.expected_local_token headers)
        then refused 401 (bytes "agentveil_unauthorized")
        else if is_openai config.upstream && not (has_single_authorization to_str headers)
        then refused 401 (bytes "agentveil_upstream_auth_missing")
        else elim (validated_models_query uri_query) [
          | err u ↦ refused 400 (bytes "agentveil_invalid_models_query")
          | ok query ↦
              discover config headers
                (upstream_url config.upstream headers Route.models_route query)
        ]
