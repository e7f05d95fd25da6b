-- ===== src/Gateway/Settings.antt =====
-- The settings of the gateway that `build_router` of src/gateway.rs accepts. The parts of a URL are
-- what `reqwest::Url` reports, and whether a text is an address, and a loopback one, is a parameter.
use agent_veil.AuditSink.{AuditSinkError}
use agent_veil.Engine.Plan.{EngineError}
use agent_veil.Sse.Event.{SseRestorationMode}
use agent_veil.Sse.Text.{strip_prefix}
use agent_veil.Prelude.{
  Text, bytes, Bool, true, false, not, ◌&&◌, ◌||◌, ◌==◌, leb, ltb, length, all, text_eq, Option,
  none, some, is_some, Result, ok, err, ◌>>=◌, ◌>>◌, refuse_if, ok_or, if◌then◌else◌,
  is_ascii_alphanumeric, ◌≡◌, refl, ap, ◌≤◌, ok_of_bind, arith, ◌∙◌, refuse_if_ok, refused_last,
  ok_or_ok,
}

pub data GatewayError : Type 0 where
  non_loopback_bind invalid_local_session_token unsafe_test_upstream : GatewayError
  live_restoration_not_verified demo_policy_requires_test_upstream : GatewayError
  http_client bind_failed serve_failed upstream_url random_unavailable identifier : GatewayError
  engine : EngineError → GatewayError
  audit : AuditSinkError → GatewayError

pub record Url : Type 0 where
  pub scheme : Text
  pub username : Text
  pub password : Option Text
  pub query : Option Text
  pub fragment : Option Text
  pub host_str : Option Text

pub data UpstreamMode : Type 0 where
  open_ai : UpstreamMode
  loopback_test : Url → UpstreamMode

unfoldable pub is_openai_mode : UpstreamMode → Bool
is_openai_mode UpstreamMode.open_ai = true
is_openai_mode (UpstreamMode.loopback_test url) = false

unfoldable pub upstream_label : UpstreamMode → Text
unfolding bytes
upstream_label UpstreamMode.open_ai = bytes "openai"
upstream_label (UpstreamMode.loopback_test url) = bytes "loopback_test"

pub data RestorationMode : Type 0 where
  disabled synthetic_display_text synthetic_display_delta_only : RestorationMode

unfoldable pub restoration_label : RestorationMode → Text
unfolding bytes
restoration_label RestorationMode.disabled = bytes "disabled"
restoration_label RestorationMode.synthetic_display_text = bytes "synthetic_full"
restoration_label RestorationMode.synthetic_display_delta_only =
    bytes "synthetic_display_delta_only"

unfoldable pub sse_mode : RestorationMode → Option SseRestorationMode
sse_mode RestorationMode.disabled = none
sse_mode RestorationMode.synthetic_display_text = some SseRestorationMode.synthetic_display_text
sse_mode RestorationMode.synthetic_display_delta_only =
    some SseRestorationMode.synthetic_display_delta_only

unfoldable pub is_disabled : RestorationMode → Bool
is_disabled RestorationMode.disabled = true
is_disabled RestorationMode.synthetic_display_text = false
is_disabled RestorationMode.synthetic_display_delta_only = false

-- The fields of `GatewayConfig` that the checks read; of the address only whether it is loopback.
pub record GatewayConfig : Type 0 where
  pub bind_is_loopback : Bool
  pub local_session_token : Text
  pub upstream : UpstreamMode
  pub restoration_mode : RestorationMode
  pub policy_name : Text

-- `validated_models_query`
unfoldable pub validated_models_query : Option Text → Result (Unit {0}) (Option Text)
unfolding bytes
validated_models_query none = ok none
validated_models_query (some query) = elim (strip_prefix (bytes "client_version=") query) [
  | none ↦ err tt
  | some value ↦
      if length value == 0
        || ltb 32 (length value)
        || not (all (λ b. is_ascii_alphanumeric b || b == b'.' || b == b'-' || b == b'_') value)
      then err tt
      else ok (some query)
]

unfoldable pub is_unsafe_url : Url → Bool
unfolding bytes
is_unsafe_url url =
    not (text_eq url.scheme (bytes "http"))
    || not (length url.username == 0)
    || is_some url.password
    || is_some url.query
    || is_some url.fragment

unfoldable pub is_bad_token : Text → Bool
is_bad_token token =
    not (leb 32 (length token) && leb (length token) 128) || not (all is_ascii_alphanumeric token)

module _ (parse_address : Text → Option Bool) where
  -- `parse_address` tells of an address whether it is a loopback one.
  unfoldable pub validate_loopback_test_url : Url → Result GatewayError (Unit {0})
  unfolding bytes
  validate_loopback_test_url url = do
    refuse_if (is_unsafe_url url) GatewayError.unsafe_test_upstream
    host ← ok_or url.host_str GatewayError.unsafe_test_upstream
    loopback ← ok_or (parse_address host) GatewayError.unsafe_test_upstream
    refuse_if (not loopback) GatewayError.unsafe_test_upstream

  unfoldable pub validate_upstream : UpstreamMode → Result GatewayError (Unit {0})
  validate_upstream UpstreamMode.open_ai = ok tt
  validate_upstream (UpstreamMode.loopback_test url) = validate_loopback_test_url url

  -- The checks at the start of `build_router`.
  unfoldable pub check_config : GatewayConfig → Result GatewayError (Unit {0})
  unfolding bytes
  check_config config = do
    refuse_if (not config.bind_is_loopback) GatewayError.non_loopback_bind
    refuse_if (is_bad_token config.local_session_token) GatewayError.invalid_local_session_token
    validate_upstream config.upstream
    refuse_if (not (is_disabled config.restoration_mode) && is_openai_mode config.upstream)
        GatewayError.live_restoration_not_verified
    refuse_if (text_eq config.policy_name (bytes "demo") && is_openai_mode config.upstream)
        GatewayError.demo_policy_requires_test_upstream

module _ (parse_address : Text → Option Bool) where
  -- Plain HTTP to a host that is a loopback address.
  abbrev pub IsLoopbackUrl : Url → Type 0
  IsLoopbackUrl url =
      (text_eq url.scheme (bytes "http") ≡ true)
      × ((host : Text) × (url.host_str ≡ some host) × (parse_address host ≡ some true))

  -- The gateway listens on loopback only and has a long token. If it sends to a test address, that
  -- is a loopback one; if it sends to the live service, nothing is restored and the policy is not
  -- the one of the demo.
  pub record IsSafeConfig (config : GatewayConfig) : Type 0 where
    pub listens : config.bind_is_loopback ≡ true
    pub token_long : 32 ≤ length config.local_session_token
    pub test_address :
        (url : Url) → config.upstream ≡ UpstreamMode.loopback_test url → IsLoopbackUrl url
    pub live_restoration :
        config.upstream ≡ UpstreamMode.open_ai → config.restoration_mode ≡ RestorationMode.disabled
    pub live_policy :
        config.upstream ≡ UpstreamMode.open_ai → text_eq config.policy_name (bytes "demo") ≡ false

  validate-IsLoopbackUrl :
      (url : Url) → validate_loopback_test_url parse_address url ≡ ok tt → IsLoopbackUrl url
  unfolding validate_loopback_test_url is_unsafe_url
  validate-IsLoopbackUrl url h =
      let (plain, h₁) = refuse_if_ok (is_unsafe_url url) GatewayError.unsafe_test_upstream _ tt h in
      let (host, h₂, named) =
        ok_of_bind (ok_or url.host_str GatewayError.unsafe_test_upstream) _ h₁ in
      let (loopback, h₃, parsed) =
        ok_of_bind (ok_or (parse_address host) GatewayError.unsafe_test_upstream) _ h₂ in
      let known = refused_last (not loopback) GatewayError.unsafe_test_upstream h₃ in
      let yes_loopback : loopback ≡ true = ground arith in
      (
        ground arith,
        (
          host,
          ok_or_ok url.host_str _ host named,
          ok_or_ok (parse_address host) _ loopback parsed ∙ ap some yes_loopback,
        ),
      )

  disabled_only : (m : RestorationMode) → is_disabled m ≡ true → m ≡ RestorationMode.disabled
  unfolding is_disabled
  disabled_only RestorationMode.disabled h = refl
  disabled_only RestorationMode.synthetic_display_text h = absurd (cc h)
  disabled_only RestorationMode.synthetic_display_delta_only h = absurd (cc h)

  validate_upstream-IsLoopbackUrl :
      (upstream : UpstreamMode)
      → validate_upstream parse_address upstream ≡ ok tt
      → (url : Url) → upstream ≡ UpstreamMode.loopback_test url
      → IsLoopbackUrl url
  unfolding validate_upstream
  validate_upstream-IsLoopbackUrl upstream h url e = validate-IsLoopbackUrl url (rw e at h)

  -- If the checks accept a configuration, the gateway listens on loopback and has a token of at
  -- least 32 bytes. A test address is plain HTTP to a loopback address; for the live service nothing
  -- is restored and the policy is not the one of the demo.
  pub check_config-IsSafeConfig :
      (config : GatewayConfig) → check_config parse_address config ≡ ok tt → IsSafeConfig config
  unfolding check_config is_openai_mode is_bad_token
  check_config-IsSafeConfig config h =
      let (bind, h₁) =
        refuse_if_ok (not config.bind_is_loopback) GatewayError.non_loopback_bind _ tt h in
      let (token, h₂) =
        refuse_if_ok (is_bad_token config.local_session_token)
          GatewayError.invalid_local_session_token _ tt h₁ in
      let (u, h₃, upstream) = ok_of_bind (validate_upstream parse_address config.upstream) _ h₂ in
      let (live, h₄) =
        refuse_if_ok (not (is_disabled config.restoration_mode) && is_openai_mode config.upstream)
          GatewayError.live_restoration_not_verified _ tt h₃ in
      let demo =
        refused_last (text_eq config.policy_name (bytes "demo") && is_openai_mode config.upstream)
          GatewayError.demo_policy_requires_test_upstream h₄ in
      record {
        listens = ground arith;
        token_long = ground arith;
        test_address = validate_upstream-IsLoopbackUrl config.upstream upstream;
        live_restoration =
            λ e. disabled_only config.restoration_mode (ground (arith, live, ap is_openai_mode e));
        live_policy = λ e. ground (arith, demo, ap is_openai_mode e);
      }
