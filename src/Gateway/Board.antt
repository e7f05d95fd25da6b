-- ===== src/Gateway/Board.antt =====
-- The dashboard of src/gateway.rs and src/dashboard.rs: who may read it, and the headers of its
-- answers; and the answer of `/health`. The assets are parameters, and a snapshot is a record that serde_json prints.
use agent_veil.Gateway.Activity.{DashboardActivity, SyntheticWireProof, wire_label}
use agent_veil.Gateway.Headers.{HeaderMap, get_all}
use agent_veil.Gateway.Settings.{RestorationMode, UpstreamMode, restoration_label, upstream_label}
use agent_veil.Prelude.{
  ℕ, ◌≡◌, refl, Text, bytes, Bool, true, false, Option, none, some, List, [], ◌∷◌, if◌then◌else◌,
  text_eq, text_eq→eq, Bool-cases, inl, inr, Option-cases, ◌∙◌, ◌⊎◌, ap,
}

pub data GatewayClient : Type 0 where
  generic codex_cli : GatewayClient

unfoldable pub client_label : GatewayClient → Text
unfolding bytes
client_label GatewayClient.generic = bytes "generic"
client_label GatewayClient.codex_cli = bytes "codex_cli"

pub record DashboardSnapshot : Type 0 where
  pub schema_version : ℕ
  pub is_protected : Bool
  pub binding : Text
  pub transport : Text
  pub upstream : Text
  pub client : Text
  pub restoration : Text
  pub audit_healthy : Bool
  pub session_pseudonym : Text
  pub policy_name : Text
  pub request_count : ℕ
  pub wire_proof : Text
  pub activity : List DashboardActivity

-- What the dashboard reads of the state of the gateway.
pub record Board : Type 0 where
  pub expected_dashboard_authority : Text
  pub upstream : UpstreamMode
  pub gateway_client : GatewayClient
  pub restoration_mode : RestorationMode
  pub audit_healthy : Bool
  pub session_pseudonym : Text
  pub policy_name : Text
  pub request_sequence : ℕ
  pub synthetic_wire_proof : SyntheticWireProof
  pub dashboard_poisoned : Bool
  pub dashboard_activity : List DashboardActivity

pub record BoardResponse : Type 0 where
  pub status : ℕ
  pub headers : HeaderMap
  pub body : Text

-- `HeaderMap::insert`, which replaces what has the name.
unfoldable pub remove_header : Text → HeaderMap → HeaderMap
remove_header name [] = []
remove_header name ((n, v) ∷ headers) =
    let rest = remove_header name headers in if text_eq n name then rest else (n, v) ∷ rest

unfoldable pub insert_header : Text → Text → HeaderMap → HeaderMap
insert_header name value headers = (name, value) ∷ remove_header name headers

unfoldable pub security_headers : HeaderMap
unfolding bytes
security_headers =
    (
      bytes "content-security-policy",
      bytes
          "default-src 'none'; style-src 'self'; script-src 'self'; connect-src 'self'; img-src 'self'; base-uri 'none'; frame-ancestors 'none'; form-action 'none'",
    )
    ∷ (bytes "cache-control", bytes "no-store, max-age=0")
    ∷ (bytes "x-content-type-options", bytes "nosniff")
    ∷ (bytes "x-frame-options", bytes "DENY")
    ∷ (bytes "referrer-policy", bytes "no-referrer")
    ∷ (bytes "permissions-policy", bytes "camera=(), microphone=(), geolocation=()")
    ∷ (bytes "cross-origin-opener-policy", bytes "same-origin")
    ∷ (bytes "cross-origin-resource-policy", bytes "same-origin")
    ∷ []

unfoldable pub insert_headers : HeaderMap → HeaderMap → HeaderMap
insert_headers [] headers = headers
insert_headers ((name, value) ∷ more) headers =
    insert_headers more (insert_header name value headers)

unfoldable pub apply_dashboard_headers : BoardResponse → BoardResponse
apply_dashboard_headers r = record r { headers = insert_headers security_headers r.headers }

unfoldable pub dashboard_authority_rejected : BoardResponse
dashboard_authority_rejected = apply_dashboard_headers (record {
  status = 421;
  headers = [];
  body = bytes "AgentVeil rejected the dashboard authority.";
})

unfoldable pub dashboard_asset : Text → Text → BoardResponse
dashboard_asset body content_type = apply_dashboard_headers (record {
  status = 200;
  headers = insert_header (bytes "content-type") content_type [];
  body = body;
})

unfoldable pub snapshot : Board → DashboardSnapshot
unfolding bytes
snapshot board = record {
  schema_version = 2;
  is_protected = true;
  binding = bytes "loopback";
  transport = bytes "responses_sse";
  upstream = upstream_label board.upstream;
  client = client_label board.gateway_client;
  restoration = restoration_label board.restoration_mode;
  audit_healthy = board.audit_healthy;
  session_pseudonym = board.session_pseudonym;
  policy_name = board.policy_name;
  request_count = board.request_sequence;
  wire_proof = wire_label board.synthetic_wire_proof;
  activity = if board.dashboard_poisoned then [] else board.dashboard_activity;
}

pub record HealthResponse : Type 0 where
  pub status : Text
  pub binding : Text
  pub transport : Text
  pub upstream : Text
  pub restoration : Text
  pub audit_healthy : Bool

unfoldable pub health : Board → HealthResponse
unfolding bytes
health board = record {
  status = bytes "ok";
  binding = bytes "loopback";
  transport = bytes "responses_sse";
  upstream = upstream_label board.upstream;
  restoration = restoration_label board.restoration_mode;
  audit_healthy = board.audit_healthy;
}

-- The pages, and the state as JSON.
pub data Page : Type 0 where
  html css js state : Page

module _ (to_str : Text → Option Text) (asset : Page → Text)
    (to_json : DashboardSnapshot → Text) where
  abbrev is_only : Text → List Text → Bool
  is_only expected [] = false
  is_only expected (v ∷ w ∷ vs) = false
  is_only expected (v ∷ []) = elim (to_str v) [ none ↦ false | some s ↦ text_eq s expected ]

  unfoldable pub dashboard_authority_allowed : Board → HeaderMap → Bool
  dashboard_authority_allowed board headers =
      is_only board.expected_dashboard_authority (get_all (bytes "host") headers)

  unfoldable pub page : Page → Board → BoardResponse
  page Page.html board = dashboard_asset (asset Page.html) (bytes "text/html; charset=utf-8")
  page Page.css board = dashboard_asset (asset Page.css) (bytes "text/css; charset=utf-8")
  page Page.js board = dashboard_asset (asset Page.js) (bytes "text/javascript; charset=utf-8")
  page Page.state board = apply_dashboard_headers (record {
    status = 200;
    headers = insert_header (bytes "content-type") (bytes "application/json") [];
    body = to_json (snapshot board);
  })

  -- `dashboard_page`, `dashboard_css`, `dashboard_js` and `dashboard_state`
  unfoldable pub dashboard : Page → Board → HeaderMap → BoardResponse
  dashboard p board headers =
      if dashboard_authority_allowed board headers
      then page p board
      else dashboard_authority_rejected

  -- The request names one host, and that is the address that the gateway listens on.
  abbrev pub IsLocal : Board → HeaderMap → Type 0
  IsLocal board headers =
      (v : Text) × (get_all (bytes "host") headers ≡ v ∷ [])
      × (to_str v ≡ some board.expected_dashboard_authority)

  only_local :
      (expected : Text) (vs : List Text)
      → is_only expected vs ≡ true
      → (v : Text) × (vs ≡ v ∷ []) × (to_str v ≡ some expected)
  only_local expected [] h = absurd (cc h)
  only_local expected (v ∷ w ∷ vs) h = absurd (cc h)
  only_local expected (v ∷ []) h = elim (Option-cases (to_str v)) [
    | inl unread ↦ absurd (cc (rw (is_only, unread) at h))
    | inr (s, read) ↦ (v, refl, read ∙ ap some (text_eq→eq s expected (rw (is_only, read) at h)))
  ]

  -- Whichever page is asked for, a request gets the refusal, which is the same for every page and
  -- every state of the gateway; or it names one host, the address that the gateway listens on.
  pub dashboard-IsLocal :
      (p : Page) (board : Board) (headers : HeaderMap)
      → (dashboard p board headers ≡ dashboard_authority_rejected) ⊎ IsLocal board headers
  unfolding dashboard dashboard_authority_allowed
  dashboard-IsLocal p board headers =
      elim (Bool-cases
        (is_only board.expected_dashboard_authority (get_all (bytes "host") headers))) [
          | inl t ↦ inr (only_local _ _ t)
          | inr f ↦ inl (rw f refl)
        ]
