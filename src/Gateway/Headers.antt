-- ===== src/Gateway/Headers.antt =====
-- The headers that src/gateway.rs reads and forwards. A header map is the list of its entries;
-- `HeaderValue::to_str` is a parameter.
use agent_veil.Sse.Text.{trim, starts_with}
use agent_veil.Prelude.{
  ◌+◌, Text, Bool, true, false, not, ◌&&◌, ◌||◌, ltb, ◌==◌, Option, none, some, List, [], ◌∷◌,
  if◌then◌else◌, bytes, text_eq, contains, String, length, is_ascii_uppercase, ◌≡◌, ◌∙◌, ap, refl,
  inl, inr, Option-cases, Bool-cases, text_eq→eq,
}

abbrev pub HeaderMap : Type 0
HeaderMap = List (Text × Text)

-- `get_all`, and `get` as the first of them.
unfoldable pub get_all : Text → HeaderMap → List Text
get_all name [] = []
get_all name ((n, v) ∷ headers) =
    let rest = get_all name headers in if text_eq n name then v ∷ rest else rest

abbrev first : List Text → Option Text
first [] = none
first (v ∷ vs) = some v

-- `eq_ignore_ascii_case`
unfoldable pub eq_ignore_case : Text → Text → Bool
eq_ignore_case [] [] = true
eq_ignore_case (a ∷ s) (b ∷ t) =
    (if is_ascii_uppercase a then a + 32 else a) == (if is_ascii_uppercase b then b + 32 else b)
    && eq_ignore_case s t
eq_ignore_case _ _ = false

-- `split(';').next()`
unfoldable pub before_semicolon : Text → Text
before_semicolon [] = []
before_semicolon (b ∷ s) = if b == b';' then [] else b ∷ before_semicolon s

module _ (to_str : Text → Option Text) where
  -- `headers.get(name).and_then(|value| value.to_str().ok())`
  unfoldable pub header_str : Text → HeaderMap → Option Text
  header_str name headers = elim (first (get_all name headers)) [ none ↦ none | some v ↦ to_str v ]

  unfoldable pub authorized : Text → HeaderMap → Bool
  authorized expected headers = elim (header_str (bytes "x-agentveil-session") headers) [
    | none ↦ false
    | some candidate ↦
        if not (length candidate == length expected) then false else text_eq candidate expected
  ]

  -- The first session header is a text, and that text is the token.
  abbrev pub HasToken : Text → HeaderMap → Type 0
  HasToken expected headers =
      (v : Text) × (rest : List Text) × (get_all (bytes "x-agentveil-session") headers ≡ v ∷ rest)
      × (to_str v ≡ some expected)

  pub authorized-HasToken :
      (expected : Text) (headers : HeaderMap)
      → authorized expected headers ≡ true
      → HasToken expected headers
  unfolding authorized header_str
  authorized-HasToken expected headers h = from (get_all (bytes "x-agentveil-session") headers) refl
    where
      from :
          (vs : List Text)
          → get_all (bytes "x-agentveil-session") headers ≡ vs
          → HasToken expected headers
      from [] e = absurd (cc (rw (authorized, header_str, e) at h))
      from (v ∷ rest) e = elim (Option-cases (to_str v)) [
        | inl unread ↦ absurd (cc (rw (authorized, header_str, e, unread) at h))
        | inr (candidate, read) ↦ elim (Bool-cases (not (length candidate == length expected))) [
          | inl longer ↦ absurd (cc (rw (authorized, header_str, e, read, longer) at h))
          | inr same ↦
              let equal : candidate ≡ expected =
                text_eq→eq candidate expected (rw (authorized, header_str, e, read, same) at h) in
              (v, rest, e, read ∙ ap some equal)
        ]
      ]

  abbrev is_bearer : Option Text → Bool
  is_bearer none = false
  is_bearer (some v) = starts_with v (bytes "Bearer ") && ltb 7 (length v)

  abbrev is_single_bearer : List Text → Bool
  is_single_bearer [] = false
  is_single_bearer (v ∷ []) = is_bearer (to_str v)
  is_single_bearer (v ∷ w ∷ vs) = false

  unfoldable pub has_single_authorization : HeaderMap → Bool
  has_single_authorization headers = is_single_bearer (get_all (bytes "authorization") headers)

  unfoldable pub content_type_is_json : HeaderMap → Bool
  content_type_is_json headers = elim (header_str (bytes "content-type") headers) [
    | none ↦ false
    | some v ↦ eq_ignore_case (trim (before_semicolon v)) (bytes "application/json")
  ]

  unfoldable pub has_unsupported_content_encoding : HeaderMap → Bool
  has_unsupported_content_encoding headers = elim (header_str (bytes "content-encoding") headers) [
    | none ↦ false
    | some v ↦ not (eq_ignore_case v (bytes "identity"))
  ]

-- `UpstreamMode`; a URL is its text.
pub data UpstreamKind : Type 0 where
  open_ai : UpstreamKind
  loopback_test : Text → UpstreamKind

abbrev pub is_openai : UpstreamKind → Bool
is_openai UpstreamKind.open_ai = true
is_openai (UpstreamKind.loopback_test url) = false

unfoldable pub header_names : List String → List Text
unfolding bytes
header_names [] = []
header_names (s ∷ ss) = bytes s ∷ header_names ss

unfoldable pub forwarded_names : List Text
forwarded_names = header_names (
    "accept" ∷ "authorization" ∷ "chatgpt-account-id" ∷ "content-type" ∷ "openai-beta"
    ∷ "openai-organization" ∷ "openai-project" ∷ "originator" ∷ "session-id" ∷ "thread-id"
    ∷ "user-agent" ∷ "x-client-request-id" ∷ "x-codex-beta-features" ∷ "x-codex-turn-metadata"
    ∷ "x-codex-window-id" ∷ "x-openai-internal-codex-responses-lite" ∷ [])

-- The loop of `forward_request_headers`.
unfoldable pub forward_allowed : Bool → HeaderMap → HeaderMap
forward_allowed include_content_type [] = []
forward_allowed include_content_type ((name, value) ∷ source) =
    let rest = forward_allowed include_content_type source in
    if contains forwarded_names name
      && (include_content_type || not (text_eq name (bytes "content-type")))
    then (name, value) ∷ rest
    else rest

unfoldable pub forward_request_headers : HeaderMap → UpstreamKind → Bool → HeaderMap
forward_request_headers source (UpstreamKind.loopback_test url) include_content_type =
    if include_content_type
    then (bytes "content-type", bytes "application/json")
      ∷ (bytes "x-agentveil-synthetic", bytes "true")
      ∷ []
    else (bytes "x-agentveil-synthetic", bytes "true") ∷ []
forward_request_headers source UpstreamKind.open_ai include_content_type =
    forward_allowed include_content_type source
