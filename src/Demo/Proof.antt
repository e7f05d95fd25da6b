-- ===== src/Demo/Proof.antt =====
-- What the wire proof of src/demo.rs says of the requests that its fixture has seen.
use agent_veil.Demo.Stream.{codex_demo_sse}
use agent_veil.Demo.{
  any_window, local_session_header, synthetic_email, synthetic_private_ip, contains_bytes,
  contains_hashed_value,
}
use agent_veil.Demo.Clear.{
  AreClear, Shows, any_window-false, contains_bytes-false, contains_original-AreClear,
}
use agent_veil.Demo.Collected.{HasOnly, codex_demo_tokens-HasOnly}
use agent_veil.Demo.Fixture.{
  FixtureSecret, FixtureState, FixtureResponse, answer, codex_demo_responses, internal_error,
  count_request, marks, check_request, read_request, reject, tokenized_text, is_forbidden,
}
use agent_veil.Demo.Tokens.{codex_demo_tokens, codex_demo_contains_original}
use agent_veil.Gateway.Activity.{Mark, mark, SyntheticWireProof}
use agent_veil.Gateway.Headers.{HeaderMap, get_all}
use agent_veil.Gateway.Upstream.{has_header}
use agent_veil.Payload.Value.{Value}
use agent_veil.Prelude.{
  ◌≡◌, refl, Text, bytes, Bool, false, Option, some, List, [], ◌∷◌, ◌⊎◌, Option-cases, inl, ℕ, ◌<◌,
  ◌≤◌, ◌≢◌, ◌++◌, any, length, length-append, text_eq, text_eq_refl, Bool-cases, inr, ◌||◌, arith,
  ◌∙◌, All, ap, sym,
}

-- A request is protected. No header of it is an authorization or a session header of the gateway;
-- neither a value of a header nor a part of the body has the hash of the session token, at the length
-- of the token. Neither the bytes nor the strings show one of the originals, and the tokens that
-- stand in the strings are one for the address and one for the host.
pub record IsProtected (hash : Text → Text) (from_slice : Text → Option Value)
    (secret : FixtureSecret) (headers : HeaderMap) (body : Text) : Type 0 where
  pub request : Value
  pub tokens : Text × Text
  pub unauthorized : All (λ header. header.0 ≢ bytes "authorization") headers
  pub no_session : All (λ header. header.0 ≢ local_session_header) headers
  pub no_secret_header : All (λ header. hash header.1 ≢ secret.session_token_hash) headers
  pub no_secret_body :
      (w : Text)
      → 0 < length w
      → length w ≡ secret.session_token_len
      → Shows body w
      → hash w ≢ secret.session_token_hash
  pub no_email : ¬ Shows body synthetic_email
  pub no_private_ip : ¬ Shows body synthetic_private_ip
  pub parsed : from_slice body ≡ some request
  pub clear : AreClear request
  pub email_token : HasOnly (bytes "[AV_EMAIL_") tokens.0 request
  pub private_ip_token : HasOnly (bytes "[AV_IPV4_") tokens.1 request

has_header-All :
    (name : Text) (headers : HeaderMap)
    → has_header name headers ≡ false
    → All (λ header. header.0 ≢ name) headers
unfolding has_header get_all
has_header-All name [] h = tt
has_header-All name ((n, v) ∷ headers) h = elim (Bool-cases (text_eq n name)) [
  | inl t ↦ absurd (cc (rw (has_header, get_all, t) at h))
  | inr f ↦ (
    (λ e. cc (f, text_eq_refl name, ap (λ x. text_eq x name) e)),
    has_header-All name headers (rw (has_header, get_all, f) at h),
  )
]

contains_hashed_value-false :
    (hash : Text → Text) (body expected w : Text) (len : ℕ)
    → contains_hashed_value hash body len expected ≡ false
    → 0 < length w
    → length w ≡ len
    → Shows body w
    → hash w ≢ expected
unfolding contains_hashed_value
contains_hashed_value-false hash body expected w len h long size (before, after, split) same =
    let fits : length w ≤ length body =
      omega (
        arith,
        ap (λ x. length x) split,
        length-append before (w ++ after),
        length-append w after,
      ) in
    let checked : contains_hashed_value hash body (length w) expected ≡ false =
      ap (λ n. contains_hashed_value hash body n expected) size ∙ h in
    let missed : any_window (λ w. text_eq (hash w) expected) (length w) body ≡ false =
      ground arith in
    cc (
      any_window-false (λ w. text_eq (hash w) expected) body before w after long missed split,
      text_eq_refl expected,
      ap (λ x. text_eq x expected) same,
    )

long_email : 0 < length synthetic_email
unfolding bytes
long_email = omega arith

long_ip : 0 < length synthetic_private_ip
unfolding bytes
long_ip = omega arith

module _ (hash : Text → Text) (from_slice : Text → Option Value) (to_string : Value → Option Text)
    (is_built : Bool) (secret : FixtureSecret) where
  abbrev respond : HeaderMap → Text → FixtureState → FixtureResponse × FixtureState
  respond = codex_demo_responses hash from_slice to_string is_built secret

  -- The proof after a request: failed; or that of a success, for a protected request that is
  -- answered.
  abbrev Judged : HeaderMap → Text → FixtureState → FixtureResponse × FixtureState → Type 0
  Judged headers body s r =
      (r.1.wire_proof ≡ SyntheticWireProof.failed)
      ⊎ (IsProtected hash from_slice secret headers body
          × (r.0.status ≡ 200)
          × (r.1.wire_proof ≡ mark Mark.mark_passed s.wire_proof))

  unhashed :
      (headers : HeaderMap)
      → any (λ h. text_eq (hash h.1) secret.session_token_hash) headers ≡ false
      → All (λ header. hash header.1 ≢ secret.session_token_hash) headers
  unhashed [] h = tt
  unhashed ((n, v) ∷ headers) h = (
    (λ e. cc (
      ap (λ x. text_eq x secret.session_token_hash) e,
      text_eq_refl secret.session_token_hash,
      any_head (text_eq (hash v) secret.session_token_hash) _ h,
    )),
    unhashed headers (ground arith),
  )
    where
      any_head : (a b : Bool) → (a || b) ≡ false → a ≡ false
      any_head a b h = ground arith

  answer-Judged :
      (tokens : Text × Text) (s : FixtureState)
      → ((answer hash from_slice to_string is_built secret tokens s).1.wire_proof
          ≡ SyntheticWireProof.failed)
        ⊎ (((answer hash from_slice to_string is_built secret tokens s).0.status ≡ 200)
            × ((answer hash from_slice to_string is_built secret tokens s).1.wire_proof
                ≡ mark Mark.mark_passed s.wire_proof))
  unfolding answer internal_error marks mark
  answer-Judged (email, private_ip) s =
      elim (Option-cases (codex_demo_sse to_string (tokenized_text email private_ip))) [
        | inl unprinted ↦ inl (rw (answer, unprinted) refl)
        | inr (sse, printed) ↦ elim (Bool-cases is_built) [
          | inl t ↦ inr (rw (answer, printed, t) (refl, refl))
          | inr f ↦ inl (rw (answer, printed, f) refl)
        ]
      ]

  codex_demo_responses-Judged :
      (headers : HeaderMap) (body : Text) (s : FixtureState)
      → Judged headers body s (respond headers body s)
  unfolding codex_demo_responses count_request check_request read_request reject marks mark
      is_forbidden
  codex_demo_responses-Judged headers body s =
      elim (Bool-cases (is_forbidden hash from_slice to_string is_built secret headers body)) [
        | inl t ↦ inl (rw t refl)
        | inr f ↦
            elim (Bool-cases
              (contains_bytes body synthetic_email || contains_bytes body synthetic_private_ip)) [
                | inl t ↦ inl (rw (f, t) refl)
                | inr raw ↦ elim (Option-cases (from_slice body)) [
                  | inl broken ↦ inl (rw (f, raw, broken) refl)
                  | inr (request, parsed) ↦
                      elim (Bool-cases (codex_demo_contains_original request)) [
                        | inl t ↦ inl (rw (f, raw, parsed, t) refl)
                        | inr hidden ↦ elim (Option-cases (codex_demo_tokens request)) [
                          | inl unnamed ↦ inl (rw (f, raw, parsed, hidden, unnamed) refl)
                          | inr (tokens, named) ↦ elim (answer-Judged tokens (count_request s)) [
                            | inl failed ↦ inl (rw (f, raw, parsed, hidden, named) failed)
                            | inr (answered, passed) ↦ inr (
                              record {
                                request = request;
                                tokens = tokens;
                                unauthorized =
                                    has_header-All (bytes "authorization") headers (ground arith);
                                no_session =
                                    has_header-All local_session_header headers (ground arith);
                                no_secret_header = unhashed headers (ground arith);
                                no_secret_body = λ w long size.
                                    contains_hashed_value-false hash body secret.session_token_hash
                                      w secret.session_token_len (ground arith) long size;
                                no_email =
                                    contains_bytes-false body synthetic_email long_email
                                      (ground arith);
                                no_private_ip =
                                    contains_bytes-false body synthetic_private_ip long_ip
                                      (ground arith);
                                parsed = parsed;
                                clear = contains_original-AreClear request hidden;
                                email_token =
                                    (codex_demo_tokens-HasOnly request tokens.0 tokens.1 named).0;
                                private_ip_token =
                                    (codex_demo_tokens-HasOnly request tokens.0 tokens.1 named).1;
                              },
                              rw (f, raw, parsed, hidden, named) answered,
                              rw (f, raw, parsed, hidden, named) passed,
                            )
                          ]
                        ]
                      ]
                ]
              ]
      ]

  -- The state of the fixture after some requests.
  unfoldable pub after_requests : List (HeaderMap × Text) → FixtureState → FixtureState
  after_requests [] s = s
  after_requests ((headers, body) ∷ requests) s = after_requests requests (respond headers body s).1

  -- A failure stays.
  failed_after :
      (requests : List (HeaderMap × Text)) (s : FixtureState)
      → s.wire_proof ≡ SyntheticWireProof.failed
      → (after_requests requests s).wire_proof ≡ SyntheticWireProof.failed
  unfolding after_requests mark
  failed_after [] s h = h
  failed_after ((headers, body) ∷ requests) s h =
      failed_after requests (respond headers body s).1
        (elim (codex_demo_responses-Judged headers body s) [
          | inl failed ↦ failed
          | inr (protected, status, passed) ↦ passed ∙ ap (mark Mark.mark_passed) h
        ])

  -- If the wire proof reads passed after some requests, every one of them was protected: no header
  -- is an authorization or a session header or carries the hashed session token, no part of the body
  -- of the token's length has its hash, neither the bytes nor the strings show an original, and in
  -- the strings stands exactly one token for each original.
  pub after_requests-IsProtected :
      (requests : List (HeaderMap × Text)) (s : FixtureState)
      → (after_requests requests s).wire_proof ≡ SyntheticWireProof.passed
      → All (λ request. IsProtected hash from_slice secret request.0 request.1) requests
  unfolding after_requests
  after_requests-IsProtected [] s h = tt
  after_requests-IsProtected ((headers, body) ∷ requests) s h =
      let later = after_requests-IsProtected requests (respond headers body s).1 h in
      elim (codex_demo_responses-Judged headers body s) [
        | inl failed ↦
            absurd (cc (sym (failed_after requests (respond headers body s).1 failed) ∙ h))
        | inr (protected, status, passed) ↦ (protected, later)
      ]
