-- ===== src/Gateway/Egress.antt =====
-- Nothing leaves src/gateway.rs that the engine has not let through and the audit has not recorded.
use agent_veil.Gateway.Responses.{
  Config, GatewayState, Moment, Request, Effect, write_audit, post, forward_request, audit_findings,
  audit_decision, responses, dispatch, protected,
}
use agent_veil.Gateway.Headers.{
  HeaderMap, forward_request_headers, authorized, HasToken, authorized-HasToken,
  content_type_is_json, has_unsupported_content_encoding, is_openai, has_single_authorization,
}
use agent_veil.Audit.{
  AuditDecision, UpstreamOutcome, AuditEvent, AuditFinding, new_event, safe_identifier, safe_hex,
  safe_version,
}
use agent_veil.Engine.Plan.{EngineError, ProtectionSummary}
use agent_veil.Engine.Protect.{ProtectionOutcome, ForwardRequest}
use agent_veil.Prelude.{
  ℕ, Text, Bool, true, not, ◌||◌, ◌≡◌, ◌⊎◌, inl, inr, refl, Option, List, [], ◌∷◌, ◌++◌, Result, ok,
  Bool-cases, Result-cases, some, Option-cases, subst, err, ◌+◌, none, ◌&&◌, false, sym,
}

-- At most one audit event has been recorded, and nothing sent.
abbrev pub IsQuiet : List Effect → List Effect → Type 0
IsQuiet before after =
    (after ≡ before) ⊎ ((e : AuditEvent) × (after ≡ before ++ Effect.recorded e ∷ []))

new_event_outcome :
    (id : Text) (t : ℕ) (session : Text) (n : ℕ) (d : AuditDecision) (fs : List AuditFinding)
    (o : UpstreamOutcome) (l : ℕ) (name hash version : Text) (e : AuditEvent)
    → new_event id t session n d fs o l name hash version ≡ ok e
    → e.upstream_outcome ≡ o
unfolding new_event
new_event_outcome id t session n d fs o l name hash version e h =
    elim (Bool-cases (
      not (safe_identifier id 8 72)
      || not (safe_identifier session 8 72)
      || not (safe_identifier name 1 48)
      || not (safe_hex hash 64)
      || not (safe_version version))) [
        | inl refused ↦ absurd (cc (rw (refused, new_event) at h))
        | inr f ↦ cc (rw (f, new_event) at h)
      ]

module _ {L : Type 0} (config : Config) (write : List Effect → AuditEvent → Bool) where
  write_audit-IsQuiet :
      (m : Moment) (id : Text) (n : ℕ) (d : AuditDecision) (summary : Option ProtectionSummary)
      (o : UpstreamOutcome) (s : GatewayState L)
      → IsQuiet s.effects (write_audit config write m id n d summary o s).1.effects
  unfolding write_audit
  write_audit-IsQuiet m id n d summary o s =
      elim (Result-cases (
        new_event id m.timestamp_unix_ms config.session_pseudonym n d (audit_findings summary) o
          m.scan_latency_ms config.policy_name config.policy_hash config.version)) [
            | inr (e, refused) ↦ rw (refused, write_audit) (inl refl)
            | inl (event, made) ↦ elim (Bool-cases (write s.effects event)) [
              | inl t ↦ rw (made, write_audit, t) (inr (event, refl))
              | inr f ↦ rw (made, write_audit, f) (inl refl)
            ]
          ]

  write_audit_recorded :
      (m : Moment) (id : Text) (n : ℕ) (d : AuditDecision) (summary : Option ProtectionSummary)
      (o : UpstreamOutcome) (s : GatewayState L)
      → (write_audit config write m id n d summary o s).0 ≡ true
      → (e : AuditEvent) × (e.upstream_outcome ≡ o)
        × ((write_audit config write m id n d summary o s).1.effects
            ≡ s.effects ++ Effect.recorded e ∷ [])
  unfolding write_audit
  write_audit_recorded m id n d summary o s h =
      elim (Result-cases (
        new_event id m.timestamp_unix_ms config.session_pseudonym n d (audit_findings summary) o
          m.scan_latency_ms config.policy_name config.policy_hash config.version)) [
            | inr (e, refused) ↦ absurd (cc (rw (refused, write_audit) at h))
            | inl (event, made) ↦ elim (Bool-cases (write s.effects event)) [
              | inl t ↦ (
                event,
                new_event_outcome _ _ _ _ _ _ o _ _ _ _ event made,
                rw (made, write_audit, t) refl,
              )
              | inr f ↦ absurd (cc (rw (made, write_audit, f) at h))
            ]
          ]

module _ {L : Type 0} (config : Config) (write : List Effect → AuditEvent → Bool)
    (send : List Effect → Request → Bool) (upstream_url : HeaderMap → Option Text)
    (to_str : Text → Option Text) (protect : Text → L → Result EngineError ProtectionOutcome × L)
    (m : Moment) (headers : HeaderMap) where
  -- The event is pending, and the request has the body that the engine has let through, the headers
  -- of `forward_request_headers` and the address of `upstream_url`.
  abbrev pub Passes : ForwardRequest → AuditEvent → Request → Type 0
  Passes forward e r =
      (e.upstream_outcome ≡ UpstreamOutcome.pending)
      × (r.body ≡ forward.body)
      × (r.headers ≡ forward_request_headers headers config.upstream true)
      × (upstream_url headers ≡ some r.url)

  -- A pending event is recorded, the request is sent right after it, and at most one event follows.
  abbrev pub Sends : ForwardRequest → List Effect → List Effect → Type 0
  Sends forward before after =
      (e : AuditEvent) × (r : Request) × Passes forward e r
      × IsQuiet ((before ++ Effect.recorded e ∷ []) ++ Effect.sent r ∷ []) after

  post-IsQuiet :
      (id : Text) (n : ℕ) (forward : ForwardRequest) (r : Request) (s : GatewayState L)
      → IsQuiet
          (s.effects ++ Effect.sent r ∷ [])
          (post config write send upstream_url to_str protect m id n forward r s).1.effects
  unfolding post
  post-IsQuiet id n forward r s =
      let s' : GatewayState L = record s { effects = s.effects ++ Effect.sent r ∷ [] } in
      elim (Bool-cases (send s.effects r)) [
        | inl t ↦
            rw (t, post)
              (write_audit-IsQuiet config write m id n (audit_decision forward.decision)
                (some forward.summary) UpstreamOutcome.started s')
        | inr f ↦
            rw (f, post)
              (write_audit-IsQuiet config write m id n (audit_decision forward.decision)
                (some forward.summary) UpstreamOutcome.failed s')
      ]

  forward_request-Sends :
      (id : Text) (n : ℕ) (forward : ForwardRequest) (s : GatewayState L)
      → IsQuiet s.effects
          (forward_request config write send upstream_url to_str protect m id n headers forward
            s).1.effects
        ⊎ Sends forward s.effects
            (forward_request config write send upstream_url to_str protect m id n headers forward
              s).1.effects
  unfolding forward_request
  forward_request-Sends id n forward s =
      let decision = audit_decision forward.decision in
      let summary = some forward.summary in
      let w = write_audit config write m id n decision summary UpstreamOutcome.pending s in
      elim (Option-cases (upstream_url headers)) [
        | inl missing ↦
            rw (missing, forward_request)
              (inl (
                write_audit-IsQuiet config write m id n decision summary UpstreamOutcome.not_started
                  s))
        | inr (url, found) ↦ elim (Bool-cases w.0) [
          | inr f ↦
              rw (found, forward_request, f)
                (inl (
                  write_audit-IsQuiet config write m id n decision summary UpstreamOutcome.pending
                    s))
          | inl t ↦
              let (e, outcome, recorded_only) =
                write_audit_recorded config write m id n decision summary UpstreamOutcome.pending s
                  t in
              let r : Request = record {
                url = url;
                headers = forward_request_headers headers config.upstream true;
                body = forward.body;
              } in
              rw (found, forward_request, t)
                (inr (
                  e,
                  r,
                  (outcome, refl, refl, refl),
                  subst
                      (λ b.
                        IsQuiet (b ++ Effect.sent r ∷ [])
                          (post config write send upstream_url to_str protect m id n forward r
                            w.1).1.effects)
                      recorded_only (post-IsQuiet id n forward r w.1),
                ))
        ]
      ]

  dispatch-Sends :
      (id : Text) (n : ℕ) (outcome : Result EngineError ProtectionOutcome) (s : GatewayState L)
      → IsQuiet s.effects
          (dispatch config write send upstream_url to_str protect m id n headers outcome
            s).1.effects
        ⊎ ((forward : ForwardRequest) × (outcome ≡ ok (ProtectionOutcome.forward forward))
            × Sends forward s.effects
                (dispatch config write send upstream_url to_str protect m id n headers outcome
                  s).1.effects)
  unfolding dispatch
  dispatch-Sends id n (err e) s = inl (
      write_audit-IsQuiet config write m id n AuditDecision.rejected none
        UpstreamOutcome.not_started s)
  dispatch-Sends id n (ok (ProtectionOutcome.blocked summary)) s = inl (
      write_audit-IsQuiet config write m id n AuditDecision.blocked (some summary)
        UpstreamOutcome.not_started s)
  dispatch-Sends id n (ok (ProtectionOutcome.forward forward)) s =
      elim (forward_request-Sends id n forward s) [
        | inl quiet ↦ inl quiet
        | inr sends ↦ inr (forward, refl, sends)
      ]

  protected-Sends :
      (body : Text) (s : GatewayState L)
      → IsQuiet s.effects
          (protected config write send upstream_url to_str protect m headers body s).1.effects
        ⊎ ((forward : ForwardRequest) × ((protect body s.engine).0
              ≡ ok (ProtectionOutcome.forward forward))
            × Sends forward s.effects
                (protected config write send upstream_url to_str protect m headers body
                  s).1.effects)
  unfolding protected
  protected-Sends body s = elim (Option-cases m.event_id) [
    | inl missing ↦ rw (missing, protected) (inl (inl refl))
    | inr (id, known) ↦
        rw (known, protected)
          (dispatch-Sends id (s.request_sequence + 1) (protect body s.engine).0 (record s {
            engine = (protect body s.engine).1;
            request_sequence = s.request_sequence + 1;
          }))
  ]

  responses_passed :
      (body : Text) (s : GatewayState L)
      → authorized to_str config.expected_local_token headers ≡ true
      → s.audit_healthy ≡ true
      → not (content_type_is_json to_str headers) || has_unsupported_content_encoding to_str headers
        ≡ false
      → is_openai config.upstream && not (has_single_authorization to_str headers) ≡ false
      → responses config write send upstream_url to_str protect m headers body s
        ≡ protected config write send upstream_url to_str protect m headers body s
  unfolding responses
  responses_passed body s a b c d = rw (a, b, c, d, responses) refl

  -- A call of the handler sends nothing and records at most one event; or it sends one request, for
  -- a client whose session header is the token of the gateway, with healthy audit, to the chosen
  -- address, whose body the engine has let through, right after recording a pending event, and
  -- records at most one event after it.
  pub responses-Sends :
      (body : Text) (s : GatewayState L)
      → IsQuiet s.effects
          (responses config write send upstream_url to_str protect m headers body s).1.effects
        ⊎ (HasToken to_str config.expected_local_token headers
            × (s.audit_healthy ≡ true)
            × ((forward : ForwardRequest) × ((protect body s.engine).0
                  ≡ ok (ProtectionOutcome.forward forward))
                × Sends forward s.effects
                    (responses config write send upstream_url to_str protect m headers body
                      s).1.effects))
  unfolding responses
  responses-Sends body s =
      elim (Bool-cases (authorized to_str config.expected_local_token headers)) [
        | inr stranger ↦ rw (stranger, responses) (inl (inl refl))
        | inl known ↦ elim (Bool-cases s.audit_healthy) [
          | inr degraded ↦ rw (known, responses, degraded) (inl (inl refl))
          | inl healthy ↦
              elim (Bool-cases (
                not (content_type_is_json to_str headers)
                || has_unsupported_content_encoding to_str headers)) [
                  | inl encoded ↦ rw (known, responses, healthy, encoded) (inl (inl refl))
                  | inr plain ↦
                      elim (Bool-cases (
                        is_openai config.upstream
                        && not (has_single_authorization to_str headers))) [
                          | inl missing ↦
                              rw (known, responses, healthy, plain, missing) (inl (inl refl))
                          | inr enough ↦
                              let same = sym (responses_passed body s known healthy plain enough) in
                              elim (protected-Sends body s) [
                                | inl quiet ↦
                                    inl (subst (λ r. IsQuiet s.effects r.1.effects) same quiet)
                                | inr (forward, through, sends) ↦ inr (
                                  authorized-HasToken to_str config.expected_local_token headers
                                      known,
                                  healthy,
                                  (
                                    forward,
                                    through,
                                    subst (λ r. Sends forward s.effects r.1.effects) same sends,
                                  ),
                                )
                              ]
                        ]
                ]
        ]
      ]
