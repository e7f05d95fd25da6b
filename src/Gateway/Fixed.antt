-- ===== src/Gateway/Fixed.antt =====
-- src/gateway.rs sends the texts of a request to the fixed addresses only.
use agent_veil.Audit.{AuditEvent}
use agent_veil.Engine.Plan.{EngineError}
use agent_veil.Engine.Protect.{ProtectionOutcome}
use agent_veil.Gateway.Egress.{IsQuiet, responses-Sends}
use agent_veil.Gateway.Headers.{HeaderMap, UpstreamKind}
use agent_veil.Gateway.Responses.{Config, GatewayState, Moment, Request, Effect, responses}
use agent_veil.Gateway.Upstream.{
  Route, upstream_url, with_query, live_url, has_header, chatgpt_responses_url, api_responses_url,
}
use agent_veil.Prelude.{
  Text, Bool, ◌≡◌, ◌⊎◌, inl, inr, List, ◌∷◌, [], ◌++◌, Option, some, none, Result, Bool-cases, In,
  bytes, subst, In-append_split, refl, sym, ◌∙◌,
}

-- A quiet step sends nothing.
quiet_sent :
    (r : Request) (before after : List Effect)
    → IsQuiet before after
    → In (Effect.sent r) after
    → In (Effect.sent r) before
quiet_sent r before after (inl same) m = subst (In (Effect.sent r)) same m
quiet_sent r before after (inr (e, more)) m =
    elim (In-append_split _ before (Effect.recorded e ∷ []) (subst (In (Effect.sent r)) more m)) [
      | inl h ↦ h
      | inr (inl other) ↦ absurd (cc other)
      | inr (inr never) ↦ absurd never
    ]

-- The request is in the list if it was there before or has been sent in between.
sent_since :
    (r r' : Request) (e : AuditEvent) (before after : List Effect)
    → IsQuiet ((before ++ Effect.recorded e ∷ []) ++ Effect.sent r' ∷ []) after
    → In (Effect.sent r) after
    → In (Effect.sent r) before ⊎ (r ≡ r')
sent_since r r' e before after quiet m = one (
    In-append_split _ (before ++ Effect.recorded e ∷ []) (Effect.sent r' ∷ [])
      (quiet_sent r _ after quiet m))
  where
    one :
        In (Effect.sent r) (before ++ Effect.recorded e ∷ [])
          ⊎ In (Effect.sent r) (Effect.sent r' ∷ [])
        → In (Effect.sent r) before ⊎ (r ≡ r')
    one (inr (inl same)) = inr (cc same)
    one (inr (inr never)) = absurd never
    one (inl earlier) = elim (In-append_split _ before (Effect.recorded e ∷ []) earlier) [
      | inl h ↦ inl h
      | inr (inl other) ↦ absurd (cc other)
      | inr (inr never) ↦ absurd never
    ]

module _ (url_parse : Text → Option Text) (url_join : Text → Text → Option Text)
    (set_query : Text → Text → Text) where
  -- The address that the live service has for a request.
  abbrev pub IsFixed : Text → Type 0
  IsFixed url =
      (url_parse chatgpt_responses_url ≡ some url) ⊎ (url_parse api_responses_url ≡ some url)

  with_query-none : (o : Option Text) → with_query url_parse url_join set_query none o ≡ o
  unfolding with_query
  with_query-none none = refl
  with_query-none (some url) = refl

  upstream_url-IsFixed :
      (headers : HeaderMap) (url : Text)
      → upstream_url url_parse url_join set_query UpstreamKind.open_ai headers Route.responses_route
          none
        ≡ some url
      → IsFixed url
  unfolding upstream_url live_url
  upstream_url-IsFixed headers url h =
      elim (Bool-cases (has_header (bytes "chatgpt-account-id") headers)) [
        | inl t ↦ inl (sym (with_query-none _) ∙ (rw (t, live_url) at h))
        | inr f ↦ inr (sym (with_query-none _) ∙ (rw (f, live_url) at h))
      ]

  -- With the live service as upstream, a call of the handler for responses sends a request, if it
  -- sends one, to one of the two fixed addresses, whatever the headers and the body say.
  pub responses-IsFixed :
      {L : Type 0} (config : Config) (write : List Effect → AuditEvent → Bool)
      (send : List Effect → Request → Bool) (to_str : Text → Option Text)
      (protect : Text → L → Result EngineError ProtectionOutcome × L) (m : Moment)
      (headers : HeaderMap) (body : Text) (s : GatewayState L) (r : Request)
      → config.upstream ≡ UpstreamKind.open_ai
      → In
          (Effect.sent r)
          (responses config write send
            (λ h.
              upstream_url url_parse url_join set_query config.upstream h Route.responses_route
                none)
            to_str
            protect
            m
            headers
            body
            s).1.effects
      → In (Effect.sent r) s.effects ⊎ IsFixed r.url
  responses-IsFixed config write send to_str protect m headers body s r live sent =
      let choose = λ (h : HeaderMap).
        upstream_url url_parse url_join set_query config.upstream h Route.responses_route none in
      elim (responses-Sends config write send choose to_str protect m headers body s) [
        | inl quiet ↦ inl (quiet_sent r _ _ quiet sent)
        | inr
              (
                known,
                healthy,
                (forward, through, (e, r', (pending, same_body, same_headers, chosen), quiet)),
              ) ↦
            elim (sent_since r r' e _ _ quiet sent) [
              | inl before ↦ inl before
              | inr same ↦ inr (
                  subst (λ (q : Request). IsFixed q.url) (sym same)
                    (upstream_url-IsFixed headers r'.url (rw live at chosen)))
            ]
      ]
