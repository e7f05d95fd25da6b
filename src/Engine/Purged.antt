-- ===== src/Engine/Purged.antt =====
-- Planning, and a blocked request, issue no token: `protect` of src/engine.rs.
use agent_veil.Detector.{DetectorError}
use agent_veil.Engine.Apply.{Work}
use agent_veil.Engine.Slice.{get_range}
use agent_veil.Engine.Protect.{finish_rewrites, protect, enforce, ProtectionOutcome, serialize}
use agent_veil.Payload.Value.{Value}
use agent_veil.Engine.Plan.{
  EngineError, base_action, decide, plan_target, plan_targets, ProtectionSummary, has_action,
  summarize, TargetPlan,
}
use agent_veil.Domain.{Finding, class_eq, DataClass, Action}
use agent_veil.Ledger.{TokenLedger, purge_expired, owns_token, LedgerError}
use agent_veil.Ledger.Entries.{EntryMap, Entry, retain}
use agent_veil.Payload.Request.{ValidatedRequest, text, parse}
use agent_veil.Payload.Target.{PayloadError, TextTarget, RewriteMode}
use agent_veil.Policy.{ValidatedPolicy, rule_for}
use agent_veil.Prelude.{
  ℕ, ◌+◌, Text, Bool, ◌≡◌, refl, ◌⊎◌, inl, inr, List, [], ◌∷◌, Result, ok, err, Run, and_then,
  and_then-inversion, Bool-cases, ap, map_err, ◌∙◌, arith, Option-cases, Option, Result-cases, ltb,
  length, subst, sym,
}

retain_twice : (p : Entry → Bool) (m : EntryMap) → retain p (retain p m) ≡ retain p m
unfolding retain
retain_twice p [] = refl
retain_twice p ((k, e) ∷ m) = elim (Bool-cases (p e)) [
  | inl t ↦ ground (arith, retain_twice p m)
  | inr f ↦ ground (arith, retain_twice p m)
]

module _ {R : Type 0} (now : ℕ) where
  -- Nothing but the purge of expired tokens has changed the ledger.
  abbrev pub IsPurged : TokenLedger R → TokenLedger R → Type 0
  IsPurged s s' = (s' ≡ s) ⊎ (s' ≡ purge_expired now s)

  purge_twice : (s : TokenLedger R) → purge_expired now (purge_expired now s) ≡ purge_expired now s
  unfolding purge_expired
  purge_twice s = rw retain_twice refl

  IsPurged-trans : (s t u : TokenLedger R) → IsPurged s t → IsPurged t u → IsPurged s u
  IsPurged-trans s t u (inl e) (inl f) = inl (f ∙ e)
  IsPurged-trans s t u (inl e) (inr f) = inr (f ∙ ap (purge_expired now) e)
  IsPurged-trans s t u (inr e) (inl f) = inr (f ∙ e)
  IsPurged-trans s t u (inr e) (inr f) = inr (f ∙ ap (purge_expired now) e ∙ purge_twice s)

  and_then-IsPurged :
      {A B : Type 0} (s : TokenLedger R) (first : Run EngineError (TokenLedger R) A)
      (rest : A → TokenLedger R → Run EngineError (TokenLedger R) B)
      → IsPurged s first.1
      → ((a : A) (t : TokenLedger R) → IsPurged t (rest a t).1)
      → IsPurged s (and_then first rest).1
  and_then-IsPurged s (err e, t) rest h k = h
  and_then-IsPurged s (ok a, t) rest h k = IsPurged-trans s t (rest a t).1 h (k a t)

  module _ (policy : ValidatedPolicy) (scope : Text)
      (scan : Text → Result DetectorError (List Finding)) where
    base_action-IsPurged :
        (original : Text) (f : Finding) (s : TokenLedger R)
        → IsPurged s (base_action policy scope now original f s).1
    unfolding base_action owns_token
    base_action-IsPurged original f s = elim (Option-cases (rule_for policy f.data_class)) [
      | inl missing ↦ rw (missing, base_action) (inl refl)
      | inr (rule, known) ↦ elim (Bool-cases (class_eq f.data_class DataClass.token_namespace)) [
        | inr other ↦ rw (known, base_action, other) (inl refl)
        | inl token ↦ elim (Option-cases (get_range original f.source_span)) [
          | inl outside ↦ rw (known, base_action, token, outside) (inl refl)
          | inr (candidate, found) ↦ rw (known, base_action, token, found) (inr refl)
        ]
      ]
    ]

    decide-IsPurged :
        (mode : RewriteMode) (original : Text) (fs : List Finding) (s : TokenLedger R)
        → IsPurged s (decide policy scope now mode original fs s).1
    unfolding decide
    decide-IsPurged mode original [] s = inl refl
    decide-IsPurged mode original (f ∷ fs) s =
        and_then-IsPurged s (base_action policy scope now original f s) _
          (base_action-IsPurged original f s)
          (λ action t.
            and_then-IsPurged t (decide policy scope now mode original fs t) _
              (decide-IsPurged mode original fs t) (λ ds u. inl refl))

    plan_target-IsPurged :
        (request : ValidatedRequest) (i : ℕ) (target : TextTarget) (s : TokenLedger R)
        → IsPurged s (plan_target policy scope now scan request i target s).1
    unfolding plan_target
    plan_target-IsPurged request i target s =
        and_then-IsPurged s (map_err EngineError.payload (text request target), s) _ (inl refl)
          (λ original t.
            and_then-IsPurged t (map_err EngineError.detector (scan original), t) _ (inl refl)
              (λ found u.
                and_then-IsPurged u (decide policy scope now target.mode original found u) _
                  (decide-IsPurged target.mode original found u) (λ ds w. inl refl)))

    pub plan_targets-IsPurged :
        (request : ValidatedRequest) (i : ℕ) (targets : List TextTarget) (s : TokenLedger R)
        → IsPurged s (plan_targets policy scope now scan request i targets s).1
    unfolding plan_targets
    plan_targets-IsPurged request i [] s = inl refl
    plan_targets-IsPurged request i (target ∷ targets) s =
        and_then-IsPurged s (plan_target policy scope now scan request i target s) _
          (plan_target-IsPurged request i target s)
          (λ plan t.
            and_then-IsPurged t (plan_targets policy scope now scan request (i + 1) targets t) _
              (plan_targets-IsPurged request (i + 1) targets t) (λ plans u. inl refl))

module _ {R : Type 0} (fill : R → Result LedgerError Text × R) (policy : ValidatedPolicy)
    (from_slice : Text → Option Value) (to_vec : Value → Option Text)
    (scan : Text → Result DetectorError (List Finding)) where
  not_blocked :
      (scope : Text) (summary found : ProtectionSummary)
      (r : Run EngineError (Work R) ValidatedRequest) (s : TokenLedger R)
      → ¬ (
          finish_rewrites fill policy from_slice to_vec scan scope summary r
          ≡ (ok (ProtectionOutcome.blocked found), s))
  unfolding finish_rewrites
  not_blocked scope summary found (err e, w) s h = cc h
  not_blocked scope summary found (ok request, w) s h =
      elim (Result-cases (serialize fill policy from_slice to_vec scan request)) [
        | inl (body, made) ↦ cc (rw (made, finish_rewrites) at h)
        | inr (e, failed) ↦ cc (rw (failed, finish_rewrites) at h)
      ]

  -- A blocked request was blocked before the rewrites.
  enforce_blocked :
      (scope : Text) (now : ℕ) (request : ValidatedRequest) (plans : List TargetPlan)
      (u s' : TokenLedger R) (found : ProtectionSummary)
      → enforce fill policy from_slice to_vec scan scope now request plans u
        ≡ (ok (ProtectionOutcome.blocked found), s')
      → s' ≡ u
  unfolding enforce
  enforce_blocked scope now request plans u s' found h =
      elim (Bool-cases (has_action Action.block (summarize plans))) [
        | inl b ↦ cc (rw (b, enforce) at h)
        | inr b ↦ absurd (not_blocked scope _ found _ s' (rw (b, enforce) at h))
      ]

  -- What a call that succeeds has done: it has parsed, planned and enforced.
  pub protect-inversion :
      (body scope : Text) (now : ℕ) (s s' : TokenLedger R) (outcome : ProtectionOutcome)
      → protect fill policy from_slice to_vec scan body scope now s ≡ (ok outcome, s')
      → (request : ValidatedRequest) × (plans : List TargetPlan) × (u : TokenLedger R) × (parse
            from_slice body
          ≡ ok request)
        × (plan_targets policy scope now scan request 0 request.targets s ≡ (ok plans, u))
        × (enforce fill policy from_slice to_vec scan scope now request plans u ≡ (ok outcome, s'))
  unfolding protect
  protect-inversion body scope now s s' outcome h =
      elim (Bool-cases (ltb policy.inner.defaults.max_request_bytes (length body))) [
        | inl big ↦ absurd (cc (rw (big, protect) at h))
        | inr small ↦ parsed_case (parse from_slice body) refl (rw (small, protect) at h)
      ]
    where
      parsed_case :
          (p : Result PayloadError ValidatedRequest)
          → parse from_slice body ≡ p
          → and_then
              (map_err EngineError.payload p, s)
              (λ request t.
                and_then
                  (plan_targets policy scope now scan request 0 request.targets t)
                  (λ plans u. enforce fill policy from_slice to_vec scan scope now request plans u))
            ≡ (ok outcome, s')
          → (request : ValidatedRequest) × (plans : List TargetPlan) × (u : TokenLedger R) × (parse
                from_slice body
              ≡ ok request)
            × (plan_targets policy scope now scan request 0 request.targets s ≡ (ok plans, u))
            × (enforce fill policy from_slice to_vec scan scope now request plans u
                ≡ (ok outcome, s'))
      parsed_case (err e) q k = absurd (cc k)
      parsed_case (ok request) q k =
          let (plans, u, planned, last) =
            and_then-inversion (plan_targets policy scope now scan request 0 request.targets s)
              (λ plans u. enforce fill policy from_slice to_vec scan scope now request plans u)
              outcome s' k in
          (request, plans, u, q, planned, last)

  -- A request that is blocked issues no token: the ledger is the one before, or what a purge of the
  -- expired tokens leaves of it.
  pub protect_blocked :
      (body scope : Text) (now : ℕ) (s s' : TokenLedger R) (summary : ProtectionSummary)
      → protect fill policy from_slice to_vec scan body scope now s
        ≡ (ok (ProtectionOutcome.blocked summary), s')
      → IsPurged now s s'
  protect_blocked body scope now s s' summary h =
      let (request, plans, u, parsed, planned, last) =
        protect-inversion body scope now s s' (ProtectionOutcome.blocked summary) h in
      let kept = enforce_blocked scope now request plans u s' summary last in
      subst (λ r. IsPurged now s r) (ap (λ r. r.1) planned ∙ sym kept)
        (plan_targets-IsPurged now policy scope scan request 0 request.targets s)
