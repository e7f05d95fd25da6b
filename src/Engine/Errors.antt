-- ===== src/Engine/Errors.antt =====
-- Errors that `protect` of src/engine.rs never returns: the panic of `rule_for`, and a blocked finding
-- that reaches the rewrites.
use agent_veil.Engine.Protect.{serialize, finish_rewrites, enforce, protect}
use agent_veil.Payload.Value.{Value}
use agent_veil.Payload.Request.{ValidatedRequest, text, replace_text, parse}
use agent_veil.Engine.Slice.{get_range, is_char_boundary}
use agent_veil.Ledger.{TokenLedger, LedgerError, issue_tracked}
use agent_veil.Payload.Target.{RewriteMode, TextTarget, PayloadError}
use agent_veil.Policy.Accepts.{rule_for_total}
use agent_veil.Policy.{
  Policy, validate, ValidatedPolicy, CategoryRule, rule_for, default_restoration_ttl_seconds,
}
use agent_veil.Engine.Apply.{
  sort_reversed, tokenize, replacement, rewrite_finding, rewrite_findings, write_back,
  apply_rewrites, Work,
}
use agent_veil.Engine.Plan.{
  TargetPlan, has_action, summarize, EngineError, base_action, decide, plan_target, plan_targets,
  ProtectionSummary,
}
use agent_veil.Detector.{Decided, DetectorError}
use agent_veil.Domain.{Action, action_eq, DataClass, Finding, class_eq}
use agent_veil.Prelude.{
  false, ◌≡◌, inl, inr, List, [], ◌∷◌, Bool-cases, All, ◌+◌, ◌||◌, subst, Run, err, Result, Text, ℕ,
  some, and_then_errors, map_err, Option-cases, ok, Option, text_eq, unwrap_or, not, ltb,
  Result-cases, length,
}
use agent_veil.Engine.Passed.{IsPassed, HasPassed, plans-HasPassed, sort_reversed-All}

-- The errors that a call cannot end with.
abbrev pub IsReachable : EngineError → Type 0
IsReachable EngineError.panicked = ⊥
IsReachable EngineError.blocked_reached_rewrite = ⊥
IsReachable _ = Unit

-- Every class has a rule.
abbrev HasRules : ValidatedPolicy → Type 0
HasRules policy = (c : DataClass) → (r : CategoryRule) × (rule_for policy c ≡ some r)

abbrev Fails : {S A : Type 0} → Run EngineError S A → Type 0
Fails r = (e : EngineError) → r.0 ≡ err e → IsReachable e

of_err :
    {A : Type 0} (x e : EngineError)
    → ◌≡◌ {A = Result EngineError A} (err x) (err e)
    → IsReachable x
    → IsReachable e
of_err x e h r = subst IsReachable (cc h) r

map_err-Fails :
    {E A : Type 0} (f : E → EngineError) (r : Result E A)
    → ((x : E) → IsReachable (f x))
    → (e : EngineError) → map_err f r ≡ err e
    → IsReachable e
map_err-Fails f (ok a) k e h = absurd (cc h)
map_err-Fails f (err x) k e h = of_err (f x) e h (k x)

module _ {R : Type 0} (policy : ValidatedPolicy) (rules : HasRules policy) (scope : Text)
    (now : ℕ) where
  base_action-Fails :
      (original : Text) (f : Finding) (s : TokenLedger R)
      → Fails (base_action policy scope now original f s)
  unfolding base_action
  base_action-Fails original f s e h =
      let (rule, known) = rules f.data_class in
      elim (Bool-cases (class_eq f.data_class DataClass.token_namespace)) [
        | inr other ↦ absurd (cc (rw (known, base_action, other) at h))
        | inl token ↦ elim (Option-cases (get_range original f.source_span)) [
          | inl outside ↦
              of_err EngineError.invalid_rewrite_span e
                (rw (known, base_action, token, outside) at h) tt
          | inr (candidate, found) ↦ absurd (cc (rw (known, base_action, token, found) at h))
        ]
      ]

  decide-Fails :
      (mode : RewriteMode) (original : Text) (fs : List Finding) (s : TokenLedger R)
      → Fails (decide policy scope now mode original fs s)
  unfolding decide
  decide-Fails mode original [] s = λ e h. absurd (cc h)
  decide-Fails mode original (f ∷ fs) s =
      and_then_errors IsReachable (base_action policy scope now original f s) _
        (base_action-Fails original f s)
        (λ action t q.
          and_then_errors IsReachable (decide policy scope now mode original fs t) _
            (decide-Fails mode original fs t) (λ ds u q' e h. absurd (cc h)))

  plan_target-Fails :
      (scan : Text → Result DetectorError (List Finding)) (request : ValidatedRequest) (i : ℕ)
      (target : TextTarget) (s : TokenLedger R)
      → Fails (plan_target policy scope now scan request i target s)
  unfolding plan_target
  plan_target-Fails scan request i target s =
      and_then_errors IsReachable (map_err EngineError.payload (text request target), s) _
        (map_err-Fails EngineError.payload (text request target) (λ x. tt))
        (λ original t q.
          and_then_errors IsReachable (map_err EngineError.detector (scan original), t) _
            (map_err-Fails EngineError.detector (scan original) (λ x. tt))
            (λ found u q'.
              and_then_errors IsReachable (decide policy scope now target.mode original found u) _
                (decide-Fails target.mode original found u) (λ ds w q'' e h. absurd (cc h))))

  plan_targets-Fails :
      (scan : Text → Result DetectorError (List Finding)) (request : ValidatedRequest) (i : ℕ)
      (targets : List TextTarget) (s : TokenLedger R)
      → Fails (plan_targets policy scope now scan request i targets s)
  unfolding plan_targets
  plan_targets-Fails scan request i [] s = λ e h. absurd (cc h)
  plan_targets-Fails scan request i (target ∷ targets) s =
      and_then_errors IsReachable (plan_target policy scope now scan request i target s) _
        (plan_target-Fails scan request i target s)
        (λ plan t q.
          and_then_errors IsReachable (plan_targets policy scope now scan request (i + 1) targets t)
            _ (plan_targets-Fails scan request (i + 1) targets t) (λ plans u q' e h. absurd (cc h)))

  module _ (fill : R → Result LedgerError Text × R) where
    tokenize-Fails :
        (c : DataClass) (part : Text) (rule : CategoryRule) (w : Work R)
        → Fails (tokenize fill policy scope now c part rule w)
    unfolding tokenize
    tokenize-Fails c part rule w e h =
        let ttl = unwrap_or rule.ttl_seconds default_restoration_ttl_seconds in
        elim (Result-cases (issue_tracked fill scope c part now ttl w.ledger).0) [
          | inl (issued, done) ↦ absurd (cc (rw (done, tokenize) at h))
          | inr (x, failed) ↦ of_err (EngineError.ledger x) e (rw (failed, tokenize) at h) tt
        ]

    replacement-Fails :
        (f : Finding) (a : Action) (part : Text) (w : Work R)
        → action_eq a Action.block ≡ false
        → Fails (replacement fill policy scope now f a part w)
    unfolding replacement
    replacement-Fails f Action.block part w passed = absurd (unfold action_eq in cc passed)
    replacement-Fails f Action.mask part w passed = λ e h. absurd (cc h)
    replacement-Fails f Action.allow part w passed = λ e h. absurd (cc h)
    replacement-Fails f Action.tokenize part w passed =
        let (rule, known) = rules f.data_class in
        rw (known, replacement) (tokenize-Fails f.data_class part rule w)

    rewrite_finding-Fails :
        (original : Text) (d : Decided) (rewritten : Text) (w : Work R)
        → IsPassed d
        → Fails (rewrite_finding fill policy scope now original d rewritten w)
    unfolding rewrite_finding
    rewrite_finding-Fails original (f, a) rewritten w passed e h =
        elim (Bool-cases (
          not (is_char_boundary rewritten f.source_span.start)
          || not (is_char_boundary rewritten f.source_span.end))) [
            | inl outside ↦
                of_err EngineError.invalid_rewrite_span e (rw (outside, rewrite_finding) at h) tt
            | inr inside ↦ elim (Option-cases (get_range original f.source_span)) [
              | inl missing ↦
                  of_err EngineError.invalid_rewrite_span e
                    (rw (inside, rewrite_finding, missing) at h) tt
              | inr (part, found) ↦
                  and_then_errors IsReachable (replacement fill policy scope now f a part w) _
                    (replacement-Fails f a part w passed) (λ r t q x k. absurd (cc k)) e
                    (rw (inside, rewrite_finding, found) at h)
            ]
          ]

    rewrite_findings-Fails :
        (original : Text) (ds : List Decided) (rewritten : Text) (w : Work R)
        → All IsPassed ds
        → Fails (rewrite_findings fill policy scope now original ds rewritten w)
    unfolding rewrite_findings
    rewrite_findings-Fails original [] rewritten w passed = λ e h. absurd (cc h)
    rewrite_findings-Fails original (d ∷ ds) rewritten w passed =
        elim (Bool-cases (action_eq d.1 Action.allow)) [
          | inl skip ↦
              rw (skip, rewrite_findings) (rewrite_findings-Fails original ds rewritten w passed.1)
          | inr change ↦
              rw (change, rewrite_findings)
                (and_then_errors IsReachable
                  (rewrite_finding fill policy scope now original d rewritten w) _
                  (rewrite_finding-Fails original d rewritten w passed.0)
                  (λ r t q. rewrite_findings-Fails original ds r t passed.1))
        ]

    write_back-Fails :
        (plan : TargetPlan) (rewritten : Text) (request : ValidatedRequest) (e : EngineError)
        → write_back plan rewritten request ≡ err e
        → IsReachable e
    unfolding write_back
    write_back-Fails plan rewritten request e h =
        elim (Bool-cases (text_eq rewritten plan.original)) [
          | inl same ↦ absurd (cc (rw (same, write_back) at h))
          | inr new ↦
              map_err-Fails EngineError.payload (replace_text request plan.target_index rewritten)
                (λ x. tt) e (rw (new, write_back) at h)
        ]

    apply_rewrites-Fails :
        (plans : List TargetPlan) (request : ValidatedRequest) (w : Work R)
        → All HasPassed plans
        → Fails (apply_rewrites fill policy scope now plans request w)
    unfolding apply_rewrites
    apply_rewrites-Fails [] request w passed = λ e h. absurd (cc h)
    apply_rewrites-Fails (plan ∷ plans) request w passed =
        and_then_errors IsReachable
          (rewrite_findings fill policy scope now plan.original (sort_reversed plan.findings)
            plan.original w)
          _
          (rewrite_findings-Fails plan.original (sort_reversed plan.findings) plan.original w
            (sort_reversed-All IsPassed plan.findings passed.0))
          (λ rewritten t q.
            and_then_errors IsReachable (write_back plan rewritten request, t) _
              (write_back-Fails plan rewritten request)
              (λ request' u q'. apply_rewrites-Fails plans request' u passed.1))

    module _ (from_slice : Text → Option Value) (to_vec : Value → Option Text)
        (scan : Text → Result DetectorError (List Finding)) where
      serialize-Fails :
          (request : ValidatedRequest) (e : EngineError)
          → serialize fill policy from_slice to_vec scan request ≡ err e
          → IsReachable e
      unfolding serialize
      serialize-Fails request e h = elim (Option-cases (to_vec request.value)) [
        | inl failed ↦
            of_err (EngineError.payload PayloadError.serialize) e (rw (failed, serialize) at h) tt
        | inr (body, made) ↦ absurd (cc (rw (made, serialize) at h))
      ]

      finish_rewrites-Fails :
          (summary : ProtectionSummary) (r : Run EngineError (Work R) ValidatedRequest)
          → Fails r
          → Fails (finish_rewrites fill policy from_slice to_vec scan scope summary r)
      unfolding finish_rewrites
      finish_rewrites-Fails summary (err x, w) k e h = k e (cc h)
      finish_rewrites-Fails summary (ok request, w) k e h =
          elim (Result-cases (serialize fill policy from_slice to_vec scan request)) [
            | inl (body, made) ↦ absurd (cc (rw (made, finish_rewrites) at h))
            | inr (x, failed) ↦
                of_err x e (rw (failed, finish_rewrites) at h) (serialize-Fails request x failed)
          ]

      enforce-Fails :
          (request : ValidatedRequest) (plans : List TargetPlan) (s : TokenLedger R)
          → Fails (enforce fill policy from_slice to_vec scan scope now request plans s)
      unfolding enforce
      enforce-Fails request plans s e h =
          elim (Bool-cases (has_action Action.block (summarize plans))) [
            | inl b ↦ absurd (cc (rw (b, enforce) at h))
            | inr b ↦
                finish_rewrites-Fails (summarize plans) _
                  (apply_rewrites-Fails plans request (record { ledger = s; created_tokens = [] })
                    (plans-HasPassed plans b))
                  e (rw (b, enforce) at h)
          ]

      protect-Fails :
          (body : Text) (s : TokenLedger R)
          → Fails (protect fill policy from_slice to_vec scan body scope now s)
      unfolding protect
      protect-Fails body s e h =
          elim (Bool-cases (ltb policy.inner.defaults.max_request_bytes (length body))) [
            | inl big ↦ of_err EngineError.oversize e (rw (big, protect) at h) tt
            | inr small ↦
                and_then_errors IsReachable (map_err EngineError.payload (parse from_slice body), s)
                  _ (map_err-Fails EngineError.payload (parse from_slice body) (λ x. tt))
                  (λ request t q.
                    and_then_errors IsReachable
                      (plan_targets policy scope now scan request 0 request.targets t) _
                      (plan_targets-Fails scan request 0 request.targets t)
                      (λ plans u q'. enforce-Fails request plans u))
                  e (rw (small, protect) at h)
          ]

-- Under a policy that validation has accepted, `protect` never panics for want of a rule, and no
-- blocked finding reaches the rewrites.
pub protect-IsReachable :
    {R : Type 0} (policy_to_vec : Policy → Option Text) (digest : Text → Text) (p : Policy)
    (policy : ValidatedPolicy)
    → validate policy_to_vec digest p ≡ ok policy
    → (fill : R → Result LedgerError Text × R) (from_slice : Text → Option Value)
      (to_vec : Value → Option Text) (scan : Text → Result DetectorError (List Finding))
      (body scope : Text) (now : ℕ) (s : TokenLedger R) (e : EngineError)
    → (protect fill policy from_slice to_vec scan body scope now s).0 ≡ err e
    → IsReachable e
protect-IsReachable policy_to_vec digest p policy valid fill from_slice to_vec scan body scope now
      s =
    protect-Fails policy rules scope now fill from_slice to_vec scan body s
  where
    rules : (c : DataClass) → (r : CategoryRule) × (rule_for policy c ≡ some r)
    rules c =
        let (r, known, safe) = rule_for_total policy_to_vec digest p policy valid c in (r, known)
