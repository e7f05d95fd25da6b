-- ===== src/Engine/Valid.antt =====
-- `protect` and `restore_display_text` of src/engine.rs keep the invariant of the ledger.
use agent_veil.Ledger.Issued.{issue_tracked-IsValid}
use agent_veil.Engine.Protect.{finish_rewrites, enforce, protect, serialize}
use agent_veil.Payload.Value.{Value}
use agent_veil.Engine.Purged.{IsPurged, plan_targets-IsPurged}
use agent_veil.Engine.Plan.{
  EngineError, TargetPlan, ProtectionSummary, has_action, summarize, plan_targets,
}
use agent_veil.Engine.Apply.{
  Work, tokenize, replacement, rewrite_finding, rewrite_findings, apply_rewrites, sort_reversed,
  write_back,
}
use agent_veil.Engine.Slice.{is_char_boundary, get_range}
use agent_veil.Detector.{Decided, DetectorError}
use agent_veil.Domain.{Action, Finding, DataClass, action_eq}
use agent_veil.Ledger.{TokenLedger, LedgerError, issue_tracked}
use agent_veil.Ledger.Invariant.{IsValid, purge_expired-IsValid, rollback_created-IsValid}
use agent_veil.Payload.Request.{ValidatedRequest, parse}
use agent_veil.Policy.{ValidatedPolicy, CategoryRule, rule_for, default_restoration_ttl_seconds}
use agent_veil.Prelude.{
  ℕ, Text, not, ◌||◌, inl, inr, List, [], ◌∷◌, Result, ok, and_then_keeps, Bool-cases, Option-cases,
  map_err, subst, sym, Option, ltb, Run, length, err, Result-cases, unwrap_or,
}

IsPurged-IsValid :
    {R : Type 0} (now : ℕ) (s s' : TokenLedger R) → IsPurged now s s' → IsValid s → IsValid s'
IsPurged-IsValid now s s' (inl e) v = subst IsValid (sym e) v
IsPurged-IsValid now s s' (inr e) v = subst IsValid (sym e) (purge_expired-IsValid now s v)

module _ {R : Type 0} where
  abbrev HasValid : Work R → Type 0
  HasValid w = IsValid w.ledger

module _ {R : Type 0} (fill : R → Result LedgerError Text × R) (policy : ValidatedPolicy)
    (scope : Text) (now : ℕ) where
  tokenize-HasValid :
      (c : DataClass) (part : Text) (rule : CategoryRule) (w : Work R)
      → HasValid w
      → HasValid (tokenize fill policy scope now c part rule w).1
  unfolding tokenize
  tokenize-HasValid c part rule w v =
      let ttl = unwrap_or rule.ttl_seconds default_restoration_ttl_seconds in
      let kept = issue_tracked-IsValid fill scope c part now ttl w.ledger v in
      elim (Result-cases (issue_tracked fill scope c part now ttl w.ledger).0) [
        | inl (issued, done) ↦ rw (done, tokenize) kept
        | inr (e, failed) ↦ rw (failed, tokenize) kept
      ]

  replacement-HasValid :
      (f : Finding) (a : Action) (part : Text) (w : Work R)
      → HasValid w
      → HasValid (replacement fill policy scope now f a part w).1
  unfolding replacement
  replacement-HasValid f Action.block part w v = v
  replacement-HasValid f Action.mask part w v = v
  replacement-HasValid f Action.allow part w v = v
  replacement-HasValid f Action.tokenize part w v =
      elim (Option-cases (rule_for policy f.data_class)) [
        | inl missing ↦ rw (missing, replacement) v
        | inr (rule, known) ↦ rw (known, replacement) (tokenize-HasValid f.data_class part rule w v)
      ]

  rewrite_finding-HasValid :
      (original : Text) (d : Decided) (rewritten : Text) (w : Work R)
      → HasValid w
      → HasValid (rewrite_finding fill policy scope now original d rewritten w).1
  unfolding rewrite_finding
  rewrite_finding-HasValid original (f, a) rewritten w v =
      elim (Bool-cases (
        not (is_char_boundary rewritten f.source_span.start)
        || not (is_char_boundary rewritten f.source_span.end))) [
          | inl outside ↦ rw (outside, rewrite_finding) v
          | inr inside ↦ elim (Option-cases (get_range original f.source_span)) [
            | inl missing ↦ rw (inside, rewrite_finding, missing) v
            | inr (part, found) ↦
                rw (inside, rewrite_finding, found)
                  (and_then_keeps HasValid (replacement fill policy scope now f a part w) _
                    (replacement-HasValid f a part w v) (λ r t k. k))
          ]
        ]

  rewrite_findings-HasValid :
      (original : Text) (ds : List Decided) (rewritten : Text) (w : Work R)
      → HasValid w
      → HasValid (rewrite_findings fill policy scope now original ds rewritten w).1
  unfolding rewrite_findings
  rewrite_findings-HasValid original [] rewritten w v = v
  rewrite_findings-HasValid original (d ∷ ds) rewritten w v =
      elim (Bool-cases (action_eq d.1 Action.allow)) [
        | inl skip ↦
            rw (skip, rewrite_findings) (rewrite_findings-HasValid original ds rewritten w v)
        | inr change ↦
            rw (change, rewrite_findings)
              (and_then_keeps HasValid
                (rewrite_finding fill policy scope now original d rewritten w) _
                (rewrite_finding-HasValid original d rewritten w v)
                (λ r t k. rewrite_findings-HasValid original ds r t k))
      ]

  apply_rewrites-HasValid :
      (plans : List TargetPlan) (request : ValidatedRequest) (w : Work R)
      → HasValid w
      → HasValid (apply_rewrites fill policy scope now plans request w).1
  unfolding apply_rewrites
  apply_rewrites-HasValid [] request w v = v
  apply_rewrites-HasValid (plan ∷ plans) request w v =
      and_then_keeps HasValid
        (rewrite_findings fill policy scope now plan.original (sort_reversed plan.findings)
          plan.original w)
        _ (rewrite_findings-HasValid plan.original (sort_reversed plan.findings) plan.original w v)
        (λ rewritten t k.
          and_then_keeps HasValid (write_back plan rewritten request, t) _ k
            (λ request' u j. apply_rewrites-HasValid plans request' u j))

module _ {R : Type 0} (fill : R → Result LedgerError Text × R) (policy : ValidatedPolicy)
    (from_slice : Text → Option Value) (to_vec : Value → Option Text)
    (scan : Text → Result DetectorError (List Finding)) where
  finish_rewrites-IsValid :
      (scope : Text) (summary : ProtectionSummary) (r : Run EngineError (Work R) ValidatedRequest)
      → IsValid r.1.ledger
      → IsValid (finish_rewrites fill policy from_slice to_vec scan scope summary r).1
  unfolding finish_rewrites
  finish_rewrites-IsValid scope summary (err e, w) v =
      rollback_created-IsValid scope w.created_tokens w.ledger v
  finish_rewrites-IsValid scope summary (ok request, w) v =
      elim (Result-cases (serialize fill policy from_slice to_vec scan request)) [
        | inl (body, made) ↦ rw (made, finish_rewrites) v
        | inr (e, failed) ↦
            rw (failed, finish_rewrites)
              (rollback_created-IsValid scope w.created_tokens w.ledger v)
      ]

  enforce-IsValid :
      (scope : Text) (now : ℕ) (request : ValidatedRequest) (plans : List TargetPlan)
      (s : TokenLedger R)
      → IsValid s
      → IsValid (enforce fill policy from_slice to_vec scan scope now request plans s).1
  unfolding enforce
  enforce-IsValid scope now request plans s v =
      elim (Bool-cases (has_action Action.block (summarize plans))) [
        | inl b ↦ rw (b, enforce) v
        | inr b ↦
            rw (b, enforce)
              (finish_rewrites-IsValid scope (summarize plans) _ (
                apply_rewrites-HasValid fill policy scope now plans request
                  (record { ledger = s; created_tokens = [] }) v))
      ]

  -- Every call of `protect`, with whatever outcome or error, keeps the invariant of the ledger.
  pub protect-IsValid :
      (body scope : Text) (now : ℕ) (s : TokenLedger R)
      → IsValid s
      → IsValid (protect fill policy from_slice to_vec scan body scope now s).1
  unfolding protect
  protect-IsValid body scope now s v =
      elim (Bool-cases (ltb policy.inner.defaults.max_request_bytes (length body))) [
        | inl big ↦ rw (big, protect) v
        | inr small ↦
            rw (small, protect)
              (and_then_keeps IsValid (map_err EngineError.payload (parse from_slice body), s) _ v
                (λ request t k.
                  and_then_keeps IsValid
                    (plan_targets policy scope now scan request 0 request.targets t) _
                    (IsPurged-IsValid now t _
                      (plan_targets-IsPurged now policy scope scan request 0 request.targets t) k)
                    (λ plans u j. enforce-IsValid scope now request plans u j)))
      ]
