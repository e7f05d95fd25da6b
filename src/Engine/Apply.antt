-- ===== src/Engine/Apply.antt =====
-- `apply_rewrites` of src/engine.rs. The ledger and `created_tokens` are the state.
use agent_veil.Engine.Plan.{EngineError, TargetPlan}
use agent_veil.Engine.Slice.{get_range, replace_range, is_char_boundary}
use agent_veil.Detector.{Decided}
use agent_veil.Domain.{DataClass, Action, Finding, token_label, action_eq}
use agent_veil.Ledger.{TokenLedger, LedgerError, issue_tracked}
use agent_veil.Payload.Request.{ValidatedRequest, replace_text}
use agent_veil.Policy.{ValidatedPolicy, rule_for, CategoryRule, default_restoration_ttl_seconds}
use agent_veil.Prelude.{
  ℕ, Text, bytes, true, false, not, ◌||◌, leb, none, some, List, [], ◌∷◌, ◌++◌, Result, ok, err,
  Run, and_then, if◌then◌else◌, text_eq, map_err, unwrap_or,
}

unfoldable pub mask : DataClass → Text
mask c = bytes "[REDACTED_" ++ (token_label c ++ bytes "]")

pub record Work (R : Type 0) : Type 0 where
  pub ledger : TokenLedger R
  pub created_tokens : List Text

-- `sort_by_key(|(finding, _)| Reverse(finding.source_span.start))`, which is stable.
unfoldable pub insert_reversed : Decided → List Decided → List Decided
insert_reversed d [] = d ∷ []
insert_reversed d (x ∷ xs) =
    let rest = insert_reversed d xs in
    if leb x.0.source_span.start d.0.source_span.start then d ∷ x ∷ xs else x ∷ rest

unfoldable pub sort_reversed : List Decided → List Decided
sort_reversed [] = []
sort_reversed (d ∷ ds) = insert_reversed d (sort_reversed ds)

-- `if rewritten != plan.original`
unfoldable pub write_back :
    TargetPlan → Text → ValidatedRequest → Result EngineError ValidatedRequest
write_back plan rewritten request =
    if text_eq rewritten plan.original
    then ok request
    else map_err EngineError.payload (replace_text request plan.target_index rewritten)

module _ {R : Type 0} (fill : R → Result LedgerError Text × R) (policy : ValidatedPolicy)
    (scope : Text) (now_ms : ℕ) where
  -- The token of a finding; a new one is pushed to `created_tokens`.
  unfoldable pub tokenize : DataClass → Text → CategoryRule → Work R → Run EngineError (Work R) Text
  tokenize c original rule w =
      let (result, ledger') =
        issue_tracked fill scope c original now_ms
          (unwrap_or rule.ttl_seconds default_restoration_ttl_seconds) w.ledger in
      elim result [
        | err e ↦ (err (EngineError.ledger e), record w { ledger = ledger' })
        | ok issued ↦ (
          ok issued.token,
          record {
            ledger = ledger';
            created_tokens =
                if issued.created then w.created_tokens ++ issued.token ∷ [] else w.created_tokens;
          },
        )
      ]

  -- The text that stands for a finding.
  unfoldable pub replacement : Finding → Action → Text → Work R → Run EngineError (Work R) Text
  replacement finding Action.block original w = (err EngineError.blocked_reached_rewrite, w)
  replacement finding Action.mask original w = (ok (mask finding.data_class), w)
  replacement finding Action.tokenize original w = elim (rule_for policy finding.data_class) [
    | none ↦ (err EngineError.panicked, w)
    | some rule ↦ tokenize finding.data_class original rule w
  ]
  replacement finding Action.allow original w = (ok [], w)

  -- One finding that is not allowed.
  unfoldable pub rewrite_finding : Text → Decided → Text → Work R → Run EngineError (Work R) Text
  rewrite_finding original (finding, action) rewritten w =
      if not (is_char_boundary rewritten finding.source_span.start)
        || not (is_char_boundary rewritten finding.source_span.end)
      then (err EngineError.invalid_rewrite_span, w)
      else elim (get_range original finding.source_span) [
        | none ↦ (err EngineError.invalid_rewrite_span, w)
        | some part ↦
            and_then (replacement finding action part w)
              (λ r w'. (ok (replace_range rewritten finding.source_span r), w'))
      ]

  -- The loop over the findings of a plan.
  unfoldable pub rewrite_findings :
      Text → List Decided → Text → Work R → Run EngineError (Work R) Text
  rewrite_findings original [] rewritten w = (ok rewritten, w)
  rewrite_findings original (d ∷ ds) rewritten w = elim (action_eq d.1 Action.allow) [
    | true ↦ rewrite_findings original ds rewritten w
    | false ↦
        and_then (rewrite_finding original d rewritten w)
          (λ rewritten' w'. rewrite_findings original ds rewritten' w')
  ]

  -- The loop over the plans.
  unfoldable pub apply_rewrites :
      List TargetPlan → ValidatedRequest → Work R → Run EngineError (Work R) ValidatedRequest
  apply_rewrites [] request w = (ok request, w)
  apply_rewrites (plan ∷ plans) request w =
      and_then (rewrite_findings plan.original (sort_reversed plan.findings) plan.original w)
        (λ rewritten t.
          and_then (write_back plan rewritten request, t)
            (λ request' u. apply_rewrites plans request' u))
