-- ===== src/Engine/Protect.antt =====
-- `protect` and `restore_display_text` of src/engine.rs.
use agent_veil.Detector.{DetectorError}
use agent_veil.Engine.Apply.{Work, apply_rewrites}
use agent_veil.Engine.Plan.{
  EngineError, TargetPlan, ProtectionSummary, plan_targets, summarize, has_action,
}
use agent_veil.Engine.Slice.{replace_range}
use agent_veil.Domain.{Action, Finding, Span}
use agent_veil.Ledger.{TokenLedger, LedgerError, rollback_created, restore_exact}
use agent_veil.Payload.Request.{ValidatedRequest, parse}
use agent_veil.Payload.Target.{PayloadError}
use agent_veil.Payload.Value.{Value}
use agent_veil.Policy.{ValidatedPolicy}
use agent_veil.Prelude.{
  ℕ, Text, ◌||◌, ltb, Option, none, some, List, [], ◌∷◌, Result, ok, err, Run, and_then,
  if◌then◌else◌, length, map_err, ok_or,
}

pub data ForwardDecision : Type 0 where
  allowed rewritten : ForwardDecision

pub record ForwardRequest : Type 0 where
  pub body : Text
  pub decision : ForwardDecision
  pub summary : ProtectionSummary

pub data ProtectionOutcome : Type 0 where
  forward : ForwardRequest → ProtectionOutcome
  blocked : ProtectionSummary → ProtectionOutcome

module _ {R : Type 0} (fill : R → Result LedgerError Text × R) (policy : ValidatedPolicy)
    (from_slice : Text → Option Value) (to_vec : Value → Option Text)
    (scan : Text → Result DetectorError (List Finding)) where
  -- `request.serialize()`
  unfoldable pub serialize : ValidatedRequest → Result EngineError Text
  serialize request = ok_or (to_vec request.value) (EngineError.payload PayloadError.serialize)

  -- The result of the rewrites: a failure takes the created tokens back.
  unfoldable pub finish_rewrites :
      Text
      → ProtectionSummary
      → Run EngineError (Work R) ValidatedRequest
      → Run EngineError (TokenLedger R) ProtectionOutcome
  finish_rewrites scope summary (err e, w) =
      (err e, rollback_created scope w.created_tokens w.ledger)
  finish_rewrites scope summary (ok request, w) = elim (serialize request) [
    | err e ↦ (err e, rollback_created scope w.created_tokens w.ledger)
    | ok body ↦ (
      ok (
          ProtectionOutcome.forward (record {
            body = body;
            decision =
                if has_action Action.mask summary || has_action Action.tokenize summary
                then ForwardDecision.rewritten
                else ForwardDecision.allowed;
            summary = summary;
          })),
      w.ledger,
    )
  ]

  -- `protect` after the plans are made.
  unfoldable pub enforce :
      Text
      → ℕ
      → ValidatedRequest
      → List TargetPlan
      → TokenLedger R
      → Run EngineError (TokenLedger R) ProtectionOutcome
  enforce scope now_ms request plans s =
      if has_action Action.block (summarize plans)
      then (ok (ProtectionOutcome.blocked (summarize plans)), s)
      else finish_rewrites scope (summarize plans) (
          apply_rewrites fill policy scope now_ms plans request
            (record { ledger = s; created_tokens = [] }))

  unfoldable pub protect :
      Text → Text → ℕ → TokenLedger R → Run EngineError (TokenLedger R) ProtectionOutcome
  protect body scope now_ms s =
      if ltb policy.inner.defaults.max_request_bytes (length body)
      then (err EngineError.oversize, s)
      else and_then (map_err EngineError.payload (parse from_slice body), s)
          (λ request t.
            and_then (plan_targets policy scope now_ms scan request 0 request.targets t)
              (λ plans u. enforce scope now_ms request plans u))

module _ {R : Type 0} (find_iter : Text → List (Span × Text)) where
  -- The loop over the candidates, the last one first: they come here in the order of the text.
  unfoldable pub restore_candidates :
      Text → ℕ → List (Span × Text) → Text → TokenLedger R → Text × TokenLedger R
  restore_candidates scope now_ms [] restored s = (restored, s)
  restore_candidates scope now_ms ((span, token) ∷ more) restored s =
      let (later, t) = restore_candidates scope now_ms more restored s in
      let (value, u) = restore_exact scope token now_ms t in
      elim value [ none ↦ (later, u) | some v ↦ (replace_range later span v, u) ]

  unfoldable pub restore_display_text : Text → Text → ℕ → TokenLedger R → Text × TokenLedger R
  restore_display_text scope text now_ms s = restore_candidates scope now_ms (find_iter text) text s
