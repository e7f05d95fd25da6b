-- ===== src/Engine/Plan.antt =====
-- The first half of `protect` of src/engine.rs: which action each finding of each target gets, and
-- the summary of them.
use agent_veil.Engine.Slice.{get_range}
use agent_veil.Detector.{Decided, DetectorError, resolve_overlaps}
use agent_veil.Domain.{
  DataClass, Action, action_eq, Finding, FieldClass, DetectorId, Confidence, class_rank,
  detector_rank, confidence_rank, field_rank, class_eq,
}
use agent_veil.Ledger.{TokenLedger, LedgerError, owns_token}
use agent_veil.Payload.Request.{ValidatedRequest, text}
use agent_veil.Payload.Target.{PayloadError, TextTarget, RewriteMode}
use agent_veil.Policy.{ValidatedPolicy, rule_for}
use agent_veil.Prelude.{
  ℕ, ◌+◌, ◌^◌, ◌-◌, min, Text, Bool, true, false, not, ◌&&◌, ◌||◌, ◌==◌, ltb, leb, none, some, List,
  [], ◌∷◌, Result, ok, err, Run, and_then, if◌then◌else◌, any, length, map_err,
}

-- `panicked` stands for the panic of `rule_for` at a class that has no rule.
pub data EngineError : Type 0 where
  oversize invalid_rewrite_span blocked_reached_rewrite panicked : EngineError
  payload : PayloadError → EngineError
  detector : DetectorError → EngineError
  ledger : LedgerError → EngineError

pub record TargetPlan : Type 0 where
  pub target_index : ℕ
  pub field_class : FieldClass
  pub original : Text
  pub findings : List Decided

abbrev pub is_block_only : RewriteMode → Bool
is_block_only RewriteMode.block_only = true
is_block_only RewriteMode.rewrite = false

-- A target in block-only mode turns every action but `allow` into `block`.
unfoldable pub action_in : RewriteMode → Action → Action
action_in mode action =
    if is_block_only mode && not (action_eq action Action.allow) then Action.block else action

module _ {R : Type 0} (policy : ValidatedPolicy) (scope : Text) (now_ms : ℕ) where
  -- The action of the policy, or `allow` for a token that the ledger has issued to the scope.
  unfoldable pub base_action :
      Text → Finding → TokenLedger R → Run EngineError (TokenLedger R) Action
  base_action text finding s = elim (rule_for policy finding.data_class) [
    | none ↦ (err EngineError.panicked, s)
    | some rule ↦
        if class_eq finding.data_class DataClass.token_namespace
        then elim (get_range text finding.source_span) [
          | none ↦ (err EngineError.invalid_rewrite_span, s)
          | some candidate ↦
              let (owned, s') = owns_token scope candidate now_ms s in
              (ok (if owned then Action.allow else rule.action), s')
        ]
        else (ok rule.action, s)
  ]

  -- The loop over the findings of a text.
  unfoldable pub decide :
      RewriteMode
      → Text
      → List Finding
      → TokenLedger R
      → Run EngineError (TokenLedger R) (List Decided)
  decide mode text [] s = (ok [], s)
  decide mode text (finding ∷ findings) s = and_then (base_action text finding s) (λ action t.
      and_then (decide mode text findings t)
        (λ decided u. (ok ((finding, action_in mode action) ∷ decided), u)))

  module _ (scan : Text → Result DetectorError (List Finding)) where
    unfoldable pub plan_target :
        ValidatedRequest
        → ℕ
        → TextTarget
        → TokenLedger R
        → Run EngineError (TokenLedger R) TargetPlan
    plan_target request index target s =
        and_then (map_err EngineError.payload (text request target), s)
          (λ original t.
            and_then (map_err EngineError.detector (scan original), t)
              (λ found u. and_then (decide target.mode original found u) (λ decided w. (
                ok (record {
                  target_index = index;
                  field_class = target.field_class;
                  original = original;
                  findings = resolve_overlaps decided;
                }),
                w,
              ))))

    -- The loop over the targets, from a position on.
    unfoldable pub plan_targets :
        ValidatedRequest
        → ℕ
        → List TextTarget
        → TokenLedger R
        → Run EngineError (TokenLedger R) (List TargetPlan)
    plan_targets request index [] s = (ok [], s)
    plan_targets request index (target ∷ targets) s =
        and_then (plan_target request index target s) (λ plan t.
          and_then (plan_targets request (index + 1) targets t) (λ plans u. (ok (plan ∷ plans), u)))

pub record FindingSummary : Type 0 where
  pub detector : DetectorId
  pub data_class : DataClass
  pub confidence : Confidence
  pub action : Action
  pub source_field : FieldClass
  pub count : ℕ

pub record ProtectionSummary : Type 0 where
  pub scanned_fields : ℕ
  pub findings : List FindingSummary

abbrev pub u32_max : ℕ
u32_max = 2 ^ 32 - 1

-- The condition of the `find` in `summarize`.
unfoldable pub is_summary_of : FieldClass → Decided → FindingSummary → Bool
is_summary_of field_class (finding, action) summary =
    detector_rank summary.detector == detector_rank finding.detector
    && class_rank summary.data_class == class_rank finding.data_class
    && confidence_rank summary.confidence == confidence_rank finding.confidence
    && action_eq summary.action action
    && field_rank summary.source_field == field_rank field_class

-- One finding added to the summaries: a count, or a new summary behind.
unfoldable pub add_finding : FieldClass → Decided → List FindingSummary → List FindingSummary
add_finding field_class (finding, action) [] =
    record {
      detector = finding.detector;
      data_class = finding.data_class;
      confidence = finding.confidence;
      action = action;
      source_field = field_class;
      count = 1;
    }
    ∷ []
add_finding field_class decided (summary ∷ summaries) =
    if is_summary_of field_class decided summary
    then record summary { count = min (summary.count + 1) u32_max } ∷ summaries
    else summary ∷ add_finding field_class decided summaries

unfoldable pub add_findings : FieldClass → List Decided → List FindingSummary → List FindingSummary
add_findings field_class [] summaries = summaries
add_findings field_class (d ∷ ds) summaries =
    add_findings field_class ds (add_finding field_class d summaries)

unfoldable pub add_plans : List TargetPlan → List FindingSummary → List FindingSummary
add_plans [] summaries = summaries
add_plans (plan ∷ plans) summaries =
    add_plans plans (add_findings plan.field_class plan.findings summaries)

-- The order of `(data_class, detector, source_field)`.
unfoldable pub summary_le : FindingSummary → FindingSummary → Bool
summary_le a b =
    ltb (class_rank a.data_class) (class_rank b.data_class)
    || class_rank a.data_class == class_rank b.data_class
      && (ltb (detector_rank a.detector) (detector_rank b.detector)
          || detector_rank a.detector == detector_rank b.detector
            && leb (field_rank a.source_field) (field_rank b.source_field))

unfoldable pub insert_summary : FindingSummary → List FindingSummary → List FindingSummary
insert_summary a [] = a ∷ []
insert_summary a (b ∷ bs) =
    let rest = insert_summary a bs in if summary_le a b then a ∷ b ∷ bs else b ∷ rest

-- `sort_by_key`, which is stable.
unfoldable pub sort_summaries : List FindingSummary → List FindingSummary
sort_summaries [] = []
sort_summaries (a ∷ more) = insert_summary a (sort_summaries more)

unfoldable pub summarize : List TargetPlan → ProtectionSummary
summarize plans = record {
  scanned_fields = min (length plans) u32_max;
  findings = sort_summaries (add_plans plans []);
}

-- Some finding of the summary has the action.
unfoldable pub has_action : Action → ProtectionSummary → Bool
has_action action summary = any (λ f. action_eq f.action action) summary.findings
